-- ===== src/Resolution/Served.antt =====
-- What a resolution that serves content has verified.
use federate.Base.{
  Bytes, Text, Option, some, true, false, not, ◌≡◌, refl, subst, ap, arith, text_eq, text_eq_iff,
  get,
}
use federate.Core.{Result, ok, >>=-eq-ok}
use federate.Naming
use federate.Naming.{FederateDomain, RegistryType, fqdn, is_resolvable_tld, is_resolvable_domain}
use federate.Naming.Record.{DomainRecord}
use federate.Root.{RootZone, TldRecord, lookup_tld, lookup}
use federate.Registry.{TldRegistry}
use federate.Registry
use federate.Manifest.{Manifest, resolve_path}
use federate.Manifest
use federate.Host.{Host}
use federate.Storage.{hash_bytes}
use federate.Store.Actions.DomainWrites.{ok_or-some}
use federate.Signing.Tlds
use federate.Signing.Domains
use federate.Signing.Manifests
use federate.Signing.Zones
use federate.Resolution.{Resolver, Net, Io, and_then-eq-ok}
use federate.Resolution.Documents.{manifest_bytes, read_valid, manifest}
use federate.Resolution.Registries.{tld_registry, locate_by_type, from_registry}
use federate.Resolution.Vouched.{IsSigned, ReadsRegistries}
use federate.Resolution.Current.{tld_registry-IsCurrent}
use federate.Resolution.Fetched.{manifest_bytes-IsCached}
use federate.Resolution.Flows.{
  Refuses, refuse_forged-Refuses, >>=-Refuses, >>=-eq-next, or_stop-Refuses, or_stop-eq-next,
  ensure-eq-next,
}
use federate.Resolution.Verified.{
  Serializes, refuse_forged-OnlyForged, tld-OnlyForged, domain-OnlyForged, manifest-OnlyForged,
}
use federate.Resolution.Resolve.{
  Resolved, next, or_stop, ensure, refuse_forged, or_default, check_tld, check_record,
  check_manifest,
}

module _ (h : Host) where
  -- The TLD record is the zone's, signed by the root key, resolvable and not expired.
  pub record IsTld (k : Text) (zone : RootZone) (d : FederateDomain) (t : TldRecord) : Type 0 where
    pub registered : get d.tld zone.tlds ≡ some t
    pub verified : Tlds.verify h t k ≡ ok tt
    pub resolvable : is_resolvable_tld t.status ≡ true
    pub live : Tlds.is_expired h t ≡ false

  -- The domain record is signed by the operator of the TLD, of that TLD, active and not expired.
  pub record IsDomain (d : FederateDomain) (t : TldRecord) (rec : DomainRecord) : Type 0 where
    pub verified : Domains.verify h rec t.operator_public_key ≡ ok tt
    pub same_tld : rec.tld ≡ d.tld
    pub active : is_resolvable_domain rec.status ≡ true
    pub live : Domains.is_expired h rec ≡ false

  -- Where the record stands under the full name: in the zone, or in a registry that the operator
  -- signed.
  abbrev pub IsListed : RootZone → TldRecord → Text → DomainRecord → RegistryType → Type 0
  IsListed zone t name rec RegistryType.root_managed = lookup name zone ≡ some rec
  IsListed zone t name rec RegistryType.offline_manual = ⊥
  IsListed zone t name rec _ =
      (r : TldRegistry) × IsSigned h t r × (Registry.lookup name r ≡ some rec)

  -- The manifest has the address in the record, and is signed by the owner for the domain.
  pub record IsSite (name : Text) (rec : DomainRecord) (m : Manifest) : Type 0 where
    pub bytes : Bytes
    pub address : hash_bytes h bytes ≡ rec.manifest_hash
    pub document : h.serde.read_manifest bytes ≡ ok m
    pub valid : Manifest.validate m ≡ ok tt
    pub verified : Manifests.verify h m name rec.owner_public_key ≡ ok tt

  -- The whole chain, from the trust anchor to the bytes.
  pub record IsServed (k host path : Text) (domain : Text) (bytes : Bytes) (hash : Text)
      : Type 0 where
    pub d : FederateDomain
    pub parsed : Naming.parse host ≡ ok d
    pub named : domain ≡ fqdn d
    pub zone : RootZone
    pub zone_verified : Zones.verify h zone k ≡ ok tt
    pub t : TldRecord
    pub tld : IsTld k zone d t
    pub rec : DomainRecord
    pub listed : IsListed zone t (fqdn d) rec t.registry_type
    pub record_ok : IsDomain d t rec
    pub m : Manifest
    pub site : IsSite (fqdn d) rec m
    pub file : Text
    pub mapped : resolve_path m path ≡ some (file, hash)
    pub addressed : hash_bytes h bytes ≡ hash

  module _ (total : Serializes h) where
    pub check_tld-Refuses :
        (zone : RootZone) (d : FederateDomain) (o : Option Text) → Refuses (check_tld h zone d o)
    unfolding check_tld
    check_tld-Refuses zone d o =
        >>=-Refuses (or_stop (lookup_tld d.tld zone) _) _
          (or_stop-Refuses (lookup_tld d.tld zone) (Resolved.tld_not_found d.tld) refl)
          (λ t.
            >>=-Refuses (refuse_forged (fqdn d) (Tlds.verify h t (or_default o))) _
              (refuse_forged-Refuses (fqdn d) (Tlds.verify h t (or_default o))) (λ u. ground arith))

    pub check_tld-IsTld :
        (k : Text) (zone : RootZone) (d : FederateDomain) (t : TldRecord)
        → check_tld h zone d (some k) ≡ next t
        → IsTld k zone d t
    unfolding check_tld lookup_tld
    check_tld-IsTld k zone d t e =
        let (t', found, e1) = >>=-eq-next (or_stop (get d.tld zone.tlds) _) _ e in
        let (u, ver, e2) = >>=-eq-next (refuse_forged (fqdn d) (Tlds.verify h t' k)) _ e1 in
        let (u1, st, e3) = >>=-eq-next (ensure (is_resolvable_tld t'.status) _) _ e2 in
        let (u2, lv, e4) = >>=-eq-next (ensure (not (Tlds.is_expired h t')) _) _ e3 in
        let verified =
          refuse_forged-OnlyForged (fqdn d) (Tlds.verify h t' k) (tld-OnlyForged h total t' k)
            ver in
        let usable = ensure-eq-next (is_resolvable_tld t'.status) _ st in
        let alive = ensure-eq-next (not (Tlds.is_expired h t')) _ lv in
        let here : IsTld k zone d t' = record {
          registered = or_stop-eq-next (get d.tld zone.tlds) _ found;
          verified = verified;
          resolvable = usable;
          live = ground (arith, alive);
        } in
        subst (λ x. IsTld k zone d x) (cc (e4)) here

    pub check_record-Refuses :
        (d : FederateDomain) (t : TldRecord) (rec : DomainRecord) → Refuses (check_record h d t rec)
    unfolding check_record
    check_record-Refuses d t rec =
        >>=-Refuses (refuse_forged (fqdn d) (Domains.verify h rec t.operator_public_key)) _
          (refuse_forged-Refuses (fqdn d) (Domains.verify h rec t.operator_public_key))
          (λ u. ground arith)

    pub check_record-IsDomain :
        (d : FederateDomain) (t : TldRecord) (rec : DomainRecord) {u : Unit {0}}
        → check_record h d t rec ≡ next u
        → IsDomain d t rec
    unfolding check_record
    check_record-IsDomain d t rec e =
        let check = Domains.verify h rec t.operator_public_key in
        let (u, ver, e1) = >>=-eq-next (refuse_forged (fqdn d) check) _ e in
        let (u1, same, e2) = >>=-eq-next (ensure (text_eq rec.tld d.tld) _) _ e1 in
        let (u2, st, e3) = >>=-eq-next (ensure (is_resolvable_domain rec.status) _) _ e2 in
        let alive = ensure-eq-next (not (Domains.is_expired h rec)) _ e3 in
        record {
          verified =
              refuse_forged-OnlyForged (fqdn d) check
                (domain-OnlyForged h total rec t.operator_public_key) ver;
          same_tld = (text_eq_iff rec.tld d.tld).0 (ensure-eq-next (text_eq rec.tld d.tld) _ same);
          active = ensure-eq-next (is_resolvable_domain rec.status) _ st;
          live = ground (arith, alive);
        }

    pub check_manifest-Refuses :
        (name path : Text) (rec : DomainRecord) (m : Manifest)
        → Refuses (check_manifest h name path rec m)
    unfolding check_manifest
    check_manifest-Refuses name path rec m =
        >>=-Refuses (refuse_forged name (Manifests.verify h m name rec.owner_public_key)) _
          (refuse_forged-Refuses name (Manifests.verify h m name rec.owner_public_key))
          (λ u. or_stop-Refuses (resolve_path m path) (Resolved.path_not_found name path) refl)

    pub check_manifest-verify :
        (name path : Text) (rec : DomainRecord) (m : Manifest) (file : Text × Text)
        → check_manifest h name path rec m ≡ next file
        → (Manifests.verify h m name rec.owner_public_key ≡ ok tt)
          × (resolve_path m path ≡ some file)
    unfolding check_manifest
    check_manifest-verify name path rec m file e =
        let check = Manifests.verify h m name rec.owner_public_key in
        let (u, ver, e1) = >>=-eq-next (refuse_forged name check) _ e in
        (
          refuse_forged-OnlyForged name check
              (manifest-OnlyForged h total m name rec.owner_public_key) ver,
          or_stop-eq-next (resolve_path m path) _ e1,
        )

  from_registry-IsListed :
      (net : Net) (i : Io) (t : TldRecord) (name : Text) (s s' : Resolver) (rec : DomainRecord)
      → ReadsRegistries h
      → from_registry h net name (tld_registry h net i t s) ≡ (ok rec, s')
      → (r : TldRegistry) × IsSigned h t r × (Registry.lookup name r ≡ some rec)
  from_registry-IsListed net i t name s s' rec reads e =
      let (r, s1, q, e1) = and_then-eq-ok (tld_registry h net i t s) _ e in
      let current = tld_registry-IsCurrent h net t i s reads in
      (
        r,
        current.signed r (ap (λ (p : Result TldRegistry × Resolver). p.0) q),
        ok_or-some (Registry.lookup name r) _ (ap (λ (p : Result DomainRecord × Resolver). p.0) e1),
      )

  pub locate-IsListed :
      (net : Net) (i : Io) (zone : RootZone) (t : TldRecord) (name : Text) (k : RegistryType)
      (s s' : Resolver) (rec : DomainRecord)
      → ReadsRegistries h
      → locate_by_type h net i zone t name k s ≡ (ok rec, s')
      → IsListed zone t name rec k
  unfolding locate_by_type
  locate-IsListed net i zone t name RegistryType.root_managed s s' rec reads e =
      ok_or-some (lookup name zone) _ (ap (λ (p : Result DomainRecord × Resolver). p.0) e)
  locate-IsListed net i zone t name RegistryType.offline_manual s s' rec reads e = cc
  locate-IsListed net i zone t name RegistryType.delegated_manifest s s' rec reads e =
      from_registry-IsListed net i t name s s' rec reads e
  locate-IsListed net i zone t name RegistryType.delegated_native s s' rec reads e =
      from_registry-IsListed net i t name s s' rec reads e
  locate-IsListed net i zone t name RegistryType.delegated_http s s' rec reads e =
      from_registry-IsListed net i t name s s' rec reads e

  pub manifest-read :
      (net : Net) (i : Io) (hash : Text) (s s' : Resolver) (m : Manifest)
      → manifest h net i hash s ≡ (ok m, s')
      → (b : Bytes) × (hash_bytes h b ≡ hash)
        × (h.serde.read_manifest b ≡ ok m)
        × (Manifest.validate m ≡ ok tt)
  unfolding manifest read_valid
  manifest-read net i hash s s' m e =
      let (b, s1, q, e1) = and_then-eq-ok (manifest_bytes h net i hash s) _ e in
      let e2 = ap (λ (p : Result Manifest × Resolver). p.0) e1 in
      let (m', reads, e3) = >>=-eq-ok (h.serde.read_manifest b) _ e2 in
      let (u, valid, e4) = >>=-eq-ok (Manifest.validate m') _ e3 in
      (
        b,
        (manifest_bytes-IsCached h net i hash s s1 b q).0,
        ground (arith, reads, e4),
        ground (arith, valid, e4),
      )
