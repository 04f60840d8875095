-- ===== src/Resolution/Listed.antt =====
-- What the lookups of records and of the files of a site have verified.
use federate.Base.{
  Text, true, false, List, text_eq, text_eq_iff, get, some, subst, ◌≡◌, ap, sym, ◌∙◌, arith,
}
use federate.Core.{Result, ok, guard, >>=-eq-ok}
use federate.Naming
use federate.Naming.{FederateDomain, fqdn, is_resolvable_tld, is_resolvable_domain}
use federate.Naming.Record.{DomainRecord}
use federate.Root.{RootZone, TldRecord, lookup_tld}
use federate.Manifest.{Manifest}
use federate.Host.{Host}
use federate.Signing.Tlds
use federate.Signing.Domains
use federate.Signing.Zones
use federate.Signing.Manifests
use federate.Store.Actions.Domains.{ok_or}
use federate.Store.Actions.DomainWrites.{ok_or-some}
use federate.Resolution.{Resolver, Net, Io, and_then-eq-ok}
use federate.Resolution.Roots.{root}
use federate.Resolution.Documents.{manifest}
use federate.Resolution.Registries.{locate_record}
use federate.Resolution.Lookup.{
  keys, usable_tld, usable_record, site_of, record_under, record_in, resolve_domain, site_files,
}
use federate.Resolution.Fresh.{IsHeld, ReadsZones}
use federate.Resolution.Refreshed.{root-IsPinned}
use federate.Resolution.Vouched.{ReadsRegistries}
use federate.Resolution.Served.{IsListed, IsDomain, IsSite, locate-IsListed, manifest-read}

module _ (h : Host) where
  -- The chain from the trust anchor to a domain record.
  pub record IsFound (k host : Text) (rec : DomainRecord) : Type 0 where
    pub d : FederateDomain
    pub parsed : Naming.parse host ≡ ok d
    pub zone : RootZone
    pub zone_verified : Zones.verify h zone k ≡ ok tt
    pub t : TldRecord
    pub registered : get d.tld zone.tlds ≡ some t
    pub resolvable : is_resolvable_tld t.status ≡ true
    pub live : Tlds.is_expired h t ≡ false
    pub listed : IsListed h zone t (fqdn d) rec t.registry_type
    pub record_ok : IsDomain h d t rec

  usable_tld-get :
      (zone : RootZone) (d : FederateDomain) (t : TldRecord)
      → usable_tld h zone d ≡ ok t
      → (get d.tld zone.tlds ≡ some t)
        × (is_resolvable_tld t.status ≡ true)
        × (Tlds.is_expired h t ≡ false)
  unfolding usable_tld lookup_tld
  usable_tld-get zone d t e =
      let (t', found, e1) = >>=-eq-ok (ok_or (get d.tld zone.tlds) _) _ e in
      let there = ok_or-some (get d.tld zone.tlds) _ found in
      (ground (arith, there, e1), ground (arith, e1), ground (arith, e1))

  usable_record-IsDomain :
      (d : FederateDomain) (t : TldRecord) (rec rec' : DomainRecord)
      → usable_record h d t rec ≡ ok rec'
      → (rec ≡ rec') × IsDomain h d t rec
  unfolding usable_record
  usable_record-IsDomain d t rec rec' e =
      let (u, ver, e1) = >>=-eq-ok (Domains.verify h rec t.operator_public_key) _ e in
      let (u1, same, e2) = >>=-eq-ok (guard (text_eq rec.tld d.tld) _) _ e1 in
      (
        ground (arith, e2),
        record {
          verified = ver;
          same_tld = (text_eq_iff rec.tld d.tld).0 (ground (arith, same));
          active = ground (arith, e2);
          live = ground (arith, e2);
        },
      )

  module _ (net : Net) (i : Io) where
    record_under-IsListed :
        (zone : RootZone) (d : FederateDomain) (t : TldRecord) (s s' : Resolver)
        (rec : DomainRecord)
        → ReadsRegistries h
        → record_under h net i zone d t s ≡ (ok rec, s')
        → IsListed h zone t (fqdn d) rec t.registry_type × IsDomain h d t rec
    unfolding record_under locate_record
    record_under-IsListed zone d t s s' rec reads e =
        let (r, s1, q, e1) = and_then-eq-ok (locate_record h net i zone t (fqdn d) s) _ e in
        let listed = locate-IsListed h net i zone t (fqdn d) t.registry_type s s1 r reads q in
        let (same, checked) =
          usable_record-IsDomain d t r rec (ap (λ (p : Result DomainRecord × Resolver). p.0) e1) in
        subst (λ x. IsListed h zone t (fqdn d) x t.registry_type × IsDomain h d t x) same
          (listed, checked)

    module _ (k : Text) (s : Resolver) (zones : ReadsZones h) (registries : ReadsRegistries h)
        (pinned : s.trusted_root_key ≡ some k) (held : IsHeld h k s) where
      -- A record that a lookup returns stands at the end of a verified chain: the host is a domain; a
      -- zone that verifies under the pinned key has its TLD, which is resolvable and not expired; the
      -- record stands under the full name in the zone or in a registry that the operator signed, and
      -- is signed by the operator, of the TLD, active and not expired.
      pub resolve_domain-IsFound :
          (host : Text) (rec : DomainRecord) (s' : Resolver)
          → resolve_domain h net i host s ≡ (ok rec, s')
          → IsFound k host rec
      unfolding resolve_domain record_in
      resolve_domain-IsFound host rec s' e =
          let (d, s0, q, e1) = and_then-eq-ok (Naming.parse host, s) _ e in
          let parsed = ap (λ (p : Result FederateDomain × Resolver). p.0) q in
          let same : s0 ≡ s = sym (ap (λ (p : Result FederateDomain × Resolver). p.1) q) in
          let (zone, s1, q1, e2) = and_then-eq-ok (root h net i s0) _ e1 in
          let (verified, key) =
            root-IsPinned h net i k s s1 zone zones pinned held
              (ap (λ (x : Resolver). root h net i x) (sym same) ∙ q1) in
          let (t, s2, q2, e3) = and_then-eq-ok (usable_tld h zone d, s1) _ e2 in
          let (registered, resolvable, live) =
            usable_tld-get zone d t (ap (λ (p : Result TldRecord × Resolver). p.0) q2) in
          let (listed, checked) = record_under-IsListed zone d t s2 s' rec registries e3 in
          record {
            d = d;
            parsed = parsed;
            zone = zone;
            zone_verified = verified;
            t = t;
            registered = registered;
            resolvable = resolvable;
            live = live;
            listed = listed;
            record_ok = checked;
          }

      -- The files that are listed for a host are those of a manifest at the end of such a chain: it
      -- has the address in the record, is valid, and is signed by the owner for the host as given.
      pub site_files-IsSite :
          (host : Text) (files : List Text) (s' : Resolver)
          → site_files h net i host s ≡ (ok files, s')
          → (rec : DomainRecord) × (m : Manifest) × IsFound k host rec
            × IsSite h host rec m
            × (files ≡ keys m.files)
      unfolding site_files site_of
      site_files-IsSite host files s' e =
          let (rec, s1, q, e1) = and_then-eq-ok (resolve_domain h net i host s) _ e in
          let (m, s2, q1, e2) = and_then-eq-ok (manifest h net i rec.manifest_hash s1) _ e1 in
          let (b, address, document, valid) = manifest-read h net i rec.manifest_hash s1 s2 m q1 in
          let (u, verified, e3) =
            >>=-eq-ok (Manifests.verify h m host rec.owner_public_key) _
              (ap (λ (p : Result (List Text) × Resolver). p.0) e2) in
          (
            rec,
            m,
            resolve_domain-IsFound host rec s1 q,
            record {
              bytes = b;
              address = address;
              document = document;
              valid = valid;
              verified = verified;
            },
            ground (arith, e3),
          )
