-- ===== src/Locate/Located.antt =====
-- What a successful lookup of a domain says about the zone.
use federate.Base.{Text, some, true, false, not, get, ◌≡◌, arith}
use federate.Core.{ok, guard, >>=-eq-ok}
use federate.Naming
use federate.Naming.{RegistryType, is_resolvable_tld, FederateDomain, fqdn}
use federate.Naming.Record.{DomainRecord}
use federate.Naming.Parse.{IsCanonical, parse-IsCanonical}
use federate.Root.{RootZone, TldRecord, lookup_tld, lookup}
use federate.Registry.{DomainSource}
use federate.Host.{Host}
use federate.Signing.Domains
use federate.Signing.Tlds
use federate.Store.Actions.Domains.{ok_or}
use federate.Store.Actions.DomainWrites.{ok_or-some}
use federate.Locate.{tld, locate_root_managed, locate_by_type, locate_domain, delegated_source}

module _ (h : Host) where
  -- A record of the zone under the full name of the domain, signed by the operator of the TLD, not
  -- expired.
  pub record IsServed (zone : RootZone) (d : FederateDomain) (t : TldRecord) (rec : DomainRecord)
      : Type 0 where
    pub stored : get (fqdn d) zone.domains ≡ some rec
    pub verified : Domains.verify h rec t.operator_public_key ≡ ok tt
    pub live : Domains.is_expired h rec ≡ false

  -- The two kinds of a source.
  abbrev pub IsSource : RootZone → FederateDomain → TldRecord → RegistryType → DomainSource → Type 0
  IsSource zone d t RegistryType.root_managed source =
      (rec : DomainRecord) × (source ≡ DomainSource.root_managed rec) × IsServed zone d t rec
  IsSource zone d t _ source = source ≡ delegated_source h d t

  pub record IsLocated (zone : RootZone) (host : Text) (source : DomainSource) : Type 0 where
    pub d : FederateDomain
    pub parsed : Naming.parse host ≡ ok d
    pub canonical : IsCanonical d
    pub t : TldRecord
    pub registered : get d.tld zone.tlds ≡ some t
    pub resolvable : is_resolvable_tld t.status ≡ true
    pub live : Tlds.is_expired h t ≡ false
    pub source_of : IsSource zone d t t.registry_type source

  root_managed-IsServed :
      (zone : RootZone) (d : FederateDomain) (t : TldRecord) (source : DomainSource)
      → locate_root_managed h zone d t ≡ ok source
      → (rec : DomainRecord) × (source ≡ DomainSource.root_managed rec) × IsServed zone d t rec
  unfolding locate_root_managed lookup
  root_managed-IsServed zone d t source e =
      let (rec, found, e1) = >>=-eq-ok (ok_or (get (fqdn d) zone.domains) _) _ e in
      (
        rec,
        ground arith,
        record {
          stored = ok_or-some (get (fqdn d) zone.domains) _ found;
          verified = ground arith;
          live = ground arith;
        },
      )

  by_type-IsSource :
      (zone : RootZone) (d : FederateDomain) (t : TldRecord) (k : RegistryType)
      (source : DomainSource)
      → locate_by_type h zone d t k ≡ ok source
      → IsSource zone d t k source
  unfolding locate_by_type
  by_type-IsSource zone d t RegistryType.root_managed source e =
      root_managed-IsServed zone d t source e
  by_type-IsSource zone d t RegistryType.delegated_manifest source e = ground arith
  by_type-IsSource zone d t RegistryType.delegated_native source e = ground arith
  by_type-IsSource zone d t RegistryType.delegated_http source e = ground arith
  by_type-IsSource zone d t RegistryType.offline_manual source e = ground arith

  -- A host name that is located is a canonical domain under a registered TLD that is resolvable and
  -- not expired; the source is, for a root-managed TLD, a record of the zone under the full name that
  -- verifies under the operator's key and is not expired, and for every other TLD the operator and the
  -- registry of the TLD's record.
  pub locate_domain-IsLocated :
      (zone : RootZone) (host : Text) (source : DomainSource)
      → locate_domain h zone host ≡ ok source
      → IsLocated zone host source
  unfolding locate_domain tld lookup_tld
  locate_domain-IsLocated zone host source e =
      let (d, parsed, e1) = >>=-eq-ok (Naming.parse host) _ e in
      let (t, found, e2) = >>=-eq-ok (ok_or (get d.tld zone.tlds) _) _ e1 in
      let (u, ok1, e3) = >>=-eq-ok (guard (is_resolvable_tld t.status) _) _ e2 in
      let (u', ok2, e4) = >>=-eq-ok (guard (not (Tlds.is_expired h t)) _) _ e3 in
      record {
        d = d;
        parsed = parsed;
        canonical = parse-IsCanonical host parsed;
        t = t;
        registered = ok_or-some (get d.tld zone.tlds) _ found;
        resolvable = ground arith;
        live = ground arith;
        source_of = by_type-IsSource zone d t t.registry_type source e4;
      }
