-- ===== src/Resolution/Lookup.antt =====
-- `resolve_domain`, `site_files` and `tld_registry_by_name` of crates/federate-resolution/src/lib.rs:
-- lookups whose every failure is an error.
use federate.Base.{Text, not, ◌||◌, List, [], ◌∷◌, BTreeMap, text_eq, if◌then◌else◌}
use federate.Core.{
  Result, ok, ◌>>=◌, ◌>>◌, guard, tld_not_found, tld_unavailable, verification_failed,
}
use federate.Naming
use federate.Naming.{
  FederateDomain, fqdn, is_resolvable_tld, is_resolvable_domain, tld_status_str, domain_status_str,
}
use federate.Naming.Record.{DomainRecord}
use federate.Root.{RootZone, TldRecord, lookup_tld}
use federate.Registry.{TldRegistry}
use federate.Manifest.{Manifest}
use federate.Host.{Host}
use federate.Signing.Tlds
use federate.Signing.Domains
use federate.Signing.Manifests
use federate.Store.Actions.Domains.{ok_or}
use federate.Resolution.{Resolver, Net, Io, and_then}
use federate.Resolution.Roots.{root}
use federate.Resolution.Documents.{manifest}
use federate.Resolution.Registries.{locate_record, tld_registry}

abbrev pub keys {ℓ} : {V : Type ℓ} → BTreeMap V → List Text
keys [] = []
keys ((k, v) ∷ m) = k ∷ keys m

module _ (h : Host) where
  unfoldable pub usable_tld : RootZone → FederateDomain → Result TldRecord
  usable_tld zone d = do
    t ← ok_or (lookup_tld d.tld zone) (tld_not_found d.tld)
    guard (not (not (is_resolvable_tld t.status) || Tlds.is_expired h t))
        (tld_unavailable d.tld (if Tlds.is_expired h t then "expired" else tld_status_str t.status))
    ok t

  unfoldable pub usable_record : FederateDomain → TldRecord → DomainRecord → Result DomainRecord
  usable_record d t rec = do
    Domains.verify h rec t.operator_public_key
    guard (text_eq rec.tld d.tld)
        (verification_failed "domain" (fqdn d) "domain record belongs to a different TLD")
    guard (not (not (is_resolvable_domain rec.status) || Domains.is_expired h rec)) (
        tld_unavailable d.tld
          (if Domains.is_expired h rec then "expired" else domain_status_str rec.status))
    ok rec

  unfoldable pub site_of : Text → DomainRecord → Manifest → Result (List Text)
  site_of host rec m = do Manifests.verify h m host rec.owner_public_key; ok (keys m.files)

  module _ (net : Net) (io : Io) where
    unfoldable pub record_under :
        RootZone → FederateDomain → TldRecord → Resolver → Result DomainRecord × Resolver
    unfolding usable_record
    record_under zone d t s =
        and_then (locate_record h net io zone t (fqdn d) s) (λ rec s1. (usable_record d t rec, s1))

    unfoldable pub record_in : FederateDomain → RootZone → Resolver → Result DomainRecord × Resolver
    unfolding usable_tld record_under
    record_in d zone s = and_then (usable_tld zone d, s) (record_under zone d)

    unfoldable pub resolve_domain : Text → Resolver → Result DomainRecord × Resolver
    unfolding record_in
    resolve_domain host s =
        and_then (Naming.parse host, s) (λ d s1. and_then (root h net io s1) (record_in d))

    unfoldable pub site_files : Text → Resolver → Result (List Text) × Resolver
    unfolding site_of resolve_domain
    site_files host s = and_then (resolve_domain host s) (λ rec s1.
        and_then (manifest h net io rec.manifest_hash s1) (λ m s2. (site_of host rec m, s2)))

    unfoldable pub tld_registry_by_name : Text → Resolver → Result TldRegistry × Resolver
    tld_registry_by_name tld s = and_then (root h net io s) (λ zone s1.
        and_then (ok_or (lookup_tld tld zone) (tld_not_found tld), s1) (tld_registry h net io))
