-- ===== src/Locate.antt =====
-- `RegistryView` of crates/federate-registry/src/lib.rs: where the record of a domain comes from.
pub mod Located
use federate.Base.{Text, String, Option, Bool, true, false, not}
use federate.Core.{
  Result, ok, err, ◌>>=◌, ◌>>◌, guard, tld_not_found, tld_unavailable, domain_not_found,
}
use federate.Naming
use federate.Naming.{RegistryType, is_resolvable_tld, tld_status_str, FederateDomain, fqdn}
use federate.Naming.Record.{DomainRecord}
use federate.Root.{RootZone, TldRecord, lookup_tld, lookup}
use federate.Registry.{DomainSource}
use federate.Host.{Host}
use federate.Signing.Domains
use federate.Signing.Tlds
use federate.Store.Actions.Domains.{ok_or}

-- `RegistryView::tld`.
unfoldable pub tld : RootZone → Text → Result TldRecord
tld zone name = ok_or (lookup_tld name zone) (tld_not_found name)

module _ (h : Host) where
  -- The arm of a root-managed TLD.
  unfoldable pub locate_root_managed : RootZone → FederateDomain → TldRecord → Result DomainSource
  locate_root_managed zone domain tld_rec = do
    rec ← ok_or (lookup (fqdn domain) zone) (domain_not_found (fqdn domain))
    Domains.verify h rec tld_rec.operator_public_key
    guard (not (Domains.is_expired h rec)) (tld_unavailable domain.tld "expired")
    ok (DomainSource.root_managed rec)

  abbrev pub delegated_source : FederateDomain → TldRecord → DomainSource
  delegated_source domain tld_rec =
      DomainSource.delegated domain.tld tld_rec.operator_public_key tld_rec.registry_type
        tld_rec.registry_endpoint tld_rec.registry_manifest_hash tld_rec.registry_providers

  -- The `match` on the registry type.
  unfoldable pub locate_by_type :
      RootZone → FederateDomain → TldRecord → RegistryType → Result DomainSource
  locate_by_type zone domain tld_rec RegistryType.root_managed =
      locate_root_managed zone domain tld_rec
  locate_by_type zone domain tld_rec _ = ok (delegated_source domain tld_rec)

  unfoldable pub locate_domain : RootZone → Text → Result DomainSource
  locate_domain zone host = do
    domain ← Naming.parse host
    tld_rec ← tld zone domain.tld
    guard (is_resolvable_tld tld_rec.status)
        (tld_unavailable domain.tld (tld_status_str tld_rec.status))
    guard (not (Tlds.is_expired h tld_rec)) (tld_unavailable domain.tld "expired")
    locate_by_type zone domain tld_rec tld_rec.registry_type
