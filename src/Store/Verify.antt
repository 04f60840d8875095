-- ===== src/Store/Verify.antt =====
-- The read surface of the registry of crates/federate-mutation/src/store.rs, and its self-check
-- `verify_all` with `verify_tables`.
use federate.Base.{
  ℕ, Text, Bytes, Bool, true, false, ◌&&◌, Option, none, some, List, [], ◌∷◌, length, drop, all,
  ◌-◌, ◌==◌, text_eq, BTreeMap, values,
}
use federate.Core.{Result, ok, err, ◌>>=◌, ◌>>◌, guard, invalid_root}
use federate.Naming.Record.{DomainRecord}
use federate.Root.{RootZone, TldRecord, lookup_tld, lookup}
use federate.Root
use federate.Registry.{TldRegistry}
use federate.Registry as Registry
use federate.Mutation.{AuditRecord}
use federate.Host.{Host}
use federate.Signing.Zones
use federate.Signing.Registries
use federate.Signing.Audits
use federate.Storage
use federate.Storage.{Blocks, get_block}
use federate.Store.Actions.Domains.{ok_or}
use federate.Store.Prepare.{RegistryStore}
use federate.Store.Open.{RegistryMap}

-- `Result::ok`.
abbrev to_option {ℓ} : {A : Type ℓ} → Result A → Option A
to_option (ok a) = some a
to_option (err e) = none

abbrev or_else {ℓ} : {A : Type ℓ} → Option A → Option A → Option A
or_else none o = o
or_else (some a) o = some a

unfoldable pub find_in : RegistryMap → Text → Option DomainRecord
find_in [] fqdn = none
find_in ((tld, (raw, r)) ∷ rest) fqdn = or_else (Registry.lookup fqdn r) (find_in rest fqdn)

-- The zone, or the first registry that has the name.
unfoldable pub lookup_domain : RegistryStore → Text → Option DomainRecord
unfolding find_in
lookup_domain s fqdn = or_else (lookup fqdn s.zone) (find_in s.registries fqdn)

unfoldable pub audit_tail : RegistryStore → (limit : ℕ) → List AuditRecord
audit_tail s limit = drop (length s.audit - limit) s.audit

-- Whether a row of a table has the signature that the zone has.
abbrev pub same_signature : Option Text → Option Text → Bool
same_signature none none = true
same_signature none (some b) = false
same_signature (some a) none = false
same_signature (some a) (some b) = text_eq a b

abbrev pub tld_is : Option TldRecord → TldRecord → Bool
tld_is none rec = false
tld_is (some z) rec = same_signature z.signature rec.signature

abbrev pub domain_is : Option DomainRecord → DomainRecord → Bool
domain_is none rec = false
domain_is (some z) rec = same_signature z.signature rec.signature

unfoldable pub verify_tables : RegistryStore → Result (Unit {0})
verify_tables s = do
  guard
      (length (values s.backend.tld_records) == length s.zone.tlds
        && all (λ rec. tld_is (lookup_tld rec.tld s.zone) rec) (values s.backend.tld_records))
      (invalid_root "tld_records table does not mirror the signed zone")
  guard
      (length (values s.backend.domain_records) == length s.zone.domains
        && all (λ rec. domain_is (lookup rec.domain s.zone) rec) (values s.backend.domain_records))
      (invalid_root "domain_records table does not mirror the signed zone")

-- The counts that `verify_all` reports.
pub record Report : Type 0 where
  pub root_version : ℕ
  pub tlds : ℕ
  pub domains : ℕ
  pub delegated_registries : ℕ
  pub manifests : ℕ
  pub blocks : ℕ
  pub audit_events : ℕ
  pub mutations : ℕ

module _ (h : Host) where
  unfoldable pub block : RegistryStore → Text → Option Bytes
  block s hash = to_option (get_block h s.blocks hash)

  unfoldable pub verify_registries : RootZone → RegistryMap → Result (Unit {0})
  verify_registries zone [] = ok tt
  verify_registries zone ((tld, (raw, r)) ∷ rest) = do
    rec ← ok_or (lookup_tld tld zone) (invalid_root "registry has no TLD record")
    Registries.verify h r tld rec.operator_public_key
    verify_registries zone rest

  unfoldable pub verify_manifests : BTreeMap Bytes → Result (Unit {0})
  verify_manifests [] = ok tt
  verify_manifests ((hash, bytes) ∷ rest) = do Storage.verify h bytes hash; verify_manifests rest

  -- Over the addresses that the directory lists.
  unfoldable pub verify_blocks : Blocks → List (Text × Bytes) → Result (Unit {0})
  verify_blocks disk [] = ok tt
  verify_blocks disk ((hash, listed) ∷ rest) = do
    content ← get_block h disk hash
    verify_blocks disk rest

  unfoldable pub verify_audit : Text → List AuditRecord → Result (Unit {0})
  verify_audit key [] = ok tt
  verify_audit key (e ∷ rest) = do Audits.verify h e key; verify_audit key rest

  unfoldable pub verify_all : RegistryStore → (expected_root_key : Text) → Result Report
  unfolding verify_tables verify_registries verify_manifests verify_blocks verify_audit
  verify_all s key = do
    Root.validate s.zone
    Zones.verify h s.zone key
    verify_registries s.zone s.registries
    verify_manifests s.manifests
    verify_blocks s.blocks s.blocks
    verify_audit key s.audit
    verify_tables s
    ok (record {
      root_version = s.zone.root_version;
      tlds = length s.zone.tlds;
      domains = length s.zone.domains;
      delegated_registries = length s.registries;
      manifests = length s.manifests;
      blocks = length s.blocks;
      audit_events = length s.audit;
      mutations = length s.applied;
    })
