-- ===== src/Root.antt =====
-- crates/federate-root/src/lib.rs: TLD records, the root zone and its structural validation.
-- Signatures are in Signing/Tlds.antt and Signing/Zones.antt.
pub mod Blocklists
pub mod Admission
pub mod Validity
use federate.Base.{
  ℕ, Text, String, Bool, true, false, not, Option, List, [], ◌∷◌, BTreeMap, get, contains_key,
  is_empty, codes, if◌then◌else◌,
}
use federate.Core.{Result, ok, err, ◌>>=◌, ◌>>◌, guard, invalid_root}
use federate.Core.Json.{Value}
use federate.Naming.{TldStatus, TldMode, RegistryType}
use federate.Naming.Record.{DomainRecord}

abbrev pub signature_algorithm : Text
signature_algorithm = codes "ed25519"

pub record TldRecord : Type 0 where
  pub tld : Text
  pub status : TldStatus
  pub mode : TldMode
  pub owner_public_key : Text
  pub operator_public_key : Text
  pub operator_name : Text
  pub registry_type : RegistryType
  pub registry_endpoint : Option Text
  pub registry_manifest_hash : Option Text
  pub registry_providers : List Text
  pub policy_hash : Option Text
  pub pricing : Option Value
  pub created_at : Text
  pub updated_at : Text
  pub expires_at : Option Text
  pub notes : Option Text
  pub signature_algorithm : Text
  pub signature : Option Text

pub record AuditEvent : Type 0 where
  pub at : Text
  pub actor : Text
  pub action : Text
  pub subject : Text
  pub detail : Option Text

pub record RootZone : Type 0 where
  pub network : Text
  pub root_version : ℕ
  pub generated_at : Text
  pub root_public_key : Text
  pub tlds : BTreeMap TldRecord
  pub domains : BTreeMap DomainRecord
  pub audit : List AuditEvent
  pub signature_algorithm : Text
  pub signature : Option Text

unfoldable pub lookup_tld : Text → RootZone → Option TldRecord
lookup_tld tld zone = get tld zone.tlds

unfoldable pub lookup : Text → RootZone → Option DomainRecord
lookup fqdn zone = get fqdn zone.domains

-- The loop of `validate` over the domains.
unfoldable pub validate_domains : BTreeMap TldRecord → BTreeMap DomainRecord → Result (Unit {0})
validate_domains tlds [] = ok tt
validate_domains tlds ((fqdn, rec) ∷ rest) = do
  guard (contains_key rec.tld tlds) (invalid_root "domain references unknown TLD")
  validate_domains tlds rest

unfoldable pub validate : RootZone → Result (Unit {0})
unfolding validate_domains
validate zone = do
  guard (not (is_empty zone.network)) (invalid_root "empty network name")
  validate_domains zone.tlds zone.domains
