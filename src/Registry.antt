-- ===== src/Registry.antt =====
-- crates/federate-registry/src/lib.rs: the registry of a delegated TLD, and where a domain's record
-- comes from.
use federate.Base.{ℕ, Text, Option, List, BTreeMap, get}
use federate.Naming.{RegistryType}
use federate.Naming.Record.{DomainRecord}

pub record TldRegistry : Type 0 where
  pub tld : Text
  pub version : ℕ
  pub generated_at : Text
  pub operator_public_key : Text
  pub domains : BTreeMap DomainRecord
  pub signature_algorithm : Text
  pub signature : Option Text

unfoldable pub lookup : Text → TldRegistry → Option DomainRecord
lookup fqdn r = get fqdn r.domains

pub data DomainSource : Type 0 where
  root_managed : DomainRecord → DomainSource
  delegated :
      (tld operator_public_key : Text)
      → RegistryType
      → (endpoint manifest_hash : Option Text) → (providers : List Text) → DomainSource
