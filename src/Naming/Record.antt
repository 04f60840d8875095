-- ===== src/Naming/Record.antt =====
-- The domain record of crates/federate-naming/src/lib.rs.
use federate.Base.{Text, Option}
use federate.Core.Json.{Value}
use federate.Naming.{TargetType, DomainStatus}

pub record DomainRecord : Type 0 where
  pub domain : Text
  pub tld : Text
  pub label : Text
  pub owner_public_key : Text
  pub target_type : TargetType
  pub manifest_hash : Text
  pub service_id : Option Text
  pub node_id : Option Text
  pub status : DomainStatus
  pub created_at : Text
  pub updated_at : Text
  pub expires_at : Option Text
  pub renewal : Option Value
  pub pricing : Option Value
  pub signature_algorithm : Text
  pub signature : Option Text
