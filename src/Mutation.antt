-- ===== src/Mutation.antt =====
-- crates/federate-mutation/src/request.rs and audit.rs: the data of mutations and audit records.
use federate.Base.{ℕ, Text, Option, Bytes, List, codes, ◌++◌, ◌∷◌, ◌*◌, to_ascii_lowercase}
use federate.Naming.{RegistryType, DomainStatus, TldStatus}
use federate.Naming.Record.{DomainRecord}

abbrev pub mutation_max_age_secs : ℕ
mutation_max_age_secs = 300

abbrev pub nonce_ttl_secs : ℕ
nonce_ttl_secs = 300

abbrev pub max_package_bytes : ℕ
max_package_bytes = 32 * 1024 * 1024

abbrev pub max_package_blocks : ℕ
max_package_blocks = 2048

pub data TargetKind : Type 0 where
  tld domain : TargetKind

abbrev pub target_kind_str : TargetKind → Text
target_kind_str TargetKind.tld = codes "tld"
target_kind_str TargetKind.domain = codes "domain"

pub data ActorRole : Type 0 where
  root tld_operator domain_owner : ActorRole

unfoldable pub actor_role_str : ActorRole → Text
actor_role_str ActorRole.root = codes "root"
actor_role_str ActorRole.tld_operator = codes "tld-operator"
actor_role_str ActorRole.domain_owner = codes "domain-owner"

-- The fields of `DelegateTld`.
pub record Delegation : Type 0 where
  pub tld : Text
  pub owner_public_key : Text
  pub operator_public_key : Text
  pub operator_name : Text
  pub registry_type : RegistryType
  pub registry_endpoint : Option Text
  pub expires_at : Option Text

pub data MutationAction : Type 0 where
  publish_site : (domain manifest_hash : Text) → MutationAction
  update_domain_manifest : (domain manifest_hash : Text) → MutationAction
  set_domain_status : (domain : Text) → DomainStatus → MutationAction
  issue_domain : DomainRecord → MutationAction
  delegate_tld : Delegation → MutationAction
  update_tld : (tld : Text) → (endpoint expires_at notes : Option Text) → MutationAction
  create_tld : (tld purpose : Text) → MutationAction
  reserve_tld : (tld reason : Text) → MutationAction
  block_tld : (tld reason : Text) → MutationAction
  set_tld_status : (tld : Text) → TldStatus → MutationAction
  update_registry_pointer : (tld registry_hex : Text) → MutationAction

unfoldable pub name : MutationAction → Text
name (publish_site _ _) = codes "domain.publish"
name (update_domain_manifest _ _) = codes "domain.update_manifest"
name (set_domain_status _ _) = codes "domain.set_status"
name (issue_domain _) = codes "domain.issue"
name (delegate_tld _) = codes "tld.delegate"
name (create_tld _ _) = codes "tld.create"
name (reserve_tld _ _) = codes "tld.reserve"
name (block_tld _ _) = codes "tld.block"
name (update_tld _ _ _ _) = codes "tld.update"
name (set_tld_status _ _) = codes "tld.set_status"
name (update_registry_pointer _ _) = codes "tld.update_registry_pointer"

unfoldable pub target : MutationAction → TargetKind × Text
target (publish_site d _) = (TargetKind.domain, to_ascii_lowercase d)
target (update_domain_manifest d _) = (TargetKind.domain, to_ascii_lowercase d)
target (set_domain_status d _) = (TargetKind.domain, to_ascii_lowercase d)
target (issue_domain rec) = (TargetKind.domain, to_ascii_lowercase rec.domain)
target (delegate_tld d) = (TargetKind.tld, to_ascii_lowercase d.tld)
target (create_tld t _) = (TargetKind.tld, to_ascii_lowercase t)
target (reserve_tld t _) = (TargetKind.tld, to_ascii_lowercase t)
target (block_tld t _) = (TargetKind.tld, to_ascii_lowercase t)
target (update_tld t _ _ _) = (TargetKind.tld, to_ascii_lowercase t)
target (set_tld_status t _) = (TargetKind.tld, to_ascii_lowercase t)
target (update_registry_pointer t _) = (TargetKind.tld, to_ascii_lowercase t)

unfoldable pub target_key : MutationAction → Text
unfolding target
target_key a = target_kind_str (target a).0 ++ b':' ∷ (target a).1

pub record MutationRequest : Type 0 where
  pub mutation_id : Text
  pub nonce : Text
  pub issued_at : Text
  pub actor_public_key : Text
  pub target_version : ℕ
  pub action : MutationAction
  pub signature_algorithm : Text
  pub signature : Option Text

pub record AuditRecord : Type 0 where
  pub event_id : Text
  pub mutation_id : Text
  pub actor_public_key : Text
  pub actor_role : Text
  pub action : Text
  pub target_type : Text
  pub target_id : Text
  pub previous_state_hash : Text
  pub new_state_hash : Text
  pub timestamp : Text
  pub signature_algorithm : Text
  pub signature : Option Text

pub record PackageBlock : Type 0 where
  pub hash : Text
  pub data_hex : Text

pub record SitePackage : Type 0 where
  pub mutation : MutationRequest
  pub manifest_hex : Text
  pub blocks : List PackageBlock

abbrev pub ContentBlock : Type 0
ContentBlock = Text × Bytes
