-- ===== src/Store.antt =====
-- crates/federate-mutation/src/store.rs and backend.rs: the state of the registry and the data that
-- its operations exchange.
pub mod Database
pub mod Actions
pub mod Prepare
pub mod Apply
pub mod Inversion
pub mod Progress
pub mod Replay
pub mod Validity
pub mod Authority
pub mod Revoked
pub mod Durable
pub mod Mirror
pub mod Audited
pub mod Open
pub mod Life
pub mod Lifetime
pub mod Restored
pub mod Verify
pub mod Tables
use federate.Base.{ℕ, Text, Bytes, Option, List, BTreeMap}
use federate.Naming.Expiry.{DateTime}
use federate.Naming.Record.{DomainRecord}
use federate.Root.{TldRecord, RootZone}
use federate.Root.Blocklists.{Blocklists}
use federate.Registry.{TldRegistry}
use federate.Mutation.{MutationRequest, AuditRecord, ActorRole}
use federate.Identity.{NodeIdentity}

abbrev pub zone_audit_tail : ℕ
zone_audit_tail = 200

pub record MutationContext : Type 0 where
  pub root : NodeIdentity
  pub official_operator : NodeIdentity
  pub blocklists : Blocklists
  pub now : DateTime

pub record AppliedMutation : Type 0 where
  pub mutation : MutationRequest
  pub audit_event_id : Text
  pub applied_at : Text
  pub root_version : ℕ

pub record SnapshotMeta : Type 0 where
  pub root_version : ℕ
  pub created_at : Text
  pub state_hash : Text

pub record CommitBatch : Type 0 where
  pub zone_json : Bytes
  pub root_version : ℕ
  pub state_hash : Text
  pub tlds : List TldRecord
  pub domains : List DomainRecord
  pub target_key : Text
  pub target_version : ℕ
  pub applied : AppliedMutation
  pub audit : AuditRecord
  pub delegated_registry : Option (Text × Bytes)
  pub snapshot : SnapshotMeta

-- A registry that a mutation has pinned: its TLD, its exact bytes and its content.
abbrev pub NewRegistry : Type 0
NewRegistry = Text × Bytes × TldRegistry

-- What `apply_action` returns and what it does to the clone of the zone.
pub record Change : Type 0 where
  pub role : ActorRole
  pub zone : RootZone
  pub new_registry : Option NewRegistry
