-- ===== src/Store/Prepare.antt =====
-- `apply_action` of crates/federate-mutation/src/store.rs, and `apply` up to its first write.
use federate.Base.{
  ℕ, Text, Bytes, Bool, true, false, not, Option, none, some, List, [], ◌∷◌, ◌++◌, ◌+◌, ◌-◌, ◌^◌,
  min, max, BTreeMap, get, contains_key, text_eq, ltb, if◌then◌else◌, length, drop, pos_part,
}
use federate.Core.{Result, ok, ◌>>=◌, ◌>>◌, guard, replay}
use federate.Naming.Expiry.{DateTime}
use federate.Root.{RootZone, AuditEvent, signature_algorithm}
use federate.Registry.{TldRegistry}
use federate.Mutation.{
  MutationAction, publish_site, update_domain_manifest, set_domain_status, issue_domain,
  delegate_tld, update_tld, create_tld, reserve_tld, block_tld, set_tld_status,
  update_registry_pointer, MutationRequest, AuditRecord, ActorRole, actor_role_str, target_kind_str,
  target, target_key, name,
}
use federate.Host.{Host}
use federate.Identity.{node_id, canonical_bytes}
use federate.Signing.Zones
use federate.Signing.Requests
use federate.Signing.Audits
use federate.Storage.{Blocks, hash_bytes}
use federate.Store.{MutationContext, AppliedMutation, NewRegistry, Change, zone_audit_tail}
use federate.Store.Database.{Database}
use federate.Store.Actions.Domains
use federate.Store.Actions.Tlds

pub record RegistryStore : Type 0 where
  pub backend : Database
  pub zone : RootZone
  pub registries : BTreeMap (Bytes × TldRegistry)
  pub manifests : BTreeMap Bytes
  pub blocks : Blocks
  pub target_versions : BTreeMap ℕ
  pub applied : BTreeMap AppliedMutation
  pub audit : List AuditRecord

abbrev pub or_zero : Option ℕ → ℕ
or_zero none = 0
or_zero (some v) = v

unfoldable pub target_version : RegistryStore → Text → ℕ
target_version s key = or_zero (get key s.target_versions)

abbrev pub u64_max : ℕ
u64_max = 2 ^ 64 - 1

-- `root_version.saturating_add(1).max(now.timestamp().max(0) as u64)`.
unfoldable pub next_version : ℕ → DateTime → ℕ
next_version v now = max (min (v + 1) u64_max) (pos_part now.timestamp)

-- `push`, then `drain` down to the newest `ZONE_AUDIT_TAIL` events.
unfoldable pub push_audit : List AuditEvent → AuditEvent → List AuditEvent
push_audit audit e =
    let longer = audit ++ e ∷ [] in
    if ltb zone_audit_tail (length longer)
    then drop (length longer - zone_audit_tail) longer
    else longer

-- What a mutation is about to commit.
pub record Prepared : Type 0 where
  pub zone : RootZone
  pub new_registry : Option NewRegistry
  pub event : AuditRecord

module _ (h : Host) where
  unfoldable pub state_hash : RootZone → Result Text
  state_hash zone = do b ← canonical_bytes h (h.serde.zone_value zone); ok (hash_bytes h b)

  -- The `match` of `apply_action`; the actor is root if its key is the zone's.
  unfoldable pub run_action :
      RegistryStore
      → MutationContext
      → (actor : Text) → (is_root : Bool) → MutationAction
      → Result Change
  run_action s ctx actor is_root (publish_site d m) =
      Domains.publish h ctx s.manifests s.zone actor false d m
  run_action s ctx actor is_root (update_domain_manifest d m) =
      Domains.publish h ctx s.manifests s.zone actor true d m
  run_action s ctx actor is_root (set_domain_status d st) =
      Domains.set_domain_status h ctx s.zone actor is_root d st
  run_action s ctx actor is_root (issue_domain rec) =
      Domains.issue_domain h s.zone actor is_root rec
  run_action s ctx actor is_root (delegate_tld d) = Tlds.delegate_tld h ctx s.zone is_root d
  run_action s ctx actor is_root (create_tld t p) = Tlds.create_tld h ctx s.zone is_root t p
  run_action s ctx actor is_root (reserve_tld t r) = Tlds.restrict_tld h ctx s.zone is_root true t r
  run_action s ctx actor is_root (block_tld t r) = Tlds.restrict_tld h ctx s.zone is_root false t r
  run_action s ctx actor is_root (update_tld t e x n) = Tlds.update_tld h ctx s.zone is_root t e x n
  run_action s ctx actor is_root (set_tld_status t st) =
      Tlds.set_tld_status h ctx s.zone is_root t st
  run_action s ctx actor is_root (update_registry_pointer t r) =
      Tlds.update_registry_pointer h ctx s.registries s.zone actor t r

  unfoldable pub apply_action : RegistryStore → MutationRequest → MutationContext → Result Change
  apply_action s req ctx =
      run_action s ctx req.actor_public_key (text_eq req.actor_public_key s.zone.root_public_key)
        req.action

  abbrev pub stamp : MutationContext → Text
  stamp ctx = h.chrono.to_rfc3339 ctx.now

  -- The zone of the change under its new version and with its audit entry, not yet signed.
  unfoldable pub advance : MutationRequest → MutationContext → Change → RootZone
  advance req ctx c = record c.zone {
    root_version = next_version c.zone.root_version ctx.now;
    generated_at = stamp ctx;
    audit = push_audit c.zone.audit (record {
      at = stamp ctx;
      actor = actor_role_str c.role;
      action = name req.action;
      subject = (target req.action).1;
      detail = some req.mutation_id;
    });
  }

  unfoldable pub audit_event :
      MutationRequest → MutationContext → ActorRole → (previous new : Text) → AuditRecord
  audit_event req ctx role previous new = record {
    event_id = [];
    mutation_id = req.mutation_id;
    actor_public_key = req.actor_public_key;
    actor_role = actor_role_str role;
    action = name req.action;
    target_type = target_kind_str (target req.action).0;
    target_id = (target req.action).1;
    previous_state_hash = previous;
    new_state_hash = new;
    timestamp = stamp ctx;
    signature_algorithm = signature_algorithm;
    signature = none;
  }

  -- The checks of `apply` before it works on a clone.
  unfoldable pub admit : RegistryStore → MutationRequest → MutationContext → Result (Unit {0})
  admit s req ctx = do
    Requests.verify h req
    Requests.check_age h req ctx.now
    guard (not (contains_key req.mutation_id s.applied)) (replay "mutation was already applied")
    guard (ltb (target_version s (target_key req.action)) req.target_version)
        (replay "target version does not advance")

  -- The rest of `apply` up to the first write.
  unfoldable pub prepare : RegistryStore → MutationRequest → MutationContext → Result Prepared
  prepare s req ctx = do
    admit s req ctx
    change ← apply_action s req ctx
    previous ← state_hash s.zone
    zone ← Zones.signed h ctx.root (advance req ctx change)
    Zones.verify h zone (node_id h ctx.root)
    new ← state_hash zone
    event ← Audits.finalize h (audit_event req ctx change.role previous new) ctx.root
    ok (record { zone = zone; new_registry = change.new_registry; event = event })
