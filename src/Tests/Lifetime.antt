-- ===== src/Tests/Lifetime.antt =====
-- A registry that is booted, takes a mutation and is restarted.
use federate.Base.{
  ◌≡◌, refl, some, [], text_eq, text_ltb, get, insert, collect, to_ascii_lowercase, trim, len,
  trim_start_matches, inl,
}
use federate.Core.{FederateError, Result, ok, err}
use federate.Core.Json.{write_canonical}
use federate.Naming.{validate_tld_name}
use federate.Naming.Expiry.{expired_at}
use federate.Root.{RootZone, validate_domains}
use federate.Root
use federate.Root.Blocklists.{validate_new_tld, is_member}
use federate.Mutation.{AuditRecord, target_key, name, target, actor_role_str}
use federate.Host.{Host}
use federate.Identity.{
  node_id, sign, verify_decoded, verify_with, verify_signature, canonical_bytes, check_signature,
}
use federate.Signing.Tlds
use federate.Signing.Zones
use federate.Signing.Requests
use federate.Signing.Audits
use federate.Storage.{hash_bytes}
use federate.Store.Actions.Tlds as TldActions
use federate.Store.Database.{
  commit_mutation, create_snapshot, commit_initial, write_initial, write_batch, tld_table,
  domain_table, next_seq, insert_u64, get_u64, current_root_zone, list_values,
}
use federate.Store.Prepare.{
  RegistryStore, target_version, next_version, push_audit, state_hash, run_action, apply_action,
  advance, audit_event, admit, prepare,
}
use federate.Store.Apply.{
  write_registry, applied_mutation, remember, snapshot_meta, commit_batch, write_snapshot, finish,
  persist, commit, apply,
}
use federate.Store.Open.{
  Disk, by_id, restore_registries, restore_manifests, check_state_hash, open_database, open_store,
  put_blocks, initial_state, write_manifests, init,
}
use federate.Store.Restored.{IsOpened, open_store-IsOpened}
use federate.Store.Life.{Later, Step, apply-IsKeyed, init-IsDurable}
use federate.Store.Lifetime.{lifetime_replay_refused}
use federate.Tests.Fixture.{
  host, sample_serde, ctx, empty_zone, empty_store, event_of, good_io, create_fed, root_identity,
}

abbrev store_of : Result RegistryStore → RegistryStore
store_of (ok s) = s
store_of (err e) = empty_store

-- The zone that the database has after the mutation is read back.
abbrev zone_after : RootZone
zone_after =
    (apply host good_io create_fed ctx (store_of (init host good_io empty_zone [] [] []))).1.zone

abbrev machine : Host
machine = record host { serde = record sample_serde { read_zone = λ b. ok zone_after } }

abbrev booted : RegistryStore
booted = store_of (init machine good_io empty_zone [] [] [])

abbrev created : RegistryStore
created = (apply machine good_io create_fed ctx booted).1

abbrev on_disk : Disk
on_disk = record { database = some created.backend; manifest_files = []; blocks = [] }

abbrev reopened : RegistryStore
reopened = store_of (open_store machine on_disk (node_id host root_identity))

booted_ok : init machine good_io empty_zone [] [] [] ≡ ok booted
unfolding state_hash put_blocks initial_state write_manifests init commit_initial write_initial
    insert_u64 snapshot_meta write_snapshot create_snapshot tld_table domain_table collect
    canonical_bytes
booted_ok = refl

abbrev created_event : AuditRecord
created_event = event_of (apply machine good_io create_fed ctx booted).0

create_accepted : apply machine good_io create_fed ctx booted ≡ (ok created_event, created)
unfolding text_eq text_ltb get insert collect to_ascii_lowercase trim trim_start_matches len
    write_canonical validate_tld_name expired_at validate_new_tld is_member target_key name target
    actor_role_str node_id sign verify_decoded verify_with verify_signature canonical_bytes
    check_signature Tlds.verify Tlds.signed Tlds.signable_bytes Zones.verify Zones.verify_tlds
    Zones.signed Zones.signable_bytes Requests.verify Requests.check_age Requests.compute_id
    Requests.signable_bytes Audits.finalize Audits.compute_id Audits.signable_bytes hash_bytes
    TldActions.create_tld TldActions.official_record TldActions.write_tld target_version
    next_version push_audit state_hash run_action apply_action advance audit_event admit prepare
    write_registry applied_mutation remember snapshot_meta commit_batch write_snapshot finish
    persist commit apply commit_mutation create_snapshot put_blocks initial_state write_manifests
    init commit_initial write_initial write_batch tld_table domain_table next_seq insert_u64
create_accepted = refl

reopened_ok : open_store machine on_disk (node_id host root_identity) ≡ ok reopened
unfolding text_eq text_ltb get insert collect to_ascii_lowercase trim trim_start_matches len
    write_canonical validate_tld_name expired_at validate_new_tld is_member target_key name target
    actor_role_str node_id sign verify_decoded verify_with verify_signature canonical_bytes
    check_signature Tlds.verify Tlds.signed Tlds.signable_bytes Zones.verify Zones.verify_tlds
    Zones.signed Zones.signable_bytes Requests.verify Requests.check_age Requests.compute_id
    Requests.signable_bytes Audits.finalize Audits.compute_id Audits.signable_bytes hash_bytes
    TldActions.create_tld TldActions.official_record TldActions.write_tld target_version
    next_version push_audit state_hash run_action apply_action advance audit_event admit prepare
    write_registry applied_mutation remember snapshot_meta commit_batch write_snapshot finish
    persist commit apply commit_mutation create_snapshot put_blocks initial_state write_manifests
    init commit_initial write_initial write_batch tld_table domain_table next_seq insert_u64 get_u64
    current_root_zone list_values by_id restore_registries restore_manifests check_state_hash
    open_database open_store Root.validate validate_domains
reopened_ok = refl

created_later : Later machine created reopened
created_later =
    Later.after created reopened (Later.now created refl)
      (Step.restarted on_disk (node_id host root_identity) created reopened refl reopened_ok)

-- The creation of `.fed`, sent again after a restart.
lifetime_replay_refused_example :
    (e : FederateError) × (apply machine good_io create_fed ctx reopened ≡ (err e, reopened))
lifetime_replay_refused_example =
    lifetime_replay_refused machine good_io empty_zone [] [] [] booted booted created reopened
      good_io create_fed ctx created_event booted_ok (Later.now booted refl) create_accepted
      created_later good_io create_fed ctx (inl refl)

open_store-IsOpened_example :
    IsOpened machine created.backend on_disk (node_id host root_identity) reopened
open_store-IsOpened_example =
    open_store-IsOpened machine created.backend on_disk (node_id host root_identity) reopened
      (apply-IsKeyed machine good_io create_fed ctx booted created created_event create_accepted
        (init-IsDurable machine good_io empty_zone [] [] [] booted booted_ok).keyed)
      refl reopened_ok
