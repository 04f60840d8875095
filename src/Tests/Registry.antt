-- ===== src/Tests/Registry.antt =====
-- Mutations of the registry.
use federate.Base.{
  ◌≡◌, refl, none, [], text_eq, text_eq_iff, codes, text_ltb, get, insert, to_ascii_lowercase, trim,
  len, trim_start_matches, ends_with, false≢true, arith, ◌≢◌, values,
}
use federate.Core.{ok, err, serde}
use federate.Store.{CommitBatch}
use federate.Core.Json.{write_canonical}
use federate.Naming.{validate_tld_name, validate_label}
use federate.Root.{lookup_tld}
use federate.Naming.Expiry.{expired_at}
use federate.Root.Blocklists.{validate_new_tld, is_member}
use federate.Mutation.{AuditRecord, target_key, name, target, actor_role_str}
use federate.Identity.{
  node_id, sign, verify_decoded, verify_with, verify_signature, canonical_bytes, check_signature,
}
use federate.Signing.Tlds
use federate.Signing.Domains
use federate.Signing.Zones
use federate.Signing.Requests
use federate.Signing.Audits
use federate.Storage.{hash_bytes}
use federate.Store.Actions.Tlds as TldActions
use federate.Store.Actions.Domains as DomainActions
use federate.Store.Database.{commit_mutation, create_snapshot}
use federate.Store.Prepare.{
  RegistryStore, Prepared, target_version, next_version, push_audit, state_hash, run_action,
  apply_action, advance, audit_event, admit, prepare,
}
use federate.Store.Apply.{
  Io, write_registry, applied_mutation, remember, snapshot_meta, commit_batch, write_snapshot,
  finish, persist, commit, apply,
}
use federate.Store.Progress.{Progress, apply-Progress}
use federate.Store.Audited.{IsAudited, apply-IsAudited}
use federate.Store.Validity.{apply-valid}
use federate.Store.Authority.{SignedBy, Entitled, apply_authorized}
use federate.Store.Revoked.{IsRevoked, IsRevoked-stays}
use federate.Store.Verify.{verify_tables}
use federate.Store.Tables.{IsNamed, apply-verify_tables}
use federate.Store.Mirror.{IsMirrored, Diverged, apply-IsMirrored, failed_commit_diverges}
use federate.Root
use federate.Root.{validate_domains}
use federate.Tests.Fixture.{
  bad_domain, host, host-SignsCorrectly, ctx, empty_store, fed_store, good_io, create_fed,
  issue_good, event_of,
}

abbrev created : RegistryStore
created = (apply host good_io create_fed ctx empty_store).1

abbrev created_event : AuditRecord
created_event = event_of (apply host good_io create_fed ctx empty_store).0

create_fed_accepted : apply host good_io create_fed ctx empty_store ≡ (ok created_event, created)
unfolding text_eq text_ltb get insert to_ascii_lowercase trim trim_start_matches len write_canonical
    validate_tld_name expired_at validate_new_tld is_member target_key name target actor_role_str
    node_id sign verify_decoded verify_with verify_signature canonical_bytes check_signature
    Tlds.verify Tlds.signed Tlds.signable_bytes Zones.verify Zones.verify_tlds Zones.signed
    Zones.signable_bytes Requests.verify Requests.check_age Requests.compute_id
    Requests.signable_bytes Audits.finalize Audits.compute_id Audits.signable_bytes hash_bytes
    TldActions.create_tld TldActions.official_record TldActions.write_tld target_version
    next_version push_audit state_hash run_action apply_action advance audit_event admit prepare
    write_registry applied_mutation remember snapshot_meta commit_batch write_snapshot finish
    persist commit apply commit_mutation create_snapshot
create_fed_accepted = refl

abbrev issued : RegistryStore
issued = (apply host good_io issue_good ctx fed_store).1

abbrev issued_event : AuditRecord
issued_event = event_of (apply host good_io issue_good ctx fed_store).0

issue_good_accepted : apply host good_io issue_good ctx fed_store ≡ (ok issued_event, issued)
unfolding text_eq text_ltb get insert to_ascii_lowercase trim trim_start_matches len write_canonical
    validate_tld_name expired_at validate_new_tld is_member target_key name target actor_role_str
    node_id sign verify_decoded verify_with verify_signature canonical_bytes check_signature
    Tlds.verify Tlds.signed Tlds.signable_bytes Zones.verify Zones.verify_tlds Zones.signed
    Zones.signable_bytes Requests.verify Requests.check_age Requests.compute_id
    Requests.signable_bytes Audits.finalize Audits.compute_id Audits.signable_bytes hash_bytes
    Domains.verify Domains.signable_bytes Domains.is_expired DomainActions.issue_domain
    DomainActions.check_reissue validate_label lookup_tld target_version next_version push_audit
    state_hash run_action apply_action advance audit_event admit prepare write_registry
    applied_mutation remember snapshot_meta commit_batch write_snapshot finish persist commit apply
    commit_mutation create_snapshot ends_with
issue_good_accepted = refl

fed_store_valid : Root.validate fed_store.zone ≡ ok tt
unfolding Root.validate validate_domains get text_eq text_ltb
fed_store_valid = refl

fed_store-IsRevoked : IsRevoked fed_store.zone (codes "bad.fed") bad_domain
unfolding get text_eq
fed_store-IsRevoked = (refl, refl)

fed_store-IsMirrored : IsMirrored fed_store
fed_store-IsMirrored = record { mutations = λ id. refl; versions = λ k. refl; current = refl }

apply-Progress_example : Progress host create_fed ctx empty_store created
apply-Progress_example =
    apply-Progress host good_io create_fed ctx empty_store created created_event (omega arith)
      create_fed_accepted

apply-valid_example : Root.validate issued.zone ≡ ok tt
apply-valid_example =
    apply-valid host good_io issue_good ctx fed_store issued issued_event issue_good_accepted
      fed_store_valid

apply_authorized_example :
    SignedBy host issue_good × Entitled fed_store.zone issue_good.actor_public_key issue_good.action
apply_authorized_example =
    apply_authorized host good_io issue_good ctx fed_store issued issued_event issue_good_accepted

operator_not_root : issue_good.actor_public_key ≢ fed_store.zone.root_public_key
unfolding text_eq
operator_not_root e =
    false≢true ((text_eq_iff issue_good.actor_public_key fed_store.zone.root_public_key).1 e)

IsRevoked-stays_example : IsRevoked issued.zone (codes "bad.fed") bad_domain
IsRevoked-stays_example =
    IsRevoked-stays host good_io issue_good ctx fed_store issued issued_event (codes "bad.fed")
      bad_domain issue_good_accepted operator_not_root fed_store-IsRevoked

apply-IsMirrored_example : IsMirrored issued
apply-IsMirrored_example =
    apply-IsMirrored host good_io issue_good ctx fed_store issued issued_event issue_good_accepted
      fed_store-IsMirrored

abbrev full_disk : Io
full_disk = record good_io { commit = err (serde "no space left") }

abbrev prepared : Prepared
prepared = record { zone = created.zone; new_registry = none; event = created_event }

create_fed_prepared : prepare host empty_store create_fed ctx ≡ ok prepared
unfolding text_eq text_ltb get insert to_ascii_lowercase trim trim_start_matches len write_canonical
    validate_tld_name expired_at validate_new_tld is_member target_key name target actor_role_str
    node_id sign verify_decoded verify_with verify_signature canonical_bytes check_signature
    Tlds.verify Tlds.signed Tlds.signable_bytes Zones.verify Zones.verify_tlds Zones.signed
    Zones.signable_bytes Requests.verify Requests.check_age Requests.compute_id
    Requests.signable_bytes Audits.finalize Audits.compute_id Audits.signable_bytes hash_bytes
    TldActions.create_tld TldActions.official_record TldActions.write_tld target_version
    next_version push_audit state_hash run_action apply_action advance audit_event admit prepare
    write_registry applied_mutation remember snapshot_meta commit_batch write_snapshot finish
    persist commit apply commit_mutation create_snapshot
create_fed_prepared = refl

abbrev batch : CommitBatch
batch = record {
  zone_json = [];
  root_version = created.zone.root_version;
  state_hash = create_fed.mutation_id;
  tlds = values created.zone.tlds;
  domains = values created.zone.domains;
  target_key = target_key create_fed.action;
  target_version = create_fed.target_version;
  applied = applied_mutation host create_fed ctx prepared;
  audit = created_event;
  delegated_registry = none;
  snapshot = record {
    root_version = created.zone.root_version;
    created_at = [];
    state_hash = create_fed.mutation_id;
  };
}

create_fed-batch : commit_batch host create_fed ctx prepared none prepared.zone ≡ ok batch
unfolding text_eq text_ltb get insert to_ascii_lowercase trim trim_start_matches len write_canonical
    validate_tld_name expired_at validate_new_tld is_member target_key name target actor_role_str
    node_id sign verify_decoded verify_with verify_signature canonical_bytes check_signature
    Tlds.verify Tlds.signed Tlds.signable_bytes Zones.verify Zones.verify_tlds Zones.signed
    Zones.signable_bytes Requests.verify Requests.check_age Requests.compute_id
    Requests.signable_bytes Audits.finalize Audits.compute_id Audits.signable_bytes hash_bytes
    TldActions.create_tld TldActions.official_record TldActions.write_tld target_version
    next_version push_audit state_hash run_action apply_action advance audit_event admit prepare
    write_registry applied_mutation remember snapshot_meta commit_batch write_snapshot finish
    persist commit apply commit_mutation create_snapshot
create_fed-batch = refl

failed_commit_diverges_example :
    Diverged create_fed
      (serde "no space left")
      prepared
      empty_store
      (apply host full_disk create_fed ctx empty_store)
failed_commit_diverges_example =
    failed_commit_diverges host full_disk create_fed ctx empty_store prepared batch
      (serde "no space left") create_fed_prepared refl create_fed-batch refl

apply-IsAudited_example : IsAudited host issue_good ctx fed_store issued issued_event
apply-IsAudited_example =
    apply-IsAudited host host-SignsCorrectly good_io issue_good ctx fed_store issued issued_event
      issue_good_accepted

fed_store-IsNamed : IsNamed fed_store.zone
fed_store-IsNamed = record {
  tlds = (tt, tt);
  domains = (tt, tt);
  tld_names = (refl, tt);
  domain_names = (refl, tt);
}

apply-verify_tables_example : IsNamed issued.zone × (verify_tables issued ≡ ok tt)
apply-verify_tables_example =
    apply-verify_tables host good_io issue_good ctx fed_store issued issued_event
      issue_good_accepted fed_store-IsNamed
