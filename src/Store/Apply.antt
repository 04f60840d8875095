-- ===== src/Store/Apply.antt =====
-- `RegistryStore::apply` of crates/federate-mutation/src/store.rs: memory, database and files. The
-- state after the call is returned beside the result, also where the result is an error. `Io` is
-- what the file system and the database engine answer during the call.
use federate.Base.{Text, Bytes, Option, none, some, [], ◌∷◌, ◌++◌, insert, values}
use federate.Core.{Result, ok, err, ◌>>=◌, ◌>>◌}
use federate.Root.{RootZone}
use federate.Mutation.{MutationRequest, AuditRecord, target_key}
use federate.Host.{Host}
use federate.Storage.{hash_bytes}
use federate.Store.{MutationContext, AppliedMutation, SnapshotMeta, CommitBatch, NewRegistry}
use federate.Store.Database.{commit_mutation, create_snapshot}
use federate.Store.Prepare.{RegistryStore, Prepared, stamp, state_hash, prepare}

pub record Io : Type 0 where
  pub write_manifest : Result (Unit {0})
  pub commit : Result (Unit {0})
  pub write_snapshot : Result (Unit {0})
  pub snapshot_row : Result (Unit {0})

module _ (h : Host) where
  -- `write_manifest` and the registry map, if the mutation pinned a registry.
  unfoldable pub write_registry :
      Io → Option NewRegistry → RegistryStore → Result (Option (Text × Bytes)) × RegistryStore
  write_registry io none s = (ok none, s)
  write_registry io (some (tld, bytes, parsed)) s = elim io.write_manifest [
    | err e ↦ (err e, s)
    | ok u ↦ (
      ok (some (tld, bytes)),
      record s {
        manifests = insert (hash_bytes h bytes) bytes s.manifests;
        registries = insert tld (bytes, parsed) s.registries;
      },
    )
  ]

  unfoldable pub applied_mutation : MutationRequest → MutationContext → Prepared → AppliedMutation
  applied_mutation req ctx p = record {
    mutation = req;
    audit_event_id = p.event.event_id;
    applied_at = stamp h ctx;
    root_version = p.zone.root_version;
  }

  -- The maps that remember the mutation.
  unfoldable pub remember :
      MutationRequest → MutationContext → Prepared → RegistryStore → RegistryStore
  remember req ctx p s = record s {
    target_versions = insert (target_key req.action) req.target_version s.target_versions;
    applied = insert req.mutation_id (applied_mutation req ctx p) s.applied;
    audit = s.audit ++ p.event ∷ [];
  }

  unfoldable pub snapshot_meta : RootZone → Result SnapshotMeta
  snapshot_meta zone = do
    hash ← state_hash h zone
    ok (record {
      root_version = zone.root_version;
      created_at = zone.generated_at;
      state_hash = hash;
    })

  unfoldable pub commit_batch :
      MutationRequest
      → MutationContext
      → Prepared
      → Option (Text × Bytes)
      → RootZone
      → Result CommitBatch
  commit_batch req ctx p delegated zone = do
    json ← h.serde.zone_to_vec zone
    hash ← state_hash h zone
    snapshot ← snapshot_meta zone
    ok (record {
      zone_json = json;
      root_version = zone.root_version;
      state_hash = hash;
      tlds = values zone.tlds;
      domains = values zone.domains;
      target_key = target_key req.action;
      target_version = req.target_version;
      applied = applied_mutation req ctx p;
      audit = p.event;
      delegated_registry = delegated;
      snapshot = snapshot;
    })

  -- `write_snapshot`: the file, then a row of the snapshots table.
  unfoldable pub write_snapshot : Io → RegistryStore → Result (Unit {0}) × RegistryStore
  write_snapshot io s =
      elim (do json ← h.serde.zone_to_vec_pretty s.zone; io.write_snapshot; snapshot_meta s.zone) [
        | err e ↦ (err e, s)
        | ok meta ↦
            let (r, d) = create_snapshot io.snapshot_row meta s.backend in
            (r, record s { backend = d })
      ]

  abbrev pub reply : Result (Unit {0}) → AuditRecord → Result AuditRecord
  reply (err e) event = err e
  reply (ok u) event = ok event

  -- `write_snapshot()?; Ok(event)`, if the transaction committed.
  unfoldable pub finish :
      Io → Result (Unit {0}) → AuditRecord → RegistryStore → Result AuditRecord × RegistryStore
  finish io (err e) event s = (err e, s)
  finish io (ok u) event s = let (r, s') = write_snapshot io s in (reply r event, s')

  -- The database transaction, and the snapshot behind it.
  unfoldable pub persist :
      Io → Result CommitBatch → AuditRecord → RegistryStore → Result AuditRecord × RegistryStore
  persist io (err e) event s = (err e, s)
  persist io (ok batch) event s =
      let (r, d) = commit_mutation io.commit batch s.backend in
      finish io r event (record s { backend = d })

  abbrev pub after_registry :
      Io
      → MutationRequest
      → MutationContext
      → Prepared
      → Result (Option (Text × Bytes))
      → RegistryStore
      → Result AuditRecord × RegistryStore
  after_registry io req ctx p (err e) s = (err e, s)
  after_registry io req ctx p (ok delegated) s =
      persist io (commit_batch req ctx p delegated p.zone) p.event (remember req ctx p s)

  -- From `self.zone = zone` on.
  unfoldable pub commit :
      Io
      → MutationRequest
      → MutationContext
      → Prepared
      → RegistryStore
      → Result AuditRecord × RegistryStore
  commit io req ctx p s =
      let (r, s') = write_registry io p.new_registry (record s { zone = p.zone }) in
      after_registry io req ctx p r s'

  abbrev pub run_prepared :
      Io
      → MutationRequest
      → MutationContext
      → RegistryStore
      → Result Prepared
      → Result AuditRecord × RegistryStore
  run_prepared io req ctx s (err e) = (err e, s)
  run_prepared io req ctx s (ok p) = commit io req ctx p s

  unfoldable pub apply :
      Io → MutationRequest → MutationContext → RegistryStore → Result AuditRecord × RegistryStore
  apply io req ctx s = run_prepared io req ctx s (prepare h s req ctx)
