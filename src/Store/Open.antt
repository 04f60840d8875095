-- ===== src/Store/Open.antt =====
-- The start of the registry of crates/federate-mutation/src/store.rs: `init` on the first boot and `open`
-- on every later one. A directory on disk is the map from its file
-- names to their contents; the database engine hands over what was committed.
use federate.Base.{
  Text, Bytes, Option, none, some, List, [], ◌∷◌, ◌==◌, text_eq, BTreeMap, insert, values, collect,
  if◌then◌else◌,
}
use federate.Core.{Result, ok, err, ◌>>=◌, ◌>>◌, FederateError, guard, storage, invalid_root}
use federate.Root.{RootZone, TldRecord, lookup_tld, lookup}
use federate.Root
use federate.Registry.{TldRegistry}
use federate.Host.{Host}
use federate.Signing.Zones
use federate.Signing.Registries
use federate.Storage
use federate.Storage.{Blocks, hash_bytes, get_block, put_block}
use federate.Store.{AppliedMutation}
use federate.Store.Actions.Domains.{ok_or}
use federate.Store.Database.{
  Database, InitialState, empty_database, commit_initial, current_root_zone, list_values,
}
use federate.Store.Prepare.{RegistryStore, state_hash}
use federate.Store.Apply.{Io, write_snapshot}

-- What stands in the directory: the database, if there is one, and the content files.
pub record Disk : Type 0 where
  pub database : Option Database
  pub manifest_files : BTreeMap Bytes
  pub blocks : Blocks

-- The applied mutations under their own ids.
unfoldable pub by_id : BTreeMap AppliedMutation → List (Text × AppliedMutation)
by_id [] = []
by_id ((id, m) ∷ t) = (m.mutation.mutation_id, m) ∷ by_id t

abbrev pub RegistryMap : Type 0
RegistryMap = BTreeMap (Bytes × TldRegistry)

module _ (h : Host) where
  abbrev pub no_record : FederateError
  no_record = invalid_root "persisted registry has no TLD record in the zone"

  -- The loop over the persisted registries.
  unfoldable pub restore_registries :
      RootZone → List (Text × Bytes) → RegistryMap → Result RegistryMap
  restore_registries zone [] found = ok found
  restore_registries zone ((tld, raw) ∷ rest) found = do
    parsed ← h.serde.read_registry raw
    rec ← ok_or (lookup_tld tld zone) no_record
    Registries.verify h parsed tld rec.operator_public_key
    restore_registries zone rest (insert tld (raw, parsed) found)

  -- The loop over the manifest files: a corrupted one is dropped.
  unfoldable pub restore_manifests : BTreeMap Bytes → BTreeMap Bytes → BTreeMap Bytes
  restore_manifests [] found = found
  restore_manifests ((name, bytes) ∷ rest) found =
      restore_manifests rest
        (if text_eq (hash_bytes h bytes) name then insert name bytes found else found)

  -- The stored hash, if there is one, is that of the zone.
  unfoldable pub check_state_hash : RootZone → Option Text → Result (Unit {0})
  check_state_hash zone none = ok tt
  check_state_hash zone (some stored) = do
    actual ← state_hash h zone
    guard (text_eq stored actual) (invalid_root "stored state hash does not match the current zone")

  -- The rest of the history is taken as the database has it.
  abbrev pub opened : Database → Disk → RootZone → RegistryMap → RegistryStore
  opened d disk zone registries = record {
    backend = d;
    zone = zone;
    registries = registries;
    manifests = restore_manifests disk.manifest_files [];
    blocks = disk.blocks;
    target_versions = collect d.target_versions [];
    applied = collect (by_id d.mutations) [];
    audit = list_values d.audit_events;
  }

  unfoldable pub open_database : Database → Disk → (expected_root_key : Text) → Result RegistryStore
  unfolding restore_registries check_state_hash
  open_database d disk key = do
    (version, zone_json) ← ok_or (current_root_zone d) (storage "database has no current root zone")
    zone ← h.serde.read_zone zone_json
    Root.validate zone
    Zones.verify h zone key
    guard (zone.root_version == version)
        (invalid_root "current zone claims another version than the metadata")
    check_state_hash zone d.state_hash
    registries ← restore_registries zone d.delegated_registries []
    ok (opened d disk zone registries)

  abbrev pub open_found : Option Database → Disk → Text → Result RegistryStore
  open_found none disk key = err (storage "no registry database")
  open_found (some d) disk key = open_database d disk key

  unfoldable pub open_store : Disk → (expected_root_key : Text) → Result RegistryStore
  unfolding open_database
  open_store disk key = open_found disk.database disk key

  -- The loops of `init` over the blocks and the manifests.
  unfoldable pub put_blocks : List (Text × Bytes) → Blocks → Result Blocks
  put_blocks [] disk = ok disk
  put_blocks ((hash, bytes) ∷ rest) disk = do
    disk' ← put_block h disk hash bytes
    put_blocks rest disk'

  abbrev raw_registries : RegistryMap → List (Text × Bytes)
  raw_registries [] = []
  raw_registries ((tld, (raw, parsed)) ∷ rest) = (tld, raw) ∷ raw_registries rest

  unfoldable pub initial_state : RootZone → RegistryMap → Result InitialState
  initial_state zone registries = do
    json ← h.serde.zone_to_vec zone
    hash ← state_hash h zone
    ok (record {
      zone_json = json;
      root_version = zone.root_version;
      state_hash = hash;
      tlds = values zone.tlds;
      domains = values zone.domains;
      delegated_registries = raw_registries registries;
      snapshot = record {
        root_version = zone.root_version;
        created_at = zone.generated_at;
        state_hash = hash;
      };
    })

  -- `write_manifest`: the file, then memory.
  unfoldable pub write_manifests :
      Result (Unit {0}) → BTreeMap Bytes → BTreeMap Bytes → Result (BTreeMap Bytes)
  write_manifests written [] found = ok found
  write_manifests written ((hash, bytes) ∷ rest) found = do
    written
    write_manifests written rest (insert hash bytes found)

  abbrev pub fresh_store :
      Database → RootZone → RegistryMap → BTreeMap Bytes → Blocks → RegistryStore
  fresh_store d zone registries manifests blocks = record {
    backend = d;
    zone = zone;
    registries = registries;
    manifests = manifests;
    blocks = blocks;
    target_versions = [];
    applied = [];
    audit = [];
  }

  abbrev pub with_snapshot : Result (Unit {0}) × RegistryStore → Result RegistryStore
  with_snapshot (err e, s) = err e
  with_snapshot (ok u, s) = ok s

  abbrev pub committed :
      Io
      → RootZone
      → RegistryMap
      → BTreeMap Bytes
      → Blocks
      → Result (Unit {0}) × Database
      → Result RegistryStore
  committed io zone registries manifests blocks (err e, d) = err e
  committed io zone registries manifests blocks (ok u, d) = do
    found ← write_manifests io.write_manifest manifests []
    with_snapshot (write_snapshot h io (fresh_store d zone registries found blocks))

  -- `init`: an error stops the node before it serves anything.
  unfoldable pub init :
      Io
      → RootZone
      → RegistryMap
      → (manifests : BTreeMap Bytes) → (blocks : List (Text × Bytes)) → Result RegistryStore
  unfolding put_blocks initial_state write_manifests
  init io zone registries manifests blocks = do
    disk ← put_blocks blocks []
    state ← initial_state zone registries
    committed io zone registries manifests disk (commit_initial io.commit state empty_database)

  -- `store_blocks`: an error leaves the blocks that were put before it.
  unfoldable pub store_blocks :
      List (Text × Bytes) → RegistryStore → Result (Unit {0}) × RegistryStore
  store_blocks [] s = (ok tt, s)
  store_blocks ((hash, bytes) ∷ rest) s = elim (put_block h s.blocks hash bytes) [
    | err e ↦ (err e, s)
    | ok disk ↦ store_blocks rest (record s { blocks = disk })
  ]

  abbrev stored_manifest :
      Text → Bytes → RegistryStore → Result (Unit {0}) → Result (Unit {0}) × RegistryStore
  stored_manifest hash bytes s (err e) = (err e, s)
  stored_manifest hash bytes s (ok u) =
      (ok tt, record s { manifests = insert hash bytes s.manifests })

  unfoldable pub store_manifest :
      Io → Text → Bytes → RegistryStore → Result (Unit {0}) × RegistryStore
  store_manifest io hash bytes s =
      stored_manifest hash bytes s (do Storage.verify h bytes hash; io.write_manifest)
