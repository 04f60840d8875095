-- ===== src/Store/Database.antt =====
-- crates/federate-mutation/src/redb_backend.rs: the tables of the database. Records, which the
-- source keeps as JSON, stand in the tables as they are. The engine (redb) is a parameter: whether
-- a transaction commits. One that does not leaves the tables alone.
pub mod Nonces
pub mod Reservations
use federate.Base.{
  ℕ, Text, Bytes, Bool, Option, none, some, List, [], ◌∷◌, ◌++◌, ◌+◌, ◌*◌, ℤ, pos, ◌-ℤ◌, ltb_ℤ, ltb,
  ◌==◌, BTreeMap, get, insert, remove, collect, if◌then◌else◌, false, true,
}
use federate.Core.{Result, ok, err}
use federate.Naming.Record.{DomainRecord}
use federate.Root.{TldRecord}
use federate.Mutation.{AuditRecord, nonce_ttl_secs}
use federate.Store.{AppliedMutation, SnapshotMeta, CommitBatch}

-- A table with `u64` keys, kept in key order.
abbrev pub Table : Type 0 → Type 0
Table V = List (ℕ × V)

module _ {V : Type 0} where
  unfoldable pub insert_u64 : ℕ → V → Table V → Table V
  insert_u64 k v [] = (k, v) ∷ []
  insert_u64 k v ((j, w) ∷ t) =
      if j == k
      then (k, v) ∷ t
      else if ltb k j
      then (k, v) ∷ (j, w) ∷ t
      else (j, w) ∷ insert_u64 k v t

  -- One more than the last key, or 0.
  unfoldable pub next_seq : Table V → ℕ
  next_seq [] = 0
  next_seq ((k, v) ∷ []) = k + 1
  next_seq ((k, v) ∷ (j, w) ∷ t) = next_seq ((j, w) ∷ t)

pub record Database : Type 0 where
  pub tld_records : BTreeMap TldRecord
  pub domain_records : BTreeMap DomainRecord
  pub root_zone_versions : Table Bytes
  pub current_version : Option ℕ
  pub state_hash : Option Text
  pub mutations : BTreeMap AppliedMutation
  pub audit_events : Table AuditRecord
  pub snapshots : Table SnapshotMeta
  pub nonces : BTreeMap ℤ
  pub delegated_registries : BTreeMap Bytes
  pub target_versions : BTreeMap ℕ

-- The two loops of `write_record_tables`, into emptied tables.
unfoldable pub tld_table : List TldRecord → BTreeMap TldRecord → BTreeMap TldRecord
tld_table [] t = t
tld_table (rec ∷ rest) t = tld_table rest (insert rec.tld rec t)

unfoldable pub domain_table : List DomainRecord → BTreeMap DomainRecord → BTreeMap DomainRecord
domain_table [] t = t
domain_table (rec ∷ rest) t = domain_table rest (insert rec.domain rec t)

abbrev pub write_registry : Option (Text × Bytes) → BTreeMap Bytes → BTreeMap Bytes
write_registry none t = t
write_registry (some (tld, bytes)) t = insert tld bytes t

-- All that one committed mutation writes.
unfoldable pub write_batch : CommitBatch → Database → Database
unfolding tld_table domain_table next_seq insert_u64
write_batch b d = record d {
  tld_records = tld_table b.tlds [];
  domain_records = domain_table b.domains [];
  root_zone_versions = insert_u64 b.root_version b.zone_json d.root_zone_versions;
  current_version = some b.root_version;
  state_hash = some b.state_hash;
  target_versions = insert b.target_key b.target_version d.target_versions;
  mutations = insert b.applied.mutation.mutation_id b.applied d.mutations;
  audit_events = insert_u64 (next_seq d.audit_events) b.audit d.audit_events;
  delegated_registries = write_registry b.delegated_registry d.delegated_registries;
  snapshots = insert_u64 b.snapshot.root_version b.snapshot d.snapshots;
}

-- The state that the first boot commits.
pub record InitialState : Type 0 where
  pub zone_json : Bytes
  pub root_version : ℕ
  pub state_hash : Text
  pub tlds : List TldRecord
  pub domains : List DomainRecord
  pub delegated_registries : List (Text × Bytes)
  pub snapshot : SnapshotMeta

-- A database that `create` has just made.
abbrev pub empty_database : Database
empty_database = record {
  tld_records = [];
  domain_records = [];
  root_zone_versions = [];
  current_version = none;
  state_hash = none;
  mutations = [];
  audit_events = [];
  snapshots = [];
  nonces = [];
  delegated_registries = [];
  target_versions = [];
}

unfoldable pub write_initial : InitialState → Database → Database
unfolding tld_table domain_table insert_u64
write_initial i d = record d {
  tld_records = tld_table i.tlds [];
  domain_records = domain_table i.domains [];
  root_zone_versions = insert_u64 i.root_version i.zone_json d.root_zone_versions;
  current_version = some i.root_version;
  state_hash = some i.state_hash;
  delegated_registries = collect i.delegated_registries d.delegated_registries;
  snapshots = insert_u64 i.snapshot.root_version i.snapshot d.snapshots;
}

unfoldable pub commit_initial :
    Result (Unit {0}) → InitialState → Database → Result (Unit {0}) × Database
commit_initial (ok _) i d = (ok tt, write_initial i d)
commit_initial (err e) i d = (err e, d)

unfoldable pub get_u64 {ℓ} : {V : Type ℓ} → ℕ → List (ℕ × V) → Option V
get_u64 k [] = none
get_u64 k ((j, v) ∷ t) = if j == k then some v else get_u64 k t

-- `current_root_zone`: nothing, if no version is recorded or its row is missing.
abbrev pub zone_of : ℕ → Option Bytes → Option (ℕ × Bytes)
zone_of version none = none
zone_of version (some bytes) = some (version, bytes)

abbrev pub zone_at : Option ℕ → Table Bytes → Option (ℕ × Bytes)
zone_at none t = none
zone_at (some version) t = zone_of version (get_u64 version t)

unfoldable pub current_root_zone : Database → Option (ℕ × Bytes)
unfolding get_u64
current_root_zone d = zone_at d.current_version d.root_zone_versions

-- `list_mutations` and `list_audit_events` give the values in key order.
unfoldable pub list_values : {V : Type 0} → Table V → List V
list_values [] = []
list_values ((k, v) ∷ t) = v ∷ list_values t

unfoldable pub commit_mutation :
    Result (Unit {0}) → CommitBatch → Database → Result (Unit {0}) × Database
commit_mutation (ok _) b d = (ok tt, write_batch b d)
commit_mutation (err e) b d = (err e, d)

unfoldable pub create_snapshot :
    Result (Unit {0}) → SnapshotMeta → Database → Result (Unit {0}) × Database
create_snapshot (ok _) meta d =
    (ok tt, record d { snapshots = insert_u64 meta.root_version meta d.snapshots })
create_snapshot (err e) meta d = (err e, d)

-- `reserve_nonce` drops what expired long before, then stores the nonce.
unfoldable pub prune : ℤ → BTreeMap ℤ → BTreeMap ℤ
prune limit [] = []
prune limit ((n, exp) ∷ t) =
    let rest = prune limit t in if ltb_ℤ exp limit then rest else (n, exp) ∷ rest

unfoldable pub reserve_nonce :
    Result (Unit {0}) → Text → ℤ → Database → Result (Unit {0}) × Database
unfolding prune
reserve_nonce (ok _) nonce expires_at d = (
  ok tt,
  record d {
    nonces = insert nonce expires_at (prune (expires_at -ℤ pos (2 * nonce_ttl_secs)) d.nonces);
  },
)
reserve_nonce (err e) nonce expires_at d = (err e, d)

abbrev pub unexpired : ℤ → Option ℤ → Bool
unexpired now none = false
unexpired now (some expires) = ltb_ℤ now expires

unfoldable pub consume_nonce : Result (Unit {0}) → Text → ℤ → Database → Result Bool × Database
consume_nonce (ok _) nonce now d =
    (ok (unexpired now (get nonce d.nonces)), record d { nonces = remove nonce d.nonces })
consume_nonce (err e) nonce now d = (err e, d)
