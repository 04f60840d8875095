-- ===== src/Directory/Table.antt =====
-- The node table of crates/federate-directory/src/lib.rs. A HashMap is an association list whose
-- order nothing relies on, and a HashSet the list of its items.
use federate.Base.{
  ℕ, ◌+◌, ◌%◌, ◌^◌, Text, Bool, true, false, not, ◌&&◌, ◌||◌, Option, none, some, List, [], ◌∷◌,
  BTreeMap, get, remove, contains_key, text_eq, length, ltb, ◌==◌, if◌then◌else◌, ◌+ℤ◌, pos,
}
use federate.Core.{Result, ok, err, ◌>>◌, guard, verification_failed, network}
use federate.Host.{Host}
use federate.Naming.Expiry.{DateTime, not_after}
use federate.Storage.{is_valid_hash}
use federate.Directory.{NodeRegistration, NodeRole, NodeStatus, NodeEntry, Addresses}
use federate.Directory.Registrations
use federate.Directory.Registrations.{DirectorySerde, BlockAnnounce, verify_announce}

-- `HashMap::insert`.
unfoldable pub put {ℓ} : {V : Type ℓ} → Text → V → BTreeMap V → BTreeMap V
put k v [] = (k, v) ∷ []
put k v ((j, w) ∷ m) = if text_eq j k then (k, v) ∷ m else (j, w) ∷ put k v m

-- `HashSet::insert` and `remove`.
unfoldable pub holds : Text → List Text → Bool
holds id [] = false
holds id (x ∷ xs) = text_eq x id || holds id xs

abbrev pub add : Text → List Text → List Text
add id ids = if holds id ids then ids else id ∷ ids

unfoldable pub drop_id : Text → List Text → List Text
drop_id id [] = []
drop_id id (x ∷ xs) = let rest = drop_id id xs in if text_eq x id then rest else x ∷ rest

abbrev pub max_nodes : ℕ
max_nodes = 5000

pub record Directory : Type 0 where
  pub nodes : BTreeMap NodeEntry
  pub providers : BTreeMap (List Text)
  pub root_public_key : Option Text

unfoldable pub empty_directory : Option Text → Directory
empty_directory root_public_key = record {
  nodes = [];
  providers = [];
  root_public_key = root_public_key;
}

abbrev pub is_root_authority : NodeRole → Bool
is_root_authority NodeRole.root_authority = true
is_root_authority _ = false

unfoldable pub claims_root : List NodeRole → Bool
claims_root [] = false
claims_root (r ∷ rs) = is_root_authority r || claims_root rs

abbrev pub is_key : Option Text → Text → Bool
is_key none key = false
is_key (some k) key = text_eq k key

abbrev pub latency_of : Option NodeEntry → Option ℕ
latency_of none = none
latency_of (some e) = e.latency_ms

unfoldable pub remove_all : List Text → BTreeMap NodeEntry → BTreeMap NodeEntry
remove_all [] m = m
remove_all (id ∷ ids) m = remove_all ids (remove id m)

unfoldable pub drop_all : List Text → List Text → List Text
drop_all [] ids = ids
drop_all (x ∷ xs) ids = drop_all xs (drop_id x ids)

abbrev pub nobody : List Text → Bool
nobody [] = true
nobody (x ∷ xs) = false

-- `providers.retain`.
unfoldable pub scrub : List Text → BTreeMap (List Text) → BTreeMap (List Text)
unfolding drop_id
scrub stale [] = []
scrub stale ((hash, ids) ∷ m) =
    let rest = scrub stale m in
    let kept = drop_all stale ids in if nobody kept then rest else (hash, kept) ∷ rest

unfoldable pub prune : List Text → Directory → Directory
prune [] dir = dir
prune (id ∷ ids) dir = record dir {
  nodes = remove_all (id ∷ ids) dir.nodes;
  providers = scrub (id ∷ ids) dir.providers;
}

-- `entry(hash).or_default()`.
abbrev pub or_default : Option (List Text) → List Text
or_default none = []
or_default (some ids) = ids

-- The loop over the announced blocks.
unfoldable pub announce_all : Text → List Text → BTreeMap (List Text) → BTreeMap (List Text)
unfolding put holds
announce_all id [] m = m
announce_all id (hash ∷ rest) m =
    announce_all id rest
      (if is_valid_hash hash then put hash (add id (or_default (get hash m))) m else m)

abbrev pub status_after : ℕ → NodeStatus
status_after failures =
    if failures == 1 || failures == 2 then NodeStatus.degraded else NodeStatus.offline

module _ (h : Host) (docs : DirectorySerde) (addresses : Addresses) where
  -- The entry of a node that has just registered: a known one keeps its latency.
  unfoldable pub registered : NodeRegistration → Option NodeEntry → NodeEntry
  registered r old = record {
    registration = r;
    status = NodeStatus.online;
    last_seen = h.chrono.to_rfc3339 h.utc_now;
    latency_ms = latency_of old;
    consecutive_failures = 0;
  }

  unfoldable pub register : NodeRegistration → Directory → Result Directory
  register r dir = do
    Registrations.verify h docs addresses r
    guard (not (claims_root r.roles && not (is_key dir.root_public_key r.public_key))) (
        verification_failed "node-registration" r.node_id
          "only the Federate Root Key may register the root-authority role")
    guard (ltb (length dir.nodes) max_nodes || contains_key r.node_id dir.nodes)
        (verification_failed "node-registration" r.node_id "directory is full")
    ok (record dir { nodes = put r.node_id (registered r (get r.node_id dir.nodes)) dir.nodes })

  abbrev pub keep_verified : NodeEntry → Result (Unit {0}) → BTreeMap NodeEntry → BTreeMap NodeEntry
  keep_verified e (err x) nodes = nodes
  keep_verified e (ok u) nodes = put e.registration.node_id e nodes

  -- The loop over the entries of a snapshot.
  unfoldable pub restore : List NodeEntry → BTreeMap NodeEntry → BTreeMap NodeEntry
  restore [] nodes = nodes
  restore (e ∷ rest) nodes =
      restore rest (keep_verified e (Registrations.verify h docs addresses e.registration) nodes)

  -- `with_persistence`, where the file was read.
  unfoldable pub with_persistence : Option Text → List NodeEntry → Directory
  unfolding restore
  with_persistence root_public_key entries = record (empty_directory root_public_key) {
    nodes = restore entries [];
  }

  abbrev pub longer_ago : ℕ → Option DateTime → Bool
  longer_ago max_age none = true
  longer_ago max_age (some seen) =
      not (not_after h.utc_now (record seen { timestamp = seen.timestamp +ℤ pos max_age }))

  abbrev pub is_stale : ℕ → NodeEntry → Bool
  is_stale max_age e = longer_ago max_age (h.chrono.parse_from_rfc3339 e.last_seen)

  unfoldable pub stale_ids : ℕ → BTreeMap NodeEntry → List Text
  stale_ids max_age [] = []
  stale_ids max_age ((id, e) ∷ m) =
      let rest = stale_ids max_age m in if is_stale max_age e then id ∷ rest else rest

  -- `prune_stale` with an age in seconds.
  unfoldable pub prune_stale : ℕ → Directory → Directory
  unfolding stale_ids
  prune_stale max_age dir = prune (stale_ids max_age dir.nodes) dir

  -- The entry after a health check. A u32 counts the failures.
  unfoldable pub checked : Bool → Option ℕ → NodeEntry → NodeEntry
  checked true latency_ms e = record e {
    consecutive_failures = 0;
    status = NodeStatus.online;
    latency_ms = latency_ms;
    last_seen = h.chrono.to_rfc3339 h.utc_now;
  }
  checked false latency_ms e =
      let failures = (e.consecutive_failures + 1) % 2 ^ 32 in
      record e { consecutive_failures = failures; status = status_after failures }

  unfoldable pub mark_in : Text → Bool → Option ℕ → BTreeMap NodeEntry → BTreeMap NodeEntry
  mark_in id good latency_ms [] = []
  mark_in id good latency_ms ((j, e) ∷ m) =
      if text_eq j id
      then (j, checked good latency_ms e) ∷ m
      else (j, e) ∷ mark_in id good latency_ms m

  unfoldable pub mark : Text → Bool → Option ℕ → Directory → Directory
  unfolding mark_in
  mark id good latency_ms dir = record dir { nodes = mark_in id good latency_ms dir.nodes }

  unfoldable pub announce_blocks : BlockAnnounce → Directory → Result Directory
  announce_blocks a dir = do
    verify_announce h docs a
    guard (contains_key a.announcer dir.nodes) (network "unknown node")
    ok (record dir { providers = announce_all a.announcer a.blocks dir.providers })
