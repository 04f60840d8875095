-- ===== src/Cdn/Cache.antt =====
-- `CdnCache` of crates/federate-cdn/src/lib.rs: the block cache that evicts what was not used for the
-- longest time. Entries of one age go in the order of the index. The index file is what was last
-- written to it; that a JSON index reads back is left to the library.
use federate.Base.{
  ℕ, ◌+◌, ◌-◌, ◌%◌, ◌^◌, Text, Bytes, Bool, true, false, Option, none, some, List, [], ◌∷◌, length,
  ltb, leb, if◌then◌else◌, text_eq, get, remove,
}
use federate.Core.{Result, ok, err, ◌>>=◌}
use federate.Host.{Host}
use federate.Storage.{Blocks, get_block, put_block, has_block, remove_block}

-- The second of the last use, and the size in bytes.
pub record Entry : Type 0 where
  pub last_used : ℕ
  pub size : ℕ

-- `CacheIndex`: the hash map, in the order in which it is iterated.
abbrev pub CacheIndex : Type 0
CacheIndex = List (Text × Entry)

pub record CdnCache : Type 0 where
  pub store : Blocks
  pub index : CacheIndex
  pub index_file : Option CacheIndex
  pub max_bytes : ℕ

abbrev or_default : Option CacheIndex → CacheIndex
or_default none = []
or_default (some index) = index

-- `CdnCache::new`, over what is on the disk.
unfoldable pub new_cache : Blocks → Option CacheIndex → ℕ → CdnCache
new_cache store index_file max_bytes = record {
  store = store;
  index = or_default index_file;
  index_file = index_file;
  max_bytes = max_bytes;
}

-- Best effort: `writes` says whether the file system takes the file.
unfoldable pub persist_index : (writes : Bool) → CdnCache → CdnCache
persist_index false c = c
persist_index true c = record c { index_file = some c.index }

unfoldable pub cached_hashes : CacheIndex → List Text
cached_hashes [] = []
cached_hashes ((hash, e) ∷ index) = hash ∷ cached_hashes index

-- `HashMap::insert`.
unfoldable pub set_entry : Text → Entry → CacheIndex → CacheIndex
set_entry k e [] = (k, e) ∷ []
set_entry k e ((j, f) ∷ index) =
    if text_eq j k then (k, e) ∷ index else (j, f) ∷ set_entry k e index

-- `entry(hash).or_insert((0, len)).0 = now`.
abbrev used_at : (now size : ℕ) → Option Entry → Entry
used_at now size none = record { last_used = now; size = size }
used_at now size (some e) = record e { last_used = now }

abbrev pub touch : (now : ℕ) → Text → Bytes → CdnCache → CdnCache
touch now hash bytes c = record c {
  index = set_entry hash (used_at now (length bytes) (get hash c.index)) c.index;
}

-- `values().map(|(_, s)| s).sum()`, which wraps around in a release build.
unfoldable pub sum_sizes : CacheIndex → ℕ
sum_sizes [] = 0
sum_sizes ((hash, e) ∷ index) = (e.size + sum_sizes index) % 2 ^ 64

-- `sort_by_key` with the time, which is stable.
unfoldable pub insert_by_age : Text × Entry → List (Text × Entry) → List (Text × Entry)
insert_by_age (k, e) [] = (k, e) ∷ []
insert_by_age (k, e) ((j, f) ∷ rest) =
    if ltb f.last_used e.last_used
    then (j, f) ∷ insert_by_age (k, e) rest
    else (k, e) ∷ (j, f) ∷ rest

unfoldable pub sort_by_age : CacheIndex → List (Text × Entry)
unfolding insert_by_age
sort_by_age [] = []
sort_by_age ((k, e) ∷ index) = insert_by_age (k, e) (sort_by_age index)

-- `remove(&victim).ok()`.
abbrev or_kept : Blocks → Result Blocks → Blocks
or_kept disk (err e) = disk
or_kept disk (ok disk') = disk'

-- `unlink` is what the file system answers to the removal of a block. Where it fails, the block stays.
abbrev pub drop_entry : (unlink : Text → Result (Unit {0})) → Text → CdnCache → CdnCache
drop_entry unlink victim c = record c {
  store = or_kept c.store (remove_block (unlink victim) c.store victim);
  index = remove victim c.index;
}

-- The loop over the entries, the oldest first; the block that was put stays. `total -= size` wraps.
unfoldable pub evict :
    (unlink : Text → Result (Unit {0}))
    → Text
    → List (Text × Entry)
    → (total : ℕ) → CdnCache
    → CdnCache
evict unlink hash [] total c = c
evict unlink hash ((victim, e) ∷ rest) total c =
    let skipped = evict unlink hash rest total c in
    let evicted =
      evict unlink hash rest ((total + 2 ^ 64 - e.size) % 2 ^ 64) (drop_entry unlink victim c) in
    if leb total c.max_bytes then c else if text_eq victim hash then skipped else evicted

unfoldable pub evict_over_cap : (unlink : Text → Result (Unit {0})) → Text → CdnCache → CdnCache
unfolding evict sum_sizes sort_by_age
evict_over_cap unlink hash c =
    let total = sum_sizes c.index in
    if ltb c.max_bytes total then evict unlink hash (sort_by_age c.index) total c else c

module _ (h : Host) where
  abbrev with_bytes : (now : ℕ) → Text → CdnCache → Result Bytes → Result Bytes × CdnCache
  with_bytes now hash c (err e) = (err e, c)
  with_bytes now hash c (ok bytes) = (ok bytes, touch now hash bytes c)

  -- `CdnCache::get`.
  unfoldable pub cache_get : (now : ℕ) → Text → CdnCache → Result Bytes × CdnCache
  cache_get now hash c = with_bytes now hash c (get_block h c.store hash)

  abbrev pub with_entry : (now : ℕ) → Text → Bytes → Blocks → CdnCache → CdnCache
  with_entry now hash bytes store c = record c {
    store = store;
    index = set_entry hash (record { last_used = now; size = length bytes }) c.index;
  }

  -- `CdnCache::put`; `writes_index` is for the index file, and the disk takes the block.
  unfoldable pub cache_put :
      (unlink : Text → Result (Unit {0}))
      → (now : ℕ) (writes_index : Bool) → Text
      → Bytes
      → CdnCache
      → Result CdnCache
  unfolding evict_over_cap persist_index
  cache_put unlink now writes_index hash bytes c = do
    store ← put_block h c.store hash bytes
    ok (persist_index writes_index (evict_over_cap unlink hash (with_entry now hash bytes store c)))

  unfoldable pub cache_has : Text → CdnCache → Bool
  cache_has hash c = has_block c.store hash
