-- ===== src/Resolution/Content.antt =====
-- The blocks of crates/federate-resolution/src/lib.rs, with `fetch_block_from` of
-- crates/federate-cdn/src/lib.rs.
use federate.Base.{
  Text, Bytes, Bool, false, Option, none, some, List, [], ◌∷◌, ◌++◌, codes, text_eq, ◌||◌,
  trim_end_matches, if◌then◌else◌,
}
use federate.Core.{Result, ok, err, ◌>>=◌, ◌>>◌, guard, network, block_not_found}
use federate.Manifest.{is_slash}
use federate.Host.{Host}
use federate.Storage
use federate.Storage.{Blocks, is_valid_hash, get_block, put_block}
use federate.Protocol.{Message}
use federate.Directory.{NodeEntry, native_addr}
use federate.Cdn.{rank_providers}
use federate.Client.{Response, fetch_block, read_capped, max_block_bytes}
use federate.Resolution.{Resolver, Net, Io, try_each, exchange}

-- `any(|(_, a)| a == addr)`.
unfoldable pub listed : Text → List Text → Bool
listed addr [] = false
listed addr (a ∷ rest) = text_eq a addr || listed addr rest

-- The default providers go behind the discovered ones, unless they are among them.
unfoldable pub add_defaults : List Text → List Text → List Text
unfolding listed
add_defaults native [] = native
add_defaults native (addr ∷ rest) =
    add_defaults (if listed addr native then native else native ++ addr ∷ []) rest

module _ (h : Host) where
  unfoldable pub block_answer : Text → Message → Result Bytes
  block_answer hash (Message.block name bytes) = do Storage.verify h bytes hash; ok bytes
  block_answer hash (Message.error code detail) = err (network "native provider answered an error")
  block_answer hash _ = err (network "native provider answered unexpectedly")

  abbrev pub block_url : NodeEntry → Text → Text
  block_url p hash =
      trim_end_matches is_slash p.registration.health_endpoint ++ codes "/v1/block/" ++ hash

  -- `federate_cdn::fetch_block_from`.
  unfoldable pub fetch_block_from : (Text → Result Response) → Text → NodeEntry → Result Bytes
  fetch_block_from url hash p = do
    guard (is_valid_hash hash) (block_not_found hash)
    resp ← url (block_url p hash)
    guard resp.is_success (block_not_found hash)
    bytes ← read_capped resp max_block_bytes
    Storage.verify h bytes hash
    ok bytes

  -- `self.blocks.put(hash, &bytes)?`.
  unfoldable pub stored : Io → Text → Bytes → Blocks → Result Blocks
  stored io hash bytes disk = do disk' ← put_block h disk hash bytes; io.write_block; ok disk'

  abbrev pub with_blocks : Resolver → Bytes → Result Blocks → Result Bytes × Resolver
  with_blocks s bytes (err e) = (err e, s)
  with_blocks s bytes (ok disk) = (ok bytes, record s { blocks = disk })

  abbrev pub store_block : Io → Text → Result Bytes → Resolver → Result Bytes × Resolver
  store_block io hash (err e) s = (err e, s)
  store_block io hash (ok bytes) s = with_blocks s bytes (stored io hash bytes s.blocks)

  module _ (net : Net) where
    abbrev pub or_empty : Result (List NodeEntry) → List NodeEntry
    or_empty (ok entries) = entries
    or_empty (err e) = []

    abbrev pub entries_of : Option (Text → Result (List NodeEntry)) → Text → List NodeEntry
    entries_of none hash = []
    entries_of (some providers) hash = or_empty (providers hash)

    unfoldable pub ranked : Resolver → Text → List NodeEntry
    ranked s hash = rank_providers (entries_of net.directory hash) s.region

    abbrev keep_addr : Option Text → List Text → List Text
    keep_addr none rest = rest
    keep_addr (some addr) rest = addr ∷ rest

    unfoldable pub native_of : List NodeEntry → List Text
    native_of [] = []
    native_of (p ∷ rest) = keep_addr (native_addr net.addresses p) (native_of rest)

    unfoldable pub fetch_block_native : Resolver → Text → Text → Result Bytes
    fetch_block_native s hash addr = do
      guard (is_valid_hash hash) (block_not_found hash)
      answer ← exchange h net s addr (Message.get_block hash)
      block_answer hash answer

    -- The passes over the providers, and Node 1 as the last resort.
    unfoldable pub fetch_block_network : Resolver → Text → Result Bytes
    unfolding try_each fetch_block_native fetch_block_from fetch_block native_of add_defaults
    fetch_block_network s hash =
        let providers = ranked s hash in
        try_each (fetch_block_native s hash) (add_defaults (native_of providers) s.native_providers)
          (try_each (fetch_block_from net.url hash) providers (fetch_block h net.node_one hash))

    abbrev pub or_fetch : Io → Text → Result Bytes → Resolver → Result Bytes × Resolver
    or_fetch io hash (ok bytes) s = (ok bytes, s)
    or_fetch io hash (err e) s = store_block io hash (fetch_block_network s hash) s

    unfoldable pub block_traced : Io → Text → Resolver → Result Bytes × Resolver
    block_traced io hash s = or_fetch io hash (get_block h s.blocks hash) s
