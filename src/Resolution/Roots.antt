-- ===== src/Resolution/Roots.antt =====
-- The root zone of crates/federate-resolution/src/lib.rs, with `RootCache` of
-- crates/federate-root/src/lib.rs and the first lines of `Resolver::new`.
use federate.Base.{Text, Bytes, Option, none, some, trim, is_empty, length, leb, ltb, if◌then◌else◌}
use federate.Core.{Result, ok, err, ◌>>=◌, ◌>>◌, FederateError, guard, network, root_unavailable}
use federate.Root.{RootZone}
use federate.Root
use federate.Host.{Host}
use federate.Signing.Zones
use federate.Protocol.{Message}
use federate.Client.{fetch_root, max_root_bytes}
use federate.Resolution.{Resolver, Net, Io, try_each, exchange}

abbrev non_empty : Text → Option Text
non_empty key = if is_empty key then none else some key

abbrev trimmed : Option Text → Option Text
trimmed none = none
trimmed (some s) = non_empty (trim s)

-- The trust anchor of a new resolver: the configured key, or else the key file; never an empty one.
unfoldable pub initial_key : (configured key_file : Option Text) → Option Text
initial_key none key_file = trimmed key_file
initial_key (some key) key_file = non_empty key

module _ (h : Host) where
  abbrev read_file : Option Bytes → Result Bytes
  read_file none = err (FederateError.io "read")
  read_file (some b) = ok b

  -- `RootCache::load`.
  unfoldable pub load : Resolver → Result RootZone
  load s = do
    bytes ← read_file s.root_file
    zone ← h.serde.read_zone bytes
    Root.validate zone
    ok zone

  -- The bytes that `RootCache::store` has written.
  unfoldable pub stored_bytes : Io → RootZone → Result Bytes
  stored_bytes io zone = do bytes ← h.serde.zone_to_vec_pretty zone; io.write_root; ok bytes

  abbrev pub pin_key : RootZone → Result (Unit {0}) → Resolver → Result (Unit {0}) × Resolver
  pin_key zone (err e) s = (err e, s)
  pin_key zone (ok u) s = (
    ok tt,
    record s { key_file = some zone.root_public_key; trusted_root_key = some zone.root_public_key },
  )

  unfoldable pub verify_pinned :
      Io → RootZone → Option Text → Resolver → Result (Unit {0}) × Resolver
  verify_pinned io zone (some key) s = (Zones.verify h zone key, s)
  verify_pinned io zone none s =
      pin_key zone (do Zones.verify h zone zone.root_public_key; io.write_key) s

  unfoldable pub verify_zone : Io → RootZone → Resolver → Result (Unit {0}) × Resolver
  unfolding verify_pinned
  verify_zone io zone s = verify_pinned io zone s.trusted_root_key s

  abbrev pub if_verified : RootZone → Result (Unit {0}) × Resolver → Option RootZone × Resolver
  if_verified zone (err e, s) = (none, s)
  if_verified zone (ok u, s) = (some zone, s)

  abbrev pub verified_cache : Io → Result RootZone → Resolver → Option RootZone × Resolver
  verified_cache io (err e) s = (none, s)
  verified_cache io (ok cached) s = if_verified cached (verify_zone io cached s)

  abbrev pub in_memory : Io → Option RootZone → Resolver → Option RootZone × Resolver
  in_memory io (some zone) s = (some zone, s)
  in_memory io none s = verified_cache io (load s) s

  unfoldable pub last_verified_zone : Io → Resolver → Option RootZone × Resolver
  last_verified_zone io s = in_memory io s.root s

  -- The zone becomes the one in memory, if it was verified.
  abbrev pub adopt :
      RootZone → FederateError → Result (Unit {0}) × Resolver → Result RootZone × Resolver
  adopt zone why (err e, s) = (err why, s)
  adopt zone why (ok u, s) = (ok zone, record s { root = some zone })

  abbrev pub keep_error : RootZone → Result (Unit {0}) × Resolver → Result RootZone × Resolver
  keep_error zone (err e, s) = (err e, s)
  keep_error zone (ok u, s) = (ok zone, record s { root = some zone })

  -- The fetched zone did not verify.
  unfoldable pub fall_back :
      Io → FederateError → Result RootZone → Resolver → Result RootZone × Resolver
  fall_back io why (err e) s = (err why, s)
  fall_back io why (ok cached) s = adopt cached why (verify_zone io cached s)

  -- `root_cache.store(&zone)?`, then memory.
  unfoldable pub store_zone : RootZone → Result Bytes → Resolver → Result RootZone × Resolver
  store_zone zone (err e) s = (err e, s)
  store_zone zone (ok bytes) s = (ok zone, record s { root_file = some bytes; root = some zone })

  -- The rollback check.
  unfoldable pub keep_newer :
      Io → RootZone → Option RootZone × Resolver → Result RootZone × Resolver
  keep_newer io zone (none, s) = store_zone zone (stored_bytes io zone) s
  keep_newer io zone (some known, s) =
      if ltb zone.root_version known.root_version
      then (ok known, record s { root = some known })
      else store_zone zone (stored_bytes io zone) s

  unfoldable pub after_verify :
      Io → RootZone → Result (Unit {0}) × Resolver → Result RootZone × Resolver
  after_verify io zone (err e, s) = fall_back io e (load s) s
  after_verify io zone (ok u, s) = keep_newer io zone (last_verified_zone io s)

  -- The network is down.
  unfoldable pub from_cache : Io → Result RootZone → Resolver → Result RootZone × Resolver
  from_cache io (err e) s = (err root_unavailable, s)
  from_cache io (ok zone) s = keep_error zone (verify_zone io zone s)

  unfoldable pub after_fetch : Io → Result RootZone → Resolver → Result RootZone × Resolver
  after_fetch io (err e) s = from_cache io (load s) s
  after_fetch io (ok zone) s = after_verify io zone (verify_zone io zone s)

  unfoldable pub root_answer : Message → Result RootZone
  root_answer (Message.root_zone zone_json) = do
    guard (leb (length zone_json) max_root_bytes) (network "native root zone exceeds the cap")
    zone ← h.serde.read_zone zone_json
    Root.validate zone
    ok zone
  root_answer (Message.error code detail) = err (network "native provider answered an error")
  root_answer _ = err (network "native provider answered unexpectedly")

  module _ (net : Net) where
    unfoldable pub fetch_root_native : Resolver → Text → Result RootZone
    fetch_root_native s addr = do
      answer ← exchange h net s addr Message.get_root
      root_answer answer

    unfoldable pub fetch_root_network : Resolver → Result RootZone
    unfolding try_each fetch_root_native fetch_root
    fetch_root_network s =
        try_each (fetch_root_native s) s.native_providers (fetch_root h net.node_one)

    unfoldable pub refresh_root : Io → Resolver → Result RootZone × Resolver
    refresh_root io s = after_fetch io (fetch_root_network s) s

    abbrev pub held_or : Io → Option RootZone → Resolver → Result RootZone × Resolver
    held_or io (some zone) s = (ok zone, s)
    held_or io none s = refresh_root io s

    unfoldable pub root : Io → Resolver → Result RootZone × Resolver
    root io s = held_or io s.root s
