-- ===== src/Resolution/Documents.antt =====
-- Manifest bytes and manifests of crates/federate-resolution/src/lib.rs.
use federate.Base.{Text, Bytes, Option, none, some, length, leb, get, insert, remove}
use federate.Core.{Result, ok, err, ◌>>=◌, ◌>>◌, guard, network, manifest_not_found}
use federate.Manifest.{Manifest}
use federate.Manifest
use federate.Host.{Host}
use federate.Storage
use federate.Storage.{is_valid_hash}
use federate.Protocol.{Message}
use federate.Client.{fetch_manifest_bytes, max_manifest_bytes}
use federate.Resolution.{Resolver, Net, Io, and_then, try_each, exchange}

module _ (h : Host) where
  unfoldable pub manifest_answer : Text → Message → Result Bytes
  manifest_answer hash (Message.manifest name bytes) = do
    guard (leb (length bytes) max_manifest_bytes) (network "native manifest exceeds the cap")
    Storage.verify h bytes hash
    ok bytes
  manifest_answer hash (Message.error code detail) =
      err (network "native provider answered an error")
  manifest_answer hash _ = err (network "native provider answered unexpectedly")

  -- The fetched bytes are written to the cache, or the write fails.
  abbrev pub cache_manifest : Io → Text → Result Bytes → Resolver → Result Bytes × Resolver
  cache_manifest io hash (err e) s = (err e, s)
  cache_manifest io hash (ok bytes) s = elim io.write_manifest [
    | err e ↦ (err e, s)
    | ok u ↦ (ok bytes, record s { manifests = insert hash bytes s.manifests })
  ]

  module _ (net : Net) where
    unfoldable pub fetch_manifest_native : Resolver → Text → Text → Result Bytes
    fetch_manifest_native s hash addr = do
      answer ← exchange h net s addr (Message.get_manifest hash)
      manifest_answer hash answer

    unfoldable pub fetch_manifest_network : Resolver → Text → Result Bytes
    unfolding try_each fetch_manifest_native fetch_manifest_bytes
    fetch_manifest_network s hash =
        try_each (fetch_manifest_native s hash) s.native_providers
          (fetch_manifest_bytes h net.node_one hash)

    -- The cached bytes, if they have the hash; otherwise the file is removed.
    abbrev pub checked_cache :
        Io → Text → Bytes → Result (Unit {0}) → Resolver → Result Bytes × Resolver
    checked_cache io hash bytes (ok u) s = (ok bytes, s)
    checked_cache io hash bytes (err e) s =
        cache_manifest io hash (fetch_manifest_network s hash)
          (record s { manifests = remove hash s.manifests })

    unfoldable pub use_cached : Io → Text → Option Bytes → Resolver → Result Bytes × Resolver
    use_cached io hash none s = cache_manifest io hash (fetch_manifest_network s hash) s
    use_cached io hash (some bytes) s = checked_cache io hash bytes (Storage.verify h bytes hash) s

    abbrev pub if_valid : Io → Text → Result (Unit {0}) → Resolver → Result Bytes × Resolver
    if_valid io hash (err e) s = (err e, s)
    if_valid io hash (ok u) s = use_cached io hash (get hash s.manifests) s

    unfoldable pub manifest_bytes : Io → Text → Resolver → Result Bytes × Resolver
    manifest_bytes io hash s =
        if_valid io hash (guard (is_valid_hash hash) (manifest_not_found hash)) s

    unfoldable pub read_valid : Bytes → Result Manifest
    read_valid bytes = do m ← h.serde.read_manifest bytes; Manifest.validate m; ok m

    unfoldable pub manifest : Io → Text → Resolver → Result Manifest × Resolver
    unfolding read_valid
    manifest io hash s = and_then (manifest_bytes io hash s) (λ bytes s1. (read_valid bytes, s1))
