-- ===== src/Client.antt =====
-- crates/federate-client/src/lib.rs: capped downloads and the HTTP client of Node 1. A response is
-- its status, its announced length and the chunks of its body, which the HTTP library provides.
pub mod Capped
use federate.Base.{
  ℕ, Text, Bytes, Bool, true, false, not, Option, none, some, List, [], ◌∷◌, ◌++◌, ◌+◌, ltb, leb,
  length, codes, if◌then◌else◌,
}
use federate.Core.{Result, ok, err, ◌>>=◌, ◌>>◌, guard, network, block_not_found}
use federate.Core.Json.{Value}
use federate.Root.{RootZone}
use federate.Root
use federate.Manifest.{Manifest}
use federate.Manifest
use federate.Host.{Host}
use federate.Storage
use federate.Storage.{is_valid_hash}

pub record Response : Type 0 where
  pub is_success : Bool
  pub content_length : Option ℕ
  pub chunks : List (Result Bytes)

abbrev pub max_root_bytes : ℕ
max_root_bytes = 16777216

abbrev pub max_manifest_bytes : ℕ
max_manifest_bytes = 4194304

abbrev pub max_block_bytes : ℕ
max_block_bytes = 67108864

abbrev pub announced_within : ℕ → Option ℕ → Bool
announced_within cap none = true
announced_within cap (some len) = leb len cap

-- The loop over the chunks.
unfoldable pub read_chunks : ℕ → Bytes → List (Result Bytes) → Result Bytes
read_chunks cap out [] = ok out
read_chunks cap out (err e ∷ rest) = err e
read_chunks cap out (ok chunk ∷ rest) = do
  guard (leb (length out + length chunk) cap) (network "response exceeds the cap")
  read_chunks cap (out ++ chunk) rest

unfoldable pub read_capped : Response → ℕ → Result Bytes
unfolding read_chunks
read_capped resp cap = do
  guard (announced_within cap resp.content_length) (network "response exceeds the cap")
  read_chunks cap [] resp.chunks

-- `get_bytes`, where `get` sends the request for a path.
unfoldable pub get_bytes : (Text → Result Response) → Text → ℕ → Result Bytes
get_bytes get path cap = do
  resp ← get path
  guard resp.is_success (network "status")
  read_capped resp cap

module _ (h : Host) where
  unfoldable pub get_json : (Text → Result Response) → Text → Result Value
  get_json get url = do bytes ← get_bytes get url max_manifest_bytes; h.serde.read_value bytes

  unfoldable pub fetch_root : (Text → Result Response) → Result RootZone
  fetch_root get = do
    bytes ← get_bytes get (codes "/v1/root") max_root_bytes
    zone ← h.serde.read_zone bytes
    Root.validate zone
    ok zone

  unfoldable pub fetch_manifest_bytes : (Text → Result Response) → Text → Result Bytes
  fetch_manifest_bytes get hash = do
    guard (is_valid_hash hash) (block_not_found hash)
    bytes ← get_bytes get (codes "/v1/manifest/" ++ hash) max_manifest_bytes
    Storage.verify h bytes hash
    ok bytes

  unfoldable pub fetch_manifest : (Text → Result Response) → Text → Result Manifest
  fetch_manifest get hash = do
    bytes ← fetch_manifest_bytes get hash
    m ← h.serde.read_manifest bytes
    Manifest.validate m
    ok m

  unfoldable pub fetch_block : (Text → Result Response) → Text → Result Bytes
  fetch_block get hash = do
    guard (is_valid_hash hash) (block_not_found hash)
    bytes ← get_bytes get (codes "/v1/block/" ++ hash) max_block_bytes
    Storage.verify h bytes hash
    ok bytes
