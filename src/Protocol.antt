-- ===== src/Protocol.antt =====
-- crates/federate-protocol/src/lib.rs: the messages of the native protocol, the choice of a version
-- and the framing. A u16, u32 or u64 is a number; a frame prefix is its four bytes.
pub mod Negotiated
pub mod Framed
use federate.Base.{
  ℕ, Text, Bytes, Bool, true, false, Option, none, some, List, [], ◌∷◌, ◌++◌, ◌+◌, ◌*◌, ◌/◌, ◌%◌,
  ◌^◌, ltb, leb, ◌==◌, ◌||◌, not, max, length, if◌then◌else◌,
}
use federate.Core.{Result, ok, err, ◌>>=◌, ◌>>◌, guard, network}

abbrev pub supported_versions : List ℕ
supported_versions = 1 ∷ 0 ∷ []

abbrev pub version_delegated_registries : ℕ
version_delegated_registries = 1

-- 68 MiB.
abbrev pub max_frame_bytes : ℕ
max_frame_bytes = 71303168

pub data Capability : Type 0 where
  root : Capability
  manifests : Capability
  blocks : Capability
  providers : Capability
  tld_registries : Capability

pub data ErrorCode : Type 0 where
  unsupported : ErrorCode
  not_found : ErrorCode
  bad_request : ErrorCode
  unavailable : ErrorCode

pub data Message : Type 0 where
  hello : (versions : List ℕ) → (node_id agent : Text) → Message
  welcome : (version : ℕ) → (node_id agent : Text) → List Capability → Message
  get_root : Message
  root_zone : (zone_json : Bytes) → Message
  get_manifest : (hash : Text) → Message
  manifest : (hash : Text) → Bytes → Message
  get_block : (hash : Text) → Message
  block : (hash : Text) → Bytes → Message
  get_providers : (hash : Text) → Message
  providers_of : (hash : Text) → (nodes_json : Bytes) → Message
  get_tld_registry : (tld : Text) → Message
  tld_registry : (tld : Text) → (registry_json : Bytes) → Message
  get_domain_record : (fqdn : Text) → Message
  domain_record : (fqdn : Text) → (record_json : Bytes) → Message
  get_status : Message
  status :
      (node_id : Text)
      → (roles : List Text) → (region agent : Text) → (root_version : Option ℕ) → Message
  error : ErrorCode → (detail : Text) → Message

-- `contains`.
unfoldable pub member : ℕ → List ℕ → Bool
member v [] = false
member v (w ∷ ws) = w == v || member v ws

-- `max` of an iterator, which is `None` if there is no item.
abbrev pub max_option : ℕ → Option ℕ → Option ℕ
max_option v none = some v
max_option v (some w) = some (max v w)

-- The filter and the maximum in one pass.
unfoldable pub negotiate : List ℕ → List ℕ → Option ℕ
negotiate [] theirs = none
negotiate (v ∷ ours) theirs =
    let rest = negotiate ours theirs in if member v theirs then max_option v rest else rest

unfoldable pub to_be_bytes : ℕ → Bytes
to_be_bytes n = (n / 16777216) % 256 ∷ (n / 65536) % 256 ∷ (n / 256) % 256 ∷ n % 256 ∷ []

unfoldable pub from_be_bytes : (a b c d : ℕ) → ℕ
from_be_bytes a b c d = a * 16777216 + b * 65536 + c * 256 + d

-- The frame of a serialized message. `as u32` wraps.
unfoldable pub encode : Result Bytes → Result Bytes
encode serialized = do
  body ← serialized
  guard (leb (length body) max_frame_bytes) (network "message exceeds frame cap")
  ok (to_be_bytes (length body % 2 ^ 32) ++ body)

unfoldable pub frame_len : (a b c d : ℕ) → Result ℕ
frame_len a b c d = do
  let len = from_be_bytes a b c d
  guard (not (len == 0 || ltb max_frame_bytes len)) (network "invalid frame length")
  ok len
