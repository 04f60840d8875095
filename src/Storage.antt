-- ===== src/Storage.antt =====
-- crates/federate-storage/src/lib.rs: content addresses and the block store. The disk is the map
-- from the names under `blocks/` to file contents.
pub mod Integrity
use federate.Base.{
  ℕ, Text, Bytes, Option, none, some, Bool, true, false, not, ◌&&◌, text_eq, len, ◌==◌, all,
  is_ascii_hexdigit, is_ascii_uppercase, codes, BTreeMap, get, insert, remove, contains_key,
  if◌then◌else◌,
}
use federate.Core.{
  Result, ok, err, ◌>>=◌, ◌>>◌, FederateError, hash_mismatch, block_not_found, guard,
}
use federate.Host.{Host}

abbrev pub hash_hex_len : ℕ
hash_hex_len = 64

abbrev pub is_hash_char : ℕ → Bool
is_hash_char b = is_ascii_hexdigit b && not (is_ascii_uppercase b)

unfoldable pub is_valid_hash : Text → Bool
is_valid_hash hash = len hash == hash_hex_len && all is_hash_char hash

abbrev pub Blocks : Type 0
Blocks = BTreeMap Bytes

module _ (h : Host) where
  unfoldable pub hash_bytes : Bytes → Text
  hash_bytes b = h.blake3_hex b

  unfoldable pub verify : Bytes → Text → Result (Unit {0})
  unfolding hash_bytes
  verify bytes expected = do
    guard (is_valid_hash expected) (hash_mismatch expected (codes "<malformed expected hash>"))
    guard (text_eq (hash_bytes bytes) expected) (hash_mismatch expected (hash_bytes bytes))

  abbrev read_back : Text → Option Bytes → Result Bytes
  read_back hash none = err (block_not_found hash)
  read_back hash (some bytes) = do verify bytes hash; ok bytes

  -- `BlockStore::get`: `block_path` is `None` for a malformed address.
  unfoldable pub get_block : Blocks → Text → Result Bytes
  get_block disk hash = do
    guard (is_valid_hash hash) (block_not_found hash)
    read_back hash (get hash disk)

  -- `BlockStore::put`, where the file system accepts the write.
  unfoldable pub put_block : Blocks → Text → Bytes → Result Blocks
  put_block disk hash bytes = do
    verify bytes hash
    guard (is_valid_hash hash) (block_not_found hash)
    ok (insert hash bytes disk)

unfoldable pub has_block : Blocks → Text → Bool
has_block disk hash = is_valid_hash hash && contains_key hash disk

-- `BlockStore::remove`; `removed` is what `remove_file` answers for a file that is there. Every error
-- is reported as a missing block.
abbrev without : Text → Blocks → Result (Unit {0}) → Result Blocks
without hash disk (err e) = err (block_not_found hash)
without hash disk (ok u) = ok (remove hash disk)

unfoldable pub remove_block : Result (Unit {0}) → Blocks → Text → Result Blocks
remove_block removed disk hash = do
  guard (is_valid_hash hash) (block_not_found hash)
  guard (contains_key hash disk) (block_not_found hash)
  without hash disk removed
