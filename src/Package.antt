-- ===== src/Package.antt =====
-- `SitePackage::decode` of crates/federate-mutation/src/request.rs.
pub mod Decoded
use federate.Base.{ℕ, Text, Bytes, Option, none, some, Bool, not, List, [], ◌∷◌, ◌+◌, ltb, length}
use federate.Core.{Result, ok, err, ◌>>=◌, ◌>>◌, guard, mutation_rejected}
use federate.Mutation.{
  PackageBlock, SitePackage, ContentBlock, MutationAction, publish_site, max_package_blocks,
  max_package_bytes,
}
use federate.Host.{Host}
use federate.Storage.{verify}

abbrev pub decoded : Option Bytes → Result Bytes
decoded none = err (mutation_rejected "not hex")
decoded (some b) = ok b

-- The `let … else` on the action.
abbrev pub manifest_of : MutationAction → Result Text
manifest_of (publish_site domain manifest_hash) = ok manifest_hash
manifest_of _ = err (mutation_rejected "package mutation must be a publish_site action")

module _ (h : Host) where
  -- The loop over the blocks; `total` counts the bytes so far.
  unfoldable pub decode_blocks : ℕ → List PackageBlock → Result (List ContentBlock)
  decode_blocks total [] = ok []
  decode_blocks total (block ∷ blocks) = do
    bytes ← decoded (h.hex_decode block.data_hex)
    let total' = total + length bytes
    guard (not (ltb max_package_bytes total')) (mutation_rejected "package exceeds the size limit")
    verify h bytes block.hash
    rest ← decode_blocks total' blocks
    ok ((block.hash, bytes) ∷ rest)

  unfoldable pub decode : SitePackage → Result (Bytes × List ContentBlock)
  decode p = do
    guard (not (ltb max_package_blocks (length p.blocks))) (mutation_rejected "too many blocks")
    manifest_bytes ← decoded (h.hex_decode p.manifest_hex)
    blocks ← decode_blocks (length manifest_bytes) p.blocks
    manifest_hash ← manifest_of p.mutation.action
    verify h manifest_bytes manifest_hash
    ok (manifest_bytes, blocks)
