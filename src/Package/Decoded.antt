-- ===== src/Package/Decoded.antt =====
-- What a decoded package holds.
use federate.Base.{
  ℕ, Text, Bytes, not, List, [], ◌∷◌, ◌+◌, ◌≤◌, ltb, length, All, ◌≡◌, refl, arith, ◌⊎◌, inl, inr,
  ap, subst, sym, ◌∙◌,
}
use federate.Core.{ok, guard, >>=-eq-ok}
use federate.Mutation.{
  PackageBlock, SitePackage, ContentBlock, MutationAction, publish_site, update_domain_manifest,
  set_domain_status, issue_domain, delegate_tld, update_tld, create_tld, reserve_tld, block_tld,
  set_tld_status, update_registry_pointer, max_package_blocks, max_package_bytes,
}
use federate.Host.{Host}
use federate.Storage.{verify, hash_bytes}
use federate.Storage.Integrity.{verify_sound}
use federate.Package.{decoded, manifest_of, decode_blocks, decode}

-- The bytes of all blocks.
abbrev pub size : List ContentBlock → ℕ
size [] = 0
size (b ∷ bs) = length b.1 + size bs

-- The addresses that the package gives its blocks, and those of the decoded ones.
abbrev pub hashes : List PackageBlock → List Text
hashes [] = []
hashes (b ∷ bs) = b.hash ∷ hashes bs

abbrev pub addresses : List ContentBlock → List Text
addresses [] = []
addresses (b ∷ bs) = b.0 ∷ addresses bs

module _ (h : Host) where
  abbrev pub IsAddressed : ContentBlock → Type 0
  IsAddressed b = hash_bytes h b.1 ≡ b.0

  pub record AreDecoded (total : ℕ) (blocks : List PackageBlock) (out : List ContentBlock)
      : Type 0 where
    pub named : addresses out ≡ hashes blocks
    pub addressed : All IsAddressed out
    pub bounded : (out ≡ []) ⊎ (total + size out ≤ max_package_bytes)

  total_bound :
      (total n : ℕ) (out : List ContentBlock)
      → total + n ≤ max_package_bytes
      → (out ≡ []) ⊎ ((total + n) + size out ≤ max_package_bytes)
      → total + (n + size out) ≤ max_package_bytes
  total_bound total n [] le b = omega arith
  total_bound total n (x ∷ out) le (inl q) = cc
  total_bound total n (x ∷ out) le (inr q) = omega arith

  cons-AreDecoded :
      (total : ℕ) (block : PackageBlock) (blocks : List PackageBlock) (bytes : Bytes)
      (rest : List ContentBlock)
      → total + length bytes ≤ max_package_bytes
      → hash_bytes h bytes ≡ block.hash
      → AreDecoded (total + length bytes) blocks rest
      → AreDecoded total (block ∷ blocks) ((block.hash, bytes) ∷ rest)
  cons-AreDecoded total block blocks bytes rest fits hashed r = record {
    named = ap (λ (t : List Text). block.hash ∷ t) r.named;
    addressed = (hashed, r.addressed);
    bounded = inr (total_bound total (length bytes) rest fits r.bounded);
  }

  decode_blocks-AreDecoded :
      (total : ℕ) (blocks : List PackageBlock) (out : List ContentBlock)
      → decode_blocks h total blocks ≡ ok out
      → AreDecoded total blocks out
  unfolding decode_blocks
  decode_blocks-AreDecoded total [] [] e = record {
    named = refl;
    addressed = tt;
    bounded = inl refl;
  }
  decode_blocks-AreDecoded total [] (x ∷ out) e = cc
  decode_blocks-AreDecoded total (block ∷ blocks) out e =
      let (bytes, q, e1) = >>=-eq-ok (decoded (h.hex_decode block.data_hex)) _ e in
      let (u, fits, e2) =
        >>=-eq-ok (guard (not (ltb max_package_bytes (total + length bytes))) _) _ e1 in
      let (u', checked, e3) = >>=-eq-ok (verify h bytes block.hash) _ e2 in
      let (rest, e4, e5) = >>=-eq-ok (decode_blocks h (total + length bytes) blocks) _ e3 in
      let same : (block.hash, bytes) ∷ rest ≡ out = cc in
      subst (AreDecoded total (block ∷ blocks)) same (
        cons-AreDecoded total block blocks bytes rest (ground arith)
          (verify_sound h bytes block.hash checked).1
          (decode_blocks-AreDecoded (total + length bytes) blocks rest e4))

  pub record IsDecoded (p : SitePackage) (manifest : Bytes) (blocks : List ContentBlock)
      : Type 0 where
    pub domain : Text
    pub manifest_hash : Text
    pub publishes : p.mutation.action ≡ publish_site domain manifest_hash
    pub shipped : hash_bytes h manifest ≡ manifest_hash
    pub few : length p.blocks ≤ max_package_blocks
    pub blocks_decoded : AreDecoded (length manifest) p.blocks blocks

  manifest_of-publish :
      (a : MutationAction) (hash : Text)
      → manifest_of a ≡ ok hash
      → (domain : Text) × (a ≡ publish_site domain hash)
  manifest_of-publish (publish_site d m) hash e = (d, ground arith)
  manifest_of-publish (update_domain_manifest d m) hash e = cc
  manifest_of-publish (set_domain_status d m) hash e = cc
  manifest_of-publish (issue_domain d) hash e = cc
  manifest_of-publish (delegate_tld d) hash e = cc
  manifest_of-publish (update_tld d x y z) hash e = cc
  manifest_of-publish (create_tld d m) hash e = cc
  manifest_of-publish (reserve_tld d m) hash e = cc
  manifest_of-publish (block_tld d m) hash e = cc
  manifest_of-publish (set_tld_status d m) hash e = cc
  manifest_of-publish (update_registry_pointer d m) hash e = cc

  -- A package that decodes is a publication of exactly the manifest it ships. It has at most 2048
  -- blocks, in the order of the package; every block hashes to its address; and unless there is no
  -- block, manifest and blocks together have at most 32 MiB.
  pub decode-IsDecoded :
      (p : SitePackage) (manifest : Bytes) (blocks : List ContentBlock)
      → decode h p ≡ ok (manifest, blocks)
      → IsDecoded p manifest blocks
  unfolding decode
  decode-IsDecoded p manifest blocks e =
      let (u, few, e1) = >>=-eq-ok (guard (not (ltb max_package_blocks (length p.blocks))) _) _ e in
      let (m, q, e2) = >>=-eq-ok (decoded (h.hex_decode p.manifest_hex)) _ e1 in
      let (bs, q', e3) = >>=-eq-ok (decode_blocks h (length m) p.blocks) _ e2 in
      let (hash, q2, e4) = >>=-eq-ok (manifest_of p.mutation.action) _ e3 in
      let (u', shipped, e5) = >>=-eq-ok (verify h m hash) _ e4 in
      let (domain, publishes) = manifest_of-publish p.mutation.action hash q2 in
      let whole : m ≡ manifest = cc in
      let parts : bs ≡ blocks = cc in
      record {
        domain = domain;
        manifest_hash = hash;
        publishes = publishes;
        shipped = ap (hash_bytes h) (sym whole) ∙ (verify_sound h m hash shipped).1;
        few = ground arith;
        blocks_decoded = subst (AreDecoded (length manifest) p.blocks) parts (
            subst (λ (x : Bytes). AreDecoded (length x) p.blocks bs) whole
              (decode_blocks-AreDecoded (length m) p.blocks bs q'));
      }
