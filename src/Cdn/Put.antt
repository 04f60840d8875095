-- ===== src/Cdn/Put.antt =====
-- `put` of the block cache of crates/federate-cdn/src/lib.rs.
use federate.Base.{
  ℕ, ◌+◌, ◌<◌, Text, Bytes, Bool, true, false, some, length, text_eq, text_eq_iff, text_eq_refl,
  get, ◌≡◌, refl, ◌∙◌, ◌⊎◌, inl, inr, arith, Bool-cases, subst, get-insert,
}
use federate.Core.{Result, ok, >>=-eq-ok}
use federate.Host.{Host}
use federate.Storage.{Blocks, get_block, put_block}
use federate.Storage.Integrity.{get_block-put_block}
use federate.Cdn.Cache.{Entry, CdnCache, evict_over_cap, with_entry, persist_index, cache_put}
use federate.Cdn.Sorted.{
  total_size, total_size-set_entry, IsDistinct, set_entry-IsDistinct, get-set_entry,
}
use federate.Cdn.Oldest.{
  OldestFirst, evict_over_cap-Outcome, evict_over_cap-IsBounded, evict_over_cap-OldestFirst,
  evict_over_cap-max_bytes, evict_over_cap-IsDistinct,
}
use federate.Cdn.Evicted.{Kept, Outcome, Kept-Outcome, IsBounded}

-- What `put` leaves, for the block that was put and for every address.
pub record IsPut (h : Host) (unlink : Text → Result (Unit {0})) (now : ℕ) (hash : Text)
    (bytes : Bytes) (c c' : CdnCache) : Type 0 where
  pub readable : get_block h c'.store hash ≡ ok bytes
  pub entered : get hash c'.index ≡ some (record { last_used = now; size = length bytes })
  pub cap : c'.max_bytes ≡ c.max_bytes
  pub bounded : IsBounded hash c'
  pub others : (k : Text) → (text_eq k hash ≡ true) ⊎ Outcome unlink hash k c c'
  pub unique : IsDistinct c'.index
  pub oldest :
      (j k : Text)
      → (text_eq j hash ≡ true)
        ⊎ (text_eq k hash ≡ true)
        ⊎ OldestFirst (get j c.index) (get j c'.index) (get k c'.index)

ok_injective {ℓ} : {A : Type ℓ} {a b : A} → ok a ≡ ok b → a ≡ b
ok_injective e = cc

module _ (h : Host) (unlink : Text → Result (Unit {0})) where
  put_block-get :
      (disk disk' : Blocks) (hash : Text) (bytes : Bytes) (k : Text)
      → put_block h disk hash bytes ≡ ok disk'
      → text_eq k hash ≡ false
      → get k disk' ≡ get k disk
  unfolding put_block
  put_block-get disk disk' hash bytes k e q =
      ground (arith, get-insert hash k bytes disk, text_eq_iff hash k, text_eq_iff k hash)

  get_block-Kept :
      (hash : Text) (c c' : CdnCache)
      → get hash c'.store ≡ get hash c.store
      → get_block h c'.store hash ≡ get_block h c.store hash
  unfolding get_block
  get_block-Kept hash c c' e = rw e refl

  module _ (now : ℕ) (hash : Text) (bytes : Bytes) (c : CdnCache) (disk : Blocks)
      (stored : put_block h c.store hash bytes ≡ ok disk) (d : IsDistinct c.index)
      (small : total_size c.index + length bytes < 18446744073709551616) where
    abbrev entered_cache : CdnCache
    entered_cache = with_entry h now hash bytes disk c

    abbrev newest : Entry
    newest = record { last_used = now; size = length bytes }

    unique : IsDistinct entered_cache.index
    unique = set_entry-IsDistinct hash newest c.index d

    sizes : total_size entered_cache.index < 18446744073709551616
    sizes = omega (arith, total_size-set_entry hash newest c.index)

    put-Kept :
        (c1 : CdnCache) → Outcome unlink hash hash entered_cache c1 → Kept hash entered_cache c1
    put-Kept c1 (inl kept) = kept
    put-Kept c1 (inr (q, gone)) = absurd (ground (arith, text_eq_refl hash))

    entered-get : (k : Text) → text_eq k hash ≡ false → Kept k c entered_cache
    entered-get k q = (
      ground (
        arith,
        get-set_entry hash k (record { last_used = now; size = length bytes }) c.index,
        text_eq_iff hash k,
        text_eq_iff k hash,
      ),
      put_block-get c.store disk hash bytes k stored q,
    )

    evicted-IsPut : IsPut h unlink now hash bytes c (evict_over_cap unlink hash entered_cache)
    evicted-IsPut =
        let c1 = evict_over_cap unlink hash entered_cache in
        let kept = put-Kept c1 (evict_over_cap-Outcome unlink hash entered_cache hash) in
        record {
          readable =
              get_block-Kept hash entered_cache c1 kept.1
              ∙ (get_block-put_block h c.store disk hash bytes stored).0;
          entered =
              kept.0 ∙ ground (arith, get-set_entry hash hash newest c.index, text_eq_refl hash);
          cap = evict_over_cap-max_bytes unlink hash entered_cache;
          bounded = evict_over_cap-IsBounded unlink hash entered_cache unique sizes;
          unique = evict_over_cap-IsDistinct unlink hash entered_cache unique;
          others = λ k. elim (Bool-cases (text_eq k hash)) [
            | inl q ↦ inl q
            | inr q ↦ inr (
                Kept-Outcome unlink hash k c entered_cache c1 (entered-get k q)
                  (evict_over_cap-Outcome unlink hash entered_cache k))
          ];
          oldest = λ j k. elim (Bool-cases (text_eq j hash)) [
            | inl q ↦ inl q
            | inr q ↦ elim (Bool-cases (text_eq k hash)) [
              | inl w ↦ inr (inl w)
              | inr w ↦ inr (
                  inr (
                    subst (λ o. OldestFirst o (get j c1.index) (get k c1.index)) (entered-get j q).0
                      (evict_over_cap-OldestFirst unlink hash entered_cache j k unique w)))
            ]
          ];
        }

  persist-IsPut :
      (writes : Bool) (now : ℕ) (hash : Text) (bytes : Bytes) (c c1 : CdnCache)
      → IsPut h unlink now hash bytes c c1
      → IsPut h unlink now hash bytes c (persist_index writes c1)
  unfolding persist_index
  persist-IsPut false now hash bytes c c1 r = r
  persist-IsPut true now hash bytes c c1 r = record {
    readable = r.readable;
    entered = r.entered;
    cap = r.cap;
    bounded = r.bounded;
    others = r.others;
    unique = r.unique;
    oldest = r.oldest;
  }

  -- If no address stands twice in the index, the sizes in it and that of the new block sum to less
  -- than 2 ^ 64, and the block is written: it can be read, with its size and the time of now in the
  -- index. The sizes in the index are within the cap, or no other block is in the index. Every other
  -- address is as it was, or its entry is gone and its block cannot be read, or its entry is gone and
  -- the file system refused to remove its block, which is as it was. No entry that is gone was used
  -- later than one that is left. No address stands twice in the index.
  pub cache_put-IsPut :
      (now : ℕ) (writes_index : Bool) (hash : Text) (bytes : Bytes) (c c' : CdnCache)
      → IsDistinct c.index
      → total_size c.index + length bytes < 18446744073709551616
      → cache_put h unlink now writes_index hash bytes c ≡ ok c'
      → IsPut h unlink now hash bytes c c'
  unfolding cache_put
  cache_put-IsPut now writes_index hash bytes c c' d small e =
      let (disk, stored, rest) = >>=-eq-ok (put_block h c.store hash bytes) _ e in
      subst (IsPut h unlink now hash bytes c) (ok_injective rest) (
        persist-IsPut writes_index now hash bytes c _
          (evicted-IsPut now hash bytes c disk stored d small))
