-- ===== src/Cdn/Evicted.antt =====
-- What the eviction loop of the block cache of crates/federate-cdn/src/lib.rs leaves.
use federate.Base.{
  ℕ, ◌+◌, ◌-◌, ◌%◌, ◌^◌, ◌≤◌, ◌<◌, subst, Text, true, false, none, some, [], ◌∷◌, leb, text_eq,
  text_eq_iff, text_eq_refl, get, remove, get-remove, ◌≡◌, refl, sym, ◌∙◌, ◌⊎◌, inl, inr, arith,
  Bool-cases, leb→le,
}
use federate.Core.{FederateError, Result, err, Result-cases}
use federate.Storage.{has_block, remove_block}
use federate.Cdn.Cache.{Entry, CacheIndex, CdnCache, drop_entry, evict}
use federate.Cdn.Sorted.{IsDistinct, remove-IsDistinct, total_size, total_size-remove}

-- The entry of an address and its block are as they were.
abbrev pub Kept : Text → CdnCache → CdnCache → Type 0
Kept k c c' = (get k c'.index ≡ get k c.index) × (get k c'.store ≡ get k c.store)

module _ (unlink : Text → Result (Unit {0})) where
  -- The entry of an address is gone. No block can be read from it, or the file system refused to remove
  -- the block, which is as it was.
  abbrev pub Gone : Text → CdnCache → CdnCache → Type 0
  Gone k c c' =
      (get k c'.index ≡ none)
      × ((has_block c'.store k ≡ false)
          ⊎ ((get k c'.store ≡ get k c.store) × ((e : FederateError) × (unlink k ≡ err e))))

  pub drop_entry-Kept :
      (k v : Text) (c : CdnCache) → text_eq v k ≡ false → Kept k c (drop_entry unlink v c)
  unfolding remove_block
  drop_entry-Kept k v c q =
      (ground (arith, get-remove v k c.index), ground (arith, get-remove v k c.store))

  drop_entry-Gone : (k : Text) (c : CdnCache) → Gone k c (drop_entry unlink k c)
  unfolding remove_block has_block
  drop_entry-Gone k c = (
    ground (arith, get-remove k k c.index, text_eq_refl k),
    elim (Result-cases (unlink k)) [
      | inl (e, q) ↦ inr (ground (arith, q), (e, q))
      | inr (u, q) ↦ inl (ground (arith, q, get-remove k k c.store, text_eq_refl k))
    ],
  )

  Gone-Kept : (k : Text) (c c1 c2 : CdnCache) → Gone k c c1 → Kept k c1 c2 → Gone k c c2
  unfolding has_block
  Gone-Kept k c c1 c2 (gone, inl unread) (index, store) =
      (index ∙ gone, inl (ground (arith, store, unread)))
  Gone-Kept k c c1 c2 (gone, inr (same, why)) (index, store) =
      (index ∙ gone, inr (store ∙ same, why))

  -- What becomes of an address: the one that was put is kept.
  abbrev pub Outcome : Text → Text → CdnCache → CdnCache → Type 0
  Outcome hash k c c' = Kept k c c' ⊎ ((text_eq k hash ≡ false) × Gone k c c')

  pub Kept-Outcome :
      (hash k : Text) (c c1 c2 : CdnCache)
      → Kept k c c1
      → Outcome hash k c1 c2
      → Outcome hash k c c2
  Kept-Outcome hash k c c1 c2 (i, s) (inl (i', s')) = inl (i' ∙ i, s' ∙ s)
  Kept-Outcome hash k c c1 c2 kept (inr (q, (gone, inl unread))) = inr (q, (gone, inl unread))
  Kept-Outcome hash k c c1 c2 (i, s) (inr (q, (gone, inr (same, why)))) =
      inr (q, (gone, inr (same ∙ s, why)))

  Gone-Outcome :
      (hash k : Text) (c c1 c2 : CdnCache) → Gone k c c1 → Outcome hash k c1 c2 → Gone k c c2
  unfolding has_block
  Gone-Outcome hash k c c1 c2 gone (inl kept) = Gone-Kept k c c1 c2 gone kept
  Gone-Outcome hash k c c1 c2 before (inr (q, (gone, inl unread))) = (gone, inl unread)
  Gone-Outcome hash k c c1 c2 (gone1, inl unread) (inr (q, (gone, inr (same, why)))) =
      (gone, inl (ground (arith, same, unread)))
  Gone-Outcome hash k c c1 c2 (gone1, inr (same1, why1)) (inr (q, (gone, inr (same, why)))) =
      (gone, inr (same ∙ same1, why))

  pub evict-Outcome :
      (hash : Text) (l : CacheIndex) (total : ℕ) (c : CdnCache) (k : Text)
      → Outcome hash k c (evict unlink hash l total c)
  unfolding evict
  evict-Outcome hash [] total c k = inl (refl, refl)
  evict-Outcome hash ((v, e) ∷ l) total c k = elim (Bool-cases (leb total c.max_bytes)) [
    | inl q ↦ rw q (inl (refl, refl))
    | inr q ↦ elim (Bool-cases (text_eq v hash)) [
      | inl w ↦ rw (q, w) (evict-Outcome hash l total c k)
      | inr w ↦
          let c1 = drop_entry unlink v c in
          let total1 = (total + 2 ^ 64 - e.size) % 2 ^ 64 in
          let rest = evict-Outcome hash l total1 c1 k in
          rw (q, w)
            (elim (Bool-cases (text_eq v k)) [
              | inl x ↦ inr (
                ground (arith, text_eq_iff v k, text_eq_iff v hash, text_eq_iff k hash),
                Gone-Outcome hash k c c1 (evict unlink hash l total1 c1)
                    (subst (λ t. Gone k c (drop_entry unlink t c)) (sym ((text_eq_iff v k).0 x))
                      (drop_entry-Gone k c))
                    rest,
              )
              | inr x ↦
                  Kept-Outcome hash k c c1 (evict unlink hash l total1 c1) (drop_entry-Kept k v c x)
                    rest
            ])
    ]
  ]

-- The loop's list agrees with the index on all addresses but the one that was put.
pub record IsAgenda (hash : Text) (l index : CacheIndex) : Type 0 where
  pub same : (k : Text) → (text_eq k hash ≡ true) ⊎ (get k l ≡ get k index)
  pub distinct : IsDistinct l
  pub unique : IsDistinct index

pub IsAgenda-skip :
    (hash v : Text) (e : Entry) (l index : CacheIndex)
    → text_eq v hash ≡ true
    → IsAgenda hash ((v, e) ∷ l) index
    → IsAgenda hash l index
unfolding get
IsAgenda-skip hash v e l index q a = record {
  same = λ k. elim (a.same k) [
    | inl w ↦ inl w
    | inr w ↦ elim (Bool-cases (text_eq v k)) [
      | inl x ↦ inl (ground (arith, text_eq_iff v k, text_eq_iff v hash, text_eq_iff k hash))
      | inr x ↦ inr (ground (arith, w))
    ]
  ];
  distinct = a.distinct.1;
  unique = a.unique;
}

pub IsAgenda-drop :
    (hash v : Text) (e : Entry) (l index : CacheIndex)
    → IsAgenda hash ((v, e) ∷ l) index
    → IsAgenda hash l (remove v index)
unfolding get
IsAgenda-drop hash v e l index a = record {
  same = λ k. elim (a.same k) [
    | inl w ↦ inl w
    | inr w ↦ inr (ground (arith, get-remove v k index, text_eq_iff v k, a.distinct.0, w))
  ];
  distinct = a.distinct.1;
  unique = remove-IsDistinct v index a.unique;
}

-- The entry at the head of the list is the one of the index.
pub agenda-head :
    (hash v : Text) (e : Entry) (l index : CacheIndex)
    → text_eq v hash ≡ false
    → IsAgenda hash ((v, e) ∷ l) index
    → get v index ≡ some e
unfolding get
agenda-head hash v e l index q a = elim (a.same v) [
  | inl w ↦ ground (arith, w)
  | inr w ↦ ground (arith, w, text_eq_refl v)
]

-- The sizes are within the cap, or only the block that was put is left.
abbrev pub IsBounded : Text → CdnCache → Type 0
IsBounded hash c =
    (total_size c.index ≤ c.max_bytes)
    ⊎ ((k : Text) → (text_eq k hash ≡ true) ⊎ (get k c.index ≡ none))

module _ (unlink : Text → Result (Unit {0})) where
  pub evict-IsBounded :
      (hash : Text) (l : CacheIndex) (total : ℕ) (c : CdnCache)
      → IsAgenda hash l c.index
      → total ≡ total_size c.index
      → total < 18446744073709551616
      → IsBounded hash (evict unlink hash l total c)
  unfolding evict
  evict-IsBounded hash [] total c a t small =
      inr (λ k. elim (a.same k) [ inl w ↦ inl w | inr w ↦ inr (unfold get in sym w) ])
  evict-IsBounded hash ((v, e) ∷ l) total c a t small = elim (Bool-cases (leb total c.max_bytes)) [
    | inl q ↦ rw q (inl (omega (arith, leb→le total c.max_bytes q)))
    | inr q ↦ elim (Bool-cases (text_eq v hash)) [
      | inl w ↦
          rw (q, w) (evict-IsBounded hash l total c (IsAgenda-skip hash v e l c.index w a) t small)
      | inr w ↦
          let size = total_size-remove v e c.index a.unique (agenda-head hash v e l c.index w a) in
          let total1 : (total + 2 ^ 64 - e.size) % 2 ^ 64 ≡ total_size (remove v c.index) =
            omega arith in
          rw (q, w)
            (evict-IsBounded hash l ((total + 2 ^ 64 - e.size) % 2 ^ 64) (drop_entry unlink v c)
              (IsAgenda-drop hash v e l c.index a) total1 (omega arith))
    ]
  ]
