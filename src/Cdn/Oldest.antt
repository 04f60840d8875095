-- ===== src/Cdn/Oldest.antt =====
-- Evictions of the block cache of crates/federate-cdn/src/lib.rs: the oldest entries go first.
use federate.Base.{
  ℕ, ◌+◌, ◌-◌, ◌%◌, ◌^◌, ◌≤◌, ◌<◌, Text, false, Option, none, some, [], ◌∷◌, ltb, leb, text_eq,
  text_eq_iff, get, ◌≡◌, refl, sym, ◌∙◌, inl, inr, arith, All, Bool-cases, Option-cases, subst,
}
use federate.Core.{Result}
use federate.Cdn.Cache.{
  Entry, CacheIndex, CdnCache, sum_sizes, sort_by_age, drop_entry, evict, evict_over_cap,
}
use federate.Cdn.Sorted.{
  total_size, sum_sizes-total_size, IsDistinct, IsSorted, remove-IsDistinct, sort_by_age-IsSortOf,
}
use federate.Cdn.Evicted.{
  Outcome, evict-Outcome, IsAgenda, IsAgenda-skip, IsAgenda-drop, agenda-head, IsBounded,
  evict-IsBounded, drop_entry-Kept,
}

-- An entry that was there and is gone is not younger than one that is left.
abbrev pub OldestFirst : (before after left : Option Entry) → Type 0
OldestFirst (some e) none (some f) = e.last_used ≤ f.last_used
OldestFirst _ _ _ = Unit

OldestFirst-same : (o left : Option Entry) → OldestFirst o o left
OldestFirst-same none left = tt
OldestFirst-same (some e) left = tt

OldestFirst-none : (before after : Option Entry) → OldestFirst before after none
OldestFirst-none none after = tt
OldestFirst-none (some e) none = tt
OldestFirst-none (some e) (some f) = tt

All-get :
    (t : ℕ) (k : Text) (f : Entry) (l : CacheIndex)
    → All (λ p. t ≤ p.1.last_used) l
    → get k l ≡ some f
    → t ≤ f.last_used
unfolding get
All-get t k f [] all q = cc
All-get t k f ((j, e) ∷ l) (one, all) q = ground (arith, All-get t k f l all)

OldestFirst-le :
    (e f : Entry) (after : Option Entry)
    → e.last_used ≤ f.last_used
    → OldestFirst (some e) after (some f)
OldestFirst-le e f none h = h
OldestFirst-le e f (some g) h = tt

module _ (unlink : Text → Result (Unit {0})) where
  -- The entry at the head of the list is evicted: it is as old as any, and the rest goes on as before.
  evicted-OldestFirst :
      (hash v : Text) (e : Entry) (l : CacheIndex) (c c' : CdnCache) (j k : Text)
      → IsAgenda hash ((v, e) ∷ l) c.index
      → All (λ p. e.last_used ≤ p.1.last_used) l
      → text_eq k hash ≡ false
      → text_eq v hash ≡ false
      → Outcome unlink hash k (drop_entry unlink v c) c'
      → OldestFirst (get j (drop_entry unlink v c).index) (get j c'.index) (get k c'.index)
      → OldestFirst (get j c.index) (get j c'.index) (get k c'.index)
  evicted-OldestFirst hash v e l c c' j k a first x w (inr (q, gone)) rest =
      subst (λ o. OldestFirst (get j c.index) (get j c'.index) o) (sym gone.0)
        (OldestFirst-none (get j c.index) (get j c'.index))
  evicted-OldestFirst hash v e l c c' j k a first x w (inl (index, store)) rest =
      elim (Bool-cases (text_eq v j)) [
        | inr y ↦
            subst (λ o. OldestFirst o (get j c'.index) (get k c'.index))
              (drop_entry-Kept unlink j v c y).0 rest
        | inl y ↦
            let there : get j c.index ≡ some e =
              subst (λ t. get t c.index ≡ some e) ((text_eq_iff v j).0 y)
                (agenda-head hash v e l c.index w a) in
            elim (Option-cases (get k c'.index)) [
              | inl n ↦ rw n (OldestFirst-none (get j c.index) (get j c'.index))
              | inr (f, n) ↦
                  rw (there, n)
                    (OldestFirst-le e f (get j c'.index)
                      (elim ((IsAgenda-drop hash v e l c.index a).same k) [
                        | inl z ↦ cc
                        | inr z ↦ All-get e.last_used k f l first (z ∙ sym index ∙ n)
                      ]))
            ]
      ]

  evict-OldestFirst :
      (hash : Text) (l : CacheIndex) (total : ℕ) (c : CdnCache) (j k : Text)
      → IsAgenda hash l c.index
      → IsSorted l
      → text_eq k hash ≡ false
      → OldestFirst
          (get j c.index)
          (get j (evict unlink hash l total c).index)
          (get k (evict unlink hash l total c).index)
  unfolding evict
  evict-OldestFirst hash [] total c j k a s x = OldestFirst-same (get j c.index) (get k c.index)
  evict-OldestFirst hash ((v, e) ∷ l) total c j k a (first, s) x =
      elim (Bool-cases (leb total c.max_bytes)) [
        | inl q ↦ rw q (OldestFirst-same (get j c.index) (get k c.index))
        | inr q ↦ elim (Bool-cases (text_eq v hash)) [
          | inl w ↦
              rw (q, w)
                (evict-OldestFirst hash l total c j k (IsAgenda-skip hash v e l c.index w a) s x)
          | inr w ↦
              rw (q, w)
                (evicted-OldestFirst hash v e l c
                  (evict unlink hash l ((total + 2 ^ 64 - e.size) % 2 ^ 64) (drop_entry unlink v c))
                  j k a first x w
                  (evict-Outcome unlink hash l ((total + 2 ^ 64 - e.size) % 2 ^ 64)
                    (drop_entry unlink v c) k)
                  (evict-OldestFirst hash l ((total + 2 ^ 64 - e.size) % 2 ^ 64)
                    (drop_entry unlink v c) j k (IsAgenda-drop hash v e l c.index a) s x))
        ]
      ]

  pub evict_over_cap-Outcome :
      (hash : Text) (c : CdnCache) (k : Text)
      → Outcome unlink hash k c (evict_over_cap unlink hash c)
  unfolding evict_over_cap
  evict_over_cap-Outcome hash c k = elim (Bool-cases (ltb c.max_bytes (sum_sizes c.index))) [
    | inl q ↦ rw q (evict-Outcome unlink hash (sort_by_age c.index) (sum_sizes c.index) c k)
    | inr q ↦ rw q (inl (refl, refl))
  ]

  sorted-IsAgenda : (hash : Text) (m : CacheIndex) → IsDistinct m → IsAgenda hash (sort_by_age m) m
  sorted-IsAgenda hash m d =
      let r = sort_by_age-IsSortOf m d in
      record { same = λ k. inr (r.same k); distinct = r.distinct; unique = d }

  pub evict_over_cap-IsBounded :
      (hash : Text) (c : CdnCache)
      → IsDistinct c.index
      → total_size c.index < 18446744073709551616
      → IsBounded hash (evict_over_cap unlink hash c)
  unfolding evict_over_cap
  evict_over_cap-IsBounded hash c d small =
      let whole = sum_sizes-total_size c.index small in
      elim (Bool-cases (ltb c.max_bytes (sum_sizes c.index))) [
        | inl q ↦ rw q (
            evict-IsBounded unlink hash (sort_by_age c.index) (sum_sizes c.index) c
              (sorted-IsAgenda hash c.index d) whole (omega arith))
        | inr q ↦ rw q (inl (ground arith))
      ]

  pub evict_over_cap-OldestFirst :
      (hash : Text) (c : CdnCache) (j k : Text)
      → IsDistinct c.index
      → text_eq k hash ≡ false
      → OldestFirst
          (get j c.index)
          (get j (evict_over_cap unlink hash c).index)
          (get k (evict_over_cap unlink hash c).index)
  unfolding evict_over_cap
  evict_over_cap-OldestFirst hash c j k d x =
      elim (Bool-cases (ltb c.max_bytes (sum_sizes c.index))) [
        | inl q ↦ rw q (
            evict-OldestFirst hash (sort_by_age c.index) (sum_sizes c.index) c j k
              (sorted-IsAgenda hash c.index d) (sort_by_age-IsSortOf c.index d).sorted x)
        | inr q ↦ rw q (OldestFirst-same (get j c.index) (get k c.index))
      ]

  evict-max_bytes :
      (hash : Text) (l : CacheIndex) (total : ℕ) (c : CdnCache)
      → (evict unlink hash l total c).max_bytes ≡ c.max_bytes
  unfolding evict
  evict-max_bytes hash [] total c = refl
  evict-max_bytes hash ((v, e) ∷ l) total c = ground (
    arith,
    evict-max_bytes hash l total c,
    evict-max_bytes hash l ((total + 2 ^ 64 - e.size) % 2 ^ 64) (drop_entry unlink v c),
  )

  pub evict_over_cap-max_bytes :
      (hash : Text) (c : CdnCache) → (evict_over_cap unlink hash c).max_bytes ≡ c.max_bytes
  unfolding evict_over_cap
  evict_over_cap-max_bytes hash c =
      ground (arith, evict-max_bytes hash (sort_by_age c.index) (sum_sizes c.index) c)

  evict-IsDistinct :
      (hash : Text) (l : CacheIndex) (total : ℕ) (c : CdnCache)
      → IsDistinct c.index
      → IsDistinct (evict unlink hash l total c).index
  unfolding evict
  evict-IsDistinct hash [] total c d = d
  evict-IsDistinct hash ((v, e) ∷ l) total c d = elim (Bool-cases (leb total c.max_bytes)) [
    | inl q ↦ rw q d
    | inr q ↦ elim (Bool-cases (text_eq v hash)) [
      | inl w ↦ rw (q, w) (evict-IsDistinct hash l total c d)
      | inr w ↦
          rw (q, w)
            (evict-IsDistinct hash l ((total + 2 ^ 64 - e.size) % 2 ^ 64) (drop_entry unlink v c)
              (remove-IsDistinct v c.index d))
    ]
  ]

  pub evict_over_cap-IsDistinct :
      (hash : Text) (c : CdnCache)
      → IsDistinct c.index
      → IsDistinct (evict_over_cap unlink hash c).index
  unfolding evict_over_cap
  evict_over_cap-IsDistinct hash c d = elim (Bool-cases (ltb c.max_bytes (sum_sizes c.index))) [
    | inl q ↦ rw q (evict-IsDistinct hash (sort_by_age c.index) (sum_sizes c.index) c d)
    | inr q ↦ rw q d
  ]
