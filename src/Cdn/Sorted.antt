-- ===== src/Cdn/Sorted.antt =====
-- The index of the block cache of crates/federate-cdn/src/lib.rs: its entries by address, their sizes, and
-- their order by age.
use federate.Base.{
  ℕ, ◌+◌, ◌≤◌, ◌<◌, Text, none, some, [], ◌∷◌, ltb, if◌then◌else◌, text_eq, text_eq_iff, get,
  remove, get-remove, ◌≡◌, refl, ap, ◌∙◌, inl, inr, arith, All, Bool-cases,
}
use federate.Cdn.Cache.{Entry, CacheIndex, set_entry, sum_sizes, insert_by_age, sort_by_age}

-- No address stands twice in an index.
abbrev pub IsDistinct : CacheIndex → Type 0
IsDistinct [] = Unit
IsDistinct ((k, e) ∷ index) = (get k index ≡ none) × IsDistinct index

pub remove-IsDistinct : (k : Text) (m : CacheIndex) → IsDistinct m → IsDistinct (remove k m)
unfolding remove
remove-IsDistinct k [] d = tt
remove-IsDistinct k ((j, e) ∷ m) (new, d) = elim (Bool-cases (text_eq j k)) [
  | inl q ↦ rw q (remove-IsDistinct k m d)
  | inr q ↦ rw q (ground (arith, get-remove k j m), remove-IsDistinct k m d)
]

pub get-set_entry :
    (k j : Text) (e : Entry) (m : CacheIndex)
    → get j (set_entry k e m) ≡ (if text_eq k j then some e else get j m)
unfolding get set_entry
get-set_entry k j e [] = refl
get-set_entry k j e ((i, f) ∷ m) =
    ground (arith, get-set_entry k j e m, text_eq_iff i k, text_eq_iff i j, text_eq_iff k j)

pub set_entry-IsDistinct :
    (k : Text) (e : Entry) (m : CacheIndex) → IsDistinct m → IsDistinct (set_entry k e m)
unfolding set_entry get
set_entry-IsDistinct k e [] d = (refl, tt)
set_entry-IsDistinct k e ((j, f) ∷ m) (new, d) = elim (Bool-cases (text_eq j k)) [
  | inl q ↦ rw q (ground (arith, text_eq_iff j k), d)
  | inr q ↦ rw q (
    ground (arith, get-set_entry k j e m, text_eq_iff j k, text_eq_iff k j),
    set_entry-IsDistinct k e m d,
  )
]

-- The sum of the sizes, without bound.
abbrev pub total_size : CacheIndex → ℕ
total_size [] = 0
total_size ((k, e) ∷ m) = e.size + total_size m

pub sum_sizes-total_size :
    (m : CacheIndex) → total_size m < 18446744073709551616 → sum_sizes m ≡ total_size m
unfolding sum_sizes
sum_sizes-total_size [] small = refl
sum_sizes-total_size ((k, e) ∷ m) small =
    let rest = sum_sizes-total_size m (omega arith) in omega arith

pub total_size-set_entry :
    (k : Text) (e : Entry) (m : CacheIndex) → total_size (set_entry k e m) ≤ total_size m + e.size
unfolding set_entry
total_size-set_entry k e [] = omega arith
total_size-set_entry k e ((j, f) ∷ m) = elim (Bool-cases (text_eq j k)) [
  | inl q ↦ rw q (omega arith)
  | inr q ↦ rw q (omega (arith, total_size-set_entry k e m))
]

-- An entry that is removed takes its size from the total.
remove-absent : (k : Text) (m : CacheIndex) → get k m ≡ none → remove k m ≡ m
unfolding get remove
remove-absent k [] q = refl
remove-absent k ((j, f) ∷ m) q = ground (arith, remove-absent k m)

pub total_size-remove :
    (k : Text) (e : Entry) (m : CacheIndex)
    → IsDistinct m
    → get k m ≡ some e
    → total_size (remove k m) + e.size ≡ total_size m
unfolding get remove
total_size-remove k e [] d q = cc
total_size-remove k e ((j, f) ∷ m) (new, d) q =
    ground (arith, text_eq_iff j k, remove-absent k m, total_size-remove k e m d)

-- An entry in its place among those of a sorted list.
get-insert_by_age :
    (k j : Text) (e : Entry) (l : CacheIndex)
    → get k l ≡ none
    → get j (insert_by_age (k, e) l) ≡ (if text_eq k j then some e else get j l)
unfolding get insert_by_age
get-insert_by_age k j e [] new = refl
get-insert_by_age k j e ((i, f) ∷ l) new =
    ground (arith, get-insert_by_age k j e l, text_eq_iff i k, text_eq_iff i j, text_eq_iff k j)

insert_by_age-IsDistinct :
    (k : Text) (e : Entry) (l : CacheIndex)
    → get k l ≡ none
    → IsDistinct l
    → IsDistinct (insert_by_age (k, e) l)
unfolding insert_by_age get
insert_by_age-IsDistinct k e [] new d = (refl, tt)
insert_by_age-IsDistinct k e ((i, f) ∷ l) new (first, d) =
    elim (Bool-cases (ltb f.last_used e.last_used)) [
      | inl q ↦ rw q (
        ground (arith, get-insert_by_age k i e l, text_eq_iff i k, text_eq_iff k i),
        insert_by_age-IsDistinct k e l (ground arith) d,
      )
      | inr q ↦ rw q (new, (first, d))
    ]

-- The oldest entry comes first.
abbrev pub IsSorted : CacheIndex → Type 0
IsSorted [] = Unit
IsSorted ((k, e) ∷ l) = All (λ p. e.last_used ≤ p.1.last_used) l × IsSorted l

insert_by_age-All :
    (t : ℕ) (k : Text) (e : Entry) (l : CacheIndex)
    → t ≤ e.last_used
    → All (λ p. t ≤ p.1.last_used) l
    → All (λ p. t ≤ p.1.last_used) (insert_by_age (k, e) l)
unfolding insert_by_age
insert_by_age-All t k e [] h all = (h, tt)
insert_by_age-All t k e ((i, f) ∷ l) h (one, all) =
    elim (Bool-cases (ltb f.last_used e.last_used)) [
      | inl q ↦ rw q (one, insert_by_age-All t k e l h all)
      | inr q ↦ rw q (h, (one, all))
    ]

All-le :
    (t u : ℕ) (l : CacheIndex)
    → t ≤ u
    → All (λ p. u ≤ p.1.last_used) l
    → All (λ p. t ≤ p.1.last_used) l
All-le t u [] h all = tt
All-le t u (p ∷ l) h (one, all) = (omega arith, All-le t u l h all)

insert_by_age-IsSorted :
    (k : Text) (e : Entry) (l : CacheIndex) → IsSorted l → IsSorted (insert_by_age (k, e) l)
unfolding insert_by_age
insert_by_age-IsSorted k e [] s = (tt, tt)
insert_by_age-IsSorted k e ((i, f) ∷ l) (first, s) =
    elim (Bool-cases (ltb f.last_used e.last_used)) [
      | inl q ↦
          rw q (
            insert_by_age-All f.last_used k e l (ground arith) first,
            insert_by_age-IsSorted k e l s,
          )
      | inr q ↦
          rw q ((ground arith, All-le e.last_used f.last_used l (ground arith) first), (first, s))
    ]

-- The sorted list is the index, in another order.
pub record IsSortOf (m l : CacheIndex) : Type 0 where
  pub same : (k : Text) → get k l ≡ get k m
  pub distinct : IsDistinct l
  pub sorted : IsSorted l

pub sort_by_age-IsSortOf : (m : CacheIndex) → IsDistinct m → IsSortOf m (sort_by_age m)
unfolding sort_by_age get
sort_by_age-IsSortOf [] d = record { same = λ k. refl; distinct = tt; sorted = tt }
sort_by_age-IsSortOf ((k, e) ∷ m) (new, d) =
    let r = sort_by_age-IsSortOf m d in
    let new' : get k (sort_by_age m) ≡ none = r.same k ∙ new in
    record {
      same = λ j.
          get-insert_by_age k j e (sort_by_age m) new'
          ∙ ap (λ o. if text_eq k j then some e else o) (r.same j);
      distinct = insert_by_age-IsDistinct k e (sort_by_age m) new' r.distinct;
      sorted = insert_by_age-IsSorted k e (sort_by_age m) r.sorted;
    }
