-- ===== src/Base/Ascending.antt =====
-- Maps whose keys ascend, as those of a `BTreeMap` and of a table do: insertion keeps the order, and
-- a map that is collected from them has their entries.
use mathlib.Core.Path.{◌≡◌, refl, subst, ◌∙◌}
use mathlib.Core.Logic.{inl, inr}
use mathlib.Core.Bool.{true, false}
use mathlib.Core.List.{List, [], ◌∷◌}
use mathlib.Core.Option.{Option, none, some}
use native.Mathlib.Omega.{arith}
use federate.Base.Tests.{Bool-cases}
use federate.Base.Strings.{Text, text_eq, text_ltb, text_eq_iff}
use federate.Base.Dict.{BTreeMap, get, insert, get-insert}

pub text_ltb_trans :
    (s t u : Text) → text_ltb s t ≡ true → text_ltb t u ≡ true → text_ltb s u ≡ true
unfolding text_ltb
text_ltb_trans s t [] p q = cc
text_ltb_trans [] t (e ∷ u) p q = refl
text_ltb_trans (c ∷ s) [] (e ∷ u) p q = cc
text_ltb_trans (c ∷ s) (d ∷ t) (e ∷ u) p q = ground (arith, text_ltb_trans s t u)

pub text_ltb_irrefl : (s : Text) → text_ltb s s ≡ false
unfolding text_ltb
text_ltb_irrefl [] = refl
text_ltb_irrefl (c ∷ s) = ground (arith, text_ltb_irrefl s)

text_ltb_total : (s t : Text) → text_eq s t ≡ false → text_ltb t s ≡ false → text_ltb s t ≡ true
unfolding text_ltb text_eq
text_ltb_total [] [] p q = cc
text_ltb_total [] (d ∷ t) p q = refl
text_ltb_total (c ∷ s) [] p q = cc
text_ltb_total (c ∷ s) (d ∷ t) p q = ground (arith, text_ltb_total s t)

module _ {ℓ} {V : Type ℓ} where
  -- Every key is above the one given.
  abbrev pub Above : Text → BTreeMap V → Type 0
  Above k [] = Unit
  Above k ((j, v) ∷ m) = (text_ltb k j ≡ true) × Above k m

  abbrev pub IsAscending : BTreeMap V → Type 0
  IsAscending [] = Unit
  IsAscending ((k, v) ∷ m) = Above k m × IsAscending m

  Above-insert :
      (k j : Text) (v : V) (m : BTreeMap V)
      → text_ltb k j ≡ true
      → Above k m
      → Above k (insert j v m)
  unfolding insert
  Above-insert k j v [] h a = (h, tt)
  Above-insert k j v ((i, w) ∷ m) h (first, a) = elim (Bool-cases (text_eq i j)) [
    | inl p ↦ rw p (h, a)
    | inr p ↦ rw p (elim (Bool-cases (text_ltb j i)) [
      | inl q ↦ rw q (h, (first, a))
      | inr q ↦ rw q (first, Above-insert k j v m h a)
    ])
  ]

  Above-trans : (k j : Text) (m : BTreeMap V) → text_ltb k j ≡ true → Above j m → Above k m
  Above-trans k j [] h a = tt
  Above-trans k j ((i, w) ∷ m) h (first, a) = (text_ltb_trans k j i h first, Above-trans k j m h a)

  pub insert-IsAscending :
      (k : Text) (v : V) (m : BTreeMap V) → IsAscending m → IsAscending (insert k v m)
  unfolding insert
  insert-IsAscending k v [] s = (tt, tt)
  insert-IsAscending k v ((j, w) ∷ m) (first, s) = elim (Bool-cases (text_eq j k)) [
    | inl p ↦ rw p (subst (λ t. Above t m) ((text_eq_iff j k).0 p) first, s)
    | inr p ↦ rw p (elim (Bool-cases (text_ltb k j)) [
      | inl q ↦ rw q ((q, Above-trans k j m q first), (first, s))
      | inr q ↦
          rw q (Above-insert j k v m (text_ltb_total j k p q) first, insert-IsAscending k v m s)
    ])
  ]

  get-Above : (k : Text) (m : BTreeMap V) → Above k m → get k m ≡ none
  unfolding get
  get-Above k [] a = refl
  get-Above k ((j, v) ∷ m) (first, a) =
      ground (arith, get-Above k m, text_eq_iff j k, text_ltb_irrefl k)

  -- `into_iter().collect()` into a map.
  unfoldable pub collect : List (Text × V) → BTreeMap V → BTreeMap V
  collect [] m = m
  collect ((k, v) ∷ l) m = collect l (insert k v m)

  abbrev or_in : Option V → Option V → Option V
  or_in none o = o
  or_in (some v) o = some v

  or_in-none : (o : Option V) → or_in o none ≡ o
  or_in-none none = refl
  or_in-none (some v) = refl

  get-collect_onto :
      (k : Text) (l m : BTreeMap V)
      → IsAscending l
      → get k (collect l m) ≡ or_in (get k l) (get k m)
  unfolding collect get
  get-collect_onto k [] m s = refl
  get-collect_onto k ((j, v) ∷ l) m (first, s) = elim (Bool-cases (text_eq j k)) [
    | inl p ↦
        let new = get-Above k l (subst (λ t. Above t l) ((text_eq_iff j k).0 p) first) in
        ground (arith, get-collect_onto k l (insert j v m) s, get-insert j k v m, new, p)
    | inr p ↦ ground (arith, get-collect_onto k l (insert j v m) s, get-insert j k v m, p)
  ]

  pub get-collect : (k : Text) (l : BTreeMap V) → IsAscending l → get k (collect l []) ≡ get k l
  unfolding get
  get-collect k l s = get-collect_onto k l [] s ∙ or_in-none (get k l)
