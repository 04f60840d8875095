-- ===== src/Base/Collected.antt =====
-- A map that is rebuilt from its entries in order is the same map.
use mathlib.Core.Path.{◌≡◌, refl, sym, subst, ◌∙◌}
use mathlib.Core.Bool.{true, false, false≢true}
use mathlib.Core.Logic.{inl, inr}
use mathlib.Core.List.{[], ◌∷◌, ◌++◌, append_assoc, append-nil}
use mathlib.Core.Option.{some}
use native.Mathlib.Omega.{arith}
use federate.Base.Tests.{Bool-cases}
use federate.Base.Lists.{All}
use federate.Base.Strings.{Text, text_eq, text_ltb, text_eq_iff, text_eq_refl}
use federate.Base.Dict.{BTreeMap, get, insert}
use federate.Base.Ascending.{Above, IsAscending, collect, text_ltb_irrefl, text_ltb_trans}

lt_ne : (j k : Text) → text_ltb j k ≡ true → text_eq j k ≡ false
lt_ne j k h = elim (Bool-cases (text_eq j k)) [
  | inl p ↦ absurd (
      false≢true (
        sym (text_ltb_irrefl j) ∙ subst (λ t. text_ltb j t ≡ true) (sym ((text_eq_iff j k).0 p)) h))
  | inr p ↦ p
]

lt_asym : (j k : Text) → text_ltb j k ≡ true → text_ltb k j ≡ false
lt_asym j k h = elim (Bool-cases (text_ltb k j)) [
  | inl p ↦ absurd (false≢true (sym (text_ltb_irrefl j) ∙ text_ltb_trans j k j h p))
  | inr p ↦ p
]

module _ {ℓ} {V : Type ℓ} where
  -- Every key is below the one given.
  abbrev Below : Text → BTreeMap V → Type 0
  Below k [] = Unit
  Below k ((j, v) ∷ m) = (text_ltb j k ≡ true) × Below k m

  Above-middle :
      (j k : Text) (v : V) (m l : BTreeMap V) → Above j (m ++ (k, v) ∷ l) → text_ltb j k ≡ true
  Above-middle j k v [] l (first, a) = first
  Above-middle j k v ((i, w) ∷ m) l (first, a) = Above-middle j k v m l a

  -- An entry whose key is above all others goes to the end.
  insert-Below : (k : Text) (v : V) (m : BTreeMap V) → Below k m → insert k v m ≡ m ++ (k, v) ∷ []
  unfolding insert
  insert-Below k v [] below = refl
  insert-Below k v ((j, w) ∷ m) (first, below) =
      ground (arith, lt_ne j k first, lt_asym j k first, insert-Below k v m below)

  IsAscending-Below :
      (k : Text) (v : V) (m l : BTreeMap V) → IsAscending (m ++ (k, v) ∷ l) → Below k m
  IsAscending-Below k v [] l s = tt
  IsAscending-Below k v ((j, w) ∷ m) l (first, s) =
      (Above-middle j k v m l first, IsAscending-Below k v m l s)

  collect-append : (l m : BTreeMap V) → IsAscending (m ++ l) → collect l m ≡ m ++ l
  unfolding collect
  collect-append [] m s = sym (append-nil m)
  collect-append ((k, v) ∷ l) m s = rw (insert-Below k v m (IsAscending-Below k v m l s)) (
      collect-append l (m ++ (k, v) ∷ [])
        (subst IsAscending (sym (append_assoc m ((k, v) ∷ []) l)) s)
      ∙ append_assoc m ((k, v) ∷ []) l)

  pub collect-IsAscending : (m : BTreeMap V) → IsAscending m → collect m [] ≡ m
  collect-IsAscending m s = collect-append m [] s

  found_behind :
      (k : Text) (v : V) (m l : BTreeMap V)
      → Above k l
      → All (λ p. get p.0 m ≡ some p.1) l
      → All (λ p. get p.0 ((k, v) ∷ m) ≡ some p.1) l
  unfolding get
  found_behind k v m [] a all = tt
  found_behind k v m ((j, w) ∷ l) (first, a) (one, all) =
      (rw (lt_ne k j first) one, found_behind k v m l a all)

  -- In a map in key order, every entry is found under its key.
  pub All-found : (m : BTreeMap V) → IsAscending m → All (λ p. get p.0 m ≡ some p.1) m
  unfolding get
  All-found [] s = tt
  All-found ((k, v) ∷ m) (first, s) =
      (rw (text_eq_refl k) refl, found_behind k v m m first (All-found m s))

pub All-insert {ℓ κ} :
    {V : Type ℓ} (P : Text × V → Type κ) (k : Text) (v : V) (m : BTreeMap V)
    → P (k, v)
    → All P m
    → All P (insert k v m)
unfolding insert
All-insert P k v [] one h = (one, tt)
All-insert P k v ((j, w) ∷ m) one (first, h) = elim (Bool-cases (text_eq j k)) [
  | inl p ↦ rw p (one, h)
  | inr p ↦ rw p (elim (Bool-cases (text_ltb k j)) [
    | inl q ↦ rw q (one, (first, h))
    | inr q ↦ rw q (first, All-insert P k v m one h)
  ])
]

pub All-get {ℓ κ} :
    {V : Type ℓ} (P : Text × V → Type κ) (k : Text) (v : V) (m : BTreeMap V)
    → All P m
    → get k m ≡ some v
    → P (k, v)
unfolding get
All-get P k v [] all e = cc
All-get P k v ((j, w) ∷ m) (one, all) e = elim (Bool-cases (text_eq j k)) [
  | inl p ↦
      let same : w ≡ v = ground arith in
      subst (λ x. P (x, v)) ((text_eq_iff j k).0 p) (subst (λ y. P (j, y)) same one)
  | inr p ↦ All-get P k v m all (ground arith)
]
