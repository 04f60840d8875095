-- ===== src/Directory/Entries.antt =====
-- How insertion and removal change the entries of a table.
use federate.Base.{
  ◌+◌, ◌≤◌, Text, Bool-cases, true, false, some, [], ◌∷◌, BTreeMap, get, remove, contains_key,
  get-remove, text_eq, text_eq_iff, length, if◌then◌else◌, All, ◌≡◌, refl, inl, inr, arith, subst,
}
use federate.Directory.Table.{put}

module _ {V : Type 0} where
  pub All-put :
      (P : Text × V → Type 0) (k : Text) (v : V) (m : BTreeMap V)
      → P (k, v)
      → All P m
      → All P (put k v m)
  unfolding put
  All-put P k v [] p ps = (p, tt)
  All-put P k v ((j, w) ∷ m) p (q, ps) = elim (Bool-cases (text_eq j k)) [
    | inl e ↦ rw e (p, ps)
    | inr e ↦ rw e (q, All-put P k v m p ps)
  ]

  pub length-put :
      (k : Text) (v : V) (m : BTreeMap V)
      → length (put k v m) ≡ (if contains_key k m then length m else length m + 1)
  unfolding put get
  length-put k v [] = refl
  length-put k v ((j, w) ∷ m) = ground (arith, length-put k v m)

  pub contains_key-put :
      (k j : Text) (v : V) (m : BTreeMap V)
      → contains_key j m ≡ true
      → contains_key j (put k v m) ≡ true
  unfolding put get
  contains_key-put k j v [] e = cc
  contains_key-put k j v ((i, w) ∷ m) e =
      ground (arith, contains_key-put k j v m, text_eq_iff i j, text_eq_iff i k, text_eq_iff k j)

  pub All-remove :
      (P : Text × V → Type 0) (k : Text) (m : BTreeMap V) → All P m → All P (remove k m)
  unfolding remove
  All-remove P k [] ps = tt
  All-remove P k ((j, w) ∷ m) (q, ps) = elim (Bool-cases (text_eq j k)) [
    | inl e ↦ rw e (All-remove P k m ps)
    | inr e ↦ rw e (q, All-remove P k m ps)
  ]

  pub length-remove : (k : Text) (m : BTreeMap V) → length (remove k m) ≤ length m
  unfolding remove
  length-remove k [] = omega arith
  length-remove k ((j, w) ∷ m) = ground (arith, length-remove k m)

  pub contains_key-remove :
      (k j : Text) (m : BTreeMap V)
      → contains_key j m ≡ true
      → text_eq k j ≡ false
      → contains_key j (remove k m) ≡ true
  contains_key-remove k j m e ne = ground (arith, get-remove k j m, e, ne)

  pub get-All :
      (P : V → Type 0) (k : Text) (m : BTreeMap V) (v : V)
      → All (λ (p : Text × V). P p.1) m
      → get k m ≡ some v
      → P v
  unfolding get
  get-All P k [] v ps e = cc
  get-All P k ((j, w) ∷ m) v (q, ps) e = elim (Bool-cases (text_eq j k)) [
    | inl t ↦ subst P {x = w} {y = v} (ground (arith, t, e)) q
    | inr t ↦ get-All P k m v ps (ground (arith, t, e))
  ]
