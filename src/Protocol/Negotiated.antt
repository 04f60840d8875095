-- ===== src/Protocol/Negotiated.antt =====
-- The version that two peers settle on.
use federate.Base.{
  ℕ, Option, none, some, Bool-cases, inl, inr, true, false, List, [], ◌∷◌, ◌≤◌, ◌≡◌, arith,
}
use federate.Protocol.{member, max_option, negotiate}

-- A version that both speak and no shared version exceeds; or no version is shared.
abbrev pub IsHighest : List ℕ → List ℕ → Option ℕ → Type 0
IsHighest ours theirs none = (v : ℕ) → member v ours ≡ true → member v theirs ≡ false
IsHighest ours theirs (some w) =
    (member w ours ≡ true)
    × (member w theirs ≡ true)
    × ((v : ℕ) → member v ours ≡ true → member v theirs ≡ true → v ≤ w)

shared-IsHighest :
    (v : ℕ) (ours theirs : List ℕ) (rest : Option ℕ)
    → member v theirs ≡ true
    → IsHighest ours theirs rest
    → IsHighest (v ∷ ours) theirs (max_option v rest)
unfolding member
shared-IsHighest v ours theirs none m h = (ground arith, m, λ u a b. ground (arith, h u))
shared-IsHighest v ours theirs (some w) m (a, b, c) =
    (ground (arith), ground (arith), λ u p q. ground (arith, c u))

other-IsHighest :
    (v : ℕ) (ours theirs : List ℕ) (rest : Option ℕ)
    → member v theirs ≡ false
    → IsHighest ours theirs rest
    → IsHighest (v ∷ ours) theirs rest
unfolding member
other-IsHighest v ours theirs none m h = λ u a. ground (arith, h u)
other-IsHighest v ours theirs (some w) m (a, b, c) = (ground arith, b, λ u p q. ground (arith, c u))

-- The negotiated version is spoken by both sides and is the highest such version; there is none only
-- if no version is shared.
pub negotiate-IsHighest : (ours theirs : List ℕ) → IsHighest ours theirs (negotiate ours theirs)
unfolding negotiate member
negotiate-IsHighest [] theirs = λ v h. cc
negotiate-IsHighest (v ∷ ours) theirs = elim (Bool-cases (member v theirs)) [
  | inl e ↦
      rw e
        (shared-IsHighest v ours theirs (negotiate ours theirs) e (negotiate-IsHighest ours theirs))
  | inr e ↦
      rw e
        (other-IsHighest v ours theirs (negotiate ours theirs) e (negotiate-IsHighest ours theirs))
]
