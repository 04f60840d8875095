-- ===== src/Dns/Names.antt =====
-- Names in the packets of crates/federate-dns/src/wire.rs: what the loop over the labels of a question
-- has read, and that the loop which skips a name passes the same bytes.
use Prim.Native.Nat.{bit_and}
use federate.Base.{
  ℕ, zero, suc, ◌≤◌, ◌<◌, Text, Bytes, String, true, false, List, [], ◌∷◌, ◌++◌, length, take, drop,
  ◌==◌, ◌≡◌, ◌≢◌, refl, sym, ap, ◌∙◌, inl, inr, arith, length-append, length-drop, append_assoc,
  Bool-cases, take-append, drop-append,
}
use federate.Dns.Wire.{
  Parsed, parsed, parse_error, out_of_fuel, ◌>>=◌, get_range, read_label, read_name, skip_name,
  skip,
}

-- A step that returned a value got one from its first part.
pub >>=-eq-parsed {ℓ κ} :
    {A : Type ℓ} {B : Type κ} (step : Parsed A) (rest : A → Parsed B) {b : B}
    → (step >>= rest) ≡ parsed b
    → (a : A) × (step ≡ parsed a) × (rest a ≡ parsed b)
>>=-eq-parsed (parsed x) rest h = (x, refl, h)
>>=-eq-parsed (parse_error e) rest h = cc
>>=-eq-parsed out_of_fuel rest h = cc

pub >>=-ne-out_of_fuel {ℓ κ} :
    {A : Type ℓ} {B : Type κ} (step : Parsed A) (rest : A → Parsed B)
    → step ≢ out_of_fuel
    → ((a : A) → step ≡ parsed a → rest a ≢ out_of_fuel)
    → (step >>= rest) ≢ out_of_fuel
>>=-ne-out_of_fuel (parsed x) rest h k = k x refl
>>=-ne-out_of_fuel (parse_error e) rest h k = λ p. cc
>>=-ne-out_of_fuel out_of_fuel rest h k = absurd (h refl)

take-drop {ℓ} : {A : Type ℓ} (n : ℕ) (xs : List A) → take n xs ++ drop n xs ≡ xs
take-drop zero xs = refl
take-drop (suc n) [] = refl
take-drop (suc n) (x ∷ xs) = ap (λ t. x ∷ t) (take-drop n xs)

length-take {ℓ} : {A : Type ℓ} (n : ℕ) (xs : List A) → n ≤ length xs → length (take n xs) ≡ n
length-take zero xs h = refl
length-take (suc n) [] h = absurd (omega arith)
length-take (suc n) (x ∷ xs) h = omega (arith, length-take n xs (omega arith))

-- A range that was read stands in front of the rest, and is as long as it was to be.
pub get_range-IsFront :
    (n : ℕ) (rest : Bytes) (e : String) (front behind : Bytes)
    → get_range n rest e ≡ parsed (front, behind)
    → (rest ≡ front ++ behind) × (length front ≡ n)
unfolding get_range
get_range-IsFront n rest e front behind h =
    (ground (arith, take-drop n rest), ground (arith, length-take n rest))

pub get_range-append :
    (n : ℕ) (front behind : Bytes) (e : String)
    → length front ≡ n
    → get_range n (front ++ behind) e ≡ parsed (front, behind)
unfolding get_range
get_range-append n front behind e h =
    rw (← h) (
      ground
        (arith, take-append front behind, drop-append front behind, length-append front behind))

pub get_range-ne-out_of_fuel :
    (n : ℕ) (rest : Bytes) (e : String) → get_range n rest e ≢ out_of_fuel
unfolding get_range
get_range-ne-out_of_fuel n rest e h = ground arith

read_label-ne-out_of_fuel : (len : ℕ) (rest : Bytes) → read_label len rest ≢ out_of_fuel
unfolding read_label
read_label-ne-out_of_fuel len rest h =
    ground (arith, get_range-ne-out_of_fuel len rest "truncated label")

-- A name as both loops take it: labels up to the byte zero.
pub data IsName : Bytes → Type 0 where
  root_name : IsName (0 ∷ [])
  label :
      (len : ℕ)
      → (octets rest : Bytes) → length octets ≡ len
      → (len == 0) ≡ false
      → (bit_and len 0xC0 == 0) ≡ true
      → IsName rest
      → IsName (len ∷ octets ++ rest)

pub read_label-IsFront :
    (len : ℕ) (rest octets behind : Bytes)
    → read_label len rest ≡ parsed (octets, behind)
    → (rest ≡ octets ++ behind) × (length octets ≡ len) × ((bit_and len 0xC0 == 0) ≡ true)
unfolding read_label
read_label-IsFront len rest octets behind h =
    ground (arith, get_range-IsFront len rest "truncated label" octets behind)

-- The name that the loop has read stands in front of what it leaves.
pub read_name-IsName :
    (fuel : ℕ) (rest : Bytes) (labels found : List Text) (behind : Bytes)
    → read_name fuel rest labels ≡ parsed (found, behind)
    → (name : Bytes) × (rest ≡ name ++ behind) × IsName name
unfolding read_name
read_name-IsName zero rest labels found behind h = cc
read_name-IsName (suc fuel) [] labels found behind h = cc
read_name-IsName (suc fuel) (len ∷ rest) labels found behind h = elim (Bool-cases (len == 0)) [
  | inl e ↦ (0 ∷ [], ground arith, root_name)
  | inr e ↦
      let ((octets, rest'), got, h') = >>=-eq-parsed (read_label len rest) _ (rw e at h) in
      let (front, size, plain) = read_label-IsFront len rest octets rest' got in
      let (name, e', named) = read_name-IsName fuel rest' _ found behind h' in
      (
        len ∷ octets ++ name,
        ap (λ t. len ∷ t)
            (front ∙ ap (λ t. octets ++ t) e' ∙ sym (append_assoc octets name behind)),
        label len octets name size e plain named,
      )
]

-- The loop that skips a name passes the same bytes.
pub skip_name-IsName :
    {name : Bytes}
    → IsName name
    → (fuel : ℕ) (more : Bytes) → length name ≤ fuel
    → skip_name fuel (name ++ more) ≡ parsed more
unfolding skip_name
skip_name-IsName root_name zero more h = absurd (omega arith)
skip_name-IsName root_name (suc fuel) more h = refl
skip_name-IsName (label len octets rest size e q named) zero more h = absurd (omega arith)
skip_name-IsName (label len octets rest size e q named) (suc fuel) more h = ground (
  arith,
  skip_name-IsName named fuel more,
  append_assoc octets rest more,
  drop-append octets (rest ++ more),
  length-append octets rest,
)

pub skip-IsName : {name : Bytes} → IsName name → (more : Bytes) → skip (name ++ more) ≡ parsed more
skip-IsName {name} named more =
    skip_name-IsName named (suc (length (name ++ more))) more
      (omega (arith, length-append name more))

-- With a round for every byte the loops end.
pub read_name-ne-out_of_fuel :
    (fuel : ℕ) (rest : Bytes) (labels : List Text)
    → length rest < fuel
    → read_name fuel rest labels ≢ out_of_fuel
unfolding read_name
read_name-ne-out_of_fuel zero rest labels h = absurd (omega arith)
read_name-ne-out_of_fuel (suc fuel) [] labels h = λ e. cc
read_name-ne-out_of_fuel (suc fuel) (len ∷ rest) labels h = elim (Bool-cases (len == 0)) [
  | inl e ↦ λ p. ground arith
  | inr e ↦ rw e (
      >>=-ne-out_of_fuel (read_label len rest) _ (read_label-ne-out_of_fuel len rest) (λ p got.
        read_name-ne-out_of_fuel fuel p.1 _ (
          let (front, size, plain) = read_label-IsFront len rest p.0 p.1 got in
          omega (arith, ap length front, length-append p.0 p.1))))
]

pub skip_name-ne-out_of_fuel :
    (fuel : ℕ) (rest : Bytes) → length rest < fuel → skip_name fuel rest ≢ out_of_fuel
unfolding skip_name
skip_name-ne-out_of_fuel zero rest h = absurd (omega arith)
skip_name-ne-out_of_fuel (suc fuel) [] h = λ e. cc
skip_name-ne-out_of_fuel (suc fuel) (len ∷ rest) h =
    λ e. ground (arith, skip_name-ne-out_of_fuel fuel (drop len rest), length-drop len rest)
