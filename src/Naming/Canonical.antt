-- ===== src/Naming/Canonical.antt =====
-- Canonical labels and TLD names: what the two validators return, and what they leave alone.
use federate.Base.{
  ℕ, Text, true, false, [], ◌∷◌, all, is_empty, is_ascii_lowercase, to_ascii_lowercase,
  trim_start_matches, trim_end_matches, trim, is_whitespace, to_lower, len, starts_with, ends_with,
  ◌≤◌, ◌≡◌, refl, arith,
}
use federate.Core.{ok}
use federate.Naming.{validate_tld_name, validate_label, is_label_char, is_dot}

-- Text over the letters of labels is its own normal form.
abbrev pub IsPlain : Text → Type 0
IsPlain s = all is_label_char s ≡ true

plain_not_whitespace : (c : ℕ) → is_label_char c ≡ true → is_whitespace c ≡ false
unfolding is_whitespace
plain_not_whitespace c h = ground arith

plain_to_lower : (c : ℕ) → is_label_char c ≡ true → to_lower c ≡ c
plain_to_lower c h = ground arith

trim_start-plain : (s : Text) → IsPlain s → trim_start_matches is_whitespace s ≡ s
unfolding trim_start_matches
trim_start-plain [] h = refl
trim_start-plain (c ∷ s) h = ground (arith, plain_not_whitespace c)

trim_end-plain : (s : Text) → IsPlain s → trim_end_matches is_whitespace s ≡ s
unfolding trim_end_matches
trim_end-plain [] h = refl
trim_end-plain (c ∷ []) h = ground (arith, plain_not_whitespace c)
trim_end-plain (c ∷ d ∷ s) h = rw (trim_end-plain (d ∷ s) (ground arith))

pub trim-plain : (s : Text) → IsPlain s → trim s ≡ s
unfolding trim
trim-plain s h = rw (trim_start-plain s h) (trim_end-plain s h)

pub lower-plain : (s : Text) → IsPlain s → to_ascii_lowercase s ≡ s
unfolding to_ascii_lowercase
lower-plain [] h = refl
lower-plain (c ∷ s) h = ground (arith, plain_to_lower c, lower-plain s)

-- A canonical label, and a canonical TLD name.
pub record IsLabel (s : Text) : Type 0 where
  pub plain : IsPlain s
  pub nonempty : is_empty s ≡ false
  pub short : len s ≤ 63
  pub no_hyphen_first : starts_with b'-' s ≡ false
  pub no_hyphen_last : ends_with b'-' s ≡ false

pub record IsTld (s : Text) : Type 0 where
  pub lowercase : all is_ascii_lowercase s ≡ true
  pub long : 2 ≤ len s
  pub short : len s ≤ 32

pub Tld-IsPlain : (s : Text) → all is_ascii_lowercase s ≡ true → IsPlain s
Tld-IsPlain [] h = refl
Tld-IsPlain (c ∷ s) h = ground (arith, Tld-IsPlain s)

pub validate_label-IsLabel : (s t : Text) → validate_label s ≡ ok t → IsLabel t
unfolding validate_label
validate_label-IsLabel s t h = ground arith

pub validate_tld_name-IsTld : (s t : Text) → validate_tld_name s ≡ ok t → IsTld t
unfolding validate_tld_name
validate_tld_name-IsTld s t h = ground arith

pub validate_label_canonical : (s : Text) → IsLabel s → validate_label s ≡ ok s
unfolding validate_label
validate_label_canonical s h = rw (trim-plain s h.plain, lower-plain s h.plain) (ground arith)

no_leading_dot : (s : Text) → all is_ascii_lowercase s ≡ true → trim_start_matches is_dot s ≡ s
unfolding trim_start_matches
no_leading_dot [] h = refl
no_leading_dot (c ∷ s) h = ground arith

pub validate_tld_name_canonical : (s : Text) → IsTld s → validate_tld_name s ≡ ok s
unfolding validate_tld_name
validate_tld_name_canonical s h =
    rw
      (
        trim-plain s (Tld-IsPlain s h.lowercase),
        no_leading_dot s h.lowercase,
        lower-plain s (Tld-IsPlain s h.lowercase),
      )
      (ground arith)
