-- ===== src/Uri/Body.antt =====
-- Well-formed addresses, and what the parser sees in the print of one.
use federate.Base.{
  ℕ, Text, Bool, true, false, not, Option, none, some, [], ◌∷◌, ◌++◌, if◌then◌else◌, is_empty, trim,
  trim_start_matches, trim_end_matches, is_whitespace, len, starts_with, split_once, strip_prefix,
  text_eq, text_eq_iff, all, Lacks, ◌≡◌, refl, arith, ◌≤◌, Bool-cases, inl, inr, append-nil, sym,
}
use federate.Naming
use federate.Naming.{FederateDomain, is_label_char}
use federate.Naming.Canonical.{IsPlain, Tld-IsPlain}
use federate.Naming.Parse.{IsCanonical, split_once-append, Lacks-append}
use federate.Uri.{
  FederateUri, max_path_len, scheme, is_delimiter, authority, tail, query_of, path_and_query,
  or_root, query_text, to_string,
}

abbrev pub HasQuery : Option Text → Type 0
HasQuery none = Unit
HasQuery (some q) = (is_empty q ≡ false) × Lacks b'#' q

pub record IsWellFormed (u : FederateUri) : Type 0 where
  pub domain : IsCanonical u.domain
  pub rooted : starts_with b'/' u.path ≡ true
  pub short : len u.path ≤ max_path_len
  pub no_query : Lacks b'?' u.path
  pub no_fragment : Lacks b'#' u.path
  pub query : HasQuery u.query

-- What is printed behind the domain.
abbrev pub body : FederateUri → Text
body u = (if text_eq u.path (b'/' ∷ []) then [] else u.path) ++ query_text u.query

abbrev pub is_solid : ℕ → Bool
is_solid c = not (is_whitespace c)

trim_end-solid :
    (s t : Text)
    → all is_solid s ≡ true
    → trim_end_matches is_whitespace t ≡ t
    → trim_end_matches is_whitespace (s ++ t) ≡ s ++ t
unfolding trim_end_matches
trim_end-solid [] t h ht = ht
trim_end-solid (c ∷ []) [] h ht = ground arith
trim_end-solid (c ∷ []) (d ∷ t) h ht = rw ht
trim_end-solid (c ∷ d ∷ s) t h ht = rw (trim_end-solid (d ∷ s) t (ground arith) ht)

-- A test that all letters of labels pass, on a text that begins with such letters.
plain-all :
    (q : ℕ → Bool) (s t : Text)
    → ((c : ℕ) → is_label_char c ≡ true → q c ≡ true)
    → IsPlain s
    → all q t ≡ true
    → all q (s ++ t) ≡ true
plain-all q [] t f h ht = ht
plain-all q (c ∷ s) t f h ht = ground (arith, f c, plain-all q s t f (ground arith) ht)

fqdn-all :
    (q : ℕ → Bool) (d : FederateDomain)
    → ((c : ℕ) → is_label_char c ≡ true → q c ≡ true)
    → q b'.' ≡ true
    → IsCanonical d
    → all q (Naming.fqdn d) ≡ true
unfolding Naming.fqdn
fqdn-all q d f dot c =
    let tld : all q d.tld ≡ true =
      rw (← append-nil d.tld) (plain-all q d.tld [] f (Tld-IsPlain d.tld c.tld.lowercase) refl) in
    plain-all q d.name (b'.' ∷ d.tld) f c.label.plain (ground arith)

fqdn-solid : (d : FederateDomain) → IsCanonical d → all is_solid (Naming.fqdn d) ≡ true
unfolding is_whitespace
fqdn-solid d c = fqdn-all is_solid d (λ x h. ground arith) refl c

scheme-solid : all is_solid scheme ≡ true
unfolding is_whitespace
scheme-solid = refl

trim_start-scheme : (t : Text) → trim_start_matches is_whitespace (scheme ++ t) ≡ scheme ++ t
unfolding trim_start_matches is_whitespace
trim_start-scheme t = refl

pub strip_prefix-scheme : (t : Text) → strip_prefix scheme (scheme ++ t) ≡ some t
unfolding strip_prefix
strip_prefix-scheme t = refl

pub trim-to_string :
    (u : FederateUri)
    → IsCanonical u.domain
    → trim_end_matches is_whitespace (body u) ≡ body u
    → trim (to_string u) ≡ to_string u
unfolding trim to_string
trim-to_string u c h = rw trim_start-scheme (
    trim_end-solid scheme _ scheme-solid
      (trim_end-solid (Naming.fqdn u.domain) (body u) (fqdn-solid u.domain c) h))

-- Where the authority ends.
abbrev pub starts_delimiter : Text → Bool
starts_delimiter [] = true
starts_delimiter (c ∷ s) = is_delimiter c

abbrev pub no_delimiter : ℕ → Bool
no_delimiter c = not (is_delimiter c)

pub authority-append :
    (s t : Text)
    → all no_delimiter s ≡ true
    → starts_delimiter t ≡ true
    → (authority (s ++ t) ≡ s) × (tail (s ++ t) ≡ t)
unfolding authority tail
authority-append [] [] h ht = (refl, refl)
authority-append [] (c ∷ t) h ht = (ground arith, ground arith)
authority-append (c ∷ s) t h ht =
    let (p, q) = authority-append s t (ground arith) ht in (ground arith, ground arith)

pub fqdn-no_delimiter :
    (d : FederateDomain) → IsCanonical d → all no_delimiter (Naming.fqdn d) ≡ true
fqdn-no_delimiter d c = fqdn-all no_delimiter d (λ x h. ground arith) refl c

query_text-starts : (q : Option Text) → starts_delimiter (query_text q) ≡ true
query_text-starts none = refl
query_text-starts (some q) = refl

path-starts :
    (p : Text) (q : Option Text)
    → starts_with b'/' p ≡ true
    → starts_delimiter (p ++ query_text q) ≡ true
path-starts [] q h = cc
path-starts (c ∷ p) q h = ground arith

pub body-starts : (u : FederateUri) → IsWellFormed u → starts_delimiter (body u) ≡ true
body-starts u w = elim (Bool-cases (text_eq u.path (b'/' ∷ []))) [
  | inl e ↦ rw e (query_text-starts u.query)
  | inr e ↦ rw e (path-starts u.path u.query w.rooted)
]

query_text-Lacks : (q : Option Text) → HasQuery q → Lacks b'#' (query_text q)
query_text-Lacks none h = tt
query_text-Lacks (some q) h = (refl, h.1)

pub body-Lacks : (u : FederateUri) → IsWellFormed u → Lacks b'#' (body u)
body-Lacks u w = elim (Bool-cases (text_eq u.path (b'/' ∷ []))) [
  | inl e ↦ rw e (query_text-Lacks u.query w.query)
  | inr e ↦ rw e (
      Lacks-append b'#' u.path (query_text u.query) w.no_fragment
        (query_text-Lacks u.query w.query))
]

split_once-Lacks : (x : ℕ) (s : Text) → Lacks x s → split_once x s ≡ none
unfolding split_once
split_once-Lacks x [] h = refl
split_once-Lacks x (c ∷ s) (hc, hs) = rw (split_once-Lacks x s hs) (ground arith)

query_of-some : (q : Text) → is_empty q ≡ false → query_of q ≡ some q
query_of-some [] h = cc
query_of-some (c ∷ q) h = refl

split-query :
    (p : Text) (q : Option Text)
    → Lacks b'?' p
    → HasQuery q
    → path_and_query (p ++ query_text q) (split_once b'?' (p ++ query_text q)) ≡ (p, q)
split-query p none hp hq = rw (append-nil p, split_once-Lacks b'?' p hp)
split-query p (some q) hp hq = rw (split_once-append b'?' p q hp, query_of-some q hq.0)

-- The path and the query that the parser reads from the body are those that were printed.
or_root-rooted : (p : Text) → starts_with b'/' p ≡ true → or_root p ≡ p
or_root-rooted [] h = cc
or_root-rooted (c ∷ p) h = refl

pub body-parts :
    (u : FederateUri)
    → IsWellFormed u
    → (or_root (path_and_query (body u) (split_once b'?' (body u))).0 ≡ u.path)
      × ((path_and_query (body u) (split_once b'?' (body u))).1 ≡ u.query)
body-parts u w = elim (Bool-cases (text_eq u.path (b'/' ∷ []))) [
  | inl e ↦
      let root = (text_eq_iff u.path (b'/' ∷ [])).0 e in
      rw (e, split-query [] u.query tt w.query) (sym root, refl)
  | inr e ↦
      rw (e, split-query u.path u.query w.no_query w.query) (or_root-rooted u.path w.rooted, refl)
]
