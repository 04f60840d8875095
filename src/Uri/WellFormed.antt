-- ===== src/Uri/WellFormed.antt =====
-- The parser returns well-formed addresses only.
use federate.Base.{
  ℕ, Text, true, false, Option, none, some, [], ◌∷◌, ◌==◌, len, starts_with, split_once,
  split_first, Lacks, ◌≡◌, ◌≤◌, refl, arith, Bool-cases, Option-cases, inl, inr, sym, subst,
}
use federate.Core.{ok}
use federate.Naming
use federate.Naming.Parse.{parse-IsCanonical}
use federate.Uri.{
  FederateUri, max_path_len, authority, tail, query_of, path_and_query, or_root, parse_rest,
  after_scheme, parse,
}
use federate.Uri.Body.{HasQuery, IsWellFormed}

-- The text that holds the path and the query.
abbrev hierarchical : Text → Text
hierarchical rest = split_first b'#' (tail rest)

abbrev parts : Text → Text × Option Text
parts t = path_and_query t (split_once b'?' t)

-- What a successful parse has checked and read.
record Fields (rest : Text) (u : FederateUri) : Type 0 where
  domain : Naming.parse (authority rest) ≡ ok u.domain
  path : u.path ≡ or_root (parts (hierarchical rest)).0
  query : u.query ≡ (parts (hierarchical rest)).1
  rooted : starts_with b'/' u.path ≡ true
  short : len u.path ≤ max_path_len

parse_rest-Fields : (s rest : Text) (u : FederateUri) → parse_rest s rest ≡ ok u → Fields rest u
unfolding parse_rest
parse_rest-Fields s rest u h = ground arith

split_first-clean : (x : ℕ) (s : Text) → Lacks x (split_first x s)
unfolding split_first
split_first-clean x [] = tt
split_first-clean x (c ∷ s) = elim (Bool-cases (c == x)) [
  | inl e ↦ rw e tt
  | inr e ↦ rw e (e, split_first-clean x s)
]

record Halves (x y : ℕ) (p q : Text) : Type 0 where
  first : Lacks x p
  first_clean : Lacks y p
  second_clean : Lacks y q

split_once-Halves :
    (x y : ℕ) (s p q : Text) → split_once x s ≡ some (p, q) → Lacks y s → Halves x y p q
unfolding split_once
split_once-Halves x y [] p q h l = cc
split_once-Halves x y (c ∷ s) p q h (lc, ls) = elim (Bool-cases (c == x)) [
  | inl e ↦
      let nil : [] ≡ p = ground arith in
      let rest : s ≡ q = ground arith in
      record {
        first = subst (Lacks x) nil tt;
        first_clean = subst (Lacks y) nil tt;
        second_clean = subst (Lacks y) rest ls;
      }
  | inr e ↦ elim (Option-cases (split_once x s)) [
    | inl n ↦ absurd (ground arith)
    | inr ((a, b), m) ↦
        let ih = split_once-Halves x y s a b m ls in
        let pa : (c ∷ a) ≡ p = ground arith in
        let qb : b ≡ q = ground arith in
        record {
          first = subst (Lacks x) pa (e, ih.first);
          first_clean = subst (Lacks y) pa (lc, ih.first_clean);
          second_clean = subst (Lacks y) qb ih.second_clean;
        }
  ]
]

split_once-none : (x : ℕ) (s : Text) → split_once x s ≡ none → Lacks x s
unfolding split_once
split_once-none x [] h = tt
split_once-none x (c ∷ s) h = (ground arith, split_once-none x s (ground arith))

query_of-HasQuery : (q : Text) → Lacks b'#' q → HasQuery (query_of q)
query_of-HasQuery [] h = tt
query_of-HasQuery (c ∷ q) h = (refl, h)

record Clean (r : Text × Option Text) : Type 0 where
  path : Lacks b'?' r.0
  path' : Lacks b'#' r.0
  query : HasQuery r.1

parts-Clean : (t : Text) → Lacks b'#' t → Clean (parts t)
parts-Clean t l = elim (Option-cases (split_once b'?' t)) [
  | inl n ↦ rw n (record { path = split_once-none b'?' t n; path' = l; query = tt })
  | inr ((p, q), m) ↦
      let h = split_once-Halves b'?' b'#' t p q m l in
      rw m (record {
        path = h.first;
        path' = h.first_clean;
        query = query_of-HasQuery q h.second_clean;
      })
]

or_root-Lacks : (x : ℕ) (p : Text) → (b'/' == x) ≡ false → Lacks x p → Lacks x (or_root p)
or_root-Lacks x [] e h = (e, tt)
or_root-Lacks x (c ∷ p) e h = h

Fields-IsWellFormed : (rest : Text) (u : FederateUri) → Fields rest u → IsWellFormed u
Fields-IsWellFormed rest u f =
    let c = parts-Clean (hierarchical rest) (split_first-clean b'#' (tail rest)) in
    record {
      domain = parse-IsCanonical (authority rest) f.domain;
      rooted = f.rooted;
      short = f.short;
      no_query = subst (Lacks b'?') (sym f.path) (or_root-Lacks b'?' _ refl c.path);
      no_fragment = subst (Lacks b'#') (sym f.path) (or_root-Lacks b'#' _ refl c.path');
      query = subst HasQuery (sym f.query) c.query;
    }

after_scheme-IsWellFormed :
    (s : Text) (o : Option Text) (u : FederateUri) → after_scheme s o ≡ ok u → IsWellFormed u
after_scheme-IsWellFormed s none u h = cc
after_scheme-IsWellFormed s (some rest) u h =
    Fields-IsWellFormed rest u (parse_rest-Fields s rest u h)

-- An accepted address has a canonical domain, an absolute path of at most 2048 bytes with no `?`
-- and no `#`, and a query, if any, that is not empty and has no `#`.
pub parse-IsWellFormed : (input : Text) (u : FederateUri) → parse input ≡ ok u → IsWellFormed u
unfolding parse
parse-IsWellFormed input u h = after_scheme-IsWellFormed _ _ u h
