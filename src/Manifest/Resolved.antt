-- ===== src/Manifest/Resolved.antt =====
-- The file that a path is mapped to.
use federate.Base.{
  ℕ, ◌==◌, ==_iff, ◌≢◌, ◌⊎◌, sym, ◌∙◌, subst, false≢true, Bool-cases, codes, ends_with,
  append_assoc, append-nil, Text, Option, none, some, List, [], ◌∷◌, ◌++◌, BTreeMap, get, All,
  trim_start_matches, ◌≡◌, refl, ap, arith, Option-cases, inl, inr,
}
use federate.Core.{ok}
use federate.Manifest.{Manifest, validate, candidates, find_file, resolve_path, found, is_slash}

abbrev pub IsAbsent : BTreeMap Text → Text → Type 0
IsAbsent files c = get c files ≡ none

-- The first of the candidates that the manifest has, with its hash, or none if it has none of them.
abbrev pub IsFirst : BTreeMap Text → List Text → Option (Text × Text) → Type 0
IsFirst files cs none = All (IsAbsent files) cs
IsFirst files cs (some (c, hash)) =
    (before : List Text) × (after : List Text) × (cs ≡ before ++ c ∷ after)
    × All (IsAbsent files) before
    × (get c files ≡ some hash)

cons-IsFirst :
    (files : BTreeMap Text) (c : Text) (cs : List Text) (o : Option (Text × Text))
    → IsAbsent files c
    → IsFirst files cs o
    → IsFirst files (c ∷ cs) o
cons-IsFirst files c cs none absent h = (absent, h)
cons-IsFirst files c cs (some (d, hash)) absent (before, after, split, none_before, here) =
    (c ∷ before, after, ap (λ (t : List Text). c ∷ t) split, (absent, none_before), here)

found-IsFirst :
    (files : BTreeMap Text) (c : Text) (cs : List Text) (g : Option Text) (o : Option (Text × Text))
    → get c files ≡ g
    → IsFirst files cs o
    → IsFirst files (c ∷ cs) (found c g o)
found-IsFirst files c cs none o e h = cons-IsFirst files c cs o e h
found-IsFirst files c cs (some hash) o e h = ([], cs, refl, tt, e)

find_file-IsFirst : (files : BTreeMap Text) (cs : List Text) → IsFirst files cs (find_file files cs)
unfolding find_file
find_file-IsFirst files [] = tt
find_file-IsFirst files (c ∷ cs) =
    found-IsFirst files c cs (get c files) (find_file files cs) refl (find_file-IsFirst files cs)

-- The text does not start with a slash.
abbrev IsTrimmed : Text → Type 0
IsTrimmed [] = ⊥
IsTrimmed (c ∷ s) = c ≢ 47

-- The files that a path may stand for, in the order in which they are tried: the entry file for
-- slashes alone, the index of a directory for a path with a slash at its end, and else the file of that
-- name before the index of the directory of that name. Slashes at the start do not count.
pub data Tries (entry : Text) (path : Text) (tried : List Text) : Type 0 where
  only_slashes : All (λ c. c ≡ 47) path → tried ≡ entry ∷ [] → Tries entry path tried
  directory :
      (slashes name : Text)
      → All (λ c. c ≡ 47) slashes
      → path ≡ slashes ++ (name ++ 47 ∷ [])
      → IsTrimmed (name ++ 47 ∷ [])
      → tried ≡ (name ++ codes "/index.html") ∷ []
      → Tries entry path tried
  file :
      (slashes front : Text) (last : ℕ)
      → All (λ c. c ≡ 47) slashes
      → path ≡ slashes ++ (front ++ last ∷ [])
      → IsTrimmed (front ++ last ∷ [])
      → last ≢ 47
      → tried ≡ (front ++ last ∷ []) ∷ ((front ++ last ∷ []) ++ codes "/index.html") ∷ []
      → Tries entry path tried

-- What `trim_start_matches` cuts off.
record IsSplit (path : Text) : Type 0 where
  slashes : Text
  only : All (λ c. c ≡ 47) slashes
  whole : path ≡ slashes ++ trim_start_matches is_slash path
  rest : (trim_start_matches is_slash path ≡ []) ⊎ IsTrimmed (trim_start_matches is_slash path)

trim-IsSplit : (path : Text) → IsSplit path
unfolding trim_start_matches
trim-IsSplit [] = record { slashes = []; only = tt; whole = refl; rest = inl refl }
trim-IsSplit (c ∷ s) = elim (Bool-cases (is_slash c)) [
  | inl e ↦
      let r = trim-IsSplit s in
      record {
        slashes = c ∷ r.slashes;
        only = ((==_iff c 47).0 e, r.only);
        whole = rw e (ap (λ t. c ∷ t) r.whole);
        rest = rw e r.rest;
      }
  | inr e ↦ record {
    slashes = [];
    only = tt;
    whole = rw e refl;
    rest = rw e (inr (λ z. false≢true (sym e ∙ (==_iff c 47).1 z)));
  }
]

ends_with-last :
    (c : ℕ) (s : Text)
    → (front : Text) × (last : ℕ) × (c ∷ s ≡ front ++ last ∷ [])
      × (ends_with 47 (c ∷ s) ≡ (last == 47))
unfolding ends_with
ends_with-last c [] = ([], c, refl, refl)
ends_with-last c (d ∷ s) =
    let (front, last, e, q) = ends_with-last d s in (c ∷ front, last, ap (λ t. c ∷ t) e, q)

cons_nil : {c : ℕ} {s : Text} → c ∷ s ≡ [] → ⊥
cons_nil e = cc

candidates-Tries : (m : Manifest) (path : Text) → Tries m.entry path (candidates m path)
unfolding candidates
candidates-Tries m path = by_rest _ refl (trim-IsSplit path)
  where
    by_rest :
        (t : Text)
        → trim_start_matches is_slash path ≡ t
        → IsSplit path
        → Tries m.entry path (candidates m path)
    by_rest [] e r =
        Tries.only_slashes
          (subst (All (λ c. c ≡ 47))
            (sym (r.whole ∙ ap (λ t. r.slashes ++ t) e ∙ append-nil r.slashes)) r.only)
          (rw e refl)
    by_rest (c ∷ s) e r =
        let (front, last, shape, q) = ends_with-last c s in
        let trimmed : IsTrimmed (c ∷ s) = elim r.rest [
          | inl z ↦ absurd (cons_nil (sym e ∙ z))
          | inr z ↦ subst IsTrimmed e z
        ] in
        elim (Bool-cases (last == 47)) [
          | inl z ↦
              let end : c ∷ s ≡ front ++ 47 ∷ [] =
                shape ∙ ap (λ x. front ++ x ∷ []) ((==_iff last 47).0 z) in
              Tries.directory r.slashes front r.only (r.whole ∙ ap (λ t. r.slashes ++ t) (e ∙ end))
                (subst IsTrimmed end trimmed)
                (rw (e, q, z)
                  (ap (λ t. t ∷ [])
                    (ap (λ t. t ++ codes "index.html") end
                      ∙ append_assoc front (47 ∷ []) (codes "index.html"))))
          | inr z ↦
              Tries.file r.slashes front last r.only
                (r.whole ∙ ap (λ t. r.slashes ++ t) (e ∙ shape)) (subst IsTrimmed shape trimmed)
                (λ y. false≢true (sym z ∙ (==_iff last 47).1 y))
                (rw (e, q, z) (ap (λ t. t ∷ (t ++ codes "/index.html") ∷ []) shape))
        ]

-- Without the slashes at its start, a path stands for the entry file if nothing is left, for the
-- `index.html` of a directory if a slash is left at its end, and else for the file of that name and
-- then the `index.html` of the directory of that name. It is served by the first of these that the
-- manifest has, and by nothing if the manifest has none of them.
pub resolve_path-IsFirst :
    (m : Manifest) (path : Text)
    → (tried : List Text) × Tries m.entry path tried × IsFirst m.files tried (resolve_path m path)
unfolding resolve_path
resolve_path-IsFirst m path =
    (candidates m path, candidates-Tries m path, find_file-IsFirst m.files (candidates m path))

entry-present :
    (m : Manifest) → validate m ≡ ok tt → (hash : Text) × (get m.entry m.files ≡ some hash)
unfolding validate
entry-present m v = elim (Option-cases (get m.entry m.files)) [
  | inl none_there ↦ absurd (ground arith)
  | inr (hash, there) ↦ (hash, there)
]

-- In a manifest that is valid, every path of slashes alone is served by the entry file.
resolve_path-validate :
    (m : Manifest) (path : Text)
    → validate m ≡ ok tt
    → trim_start_matches is_slash path ≡ []
    → (hash : Text) × (resolve_path m path ≡ some (m.entry, hash))
      × (get m.entry m.files ≡ some hash)
unfolding resolve_path candidates find_file
resolve_path-validate m path v root =
    let (hash, there) = entry-present m v in (hash, rw root (rw there refl), there)
