-- ===== src/Manifest.antt =====
-- crates/federate-manifest/src/lib.rs: manifests and the mapping of paths to files.
pub mod Resolved
use federate.Base.{
  ℕ, Text, String, Bool, true, false, not, ◌&&◌, Option, none, some, List, [], ◌∷◌, ◌++◌, BTreeMap,
  get, contains_key, is_empty, if◌then◌else◌, trim_start_matches, ends_with, ◌==◌, codes, ◌||◌,
}
use federate.Core.{Result, ok, err, ◌>>=◌, ◌>>◌, guard, invalid_root, path_not_found}

pub record Manifest : Type 0 where
  pub domain : Text
  pub version : ℕ
  pub entry : Text
  pub files : BTreeMap Text
  pub owner_public_key : Text
  pub created_at : Text
  pub signature_algorithm : Text
  pub signature : Option Text

unfoldable pub validate : Manifest → Result (Unit {0})
validate m = do
  guard (not (is_empty m.domain || is_empty m.entry)) (invalid_root "invalid manifest")
  guard (contains_key m.entry m.files) (path_not_found m.entry)

abbrev pub is_slash : ℕ → Bool
is_slash c = c == b'/'

unfoldable pub candidates : Manifest → Text → List Text
candidates m path =
    let trimmed = trim_start_matches is_slash path in
    if is_empty trimmed
    then m.entry ∷ []
    else if ends_with b'/' trimmed
    then (trimmed ++ codes "index.html") ∷ []
    else trimmed ∷ (trimmed ++ codes "/index.html") ∷ []

abbrev pub found : Text → Option Text → Option (Text × Text) → Option (Text × Text)
found c none rest = rest
found c (some h) rest = some (c, h)

unfoldable pub find_file : BTreeMap Text → List Text → Option (Text × Text)
find_file files [] = none
find_file files (c ∷ cs) = let rest = find_file files cs in found c (get c files) rest

unfoldable pub resolve_path : Manifest → Text → Option (Text × Text)
unfolding candidates find_file
resolve_path m path = find_file m.files (candidates m path)
