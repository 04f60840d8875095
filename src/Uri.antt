-- ===== src/Uri.antt =====
-- crates/federate-uri/src/lib.rs: `fed://` addresses.
pub mod Body
pub mod Print
pub mod WellFormed
use federate.Base.{
  ℕ, Text, String, Bool, true, false, not, ◌&&◌, ◌||◌, Option, none, some, [], ◌∷◌, ◌++◌, ltb, ◌==◌,
  if◌then◌else◌, is_empty, trim, len, starts_with, contains, split_once, split_first, strip_prefix,
  codes, text_eq,
}
use federate.Core.{Result, ok, err, ◌>>=◌, ◌>>◌, not_federate_domain, guard}
use federate.Naming
use federate.Naming.{FederateDomain}

abbrev pub max_path_len : ℕ
max_path_len = 2048

pub record FederateUri : Type 0 where
  pub domain : FederateDomain
  pub path : Text
  pub query : Option Text

abbrev pub scheme : Text
scheme = codes "fed://"

-- `find(['/', '?', '#'])`: the authority, and the rest from the first of these on.
abbrev pub is_delimiter : ℕ → Bool
is_delimiter c = c == b'/' || c == b'?' || c == b'#'

unfoldable pub authority : Text → Text
authority [] = []
authority (c ∷ s) = let rest = c ∷ authority s in if is_delimiter c then [] else rest

unfoldable pub tail : Text → Text
tail [] = []
tail (c ∷ s) = let rest = tail s in if is_delimiter c then c ∷ s else rest

-- `(!q.is_empty()).then(|| q)`.
abbrev pub query_of : Text → Option Text
query_of [] = none
query_of (c ∷ q) = some (c ∷ q)

abbrev pub path_and_query : Text → Option (Text × Text) → Text × Option Text
path_and_query whole none = (whole, none)
path_and_query whole (some (p, q)) = (p, query_of q)

abbrev pub or_root : Text → Text
or_root [] = b'/' ∷ []
or_root (c ∷ p) = c ∷ p

unfoldable pub parse_rest : Text → Text → Result FederateUri
parse_rest s rest = do
  guard (not (is_empty rest)) (not_federate_domain s "missing domain")
  guard (not (contains b'@' (authority rest)))
      (not_federate_domain s "userinfo is not allowed in Federate URIs")
  guard (not (contains b':' (authority rest))) (
      not_federate_domain s "ports are not allowed; Federate names never carry transport addresses")
  domain ← Naming.parse (authority rest)
  let tail' = split_first b'#' (tail rest)
  let parts = path_and_query tail' (split_once b'?' tail')
  let path = or_root (parts.0)
  guard (starts_with b'/' path) (not_federate_domain s "path must be absolute")
  guard (not (ltb max_path_len (len path))) (not_federate_domain s "path too long")
  ok (record { domain = domain; path = path; query = parts.1 })

abbrev pub after_scheme : Text → Option Text → Result FederateUri
after_scheme s none = err (not_federate_domain s "must start with fed://")
after_scheme s (some rest) = parse_rest s rest

unfoldable pub parse : Text → Result FederateUri
parse input = let s = trim input in after_scheme s (strip_prefix scheme s)

unfoldable pub from_http : Text → Text → Result FederateUri
from_http host path_query = do
  domain ← Naming.parse host
  let parts = path_and_query path_query (split_once b'?' path_query)
  let path = or_root (parts.0)
  guard (starts_with b'/' path) (not_federate_domain path_query "path must be absolute")
  ok (record { domain = domain; path = path; query = parts.1 })

abbrev pub query_text : Option Text → Text
query_text none = []
query_text (some q) = b'?' ∷ q

-- `Display::fmt`.
unfoldable pub to_string : FederateUri → Text
to_string u =
    scheme
    ++ (Naming.fqdn u.domain
        ++ ((if text_eq u.path (b'/' ∷ []) then [] else u.path) ++ query_text u.query))
