-- ===== src/Root/Blocklists.antt =====
-- The blocklists of crates/federate-root/src/lib.rs.
use federate.Base.{
  Text, String, Bool, false, not, ◌&&◌, Option, none, some, List, [], ◌∷◌, text_eq, is_empty,
  if◌then◌else◌, trim, trim_start_matches, to_ascii_lowercase, starts_with, ◌||◌,
}
use federate.Core.{Result, ok, err, ◌>>=◌, reserved_tld, blocked_tld}
use federate.Naming.{validate_tld_name, is_dot}

pub data BlockReason : Type 0 where
  public_iana reserved policy brand_safety : BlockReason

unfoldable pub describe : BlockReason → String
describe BlockReason.public_iana =
    "it is a public IANA/ICANN TLD (blocked_tlds.txt); Federate never collides with the normal internet"
describe BlockReason.reserved =
    "it is reserved for Federate infrastructure, governance, safety, or future use"
describe BlockReason.policy = "it is blocked by Federate policy"
describe BlockReason.brand_safety = "it is blocked for brand/safety reasons"

-- `HashSet<String>`, of which only membership is read.
abbrev pub HashSet : Type 0
HashSet = List Text

unfoldable pub is_member : Text → HashSet → Bool
is_member x [] = false
is_member x (y ∷ s) = text_eq y x || is_member x s

pub record Blocklists : Type 0 where
  pub iana : HashSet
  pub reserved : HashSet
  pub policy : HashSet
  pub brand_safety : HashSet

abbrev pub normalize_line : Text → Text
normalize_line l = to_ascii_lowercase (trim_start_matches is_dot (trim l))

abbrev pub keeps_line : Text → Bool
keeps_line l = not (is_empty l) && not (starts_with b'#' l)

-- `load_list`, from the lines of the file.
unfoldable pub load_list : List Text → HashSet
load_list [] = []
load_list (l ∷ ls) =
    let rest = load_list ls in
    if keeps_line (normalize_line l) then normalize_line l ∷ rest else rest

unfoldable pub check : Blocklists → Text → Option BlockReason
check b tld =
    if is_member tld b.iana
    then some BlockReason.public_iana
    else if is_member tld b.reserved
    then some BlockReason.reserved
    else if is_member tld b.policy
    then some BlockReason.policy
    else if is_member tld b.brand_safety
    then some BlockReason.brand_safety
    else none

unfoldable pub admit : Bool → Text → Option BlockReason → Result Text
unfolding describe
admit allow_reserved tld none = ok tld
admit allow_reserved tld (some BlockReason.reserved) =
    if allow_reserved then ok tld else err (reserved_tld tld (describe BlockReason.reserved))
admit allow_reserved tld (some reason) = err (blocked_tld tld (describe reason))

unfoldable pub validate_new_tld : Blocklists → Text → Bool → Result Text
unfolding check admit
validate_new_tld b input allow_reserved = do
  tld ← validate_tld_name input
  admit allow_reserved tld (check b tld)
