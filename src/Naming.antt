-- ===== src/Naming.antt =====
-- crates/federate-naming/src/lib.rs: statuses, naming rules and the parser of domains. The type of
-- domain records stands in Naming/Record.antt, their signatures in Signing/Domains.antt.
pub mod Canonical
pub mod Parse
pub mod Expiry
pub mod Record
use federate.Base.{
  ℕ, Text, String, Bool, true, false, not, ◌&&◌, ◌||◌, Option, none, some, List, [], ◌∷◌, ◌++◌, ltb,
  leb, ◌==◌, if◌then◌else◌, all, is_empty, is_ascii_lowercase, is_ascii_digit, to_ascii_lowercase,
  trim_start_matches, trim, len, starts_with, ends_with, contains, split_once, split_first, ◌+◌,
  ltb_ℤ, leb_ℤ, ℤ, ◌<◌,
}
use federate.Core.{
  FederateError, Result, ok, err, ◌>>=◌, ◌>>◌, not_federate_domain, invalid_tld_name, guard,
}

pub data TldStatus : Type 0 where
  official delegated reserved blocked disabled pending expired revoked : TldStatus

pub data TldMode : Type 0 where
  official delegated reserved blocked : TldMode

pub data RegistryType : Type 0 where
  root_managed delegated_manifest delegated_native delegated_http offline_manual : RegistryType

pub data DomainStatus : Type 0 where
  active reserved pending suspended expired revoked transferred : DomainStatus

pub data TargetType : Type 0 where
  manifest service node redirect placeholder : TargetType

unfoldable pub is_resolvable_tld : TldStatus → Bool
is_resolvable_tld TldStatus.official = true
is_resolvable_tld TldStatus.delegated = true
is_resolvable_tld _ = false

unfoldable pub is_resolvable_domain : DomainStatus → Bool
is_resolvable_domain DomainStatus.active = true
is_resolvable_domain _ = false

unfoldable pub tld_status_str : TldStatus → String
tld_status_str TldStatus.official = "official"
tld_status_str TldStatus.delegated = "delegated"
tld_status_str TldStatus.reserved = "reserved"
tld_status_str TldStatus.blocked = "blocked"
tld_status_str TldStatus.disabled = "disabled"
tld_status_str TldStatus.pending = "pending"
tld_status_str TldStatus.expired = "expired"
tld_status_str TldStatus.revoked = "revoked"

unfoldable pub domain_status_str : DomainStatus → String
domain_status_str DomainStatus.active = "active"
domain_status_str DomainStatus.reserved = "reserved"
domain_status_str DomainStatus.pending = "pending"
domain_status_str DomainStatus.suspended = "suspended"
domain_status_str DomainStatus.expired = "expired"
domain_status_str DomainStatus.revoked = "revoked"
domain_status_str DomainStatus.transferred = "transferred"

abbrev pub is_dot : ℕ → Bool
is_dot c = c == b'.'

unfoldable pub validate_tld_name : Text → Result Text
validate_tld_name input =
    let tld = to_ascii_lowercase (trim_start_matches is_dot (trim input)) in
    if ltb (len tld) 2 || ltb 32 (len tld)
    then err (invalid_tld_name input "length must be 2-32 characters")
    else if not (all is_ascii_lowercase tld)
    then err (invalid_tld_name input "only lowercase ASCII letters a-z are allowed")
    else ok tld

abbrev pub is_label_char : ℕ → Bool
is_label_char c = is_ascii_lowercase c || is_ascii_digit c || c == b'-'

unfoldable pub validate_label : Text → Result Text
validate_label input =
    let label = to_ascii_lowercase (trim input) in
    if is_empty label || ltb 63 (len label)
    then err (not_federate_domain input "length must be 1-63 characters")
    else if not (all is_label_char label)
    then err (not_federate_domain input "only a-z, 0-9 and hyphen are allowed")
    else if starts_with b'-' label || ends_with b'-' label
    then err (not_federate_domain input "hyphen not allowed at start or end")
    else ok label

pub record FederateDomain : Type 0 where
  pub name : Text
  pub tld : Text

-- The part of `FederateDomain::parse` behind the split at the first dot.
unfoldable pub parse_parts : Text → Option (Text × Text) → Result FederateDomain
parse_parts host none = err (not_federate_domain host "")
parse_parts host (some (name, tld)) =
    if contains b'.' tld
    then err (not_federate_domain host "subdomains are not supported yet")
    else do
      name' ← validate_label name
      tld' ← validate_tld_name tld
      ok (record { name = name'; tld = tld' })

-- `splitn(2, '.')` has a second part exactly if there is a dot.
unfoldable pub parse : Text → Result FederateDomain
unfolding parse_parts
parse host =
    let host' = to_ascii_lowercase (split_first b':' host) in
    parse_parts host' (split_once b'.' host')

unfoldable pub fqdn : FederateDomain → Text
fqdn d = d.name ++ b'.' ∷ d.tld
