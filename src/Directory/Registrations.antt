-- ===== src/Directory/Registrations.antt =====
-- Signed registrations and announcements of crates/federate-directory/src/lib.rs.
use federate.Base.{
  ℕ, Text, Bytes, String, Bool, true, false, not, ◌||◌, Option, none, some, List, [], ◌∷◌, codes,
  text_eq, is_empty, trim_start_matches, trim_end_matches, length, ◌==◌, if◌then◌else◌,
}
use federate.Core.{Result, ok, ◌>>=◌, ◌>>◌, FederateError, guard, verification_failed}
use federate.Core.Json.{Value}
use federate.Host.{Host}
use federate.Identity.{NodeIdentity, node_id, canonical_bytes, check_signature, sign}
use federate.Store.Actions.Domains.{ok_or}
use federate.Directory.{NodeRegistration, NodeRole, Addresses, ips}

pub record BlockAnnounce : Type 0 where
  pub announcer : Text
  pub blocks : List Text
  pub announced_at : Text
  pub signature : Option Text

-- `derive(Serialize)` of the two documents.
pub record DirectorySerde : Type 0 where
  pub registration_value : NodeRegistration → Result Value
  pub announce_value : BlockAnnounce → Result Value

-- `split(c).next()`: the text before the first `c`.
unfoldable pub before_char : ℕ → Text → Text
before_char c [] = []
before_char c (d ∷ s) = if d == c then [] else d ∷ before_char c s

unfoldable pub strip_prefix : Text → Text → Option Text
strip_prefix [] s = some s
strip_prefix (c ∷ p) [] = none
strip_prefix (c ∷ p) (d ∷ s) = let rest = strip_prefix p s in if c == d then rest else none

abbrev pub first_some : Option Text → Option Text → Option Text
first_some none o = o
first_some (some t) o = some t

-- `[ipv6]:port`, or `host:port`, or `host`.
unfoldable pub authority_host : Text → Text
unfolding before_char
authority_host [] = []
authority_host (c ∷ s) = if c == b'[' then before_char b']' s else before_char b':' (c ∷ s)

abbrev pub non_empty : Text → Option Text
non_empty s = if is_empty s then none else some s

abbrev pub host_of : Option Text → Option Text
host_of none = none
host_of (some rest) =
    let authority = before_char b'/' rest in
    if is_empty authority then none else non_empty (authority_host authority)

unfoldable pub health_endpoint_host : Text → Option Text
unfolding before_char strip_prefix authority_host
health_endpoint_host endpoint = host_of (
    first_some (strip_prefix (codes "http://") endpoint) (strip_prefix (codes "https://") endpoint))

abbrev pub is_bracket : ℕ → Bool
is_bracket c = c == b'[' || c == b']'

-- One of the declared addresses, without brackets, is the host.
unfoldable pub any_ip : Text → List Text → Bool
any_ip host [] = false
any_ip host (ip ∷ rest) =
    text_eq (trim_end_matches is_bracket (trim_start_matches is_bracket ip)) host
    || any_ip host rest

abbrev pub no_roles : List NodeRole → Bool
no_roles [] = true
no_roles (r ∷ rs) = false

abbrev pub none_declared : List Text → Bool
none_declared [] = true
none_declared (t ∷ ts) = false

abbrev pub fail : NodeRegistration → String → FederateError
fail r reason = verification_failed "node-registration" r.node_id reason

module _ (h : Host) (docs : DirectorySerde) where
  unfoldable pub signable_bytes : NodeRegistration → Result Bytes
  signable_bytes r = canonical_bytes h (docs.registration_value (record r { signature = none }))

  unfoldable pub verify : Addresses → NodeRegistration → Result (Unit {0})
  verify addresses r = do
    guard (text_eq r.node_id r.public_key) (fail r "node_id must equal the node public key")
    guard (not (no_roles r.roles)) (fail r "registration lists no roles")
    check_signature h r.public_key (signable_bytes r) r.signature
        (fail r "registration is unsigned") (fail r "registration signature invalid")
    guard
        (not (
          none_declared r.public_ips
          || not (length (ips addresses r.public_ips) == length r.public_ips)))
        (fail r "public_ips must all be valid IP addresses")
    host ←
        ok_or (health_endpoint_host r.health_endpoint)
          (fail r "health_endpoint must be an http(s) URL")
    guard (any_ip host r.public_ips)
        (fail r "health_endpoint host must be one of the node's declared public_ips")

  unfoldable pub announce_bytes : BlockAnnounce → Result Bytes
  announce_bytes a = canonical_bytes h (docs.announce_value (record a { signature = none }))

  unfoldable pub verify_announce : BlockAnnounce → Result (Unit {0})
  verify_announce a =
      check_signature h a.announcer (announce_bytes a) a.signature
        (verification_failed "block-announce" a.announcer "unsigned announcement")
        (verification_failed "block-announce" a.announcer "announcement signature invalid")

  unfoldable pub signed_announce : NodeIdentity → Text → List Text → Result BlockAnnounce
  signed_announce i now blocks = do
    let a : BlockAnnounce = record {
      announcer = node_id h i;
      blocks = blocks;
      announced_at = now;
      signature = none;
    }
    b ← announce_bytes a
    ok (record a { signature = some (sign h i b) })
