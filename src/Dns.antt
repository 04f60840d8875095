-- ===== src/Dns.antt =====
-- crates/federate-dns: addresses, which the wire format and the server share. Dns/Wire is wire.rs,
-- Dns/Server is lib.rs.
pub mod Wire
pub mod Names
pub mod Questions
pub mod Answers
pub mod Server
pub mod Replies
pub mod Federated
pub mod Sizes
pub mod Streams
use federate.Base.{ℕ, Bytes, Bool, true, false, ◌≡◌, length}

-- `IpAddr`, by its octets.
pub data IpAddr : Type 0 where
  v4 v6 : (octets : Bytes) → IpAddr

unfoldable pub is_ipv4 : IpAddr → Bool
is_ipv4 (v4 octets) = true
is_ipv4 (v6 octets) = false

-- An address has as many octets as its family says.
abbrev pub IsIp : IpAddr → Type 0
IsIp (v4 octets) = length octets ≡ 4
IsIp (v6 octets) = length octets ≡ 16
