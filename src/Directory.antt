-- ===== src/Directory.antt =====
-- The node entries of crates/federate-directory/src/lib.rs. A socket address is its text; the
-- parser of IP addresses and the printer of a socket address are parameters.
pub mod Registrations
pub mod Table
pub mod Entries
pub mod Sound
pub mod Pruned
pub mod Reached
pub mod Restored
use federate.Base.{ℕ, Text, Option, none, some, List, [], ◌∷◌}

pub data NodeRole : Type 0 where
  root_authority : NodeRole
  root_mirror : NodeRole
  dns : NodeRole
  gateway : NodeRole
  storage_node : NodeRole
  cdn : NodeRole
  search_node : NodeRole
  bootstrap : NodeRole
  origin : NodeRole

pub data NodeStatus : Type 0 where
  online : NodeStatus
  degraded : NodeStatus
  offline : NodeStatus

pub record NodeCapacity : Type 0 where
  pub storage_gb : ℕ
  pub bandwidth_mbps : ℕ

pub record NodeRegistration : Type 0 where
  pub node_id : Text
  pub public_key : Text
  pub roles : List NodeRole
  pub public_ips : List Text
  pub region : Text
  pub version : Text
  pub capacity : NodeCapacity
  pub health_endpoint : Text
  pub native_port : Option ℕ
  pub registered_at : Text
  pub signature_algorithm : Text
  pub signature : Option Text

pub record NodeEntry : Type 0 where
  pub registration : NodeRegistration
  pub status : NodeStatus
  pub last_seen : Text
  pub latency_ms : Option ℕ
  pub consecutive_failures : ℕ

-- `std::net`: `parse::<IpAddr>`, and `SocketAddr::new(ip, port)` as text.
pub record Addresses : Type 0 where
  pub parse_ip : Text → Option Text
  pub socket_addr : Text → ℕ → Text

module _ (addresses : Addresses) where
  abbrev keep_parsed : Option Text → List Text → List Text
  keep_parsed none rest = rest
  keep_parsed (some ip) rest = ip ∷ rest

  -- `ips`: invalid entries are skipped.
  unfoldable pub ips : List Text → List Text
  ips [] = []
  ips (s ∷ rest) = keep_parsed (addresses.parse_ip s) (ips rest)

  abbrev first_addr : ℕ → List Text → Option Text
  first_addr port [] = none
  first_addr port (ip ∷ rest) = some (addresses.socket_addr ip port)

  abbrev addr_on : Option ℕ → List Text → Option Text
  addr_on none found = none
  addr_on (some port) found = first_addr port found

  unfoldable pub native_addr : NodeEntry → Option Text
  unfolding ips
  native_addr e = addr_on e.registration.native_port (ips e.registration.public_ips)
