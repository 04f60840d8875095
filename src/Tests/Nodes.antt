-- ===== src/Tests/Nodes.antt =====
-- The node directory.
use federate.Base.{
  Text, none, some, true, [], ◌∷◌, ◌++◌, ◌≡◌, refl, codes, text_eq, get, trim_start_matches,
  trim_end_matches,
}
use federate.Core.{ok}
use federate.Core.Json.{null, write_canonical}
use federate.Identity.{
  canonical_bytes, check_signature, verify_signature, verify_with, verify_decoded,
}
use federate.Directory.{NodeRegistration, NodeRole, NodeEntry, NodeStatus, Addresses, ips}
use federate.Directory.Registrations
use federate.Directory.Registrations.{
  DirectorySerde, health_endpoint_host, before_char, strip_prefix, authority_host, any_ip,
}
use federate.Directory.Table.{Directory, claims_root, with_persistence}
use federate.Directory.Sound.{IsSound, registration}
use federate.Directory.Restored.{restored_authority}
use federate.Tests.Fixture.{host, pad}

abbrev docs : DirectorySerde
docs = record { registration_value = λ r. ok null; announce_value = λ a. ok null }

abbrev addresses : Addresses
addresses = record { parse_ip = λ s. some s; socket_addr = λ ip port. ip }

abbrev node_key : Text
node_key = pad 32 (4 ∷ [])

abbrev node : NodeRole → NodeRegistration
node role = record {
  node_id = node_key;
  public_key = node_key;
  roles = role ∷ [];
  public_ips = codes "[::1]" ∷ [];
  region = [];
  version = [];
  capacity = record { storage_gb = 0; bandwidth_mbps = 0 };
  health_endpoint = codes "http://[::1]:80/x";
  native_port = none;
  registered_at = [];
  signature_algorithm = codes "ed25519";
  signature = some (pad 64 (4 ∷ []));
}

abbrev entry : NodeRole → NodeEntry
entry role = record {
  registration = node role;
  status = NodeStatus.online;
  last_seen = [];
  latency_ms = none;
  consecutive_failures = 0;
}

abbrev one_node : Directory
one_node = record {
  nodes = (node_key, entry NodeRole.gateway) ∷ [];
  providers = [];
  root_public_key = none;
}

authority_verified : Registrations.verify host docs addresses (node NodeRole.root_authority) ≡ ok tt
unfolding Registrations.verify Registrations.signable_bytes canonical_bytes write_canonical
    check_signature verify_signature verify_with verify_decoded text_eq ips health_endpoint_host
    before_char strip_prefix authority_host any_ip trim_start_matches trim_end_matches
authority_verified = refl

authority_claimed : claims_root (NodeRole.root_authority ∷ []) ≡ true
unfolding claims_root
authority_claimed = refl

restored_authority_example :
    (get node_key
        (with_persistence host docs addresses none
          ((entry NodeRole.gateway ∷ []) ++ entry NodeRole.root_authority ∷ [])).nodes
      ≡ some (entry NodeRole.root_authority))
    × (¬ IsSound host docs addresses (
        with_persistence host docs addresses none
          ((entry NodeRole.gateway ∷ []) ++ entry NodeRole.root_authority ∷ [])))
restored_authority_example =
    restored_authority host docs addresses none (entry NodeRole.gateway ∷ [])
      (entry NodeRole.root_authority) authority_verified authority_claimed refl
