-- ===== src/Tests/Resolver.antt =====
-- The resolver: what it serves, refreshes, fetches and lists.
use federate.Base.{
  Bytes, List, zero, suc, Text, none, some, true, [], ◌∷◌, ◌≡◌, ◌≢◌, refl, codes, text_eq, get, len,
  arith, ◌∙◌, insert, trim, trim_start_matches, trim_end_matches, is_whitespace, to_ascii_lowercase,
  split_first, split_once, contains, ends_with,
}
use federate.Core.{Result, serde, ok, err, network}
use federate.Core.Json.{write_canonical}
use federate.Naming
use federate.Naming.{
  validate_label, validate_tld_name, parse_parts, is_resolvable_tld, is_resolvable_domain,
  RegistryType, TldStatus,
}
use federate.Naming.Expiry.{expired_at}
use federate.Root.{RootZone, TldRecord, lookup_tld, lookup, validate_domains}
use federate.Root
use federate.Manifest.{Manifest, candidates, find_file}
use federate.Manifest
use federate.Identity.{
  canonical_bytes, check_signature, verify_signature, verify_with, verify_decoded,
}
use federate.Storage.{hash_bytes, is_valid_hash, get_block, put_block, Blocks}
use federate.Storage
use federate.Signing.Zones
use federate.Signing.Tlds
use federate.Signing.Domains
use federate.Signing.Manifests
use federate.Protocol.{Message, member}
use federate.Protocol.{encode, frame_len, to_be_bytes, from_be_bytes}
use federate.Transport
use federate.Transport.{Peer}
use federate.Signing.Registries
use federate.Client.{fetch_manifest_bytes, fetch_block, get_bytes, read_capped, read_chunks}
use federate.Cdn.{rank_providers}
use federate.Resolution.{Resolver, Net, Io, try_each}
use federate.Resolution.Roots.{load, refresh_root, root}
use federate.Resolution.Documents.{
  manifest_bytes, use_cached, read_valid, manifest, fetch_manifest_network,
}
use federate.Resolution.Registries.{
  tld_registry, locate_record, locate_by_type, registry_by_type, after_live, fetch_registry_live,
  try_until_forged, fetch_registry_native, registry_answer, newer_of, cached_registry,
}
use federate.Resolution.Content.{
  block_traced, fetch_block_network, stored, ranked, native_of, add_defaults,
}
use federate.Resolution.Resolve.{
  Resolved, root_flow, record_flow, manifest_flow, block_flow, check_tld, check_record,
  check_manifest, serve_file, serve_record, serve_tld, serve_domain, resolve,
}
use federate.Resolution.Fresh.{IsHeld, IsRefreshed}
use federate.Resolution.Refreshed.{refresh_root-IsRefreshed}
use federate.Resolution.Rollback.{IsCurrent, is_live}
use federate.Resolution.Current.{tld_registry-IsCurrent}
use federate.Resolution.Fetched.{manifest_bytes-IsCached}
use federate.Resolution.Stored.{block_traced-IsStored}
use federate.Resolution.Served.{IsServed}
use federate.Resolution.Chain.{resolve-IsServed}
use federate.Tests.Fixture.{fed_record, root_identity, pad, replicate}
use federate.Naming.Record.{DomainRecord}
use federate.Resolution.Lookup.{
  keys, usable_tld, usable_record, site_of, record_under, record_in, resolve_domain, site_files,
}
use federate.Resolution.Listed.{IsFound, site_files-IsSite}
use federate.Resolution.Served.{IsSite}
use federate.Tests.SmallHost.{
  registry_at, site_zone, small_host, small-ReadsZones, small-ReadsRegistries, small-Serializes,
}

abbrev pub key : Text
key = pad 32 (7 ∷ [])

abbrev pub address : Text
address = replicate 64 b'0'

-- Memory is empty, the cache file has version 5; nothing else is cached but one registry.
abbrev pub resolver : Resolver
resolver = record {
  root = none;
  trusted_root_key = some key;
  key_file = none;
  root_file = some (5 ∷ []);
  manifests = [];
  registries = (codes "fed", 5 ∷ []) ∷ [];
  blocks = [];
  region = none;
  native_providers = [];
  identity = root_identity;
}

-- No peer answers but Node 1, whose answer to everything is the byte 9.
abbrev pub small_net : Net
small_net = record {
  dial = λ addr. err (network "connect failed");
  node_one =
      λ path. ok (record { is_success = true; content_length = none; chunks = ok (9 ∷ []) ∷ [] });
  url = λ u. err (network "connect failed");
  directory = none;
  addresses = record { parse_ip = λ s. none; socket_addr = λ ip port. ip };
  guess_mime = λ name. codes "text/html";
  agent = [];
}

abbrev pub working : Io
working = record {
  write_key = ok tt;
  write_root = ok tt;
  write_manifest = ok tt;
  write_registry = true;
  write_block = ok tt;
}

refresh_root-IsRefreshed_example :
    IsRefreshed small_host key resolver
      (refresh_root small_host small_net working resolver).0
      (refresh_root small_host small_net working resolver).1
refresh_root-IsRefreshed_example =
    refresh_root-IsRefreshed small_host small_net working key resolver small-ReadsZones refl
      (λ m q. cc)

-- A registry provider that speaks version 1 and sends the registry of version 4.
abbrev read_answer : Bytes → Result Message
read_answer [] = err (serde "empty")
read_answer (zero ∷ b) = ok (Message.welcome 1 [] [] [])
read_answer (suc n ∷ b) = ok (Message.tld_registry (codes "fed") (4 ∷ []))

abbrev arriving : List Bytes → Bytes
arriving [] = []
arriving (m ∷ []) = 0 ∷ 0 ∷ 0 ∷ 1 ∷ 0 ∷ []
arriving (m ∷ n ∷ ms) = 0 ∷ 0 ∷ 0 ∷ 1 ∷ 1 ∷ []

abbrev registry_peer : Peer
registry_peer = record {
  codec = record { to_vec = λ m. ok (9 ∷ []); from_slice = read_answer };
  write = λ frames. ok tt;
  arrives = arriving;
}

abbrev registry_net : Net
registry_net = record small_net { dial = λ addr. ok registry_peer }

abbrev delegated : TldRecord
delegated = record fed_record {
  registry_type = RegistryType.delegated_native;
  registry_providers = (1 ∷ []) ∷ [];
}

-- The cache has version 5, so the registry of version 4 is not taken.
kept : (tld_registry small_host registry_net working delegated resolver).0 ≡ ok (registry_at 5)
unfolding tld_registry registry_by_type after_live fetch_registry_live try_until_forged
    fetch_registry_native Transport.connect Transport.accept_welcome Transport.request
    Transport.send Transport.recv encode frame_len to_be_bytes from_be_bytes member registry_answer
    Registries.verify Registries.check_entries Registries.signable_bytes canonical_bytes
    write_canonical check_signature verify_signature verify_with verify_decoded text_eq newer_of
    cached_registry validate_tld_name get trim trim_start_matches trim_end_matches is_whitespace
    to_ascii_lowercase len
kept = refl

tld_registry-IsCurrent_example :
    IsCurrent small_host delegated
      (is_live delegated.registry_type)
      resolver
      (tld_registry small_host registry_net working delegated resolver)
tld_registry-IsCurrent_example =
    tld_registry-IsCurrent small_host registry_net delegated working resolver small-ReadsRegistries

block_fetched :
    block_traced small_host small_net working address resolver
    ≡ (ok (9 ∷ []), record resolver { blocks = (address, 9 ∷ []) ∷ [] })
unfolding block_traced fetch_block_network try_each ranked native_of add_defaults rank_providers
    fetch_block get_bytes read_capped read_chunks stored get_block put_block Storage.verify
    is_valid_hash hash_bytes text_eq len get insert
block_fetched = refl

block_traced-IsStored_example :
    (hash_bytes small_host (9 ∷ []) ≡ address)
    × ((net : Net) (i : Io)
        → block_traced small_host net i address
            (record resolver { blocks = (address, 9 ∷ []) ∷ [] })
          ≡ (ok (9 ∷ []), record resolver { blocks = (address, 9 ∷ []) ∷ [] }))
    × ((k : Text)
        → k ≢ address
        → get_block small_host ((address, 9 ∷ []) ∷ []) k ≡ get_block small_host [] k)
block_traced-IsStored_example =
    block_traced-IsStored small_host small_net working address resolver
      (record resolver { blocks = (address, 9 ∷ []) ∷ [] }) (9 ∷ []) block_fetched

manifest_fetched :
    manifest_bytes small_host small_net working address resolver
    ≡ (ok (9 ∷ []), record resolver { manifests = (address, 9 ∷ []) ∷ [] })
unfolding manifest_bytes use_cached fetch_manifest_network try_each fetch_manifest_bytes get_bytes
    read_capped read_chunks Storage.verify is_valid_hash hash_bytes text_eq len get insert
manifest_fetched = refl

manifest_bytes-IsCached_example :
    (hash_bytes small_host (9 ∷ []) ≡ address)
    × ((net : Net) (i : Io)
        → manifest_bytes small_host net i address
            (record resolver { manifests = (address, 9 ∷ []) ∷ [] })
          ≡ (ok (9 ∷ []), record resolver { manifests = (address, 9 ∷ []) ∷ [] }))
manifest_bytes-IsCached_example =
    manifest_bytes-IsCached small_host small_net working address resolver
      (record resolver { manifests = (address, 9 ∷ []) ∷ [] }) (9 ∷ []) manifest_fetched

-- The zone and the manifest of `good.fed` are at hand, the block is fetched.
abbrev pub ready : Resolver
ready = record resolver {
  root = some site_zone;
  root_file = some [];
  manifests = (address, 1 ∷ []) ∷ [];
}

zone_loaded : load small_host ready ≡ ok site_zone
unfolding load Root.validate validate_domains get text_eq
zone_loaded = refl

zone_verified : Zones.verify small_host site_zone key ≡ ok tt
unfolding Zones.verify Zones.verify_tlds Zones.signable_bytes Tlds.verify Tlds.signable_bytes
    canonical_bytes write_canonical check_signature verify_signature verify_with verify_decoded
    text_eq
zone_verified = refl

pub ready-IsHeld : IsHeld small_host key ready
ready-IsHeld m q = (zone_loaded ∙ ground (arith, q), ground (arith, q, zone_verified))

served : resolve small_host small_net working (codes "good.fed") (codes "/") ready ≡ (
  ok (Resolved.content (codes "good.fed") (codes "/") (9 ∷ []) (codes "text/html") address),
  record ready { blocks = (address, 9 ∷ []) ∷ [] },
)
unfolding resolve serve_domain root root_flow serve_tld locate_record locate_by_type record_flow
    check_record serve_record manifest manifest_bytes use_cached read_valid manifest_flow
    check_manifest serve_file block_flow check_tld lookup_tld lookup get text_eq Naming.parse
    parse_parts split_first split_once to_ascii_lowercase contains validate_label validate_tld_name
    trim trim_start_matches trim_end_matches is_whitespace len ends_with is_resolvable_tld
    is_resolvable_domain Tlds.verify Tlds.signable_bytes Tlds.is_expired Domains.verify
    Domains.signable_bytes Domains.is_expired expired_at Manifests.verify Manifests.signable_bytes
    canonical_bytes write_canonical check_signature verify_signature verify_with verify_decoded
    Naming.fqdn Manifest.validate Manifest.resolve_path candidates find_file block_traced
    fetch_block_network try_each ranked native_of add_defaults rank_providers fetch_block get_bytes
    read_capped read_chunks stored get_block put_block Storage.verify is_valid_hash hash_bytes
    insert
served = refl

resolve-IsServed_example :
    IsServed small_host key (codes "good.fed") (codes "/") (codes "good.fed") (9 ∷ []) address
resolve-IsServed_example =
    resolve-IsServed small_host small_net working small-Serializes key ready small-ReadsZones
      small-ReadsRegistries refl ready-IsHeld (codes "good.fed") (codes "/") (codes "/")
      (codes "good.fed") (codes "text/html") address
      (record ready { blocks = (address, 9 ∷ []) ∷ [] }) (9 ∷ []) served

site_listed :
    site_files small_host small_net working (codes "good.fed") ready
    ≡ (ok (codes "index.html" ∷ []), ready)
unfolding site_files site_of resolve_domain record_in record_under usable_tld usable_record root
    locate_record locate_by_type manifest manifest_bytes use_cached read_valid lookup_tld lookup get
    text_eq Naming.parse parse_parts split_first split_once to_ascii_lowercase contains
    validate_label validate_tld_name trim trim_start_matches trim_end_matches is_whitespace len
    ends_with is_resolvable_tld is_resolvable_domain Tlds.is_expired Domains.verify
    Domains.signable_bytes Domains.is_expired expired_at Manifests.verify Manifests.signable_bytes
    canonical_bytes write_canonical check_signature verify_signature verify_with verify_decoded
    Naming.fqdn Manifest.validate Storage.verify is_valid_hash hash_bytes
site_listed = refl

site_files-IsSite_example :
    (rec : DomainRecord) × (m : Manifest) × IsFound small_host key (codes "good.fed") rec
    × IsSite small_host (codes "good.fed") rec m
    × (codes "index.html" ∷ [] ≡ keys m.files)
site_files-IsSite_example =
    site_files-IsSite small_host small_net working key ready small-ReadsZones small-ReadsRegistries
      refl ready-IsHeld (codes "good.fed") (codes "index.html" ∷ []) ready site_listed
