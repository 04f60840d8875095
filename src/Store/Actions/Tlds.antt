-- ===== src/Store/Actions/Tlds.antt =====
-- The arms of `apply_action` that write TLD records.
use federate.Base.{
  ℕ, Text, Bytes, Bool, true, false, not, ◌&&◌, Option, none, some, [], BTreeMap, get, insert,
  contains_key, text_eq, len, ◌==◌, all, is_ascii_hexdigit, ltb, to_ascii_lowercase, codes,
}
use federate.Core.{
  Result, ok, ◌>>=◌, ◌>>◌, guard, mutation_rejected, tld_not_found, unauthorized, replay,
}
use federate.Naming.{RegistryType, TldStatus, TldMode, validate_tld_name}
use federate.Root.{RootZone, TldRecord, signature_algorithm}
use federate.Root.Blocklists.{validate_new_tld}
use federate.Registry.{TldRegistry}
use federate.Mutation.{ActorRole, Delegation}
use federate.Host.{Host}
use federate.Identity.{node_id}
use federate.Signing.Tlds
use federate.Signing.Registries
use federate.Storage.{hash_bytes}
use federate.Store.{MutationContext, Change, NewRegistry}
use federate.Store.Actions.Domains.{ok_or, is_root_managed}

-- The key check of `DelegateTld`, for the owner and then for the operator.
unfoldable pub is_hex_key : Text → Bool
is_hex_key key = len key == 64 && all is_ascii_hexdigit key

-- `if let Some(x) = new { field = Some(x) }`.
abbrev pub or_keep : Option Text → Option Text → Option Text
or_keep none old = old
or_keep (some x) old = some x

abbrev pub same_status : TldStatus → TldStatus → Bool
same_status TldStatus.official TldStatus.official = true
same_status TldStatus.delegated TldStatus.delegated = true
same_status TldStatus.reserved TldStatus.reserved = true
same_status TldStatus.blocked TldStatus.blocked = true
same_status TldStatus.disabled TldStatus.disabled = true
same_status TldStatus.pending TldStatus.pending = true
same_status TldStatus.expired TldStatus.expired = true
same_status TldStatus.revoked TldStatus.revoked = true
same_status _ _ = false

abbrev pub is_delegated_manifest : RegistryType → Bool
is_delegated_manifest RegistryType.delegated_manifest = true
is_delegated_manifest _ = false

-- `ReserveTld` (true) and `BlockTld` (false) differ in the status and the mode of the record.
abbrev pub restricted_status : Bool → TldStatus
restricted_status true = TldStatus.reserved
restricted_status false = TldStatus.blocked

abbrev pub restricted_mode : Bool → TldMode
restricted_mode true = TldMode.reserved
restricted_mode false = TldMode.blocked

-- The version of the registry that the node holds for a TLD.
abbrev pub held_version : Option (Bytes × TldRegistry) → ℕ
held_version none = 0
held_version (some (bytes, r)) = r.version

module _ (h : Host) (ctx : MutationContext) where
  abbrev now : Text
  now = h.chrono.to_rfc3339 ctx.now

  -- Sign the record with the root key and write it under its name.
  unfoldable pub write_tld : RootZone → Text → TldRecord → Result Change
  write_tld zone name rec = do
    signed ← Tlds.signed h ctx.root rec
    ok (record {
      role = ActorRole.root;
      zone = record zone { tlds = insert name signed zone.tlds };
      new_registry = none;
    })

  unfoldable pub delegated_record : Delegation → Text → TldRecord
  delegated_record d name = record {
    tld = name;
    status = TldStatus.delegated;
    mode = TldMode.delegated;
    owner_public_key = d.owner_public_key;
    operator_public_key = d.operator_public_key;
    operator_name = d.operator_name;
    registry_type = d.registry_type;
    registry_endpoint = d.registry_endpoint;
    registry_manifest_hash = none;
    registry_providers = [];
    policy_hash = none;
    pricing = none;
    created_at = now;
    updated_at = now;
    expires_at = d.expires_at;
    notes = none;
    signature_algorithm = signature_algorithm;
    signature = none;
  }

  unfoldable pub delegate_tld : RootZone → (is_root : Bool) → Delegation → Result Change
  delegate_tld zone is_root d = do
    guard is_root (unauthorized "only the Federate Root Key can delegate TLDs")
    name ← validate_new_tld ctx.blocklists d.tld false
    guard (not (contains_key name zone.tlds)) (mutation_rejected "already exists; use tld.update")
    guard (not (is_root_managed d.registry_type))
        (mutation_rejected "a delegated TLD needs a delegated registry type")
    guard (is_hex_key d.owner_public_key)
        (mutation_rejected "owner key must be a 64-char hex public key")
    guard (is_hex_key d.operator_public_key)
        (mutation_rejected "operator key must be a 64-char hex public key")
    write_tld zone name (delegated_record d name)

  unfoldable pub official_record : (name purpose : Text) → TldRecord
  official_record name purpose = record {
    tld = name;
    status = TldStatus.official;
    mode = TldMode.official;
    owner_public_key = node_id h ctx.root;
    operator_public_key = node_id h ctx.official_operator;
    operator_name = codes "Federate Network (root-managed)";
    registry_type = RegistryType.root_managed;
    registry_endpoint = none;
    registry_manifest_hash = none;
    registry_providers = [];
    policy_hash = none;
    pricing = none;
    created_at = now;
    updated_at = now;
    expires_at = none;
    notes = some purpose;
    signature_algorithm = signature_algorithm;
    signature = none;
  }

  unfoldable pub create_tld : RootZone → (is_root : Bool) → (tld purpose : Text) → Result Change
  create_tld zone is_root tld purpose = do
    guard is_root (unauthorized "only the Federate Root Key can create official TLDs")
    name ← validate_new_tld ctx.blocklists tld true
    guard (not (contains_key name zone.tlds)) (mutation_rejected "already exists in the registry")
    write_tld zone name (official_record name purpose)

  unfoldable pub restricted_record : (is_reserve : Bool) → (name reason : Text) → TldRecord
  restricted_record is_reserve name reason = record {
    tld = name;
    status = restricted_status is_reserve;
    mode = restricted_mode is_reserve;
    owner_public_key = node_id h ctx.root;
    operator_public_key = node_id h ctx.root;
    operator_name = codes "Federate Network (root)";
    registry_type = RegistryType.root_managed;
    registry_endpoint = none;
    registry_manifest_hash = none;
    registry_providers = [];
    policy_hash = none;
    pricing = none;
    created_at = now;
    updated_at = now;
    expires_at = none;
    notes = some reason;
    signature_algorithm = signature_algorithm;
    signature = none;
  }

  unfoldable pub restrict_tld :
      RootZone → (is_root is_reserve : Bool) → (tld reason : Text) → Result Change
  restrict_tld zone is_root is_reserve tld reason = do
    guard is_root (unauthorized "only the Federate Root Key can reserve or block TLDs")
    name ← validate_tld_name tld
    guard (not (contains_key name zone.tlds))
        (mutation_rejected "already exists in the registry; use tld.set_status")
    write_tld zone name (restricted_record is_reserve name reason)

  unfoldable pub update_tld :
      RootZone
      → (is_root : Bool) → (tld : Text) → (endpoint expires_at notes : Option Text) → Result Change
  update_tld zone is_root tld endpoint expires_at notes = do
    guard is_root (unauthorized "only the Federate Root Key can update TLD records")
    let name = to_ascii_lowercase tld
    rec ← ok_or (get name zone.tlds) (tld_not_found name)
    write_tld zone name (record rec {
      registry_endpoint = or_keep endpoint rec.registry_endpoint;
      expires_at = or_keep expires_at rec.expires_at;
      notes = or_keep notes rec.notes;
      updated_at = now;
      signature = none;
    })

  unfoldable pub set_tld_status :
      RootZone → (is_root : Bool) → (tld : Text) → TldStatus → Result Change
  set_tld_status zone is_root tld status = do
    guard is_root (unauthorized "only the Federate Root Key can change TLD status")
    let name = to_ascii_lowercase tld
    rec ← ok_or (get name zone.tlds) (tld_not_found name)
    guard (not (same_status rec.status status)) (mutation_rejected "already has this status")
    write_tld zone name (record rec { status = status; updated_at = now; signature = none })

  -- The registry that the operator ships must be newer than the one that the node holds.
  unfoldable pub pinned :
      BTreeMap (Bytes × TldRegistry) → (actor name registry_hex : Text) → Result NewRegistry
  pinned registries actor name registry_hex = do
    bytes ← ok_or (h.hex_decode registry_hex) (mutation_rejected "registry_hex is not hex")
    registry ← h.serde.read_registry bytes
    Registries.verify h registry name actor
    guard (ltb (held_version (get name registries)) registry.version)
        (replay "registry does not advance")
    ok (name, bytes, registry)

  unfoldable pub update_registry_pointer :
      BTreeMap (Bytes × TldRegistry) → RootZone → (actor tld registry_hex : Text) → Result Change
  update_registry_pointer registries zone actor tld registry_hex = do
    let name = to_ascii_lowercase tld
    rec ← ok_or (get name zone.tlds) (tld_not_found name)
    guard (text_eq actor rec.operator_public_key) (unauthorized "actor is not the operator")
    guard (is_delegated_manifest rec.registry_type)
        (mutation_rejected "only delegated_manifest pins a hash through the root")
    new ← pinned registries actor name registry_hex
    signed ← Tlds.signed h ctx.root (record rec {
      registry_manifest_hash = some (hash_bytes h (new.1));
      updated_at = now;
      signature = none;
    })
    ok (record {
      role = ActorRole.tld_operator;
      zone = record zone { tlds = insert name signed zone.tlds };
      new_registry = some new;
    })
