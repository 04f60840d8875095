-- ===== src/Store/Actions/Domains.antt =====
-- The arms of `apply_action` that write domain records.
use federate.Base.{
  Text, Bytes, Bool, true, false, not, ◌&&◌, Option, none, some, BTreeMap, get, insert, text_eq,
  if◌then◌else◌, to_ascii_lowercase,
}
use federate.Core.{
  Result, ok, err, ◌>>=◌, ◌>>◌, guard, FederateError, mutation_rejected, tld_not_found,
  tld_unavailable, domain_not_found, manifest_not_found, unauthorized,
}
use federate.Naming
use federate.Naming.{
  FederateDomain, RegistryType, DomainStatus, TldStatus, TargetType, is_resolvable_tld,
  tld_status_str, validate_label, fqdn,
}
use federate.Naming.Record.{DomainRecord}
use federate.Root.{RootZone, TldRecord, lookup_tld, signature_algorithm}
use federate.Manifest
use federate.Manifest.{Manifest}
use federate.Mutation.{ActorRole}
use federate.Host.{Host}
use federate.Identity.{node_id}
use federate.Signing.Domains
use federate.Signing.Tlds
use federate.Signing.Manifests
use federate.Store.{MutationContext, Change}

-- `ok_or(e)`.
abbrev pub ok_or {ℓ} : {A : Type ℓ} → Option A → FederateError → Result A
ok_or none e = err e
ok_or (some a) e = ok a

-- `map_err(|_| e)`.
abbrev pub map_err {ℓ} : {A : Type ℓ} → Result A → FederateError → Result A
map_err (ok a) e = ok a
map_err (err _) e = err e

abbrev pub is_root_managed : RegistryType → Bool
is_root_managed RegistryType.root_managed = true
is_root_managed _ = false

-- `matches!(status, Active | Pending)`.
abbrev pub allows_updates : DomainStatus → Bool
allows_updates DomainStatus.active = true
allows_updates DomainStatus.pending = true
allows_updates _ = false

unfoldable pub check_existing : Text → Text → Bool → Option DomainRecord → Result (Unit {0})
check_existing actor name is_update none = guard (not is_update) (domain_not_found name)
check_existing actor name is_update (some rec) = do
  guard (text_eq rec.owner_public_key actor) (unauthorized "domain is owned by a different key")
  guard (allows_updates rec.status) (mutation_rejected "status does not allow updates")

abbrev pub created_at : Text → Option DomainRecord → Text
created_at now none = now
created_at now (some rec) = rec.created_at

abbrev pub expires_at : Option DomainRecord → Option Text
expires_at none = none
expires_at (some rec) = rec.expires_at

-- `PublishSite` and `UpdateDomainManifest`.
module _ (h : Host) where
  -- The record that is signed and stored.
  unfoldable pub published :
      (now actor manifest_hash : Text) → FederateDomain → Option DomainRecord → DomainRecord
  published now actor manifest_hash d existing = record {
    domain = fqdn d;
    tld = d.tld;
    label = d.name;
    owner_public_key = actor;
    target_type = TargetType.manifest;
    manifest_hash = manifest_hash;
    service_id = none;
    node_id = none;
    status = DomainStatus.active;
    created_at = created_at now existing;
    updated_at = now;
    expires_at = expires_at existing;
    renewal = none;
    pricing = none;
    signature_algorithm = signature_algorithm;
    signature = none;
  }

  -- The checks of the TLD of a site.
  unfoldable pub check_publishable : MutationContext → Text → TldRecord → Result (Unit {0})
  check_publishable ctx tld rec = do
    guard (is_root_managed rec.registry_type)
        (mutation_rejected "delegated; publish through its operator registry")
    guard (is_resolvable_tld rec.status && not (Tlds.is_expired h rec))
        (tld_unavailable tld (tld_status_str rec.status))
    guard (text_eq rec.operator_public_key (node_id h ctx.official_operator))
        (mutation_rejected "this node does not hold the operator key")

  -- The manifest is in the content store and signed by the actor for exactly this domain.
  unfoldable pub check_manifest :
      BTreeMap Bytes → (actor name manifest_hash : Text) → Result (Unit {0})
  check_manifest manifests actor name manifest_hash = do
    bytes ← ok_or (get manifest_hash manifests) (manifest_not_found manifest_hash)
    m ← h.serde.read_manifest bytes
    Manifest.validate m
    Manifests.verify h m name actor

  unfoldable pub publish :
      MutationContext
      → BTreeMap Bytes
      → RootZone
      → (actor : Text) → (is_update : Bool) → (domain manifest_hash : Text) → Result Change
  publish ctx manifests zone actor is_update domain manifest_hash = do
    d ← map_err (Naming.parse domain) (mutation_rejected "invalid domain")
    tld_rec ← ok_or (lookup_tld d.tld zone) (tld_not_found d.tld)
    check_publishable ctx d.tld tld_rec
    let existing = get (fqdn d) zone.domains
    check_existing actor (fqdn d) is_update existing
    check_manifest manifests actor (fqdn d) manifest_hash
    rec ←
        Domains.signed h ctx.official_operator
          (published (h.chrono.to_rfc3339 ctx.now) actor manifest_hash d existing)
    ok (record {
      role = ActorRole.domain_owner;
      zone = record zone { domains = insert (fqdn d) rec zone.domains };
      new_registry = none;
    })

abbrev pub same_status : DomainStatus → DomainStatus → Bool
same_status DomainStatus.active DomainStatus.active = true
same_status DomainStatus.reserved DomainStatus.reserved = true
same_status DomainStatus.pending DomainStatus.pending = true
same_status DomainStatus.suspended DomainStatus.suspended = true
same_status DomainStatus.expired DomainStatus.expired = true
same_status DomainStatus.revoked DomainStatus.revoked = true
same_status DomainStatus.transferred DomainStatus.transferred = true
same_status _ _ = false

-- The arms of the `match` in `allowed_domain_transition`.
abbrev pub can_activate : DomainStatus → Bool → Bool
can_activate DomainStatus.suspended is_root = true
can_activate DomainStatus.pending is_root = true
can_activate DomainStatus.revoked is_root = is_root
can_activate _ is_root = false

abbrev pub transition_arm : DomainStatus → DomainStatus → Bool → Bool
transition_arm from DomainStatus.suspended is_root = same_status from DomainStatus.active
transition_arm from DomainStatus.active is_root = can_activate from is_root
transition_arm from DomainStatus.revoked is_root = true
transition_arm from _ is_root = false

unfoldable pub allowed_domain_transition : DomainStatus → DomainStatus → Bool → Bool
allowed_domain_transition from to is_root =
    if same_status from to then false else transition_arm from to is_root

-- Who may change the status of a domain.
unfoldable pub status_role : Bool → Text → TldRecord → Result ActorRole
status_role is_root actor tld_rec =
    if is_root
    then ok ActorRole.root
    else if text_eq actor tld_rec.operator_public_key
    then ok ActorRole.tld_operator
    else err (unauthorized "only the root key or the operator can change the status")

-- `IssueDomain` may replace a revoked domain only for the root.
unfoldable pub check_reissue : Bool → Option DomainRecord → Result (Unit {0})
check_reissue is_root none = ok tt
check_reissue is_root (some existing) =
    guard (not (same_status existing.status DomainStatus.revoked && not is_root))
      (mutation_rejected "revoked; only root can reissue it")

module _ (h : Host) where
  unfoldable pub set_domain_status :
      MutationContext
      → RootZone
      → (actor : Text) → (is_root : Bool) → (domain : Text) → DomainStatus
      → Result Change
  set_domain_status ctx zone actor is_root domain status = do
    let name = to_ascii_lowercase domain
    rec ← ok_or (get name zone.domains) (domain_not_found name)
    tld_rec ← ok_or (lookup_tld rec.tld zone) (tld_not_found rec.tld)
    role ← status_role is_root actor tld_rec
    guard (allowed_domain_transition rec.status status is_root)
        (mutation_rejected "transition is not allowed")
    guard (text_eq tld_rec.operator_public_key (node_id h ctx.official_operator))
        (mutation_rejected "this node does not hold the operator key")
    updated ←
        Domains.signed h ctx.official_operator (record rec {
          status = status;
          updated_at = h.chrono.to_rfc3339 ctx.now;
          signature = none;
        })
    ok (record {
      role = role;
      zone = record zone { domains = insert name updated zone.domains };
      new_registry = none;
    })

  unfoldable pub issue_domain :
      RootZone → (actor : Text) → (is_root : Bool) → DomainRecord → Result Change
  issue_domain zone actor is_root rec = do
    tld_rec ← ok_or (lookup_tld rec.tld zone) (tld_not_found rec.tld)
    guard (is_root_managed tld_rec.registry_type)
        (mutation_rejected "delegated; its registry is operator-published, not root-zone")
    guard (text_eq actor tld_rec.operator_public_key) (unauthorized "actor is not the operator")
    normalized ← map_err (validate_label rec.label) (mutation_rejected "invalid label")
    Domains.verify h rec actor
    guard (not (Domains.is_expired h rec)) (mutation_rejected "record is already expired")
    check_reissue is_root (get rec.domain zone.domains)
    ok (record {
      role = ActorRole.tld_operator;
      zone = record zone { domains = insert rec.domain rec zone.domains };
      new_registry = none;
    })
