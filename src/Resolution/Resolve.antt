-- ===== src/Resolution/Resolve.antt =====
-- The steps of a resolution of crates/federate-resolution/src/lib.rs: `resolve_traced_inner` with its
-- early returns, and `resolve_domain`, `site_files`.
use federate.Base.{Text, Bytes, String, Bool, true, false, not, Option, none, some, [], text_eq}
use federate.Core.{Result, ok, err, FederateError, verification_failed}
use federate.Naming
use federate.Naming.{
  FederateDomain, fqdn, is_resolvable_tld, is_resolvable_domain, tld_status_str, domain_status_str,
}
use federate.Naming.Record.{DomainRecord}
use federate.Root.{RootZone, TldRecord, lookup_tld}
use federate.Manifest.{Manifest, resolve_path}
use federate.Host.{Host}
use federate.Signing.Tlds
use federate.Signing.Domains
use federate.Signing.Manifests
use federate.Resolution.{Resolver, Net, Io}
use federate.Resolution.Roots.{root}
use federate.Resolution.Documents.{manifest}
use federate.Resolution.Registries.{locate_record}
use federate.Resolution.Content.{block_traced}

pub data Resolved : Type 0 where
  content : (domain path : Text) → Bytes → (mime hash : Text) → Resolved
  not_federate : (host : Text) → Resolved
  tld_not_found : (tld : Text) → Resolved
  tld_unavailable : (tld : Text) → (status : String) → Resolved
  delegated_unavailable : (domain tld : Text) → (reason : String) → Resolved
  domain_not_found : (domain : Text) → Resolved
  domain_unavailable : (domain : Text) → (status : String) → Resolved
  path_not_found : (domain path : Text) → Resolved
  security_failure : (domain : Text) → (layer reason : String) → Resolved

-- A step that goes on with a value, or returns from the function.
pub data Flow {ℓ} (A : Type ℓ) : Type ℓ where
  stop : Result Resolved → Flow A
  next : A → Flow A

infixl 5 ◌>>=◌
abbrev pub ◌>>=◌ {ℓ κ} : {A : Type ℓ} {B : Type κ} → Flow A → (A → Flow B) → Flow B
stop r >>= rest = stop r
next a >>= rest = rest a

infixl 5 ◌>>◌
abbrev pub ◌>>◌ {ℓ} : {B : Type ℓ} → Flow (Unit {0}) → Flow B → Flow B
step >> rest = step >>= (λ u. rest)

-- The rest of the function, from the state that the step left.
abbrev pub flow {ℓ} :
    {A : Type ℓ}
    → Flow A × Resolver
    → (A → Resolver → Result Resolved × Resolver)
    → Result Resolved × Resolver
flow (stop r, s) rest = (r, s)
flow (next a, s) rest = rest a s

abbrev pub or_stop {ℓ} : {A : Type ℓ} → Option A → Resolved → Flow A
or_stop none r = stop (ok r)
or_stop (some a) r = next a

abbrev pub ensure : Bool → Resolved → Flow (Unit {0})
ensure false r = stop (ok r)
ensure true r = next tt

-- `if let Err(VerificationFailed { layer, reason, .. }) = …`: no other error returns.
abbrev pub refuse_forged : Text → Result (Unit {0}) → Flow (Unit {0})
refuse_forged domain (ok u) = next tt
refuse_forged domain (err (verification_failed layer subject reason)) =
    stop (ok (security_failure domain layer reason))
refuse_forged domain (err _) = next tt

-- The `match` on each fallible step.
unfoldable pub root_flow : Result RootZone → Flow RootZone
root_flow (ok zone) = next zone
root_flow (err (verification_failed layer subject reason)) =
    stop (ok (security_failure subject layer reason))
root_flow (err e) = stop (err e)

unfoldable pub record_flow : Text → Result DomainRecord → Flow DomainRecord
record_flow domain (ok rec) = next rec
record_flow domain (err (FederateError.domain_not_found name)) = stop (ok (domain_not_found domain))
record_flow domain (err (verification_failed layer subject reason)) =
    stop (ok (security_failure domain layer reason))
record_flow domain (err (FederateError.hash_mismatch expected actual)) =
    stop (ok (security_failure domain "tld-registry" "registry manifest hash mismatch"))
record_flow domain (err (FederateError.delegated_registry_unavailable tld reason)) =
    stop (ok (delegated_unavailable domain tld reason))
record_flow domain (err e) = stop (err e)

unfoldable pub manifest_flow : Text → Result Manifest → Flow Manifest
manifest_flow domain (ok m) = next m
manifest_flow domain (err (FederateError.hash_mismatch expected actual)) =
    stop (ok (security_failure domain "manifest" "manifest hash mismatch"))
manifest_flow domain (err e) = stop (err e)

unfoldable pub block_flow : Text → Result Bytes → Flow Bytes
block_flow domain (ok bytes) = next bytes
block_flow domain (err (FederateError.hash_mismatch expected actual)) =
    stop (ok (security_failure domain "content" "content block hash mismatch"))
block_flow domain (err e) = stop (err e)

abbrev pub or_default : Option Text → Text
or_default none = []
or_default (some key) = key

module _ (h : Host) where
  -- Steps 4 and 5: the TLD.
  unfoldable pub check_tld : RootZone → FederateDomain → Option Text → Flow TldRecord
  check_tld zone domain trusted = do
    rec ← or_stop (lookup_tld domain.tld zone) (tld_not_found domain.tld)
    refuse_forged (fqdn domain) (Tlds.verify h rec (or_default trusted))
    ensure (is_resolvable_tld rec.status) (tld_unavailable domain.tld (tld_status_str rec.status))
    ensure (not (Tlds.is_expired h rec)) (tld_unavailable domain.tld "expired")
    next rec

  -- The domain record, once it is located.
  unfoldable pub check_record : FederateDomain → TldRecord → DomainRecord → Flow (Unit {0})
  check_record domain tld_rec rec = do
    refuse_forged (fqdn domain) (Domains.verify h rec tld_rec.operator_public_key)
    ensure (text_eq rec.tld domain.tld)
        (security_failure (fqdn domain) "domain" "domain record belongs to a different TLD")
    ensure (is_resolvable_domain rec.status)
        (domain_unavailable (fqdn domain) (domain_status_str rec.status))
    ensure (not (Domains.is_expired h rec)) (domain_unavailable (fqdn domain) "expired")

  -- The owner's signature, and the file and address of the path.
  unfoldable pub check_manifest : Text → Text → DomainRecord → Manifest → Flow (Text × Text)
  check_manifest domain path rec m = do
    refuse_forged domain (Manifests.verify h m domain rec.owner_public_key)
    or_stop (resolve_path m path) (path_not_found domain path)

  module _ (net : Net) (io : Io) where
    abbrev pub located :
        FederateDomain → Result DomainRecord × Resolver → Flow DomainRecord × Resolver
    located domain (r, s) = (record_flow (fqdn domain) r, s)

    abbrev pub read : FederateDomain → Result Manifest × Resolver → Flow Manifest × Resolver
    read domain (r, s) = (manifest_flow (fqdn domain) r, s)

    abbrev pub fetched : FederateDomain → Result Bytes × Resolver → Flow Bytes × Resolver
    fetched domain (r, s) = (block_flow (fqdn domain) r, s)

    abbrev pub rooted : Result RootZone × Resolver → Flow RootZone × Resolver
    rooted (r, s) = (root_flow r, s)

    -- Step 9.
    unfoldable pub serve_file :
        FederateDomain → Text → Text × Text → Resolver → Result Resolved × Resolver
    serve_file domain path (file_name, file_hash) s =
        flow (fetched domain (block_traced h net io file_hash s)) (λ bytes s1.
          (ok (content (fqdn domain) path bytes (net.guess_mime file_name) file_hash), s1))

    -- Step 8.
    unfoldable pub serve_record :
        FederateDomain → Text → DomainRecord → Resolver → Result Resolved × Resolver
    unfolding serve_file
    serve_record domain path rec s =
        flow (read domain (manifest h net io rec.manifest_hash s))
          (λ m s1. flow (check_manifest (fqdn domain) path rec m, s1) (serve_file domain path))

    -- Steps 6 and 7.
    unfoldable pub serve_tld :
        FederateDomain → Text → RootZone → TldRecord → Resolver → Result Resolved × Resolver
    unfolding serve_record
    serve_tld domain path zone tld_rec s =
        flow (located domain (locate_record h net io zone tld_rec (fqdn domain) s))
          (λ rec s1. flow (check_record domain tld_rec rec, s1) (λ u. serve_record domain path rec))

    unfoldable pub serve_domain : Text → FederateDomain → Resolver → Result Resolved × Resolver
    unfolding serve_tld
    serve_domain path domain s = flow (rooted (root h net io s)) (λ zone s1.
        flow (check_tld zone domain s1.trusted_root_key, s1) (serve_tld domain path zone))

    unfoldable pub resolve : Text → Text → Resolver → Result Resolved × Resolver
    unfolding serve_domain
    resolve host path s = elim (Naming.parse host) [
      | err e ↦ (ok (not_federate host), s)
      | ok domain ↦ serve_domain path domain s
    ]
