-- ===== src/Signing/Registries.antt =====
-- `TldRegistry` of crates/federate-registry/src/lib.rs: signing and verification.
use federate.Base.{ℕ, Text, Bytes, String, none, some, ◌&&◌, ◌∷◌, [], text_eq, BTreeMap}
use federate.Core.{Result, ok, ◌>>=◌, ◌>>◌, FederateError, verification_failed, guard}
use federate.Naming.Record.{DomainRecord}
use federate.Root.{signature_algorithm}
use federate.Registry.{TldRegistry}
use federate.Host.{Host}
use federate.Identity.{NodeIdentity, node_id, canonical_bytes, check_signature, sign}

abbrev pub fail : TldRegistry → String → FederateError
fail r reason = verification_failed "tld-registry" (b'.' ∷ r.tld) reason

-- The loop over the entries: a registry for one TLD never carries records of another.
unfoldable pub check_entries : TldRegistry → BTreeMap DomainRecord → Result (Unit {0})
check_entries r [] = ok tt
check_entries r ((fqdn, rec) ∷ rest) = do
  guard (text_eq rec.tld r.tld && text_eq rec.domain fqdn) (fail r "registry entry is inconsistent")
  check_entries r rest

module _ (h : Host) where
  unfoldable pub signable_bytes : TldRegistry → Result Bytes
  signable_bytes r = canonical_bytes h (h.serde.registry_value (record r { signature = none }))

  unfoldable pub verify : TldRegistry → Text → Text → Result (Unit {0})
  verify r expected_tld operator_public_key = do
    guard (text_eq r.tld expected_tld) (fail r "registry is for another TLD")
    guard (text_eq r.operator_public_key operator_public_key)
        (fail r "registry signer is not the operator key from the root-signed TLD record")
    check_signature h operator_public_key (signable_bytes r) r.signature
        (fail r "registry is unsigned")
        (fail r "registry signature invalid (tampered or wrong key)")
    check_entries r r.domains

  unfoldable pub signed :
      NodeIdentity → Text → ℕ → Text → BTreeMap DomainRecord → Result TldRegistry
  signed i tld version generated_at domains = do
    let r : TldRegistry = record {
      tld = tld;
      version = version;
      generated_at = generated_at;
      operator_public_key = node_id h i;
      domains = domains;
      signature_algorithm = signature_algorithm;
      signature = none;
    }
    b ← signable_bytes r
    ok (record r { signature = some (sign h i b) })
