-- ===== src/Signing/Manifests.antt =====
-- `Manifest` of crates/federate-manifest/src/lib.rs: verification.
use federate.Base.{Text, Bytes, String, none, text_eq}
use federate.Core.{Result, ◌>>◌, FederateError, verification_failed, guard}
use federate.Manifest.{Manifest}
use federate.Host.{Host}
use federate.Identity.{canonical_bytes, check_signature}

abbrev pub fail : Manifest → String → FederateError
fail m reason = verification_failed "manifest" m.domain reason

module _ (h : Host) where
  unfoldable pub signable_bytes : Manifest → Result Bytes
  signable_bytes m = canonical_bytes h (h.serde.manifest_value (record m { signature = none }))

  unfoldable pub verify : Manifest → Text → Text → Result (Unit {0})
  verify m expected_domain owner_public_key = do
    guard (text_eq m.domain expected_domain)
        (fail m "manifest domain does not match the requested domain")
    guard (text_eq m.owner_public_key owner_public_key)
        (fail m "manifest signer is not the domain owner key from the domain record")
    check_signature h owner_public_key (signable_bytes m) m.signature
        (fail m "manifest is unsigned")
        (fail m "manifest signature invalid (tampered or wrong key)")
