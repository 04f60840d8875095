-- ===== src/Signing/Domains.antt =====
-- `DomainRecord` of crates/federate-naming/src/lib.rs: expiry, signing and verification.
use federate.Base.{Text, Bytes, String, none, some, Bool, text_eq, ◌++◌, ◌∷◌}
use federate.Core.{Result, ok, ◌>>=◌, ◌>>◌, FederateError, verification_failed, guard}
use federate.Naming.Expiry.{expired_at}
use federate.Naming.Record.{DomainRecord}
use federate.Host.{Host}
use federate.Identity.{NodeIdentity, canonical_bytes, check_signature, sign}

abbrev pub fail : DomainRecord → String → FederateError
fail rec reason = verification_failed "domain" rec.domain reason

module _ (h : Host) where
  unfoldable pub is_expired : DomainRecord → Bool
  is_expired rec = expired_at h.chrono rec.expires_at h.utc_now

  unfoldable pub signable_bytes : DomainRecord → Result Bytes
  signable_bytes rec = canonical_bytes h (h.serde.domain_value (record rec { signature = none }))

  unfoldable pub verify : DomainRecord → Text → Result (Unit {0})
  verify rec operator_public_key = do
    guard (text_eq rec.domain (rec.label ++ b'.' ∷ rec.tld))
        (fail rec "domain does not match label + tld")
    check_signature h operator_public_key (signable_bytes rec) rec.signature
        (fail rec "record is unsigned")
        (fail rec "signature is not from the authorized TLD operator key")

  -- `record.signature = Some(identity.sign(&record.signable_bytes()?))`.
  unfoldable pub signed : NodeIdentity → DomainRecord → Result DomainRecord
  signed i rec = do b ← signable_bytes rec; ok (record rec { signature = some (sign h i b) })
