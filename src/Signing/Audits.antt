-- ===== src/Signing/Audits.antt =====
-- `AuditRecord` of crates/federate-mutation/src/audit.rs.
use federate.Base.{Text, Bytes, String, none, some, [], text_eq}
use federate.Core.{Result, ok, ◌>>=◌, ◌>>◌, FederateError, verification_failed, guard}
use federate.Mutation.{AuditRecord}
use federate.Host.{Host}
use federate.Identity.{NodeIdentity, canonical_bytes, check_signature, sign}

abbrev pub fail : AuditRecord → String → FederateError
fail e reason = verification_failed "audit" e.event_id reason

module _ (h : Host) where
  unfoldable pub signable_bytes : AuditRecord → Result Bytes
  signable_bytes e = canonical_bytes h (h.serde.audit_value (record e { signature = none }))

  unfoldable pub compute_id : AuditRecord → Result Text
  compute_id e = do
    b ← canonical_bytes h (h.serde.audit_value (record e { event_id = []; signature = none }))
    ok (h.blake3_hex b)

  unfoldable pub finalize : AuditRecord → NodeIdentity → Result AuditRecord
  finalize e root = do
    id ← compute_id e
    let named = record e { event_id = id }
    b ← signable_bytes named
    ok (record named { signature = some (sign h root b) })

  unfoldable pub verify : AuditRecord → Text → Result (Unit {0})
  verify e root_public_key = do
    id ← compute_id e
    guard (text_eq e.event_id id) (fail e "event_id does not match event content")
    check_signature h root_public_key (signable_bytes e) e.signature
        (fail e "audit event is not signed") (fail e "audit signature is not from the root key")
