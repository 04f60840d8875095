-- ===== src/Signing/Tlds.antt =====
-- `TldRecord` of crates/federate-root/src/lib.rs: expiry, signing and verification.
use federate.Base.{Text, Bytes, String, none, some, Bool, ◌∷◌}
use federate.Core.{Result, ok, ◌>>=◌, FederateError, verification_failed}
use federate.Naming.Expiry.{expired_at}
use federate.Root.{TldRecord}
use federate.Host.{Host}
use federate.Identity.{NodeIdentity, canonical_bytes, check_signature, sign}

abbrev pub fail : TldRecord → String → FederateError
fail rec reason = verification_failed "tld" (b'.' ∷ rec.tld) reason

module _ (h : Host) where
  unfoldable pub is_expired : TldRecord → Bool
  is_expired rec = expired_at h.chrono rec.expires_at h.utc_now

  unfoldable pub signable_bytes : TldRecord → Result Bytes
  signable_bytes rec = canonical_bytes h (h.serde.tld_value (record rec { signature = none }))

  unfoldable pub verify : TldRecord → Text → Result (Unit {0})
  verify rec root_public_key =
      check_signature h root_public_key (signable_bytes rec) rec.signature
        (fail rec "TLD record is unsigned")
        (fail rec "TLD record signature is not from the Federate Root Key")

  unfoldable pub signed : NodeIdentity → TldRecord → Result TldRecord
  signed i rec = do b ← signable_bytes rec; ok (record rec { signature = some (sign h i b) })
