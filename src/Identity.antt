-- ===== src/Identity.antt =====
-- crates/federate-identity/src/lib.rs: keys and signatures, and `canonical_bytes` of federate-core
-- over the parameters of Host.antt.
use federate.Base.{
  Text, Bytes, Option, none, some, Bool, true, false, ◌≡◌, refl, length, ◌==◌, if◌then◌else◌, arith,
}
use federate.Core.{Result, ok, err, ◌>>=◌, FederateError, guard}
use federate.Core.Json.{Value, write_canonical}
use federate.Host.{Host, SignsCorrectly}

pub record NodeIdentity : Type 0 where
  pub signing_key : Bytes

module _ (h : Host) where
  unfoldable pub node_id : NodeIdentity → Text
  node_id i = h.hex_encode (h.public_key i.signing_key)

  unfoldable pub sign : NodeIdentity → Bytes → Text
  sign i message = h.hex_encode (h.sign_bytes i.signing_key message)

  -- The decoded signature has 64 bytes and verifies.
  unfoldable pub verify_decoded : Bytes → Bytes → Option Bytes → Bool
  verify_decoded pk message none = false
  verify_decoded pk message (some sig) =
      if length sig == 64 then h.verify_bytes pk message sig else false

  unfoldable pub verify_with : Option Bytes → Bytes → Text → Bool
  verify_with none message signature_hex = false
  verify_with (some pk) message signature_hex =
      if length pk == 32
      then if h.is_point pk then verify_decoded pk message (h.hex_decode signature_hex) else false
      else false

  unfoldable pub verify_signature : Text → Bytes → Text → Bool
  verify_signature public_key_hex message signature_hex =
      verify_with (h.hex_decode public_key_hex) message signature_hex

  unfoldable pub canonical_bytes : Result Value → Result Bytes
  canonical_bytes value = do v ← value; ok (write_canonical h.serde.to_vec v)

  -- `let Some(sig) = … else …; if !verify_signature(…)`, which every `verify` ends with.
  unfoldable pub check_signature :
      Text → Result Bytes → Option Text → FederateError → FederateError → Result (Unit {0})
  check_signature pk bytes none unsigned invalid = err unsigned
  check_signature pk bytes (some sig) unsigned invalid = do
    b ← bytes
    guard (verify_signature pk b sig) invalid

  module _ (laws : SignsCorrectly h) where
    -- A signature made with a key verifies under its id.
    pub verify_signature-sign :
        (i : NodeIdentity) (m : Bytes) → verify_signature (node_id i) m (sign i m) ≡ true
    unfolding verify_signature verify_with verify_decoded node_id sign
    verify_signature-sign i m = ground (
      arith,
      laws.decode-encode (h.public_key i.signing_key),
      laws.decode-encode (h.sign_bytes i.signing_key m),
      laws.length-public_key i.signing_key,
      laws.length-sign_bytes i.signing_key m,
      laws.public_key_is_point i.signing_key,
      laws.verify-sign i.signing_key m,
    )

  -- A check passes only with a signature that verifies.
  pub check_signature_sound :
      (pk : Text) (bytes : Result Bytes) (sig : Option Text) (e e' : FederateError)
      → check_signature pk bytes sig e e' ≡ ok tt
      → (b : Bytes) × (s : Text) × (bytes ≡ ok b)
        × (sig ≡ some s)
        × (verify_signature pk b s ≡ true)
  unfolding check_signature
  check_signature_sound pk bytes none e e' p = cc
  check_signature_sound pk (err x) (some s) e e' p = cc
  check_signature_sound pk (ok b) (some s) e e' p = (b, s, refl, refl, ground arith)
