-- ===== src/Signing/Requests.antt =====
-- `MutationRequest` of crates/federate-mutation/src/request.rs: the signed envelope.
use federate.Base.{
  ℕ, Text, Bytes, Option, none, some, Bool, ◌&&◌, [], text_eq, ℤ, pos, negsuc, leb_ℤ, ◌-ℤ◌,
}
use federate.Core.{
  Result, ok, err, ◌>>=◌, ◌>>◌, mutation_rejected, invalid_signature, replay, guard,
}
use federate.Naming.Expiry.{DateTime}
use federate.Root.{signature_algorithm}
use federate.Mutation.{MutationRequest, MutationAction, mutation_max_age_secs}
use federate.Host.{Host}
use federate.Identity.{NodeIdentity, node_id, canonical_bytes, check_signature, sign}

module _ (h : Host) where
  unfoldable pub signable_bytes : MutationRequest → Result Bytes
  signable_bytes req = canonical_bytes h (h.serde.mutation_value (record req { signature = none }))

  unfoldable pub compute_id : MutationRequest → Result Text
  compute_id req = do
    b ←
        canonical_bytes h
          (h.serde.mutation_value (record req { mutation_id = []; signature = none }))
    ok (h.blake3_hex b)

  -- The envelope before it has an id and a signature.
  unfoldable pub draft :
      NodeIdentity → (nonce issued_at : Text) → ℕ → MutationAction → MutationRequest
  draft i nonce issued_at target_version action = record {
    mutation_id = [];
    nonce = nonce;
    issued_at = issued_at;
    actor_public_key = node_id h i;
    target_version = target_version;
    action = action;
    signature_algorithm = signature_algorithm;
    signature = none;
  }

  -- `req.mutation_id = …; req.signature = …`.
  unfoldable pub seal : NodeIdentity → MutationRequest → Result MutationRequest
  seal i req = do
    id ← compute_id req
    let named = record req { mutation_id = id }
    b ← signable_bytes named
    ok (record named { signature = some (sign h i b) })

  unfoldable pub signed :
      NodeIdentity → (nonce issued_at : Text) → ℕ → MutationAction → Result MutationRequest
  unfolding draft seal
  signed i nonce issued_at target_version action =
      seal i (draft i nonce issued_at target_version action)

  unfoldable pub verify : MutationRequest → Result (Unit {0})
  verify req = do
    guard (text_eq req.signature_algorithm signature_algorithm)
        (mutation_rejected "unsupported signature algorithm")
    id ← compute_id req
    guard (text_eq req.mutation_id id)
        (mutation_rejected "mutation_id does not match envelope content")
    check_signature h req.actor_public_key (signable_bytes req) req.signature
        (mutation_rejected "mutation is not signed") invalid_signature

  -- `(-30..=MUTATION_MAX_AGE_SECS).contains(&age)`.
  abbrev in_window : ℤ → Bool
  in_window age = leb_ℤ (negsuc 29) age && leb_ℤ age (pos mutation_max_age_secs)

  abbrev check_issued : DateTime → Option DateTime → Result (Unit {0})
  check_issued now none = err (replay "unparseable mutation timestamp")
  check_issued now (some issued) =
      guard (in_window (now.timestamp -ℤ issued.timestamp))
        (replay "mutation timestamp outside the acceptance window")

  unfoldable pub check_age : MutationRequest → DateTime → Result (Unit {0})
  check_age req now = check_issued now (h.chrono.parse_from_rfc3339 req.issued_at)
