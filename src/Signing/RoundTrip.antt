-- ===== src/Signing/RoundTrip.antt =====
-- A document that was signed with a key verifies under the id of the key.
use federate.Base.{
  ℕ, Text, Bytes, some, ◌∷◌, ◌++◌, text_eq_iff, text_eq_refl, ◌≡◌, refl, sym, arith, subst,
}
use federate.Core.{FederateError, ok, >>=-eq-ok, mutation_rejected, invalid_signature}
use federate.Naming.Record.{DomainRecord}
use federate.Root.{signature_algorithm}
use federate.Mutation.{MutationRequest, MutationAction}
use federate.Host.{Host, SignsCorrectly}
use federate.Identity.{NodeIdentity, node_id, sign, check_signature, verify_signature-sign}
use federate.Signing.Domains
use federate.Signing.Requests

module _ (h : Host) (laws : SignsCorrectly h) where
  pub check_signature-sign :
      (i : NodeIdentity) (b : Bytes) (e e' : FederateError)
      → check_signature h (node_id h i) (ok b) (some (sign h i b)) e e' ≡ ok tt
  unfolding check_signature
  check_signature-sign i b e e' = rw (verify_signature-sign h laws i b)

  -- A record that an operator signed verifies under the operator's id, if it names its label and TLD.
  verify_domain-signed :
      (i : NodeIdentity) (rec rec' : DomainRecord)
      → rec.domain ≡ rec.label ++ b'.' ∷ rec.tld
      → Domains.signed h i rec ≡ ok rec'
      → Domains.verify h rec' (node_id h i) ≡ ok tt
  unfolding Domains.signed Domains.verify Domains.signable_bytes
  verify_domain-signed i rec rec' named e =
      let (b, q, d) = >>=-eq-ok (Domains.signable_bytes h rec) _ e in
      ground (
        arith,
        text_eq_iff rec.domain (rec.label ++ b'.' ∷ rec.tld),
        check_signature-sign i b (Domains.fail rec' "record is unsigned")
            (Domains.fail rec' "signature is not from the authorized TLD operator key"),
      )

  sealed-verify :
      (i : NodeIdentity) (req : MutationRequest) (id : Text) (b : Bytes)
      → req.actor_public_key ≡ node_id h i
      → req.signature_algorithm ≡ signature_algorithm
      → Requests.compute_id h req ≡ ok id
      → Requests.signable_bytes h (record req { mutation_id = id }) ≡ ok b
      → Requests.verify h (record req { mutation_id = id; signature = some (sign h i b) }) ≡ ok tt
  unfolding Requests.verify Requests.compute_id Requests.signable_bytes
  sealed-verify i req id b actor algorithm q q' =
      let named = (text_eq_iff req.signature_algorithm signature_algorithm).1 algorithm in
      let e = mutation_rejected "mutation is not signed" in
      let checked =
        subst
          (λ (k : Text). check_signature h k (ok b) (some (sign h i b)) e invalid_signature ≡ ok tt)
          (sym actor) (check_signature-sign i b e invalid_signature) in
      rw named (rw q (rw text_eq_refl (rw q' checked)))

  seal-verify :
      (i : NodeIdentity) (req req' : MutationRequest)
      → req.actor_public_key ≡ node_id h i
      → req.signature_algorithm ≡ signature_algorithm
      → Requests.seal h i req ≡ ok req'
      → Requests.verify h req' ≡ ok tt
  unfolding Requests.seal
  seal-verify i req req' actor algorithm e =
      let (id, q, e1) = >>=-eq-ok (Requests.compute_id h req) _ e in
      let (b, q', e2) =
        >>=-eq-ok (Requests.signable_bytes h (record req { mutation_id = id })) _ e1 in
      let same : record req { mutation_id = id; signature = some (sign h i b) } ≡ req' = cc in
      subst (λ (r : MutationRequest). Requests.verify h r ≡ ok tt) same
        (sealed-verify i req id b actor algorithm q q')

  -- A mutation envelope that was built and signed verifies.
  pub verify_request-signed :
      (i : NodeIdentity) (nonce issued_at : Text) (v : ℕ) (a : MutationAction)
      (req : MutationRequest)
      → Requests.signed h i nonce issued_at v a ≡ ok req
      → Requests.verify h req ≡ ok tt
  unfolding Requests.signed
  verify_request-signed i nonce issued_at v a req e =
      seal-verify i (Requests.draft h i nonce issued_at v a) req refl refl e
