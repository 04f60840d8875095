-- ===== src/Signing/AuditTrail.antt =====
-- An audit record that was finalized by a key verifies under its id.
use federate.Base.{Text, Bytes, some, text_eq_refl, ◌≡◌, subst}
use federate.Core.{ok, >>=-eq-ok}
use federate.Mutation.{AuditRecord}
use federate.Host.{Host, SignsCorrectly}
use federate.Identity.{NodeIdentity, node_id, sign}
use federate.Signing.Audits
use federate.Signing.RoundTrip.{check_signature-sign}

module _ (h : Host) (laws : SignsCorrectly h) where
  named-verify :
      (i : NodeIdentity) (e : AuditRecord) (id : Text) (b : Bytes)
      → Audits.compute_id h e ≡ ok id
      → Audits.signable_bytes h (record e { event_id = id }) ≡ ok b
      → Audits.verify h (record e { event_id = id; signature = some (sign h i b) }) (node_id h i)
        ≡ ok tt
  unfolding Audits.verify Audits.compute_id Audits.signable_bytes
  named-verify i e id b q q' =
      let e' : AuditRecord = record e { event_id = id; signature = some (sign h i b) } in
      let checked =
        check_signature-sign h laws i b (Audits.fail e' "audit event is not signed")
          (Audits.fail e' "audit signature is not from the root key") in
      rw q (rw text_eq_refl (rw q' checked))

  pub verify-finalize :
      (i : NodeIdentity) (e e' : AuditRecord)
      → Audits.finalize h e i ≡ ok e'
      → Audits.verify h e' (node_id h i) ≡ ok tt
  unfolding Audits.finalize
  verify-finalize i e e' q =
      let (id, named, q1) = >>=-eq-ok (Audits.compute_id h e) _ q in
      let (b, bytes, q2) = >>=-eq-ok (Audits.signable_bytes h (record e { event_id = id })) _ q1 in
      let same : record e { event_id = id; signature = some (sign h i b) } ≡ e' = cc in
      subst (λ (r : AuditRecord). Audits.verify h r (node_id h i) ≡ ok tt) same
        (named-verify i e id b named bytes)
