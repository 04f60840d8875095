-- ===== src/Signing/Entries.antt =====
-- A registry that verifies holds records of its own TLD only.
use federate.Base.{
  Text, Bytes, true, some, [], ◌∷◌, BTreeMap, get, text_eq, text_eq_iff, ◌≡◌, ◌∙◌, arith,
}
use federate.Core.{ok, guard, >>=-eq-ok}
use federate.Naming.Record.{DomainRecord}
use federate.Registry.{TldRegistry, lookup}
use federate.Host.{Host}
use federate.Identity.{verify_signature, check_signature, check_signature_sound}
use federate.Signing.Registries

check_entries-get :
    (r : TldRegistry) (m : BTreeMap DomainRecord) (fqdn : Text) (rec : DomainRecord)
    → Registries.check_entries r m ≡ ok tt
    → get fqdn m ≡ some rec
    → (rec.tld ≡ r.tld) × (rec.domain ≡ fqdn)
unfolding Registries.check_entries get
check_entries-get r [] fqdn rec c e = cc
check_entries-get r ((k, x) ∷ m) fqdn rec c e = ground (
  arith,
  check_entries-get r m fqdn rec,
  text_eq_iff x.tld r.tld,
  text_eq_iff x.domain k,
  text_eq_iff k fqdn,
)

module _ (h : Host) where
  pub record IsVouched (r : TldRegistry) (tld operator : Text) : Type 0 where
    pub for_tld : r.tld ≡ tld
    pub by_operator : r.operator_public_key ≡ operator
    pub signed :
        (b : Bytes) × (sig : Text) × (Registries.signable_bytes h r ≡ ok b)
        × (r.signature ≡ some sig)
        × (verify_signature h operator b sig ≡ true)
    pub entries :
        (fqdn : Text) (rec : DomainRecord)
        → lookup fqdn r ≡ some rec
        → (rec.tld ≡ tld) × (rec.domain ≡ fqdn)

  -- A registry that verifies is the one of the TLD, names the operator and carries a signature that
  -- verifies under the operator's key; what it has under a name is a record of that name in that TLD.
  pub verify_registry-IsVouched :
      (r : TldRegistry) (tld operator : Text)
      → Registries.verify h r tld operator ≡ ok tt
      → IsVouched r tld operator
  unfolding Registries.verify lookup
  verify_registry-IsVouched r tld operator e =
      let (u, q, e1) = >>=-eq-ok (guard (text_eq r.tld tld) _) _ e in
      let (u', q', e2) = >>=-eq-ok (guard (text_eq r.operator_public_key operator) _) _ e1 in
      let (u2, checked, e3) =
        >>=-eq-ok (check_signature h operator (Registries.signable_bytes h r) r.signature _ _) _
          e2 in
      let same : r.tld ≡ tld = (text_eq_iff r.tld tld).0 (ground arith) in
      record {
        for_tld = same;
        by_operator = (text_eq_iff r.operator_public_key operator).0 (ground arith);
        signed =
            check_signature_sound h operator (Registries.signable_bytes h r) r.signature _ _
              checked;
        entries = λ fqdn rec found.
            let p = check_entries-get r r.domains fqdn rec e3 found in (p.0 ∙ same, p.1);
      }
