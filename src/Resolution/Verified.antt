-- ===== src/Resolution/Verified.antt =====
-- A signature check fails with no error but the one that ends a resolution.
use federate.Base.{Text, Option, none, some, Bool, true, false, ◌≡◌, refl, arith, text_eq}
use federate.Core.{Result, ok, err, FederateError, guard, ◌>>◌}
use federate.Core.Json.{Value}
use federate.Naming.Record.{DomainRecord}
use federate.Root.{TldRecord}
use federate.Manifest.{Manifest}
use federate.Host.{Host}
use federate.Identity.{canonical_bytes, check_signature}
use federate.Signing.Tlds
use federate.Signing.Domains
use federate.Signing.Manifests
use federate.Resolution.Registries.{is_forgery}
use federate.Resolution.Resolve.{next, refuse_forged}

-- Every error of the check is one that `refuse_forged` returns.
abbrev pub OnlyForged : Result (Unit {0}) → Type 0
OnlyForged r = (e : FederateError) → r ≡ err e → is_forgery e ≡ true

pub refuse_forged-OnlyForged :
    (d : Text) (r : Result (Unit {0})) → OnlyForged r → refuse_forged d r ≡ next tt → r ≡ ok tt
refuse_forged-OnlyForged d (ok u) only q = refl
refuse_forged-OnlyForged d (err e) only q = ground (arith, only e refl, q)

-- `serde_json::to_value` succeeds on the documents, whose keys are strings.
pub record Serializes (h : Host) : Type 0 where
  pub tld : (r : TldRecord) → (v : Value) × (h.serde.tld_value r ≡ ok v)
  pub domain : (r : DomainRecord) → (v : Value) × (h.serde.domain_value r ≡ ok v)
  pub manifest : (m : Manifest) → (v : Value) × (h.serde.manifest_value m ≡ ok v)

module _ (h : Host) where
  check_signature-OnlyForged :
      (pk : Text) (value : Result Value) (sig : Option Text) (e e' : FederateError)
      → ((v : Value) × (value ≡ ok v))
      → is_forgery e ≡ true
      → is_forgery e' ≡ true
      → OnlyForged (check_signature h pk (canonical_bytes h value) sig e e')
  unfolding check_signature canonical_bytes
  check_signature-OnlyForged pk value none e e' (v, q) f f' = λ x p. ground (arith, p, f)
  check_signature-OnlyForged pk value (some sig) e e' (v, q) f f' = λ x p. ground (arith, p, q, f')

  guard-OnlyForged :
      (test : Bool) (e : FederateError) (rest : Result (Unit {0}))
      → is_forgery e ≡ true
      → OnlyForged rest
      → OnlyForged (guard test e >> rest)
  guard-OnlyForged true e rest f only = only
  guard-OnlyForged false e rest f only = λ x p. ground (arith, p, f)

  module _ (total : Serializes h) where
    pub tld-OnlyForged : (rec : TldRecord) (k : Text) → OnlyForged (Tlds.verify h rec k)
    unfolding Tlds.verify Tlds.signable_bytes
    tld-OnlyForged rec k = check_signature-OnlyForged k _ rec.signature _ _ (total.tld _) refl refl

    pub domain-OnlyForged : (rec : DomainRecord) (k : Text) → OnlyForged (Domains.verify h rec k)
    unfolding Domains.verify Domains.signable_bytes
    domain-OnlyForged rec k =
        guard-OnlyForged _ _ _ refl
          (check_signature-OnlyForged k _ rec.signature _ _ (total.domain _) refl refl)

    pub manifest-OnlyForged : (m : Manifest) (d k : Text) → OnlyForged (Manifests.verify h m d k)
    unfolding Manifests.verify Manifests.signable_bytes
    manifest-OnlyForged m d k =
        guard-OnlyForged (text_eq m.domain d)
          (Manifests.fail m "manifest domain does not match the requested domain")
          (guard (text_eq m.owner_public_key k) (
              Manifests.fail m "manifest signer is not the domain owner key from the domain record")
            >> check_signature h k (Manifests.signable_bytes h m) m.signature
                (Manifests.fail m "manifest is unsigned")
                (Manifests.fail m "manifest signature invalid (tampered or wrong key)"))
          refl
          (guard-OnlyForged (text_eq m.owner_public_key k)
            (Manifests.fail m "manifest signer is not the domain owner key from the domain record")
            (check_signature h k (Manifests.signable_bytes h m) m.signature
              (Manifests.fail m "manifest is unsigned")
              (Manifests.fail m "manifest signature invalid (tampered or wrong key)"))
            refl
            (check_signature-OnlyForged k (h.serde.manifest_value (record m { signature = none }))
              m.signature (Manifests.fail m "manifest is unsigned")
              (Manifests.fail m "manifest signature invalid (tampered or wrong key)")
              (total.manifest (record m { signature = none })) refl refl))
