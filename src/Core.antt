-- ===== src/Core.antt =====
-- crates/federate-core/src/lib.rs: the error type and `Result`. An error keeps its variant, the
-- fields of the variant, and the fixed words of the message as a `String`; other text that the
-- source interpolates into the message is left out.
pub mod Json
use federate.Base.{◌⊎◌, inl, inr, Text, String, ◌≡◌, refl, Bool, true, false}

pub data FederateError : Type 0 where
  not_federate_domain : Text → String → FederateError
  unknown_tld : Text → FederateError
  domain_not_found : Text → FederateError
  path_not_found : Text → FederateError
  manifest_not_found : Text → FederateError
  block_not_found : Text → FederateError
  hash_mismatch : Text → Text → FederateError
  root_unavailable : FederateError
  invalid_root : String → FederateError
  invalid_tld_name : Text → String → FederateError
  blocked_tld : Text → String → FederateError
  reserved_tld : Text → String → FederateError
  tld_not_found : Text → FederateError
  tld_unavailable : Text → String → FederateError
  delegated_registry_unavailable : Text → String → FederateError
  verification_failed : String → Text → String → FederateError
  invalid_signature : FederateError
  unauthorized : String → FederateError
  replay : String → FederateError
  mutation_rejected : String → FederateError
  storage : String → FederateError
  network : String → FederateError
  io : String → FederateError
  serde : String → FederateError

pub data Result {ℓ} (A : Type ℓ) : Type ℓ where
  ok : A → Result A
  err : FederateError → Result A

-- `if !test { return Err(e) }`.
abbrev pub guard : (test : Bool) → FederateError → Result (Unit {0})
guard false why = err why
guard true why = ok tt

-- The operator `?`, with the rest of the function behind it.
infixl 5 ◌>>=◌
abbrev pub ◌>>=◌ {ℓ κ} :
    {A : Type ℓ} {B : Type κ} (step : Result A) (rest : A → Result B) → Result B
err why >>= rest = err why
ok value >>= rest = rest value

infixl 5 ◌>>◌
abbrev pub ◌>>◌ {ℓ} : {B : Type ℓ} (step : Result (Unit {0})) (rest : Result B) → Result B
step >> rest = step >>= (λ done. rest)

-- A function that returned a value got one from its first step, and its rest returned the value.
pub >>=-eq-ok {ℓ κ} :
    {A : Type ℓ} {B : Type κ} (step : Result A) (rest : A → Result B) {b : B}
    → (step >>= rest) ≡ ok b
    → (a : A) × (step ≡ ok a) × (rest a ≡ ok b)
>>=-eq-ok (err why) rest returned = cc
>>=-eq-ok (ok value) rest returned = (value, refl, returned)

pub guard-true : (b : Bool) (e : FederateError) {u : Unit {0}} → guard b e ≡ ok u → b ≡ true
guard-true true e h = refl
guard-true false e h = cc

pub Result-cases {ℓ} :
    {A : Type ℓ} (r : Result A) → ((e : FederateError) × (r ≡ err e)) ⊎ ((a : A) × (r ≡ ok a))
Result-cases (err e) = inl (e, refl)
Result-cases (ok a) = inr (a, refl)
