-- ===== src/Resolution/Flows.antt =====
-- How a resolution ends early: no step that returns from the function serves content.
use federate.Base.{Bytes, Text, Option, none, some, Bool, true, false, ◌≡◌, refl, arith}
use federate.Core.{Result, ok}
use federate.Naming.Record.{DomainRecord}
use federate.Root.{RootZone}
use federate.Manifest.{Manifest}
use federate.Resolution.{Resolver}
use federate.Resolution.Resolve.{
  Resolved, Flow, stop, next, ◌>>=◌, flow, or_stop, ensure, refuse_forged, root_flow, record_flow,
  manifest_flow, block_flow,
}

abbrev pub is_content : Result Resolved → Bool
is_content (ok (Resolved.content domain path bytes mime hash)) = true
is_content _ = false

-- A step that returns from the function does not serve content.
abbrev pub Refuses {ℓ} : {A : Type ℓ} → Flow A → Type 0
Refuses (stop r) = is_content r ≡ false
Refuses (next a) = Unit

pub flow-content {ℓ} :
    {A : Type ℓ} (p : Flow A × Resolver) (rest : A → Resolver → Result Resolved × Resolver)
    {r : Result Resolved} {s' : Resolver}
    → Refuses p.0
    → is_content r ≡ true
    → flow p rest ≡ (r, s')
    → (a : A) × (s : Resolver) × (p ≡ (next a, s)) × (rest a s ≡ (r, s'))
flow-content (stop r', s) rest refuses serves q = ground (arith, refuses, serves, q)
flow-content (next a, s) rest refuses serves q = (a, s, refl, q)

pub root_flow-Refuses : (r : Result RootZone) → Refuses (root_flow r)
unfolding root_flow
root_flow-Refuses r = ground arith

pub record_flow-Refuses : (d : Text) (r : Result DomainRecord) → Refuses (record_flow d r)
unfolding record_flow
record_flow-Refuses d r = ground arith

pub manifest_flow-Refuses : (d : Text) (r : Result Manifest) → Refuses (manifest_flow d r)
unfolding manifest_flow
manifest_flow-Refuses d r = ground arith

pub block_flow-Refuses : (d : Text) (r : Result Bytes) → Refuses (block_flow d r)
unfolding block_flow
block_flow-Refuses d r = ground arith

pub refuse_forged-Refuses : (d : Text) (r : Result (Unit {0})) → Refuses (refuse_forged d r)
refuse_forged-Refuses d r = ground arith

pub >>=-Refuses {ℓ κ} :
    {A : Type ℓ} {B : Type κ} (p : Flow A) (k : A → Flow B)
    → Refuses p
    → ((a : A) → Refuses (k a))
    → Refuses (p >>= k)
>>=-Refuses (stop r) k refuses rest = refuses
>>=-Refuses (next a) k refuses rest = rest a

pub >>=-eq-next {ℓ κ} :
    {A : Type ℓ} {B : Type κ} (p : Flow A) (k : A → Flow B) {b : B}
    → (p >>= k) ≡ next b
    → (a : A) × (p ≡ next a) × (k a ≡ next b)
>>=-eq-next (stop r) k q = cc
>>=-eq-next (next a) k q = (a, refl, q)

-- The result of `ensure` and of a missing item is no content.
pub ensure-Refuses :
    (test : Bool) (r : Resolved) → is_content (ok r) ≡ false → Refuses (ensure test r)
ensure-Refuses true r refuses = tt
ensure-Refuses false r refuses = refuses

pub or_stop-Refuses {ℓ} :
    {A : Type ℓ} (o : Option A) (r : Resolved) → is_content (ok r) ≡ false → Refuses (or_stop o r)
or_stop-Refuses none r refuses = refuses
or_stop-Refuses (some a) r refuses = tt

pub or_stop-eq-next {ℓ} :
    {A : Type ℓ} (o : Option A) (r : Resolved) {a : A} → or_stop o r ≡ next a → o ≡ some a
or_stop-eq-next none r q = cc
or_stop-eq-next (some b) r q = cc

pub ensure-eq-next :
    (test : Bool) (r : Resolved) {u : Unit {0}} → ensure test r ≡ next u → test ≡ true
ensure-eq-next true r q = refl
ensure-eq-next false r q = cc
