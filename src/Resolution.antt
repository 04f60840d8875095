-- ===== src/Resolution.antt =====
-- crates/federate-resolution/src/lib.rs: the resolver. Here its state, and what the network and the
-- file system answer during one call. The child modules follow the source: Roots the root zone,
-- Documents the manifests, Registries the delegated registries, Content the blocks, and Resolve the
-- steps of a resolution. `Trace`, which only observes, is left out.
pub mod Roots
pub mod Documents
pub mod Registries
pub mod Content
pub mod Resolve
pub mod Lookup
pub mod Fresh
pub mod Refreshed
pub mod Vouched
pub mod Rollback
pub mod Current
pub mod Fetched
pub mod Stored
pub mod Flows
pub mod Verified
pub mod Served
pub mod Chain
pub mod Listed
use federate.Base.{
  Text, Bytes, Bool, Option, List, [], ◌∷◌, BTreeMap, ◌≡◌, refl, inl, inr, ◌⊎◌, arith,
}
use federate.Core.{Result, ok, err, ◌>>=◌, FederateError}
use federate.Root.{RootZone}
use federate.Host.{Host}
use federate.Identity.{NodeIdentity}
use federate.Storage.{Blocks}
use federate.Protocol.{Message}
use federate.Transport
use federate.Transport.{Peer, connect}
use federate.Directory.{NodeEntry, Addresses}
use federate.Client.{Response}

-- The fields of the source; a directory on disk is the map from its file names to their contents.
pub record Resolver : Type 0 where
  pub root : Option RootZone
  pub trusted_root_key : Option Text
  pub key_file : Option Text
  pub root_file : Option Bytes
  pub manifests : BTreeMap Bytes
  pub registries : BTreeMap Bytes
  pub blocks : Blocks
  pub region : Option Text
  pub native_providers : List Text
  pub identity : NodeIdentity

-- What the peers answer: a dialled address, a GET of a path of Node 1, a GET of a URL, and the
-- directory, if one is configured. `guess_mime` is the library of file types, and
-- `agent` the text with the version that the build fills in.
pub record Net : Type 0 where
  pub dial : Text → Result Peer
  pub node_one : Text → Result Response
  pub url : Text → Result Response
  pub directory : Option (Text → Result (List NodeEntry))
  pub addresses : Addresses
  pub guess_mime : Text → Text
  pub agent : Text

-- What the file system answers to the writes. Best-effort writes have a Boolean answer.
pub record Io : Type 0 where
  pub write_key : Result (Unit {0})
  pub write_root : Result (Unit {0})
  pub write_manifest : Result (Unit {0})
  pub write_registry : Bool
  pub write_block : Result (Unit {0})

-- The operator `?` on a result that comes with the state.
abbrev pub and_then {ℓ κ} :
    {A : Type ℓ} {B : Type κ}
    → Result A × Resolver
    → (A → Resolver → Result B × Resolver)
    → Result B × Resolver
and_then (err e, s) rest = (err e, s)
and_then (ok a, s) rest = rest a s

-- A call that returned a value got one from its first step, and its rest returned the value.
pub and_then-eq-ok {ℓ κ} :
    {A : Type ℓ} {B : Type κ} (p : Result A × Resolver) (rest : A → Resolver → Result B × Resolver)
    {b : B} {s' : Resolver}
    → and_then p rest ≡ (ok b, s')
    → (a : A) × (s : Resolver) × (p ≡ (ok a, s)) × (rest a s ≡ (ok b, s'))
and_then-eq-ok (err e, s) rest h = cc
and_then-eq-ok (ok a, s) rest h = (a, s, refl, h)

pub Result-cases {ℓ} :
    {A : Type ℓ} (r : Result A) → ((a : A) × (r ≡ ok a)) ⊎ ((e : FederateError) × (r ≡ err e))
Result-cases (ok a) = inl (a, refl)
Result-cases (err e) = inr (e, refl)

-- The first answer of a list of providers that is no error, or the answer of last resort.
abbrev pub or_else {ℓ} : {A : Type ℓ} → Result A → Result A → Result A
or_else (ok a) rest = ok a
or_else (err e) rest = rest

unfoldable pub try_each {ℓ κ} :
    {P : Type κ} {A : Type ℓ} → (P → Result A) → List P → Result A → Result A
try_each fetch [] last = last
try_each fetch (p ∷ ps) last = or_else (fetch p) (try_each fetch ps last)

-- If every provider's answer is good, so is the one that was taken.
pub try_each_sound {ℓ κ μ} :
    {P : Type κ} {A : Type ℓ} {Good : A → Type μ} (fetch : P → Result A) (ps : List P)
    (last : Result A)
    → ((p : P) (a : A) → fetch p ≡ ok a → Good a)
    → ((a : A) → last ≡ ok a → Good a)
    → (a : A) → try_each fetch ps last ≡ ok a
    → Good a
unfolding try_each
try_each_sound fetch [] last each final a e = final a e
try_each_sound fetch (p ∷ ps) last each final a e = elim (Result-cases (fetch p)) [
  | inl (b, q) ↦ each p a (ground (arith, q))
  | inr (x, q) ↦ try_each_sound fetch ps last each final a (ground (arith, q))
]

module _ (h : Host) (net : Net) where
  -- Connect, shake hands, ask once.
  unfoldable pub exchange : Resolver → Text → Message → Result Message
  exchange s addr msg = do
    conn ← connect h (net.dial addr) s.identity net.agent
    Transport.request conn msg
