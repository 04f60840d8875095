-- ===== src/Host.antt =====
-- What the program takes from other crates: hex, ed25519-dalek, blake3, chrono and serde_json. The
-- functions are parameters; what the code relies on is stated in the records of laws.
use federate.Base.{Text, Bytes, Option, some, Bool, true, ◌≡◌, length}
use federate.Core.{Result}
use federate.Core.Json.{Value}
use federate.Naming.Expiry.{Chrono, DateTime}
use federate.Naming.Record.{DomainRecord}
use federate.Root.{TldRecord, RootZone}
use federate.Manifest.{Manifest}
use federate.Registry.{TldRegistry}
use federate.Mutation.{MutationRequest, AuditRecord}

-- `derive(Serialize)` into a `serde_json::Value`, and the readers of documents.
pub record Serde : Type 0 where
  pub to_vec : Value → Bytes
  pub domain_value : DomainRecord → Result Value
  pub tld_value : TldRecord → Result Value
  pub zone_value : RootZone → Result Value
  pub manifest_value : Manifest → Result Value
  pub registry_value : TldRegistry → Result Value
  pub mutation_value : MutationRequest → Result Value
  pub audit_value : AuditRecord → Result Value
  pub zone_to_vec : RootZone → Result Bytes
  pub zone_to_vec_pretty : RootZone → Result Bytes
  pub read_manifest : Bytes → Result Manifest
  pub read_registry : Bytes → Result TldRegistry
  pub read_zone : Bytes → Result RootZone
  pub read_value : Bytes → Result Value
  pub registry_from_value : Value → Result TldRegistry
  pub registry_to_vec_pretty : TldRegistry → Result Bytes

pub record Host : Type 0 where
  pub hex_encode : Bytes → Text
  pub hex_decode : Text → Option Bytes
  -- `SigningKey::verifying_key().to_bytes()`, `sign(m).to_bytes()`, `VerifyingKey::from_bytes` and
  -- `VerifyingKey::verify`
  pub public_key : Bytes → Bytes
  pub sign_bytes : Bytes → Bytes → Bytes
  pub is_point : Bytes → Bool
  pub verify_bytes : Bytes → Bytes → Bytes → Bool
  -- `blake3::hash(b).to_hex()`
  pub blake3_hex : Bytes → Text
  pub chrono : Chrono
  -- `Utc::now()`
  pub utc_now : DateTime
  pub serde : Serde

-- hex decodes what it encoded; Ed25519 keys have 32 bytes and signatures 64, and a signature made
-- with a key verifies under its public key.
pub record SignsCorrectly (h : Host) : Type 0 where
  pub decode-encode : (b : Bytes) → h.hex_decode (h.hex_encode b) ≡ some b
  pub length-public_key : (k : Bytes) → length (h.public_key k) ≡ 32
  pub length-sign_bytes : (k m : Bytes) → length (h.sign_bytes k m) ≡ 64
  pub public_key_is_point : (k : Bytes) → h.is_point (h.public_key k) ≡ true
  pub verify-sign : (k m : Bytes) → h.verify_bytes (h.public_key k) m (h.sign_bytes k m) ≡ true
