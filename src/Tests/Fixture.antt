-- ===== src/Tests/Fixture.antt =====
-- A host whose functions are concrete, and a small registry: the keys are short and the documents
-- have one text, which is enough to run the code.
use federate.Base.{
  ℕ, zero, suc, Text, Bytes, none, some, true, [], ◌∷◌, ◌++◌, length, codes, pos, ◌≡◌, refl, arith,
}
use federate.Core.{Result, ok, err, serde}
use federate.Core.Json.{null}
use federate.Naming.{TldStatus, TldMode, RegistryType, DomainStatus, TargetType}
use federate.Naming.Expiry.{DateTime, Chrono}
use federate.Naming.Record.{DomainRecord}
use federate.Root.{RootZone, TldRecord, signature_algorithm}
use federate.Root.Blocklists.{Blocklists}
use federate.Manifest.{Manifest}
use federate.Mutation.{MutationRequest, AuditRecord, create_tld, issue_domain}
use federate.Host.{Host, Serde, SignsCorrectly}
use federate.Identity.{NodeIdentity}
use federate.Store.{MutationContext}
use federate.Store.Database.{empty_database}
use federate.Store.Prepare.{RegistryStore}
use federate.Store.Apply.{Io}

abbrev pub replicate : ℕ → ℕ → Bytes
replicate zero b = []
replicate (suc n) b = b ∷ replicate n b

-- The first `n` bytes, filled up with zeros.
abbrev pub pad : ℕ → Bytes → Bytes
pad zero b = []
pad (suc n) [] = 0 ∷ pad n []
pad (suc n) (x ∷ b) = x ∷ pad n b

pub length-pad : (n : ℕ) (b : Bytes) → length (pad n b) ≡ n
length-pad zero b = refl
length-pad (suc n) [] = omega (arith, length-pad n [])
length-pad (suc n) (x ∷ b) = omega (arith, length-pad n b)

abbrev pub noon : DateTime
noon = record { timestamp = pos 1000; nanos = 0 }

abbrev pub sample_manifest : Manifest
sample_manifest = record {
  domain = codes "home.fed";
  version = 1;
  entry = codes "index.html";
  files = (codes "index.html", codes "00") ∷ [];
  owner_public_key = pad 32 (1 ∷ []);
  created_at = [];
  signature_algorithm = signature_algorithm;
  signature = some [];
}

abbrev pub sample_serde : Serde
sample_serde = record {
  to_vec = λ v. [];
  domain_value = λ r. ok null;
  tld_value = λ r. ok null;
  zone_value = λ z. ok null;
  manifest_value = λ m. ok null;
  registry_value = λ r. ok null;
  mutation_value = λ r. ok null;
  audit_value = λ r. ok null;
  zone_to_vec = λ z. ok [];
  zone_to_vec_pretty = λ z. ok [];
  read_manifest = λ b. ok sample_manifest;
  read_registry = λ b. err (serde "not a registry");
  read_zone = λ b. err (serde "not a zone");
  read_value = λ b. ok null;
  registry_from_value = λ v. err (serde "not a registry");
  registry_to_vec_pretty = λ r. ok [];
}

abbrev pub sample_chrono : Chrono
sample_chrono = record { parse_from_rfc3339 = λ t. some noon; to_rfc3339 = λ t. [] }

abbrev pub host : Host
host = record {
  hex_encode = λ b. b;
  hex_decode = λ t. some t;
  public_key = λ k. pad 32 k;
  sign_bytes = λ k m. pad 64 k;
  is_point = λ b. true;
  verify_bytes = λ pk m sig. true;
  blake3_hex = λ b. replicate 64 b'0';
  chrono = sample_chrono;
  utc_now = noon;
  serde = sample_serde;
}

pub host-SignsCorrectly : SignsCorrectly host
host-SignsCorrectly = record {
  decode-encode = λ b. refl;
  length-public_key = λ k. length-pad 32 k;
  length-sign_bytes = λ k m. length-pad 64 k;
  public_key_is_point = λ k. refl;
  verify-sign = λ k m. refl;
}

abbrev pub root_identity : NodeIdentity
root_identity = record { signing_key = 7 ∷ [] }

abbrev pub operator_identity : NodeIdentity
operator_identity = record { signing_key = 9 ∷ [] }

abbrev pub no_lists : Blocklists
no_lists = record {
  iana = codes "com" ∷ [];
  reserved = codes "fed" ∷ [];
  policy = [];
  brand_safety = [];
}

abbrev pub ctx : MutationContext
ctx = record {
  root = root_identity;
  official_operator = operator_identity;
  blocklists = no_lists;
  now = noon;
}

abbrev pub empty_zone : RootZone
empty_zone = record {
  network = codes "federate";
  root_version = 1;
  generated_at = [];
  root_public_key = pad 32 (7 ∷ []);
  tlds = [];
  domains = [];
  audit = [];
  signature_algorithm = signature_algorithm;
  signature = none;
}

abbrev pub empty_store : RegistryStore
empty_store = record {
  backend = empty_database;
  zone = empty_zone;
  registries = [];
  manifests = [];
  blocks = [];
  target_versions = [];
  applied = [];
  audit = [];
}

abbrev pub good_io : Io
good_io = record {
  write_manifest = ok tt;
  commit = ok tt;
  write_snapshot = ok tt;
  snapshot_row = ok tt;
}

-- The root creates `.fed`.
abbrev pub create_fed : MutationRequest
create_fed = record {
  mutation_id = replicate 64 b'0';
  nonce = [];
  issued_at = [];
  actor_public_key = pad 32 (7 ∷ []);
  target_version = 1;
  action = create_tld (codes "fed") (codes "official");
  signature_algorithm = signature_algorithm;
  signature = some (pad 64 (7 ∷ []));
}

-- `.fed` exists, the domain `bad.fed` is revoked, and the database points at the zone.
abbrev pub fed_record : TldRecord
fed_record = record {
  tld = codes "fed";
  status = TldStatus.official;
  mode = TldMode.official;
  owner_public_key = pad 32 (7 ∷ []);
  operator_public_key = pad 32 (9 ∷ []);
  operator_name = [];
  registry_type = RegistryType.root_managed;
  registry_endpoint = none;
  registry_manifest_hash = none;
  registry_providers = [];
  policy_hash = none;
  pricing = none;
  created_at = [];
  updated_at = [];
  expires_at = none;
  notes = none;
  signature_algorithm = signature_algorithm;
  signature = some (pad 64 (7 ∷ []));
}

abbrev pub domain_record : Text → DomainStatus → DomainRecord
domain_record label status = record {
  domain = label ++ codes ".fed";
  tld = codes "fed";
  label = label;
  owner_public_key = pad 32 (5 ∷ []);
  target_type = TargetType.manifest;
  manifest_hash = replicate 64 b'0';
  service_id = none;
  node_id = none;
  status = status;
  created_at = [];
  updated_at = [];
  expires_at = none;
  renewal = none;
  pricing = none;
  signature_algorithm = signature_algorithm;
  signature = some (pad 64 (9 ∷ []));
}

abbrev pub bad_domain : DomainRecord
bad_domain = domain_record (codes "bad") DomainStatus.revoked

abbrev pub good_domain : DomainRecord
good_domain = domain_record (codes "good") DomainStatus.active

abbrev pub fed_store : RegistryStore
fed_store = record empty_store {
  backend = record empty_database { current_version = some 1 };
  zone = record empty_zone {
    tlds = (codes "fed", fed_record) ∷ [];
    domains = (codes "bad.fed", bad_domain) ∷ [];
  };
}

-- The operator of `.fed` issues `good.fed`.
abbrev pub issue_good : MutationRequest
issue_good = record {
  mutation_id = replicate 64 b'0';
  nonce = [];
  issued_at = [];
  actor_public_key = pad 32 (9 ∷ []);
  target_version = 1;
  action = issue_domain good_domain;
  signature_algorithm = signature_algorithm;
  signature = some (pad 64 (9 ∷ []));
}

abbrev pub event_of : Result AuditRecord → AuditRecord
event_of (ok e) = e
event_of (err x) = record {
  event_id = [];
  mutation_id = [];
  actor_public_key = [];
  actor_role = [];
  action = [];
  target_type = [];
  target_id = [];
  previous_state_hash = [];
  new_state_hash = [];
  timestamp = [];
  signature_algorithm = [];
  signature = none;
}
