-- ===== src/Tests/SmallHost.antt =====
-- A small host: it writes and reads the zones and registries of one shape, told apart by their
-- version, and reads one more zone, which has a domain.
use federate.Base.{
  ℕ, Text, Bytes, Bool, none, some, true, false, List, [], ◌∷◌, ◌≡◌, refl, codes, text_eq,
  text_eq_iff, ◌&&◌, Option, ap, sym, and-eq-true,
}
use federate.Core.{Result, ok, err, serde}
use federate.Core.Json.{null}
use federate.Root.{RootZone}
use federate.Manifest.{Manifest}
use federate.Registry.{TldRegistry}
use federate.Host.{Host}
use federate.Resolution.Fresh.{ReadsZones}
use federate.Resolution.Vouched.{ReadsRegistries}
use federate.Resolution.Verified.{Serializes}
use federate.Tests.Fixture.{
  host, sample_serde, empty_zone, fed_record, good_domain, sample_manifest, pad, replicate,
}

abbrev pub zone_at : ℕ → RootZone
zone_at v = record empty_zone { root_version = v; signature = some (pad 64 (7 ∷ [])) }

abbrev pub registry_at : ℕ → TldRegistry
registry_at v = record {
  tld = codes "fed";
  version = v;
  generated_at = [];
  operator_public_key = pad 32 (9 ∷ []);
  domains = [];
  signature_algorithm = codes "ed25519";
  signature = some (pad 64 (9 ∷ []));
}

abbrev pub site_zone : RootZone
site_zone = record (zone_at 3) {
  tlds = (codes "fed", fed_record) ∷ [];
  domains = (codes "good.fed", good_domain) ∷ [];
}

abbrev pub site_manifest : Manifest
site_manifest = record sample_manifest {
  domain = codes "good.fed";
  owner_public_key = pad 32 (5 ∷ []);
  files = (codes "index.html", replicate 64 b'0') ∷ [];
  signature = some (pad 64 (5 ∷ []));
}

abbrev pub none_of {ℓ} : {A : Type ℓ} → List A → Bool
none_of [] = true
none_of (x ∷ xs) = false

abbrev pub signed_as : Text → Option Text → Bool
signed_as sig none = false
signed_as sig (some s) = text_eq s sig

none_of-eq-nil {ℓ} : {A : Type ℓ} (xs : List A) → none_of xs ≡ true → xs ≡ []
none_of-eq-nil [] e = refl
none_of-eq-nil (x ∷ xs) e = cc

signed_as-eq-some : (sig : Text) (o : Option Text) → signed_as sig o ≡ true → o ≡ some sig
signed_as-eq-some sig none e = cc
signed_as-eq-some sig (some s) e = ap (λ (t : Text). some t) ((text_eq_iff s sig).0 e)

abbrev pub has_shape : RootZone → Bool
has_shape z =
    text_eq z.network (codes "federate")
    && (text_eq z.generated_at []
        && (text_eq z.root_public_key (pad 32 (7 ∷ []))
            && (none_of z.tlds
                && (none_of z.domains
                    && (none_of z.audit
                        && (text_eq z.signature_algorithm (codes "ed25519")
                            && signed_as (pad 64 (7 ∷ [])) z.signature))))))

text_of : (s t : Text) → text_eq s t ≡ true → t ≡ s
text_of s t e = sym ((text_eq_iff s t).0 e)

has_shape-zone : (z : RootZone) → has_shape z ≡ true → zone_at z.root_version ≡ z
has_shape-zone z e =
    let (e1, r1) = and-eq-true (text_eq z.network (codes "federate")) _ e in
    let (e2, r2) = and-eq-true (text_eq z.generated_at []) _ r1 in
    let (e3, r3) = and-eq-true (text_eq z.root_public_key (pad 32 (7 ∷ []))) _ r2 in
    let (e4, r4) = and-eq-true (none_of z.tlds) _ r3 in
    let (e5, r5) = and-eq-true (none_of z.domains) _ r4 in
    let (e6, r6) = and-eq-true (none_of z.audit) _ r5 in
    let (e7, e8) = and-eq-true (text_eq z.signature_algorithm (codes "ed25519")) _ r6 in
    λ i. record {
      network = text_of z.network (codes "federate") e1 i;
      root_version = z.root_version;
      generated_at = text_of z.generated_at [] e2 i;
      root_public_key = text_of z.root_public_key (pad 32 (7 ∷ [])) e3 i;
      tlds = sym (none_of-eq-nil z.tlds e4) i;
      domains = sym (none_of-eq-nil z.domains e5) i;
      audit = sym (none_of-eq-nil z.audit e6) i;
      signature_algorithm = text_of z.signature_algorithm (codes "ed25519") e7 i;
      signature = sym (signed_as-eq-some (pad 64 (7 ∷ [])) z.signature e8) i;
    }

abbrev pub registry_shape : TldRegistry → Bool
registry_shape r =
    text_eq r.tld (codes "fed")
    && (text_eq r.generated_at []
        && (text_eq r.operator_public_key (pad 32 (9 ∷ []))
            && (none_of r.domains
                && (text_eq r.signature_algorithm (codes "ed25519")
                    && signed_as (pad 64 (9 ∷ [])) r.signature))))

registry_shape-registry : (r : TldRegistry) → registry_shape r ≡ true → registry_at r.version ≡ r
registry_shape-registry r e =
    let (e1, r1) = and-eq-true (text_eq r.tld (codes "fed")) _ e in
    let (e2, r2) = and-eq-true (text_eq r.generated_at []) _ r1 in
    let (e3, r3) = and-eq-true (text_eq r.operator_public_key (pad 32 (9 ∷ []))) _ r2 in
    let (e4, r4) = and-eq-true (none_of r.domains) _ r3 in
    let (e5, e6) = and-eq-true (text_eq r.signature_algorithm (codes "ed25519")) _ r4 in
    λ i. record {
      tld = text_of r.tld (codes "fed") e1 i;
      version = r.version;
      generated_at = text_of r.generated_at [] e2 i;
      operator_public_key = text_of r.operator_public_key (pad 32 (9 ∷ [])) e3 i;
      domains = sym (none_of-eq-nil r.domains e4) i;
      signature_algorithm = text_of r.signature_algorithm (codes "ed25519") e5 i;
      signature = sym (signed_as-eq-some (pad 64 (9 ∷ [])) r.signature e6) i;
    }

abbrev pub write_version : Bool → ℕ → Result Bytes
write_version false v = err (serde "shape")
write_version true v = ok (v ∷ [])

abbrev pub read_zone : Bytes → Result RootZone
read_zone [] = ok site_zone
read_zone (v ∷ b) = ok (zone_at v)

abbrev pub read_registry : Bytes → Result TldRegistry
read_registry [] = err (serde "empty")
read_registry (v ∷ b) = ok (registry_at v)

abbrev pub small_host : Host
small_host = record host {
  serde = record sample_serde {
    zone_to_vec_pretty = λ z. write_version (has_shape z) z.root_version;
    registry_to_vec_pretty = λ r. write_version (registry_shape r) r.version;
    read_zone = read_zone;
    read_registry = read_registry;
    read_manifest = λ b. ok site_manifest;
  };
}

write_version-eq-ok :
    (test : Bool) (v : ℕ) (b : Bytes) → write_version test v ≡ ok b → (test ≡ true) × (b ≡ v ∷ [])
write_version-eq-ok true v b e = (refl, cc (e))
write_version-eq-ok false v b e = cc

pub small-ReadsZones : ReadsZones small_host
small-ReadsZones z b e =
    let (shape, same) = write_version-eq-ok (has_shape z) z.root_version b e in
    rw same (ap (λ (x : RootZone). ok x) (has_shape-zone z shape))

pub small-ReadsRegistries : ReadsRegistries small_host
small-ReadsRegistries r b e =
    let (shape, same) = write_version-eq-ok (registry_shape r) r.version b e in
    rw same (ap (λ (x : TldRegistry). ok x) (registry_shape-registry r shape))

pub small-Serializes : Serializes small_host
small-Serializes = record {
  tld = λ r. (null, refl);
  domain = λ r. (null, refl);
  manifest = λ m. (null, refl);
}
