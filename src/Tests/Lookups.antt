-- ===== src/Tests/Lookups.antt =====
-- Where domains, files and blocks are found.
use federate.Base.{
  List, inl, Text, ltb_ℤ, ◌-ℤ◌, ◌*◌, ℤ, pos, ◌≡◌, ◌≢◌, refl, some, true, false, [], ◌∷◌, codes, get,
  text_eq, len, trim, trim_start_matches, trim_end_matches, is_whitespace, to_ascii_lowercase,
  split_first, split_once, contains, ends_with,
}
use federate.Core.{ok}
use federate.Core.Json.{write_canonical}
use federate.Naming
use federate.Naming.{
  validate_label, validate_tld_name, parse_parts, is_resolvable_tld, DomainStatus,
}
use federate.Naming.Canonical.{validate_tld_name-IsTld}
use federate.Naming.Expiry.{expired_at}
use federate.Root.{RootZone, lookup_tld, lookup}
use federate.Root.Blocklists.{Blocklists, is_member, check, admit, validate_new_tld}
use federate.Root.Admission.{IsAdmitted, validate_new_tld-IsAdmitted, validate_new_tld_complete}
use federate.Manifest
use federate.Manifest.{resolve_path, candidates, is_slash}
use federate.Manifest.Resolved.{IsFirst, Tries, resolve_path-IsFirst}
use federate.Registry.{TldRegistry, DomainSource}
use federate.Mutation.{nonce_ttl_secs, SitePackage, publish_site}
use federate.Identity.{
  canonical_bytes, check_signature, verify_signature, verify_with, verify_decoded,
}
use federate.Signing.Domains
use federate.Signing.Tlds
use federate.Signing.Registries
use federate.Signing.Entries.{IsVouched, verify_registry-IsVouched}
use federate.Storage.{verify, is_valid_hash, hash_bytes}
use federate.Store.Database.{empty_database, consume_nonce, reserve_nonce}
use federate.Store.Database.Reservations.{consume_nonce-reserve_nonce}
use federate.Locate
use federate.Locate.{locate_root_managed, locate_by_type, locate_domain}
use federate.Locate.Located.{IsLocated, locate_domain-IsLocated}
use federate.Package.{decode, decode_blocks}
use federate.Package.Decoded.{IsDecoded, decode-IsDecoded}
use federate.Tests.Fixture.{
  host, fed_store, good_domain, issue_good, sample_manifest, no_lists, pad, replicate,
}

abbrev zone : RootZone
zone = record fed_store.zone { domains = (codes "good.fed", good_domain) ∷ [] }

good_located :
    locate_domain host zone (codes "GOOD.fed:80") ≡ ok (DomainSource.root_managed good_domain)
unfolding locate_domain locate_by_type locate_root_managed Locate.tld lookup_tld lookup get text_eq
    Naming.parse parse_parts split_first split_once to_ascii_lowercase contains validate_label
    validate_tld_name trim trim_start_matches trim_end_matches is_whitespace len ends_with
    is_resolvable_tld Tlds.is_expired Domains.is_expired expired_at Domains.verify
    Domains.signable_bytes canonical_bytes write_canonical check_signature verify_signature
    verify_with verify_decoded Naming.fqdn
good_located = refl

locate_domain-IsLocated_example :
    IsLocated host zone (codes "GOOD.fed:80") (DomainSource.root_managed good_domain)
locate_domain-IsLocated_example =
    locate_domain-IsLocated host zone (codes "GOOD.fed:80") (DomainSource.root_managed good_domain)
      good_located

abbrev site : SitePackage
site = record {
  mutation = record issue_good { action = publish_site (codes "home.fed") (replicate 64 b'0') };
  manifest_hex = 1 ∷ [];
  blocks = record { hash = replicate 64 b'0'; data_hex = 2 ∷ 3 ∷ [] } ∷ [];
}

site_decoded : decode host site ≡ ok (1 ∷ [], (replicate 64 b'0', 2 ∷ 3 ∷ []) ∷ [])
unfolding decode decode_blocks verify is_valid_hash hash_bytes len text_eq
site_decoded = refl

decode-IsDecoded_example : IsDecoded host site (1 ∷ []) ((replicate 64 b'0', 2 ∷ 3 ∷ []) ∷ [])
decode-IsDecoded_example =
    decode-IsDecoded host site (1 ∷ []) ((replicate 64 b'0', 2 ∷ 3 ∷ []) ∷ []) site_decoded

abbrev registry : TldRegistry
registry = record {
  tld = codes "fed";
  version = 1;
  generated_at = [];
  operator_public_key = pad 32 (9 ∷ []);
  domains = (codes "good.fed", good_domain) ∷ [];
  signature_algorithm = codes "ed25519";
  signature = some (pad 64 (9 ∷ []));
}

registry_verified : Registries.verify host registry (codes "fed") (pad 32 (9 ∷ [])) ≡ ok tt
unfolding Registries.verify Registries.check_entries Registries.signable_bytes canonical_bytes
    write_canonical check_signature verify_signature verify_with verify_decoded text_eq
registry_verified = refl

verify_registry-IsVouched_example : IsVouched host registry (codes "fed") (pad 32 (9 ∷ []))
verify_registry-IsVouched_example =
    verify_registry-IsVouched host registry (codes "fed") (pad 32 (9 ∷ [])) registry_verified

resolve_path-IsFirst_example :
    (tried : List Text) × Tries sample_manifest.entry (codes "/docs") tried
    × IsFirst sample_manifest.files tried (resolve_path sample_manifest (codes "/docs"))
resolve_path-IsFirst_example = resolve_path-IsFirst sample_manifest (codes "/docs")

sample_valid : Manifest.validate sample_manifest ≡ ok tt
unfolding Manifest.validate get text_eq
sample_valid = refl

abbrev lists : Blocklists
lists = record no_lists { policy = codes "fed" ∷ [] }

home_admitted : validate_new_tld lists (codes ".Home") false ≡ ok (codes "home")
unfolding validate_new_tld check admit is_member text_eq validate_tld_name trim trim_start_matches
    trim_end_matches is_whitespace to_ascii_lowercase len
home_admitted = refl

validate_new_tld-IsAdmitted_example : IsAdmitted lists false (codes "home")
validate_new_tld-IsAdmitted_example =
    validate_new_tld-IsAdmitted lists (codes ".Home") false (codes "home") home_admitted

fed_parsed : validate_tld_name (codes "fed") ≡ ok (codes "fed")
unfolding validate_tld_name trim trim_start_matches trim_end_matches is_whitespace
    to_ascii_lowercase len
fed_parsed = refl

fed_not_public : is_member (codes "fed") lists.iana ≡ false
unfolding is_member text_eq
fed_not_public = refl

fed_reserved : is_member (codes "fed") lists.reserved ≡ true
unfolding is_member text_eq
fed_reserved = refl

validate_new_tld_complete_example : validate_new_tld lists (codes "fed") true ≡ ok (codes "fed")
validate_new_tld_complete_example = validate_new_tld_complete lists true (codes "fed") (record {
  canonical = validate_tld_name-IsTld (codes "fed") (codes "fed") fed_parsed;
  not_public = fed_not_public;
  listed = inl (fed_reserved, refl);
})

consume_nonce-reserve_nonce_example :
    ((consume_nonce
        (ok tt)
        (1 ∷ [])
        (pos 50)
        (reserve_nonce (ok tt) (1 ∷ []) (pos 300) empty_database).1).0
      ≡ ok true)
    × ((other : Text) (t : ℤ)
        → other ≢ 1 ∷ []
        → get other empty_database.nonces ≡ some t
        → ltb_ℤ t (pos 300 -ℤ pos (2 * nonce_ttl_secs)) ≡ false
        → get other (reserve_nonce (ok tt) (1 ∷ []) (pos 300) empty_database).1.nonces ≡ some t)
consume_nonce-reserve_nonce_example =
    consume_nonce-reserve_nonce empty_database (1 ∷ []) (pos 300) (pos 50)
