-- ===== src/Resolution/Current.antt =====
-- The registry of a delegated TLD, from whichever source: signed, and kept against a rollback.
use federate.Base.{
  Bytes, Text, Option, none, some, Bool, Bool-cases, inl, inr, false, ◌≡◌, refl, get, remove, arith,
}
use federate.Core.{Result, ok, err, FederateError, guard, manifest_not_found}
use federate.Naming.{RegistryType}
use federate.Root.{TldRecord}
use federate.Host.{Host}
use federate.Storage
use federate.Storage.{is_valid_hash}
use federate.Resolution.{Resolver, Net, Io, Result-cases, and_then}
use federate.Resolution.Documents.{
  manifest_bytes, use_cached, cache_manifest, checked_cache, if_valid, fetch_manifest_network,
}
use federate.Resolution.Registries.{
  is_tampering, cached_registry, read_pinned, not_fetchable, pinned_registry, registry_by_type,
  tld_registry,
}
use federate.Resolution.Vouched.{ReadsRegistries, read_pinned-IsSigned}
use federate.Resolution.Rollback.{
  is_live, KeepsRegistry, IsCurrent, KeepsRegistry-refl, after_live-IsCurrent,
}

module _ (h : Host) where
  cache_manifest-registries :
      (i : Io) (hash : Text) (r : Result Bytes) (s : Resolver)
      → (cache_manifest h i hash r s).1.registries ≡ s.registries
  cache_manifest-registries i hash (err e) s = refl
  cache_manifest-registries i hash (ok b) s = elim (Result-cases i.write_manifest) [
    | inl (u, q) ↦ rw q refl
    | inr (e, q) ↦ rw q refl
  ]

  checked_cache-registries :
      (net : Net) (i : Io) (hash : Text) (b : Bytes) (r : Result (Unit {0})) (s : Resolver)
      → (checked_cache h net i hash b r s).1.registries ≡ s.registries
  checked_cache-registries net i hash b (ok u) s = refl
  checked_cache-registries net i hash b (err e) s =
      cache_manifest-registries i hash (fetch_manifest_network h net s hash)
        (record s { manifests = remove hash s.manifests })

  use_cached-registries :
      (net : Net) (i : Io) (hash : Text) (o : Option Bytes) (s : Resolver)
      → (use_cached h net i hash o s).1.registries ≡ s.registries
  unfolding use_cached
  use_cached-registries net i hash none s =
      cache_manifest-registries i hash (fetch_manifest_network h net s hash) s
  use_cached-registries net i hash (some b) s =
      checked_cache-registries net i hash b (Storage.verify h b hash) s

  if_valid-registries :
      (net : Net) (i : Io) (hash : Text) (r : Result (Unit {0})) (s : Resolver)
      → (if_valid h net i hash r s).1.registries ≡ s.registries
  if_valid-registries net i hash (ok u) s =
      use_cached-registries net i hash (get hash s.manifests) s
  if_valid-registries net i hash (err e) s = refl

  manifest_bytes-registries :
      (net : Net) (i : Io) (hash : Text) (s : Resolver)
      → (manifest_bytes h net i hash s).1.registries ≡ s.registries
  unfolding manifest_bytes
  manifest_bytes-registries net i hash s =
      if_valid-registries net i hash (guard (is_valid_hash hash) (manifest_not_found hash)) s

  same_registries-KeepsRegistry :
      (rec : TldRecord) (s s' : Resolver) → s'.registries ≡ s.registries → KeepsRegistry h rec s s'
  unfolding cached_registry
  same_registries-KeepsRegistry rec s s' same = λ c l. (c, rw same l, omega arith)

  fetched-IsCurrent :
      (rec : TldRecord) (s : Resolver) (p : Result Bytes × Resolver)
      → p.1.registries ≡ s.registries
      → IsCurrent h rec false s
          (and_then (not_fetchable h rec p) (λ b s1. (read_pinned h rec b, s1)))
  fetched-IsCurrent rec s (ok b, s1) same = record {
    signed = λ r q. read_pinned-IsSigned h rec b r q;
    keeps = same_registries-KeepsRegistry rec s s1 same;
    not_older = λ t. cc;
  }
  fetched-IsCurrent rec s (err e, s1) same = elim (Bool-cases (is_tampering e)) [
    | inl t ↦ rw t record {
      signed = λ r q. cc;
      keeps = same_registries-KeepsRegistry rec s s1 same;
      not_older = λ t. cc;
    }
    | inr t ↦ rw t record {
      signed = λ r q. cc;
      keeps = same_registries-KeepsRegistry rec s s1 same;
      not_older = λ t. cc;
    }
  ]

  refused-IsCurrent :
      (rec : TldRecord) (live : Bool) (e : FederateError) (s : Resolver)
      → IsCurrent h rec live s (err e, s)
  refused-IsCurrent rec live e s = record {
    signed = λ r q. cc;
    keeps = KeepsRegistry-refl h rec s;
    not_older = λ t r q. cc;
  }

  pinned-IsCurrent :
      (net : Net) (rec : TldRecord) (i : Io) (o : Option Text) (s : Resolver)
      → IsCurrent h rec false s (pinned_registry h net i rec o s)
  unfolding pinned_registry
  pinned-IsCurrent net rec i none s = refused-IsCurrent rec false _ s
  pinned-IsCurrent net rec i (some hash) s =
      fetched-IsCurrent rec s (manifest_bytes h net i hash s)
        (manifest_bytes-registries net i hash s)

  by_type-IsCurrent :
      (net : Net) (rec : TldRecord) (i : Io) (k : RegistryType) (s : Resolver)
      → ReadsRegistries h
      → IsCurrent h rec (is_live k) s (registry_by_type h net i rec k s)
  unfolding registry_by_type
  by_type-IsCurrent net rec i RegistryType.root_managed s reads = refused-IsCurrent rec false _ s
  by_type-IsCurrent net rec i RegistryType.delegated_manifest s reads =
      pinned-IsCurrent net rec i rec.registry_manifest_hash s
  by_type-IsCurrent net rec i RegistryType.delegated_native s reads =
      after_live-IsCurrent h net rec i s reads
  by_type-IsCurrent net rec i RegistryType.delegated_http s reads =
      after_live-IsCurrent h net rec i s reads
  by_type-IsCurrent net rec i RegistryType.offline_manual s reads = refused-IsCurrent rec false _ s

  -- A registry that the resolver gives for a TLD verifies under the operator of the TLD record; if the
  -- registry is a live one, it is not older than the verified one in the cache, whatever the providers
  -- answer; and a registry in the cache stays there, or one that is not older takes its place.
  pub tld_registry-IsCurrent :
      (net : Net) (rec : TldRecord) (i : Io) (s : Resolver)
      → ReadsRegistries h
      → IsCurrent h rec (is_live rec.registry_type) s (tld_registry h net i rec s)
  unfolding tld_registry
  tld_registry-IsCurrent net rec i s reads = by_type-IsCurrent net rec i rec.registry_type s reads
