-- ===== src/Resolution/Registries.antt =====
-- The registries of delegated TLDs of crates/federate-resolution/src/lib.rs, with
-- `DelegatedRegistryClient` of crates/federate-registry/src/lib.rs.
use federate.Base.{
  ℕ, Text, Bytes, String, Bool, true, false, Option, none, some, List, [], ◌∷◌, ◌++◌, ltb, leb,
  length, get, insert, codes, trim_end_matches, if◌then◌else◌,
}
use federate.Core.{
  Result, ok, err, ◌>>=◌, ◌>>◌, FederateError, guard, network, delegated_registry_unavailable,
  verification_failed, domain_not_found,
}
use federate.Naming.{RegistryType, validate_tld_name}
use federate.Naming.Record.{DomainRecord}
use federate.Root.{RootZone, TldRecord}
use federate.Root
use federate.Manifest.{is_slash}
use federate.Registry.{TldRegistry}
use federate.Registry
use federate.Host.{Host}
use federate.Signing.Registries
use federate.Store.Actions.Domains.{ok_or, map_err}
use federate.Protocol.{Message, version_delegated_registries}
use federate.Transport
use federate.Transport.{Connection, Peer, connect}
use federate.Client.{Response, get_json}
use federate.Resolution.{Resolver, Net, Io, and_then}
use federate.Resolution.Documents.{manifest_bytes}

-- `MAX_REGISTRY_BYTES`.
abbrev pub max_registry_bytes : ℕ
max_registry_bytes = 16777216

-- The errors that never fall back.
abbrev pub is_forgery : FederateError → Bool
is_forgery (verification_failed layer subject reason) = true
is_forgery _ = false

abbrev pub is_tampering : FederateError → Bool
is_tampering (FederateError.hash_mismatch expected actual) = true
is_tampering e = is_forgery e

abbrev pub unavailable : TldRecord → String → FederateError
unavailable rec reason = delegated_registry_unavailable rec.tld reason

-- One provider after another: a good answer and a forged one end the search.
abbrev pub or_forged {ℓ} : {A : Type ℓ} → Result A → Result A → Result A
or_forged (ok a) rest = ok a
or_forged (err e) rest = if is_forgery e then err e else rest

unfoldable pub try_until_forged {ℓ} :
    {A : Type ℓ} → (Text → Result A) → List Text → Result A → Result A
try_until_forged fetch [] last = last
try_until_forged fetch (a ∷ rest) last = or_forged (fetch a) (try_until_forged fetch rest last)

module _ (h : Host) where
  unfoldable pub registry_answer : Text → Text → Message → Result TldRegistry
  registry_answer tld operator (Message.tld_registry name registry_json) = do
    guard (leb (length registry_json) max_registry_bytes) (network "registry exceeds the cap")
    r ← map_err (h.serde.read_registry registry_json) (network "provider sent malformed registry")
    Registries.verify h r tld operator
    ok r
  registry_answer tld operator (Message.error code detail) =
      err (network "registry provider answered an error")
  registry_answer tld operator _ = err (network "registry provider answered unexpectedly")

  -- `DelegatedRegistryClient::fetch_registry`.
  unfoldable pub fetch_registry : (Text → Result Response) → Text → Text → Text → Result TldRegistry
  fetch_registry url endpoint operator tld = do
    value ← get_json h url (trim_end_matches is_slash endpoint ++ codes "/v1/tld-registry/" ++ tld)
    r ← h.serde.registry_from_value value
    Registries.verify h r tld operator
    ok r

  -- The file of the cache is named by the normalized TLD.
  unfoldable pub cached_registry : TldRecord → Resolver → Result TldRegistry
  cached_registry rec s = do
    name ← validate_tld_name rec.tld
    bytes ← ok_or (get name s.registries) (FederateError.io "read")
    r ← h.serde.read_registry bytes
    Registries.verify h r rec.tld rec.operator_public_key
    ok r

  abbrev pub write_registry : Io → Result (Text × Bytes) → Resolver → Resolver
  write_registry io (err e) s = s
  write_registry io (ok (name, bytes)) s =
      if io.write_registry then record s { registries = insert name bytes s.registries } else s

  abbrev pub registry_file : TldRegistry → Result (Text × Bytes)
  registry_file r = do
    name ← validate_tld_name r.tld
    bytes ← h.serde.registry_to_vec_pretty r
    ok (name, bytes)

  unfoldable pub store_registry : Io → TldRegistry → Resolver → Resolver
  store_registry io r s = write_registry io (registry_file r) s

  -- The rollback check against the cache.
  unfoldable pub newer_of :
      Io → TldRegistry → Result TldRegistry → Resolver → Result TldRegistry × Resolver
  newer_of io r (err none_cached) s = (ok r, store_registry io r s)
  newer_of io r (ok cached) s =
      if ltb r.version cached.version then (ok cached, s) else (ok r, store_registry io r s)

  abbrev pub or_cached : FederateError → Result TldRegistry → Result TldRegistry
  or_cached e (err none_cached) = err e
  or_cached e (ok cached) = ok cached

  unfoldable pub after_live :
      Io → TldRecord → Result TldRegistry → Resolver → Result TldRegistry × Resolver
  after_live io rec (err e) s =
      if is_forgery e then (err e, s) else (or_cached e (cached_registry rec s), s)
  after_live io rec (ok r) s = newer_of io r (cached_registry rec s) s

  unfoldable pub read_pinned : TldRecord → Bytes → Result TldRegistry
  read_pinned rec bytes = do
    r ← map_err (h.serde.read_registry bytes) (
        verification_failed "tld-registry" (b'.' ∷ rec.tld)
          "registry manifest is not a valid registry document")
    Registries.verify h r rec.tld rec.operator_public_key
    ok r

  abbrev pub not_fetchable : TldRecord → Result Bytes × Resolver → Result Bytes × Resolver
  not_fetchable rec (ok bytes, s) = (ok bytes, s)
  not_fetchable rec (err e, s) =
      if is_tampering e
      then (err e, s)
      else (err (unavailable rec "registry manifest not fetchable"), s)

  module _ (net : Net) where
    unfoldable pub fetch_registry_native : Resolver → Text → Text → Text → Result TldRegistry
    fetch_registry_native s tld operator addr = do
      conn ← connect h (net.dial addr) s.identity net.agent
      guard (leb version_delegated_registries conn.version)
          (network "provider has no delegated registry support")
      answer ← Transport.request conn (Message.get_tld_registry tld)
      registry_answer tld operator answer

    abbrev pub from_endpoint : TldRecord → Option Text → Result TldRegistry
    from_endpoint rec none = err (unavailable rec "no registry provider answered")
    from_endpoint rec (some endpoint) =
        or_forged (fetch_registry net.url endpoint rec.operator_public_key rec.tld)
          (err (unavailable rec "no registry provider answered"))

    unfoldable pub fetch_registry_live : Resolver → TldRecord → Result TldRegistry
    unfolding try_until_forged fetch_registry_native
    fetch_registry_live s rec =
        try_until_forged (fetch_registry_native s rec.tld rec.operator_public_key)
          rec.registry_providers (from_endpoint rec rec.registry_endpoint)

    -- `delegated_manifest`.
    unfoldable pub pinned_registry :
        Io → TldRecord → Option Text → Resolver → Result TldRegistry × Resolver
    pinned_registry io rec none s =
        (err (unavailable rec "TLD record carries no registry_manifest_hash"), s)
    pinned_registry io rec (some hash) s =
        and_then (not_fetchable rec (manifest_bytes h net io hash s))
          (λ bytes s1. (read_pinned rec bytes, s1))

    unfoldable pub registry_by_type :
        Io → TldRecord → RegistryType → Resolver → Result TldRegistry × Resolver
    registry_by_type io rec RegistryType.delegated_manifest s =
        pinned_registry io rec rec.registry_manifest_hash s
    registry_by_type io rec RegistryType.delegated_native s =
        after_live io rec (fetch_registry_live s rec) s
    registry_by_type io rec RegistryType.delegated_http s =
        after_live io rec (fetch_registry_live s rec) s
    registry_by_type io rec _ s = (err (unavailable rec "registry type is not resolvable"), s)

    unfoldable pub tld_registry : Io → TldRecord → Resolver → Result TldRegistry × Resolver
    tld_registry io rec s = registry_by_type io rec rec.registry_type s

    abbrev pub from_registry : Text → Result TldRegistry × Resolver → Result DomainRecord × Resolver
    from_registry fqdn p =
        and_then p (λ r s1. (ok_or (Registry.lookup fqdn r) (domain_not_found fqdn), s1))

    unfoldable pub locate_by_type :
        Io → RootZone → TldRecord → Text → RegistryType → Resolver → Result DomainRecord × Resolver
    locate_by_type io zone rec fqdn RegistryType.root_managed s =
        (ok_or (Root.lookup fqdn zone) (domain_not_found fqdn), s)
    locate_by_type io zone rec fqdn RegistryType.offline_manual s =
        (err (unavailable rec "registry is administered offline and cannot be resolved"), s)
    locate_by_type io zone rec fqdn _ s = from_registry fqdn (tld_registry io rec s)

    unfoldable pub locate_record :
        Io → RootZone → TldRecord → Text → Resolver → Result DomainRecord × Resolver
    locate_record io zone rec fqdn s = locate_by_type io zone rec fqdn rec.registry_type s
