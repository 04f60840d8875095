-- ===== src/Resolution/Fetched.antt =====
-- Manifest bytes that the resolver returns have the address that was asked for, whoever sent them.
use federate.Base.{
  Bytes, Text, Option, none, some, ◌≡◌, refl, get, remove, get-insert_self, arith, inl, inr,
}
use federate.Core.{Result, ok, err, guard, ◌>>◌, >>=-eq-ok}
use federate.Host.{Host}
use federate.Storage
use federate.Storage.{is_valid_hash, hash_bytes, get_block, put_block, Blocks}
use federate.Storage.Integrity.{verify_sound}
use federate.Protocol.{Message}
use federate.Client.{Response, fetch_manifest_bytes, get_bytes}
use federate.Resolution.{Resolver, Net, Io, Result-cases, try_each_sound, exchange}
use federate.Resolution.Documents.{
  manifest_answer, cache_manifest, fetch_manifest_native, fetch_manifest_network, checked_cache,
  use_cached, if_valid, manifest_bytes,
}

module _ (h : Host) where
  abbrev pub HasHash : Text → Bytes → Type 0
  HasHash hash b = Storage.verify h b hash ≡ ok tt

  -- What `verify(&bytes, hash)?; Ok(bytes)` returns.
  pub verified-HasHash :
      (hash : Text) (b b' : Bytes) → (Storage.verify h b hash >> ok b) ≡ ok b' → HasHash hash b'
  verified-HasHash hash b b' e =
      let (u, v, q) = >>=-eq-ok (Storage.verify h b hash) (λ u. ok b) e in ground (arith, v, q)

  manifest_answer-HasHash :
      (hash : Text) (m : Message) (b : Bytes) → manifest_answer h hash m ≡ ok b → HasHash hash b
  unfolding manifest_answer
  manifest_answer-HasHash hash m b e = ground arith

  fetch_manifest_bytes-HasHash :
      (send : Text → Result Response) (hash : Text) (b : Bytes)
      → fetch_manifest_bytes h send hash ≡ ok b
      → HasHash hash b
  unfolding fetch_manifest_bytes
  fetch_manifest_bytes-HasHash send hash b e =
      let (u, q1, e1) = >>=-eq-ok (guard (is_valid_hash hash) _) _ e in
      let (b', q2, e2) = >>=-eq-ok (get_bytes send _ _) _ e1 in verified-HasHash hash b' b e2

  fetch_manifest_network-HasHash :
      (net : Net) (s : Resolver) (hash : Text) (b : Bytes)
      → fetch_manifest_network h net s hash ≡ ok b
      → HasHash hash b
  unfolding fetch_manifest_network fetch_manifest_native
  fetch_manifest_network-HasHash net s hash b e =
      try_each_sound {Good = λ b. HasHash hash b} (fetch_manifest_native h net s hash)
        s.native_providers (fetch_manifest_bytes h net.node_one hash)
        (λ addr b' q.
          let (m, q1, q2) = >>=-eq-ok (exchange h net s addr (Message.get_manifest hash)) _ q in
          manifest_answer-HasHash hash m b' q2)
        (fetch_manifest_bytes-HasHash net.node_one hash) b e

  -- The bytes have the hash, and are in the cache.
  abbrev pub IsCached : Text → Bytes → Resolver → Type 0
  IsCached hash b s = HasHash hash b × (get hash s.manifests ≡ some b)

  cache_manifest-IsCached :
      (net : Net) (i : Io) (hash : Text) (r : Result Bytes) (s s' : Resolver) (b : Bytes)
      → ((b : Bytes) → r ≡ ok b → HasHash hash b)
      → cache_manifest h i hash r s ≡ (ok b, s')
      → IsCached hash b s'
  cache_manifest-IsCached net i hash (err e) s s' b good q = cc
  cache_manifest-IsCached net i hash (ok b') s s' b good q = elim (Result-cases i.write_manifest) [
    | inl (u, w) ↦ ground (arith, q, w, good b' refl, get-insert_self hash b' s.manifests)
    | inr (e, w) ↦ ground (arith, q, w)
  ]

  checked_cache-IsCached :
      (net : Net) (i : Io) (hash : Text) (b' : Bytes) (r : Result (Unit {0})) (s s' : Resolver)
      (b : Bytes)
      → r ≡ Storage.verify h b' hash
      → get hash s.manifests ≡ some b'
      → checked_cache h net i hash b' r s ≡ (ok b, s')
      → IsCached hash b s'
  checked_cache-IsCached net i hash b' (ok u) s s' b v there q = ground (arith, q, v, there)
  checked_cache-IsCached net i hash b' (err e) s s' b v there q =
      cache_manifest-IsCached net i hash (fetch_manifest_network h net s hash)
        (record s { manifests = remove hash s.manifests }) s' b
        (fetch_manifest_network-HasHash net s hash) q

  use_cached-IsCached :
      (net : Net) (i : Io) (hash : Text) (o : Option Bytes) (s s' : Resolver) (b : Bytes)
      → get hash s.manifests ≡ o
      → use_cached h net i hash o s ≡ (ok b, s')
      → IsCached hash b s'
  unfolding use_cached
  use_cached-IsCached net i hash none s s' b there q =
      cache_manifest-IsCached net i hash (fetch_manifest_network h net s hash) s s' b
        (fetch_manifest_network-HasHash net s hash) q
  use_cached-IsCached net i hash (some b') s s' b there q =
      checked_cache-IsCached net i hash b' (Storage.verify h b' hash) s s' b refl there q

  if_valid-IsCached :
      (net : Net) (i : Io) (hash : Text) (r : Result (Unit {0})) (s s' : Resolver) (b : Bytes)
      → if_valid h net i hash r s ≡ (ok b, s')
      → IsCached hash b s'
  if_valid-IsCached net i hash (err e) s s' b q = cc
  if_valid-IsCached net i hash (ok u) s s' b q =
      use_cached-IsCached net i hash (get hash s.manifests) s s' b refl q

  -- Manifest bytes that are returned hash to the address and are in the cache, and from then on the
  -- same bytes are returned with no answer of the network and no change.
  pub manifest_bytes-IsCached :
      (net : Net) (i : Io) (hash : Text) (s s' : Resolver) (b : Bytes)
      → manifest_bytes h net i hash s ≡ (ok b, s')
      → (hash_bytes h b ≡ hash)
        × ((net' : Net) (i' : Io) → manifest_bytes h net' i' hash s' ≡ (ok b, s'))
  unfolding manifest_bytes use_cached
  manifest_bytes-IsCached net i hash s s' b q =
      let (v, there) = if_valid-IsCached net i hash (guard (is_valid_hash hash) _) s s' b q in
      let (valid, same) = verify_sound h b hash v in (same, λ net' i'. rw (valid, there, v) refl)
