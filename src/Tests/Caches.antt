-- ===== src/Tests/Caches.antt =====
-- The block cache: a second block of six bytes evicts the first from a cache of ten.
use federate.Base.{
  Text, Bytes, none, some, true, [], ◌∷◌, ◌≡◌, refl, arith, get, insert, remove, text_eq, text_ltb,
  len,
}
use federate.Core.{ok}
use federate.Storage.{put_block, is_valid_hash, hash_bytes, remove_block}
use federate.Storage
use federate.Cdn.Cache.{CdnCache, cache_put, set_entry}
use federate.Cdn.Put.{IsPut, cache_put-IsPut}
use federate.Tests.Fixture.{replicate}
use federate.Tests.SmallHost.{small_host}
use federate.Tests.Resolver.{address}

abbrev old : Text
old = replicate 64 b'1'

abbrev six_bytes : Bytes
six_bytes = 1 ∷ 2 ∷ 3 ∷ 4 ∷ 5 ∷ 6 ∷ []

abbrev cache : CdnCache
cache = record {
  store = (old, six_bytes) ∷ [];
  index = (old, record { last_used = 5; size = 6 }) ∷ [];
  index_file = none;
  max_bytes = 10;
}

abbrev filled : CdnCache
filled = record {
  store = (address, six_bytes) ∷ [];
  index = (address, record { last_used = 7; size = 6 }) ∷ [];
  index_file = some ((address, record { last_used = 7; size = 6 }) ∷ []);
  max_bytes = 10;
}

put_evicts : cache_put small_host (λ k. ok tt) 7 true address six_bytes cache ≡ ok filled
unfolding cache_put put_block Storage.verify is_valid_hash hash_bytes remove_block get insert remove
    text_eq len set_entry text_ltb
put_evicts = refl

cache_put-IsPut_example : IsPut small_host (λ k. ok tt) 7 address six_bytes cache filled
cache_put-IsPut_example =
    cache_put-IsPut small_host (λ k. ok tt) 7 true address six_bytes cache filled
      (unfold get in (refl, tt)) (omega arith) put_evicts
