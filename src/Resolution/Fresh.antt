-- ===== src/Resolution/Fresh.antt =====
-- The root zone of a resolver whose trust anchor is set: what it serves verifies, and no answer of
-- the network turns it back.
use federate.Base.{
  Bytes, Text, Option, none, some, Bool-cases, inl, inr, ltb, ◌≤◌, ◌≡◌, refl, arith,
}
use federate.Core.{Result, ok, err, FederateError, >>=-eq-ok}
use federate.Root.{RootZone}
use federate.Root
use federate.Host.{Host}
use federate.Signing.Zones
use federate.Resolution.{Resolver, Io, Result-cases}
use federate.Resolution.Roots.{
  load, stored_bytes, verify_zone, verify_pinned, last_verified_zone, fall_back, store_zone,
  keep_newer, after_verify, from_cache, after_fetch, adopt, verified_cache, in_memory,
}

module _ (h : Host) where
  -- The zone in memory is the one in the cache file, and verifies under the key.
  abbrev pub IsHeld : Text → Resolver → Type 0
  IsHeld k s = (m : RootZone) → s.root ≡ some m → (load h s ≡ ok m) × (Zones.verify h m k ≡ ok tt)

  -- The reader of zones reads what the writer wrote.
  abbrev pub ReadsZones : Type 0
  ReadsZones =
      (z : RootZone) (b : Bytes) → h.serde.zone_to_vec_pretty z ≡ ok b → h.serde.read_zone b ≡ ok z

  -- No verified zone of the cache is newer than the zone.
  abbrev pub IsNewest : Text → Resolver → RootZone → Type 0
  IsNewest k s z =
      (m : RootZone)
      → load h s ≡ ok m
      → Zones.verify h m k ≡ ok tt
      → m.root_version ≤ z.root_version

  pub record IsRefreshed (k : Text) (s : Resolver) (r : Result RootZone) (s' : Resolver)
      : Type 0 where
    pub pinned : s'.trusted_root_key ≡ some k
    pub held : IsHeld k s'
    pub cached :
        (m : RootZone)
        → load h s ≡ ok m
        → Zones.verify h m k ≡ ok tt
        → (m' : RootZone) × (load h s' ≡ ok m')
          × (Zones.verify h m' k ≡ ok tt)
          × (m.root_version ≤ m'.root_version)
    pub served :
        (z : RootZone)
        → r ≡ ok z
        → (s'.root ≡ some z) × (Zones.verify h z k ≡ ok tt) × IsNewest k s z

  module _ (k : Text) (s : Resolver) (pinned : s.trusted_root_key ≡ some k)
      (held : IsHeld k s) where
    -- The three ways that a refresh ends: with an error, with the cached zone, with the fetched one.
    unchanged : (e : FederateError) → IsRefreshed k s (err e) s
    unchanged e = record {
      pinned = pinned;
      held = held;
      cached = λ m l v. (m, l, v, omega arith);
      served = λ z p. cc;
    }

    adopted :
        (m : RootZone)
        → load h s ≡ ok m
        → Zones.verify h m k ≡ ok tt
        → IsRefreshed k s (ok m) (record s { root = some m })
    unfolding load
    adopted m l v = record {
      pinned = pinned;
      held = λ m' p. (ground (arith, p, l), ground (arith, p, v));
      cached = λ m' l' v'. (m', l', v', omega arith);
      served =
          λ z p. (ground (arith, p), ground (arith, p, v), λ m' l' v'. ground (arith, p, l, l'));
    }

    replaced :
        (z : RootZone) (b : Bytes)
        → h.serde.read_zone b ≡ ok z
        → Root.validate z ≡ ok tt
        → Zones.verify h z k ≡ ok tt
        → IsNewest k s z
        → IsRefreshed k s (ok z) (record s { root_file = some b; root = some z })
    unfolding load
    replaced z b reads valid v newest =
        let l : load h (record s { root_file = some b; root = some z }) ≡ ok z =
          rw reads (rw valid refl) in
        record {
          pinned = pinned;
          held = λ m' p. (ground (arith, p, l), ground (arith, p, v));
          cached = λ m' l' v'. (z, l, v, newest m' l' v');
          served = λ z' p. (
            ground (arith, p),
            ground (arith, p, v),
            λ m' l' v'. ground (arith, p, newest m' l' v'),
          );
        }

    verify_zone_pinned : (i : Io) (z : RootZone) → verify_zone h i z s ≡ (Zones.verify h z k, s)
    unfolding verify_zone verify_pinned
    verify_zone_pinned i z = rw pinned refl

    adopt-IsRefreshed :
        (i : Io) (m : RootZone) (e : FederateError)
        → load h s ≡ ok m
        → IsRefreshed k s
            (adopt h m e (verify_zone h i m s)).0
            (adopt h m e (verify_zone h i m s)).1
    adopt-IsRefreshed i m e l = elim (Result-cases (Zones.verify h m k)) [
      | inl (u, v) ↦ rw (verify_zone_pinned i m, v) (adopted m l v)
      | inr (x, v) ↦ rw (verify_zone_pinned i m, v) (unchanged e)
    ]

    abbrev pub Refreshes : Result RootZone × Resolver → Type 0
    Refreshes p = IsRefreshed k s p.0 p.1

    from_cache-Refreshes : (i : Io) → Refreshes (from_cache h i (load h s) s)
    unfolding from_cache
    from_cache-Refreshes i = elim (Result-cases (load h s)) [
      | inl (m, l) ↦ elim (Result-cases (Zones.verify h m k)) [
        | inl (u, v) ↦ rw (l, verify_zone_pinned i m, v) (adopted m l v)
        | inr (x, v) ↦ rw (l, verify_zone_pinned i m, v) (unchanged x)
      ]
      | inr (e, l) ↦ rw l (unchanged FederateError.root_unavailable)
    ]

    fall_back-Refreshes : (i : Io) (e : FederateError) → Refreshes (fall_back h i e (load h s) s)
    unfolding fall_back
    fall_back-Refreshes i e = elim (Result-cases (load h s)) [
      | inl (m, l) ↦ rw l (adopt-IsRefreshed i m e l)
      | inr (x, l) ↦ rw l (unchanged e)
    ]

    module _ (reads : ReadsZones) (z : RootZone) (valid : Root.validate z ≡ ok tt)
        (v : Zones.verify h z k ≡ ok tt) where
      store_zone-Refreshes :
          (i : Io) → IsNewest k s z → Refreshes (store_zone h z (stored_bytes h i z) s)
      unfolding store_zone stored_bytes
      store_zone-Refreshes i newest = elim (Result-cases (stored_bytes h i z)) [
        | inl (b, q) ↦
            let (b', w, q') = >>=-eq-ok (h.serde.zone_to_vec_pretty z) _ q in
            let (u, wrote, q2) = >>=-eq-ok i.write_root _ q' in
            rw q (replaced z b (reads z b (ground (arith, w, q2))) valid v newest)
        | inr (e, q) ↦ rw q (unchanged e)
      ]

      -- The last verified zone is the one in the cache file, or there is none.
      known-Refreshes :
          (i : Io) (m : RootZone)
          → load h s ≡ ok m
          → Zones.verify h m k ≡ ok tt
          → Refreshes (keep_newer h i z (some m, s))
      unfolding keep_newer
      known-Refreshes i m l w = elim (Bool-cases (ltb z.root_version m.root_version)) [
        | inl older ↦ rw older (adopted m l w)
        | inr newer ↦ rw newer (store_zone-Refreshes i (λ m' l' w'. ground (arith, l, l')))
      ]

      cache_known : (i : Io) → Refreshes (keep_newer h i z (verified_cache h i (load h s) s))
      unfolding keep_newer
      cache_known i = elim (Result-cases (load h s)) [
        | inl (m, l) ↦ elim (Result-cases (Zones.verify h m k)) [
          | inl (u, w) ↦ rw (l, verify_zone_pinned i m, w) (known-Refreshes i m l w)
          | inr (e, w) ↦
              rw (l, verify_zone_pinned i m, w)
                (store_zone-Refreshes i (λ m' l' w'. ground (arith, l, l', w, w')))
        ]
        | inr (e, l) ↦ rw l (store_zone-Refreshes i (λ m' l' w'. ground (arith, l, l')))
      ]

      in_memory-Refreshes :
          (i : Io) (o : Option RootZone)
          → s.root ≡ o
          → Refreshes (keep_newer h i z (in_memory h i o s))
      in_memory-Refreshes i none there = cache_known i
      in_memory-Refreshes i (some m) there = let (l, w) = held m there in known-Refreshes i m l w

      keep_newer-Refreshes : (i : Io) → Refreshes (keep_newer h i z (last_verified_zone h i s))
      unfolding last_verified_zone
      keep_newer-Refreshes i = in_memory-Refreshes i s.root refl

      after_verify-Refreshes : (i : Io) → Refreshes (after_verify h i z (verify_zone h i z s))
      unfolding after_verify
      after_verify-Refreshes i = rw (verify_zone_pinned i z, v) (keep_newer-Refreshes i)

    pub after_fetch-Refreshes :
        (i : Io) (fetched : Result RootZone)
        → ReadsZones
        → ((z : RootZone) → fetched ≡ ok z → Root.validate z ≡ ok tt)
        → Refreshes (after_fetch h i fetched s)
    unfolding after_fetch after_verify
    after_fetch-Refreshes i (err e) reads valid = from_cache-Refreshes i
    after_fetch-Refreshes i (ok z) reads valid = elim (Result-cases (Zones.verify h z k)) [
      | inl (u, v) ↦ after_verify-Refreshes reads z (valid z refl) v i
      | inr (e, v) ↦ rw (verify_zone_pinned i z, v) (fall_back-Refreshes i e)
    ]
