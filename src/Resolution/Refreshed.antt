-- ===== src/Resolution/Refreshed.antt =====
-- What a refresh of the root zone guarantees, and the zone that a resolution starts from.
use federate.Base.{Text, Option, none, some, ◌≡◌, refl, sym, ◌∙◌, ap, arith}
use federate.Core.{Result, ok, >>=-eq-ok}
use federate.Root.{RootZone}
use federate.Root
use federate.Host.{Host}
use federate.Signing.Zones
use federate.Protocol.{Message}
use federate.Client.{Response, fetch_root, get_bytes}
use federate.Resolution.{Resolver, Net, Io, try_each_sound, exchange}
use federate.Resolution.Roots.{
  root_answer, fetch_root_native, fetch_root_network, refresh_root, root, held_or,
}
use federate.Resolution.Fresh.{IsHeld, ReadsZones, IsRefreshed, after_fetch-Refreshes}

module _ (h : Host) where
  -- Every zone that the network delivers has been validated.
  root_answer-validate :
      (m : Message) (z : RootZone) → root_answer h m ≡ ok z → Root.validate z ≡ ok tt
  unfolding root_answer
  root_answer-validate m z e = ground arith

  fetch_root-validate :
      (get : Text → Result Response) (z : RootZone)
      → fetch_root h get ≡ ok z
      → Root.validate z ≡ ok tt
  unfolding fetch_root
  fetch_root-validate get z e =
      let (b, q, e1) = >>=-eq-ok (get_bytes get _ _) _ e in
      let (z', q', e2) = >>=-eq-ok (h.serde.read_zone b) _ e1 in
      let (u, valid, e3) = >>=-eq-ok (Root.validate z') _ e2 in ground (arith, valid, e3)

  fetch_root_network-validate :
      (net : Net) (s : Resolver) (z : RootZone)
      → fetch_root_network h net s ≡ ok z
      → Root.validate z ≡ ok tt
  unfolding fetch_root_network fetch_root_native
  fetch_root_network-validate net s z e =
      try_each_sound {Good = λ z. Root.validate z ≡ ok tt} (fetch_root_native h net s)
        s.native_providers (fetch_root h net.node_one)
        (λ addr z' q.
          let (m, q1, q2) = >>=-eq-ok (exchange h net s addr Message.get_root) _ q in
          root_answer-validate m z' q2)
        (fetch_root-validate net.node_one) z e

  -- A resolver with a pinned key, whose memory has no zone or the one of the cache file: whatever the
  -- network and the disk answer, after a refresh the same key is pinned and memory is in the file or
  -- empty; the verified zone of the file, if there was one, has not become older; and a zone that is
  -- returned is in memory, verifies under the pinned key and is not older than the file's was.
  pub refresh_root-IsRefreshed :
      (net : Net) (i : Io) (k : Text) (s : Resolver)
      → ReadsZones h
      → s.trusted_root_key ≡ some k
      → IsHeld h k s
      → IsRefreshed h k s (refresh_root h net i s).0 (refresh_root h net i s).1
  unfolding refresh_root
  refresh_root-IsRefreshed net i k s reads pinned held =
      after_fetch-Refreshes h k s pinned held i (fetch_root_network h net s) reads
        (fetch_root_network-validate net s)

  -- With the same assumptions, the zone that a resolution starts from verifies under the pinned key,
  -- which stays pinned.
  pub root-IsPinned :
      (net : Net) (i : Io) (k : Text) (s s' : Resolver) (z : RootZone)
      → ReadsZones h
      → s.trusted_root_key ≡ some k
      → IsHeld h k s
      → root h net i s ≡ (ok z, s')
      → (Zones.verify h z k ≡ ok tt) × (s'.trusted_root_key ≡ some k)
  unfolding root
  root-IsPinned net i k s s' z reads pinned held e = go s.root refl e
    where
      go :
          (o : Option RootZone)
          → s.root ≡ o
          → held_or h net i o s ≡ (ok z, s')
          → (Zones.verify h z k ≡ ok tt) × (s'.trusted_root_key ≡ some k)
      go none there e =
          let r = refresh_root-IsRefreshed net i k s reads pinned held in
          let (v, w, x) = r.served z (ap (λ (p : Result RootZone × Resolver). p.0) e) in
          (w, sym (ap (λ (p : Result RootZone × Resolver). p.1.trusted_root_key) e) ∙ r.pinned)
      go (some m) there e =
          let (l, w) = held m there in (ground (arith, w, e), ground (arith, pinned, e))
