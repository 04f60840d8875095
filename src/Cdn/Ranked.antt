-- ===== src/Cdn/Ranked.antt =====
-- The ranking keeps the providers that are not offline, best first.
use federate.Base.{
  ℕ, ◌≤◌, ◌==◌, ◌&&◌, ◌||◌, ltb, not, true, false, false≢true, Option, none, some, text_eq,
  text_eq_iff, ◌⊎◌, sym, ◌∙◌, refl, Text, List, [], ◌∷◌, Bool-cases, inl, inr, ◌≡◌, arith, All,
  if◌then◌else◌,
}
use mathlib.Core.List.Perm
use mathlib.Core.List.{Perm}
use federate.Directory.{NodeEntry, NodeStatus}
use federate.Cdn.{
  ltb_triple, status_key, region_key, latency_key, is_offline, is_online, as_u8, elsewhere, latency,
  before, sort_in, rank_providers,
}

-- The entries that are online or degraded, in the order of the directory.
abbrev keep_reachable : NodeStatus → NodeEntry → List NodeEntry → List NodeEntry
keep_reachable NodeStatus.online p ps = p ∷ ps
keep_reachable NodeStatus.degraded p ps = p ∷ ps
keep_reachable NodeStatus.offline p ps = ps

abbrev pub reachable : List NodeEntry → List NodeEntry
reachable [] = []
reachable (p ∷ ps) = keep_reachable p.status p (reachable ps)

-- Online comes before anything else.
abbrev StatusOrder : (better same : Type 0) → NodeStatus → NodeStatus → Type 0
StatusOrder better same NodeStatus.online NodeStatus.online = same
StatusOrder better same NodeStatus.online _ = better
StatusOrder better same _ NodeStatus.online = ⊥
StatusOrder better same _ _ = same

-- An entry of the region that was asked for comes before one of another region.
abbrev IsNear : Option Text → Text → Type 0
IsNear none region = ⊥
IsNear (some r) region = region ≡ r

abbrev RegionOrder : Option Text → (same : Type 0) → Text → Text → Type 0
RegionOrder asked same r q =
    (IsNear asked r × (¬ IsNear asked q))
    ⊎ (((IsNear asked r × IsNear asked q) ⊎ ((¬ IsNear asked r) × (¬ IsNear asked q))) × same)

-- The lower latency comes first, and one that is not known counts as the largest u64.
abbrev LatencyOrder : Option ℕ → Option ℕ → Type 0
LatencyOrder none none = Unit
LatencyOrder none (some b) = 18446744073709551615 ≤ b
LatencyOrder (some a) none = a ≤ 18446744073709551615
LatencyOrder (some a) (some b) = a ≤ b

-- The first entry may stand before the second.
abbrev pub NoWorse : Option Text → NodeEntry → NodeEntry → Type 0
NoWorse asked p q =
    StatusOrder Unit
      (RegionOrder asked (LatencyOrder p.latency_ms q.latency_ms) p.registration.region
        q.registration.region)
      p.status q.status

-- Every entry is no worse than those behind it.
abbrev pub IsRanked : Option Text → List NodeEntry → Type 0
IsRanked asked [] = Unit
IsRanked asked (p ∷ ps) = All (NoWorse asked p) ps × IsRanked asked ps

-- No entry stands behind one that it should precede.
abbrev IsSorted : Option Text → List NodeEntry → Type 0
IsSorted region [] = Unit
IsSorted region (p ∷ ps) = All (λ q. before region q p ≡ false) ps × IsSorted region ps

ltb_triple_trans :
    (a b c a' b' c' a2 b2 c2 : ℕ)
    → ltb_triple a' b' c' a b c ≡ false
    → ltb_triple a2 b2 c2 a' b' c' ≡ false
    → ltb_triple a2 b2 c2 a b c ≡ false
ltb_triple_trans a b c a' b' c' a2 b2 c2 p q = ground arith

ltb_triple_asym :
    (a b c a' b' c' : ℕ) → ltb_triple a b c a' b' c' ≡ true → ltb_triple a' b' c' a b c ≡ false
ltb_triple_asym a b c a' b' c' p = ground arith

before_trans :
    (region : Option Text) (p q r : NodeEntry)
    → before region q p ≡ false
    → before region r q ≡ false
    → before region r p ≡ false
unfolding before
before_trans region p q r a b =
    ltb_triple_trans (status_key p) (region_key region p) (latency_key p) (status_key q)
      (region_key region q) (latency_key q) (status_key r) (region_key region r) (latency_key r) a b

before_asym :
    (region : Option Text) (p q : NodeEntry) → before region q p ≡ true → before region p q ≡ false
unfolding before
before_asym region p q a =
    ltb_triple_asym (status_key q) (region_key region q) (latency_key q) (status_key p)
      (region_key region p) (latency_key p) a

sort_in-Perm :
    (region : Option Text) (p : NodeEntry) (ps : List NodeEntry)
    → Perm (sort_in region p ps) (p ∷ ps)
unfolding sort_in
sort_in-Perm region p [] = Perm.refl (p ∷ [])
sort_in-Perm region p (q ∷ qs) = elim (Bool-cases (before region q p)) [
  | inl e ↦ rw e (Perm.trans (Perm.cons q (sort_in-Perm region p qs)) (Perm.swap p q qs))
  | inr e ↦ rw e (Perm.refl (p ∷ q ∷ qs))
]

keep-online :
    (s : NodeStatus) (p : NodeEntry) (ps : List NodeEntry)
    → keep_reachable s p ps ≡ (if is_offline s then ps else p ∷ ps)
keep-online NodeStatus.online p ps = refl
keep-online NodeStatus.degraded p ps = refl
keep-online NodeStatus.offline p ps = refl

rank_providers-Perm :
    (ps : List NodeEntry) (region : Option Text) → Perm (rank_providers ps region) (reachable ps)
unfolding rank_providers
rank_providers-Perm [] region = Perm.refl []
rank_providers-Perm (p ∷ ps) region = elim (Bool-cases (is_offline p.status)) [
  | inl e ↦ rw (keep-online p.status p (reachable ps), e) (rank_providers-Perm ps region)
  | inr e ↦
      rw (keep-online p.status p (reachable ps), e)
        (Perm.trans (sort_in-Perm region p (rank_providers ps region))
          (Perm.cons p (rank_providers-Perm ps region)))
]

-- What holds of an entry and of all of a list holds of all of the list with the entry in it.
sort_in-All :
    (region : Option Text) (x p : NodeEntry) (qs : List NodeEntry)
    → before region p x ≡ false
    → All (λ q. before region q x ≡ false) qs
    → All (λ q. before region q x ≡ false) (sort_in region p qs)
unfolding sort_in
sort_in-All region x p [] h hs = (h, tt)
sort_in-All region x p (q ∷ qs) h (hq, hs) = elim (Bool-cases (before region q p)) [
  | inl e ↦ rw e (hq, sort_in-All region x p qs h hs)
  | inr e ↦ rw e (h, (hq, hs))
]

All-before :
    (region : Option Text) (p q : NodeEntry) (qs : List NodeEntry)
    → before region q p ≡ false
    → All (λ r. before region r q ≡ false) qs
    → All (λ r. before region r p ≡ false) qs
All-before region p q [] h hs = tt
All-before region p q (r ∷ qs) h (hr, hs) =
    (before_trans region p q r h hr, All-before region p q qs h hs)

sort_in-IsSorted :
    (region : Option Text) (p : NodeEntry) (ps : List NodeEntry)
    → IsSorted region ps
    → IsSorted region (sort_in region p ps)
unfolding sort_in
sort_in-IsSorted region p [] h = (tt, tt)
sort_in-IsSorted region p (q ∷ qs) (hq, hs) = elim (Bool-cases (before region q p)) [
  | inl e ↦
      rw e
        (sort_in-All region q p qs (before_asym region p q e) hq, sort_in-IsSorted region p qs hs)
  | inr e ↦ rw e ((e, All-before region p q qs e hq), (hq, hs))
]

ranked : (ps : List NodeEntry) (region : Option Text) → IsSorted region (rank_providers ps region)
unfolding rank_providers
ranked [] region = tt
ranked (p ∷ ps) region = elim (Bool-cases (is_offline p.status)) [
  | inl e ↦ rw e (ranked ps region)
  | inr e ↦ rw e (sort_in-IsSorted region p (rank_providers ps region) (ranked ps region))
]

latency-LatencyOrder : (l m : Option ℕ) → ltb (latency m) (latency l) ≡ false → LatencyOrder l m
latency-LatencyOrder none none e = tt
latency-LatencyOrder none (some b) e = ground arith
latency-LatencyOrder (some a) none e = ground arith
latency-LatencyOrder (some a) (some b) e = ground arith

elsewhere-RegionOrder :
    (asked : Option Text) (r q : Text) (l m : ℕ) (same : Type 0)
    → (ltb m l ≡ false → same)
    → (ltb (as_u8 (elsewhere asked q)) (as_u8 (elsewhere asked r))
        || as_u8 (elsewhere asked q) == as_u8 (elsewhere asked r) && ltb m l)
      ≡ false
    → RegionOrder asked same r q
elsewhere-RegionOrder none r q l m same f e = inr (inr ((λ x. x), (λ x. x)), f e)
elsewhere-RegionOrder (some a) r q l m same f e = elim (Bool-cases (text_eq r a)) [
  | inl x ↦ elim (Bool-cases (text_eq q a)) [
    | inl y ↦ inr (inl ((text_eq_iff r a).0 x, (text_eq_iff q a).0 y), f (ground arith))
    | inr y ↦ inl ((text_eq_iff r a).0 x, λ z. false≢true (sym y ∙ (text_eq_iff q a).1 z))
  ]
  | inr x ↦ elim (Bool-cases (text_eq q a)) [
    | inl y ↦ absurd (ground arith)
    | inr y ↦ inr (
      inr (
        (λ z. false≢true (sym x ∙ (text_eq_iff r a).1 z)),
        (λ z. false≢true (sym y ∙ (text_eq_iff q a).1 z)),
      ),
      f (ground arith),
    )
  ]
]

keys-StatusOrder :
    (s t : NodeStatus) (a b : ℕ) (c d : ℕ) (same : Type 0)
    → ((ltb b a || b == a && ltb d c) ≡ false → same)
    → ltb_triple (as_u8 (not (is_online t))) b d (as_u8 (not (is_online s))) a c ≡ false
    → StatusOrder Unit same s t
keys-StatusOrder NodeStatus.online NodeStatus.online a b c d same f e = f e
keys-StatusOrder NodeStatus.online NodeStatus.degraded a b c d same f e = tt
keys-StatusOrder NodeStatus.online NodeStatus.offline a b c d same f e = tt
keys-StatusOrder NodeStatus.degraded NodeStatus.online a b c d same f e = cc
keys-StatusOrder NodeStatus.degraded NodeStatus.degraded a b c d same f e = f e
keys-StatusOrder NodeStatus.degraded NodeStatus.offline a b c d same f e = f e
keys-StatusOrder NodeStatus.offline NodeStatus.online a b c d same f e = cc
keys-StatusOrder NodeStatus.offline NodeStatus.degraded a b c d same f e = f e
keys-StatusOrder NodeStatus.offline NodeStatus.offline a b c d same f e = f e

before-NoWorse :
    (asked : Option Text) (p q : NodeEntry) → before asked q p ≡ false → NoWorse asked p q
unfolding before
before-NoWorse asked p q e =
    keys-StatusOrder p.status q.status (region_key asked p) (region_key asked q) (latency_key p)
      (latency_key q) _
      (elsewhere-RegionOrder asked p.registration.region q.registration.region (latency_key p)
        (latency_key q) _ (latency-LatencyOrder p.latency_ms q.latency_ms))
      e

All-NoWorse :
    (asked : Option Text) (p : NodeEntry) (ps : List NodeEntry)
    → All (λ q. before asked q p ≡ false) ps
    → All (NoWorse asked p) ps
All-NoWorse asked p [] all = tt
All-NoWorse asked p (q ∷ qs) (one, all) = (before-NoWorse asked p q one, All-NoWorse asked p qs all)

IsSorted-IsRanked :
    (asked : Option Text) (ps : List NodeEntry) → IsSorted asked ps → IsRanked asked ps
IsSorted-IsRanked asked [] s = tt
IsSorted-IsRanked asked (p ∷ ps) (first, s) =
    (All-NoWorse asked p ps first, IsSorted-IsRanked asked ps s)

-- The ranking holds exactly the providers that are online or degraded, each as often as the directory
-- does. Online entries come first; within them and within the others, entries of the region that was
-- asked for come first; and within these the latency does not fall, where one that is not known counts
-- as the largest u64.
pub rank_providers-IsRanked :
    (ps : List NodeEntry) (region : Option Text)
    → Perm (rank_providers ps region) (reachable ps) × IsRanked region (rank_providers ps region)
rank_providers-IsRanked ps region =
    (rank_providers-Perm ps region, IsSorted-IsRanked region _ (ranked ps region))
