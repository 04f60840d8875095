-- ===== src/Cdn.antt =====
-- crates/federate-cdn/src/lib.rs: the ranking of block providers.
pub mod Ranked
pub mod Cache
pub mod Sorted
pub mod Evicted
pub mod Oldest
pub mod Put
use federate.Base.{
  ℕ, Text, Bool, true, false, not, Option, none, some, List, [], ◌∷◌, ltb, ◌==◌, ◌&&◌, ◌||◌,
  text_eq, if◌then◌else◌,
}
use federate.Directory.{NodeEntry, NodeStatus}

abbrev pub u64_max : ℕ
u64_max = 18446744073709551615

abbrev pub as_u8 : Bool → ℕ
as_u8 false = 0
as_u8 true = 1

abbrev pub is_offline : NodeStatus → Bool
is_offline NodeStatus.offline = true
is_offline _ = false

abbrev pub is_online : NodeStatus → Bool
is_online NodeStatus.online = true
is_online _ = false

abbrev pub elsewhere : Option Text → Text → Bool
elsewhere none region = true
elsewhere (some r) region = not (text_eq region r)

abbrev pub latency : Option ℕ → ℕ
latency none = u64_max
latency (some ms) = ms

-- The order of triples, compared from the left.
abbrev pub ltb_triple : (a b c a' b' c' : ℕ) → Bool
ltb_triple a b c a' b' c' = ltb a a' || a == a' && (ltb b b' || b == b' && ltb c c')

abbrev pub status_key : NodeEntry → ℕ
status_key p = as_u8 (not (is_online p.status))

abbrev pub region_key : Option Text → NodeEntry → ℕ
region_key region p = as_u8 (elsewhere region p.registration.region)

abbrev pub latency_key : NodeEntry → ℕ
latency_key p = latency p.latency_ms

-- `sort_by_key` with the triple of status, region and latency.
unfoldable pub before : Option Text → NodeEntry → NodeEntry → Bool
before region p q =
    ltb_triple (status_key p) (region_key region p) (latency_key p) (status_key q)
      (region_key region q) (latency_key q)

-- The sort is stable: an entry goes before those that it was before, unless they are smaller.
unfoldable pub sort_in : Option Text → NodeEntry → List NodeEntry → List NodeEntry
sort_in region p [] = p ∷ []
sort_in region p (q ∷ qs) = if before region q p then q ∷ sort_in region p qs else p ∷ q ∷ qs

unfoldable pub rank_providers : List NodeEntry → Option Text → List NodeEntry
rank_providers [] region = []
rank_providers (p ∷ ps) region =
    let rest = rank_providers ps region in
    if is_offline p.status then rest else sort_in region p rest
