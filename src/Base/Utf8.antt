-- ===== src/Base/Utf8.antt =====
-- UTF-8 of the standard library: `str::as_bytes`, `String::from_utf8_lossy`, and the parts of a text
-- between separators.
use Prim.Native.Nat.{ℕ, zero, suc, ◌+◌, ◌-◌, ◌*◌, ◌/◌, ◌%◌, ◌<◌}
use mathlib.Core.Path.{◌≡◌, refl}
use mathlib.Core.Bool.{◌&&◌}
use mathlib.Core.List.{List, [], ◌∷◌, ◌++◌}
use native.Mathlib.Omega.{arith}
use federate.Base.Tests.{ltb, leb, ◌==◌, if◌then◌else◌}
use federate.Base.Lists.{All, length}
use federate.Base.Strings.{Text, Bytes}

abbrev continuation : ℕ → ℕ
continuation c = 0x80 + c % 64

-- The bytes of one scalar value.
abbrev encode_utf8 : ℕ → Bytes
encode_utf8 c =
    if ltb c 0x80
    then (c ∷ [])
    else if ltb c 0x800
    then (0xc0 + c / 64) ∷ continuation c ∷ []
    else if ltb c 0x10000
    then (0xe0 + c / 4096) ∷ continuation (c / 64) ∷ continuation c ∷ []
    else (0xf0 + c / 262144) ∷ continuation (c / 4096) ∷ continuation (c / 64) ∷ continuation c ∷ []

unfoldable pub as_bytes : Text → Bytes
as_bytes [] = []
as_bytes (c ∷ s) = encode_utf8 c ++ as_bytes s

-- U+FFFD.
abbrev pub replacement : ℕ
replacement = 0xfffd

-- What a decoder waits for: the range of the next byte, the number of bytes behind that one, and the
-- value so far.
pub data Awaits : Type 0 where
  start : Awaits
  more : (lo hi rest value : ℕ) → Awaits

-- The first byte of a sequence.
abbrev pub lead : ℕ → Text × Awaits
lead b =
    if ltb b 0x80
    then (b ∷ [], start)
    else if leb 0xc2 b && leb b 0xdf
    then ([], more 0x80 0xbf 0 (b - 0xc0))
    else if b == 0xe0
    then ([], more 0xa0 0xbf 1 0)
    else if b == 0xed
    then ([], more 0x80 0x9f 1 0xd)
    else if leb 0xe1 b && leb b 0xef
    then ([], more 0x80 0xbf 1 (b - 0xe0))
    else if b == 0xf0
    then ([], more 0x90 0xbf 2 0)
    else if leb 0xf1 b && leb b 0xf3
    then ([], more 0x80 0xbf 2 (b - 0xf0))
    else if b == 0xf4
    then ([], more 0x80 0x8f 2 4)
    else (replacement ∷ [], start)

abbrev pub accept : (rest value : ℕ) → Text × Awaits
accept zero value = (value ∷ [], start)
accept (suc rest) value = ([], more 0x80 0xbf rest value)

abbrev pub replaced : Text × Awaits → Text × Awaits
replaced (out, state) = (replacement ∷ out, state)

-- A byte that cannot go on with a sequence starts the next one.
abbrev pub lossy_step : Awaits → ℕ → Text × Awaits
lossy_step start b = lead b
lossy_step (more lo hi rest value) b =
    if leb lo b && leb b hi then accept rest (value * 64 + (b - 0x80)) else replaced (lead b)

abbrev pub lossy_end : Awaits → Text
lossy_end start = []
lossy_end (more lo hi rest value) = replacement ∷ []

lossy : Awaits → Bytes → Text
lossy state [] = lossy_end state
lossy state (b ∷ bytes) = let (out, state') = lossy_step state b in out ++ lossy state' bytes

unfoldable pub from_utf8_lossy : Bytes → Text
unfolding lossy
from_utf8_lossy bytes = lossy start bytes

-- The characters of ASCII.
abbrev pub IsAscii : Text → Type 0
IsAscii = All (λ c. c < 128)

pub as_bytes-IsAscii : (s : Text) → IsAscii s → as_bytes s ≡ s
unfolding as_bytes
as_bytes-IsAscii [] h = refl
as_bytes-IsAscii (c ∷ s) h = ground (arith, as_bytes-IsAscii s)

pub from_utf8_lossy-IsAscii : (s : Text) → IsAscii s → from_utf8_lossy s ≡ s
unfolding from_utf8_lossy
from_utf8_lossy-IsAscii [] h = refl
from_utf8_lossy-IsAscii (c ∷ s) h = ground (arith, from_utf8_lossy-IsAscii s)

-- `split(x)`: the parts of a text between the characters `x`, at least one.
abbrev to_first : ℕ → List Text → List Text
to_first c [] = []
to_first c (p ∷ ps) = (c ∷ p) ∷ ps

unfoldable pub split : ℕ → Text → List Text
split x [] = [] ∷ []
split x (c ∷ s) = let parts = split x s in if c == x then [] ∷ parts else to_first c parts

-- `join` of parts.
unfoldable pub join : ℕ → List Text → Text
join x [] = []
join x (p ∷ []) = p
join x (p ∷ q ∷ ps) = p ++ x ∷ join x (q ∷ ps)

join-to_first : (x c : ℕ) (ps : List Text) → 0 < length ps → join x (to_first c ps) ≡ c ∷ join x ps
unfolding join
join-to_first x c [] h = absurd (omega arith)
join-to_first x c (p ∷ []) h = refl
join-to_first x c (p ∷ q ∷ ps) h = refl

join-nil : (x : ℕ) (ps : List Text) → 0 < length ps → join x ([] ∷ ps) ≡ x ∷ join x ps
unfolding join
join-nil x [] h = absurd (omega arith)
join-nil x (p ∷ ps) h = refl

length-to_first : (c : ℕ) (ps : List Text) → length (to_first c ps) ≡ length ps
length-to_first c [] = refl
length-to_first c (p ∷ ps) = refl

split_pos : (x : ℕ) (s : Text) → 0 < length (split x s)
unfolding split
split_pos x [] = omega arith
split_pos x (c ∷ s) = ground (arith, split_pos x s, length-to_first c (split x s))

pub join-split : (x : ℕ) (s : Text) → join x (split x s) ≡ s
unfolding split
join-split x [] = unfold join in refl
join-split x (c ∷ s) =
    ground
      (arith, join-split x s, split_pos x s, join-nil x (split x s), join-to_first x c (split x s))
