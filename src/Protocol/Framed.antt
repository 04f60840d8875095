-- ===== src/Protocol/Framed.antt =====
-- What a sender frames, a receiver takes apart.
use federate.Base.{ℕ, Bytes, [], ◌∷◌, length, ◌≤◌, ◌<◌, ◌≡◌, ◌≢◌, refl, arith, ◌/◌, ◌%◌, ◌^◌, suc}
use federate.Core.{ok}
use federate.Protocol.{max_frame_bytes, to_be_bytes, from_be_bytes, encode, frame_len}

-- A frame is four bytes whose length field is accepted as the length of the body, and the body.
abbrev pub IsFrame : Bytes → Bytes → Type 0
IsFrame body frame =
    (a : ℕ) × (b : ℕ) × (c : ℕ) × (d : ℕ) × (frame ≡ a ∷ b ∷ c ∷ d ∷ body)
    × (frame_len a b c d ≡ ok (length body))
    × (a < 256)
    × (b < 256)
    × (c < 256)
    × (d < 256)

-- The four bytes of a number below 2 ^ 32 give it back.
from_be_bytes-to_be_bytes :
    (n : ℕ)
    → n ≤ max_frame_bytes
    → from_be_bytes
        ((n % 2 ^ 32 / 16777216) % 256)
        ((n % 2 ^ 32 / 65536) % 256)
        ((n % 2 ^ 32 / 256) % 256)
        (n % 2 ^ 32 % 256)
      ≡ n
unfolding from_be_bytes
from_be_bytes-to_be_bytes n le = omega arith

-- A message that was framed, and whose text is not empty, is a frame of that text: the prefix is four
-- bytes, the receiver accepts it, and it gives the length of the body.
encode-IsFrame : (body frame : Bytes) → encode (ok body) ≡ ok frame → body ≢ [] → IsFrame body frame
unfolding encode frame_len to_be_bytes
encode-IsFrame [] frame e n = elim (n refl) [ ]
encode-IsFrame (x ∷ body) frame e n =
    let n = suc (length body) in
    let small : n ≤ max_frame_bytes = ground arith in
    let back = from_be_bytes-to_be_bytes n small in
    (
      (n % 2 ^ 32 / 16777216) % 256,
      (n % 2 ^ 32 / 65536) % 256,
      (n % 2 ^ 32 / 256) % 256,
      n % 2 ^ 32 % 256,
      ground arith,
      ground (arith, back),
      omega arith,
      omega arith,
      omega arith,
      omega arith,
    )
