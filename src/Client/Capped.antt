-- ===== src/Client/Capped.antt =====
-- What a capped read returns.
use federate.Base.{
  ℕ, Bytes, List, [], ◌∷◌, ◌++◌, ◌+◌, ◌≤◌, length, length-append, append_assoc, append-nil, ◌≡◌,
  refl, ◌∙◌, leb, arith,
}
use federate.Core.{Result, ok, err, guard, >>=-eq-ok}
use federate.Client.{Response, announced_within, read_chunks, read_capped}

-- A body that arrived in chunks, all of them, in their order.
abbrev pub IsBody : List (Result Bytes) → Bytes → Type 0
IsBody [] bytes = bytes ≡ []
IsBody (err e ∷ rest) bytes = ⊥
IsBody (ok chunk ∷ rest) bytes = (tail : Bytes) × (bytes ≡ chunk ++ tail) × IsBody rest tail

read_chunks-IsBody :
    (cap : ℕ) (out : Bytes) (chunks : List (Result Bytes)) (bytes : Bytes)
    → read_chunks cap out chunks ≡ ok bytes
    → length out ≤ cap
    → (tail : Bytes) × (bytes ≡ out ++ tail) × IsBody chunks tail × (length bytes ≤ cap)
unfolding read_chunks
read_chunks-IsBody cap out [] bytes e le = ([], ground (arith, append-nil out), refl, ground arith)
read_chunks-IsBody cap out (err x ∷ rest) bytes e le = cc
read_chunks-IsBody cap out (ok chunk ∷ rest) bytes e le =
    let (u, fits, e1) = >>=-eq-ok (guard (leb (length out + length chunk) cap) _) _ e in
    let (tail, p, body, small) =
      read_chunks-IsBody cap (out ++ chunk) rest bytes e1
        (ground (arith, length-append out chunk)) in
    (chunk ++ tail, p ∙ append_assoc out chunk tail, (tail, refl, body), small)

-- A capped read that returns has returned all chunks of the body, in order, and no more bytes than the
-- cap.
read_capped-IsBody :
    (resp : Response) (cap : ℕ) (bytes : Bytes)
    → read_capped resp cap ≡ ok bytes
    → IsBody resp.chunks bytes × (length bytes ≤ cap)
unfolding read_capped
read_capped-IsBody resp cap bytes e =
    let (u, q, e1) = >>=-eq-ok (guard (announced_within cap resp.content_length) _) _ e in
    let (tail, p, body, small) = read_chunks-IsBody cap [] resp.chunks bytes e1 (omega arith) in
    (rw p body, small)
