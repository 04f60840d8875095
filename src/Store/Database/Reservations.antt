-- ===== src/Store/Database/Reservations.antt =====
-- Reserved nonces: good until they expire or are consumed, and reserving one keeps the others that
-- have not expired for long.
use federate.Base.{
  Text, some, ◌∷◌, [], ℤ, pos, ltb_ℤ, text_eq_iff, false, BTreeMap, get, get-insert,
  get-insert_self, ◌≡◌, ◌≢◌, refl, arith, ◌-ℤ◌, ◌*◌,
}
use federate.Core.{ok}
use federate.Mutation.{nonce_ttl_secs}
use federate.Store.Database.{Database, consume_nonce, reserve_nonce, prune}

get-prune :
    (limit : ℤ) (k : Text) (m : BTreeMap ℤ) (t : ℤ)
    → get k m ≡ some t
    → ltb_ℤ t limit ≡ false
    → get k (prune limit m) ≡ some t
unfolding get prune
get-prune limit k [] t e fresh = cc
get-prune limit k ((j, x) ∷ m) t e fresh = ground (arith, get-prune limit k m t)

-- A nonce that was reserved is good at every time before its expiry, and at no time from then on.
-- Reserving it keeps every other nonce whose expiry is not more than 600 seconds before the new one's.
pub consume_nonce-reserve_nonce :
    (d : Database) (nonce : Text) (expires now : ℤ)
    → ((consume_nonce (ok tt) nonce now (reserve_nonce (ok tt) nonce expires d).1).0
        ≡ ok (ltb_ℤ now expires))
      × ((other : Text) (t : ℤ)
          → other ≢ nonce
          → get other d.nonces ≡ some t
          → ltb_ℤ t (expires -ℤ pos (2 * nonce_ttl_secs)) ≡ false
          → get other (reserve_nonce (ok tt) nonce expires d).1.nonces ≡ some t)
unfolding consume_nonce reserve_nonce
consume_nonce-reserve_nonce d nonce expires now = (
  rw get-insert_self refl,
  λ other t ne found fresh. ground (
    arith,
    get-insert nonce other expires (prune (expires -ℤ pos (2 * nonce_ttl_secs)) d.nonces),
    text_eq_iff nonce other,
    get-prune (expires -ℤ pos (2 * nonce_ttl_secs)) other d.nonces t,
  ),
)
