-- ===== src/Store/Database/Nonces.antt =====
-- A nonce is good once.
use federate.Base.{
  Text, Bool, ℤ, text_eq_iff, text_eq_refl, false, get, get-remove, ◌≡◌, ◌≢◌, arith,
}
use federate.Core.{ok}
use federate.Store.Database.{Database, consume_nonce}

-- A consumption that committed, whether the nonce was good or not, leaves the nonce unusable: every
-- later one that commits says no. Other nonces stay.
consume_nonce_once :
    (d d' : Database) (nonce : Text) (now later : ℤ) (b : Bool)
    → consume_nonce (ok tt) nonce now d ≡ (ok b, d')
    → ((consume_nonce (ok tt) nonce later d').0 ≡ ok false)
      × ((other : Text) → other ≢ nonce → get other d'.nonces ≡ get other d.nonces)
unfolding consume_nonce
consume_nonce_once d d' nonce now later b h = (
  ground (arith, get-remove nonce nonce d.nonces, text_eq_refl nonce),
  λ other ne. ground (arith, get-remove nonce other d.nonces, text_eq_iff nonce other),
)
