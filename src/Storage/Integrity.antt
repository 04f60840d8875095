-- ===== src/Storage/Integrity.antt =====
-- Block integrity: what the store returns has the address that was asked for.
use federate.Base.{Text, Bytes, true, text_eq_iff, ◌≡◌, ◌≢◌, arith, get-insert, get-insert_self}
use federate.Core.{ok}
use federate.Host.{Host}
use federate.Storage.{Blocks, is_valid_hash, hash_bytes, verify, get_block, put_block}

module _ (h : Host) where
  pub verify_sound :
      (b : Bytes) (hash : Text)
      → verify h b hash ≡ ok tt
      → (is_valid_hash hash ≡ true) × (hash_bytes h b ≡ hash)
  unfolding verify
  verify_sound b hash e = ground (arith, text_eq_iff (h.blake3_hex b) hash)

  -- Whatever stands on the disk, a block that is returned has a well-formed address and hashes to it.
  pub get_block_sound :
      (disk : Blocks) (hash : Text) (b : Bytes)
      → get_block h disk hash ≡ ok b
      → (is_valid_hash hash ≡ true) × (hash_bytes h b ≡ hash)
  unfolding get_block
  get_block_sound disk hash b e = ground (arith, verify_sound b hash)

  -- A block that was stored is read back, and every other address reads as before.
  pub get_block-put_block :
      (disk disk' : Blocks) (hash : Text) (b : Bytes)
      → put_block h disk hash b ≡ ok disk'
      → (get_block h disk' hash ≡ ok b)
        × ((k : Text) → k ≢ hash → get_block h disk' k ≡ get_block h disk k)
  unfolding get_block put_block verify
  get_block-put_block disk disk' hash b e = (
    ground (arith, get-insert_self hash b disk),
    λ k ne. ground (arith, get-insert hash k b disk, text_eq_iff hash k),
  )
