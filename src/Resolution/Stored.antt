-- ===== src/Resolution/Stored.antt =====
-- Blocks that the resolver returns have the address that was asked for, whoever sent them.
use federate.Base.{Bytes, Text, ◌≡◌, ◌≢◌, refl, arith}
use federate.Core.{Result, ok, err, guard, >>=-eq-ok}
use federate.Host.{Host}
use federate.Storage.{is_valid_hash, hash_bytes, get_block, put_block, Blocks}
use federate.Storage.Integrity.{get_block_sound, get_block-put_block}
use federate.Protocol.{Message}
use federate.Directory.{NodeEntry}
use federate.Client.{Response, fetch_block, get_bytes, read_capped, max_block_bytes}
use federate.Resolution.{Resolver, Net, Io, try_each, try_each_sound, exchange}
use federate.Resolution.Content.{
  add_defaults, block_answer, fetch_block_from, block_url, stored, with_blocks, store_block, ranked,
  native_of, fetch_block_native, fetch_block_network, or_fetch, block_traced,
}
use federate.Resolution.Fetched.{HasHash, verified-HasHash}

module _ (h : Host) where
  block_answer-HasHash :
      (hash : Text) (m : Message) (b : Bytes) → block_answer h hash m ≡ ok b → HasHash h hash b
  unfolding block_answer
  block_answer-HasHash hash m b e = ground arith

  fetch_block_native-HasHash :
      (net : Net) (s : Resolver) (hash addr : Text) (b : Bytes)
      → fetch_block_native h net s hash addr ≡ ok b
      → HasHash h hash b
  unfolding fetch_block_native
  fetch_block_native-HasHash net s hash addr b e =
      let (u, q1, e1) = >>=-eq-ok (guard (is_valid_hash hash) _) _ e in
      let (m, q2, e2) = >>=-eq-ok (exchange h net s addr (Message.get_block hash)) _ e1 in
      block_answer-HasHash hash m b e2

  fetch_block_from-HasHash :
      (send : Text → Result Response) (hash : Text) (p : NodeEntry) (b : Bytes)
      → fetch_block_from h send hash p ≡ ok b
      → HasHash h hash b
  unfolding fetch_block_from
  fetch_block_from-HasHash send hash p b e =
      let (u, q1, e1) = >>=-eq-ok (guard (is_valid_hash hash) _) _ e in
      let (resp, q2, e2) = >>=-eq-ok (send (block_url h p hash)) _ e1 in
      let (u', q3, e3) = >>=-eq-ok (guard resp.is_success _) _ e2 in
      let (b', q4, e4) = >>=-eq-ok (read_capped resp max_block_bytes) _ e3 in
      verified-HasHash h hash b' b e4

  fetch_block-HasHash :
      (send : Text → Result Response) (hash : Text) (b : Bytes)
      → fetch_block h send hash ≡ ok b
      → HasHash h hash b
  unfolding fetch_block
  fetch_block-HasHash send hash b e =
      let (u, q1, e1) = >>=-eq-ok (guard (is_valid_hash hash) _) _ e in
      let (b', q2, e2) = >>=-eq-ok (get_bytes send _ _) _ e1 in verified-HasHash h hash b' b e2

  fetch_block_network-HasHash :
      (net : Net) (s : Resolver) (hash : Text) (b : Bytes)
      → fetch_block_network h net s hash ≡ ok b
      → HasHash h hash b
  unfolding fetch_block_network
  fetch_block_network-HasHash net s hash b e =
      try_each_sound {Good = λ b. HasHash h hash b} (fetch_block_native h net s hash)
        (add_defaults (native_of h net (ranked h net s hash)) s.native_providers)
        (try_each (fetch_block_from h net.url hash) (ranked h net s hash)
          (fetch_block h net.node_one hash))
        (fetch_block_native-HasHash net s hash)
        (try_each_sound {Good = λ b. HasHash h hash b} (fetch_block_from h net.url hash)
          (ranked h net s hash) (fetch_block h net.node_one hash)
          (fetch_block_from-HasHash net.url hash) (fetch_block-HasHash net.node_one hash))
        b e

  -- The block is in the cache under its address; other blocks are as before.
  abbrev pub IsStored : Text → Bytes → Blocks → Blocks → Type 0
  IsStored hash b disk disk' =
      (get_block h disk' hash ≡ ok b)
      × ((k : Text) → k ≢ hash → get_block h disk' k ≡ get_block h disk k)

  with_blocks-IsStored :
      (hash : Text) (b' b : Bytes) (r : Result Blocks) (s s' : Resolver)
      → ((disk : Blocks) → r ≡ ok disk → IsStored hash b' s.blocks disk)
      → with_blocks h s b' r ≡ (ok b, s')
      → IsStored hash b s.blocks s'.blocks
  with_blocks-IsStored hash b' b (err e) s s' put q = cc
  with_blocks-IsStored hash b' b (ok disk) s s' put q =
      let (back, same) = put disk refl in
      (ground (arith, q, back), λ k ne. ground (arith, q, same k ne))

  stored-IsStored :
      (i : Io) (hash : Text) (b : Bytes) (disk disk' : Blocks)
      → stored h i hash b disk ≡ ok disk'
      → IsStored hash b disk disk'
  unfolding stored
  stored-IsStored i hash b disk disk' e =
      let (d, q1, e1) = >>=-eq-ok (put_block h disk hash b) _ e in
      let (u, q2, e2) = >>=-eq-ok i.write_block _ e1 in
      get_block-put_block h disk disk' hash b (ground (arith, q1, e2))

  store_block-IsStored :
      (i : Io) (hash : Text) (r : Result Bytes) (b : Bytes) (s s' : Resolver)
      → store_block h i hash r s ≡ (ok b, s')
      → IsStored hash b s.blocks s'.blocks
  store_block-IsStored i hash (err e) b s s' q = cc
  store_block-IsStored i hash (ok b') b s s' q =
      with_blocks-IsStored hash b' b (stored h i hash b' s.blocks) s s'
        (λ disk e. stored-IsStored i hash b' s.blocks disk e) q

  or_fetch-IsStored :
      (net : Net) (i : Io) (hash : Text) (r : Result Bytes) (b : Bytes) (s s' : Resolver)
      → r ≡ get_block h s.blocks hash
      → or_fetch h net i hash r s ≡ (ok b, s')
      → IsStored hash b s.blocks s'.blocks
  or_fetch-IsStored net i hash (ok b') b s s' there q =
      (ground (arith, there, q), λ k ne. ground (arith, q))
  or_fetch-IsStored net i hash (err e) b s s' there q =
      store_block-IsStored i hash (fetch_block_network h net s hash) b s s' q

  -- A block that is returned hashes to its address, whichever source sent it; from then on it is
  -- returned with no answer of the network and no change, and the cache reads every other address as
  -- before.
  pub block_traced-IsStored :
      (net : Net) (i : Io) (hash : Text) (s s' : Resolver) (b : Bytes)
      → block_traced h net i hash s ≡ (ok b, s')
      → (hash_bytes h b ≡ hash)
        × ((net' : Net) (i' : Io) → block_traced h net' i' hash s' ≡ (ok b, s'))
        × ((k : Text) → k ≢ hash → get_block h s'.blocks k ≡ get_block h s.blocks k)
  unfolding block_traced
  block_traced-IsStored net i hash s s' b q =
      let (there, same) = or_fetch-IsStored net i hash (get_block h s.blocks hash) b s s' refl q in
      ((get_block_sound h s'.blocks hash b there).1, λ net' i'. rw there refl, same)
