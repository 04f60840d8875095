-- ===== src/Tests/Documents.antt =====
-- Signed documents, blocks and nonces.
use federate.Base.{Text, ◌≡◌, ◌≢◌, refl, some, [], ◌∷◌, codes, insert, text_eq, len}
use federate.Core.{ok}
use federate.Core.Json.{write_canonical}
use federate.Mutation.{MutationRequest, create_tld}
use federate.Identity.{node_id, sign, canonical_bytes}
use federate.Signing.Requests
use federate.Signing.RoundTrip.{verify_request-signed}
use federate.Storage.{Blocks, is_valid_hash, hash_bytes, verify, get_block, put_block}
use federate.Storage.Integrity.{get_block-put_block}
use federate.Tests.Fixture.{host, host-SignsCorrectly, root_identity, pad, replicate}

abbrev request : MutationRequest
request = record {
  mutation_id = replicate 64 b'0';
  nonce = 3 ∷ [];
  issued_at = [];
  actor_public_key = pad 32 (7 ∷ []);
  target_version = 4;
  action = create_tld (codes "fed") [];
  signature_algorithm = codes "ed25519";
  signature = some (pad 64 (7 ∷ []));
}

request_signed :
    Requests.signed host root_identity (3 ∷ []) [] 4 (create_tld (codes "fed") []) ≡ ok request
unfolding Requests.signed Requests.seal Requests.draft Requests.compute_id Requests.signable_bytes
    canonical_bytes write_canonical sign node_id
request_signed = refl

verify_request-signed_example : Requests.verify host request ≡ ok tt
verify_request-signed_example =
    verify_request-signed host host-SignsCorrectly root_identity (3 ∷ []) [] 4
      (create_tld (codes "fed") []) request request_signed

abbrev address : Text
address = replicate 64 b'0'

abbrev disk : Blocks
disk = (address, 5 ∷ []) ∷ []

stored : put_block host [] address (5 ∷ []) ≡ ok disk
unfolding put_block verify is_valid_hash hash_bytes insert text_eq len
stored = refl

get_block-put_block_example :
    (get_block host disk address ≡ ok (5 ∷ []))
    × ((k : Text) → k ≢ address → get_block host disk k ≡ get_block host [] k)
get_block-put_block_example = get_block-put_block host [] disk address (5 ∷ []) stored
