-- ===== src/Transport.antt =====
-- crates/federate-transport/src/lib.rs: sessions of the native protocol as bytes on a socket. Messages
-- are framed by `encode` and taken apart by `frame_len`; a body is read and written by serde_json.
pub mod Session
use federate.Base.{
  ℕ, zero, suc, Text, Bytes, List, [], ◌∷◌, ◌++◌, length, take, drop, leb, Option, none, some,
}
use federate.Core.{Result, ok, err, ◌>>=◌, ◌>>◌, guard, network}
use federate.Protocol.{
  Message, Capability, ErrorCode, supported_versions, member, negotiate, encode, frame_len,
}
use federate.Host.{Host}
use federate.Identity.{NodeIdentity, node_id}

-- serde_json on messages.
pub record Codec : Type 0 where
  pub to_vec : Message → Result Bytes
  pub from_slice : Bytes → Result Message

-- The socket to a dialled address. It takes the last of the frames that were written so far, or not,
-- and behind them it delivers bytes until the peer falls silent for the deadline or closes.
pub record Peer : Type 0 where
  pub codec : Codec
  pub write : List Bytes → Result (Unit {0})
  pub arrives : List Bytes → Bytes

pub record Connection : Type 0 where
  pub peer : Peer
  pub sent : List Bytes
  pub unread : Bytes
  pub version : ℕ

-- `Connection::send`, with the frames that were written.
unfoldable pub send :
    Codec → (List Bytes → Result (Unit {0})) → List Bytes → Message → Result (List Bytes)
send codec write sent msg = do
  frame ← encode (codec.to_vec msg)
  write (sent ++ frame ∷ [])
  ok (sent ++ frame ∷ [])

-- `Connection::recv`, with the bytes that are left behind the message.
unfoldable pub recv : Codec → Bytes → Result (Message × Bytes)
recv codec (a ∷ b ∷ c ∷ d ∷ rest) = do
  len ← frame_len a b c d
  guard (leb len (length rest)) (network "recv failed")
  msg ← codec.from_slice (take len rest)
  ok (msg, drop len rest)
recv codec _ = err (network "recv failed")

-- The session version that a first answer sets.
unfoldable pub accept_welcome : Message → Result ℕ
accept_welcome (Message.welcome version id agent capabilities) = do
  guard (member version supported_versions) (network "peer chose unsupported protocol version")
  ok version
accept_welcome (Message.error code detail) = err (network "handshake rejected")
accept_welcome _ = err (network "expected Welcome")

module _ (h : Host) where
  abbrev pub greeting : NodeIdentity → Text → Message
  greeting i agent = Message.hello supported_versions (node_id h i) agent

  -- `Connection::connect`, where the dialled address answers with a peer.
  unfoldable pub connect : Result Peer → NodeIdentity → Text → Result Connection
  connect dialled i agent = do
    peer ← dialled
    sent ← send peer.codec peer.write [] (greeting i agent)
    (answer, unread) ← recv peer.codec (peer.arrives sent)
    version ← accept_welcome answer
    ok (record { peer = peer; sent = sent; unread = unread; version = version })

-- `Connection::request`.
unfoldable pub request : Connection → Message → Result Message
request conn msg = do
  sent ← send conn.peer.codec conn.peer.write conn.sent msg
  (answer, unread) ← recv conn.peer.codec (conn.unread ++ conn.peer.arrives sent)
  ok answer

-- What a node answers with.
pub record NodeService : Type 0 where
  pub service_id : Text
  pub capabilities : List Capability
  pub handle : Message → Message

abbrev pub max_requests_per_connection : ℕ
max_requests_per_connection = 10000

-- What the sending of a message leads to: an error ends the session, with the frames before it.
abbrev pub after_send :
    List Bytes
    → (List Bytes → Result (Unit {0}) × List Bytes)
    → Result (List Bytes)
    → Result (Unit {0}) × List Bytes
after_send sent next (err e) = (err e, sent)
after_send sent next (ok sent') = next sent'

abbrev pub done : List Bytes → Result (Unit {0}) × List Bytes
done sent = (ok tt, sent)

-- `let Message::Hello { versions, .. } = hello else`.
abbrev pub versions_of : Message → Option (List ℕ)
versions_of (Message.hello versions id agent) = some versions
versions_of _ = none

module _ (codec : Codec) (write : List Bytes → Result (Unit {0})) (service : NodeService) where
  -- The loop over the requests. `input` is what the peer sends until it closes or falls silent; the
  -- frames that were written are returned with the result.
  unfoldable pub serve_requests : ℕ → Bytes → List Bytes → Result (Unit {0}) × List Bytes
  serve_requests zero input sent = (ok tt, sent)
  serve_requests (suc n) input sent = elim (recv codec input) [
    | err e ↦ (ok tt, sent)
    | ok (msg, rest) ↦
        after_send sent (serve_requests n rest) (send codec write sent (service.handle msg))
  ]

  -- The answer to a `Hello`, and the session behind it.
  unfoldable pub serve_version : Text → Option ℕ → Bytes → Result (Unit {0}) × List Bytes
  serve_version agent none input =
      after_send [] done (send codec write [] (Message.error ErrorCode.unsupported []))
  serve_version agent (some version) input =
      after_send [] (serve_requests max_requests_per_connection input) (
        send codec write [] (Message.welcome version service.service_id agent service.capabilities))

  abbrev pub serve_first : Text → Option (List ℕ) → Bytes → Result (Unit {0}) × List Bytes
  serve_first agent (some versions) input =
      serve_version agent (negotiate supported_versions versions) input
  serve_first agent none input =
      after_send [] done (send codec write [] (Message.error ErrorCode.bad_request []))

  unfoldable pub serve_conn : Text → Bytes → Result (Unit {0}) × List Bytes
  serve_conn agent input = elim (recv codec input) [
    | err e ↦ (err e, [])
    | ok (first, rest) ↦ serve_first agent (versions_of first) rest
  ]
