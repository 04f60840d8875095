-- ===== src/Tests/Peers.antt =====
-- The native protocol, the ranking of providers and capped downloads.
use federate.Base.{
  ℕ, Text, none, some, List, [], ◌∷◌, ◌≡◌, refl, codes, text_eq, Option, arith, Bytes, zero, suc,
  subst, length, ◌<◌,
}
use mathlib.Core.List.{Perm}
use federate.Core.{Result, ok, err, serde}
use federate.Protocol.{Message, ErrorCode, negotiate, encode, frame_len, to_be_bytes, from_be_bytes}
use federate.Transport.{Codec, NodeService, serve_conn, serve_version, serve_requests, send, recv}
use federate.Transport.Session.{ReadsMessages, IsStream, IsSession, serve_conn-IsSession}
use federate.Directory.{NodeEntry, NodeStatus}
use federate.Cdn
use federate.Cdn.{rank_providers, before}
use federate.Cdn.Ranked.{reachable, IsRanked, rank_providers-IsRanked}
use federate.Protocol.{member}

-- A format of four kinds of message.
abbrev to_vec : Message → Result Bytes
to_vec (Message.get_block hash) = ok (0 ∷ hash)
to_vec (Message.root_zone json) = ok (1 ∷ json)
to_vec (Message.hello versions [] []) = ok (2 ∷ versions)
to_vec (Message.welcome version [] [] []) = ok (3 ∷ version ∷ [])
to_vec _ = err (serde "not in this format")

abbrev from_slice : Bytes → Result Message
from_slice (zero ∷ hash) = ok (Message.get_block hash)
from_slice (suc zero ∷ json) = ok (Message.root_zone json)
from_slice (suc (suc zero) ∷ versions) = ok (Message.hello versions [] [])
from_slice (suc (suc (suc n)) ∷ version ∷ []) = ok (Message.welcome version [] [] [])
from_slice _ = err (serde "not in this format")

abbrev small_codec : Codec
small_codec = record { to_vec = to_vec; from_slice = from_slice }

abbrev ReadsBack : Message → Result Bytes → Type 0
ReadsBack m (err e) = Unit
ReadsBack m (ok body) = (from_slice body ≡ ok m) × (0 < length body)

reads_back : (m : Message) → ReadsBack m (to_vec m)
reads_back (Message.hello versions [] []) = (refl, omega arith)
reads_back (Message.hello versions [] (c ∷ agent)) = tt
reads_back (Message.hello versions (c ∷ id) agent) = tt
reads_back (Message.welcome version [] [] []) = (refl, omega arith)
reads_back (Message.welcome version [] [] (c ∷ cs)) = tt
reads_back (Message.welcome version [] (c ∷ agent) cs) = tt
reads_back (Message.welcome version (c ∷ id) agent cs) = tt
reads_back Message.get_root = tt
reads_back (Message.root_zone json) = (refl, omega arith)
reads_back (Message.get_manifest hash) = tt
reads_back (Message.manifest hash bytes) = tt
reads_back (Message.get_block hash) = (refl, omega arith)
reads_back (Message.block hash bytes) = tt
reads_back (Message.get_providers hash) = tt
reads_back (Message.providers_of hash nodes) = tt
reads_back (Message.get_tld_registry tld) = tt
reads_back (Message.tld_registry tld json) = tt
reads_back (Message.get_domain_record fqdn) = tt
reads_back (Message.domain_record fqdn json) = tt
reads_back Message.get_status = tt
reads_back (Message.status id roles region agent version) = tt
reads_back (Message.error code detail) = tt

small-ReadsMessages : ReadsMessages small_codec
small-ReadsMessages = record {
  back = λ m body e. (subst (ReadsBack m) e (reads_back m)).0;
  text = λ m body e. (subst (ReadsBack m) e (reads_back m)).1;
}

-- A node that has one block, and answers nothing else.
abbrev service : NodeService
service = record {
  service_id = [];
  capabilities = [];
  handle = λ m. elim m [
    | Message.get_block hash ↦ Message.root_zone (5 ∷ [])
    | _ ↦ Message.error ErrorCode.bad_request []
  ];
}

abbrev session : List Message
session = Message.hello (0 ∷ []) [] [] ∷ Message.get_block (7 ∷ []) ∷ []

abbrev stream : Bytes
stream = 0 ∷ 0 ∷ 0 ∷ 2 ∷ 2 ∷ 0 ∷ 0 ∷ 0 ∷ 0 ∷ 2 ∷ 0 ∷ 7 ∷ 0 ∷ []

stream-IsStream : IsStream small_codec session stream
stream-IsStream = (
  2 ∷ 0 ∷ [],
  0 ∷ 0 ∷ 0 ∷ 2 ∷ 0 ∷ 7 ∷ 0 ∷ [],
  (refl, omega arith),
  refl,
  (0 ∷ 7 ∷ [], 0 ∷ [], (refl, omega arith), refl, tt),
)

abbrev served : Result (Unit {0}) × List Bytes
served = serve_conn small_codec (λ frames. ok tt) service [] stream

welcome_and_block :
    served ≡ (ok tt, (0 ∷ 0 ∷ 0 ∷ 2 ∷ 3 ∷ 0 ∷ []) ∷ (0 ∷ 0 ∷ 0 ∷ 2 ∷ 1 ∷ 5 ∷ []) ∷ [])
unfolding serve_conn serve_version serve_requests send recv encode frame_len to_be_bytes
    from_be_bytes negotiate member
welcome_and_block = refl

serve_conn-IsSession_example :
    IsSession small_codec small-ReadsMessages (λ frames. ok tt) service [] session served.0 served.1
serve_conn-IsSession_example =
    serve_conn-IsSession small_codec small-ReadsMessages (λ frames. ok tt) service [] session stream
      stream-IsStream

abbrev entry : Text → NodeStatus → Option ℕ → NodeEntry
entry region status latency_ms = record {
  registration = record {
    node_id = [];
    public_key = [];
    roles = [];
    public_ips = [];
    region = region;
    version = [];
    capacity = record { storage_gb = 0; bandwidth_mbps = 0 };
    health_endpoint = [];
    native_port = none;
    registered_at = [];
    signature_algorithm = [];
    signature = none;
  };
  status = status;
  last_seen = [];
  latency_ms = latency_ms;
  consecutive_failures = 0;
}

abbrev entries : List NodeEntry
entries =
    entry (codes "eu") NodeStatus.degraded (some 5)
    ∷ entry (codes "us") NodeStatus.online (some 9)
    ∷ entry (codes "us") NodeStatus.offline (some 1)
    ∷ entry (codes "eu") NodeStatus.online none
    ∷ []

ranking :
    rank_providers entries (some (codes "eu"))
    ≡ entry (codes "eu") NodeStatus.online none
      ∷ entry (codes "us") NodeStatus.online (some 9)
      ∷ entry (codes "eu") NodeStatus.degraded (some 5)
      ∷ []
unfolding rank_providers Cdn.sort_in before text_eq
ranking = refl

rank_providers-IsRanked_example :
    Perm (rank_providers entries (some (codes "eu"))) (reachable entries)
    × IsRanked (some (codes "eu")) (rank_providers entries (some (codes "eu")))
rank_providers-IsRanked_example = rank_providers-IsRanked entries (some (codes "eu"))
