-- ===== src/Tests/NameServer.antt =====
-- The name server at concrete packets.
use federate.Base.{
  Bytes, Option, true, none, some, List, [], ◌∷◌, ◌++◌, length, ◌≤◌, ◌≡◌, ◌≢◌, refl, codes, arith,
  ◌⊎◌, All, String, from_utf8_lossy, split, join, trim_end_matches,
}
use federate.Naming.{is_dot}
use federate.Dns.{v4, v6}
use federate.Dns.Wire.{
  QueryType, DnsQuery, parsed, parse_error, out_of_fuel, parse, parse_answers, from_u16,
  build_query, u16_at,
}
use federate.Dns.Questions.{IsLabel, parse-build_query, parsers_end, question_of}
use federate.Dns.Server.{DnsServer, handle_packet, serve_tcp_conn, answer_federate}
use federate.Dns.Replies.{handle_packet-IsReply}
use federate.Dns.Federated.{
  IsFederate, IsConfigured, FromUpstream, IsServing, expected, handle_packet-IsAnswer,
}
use federate.Dns.Sizes.{answer_federate-fits}
use federate.Dns.Streams.{sent, IsServed, serve_tcp_conn-frames}
use federate.Tests.SmallHost.{small_host, small-ReadsZones}
use federate.Tests.Resolver.{key, small_net, working, ready, ready-IsHeld}

abbrev packet : Bytes
packet =
    18 ∷ 52 ∷ 1 ∷ 0 ∷ 0 ∷ 1 ∷ 0 ∷ 0 ∷ 0 ∷ 0 ∷ 0 ∷ 0 ∷ 4 ∷ b'g' ∷ b'o' ∷ b'o' ∷ b'd' ∷ 3 ∷ b'f'
    ∷ b'e' ∷ b'd' ∷ 0 ∷ 0 ∷ 1 ∷ 0 ∷ 1 ∷ []

abbrev query : DnsQuery
query = record {
  id = 4660;
  name = codes "good.fed";
  qtype = QueryType.a;
  question_bytes = 4 ∷ b'g' ∷ b'o' ∷ b'o' ∷ b'd' ∷ 3 ∷ b'f' ∷ b'e' ∷ b'd' ∷ 0 ∷ 0 ∷ 1 ∷ 0 ∷ 1 ∷ [];
  recursion_desired = true;
}

question_parsed : parse packet ≡ parsed query
unfolding parse from_utf8_lossy join from_u16
question_parsed = refl

-- A dot at the end is dropped.
parse-build_query_example :
    parse (build_query 4660 (codes "good.fed.") 1)
    ≡ parsed (record {
      id = 4660;
      name = trim_end_matches is_dot (codes "good.fed.");
      qtype = from_u16 1;
      question_bytes = question_of (trim_end_matches is_dot (codes "good.fed.")) 1;
      recursion_desired = true;
    })
parse-build_query_example =
    parse-build_query 4660 (codes "good.fed.") 1 (omega arith) (omega arith) labels
  where
    labels : All IsLabel (split b'.' (trim_end_matches is_dot (codes "good.fed.")))
    labels = unfold split trim_end_matches in omega arith

parsers_end_example : (parse packet ≢ out_of_fuel) × (parse_answers packet ≢ out_of_fuel)
parsers_end_example = parsers_end packet

abbrev server : DnsServer
server = record {
  resolver = ready;
  ttl = 30;
  gateways =
      v6 (0 ∷ 0 ∷ 0 ∷ 0 ∷ 0 ∷ 0 ∷ 0 ∷ 0 ∷ 0 ∷ 0 ∷ 0 ∷ 0 ∷ 0 ∷ 0 ∷ 0 ∷ 1 ∷ [])
      ∷ v4 (45 ∷ 1 ∷ 1 ∷ 1 ∷ [])
      ∷ [];
  fixed_answers = [];
}

abbrev upstream : Bytes → Option (List (Option Bytes))
upstream sent = some (some (0 ∷ 0 ∷ []) ∷ some (18 ∷ 52 ∷ 7 ∷ []) ∷ [])

configured : IsConfigured server
configured = record { gateways = (refl, (refl, tt)); fixed_answers = tt; ttl = omega arith }

handle_packet-IsReply_example :
    ((q : DnsQuery) × (reply : Bytes) × (parse packet ≡ parsed q)
      × ((handle_packet small_host small_net working upstream packet server).0 ≡ some reply)
      × (u16_at reply 0 ≡ u16_at packet 0))
    ⊎ ((why : String) × (parse packet ≡ parse_error why)
        × (handle_packet small_host small_net working upstream packet server ≡ (none, server)))
handle_packet-IsReply_example =
    handle_packet-IsReply small_host small_net working upstream packet server (omega arith)

handle_packet-IsAnswer_example :
    (reply : Bytes) × ((handle_packet small_host small_net working upstream packet server).0
      ≡ some reply)
    × ((IsFederate small_host key query.name
          × (parse_answers reply ≡ parsed (expected server query.qtype)))
        ⊎ ((¬ IsServing small_host small_net working query.name server.resolver)
            × FromUpstream query.id (upstream packet) reply))
handle_packet-IsAnswer_example =
    handle_packet-IsAnswer small_host small_net working upstream key small-ReadsZones packet query
      server refl ready-IsHeld configured question_parsed

answer_federate-fits_example : length (answer_federate server query) ≤ 512
answer_federate-fits_example = answer_federate-fits server query configured (omega arith)

abbrev served : Bytes × DnsServer
served =
    serve_tcp_conn small_host small_net working upstream (sent (packet ∷ []) ++ (0 ∷ [])) server

serve_tcp_conn-frames_example :
    IsServed small_host small_net working upstream (packet ∷ []) server served.0 served.1
serve_tcp_conn-frames_example =
    serve_tcp_conn-frames small_host small_net working upstream (packet ∷ []) (0 ∷ []) server
      (omega arith) tt
