-- ===== src/Dns/Server.antt =====
-- crates/federate-dns/src/lib.rs: the name server. A socket is the list of what it receives; the
-- refresh loops, deadlines and connection slots are left out.
use federate.Base.{
  ℕ, zero, suc, Text, Bytes, Bool, true, false, not, Option, none, some, List, [], ◌∷◌, ◌++◌,
  length, take, drop, ltb, leb, ◌==◌, ◌&&◌, ◌||◌, is_empty, if◌then◌else◌, trim_end_matches, split,
  to_ascii_lowercase,
}
use federate.Core.{Result, ok, err}
use federate.Naming.{is_dot, is_resolvable_tld}
use federate.Root.{RootZone, TldRecord, lookup_tld}
use federate.Host.{Host}
use federate.Signing.Tlds
use federate.Resolution.{Resolver, Net, Io}
use federate.Resolution.Roots.{root}
use federate.Directory.{NodeEntry}
use federate.Dns.{IpAddr, is_ipv4}
use federate.Dns.Wire.{
  QueryType, DnsQuery, Parsed, parsed, parse, u16_at, be_u16, to_be_u16, build_response,
  build_servfail,
}

abbrev pub default_ttl_secs : ℕ
default_ttl_secs = 30

abbrev pub max_answers : ℕ
max_answers = 8

abbrev pub max_tcp_message : ℕ
max_tcp_message = 4096

pub record DnsServer : Type 0 where
  pub resolver : Resolver
  pub ttl : ℕ
  pub gateways : List IpAddr
  pub fixed_answers : List IpAddr

unfoldable pub with_fixed_answers : Resolver → List IpAddr → DnsServer
with_fixed_answers resolver fixed = record {
  resolver = resolver;
  ttl = default_ttl_secs;
  gateways = [];
  fixed_answers = fixed;
}

-- The address of each node that parses, in the order of the directory.
abbrev keep_parsed : Option IpAddr → List IpAddr → List IpAddr
keep_parsed none rest = rest
keep_parsed (some ip) rest = ip ∷ rest

unfoldable pub parse_ips : (Text → Option IpAddr) → List Text → List IpAddr
parse_ips parse_ip [] = []
parse_ips parse_ip (s ∷ rest) = keep_parsed (parse_ip s) (parse_ips parse_ip rest)

unfoldable pub node_ips : (Text → Option IpAddr) → List NodeEntry → List IpAddr
unfolding parse_ips
node_ips parse_ip [] = []
node_ips parse_ip (n ∷ nodes) =
    parse_ips parse_ip n.registration.public_ips ++ node_ips parse_ip nodes

-- `refresh_gateways`, with the answer of the directory. An error keeps the old list.
unfoldable pub refresh_gateways :
    (Text → Option IpAddr) → Result (List NodeEntry) → DnsServer → DnsServer
unfolding node_ips
refresh_gateways parse_ip (err e) d = d
refresh_gateways parse_ip (ok nodes) d = record d { gateways = node_ips parse_ip nodes }

-- `rsplit('.').next()`.
abbrev last_part : Text → List Text → Text
last_part part [] = part
last_part part (p ∷ parts) = last_part p parts

unfoldable pub tld_of : Text → Text
tld_of name = to_ascii_lowercase (last_part [] (split b'.' (trim_end_matches is_dot name)))

-- The addresses of one family, in order.
unfoldable pub of_family : Bool → List IpAddr → List IpAddr
of_family ipv4 [] = []
of_family ipv4 (ip ∷ ips) =
    let rest = of_family ipv4 ips in
    if is_ipv4 ip then (if ipv4 then ip ∷ rest else rest) else if ipv4 then rest else ip ∷ rest

abbrev pub by_type : QueryType → List IpAddr → List IpAddr
by_type QueryType.a ips = of_family true ips
by_type QueryType.aaaa ips = of_family false ips
by_type (QueryType.other v) ips = []

abbrev pub is_a : QueryType → Bool
is_a QueryType.a = true
is_a _ = false

abbrev pub no_answers : List IpAddr → Bool
no_answers [] = true
no_answers (ip ∷ ips) = false

-- The fixed answers, if there are any.
unfoldable pub candidates : DnsServer → List IpAddr
candidates d = if no_answers d.fixed_answers then d.gateways else d.fixed_answers

unfoldable pub answer_federate : DnsServer → DnsQuery → Bytes
answer_federate d query =
    let answers = take max_answers (by_type query.qtype (candidates d)) in
    if no_answers answers && is_a query.qtype
    then build_servfail query
    else build_response query answers d.ttl

-- What the socket to the upstream resolver receives before the deadline: `none` is an error, and the
-- end of the list is the deadline. Datagrams with another transaction id are passed over.
unfoldable pub first_reply : ℕ → List (Option Bytes) → Option Bytes
first_reply id [] = none
first_reply id (none ∷ rest) = none
first_reply id (some buf ∷ rest) =
    let later = first_reply id rest in
    if leb 2 (length buf) && u16_at buf 0 == id then some buf else later

-- The socket may not come up at all.
unfoldable pub forward_upstream : Option (List (Option Bytes)) → ℕ → Option Bytes
unfolding first_reply
forward_upstream none id = none
forward_upstream (some received) id = first_reply id received

abbrev pub or_servfail : Option Bytes → DnsQuery → Bytes
or_servfail none query = build_servfail query
or_servfail (some reply) query = reply

module _ (h : Host) where
  abbrev pub is_usable : Option TldRecord → Bool
  is_usable none = false
  is_usable (some rec) = is_resolvable_tld rec.status && not (Tlds.is_expired h rec)

  abbrev pub in_zone : Text → Result RootZone × Resolver → Bool × Resolver
  in_zone tld (err e, s) = (false, s)
  in_zone tld (ok zone, s) = (is_usable (lookup_tld tld zone), s)

  module _ (net : Net) (io : Io) where
    unfoldable pub is_federate_name : Text → Resolver → Bool × Resolver
    is_federate_name name s =
        if is_empty (tld_of name) then (false, s) else in_zone (tld_of name) (root h net io s)

    module _ (upstream : Bytes → Option (List (Option Bytes))) where
      abbrev pub reply_to : DnsServer → Bytes → DnsQuery → Bool × Resolver → Bytes × DnsServer
      reply_to d packet query (true, s) = (answer_federate d query, record d { resolver = s })
      reply_to d packet query (false, s) = (
        or_servfail (forward_upstream (upstream packet) query.id) query,
        record d { resolver = s },
      )

      abbrev some_reply : Bytes × DnsServer → Option Bytes × DnsServer
      some_reply (reply, d) = (some reply, d)

      unfoldable pub handle_parsed : DnsServer → Bytes → Parsed DnsQuery → Option Bytes × DnsServer
      unfolding answer_federate
      handle_parsed d packet (parsed query) =
          some_reply (reply_to d packet query (is_federate_name query.name d.resolver))
      handle_parsed d packet _ = (none, d)

      unfoldable pub handle_packet : Bytes → DnsServer → Option Bytes × DnsServer
      unfolding handle_parsed
      handle_packet packet d = handle_parsed d packet (parse packet)

      -- The bytes of a message on a connection.
      abbrev pub frame : Bytes → Bytes
      frame packet = to_be_u16 (length packet) ++ packet

      abbrev pub send : Bytes → Bytes × DnsServer → Bytes × DnsServer
      send reply (out, d) = (frame reply ++ out, d)

      abbrev pub send_reply :
          (DnsServer → Bytes × DnsServer) → Option Bytes × DnsServer → Bytes × DnsServer
      send_reply next (none, d) = ([], d)
      send_reply next (some reply, d) =
          if ltb 65535 (length reply) then ([], d) else send reply (next d)

      -- The loop over what the client sent until it closed or fell silent, with what it is sent, whose
      -- writes the socket takes.
      unfoldable pub serve_messages : ℕ → Bytes → DnsServer → Bytes × DnsServer
      unfolding handle_packet
      serve_messages zero input d = ([], d)
      serve_messages (suc fuel) [] d = ([], d)
      serve_messages (suc fuel) (hi ∷ []) d = ([], d)
      serve_messages (suc fuel) (hi ∷ lo ∷ rest) d =
          let len = be_u16 hi lo in
          if len == 0 || ltb max_tcp_message len || ltb (length rest) len
          then ([], d)
          else send_reply (serve_messages fuel (drop len rest)) (handle_packet (take len rest) d)

      -- A message takes two bytes at least, so there are rounds enough.
      unfoldable pub serve_tcp_conn : Bytes → DnsServer → Bytes × DnsServer
      unfolding serve_messages
      serve_tcp_conn input d = serve_messages (length input) input d
