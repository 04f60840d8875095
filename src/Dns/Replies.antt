-- ===== src/Dns/Replies.antt =====
-- What a client of the name server of crates/federate-dns/src/lib.rs gets.
use federate.Base.{
  ℕ, ◌%◌, ◌<◌, Bytes, String, Bool, true, false, Option, none, some, List, [], ◌∷◌, ◌++◌, length,
  take, ◌&&◌, ◌≡◌, ◌≢◌, refl, ◌∙◌, arith, All, Bool-cases, Option-cases, ◌⊎◌, inl, inr,
}
use federate.Host.{Host}
use federate.Resolution.{Resolver, Net, Io}
use federate.Dns.Wire.{
  DnsQuery, Parsed, parsed, parse_error, out_of_fuel, parse, u16_at, to_be_u16, answers, header,
  build_response, build_servfail,
}
use federate.Dns.Questions.{parse-IsQuery, parsers_end}
use federate.Dns.Server.{
  DnsServer, is_federate_name, answer_federate, candidates, by_type, is_a, no_answers, max_answers,
  first_reply, forward_upstream, or_servfail, handle_packet, reply_to,
}

abbrev IsByte : ℕ → Type 0
IsByte b = b < 256

-- The transaction id stands in the first two bytes.
id-header :
    (query : DnsQuery) (rcode n : ℕ) (rest : Bytes)
    → query.id < 65536
    → u16_at (header query rcode n ++ rest) 0 ≡ query.id
unfolding header to_be_u16
id-header query rcode n rest h = omega arith

id-first_reply :
    (id : ℕ) (received : List (Option Bytes)) (reply : Bytes)
    → first_reply id received ≡ some reply
    → u16_at reply 0 ≡ id
unfolding first_reply
id-first_reply id [] reply h = cc
id-first_reply id (none ∷ rest) reply h = cc
id-first_reply id (some buf ∷ rest) reply h = ground (arith, id-first_reply id rest reply)

id-u16_at : (packet : Bytes) → All IsByte packet → u16_at packet 0 < 65536
id-u16_at [] h = omega arith
id-u16_at (a ∷ []) h = omega arith
id-u16_at (a ∷ b ∷ rest) h = omega arith

module _ (d : DnsServer) (query : DnsQuery) (short : query.id < 65536) where
  id-servfail : u16_at (build_servfail query) 0 ≡ query.id
  unfolding build_servfail
  id-servfail = id-header query 2 0 query.question_bytes short

  id-answer_federate : u16_at (answer_federate d query) 0 ≡ query.id
  unfolding answer_federate build_response
  id-answer_federate =
      elim (Bool-cases
        (no_answers (take max_answers (by_type query.qtype (candidates d))) && is_a query.qtype)) [
          | inl e ↦ rw e id-servfail
          | inr e ↦
              let ips = take max_answers (by_type query.qtype (candidates d)) in
              rw e (
                id-header query 0 (length ips % 65536) (query.question_bytes ++ answers d.ttl ips)
                  short)
        ]

  id-or_servfail :
      (received : Option (List (Option Bytes)))
      → u16_at (or_servfail (forward_upstream received query.id) query) 0 ≡ query.id
  unfolding forward_upstream
  id-or_servfail none = id-servfail
  id-or_servfail (some received) = elim (Option-cases (first_reply query.id received)) [
    | inl e ↦ rw e id-servfail
    | inr (reply, e) ↦ rw e (id-first_reply query.id received reply e)
  ]

Parsed-cases {ℓ} :
    {A : Type ℓ} (r : Parsed A)
    → r ≢ out_of_fuel
    → ((a : A) × (r ≡ parsed a)) ⊎ ((why : String) × (r ≡ parse_error why))
Parsed-cases (parsed a) h = inl (a, refl)
Parsed-cases (parse_error why) h = inr (why, refl)
Parsed-cases out_of_fuel h = absurd (h refl)

module _ (h : Host) (net : Net) (io : Io) (upstream : Bytes → Option (List (Option Bytes))) where
  pub handle_packet-eq :
      (packet : Bytes) (query : DnsQuery) (d : DnsServer)
      → parse packet ≡ parsed query
      → (handle_packet h net io upstream packet d).0
        ≡ some
            (reply_to h net io upstream d packet query
              (is_federate_name h net io query.name d.resolver)).0
  unfolding handle_packet
  handle_packet-eq packet query d e = rw e

  id-reply_to :
      (d : DnsServer) (packet : Bytes) (query : DnsQuery) (p : Bool × Resolver)
      → query.id < 65536
      → u16_at (reply_to h net io upstream d packet query p).0 0 ≡ query.id
  id-reply_to d packet query (true, s) short = id-answer_federate d query short
  id-reply_to d packet query (false, s) short = id-or_servfail d query short (upstream packet)

  handle_packet-parse_error :
      (packet : Bytes) (why : String) (d : DnsServer)
      → parse packet ≡ parse_error why
      → handle_packet h net io upstream packet d ≡ (none, d)
  unfolding handle_packet
  handle_packet-parse_error packet why d e = rw e

  -- Every packet of bytes that is a question is answered, whatever the network, the directory and the
  -- upstream resolver do, and the answer carries the transaction id of the question. Every other packet
  -- gets no answer and leaves the server as it is.
  pub handle_packet-IsReply :
      (packet : Bytes) (d : DnsServer)
      → All IsByte packet
      → ((query : DnsQuery) × (reply : Bytes) × (parse packet ≡ parsed query)
          × ((handle_packet h net io upstream packet d).0 ≡ some reply)
          × (u16_at reply 0 ≡ u16_at packet 0))
        ⊎ ((why : String) × (parse packet ≡ parse_error why)
            × (handle_packet h net io upstream packet d ≡ (none, d)))
  handle_packet-IsReply packet d bytes = elim (Parsed-cases (parse packet) (parsers_end packet).0) [
    | inl (query, e) ↦
        let q = parse-IsQuery packet query e in
        let short : query.id < 65536 = omega (arith, q.first, id-u16_at packet bytes) in
        inl (
          query,
          (reply_to h net io upstream d packet query
              (is_federate_name h net io query.name d.resolver)).0,
          e,
          handle_packet-eq packet query d e,
          id-reply_to d packet query (is_federate_name h net io query.name d.resolver) short
              ∙ q.first,
        )
    | inr (why, e) ↦ inr (why, e, handle_packet-parse_error packet why d e)
  ]
