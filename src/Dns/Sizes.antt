-- ===== src/Dns/Sizes.antt =====
-- Sizes of the answers of crates/federate-dns/src/lib.rs, against the 512 bytes of plain UDP.
use federate.Base.{
  ℕ, ◌+◌, ◌*◌, ◌≤◌, Bytes, List, [], ◌∷◌, ◌++◌, length, take, ◌&&◌, ◌≡◌, arith, All, Bool-cases,
  inl, inr, length-append,
}
use federate.Protocol.{to_be_bytes}
use federate.Dns.{IpAddr, v4, v6, IsIp}
use federate.Dns.Wire.{DnsQuery, to_be_u16, header, answer, answers, build_response, build_servfail}
use federate.Dns.Server.{
  DnsServer, answer_federate, candidates, by_type, is_a, no_answers, max_answers,
}
use federate.Dns.Federated.{IsConfigured, candidates-IsIp, take-IsIp, by_type-IsIp, length-take}

length-answer : (ttl : ℕ) (ip : IpAddr) → IsIp ip → length (answer ttl ip) ≤ 28
unfolding answer to_be_u16 to_be_bytes
length-answer ttl (v4 octets) h = omega arith
length-answer ttl (v6 octets) h = omega arith

length-answers :
    (ttl : ℕ) (ips : List IpAddr) → All IsIp ips → length (answers ttl ips) ≤ 28 * length ips
unfolding answers
length-answers ttl [] all = omega arith
length-answers ttl (ip ∷ ips) (one, all) = omega (
  arith,
  length-answer ttl ip one,
  length-answers ttl ips all,
  length-append (answer ttl ip) (answers ttl ips),
)

length-header :
    (query : DnsQuery) (rcode n : ℕ) (rest : Bytes)
    → length (header query rcode n ++ rest) ≡ 12 + length rest
unfolding header to_be_u16
length-header query rcode n rest = omega arith

-- An answer of the server for a question section of at most 276 bytes, which every name of at most 272
-- bytes on the wire has, fits a plain UDP packet.
pub answer_federate-fits :
    (d : DnsServer) (query : DnsQuery)
    → IsConfigured d
    → length query.question_bytes ≤ 276
    → length (answer_federate d query) ≤ 512
unfolding answer_federate build_response build_servfail
answer_federate-fits d query c short =
    let ips = take max_answers (by_type query.qtype (candidates d)) in
    elim (Bool-cases (no_answers ips && is_a query.qtype)) [
      | inl e ↦ rw e (omega (arith, length-header query 2 0 query.question_bytes))
      | inr e ↦ rw e (
          omega (
            arith,
            length-append query.question_bytes (answers d.ttl ips),
            length-answers d.ttl ips (
                take-IsIp 8 (by_type query.qtype (candidates d))
                  (by_type-IsIp query.qtype (candidates d) (candidates-IsIp c))),
            length-take 8 (by_type query.qtype (candidates d)),
          ))
    ]
