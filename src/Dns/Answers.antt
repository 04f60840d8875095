-- ===== src/Dns/Answers.antt =====
-- Responses of crates/federate-dns/src/wire.rs, as a stub resolver reads them.
use Prim.Native.Nat.{bit_and}
use federate.Base.{
  ℕ, suc, ◌/◌, ◌%◌, ◌<◌, Bytes, Bool, true, false, List, [], ◌∷◌, ◌++◌, length, drop, subst, ◌≡◌,
  refl, sym, ap, ◌∙◌, arith, append_assoc, append-nil, drop-append, All,
}
use federate.Protocol.{to_be_bytes, from_be_bytes}
use federate.Dns.{IpAddr, v4, v6, IsIp}
use federate.Dns.Wire.{
  DnsQuery, parsed, skip_name, skip, be_u16, header, answer, answers, build_response,
  build_servfail, to_be_u16, skip_questions, read_answers, keep_answer, parse_answers,
  response_flags,
}
use federate.Dns.Names.{IsName, skip-IsName, get_range-append}

-- A question section with one question: a name, its type and its class.
pub record IsQuestion (question : Bytes) : Type 0 where
  pub name : Bytes
  pub type_class : Bytes
  pub named : IsName name
  pub four : length type_class ≡ 4
  pub whole : question ≡ name ++ type_class

-- The pointer to the name is passed by a reader.
skip-pointer : (rest : Bytes) → skip (0xC0 ∷ 0x0C ∷ rest) ≡ parsed rest
unfolding skip_name
skip-pointer rest = refl

from-to_be_bytes :
    (n : ℕ)
    → n < 4294967296
    → from_be_bytes (n / 16777216 % 256) (n / 65536 % 256) (n / 256 % 256) (n % 256) ≡ n
unfolding from_be_bytes
from-to_be_bytes n h = omega arith

-- One record is read back.
read_answers-answer :
    (n ttl : ℕ) (ip : IpAddr) (rest : Bytes) (found : List (IpAddr × ℕ))
    → ttl < 4294967296
    → IsIp ip
    → read_answers (suc n) (answer ttl ip ++ rest) found
      ≡ read_answers n rest (found ++ (ip, ttl) ∷ [])
unfolding read_answers answer keep_answer to_be_bytes
read_answers-answer n ttl (v4 octets) rest found h four =
    ground (arith, from-to_be_bytes ttl, get_range-append 4 octets rest "truncated rdata")
read_answers-answer n ttl (v6 octets) rest found h size =
    ground (arith, from-to_be_bytes ttl, get_range-append 16 octets rest "truncated rdata")

abbrev pub with_ttl : ℕ → List IpAddr → List (IpAddr × ℕ)
with_ttl ttl [] = []
with_ttl ttl (ip ∷ ips) = (ip, ttl) ∷ with_ttl ttl ips

read_answers-answers :
    (ttl : ℕ) (ips : List IpAddr) (found : List (IpAddr × ℕ))
    → ttl < 4294967296
    → All IsIp ips
    → read_answers (length ips) (answers ttl ips) found ≡ parsed (found ++ with_ttl ttl ips)
unfolding answers
read_answers-answers ttl [] found h all = unfold read_answers in ap parsed (sym (append-nil found))
read_answers-answers ttl (ip ∷ ips) found h (one, all) =
    read_answers-answer (length ips) ttl ip (answers ttl ips) found h one
    ∙ read_answers-answers ttl ips (found ++ (ip, ttl) ∷ []) h all
    ∙ ap parsed (append_assoc found ((ip, ttl) ∷ []) (with_ttl ttl ips))

-- The question section of a packet is passed as a whole.
skip_questions-IsQuestion :
    (question rest : Bytes)
    → IsQuestion question
    → skip_questions 1 (question ++ rest) ≡ parsed rest
unfolding skip_questions
skip_questions-IsQuestion question rest q =
    rw (q.whole, append_assoc q.name q.type_class rest, skip-IsName q.named (q.type_class ++ rest))
      (ap parsed
        (subst (λ n. drop n (q.type_class ++ rest) ≡ rest) q.four (drop-append q.type_class rest)))

-- The code that a reader takes from the flags.
abbrev read_code : Bool → ℕ → ℕ
read_code recursion_desired rcode =
    let flags = response_flags recursion_desired rcode in
    bit_and (be_u16 (flags / 256 % 256) (flags % 256)) 0x000F

no_error_code : (recursion_desired : Bool) → read_code recursion_desired 0 ≡ 0
unfolding response_flags
no_error_code true = refl
no_error_code false = refl

servfail_code : (recursion_desired : Bool) → read_code recursion_desired 2 ≡ 2
unfolding response_flags
servfail_code true = refl
servfail_code false = refl

-- A packet of one question is read as its header and its sections say.
header-sections :
    (query : DnsQuery) (rcode n : ℕ) (question rest : Bytes) (found : List (IpAddr × ℕ))
    → read_code query.recursion_desired rcode ≡ rcode
    → n < 65536
    → IsQuestion question
    → read_answers n rest [] ≡ parsed found
    → parse_answers (header query rcode n ++ (question ++ rest)) ≡ parsed (rcode, found)
unfolding parse_answers header to_be_u16
header-sections query rcode n question rest found code few q read =
    ground (arith, code, read, skip_questions-IsQuestion question rest q)

-- A stub resolver reads from a response the code 0 and the addresses, in order, each with the TTL.
pub parse_answers-build_response :
    (query : DnsQuery) (ips : List IpAddr) (ttl : ℕ)
    → IsQuestion query.question_bytes
    → All IsIp ips
    → length ips < 65536
    → ttl < 4294967296
    → parse_answers (build_response query ips ttl) ≡ parsed (0, with_ttl ttl ips)
unfolding build_response
parse_answers-build_response query ips ttl q all few small =
    header-sections query 0 (length ips % 65536) query.question_bytes (answers ttl ips)
      (with_ttl ttl ips) (no_error_code query.recursion_desired) (omega arith) q
      (let e : length ips ≡ length ips % 65536 = omega arith in
        subst (λ n. read_answers n (answers ttl ips) [] ≡ parsed (with_ttl ttl ips)) e
          (read_answers-answers ttl ips [] small all))

pub parse_answers-build_servfail :
    (query : DnsQuery)
    → IsQuestion query.question_bytes
    → parse_answers (build_servfail query) ≡ parsed (2, [])
unfolding build_servfail
parse_answers-build_servfail query q =
    subst (λ t. parse_answers (header query 2 0 ++ t) ≡ parsed (2, []))
      (append-nil query.question_bytes)
      (header-sections query 2 0 query.question_bytes [] [] (servfail_code query.recursion_desired)
        (omega arith) q (unfold read_answers in refl))
