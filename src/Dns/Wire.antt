-- ===== src/Dns/Wire.antt =====
-- crates/federate-dns/src/wire.rs: DNS questions and answers. The position in a packet is what of the
-- packet is left behind it.
use Prim.Native.Nat.{bit_and, bit_or}
use federate.Base.{
  ℕ, zero, suc, ◌+◌, ◌-◌, ◌*◌, ◌/◌, ◌%◌, Text, Bytes, String, Bool, true, false, not, List, [], ◌∷◌,
  ◌++◌, length, take, drop, leb, ◌==◌, ◌&&◌, if◌then◌else◌, trim_end_matches, as_bytes,
  from_utf8_lossy, split, join,
}
use federate.Naming.{is_dot}
use federate.Protocol.{to_be_bytes, from_be_bytes}
use federate.Dns.{IpAddr, v4, v6}

pub data QueryType : Type 0 where
  a aaaa : QueryType
  other : ℕ → QueryType

unfoldable pub from_u16 : ℕ → QueryType
from_u16 v = if v == 1 then QueryType.a else if v == 28 then QueryType.aaaa else QueryType.other v

pub record DnsQuery : Type 0 where
  pub id : ℕ
  pub name : Text
  pub qtype : QueryType
  pub question_bytes : Bytes
  pub recursion_desired : Bool

-- `Result<_, ParseError>`. `out_of_fuel` is no value of the source: a loop ran out of fuel.
pub data Parsed {ℓ} (A : Type ℓ) : Type ℓ where
  parsed : A → Parsed A
  parse_error : String → Parsed A
  out_of_fuel : Parsed A

infixl 5 ◌>>=◌
abbrev pub ◌>>=◌ {ℓ κ} : {A : Type ℓ} {B : Type κ} → Parsed A → (A → Parsed B) → Parsed B
parsed x >>= rest = rest x
parse_error e >>= rest = parse_error e
out_of_fuel >>= rest = out_of_fuel

infixl 5 ◌>>◌
abbrev pub ◌>>◌ {ℓ} : {B : Type ℓ} → Parsed (Unit {0}) → Parsed B → Parsed B
step >> rest = step >>= (λ u. rest)

abbrev pub require : Bool → String → Parsed (Unit {0})
require true e = parsed tt
require false e = parse_error e

-- `packet[i]`, where the length was tested.
abbrev pub byte : Bytes → ℕ → ℕ
byte [] i = 0
byte (b ∷ bytes) zero = b
byte (b ∷ bytes) (suc i) = byte bytes i

abbrev pub be_u16 : (hi lo : ℕ) → ℕ
be_u16 hi lo = hi * 256 + lo

abbrev pub u16_at : Bytes → ℕ → ℕ
u16_at bytes i = be_u16 (byte bytes i) (byte bytes (suc i))

-- `packet.get(pos..pos + n)`, with the packet behind it.
unfoldable pub get_range : ℕ → Bytes → String → Parsed (Bytes × Bytes)
get_range n rest e =
    if leb n (length rest) then parsed (take n rest, drop n rest) else parse_error e

-- A label, behind its length.
unfoldable pub read_label : ℕ → Bytes → Parsed (Bytes × Bytes)
unfolding get_range
read_label len rest =
    if bit_and len 0xC0 == 0
    then get_range len rest "truncated label"
    else parse_error "compressed question name"

-- The loop over the labels of a question.
unfoldable pub read_name : ℕ → Bytes → List Text → Parsed (List Text × Bytes)
unfolding read_label
read_name zero rest labels = out_of_fuel
read_name (suc fuel) [] labels = parse_error "truncated name"
read_name (suc fuel) (len ∷ rest) labels =
    if len == 0
    then parsed (labels, rest)
    else read_label len rest >>= (λ p. read_name fuel p.1 (labels ++ from_utf8_lossy p.0 ∷ []))

-- `packet[12..pos + 4]`, from the question section and what is left behind the position.
abbrev pub question_up_to : (question rest : Bytes) → Bytes
question_up_to question rest = take (length question - length rest) question

-- The query of a packet, from its labels, the type and class, and what is left behind them.
unfoldable pub query_of : Bytes → List Text → Bytes × Bytes → DnsQuery
query_of packet labels (fixed, rest) = record {
  id = u16_at packet 0;
  name = join b'.' labels;
  qtype = from_u16 (u16_at fixed 0);
  question_bytes = question_up_to (drop 12 packet) rest;
  recursion_desired = not (bit_and (u16_at packet 2) 0x0100 == 0);
}

unfoldable pub with_type : Bytes → List Text × Bytes → Parsed DnsQuery
unfolding get_range query_of
with_type packet (labels, behind) =
    get_range 4 behind "truncated qtype/qclass" >>= (λ p. parsed (query_of packet labels p))

-- Each round takes a byte at least, so one round more than there are bytes is enough.
abbrev pub read_question : Bytes → Parsed (List Text × Bytes)
read_question question = read_name (suc (length question)) question []

unfoldable pub parse : Bytes → Parsed DnsQuery
unfolding read_name with_type
parse packet = do
  require (leb 12 (length packet)) "packet too short"
  require (bit_and (u16_at packet 2) 0x8000 == 0) "not a query"
  require (not (u16_at packet 4 == 0)) "no question"
  named ← read_question (drop 12 packet)
  with_type packet named

unfoldable pub to_be_u16 : ℕ → Bytes
to_be_u16 n = n / 256 % 256 ∷ n % 256 ∷ []

-- The flags of a response: QR, AA, RD as in the query, RA, and the code.
unfoldable pub response_flags : Bool → ℕ → ℕ
response_flags recursion_desired rcode =
    let flags = bit_or 0x8000 0x0400 in
    let flags' = if recursion_desired then bit_or flags 0x0100 else flags in
    bit_or (bit_or flags' 0x0080) (bit_and rcode 0x000F)

unfoldable pub header : DnsQuery → (rcode ancount : ℕ) → Bytes
unfolding to_be_u16 response_flags
header query rcode ancount =
    to_be_u16 query.id
    ++ (to_be_u16 (response_flags query.recursion_desired rcode)
        ++ (to_be_u16 1 ++ (to_be_u16 ancount ++ (to_be_u16 0 ++ to_be_u16 0))))

-- One resource record, with the pointer to the name at offset 12.
unfoldable pub answer : ℕ → IpAddr → Bytes
unfolding to_be_u16
answer ttl (v4 octets) =
    0xC0 ∷ 0x0C ∷ to_be_u16 1 ++ (to_be_u16 1 ++ (to_be_bytes ttl ++ (to_be_u16 4 ++ octets)))
answer ttl (v6 octets) =
    0xC0 ∷ 0x0C ∷ to_be_u16 28 ++ (to_be_u16 1 ++ (to_be_bytes ttl ++ (to_be_u16 16 ++ octets)))

unfoldable pub answers : ℕ → List IpAddr → Bytes
answers ttl [] = []
answers ttl (ip ∷ ips) = answer ttl ip ++ answers ttl ips

-- `ips.len() as u16` wraps.
unfoldable pub build_response : DnsQuery → List IpAddr → ℕ → Bytes
unfolding header answers answer
build_response query ips ttl =
    header query 0 (length ips % 65536) ++ (query.question_bytes ++ answers ttl ips)

unfoldable pub build_servfail : DnsQuery → Bytes
unfolding header
build_servfail query = header query 2 0 ++ query.question_bytes

-- One label, whose length is `as u8`.
unfoldable pub encode_label : Text → Bytes
encode_label label = length (as_bytes label) % 256 ∷ as_bytes label

unfoldable pub encode_labels : List Text → Bytes
encode_labels [] = []
encode_labels (label ∷ labels) = encode_label label ++ encode_labels labels

unfoldable pub build_query : (id : ℕ) → Text → (qtype : ℕ) → Bytes
unfolding to_be_u16 encode_label encode_labels
build_query id name qtype =
    to_be_u16 id
    ++ (to_be_u16 0x0100
        ++ (to_be_u16 1
            ++ (0 ∷ 0 ∷ 0 ∷ 0 ∷ 0 ∷ 0 ∷ encode_labels (split b'.' (trim_end_matches is_dot name))
                ++ (0 ∷ to_be_u16 qtype ++ to_be_u16 1))))

-- `skip_name`.
unfoldable pub skip_name : ℕ → Bytes → Parsed Bytes
skip_name zero rest = out_of_fuel
skip_name (suc fuel) [] = parse_error "truncated"
skip_name (suc fuel) (len ∷ rest) =
    let next = skip_name fuel (drop len rest) in
    if bit_and len 0xC0 == 0xC0
    then parsed (drop 1 rest)
    else if len == 0
    then parsed rest
    else next

abbrev pub skip : Bytes → Parsed Bytes
skip rest = skip_name (suc (length rest)) rest

unfoldable pub skip_questions : ℕ → Bytes → Parsed Bytes
unfolding skip_name
skip_questions zero rest = parsed rest
skip_questions (suc n) rest = skip rest >>= (λ behind. skip_questions n (drop 4 behind))

-- Only addresses of the right length are kept.
unfoldable pub keep_answer : (rtype rdlen ttl : ℕ) → Bytes → List (IpAddr × ℕ) → List (IpAddr × ℕ)
keep_answer rtype rdlen ttl rdata found =
    if rtype == 1 && rdlen == 4
    then found ++ (v4 rdata, ttl) ∷ []
    else if rtype == 28 && rdlen == 16
    then found ++ (v6 rdata, ttl) ∷ []
    else found

unfoldable pub read_answers : ℕ → Bytes → List (IpAddr × ℕ) → Parsed (List (IpAddr × ℕ))
unfolding skip_name get_range keep_answer
read_answers zero rest found = parsed found
read_answers (suc n) rest found = do
  behind ← skip rest
  (fixed, rest1) ← get_range 10 behind "truncated answer"
  let ttl = from_be_bytes (byte fixed 4) (byte fixed 5) (byte fixed 6) (byte fixed 7)
  let rdlen = u16_at fixed 8
  (rdata, rest2) ← get_range rdlen rest1 "truncated rdata"
  read_answers n rest2 (keep_answer (u16_at fixed 0) rdlen ttl rdata found)

unfoldable pub parse_answers : Bytes → Parsed (ℕ × List (IpAddr × ℕ))
unfolding skip_questions read_answers
parse_answers packet = do
  require (leb 12 (length packet)) "short response"
  let rcode = bit_and (u16_at packet 2) 0x000F
  rest ← skip_questions (u16_at packet 4) (drop 12 packet)
  found ← read_answers (u16_at packet 6) rest []
  parsed (rcode, found)
