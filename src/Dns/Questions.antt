-- ===== src/Dns/Questions.antt =====
-- Questions of crates/federate-dns/src/wire.rs: the parser always ends, what it accepts, and that it
-- reads what `build_query` writes.
use Prim.Native.Nat.{bit_and}
use federate.Base.{
  ℕ, zero, suc, ◌%◌, ◌≤◌, ◌<◌, Text, Bytes, String, Bool, true, false, List, [], ◌∷◌, ◌++◌, length,
  take, drop, subst, leb, ◌==◌, ◌&&◌, ◌≡◌, ◌≢◌, refl, sym, ap, ◌∙◌, arith, length-append,
  append_assoc, append-nil, leb→le, take-append, All, split, join-split, trim_end_matches, as_bytes,
  IsAscii, as_bytes-IsAscii, from_utf8_lossy-IsAscii, Bool-cases, ==_iff, inl, inr,
}
use federate.Naming.{is_dot}
use federate.Dns.{IpAddr}
use federate.Dns.Wire.{
  DnsQuery, parsed, out_of_fuel, ◌>>=◌, require, with_type, query_of, read_question, get_range,
  read_name, read_label, skip, parse, u16_at, to_be_u16, skip_questions, from_u16, build_query,
  encode_label, encode_labels, read_answers, parse_answers, question_up_to,
}
use federate.Dns.Names.{
  >>=-eq-parsed, >>=-ne-out_of_fuel, read_name-IsName, get_range-IsFront, get_range-append,
  get_range-ne-out_of_fuel, read_name-ne-out_of_fuel, skip_name-ne-out_of_fuel,
}
use federate.Dns.Answers.{IsQuestion}

require-ne-out_of_fuel : (b : Bool) (e : String) → require b e ≢ out_of_fuel
require-ne-out_of_fuel true e = λ p. cc
require-ne-out_of_fuel false e = λ p. cc

parsed-ne-out_of_fuel {ℓ} : {A : Type ℓ} (x : A) → parsed x ≢ out_of_fuel
parsed-ne-out_of_fuel x = λ p. cc

-- The parser of questions ends on every packet.
with_type-ne-out_of_fuel :
    (packet : Bytes) (p : List Text × Bytes) → with_type packet p ≢ out_of_fuel
unfolding with_type
with_type-ne-out_of_fuel packet (labels, behind) =
    >>=-ne-out_of_fuel (get_range 4 behind "truncated qtype/qclass") _
      (get_range-ne-out_of_fuel 4 behind "truncated qtype/qclass")
      (λ r _. parsed-ne-out_of_fuel (query_of packet labels r))

parse-ne-out_of_fuel : (packet : Bytes) → parse packet ≢ out_of_fuel
unfolding parse
parse-ne-out_of_fuel packet e =
    >>=-ne-out_of_fuel (read_question (drop 12 packet)) (with_type packet)
      (read_name-ne-out_of_fuel (suc (length (drop 12 packet))) (drop 12 packet) [] (omega arith))
      (λ p _. with_type-ne-out_of_fuel packet p) (ground arith)

skip-ne-out_of_fuel : (rest : Bytes) → skip rest ≢ out_of_fuel
skip-ne-out_of_fuel rest = skip_name-ne-out_of_fuel (suc (length rest)) rest (omega arith)

skip_questions-ne-out_of_fuel : (n : ℕ) (rest : Bytes) → skip_questions n rest ≢ out_of_fuel
unfolding skip_questions
skip_questions-ne-out_of_fuel zero rest = λ e. cc
skip_questions-ne-out_of_fuel (suc n) rest =
    >>=-ne-out_of_fuel (skip rest) _ (skip-ne-out_of_fuel rest)
      (λ behind _. skip_questions-ne-out_of_fuel n (drop 4 behind))

read_answers-ne-out_of_fuel :
    (n : ℕ) (rest : Bytes) (found : List (IpAddr × ℕ)) → read_answers n rest found ≢ out_of_fuel
unfolding read_answers
read_answers-ne-out_of_fuel zero rest found = λ e. cc
read_answers-ne-out_of_fuel (suc n) rest found =
    >>=-ne-out_of_fuel (skip rest) _ (skip-ne-out_of_fuel rest) (λ behind _.
      >>=-ne-out_of_fuel (get_range 10 behind _) _ (get_range-ne-out_of_fuel 10 behind _) (λ p _.
        >>=-ne-out_of_fuel (get_range (u16_at p.0 8) p.1 _) _ (get_range-ne-out_of_fuel _ p.1 _)
          (λ r _. read_answers-ne-out_of_fuel n r.1 _)))

parse_answers-ne-out_of_fuel : (packet : Bytes) → parse_answers packet ≢ out_of_fuel
unfolding parse_answers
parse_answers-ne-out_of_fuel packet =
    >>=-ne-out_of_fuel (require _ _) _ (require-ne-out_of_fuel _ _) (λ u _.
      >>=-ne-out_of_fuel (skip_questions (u16_at packet 4) (drop 12 packet)) _
        (skip_questions-ne-out_of_fuel (u16_at packet 4) (drop 12 packet))
        (λ rest _.
          >>=-ne-out_of_fuel (read_answers (u16_at packet 6) rest []) _
            (read_answers-ne-out_of_fuel (u16_at packet 6) rest [])
            (λ f _. parsed-ne-out_of_fuel (bit_and (u16_at packet 2) 0x000F, f))))

-- On every packet, well formed or not, both parsers come to an end: a value or an error, never for
-- want of rounds.
pub parsers_end :
    (packet : Bytes) → (parse packet ≢ out_of_fuel) × (parse_answers packet ≢ out_of_fuel)
parsers_end packet = (parse-ne-out_of_fuel packet, parse_answers-ne-out_of_fuel packet)

-- The range from the start of the question section to the end of the type and class.
question_up_to-front :
    (question front rest : Bytes) → question ≡ front ++ rest → question_up_to question rest ≡ front
question_up_to-front question front rest e = rw e (
    subst (λ n. take n (front ++ rest) ≡ front) (omega (arith, length-append front rest))
      (take-append front rest))

-- What a packet that parses holds.
pub record IsQuery (packet : Bytes) (query : DnsQuery) : Type 0 where
  pub long : 12 ≤ length packet
  pub first : query.id ≡ u16_at packet 0
  pub section : IsQuestion query.question_bytes

parse-eq-parsed :
    (packet : Bytes) (query : DnsQuery)
    → parse packet ≡ parsed query
    → (leb 12 (length packet) ≡ true)
      × ((read_question (drop 12 packet) >>= with_type packet) ≡ parsed query)
unfolding parse
parse-eq-parsed packet query h = ground arith

pub parse-IsQuery :
    (packet : Bytes) (query : DnsQuery) → parse packet ≡ parsed query → IsQuery packet query
unfolding with_type query_of
parse-IsQuery packet query h =
    let (long, h1) = parse-eq-parsed packet query h in
    let ((labels, behind), named, h2) =
      >>=-eq-parsed (read_question (drop 12 packet)) (with_type packet) h1 in
    let ((fixed, rest), four, h3) =
      >>=-eq-parsed (get_range 4 behind "truncated qtype/qclass")
        (λ p. parsed (query_of packet labels p)) h2 in
    let (name, e, is_name) = read_name-IsName _ (drop 12 packet) [] labels behind named in
    let (front, size) = get_range-IsFront 4 behind _ fixed rest four in
    let section_of : query.question_bytes ≡ question_up_to (drop 12 packet) rest = cc in
    let whole : query.question_bytes ≡ name ++ fixed =
      section_of
      ∙ question_up_to-front (drop 12 packet) (name ++ fixed) rest
          (e ∙ ap (λ t. name ++ t) front ∙ sym (append_assoc name fixed rest)) in
    record {
      long = leb→le 12 (length packet) long;
      first = cc;
      section = record {
        name = name;
        type_class = fixed;
        named = is_name;
        four = size;
        whole = whole;
      };
    }

-- No length byte up to `last` has one of the two top bits, which mark a pointer.
plain_upto : (last : ℕ) → Bool
plain_upto zero = bit_and 0 0xC0 == 0
plain_upto (suc last) = (bit_and (suc last) 0xC0 == 0) && plain_upto last

plain_upto_lem : (last x : ℕ) → plain_upto last ≡ true → x ≤ last → (bit_and x 0xC0 == 0) ≡ true
unfolding plain_upto
plain_upto_lem zero x e within = let z : x ≡ 0 = omega arith in rw z e
plain_upto_lem (suc last) x e within = elim (Bool-cases (x == suc last)) [
  | inl top ↦ rw ((==_iff x (suc last)).0 top) (ground arith)
  | inr other ↦ plain_upto_lem last x (ground arith) (ground arith)
]

plain_63 : plain_upto 63 ≡ true
unfolding plain_upto
plain_63 = refl

-- A label that `build_query` writes as it stands.
abbrev pub IsLabel : Text → Type 0
IsLabel label = IsAscii label × (0 < length label) × (length label < 64)

below_64 : (n : ℕ) → n < 64 → (bit_and n 0xC0 == 0) ≡ true
below_64 n h = plain_upto_lem 63 n plain_63 (omega arith)

read_label-IsLabel :
    (s : Text) (more : Bytes)
    → IsLabel s
    → read_label (length (as_bytes s) % 256) (as_bytes s ++ more) ≡ parsed (s, more)
unfolding read_label
read_label-IsLabel s more (ascii, positive, short) =
    let e : length s % 256 ≡ length s = omega arith in
    rw (as_bytes-IsAscii s ascii, e, below_64 (length s) short)
      (get_range-append (length s) s more "truncated label" refl)

read_name-encode_labels :
    (labels before : List Text) (fuel : ℕ) (more : Bytes)
    → All IsLabel labels
    → length labels < fuel
    → read_name fuel (encode_labels labels ++ 0 ∷ more) before ≡ parsed (before ++ labels, more)
unfolding read_name encode_labels encode_label
read_name-encode_labels labels before zero more all h = absurd (omega arith)
read_name-encode_labels [] before (suc fuel) more all h =
    ap (λ t. parsed (t, more)) (sym (append-nil before))
read_name-encode_labels (s ∷ labels) before (suc fuel) more ((ascii, positive, short), all) h =
    let positive' : (length (as_bytes s) % 256 == 0) ≡ false =
      rw (as_bytes-IsAscii s ascii) (ground arith) in
    rw
      (
        positive',
        append_assoc (as_bytes s) (encode_labels labels) (0 ∷ more),
        read_label-IsLabel s (encode_labels labels ++ 0 ∷ more) (ascii, positive, short),
        from_utf8_lossy-IsAscii s ascii,
      )
      (read_name-encode_labels labels (before ++ s ∷ []) fuel more all (omega arith)
        ∙ ap (λ t. parsed (t, more)) (append_assoc before (s ∷ []) labels))

length-encode_labels : (labels : List Text) → length labels ≤ length (encode_labels labels)
unfolding encode_labels encode_label
length-encode_labels [] = omega arith
length-encode_labels (s ∷ labels) =
    omega (arith, length-encode_labels labels, length-append (as_bytes s) (encode_labels labels))

abbrev pub question_of : Text → ℕ → Bytes
question_of name qtype = encode_labels (split b'.' name) ++ (0 ∷ to_be_u16 qtype ++ to_be_u16 1)

-- The parser reads what `build_query` writes, for a name whose labels are ASCII and have 1 to 63
-- characters; dots at the end of the name are dropped.
pub parse-build_query :
    (id : ℕ) (name : Text) (qtype : ℕ)
    → id < 65536
    → qtype < 65536
    → All IsLabel (split b'.' (trim_end_matches is_dot name))
    → parse (build_query id name qtype)
      ≡ parsed (record {
        id = id;
        name = trim_end_matches is_dot name;
        qtype = from_u16 qtype;
        question_bytes = question_of (trim_end_matches is_dot name) qtype;
        recursion_desired = true;
      })
unfolding parse build_query with_type query_of to_be_u16
parse-build_query id name qtype hi ht all =
    let labels = split b'.' (trim_end_matches is_dot name) in
    let four = to_be_u16 qtype ++ to_be_u16 1 in
    let question = question_of (trim_end_matches is_dot name) qtype in
    let read : read_question question ≡ parsed (labels, four) =
      read_name-encode_labels labels [] (suc (length question)) four all (
        omega
          (arith, length-encode_labels labels, length-append (encode_labels labels) (0 ∷ four))) in
    let whole : question_up_to question [] ≡ question =
      question_up_to-front question question [] (sym (append-nil question)) in
    ground (arith, read, whole, join-split b'.' (trim_end_matches is_dot name))
