-- ===== src/Dns/Federated.antt =====
-- The answers of the name server of crates/federate-dns/src/lib.rs to names of the verified zone.
use federate.Base.{
  is_empty, ℕ, ◌+◌, ◌*◌, ◌==◌, ==_iff, ◌≢◌, false≢true, sym, zero, suc, ◌≤◌, ◌<◌, Text, Bytes, Bool,
  true, false, Option, none, some, List, [], ◌∷◌, length, take, ◌&&◌, ◌≡◌, refl, ap, ◌∙◌, arith,
  subst, All, Bool-cases, ◌⊎◌, inl, inr, if◌then◌else◌,
}
use federate.Core.{Result, ok, err}
use federate.Naming.{is_resolvable_tld}
use federate.Root.{RootZone, TldRecord, lookup_tld}
use federate.Host.{Host}
use federate.Signing.Tlds
use federate.Signing.Zones
use federate.Resolution.{Resolver, Net, Io}
use federate.Resolution.Roots.{root}
use federate.Resolution.Fresh.{IsHeld, ReadsZones}
use federate.Resolution.Refreshed.{root-IsPinned}
use federate.Dns.{IpAddr, v4, v6, IsIp, is_ipv4}
use federate.Dns.Wire.{QueryType, DnsQuery, parsed, parse, parse_answers, be_u16}
use federate.Dns.Answers.{
  IsQuestion, with_ttl, parse_answers-build_response, parse_answers-build_servfail,
}
use federate.Dns.Questions.{parse-IsQuery}
use federate.Dns.Replies.{handle_packet-eq}
use federate.Dns.Server.{
  DnsServer, is_federate_name, in_zone, is_usable, tld_of, answer_federate, candidates, by_type,
  of_family, is_a, no_answers, max_answers, forward_upstream, first_reply, or_servfail,
  handle_packet, reply_to,
}

-- The addresses of the family that the type of a question stands for.
abbrev v4s : List IpAddr → List IpAddr
v4s [] = []
v4s (v4 octets ∷ ips) = v4 octets ∷ v4s ips
v4s (v6 octets ∷ ips) = v4s ips

abbrev v6s : List IpAddr → List IpAddr
v6s [] = []
v6s (v4 octets ∷ ips) = v6s ips
v6s (v6 octets ∷ ips) = v6 octets ∷ v6s ips

abbrev wanted : QueryType → List IpAddr → List IpAddr
wanted QueryType.a ips = v4s ips
wanted QueryType.aaaa ips = v6s ips
wanted (QueryType.other v) ips = []

-- Fixed answers stand in place of the gateways.
abbrev offered : (fixed gateways : List IpAddr) → List IpAddr
offered [] gateways = gateways
offered (ip ∷ ips) gateways = ip ∷ ips

abbrev code_for : QueryType → List (IpAddr × ℕ) → ℕ × List (IpAddr × ℕ)
code_for QueryType.a [] = (2, [])
code_for qtype read = (0, read)

-- What a stub resolver is to read: the first eight addresses of the family that it asked for, or the
-- code 2 if it asked for an A record and there are none.
abbrev pub expected : DnsServer → QueryType → ℕ × List (IpAddr × ℕ)
expected d qtype =
    code_for qtype (with_ttl d.ttl (take 8 (wanted qtype (offered d.fixed_answers d.gateways))))

of_family-v4s : (ips : List IpAddr) → of_family true ips ≡ v4s ips
unfolding of_family is_ipv4
of_family-v4s [] = refl
of_family-v4s (v4 octets ∷ ips) = ap (λ l. v4 octets ∷ l) (of_family-v4s ips)
of_family-v4s (v6 octets ∷ ips) = of_family-v4s ips

of_family-v6s : (ips : List IpAddr) → of_family false ips ≡ v6s ips
unfolding of_family is_ipv4
of_family-v6s [] = refl
of_family-v6s (v4 octets ∷ ips) = of_family-v6s ips
of_family-v6s (v6 octets ∷ ips) = ap (λ l. v6 octets ∷ l) (of_family-v6s ips)

by_type-wanted : (qtype : QueryType) (ips : List IpAddr) → by_type qtype ips ≡ wanted qtype ips
by_type-wanted QueryType.a ips = of_family-v4s ips
by_type-wanted QueryType.aaaa ips = of_family-v6s ips
by_type-wanted (QueryType.other v) ips = refl

offered-eq :
    (fixed gateways : List IpAddr)
    → (if no_answers fixed then gateways else fixed) ≡ offered fixed gateways
offered-eq [] gateways = refl
offered-eq (ip ∷ ips) gateways = refl

candidates-offered : (d : DnsServer) → candidates d ≡ offered d.fixed_answers d.gateways
unfolding candidates
candidates-offered d = offered-eq d.fixed_answers d.gateways

code_for-eq :
    (qtype : QueryType) (ttl : ℕ) (ips : List IpAddr)
    → (if no_answers ips && is_a qtype then (2, []) else (0, with_ttl ttl ips))
      ≡ code_for qtype (with_ttl ttl ips)
code_for-eq QueryType.a ttl [] = refl
code_for-eq QueryType.a ttl (ip ∷ ips) = refl
code_for-eq QueryType.aaaa ttl [] = refl
code_for-eq QueryType.aaaa ttl (ip ∷ ips) = refl
code_for-eq (QueryType.other v) ttl [] = refl
code_for-eq (QueryType.other v) ttl (ip ∷ ips) = refl

expected-eq :
    (d : DnsServer) (qtype : QueryType)
    → (let ips = take max_answers (by_type qtype (candidates d)) in
        if no_answers ips && is_a qtype then (2, []) else (0, with_ttl d.ttl ips))
      ≡ expected d qtype
expected-eq d qtype =
    code_for-eq qtype d.ttl (take max_answers (by_type qtype (candidates d)))
    ∙ ap (λ l. code_for qtype (with_ttl d.ttl (take 8 l)))
        (by_type-wanted qtype (candidates d) ∙ ap (wanted qtype) (candidates-offered d))

-- The first datagram whose first two bytes are the transaction id, before an error of the socket and
-- before the deadline, at which the list ends.
abbrev IsFirstReply : ℕ → List (Option Bytes) → Option Bytes → Type 0
IsFirstReply id [] o = o ≡ none
IsFirstReply id (none ∷ rest) o = o ≡ none
IsFirstReply id (some [] ∷ rest) o = IsFirstReply id rest o
IsFirstReply id (some (a ∷ []) ∷ rest) o = IsFirstReply id rest o
IsFirstReply id (some (a ∷ b ∷ body) ∷ rest) o =
    ((a * 256 + b ≡ id) × (o ≡ some (a ∷ b ∷ body))) ⊎ ((a * 256 + b ≢ id) × IsFirstReply id rest o)

-- The socket may not come up.
abbrev IsForwarded : ℕ → Option (List (Option Bytes)) → Option Bytes → Type 0
IsForwarded id none o = o ≡ none
IsForwarded id (some received) o = IsFirstReply id received o

-- The datagram as it is, or a reply that is read as the code 2.
abbrev IsRelayed : Option Bytes → Bytes → Type 0
IsRelayed none reply = parse_answers reply ≡ parsed (2, [])
IsRelayed (some datagram) reply = reply ≡ datagram

abbrev pub FromUpstream : ℕ → Option (List (Option Bytes)) → Bytes → Type 0
FromUpstream id received reply = (o : Option Bytes) × IsForwarded id received o × IsRelayed o reply

first_reply-here :
    (id a b : ℕ) (body : Bytes) (rest : List (Option Bytes))
    → (be_u16 a b == id) ≡ true
    → first_reply id (some (a ∷ b ∷ body) ∷ rest) ≡ some (a ∷ b ∷ body)
unfolding first_reply
first_reply-here id a b body rest e = ground arith

first_reply-later :
    (id a b : ℕ) (body : Bytes) (rest : List (Option Bytes))
    → (be_u16 a b == id) ≡ false
    → first_reply id (some (a ∷ b ∷ body) ∷ rest) ≡ first_reply id rest
unfolding first_reply
first_reply-later id a b body rest e = ground arith

first_reply-IsFirstReply :
    (id : ℕ) (received : List (Option Bytes)) → IsFirstReply id received (first_reply id received)
unfolding first_reply
first_reply-IsFirstReply id [] = refl
first_reply-IsFirstReply id (none ∷ rest) = refl
first_reply-IsFirstReply id (some [] ∷ rest) = first_reply-IsFirstReply id rest
first_reply-IsFirstReply id (some (a ∷ []) ∷ rest) = first_reply-IsFirstReply id rest
first_reply-IsFirstReply id (some (a ∷ b ∷ body) ∷ rest) = elim (Bool-cases (be_u16 a b == id)) [
  | inl e ↦ inl ((==_iff (be_u16 a b) id).0 e, first_reply-here id a b body rest e)
  | inr e ↦ inr (
    (λ z. false≢true (sym e ∙ (==_iff (be_u16 a b) id).1 z)),
    subst (IsFirstReply id rest) (sym (first_reply-later id a b body rest e))
        (first_reply-IsFirstReply id rest),
  )
]

forward_upstream-IsForwarded :
    (id : ℕ) (received : Option (List (Option Bytes)))
    → IsForwarded id received (forward_upstream received id)
unfolding forward_upstream
forward_upstream-IsForwarded id none = refl
forward_upstream-IsForwarded id (some received) = first_reply-IsFirstReply id received

or_servfail-IsRelayed :
    (o : Option Bytes) (query : DnsQuery)
    → IsQuestion query.question_bytes
    → IsRelayed o (or_servfail o query)
or_servfail-IsRelayed none query q = parse_answers-build_servfail query q
or_servfail-IsRelayed (some datagram) query q = refl

of_family-IsIp : (ipv4 : Bool) (ips : List IpAddr) → All IsIp ips → All IsIp (of_family ipv4 ips)
unfolding of_family is_ipv4
of_family-IsIp ipv4 [] all = tt
of_family-IsIp true (v4 octets ∷ ips) (one, all) = (one, of_family-IsIp true ips all)
of_family-IsIp false (v4 octets ∷ ips) (one, all) = of_family-IsIp false ips all
of_family-IsIp true (v6 octets ∷ ips) (one, all) = of_family-IsIp true ips all
of_family-IsIp false (v6 octets ∷ ips) (one, all) = (one, of_family-IsIp false ips all)

pub take-IsIp : (n : ℕ) (ips : List IpAddr) → All IsIp ips → All IsIp (take n ips)
take-IsIp zero ips all = tt
take-IsIp (suc n) [] all = tt
take-IsIp (suc n) (ip ∷ ips) (one, all) = (one, take-IsIp n ips all)

pub by_type-IsIp :
    (qtype : QueryType) (ips : List IpAddr) → All IsIp ips → All IsIp (by_type qtype ips)
by_type-IsIp QueryType.a ips all = of_family-IsIp true ips all
by_type-IsIp QueryType.aaaa ips all = of_family-IsIp false ips all
by_type-IsIp (QueryType.other v) ips all = tt

pub length-take : (n : ℕ) (ips : List IpAddr) → length (take n ips) ≤ n
length-take zero ips = omega arith
length-take (suc n) [] = omega arith
length-take (suc n) (ip ∷ ips) = omega (arith, length-take n ips)

-- The addresses of a server are addresses, and its TTL fits its field.
pub record IsConfigured (d : DnsServer) : Type 0 where
  pub gateways : All IsIp d.gateways
  pub fixed_answers : All IsIp d.fixed_answers
  pub ttl : d.ttl < 4294967296

pub candidates-IsIp : {d : DnsServer} → IsConfigured d → All IsIp (candidates d)
unfolding candidates
candidates-IsIp {d} c = elim (Bool-cases (no_answers d.fixed_answers)) [
  | inl e ↦ rw e c.gateways
  | inr e ↦ rw e c.fixed_answers
]

answer_federate-read :
    (d : DnsServer) (query : DnsQuery)
    → IsConfigured d
    → IsQuestion query.question_bytes
    → parse_answers (answer_federate d query)
      ≡ parsed (
          let ips = take max_answers (by_type query.qtype (candidates d)) in
          if no_answers ips && is_a query.qtype then (2, []) else (0, with_ttl d.ttl ips))
unfolding answer_federate
answer_federate-read d query c q =
    let ips = take max_answers (by_type query.qtype (candidates d)) in
    let few : length ips < 65536 =
      omega (arith, length-take 8 (by_type query.qtype (candidates d))) in
    elim (Bool-cases (no_answers ips && is_a query.qtype)) [
      | inl e ↦ rw e (parse_answers-build_servfail query q)
      | inr e ↦ rw e (
          parse_answers-build_response query ips d.ttl q
            (take-IsIp max_answers _ (by_type-IsIp query.qtype _ (candidates-IsIp c))) few c.ttl)
    ]

parse_answers-answer_federate :
    (d : DnsServer) (query : DnsQuery)
    → IsConfigured d
    → IsQuestion query.question_bytes
    → parse_answers (answer_federate d query) ≡ parsed (expected d query.qtype)
parse_answers-answer_federate d query c q =
    answer_federate-read d query c q ∙ ap parsed (expected-eq d query.qtype)

module _ (h : Host) where
  -- The verified zone says that the TLD of a name can be used.
  pub record IsFederate (k : Text) (name : Text) : Type 0 where
    pub zone : RootZone
    pub rec : TldRecord
    pub verified : Zones.verify h zone k ≡ ok tt
    pub listed : lookup_tld (tld_of name) zone ≡ some rec
    pub resolvable : is_resolvable_tld rec.status ≡ true
    pub current : Tlds.is_expired h rec ≡ false

  usable-IsFederate :
      (k name : Text) (zone : RootZone) (o : Option TldRecord)
      → Zones.verify h zone k ≡ ok tt
      → lookup_tld (tld_of name) zone ≡ o
      → is_usable h o ≡ true
      → IsFederate k name
  usable-IsFederate k name zone none v e u = cc
  usable-IsFederate k name zone (some rec) v e u = record {
    zone = zone;
    rec = rec;
    verified = v;
    listed = e;
    resolvable = ground arith;
    current = ground arith;
  }

module _ (h : Host) (net : Net) (io : Io) where
  -- The zone that the resolver gives lists the TLD of a name as one that can be used.
  pub record IsServing (name : Text) (s : Resolver) : Type 0 where
    pub zone : RootZone
    pub next : Resolver
    pub rec : TldRecord
    pub given : root h net io s ≡ (ok zone, next)
    pub named : is_empty (tld_of name) ≡ false
    pub listed : lookup_tld (tld_of name) zone ≡ some rec
    pub resolvable : is_resolvable_tld rec.status ≡ true
    pub current : Tlds.is_expired h rec ≡ false

  IsServing-is_federate_name :
      (name : Text) (s : Resolver) → IsServing name s → (is_federate_name h net io name s).0 ≡ true
  unfolding is_federate_name
  IsServing-is_federate_name name s w =
      rw (w.named, w.given, w.listed, w.resolvable, w.current) refl

module _ (h : Host) (net : Net) (io : Io) (upstream : Bytes → Option (List (Option Bytes))) where
  module _ (k : Text) (reads : ReadsZones h) where
    in_zone-IsFederate :
        (name : Text) (s : Resolver) (p : Result RootZone × Resolver)
        → s.trusted_root_key ≡ some k
        → IsHeld h k s
        → root h net io s ≡ p
        → (in_zone h (tld_of name) p).0 ≡ true
        → IsFederate h k name
    in_zone-IsFederate name s (err e, s') pinned held there u = cc
    in_zone-IsFederate name s (ok zone, s') pinned held there u =
        usable-IsFederate h k name zone (lookup_tld (tld_of name) zone)
          (root-IsPinned h net io k s s' zone reads pinned held there).0 refl u

    is_federate_name-IsFederate :
        (name : Text) (s : Resolver)
        → s.trusted_root_key ≡ some k
        → IsHeld h k s
        → (is_federate_name h net io name s).0 ≡ true
        → IsFederate h k name
    unfolding is_federate_name
    is_federate_name-IsFederate name s pinned held u =
        in_zone-IsFederate name s (root h net io s) pinned held refl (ground arith)

    -- Where the zone reader reads what its writer wrote, the resolver has a pinned root key and no zone in
    -- memory but the one of its cache file, which verifies under that key, and the server has addresses
    -- of four or sixteen bytes and a TTL of 32 bits, a question gets a reply. For a name whose TLD is in
    -- a zone that verifies under the pinned key, can be resolved and is not expired, the reply may be the
    -- server's own, and it is if the resolver gives a zone that lists the TLD so: a stub resolver reads
    -- from it the first eight addresses of the family asked for, of the fixed answers or else of the
    -- gateways, each with the TTL, or the code 2 if it asked for an A record and there are none. Any
    -- other reply is the first datagram of the upstream resolver that starts with the transaction id, as
    -- it is, or is read as the code 2 if the socket fails or the deadline passes before there is one.
    pub handle_packet-IsAnswer :
        (packet : Bytes) (query : DnsQuery) (d : DnsServer)
        → d.resolver.trusted_root_key ≡ some k
        → IsHeld h k d.resolver
        → IsConfigured d
        → parse packet ≡ parsed query
        → (reply : Bytes) × ((handle_packet h net io upstream packet d).0 ≡ some reply)
          × ((IsFederate h k query.name × (parse_answers reply ≡ parsed (expected d query.qtype)))
              ⊎ ((¬ IsServing h net io query.name d.resolver)
                  × FromUpstream query.id (upstream packet) reply))
    handle_packet-IsAnswer packet query d pinned held c e = by_name _ refl
      where
        by_name :
            (p : Bool × Resolver)
            → is_federate_name h net io query.name d.resolver ≡ p
            → (reply : Bytes) × ((handle_packet h net io upstream packet d).0 ≡ some reply)
              × ((IsFederate h k query.name
                    × (parse_answers reply ≡ parsed (expected d query.qtype)))
                  ⊎ ((¬ IsServing h net io query.name d.resolver)
                      × FromUpstream query.id (upstream packet) reply))
        by_name (true, s) q = (
          answer_federate d query,
          handle_packet-eq h net io upstream packet query d e
              ∙ ap (λ x. some (reply_to h net io upstream d packet query x).0) q,
          inl (
            is_federate_name-IsFederate query.name d.resolver pinned held
                (ap (λ (x : Bool × Resolver). x.0) q),
            parse_answers-answer_federate d query c (parse-IsQuery packet query e).section,
          ),
        )
        by_name (false, s) q = (
          or_servfail (forward_upstream (upstream packet) query.id) query,
          handle_packet-eq h net io upstream packet query d e
              ∙ ap (λ x. some (reply_to h net io upstream d packet query x).0) q,
          inr (
            (λ w. false≢true (
                sym (ap (λ (x : Bool × Resolver). x.0) q)
                ∙ IsServing-is_federate_name h net io query.name d.resolver w)),
            (
              forward_upstream (upstream packet) query.id,
              forward_upstream-IsForwarded query.id (upstream packet),
              or_servfail-IsRelayed (forward_upstream (upstream packet) query.id) query
                  (parse-IsQuery packet query e).section,
            ),
          ),
        )
