-- ===== src/Dns/Streams.antt =====
-- Connections of the name server of crates/federate-dns/src/lib.rs: the bytes of a stream as messages.
use federate.Base.{
  ℕ, zero, suc, ◌/◌, ◌%◌, ◌≤◌, ◌<◌, Bytes, false, Option, none, some, List, [], ◌∷◌, ◌++◌, length,
  ltb, ◌==◌, ◌||◌, ◌≡◌, refl, sym, ap, subst, ◌⊎◌, inl, inr, Bool-cases, ◌∙◌, arith, All,
  length-append, append_assoc, take-append, drop-append,
}
use federate.Host.{Host}
use federate.Resolution.{Net, Io}
use federate.Dns.Wire.{to_be_u16, be_u16}
use federate.Dns.Server.{
  DnsServer, handle_packet, serve_messages, serve_tcp_conn, send_reply, frame, max_tcp_message,
}

-- A message that the server takes.
abbrev pub IsMessage : Bytes → Type 0
IsMessage packet = (0 < length packet) × (length packet ≤ 4096)

-- What stands behind the last complete message: less than its prefix and its bytes.
abbrev pub IsCut : Bytes → Type 0
IsCut [] = Unit {0}
IsCut (hi ∷ []) = Unit {0}
IsCut (hi ∷ lo ∷ rest) = length rest < be_u16 hi lo

-- A message behind its length, the greater byte first.
abbrev prefixed : Bytes → Bytes
prefixed message = length message / 256 ∷ length message % 256 ∷ message

abbrev pub sent : List Bytes → Bytes
sent [] = []
sent (packet ∷ packets) = prefixed packet ++ sent packets

-- After one message: no reply and a reply that is too long end the connection, and behind any other
-- reply the next message is served.
abbrev pub IsAnswered :
    (served : DnsServer → Bytes → DnsServer → Type 0)
    → Option Bytes × DnsServer
    → Bytes
    → DnsServer
    → Type 0
IsAnswered served (none, d) out d' = (out ≡ []) × (d' ≡ d)
IsAnswered served (some reply, d) out d' =
    ((65535 < length reply) × (out ≡ []) × (d' ≡ d))
    ⊎ ((length reply ≤ 65535)
        × ((later : Bytes) × (out ≡ prefixed reply ++ later) × served d later d'))

send_reply-eq :
    (h : Host) (net : Net) (io : Io) (upstream : Bytes → Option (List (Option Bytes)))
    (f g : DnsServer → Bytes × DnsServer) (r : Option Bytes × DnsServer)
    → ((d : DnsServer) → f d ≡ g d)
    → send_reply h net io upstream f r ≡ send_reply h net io upstream g r
send_reply-eq h net io upstream f g (none, d) e = refl
send_reply-eq h net io upstream f g (some reply, d) e = rw (e d) refl

module _ (h : Host) (net : Net) (io : Io) (upstream : Bytes → Option (List (Option Bytes))) where
  abbrev frames : List Bytes → Bytes
  frames [] = []
  frames (packet ∷ packets) = frame h net io upstream packet ++ frames packets

  abbrev reply_all : List Bytes → DnsServer → Bytes × DnsServer
  reply_all [] d = ([], d)
  reply_all (packet ∷ packets) d =
      send_reply h net io upstream (reply_all packets) (handle_packet h net io upstream packet d)

  serve_messages-cut :
      (fuel : ℕ) (tail : Bytes) (d : DnsServer)
      → IsCut tail
      → serve_messages h net io upstream fuel tail d ≡ ([], d)
  unfolding serve_messages
  serve_messages-cut zero tail d c = refl
  serve_messages-cut (suc fuel) [] d c = refl
  serve_messages-cut (suc fuel) (hi ∷ []) d c = refl
  serve_messages-cut (suc fuel) (hi ∷ lo ∷ rest) d c = ground arith

  serve_messages-message :
      (fuel : ℕ) (packet rest : Bytes) (d : DnsServer)
      → IsMessage packet
      → serve_messages h net io upstream (suc fuel) (frame h net io upstream packet ++ rest) d
        ≡ send_reply h net io upstream
            (serve_messages h net io upstream fuel rest)
            (handle_packet h net io upstream packet d)
  unfolding serve_messages to_be_u16
  serve_messages-message fuel packet rest d (positive, small) =
      let e : be_u16 (length packet / 256 % 256) (length packet % 256) ≡ length packet =
        omega arith in
      let t : (length packet == 0
            || ltb max_tcp_message (length packet)
            || ltb (length (packet ++ rest)) (length packet))
          ≡ false =
        ground (arith, length-append packet rest) in
      rw (e, take-append packet rest, drop-append packet rest, t) refl

  serve_messages-frames :
      (packets : List Bytes) (fuel : ℕ) (tail : Bytes) (d : DnsServer)
      → All IsMessage packets
      → IsCut tail
      → length packets ≤ fuel
      → serve_messages h net io upstream fuel (frames packets ++ tail) d ≡ reply_all packets d
  serve_messages-frames [] fuel tail d all c e = serve_messages-cut fuel tail d c
  serve_messages-frames (packet ∷ packets) zero tail d all c e = absurd (omega arith)
  serve_messages-frames (packet ∷ packets) (suc fuel) tail d (one, all) c e =
      rw (append_assoc (frame h net io upstream packet) (frames packets) tail) (
        serve_messages-message fuel packet (frames packets ++ tail) d one
        ∙ send_reply-eq h net io upstream _ _ (handle_packet h net io upstream packet d)
            (λ d1. serve_messages-frames packets fuel tail d1 all c (omega arith)))

  length-frames :
      (packets : List Bytes) (tail : Bytes) → length packets ≤ length (frames packets ++ tail)
  unfolding to_be_u16
  length-frames [] tail = omega arith
  length-frames (packet ∷ packets) tail = omega (
    arith,
    length-frames packets tail,
    length-append (frame h net io upstream packet ++ frames packets) tail,
    length-append (frames packets) tail,
    length-append (frame h net io upstream packet) (frames packets),
  )

  prefixed-frame :
      (packet : Bytes) → length packet ≤ 65535 → prefixed packet ≡ frame h net io upstream packet
  unfolding to_be_u16
  prefixed-frame packet small =
      let e : length packet / 256 ≡ length packet / 256 % 256 = omega arith in
      ap (λ x. x ∷ length packet % 256 ∷ packet) e

  sent-frames : (packets : List Bytes) → All IsMessage packets → sent packets ≡ frames packets
  sent-frames [] all = refl
  sent-frames (packet ∷ packets) ((positive, small), all) =
      ap (λ p. p ++ sent packets) (prefixed-frame packet (omega arith))
      ∙ ap (λ rest. frame h net io upstream packet ++ rest) (sent-frames packets all)

  -- What the connection is sent and the server behind it, message by message.
  abbrev pub IsServed : List Bytes → DnsServer → Bytes → DnsServer → Type 0
  IsServed [] d out d' = (out ≡ []) × (d' ≡ d)
  IsServed (packet ∷ packets) d out d' =
      IsAnswered (IsServed packets) (handle_packet h net io upstream packet d) out d'

  send_reply-IsAnswered :
      (next : DnsServer → Bytes × DnsServer) (served : DnsServer → Bytes → DnsServer → Type 0)
      (r : Option Bytes × DnsServer)
      → ((d : DnsServer) → served d (next d).0 (next d).1)
      → IsAnswered served r
          (send_reply h net io upstream next r).0
          (send_reply h net io upstream next r).1
  send_reply-IsAnswered next served (none, d) f = (refl, refl)
  send_reply-IsAnswered next served (some reply, d) f =
      elim (Bool-cases (ltb 65535 (length reply))) [
        | inl e ↦ inl (ground arith, rw e refl, rw e refl)
        | inr e ↦
            let small : length reply ≤ 65535 = ground arith in
            inr (
              small,
              (
                (next d).0,
                rw e (ap (λ p. p ++ (next d).0) (sym (prefixed-frame reply small))),
                rw e (f d),
              ),
            )
      ]

  reply_all-IsServed :
      (packets : List Bytes) (d : DnsServer)
      → IsServed packets d (reply_all packets d).0 (reply_all packets d).1
  reply_all-IsServed [] d = (refl, refl)
  reply_all-IsServed (packet ∷ packets) d =
      send_reply-IsAnswered (reply_all packets) (IsServed packets)
        (handle_packet h net io upstream packet d) (reply_all-IsServed packets)

  -- A connection that sends messages of 1 to 4096 bytes, each behind its length in two bytes, and then
  -- stops anywhere within the next one: the messages are handled one after the other by the server that
  -- the one before left, and each reply is sent behind its length, up to the first message that gets no
  -- reply or one of more than 65535 bytes, for which and behind which nothing is sent or handled.
  pub serve_tcp_conn-frames :
      (packets : List Bytes) (tail : Bytes) (d : DnsServer)
      → All IsMessage packets
      → IsCut tail
      → IsServed packets d
          (serve_tcp_conn h net io upstream (sent packets ++ tail) d).0
          (serve_tcp_conn h net io upstream (sent packets ++ tail) d).1
  unfolding serve_tcp_conn
  serve_tcp_conn-frames packets tail d all c =
      subst (λ (r : Bytes × DnsServer). IsServed packets d r.0 r.1)
        (sym (
          ap (λ input. serve_tcp_conn h net io upstream (input ++ tail) d) (sent-frames packets all)
          ∙ serve_messages-frames packets (length (frames packets ++ tail)) tail d all c
              (length-frames packets tail)))
        (reply_all-IsServed packets d)
