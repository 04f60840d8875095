-- ===== src/Transport/Session.antt =====
-- What a session does, message by message, and what it leaves in the socket.
use federate.Base.{
  ℕ, zero, suc, Text, Bytes, List, [], ◌∷◌, ◌++◌, length, leb, ltb, Option, none, some, ◌≡◌, ◌≤◌,
  ◌<◌, ◌*◌, ◌+◌, ◌/◌, ◌%◌, ◌^◌, ◌⊎◌, inl, inr, refl, sym, subst, arith, Bool-cases, take-append,
  drop-append, length-append, true, false,
}
use federate.Core.{FederateError, Result, ok, err, Result-cases, network}
use federate.Protocol.{
  Message, ErrorCode, supported_versions, negotiate, encode, frame_len, to_be_bytes, from_be_bytes,
  max_frame_bytes,
}
use federate.Protocol.Negotiated.{IsHighest, negotiate-IsHighest}
use federate.Transport.{
  Codec, NodeService, send, recv, after_send, done, serve_requests, serve_version, serve_first,
  serve_conn, versions_of,
}

-- The library reads back what it writes, and writes no empty text.
pub record ReadsMessages (codec : Codec) : Type 0 where
  pub back : (m : Message) (body : Bytes) → codec.to_vec m ≡ ok body → codec.from_slice body ≡ ok m
  pub text : (m : Message) (body : Bytes) → codec.to_vec m ≡ ok body → 0 < length body

-- A body behind its length in four bytes, the greatest first.
abbrev pub framed : Bytes → Bytes
framed body =
    length body / 16777216
    ∷ length body / 65536 % 256
    ∷ length body / 256 % 256
    ∷ length body % 256
    ∷ body

-- A message whose text is at most 68 MiB long.
abbrev pub IsText : Codec → Message → Bytes → Type 0
IsText codec m body = (codec.to_vec m ≡ ok body) × (length body ≤ 71303168)

-- What stands behind the last message is cut within its length or its body.
abbrev pub IsCut : Bytes → Type 0
IsCut (a ∷ b ∷ c ∷ d ∷ rest) = length rest < a * 16777216 + b * 65536 + c * 256 + d
IsCut _ = Unit {0}

-- The bytes are those of the messages, in frames, with a cut one behind them.
abbrev pub IsStream : Codec → List Message → Bytes → Type 0
IsStream codec [] input = IsCut input
IsStream codec (m ∷ ms) input =
    (body : Bytes) × (rest : Bytes) × IsText codec m body
    × (input ≡ framed body ++ rest)
    × IsStream codec ms rest

module _ (codec : Codec) (write : List Bytes → Result (Unit {0})) where
  -- The socket took the frame of a message.
  abbrev pub IsDelivered : Message → (sent next : List Bytes) → Type 0
  IsDelivered m sent next =
      (body : Bytes) × IsText codec m body
      × (next ≡ sent ++ framed body ∷ [])
      × (write next ≡ ok tt)

  -- A message has no text, or one that is too long, or the socket did not take its frame.
  abbrev pub IsLost : Message → (sent : List Bytes) → FederateError → Type 0
  IsLost m sent e =
      (codec.to_vec m ≡ err e)
      ⊎ ((body : Bytes) × (codec.to_vec m ≡ ok body) × (71303168 < length body))
      ⊎ ((body : Bytes) × IsText codec m body × (write (sent ++ framed body ∷ []) ≡ err e))

  -- A message is sent, and what comes behind it happens; or it is lost, which ends the session.
  abbrev pub Sends :
      Message
      → List Bytes
      → (behind : List Bytes → Type 0) → Result (Unit {0})
      → List Bytes
      → Type 0
  Sends m sent behind r out =
      ((next : List Bytes) × IsDelivered m sent next × behind next)
      ⊎ ((e : FederateError) × IsLost m sent e × (r ≡ err e) × (out ≡ sent))

  encode-framed : (body : Bytes) → length body ≤ 71303168 → encode (ok body) ≡ ok (framed body)
  unfolding encode to_be_bytes
  encode-framed body small =
      let fits : leb (length body) max_frame_bytes ≡ true = ground arith in
      let e1 : length body % 2 ^ 32 / 16777216 % 256 ≡ length body / 16777216 = omega arith in
      let e2 : length body % 2 ^ 32 / 65536 % 256 ≡ length body / 65536 % 256 = omega arith in
      let e3 : length body % 2 ^ 32 / 256 % 256 ≡ length body / 256 % 256 = omega arith in
      let e4 : length body % 2 ^ 32 % 256 ≡ length body % 256 = omega arith in
      rw (fits, e1, e2, e3, e4) refl

  encode_long :
      (body : Bytes) → 71303168 < length body → (e : FederateError) × (encode (ok body) ≡ err e)
  unfolding encode
  encode_long body long =
      let over : leb (length body) max_frame_bytes ≡ false = ground arith in
      (network "message exceeds frame cap", rw over refl)

  send-cases :
      (m : Message) (sent : List Bytes)
      → ((next : List Bytes) × (send codec write sent m ≡ ok next) × IsDelivered m sent next)
        ⊎ ((e : FederateError) × (send codec write sent m ≡ err e) × IsLost m sent e)
  unfolding send
  send-cases m sent = elim (Result-cases (codec.to_vec m)) [
    | inl (e, q) ↦ inr (e, rw q (unfold encode in refl), inl q)
    | inr (body, q) ↦ elim (Bool-cases (ltb 71303168 (length body))) [
      | inl long ↦
          let over : 71303168 < length body = ground arith in
          let (e, failed) = encode_long body over in
          inr (e, rw (q, failed) refl, inr (inl (body, q, over)))
      | inr short ↦
          let small : length body ≤ 71303168 = ground arith in
          elim (Result-cases (write (sent ++ framed body ∷ []))) [
            | inl (e, w) ↦
                inr (e, rw (q, encode-framed body small, w) refl, inr (inr (body, (q, small), w)))
            | inr (u, w) ↦ inl (
              sent ++ framed body ∷ [],
              rw (q, encode-framed body small, w) refl,
              (body, (q, small), refl, w),
            )
          ]
    ]
  ]

  after_send-Sends :
      (m : Message) (sent : List Bytes)
      (behind : List Bytes → Result (Unit {0}) → List Bytes → Type 0)
      (next : List Bytes → Result (Unit {0}) × List Bytes)
      → ((s : List Bytes) → behind s (next s).0 (next s).1)
      → Sends m sent
          (λ s.
            behind s
              (after_send sent next (send codec write sent m)).0
              (after_send sent next (send codec write sent m)).1)
          (after_send sent next (send codec write sent m)).0
          (after_send sent next (send codec write sent m)).1
  after_send-Sends m sent behind next f = elim (send-cases m sent) [
    | inl (s, q, delivered) ↦ rw q (inl (s, delivered, f s))
    | inr (e, q, lost) ↦ rw q (inr (e, lost, refl, refl))
  ]

module _ (codec : Codec) (reads : ReadsMessages codec) where
  frame_len-framed :
      (body : Bytes)
      → 0 < length body
      → length body ≤ 71303168
      → frame_len
          (length body / 16777216)
          (length body / 65536 % 256)
          (length body / 256 % 256)
          (length body % 256)
        ≡ ok (length body)
  unfolding frame_len from_be_bytes
  frame_len-framed body positive small =
      let back : length body / 16777216 * 16777216
            + length body / 65536 % 256 * 65536
            + length body / 256 % 256 * 256
            + length body % 256
          ≡ length body =
        omega arith in
      rw back (ground arith)

  frame_len-value :
      (a b c d n : ℕ) → frame_len a b c d ≡ ok n → a * 16777216 + b * 65536 + c * 256 + d ≡ n
  unfolding frame_len from_be_bytes
  frame_len-value a b c d n q = ground arith

  recv-framed :
      (m : Message) (body rest : Bytes)
      → IsText codec m body
      → recv codec (framed body ++ rest) ≡ ok (m, rest)
  unfolding recv
  recv-framed m body rest (text, small) =
      let fits : leb (length body) (length (body ++ rest)) ≡ true =
        ground (arith, length-append body rest) in
      rw
        (
          frame_len-framed body (reads.text m body text) small,
          fits,
          take-append body rest,
          drop-append body rest,
          reads.back m body text,
        )
        refl

  recv-IsCut : (input : Bytes) → IsCut input → (e : FederateError) × (recv codec input ≡ err e)
  unfolding recv
  recv-IsCut [] c = (network "recv failed", refl)
  recv-IsCut (a ∷ []) c = (network "recv failed", refl)
  recv-IsCut (a ∷ b ∷ []) c = (network "recv failed", refl)
  recv-IsCut (a ∷ b ∷ d ∷ []) c = (network "recv failed", refl)
  recv-IsCut (a ∷ b ∷ d ∷ f ∷ rest) c = elim (Result-cases (frame_len a b d f)) [
    | inl (e, q) ↦ (e, rw q refl)
    | inr (n, q) ↦
        let whole : a * 16777216 + b * 65536 + d * 256 + f ≡ n = frame_len-value a b d f n q in
        let short : leb n (length rest) ≡ false = ground (arith, c, whole) in
        (network "recv failed", rw (q, short) refl)
  ]

  module _ (write : List Bytes → Result (Unit {0})) (service : NodeService) where
    -- Request by request: each is answered by the handler, up to the one of the count.
    abbrev pub IsServed : ℕ → List Message → List Bytes → Result (Unit {0}) → List Bytes → Type 0
    IsServed zero ms sent r out = (r ≡ ok tt) × (out ≡ sent)
    IsServed (suc n) [] sent r out = (r ≡ ok tt) × (out ≡ sent)
    IsServed (suc n) (m ∷ ms) sent r out =
        Sends codec write (service.handle m) sent (λ next. IsServed n ms next r out) r out

    serve_requests-IsServed :
        (n : ℕ) (ms : List Message) (input : Bytes) (sent : List Bytes)
        → IsStream codec ms input
        → IsServed n ms sent
            (serve_requests codec write service n input sent).0
            (serve_requests codec write service n input sent).1
    unfolding serve_requests
    serve_requests-IsServed zero ms input sent s = (refl, refl)
    serve_requests-IsServed (suc n) [] input sent s =
        let (e, q) = recv-IsCut input s in rw (serve_requests, q) (refl, refl)
    serve_requests-IsServed (suc n) (m ∷ ms) input sent (body, rest, text, e, s) =
        let q : recv codec input ≡ ok (m, rest) = rw e (recv-framed m body rest text) in
        let step : serve_requests codec write service (suc n) input sent
            ≡ after_send sent (serve_requests codec write service n rest)
                (send codec write sent (service.handle m)) =
          rw (serve_requests, q) refl in
        subst (λ (x : Result (Unit {0}) × List Bytes). IsServed (suc n) (m ∷ ms) sent x.0 x.1)
          (sym step)
          (after_send-Sends codec write (service.handle m) sent (IsServed n ms)
            (serve_requests codec write service n rest)
            (λ next. serve_requests-IsServed n ms rest next s))

    -- The answer to a version, or to none, and what comes behind it.
    abbrev IsNegotiated : Text → Option ℕ → List Message → Result (Unit {0}) → List Bytes → Type 0
    IsNegotiated agent none ms r out =
        Sends codec write (Message.error ErrorCode.unsupported []) []
          (λ next. (r ≡ ok tt) × (out ≡ next)) r out
    IsNegotiated agent (some version) ms r out =
        Sends codec write (Message.welcome version service.service_id agent service.capabilities) []
          (λ next. IsServed 10000 ms next r out) r out

    abbrev IsGreeted :
        Text → Option (List ℕ) → List Message → Result (Unit {0}) → List Bytes → Type 0
    IsGreeted agent none ms r out =
        Sends codec write (Message.error ErrorCode.bad_request []) []
          (λ next. (r ≡ ok tt) × (out ≡ next)) r out
    IsGreeted agent (some versions) ms r out =
        (shared : Option ℕ) × IsHighest (1 ∷ 0 ∷ []) versions shared
        × IsNegotiated agent shared ms r out

    -- A whole session, by the messages of the peer.
    abbrev pub IsSession : Text → List Message → Result (Unit {0}) → List Bytes → Type 0
    IsSession agent [] r out = (e : FederateError) × (r ≡ err e) × (out ≡ [])
    IsSession agent (first ∷ ms) r out = IsGreeted agent (versions_of first) ms r out

    serve_version-IsNegotiated :
        (agent : Text) (shared : Option ℕ) (ms : List Message) (input : Bytes)
        → IsStream codec ms input
        → IsNegotiated agent shared ms
            (serve_version codec write service agent shared input).0
            (serve_version codec write service agent shared input).1
    unfolding serve_version
    serve_version-IsNegotiated agent none ms input s =
        after_send-Sends codec write (Message.error ErrorCode.unsupported []) []
          (λ next r out. (r ≡ ok tt) × (out ≡ next)) done (λ next. (refl, refl))
    serve_version-IsNegotiated agent (some version) ms input s =
        after_send-Sends codec write
          (Message.welcome version service.service_id agent service.capabilities) []
          (IsServed 10000 ms) (serve_requests codec write service 10000 input)
          (λ next. serve_requests-IsServed 10000 ms input next s)

    serve_first-IsGreeted :
        (agent : Text) (o : Option (List ℕ)) (ms : List Message) (input : Bytes)
        → IsStream codec ms input
        → IsGreeted agent o ms
            (serve_first codec write service agent o input).0
            (serve_first codec write service agent o input).1
    serve_first-IsGreeted agent none ms input s =
        after_send-Sends codec write (Message.error ErrorCode.bad_request []) []
          (λ next r out. (r ≡ ok tt) × (out ≡ next)) done (λ next. (refl, refl))
    serve_first-IsGreeted agent (some versions) ms input s = (
      negotiate supported_versions versions,
      negotiate-IsHighest supported_versions versions,
      serve_version-IsNegotiated agent (negotiate supported_versions versions) ms input s,
    )

    -- For a JSON library that reads back every message that it writes and writes no empty text, a session
    -- whose peer sends messages in frames of at most 68 MiB, and then stops anywhere within the next
    -- frame: a `Hello` is answered by a welcome with the highest version that both sides support, and
    -- then each request, in order and up to the 10000th, by the handler of the node. A `Hello` that
    -- shares no version and any other first message get an error and end the session. Every answer is one
    -- frame of its text; an answer without a text, with one of more than 68 MiB, or that the socket does
    -- not take, ends the session with an error, and nothing is sent in its place. A session without a
    -- first message ends with an error too, and all other sessions end without one.
    pub serve_conn-IsSession :
        (agent : Text) (ms : List Message) (input : Bytes)
        → IsStream codec ms input
        → IsSession agent ms
            (serve_conn codec write service agent input).0
            (serve_conn codec write service agent input).1
    unfolding serve_conn
    serve_conn-IsSession agent [] input s =
        let (e, q) = recv-IsCut input s in rw (serve_conn, q) (e, refl, refl)
    serve_conn-IsSession agent (first ∷ ms) input (body, rest, text, e, s) =
        rw (serve_conn, e, recv-framed first body rest text)
          (serve_first-IsGreeted agent (versions_of first) ms rest s)
