-- ===== src/Resolution/Vouched.antt =====
-- Whatever way a registry comes, the resolver takes it only if the operator of the TLD signed it.
use federate.Base.{
  Bytes, Text, Option, none, some, List, [], ◌∷◌, Bool-cases, inl, inr, ◌≡◌, get, leb, arith,
}
use federate.Core.{Result, ok, err, guard, >>=-eq-ok}
use federate.Naming.{validate_tld_name}
use federate.Root.{TldRecord}
use federate.Registry.{TldRegistry}
use federate.Host.{Host}
use federate.Signing.Registries
use federate.Store.Actions.Domains.{map_err, ok_or}
use federate.Protocol.{Message, version_delegated_registries}
use federate.Transport
use federate.Transport.{connect}
use federate.Client.{Response, get_json}
use federate.Resolution.{Resolver, Net}
use federate.Resolution.Registries.{
  is_forgery, or_forged, try_until_forged, registry_answer, fetch_registry, cached_registry,
  read_pinned, fetch_registry_native, fetch_registry_live, from_endpoint,
}

module _ (h : Host) where
  abbrev pub IsSigned : TldRecord → TldRegistry → Type 0
  IsSigned rec r = Registries.verify h r rec.tld rec.operator_public_key ≡ ok tt

  -- The reader of registries reads what the writer wrote.
  abbrev pub ReadsRegistries : Type 0
  ReadsRegistries =
      (r : TldRegistry) (b : Bytes)
      → h.serde.registry_to_vec_pretty r ≡ ok b
      → h.serde.read_registry b ≡ ok r

  pub cached_registry-IsSigned :
      (rec : TldRecord) (s : Resolver) (r : TldRegistry)
      → cached_registry h rec s ≡ ok r
      → IsSigned rec r
  unfolding cached_registry
  cached_registry-IsSigned rec s r e =
      let (name, q1, e1) = >>=-eq-ok (validate_tld_name rec.tld) _ e in
      let (b, q2, e2) = >>=-eq-ok (ok_or (get name s.registries) _) _ e1 in
      let (r', q3, e3) = >>=-eq-ok (h.serde.read_registry b) _ e2 in
      let (u, v, e4) = >>=-eq-ok (Registries.verify h r' rec.tld rec.operator_public_key) _ e3 in
      ground (arith, v, e4)

  registry_answer-IsSigned :
      (rec : TldRecord) (m : Message) (r : TldRegistry)
      → registry_answer h rec.tld rec.operator_public_key m ≡ ok r
      → IsSigned rec r
  unfolding registry_answer
  registry_answer-IsSigned rec m r e = ground arith

  fetch_registry-IsSigned :
      (get : Text → Result Response) (endpoint : Text) (rec : TldRecord) (r : TldRegistry)
      → fetch_registry h get endpoint rec.operator_public_key rec.tld ≡ ok r
      → IsSigned rec r
  unfolding fetch_registry
  fetch_registry-IsSigned get endpoint rec r e =
      let (v, q1, e1) = >>=-eq-ok (get_json h get _) _ e in
      let (r', q2, e2) = >>=-eq-ok (h.serde.registry_from_value v) _ e1 in
      let (u, w, e3) = >>=-eq-ok (Registries.verify h r' rec.tld rec.operator_public_key) _ e2 in
      ground (arith, w, e3)

  IsSigned-or_forged :
      (rec : TldRecord) (p q : Result TldRegistry)
      → ((r : TldRegistry) → p ≡ ok r → IsSigned rec r)
      → ((r : TldRegistry) → q ≡ ok r → IsSigned rec r)
      → (r : TldRegistry) → or_forged p q ≡ ok r
      → IsSigned rec r
  IsSigned-or_forged rec (ok b) q f g r e = f r e
  IsSigned-or_forged rec (err x) q f g r e = elim (Bool-cases (is_forgery x)) [
    | inl forged ↦ ground (arith, e, forged)
    | inr other ↦ g r (ground (arith, e, other))
  ]

  try_until_forged-IsSigned :
      (rec : TldRecord) (fetch : Text → Result TldRegistry) (addrs : List Text)
      (last : Result TldRegistry)
      → ((a : Text) (r : TldRegistry) → fetch a ≡ ok r → IsSigned rec r)
      → ((r : TldRegistry) → last ≡ ok r → IsSigned rec r)
      → (r : TldRegistry) → try_until_forged fetch addrs last ≡ ok r
      → IsSigned rec r
  unfolding try_until_forged
  try_until_forged-IsSigned rec fetch [] last f g r e = g r e
  try_until_forged-IsSigned rec fetch (a ∷ rest) last f g r e =
      IsSigned-or_forged rec (fetch a) (try_until_forged fetch rest last) (f a)
        (try_until_forged-IsSigned rec fetch rest last f g) r e

  from_endpoint-IsSigned :
      (net : Net) (rec : TldRecord) (o : Option Text) (r : TldRegistry)
      → from_endpoint h net rec o ≡ ok r
      → IsSigned rec r
  from_endpoint-IsSigned net rec none r e = cc
  from_endpoint-IsSigned net rec (some endpoint) r e =
      IsSigned-or_forged rec (fetch_registry h net.url endpoint rec.operator_public_key rec.tld)
        (err _) (fetch_registry-IsSigned net.url endpoint rec) (λ r' q. cc) r e

  fetch_registry_native-IsSigned :
      (net : Net) (s : Resolver) (rec : TldRecord) (a : Text) (r : TldRegistry)
      → fetch_registry_native h net s rec.tld rec.operator_public_key a ≡ ok r
      → IsSigned rec r
  unfolding fetch_registry_native
  fetch_registry_native-IsSigned net s rec a r e =
      let (conn, q1, e1) = >>=-eq-ok (connect h (net.dial a) s.identity net.agent) _ e in
      let (u, q2, e2) = >>=-eq-ok (guard (leb version_delegated_registries conn.version) _) _ e1 in
      let (m, q3, e3) =
        >>=-eq-ok (Transport.request conn (Message.get_tld_registry rec.tld)) _ e2 in
      registry_answer-IsSigned rec m r e3

  pub fetch_registry_live-IsSigned :
      (net : Net) (s : Resolver) (rec : TldRecord) (r : TldRegistry)
      → fetch_registry_live h net s rec ≡ ok r
      → IsSigned rec r
  unfolding fetch_registry_live
  fetch_registry_live-IsSigned net s rec r e =
      try_until_forged-IsSigned rec (fetch_registry_native h net s rec.tld rec.operator_public_key)
        rec.registry_providers (from_endpoint h net rec rec.registry_endpoint)
        (fetch_registry_native-IsSigned net s rec)
        (from_endpoint-IsSigned net rec rec.registry_endpoint) r e

  pub read_pinned-IsSigned :
      (rec : TldRecord) (b : Bytes) (r : TldRegistry) → read_pinned h rec b ≡ ok r → IsSigned rec r
  unfolding read_pinned
  read_pinned-IsSigned rec b r e =
      let (r', q, e1) = >>=-eq-ok (map_err (h.serde.read_registry b) _) _ e in
      let (u, v, e2) = >>=-eq-ok (Registries.verify h r' rec.tld rec.operator_public_key) _ e1 in
      ground (arith, v, e2)
