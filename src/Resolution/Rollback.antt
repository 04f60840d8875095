-- ===== src/Resolution/Rollback.antt =====
-- The registry of a delegated TLD does not get older than the one that the resolver has cached.
use federate.Base.{
  Bytes, Text, Bool, Bool-cases, inl, inr, true, false, ltb, ◌≤◌, ◌≡◌, refl, subst, insert, text_eq,
  text_eq_iff, get-insert_self, arith,
}
use federate.Core.{Result, ok, FederateError, guard, >>=-eq-ok}
use federate.Naming.{RegistryType, validate_tld_name}
use federate.Root.{TldRecord}
use federate.Registry.{TldRegistry}
use federate.Host.{Host}
use federate.Signing.Registries
use federate.Resolution.{Resolver, Net, Io, Result-cases}
use federate.Resolution.Registries.{
  is_forgery, cached_registry, registry_file, store_registry, newer_of, after_live,
  fetch_registry_live, or_cached,
}
use federate.Resolution.Vouched.{
  IsSigned, ReadsRegistries, cached_registry-IsSigned, fetch_registry_live-IsSigned,
}

abbrev pub is_live : RegistryType → Bool
is_live RegistryType.delegated_native = true
is_live RegistryType.delegated_http = true
is_live _ = false

module _ (h : Host) where
  -- Every registry that the cache holds stays, or one that is not older takes its place.
  abbrev pub KeepsRegistry : TldRecord → Resolver → Resolver → Type 0
  KeepsRegistry rec s s' =
      (c : TldRegistry)
      → cached_registry h rec s ≡ ok c
      → (c' : TldRegistry) × (cached_registry h rec s' ≡ ok c') × (c.version ≤ c'.version)

  abbrev pub IsNotOlder : TldRecord → Resolver → TldRegistry → Type 0
  IsNotOlder rec s r = (c : TldRegistry) → cached_registry h rec s ≡ ok c → c.version ≤ r.version

  pub record IsCurrent (rec : TldRecord) (live : Bool) (s : Resolver)
      (p : Result TldRegistry × Resolver) : Type 0 where
    pub signed : (r : TldRegistry) → p.0 ≡ ok r → IsSigned h rec r
    pub keeps : KeepsRegistry rec s p.1
    pub not_older : live ≡ true → (r : TldRegistry) → p.0 ≡ ok r → IsNotOlder rec s r

  pub KeepsRegistry-refl : (rec : TldRecord) (s : Resolver) → KeepsRegistry rec s s
  KeepsRegistry-refl rec s = λ c q. (c, q, omega arith)

  signed_tld : (rec : TldRecord) (r : TldRegistry) → IsSigned h rec r → r.tld ≡ rec.tld
  unfolding Registries.verify
  signed_tld rec r signed =
      let (u, same, e1) = >>=-eq-ok (guard (text_eq r.tld rec.tld) _) _ signed in
      (text_eq_iff r.tld rec.tld).0 (ground arith)

  cached-written :
      (rec : TldRecord) (s : Resolver) (r : TldRegistry) (name : Text) (b : Bytes)
      → h.serde.read_registry b ≡ ok r
      → IsSigned h rec r
      → validate_tld_name rec.tld ≡ ok name
      → cached_registry h rec (record s { registries = insert name b s.registries }) ≡ ok r
  unfolding cached_registry
  cached-written rec s r name b reads signed named =
      rw (named, get-insert_self name b s.registries) (rw reads (rw signed refl))

  store_registry-KeepsRegistry :
      (rec : TldRecord) (i : Io) (r : TldRegistry) (s : Resolver)
      → ReadsRegistries h
      → IsSigned h rec r
      → IsNotOlder rec s r
      → KeepsRegistry rec s (store_registry h i r s)
  unfolding store_registry
  store_registry-KeepsRegistry rec i r s reads signed newer =
      elim (Result-cases (registry_file h r)) [
        | inr (e, q) ↦ rw q (KeepsRegistry-refl rec s)
        | inl ((name, b), q) ↦
            let (n, named, q1) = >>=-eq-ok (validate_tld_name r.tld) _ q in
            let (b', written, q2) = >>=-eq-ok (h.serde.registry_to_vec_pretty r) _ q1 in
            elim (Bool-cases i.write_registry) [
              | inr w ↦ rw (q, w) (KeepsRegistry-refl rec s)
              | inl w ↦
                  rw (q, w)
                    (λ c l. (
                      r,
                      cached-written rec s r name b (reads r b (ground (arith, written, q2))) signed
                          (subst (λ t. validate_tld_name t ≡ ok name) (signed_tld rec r signed)
                            (ground (arith, named, q2))),
                      newer c l,
                    ))
            ]
      ]

  newer_of-IsCurrent :
      (rec : TldRecord) (i : Io) (r : TldRegistry) (s : Resolver)
      → ReadsRegistries h
      → IsSigned h rec r
      → IsCurrent rec true s (newer_of h i r (cached_registry h rec s) s)
  unfolding newer_of
  newer_of-IsCurrent rec i r s reads signed = elim (Result-cases (cached_registry h rec s)) [
    | inr (e, l) ↦ rw l record {
      signed = λ r' q. ground (arith, q, signed);
      keeps = store_registry-KeepsRegistry rec i r s reads signed (λ c l'. ground (arith, l, l'));
      not_older = λ t r' q c l'. ground (arith, l, l');
    }
    | inl (c, l) ↦ elim (Bool-cases (ltb r.version c.version)) [
      | inl older ↦
          rw (l, older)
            record {
              signed = λ r' q. ground (arith, q, cached_registry-IsSigned h rec s c l);
              keeps = KeepsRegistry-refl rec s;
              not_older = λ t r' q c' l'. ground (arith, q, l, l');
            }
      | inr newer ↦
          rw (l, newer)
            record {
              signed = λ r' q. ground (arith, q, signed);
              keeps =
                  store_registry-KeepsRegistry rec i r s reads signed
                    (λ c' l'. ground (arith, l, l', newer));
              not_older = λ t r' q c' l'. ground (arith, q, l, l', newer);
            }
    ]
  ]

  from_cache-IsCurrent :
      (rec : TldRecord) (e : FederateError) (s : Resolver)
      → IsCurrent rec true s (or_cached h e (cached_registry h rec s), s)
  from_cache-IsCurrent rec e s = elim (Result-cases (cached_registry h rec s)) [
    | inl (c, l) ↦ rw l record {
      signed = λ r q. ground (arith, q, cached_registry-IsSigned h rec s c l);
      keeps = KeepsRegistry-refl rec s;
      not_older = λ t r q c' l'. ground (arith, q, l, l');
    }
    | inr (x, l) ↦
        rw l
          record { signed = λ r q. cc; keeps = KeepsRegistry-refl rec s; not_older = λ t r q. cc }
  ]

  pub after_live-IsCurrent :
      (net : Net) (rec : TldRecord) (i : Io) (s : Resolver)
      → ReadsRegistries h
      → IsCurrent rec true s (after_live h i rec (fetch_registry_live h net s rec) s)
  unfolding after_live
  after_live-IsCurrent net rec i s reads = elim (Result-cases (fetch_registry_live h net s rec)) [
    | inl (r, q) ↦
        rw q (newer_of-IsCurrent rec i r s reads (fetch_registry_live-IsSigned h net s rec r q))
    | inr (e, q) ↦ elim (Bool-cases (is_forgery e)) [
      | inl forged ↦
          rw (q, forged)
            record { signed = λ r p. cc; keeps = KeepsRegistry-refl rec s; not_older = λ t r p. cc }
      | inr other ↦ rw (q, other) (from_cache-IsCurrent rec e s)
    ]
  ]
