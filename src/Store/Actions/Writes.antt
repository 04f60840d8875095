-- ===== src/Store/Actions/Writes.antt =====
-- Every accepted action writes one record of the zone: a domain record under a TLD that the zone
-- knows, or a TLD record.
use federate.Base.{
  Text, Bytes, Option, Bool, true, false, not, insert, get, contains_key, All, All-get, refl, ◌∙◌,
  BTreeMap, ◌≡◌, arith, ◌⊎◌, to_ascii_lowercase, text_eq,
}
use federate.Core.{ok, guard, >>=-eq-ok, tld_not_found}
use federate.Naming.{TldStatus, validate_tld_name}
use federate.Naming.Record.{DomainRecord}
use federate.Root.{RootZone, TldRecord}
use federate.Registry.{TldRegistry}
use federate.Mutation.{Delegation}
use federate.Host.{Host}
use federate.Signing.Tlds as TldSigning
use federate.Root.Blocklists.{validate_new_tld}
use federate.Store.{MutationContext, Change}
use federate.Store.Actions.Domains
use federate.Store.Actions.DomainWrites.{ok_or-some}
use federate.Store.Actions.Tlds

-- Every record stands under its own name.
abbrev pub NamedTlds : BTreeMap TldRecord → Type 0
NamedTlds = All (λ p. p.1.tld ≡ p.0)

abbrev pub NamedDomains : BTreeMap DomainRecord → Type 0
NamedDomains = All (λ p. p.1.domain ≡ p.0)

pub record DomainWrite (z z' : RootZone) : Type 0 where
  pub key : Text
  pub rec : DomainRecord
  pub wrote : z' ≡ record z { domains = insert key rec z.domains }
  pub known : contains_key rec.tld z.tlds ≡ true
  pub named : NamedDomains z.domains → rec.domain ≡ key

pub record TldWrite (z z' : RootZone) : Type 0 where
  pub key : Text
  pub rec : TldRecord
  pub wrote : z' ≡ record z { tlds = insert key rec z.tlds }
  pub named : NamedTlds z.tlds → rec.tld ≡ key

abbrev pub IsWrite : RootZone → RootZone → Type 0
IsWrite z z' = DomainWrite z z' ⊎ TldWrite z z'

module _ (h : Host) (ctx : MutationContext) (z : RootZone) where
  signed-tld : (rec r : TldRecord) → TldSigning.signed h ctx.root rec ≡ ok r → r.tld ≡ rec.tld
  unfolding TldSigning.signed
  signed-tld rec r e = ground arith

  write_tld-TldWrite :
      (name : Text) (rec : TldRecord) (c : Change)
      → (NamedTlds z.tlds → rec.tld ≡ name)
      → Tlds.write_tld h ctx z name rec ≡ ok c
      → TldWrite z c.zone
  unfolding Tlds.write_tld
  write_tld-TldWrite name rec c named e =
      let (r, signed, done) = >>=-eq-ok (TldSigning.signed h ctx.root rec) _ e in
      record {
        key = name;
        rec = r;
        wrote = ground arith;
        named = λ n. signed-tld rec r signed ∙ named n;
      }

  delegated :
      (is_root : Bool) (d : Delegation) (c : Change)
      → Tlds.delegate_tld h ctx z is_root d ≡ ok c
      → (name : Text) × (validate_new_tld ctx.blocklists d.tld false ≡ ok name)
        × (Tlds.write_tld h ctx z name (Tlds.delegated_record h ctx d name) ≡ ok c)
  unfolding Tlds.delegate_tld
  delegated is_root d c e = ground arith

  pub delegate_tld-TldWrite :
      (is_root : Bool) (d : Delegation) (c : Change)
      → Tlds.delegate_tld h ctx z is_root d ≡ ok c
      → TldWrite z c.zone
  unfolding Tlds.delegated_record
  delegate_tld-TldWrite is_root d c e =
      let (name, v, w) = delegated is_root d c e in write_tld-TldWrite name _ c (λ n. refl) w

  created :
      (is_root : Bool) (t p : Text) (c : Change)
      → Tlds.create_tld h ctx z is_root t p ≡ ok c
      → (name : Text) × (validate_new_tld ctx.blocklists t true ≡ ok name)
        × (Tlds.write_tld h ctx z name (Tlds.official_record h ctx name p) ≡ ok c)
  unfolding Tlds.create_tld
  created is_root t p c e = ground arith

  pub create_tld-TldWrite :
      (is_root : Bool) (t p : Text) (c : Change)
      → Tlds.create_tld h ctx z is_root t p ≡ ok c
      → TldWrite z c.zone
  unfolding Tlds.official_record
  create_tld-TldWrite is_root t p c e =
      let (name, v, w) = created is_root t p c e in write_tld-TldWrite name _ c (λ n. refl) w

  restricted :
      (is_root is_reserve : Bool) (t r : Text) (c : Change)
      → Tlds.restrict_tld h ctx z is_root is_reserve t r ≡ ok c
      → (name : Text) × (validate_tld_name t ≡ ok name)
        × (Tlds.write_tld h ctx z name (Tlds.restricted_record h ctx is_reserve name r) ≡ ok c)
  unfolding Tlds.restrict_tld
  restricted is_root is_reserve t r c e = ground arith

  pub restrict_tld-TldWrite :
      (is_root is_reserve : Bool) (t r : Text) (c : Change)
      → Tlds.restrict_tld h ctx z is_root is_reserve t r ≡ ok c
      → TldWrite z c.zone
  unfolding Tlds.restricted_record
  restrict_tld-TldWrite is_root is_reserve t r c e =
      let (name, v, w) = restricted is_root is_reserve t r c e in
      write_tld-TldWrite name _ c (λ n. refl) w

  found-NamedTlds :
      (t : Text) (rec : TldRecord)
      → Domains.ok_or (get (to_ascii_lowercase t) z.tlds) (tld_not_found (to_ascii_lowercase t))
        ≡ ok rec
      → NamedTlds z.tlds
      → rec.tld ≡ to_ascii_lowercase t
  found-NamedTlds t rec found n =
      All-get (λ p. p.1.tld ≡ p.0) (to_ascii_lowercase t) rec z.tlds n
        (ok_or-some (get (to_ascii_lowercase t) z.tlds) _ found)

  pub update_tld-TldWrite :
      (is_root : Bool) (t : Text) (e x n : Option Text) (c : Change)
      → Tlds.update_tld h ctx z is_root t e x n ≡ ok c
      → TldWrite z c.zone
  unfolding Tlds.update_tld
  update_tld-TldWrite is_root t e x n c eq =
      let (u, g, e1) = >>=-eq-ok (guard is_root _) _ eq in
      let (rec, found, e2) = >>=-eq-ok (Domains.ok_or (get (to_ascii_lowercase t) z.tlds) _) _ e1 in
      write_tld-TldWrite _ _ c (found-NamedTlds t rec found) e2

  pub set_tld_status-TldWrite :
      (is_root : Bool) (t : Text) (st : TldStatus) (c : Change)
      → Tlds.set_tld_status h ctx z is_root t st ≡ ok c
      → TldWrite z c.zone
  unfolding Tlds.set_tld_status
  set_tld_status-TldWrite is_root t st c eq =
      let (u, g, e1) = >>=-eq-ok (guard is_root _) _ eq in
      let (rec, found, e2) = >>=-eq-ok (Domains.ok_or (get (to_ascii_lowercase t) z.tlds) _) _ e1 in
      let (u', g', e3) = >>=-eq-ok (guard (not (Tlds.same_status rec.status st)) _) _ e2 in
      write_tld-TldWrite _ _ c (found-NamedTlds t rec found) e3

  pub update_registry_pointer-TldWrite :
      (registries : BTreeMap (Bytes × TldRegistry)) (actor t x : Text) (c : Change)
      → Tlds.update_registry_pointer h ctx registries z actor t x ≡ ok c
      → TldWrite z c.zone
  unfolding Tlds.update_registry_pointer
  update_registry_pointer-TldWrite registries actor t x c eq =
      let name = to_ascii_lowercase t in
      let (rec, found, e1) = >>=-eq-ok (Domains.ok_or (get name z.tlds) _) _ eq in
      let (u, g, e2) = >>=-eq-ok (guard (text_eq actor rec.operator_public_key) _) _ e1 in
      let (u', g', e3) = >>=-eq-ok (guard (Tlds.is_delegated_manifest rec.registry_type) _) _ e2 in
      let (new, pin, e4) = >>=-eq-ok (Tlds.pinned h ctx registries actor name x) _ e3 in
      let (r, signed, done) = >>=-eq-ok (TldSigning.signed h ctx.root _) _ e4 in
      record {
        key = name;
        rec = r;
        wrote = ground arith;
        named = λ n. signed-tld _ r signed ∙ found-NamedTlds t rec found n;
      }
