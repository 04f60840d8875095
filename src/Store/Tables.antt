-- ===== src/Store/Tables.antt =====
-- The tables of the database against the signed zone: what `verify_tables` of
-- crates/federate-mutation/src/store.rs finds after a mutation.
use federate.Base.{
  Text, true, Option, none, some, [], ◌∷◌, length, all, values, get, insert, collect, BTreeMap,
  text_eq_refl, IsAscending, All, All-found, All-insert, insert-IsAscending, inl, inr,
  collect-IsAscending, ◌≡◌, refl, sym, ap, ◌∙◌, subst, arith,
}
use federate.Core.{ok}
use federate.Naming.Record.{DomainRecord}
use federate.Root.{RootZone, TldRecord, lookup_tld, lookup}
use federate.Mutation.{MutationRequest, AuditRecord}
use federate.Host.{Host}
use federate.Store.{MutationContext}
use federate.Store.Database.{tld_table, domain_table}
use federate.Store.Prepare.{RegistryStore}
use federate.Store.Apply.{Io, apply}
use federate.Store.Prepare.{advance}
use federate.Store.Actions.Writes.{NamedTlds, NamedDomains, IsWrite}
use federate.Store.Progress.{apply-IsApplied, zone_after, action-IsWrite}
use federate.Store.Verify.{same_signature, tld_is, domain_is, verify_tables}
use federate.Store.Durable.{apply-IsStored}

-- The maps of a zone ascend by key, and every record stands under its own name.
pub record IsNamed (z : RootZone) : Type 0 where
  pub tlds : IsAscending z.tlds
  pub domains : IsAscending z.domains
  pub tld_names : NamedTlds z.tlds
  pub domain_names : NamedDomains z.domains

tld_table-values : (m t : BTreeMap TldRecord) → NamedTlds m → tld_table (values m) t ≡ collect m t
unfolding tld_table collect
tld_table-values [] t n = refl
tld_table-values ((k, rec) ∷ m) t (one, n) =
    ap (λ j. tld_table (values m) (insert j rec t)) one ∙ tld_table-values m (insert k rec t) n

domain_table-values :
    (m t : BTreeMap DomainRecord) → NamedDomains m → domain_table (values m) t ≡ collect m t
unfolding domain_table collect
domain_table-values [] t n = refl
domain_table-values ((k, rec) ∷ m) t (one, n) =
    ap (λ j. domain_table (values m) (insert j rec t)) one
    ∙ domain_table-values m (insert k rec t) n

length-values : {V : Type 0} (m : BTreeMap V) → length (values m) ≡ length m
length-values [] = refl
length-values ((k, v) ∷ m) = omega (arith, length-values m)

same_signature_refl : (s : Option Text) → same_signature s s ≡ true
same_signature_refl none = refl
same_signature_refl (some a) = text_eq_refl a

tlds-all :
    (z : RootZone) (l : BTreeMap TldRecord)
    → All (λ p. get p.0 z.tlds ≡ some p.1) l
    → NamedTlds l
    → all (λ rec. tld_is (lookup_tld rec.tld z) rec) (values l) ≡ true
unfolding lookup_tld
tlds-all z [] found named = refl
tlds-all z ((k, rec) ∷ l) (one, found) (name, named) =
    rw (name, one, same_signature_refl rec.signature) (tlds-all z l found named)

domains-all :
    (z : RootZone) (l : BTreeMap DomainRecord)
    → All (λ p. get p.0 z.domains ≡ some p.1) l
    → NamedDomains l
    → all (λ rec. domain_is (lookup rec.domain z) rec) (values l) ≡ true
unfolding lookup
domains-all z [] found named = refl
domains-all z ((k, rec) ∷ l) (one, found) (name, named) =
    rw (name, one, same_signature_refl rec.signature) (domains-all z l found named)

-- Tables that hold the records of the zone pass the check.
mirrored_tables :
    (s : RegistryStore)
    → IsNamed s.zone
    → s.backend.tld_records ≡ tld_table (values s.zone.tlds) []
    → s.backend.domain_records ≡ domain_table (values s.zone.domains) []
    → verify_tables s ≡ ok tt
unfolding verify_tables
mirrored_tables s n tlds domains =
    let t : s.backend.tld_records ≡ s.zone.tlds =
      tlds ∙ tld_table-values s.zone.tlds [] n.tld_names ∙ collect-IsAscending s.zone.tlds n.tlds in
    let d : s.backend.domain_records ≡ s.zone.domains =
      domains
      ∙ domain_table-values s.zone.domains [] n.domain_names
      ∙ collect-IsAscending s.zone.domains n.domains in
    rw (t, d)
      (ground (
        arith,
        length-values s.zone.tlds,
        length-values s.zone.domains,
        tlds-all s.zone s.zone.tlds (All-found s.zone.tlds n.tlds) n.tld_names,
        domains-all s.zone s.zone.domains (All-found s.zone.domains n.domains) n.domain_names,
      ))

IsWrite-IsNamed : (z z' : RootZone) → IsWrite z z' → IsNamed z → IsNamed z'
IsWrite-IsNamed z z' (inl w) n = subst IsNamed (sym w.wrote) (record {
  tlds = n.tlds;
  domains = insert-IsAscending w.key w.rec z.domains n.domains;
  tld_names = n.tld_names;
  domain_names =
      All-insert (λ p. p.1.domain ≡ p.0) w.key w.rec z.domains (w.named n.domain_names)
        n.domain_names;
})
IsWrite-IsNamed z z' (inr w) n = subst IsNamed (sym w.wrote) (record {
  tlds = insert-IsAscending w.key w.rec z.tlds n.tlds;
  domains = n.domains;
  tld_names = All-insert (λ p. p.1.tld ≡ p.0) w.key w.rec z.tlds (w.named n.tld_names) n.tld_names;
  domain_names = n.domain_names;
})

module _ (h : Host) where
  -- If every record of the zone stood under its own name and in key order before an accepted mutation,
  -- every record of the new zone does, and the tables that the database has after it pass the check
  -- against the new zone.
  pub apply-verify_tables :
      (io : Io) (req : MutationRequest) (ctx : MutationContext) (s s' : RegistryStore)
      (event : AuditRecord)
      → apply h io req ctx s ≡ (ok event, s')
      → IsNamed s.zone
      → IsNamed s'.zone × (verify_tables s' ≡ ok tt)
  apply-verify_tables io req ctx s s' event q n =
      let a = apply-IsApplied h io req ctx s s' event q in
      let (p, t) = apply-IsStored h io req ctx s s' event q in
      let changed =
        IsWrite-IsNamed s.zone a.prepared.change.zone
          (action-IsWrite h s req ctx a.prepared.change a.prepared.acted) n in
      let named : IsNamed s'.zone = subst IsNamed (sym (zone_after h req ctx s s' a)) (
        unfold advance in
        record {
          tlds = changed.tlds;
          domains = changed.domains;
          tld_names = changed.tld_names;
          domain_names = changed.domain_names;
        }) in
      (
        named,
        mirrored_tables s' named
            (t.tlds ∙ ap (λ (z : RootZone). tld_table (values z.tlds) []) (sym t.zone))
            (t.domains ∙ ap (λ (z : RootZone). domain_table (values z.domains) []) (sym t.zone)),
      )
