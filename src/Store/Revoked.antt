-- ===== src/Store/Revoked.antt =====
-- Revocation is final for everybody but the root.
use federate.Base.{
  Text, some, Bool, true, false, get, insert, get-insert, text_eq, text_eq_iff, to_ascii_lowercase,
  ◌≡◌, ◌≢◌, refl, sym, ◌∙◌, arith, subst,
}
use federate.Core.{ok}
use federate.Naming.{DomainStatus, fqdn}
use federate.Naming.Record.{DomainRecord}
use federate.Root.{RootZone}
use federate.Mutation.{
  MutationAction, publish_site, update_domain_manifest, set_domain_status, issue_domain,
  delegate_tld, update_tld, create_tld, reserve_tld, block_tld, set_tld_status,
  update_registry_pointer, MutationRequest, AuditRecord,
}
use federate.Host.{Host}
use federate.Store.{MutationContext, Change}
use federate.Store.Prepare.{RegistryStore, run_action, apply_action, advance}
use federate.Store.Apply.{Io, apply}
use federate.Store.Progress.{apply-IsApplied, zone_after}
use federate.Store.Actions.Domains
use federate.Store.Actions.Writes.{
  TldWrite, delegate_tld-TldWrite, create_tld-TldWrite, restrict_tld-TldWrite, update_tld-TldWrite,
  set_tld_status-TldWrite, update_registry_pointer-TldWrite,
}
use federate.Store.Actions.DomainWrites.{
  publish-IsPublished, set_domain_status-IsStatusChange, issue_domain-IsIssued,
}

-- The domain has a record, and the record is revoked.
abbrev pub IsRevoked : RootZone → Text → DomainRecord → Type 0
IsRevoked z name rec = (get name z.domains ≡ some rec) × (rec.status ≡ DomainStatus.revoked)

kept-TldWrite :
    (z z' : RootZone) (name : Text) → TldWrite z z' → get name z'.domains ≡ get name z.domains
kept-TldWrite z z' name w = rw w.wrote refl

-- A write under another name, or none at all, keeps the record.
kept_unless :
    (z z' : RootZone) (key name : Text) (rec : DomainRecord)
    → z' ≡ record z { domains = insert key rec z.domains }
    → (key ≡ name → ⊥)
    → get name z'.domains ≡ get name z.domains
kept_unless z z' key name rec w ne =
    rw w (ground (arith, get-insert key name rec z.domains, text_eq_iff key name))

module _ (h : Host) (ctx : MutationContext) (s : RegistryStore) (actor name : Text)
    (old : DomainRecord) (revoked : IsRevoked s.zone name old) where
  publish-kept :
      (is_update : Bool) (d m : Text) (c : Change)
      → Domains.publish h ctx s.manifests s.zone actor is_update d m ≡ ok c
      → get name c.zone.domains ≡ get name s.zone.domains
  publish-kept is_update d m c e =
      let p = publish-IsPublished h ctx s.zone s.manifests actor is_update d m c e in
      kept_unless s.zone c.zone (fqdn p.d) name p.rec p.wrote (λ same.
        let x =
          subst
            (λ (k : Text). Domains.check_existing actor k is_update (get k s.zone.domains) ≡ ok tt)
            same p.existing in
        let r0 = revoked.0 in let r1 = revoked.1 in unfold Domains.check_existing in ground arith)

  status-kept :
      (d : Text) (st : DomainStatus) (c : Change)
      → Domains.set_domain_status h ctx s.zone actor false d st ≡ ok c
      → get name c.zone.domains ≡ get name s.zone.domains
  status-kept d st c e =
      let p = set_domain_status-IsStatusChange h ctx s.zone actor false d st c e in
      kept_unless s.zone c.zone (to_ascii_lowercase d) name p.rec p.wrote (λ same.
        let x = subst (λ (k : Text). get k s.zone.domains ≡ some p.old) same p.found in
        let r0 = revoked.0 in
        let r1 = revoked.1 in
        let al = p.allowed in unfold Domains.allowed_domain_transition in ground arith)

  issue-kept :
      (rec : DomainRecord) (c : Change)
      → Domains.issue_domain h s.zone actor false rec ≡ ok c
      → get name c.zone.domains ≡ get name s.zone.domains
  issue-kept rec c e =
      let p = issue_domain-IsIssued h ctx s.zone actor false rec c e in
      kept_unless s.zone c.zone rec.domain name rec p.wrote (λ same.
        let x =
          subst (λ (k : Text). Domains.check_reissue false (get k s.zone.domains) ≡ ok tt) same
            p.reissue in
        let r0 = revoked.0 in let r1 = revoked.1 in unfold Domains.check_reissue in ground arith)

  run_action-kept :
      (a : MutationAction) (c : Change)
      → run_action h s ctx actor false a ≡ ok c
      → get name c.zone.domains ≡ get name s.zone.domains
  unfolding run_action
  run_action-kept (publish_site d m) c e = publish-kept false d m c e
  run_action-kept (update_domain_manifest d m) c e = publish-kept true d m c e
  run_action-kept (set_domain_status d st) c e = status-kept d st c e
  run_action-kept (issue_domain rec) c e = issue-kept rec c e
  run_action-kept (delegate_tld d) c e =
      kept-TldWrite s.zone c.zone name (delegate_tld-TldWrite h ctx s.zone false d c e)
  run_action-kept (create_tld t p) c e =
      kept-TldWrite s.zone c.zone name (create_tld-TldWrite h ctx s.zone false t p c e)
  run_action-kept (reserve_tld t r) c e =
      kept-TldWrite s.zone c.zone name (restrict_tld-TldWrite h ctx s.zone false true t r c e)
  run_action-kept (block_tld t r) c e =
      kept-TldWrite s.zone c.zone name (restrict_tld-TldWrite h ctx s.zone false false t r c e)
  run_action-kept (update_tld t x y n) c e =
      kept-TldWrite s.zone c.zone name (update_tld-TldWrite h ctx s.zone false t x y n c e)
  run_action-kept (set_tld_status t st) c e =
      kept-TldWrite s.zone c.zone name (set_tld_status-TldWrite h ctx s.zone false t st c e)
  run_action-kept (update_registry_pointer t x) c e =
      kept-TldWrite s.zone c.zone name
        (update_registry_pointer-TldWrite h ctx s.zone s.registries actor t x c e)

module _ (h : Host) where
  -- A revoked domain record is still there, unchanged, after any accepted mutation whose actor is not
  -- the root key of the zone.
  pub IsRevoked-stays :
      (io : Io) (req : MutationRequest) (ctx : MutationContext) (s s' : RegistryStore)
      (event : AuditRecord) (name : Text) (rec : DomainRecord)
      → apply h io req ctx s ≡ (ok event, s')
      → req.actor_public_key ≢ s.zone.root_public_key
      → IsRevoked s.zone name rec
      → IsRevoked s'.zone name rec
  unfolding apply_action
  IsRevoked-stays io req ctx s s' event name rec e other r =
      let a = apply-IsApplied h io req ctx s s' event e in
      let actor = req.actor_public_key in
      let plain : text_eq actor s.zone.root_public_key ≡ false =
        ground (arith, text_eq_iff req.actor_public_key s.zone.root_public_key) in
      let acted = rw plain at a.prepared.acted in
      let kept = run_action-kept h ctx s actor name rec r req.action a.prepared.change acted in
      let z = zone_after h req ctx s s' a in
      (
        subst (λ (x : RootZone). get name x.domains ≡ some rec) (sym z)
            (unfold advance in kept ∙ r.0),
        r.1,
      )
