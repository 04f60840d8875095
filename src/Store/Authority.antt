-- ===== src/Store/Authority.antt =====
-- Who may change what: an accepted action was signed by a key that the current zone entitles to it.
use federate.Base.{
  Text, Bytes, some, Bool, true, false, get, text_eq, text_eq_iff, to_ascii_lowercase, ◌≡◌, sym,
  ◌∙◌, arith, ◌⊎◌, inl, inr, Bool-cases,
}
use federate.Core.{ok, guard, >>=-eq-ok}
use federate.Naming
use federate.Naming.{FederateDomain, fqdn}
use federate.Naming.Record.{DomainRecord}
use federate.Root.{RootZone, TldRecord, lookup_tld, signature_algorithm}
use federate.Mutation.{
  MutationAction, publish_site, update_domain_manifest, set_domain_status, issue_domain,
  delegate_tld, update_tld, create_tld, reserve_tld, block_tld, set_tld_status,
  update_registry_pointer, MutationRequest, AuditRecord, ActorRole,
}
use federate.Host.{Host}
use federate.Identity.{verify_signature, check_signature_sound}
use federate.Signing.Requests
use federate.Store.{MutationContext, Change}
use federate.Store.Prepare.{RegistryStore, run_action, apply_action}
use federate.Store.Apply.{Io, apply}
use federate.Store.Progress.{apply-IsApplied}
use federate.Store.Actions.Domains
use federate.Store.Actions.Tlds
use federate.Store.Actions.DomainWrites.{
  publish-IsPublished, set_domain_status-IsStatusChange, issue_domain-IsIssued, ok_or-some,
}

-- The key operates the TLD of this name.
abbrev pub Operates : RootZone → Text → Text → Type 0
Operates z actor t =
    (rec : TldRecord) × (get t z.tlds ≡ some rec) × (rec.operator_public_key ≡ actor)

-- The key owns the domain, if there is one.
abbrev pub OwnsIfThere : RootZone → Text → Text → Type 0
OwnsIfThere z actor name =
    (rec : DomainRecord) → get name z.domains ≡ some rec → rec.owner_public_key ≡ actor

-- Which keys the zone entitles to an action.
abbrev pub Entitled : RootZone → Text → MutationAction → Type 0
Entitled z actor (publish_site d _) =
    (dom : FederateDomain) × (Naming.parse d ≡ ok dom) × OwnsIfThere z actor (fqdn dom)
Entitled z actor (update_domain_manifest d _) =
    (dom : FederateDomain) × (Naming.parse d ≡ ok dom) × OwnsIfThere z actor (fqdn dom)
Entitled z actor (set_domain_status d _) =
    (actor ≡ z.root_public_key)
    ⊎ ((rec : DomainRecord) × (get (to_ascii_lowercase d) z.domains ≡ some rec)
        × Operates z actor rec.tld)
Entitled z actor (issue_domain rec) = Operates z actor rec.tld
Entitled z actor (update_registry_pointer t _) = Operates z actor (to_ascii_lowercase t)
Entitled z actor _ = actor ≡ z.root_public_key

root_of_guard : (actor key : Text) {b : Bool} → text_eq actor key ≡ b → b ≡ true → actor ≡ key
root_of_guard actor key e t = (text_eq_iff actor key).0 (e ∙ t)

existing-OwnsIfThere :
    (z : RootZone) (actor name : Text) (is_update : Bool)
    → Domains.check_existing actor name is_update (get name z.domains) ≡ ok tt
    → OwnsIfThere z actor name
unfolding Domains.check_existing
existing-OwnsIfThere z actor name is_update e rec found =
    (text_eq_iff rec.owner_public_key actor).0 (ground arith)

status_role-Entitled :
    (z : RootZone) (actor : Text) (rec : TldRecord) (r : ActorRole)
    → Domains.status_role (text_eq actor z.root_public_key) actor rec ≡ ok r
    → (actor ≡ z.root_public_key) ⊎ (rec.operator_public_key ≡ actor)
unfolding Domains.status_role
status_role-Entitled z actor rec r e = elim (Bool-cases (text_eq actor z.root_public_key)) [
  | inl root ↦ inl ((text_eq_iff actor z.root_public_key).0 root)
  | inr other ↦ inr (sym ((text_eq_iff actor rec.operator_public_key).0 (ground arith)))
]

module _ (h : Host) (ctx : MutationContext) (s : RegistryStore) (actor : Text) where
  abbrev is_root : Bool
  is_root = text_eq actor s.zone.root_public_key

  as_root : (b : Bool) → is_root ≡ true → actor ≡ s.zone.root_public_key
  as_root b e = (text_eq_iff actor s.zone.root_public_key).0 e

  publish-Entitled :
      (is_update : Bool) (d m : Text) (c : Change)
      → Domains.publish h ctx s.manifests s.zone actor is_update d m ≡ ok c
      → (dom : FederateDomain) × (Naming.parse d ≡ ok dom) × OwnsIfThere s.zone actor (fqdn dom)
  publish-Entitled is_update d m c e =
      let p = publish-IsPublished h ctx s.zone s.manifests actor is_update d m c e in
      (p.d, p.parsed, existing-OwnsIfThere s.zone actor (fqdn p.d) is_update p.existing)

  set_domain_status-Entitled :
      (d : Text) (st : _) (c : Change)
      → Domains.set_domain_status h ctx s.zone actor is_root d st ≡ ok c
      → Entitled s.zone actor (set_domain_status d st)
  unfolding lookup_tld
  set_domain_status-Entitled d st c e =
      let p = set_domain_status-IsStatusChange h ctx s.zone actor is_root d st c e in
      elim (status_role-Entitled s.zone actor p.tld_rec c.role p.role) [
        | inl r ↦ inl r
        | inr o ↦ inr (p.old, p.found, (p.tld_rec, p.tld_found, o))
      ]

  issue_domain-Entitled :
      (rec : DomainRecord) (c : Change)
      → Domains.issue_domain h s.zone actor is_root rec ≡ ok c
      → Operates s.zone actor rec.tld
  unfolding lookup_tld
  issue_domain-Entitled rec c e =
      let p = issue_domain-IsIssued h ctx s.zone actor is_root rec c e in
      (p.tld_rec, p.tld_found, sym ((text_eq_iff actor p.tld_rec.operator_public_key).0 p.operator))

  pointer-Entitled :
      (t x : Text) (c : Change)
      → Tlds.update_registry_pointer h ctx s.registries s.zone actor t x ≡ ok c
      → Operates s.zone actor (to_ascii_lowercase t)
  unfolding Tlds.update_registry_pointer
  pointer-Entitled t x c e =
      let name = to_ascii_lowercase t in
      let (rec, found, e1) = >>=-eq-ok (Domains.ok_or (get name s.zone.tlds) _) _ e in
      (
        rec,
        ok_or-some (get name s.zone.tlds) _ found,
        sym ((text_eq_iff actor rec.operator_public_key).0 (ground arith)),
      )

  pub run_action-Entitled :
      (a : MutationAction) (c : Change)
      → run_action h s ctx actor is_root a ≡ ok c
      → Entitled s.zone actor a
  unfolding run_action Tlds.delegate_tld Tlds.create_tld Tlds.restrict_tld Tlds.update_tld
      Tlds.set_tld_status
  run_action-Entitled (publish_site d m) c e = publish-Entitled false d m c e
  run_action-Entitled (update_domain_manifest d m) c e = publish-Entitled true d m c e
  run_action-Entitled (set_domain_status d st) c e = set_domain_status-Entitled d st c e
  run_action-Entitled (issue_domain rec) c e = issue_domain-Entitled rec c e
  run_action-Entitled (delegate_tld d) c e = as_root true (ground arith)
  run_action-Entitled (create_tld t p) c e = as_root true (ground arith)
  run_action-Entitled (reserve_tld t r) c e = as_root true (ground arith)
  run_action-Entitled (block_tld t r) c e = as_root true (ground arith)
  run_action-Entitled (update_tld t x y n) c e = as_root true (ground arith)
  run_action-Entitled (set_tld_status t st) c e = as_root true (ground arith)
  run_action-Entitled (update_registry_pointer t x) c e = pointer-Entitled t x c e

module _ (h : Host) where
  -- The envelope's signature verifies under the actor key, over the bytes of the envelope.
  abbrev pub SignedBy : MutationRequest → Type 0
  SignedBy req =
      (b : Bytes) × (sig : Text) × (Requests.signable_bytes h req ≡ ok b)
      × (req.signature ≡ some sig)
      × (verify_signature h req.actor_public_key b sig ≡ true)

  verify-SignedBy : (req : MutationRequest) → Requests.verify h req ≡ ok tt → SignedBy req
  unfolding Requests.verify
  verify-SignedBy req e =
      let (u, g, e1) =
        >>=-eq-ok (guard (text_eq req.signature_algorithm signature_algorithm) _) _ e in
      let (id, i, e2) = >>=-eq-ok (Requests.compute_id h req) _ e1 in
      let (u', g', e3) = >>=-eq-ok (guard (text_eq req.mutation_id id) _) _ e2 in
      check_signature_sound h req.actor_public_key (Requests.signable_bytes h req) req.signature _ _
        e3

  -- An accepted mutation carries a signature that verifies under its actor key, and the zone before
  -- the mutation entitles that key to the action.
  pub apply_authorized :
      (io : Io) (req : MutationRequest) (ctx : MutationContext) (s s' : RegistryStore)
      (event : AuditRecord)
      → apply h io req ctx s ≡ (ok event, s')
      → SignedBy req × Entitled s.zone req.actor_public_key req.action
  unfolding apply_action
  apply_authorized io req ctx s s' event e =
      let a = apply-IsApplied h io req ctx s s' event e in
      (
        verify-SignedBy req a.prepared.admitted.verified,
        run_action-Entitled h ctx s req.actor_public_key req.action a.prepared.change
            a.prepared.acted,
      )
