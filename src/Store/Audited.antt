-- ===== src/Store/Audited.antt =====
-- The audit trail: what an accepted mutation records about itself.
use federate.Base.{Text, [], ◌∷◌, ◌++◌, ◌∙◌, ◌≡◌, refl, sym, ap, subst, arith}
use federate.Core.{Result, ok, err, >>=-eq-ok}
use federate.Mutation.{MutationRequest, AuditRecord, name, target}
use federate.Host.{Host, SignsCorrectly}
use federate.Identity.{node_id, NodeIdentity}
use federate.Signing.Audits
use federate.Signing.Zones
use federate.Signing.AuditTrail.{verify-finalize}
use federate.Store.{MutationContext, Change}
use federate.Store.Prepare.{
  RegistryStore, Prepared, prepare, admit, apply_action, state_hash, advance, audit_event,
}
use federate.Store.Apply.{
  Io, apply, commit, run_prepared, write_registry, remember, persist, finish, write_snapshot,
}
use federate.Store.Inversion.{commit-IsCommitted}

module _ (h : Host) where
  -- The event names the mutation, its actor, its action and its target, and links the hash of the old
  -- state to the hash of the new one.
  pub record Records (req : MutationRequest) (s s' : RegistryStore) (event : AuditRecord)
      : Type 0 where
    pub mutation : event.mutation_id ≡ req.mutation_id
    pub actor : event.actor_public_key ≡ req.actor_public_key
    pub action : event.action ≡ name req.action
    pub target_id : event.target_id ≡ (target req.action).1
    pub previous : state_hash h s.zone ≡ ok event.previous_state_hash
    pub new : state_hash h s'.zone ≡ ok event.new_state_hash

  finalize-fields :
      (e e' : AuditRecord) (i : NodeIdentity)
      → Audits.finalize h e i ≡ ok e'
      → e' ≡ record e { event_id = e'.event_id; signature = e'.signature }
  unfolding Audits.finalize
  finalize-fields e e' i q = ground arith

  module _ (req : MutationRequest) (ctx : MutationContext) (s : RegistryStore) where
    -- How `prepare` made its event.
    record IsFinalized (p : Prepared) : Type 0 where
      change : Change
      previous : Text
      new : Text
      hashed_before : state_hash h s.zone ≡ ok previous
      hashed_after : state_hash h p.zone ≡ ok new
      finalized :
          Audits.finalize h (audit_event h req ctx change.role previous new) ctx.root ≡ ok p.event

    prepare-IsFinalized : (p : Prepared) → prepare h s req ctx ≡ ok p → IsFinalized p
    unfolding prepare
    prepare-IsFinalized p e =
        let (u, ad, e1) = >>=-eq-ok (admit h s req ctx) _ e in
        let (c, act, e2) = >>=-eq-ok (apply_action h s req ctx) _ e1 in
        let (previous, before, e3) = >>=-eq-ok (state_hash h s.zone) _ e2 in
        let (zone, signed, e4) = >>=-eq-ok (Zones.signed h ctx.root (advance h req ctx c)) _ e3 in
        let (u', verified, e5) = >>=-eq-ok (Zones.verify h zone (node_id h ctx.root)) _ e4 in
        let (new, hashed, e6) = >>=-eq-ok (state_hash h zone) _ e5 in
        let (event, final, e7) =
          >>=-eq-ok (Audits.finalize h (audit_event h req ctx c.role previous new) ctx.root) _ e6 in
        let same_zone : zone ≡ p.zone = cc in
        let same_event : event ≡ p.event = cc in
        record {
          change = c;
          previous = previous;
          new = new;
          hashed_before = before;
          hashed_after = ap (state_hash h) (sym same_zone) ∙ hashed;
          finalized = final ∙ ap ok same_event;
        }

    finalized-Records :
        (p : Prepared) (s' : RegistryStore)
        → s'.zone ≡ p.zone
        → IsFinalized p
        → Records req s s' p.event
    unfolding audit_event
    finalized-Records p s' z f =
        let e = finalize-fields _ p.event ctx.root f.finalized in
        record {
          mutation = ap (λ (x : AuditRecord). x.mutation_id) e;
          actor = ap (λ (x : AuditRecord). x.actor_public_key) e;
          action = ap (λ (x : AuditRecord). x.action) e;
          target_id = ap (λ (x : AuditRecord). x.target_id) e;
          previous = f.hashed_before ∙ ap (λ (x : AuditRecord). ok x.previous_state_hash) (sym e);
          new =
              ap (state_hash h) z
              ∙ (f.hashed_after ∙ ap (λ (x : AuditRecord). ok x.new_state_hash) (sym e));
        }

  commit-event :
      (io : Io) (req : MutationRequest) (ctx : MutationContext) (p : Prepared)
      (s s' : RegistryStore) (event : AuditRecord)
      → commit h io req ctx p s ≡ (ok event, s')
      → p.event ≡ event
  unfolding commit write_registry remember persist finish write_snapshot
  commit-event io req ctx p s s' event e = ground arith

  -- The event is signed by the root, tells what happened, and is the newest of the trail.
  pub record IsAudited (req : MutationRequest) (ctx : MutationContext) (s s' : RegistryStore)
      (event : AuditRecord) : Type 0 where
    pub records : Records req s s' event
    pub signed : Audits.verify h event (node_id h ctx.root) ≡ ok tt
    pub appended : s'.audit ≡ s.audit ++ event ∷ []

  module _ (laws : SignsCorrectly h) where
    prepared-IsAudited :
        (io : Io) (req : MutationRequest) (ctx : MutationContext) (s s' : RegistryStore)
        (event : AuditRecord) (r : Result Prepared)
        → prepare h s req ctx ≡ r
        → run_prepared h io req ctx s r ≡ (ok event, s')
        → IsAudited req ctx s s' event
    prepared-IsAudited io req ctx s s' event (err e) q e' = cc
    prepared-IsAudited io req ctx s s' event (ok p) q e =
        let f = prepare-IsFinalized req ctx s p q in
        let c = commit-IsCommitted h io req ctx p s s' event e in
        subst (IsAudited req ctx s s') (commit-event io req ctx p s s' event e) (record {
          records = finalized-Records req ctx s p s' c.zone f;
          signed = verify-finalize h laws ctx.root _ p.event f.finalized;
          appended = c.audit;
        })

    -- An accepted mutation returns an audit event that verifies under the root key, that is appended
    -- to the trail, and that names the mutation, its actor, action and target and the hashes of the
    -- states before and after.
    pub apply-IsAudited :
        (io : Io) (req : MutationRequest) (ctx : MutationContext) (s s' : RegistryStore)
        (event : AuditRecord)
        → apply h io req ctx s ≡ (ok event, s')
        → IsAudited req ctx s s' event
    unfolding apply
    apply-IsAudited io req ctx s s' event e =
        prepared-IsAudited io req ctx s s' event (prepare h s req ctx) refl e
