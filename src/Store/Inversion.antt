-- ===== src/Store/Inversion.antt =====
-- What a successful mutation has gone through, step by step.
use federate.Base.{false, [], ◌∷◌, ◌++◌, insert, contains_key, ◌<◌, ◌≡◌, arith}
use federate.Core.{ok, >>=-eq-ok}
use federate.Mutation.{MutationRequest, AuditRecord, target_key}
use federate.Host.{Host}
use federate.Identity.{node_id}
use federate.Signing.Zones
use federate.Signing.Requests
use federate.Store.{MutationContext, Change}
use federate.Store.Prepare.{
  RegistryStore, Prepared, target_version, admit, apply_action, advance, prepare,
}
use federate.Store.Apply.{
  Io, write_registry, remember, applied_mutation, write_snapshot, finish, persist, commit,
}

module _ (h : Host) where
  pub record Admitted (s : RegistryStore) (req : MutationRequest) (ctx : MutationContext)
      : Type 0 where
    pub verified : Requests.verify h req ≡ ok tt
    pub timely : Requests.check_age h req ctx.now ≡ ok tt
    pub fresh : contains_key req.mutation_id s.applied ≡ false
    pub advances : target_version s (target_key req.action) < req.target_version

  pub admit-Admitted :
      (s : RegistryStore) (req : MutationRequest) (ctx : MutationContext)
      → admit h s req ctx ≡ ok tt
      → Admitted s req ctx
  unfolding admit
  admit-Admitted s req ctx e = ground arith

  pub record IsPrepared (s : RegistryStore) (req : MutationRequest) (ctx : MutationContext)
      (p : Prepared) : Type 0 where
    pub admitted : Admitted s req ctx
    pub change : Change
    pub acted : apply_action h s req ctx ≡ ok change
    pub signed : Zones.signed h ctx.root (advance h req ctx change) ≡ ok p.zone
    pub verified : Zones.verify h p.zone (node_id h ctx.root) ≡ ok tt
    pub registry : p.new_registry ≡ change.new_registry

  pub prepare-IsPrepared :
      (s : RegistryStore) (req : MutationRequest) (ctx : MutationContext) (p : Prepared)
      → prepare h s req ctx ≡ ok p
      → IsPrepared s req ctx p
  unfolding prepare
  prepare-IsPrepared s req ctx p e =
      let (u, ad, e1) = >>=-eq-ok (admit h s req ctx) _ e in
      let (c, act, e2) = >>=-eq-ok (apply_action h s req ctx) _ e1 in
      record {
        admitted = admit-Admitted s req ctx ad;
        change = c;
        acted = act;
        signed = ground arith;
        verified = ground arith;
        registry = ground arith;
      }

  -- The effect of a commit that returned the event.
  pub record IsCommitted (req : MutationRequest) (ctx : MutationContext) (p : Prepared)
      (s s' : RegistryStore) : Type 0 where
    pub zone : s'.zone ≡ p.zone
    pub versions :
        s'.target_versions ≡ insert (target_key req.action) req.target_version s.target_versions
    pub applied : s'.applied ≡ insert req.mutation_id (applied_mutation h req ctx p) s.applied
    pub audit : s'.audit ≡ s.audit ++ p.event ∷ []

  pub commit-IsCommitted :
      (io : Io) (req : MutationRequest) (ctx : MutationContext) (p : Prepared)
      (s s' : RegistryStore) (event : AuditRecord)
      → commit h io req ctx p s ≡ (ok event, s')
      → IsCommitted req ctx p s s'
  unfolding commit write_registry remember persist finish write_snapshot
  commit-IsCommitted io req ctx p s s' event e = ground arith
