-- ===== src/Store/Progress.antt =====
-- An accepted mutation advances the registry: versions grow, the zone verifies, nothing of the
-- history is lost.
use federate.Base.{
  ℕ, Text, true, false, contains_key, get-insert, get-insert_self, text_eq_iff, ◌<◌, ◌≡◌, ◌≢◌, refl,
  sym, ap, arith, subst,
}
use federate.Core.{Result, ok, err}
use federate.Root.{RootZone}
use federate.Mutation.{MutationRequest, AuditRecord, target_key}
use federate.Host.{Host}
use federate.Identity.{node_id, NodeIdentity}
use federate.Signing.Zones
use federate.Signing.Requests
use federate.Store.{MutationContext, Change}
use federate.Store.Prepare.{
  RegistryStore, Prepared, target_version, or_zero, next_version, u64_max, prepare, apply_action,
  advance,
}
use federate.Store.Apply.{Io, apply, run_prepared}
use federate.Store.Inversion.{IsPrepared, IsCommitted, prepare-IsPrepared, commit-IsCommitted}
use federate.Store.Actions.Writes.{IsWrite}
use federate.Store.Actions.Frame.{Frame, IsWrite-Frame, run_action-IsWrite}

module _ (h : Host) where
  pub record IsApplied (req : MutationRequest) (ctx : MutationContext) (s s' : RegistryStore)
      : Type 0 where
    pub p : Prepared
    pub prepared : IsPrepared h s req ctx p
    pub committed : IsCommitted h req ctx p s s'

  run_prepared-IsApplied :
      (io : Io) (req : MutationRequest) (ctx : MutationContext) (s s' : RegistryStore)
      (event : AuditRecord) (r : Result Prepared)
      → prepare h s req ctx ≡ r
      → run_prepared h io req ctx s r ≡ (ok event, s')
      → IsApplied req ctx s s'
  run_prepared-IsApplied io req ctx s s' event (err e) q h' = cc
  run_prepared-IsApplied io req ctx s s' event (ok p) q h' = record {
    p = p;
    prepared = prepare-IsPrepared h s req ctx p q;
    committed = commit-IsCommitted h io req ctx p s s' event h';
  }

  pub apply-IsApplied :
      (io : Io) (req : MutationRequest) (ctx : MutationContext) (s s' : RegistryStore)
      (event : AuditRecord)
      → apply h io req ctx s ≡ (ok event, s')
      → IsApplied req ctx s s'
  unfolding apply
  apply-IsApplied io req ctx s s' event e =
      run_prepared-IsApplied io req ctx s s' event (prepare h s req ctx) refl e

  signed-version :
      (i : NodeIdentity) (z z' : RootZone)
      → Zones.signed h i z ≡ ok z'
      → z' ≡ record z { signature = z'.signature }
  unfolding Zones.signed
  signed-version i z z' e = ground arith

  pub action-IsWrite :
      (s : RegistryStore) (req : MutationRequest) (ctx : MutationContext) (c : Change)
      → apply_action h s req ctx ≡ ok c
      → IsWrite s.zone c.zone
  unfolding apply_action
  action-IsWrite s req ctx c e = run_action-IsWrite h ctx s _ _ req.action c e

  action-Frame :
      (s : RegistryStore) (req : MutationRequest) (ctx : MutationContext) (c : Change)
      → apply_action h s req ctx ≡ ok c
      → Frame s.zone c.zone
  action-Frame s req ctx c e = IsWrite-Frame s.zone c.zone (action-IsWrite s req ctx c e)

  -- The zone of the new state, as the change made it.
  pub zone_after :
      (req : MutationRequest) (ctx : MutationContext) (s s' : RegistryStore)
      (a : IsApplied req ctx s s')
      → s'.zone ≡ record (advance h req ctx a.prepared.change) { signature = s'.zone.signature }
  zone_after req ctx s s' a =
      let e =
        signed-version ctx.root (advance h req ctx a.prepared.change) a.p.zone a.prepared.signed in
      let z = a.committed.zone in cc

  next_version-lt : (v : ℕ) (now : _) → v < u64_max → v < next_version v now
  unfolding next_version
  next_version-lt v now b = omega arith

  -- What a client and an operator may rely on after a mutation was accepted.
  pub record Progress (req : MutationRequest) (ctx : MutationContext) (s s' : RegistryStore)
      : Type 0 where
    pub authentic : Requests.verify h req ≡ ok tt
    pub zone_verifies : Zones.verify h s'.zone (node_id h ctx.root) ≡ ok tt
    pub newer : s.zone.root_version < s'.zone.root_version
    pub target_before : target_version s (target_key req.action) < req.target_version
    pub target_after : target_version s' (target_key req.action) ≡ req.target_version
    pub others : (k : Text) → k ≢ target_key req.action → target_version s' k ≡ target_version s k
    pub remembered : contains_key req.mutation_id s'.applied ≡ true
    pub was_new : contains_key req.mutation_id s.applied ≡ false
    pub kept : (id : Text) → contains_key id s.applied ≡ true → contains_key id s'.applied ≡ true

  IsApplied-Progress :
      (req : MutationRequest) (ctx : MutationContext) (s s' : RegistryStore)
      → s.zone.root_version < u64_max
      → IsApplied req ctx s s'
      → Progress req ctx s s'
  unfolding target_version
  IsApplied-Progress req ctx s s' b a =
      let key = target_key req.action in
      let f = action-Frame s req ctx a.prepared.change a.prepared.acted in
      let z = zone_after req ctx s s' a in
      record {
        authentic = a.prepared.admitted.verified;
        zone_verifies = rw a.committed.zone a.prepared.verified;
        newer =
            unfold advance in
            subst (λ (x : RootZone). s.zone.root_version < x.root_version) (sym z)
              (rw f.root_version (next_version-lt s.zone.root_version ctx.now b));
        target_before = a.prepared.admitted.advances;
        target_after =
            rw a.committed.versions (ap or_zero (get-insert_self key req.target_version _));
        others = λ k ne. rw a.committed.versions (
            ground
              (arith, get-insert key k req.target_version s.target_versions, text_eq_iff key k));
        remembered = rw a.committed.applied (rw get-insert_self refl);
        was_new = a.prepared.admitted.fresh;
        kept = λ id old. rw a.committed.applied (rw get-insert (ground arith));
      }

  -- An accepted mutation was verified as the actor's, and leads to a zone that verifies under the root
  -- key and has a greater version, as long as the version was below the largest u64. The version of
  -- its target grows to the one in the request, the versions of other targets stay, its id is new and
  -- is remembered, and no id is forgotten.
  pub apply-Progress :
      (io : Io) (req : MutationRequest) (ctx : MutationContext) (s s' : RegistryStore)
      (event : AuditRecord)
      → s.zone.root_version < u64_max
      → apply h io req ctx s ≡ (ok event, s')
      → Progress req ctx s s'
  apply-Progress io req ctx s s' event b e =
      IsApplied-Progress req ctx s s' b (apply-IsApplied io req ctx s s' event e)
