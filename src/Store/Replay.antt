-- ===== src/Store/Replay.antt =====
-- Replays and rollbacks are refused, and a refusal changes nothing.
use federate.Base.{
  true, get, contains_key, get-insert_self, ◌≤◌, ◌≡◌, refl, sym, ap, ◌∙◌, arith, ◌⊎◌, inl, inr,
  false≢true,
}
use federate.Core.{FederateError, Result, ok, err}
use federate.Mutation.{MutationRequest, AuditRecord, target_key}
use federate.Host.{Host}
use federate.Store.{MutationContext}
use federate.Store.Prepare.{RegistryStore, Prepared, target_version, or_zero, prepare}
use federate.Store.Apply.{Io, apply, run_prepared}
use federate.Store.Inversion.{prepare-IsPrepared}
use federate.Store.Progress.{apply-IsApplied}

module _ (h : Host) where
  unprepared :
      (io : Io) (req : MutationRequest) (ctx : MutationContext) (s : RegistryStore)
      (r : Result Prepared)
      → prepare h s req ctx ≡ r
      → ((p : Prepared) → prepare h s req ctx ≡ ok p → ⊥)
      → (e : FederateError) × (run_prepared h io req ctx s r ≡ (err e, s))
  unprepared io req ctx s (err e) q refuse = (e, refl)
  unprepared io req ctx s (ok p) q refuse = absurd (refuse p q)

  -- A request that cannot be prepared is answered by an error, and the registry stays as it was.
  pub apply_refused :
      (io : Io) (req : MutationRequest) (ctx : MutationContext) (s : RegistryStore)
      → ((p : Prepared) → prepare h s req ctx ≡ ok p → ⊥)
      → (e : FederateError) × (apply h io req ctx s ≡ (err e, s))
  unfolding apply
  apply_refused io req ctx s refuse = unprepared io req ctx s (prepare h s req ctx) refl refuse

  pub known_refused :
      (io : Io) (req : MutationRequest) (ctx : MutationContext) (s : RegistryStore)
      → contains_key req.mutation_id s.applied ≡ true
      → (e : FederateError) × (apply h io req ctx s ≡ (err e, s))
  known_refused io req ctx s known = apply_refused io req ctx s (λ p q.
      let a = prepare-IsPrepared h s req ctx p q in false≢true (sym a.admitted.fresh ∙ known))

  pub stale_refused :
      (io : Io) (req : MutationRequest) (ctx : MutationContext) (s : RegistryStore)
      → req.target_version ≤ target_version s (target_key req.action)
      → (e : FederateError) × (apply h io req ctx s ≡ (err e, s))
  stale_refused io req ctx s old = apply_refused io req ctx s (λ p q.
      let a = prepare-IsPrepared h s req ctx p q in let f = a.admitted.advances in omega arith)

  -- The requests that an accepted one rules out: its id, or its target at a version not above it.
  abbrev pub IsReplay : MutationRequest → MutationRequest → Type 0
  IsReplay req req' =
      (req'.mutation_id ≡ req.mutation_id)
      ⊎ ((target_key req'.action ≡ target_key req.action)
          × (req'.target_version ≤ req.target_version))

  -- After a mutation was accepted, every request with its id, and every request for its target whose
  -- version is not above its own, gets an error and leaves the registry as it is: from any actor, at
  -- any time, whatever disk and database do.
  replay_refused :
      (io : Io) (req : MutationRequest) (ctx : MutationContext) (s s' : RegistryStore)
      (event : AuditRecord)
      → apply h io req ctx s ≡ (ok event, s')
      → (io' : Io) (req' : MutationRequest) (ctx' : MutationContext) → IsReplay req req'
      → (e : FederateError) × (apply h io' req' ctx' s' ≡ (err e, s'))
  unfolding target_version
  replay_refused io req ctx s s' event q io' req' ctx' (inl same) =
      let a = apply-IsApplied h io req ctx s s' event q in
      known_refused io' req' ctx' s' (rw (same, a.committed.applied, get-insert_self) refl)
  replay_refused io req ctx s s' event q io' req' ctx' (inr (key, old)) =
      let a = apply-IsApplied h io req ctx s s' event q in
      let now : or_zero (get (target_key req.action) s'.target_versions) ≡ req.target_version =
        rw a.committed.versions
          (ap or_zero (get-insert_self (target_key req.action) req.target_version _)) in
      stale_refused io' req' ctx' s' (rw key (omega arith))
