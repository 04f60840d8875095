-- ===== src/Store/Validity.antt =====
-- The zone of the registry stays structurally valid.
use federate.Base.{◌≡◌, sym, arith, inl, inr, subst}
use federate.Core.{ok}
use federate.Root.{RootZone, validate}
use federate.Root.Validity.{validate_domains-insert, validate_domains-insert_tld}
use federate.Mutation.{MutationRequest, AuditRecord}
use federate.Host.{Host}
use federate.Store.{MutationContext}
use federate.Store.Prepare.{RegistryStore, apply_action, advance}
use federate.Store.Apply.{Io, apply}
use federate.Store.Progress.{apply-IsApplied, zone_after}
use federate.Store.Actions.Writes.{IsWrite}
use federate.Store.Actions.Frame.{run_action-IsWrite}

pub IsWrite-valid : (z z' : RootZone) → IsWrite z z' → validate z ≡ ok tt → validate z' ≡ ok tt
unfolding validate
IsWrite-valid z z' (inl w) v =
    rw w.wrote (ground (arith, validate_domains-insert z.tlds w.key w.rec z.domains w.known))
IsWrite-valid z z' (inr w) v =
    rw w.wrote (ground (arith, validate_domains-insert_tld w.key w.rec z.tlds z.domains))

module _ (h : Host) where
  -- If every domain of the zone had its TLD before, every domain of the new zone has.
  pub apply-valid :
      (io : Io) (req : MutationRequest) (ctx : MutationContext) (s s' : RegistryStore)
      (event : AuditRecord)
      → apply h io req ctx s ≡ (ok event, s')
      → validate s.zone ≡ ok tt
      → validate s'.zone ≡ ok tt
  unfolding apply_action
  apply-valid io req ctx s s' event e v =
      let a = apply-IsApplied h io req ctx s s' event e in
      let w = run_action-IsWrite h ctx s _ _ req.action a.prepared.change a.prepared.acted in
      let z = zone_after h req ctx s s' a in
      subst (λ (x : RootZone). validate x ≡ ok tt) (sym z)
        (unfold validate advance in IsWrite-valid s.zone a.prepared.change.zone w v)
