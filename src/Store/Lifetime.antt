-- ===== src/Store/Lifetime.antt =====
-- Replays over the life of a registry of crates/federate-mutation/src/store.rs, restarts included.
use federate.Base.{
  BTreeMap, Text, Bytes, List, true, get, contains_key, get-insert, get-insert_self, text_eq_iff,
  ◌≤◌, ◌≡◌, refl, sym, ap, ◌∙◌, subst, arith, inl, inr,
}
use federate.Core.{FederateError, ok, err}
use federate.Root.{RootZone}
use federate.Mutation.{MutationRequest, AuditRecord, target_key}
use federate.Host.{Host}
use federate.Store.{MutationContext}
use federate.Store.Database.{Database}
use federate.Store.Prepare.{RegistryStore, target_version}
use federate.Store.Apply.{Io, apply}
use federate.Store.Progress.{apply-IsApplied}
use federate.Store.Replay.{IsReplay, known_refused, stale_refused}
use federate.Store.Open.{RegistryMap, init}
use federate.Store.Restored.{open_store-IsOpened}
use federate.Store.Life.{
  IsDurable, Step, Later, accepted, blocks_stored, manifest_stored, restarted, now, after,
  store_blocks-SameHistory, store_manifest-SameHistory, Step-IsDurable, Later-IsDurable,
  init-IsDurable,
}

module _ (h : Host) where
  -- The id of a request is remembered, and its target is at its version or above.
  record Knows (req : MutationRequest) (s : RegistryStore) : Type 0 where
    id : contains_key req.mutation_id s.applied ≡ true
    version : req.target_version ≤ target_version s (target_key req.action)

  Knows-refuses :
      (req : MutationRequest) (s : RegistryStore)
      → Knows req s
      → (io : Io) (req' : MutationRequest) (ctx : MutationContext) → IsReplay h req req'
      → (e : FederateError) × (apply h io req' ctx s ≡ (err e, s))
  Knows-refuses req s k io req' ctx (inl same) = known_refused h io req' ctx s (rw same k.id)
  Knows-refuses req s k io req' ctx (inr (key, old)) =
      let v = k.version in stale_refused h io req' ctx s (rw key (omega arith))

  same-Knows :
      (req : MutationRequest) (s s' : RegistryStore)
      → get req.mutation_id s'.applied ≡ get req.mutation_id s.applied
      → get (target_key req.action) s'.target_versions
        ≡ get (target_key req.action) s.target_versions
      → Knows req s
      → Knows req s'
  unfolding target_version
  same-Knows req s s' applied versions k = record {
    id = rw applied k.id;
    version = rw versions k.version;
  }

  apply-Knows :
      (io : Io) (new : MutationRequest) (ctx : MutationContext) (s s' : RegistryStore)
      (event : AuditRecord) (req : MutationRequest)
      → apply h io new ctx s ≡ (ok event, s')
      → Knows req s
      → Knows req s'
  unfolding target_version
  apply-Knows io new ctx s s' event req q k =
      let a = apply-IsApplied h io new ctx s s' event q in
      let newer = a.prepared.admitted.advances in
      let was = k.version in
      record {
        id = rw (a.committed.applied, get-insert) (let i = k.id in ground arith);
        version =
            rw (a.committed.versions, get-insert)
              (ground
                (arith, newer, was, text_eq_iff (target_key new.action) (target_key req.action)));
      }

  Step-Knows :
      (req : MutationRequest) (s s' : RegistryStore)
      → Step h s s'
      → IsDurable s
      → Knows req s
      → Knows req s'
  Step-Knows req s s' (accepted io new ctx event _ _ q) d k =
      apply-Knows io new ctx s s' event req q k
  Step-Knows req s s' (blocks_stored blocks _ _ q) d k =
      let t = store_blocks-SameHistory h blocks s in
      subst (Knows req) (sym q) (
        same-Knows req s _ (ap (get req.mutation_id) t.applied)
          (ap (get (target_key req.action)) t.versions) k)
  Step-Knows req s s' (manifest_stored io hash bytes _ _ q) d k =
      let t = store_manifest-SameHistory h io hash bytes s in
      subst (Knows req) (sym q) (
        same-Knows req s _ (ap (get req.mutation_id) t.applied)
          (ap (get (target_key req.action)) t.versions) k)
  Step-Knows req s s' (restarted disk key _ _ there q) d k =
      let o = open_store-IsOpened h s.backend disk key s' d.keyed there q in
      same-Knows req s s'
        (sym (o.mirrored.mutations req.mutation_id)
          ∙ ap (λ (b : Database). get req.mutation_id b.mutations) o.backend
          ∙ d.mirrored.mutations req.mutation_id)
        (sym (o.mirrored.versions (target_key req.action))
          ∙ ap (λ (b : Database). get (target_key req.action) b.target_versions) o.backend
          ∙ d.mirrored.versions (target_key req.action))
        k

  Later-Knows :
      (req : MutationRequest) (s s' : RegistryStore)
      → Later h s s'
      → IsDurable s
      → Knows req s
      → Knows req s'
  Later-Knows req s s' (now _ e) d k = subst (Knows req) (sym e) k
  Later-Knows req s s' (after m _ before step) d k =
      Step-Knows req m s' step (Later-IsDurable h s m before d) (Later-Knows req s m before d k)

  accepted-Knows :
      (io : Io) (req : MutationRequest) (ctx : MutationContext) (s s' : RegistryStore)
      (event : AuditRecord)
      → apply h io req ctx s ≡ (ok event, s')
      → Knows req s'
  unfolding target_version
  accepted-Knows io req ctx s s' event q =
      let a = apply-IsApplied h io req ctx s s' event q in
      record {
        id = rw (a.committed.applied, get-insert_self) refl;
        version = rw (a.committed.versions, get-insert_self) (omega arith);
      }

  -- From the first boot on, through accepted mutations, ingested content and restarts from the database:
  -- once a mutation was accepted, every request with its id, and every request for its target whose
  -- version is not above its own, gets an error and leaves the registry as it is.
  pub lifetime_replay_refused :
      (first : Io) (zone : RootZone) (registries : RegistryMap) (manifests : BTreeMap Bytes)
      (blocks : List (Text × Bytes)) (booted s s1 s2 : RegistryStore) (io : Io)
      (req : MutationRequest) (ctx : MutationContext) (event : AuditRecord)
      → init h first zone registries manifests blocks ≡ ok booted
      → Later h booted s
      → apply h io req ctx s ≡ (ok event, s1)
      → Later h s1 s2
      → (io' : Io) (req' : MutationRequest) (ctx' : MutationContext) → IsReplay h req req'
      → (e : FederateError) × (apply h io' req' ctx' s2 ≡ (err e, s2))
  lifetime_replay_refused first zone registries manifests blocks booted s s1 s2 io req ctx event
        start before q later io' req' ctx' replay =
      let d =
        Later-IsDurable h booted s before
          (init-IsDurable h first zone registries manifests blocks booted start) in
      let d1 = Step-IsDurable h s s1 (accepted io req ctx event s s1 q) d in
      Knows-refuses req s2 (Later-Knows req s1 s2 later d1 (accepted-Knows io req ctx s s1 event q))
        io' req' ctx' replay
