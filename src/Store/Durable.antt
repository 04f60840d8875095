-- ===== src/Store/Durable.antt =====
-- The steps of `apply` behind its checks, as memory and database see them.
use federate.Base.{Text, Bytes, Option, none, some, [], insert, values, ◌≡◌, refl, ap, ◌∙◌, arith}
use federate.Core.{Result, ok, err}
use federate.Mutation.{MutationRequest, AuditRecord, target_key}
use federate.Host.{Host}
use federate.Store.{MutationContext, CommitBatch}
use federate.Store.Database.{tld_table, domain_table, write_batch, commit_mutation, create_snapshot}
use federate.Store.Prepare.{RegistryStore, Prepared}
use federate.Store.Apply.{
  Io, write_registry, remember, applied_mutation, commit_batch, write_snapshot, finish, persist,
  commit, after_registry, apply, run_prepared,
}

module _ (h : Host) where
  -- The fields of the batch that the history is made of.
  pub record Describes (req : MutationRequest) (ctx : MutationContext) (p : Prepared)
      (b : CommitBatch) : Type 0 where
    pub applied : b.applied ≡ applied_mutation h req ctx p
    pub target_key : b.target_key ≡ target_key req.action
    pub target_version : b.target_version ≡ req.target_version
    pub root_version : b.root_version ≡ p.zone.root_version
    pub tlds : b.tlds ≡ values p.zone.tlds
    pub domains : b.domains ≡ values p.zone.domains

  pub commit_batch-Describes :
      (req : MutationRequest) (ctx : MutationContext) (p : Prepared) (d : Option (Text × Bytes))
      (b : CommitBatch)
      → commit_batch h req ctx p d p.zone ≡ ok b
      → Describes req ctx p b
  unfolding commit_batch
  commit_batch-Describes req ctx p d b e = ground arith

  -- The rows of the database after a commit that returned the event.
  pub record IsStored (req : MutationRequest) (ctx : MutationContext) (p : Prepared)
      (s s' : RegistryStore) : Type 0 where
    pub zone : s'.zone ≡ p.zone
    pub memory_applied :
        s'.applied ≡ insert req.mutation_id (applied_mutation h req ctx p) s.applied
    pub memory_versions :
        s'.target_versions ≡ insert (target_key req.action) req.target_version s.target_versions
    pub mutations :
        s'.backend.mutations
        ≡ insert req.mutation_id (applied_mutation h req ctx p) s.backend.mutations
    pub versions :
        s'.backend.target_versions
        ≡ insert (target_key req.action) req.target_version s.backend.target_versions
    pub current : s'.backend.current_version ≡ some p.zone.root_version
    pub tlds : s'.backend.tld_records ≡ tld_table (values p.zone.tlds) []
    pub domains : s'.backend.domain_records ≡ domain_table (values p.zone.domains) []

  pub snapshot-backend :
      (io : Io) (s s' : RegistryStore)
      → write_snapshot h io s ≡ (ok tt, s')
      → (s'.zone ≡ s.zone)
        × (s'.applied ≡ s.applied)
        × (s'.target_versions ≡ s.target_versions)
        × (s'.backend.mutations ≡ s.backend.mutations)
        × (s'.backend.target_versions ≡ s.backend.target_versions)
        × (s'.backend.current_version ≡ s.backend.current_version)
        × (s'.backend.tld_records ≡ s.backend.tld_records)
        × (s'.backend.domain_records ≡ s.backend.domain_records)
  unfolding write_snapshot create_snapshot
  snapshot-backend io s s' e = ground arith

  finish-ok :
      (io : Io) (r : Result (Unit {0})) (event ev : AuditRecord) (s s' : RegistryStore)
      → finish h io r event s ≡ (ok ev, s')
      → (r ≡ ok tt) × (write_snapshot h io s ≡ (ok tt, s'))
  unfolding finish
  finish-ok io (err e) event ev s s' q = cc
  finish-ok io (ok u) event ev s s' q = (refl, ground arith)

  committed-ok :
      (io : Io) (r : Result (Unit {0})) (b : CommitBatch) (event ev : AuditRecord)
      (s s' : RegistryStore)
      → finish h io
          (commit_mutation r b s.backend).0
          event
          (record s { backend = (commit_mutation r b s.backend).1 })
        ≡ (ok ev, s')
      → write_snapshot h io (record s { backend = write_batch b s.backend }) ≡ (ok tt, s')
  unfolding commit_mutation
  committed-ok io (err e) b event ev s s' q = absurd (unfold finish in cc)
  committed-ok io (ok u) b event ev s s' q = (finish-ok io (ok tt) event ev _ s' q).1

  persist-ok :
      (io : Io) (r : Result CommitBatch) (event ev : AuditRecord) (s s' : RegistryStore)
      → persist h io r event s ≡ (ok ev, s')
      → (b : CommitBatch) × (r ≡ ok b)
        × (write_snapshot h io (record s { backend = write_batch b s.backend }) ≡ (ok tt, s'))
  unfolding persist
  persist-ok io (err e) event ev s s' q = cc
  persist-ok io (ok b) event ev s s' q = (b, refl, committed-ok io io.commit b event ev s s' q)

  -- `write_registry` writes neither the history nor the database.
  record SameHistory (s s' : RegistryStore) : Type 0 where
    zone : s'.zone ≡ s.zone
    applied : s'.applied ≡ s.applied
    versions : s'.target_versions ≡ s.target_versions
    backend : s'.backend ≡ s.backend

  write_registry-SameHistory :
      (io : Io) (n : _) (s s' : RegistryStore) (r : _)
      → write_registry h io n s ≡ (r, s')
      → SameHistory s s'
  unfolding write_registry
  write_registry-SameHistory io none s s' r e = ground arith
  write_registry-SameHistory io (some (t, b, x)) s s' r e = ground arith

  stored :
      (req : MutationRequest) (ctx : MutationContext) (p : Prepared) (s s1 s' : RegistryStore)
      (b : CommitBatch) (io : Io)
      → SameHistory (record s { zone = p.zone }) s1
      → Describes req ctx p b
      → write_snapshot h io (record (remember h req ctx p s1) {
        backend = write_batch b (remember h req ctx p s1).backend;
      })
        ≡ (ok tt, s')
      → IsStored req ctx p s s'
  unfolding remember write_batch applied_mutation
  stored req ctx p s s1 s' b io same d w =
      let f = snapshot-backend io _ s' w in
      let e0 = d.applied in
      let e1 = same.backend in
      record {
        zone = f.0 ∙ same.zone;
        memory_applied = f.1 ∙ ap (insert _ _) same.applied;
        memory_versions = f.2 ∙ ap (insert _ _) same.versions;
        mutations = f.3 ∙ rw (d.applied, same.backend) refl;
        versions = f.4 ∙ rw (d.target_key, d.target_version, same.backend) refl;
        current = f.5 ∙ ap some d.root_version;
        tlds = f.6 ∙ ap (λ rows. tld_table rows []) d.tlds;
        domains = f.7 ∙ ap (λ rows. domain_table rows []) d.domains;
      }

  IsStored-after :
      (io : Io) (req : MutationRequest) (ctx : MutationContext) (p : Prepared)
      (s s' : RegistryStore) (event : AuditRecord)
      (w : Result (Option (Text × Bytes)) × RegistryStore)
      → write_registry h io p.new_registry (record s { zone = p.zone }) ≡ w
      → after_registry h io req ctx p w.0 w.1 ≡ (ok event, s')
      → IsStored req ctx p s s'
  IsStored-after io req ctx p s s' event (err e, s1) eq q = cc
  IsStored-after io req ctx p s s' event (ok d, s1) eq q =
      let (b, made, w) =
        persist-ok io (commit_batch h req ctx p d p.zone) p.event event (remember h req ctx p s1) s'
          q in
      stored req ctx p s s1 s' b io
        (write_registry-SameHistory io p.new_registry (record s { zone = p.zone }) s1 (ok d) eq)
        (commit_batch-Describes req ctx p d b made) w

  pub commit-IsStored :
      (io : Io) (req : MutationRequest) (ctx : MutationContext) (p : Prepared)
      (s s' : RegistryStore) (event : AuditRecord)
      → commit h io req ctx p s ≡ (ok event, s')
      → IsStored req ctx p s s'
  unfolding commit
  commit-IsStored io req ctx p s s' event q = IsStored-after io req ctx p s s' event _ refl q

  run_prepared-IsStored :
      (io : Io) (req : MutationRequest) (ctx : MutationContext) (s s' : RegistryStore)
      (event : AuditRecord) (r : Result Prepared)
      → run_prepared h io req ctx s r ≡ (ok event, s')
      → (p : Prepared) × IsStored req ctx p s s'
  run_prepared-IsStored io req ctx s s' event (err e) q = cc
  run_prepared-IsStored io req ctx s s' event (ok p) q =
      (p, commit-IsStored io req ctx p s s' event q)

  pub apply-IsStored :
      (io : Io) (req : MutationRequest) (ctx : MutationContext) (s s' : RegistryStore)
      (event : AuditRecord)
      → apply h io req ctx s ≡ (ok event, s')
      → (p : Prepared) × IsStored req ctx p s s'
  unfolding apply
  apply-IsStored io req ctx s s' event q = run_prepared-IsStored io req ctx s s' event _ q
