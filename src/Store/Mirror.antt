-- ===== src/Store/Mirror.antt =====
-- The database holds the history that memory holds, after every accepted mutation; and what a
-- transaction that fails leaves behind.
use federate.Base.{
  Text, Option, none, some, true, get, contains_key, get-insert, get-insert_self, ◌≡◌, refl, subst,
  sym, ap, ◌∙◌,
}
use federate.Core.{FederateError, Result, ok, err}
use federate.Mutation.{MutationRequest, AuditRecord}
use federate.Host.{Host}
use federate.Store.{MutationContext, CommitBatch, NewRegistry}
use federate.Store.Database.{commit_mutation}
use federate.Store.Prepare.{RegistryStore, Prepared, prepare}
use federate.Store.Apply.{
  Io, write_registry, remember, commit_batch, finish, persist, commit, apply,
}
use federate.Store.Durable.{IsStored, apply-IsStored}

-- The history that a restart reads from the database is the history in memory, and the database
-- points at the version of the zone in memory.
pub record IsMirrored (s : RegistryStore) : Type 0 where
  pub mutations : (id : Text) → get id s.backend.mutations ≡ get id s.applied
  pub versions : (k : Text) → get k s.backend.target_versions ≡ get k s.target_versions
  pub current : s.backend.current_version ≡ some s.zone.root_version

-- The caller is told of a failure, memory has the mutation, the database does not.
pub record Diverged (req : MutationRequest) (e : FederateError) (p : Prepared) (s : RegistryStore)
    (r : Result AuditRecord × RegistryStore) : Type 0 where
  pub failed : r.0 ≡ err e
  pub zone : r.1.zone ≡ p.zone
  pub remembered : contains_key req.mutation_id r.1.applied ≡ true
  pub unsaved : r.1.backend ≡ s.backend

module _ (h : Host) where
  IsStored-IsMirrored :
      (req : MutationRequest) (ctx : MutationContext) (p : Prepared) (s s' : RegistryStore)
      → IsStored h req ctx p s s'
      → IsMirrored s
      → IsMirrored s'
  IsStored-IsMirrored req ctx p s s' t m = record {
    mutations =
        λ id. rw (t.mutations, t.memory_applied, get-insert, get-insert, m.mutations id) refl;
    versions = λ k. rw (t.versions, t.memory_versions, get-insert, get-insert, m.versions k) refl;
    current = t.current ∙ ap some (ap (λ (z : _). z.root_version) (sym t.zone));
  }

  -- If memory and database held the same history before an accepted mutation, they do after it: the
  -- same mutations, the same target versions, and the version of the new zone.
  pub apply-IsMirrored :
      (io : Io) (req : MutationRequest) (ctx : MutationContext) (s s' : RegistryStore)
      (event : AuditRecord)
      → apply h io req ctx s ≡ (ok event, s')
      → IsMirrored s
      → IsMirrored s'
  apply-IsMirrored io req ctx s s' event q m =
      let (p, t) = apply-IsStored h io req ctx s s' event q in
      IsStored-IsMirrored req ctx p s s' t m

  write_none :
      (io : Io) (n : Option NewRegistry) (s : RegistryStore)
      → n ≡ none
      → write_registry h io n s ≡ (ok none, s)
  unfolding write_registry
  write_none io n s q =
      subst (λ (m : Option NewRegistry). write_registry h io m s ≡ (ok none, s)) (sym q) refl

  -- If a mutation passes every check and writes no registry, and the database transaction fails, the
  -- caller gets the error, but memory serves the new zone and counts the mutation as applied, while
  -- the database is as it was.
  pub failed_commit_diverges :
      (io : Io) (req : MutationRequest) (ctx : MutationContext) (s : RegistryStore) (p : Prepared)
      (b : CommitBatch) (e : FederateError)
      → prepare h s req ctx ≡ ok p
      → p.new_registry ≡ none
      → commit_batch h req ctx p none p.zone ≡ ok b
      → io.commit ≡ err e
      → Diverged req e p s (apply h io req ctx s)
  unfolding apply commit persist commit_mutation finish remember
  failed_commit_diverges io req ctx s p b e q n made failed =
      rw (q, write_none io p.new_registry (record s { zone = p.zone }) n)
        (rw (made, failed)
          (record {
            failed = refl;
            zone = refl;
            remembered = rw get-insert_self refl;
            unsaved = refl;
          }))
