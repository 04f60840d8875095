-- ===== src/Store/Life.antt =====
-- The life of a registry of crates/federate-mutation/src/store.rs: the first boot, accepted mutations,
-- ingested content, and restarts from the database. Memory and database keep the same history in it.
use federate.Base.{
  BTreeMap, Text, Bytes, some, List, [], ◌∷◌, get, insert-IsAscending, ◌≡◌, refl, sym, ap, ◌∙◌,
  subst, arith, inl, inr,
}
use federate.Core.{Result-cases, Result, ok, err, >>=-eq-ok}
use federate.Root.{RootZone}
use federate.Mutation.{MutationRequest, AuditRecord}
use federate.Host.{Host}
use federate.Storage.{Blocks, put_block}
use federate.Store.{MutationContext}
use federate.Store.Database.{InitialState, write_initial, commit_initial, empty_database}
use federate.Store.Prepare.{RegistryStore}
use federate.Store.Apply.{Io, apply, applied_mutation}
use federate.Store.Durable.{apply-IsStored, snapshot-backend}
use federate.Store.Mirror.{IsMirrored, apply-IsMirrored}
use federate.Store.Open.{
  Disk, RegistryMap, open_store, init, initial_state, committed, write_manifests, put_blocks,
  fresh_store, with_snapshot, store_blocks, store_manifest,
}
use federate.Store.Restored.{IsKeyed, HasIds, insert-HasIds, open_store-IsOpened}

-- Memory and database hold the same history, and the tables are in order.
pub record IsDurable (s : RegistryStore) : Type 0 where
  pub mirrored : IsMirrored s
  pub keyed : IsKeyed s.backend

module _ (h : Host) where
  -- What happens to a registry. A refused mutation leaves it as it is and is no step.
  pub data Step : RegistryStore → RegistryStore → Type 0 where
    accepted :
        (io : Io) (req : MutationRequest) (ctx : MutationContext) (event : AuditRecord)
        (s s' : RegistryStore)
        → apply h io req ctx s ≡ (ok event, s')
        → Step s s'
    blocks_stored :
        (blocks : List (Text × Bytes)) (s s' : RegistryStore)
        → s' ≡ (store_blocks h blocks s).1
        → Step s s'
    manifest_stored :
        (io : Io) (hash bytes : Bytes) (s s' : RegistryStore)
        → s' ≡ (store_manifest h io hash bytes s).1
        → Step s s'
    restarted :
        (disk : Disk) (key : Text) (s s' : RegistryStore)
        → disk.database ≡ some s.backend
        → open_store h disk key ≡ ok s'
        → Step s s'

  pub data Later (start : RegistryStore) : RegistryStore → Type 0 where
    now : (s : RegistryStore) → s ≡ start → Later start s
    after : (s s' : RegistryStore) → Later start s → Step s s' → Later start s'

  pub apply-IsKeyed :
      (io : Io) (req : MutationRequest) (ctx : MutationContext) (s s' : RegistryStore)
      (event : AuditRecord)
      → apply h io req ctx s ≡ (ok event, s')
      → IsKeyed s.backend
      → IsKeyed s'.backend
  unfolding applied_mutation
  apply-IsKeyed io req ctx s s' event q k =
      let (p, t) = apply-IsStored h io req ctx s s' event q in
      record {
        mutations = rw t.mutations (insert-IsAscending _ _ _ k.mutations);
        ids = subst HasIds (sym t.mutations) (insert-HasIds (applied_mutation h req ctx p) _ k.ids);
        versions = rw t.versions (insert-IsAscending _ _ _ k.versions);
      }

  -- Content goes into the block store and the manifests only.
  pub record SameHistory (s s' : RegistryStore) : Type 0 where
    pub zone : s'.zone ≡ s.zone
    pub applied : s'.applied ≡ s.applied
    pub versions : s'.target_versions ≡ s.target_versions
    pub backend : s'.backend ≡ s.backend

  pub store_blocks-SameHistory :
      (blocks : List (Text × Bytes)) (s : RegistryStore) → SameHistory s (store_blocks h blocks s).1
  unfolding store_blocks
  store_blocks-SameHistory [] s = record {
    zone = refl;
    applied = refl;
    versions = refl;
    backend = refl;
  }
  store_blocks-SameHistory ((hash, bytes) ∷ rest) s =
      elim (Result-cases (put_block h s.blocks hash bytes)) [
        | inl (e, p) ↦
            rw (store_blocks, p)
              (record { zone = refl; applied = refl; versions = refl; backend = refl })
        | inr (disk, p) ↦
            rw (store_blocks, p)
              (let t = store_blocks-SameHistory rest (record s { blocks = disk }) in
                record {
                  zone = t.zone;
                  applied = t.applied;
                  versions = t.versions;
                  backend = t.backend;
                })
      ]

  pub store_manifest-SameHistory :
      (io : Io) (hash bytes : Bytes) (s : RegistryStore)
      → SameHistory s (store_manifest h io hash bytes s).1
  unfolding store_manifest
  store_manifest-SameHistory io hash bytes s = record {
    zone = ground arith;
    applied = ground arith;
    versions = ground arith;
    backend = ground arith;
  }

  SameHistory-IsDurable : (s s' : RegistryStore) → SameHistory s s' → IsDurable s → IsDurable s'
  SameHistory-IsDurable s s' same d = record {
    mirrored = record {
      mutations = λ id. rw (same.backend, same.applied) (d.mirrored.mutations id);
      versions = λ k. rw (same.backend, same.versions) (d.mirrored.versions k);
      current = rw (same.backend, same.zone) d.mirrored.current;
    };
    keyed = rw same.backend d.keyed;
  }

  pub Step-IsDurable : (s s' : RegistryStore) → Step s s' → IsDurable s → IsDurable s'
  Step-IsDurable s s' (accepted io req ctx event _ _ q) d = record {
    mirrored = apply-IsMirrored h io req ctx s s' event q d.mirrored;
    keyed = apply-IsKeyed io req ctx s s' event q d.keyed;
  }
  Step-IsDurable s s' (blocks_stored blocks _ _ q) d =
      subst IsDurable (sym q) (SameHistory-IsDurable s _ (store_blocks-SameHistory blocks s) d)
  Step-IsDurable s s' (manifest_stored io hash bytes _ _ q) d =
      subst IsDurable (sym q)
        (SameHistory-IsDurable s _ (store_manifest-SameHistory io hash bytes s) d)
  Step-IsDurable s s' (restarted disk key _ _ there q) d =
      let o = open_store-IsOpened h s.backend disk key s' d.keyed there q in
      record { mirrored = o.mirrored; keyed = rw o.backend d.keyed }

  pub Later-IsDurable : (s s' : RegistryStore) → Later s s' → IsDurable s → IsDurable s'
  Later-IsDurable s s' (now _ e) d = subst IsDurable (sym e) d
  Later-IsDurable s s' (after m _ before step) d =
      Step-IsDurable m s' step (Later-IsDurable s m before d)

  with_snapshot-ok :
      (r : Result (Unit {0}) × RegistryStore) (s : RegistryStore)
      → with_snapshot h r ≡ ok s
      → r ≡ (ok tt, s)
  with_snapshot-ok (err e, s') s q = cc
  with_snapshot-ok (ok u, s') s q = cc

  committed-IsDurable :
      (io : Io) (zone : RootZone) (registries : RegistryMap) (manifests : BTreeMap Bytes)
      (disk : Blocks) (state : InitialState) (s : RegistryStore) (r : Result (Unit {0}))
      → state.root_version ≡ zone.root_version
      → committed h io zone registries manifests disk (commit_initial r state empty_database) ≡ ok s
      → IsDurable s
  unfolding commit_initial write_initial
  committed-IsDurable io zone registries manifests disk state s (err e) v q = cc
  committed-IsDurable io zone registries manifests disk state s (ok u) v q =
      let (found, wrote, q1) = >>=-eq-ok (write_manifests h io.write_manifest manifests []) _ q in
      let d = write_initial state empty_database in
      let f =
        snapshot-backend h io (fresh_store h d zone registries found disk) s
          (with_snapshot-ok _ s q1) in
      record {
        mirrored = record {
          mutations = λ id. ap (get id) (f.3 ∙ sym f.1);
          versions = λ k. ap (get k) (f.4 ∙ sym f.2);
          current = f.5 ∙ ap some (v ∙ ap (λ (z : RootZone). z.root_version) (sym f.0));
        };
        keyed = record { mutations = rw f.3 tt; ids = rw f.3 tt; versions = rw f.4 tt };
      }

  -- The first boot.
  pub init-IsDurable :
      (io : Io) (zone : RootZone) (registries : RegistryMap) (manifests : BTreeMap Bytes)
      (blocks : List (Text × Bytes)) (s : RegistryStore)
      → init h io zone registries manifests blocks ≡ ok s
      → IsDurable s
  unfolding init initial_state
  init-IsDurable io zone registries manifests blocks s e =
      let (disk, put, e1) = >>=-eq-ok (put_blocks h blocks []) _ e in
      let (state, made, e2) = >>=-eq-ok (initial_state h zone registries) _ e1 in
      committed-IsDurable io zone registries manifests disk state s io.commit (ground arith) e2
