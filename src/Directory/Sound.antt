-- ===== src/Directory/Sound.antt =====
-- What holds of every directory that its operations lead to.
use federate.Base.{
  ℕ, ◌≤◌, Text, Bool, true, not, ◌&&◌, ◌||◌, Option, List, [], ◌∷◌, BTreeMap, get, contains_key,
  length, ltb, All, ◌≡◌, refl, arith, subst,
}
use federate.Core.{ok, guard, >>=-eq-ok}
use federate.Host.{Host}
use federate.Directory.{NodeRegistration, NodeEntry, Addresses}
use federate.Directory.Registrations
use federate.Directory.Registrations.{DirectorySerde, BlockAnnounce, verify_announce}
use federate.Directory.Entries.{All-put, length-put, contains_key-put}
use federate.Directory.Table.{
  Directory, put, max_nodes, empty_directory, claims_root, is_key, registered, register,
  prune_stale, mark, announce_blocks,
}

module _ (h : Host) (docs : DirectorySerde) (addresses : Addresses) where
  -- A node is listed under its own key, its registration verifies, and only the root key has the role
  -- of the root authority.
  abbrev pub IsOwn : Option Text → Text × NodeEntry → Type 0
  IsOwn root (id, e) =
      (e.registration.node_id ≡ id)
      × (Registrations.verify h docs addresses e.registration ≡ ok tt)
      × (claims_root e.registration.roles ≡ true → is_key root e.registration.public_key ≡ true)

  abbrev pub IsKnown : BTreeMap NodeEntry → List Text → Type 0
  IsKnown nodes ids = All (λ (id : Text). contains_key id nodes ≡ true) ids

  pub record IsSound (dir : Directory) : Type 0 where
    pub own : All (IsOwn dir.root_public_key) dir.nodes
    pub capped : length dir.nodes ≤ max_nodes
    pub known : All (λ (p : Text × List Text). IsKnown dir.nodes p.1) dir.providers

  -- The operations of the directory; time passes between them.
  pub data Step : Directory → Directory → Type 0 where
    registration :
        (r : NodeRegistration) (dir dir' : Directory)
        → register h docs addresses r dir ≡ ok dir'
        → Step dir dir'
    announcement :
        (a : BlockAnnounce) (dir dir' : Directory)
        → announce_blocks h docs addresses a dir ≡ ok dir'
        → Step dir dir'
    pruning :
        (max_age : ℕ) (dir dir' : Directory)
        → dir' ≡ prune_stale h docs addresses max_age dir
        → Step dir dir'
    health_check :
        (id : Text) (good : Bool) (latency_ms : Option ℕ) (dir dir' : Directory)
        → dir' ≡ mark h docs addresses id good latency_ms dir
        → Step dir dir'

  pub data Reachable (root : Option Text) : Directory → Type 0 where
    start : (dir : Directory) → dir ≡ empty_directory root → Reachable root dir
    after : (dir dir' : Directory) → Reachable root dir → Step dir dir' → Reachable root dir'

  pub All-weaken :
      (P Q : Text → Type 0) (ids : List Text) → ((id : Text) → P id → Q id) → All P ids → All Q ids
  All-weaken P Q [] f ps = tt
  All-weaken P Q (id ∷ ids) f (p, ps) = (f id p, All-weaken P Q ids f ps)

  pub providers-weaken :
      (nodes nodes' : BTreeMap NodeEntry) (providers : BTreeMap (List Text))
      → ((id : Text) → contains_key id nodes ≡ true → contains_key id nodes' ≡ true)
      → All (λ (p : Text × List Text). IsKnown nodes p.1) providers
      → All (λ (p : Text × List Text). IsKnown nodes' p.1) providers
  providers-weaken nodes nodes' [] f ps = tt
  providers-weaken nodes nodes' ((hash, ids) ∷ m) f (p, ps) = (
    All-weaken (λ id. contains_key id nodes ≡ true) (λ id. contains_key id nodes' ≡ true) ids f p,
    providers-weaken nodes nodes' m f ps,
  )

  pub register-IsSound :
      (r : NodeRegistration) (dir dir' : Directory)
      → register h docs addresses r dir ≡ ok dir'
      → IsSound dir
      → IsSound dir'
  unfolding register registered
  register-IsSound r dir dir' e sound =
      let (u, verified, e1) = >>=-eq-ok (Registrations.verify h docs addresses r) _ e in
      let (u1, root, e2) =
        >>=-eq-ok
          (guard (not (claims_root r.roles && not (is_key dir.root_public_key r.public_key))) _) _
          e1 in
      let (u2, space, e3) =
        >>=-eq-ok (guard (ltb (length dir.nodes) max_nodes || contains_key r.node_id dir.nodes) _) _
          e2 in
      let entry = registered h docs addresses r (get r.node_id dir.nodes) in
      let now : IsSound (record dir { nodes = put r.node_id entry dir.nodes }) = record {
        own =
            All-put (IsOwn dir.root_public_key) r.node_id entry dir.nodes
              (refl, verified, λ claims. ground (arith, claims, root)) sound.own;
        capped = ground (arith, length-put r.node_id entry dir.nodes, space, sound.capped);
        known =
            providers-weaken dir.nodes (put r.node_id entry dir.nodes) dir.providers
              (λ id. contains_key-put r.node_id id entry dir.nodes) sound.known;
      } in
      subst IsSound (ground (arith, e3)) now
