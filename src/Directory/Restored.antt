-- ===== src/Directory/Restored.antt =====
-- A directory that is restored from a snapshot.
use federate.Base.{
  Text, Bool-cases, true, false, Option, some, get, text_eq_refl, List, [], ◌∷◌, ◌++◌, BTreeMap,
  text_eq, All, ◌≡◌, refl, inl, inr, subst, ◌∙◌, arith,
}
use federate.Core.{ok}
use federate.Host.{Host}
use federate.Directory.{NodeEntry, Addresses}
use federate.Directory.Registrations
use federate.Directory.Registrations.{DirectorySerde}
use federate.Directory.Table.{put, empty_directory, claims_root, is_key, restore, with_persistence}
use federate.Directory.Sound.{IsOwn, IsSound}

put_same :
    {V : Type 0} (k : Text) (v : V) (j : Text) (w : V) (m : BTreeMap V)
    → text_eq j k ≡ true
    → put k v ((j, w) ∷ m) ≡ (k, v) ∷ m
unfolding put
put_same k v j w m e = rw e refl

put_other :
    {V : Type 0} (k : Text) (v : V) (j : Text) (w : V) (m : BTreeMap V)
    → text_eq j k ≡ false
    → put k v ((j, w) ∷ m) ≡ (j, w) ∷ put k v m
unfolding put
put_other k v j w m e = rw e refl

put-All :
    {V : Type 0} (P : Text × V → Type 0) (k : Text) (v : V) (m : BTreeMap V)
    → All P (put k v m)
    → P (k, v)
unfolding put
put-All P k v [] (p, ps) = p
put-All P k v ((j, w) ∷ m) ps = elim (Bool-cases (text_eq j k)) [
  | inl e ↦ (subst (All P) (put_same k v j w m e) ps).0
  | inr e ↦ put-All P k v m (subst (All P) (put_other k v j w m e) ps).1
]

module _ (h : Host) (docs : DirectorySerde) (addresses : Addresses) where
  restore-append :
      (xs ys : List NodeEntry) (nodes : BTreeMap NodeEntry)
      → restore h docs addresses (xs ++ ys) nodes
        ≡ restore h docs addresses ys (restore h docs addresses xs nodes)
  unfolding restore
  restore-append [] ys nodes = refl
  restore-append (e ∷ xs) ys nodes = restore-append xs ys _

  restore_last :
      (xs : List NodeEntry) (e : NodeEntry)
      → Registrations.verify h docs addresses e.registration ≡ ok tt
      → restore h docs addresses (xs ++ e ∷ []) []
        ≡ put e.registration.node_id e (restore h docs addresses xs [])
  unfolding restore
  restore_last xs e verified = restore-append xs (e ∷ []) [] ∙ rw verified refl

  get-put : {V : Type 0} (k : Text) (v : V) (m : BTreeMap V) → get k (put k v m) ≡ some v
  unfolding put get
  get-put k v [] = ground (arith, text_eq_refl k)
  get-put k v ((j, w) ∷ m) = ground (arith, text_eq_refl k, get-put k v m)

  -- A snapshot that ends with a node whose registration verifies under its own key is restored with
  -- that node in the table, also if it has the role of the root authority under a key that is not the
  -- root key: the directory is then not a sound one.
  pub restored_authority :
      (root : Option Text) (xs : List NodeEntry) (e : NodeEntry)
      → Registrations.verify h docs addresses e.registration ≡ ok tt
      → claims_root e.registration.roles ≡ true
      → is_key root e.registration.public_key ≡ false
      → (get e.registration.node_id (with_persistence h docs addresses root (xs ++ e ∷ [])).nodes
          ≡ some e)
        × (¬ IsSound h docs addresses (with_persistence h docs addresses root (xs ++ e ∷ [])))
  unfolding with_persistence empty_directory
  restored_authority root xs e verified claims other = (
    rw (restore_last xs e verified)
        (get-put e.registration.node_id e (restore h docs addresses xs [])),
    λ sound.
        let own =
          put-All (IsOwn h docs addresses root) e.registration.node_id e
            (restore h docs addresses xs [])
            (subst (All (IsOwn h docs addresses root)) (restore_last xs e verified) sound.own) in
        ground (arith, own.2 claims, other),
  )
