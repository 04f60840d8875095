-- ===== src/Directory/Pruned.antt =====
-- Pruning keeps a directory sound.
use federate.Base.{
  ◌≤◌, Text, Bool-cases, List, [], ◌∷◌, BTreeMap, remove, text_eq, text_eq_iff, length, All, inl,
  inr, arith,
}
use federate.Host.{Host}
use federate.Directory.{NodeEntry, Addresses}
use federate.Directory.Registrations.{DirectorySerde}
use federate.Directory.Entries.{All-remove, length-remove, contains_key-remove}
use federate.Directory.Table.{Directory, drop_id, remove_all, drop_all, nobody, scrub, prune}
use federate.Directory.Sound.{IsOwn, IsKnown, IsSound}

module _ (h : Host) (docs : DirectorySerde) (addresses : Addresses) where
  abbrev Known : BTreeMap NodeEntry → Text × List Text → Type 0
  Known nodes p = IsKnown h docs addresses nodes p.1

  remove_all-All :
      (P : Text × NodeEntry → Type 0) (stale : List Text) (nodes : BTreeMap NodeEntry)
      → All P nodes
      → All P (remove_all stale nodes)
  unfolding remove_all
  remove_all-All P [] nodes ps = ps
  remove_all-All P (id ∷ ids) nodes ps =
      remove_all-All P ids (remove id nodes) (All-remove P id nodes ps)

  length-remove_all :
      (stale : List Text) (nodes : BTreeMap NodeEntry)
      → length (remove_all stale nodes) ≤ length nodes
  unfolding remove_all
  length-remove_all [] nodes = omega arith
  length-remove_all (id ∷ ids) nodes =
      omega (arith, length-remove_all ids (remove id nodes), length-remove id nodes)

  drop_id-IsKnown :
      (id : Text) (nodes : BTreeMap NodeEntry) (ids : List Text)
      → IsKnown h docs addresses nodes ids
      → IsKnown h docs addresses (remove id nodes) (drop_id id ids)
  unfolding drop_id
  drop_id-IsKnown id nodes [] known = tt
  drop_id-IsKnown id nodes (x ∷ xs) (here, known) = elim (Bool-cases (text_eq x id)) [
    | inl e ↦ rw e (drop_id-IsKnown id nodes xs known)
    | inr e ↦ rw e (
      contains_key-remove id x nodes here (ground (arith, e, text_eq_iff x id, text_eq_iff id x)),
      drop_id-IsKnown id nodes xs known,
    )
  ]

  drop_all-IsKnown :
      (stale : List Text) (nodes : BTreeMap NodeEntry) (ids : List Text)
      → IsKnown h docs addresses nodes ids
      → IsKnown h docs addresses (remove_all stale nodes) (drop_all stale ids)
  unfolding drop_all remove_all
  drop_all-IsKnown [] nodes ids known = known
  drop_all-IsKnown (x ∷ xs) nodes ids known =
      drop_all-IsKnown xs (remove x nodes) (drop_id x ids) (drop_id-IsKnown x nodes ids known)

  scrub-Known :
      (stale : List Text) (nodes : BTreeMap NodeEntry) (m : BTreeMap (List Text))
      → All (Known nodes) m
      → All (Known (remove_all stale nodes)) (scrub stale m)
  unfolding scrub
  scrub-Known stale nodes [] ps = tt
  scrub-Known stale nodes ((hash, ids) ∷ m) (p, ps) =
      elim (Bool-cases (nobody (drop_all stale ids))) [
        | inl e ↦ rw e (scrub-Known stale nodes m ps)
        | inr e ↦ rw e (drop_all-IsKnown stale nodes ids p, scrub-Known stale nodes m ps)
      ]

  pub prune-IsSound :
      (stale : List Text) (dir : Directory)
      → IsSound h docs addresses dir
      → IsSound h docs addresses (prune stale dir)
  unfolding prune
  prune-IsSound [] dir sound = sound
  prune-IsSound (id ∷ ids) dir sound = record {
    own =
        remove_all-All (IsOwn h docs addresses dir.root_public_key) (id ∷ ids) dir.nodes sound.own;
    capped = omega (arith, length-remove_all (id ∷ ids) dir.nodes, sound.capped);
    known = scrub-Known (id ∷ ids) dir.nodes dir.providers sound.known;
  }
