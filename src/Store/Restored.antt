-- ===== src/Store/Restored.antt =====
-- What a registry is that `open` of crates/federate-mutation/src/store.rs has read back.
use federate.Base.{
  All-insert, append_assoc, contains_key, get-insert, get-insert_self, true, false≢true, ◌≢◌, ◌⊎◌,
  ◌++◌, map, ℕ, Text, Bytes, Option, none, some, List, [], ◌∷◌, ◌==◌, text_eq, text_eq_iff,
  BTreeMap, get, insert, collect, get-collect, IsAscending, All, ◌≡◌, refl, sym, ap, ◌∙◌, subst,
  arith, Bool-cases, ==_iff, inl, inr,
}
use federate.Core.{ok, >>=-eq-ok, guard, guard-true}
use federate.Root.{RootZone, TldRecord, lookup_tld}
use federate.Root
use federate.Mutation.{AuditRecord}
use federate.Registry.{TldRegistry}
use federate.Host.{Host}
use federate.Signing.Zones
use federate.Signing.Registries
use federate.Storage.{hash_bytes}
use federate.Store.{AppliedMutation}
use federate.Store.Database.{
  Database, Table, zone_of, zone_at, current_root_zone, get_u64, list_values,
}
use federate.Store.Prepare.{RegistryStore, state_hash}
use federate.Store.Open.{
  Disk, RegistryMap, by_id, restore_registries, restore_manifests, check_state_hash, open_database,
  opened, open_store, no_record,
}
use federate.Store.Actions.Domains.{ok_or}
use federate.Store.Actions.DomainWrites.{ok_or-some}
use federate.Store.Mirror.{IsMirrored}

-- The tables ascend by key, and every mutation stands under its own id.
abbrev pub HasIds : BTreeMap AppliedMutation → Type 0
HasIds = All (λ p. p.1.mutation.mutation_id ≡ p.0)

pub record IsKeyed (d : Database) : Type 0 where
  pub mutations : IsAscending d.mutations
  pub ids : HasIds d.mutations
  pub versions : IsAscending d.target_versions

by_id-HasIds : (t : BTreeMap AppliedMutation) → HasIds t → by_id t ≡ t
unfolding by_id
by_id-HasIds [] h = refl
by_id-HasIds ((id, m) ∷ t) (one, h) = ground (arith, by_id-HasIds t h)

pub insert-HasIds :
    (m : AppliedMutation) (t : BTreeMap AppliedMutation)
    → HasIds t
    → HasIds (insert m.mutation.mutation_id m t)
insert-HasIds m t h =
    All-insert (λ p. p.1.mutation.mutation_id ≡ p.0) m.mutation.mutation_id m t refl h

ok_injective {ℓ} : {A : Type ℓ} {a b : A} → ok a ≡ ok b → a ≡ b
ok_injective e = cc

zone_of-version :
    (version : ℕ) (raw : Option Bytes) (v : ℕ) (json : Bytes)
    → zone_of version raw ≡ some (v, json)
    → some version ≡ some v
zone_of-version version none v json e = cc
zone_of-version version (some bytes) v json e = cc

zone_at-version :
    (current : Option ℕ) (t : Table Bytes) (v : ℕ) (json : Bytes)
    → zone_at current t ≡ some (v, json)
    → current ≡ some v
zone_at-version none t v json e = cc
zone_at-version (some version) t v json e = zone_of-version version (get_u64 version t) v json e

module _ (h : Host) where
  -- A registry of the start: its bytes are a row of the database and read as the registry, which
  -- verifies under the operator that the zone names for the TLD.
  pub record IsRestored (stored : List (Text × Bytes)) (zone : RootZone) (tld : Text) (raw : Bytes)
      (r : TldRegistry) : Type 0 where
    pub before : List (Text × Bytes)
    pub after : List (Text × Bytes)
    pub row : stored ≡ before ++ (tld, raw) ∷ after
    pub rec : TldRecord
    pub listed : lookup_tld tld zone ≡ some rec
    pub read : h.serde.read_registry raw ≡ ok r
    pub verified : Registries.verify h r tld rec.operator_public_key ≡ ok tt

  abbrev pub AllRestored : List (Text × Bytes) → RootZone → RegistryMap → Type 0
  AllRestored stored zone = All (λ p. IsRestored stored zone p.0 p.1.0 p.1.1)

  restore_registries-AllRestored :
      (stored : List (Text × Bytes)) (zone : RootZone) (done rows : List (Text × Bytes))
      (found registries : RegistryMap)
      → stored ≡ done ++ rows
      → AllRestored stored zone found
      → restore_registries h zone rows found ≡ ok registries
      → AllRestored stored zone registries
  unfolding restore_registries
  restore_registries-AllRestored stored zone done [] found registries whole all e =
      subst (AllRestored stored zone) (ok_injective e) all
  restore_registries-AllRestored stored zone done ((tld, raw) ∷ rows) found registries whole all e =
      let (r, read, e1) = >>=-eq-ok (h.serde.read_registry raw) _ e in
      let (rec, listed, e2) = >>=-eq-ok (ok_or (lookup_tld tld zone) (no_record h)) _ e1 in
      let (u, verified, e3) = >>=-eq-ok (Registries.verify h r tld rec.operator_public_key) _ e2 in
      restore_registries-AllRestored stored zone (done ++ (tld, raw) ∷ []) rows
        (insert tld (raw, r) found) registries
        (whole ∙ sym (append_assoc done ((tld, raw) ∷ []) rows))
        (All-insert (λ p. IsRestored stored zone p.0 p.1.0 p.1.1) tld (raw, r) found
          (record {
            before = done;
            after = rows;
            row = whole;
            rec = rec;
            listed = ok_or-some (lookup_tld tld zone) _ listed;
            read = read;
            verified = verified;
          })
          all)
        e3

  restore_registries-kept :
      (zone : RootZone) (rows : List (Text × Bytes)) (found registries : RegistryMap) (k : Text)
      → contains_key k found ≡ true
      → restore_registries h zone rows found ≡ ok registries
      → contains_key k registries ≡ true
  unfolding restore_registries
  restore_registries-kept zone [] found registries k there e =
      subst (λ m. contains_key k m ≡ true) (ok_injective e) there
  restore_registries-kept zone ((tld, raw) ∷ rows) found registries k there e =
      let (r, read, e1) = >>=-eq-ok (h.serde.read_registry raw) _ e in
      let (rec, listed, e2) = >>=-eq-ok (ok_or (lookup_tld tld zone) (no_record h)) _ e1 in
      let (u, verified, e3) = >>=-eq-ok (Registries.verify h r tld rec.operator_public_key) _ e2 in
      restore_registries-kept zone rows (insert tld (raw, r) found) registries k
        (ground (arith, get-insert tld k (raw, r) found, there)) e3

  restore_registries-All :
      (zone : RootZone) (rows : List (Text × Bytes)) (found registries : RegistryMap)
      → restore_registries h zone rows found ≡ ok registries
      → All (λ p. contains_key p.0 registries ≡ true) rows
  unfolding restore_registries
  restore_registries-All zone [] found registries e = tt
  restore_registries-All zone ((tld, raw) ∷ rows) found registries e =
      let (r, read, e1) = >>=-eq-ok (h.serde.read_registry raw) _ e in
      let (rec, listed, e2) = >>=-eq-ok (ok_or (lookup_tld tld zone) (no_record h)) _ e1 in
      let (u, verified, e3) = >>=-eq-ok (Registries.verify h r tld rec.operator_public_key) _ e2 in
      (
        restore_registries-kept zone rows (insert tld (raw, r) found) registries tld
            (rw (get-insert_self tld (raw, r) found) refl) e3,
        restore_registries-All zone rows (insert tld (raw, r) found) registries e3,
      )

  abbrev pub AllAddressed : BTreeMap Bytes → Type 0
  AllAddressed = All (λ p. hash_bytes h p.1 ≡ p.0)

  restore_manifests-AllAddressed :
      (files found : BTreeMap Bytes)
      → AllAddressed found
      → AllAddressed (restore_manifests h files found)
  unfolding restore_manifests
  restore_manifests-AllAddressed [] found all = all
  restore_manifests-AllAddressed ((name, bytes) ∷ files) found all =
      restore_manifests-AllAddressed files _
        (elim (Bool-cases (text_eq (hash_bytes h bytes) name)) [
          | inl p ↦ rw p (
              All-insert (λ p. hash_bytes h p.1 ≡ p.0) name bytes found
                ((text_eq_iff (hash_bytes h bytes) name).0 p) all)
          | inr p ↦ rw p all
        ])

  restore_manifests-kept :
      (files found : BTreeMap Bytes) (k : Text)
      → contains_key k found ≡ true
      → contains_key k (restore_manifests h files found) ≡ true
  unfolding restore_manifests
  restore_manifests-kept [] found k there = there
  restore_manifests-kept ((name, bytes) ∷ files) found k there =
      restore_manifests-kept files _ k (ground (arith, get-insert name k bytes found, there))

  -- A file under its own hash is served.
  abbrev IsServed : BTreeMap Bytes → Text × Bytes → Type 0
  IsServed manifests (name, bytes) =
      (hash_bytes h bytes ≢ name) ⊎ (contains_key name manifests ≡ true)

  restore_manifests-All :
      (files found : BTreeMap Bytes) → All (IsServed (restore_manifests h files found)) files
  unfolding restore_manifests
  restore_manifests-All [] found = tt
  restore_manifests-All ((name, bytes) ∷ files) found =
      elim (Bool-cases (text_eq (hash_bytes h bytes) name)) [
        | inl p ↦ (
          inr (
              rw p (
                restore_manifests-kept files (insert name bytes found) name
                  (rw (get-insert_self name bytes found) refl))),
          restore_manifests-All files _,
        )
        | inr p ↦ (
          inl (λ z. false≢true (sym p ∙ (text_eq_iff (hash_bytes h bytes) name).1 z)),
          restore_manifests-All files _,
        )
      ]

  -- The stored hash, if there is one, is the hash of the zone.
  abbrev HasHash : RootZone → Option Text → Type 0
  HasHash zone none = Unit
  HasHash zone (some stored) = state_hash h zone ≡ ok stored

  check_state_hash-HasHash :
      (zone : RootZone) (o : Option Text) {u : Unit {0}}
      → check_state_hash h zone o ≡ ok u
      → HasHash zone o
  unfolding check_state_hash
  check_state_hash-HasHash zone none e = tt
  check_state_hash-HasHash zone (some stored) e =
      let (actual, found, e1) = >>=-eq-ok (state_hash h zone) _ e in
      found ∙ ap ok (sym ((text_eq_iff stored actual).0 (guard-true _ _ e1)))

  abbrev rows : List (ℕ × AuditRecord) → List AuditRecord
  rows table = map (λ row. row.1) table

  list_values-rows : (table : List (ℕ × AuditRecord)) → list_values table ≡ rows table
  unfolding list_values
  list_values-rows [] = refl
  list_values-rows ((k, v) ∷ table) = ap (λ l. v ∷ l) (list_values-rows table)

  -- What is served after a start, and what of the history is.
  pub record IsOpened (d : Database) (disk : Disk) (key : Text) (s : RegistryStore) : Type 0 where
    pub backend : s.backend ≡ d
    pub version : ℕ
    pub json : Bytes
    pub current : current_root_zone d ≡ some (version, json)
    pub read : h.serde.read_zone json ≡ ok s.zone
    pub valid : Root.validate s.zone ≡ ok tt
    pub verified : Zones.verify h s.zone key ≡ ok tt
    pub hashed : HasHash s.zone d.state_hash
    pub registries : AllRestored d.delegated_registries s.zone s.registries
    pub all_registries : All (λ p. contains_key p.0 s.registries ≡ true) d.delegated_registries
    pub manifests : AllAddressed s.manifests
    pub all_manifests : All (IsServed s.manifests) disk.manifest_files
    pub blocks : s.blocks ≡ disk.blocks
    pub audit : s.audit ≡ rows d.audit_events
    pub mirrored : IsMirrored s

  opened-IsMirrored :
      (d : Database) (disk : Disk) (zone : RootZone) (registries : RegistryMap)
      → IsKeyed d
      → d.current_version ≡ some zone.root_version
      → IsMirrored (opened h d disk zone registries)
  opened-IsMirrored d disk zone registries k e = record {
    mutations = λ id. sym (
        ap (λ t. get id (collect t [])) (by_id-HasIds d.mutations k.ids)
        ∙ get-collect id d.mutations k.mutations);
    versions = λ key. sym (get-collect key d.target_versions k.versions);
    current = e;
  }

  current_root_zone-version :
      (d : Database) (version : ℕ) (json : Bytes)
      → current_root_zone d ≡ some (version, json)
      → d.current_version ≡ some version
  unfolding current_root_zone
  current_root_zone-version d version json e =
      zone_at-version d.current_version d.root_zone_versions version json e

  -- If `open` succeeds on a database whose tables are in key order, with every mutation under its own id,
  -- then the zone served is the current one of the database, is well formed, verifies under the pinned
  -- root key, and its state hash is the stored one, if one is stored. There is a registry for every one
  -- that is stored, and every registry was read from stored bytes and verifies under the operator that
  -- the zone names for its TLD. A manifest is served for every file whose content has the hash that
  -- names it, and none whose content has not. The blocks are those of the disk. The audit trail is the
  -- stored one, in the order of its table, and the applied mutations, the target versions and the
  -- current version are those of the database.
  pub open_store-IsOpened :
      (d : Database) (disk : Disk) (key : Text) (s : RegistryStore)
      → IsKeyed d
      → disk.database ≡ some d
      → open_store h disk key ≡ ok s
      → IsOpened d disk key s
  unfolding open_store open_database
  open_store-IsOpened d disk key s k there e =
      let e0 : open_database h d disk key ≡ ok s = rw there at e in
      let ((version, json), found, e1) = >>=-eq-ok (ok_or (current_root_zone d) _) _ e0 in
      let (zone, read, e2) = >>=-eq-ok (h.serde.read_zone json) _ e1 in
      let (u, valid, e3) = >>=-eq-ok (Root.validate zone) _ e2 in
      let (u1, verified, e4) = >>=-eq-ok (Zones.verify h zone key) _ e3 in
      let (u2, same, e5) = >>=-eq-ok (guard (zone.root_version == version) _) _ e4 in
      let (u3, hashed, e6) = >>=-eq-ok (check_state_hash h zone d.state_hash) _ e5 in
      let (registries, restored, e7) =
        >>=-eq-ok (restore_registries h zone d.delegated_registries []) _ e6 in
      subst (IsOpened d disk key) (ok_injective e7) (record {
        backend = refl;
        valid = valid;
        verified = verified;
        hashed = check_state_hash-HasHash zone d.state_hash hashed;
        version = version;
        json = json;
        current = ok_or-some (current_root_zone d) _ found;
        read = read;
        registries =
            restore_registries-AllRestored d.delegated_registries zone [] d.delegated_registries []
              registries refl tt restored;
        all_registries = restore_registries-All zone d.delegated_registries [] registries restored;
        all_manifests = restore_manifests-All disk.manifest_files [];
        blocks = refl;
        audit = list_values-rows d.audit_events;
        manifests = restore_manifests-AllAddressed disk.manifest_files [] tt;
        mirrored = opened-IsMirrored d disk zone registries k (
            current_root_zone-version d version json (ok_or-some (current_root_zone d) _ found)
            ∙ ap some (sym ((==_iff zone.root_version version).0 (guard-true _ _ same))));
      })
