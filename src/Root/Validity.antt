-- ===== src/Root/Validity.antt =====
-- Structural validity: the check of `RootZone::validate` survives the writes of records.
use federate.Base.{
  Text, true, [], ◌∷◌, insert, contains_key, BTreeMap, ◌≡◌, refl, arith, get-insert,
}
use federate.Core.{ok}
use federate.Naming.Record.{DomainRecord}
use federate.Root.{TldRecord, validate_domains}

pub contains_key-insert :
    (k j : Text) (v : TldRecord) (m : BTreeMap TldRecord)
    → contains_key j m ≡ true
    → contains_key j (insert k v m) ≡ true
contains_key-insert k j v m h = ground (arith, get-insert k j v m)

pub validate_domains-insert_tld :
    (k : Text) (v : TldRecord) (tlds : BTreeMap TldRecord) (m : BTreeMap DomainRecord)
    → validate_domains tlds m ≡ ok tt
    → validate_domains (insert k v tlds) m ≡ ok tt
unfolding validate_domains
validate_domains-insert_tld k v tlds [] h = refl
validate_domains-insert_tld k v tlds ((f, rec) ∷ m) h =
    ground (arith, contains_key-insert k rec.tld v tlds, validate_domains-insert_tld k v tlds m)

pub validate_domains-insert :
    (tlds : BTreeMap TldRecord) (k : Text) (rec : DomainRecord) (m : BTreeMap DomainRecord)
    → contains_key rec.tld tlds ≡ true
    → validate_domains tlds m ≡ ok tt
    → validate_domains tlds (insert k rec m) ≡ ok tt
unfolding validate_domains insert
validate_domains-insert tlds k rec [] known h = rw known
validate_domains-insert tlds k rec ((f, old) ∷ m) known h =
    ground (arith, validate_domains-insert tlds k rec m known)
