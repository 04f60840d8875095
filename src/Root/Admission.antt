-- ===== src/Root/Admission.antt =====
-- Which names pass the blocklists.
use federate.Base.{Text, Bool, true, false, ◌≡◌, subst, arith, Bool-cases, inl, inr, ◌⊎◌}
use federate.Core.{ok, >>=-eq-ok}
use federate.Naming.{validate_tld_name}
use federate.Naming.Canonical.{IsTld, validate_tld_name-IsTld, validate_tld_name_canonical}
use federate.Root.Blocklists.{Blocklists, is_member, check, admit, validate_new_tld}

-- A canonical name that is no public one, and on no other list but, with permission, the reserved one.
pub record IsAdmitted (b : Blocklists) (allow_reserved : Bool) (t : Text) : Type 0 where
  pub canonical : IsTld t
  pub not_public : is_member t b.iana ≡ false
  pub listed :
      ((is_member t b.reserved ≡ true) × (allow_reserved ≡ true))
      ⊎ ((is_member t b.reserved ≡ false)
          × (is_member t b.policy ≡ false)
          × (is_member t b.brand_safety ≡ false))

admit-IsAdmitted :
    (b : Blocklists) (allow_reserved : Bool) (name t : Text)
    → IsTld name
    → admit allow_reserved name (check b name) ≡ ok t
    → (name ≡ t) × IsAdmitted b allow_reserved name
unfolding check admit
admit-IsAdmitted b allow_reserved name t c e = (
  ground arith,
  record {
    canonical = c;
    not_public = ground arith;
    listed = elim (Bool-cases (is_member name b.reserved)) [
      | inl on ↦ inl (on, ground arith)
      | inr off ↦ inr (off, ground arith, ground arith)
    ];
  },
)

-- A name that may be created is canonical, no public TLD, and, unless it is on the reserved list and
-- the caller may use that list, on none of the other lists.
pub validate_new_tld-IsAdmitted :
    (b : Blocklists) (input : Text) (allow_reserved : Bool) (t : Text)
    → validate_new_tld b input allow_reserved ≡ ok t
    → IsAdmitted b allow_reserved t
unfolding validate_new_tld
validate_new_tld-IsAdmitted b input allow_reserved t e =
    let (name, parsed, e1) = >>=-eq-ok (validate_tld_name input) _ e in
    let (same, a) =
      admit-IsAdmitted b allow_reserved name t (validate_tld_name-IsTld input name parsed) e1 in
    subst (IsAdmitted b allow_reserved) same a

-- Every name that is canonical and not public may be created under that name if it is reserved and
-- reserved names are allowed, whatever the other lists say, or if it is on none of the lists.
pub validate_new_tld_complete :
    (b : Blocklists) (allow_reserved : Bool) (t : Text)
    → IsAdmitted b allow_reserved t
    → validate_new_tld b t allow_reserved ≡ ok t
unfolding validate_new_tld check admit
validate_new_tld_complete b allow_reserved t a =
    let c = a.not_public in
    let l = a.listed in rw (validate_tld_name_canonical t a.canonical) (ground arith)
