-- ===== src/Store/Actions/DomainWrites.antt =====
-- What an accepted action on a domain has checked, and the record that it wrote.
use federate.Base.{
  Text, Bytes, Option, none, some, Bool, true, not, insert, get, contains_key, BTreeMap, ◌≡◌, arith,
  to_ascii_lowercase, text_eq,
}
use federate.Core.{Result, ok, err, guard, guard-true, >>=-eq-ok, FederateError}
use federate.Naming
use federate.Naming.{FederateDomain, DomainStatus, fqdn, validate_label}
use federate.Naming.Record.{DomainRecord}
use federate.Root.{RootZone, TldRecord, lookup_tld}
use federate.Mutation.{ActorRole}
use federate.Host.{Host}
use federate.Identity.{NodeIdentity, node_id}
use federate.Signing.Domains as DomainSigning
use federate.Store.{MutationContext, Change}
use federate.Store.Actions.Domains

-- A lookup that did not fail.
pub ok_or-some {ℓ} :
    {A : Type ℓ} (o : Option A) (e : FederateError) {a : A} → Domains.ok_or o e ≡ ok a → o ≡ some a
ok_or-some none e h = cc
ok_or-some (some b) e h = cc

pub lookup_tld-contains :
    (t : Text) (z : RootZone) {r : TldRecord}
    → lookup_tld t z ≡ some r
    → contains_key t z.tlds ≡ true
unfolding lookup_tld
lookup_tld-contains t z e = rw e

module _ (h : Host) (ctx : MutationContext) (z : RootZone) where
  pub record IsPublished (manifests : BTreeMap Bytes) (actor : Text) (is_update : Bool)
      (domain m : Text) (c : Change) : Type 0 where
    pub d : FederateDomain
    pub parsed : Naming.parse domain ≡ ok d
    pub tld_rec : TldRecord
    pub tld_found : lookup_tld d.tld z ≡ some tld_rec
    pub publishable : Domains.check_publishable h ctx d.tld tld_rec ≡ ok tt
    pub existing : Domains.check_existing actor (fqdn d) is_update (get (fqdn d) z.domains) ≡ ok tt
    pub manifest : Domains.check_manifest h manifests actor (fqdn d) m ≡ ok tt
    pub rec : DomainRecord
    pub signed :
        DomainSigning.signed h ctx.official_operator
          (Domains.published h (h.chrono.to_rfc3339 ctx.now) actor m d (get (fqdn d) z.domains))
        ≡ ok rec
    pub wrote : c.zone ≡ record z { domains = insert (fqdn d) rec z.domains }
    pub role : c.role ≡ ActorRole.domain_owner

  map_err-ok {ℓ} :
      {A : Type ℓ} (r : Result A) (e : FederateError) {a : A}
      → Domains.map_err r e ≡ ok a
      → r ≡ ok a
  map_err-ok (ok b) e h = cc
  map_err-ok (err x) e h = cc

  pub publish-IsPublished :
      (manifests : BTreeMap Bytes) (actor : Text) (is_update : Bool) (domain m : Text) (c : Change)
      → Domains.publish h ctx manifests z actor is_update domain m ≡ ok c
      → IsPublished manifests actor is_update domain m c
  unfolding Domains.publish
  publish-IsPublished manifests actor is_update domain m c e =
      let (d, p, e1) = >>=-eq-ok (Domains.map_err (Naming.parse domain) _) _ e in
      let (t, f, e2) = >>=-eq-ok (Domains.ok_or (lookup_tld d.tld z) _) _ e1 in
      let (u, k, e3) = >>=-eq-ok (Domains.check_publishable h ctx d.tld t) _ e2 in
      let (u', x, e4) = >>=-eq-ok (Domains.check_existing actor (fqdn d) is_update _) _ e3 in
      let (u'', mm, e5) = >>=-eq-ok (Domains.check_manifest h manifests actor (fqdn d) m) _ e4 in
      let (rec, s, e6) = >>=-eq-ok (DomainSigning.signed h ctx.official_operator _) _ e5 in
      record {
        d = d;
        parsed = map_err-ok (Naming.parse domain) _ p;
        tld_rec = t;
        tld_found = ok_or-some (lookup_tld d.tld z) _ f;
        publishable = k;
        existing = x;
        manifest = mm;
        rec = rec;
        signed = s;
        wrote = ground arith;
        role = ground arith;
      }

  pub record IsStatusChange (actor : Text) (is_root : Bool) (domain : Text) (status : DomainStatus)
      (c : Change) : Type 0 where
    pub old : DomainRecord
    pub found : get (to_ascii_lowercase domain) z.domains ≡ some old
    pub tld_rec : TldRecord
    pub tld_found : lookup_tld old.tld z ≡ some tld_rec
    pub role : Domains.status_role is_root actor tld_rec ≡ ok c.role
    pub allowed : Domains.allowed_domain_transition old.status status is_root ≡ true
    pub operator : text_eq tld_rec.operator_public_key (node_id h ctx.official_operator) ≡ true
    pub rec : DomainRecord
    pub signed :
        DomainSigning.signed h ctx.official_operator (record old {
          status = status;
          updated_at = h.chrono.to_rfc3339 ctx.now;
          signature = none;
        })
        ≡ ok rec
    pub wrote : c.zone ≡ record z { domains = insert (to_ascii_lowercase domain) rec z.domains }

  pub set_domain_status-IsStatusChange :
      (actor : Text) (is_root : Bool) (domain : Text) (status : DomainStatus) (c : Change)
      → Domains.set_domain_status h ctx z actor is_root domain status ≡ ok c
      → IsStatusChange actor is_root domain status c
  unfolding Domains.set_domain_status
  set_domain_status-IsStatusChange actor is_root domain status c e =
      let name = to_ascii_lowercase domain in
      let (old, f, e1) = >>=-eq-ok (Domains.ok_or (get name z.domains) _) _ e in
      let (t, g, e2) = >>=-eq-ok (Domains.ok_or (lookup_tld old.tld z) _) _ e1 in
      let (r, who, e3) = >>=-eq-ok (Domains.status_role is_root actor t) _ e2 in
      let (u, al, e4) =
        >>=-eq-ok (guard (Domains.allowed_domain_transition old.status status is_root) _) _ e3 in
      let (u', op, e5) =
        >>=-eq-ok (guard (text_eq t.operator_public_key (node_id h ctx.official_operator)) _) _
          e4 in
      let (rec, s, e6) = >>=-eq-ok (DomainSigning.signed h ctx.official_operator _) _ e5 in
      record {
        old = old;
        found = ok_or-some (get name z.domains) _ f;
        tld_rec = t;
        tld_found = ok_or-some (lookup_tld old.tld z) _ g;
        role = ground arith;
        allowed = guard-true _ _ al;
        operator = guard-true _ _ op;
        rec = rec;
        signed = s;
        wrote = ground arith;
      }

  pub record IsIssued (actor : Text) (is_root : Bool) (rec : DomainRecord) (c : Change)
      : Type 0 where
    pub tld_rec : TldRecord
    pub tld_found : lookup_tld rec.tld z ≡ some tld_rec
    pub operator : text_eq actor tld_rec.operator_public_key ≡ true
    pub verified : DomainSigning.verify h rec actor ≡ ok tt
    pub reissue : Domains.check_reissue is_root (get rec.domain z.domains) ≡ ok tt
    pub wrote : c.zone ≡ record z { domains = insert rec.domain rec z.domains }
    pub role : c.role ≡ ActorRole.tld_operator

  pub issue_domain-IsIssued :
      (actor : Text) (is_root : Bool) (rec : DomainRecord) (c : Change)
      → Domains.issue_domain h z actor is_root rec ≡ ok c
      → IsIssued actor is_root rec c
  unfolding Domains.issue_domain
  issue_domain-IsIssued actor is_root rec c e =
      let (t, f, e1) = >>=-eq-ok (Domains.ok_or (lookup_tld rec.tld z) _) _ e in
      let (u, g, e2) = >>=-eq-ok (guard (Domains.is_root_managed t.registry_type) _) _ e1 in
      let (u', op, e3) = >>=-eq-ok (guard (text_eq actor t.operator_public_key) _) _ e2 in
      let (l, v, e4) = >>=-eq-ok (Domains.map_err (validate_label rec.label) _) _ e3 in
      let (w, ver, e5) = >>=-eq-ok (DomainSigning.verify h rec actor) _ e4 in
      let (x, ex, e6) = >>=-eq-ok (guard (not (DomainSigning.is_expired h rec)) _) _ e5 in
      let (y, re, e7) = >>=-eq-ok (Domains.check_reissue is_root (get rec.domain z.domains)) _ e6 in
      record {
        tld_rec = t;
        tld_found = ok_or-some (lookup_tld rec.tld z) _ f;
        operator = guard-true _ _ op;
        verified = ver;
        reissue = re;
        wrote = ground arith;
        role = ground arith;
      }

-- A signed record has the fields of the record that was signed.
pub signed-fields :
    (h : Host) (i : NodeIdentity) (rec rec' : DomainRecord)
    → DomainSigning.signed h i rec ≡ ok rec'
    → rec' ≡ record rec { signature = rec'.signature }
unfolding DomainSigning.signed
signed-fields h i rec rec' e = ground arith
