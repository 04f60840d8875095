-- ===== src/Store/Actions/Frame.antt =====
-- Every accepted action writes exactly one record of the zone, and leaves its version, its key and
-- its audit trail alone.
use federate.Base.{Text, Bool, true, false, to_ascii_lowercase, All-get, ◌≡◌, refl, arith, inl, inr}
use federate.Core.{ok}
use federate.Root.{RootZone}
use federate.Mutation.{
  MutationAction, publish_site, update_domain_manifest, set_domain_status, issue_domain,
  delegate_tld, update_tld, create_tld, reserve_tld, block_tld, set_tld_status,
  update_registry_pointer,
}
use federate.Host.{Host}
use federate.Store.{MutationContext, Change}
use federate.Store.Prepare.{RegistryStore, run_action}
use federate.Store.Actions.Domains
use federate.Store.Actions.Writes.{
  DomainWrite, IsWrite, delegate_tld-TldWrite, create_tld-TldWrite, restrict_tld-TldWrite,
  update_tld-TldWrite, set_tld_status-TldWrite, update_registry_pointer-TldWrite,
}
use federate.Store.Actions.DomainWrites.{
  publish-IsPublished, set_domain_status-IsStatusChange, issue_domain-IsIssued, signed-fields,
  lookup_tld-contains,
}

module _ (h : Host) (ctx : MutationContext) where
  publish-DomainWrite :
      (s : RegistryStore) (actor : Text) (is_update : Bool) (domain m : Text) (c : Change)
      → Domains.publish h ctx s.manifests s.zone actor is_update domain m ≡ ok c
      → DomainWrite s.zone c.zone
  publish-DomainWrite s actor is_update domain m c e =
      let p = publish-IsPublished h ctx s.zone s.manifests actor is_update domain m c e in
      let known = lookup_tld-contains p.d.tld s.zone p.tld_found in
      let same = signed-fields h ctx.official_operator _ p.rec p.signed in
      record {
        key = _;
        rec = p.rec;
        wrote = p.wrote;
        known = unfold Domains.published in rw same known;
        named = λ n. unfold Domains.published in rw same refl;
      }

  pub run_action-IsWrite :
      (s : RegistryStore) (actor : Text) (is_root : Bool) (a : MutationAction) (c : Change)
      → run_action h s ctx actor is_root a ≡ ok c
      → IsWrite s.zone c.zone
  unfolding run_action
  run_action-IsWrite s actor is_root (publish_site d m) c e =
      inl (publish-DomainWrite s actor false d m c e)
  run_action-IsWrite s actor is_root (update_domain_manifest d m) c e =
      inl (publish-DomainWrite s actor true d m c e)
  run_action-IsWrite s actor is_root (set_domain_status d st) c e =
      let p = set_domain_status-IsStatusChange h ctx s.zone actor is_root d st c e in
      let known = lookup_tld-contains p.old.tld s.zone p.tld_found in
      let same = signed-fields h ctx.official_operator _ p.rec p.signed in
      inl (record {
        key = to_ascii_lowercase d;
        rec = p.rec;
        wrote = p.wrote;
        known = rw same known;
        named = λ n.
            rw same (
              All-get (λ p. p.1.domain ≡ p.0) (to_ascii_lowercase d) p.old s.zone.domains n
                p.found);
      })
  run_action-IsWrite s actor is_root (issue_domain rec) c e =
      let p = issue_domain-IsIssued h ctx s.zone actor is_root rec c e in
      inl (record {
        key = rec.domain;
        rec = rec;
        wrote = p.wrote;
        known = lookup_tld-contains rec.tld s.zone p.tld_found;
        named = λ n. refl;
      })
  run_action-IsWrite s actor is_root (delegate_tld d) c e =
      inr (delegate_tld-TldWrite h ctx s.zone is_root d c e)
  run_action-IsWrite s actor is_root (create_tld t p) c e =
      inr (create_tld-TldWrite h ctx s.zone is_root t p c e)
  run_action-IsWrite s actor is_root (reserve_tld t r) c e =
      inr (restrict_tld-TldWrite h ctx s.zone is_root true t r c e)
  run_action-IsWrite s actor is_root (block_tld t r) c e =
      inr (restrict_tld-TldWrite h ctx s.zone is_root false t r c e)
  run_action-IsWrite s actor is_root (update_tld t x y n) c e =
      inr (update_tld-TldWrite h ctx s.zone is_root t x y n c e)
  run_action-IsWrite s actor is_root (set_tld_status t st) c e =
      inr (set_tld_status-TldWrite h ctx s.zone is_root t st c e)
  run_action-IsWrite s actor is_root (update_registry_pointer t r) c e =
      inr (update_registry_pointer-TldWrite h ctx s.zone s.registries actor t r c e)

-- What one write leaves alone.
pub record Frame (z z' : RootZone) : Type 0 where
  pub network : z'.network ≡ z.network
  pub root_version : z'.root_version ≡ z.root_version
  pub root_public_key : z'.root_public_key ≡ z.root_public_key
  pub audit : z'.audit ≡ z.audit

pub IsWrite-Frame : (z z' : RootZone) → IsWrite z z' → Frame z z'
IsWrite-Frame z z' (inl w) = let e = w.wrote in ground arith
IsWrite-Frame z z' (inr w) = let e = w.wrote in ground arith
