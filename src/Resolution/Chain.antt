-- ===== src/Resolution/Chain.antt =====
-- Content is served only along a chain of verified documents from the trust anchor to the block.
use federate.Base.{Bytes, Text, some, ◌≡◌, refl, ap, ◌∙◌, arith, inl, inr}
use federate.Core.{Result, ok}
use federate.Naming
use federate.Naming.{FederateDomain, fqdn}
use federate.Naming.Record.{DomainRecord}
use federate.Root.{RootZone, TldRecord}
use federate.Manifest.{Manifest, resolve_path}
use federate.Host.{Host}
use federate.Storage.{hash_bytes}
use federate.Resolution.{Resolver, Net, Io, Result-cases}
use federate.Resolution.Roots.{root}
use federate.Resolution.Documents.{manifest}
use federate.Resolution.Registries.{locate_record}
use federate.Resolution.Content.{block_traced}
use federate.Resolution.Fresh.{IsHeld, ReadsZones}
use federate.Resolution.Refreshed.{root-IsPinned}
use federate.Resolution.Vouched.{ReadsRegistries}
use federate.Resolution.Stored.{block_traced-IsStored}
use federate.Resolution.Flows.{
  Refuses, flow-content, root_flow-Refuses, record_flow-Refuses, manifest_flow-Refuses,
  block_flow-Refuses,
}
use federate.Resolution.Verified.{Serializes}
use federate.Resolution.Served.{
  IsServed, IsListed, IsDomain, IsSite, check_tld-Refuses, check_tld-IsTld, check_record-Refuses,
  check_record-IsDomain, check_manifest-Refuses, check_manifest-verify, locate-IsListed,
  manifest-read,
}
use federate.Resolution.Resolve.{
  Resolved, Flow, next, root_flow, record_flow, manifest_flow, block_flow, check_tld, check_record,
  check_manifest, rooted, located, read, fetched, serve_file, serve_record, serve_tld, serve_domain,
  resolve,
}

module _ (h : Host) (net : Net) (i : Io) where
  rooted-Refuses : (p : Result RootZone × Resolver) → Refuses (rooted h net i p).0
  rooted-Refuses (r, s) = root_flow-Refuses r

  rooted-eq-next :
      (p : Result RootZone × Resolver) {a : RootZone} {s' : Resolver}
      → rooted h net i p ≡ (next a, s')
      → p ≡ (ok a, s')
  unfolding root_flow
  rooted-eq-next (r, s) q = ground (arith, q)

  located-Refuses :
      (d : FederateDomain) (p : Result DomainRecord × Resolver) → Refuses (located h net i d p).0
  located-Refuses d (r, s) = record_flow-Refuses (fqdn d) r

  located-eq-next :
      (d : FederateDomain) (p : Result DomainRecord × Resolver) {a : DomainRecord} {s' : Resolver}
      → located h net i d p ≡ (next a, s')
      → p ≡ (ok a, s')
  unfolding record_flow
  located-eq-next d (r, s) q = ground (arith, q)

  read-Refuses :
      (d : FederateDomain) (p : Result Manifest × Resolver) → Refuses (read h net i d p).0
  read-Refuses d (r, s) = manifest_flow-Refuses (fqdn d) r

  read-eq-next :
      (d : FederateDomain) (p : Result Manifest × Resolver) {a : Manifest} {s' : Resolver}
      → read h net i d p ≡ (next a, s')
      → p ≡ (ok a, s')
  unfolding manifest_flow
  read-eq-next d (r, s) q = ground (arith, q)

  fetched-Refuses :
      (d : FederateDomain) (p : Result Bytes × Resolver) → Refuses (fetched h net i d p).0
  fetched-Refuses d (r, s) = block_flow-Refuses (fqdn d) r

  fetched-eq-next :
      (d : FederateDomain) (p : Result Bytes × Resolver) {a : Bytes} {s' : Resolver}
      → fetched h net i d p ≡ (next a, s')
      → p ≡ (ok a, s')
  unfolding block_flow
  fetched-eq-next d (r, s) q = ground (arith, q)

  -- The content that a function returned.
  abbrev pub Serves :
      Result Resolved × Resolver → Text → Text → Bytes → Text → Text → Resolver → Type 0
  Serves p name path bytes mime hash s' = p ≡ (ok (Resolved.content name path bytes mime hash), s')

  serve_file-hash :
      (d : FederateDomain) (path p name mime hash : Text) (file : Text × Text) (s s' : Resolver)
      (bytes : Bytes)
      → Serves (serve_file h net i d path file s) name p bytes mime hash s'
      → (hash_bytes h bytes ≡ hash) × (file.1 ≡ hash) × (name ≡ fqdn d)
  unfolding serve_file
  serve_file-hash d path p name mime hash (file, address) s s' bytes q =
      let fetch = block_traced h net i address s in
      let (b, s1, q1, e1) =
        flow-content (fetched h net i d fetch) _ (fetched-Refuses d fetch) refl q in
      let got = fetched-eq-next d fetch q1 in
      let hashed = (block_traced-IsStored h net i address s s1 b got).0 in
      (ground (arith, hashed, e1), ground (arith, e1), ground (arith, e1))

  -- The manifest of the record maps the path to the bytes.
  pub record IsFile (d : FederateDomain) (path : Text) (rec : DomainRecord) (name hash : Text)
      (bytes : Bytes) : Type 0 where
    pub m : Manifest
    pub site : IsSite h (fqdn d) rec m
    pub file : Text
    pub mapped : resolve_path m path ≡ some (file, hash)
    pub addressed : hash_bytes h bytes ≡ hash
    pub named : name ≡ fqdn d

  module _ (total : Serializes h) where
    serve_record-IsFile :
        (d : FederateDomain) (path p name mime hash : Text) (rec : DomainRecord) (s s' : Resolver)
        (bytes : Bytes)
        → Serves (serve_record h net i d path rec s) name p bytes mime hash s'
        → IsFile d path rec name hash bytes
    unfolding serve_record
    serve_record-IsFile d path p name mime hash rec s s' bytes q =
        let step = manifest h net i rec.manifest_hash s in
        let (m, s1, q1, e1) = flow-content (read h net i d step) _ (read-Refuses d step) refl q in
        let (b, address, document, valid) =
          manifest-read h net i rec.manifest_hash s s1 m (read-eq-next d step q1) in
        let (file, s2, q2, e2) =
          flow-content (check_manifest h (fqdn d) path rec m, s1) _
            (check_manifest-Refuses h total (fqdn d) path rec m) refl e1 in
        let (verified, mapped) =
          check_manifest-verify h total (fqdn d) path rec m file
            (ap (λ (p : Flow (Text × Text) × Resolver). p.0) q2) in
        let (hashed, same, named) = serve_file-hash d path p name mime hash file s2 s' bytes e2 in
        record {
          m = m;
          site = record {
            bytes = b;
            address = address;
            document = document;
            valid = valid;
            verified = verified;
          };
          file = file.0;
          mapped = mapped ∙ ap (λ (a : Text). some (file.0, a)) same;
          addressed = hashed;
          named = named;
        }

    serve_tld-IsFile :
        (d : FederateDomain) (path p name mime hash : Text) (zone : RootZone) (t : TldRecord)
        (s s' : Resolver) (bytes : Bytes)
        → ReadsRegistries h
        → Serves (serve_tld h net i d path zone t s) name p bytes mime hash s'
        → (rec : DomainRecord) × IsListed h zone t (fqdn d) rec t.registry_type
          × IsDomain h d t rec
          × IsFile d path rec name hash bytes
    unfolding serve_tld locate_record
    serve_tld-IsFile d path p name mime hash zone t s s' bytes reads q =
        let step = locate_record h net i zone t (fqdn d) s in
        let (rec, s1, q1, e1) =
          flow-content (located h net i d step) _ (located-Refuses d step) refl q in
        let (u, s2, q2, e2) =
          flow-content (check_record h d t rec, s1) _ (check_record-Refuses h total d t rec) refl
            e1 in
        (
          rec,
          locate-IsListed h net i zone t (fqdn d) t.registry_type s s1 rec reads
              (located-eq-next d step q1),
          check_record-IsDomain h total d t rec (ap (λ (p : Flow (Unit {0}) × Resolver). p.0) q2),
          serve_record-IsFile d path p name mime hash rec s2 s' bytes e2,
        )

    module _ (k : Text) (s : Resolver) (zones : ReadsZones h) (registries : ReadsRegistries h)
        (pinned : s.trusted_root_key ≡ some k) (held : IsHeld h k s) where
      serve_domain-IsServed :
          (host path p name mime hash : Text) (d : FederateDomain) (s' : Resolver) (bytes : Bytes)
          → Naming.parse host ≡ ok d
          → Serves (serve_domain h net i path d s) name p bytes mime hash s'
          → IsServed h k host path name bytes hash
      unfolding serve_domain
      serve_domain-IsServed host path p name mime hash d s' bytes parsed q =
          let step = root h net i s in
          let (zone, s1, q1, e1) =
            flow-content (rooted h net i step) _ (rooted-Refuses step) refl q in
          let (verified, key) =
            root-IsPinned h net i k s s1 zone zones pinned held (rooted-eq-next step q1) in
          let (t, s2, q2, e2) =
            flow-content (check_tld h zone d s1.trusted_root_key, s1) _
              (check_tld-Refuses h total zone d s1.trusted_root_key) refl e1 in
          let tld =
            check_tld-IsTld h total k zone d t
              (rw⁻¹ key (ap (λ (p : Flow TldRecord × Resolver). p.0) q2)) in
          let (rec, listed, ok_rec, file) =
            serve_tld-IsFile d path p name mime hash zone t s2 s' bytes registries e2 in
          record {
            d = d;
            parsed = parsed;
            named = file.named;
            zone = zone;
            zone_verified = verified;
            t = t;
            tld = tld;
            rec = rec;
            listed = listed;
            record_ok = ok_rec;
            m = file.m;
            site = file.site;
            file = file.file;
            mapped = file.mapped;
            addressed = file.addressed;
          }

      -- Content for a host and a path is served only along a verified chain. The host is a domain; a
      -- zone that verifies under the pinned key has its TLD; the TLD record is signed by that key,
      -- resolvable and not expired; the domain record stands under the full name in the zone or in a
      -- registry that the operator signed, and is signed by the operator, of the TLD, active and not
      -- expired; the manifest has the address in the record, and is valid and signed by the owner for
      -- the domain; it maps the path to the address of the block, and the bytes hash to it.
      pub resolve-IsServed :
          (host path p name mime hash : Text) (s' : Resolver) (bytes : Bytes)
          → Serves (resolve h net i host path s) name p bytes mime hash s'
          → IsServed h k host path name bytes hash
      unfolding resolve
      resolve-IsServed host path p name mime hash s' bytes q =
          elim (Result-cases (Naming.parse host)) [
            | inl (d, parsed) ↦
                serve_domain-IsServed host path p name mime hash d s' bytes parsed
                  (ground (arith, parsed, q))
            | inr (e, parsed) ↦ ground (arith, parsed, q)
          ]
