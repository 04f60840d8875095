-- ===== src/Naming/Parse.antt =====
-- `FederateDomain::parse` returns canonical domains, and reads the print of a canonical domain back.
use federate.Base.{
  ℕ, Text, false, [], ◌∷◌, ◌++◌, ◌==◌, to_ascii_lowercase, contains, split_once, split_first, ◌≡◌,
  refl, arith, Lacks, some, none, Option, ap,
}
use federate.Core.{ok}
use federate.Naming.{FederateDomain, is_label_char, parse, parse_parts, fqdn}
use federate.Naming.Canonical.{
  IsPlain, IsLabel, IsTld, Tld-IsPlain, lower-plain, validate_label-IsLabel,
  validate_tld_name-IsTld, validate_label_canonical, validate_tld_name_canonical,
}

pub record IsCanonical (d : FederateDomain) : Type 0 where
  pub label : IsLabel d.name
  pub tld : IsTld d.tld

pub split_once-append : (x : ℕ) (s t : Text) → Lacks x s → split_once x (s ++ x ∷ t) ≡ some (s, t)
unfolding split_once
split_once-append x [] t h = ground arith
split_once-append x (c ∷ s) t (hc, hs) = rw (split_once-append x s t hs) (ground arith)

pub plain-Lacks : (x : ℕ) (s : Text) → is_label_char x ≡ false → IsPlain s → Lacks x s
plain-Lacks x [] hx h = tt
plain-Lacks x (c ∷ s) hx h = (ground arith, plain-Lacks x s hx (ground arith))

pub split_first-Lacks : (x : ℕ) (s : Text) → Lacks x s → split_first x s ≡ s
unfolding split_first
split_first-Lacks x [] h = refl
split_first-Lacks x (c ∷ s) (hc, hs) = ground (arith, split_first-Lacks x s hs)

pub contains-Lacks : (x : ℕ) (s : Text) → Lacks x s → contains x s ≡ false
unfolding contains
contains-Lacks x [] h = refl
contains-Lacks x (c ∷ s) (hc, hs) = ground (arith, contains-Lacks x s hs)

pub Lacks-append : (x : ℕ) (s t : Text) → Lacks x s → Lacks x t → Lacks x (s ++ t)
Lacks-append x [] t hs ht = ht
Lacks-append x (c ∷ s) t (hc, hs) ht = (hc, Lacks-append x s t hs ht)

lower-append_dot :
    (s t : Text) → IsPlain s → IsPlain t → to_ascii_lowercase (s ++ b'.' ∷ t) ≡ s ++ b'.' ∷ t
unfolding to_ascii_lowercase
lower-append_dot [] t hs ht = ap (λ (u : Text). b'.' ∷ u) (lower-plain t ht)
lower-append_dot (c ∷ s) t hs ht = ground (arith, lower-append_dot s t (ground arith) ht)

parse_parts_canonical :
    (host : Text) (d : FederateDomain)
    → IsCanonical d
    → parse_parts host (some (d.name, d.tld)) ≡ ok d
unfolding parse_parts
parse_parts_canonical host d c = rw (
  contains-Lacks b'.' d.tld (plain-Lacks b'.' d.tld refl (Tld-IsPlain d.tld c.tld.lowercase)),
  validate_label_canonical d.name c.label,
  validate_tld_name_canonical d.tld c.tld,
)

pub fqdn-Lacks :
    (x : ℕ) (d : FederateDomain)
    → is_label_char x ≡ false
    → (b'.' == x) ≡ false
    → IsCanonical d
    → Lacks x (fqdn d)
unfolding fqdn
fqdn-Lacks x d hx dot c =
    Lacks-append x d.name (b'.' ∷ d.tld) (plain-Lacks x d.name hx c.label.plain)
      (dot, plain-Lacks x d.tld hx (Tld-IsPlain d.tld c.tld.lowercase))

-- Every canonical domain is read back from its fully qualified name.
pub parse-fqdn : (d : FederateDomain) → IsCanonical d → parse (fqdn d) ≡ ok d
unfolding parse
parse-fqdn d c = rw (split_first-Lacks b':' (fqdn d) (fqdn-Lacks b':' d refl refl c)) (
    unfold fqdn in
    rw
      (
        lower-append_dot d.name d.tld c.label.plain (Tld-IsPlain d.tld c.tld.lowercase),
        split_once-append b'.' d.name d.tld (plain-Lacks b'.' d.name refl c.label.plain),
      )
      (parse_parts_canonical _ d c))

parse_parts-IsCanonical :
    (host : Text) (o : Option (Text × Text)) {d : FederateDomain}
    → parse_parts host o ≡ ok d
    → IsCanonical d
unfolding parse_parts
parse_parts-IsCanonical host none h = cc
parse_parts-IsCanonical host (some (name, tld)) {d} h =
    let p = validate_label-IsLabel name d.name in
    let q = validate_tld_name-IsTld tld d.tld in
    record { label = p (ground arith); tld = q (ground arith) }

-- What the parser accepts, from any host header, is a canonical label under a canonical TLD.
pub parse-IsCanonical : (host : Text) {d : FederateDomain} → parse host ≡ ok d → IsCanonical d
unfolding parse
parse-IsCanonical host h = parse_parts-IsCanonical _ _ h

-- Whatever host header was accepted, its domain is canonical and its print parses to it again.
pub parse-fqdn-parse :
    (host : Text) {d : FederateDomain} → parse host ≡ ok d → IsCanonical d × (parse (fqdn d) ≡ ok d)
parse-fqdn-parse host {d} h =
    let c : IsCanonical d = parse-IsCanonical host h in (c, parse-fqdn d c)
