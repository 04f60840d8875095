-- ===== src/Uri/Print.antt =====
-- The print of a well-formed address parses to it again, and the parser returns well-formed ones.
use federate.Base.{
  Text, false, [], ◌∷◌, ◌++◌, is_empty, trim_end_matches, is_whitespace, ◌≡◌, refl, arith,
}
use federate.Core.{ok}
use federate.Naming
use federate.Naming.{FederateDomain}
use federate.Naming.Parse.{split_first-Lacks, contains-Lacks, fqdn-Lacks, parse-fqdn}
use federate.Uri.{FederateUri, parse_rest, parse, to_string}
use federate.Uri.Body.{
  IsWellFormed, body, trim-to_string, authority-append, fqdn-no_delimiter, body-starts, body-Lacks,
  body-parts, strip_prefix-scheme,
}

fqdn-nonempty : (d : FederateDomain) (t : Text) → is_empty (Naming.fqdn d ++ t) ≡ false
unfolding Naming.fqdn
fqdn-nonempty d t = go d.name d.tld
  where
    go : (n m : Text) → is_empty ((n ++ b'.' ∷ m) ++ t) ≡ false
    go [] m = refl
    go (c ∷ n) m = refl

parse_rest-body :
    (s : Text) (u : FederateUri)
    → IsWellFormed u
    → parse_rest s (Naming.fqdn u.domain ++ body u) ≡ ok u
unfolding parse_rest
parse_rest-body s u w =
    let a =
      authority-append (Naming.fqdn u.domain) (body u) (fqdn-no_delimiter u.domain w.domain)
        (body-starts u w) in
    let b = body-parts u w in
    rw
      (
        fqdn-nonempty u.domain (body u),
        a.0,
        a.1,
        contains-Lacks b'@' _ (fqdn-Lacks b'@' u.domain refl refl w.domain),
        contains-Lacks b':' _ (fqdn-Lacks b':' u.domain refl refl w.domain),
        parse-fqdn u.domain w.domain,
        split_first-Lacks b'#' (body u) (body-Lacks u w),
        b.0,
        b.1,
        w.rooted,
      )
      (ground (arith, w.short))

-- The print of a well-formed address that does not end in white space parses to the address.
pub parse-to_string :
    (u : FederateUri)
    → IsWellFormed u
    → trim_end_matches is_whitespace (body u) ≡ body u
    → parse (to_string u) ≡ ok u
unfolding parse
parse-to_string u w h =
    rw (trim-to_string u w.domain h)
      (unfold to_string in rw (strip_prefix-scheme _) (parse_rest-body _ u w))
