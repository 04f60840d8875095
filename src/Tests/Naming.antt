-- ===== src/Tests/Naming.antt =====
-- Domains and addresses.
use federate.Base.{
  ◌≡◌, refl, some, codes, text_eq, trim, trim_end_matches, is_whitespace, trim_start_matches,
  to_ascii_lowercase, split_first, split_once, contains, len, ends_with, strip_prefix,
}
use federate.Core.{ok}
use federate.Naming
use federate.Naming.{FederateDomain, validate_label, validate_tld_name, parse_parts, fqdn}
use federate.Naming.Parse.{IsCanonical, parse-fqdn-parse}
use federate.Uri
use federate.Uri.{FederateUri, authority, tail, parse_rest, to_string}
use federate.Uri.Body.{IsWellFormed, body}
use federate.Uri.Print.{parse-to_string}
use federate.Uri.WellFormed.{parse-IsWellFormed}

abbrev home : FederateDomain
home = record { name = codes "home"; tld = codes "fed" }

home_parsed : Naming.parse (codes "Home.FED:80") ≡ ok home
unfolding Naming.parse parse_parts split_first split_once to_ascii_lowercase contains validate_label
    validate_tld_name trim trim_start_matches trim_end_matches is_whitespace len ends_with
home_parsed = refl

parse-fqdn-parse_example : IsCanonical home × (Naming.parse (fqdn home) ≡ ok home)
parse-fqdn-parse_example = parse-fqdn-parse (codes "Home.FED:80") home_parsed

abbrev page : FederateUri
page = record { domain = home; path = codes "/docs"; query = some (codes "a=1") }

page_parsed : Uri.parse (codes " fed://home.fed/docs?a=1#top") ≡ ok page
unfolding Uri.parse parse_rest authority tail strip_prefix Naming.parse parse_parts split_first
    split_once to_ascii_lowercase contains validate_label validate_tld_name trim trim_start_matches
    trim_end_matches is_whitespace len ends_with
page_parsed = refl

parse-IsWellFormed_example : IsWellFormed page
parse-IsWellFormed_example =
    parse-IsWellFormed (codes " fed://home.fed/docs?a=1#top") page page_parsed

page_trimmed : trim_end_matches is_whitespace (body page) ≡ body page
unfolding trim_end_matches is_whitespace text_eq
page_trimmed = refl

page-IsWellFormed : IsWellFormed page
page-IsWellFormed = parse-IsWellFormed (codes " fed://home.fed/docs?a=1#top") page page_parsed

parse-to_string_example : Uri.parse (to_string page) ≡ ok page
parse-to_string_example = parse-to_string page page-IsWellFormed page_trimmed
