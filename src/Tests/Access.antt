-- ===== src/Tests/Access.antt =====
-- The theorems on certificates and white lists, at concrete names and addresses.
use fabric8_oso_proxy.Base.{
  ℕ, true, false, Option, none, some, List, [], ◌∷◌, ◌≡◌, ◌↔◌, refl, ◌==◌, if◌then◌else◌,
}
use fabric8_oso_proxy.Base.Strings.{Str, codes, equal}
use fabric8_oso_proxy.Rules.{canonical_domain}
use fabric8_oso_proxy.Server.Certificates.{IsAnswer, get_certificate, get_certificate-IsAnswer}
use fabric8_oso_proxy.Types.Domains.{match_domain}
use fabric8_oso_proxy.Types.Domains.Matched.{Matches, match_domain-Matches}
use fabric8_oso_proxy.Whitelist.{Addresses, Ip, Client, entries, is_authorized}
use fabric8_oso_proxy.Whitelist.Authorized.{Admits, is_authorized_iff}

match_domain-Matches_example :
    (match_domain (codes "a.example.org") (codes "*.example.org.") ≡ true)
    ↔ Matches (codes "a.example.org") (codes "*.example.org.")
match_domain-Matches_example = match_domain-Matches (codes "a.example.org") (codes "*.example.org.")

abbrev certificates : List (Str × ℕ)
certificates = (codes "example.org,*.example.org", 1) ∷ []

abbrev no_listener : Option (Str → ℕ)
no_listener = none

get_certificate-IsAnswer_example :
    IsAnswer
      (canonical_domain (λ s. s) (codes "a.example.org"))
      certificates
      no_listener
      (get_certificate (λ s. s) (some certificates) no_listener (codes "a.example.org"))
get_certificate-IsAnswer_example =
    get_certificate-IsAnswer (λ s. s) certificates no_listener (codes "a.example.org")

-- Addresses are texts without a space at the front, and there are no networks.
abbrev parse_text : Str → Option Str
parse_text [] = none
parse_text (c ∷ s) = if c == b' ' then none else some (c ∷ s)

abbrev texts : Addresses Str Str
texts = record {
  parse_ip = parse_text;
  parse_cidr = λ s. none;
  ip_equal = equal;
  net_contains = equal;
  split_host_port = λ s. some s;
}

abbrev listed : Ip Str Str
listed = record {
  ips = codes "10.0.0.1" ∷ [];
  nets = [];
  insecure = false;
  use_x_forwarded_for = true;
}

abbrev proxied : Client
proxied = record {
  x_forwarded_for = codes "10.0.0.9,10.0.0.1" ∷ [];
  remote_addr = codes "10.0.0.7";
}

is_authorized_iff_example :
    (is_authorized texts listed proxied ≡ none)
    ↔ Admits texts listed proxied (entries texts proxied.x_forwarded_for)
is_authorized_iff_example = is_authorized_iff texts listed proxied refl refl
