-- ===== src/Rules/Domains.antt =====
-- rules/rules.go: the domains of an expression, and the requests that its hosts choose.
use mathlib.Core.List.{append-nil, append_assoc}
use fabric8_oso_proxy.Base.{
  Bool, true, false, ◌||◌, List, [], ◌∷◌, ◌++◌, ◌≡◌, refl, sym, ap, ◌∙◌, map, All, if◌then◌else◌,
}
use fabric8_oso_proxy.Base.Run.{done, ok}
use fabric8_oso_proxy.Base.Strings.{Str, equal}
use fabric8_oso_proxy.Rules.{host, Rule, is_host, add_domains, canonical_domain, parse_domains}
use fabric8_oso_proxy.Rules.Parsed.{run_rules, parse_rules-print_rules}
use fabric8_oso_proxy.Rules.Printed.{print_rules, IsRule}
use fabric8_oso_proxy.Rules.Routes.{Strings, MatchedRequest, or_whole, is_any_domain, matches_host}

-- The arguments of the `Host` rules, in order.
abbrev pub hosts_of : List Rule → List Str
hosts_of [] = []
hosts_of ((f, args) ∷ rules) = (if is_host f then args else []) ++ hosts_of rules

domains-if :
    (b : Bool) (domains args : List Str)
    → (if b then domains ++ args else domains) ≡ domains ++ (if b then args else [])
domains-if true domains args = refl
domains-if false domains args = sym (append-nil domains)

run_rules-add_domains :
    (rules : List Rule) (domains : List Str)
    → run_rules add_domains rules domains ≡ done tt (domains ++ hosts_of rules)
run_rules-add_domains [] domains = ap (done tt) (sym (append-nil domains))
run_rules-add_domains ((f, args) ∷ rules) domains =
    run_rules-add_domains rules (if is_host f then domains ++ args else domains)
    ∙ ap (λ ds. done tt (ds ++ hosts_of rules)) (domains-if (is_host f) domains args)
    ∙ ap (done tt) (append_assoc domains (if is_host f then args else []) (hosts_of rules))

-- parse_domains of printed rules gives the canonical hosts of the Host rules.
pub parse_domains-print_rules :
    (to_lower : Str → Str) (r : Rule) (rules : List Rule)
    → All IsRule (r ∷ rules)
    → parse_domains to_lower (print_rules (r ∷ rules))
      ≡ ok (map (canonical_domain to_lower) (hosts_of (r ∷ rules)))
unfolding parse_domains
parse_domains-print_rules to_lower r rules h =
    rw (parse_rules-print_rules add_domains r rules [] h, run_rules-add_domains (r ∷ rules) []) refl

-- Whether a list has a text.
pub contains : Str → List Str → Bool
contains s [] = false
contains s (t ∷ ts) = equal s t || contains s ts

is_any_domain-eq-contains :
    (to_lower : Str → Str) (d : Str) (hs : List Str)
    → is_any_domain to_lower d hs
      ≡ contains (canonical_domain to_lower d) (map (canonical_domain to_lower) hs)
unfolding is_any_domain contains
is_any_domain-eq-contains to_lower d [] = refl
is_any_domain-eq-contains to_lower d (h ∷ hs) =
    ap (λ b. equal (canonical_domain to_lower d) (canonical_domain to_lower h) || b)
      (is_any_domain-eq-contains to_lower d hs)

-- The domain of the request, in canonical form.
abbrev pub request_domain : Strings → MatchedRequest → Str
request_domain l req =
    canonical_domain l.to_lower (or_whole req.host_name (l.split_host_port req.host_name))

ok_injective : {A : Type 0} {a b : A} → ok a ≡ ok b → a ≡ b
ok_injective e = cc

-- A request matches the hosts of a rule that is written down exactly if its host, in canonical
-- form, is one of the domains that `ParseDomains` reads from the rule.
pub matches_host-parse_domains :
    (l : Strings) (args : List Str) (req : MatchedRequest) (ds : List Str)
    → IsRule (host, args)
    → parse_domains l.to_lower (print_rules ((host, args) ∷ [])) ≡ ok ds
    → matches_host l args req ≡ contains (request_domain l req) ds
unfolding matches_host
matches_host-parse_domains l args req ds i e =
    let canonical = map (canonical_domain l.to_lower) in
    let same : canonical (args ++ []) ≡ ds =
      ok_injective (sym (parse_domains-print_rules l.to_lower (host, args) [] (i, tt)) ∙ e) in
    is_any_domain-eq-contains l.to_lower _ args
    ∙ ap (contains (request_domain l req)) (ap canonical (sym (append-nil args)) ∙ same)
