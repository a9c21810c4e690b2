-- ===== src/Cluster/Rules/Parsed.antt =====
-- provider/osio/osio.go and rules/rules.go: the rule of a frontend, as the server reads it.
use fabric8_oso_proxy.Base.{List, [], ◌∷◌, ◌≡◌, refl}
use fabric8_oso_proxy.Base.Run.{M}
use fabric8_oso_proxy.Base.Strings.{Str, codes}
use fabric8_oso_proxy.Base.Fields.{join}
use fabric8_oso_proxy.Base.Trim.{space_len, space_len_back}
use fabric8_oso_proxy.Cluster.Rules.{Route, create_frontend, normalize_url}
use fabric8_oso_proxy.Rules.{Function, headers, is_comma, is_semicolon, parse_rules}
use fabric8_oso_proxy.Rules.Parsed.{run_rules, parse_rules-print_rules}
use fabric8_oso_proxy.Rules.Printed.{
  IsArgument, KeepsColons, IsRule, print_args, lacks, lacks_sound,
}

abbrev pub header_args : Str → List Str
header_args url = codes "Target" ∷ normalize_url url ∷ []

-- The rule of the first route.
abbrev pub first_rule : List (Str × Route) → Str
first_rule [] = []
first_rule ((_, r) ∷ _) = r.rule

target_IsArgument : IsArgument (codes "Target")
unfolding lacks space_len space_len_back
target_IsArgument = (
  (lacks_sound is_comma (codes "Target") refl, λ e. cc),
  lacks_sound is_semicolon (codes "Target") refl,
  (refl, refl),
)

-- The rule that the provider writes for a cluster is read by the server as one rule, on the
-- header Target with the cluster's URL without its last slash, if that URL is readable as an
-- argument.
pub parse_rules-create_frontend :
    {S : Type 0} (on_rule : Function → List Str → M S (Unit {0})) (url backend : Str) (s : S)
    → IsArgument (normalize_url url)
    → KeepsColons (print_args (header_args url))
    → parse_rules on_rule (first_rule (create_frontend url backend).routes) s
      ≡ run_rules on_rule ((headers, header_args url) ∷ []) s
unfolding create_frontend join
parse_rules-create_frontend on_rule url backend s argument colons =
    let rule : IsRule (headers, header_args url) = record {
      has_args = λ e. cc;
      args = (target_IsArgument, (argument, tt));
      colons = colons;
    } in
    parse_rules-print_rules on_rule (headers, header_args url) [] s (rule, tt)
