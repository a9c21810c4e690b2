-- ===== src/Rules.antt =====
-- rules/rules.go: the expressions that choose the requests of a frontend.
pub mod Printed
pub mod Domains
pub mod Parsed
pub mod Routes
pub mod Odd
pub mod Nil
use fabric8_oso_proxy.Base.{
  ℕ, Bool, true, false, ◌||◌, Option, none, some, List, [], ◌∷◌, ◌++◌, map, ◌==◌, if◌then◌else◌,
}
use fabric8_oso_proxy.Base.Fields.{fields_func, join}
use fabric8_oso_proxy.Base.Maps.{lookup}
use fabric8_oso_proxy.Base.Run.{
  Error, empty_rule, bad_rule, no_arguments, unknown_function, rule_failed, domains_failed, Run,
  done, fail, panic, M, after, Outcome, ok, err, crash,
}
use fabric8_oso_proxy.Base.Strings.{Str, codes, equal}
use fabric8_oso_proxy.Base.Trim.{trim_space}

-- The functions of the table, by their methods.
pub data Function : Type 0 where
  host host_regexp : Function
  path path_strip path_strip_regex : Function
  path_prefix path_prefix_strip path_prefix_strip_regex : Function
  methods headers headers_regexp : Function
  add_prefix replace_path replace_path_regex : Function
  query : Function

abbrev pub function_name : Function → Str
function_name host = codes "Host"
function_name host_regexp = codes "HostRegexp"
function_name path = codes "Path"
function_name path_strip = codes "PathStrip"
function_name path_strip_regex = codes "PathStripRegex"
function_name path_prefix = codes "PathPrefix"
function_name path_prefix_strip = codes "PathPrefixStrip"
function_name path_prefix_strip_regex = codes "PathPrefixStripRegex"
function_name methods = codes "Method"
function_name headers = codes "Headers"
function_name headers_regexp = codes "HeadersRegexp"
function_name add_prefix = codes "AddPrefix"
function_name replace_path = codes "ReplacePath"
function_name replace_path_regex = codes "ReplacePathRegex"
function_name query = codes "Query"

abbrev pub entry : Function → Str × Function
entry f = (function_name f, f)

abbrev pub functions : List (Str × Function)
functions =
    entry host
    ∷ entry host_regexp
    ∷ entry path
    ∷ entry path_strip
    ∷ entry path_strip_regex
    ∷ entry path_prefix
    ∷ entry path_prefix_strip
    ∷ entry path_prefix_strip_regex
    ∷ entry methods
    ∷ entry headers
    ∷ entry headers_regexp
    ∷ entry add_prefix
    ∷ entry replace_path
    ∷ entry replace_path_regex
    ∷ entry query
    ∷ []

abbrev pub is_colon : ℕ → Bool
is_colon c = c == b':'

abbrev pub is_semicolon : ℕ → Bool
is_semicolon c = c == b';'

abbrev pub is_comma : ℕ → Bool
is_comma c = c == b','

abbrev pub Rule : Type 0
Rule = Function × List Str

abbrev pub with_args : Str → Function → List Str → Outcome Rule
with_args rule f [] = err (no_arguments rule)
with_args rule f (a ∷ args) = ok (f, map trim_space (a ∷ args))

abbrev pub with_function : Str → Str → Option Function → List Str → Outcome Rule
with_function rule name none parts = err (unknown_function rule name)
with_function rule name (some f) parts =
    with_args rule f (fields_func is_comma (join parts (codes ":")))

-- The parts of a rule between its colons.
abbrev pub with_parts : Str → List Str → Outcome Rule
with_parts rule [] = err (bad_rule rule)
with_parts rule (name ∷ parts) = with_function rule name (lookup (trim_space name) functions) parts

-- The body of the loop, up to the call of `onRule`.
unfoldable pub read_rule : Str → Outcome Rule
read_rule rule = with_parts rule (fields_func is_colon rule)

module _ {S : Type 0} (on_rule : Function → List Str → M S (Unit {0})) where
  abbrev pub called : Run S (Unit {0}) → M S (Unit {0}) → Run S (Unit {0})
  called (done _ s) rest = rest s
  called (fail e s) rest = fail (rule_failed e) s
  called (panic s) rest = panic s

  abbrev pub apply_rule : Outcome Rule → M S (Unit {0}) → M S (Unit {0})
  apply_rule (ok (f, args)) rest s = called (on_rule f args s) rest
  apply_rule (err e) rest s = fail e s
  apply_rule crash rest s = panic s

  unfoldable pub apply_rules : List Str → M S (Unit {0})
  apply_rules [] s = done tt s
  apply_rules (r ∷ rs) s = apply_rule (read_rule r) (apply_rules rs) s

  -- `Rules.parseRules`
  unfoldable pub parse_rules : Str → M S (Unit {0})
  parse_rules expression s =
      if equal expression []
      then fail empty_rule s
      else apply_rules (fields_func is_semicolon expression) s

-- `types.CanonicalDomain`; `to_lower` is `strings.ToLower`.
abbrev pub canonical_domain : (Str → Str) → Str → Str
canonical_domain to_lower domain = to_lower (trim_space domain)

abbrev is_host : Function → Bool
is_host host = true
is_host _ = false

-- The closure of `ParseDomains`, on the domains found so far.
abbrev pub add_domains : Function → List Str → M (List Str) (Unit {0})
add_domains f arguments domains = done tt (if is_host f then domains ++ arguments else domains)

abbrev pub domains_of : (Str → Str) → Run (List Str) (Unit {0}) → Outcome (List Str)
domains_of to_lower (done _ domains) = ok (map (canonical_domain to_lower) domains)
domains_of to_lower (fail e domains) = err (domains_failed e)
domains_of to_lower (panic domains) = crash

-- `Rules.ParseDomains`
unfoldable pub parse_domains : (Str → Str) → Str → Outcome (List Str)
parse_domains to_lower expression = domains_of to_lower (parse_rules add_domains expression [])
