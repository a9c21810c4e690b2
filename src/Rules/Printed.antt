-- ===== src/Rules/Printed.antt =====
-- Rules that are written down and read back.
use fabric8_oso_proxy.Base.{
  ℕ, Bool, true, some, List, [], ◌∷◌, ◌++◌, ◌≡◌, ◌≢◌, refl, ap, arith, map, not, ◌&&◌, All,
}
use fabric8_oso_proxy.Base.Fields.{
  fields_func, join, IsField, IsFilled, fields_func-append, fields_func-join,
}
use fabric8_oso_proxy.Base.Maps.{lookup}
use fabric8_oso_proxy.Base.Run.{ok}
use fabric8_oso_proxy.Base.Strings.{Str, codes, equal}
use fabric8_oso_proxy.Base.Trim.{trim_space, IsTrimmed, trim_space_of, space_len, space_len_back}
use fabric8_oso_proxy.Rules.{
  Function, host, function_name, functions, is_colon, is_semicolon, is_comma, Rule, with_args,
  read_rule,
}

-- A rule as an operator writes it.
abbrev pub print_args : List Str → Str
print_args args = join args (codes ",")

abbrev pub print_rule : Rule → Str
print_rule (f, args) = function_name f ++ b':' ∷ print_args args

abbrev pub print_rules : List Rule → Str
print_rules rules = join (map print_rule rules) (codes ";")

-- An argument without commas, semicolons and outer white space.
abbrev pub IsArgument : Str → Type 0
IsArgument a = IsFilled is_comma a × IsField is_semicolon a × IsTrimmed a

-- The text of the arguments has no colon at its ends, and none next to another.
abbrev pub KeepsColons : Str → Type 0
KeepsColons t = join (fields_func is_colon t) (codes ":") ≡ t

pub record IsRule (r : Rule) : Type 0 where
  pub has_args : r.1 ≢ []
  pub args : All IsArgument r.1
  pub colons : KeepsColons (print_args r.1)

-- Whether no byte is a separator, as a test.
unfoldable pub lacks : (ℕ → Bool) → Str → Bool
lacks sep [] = true
lacks sep (c ∷ s) = not (sep c) && lacks sep s

pub lacks_sound : (sep : ℕ → Bool) (s : Str) → lacks sep s ≡ true → IsField sep s
unfolding lacks
lacks_sound sep [] h = tt
lacks_sound sep (c ∷ s) h = (ground arith, lacks_sound sep s (ground arith))

-- The names of the table have no separators and no outer white space, and lead to their functions.
name-lacks_colon : (f : Function) → lacks is_colon (function_name f) ≡ true
unfolding lacks
name-lacks_colon host = refl
name-lacks_colon _ = refl

name-lacks_semicolon : (f : Function) → lacks is_semicolon (function_name f) ≡ true
unfolding lacks
name-lacks_semicolon host = refl
name-lacks_semicolon _ = refl

name-IsTrimmed : (f : Function) → IsTrimmed (function_name f)
unfolding space_len space_len_back
name-IsTrimmed host = (refl, refl)
name-IsTrimmed _ = (refl, refl)

name-ne-nil : (f : Function) → function_name f ≢ []
name-ne-nil host e = cc
name-ne-nil _ e = cc

lookup-name : (f : Function) → lookup (function_name f) functions ≡ some f
unfolding lookup equal
lookup-name host = refl
lookup-name _ = refl

map-trim_space : (args : List Str) → All IsArgument args → map trim_space args ≡ args
map-trim_space [] h = refl
map-trim_space (a ∷ args) ((_, _, trimmed), h) =
    rw (trim_space_of a trimmed) (ap (◌∷◌ a) (map-trim_space args h))

args_are_fields : (args : List Str) → All IsArgument args → All (IsFilled is_comma) args
args_are_fields [] h = tt
args_are_fields (a ∷ args) ((filled, _, _), h) = (filled, args_are_fields args h)

IsField-append : (sep : ℕ → Bool) (s t : Str) → IsField sep s → IsField sep t → IsField sep (s ++ t)
IsField-append sep [] t h k = k
IsField-append sep (c ∷ s) t (i, h) k = (i, IsField-append sep s t h k)

print_args-IsField :
    (args : List Str) → All IsArgument args → IsField is_semicolon (print_args args)
unfolding join
print_args-IsField [] h = tt
print_args-IsField (a ∷ []) ((_, field, _), _) = field
print_args-IsField (a ∷ b ∷ args) ((_, field, _), h) =
    IsField-append is_semicolon a (b',' ∷ print_args (b ∷ args)) field
      (refl, print_args-IsField (b ∷ args) h)

pub name-append-ne-nil : (s t : Str) → s ≢ [] → s ++ t ≢ []
name-append-ne-nil [] t h e = absurd (h refl)
name-append-ne-nil (c ∷ s) t h e = cc

print_rule-IsFilled : (r : Rule) → IsRule r → IsFilled is_semicolon (print_rule r)
print_rule-IsFilled (f, args) ok_rule =
    let name = lacks_sound is_semicolon (function_name f) (name-lacks_semicolon f) in
    (
      IsField-append is_semicolon (function_name f) (b':' ∷ print_args args) name
          (refl, print_args-IsField args ok_rule.args),
      name-append-ne-nil (function_name f) (b':' ∷ print_args args) (name-ne-nil f),
    )

pub print_rules_are_fields :
    (rules : List Rule) → All IsRule rules → All (IsFilled is_semicolon) (map print_rule rules)
print_rules_are_fields [] h = tt
print_rules_are_fields (r ∷ rules) (i, h) =
    (print_rule-IsFilled r i, print_rules_are_fields rules h)

fields_func-args :
    (args : List Str)
    → args ≢ []
    → All IsArgument args
    → fields_func is_comma (print_args args) ≡ args
fields_func-args [] n h = absurd (n refl)
fields_func-args (a ∷ args) n h =
    fields_func-join is_comma b',' a args refl (args_are_fields (a ∷ args) h)

with_args_of :
    (rule : Str) (f : Function) (args : List Str)
    → args ≢ []
    → All IsArgument args
    → with_args rule f args ≡ ok (f, args)
with_args_of rule f [] n h = absurd (n refl)
with_args_of rule f (a ∷ args) n h = ap (λ x. ok (f, x)) (map-trim_space (a ∷ args) h)

pub read_rule-print_rule : (r : Rule) → IsRule r → read_rule (print_rule r) ≡ ok r
unfolding read_rule
read_rule-print_rule (f, args) i =
    let name = lacks_sound is_colon (function_name f) (name-lacks_colon f) in
    let parts =
      fields_func-append is_colon (function_name f) (print_args args) b':' refl
        (name, name-ne-nil f) in
    rw parts (
      rw (trim_space_of (function_name f) (name-IsTrimmed f)) (
        rw (lookup-name f) (
          rw i.colons (
            rw (fields_func-args args i.has_args i.args)
              (with_args_of (print_rule (f, args)) f args i.has_args i.args)))))
