-- ===== src/Rules/Parsed.antt =====
-- rules/rules.go: `parseRules` on rules that are written down.
use fabric8_oso_proxy.Base.{List, [], ◌∷◌, ◌++◌, ◌≡◌, ◌≢◌, refl, sym, ap, ◌∙◌, map, All}
use mathlib.Core.List.{append-nil}
use fabric8_oso_proxy.Base.Fields.{join, IsFilled, fields_func-join}
use fabric8_oso_proxy.Base.Run.{Error, done, fail, M, err}
use fabric8_oso_proxy.Base.Strings.{Str, codes, equal_ne}
use fabric8_oso_proxy.Rules.{
  Function, is_semicolon, Rule, read_rule, called, apply_rules, parse_rules,
}
use fabric8_oso_proxy.Rules.Printed.{
  print_rule, print_rules, name-append-ne-nil, print_rules_are_fields, IsRule, read_rule-print_rule,
}

All-append {ℓ κ} :
    {A : Type ℓ} (P : A → Type κ) (xs ys : List A) → All P xs → All P ys → All P (xs ++ ys)
All-append P [] ys h k = k
All-append P (x ∷ xs) ys (i, h) k = (i, All-append P xs ys h k)

join-ne-nil : (t : Str) (ts : List Str) → t ≢ [] → join (t ∷ ts) (codes ";") ≢ []
unfolding join
join-ne-nil t [] h = h
join-ne-nil t (u ∷ ts) h = name-append-ne-nil t (b';' ∷ join (u ∷ ts) (codes ";")) h

module _ {S : Type 0} (on_rule : Function → List Str → M S (Unit {0})) where
  -- The calls that a list of rules asks for, and what follows them.
  abbrev pub run_then : List Rule → M S (Unit {0}) → M S (Unit {0})
  run_then [] k s = k s
  run_then ((f, args) ∷ rules) k s = called on_rule (on_rule f args s) (run_then rules k)

  abbrev pub run_rules : List Rule → M S (Unit {0})
  run_rules rules = run_then rules (done tt)

  -- Texts between semicolons are read one after the other.
  parse_rules-join :
      (t : Str) (ts : List Str) (s : S)
      → All (IsFilled is_semicolon) (t ∷ ts)
      → parse_rules on_rule (join (t ∷ ts) (codes ";")) s ≡ apply_rules on_rule (t ∷ ts) s
  unfolding parse_rules
  parse_rules-join t ts s h =
      rw (equal_ne (join (t ∷ ts) (codes ";")) [] (join-ne-nil t ts h.0.1))
        (ap (λ fs. apply_rules on_rule fs s) (fields_func-join is_semicolon b';' t ts refl h))

  apply_rules-append :
      (rules : List Rule) (rest : List Str) (s : S)
      → All IsRule rules
      → apply_rules on_rule (map print_rule rules ++ rest) s
        ≡ run_then rules (apply_rules on_rule rest) s
  unfolding apply_rules
  apply_rules-append [] rest s h = refl
  apply_rules-append (r ∷ rules) rest s (i, h) =
      rw (read_rule-print_rule r i)
        (ap (called on_rule (on_rule r.0 r.1 s)) (λ j t. apply_rules-append rules rest t h j))

  apply_rules_none : (s : S) → apply_rules on_rule [] s ≡ done tt s
  unfolding apply_rules
  apply_rules_none s = refl

  apply_rules_bad :
      (bad : Str) (rest : List Str) (e : Error) (s : S)
      → read_rule bad ≡ err e
      → apply_rules on_rule (bad ∷ rest) s ≡ fail e s
  unfolding apply_rules
  apply_rules_bad bad rest e s h = rw h refl

  -- Rules that are written down and read again are called one after the other, with their
  -- functions and their arguments, whatever the closure does: the first error ends the reading,
  -- and a panic is passed on. There is a rule at least; each has an argument, no argument is
  -- empty, has a comma, a semicolon or white space at its ends, and the text of a rule's
  -- arguments has no colon at its ends or next to another one.
  pub parse_rules-print_rules :
      (r : Rule) (rules : List Rule) (s : S)
      → All IsRule (r ∷ rules)
      → parse_rules on_rule (print_rules (r ∷ rules)) s ≡ run_rules (r ∷ rules) s
  parse_rules-print_rules r rules s h =
      parse_rules-join (print_rule r) (map print_rule rules) s
        (print_rules_are_fields (r ∷ rules) h)
      ∙ ap (λ ts. apply_rules on_rule ts s) (sym (append-nil (map print_rule (r ∷ rules))))
      ∙ apply_rules-append (r ∷ rules) [] s h
      ∙ ap (λ k. run_then (r ∷ rules) k s) (λ j t. apply_rules_none t j)

  -- An unreadable rule stops parse_rules after the rules before it.
  pub parse_rules_stops :
      (rules : List Rule) (bad : Str) (rest : List Str) (e : Error) (s : S)
      → All IsRule rules
      → All (IsFilled is_semicolon) (bad ∷ rest)
      → read_rule bad ≡ err e
      → parse_rules on_rule (join (map print_rule rules ++ bad ∷ rest) (codes ";")) s
        ≡ run_then rules (fail e) s
  parse_rules_stops [] bad rest e s h k b =
      parse_rules-join bad rest s k ∙ apply_rules_bad bad rest e s b
  parse_rules_stops (r ∷ rules) bad rest e s h k b =
      parse_rules-join (print_rule r) (map print_rule rules ++ bad ∷ rest) s (
        All-append (IsFilled is_semicolon) (map print_rule (r ∷ rules)) (bad ∷ rest)
          (print_rules_are_fields (r ∷ rules) h) k)
      ∙ apply_rules-append (r ∷ rules) (bad ∷ rest) s h
      ∙ ap (λ c. run_then (r ∷ rules) c s) (λ j t. apply_rules_bad bad rest e t b j)
