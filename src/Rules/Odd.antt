-- ===== src/Rules/Odd.antt =====
-- rules/rules.go: rules that call the router's `Queries` with an odd number of texts.
use fabric8_oso_proxy.Base.{
  Bool, true, false, not, ◌&&◌, ◌||◌, Option, none, some, List, [], ◌∷◌, ◌≡◌, ◌⊎◌, inl, inr, refl,
  sym, ap, ◌∙◌,
}
use fabric8_oso_proxy.Base.Fields.{fields_func}
use fabric8_oso_proxy.Base.Maps.{lookup}
use fabric8_oso_proxy.Base.Run.{Error, rule_failed, Run, fail, panic, Outcome, ok, err, crash}
use fabric8_oso_proxy.Base.Strings.{Str}
use fabric8_oso_proxy.Base.Trim.{trim_space}
use fabric8_oso_proxy.Rules.{
  Function, functions, is_colon, with_args, with_function, with_parts, read_rule, called,
  apply_rules,
}
use fabric8_oso_proxy.Rules.Routes.{
  Strings, Mux, ServerRoute, is_query, split_pairs, call, returns_route, on_rule, checked_route,
  parsed, with_priority,
}

abbrev pub Returns : {A : Type 0} → Outcome A → Type 0
Returns crash = ⊥
Returns _ = Unit {0}

with_args-Returns : (rule : Str) (f : Function) (args : List Str) → Returns (with_args rule f args)
with_args-Returns rule f [] = tt
with_args-Returns rule f (a ∷ args) = tt

with_function-Returns :
    (rule name : Str) (o : Option Function) (parts : List Str)
    → Returns (with_function rule name o parts)
with_function-Returns rule name none parts = tt
with_function-Returns rule name (some f) parts = with_args-Returns rule f _

with_parts-Returns : (rule : Str) (parts : List Str) → Returns (with_parts rule parts)
with_parts-Returns rule [] = tt
with_parts-Returns rule (name ∷ parts) =
    with_function-Returns rule name (lookup (trim_space name) functions) parts

pub read_rule-Returns : (rule : Str) → Returns (read_rule rule)
unfolding read_rule
read_rule-Returns rule = with_parts-Returns rule (fields_func is_colon rule)

abbrev pub is_even : {A : Type 0} → List A → Bool
is_even [] = true
is_even (x ∷ xs) = not (is_even xs)

-- A call of "Query" whose arguments have an odd number of parts between their equals signs.
abbrev pub is_odd_query : Function → List Str → Bool
is_odd_query f args = is_query f && not (is_even (split_pairs args))

-- The router's `Queries` wants pairs, and returns nil for anything else.
abbrev pub WantsPairs : {R : Type 0} → Mux R → Type 0
WantsPairs {R} mux = (qs : List Str) (t : R) → (mux.with_queries qs t).1 ≡ is_even qs

module _ {R : Type 0} (l : Strings) (mux : Mux R) where
  -- Behind rules that the router accepts, one has an odd query, and leaves the route `t`.
  abbrev pub HasOddQuery : List Str → ServerRoute R → ServerRoute R → Type 0
  HasOddQuery [] r t = ⊥
  HasOddQuery (x ∷ rules) r t =
      (f : Function) × (args : List Str) × (read_rule x ≡ ok (f, args))
      × (((is_odd_query f args ≡ true) × (t ≡ call l mux f args r))
          ⊎ ((is_odd_query f args ≡ false)
              × (mux.get_error (call l mux f args r).route ≡ none)
              × HasOddQuery rules (call l mux f args r) t))

  returns_route-is_odd_query :
      (f : Function) (args : List Str) (r : ServerRoute R)
      → WantsPairs mux
      → returns_route l mux f args r ≡ not (is_odd_query f args)
  unfolding returns_route
  returns_route-is_odd_query f args r pairs =
      rw (pairs (split_pairs args) r.route) (not_and (is_query f) (is_even (split_pairs args)))
    where
      not_and : (a b : Bool) → (not a || b) ≡ not (a && not b)
      not_and true true = refl
      not_and true false = refl
      not_and false b = refl

  -- What `getRoute` makes of the end of the rules.
  abbrev pub ended :
      Str → Run (ServerRoute R × Option R) (Unit {0}) → Run (ServerRoute R) (Unit {0})
  ended rule p = with_priority l mux rule (parsed l mux p)

  abbrev pub applied :
      List Str → ServerRoute R → Option R → Run (ServerRoute R × Option R) (Unit {0})
  applied rules r o = apply_rules (on_rule l mux) rules (r, o)

  -- The first rule is read, and its method called.
  pub applied_odd :
      (x : Str) (rules : List Str) (f : Function) (args : List Str) (r : ServerRoute R)
      (o : Option R)
      → WantsPairs mux
      → read_rule x ≡ ok (f, args)
      → is_odd_query f args ≡ true
      → applied (x ∷ rules) r o ≡ panic (call l mux f args r, none)
  unfolding apply_rules on_rule
  applied_odd x rules f args r o pairs reads odd =
      rw (reads, returns_route-is_odd_query f args r pairs, odd) refl

  applied_even :
      (x : Str) (rules : List Str) (f : Function) (args : List Str) (r : ServerRoute R)
      (o : Option R)
      → WantsPairs mux
      → read_rule x ≡ ok (f, args)
      → is_odd_query f args ≡ false
      → applied (x ∷ rules) r o
        ≡ called
            (on_rule l mux)
            (checked_route l mux
              (mux.get_error (call l mux f args r).route)
              (call l mux f args r, some (call l mux f args r).route))
            (apply_rules (on_rule l mux) rules)
  unfolding apply_rules on_rule
  applied_even x rules f args r o pairs reads even =
      rw (reads, returns_route-is_odd_query f args r pairs, even) refl

  pub applied_accepted :
      (x : Str) (rules : List Str) (f : Function) (args : List Str) (r : ServerRoute R)
      (o : Option R)
      → WantsPairs mux
      → read_rule x ≡ ok (f, args)
      → is_odd_query f args ≡ false
      → mux.get_error (call l mux f args r).route ≡ none
      → applied (x ∷ rules) r o
        ≡ applied rules (call l mux f args r) (some (call l mux f args r).route)
  applied_accepted x rules f args r o pairs reads even fine =
      applied_even x rules f args r o pairs reads even ∙ rw fine refl

  pub applied_refused :
      (x : Str) (rules : List Str) (f : Function) (args : List Str) (r : ServerRoute R)
      (o : Option R) (e : Error)
      → WantsPairs mux
      → read_rule x ≡ ok (f, args)
      → is_odd_query f args ≡ false
      → mux.get_error (call l mux f args r).route ≡ some e
      → applied (x ∷ rules) r o
        ≡ fail (rule_failed e) (call l mux f args r, some (call l mux f args r).route)
  applied_refused x rules f args r o e pairs reads even refused =
      applied_even x rules f args r o pairs reads even ∙ rw refused refl

  pub complete :
      (rule : Str) (rules : List Str) (r t : ServerRoute R) (o : Option R)
      → WantsPairs mux
      → HasOddQuery rules r t
      → ended rule (applied rules r o) ≡ panic t
  complete rule [] r t o pairs h = absurd h
  complete rule (x ∷ rules) r t o pairs (f, args, reads, inl (odd, left)) =
      ap (ended rule) (applied_odd x rules f args r o pairs reads odd) ∙ ap panic (sym left)
  complete rule (x ∷ rules) r t o pairs (f, args, reads, inr (even, fine, later)) =
      ap (ended rule) (applied_accepted x rules f args r o pairs reads even fine)
      ∙ complete rule rules (call l mux f args r) t _ pairs later

  pub applied_unread :
      (x : Str) (rules : List Str) (r : ServerRoute R) (o : Option R) (e : Error)
      → read_rule x ≡ err e
      → applied (x ∷ rules) r o ≡ fail e (r, o)
  unfolding apply_rules
  applied_unread x rules r o e unread = rw unread refl
