-- ===== src/Rules/Nil.antt =====
-- rules/rules.go and server/server.go: the expressions on which `getRoute` panics.
use fabric8_oso_proxy.Base.{
  Bool, Option, none, some, List, [], ◌∷◌, ◌≡◌, ◌≢◌, ◌↔◌, ◌⊎◌, inl, inr, refl, sym, ap, ◌∙◌,
  if◌then◌else◌, Bool-cases, Option-cases,
}
use mathlib.Core.Path.{subst}
use fabric8_oso_proxy.Base.Fields.{fields_func}
use fabric8_oso_proxy.Base.Run.{Error, empty_rule, Run, fail, panic, ok, Outcome-cases}
use fabric8_oso_proxy.Base.Strings.{Str, equal, equal_iff, equal_ne}
use fabric8_oso_proxy.Rules.{Function, is_semicolon, read_rule, apply_rules, parse_rules}
use fabric8_oso_proxy.Rules.Routes.{Strings, Mux, ServerRoute, call, parse, get_route}
use fabric8_oso_proxy.Rules.Odd.{
  read_rule-Returns, ended, applied, applied_odd, applied_accepted, applied_refused, complete,
  applied_unread, Returns, is_odd_query, WantsPairs, HasOddQuery,
}

module _ {R : Type 0} (l : Strings) (mux : Mux R) where
  not_failed :
      (rule : Str) (p : Run (ServerRoute R × Option R) (Unit {0})) (e : Error)
      (q : ServerRoute R × Option R) (t : ServerRoute R)
      → p ≡ fail e q
      → ended l mux rule p ≡ panic t
      → ⊥
  not_failed rule p e (r, o) t failed h =
      let h' : ended l mux rule (fail e (r, o)) ≡ panic t =
        sym (ap (ended l mux rule) failed) ∙ h in
      cc

  -- The panic of an odd query, and one behind it.
  abbrev Sound : List Str → ServerRoute R → ServerRoute R → Option R → Type 0
  Sound rules r t o = ((rules ≡ []) × (o ≡ none) × (t ≡ r)) ⊎ HasOddQuery l mux rules r t

  later-Sound :
      (rules : List Str) (r t : ServerRoute R) (u : R)
      → Sound rules r t (some u)
      → HasOddQuery l mux rules r t
  later-Sound rules r t u (inl (_, no_route, _)) = cc
  later-Sound rules r t u (inr h) = h

  read_sound :
      (rule x : Str) (rules : List Str) (f : Function) (args : List Str) (r t : ServerRoute R)
      (o : Option R)
      → WantsPairs mux
      → read_rule x ≡ ok (f, args)
      → ended l mux rule (applied l mux (x ∷ rules) r o) ≡ panic t
      → (ended l mux rule
              (applied l mux rules (call l mux f args r) (some (call l mux f args r).route))
            ≡ panic t
          → HasOddQuery l mux rules (call l mux f args r) t)
      → HasOddQuery l mux (x ∷ rules) r t
  read_sound rule x rules f args r t o pairs reads h below =
      elim (Bool-cases (is_odd_query f args)) [
        | inl odd ↦
            let h' : ended l mux rule (panic (call l mux f args r, none)) ≡ panic t =
              sym (ap (ended l mux rule) (applied_odd l mux x rules f args r o pairs reads odd))
              ∙ h in
            (f, args, reads, inl (odd, cc))
        | inr even ↦ elim (Option-cases (mux.get_error (call l mux f args r).route)) [
          | inl fine ↦
              let h' =
                sym (
                  ap (ended l mux rule)
                    (applied_accepted l mux x rules f args r o pairs reads even fine))
                ∙ h in
              (f, args, reads, inr (even, fine, below h'))
          | inr (e, refused) ↦ absurd (
              not_failed rule _ _ _ t
                (applied_refused l mux x rules f args r o e pairs reads even refused) h)
        ]
      ]

  -- Without a rule to come there is no route, or there is an odd query.
  sound :
      (rule : Str) (rules : List Str) (r t : ServerRoute R) (o : Option R)
      → WantsPairs mux
      → ended l mux rule (applied l mux rules r o) ≡ panic t
      → Sound rules r t o
  unfolding apply_rules
  sound rule [] r t none pairs h = inl (refl, refl, cc)
  sound rule [] r t (some u) pairs h = cc
  sound rule (x ∷ rules) r t o pairs h = elim (Outcome-cases (read_rule x)) [
    | inl ((f, args), reads) ↦ inr (
        read_sound rule x rules f args r t o pairs reads h (λ h'.
          later-Sound rules (call l mux f args r) t _
            (sound rule rules (call l mux f args r) t (some (call l mux f args r).route) pairs h')))
    | inr (inl (e, unread)) ↦
        absurd (not_failed rule _ _ _ t (applied_unread l mux x rules r o e unread) h)
    | inr (inr crashed) ↦ absurd (subst Returns crashed (read_rule-Returns x))
  ]

  -- What `getRoute` makes of the rules between the semicolons.
  abbrev route_of : Str → Bool → List Str → ServerRoute R → Run (ServerRoute R) (Unit {0})
  route_of rule b fields r =
      ended l mux rule (if b then fail empty_rule (r, none) else applied l mux fields r none)

  get_route_of :
      (rule : Str) (r : ServerRoute R)
      → get_route l mux rule r ≡ route_of rule (equal rule []) (fields_func is_semicolon rule) r
  unfolding get_route parse parse_rules
  get_route_of rule r = refl

  -- What makes `getRoute` panic on an expression, and the server route that it leaves.
  abbrev pub IsFatal : Str → ServerRoute R → ServerRoute R → Type 0
  IsFatal rule r t =
      (rule ≢ [])
      × (((fields_func is_semicolon rule ≡ []) × (t ≡ r))
          ⊎ HasOddQuery l mux (fields_func is_semicolon rule) r t)

  IsFatal-get_route :
      (rule : Str) (r t : ServerRoute R)
      → rule ≢ []
      → Sound (fields_func is_semicolon rule) r t none
      → IsFatal rule r t
  IsFatal-get_route rule r t named (inl (none_there, _, same)) = (named, inl (none_there, same))
  IsFatal-get_route rule r t named (inr h) = (named, inr h)

  panic_of :
      (rule : Str) (r t : ServerRoute R)
      → WantsPairs mux
      → IsFatal rule r t
      → get_route l mux rule r ≡ panic t
  unfolding apply_rules
  panic_of rule r t pairs (named, inl (none_there, same)) =
      get_route_of rule r ∙ rw (equal_ne rule [] named, none_there) (ap panic (sym same))
  panic_of rule r t pairs (named, inr h) =
      get_route_of rule r
      ∙ rw (equal_ne rule [] named)
          (complete l mux rule (fields_func is_semicolon rule) r t none pairs h)

  -- Where the router's `Queries` returns nil exactly for an odd number of texts, reading the
  -- rule of a route panics, and leaves the server route `t`, exactly in two cases. The rule is
  -- not empty but has nothing between its semicolons, and `t` is the route from before: `Parse`
  -- then returns a nil route without an error. Or, behind rules that the router accepts, there
  -- is a rule "Query" whose arguments have an odd number of parts, and `t` is the route behind
  -- it: the method's result is then nil.
  pub get_route-eq-panic_iff :
      (rule : Str) (r t : ServerRoute R)
      → WantsPairs mux
      → (get_route l mux rule r ≡ panic t) ↔ IsFatal rule r t
  get_route-eq-panic_iff rule r t pairs = (fatal, panic_of rule r t pairs)
    where
      fatal : get_route l mux rule r ≡ panic t → IsFatal rule r t
      fatal h = elim (Bool-cases (equal rule [])) [
        | inl empty ↦
            let h' = sym (get_route_of rule r) ∙ h in
            let h'' : ended l mux rule (fail empty_rule (r, none)) ≡ panic t = rw empty at h' in cc
        | inr filled ↦
            let h' = sym (get_route_of rule r) ∙ h in
            let fields = fields_func is_semicolon rule in
            let h'' : ended l mux rule (applied l mux fields r none) ≡ panic t = rw filled at h' in
            IsFatal-get_route rule r t (λ empty. let is_nil = (equal_iff rule []).1 empty in cc)
              (sound rule fields r t none pairs h'')
      ]
