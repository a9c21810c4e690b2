-- ===== src/Osio/Cache/Invariant.antt =====
-- What the cache knows of the values that it hands out.
use fabric8_oso_proxy.Base.{
  ℕ, true, Option, none, some, [], ◌∷◌, ◌++◌, ◌≡◌, refl, sym, ap, ◌∙◌, ◌⊎◌, inl, inr, arith, ◌<◌,
  length, get_elem?, set, Option-cases, Bool-cases, get_elem?-set_self, get_elem?-set_ne,
  get_elem?-append_left, get_elem?-append_length, lt_of_get_elem?, length-append, length-set,
}
use native.Mathlib.Decide.{ℕ_discrete}
use mathlib.Core.Path.{subst}
use fabric8_oso_proxy.Base.Strings.{Str, equal_iff}
use fabric8_oso_proxy.Base.Maps.{lookup, insert, lookup-insert}
use fabric8_oso_proxy.Base.Run.{Error}
use fabric8_oso_proxy.Osio.Cache.{
  Promise, Cache, entries, empty, Called, returned, crashed, new_promise, get, is_nil, settle,
  get_value, force, Step, gets, forces, others, Steps, here, next,
}
use fabric8_oso_proxy.Osio.Cache.Order.{
  get_found, get_missing, get-address, Forced, force-Forced, get_value_resolved, get_value_settled,
}

-- A call keeps what `Good` says of the closure, and a value that it returns with no error answers
-- the key.
abbrev pub Keeps :
    {R V S : Type 0} → (R → S → Called R V S) → (Str → R → Type 0) → (Str → V → Type 0) → Type 0
Keeps {R} {V} {S} call Good Answers =
    (key : Str) (r r' : R) (s s' : S) (v : V) (e : Option Error)
    → Good key r
    → call r s ≡ returned r' v e s'
    → Good key r' × (e ≡ none → Answers key v)

module _ {R V : Type 0} (Good : Str → R → Type 0) (Answers : Str → V → Type 0) where
  pub record IsPromiseOf (key : Str) (p : Promise R V) : Type 0 where
    pub good : Good key p.resolver
    pub answers : p.resolved ≡ true → (v : V) × (p.value ≡ some v) × Answers key v

  -- Every address of the map is one of the heap, no two keys share an address, and each key's
  -- promise is its own.
  pub record IsValid (c : Cache R V) : Type 0 where
    pub in_range : (key : Str) (i : ℕ) → lookup key (entries c.m) ≡ some i → i < length c.heap
    pub separate :
        (j k : Str) (i : ℕ)
        → lookup j (entries c.m) ≡ some i
        → lookup k (entries c.m) ≡ some i
        → j ≡ k
    pub own :
        (key : Str) (i : ℕ) (p : Promise R V)
        → lookup key (entries c.m) ≡ some i
        → get_elem? c.heap i ≡ some p
        → IsPromiseOf key p

  pub empty-IsValid : IsValid empty
  unfolding lookup
  empty-IsValid = record {
    in_range = λ key i h. cc;
    separate = λ j k i h. cc;
    own = λ key i p h. cc;
  }

  module _ (key : Str) (r : R) (c : Cache R V) (good : Good key r) (h : IsValid c) where
    added-in_range :
        (k : Str) (i : ℕ)
        → lookup k (insert key (length c.heap) (entries c.m)) ≡ some i
        → (key ≡ k) × (i ≡ length c.heap) ⊎ (lookup k (entries c.m) ≡ some i) × (i < length c.heap)
    added-in_range k i e =
        ground (
          arith,
          lookup-insert k key (length c.heap) (entries c.m),
          equal_iff key k,
          h.in_range k i,
        )

    abbrev Added : Str → ℕ → Type 0
    Added k i =
        (key ≡ k) × (i ≡ length c.heap) ⊎ (lookup k (entries c.m) ≡ some i) × (i < length c.heap)

    separate-Added : (j k : Str) (i : ℕ) → Added j i → Added k i → j ≡ k
    separate-Added j k i (inl (e, _)) (inl (f, _)) = sym e ∙ f
    separate-Added j k i (inl (_, e)) (inr (_, f)) = absurd (omega arith)
    separate-Added j k i (inr (_, e)) (inl (_, f)) = absurd (omega arith)
    separate-Added j k i (inr (e, _)) (inr (f, _)) = h.separate j k i e f

    own-Added :
        (k : Str) (i : ℕ) (p : Promise R V)
        → Added k i
        → get_elem? (c.heap ++ new_promise r ∷ []) i ≡ some p
        → IsPromiseOf k p
    own-Added k i p (inl (same, last)) f =
        let fresh : new_promise r ≡ p = cc (
          get_elem?-append_length c.heap [] (new_promise {V = V} r),
          ap (get_elem? (c.heap ++ new_promise {V = V} r ∷ [])) last,
          f,
        ) in
        subst (IsPromiseOf k) fresh
          (record { good = subst (λ x. Good x r) same good; answers = λ u. cc })
    own-Added k i p (inr (old, below)) f =
        h.own k i p old (sym (get_elem?-append_left c.heap _ i below) ∙ f)

    pub get-IsValid : IsValid (get key r c).0
    get-IsValid = elim (Option-cases (lookup key (entries c.m))) [
      | inl missing ↦ rw (get_missing key r c missing) (record {
        in_range = λ k i e.
            omega (arith, added-in_range k i e, length-append {0} c.heap (new_promise r ∷ []));
        separate = λ j k i e f. separate-Added j k i (added-in_range j i e) (added-in_range k i f);
        own = λ k i p e f. own-Added k i p (added-in_range k i e) f;
      })
      | inr (i, found) ↦
          rw (get_found key r c i found)
            (record { in_range = h.in_range; separate = h.separate; own = h.own })
    ]

nil_of_is_nil : (e : Option Error) → is_nil e ≡ true → e ≡ none
nil_of_is_nil none h = refl
nil_of_is_nil (some e) h = cc

settled :
    {R V S : Type 0} (p : Promise R V) (a : Called R V S) {q : Promise R V} {v : Option V}
    {e : Option Error} {s : S}
    → settle p a ≡ returned q v e s
    → (r : R) × (w : V) × (a ≡ returned r w e s)
      × (q ≡ record { resolver = r; resolved = is_nil e; value = some w; error = e })
settled p (returned r w e s) h = (r, w, cc h, ground arith)
settled p (crashed s) h = cc

module _ {R V S : Type 0} (call : R → S → Called R V S) (Good : Str → R → Type 0)
    (Answers : Str → V → Type 0) (keeps : Keeps call Good Answers) where
  get_value-IsPromiseOf :
      (key : Str) (p q : Promise R V) (s s' : S) (v : Option V) (e : Option Error)
      → IsPromiseOf Good Answers key p
      → get_value call p s ≡ returned q v e s'
      → IsPromiseOf Good Answers key q
  unfolding get_value
  get_value-IsPromiseOf key p q s s' v e own h = elim (Bool-cases p.resolved) [
    | inl done ↦ subst (IsPromiseOf Good Answers key) (cc (get_value_resolved call p s done, h)) own
    | inr fresh ↦
        let (r, w, ran, is) = settled p (call p.resolver s) (rw fresh at h) in
        let (good, answers) = keeps key p.resolver r s s' w e own.good ran in
        rw is (record { good = good; answers = λ u. (w, refl, answers (nil_of_is_nil e u)) })
  ]

  module _ (c : Cache R V) (h : IsValid Good Answers c) where
    abbrev Valid : Cache R V → Type 0
    Valid = IsValid Good Answers

    force-IsValid :
        (i : ℕ) {c' : Cache R V} {s s' : S} {v : Option V} {e : Option Error}
        → Forced call i c c' s s' v e
        → Valid c'
    force-IsValid i {s} {s'} {v} {e} f = rw f.result (record {
      in_range = λ k j m. omega (arith, h.in_range k j m, length-set {0} c.heap i f.after);
      separate = h.separate;
      own = λ k j p m g. elim (ℕ_discrete i j) [
        | yes same ↦
            let after : f.after ≡ p = cc (
              get_elem?-set_self c.heap i f.after (lt_of_get_elem? c.heap i f.stored),
              ap (get_elem? (set c.heap i f.after)) same,
              g,
            ) in
            let own = h.own k i f.before (m ∙ ap some (sym same)) f.stored in
            subst (IsPromiseOf Good Answers k) after
              (get_value-IsPromiseOf k f.before f.after s s' v e own f.ran)
        | no other ↦ h.own k j p m (sym (get_elem?-set_ne c.heap i j f.after other) ∙ g)
      ];
    })

  Step-IsValid :
      {a b : Cache R V × S}
      → Step call Good a b
      → IsValid Good Answers a.0
      → IsValid Good Answers b.0
  Step-IsValid (gets key r c s good) h = get-IsValid Good Answers key r c good h
  Step-IsValid (forces i c c' s s' v e ran) h = force-IsValid c h i (force-Forced call i c s ran)
  Step-IsValid (others c s s') h = h

  -- Assume that a call of a resolver that is good for a key leaves a resolver that is good for
  -- it, and that what the call returns without an error answers the key. Then the steps of the
  -- goroutines, in any order, keep a cache valid if each caller registers only resolvers that
  -- are good for its key: no address dangles, no two keys share a promise, and a resolved
  -- promise holds an answer to its own key.
  pub Steps-IsValid :
      {a b : Cache R V × S}
      → Steps call Good a b
      → IsValid Good Answers a.0
      → IsValid Good Answers b.0
  Steps-IsValid here h = h
  Steps-IsValid (next st last) h = Step-IsValid last (Steps-IsValid st h)

  -- What a caller gets without an error answers the key that it asked for, and the cache stays
  -- valid.
  pub get-force-Answers :
      (key : Str) (r : R) (c c' : Cache R V) (s s' : S) (v : Option V) (e : Option Error)
      → Good key r
      → IsValid Good Answers c
      → force call (get key r c).1 (get key r c).0 s ≡ returned c' v e s'
      → IsValid Good Answers c' × (e ≡ none → (w : V) × (v ≡ some w) × Answers key w)
  get-force-Answers key r c c' s s' v e good h ran =
      let f = force-Forced call (get key r c).1 (get key r c).0 s ran in
      let got = get-IsValid Good Answers key r c good h in
      let own = got.own key (get key r c).1 f.before (get-address key r c) f.stored in
      let own' = get_value-IsPromiseOf key f.before f.after s s' v e own f.ran in
      (
        force-IsValid (get key r c).0 got (get key r c).1 f,
        λ quiet.
            let (done, value, _) =
              get_value_settled call f.before f.after s s' v (rw quiet at f.ran) in
            let (w, stored, answer) = own'.answers done in (w, sym value ∙ stored, answer),
      )
