-- ===== src/Osio/Cache/Order.antt =====
-- The cache as a memo table: what one goroutine has resolved, every later one reads.
use fabric8_oso_proxy.Base.{
  ℕ, true, Option, none, some, [], ◌∷◌, ◌++◌, ◌≡◌, ◌≢◌, refl, sym, ap, ◌∙◌, ◌⊎◌, inl, inr, arith,
  length, get_elem?, set, Option-cases, get_elem?-set_self, get_elem?-set_ne, get_elem?-append_left,
  lt_of_get_elem?,
}
use native.Mathlib.Decide.{ℕ_discrete}
use fabric8_oso_proxy.Base.Strings.{Str}
use fabric8_oso_proxy.Base.Maps.{lookup, insert, lookup-insert_self, lookup-insert_ne}
use fabric8_oso_proxy.Base.Run.{Error}
use fabric8_oso_proxy.Osio.Cache.{
  Promise, Cache, entries, Called, returned, crashed, new_promise, get, get_value, put_back, force,
  Step, gets, forces, others, Steps, here, next,
}

module _ {R V : Type 0} where
  -- The promise that a cache holds under a key.
  pub record At (key : Str) (c : Cache R V) (p : Promise R V) : Type 0 where
    pub address : ℕ
    pub mapped : lookup key (entries c.m) ≡ some address
    pub stored : get_elem? c.heap address ≡ some p

  pub get_found :
      (key : Str) (r : R) (c : Cache R V) (i : ℕ)
      → lookup key (entries c.m) ≡ some i
      → get key r c ≡ (record c { m = some (entries c.m) }, i)
  unfolding get
  get_found key r c i h = rw (h, get) refl

  pub get_missing :
      (key : Str) (r : R) (c : Cache R V)
      → lookup key (entries c.m) ≡ none
      → get key r c ≡ (
        record {
          m = some (insert key (length c.heap) (entries c.m));
          heap = c.heap ++ new_promise r ∷ [];
        },
        length c.heap,
      )
  unfolding get
  get_missing key r c h = rw (h, get) refl

  get-At :
      {key : Str} {c : Cache R V} {p : Promise R V} (j : Str) (r : R)
      → At key c p
      → At key (get j r c).0 p
  get-At {key} {c} {p} j r a = elim (Option-cases (lookup j (entries c.m))) [
    | inl missing ↦
        let other : j ≢ key =
          λ same. cc (missing, a.mapped, ap (λ k. lookup k (entries c.m)) same) in
        rw (get_missing j r c missing) (record {
          address = a.address;
          mapped = lookup-insert_ne key j (length c.heap) (entries c.m) other ∙ a.mapped;
          stored =
              get_elem?-append_left c.heap _ a.address (lt_of_get_elem? c.heap a.address a.stored)
              ∙ a.stored;
        })
    | inr (i, found) ↦
        rw (get_found j r c i found)
          (record { address = a.address; mapped = a.mapped; stored = a.stored })
  ]

  -- After a get the promise is there, and the address leads to it.
  pub get-At_address :
      {key : Str} {c : Cache R V} {p : Promise R V} (r : R)
      → (a : At key c p)
      → ((get key r c).1 ≡ a.address) × (get_elem? (get key r c).0.heap (get key r c).1 ≡ some p)
  get-At_address {key} {c} r a = rw (get_found key r c a.address a.mapped) (refl, a.stored)

  -- The address that a get returns is one of the heap and belongs to the key.
  pub get-address :
      (key : Str) (r : R) (c : Cache R V)
      → lookup key (entries (get key r c).0.m) ≡ some (get key r c).1
  get-address key r c = elim (Option-cases (lookup key (entries c.m))) [
    | inl missing ↦
        rw (get_missing key r c missing) (lookup-insert_self key (length c.heap) (entries c.m))
    | inr (i, found) ↦ rw (get_found key r c i found) found
  ]

pub Called-cases :
    {R V S : Type 0} (a : Called R V S)
    → ((r : R) × (v : V) × (e : Option Error) × (s : S) × (a ≡ returned r v e s))
      ⊎ ((s : S) × (a ≡ crashed s))
Called-cases (returned r v e s) = inl (r, v, e, s, refl)
Called-cases (crashed s) = inr (s, refl)

module _ {R V S : Type 0} (call : R → S → Called R V S) where
  -- What a force that returns has done.
  pub record Forced (i : ℕ) (c c' : Cache R V) (s s' : S) (v : Option V) (e : Option Error)
      : Type 0 where
    pub before : Promise R V
    pub after : Promise R V
    pub stored : get_elem? c.heap i ≡ some before
    pub ran : get_value call before s ≡ returned after v e s'
    pub result : c' ≡ record c { heap = set c.heap i after }

  from_value :
      (i : ℕ) (c : Cache R V) (s : S) (p : Promise R V)
      → get_elem? c.heap i ≡ some p
      → {c' : Cache R V} {s' : S} {v : Option V} {e : Option Error}
      → put_back c i (get_value call p s) ≡ returned c' v e s'
      → Forced i c c' s s' v e
  from_value i c s p stored h = elim (Called-cases (get_value call p s)) [
    | inl (q, v, e, s', ran) ↦
        let k = rw ran at h in
        record { before = p; after = q; stored = stored; ran = ran ∙ cc k; result = cc k }
    | inr (s', ran) ↦ absurd (cc (rw ran at h))
  ]

  pub force-Forced :
      (i : ℕ) (c : Cache R V) (s : S) {c' : Cache R V} {s' : S} {v : Option V} {e : Option Error}
      → force call i c s ≡ returned c' v e s'
      → Forced i c c' s s' v e
  unfolding force
  force-Forced i c s h = elim (Option-cases (get_elem? c.heap i)) [
    | inl dangling ↦ absurd (cc (rw (dangling, force) at h))
    | inr (p, stored) ↦ from_value i c s p stored (rw (stored, force) at h)
  ]

  -- A resolved promise answers without its resolver.
  pub get_value_resolved :
      (p : Promise R V) (s : S)
      → p.resolved ≡ true
      → get_value call p s ≡ returned p p.value p.error s
  unfolding get_value
  get_value_resolved p s h = rw h refl

  force-At :
      {key : Str} {c : Cache R V} {p : Promise R V}
      → At key c p
      → p.resolved ≡ true
      → (i : ℕ) {c' : Cache R V} {s s' : S} {v : Option V} {e : Option Error}
      → Forced i c c' s s' v e
      → At key c' p
  force-At {key} {c} {p} a done i {s} f = rw f.result (record {
    address = a.address;
    mapped = a.mapped;
    stored = elim (ℕ_discrete i a.address) [
      | yes same ↦
          let before : f.before ≡ p = cc (f.stored, ap (get_elem? c.heap) same, a.stored) in
          let after : f.after ≡ p =
            cc (f.ran, get_value_resolved p s done, ap (λ x. get_value call x s) before) in
          ap (get_elem? (set c.heap i f.after)) (sym same)
          ∙ get_elem?-set_self c.heap i f.after (lt_of_get_elem? c.heap i f.stored)
          ∙ ap some after
      | no other ↦ get_elem?-set_ne c.heap i a.address f.after other ∙ a.stored
    ];
  })

  -- A force that ends without an error leaves a resolved promise with the value that it returned.
  pub get_value_settled :
      (p q : Promise R V) (s s' : S) (v : Option V)
      → get_value call p s ≡ returned q v none s'
      → (q.resolved ≡ true) × (q.value ≡ v) × (q.error ≡ none)
  unfolding get_value
  get_value_settled p q s s' v h = ground arith

  pub force_resolved :
      {key : Str} {c : Cache R V} {p : Promise R V}
      → At key c p
      → p.resolved ≡ true
      → (r : R) (s : S)
      → (c' : Cache R V) × (force call (get key r c).1 (get key r c).0 s
          ≡ returned c' p.value p.error s)
  unfolding force
  force_resolved {key} {c} {p} a done r s =
      let (_, stored) = get-At_address r a in
      let c' = (get key r c).0 in
      (
        record c' { heap = set c'.heap (get key r c).1 p },
        rw (stored, force) (rw (get_value_resolved p s done)),
      )

module _ {R V S : Type 0} (call : R → S → Called R V S) (Allowed : Str → R → Type 0) where
  Step-At :
      {key : Str} {p : Promise R V} {a b : Cache R V × S}
      → p.resolved ≡ true
      → Step call Allowed a b
      → At key a.0 p
      → At key b.0 p
  Step-At done (gets j r c s _) h = get-At j r h
  Step-At done (forces i c c' s s' v e ran) h = force-At call h done i (force-Forced call i c s ran)
  Step-At done (others c s s') h = h

  Steps-At :
      {key : Str} {p : Promise R V} {a b : Cache R V × S}
      → p.resolved ≡ true
      → Steps call Allowed a b
      → At key a.0 p
      → At key b.0 p
  Steps-At done here h = h
  Steps-At done (next st last) h = Step-At done last (Steps-At done st h)

  -- If the promise of a key is forced without an error, then after any steps of other
  -- goroutines on the cache and on the shared state, getting the key again with any resolver
  -- and forcing the promise returns the same value with no error and leaves the shared state as
  -- it is, so that the resolver is not called.
  pub force-memoized :
      (key : Str) (a b c : Cache R V × S) (i : ℕ) (v : Option V) (again : R)
      → lookup key (entries a.0.m) ≡ some i
      → force call i a.0 a.1 ≡ returned b.0 v none b.1
      → Steps call Allowed b c
      → (d : Cache R V) × (force call (get key again c.0).1 (get key again c.0).0 c.1
          ≡ returned d v none c.1)
  force-memoized key a b c i v again mapped forced steps =
      let f = force-Forced call i a.0 a.1 forced in
      let (resolved, value, error) = get_value_settled call f.before f.after a.1 b.1 v f.ran in
      let there : At key b.0 f.after = rw f.result (record {
        address = i;
        mapped = mapped;
        stored = get_elem?-set_self a.0.heap i f.after (lt_of_get_elem? a.0.heap i f.stored);
      }) in
      let (d, e) = force_resolved call (Steps-At resolved steps there) resolved again c.1 in
      (d, rw (← value, ← error) e)
