-- ===== src/Osio/Cache.antt =====
-- middlewares/osio/cache.go: promises that live on a heap, and a map from keys to their addresses.
-- Each method holds its mutex from the first statement to the last, so it is one atomic step; the
-- goroutine in which a promise runs its resolver is awaited inside that step.
pub mod Order
pub mod Invariant
use fabric8_oso_proxy.Base.{
  ℕ, Bool, true, false, Option, none, some, List, [], ◌∷◌, ◌++◌, ◌≡◌, if◌then◌else◌, length,
  get_elem?, set,
}
use fabric8_oso_proxy.Base.Strings.{Str}
use fabric8_oso_proxy.Base.Maps.{lookup, insert}
use fabric8_oso_proxy.Base.Run.{Error}

-- `ResolverPromise`: `value` is `nil` until the resolver has run.
pub record Promise (R V : Type 0) : Type 0 where
  pub resolver : R
  pub resolved : Bool
  pub value : Option V
  pub error : Option Error

-- `Cache`: `none` is the nil map.
pub record Cache (R V : Type 0) : Type 0 where
  pub m : Option (List (Str × ℕ))
  pub heap : List (Promise R V)

abbrev pub entries : Option (List (Str × ℕ)) → List (Str × ℕ)
entries none = []
entries (some m) = m

abbrev pub is_nil : Option Error → Bool
is_nil none = true
is_nil (some _) = false

-- A call of a closure that returns a value and an error: the closure's own variables after the
-- call, both results, and the shared state. A panic in a goroutine ends the process.
pub data Called (R V S : Type 0) : Type 0 where
  returned : R → V → Option Error → S → Called R V S
  crashed : S → Called R V S

module _ {R V : Type 0} where
  abbrev pub empty : Cache R V
  empty = record { m = none; heap = [] }

  abbrev pub new_promise : R → Promise R V
  new_promise r = record { resolver = r; resolved = false; value = none; error = none }

  abbrev add_promise : Str → R → Cache R V → Option ℕ → Cache R V × ℕ
  add_promise key r c (some i) = (record c { m = some (entries c.m) }, i)
  add_promise key r c none = (
    record {
      m = some (insert key (length c.heap) (entries c.m));
      heap = c.heap ++ new_promise r ∷ [];
    },
    length c.heap,
  )

  -- `Cache.Get`; the second result is the address of the promise.
  unfoldable pub get : Str → R → Cache R V → Cache R V × ℕ
  get key r c = add_promise key r c (lookup key (entries c.m))

  -- The statements of `ResolverPromise.Get` behind `wg.Wait()`.
  abbrev pub settle : {S : Type 0} → Promise R V → Called R V S → Called (Promise R V) (Option V) S
  settle p (returned r v e s) =
      returned (record { resolver = r; resolved = is_nil e; value = some v; error = e }) (some v) e
        s
  settle p (crashed s) = crashed s

  abbrev pub put_back :
      {S : Type 0}
      → Cache R V
      → ℕ
      → Called (Promise R V) (Option V) S
      → Called (Cache R V) (Option V) S
  put_back c i (returned p v e s) = returned (record c { heap = set c.heap i p }) v e s
  put_back c i (crashed s) = crashed s

module _ {R V S : Type 0} (call : R → S → Called R V S) where
  -- `ResolverPromise.Get`
  unfoldable pub get_value : Promise R V → S → Called (Promise R V) (Option V) S
  get_value p s = if p.resolved then returned p p.value p.error s else settle p (call p.resolver s)

  abbrev at_address : Cache R V → ℕ → S → Option (Promise R V) → Called (Cache R V) (Option V) S
  at_address c i s none = crashed s
  at_address c i s (some p) = put_back c i (get_value p s)

  -- The same method on the promise at an address.
  unfoldable pub force : ℕ → Cache R V → S → Called (Cache R V) (Option V) S
  force i c s = at_address c i s (get_elem? c.heap i)

-- What the goroutines of several requests do to one cache, in the order in which they get its
-- mutexes. `Allowed key r` says which resolvers the callers pass with which key.
module _ {R V S : Type 0} (call : R → S → Called R V S) (Allowed : Str → R → Type 0) where
  pub data Step : Cache R V × S → Cache R V × S → Type 0 where
    gets :
        (key : Str) (r : R) (c : Cache R V) (s : S)
        → Allowed key r
        → Step (c, s) ((get key r c).0, s)
    forces :
        (i : ℕ) (c c' : Cache R V) (s s' : S) (v : Option V) (e : Option Error)
        → force call i c s ≡ returned c' v e s'
        → Step (c, s) (c', s')
    -- Anything else that changes the shared state.
    others : (c : Cache R V) (s s' : S) → Step (c, s) (c, s')

  pub data Steps (a : Cache R V × S) : Cache R V × S → Type 0 where
    here : Steps a a
    next : {b c : Cache R V × S} → Steps a b → Step b c → Steps a c
