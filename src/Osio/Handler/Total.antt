-- ===== src/Osio/Handler/Total.antt =====
-- The handler answers every request, if the locators do not panic.
use fabric8_oso_proxy.Base.{
  true, false, some, [], ◌≡◌, ◌≢◌, refl, sym, ap, ◌⊎◌, inl, inr, if◌then◌else◌, Bool-cases,
}
use mathlib.Core.Path.{subst}
use fabric8_oso_proxy.Base.Strings.{Str, equal, ne_of_equal}
use fabric8_oso_proxy.Base.Run.{
  Run, done, fail, panic, M, pure, Outcome, ok, err, crash, Ends, with_value, with_error,
}
use fabric8_oso_proxy.Net.Request.{Request}
use fabric8_oso_proxy.Osio.Handler.{
  Action, status, options, unless_failed, or_unauthorized, from_outcome, with_services,
  locate_by_id, route, serve_token, serve, serve_http,
}
use fabric8_oso_proxy.Osio.Paths.{get_token, extract_user_id, get_namespace_name}
use fabric8_oso_proxy.Osio.Paths.Target.{get_token-IsLastPart}
use fabric8_oso_proxy.Osio.Resolve.{
  by_token, by_id, Auth, resolve_by_token, resolve_by_id, resolve_by_id_without_cache,
}
use fabric8_oso_proxy.Osio.Resolve.Isolation.{Valid}
use fabric8_oso_proxy.Osio.Types.{TokenType, Locators, user_token}
use fabric8_oso_proxy.Osio.Resolve.Ends.{
  NeverPanics, call-returned, answered-Ends, resolve_cached-Ends,
}

-- A run that returns.
data Returns {S A : Type 0} : Run S A → Type 0 where
  value : (a : A) (s : S) → Returns (done a s)

Returns-eq-done : {S A : Type 0} {r : Run S A} → Returns r → (a : A) × (s : S) × (r ≡ done a s)
Returns-eq-done (value a s) = (a, s, refl)

get_token-ne-crash : (r : Request) → get_token r ≢ crash
get_token-ne-crash r h =
    let (t, _, is) = get_token-IsLastPart r in
    elim (Bool-cases (equal t [])) [
      | inl empty ↦ cc (rw empty at is, h)
      | inr full ↦ cc (rw full at is, h)
    ]

module _ {S : Type 0} (l : Locators S) (quiet : NeverPanics l) where
  module _ (digest : Str → Str) where
    locate_by_id-Ends :
        (user_id token : Str) (tt : TokenType) (name : Str) (a : Auth S)
        → Valid digest l a.cache
        → Ends (locate_by_id digest l user_id token tt name a)
    unfolding locate_by_id resolve_by_id resolve_by_id_without_cache
    locate_by_id-Ends user_id token tt name a h = elim (Bool-cases (equal name [])) [
      | inl unnamed ↦
          let (q, d, e, s, ran) = call-returned l quiet (by_id token tt user_id name) a.services in
          rw (unnamed, ran) (answered-Ends l quiet d e (record a { services = s }))
      | inr named ↦ rw named (
          resolve_cached-Ends l quiet digest _ (by_id token tt user_id name) a
            (refl, ne_of_equal name [] named) h)
    ]

    unless_failed-Returns :
        {A : Type 0} {run : Run (Auth S) A} (f : A → M (Auth S) Action)
        → Ends run
        → ((x : A) (b : Auth S) → run ≡ done x b → Returns (f x b))
        → Returns (unless_failed run f)
    unless_failed-Returns f (with_value x b) k = k x b refl
    unless_failed-Returns f (with_error e b) k = value _ b

    serve_token-Returns :
        (r : Request) (token : Str) (tt : TokenType) (a : Auth S)
        → Valid digest l a.cache
        → Returns (serve_token digest l r token tt a)
    unfolding serve_token resolve_by_token
    serve_token-Returns r token tt a h = elim (Bool-cases (equal tt user_token)) [
      | inl user ↦ rw user (
          unless_failed-Returns _
            (resolve_cached-Ends l quiet digest _ (by_token token tt) a (refl, Prim.tt) h)
            λ d b _. value _ b)
      | inr service ↦ rw service (service_case (Bool-cases (equal (extract_user_id r) [])))
    ]
      where
        service_case :
            (equal (extract_user_id r) [] ≡ true) ⊎ (equal (extract_user_id r) [] ≡ false)
            → Returns (
                (if equal (extract_user_id r) []
                    then pure (status 401)
                    else or_unauthorized
                        (locate_by_id digest l
                          (extract_user_id r)
                          token
                          tt
                          (get_namespace_name r.url.path))
                        (λ cached. pure (route tt r cached)))
                  a)
        service_case (inl missing) = rw missing (value _ a)
        service_case (inr present) = rw present (
            unless_failed-Returns _
              (locate_by_id-Ends (extract_user_id r) token tt (get_namespace_name r.url.path) a h)
              λ d b _. value _ b)

    from_outcome-Ends :
        {A : Type 0} (o : Outcome A) (a : Auth S) → o ≢ crash → Ends (from_outcome o a)
    from_outcome-Ends (ok x) a h = with_value x a
    from_outcome-Ends (err e) a h = with_error e a
    from_outcome-Ends crash a h = absurd (h refl)

    from_outcome-state :
        {A : Type 0} (o : Outcome A) (a b : Auth S) (x : A) → from_outcome o a ≡ done x b → b ≡ a
    from_outcome-state (ok y) a b x h = sym (cc h)
    from_outcome-state (err e) a b x h = cc
    from_outcome-state crash a b x h = cc

    with_services-Ends :
        {A : Type 0} (a : Auth S) {run : Run S A} → Ends run → Ends (with_services a run)
    with_services-Ends a (with_value x s) = with_value x (record a { services = s })
    with_services-Ends a (with_error e s) = with_error e (record a { services = s })

    with_services-cache :
        {A : Type 0} (a b : Auth S) (run : Run S A) (x : A)
        → with_services a run ≡ done x b
        → b.cache ≡ a.cache
    with_services-cache a b (done y s) x h =
        let same : record a { services = s } ≡ b = cc h in ap (λ (c : Auth S). c.cache) (sym same)
    with_services-cache a b (fail e s) x h = cc
    with_services-cache a b (panic s) x h = cc

    serve-Returns :
        (r : Request) (a : Auth S) → Valid digest l a.cache → Returns (serve digest l r a)
    unfolding serve
    serve-Returns r a h =
        unless_failed-Returns _ (from_outcome-Ends (get_token r) a (get_token-ne-crash r))
          λ token b has_token.
            let same : b ≡ a = from_outcome-state (get_token r) a b token has_token in
            let valid = subst (λ (c : Auth S). Valid digest l c.cache) (sym same) h in
            unless_failed-Returns _ (with_services-Ends b (quiet.token_type token b.services))
              λ tt c has_type. serve_token-Returns r token tt c (
                subst (Valid digest l)
                  (sym (with_services-cache b c (l.token_type token b.services) tt has_type)) valid)

    -- If no call of a locator panics, the handler answers every request on a valid cache: it
    -- neither panics nor returns an error.
    pub serve_http-total :
        (r : Request) (a : Auth S)
        → Valid digest l a.cache
        → (act : Action) × (a' : Auth S) × (serve_http digest (some l) r a ≡ done act a')
    unfolding serve_http
    serve_http-total r a h = elim (Bool-cases (equal r.method options)) [
      | inl preflight ↦ rw preflight (_, _, refl)
      | inr other ↦ rw other (Returns-eq-done (serve-Returns r a h))
    ]
