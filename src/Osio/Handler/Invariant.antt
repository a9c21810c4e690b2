-- ===== src/Osio/Handler/Invariant.antt =====
-- The handler keeps the cache valid, whatever it answers.
use fabric8_oso_proxy.Base.{
  true, false, none, some, [], ◌≡◌, refl, ◌⊎◌, inl, inr, if◌then◌else◌, Bool-cases,
}
use fabric8_oso_proxy.Base.Strings.{Str, equal, ne_of_equal}
use fabric8_oso_proxy.Base.Run.{Run, done, fail, panic, M, pure, Outcome, ok, err, crash, state_of}
use fabric8_oso_proxy.Net.Request.{Request}
use fabric8_oso_proxy.Osio.Cache.{Called, returned, crashed}
use fabric8_oso_proxy.Osio.Handler.{
  Action, status, options, unless_failed, or_unauthorized, from_outcome, with_services,
  locate_by_id, route, serve_token, serve, serve_http,
}
use fabric8_oso_proxy.Osio.Paths.{get_token, extract_user_id, get_namespace_name}
use fabric8_oso_proxy.Osio.Resolve.{
  Resolver, by_token, by_id, Auth, from_call, call, resolve_by_token, resolve_by_id,
  resolve_by_id_without_cache,
}
use fabric8_oso_proxy.Osio.Resolve.Isolation.{Valid, resolve_cached-Valid}
use fabric8_oso_proxy.Osio.Types.{TokenType, user_token, CacheData, Locators}

module _ {S : Type 0} (digest : Str → Str) (l : Locators S) where
  abbrev ValidAfter : {A : Type 0} → Run (Auth S) A → Type 0
  ValidAfter run = Valid digest l (state_of run).cache

  unless_failed-Valid :
      {A : Type 0} (run : Run (Auth S) A) (f : A → M (Auth S) Action)
      → ValidAfter run
      → ((x : A) (b : Auth S) → Valid digest l b.cache → ValidAfter (f x b))
      → ValidAfter (unless_failed run f)
  unless_failed-Valid (done x b) f h k = k x b h
  unless_failed-Valid (fail e b) f h k = h
  unless_failed-Valid (panic b) f h k = h

  from_call-Valid :
      (a : Auth S) (c : Called Resolver CacheData S)
      → Valid digest l a.cache
      → ValidAfter (from_call a c)
  from_call-Valid a (returned r d none s) h = h
  from_call-Valid a (returned r d (some e) s) h = h
  from_call-Valid a (crashed s) h = h

  locate_by_id-Valid :
      (user_id token : Str) (tt : TokenType) (name : Str) (a : Auth S)
      → Valid digest l a.cache
      → ValidAfter (locate_by_id digest l user_id token tt name a)
  unfolding locate_by_id resolve_by_id resolve_by_id_without_cache
  locate_by_id-Valid user_id token tt name a h = elim (Bool-cases (equal name [])) [
    | inl unnamed ↦
        rw unnamed (from_call-Valid a (call l (by_id token tt user_id name) a.services) h)
    | inr named ↦ rw named (
        resolve_cached-Valid digest l _ (by_id token tt user_id name) a
          (refl, ne_of_equal name [] named) h)
  ]

  serve_token-Valid :
      (r : Request) (token : Str) (tt : TokenType) (a : Auth S)
      → Valid digest l a.cache
      → ValidAfter (serve_token digest l r token tt a)
  unfolding serve_token resolve_by_token
  serve_token-Valid r token tt a h = elim (Bool-cases (equal tt user_token)) [
    | inl user ↦ rw user (
        unless_failed-Valid (resolve_by_token digest l token tt a) _
          (resolve_cached-Valid digest l _ (by_token token tt) a (refl, Prim.tt) h) λ d b k. k)
    | inr service ↦ rw service (service_case (Bool-cases (equal (extract_user_id r) [])))
  ]
    where
      service_case :
          (equal (extract_user_id r) [] ≡ true) ⊎ (equal (extract_user_id r) [] ≡ false)
          → ValidAfter (
              (if equal (extract_user_id r) []
                  then pure (status 401)
                  else or_unauthorized
                      (locate_by_id digest l
                        (extract_user_id r)
                        token
                        tt
                        (get_namespace_name r.url.path))
                      (λ cached. pure (route tt r cached)))
                a)
      service_case (inl missing) = rw missing h
      service_case (inr present) = rw present (
          unless_failed-Valid
            (locate_by_id digest l (extract_user_id r) token tt (get_namespace_name r.url.path) a) _
            (locate_by_id-Valid (extract_user_id r) token tt (get_namespace_name r.url.path) a h)
            λ d b k. k)

  from_outcome-Valid :
      {A : Type 0} (o : Outcome A) (a : Auth S)
      → Valid digest l a.cache
      → ValidAfter (from_outcome o a)
  from_outcome-Valid (ok x) a h = h
  from_outcome-Valid (err e) a h = h
  from_outcome-Valid crash a h = h

  with_services-Valid :
      {A : Type 0} (a : Auth S) (run : Run S A)
      → Valid digest l a.cache
      → ValidAfter (with_services a run)
  with_services-Valid a (done x s) h = h
  with_services-Valid a (fail e s) h = h
  with_services-Valid a (panic s) h = h

  -- Whatever the handler does with a request, a panic included, it leaves a valid cache if it
  -- found one: every entry that has a value was obtained by a resolver with the entry's own
  -- key.
  pub serve_http-Valid :
      (r : Request) (a : Auth S)
      → Valid digest l a.cache
      → Valid digest l (state_of (serve_http digest (some l) r a)).cache
  unfolding serve_http serve
  serve_http-Valid r a h = elim (Bool-cases (equal r.method options)) [
    | inl preflight ↦ rw preflight h
    | inr other ↦ rw other (
        unless_failed-Valid (from_outcome (get_token r) a) _ (from_outcome-Valid (get_token r) a h)
          λ token b k.
            unless_failed-Valid (with_services b (l.token_type token b.services)) _
              (with_services-Valid b (l.token_type token b.services) k)
              (λ tt c m. serve_token-Valid r token tt c m))
  ]
