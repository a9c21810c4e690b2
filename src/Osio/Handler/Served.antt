-- ===== src/Osio/Handler/Served.antt =====
-- How the handler came to act on a request: through the token, its type and a lookup.
use fabric8_oso_proxy.Base.{
  false, [], ◌≡◌, ◌≢◌, refl, sym, ap, ◌∙◌, ◌⊎◌, inl, inr, if◌then◌else◌, Bool-cases,
}
use mathlib.Core.Path.{subst}
use fabric8_oso_proxy.Base.Strings.{Str, equal, equal_iff, ne_of_equal}
use fabric8_oso_proxy.Base.Run.{Error, Run, done, fail, panic, M, pure, Outcome, ok, err, crash}
use fabric8_oso_proxy.Net.Request.{Request}
use fabric8_oso_proxy.Osio.Handler.{
  Action, status, unauthorized, unless_failed, or_unauthorized, from_outcome, with_services,
  on_services, route, locate_by_id, serve_token, serve,
}
use fabric8_oso_proxy.Osio.Paths.{get_token, extract_user_id, get_namespace_name}
use fabric8_oso_proxy.Osio.Resolve.{Auth, resolve_by_token}
use fabric8_oso_proxy.Osio.Types.{TokenType, user_token, CacheData, Locators}

module _ {S : Type 0} (digest : Str → Str) (l : Locators S) (r : Request) where
  -- The lookup that a token of each type asks for.
  abbrev pub Located : Str → TokenType → Auth S → CacheData → Auth S → Type 0
  Located token tt a d a' =
      (tt ≡ user_token) × (resolve_by_token digest l token tt a ≡ done d a')
      ⊎ (tt ≢ user_token)
        × (extract_user_id r ≢ [])
        × (locate_by_id digest l (extract_user_id r) token tt (get_namespace_name r.url.path) a
            ≡ done d a')

  -- How the handler came to act on a request: the token, its type, and the data of the lookup.
  pub record Served (a a' : Auth S) (act : Action) : Type 0 where
    pub token : Str
    pub token_type : TokenType
    pub services : S
    pub cached : CacheData
    pub has_token : get_token r ≡ ok token
    pub has_type : l.token_type token a.services ≡ done token_type services
    pub located : Located token token_type (record a { services = services }) cached a'
    pub routed : route token_type r cached ≡ act

  -- A lookup of the same kind that fails.
  abbrev pub Fails : Str → TokenType → Auth S → Error → Auth S → Type 0
  Fails token tt a e a' =
      (tt ≡ user_token) × (resolve_by_token digest l token tt a ≡ fail e a')
      ⊎ (tt ≢ user_token)
        × (extract_user_id r ≢ [])
        × (locate_by_id digest l (extract_user_id r) token tt (get_namespace_name r.url.path) a
            ≡ fail e a')

  -- Why the handler refuses a request.
  pub data Rejected (a a' : Auth S) : Type 0 where
    no_token : (e : Error) → get_token r ≡ err e → a' ≡ a → Rejected a a'
    bad_token :
        (token : Str) (e : Error) (s : S)
        → get_token r ≡ ok token
        → l.token_type token a.services ≡ fail e s
        → a' ≡ record a { services = s }
        → Rejected a a'
    no_user :
        (token : Str) (tt : TokenType) (s : S)
        → get_token r ≡ ok token
        → l.token_type token a.services ≡ done tt s
        → tt ≢ user_token
        → extract_user_id r ≡ []
        → a' ≡ record a { services = s }
        → Rejected a a'
    no_data :
        (token : Str) (tt : TokenType) (s : S) (e : Error)
        → get_token r ≡ ok token
        → l.token_type token a.services ≡ done tt s
        → Fails token tt (record a { services = s }) e a'
        → Rejected a a'

  unless_failed-eq-done :
      {A : Type 0} (run : Run (Auth S) A) (f : A → M (Auth S) Action) {a' : Auth S} {act : Action}
      → unless_failed run f ≡ done act a'
      → (act ≡ status unauthorized) × ((e : Error) × (run ≡ fail e a'))
        ⊎ ((x : A) × (b : Auth S) × (run ≡ done x b) × (f x b ≡ done act a'))
  unless_failed-eq-done (done x b) f h = inr (x, b, refl, h)
  unless_failed-eq-done (fail e b) f h = inl (sym (cc h), (e, ap (fail e) (cc h)))
  unless_failed-eq-done (panic b) f h = cc

  located_by :
      (tt : TokenType) (m : M (Auth S) CacheData) (a a' : Auth S) (act : Action)
      → or_unauthorized m (λ cached. pure (route tt r cached)) a ≡ done act a'
      → (act ≡ status unauthorized) × ((e : Error) × (m a ≡ fail e a'))
        ⊎ ((d : CacheData) × (m a ≡ done d a') × (route tt r d ≡ act))
  located_by tt m a a' act h = elim (unless_failed-eq-done (m a) _ h) [
    | inl refused ↦ inl refused
    | inr (d, b, ran, h') ↦ inr (d, ran ∙ ap (done d) (cc h'), cc h')
  ]

  -- What becomes of a token of a known type.
  abbrev Answered : Str → TokenType → Auth S → Auth S → Action → Type 0
  Answered token tt a a' act =
      (act ≡ status unauthorized) × ((e : Error) × Fails token tt a e a')
      ⊎ ((act ≡ status unauthorized) × (tt ≢ user_token) × (extract_user_id r ≡ []) × (a' ≡ a)
          ⊎ ((d : CacheData) × Located token tt a d a' × (route tt r d ≡ act)))

  serve_token-service :
      (token : Str) (tt : TokenType) (a a' : Auth S) (act : Action)
      → equal tt user_token ≡ false
      → (if equal (extract_user_id r) []
            then pure (status unauthorized)
            else or_unauthorized
                (locate_by_id digest l (extract_user_id r) token tt (get_namespace_name r.url.path))
                (λ cached. pure (route tt r cached)))
          a
        ≡ done act a'
      → Answered token tt a a' act
  serve_token-service token tt a a' act service k =
      elim (Bool-cases (equal (extract_user_id r) [])) [
        | inl missing ↦
            let h = rw missing at k in
            inr (
              inl (
                sym (cc h),
                ne_of_equal tt user_token service,
                (equal_iff (extract_user_id r) []).0 missing,
                sym (cc h),
              ))
        | inr present ↦
            let service' = ne_of_equal tt user_token service in
            let present' = ne_of_equal (extract_user_id r) [] present in
            elim (located_by tt
              (locate_by_id digest l (extract_user_id r) token tt (get_namespace_name r.url.path)) a
              a' act (rw present at k)) [
                | inl (refused, (e, ran)) ↦ inl (refused, (e, inr (service', present', ran)))
                | inr (d, ran, routed) ↦ inr (inr (d, inr (service', present', ran), routed))
              ]
      ]

  -- The two branches of the test of the token's type.
  serve_token-Answered :
      (token : Str) (tt : TokenType) (a a' : Auth S) (act : Action)
      → serve_token digest l r token tt a ≡ done act a'
      → Answered token tt a a' act
  unfolding serve_token
  serve_token-Answered token tt a a' act h = elim (Bool-cases (equal tt user_token)) [
    | inl user ↦
        let user' = (equal_iff tt user_token).0 user in
        elim (located_by tt (resolve_by_token digest l token tt) a a' act (rw user at h)) [
          | inl (refused, (e, ran)) ↦ inl (refused, (e, inl (user', ran)))
          | inr (d, ran, routed) ↦ inr (inr (d, inl (user', ran), routed))
        ]
    | inr service ↦ serve_token-service token tt a a' act service (rw service at h)
  ]

  from_outcome-eq-done :
      {A : Type 0} (o : Outcome A) (a b : Auth S) (x : A)
      → from_outcome o a ≡ done x b
      → (o ≡ ok x) × (b ≡ a)
  from_outcome-eq-done (ok y) a b x h = (cc h, cc h)
  from_outcome-eq-done (err e) a b x h = cc
  from_outcome-eq-done crash a b x h = cc

  with_services-eq-done :
      {A : Type 0} (a b : Auth S) (run : Run S A) (x : A)
      → with_services a run ≡ done x b
      → (s : S) × (run ≡ done x s) × (b ≡ record a { services = s })
  with_services-eq-done a b (done y s) x h = (s, ap (λ z. done z s) (cc h), sym (cc h))
  with_services-eq-done a b (fail e s) x h = cc
  with_services-eq-done a b (panic s) x h = cc

  from_outcome-eq-fail :
      {A : Type 0} (o : Outcome A) (a b : Auth S) (e : Error)
      → from_outcome o a ≡ fail e b
      → (o ≡ err e) × (b ≡ a)
  from_outcome-eq-fail (ok y) a b e h = cc
  from_outcome-eq-fail (err x) a b e h = (ap err (cc h), sym (cc h))
  from_outcome-eq-fail crash a b e h = cc

  with_services-eq-fail :
      {A : Type 0} (a b : Auth S) (run : Run S A) (e : Error)
      → with_services a run ≡ fail e b
      → (s : S) × (run ≡ fail e s) × (b ≡ record a { services = s })
  with_services-eq-fail a b (done x s) e h = cc
  with_services-eq-fail a b (fail x s) e h = (s, ap (λ z. fail z s) (cc h), sym (cc h))
  with_services-eq-fail a b (panic s) e h = cc

  abbrev pub Verdict : Auth S → Auth S → Action → Type 0
  Verdict a a' act = (act ≡ status unauthorized) × Rejected a a' ⊎ Served a a' act

  Verdict-of :
      (token : Str) (tt : TokenType) (s : S) (a a' : Auth S) (act : Action)
      → get_token r ≡ ok token
      → l.token_type token a.services ≡ done tt s
      → Answered token tt (record a { services = s }) a' act
      → Verdict a a' act
  Verdict-of token tt s a a' act t k (inl (refused, (e, fails))) =
      inl (refused, no_data token tt s e t k fails)
  Verdict-of token tt s a a' act t k (inr (inl (refused, service, missing, same))) =
      inl (refused, no_user token tt s t k service missing same)
  Verdict-of token tt s a a' act t k (inr (inr (d, located, routed))) = inr (record {
    token = token;
    token_type = tt;
    services = s;
    cached = d;
    has_token = t;
    has_type = k;
    located = located;
    routed = routed;
  })

  serve_typed-Verdict :
      (token : Str) (a a' : Auth S) (act : Action)
      → get_token r ≡ ok token
      → or_unauthorized (on_services (l.token_type token)) (serve_token digest l r token) a
        ≡ done act a'
      → Verdict a a' act
  serve_typed-Verdict token a a' act t h =
      elim (unless_failed-eq-done (on_services (l.token_type token) a) _ h) [
        | inl (refused, (e, has_type)) ↦
            let (s, type_is, same) =
              with_services-eq-fail a a' (l.token_type token a.services) e has_type in
            inl (refused, bad_token token e s t type_is same)
        | inr (tt, c, has_type, h2) ↦
            let (s, type_is, c_is) =
              with_services-eq-done a c (l.token_type token a.services) tt has_type in
            Verdict-of token tt s a a' act t type_is (
              subst (λ x. Answered token tt x a' act) c_is
                (serve_token-Answered token tt c a' act h2))
      ]

  -- Every answer is a refusal with its reason, or goes through the token, its type and the lookup.
  pub serve-Verdict :
      (a a' : Auth S) (act : Action) → serve digest l r a ≡ done act a' → Verdict a a' act
  unfolding serve
  serve-Verdict a a' act h = elim (unless_failed-eq-done (from_outcome (get_token r) a) _ h) [
    | inl (refused, (e, has_token)) ↦
        let (token_is, same) = from_outcome-eq-fail (get_token r) a a' e has_token in
        inl (refused, no_token e token_is same)
    | inr (token, b, has_token, h1) ↦
        let (token_is, b_is) = from_outcome-eq-done (get_token r) a b token has_token in
        serve_typed-Verdict token a a' act token_is (
          subst
            (λ x.
              or_unauthorized (on_services (l.token_type token)) (serve_token digest l r token) x
              ≡ done act a')
            b_is h1)
  ]
