-- ===== src/Cluster/Schedule/Phases.antt =====
-- provider/osio/osio.go: what holds of the provider at every point of a run of `schedule`.
use fabric8_oso_proxy.Base.{
  Bool, true, false, Option, none, some, List, [], ◌∷◌, ◌≡◌, refl, sym, ◌∙◌, ◌≢◌, inl, inr,
  Option-cases, All,
}
use fabric8_oso_proxy.Base.Run.{Error, Run, done, fail, panic, after}
use fabric8_oso_proxy.Base.Strings.{Str}
use fabric8_oso_proxy.Net.Web.{Web}
use fabric8_oso_proxy.Cluster.Client.{Json, TokenResponse, ClusterResponse, get_clusters}
use fabric8_oso_proxy.Cluster.Rules.{Configuration}
use fabric8_oso_proxy.Cluster.Rules.Linked.{IsLinked, load_rules-IsLinked}
use fabric8_oso_proxy.Cluster.Rules.Routes.{entry}
use fabric8_oso_proxy.Cluster.Schedule.{
  Settings, Provider, Phase, starting, waiting, stopped, Machine, store_token, store_rules, send,
  fetch_when, fetch_token, load_config, reload, begin, handle_canceled, proceed, initial, Step,
  attempt, tick, leave, cancel, Steps, stay, next,
}

-- A nil token never yields clusters.
get_clusters-none :
    {W : Type 0} (json : Json) (web : Web W) (url : Str) (w w' : W) (r : Option ClusterResponse)
    → get_clusters json web url none w ≢ done r w'
unfolding get_clusters
get_clusters-none json web url w w' r h = elim (Option-cases (web.new_request url)) [
  | inl e ↦ cc
  | inr (x, e) ↦ cc
]

-- What a part of the operation does with a provider whose token is `t`, told by its end: a token
-- that was there stays, the configurations sent are linked, and after a success there is a token,
-- and a configuration was sent.
abbrev pub Keeps : Option TokenResponse → Option TokenResponse → Type 0
Keeps none t = Unit
Keeps (some t) t' = t' ≡ some t

abbrev pub IsLinkedAt : Str → Configuration → Type 0
IsLinkedAt j conf = IsLinked j (entry j conf)

abbrev pub HasToken : Option TokenResponse → Type 0
HasToken none = ⊥
HasToken (some t) = Unit

abbrev pub IsSent : List Configuration → Type 0
IsSent [] = ⊥
IsSent (c ∷ cs) = Unit

Keeps_refl : (t : Option TokenResponse) → Keeps t t
Keeps_refl none = tt
Keeps_refl (some t) = refl

Keeps_trans : (t u v : Option TokenResponse) → Keeps t u → Keeps u v → Keeps t v
Keeps_trans none u v h k = tt
Keeps_trans (some t) none v h k = cc
Keeps_trans (some t) (some u) v h k = k ∙ h

Keeps_some : (t u : Option TokenResponse) (a : TokenResponse) → Keeps t u → t ≡ some a → u ≡ some a
Keeps_some none u a k e = cc
Keeps_some (some t) u a k e = k ∙ e

module _ {W : Type 0} (j : Str) where
  abbrev Left : Option TokenResponse → Provider W → Type 0
  Left t q = Keeps t q.token_resp × All (IsLinkedAt j) q.sent

  abbrev Ended : Option TokenResponse → Run (Provider W) (Unit {0}) → Type 0
  Ended t (done _ q) = Left t q × HasToken q.token_resp × IsSent q.sent
  Ended t (fail e q) = Left t q
  Ended t (panic q) = Left t q

  Ended-none :
      (t : Option TokenResponse) (r : Run (Provider W) (Unit {0})) → Ended t r → Ended none r
  Ended-none t (done _ q) ((_, l), h, k) = ((tt, l), h, k)
  Ended-none t (fail e q) (_, l) = (tt, l)
  Ended-none t (panic q) (_, l) = (tt, l)

  store_rules-Ended :
      (p : Provider W) (r : Run W (Option ClusterResponse))
      → ((cs : ClusterResponse) (w : W) → r ≡ done (some cs) w → HasToken p.token_resp)
      → All (IsLinkedAt j) p.sent
      → Ended p.token_resp (after (store_rules p r) send)
  store_rules-Ended p (done (some cs) w) h l = (
    (Keeps_refl p.token_resp, (load_rules-IsLinked p.default_backend_url cs j, l)),
    h cs w refl,
    tt,
  )
  store_rules-Ended p (done none w) h l = (Keeps_refl p.token_resp, l)
  store_rules-Ended p (fail e w) h l = (Keeps_refl p.token_resp, l)
  store_rules-Ended p (panic w) h l = (Keeps_refl p.token_resp, l)

module _ {W : Type 0} (json : Json) (web : Web W) (s : Settings) (j : Str) where
  clusters_token :
      (t : Option TokenResponse) (w w' : W) (cs : ClusterResponse)
      → get_clusters json web s.clusters_url t w ≡ done (some cs) w'
      → HasToken t
  clusters_token none w w' cs h =
      absurd (get_clusters-none json web s.clusters_url w w' (some cs) h)
  clusters_token (some t) w w' cs h = tt

  reload-Ended :
      (p : Provider W) → All (IsLinkedAt j) p.sent → Ended j p.token_resp (reload json web s p)
  unfolding reload load_config
  reload-Ended p l = store_rules-Ended j p _ (λ cs w. clusters_token p.token_resp p.world w cs) l

  store_token-Ended :
      (p : Provider W) (r : Run W (Option TokenResponse))
      → All (IsLinkedAt j) p.sent
      → Ended j none (after (store_token p r) (λ _. reload json web s))
  store_token-Ended p (done t w) l =
      let q : Provider W = record p { token_resp = t; world = w } in
      Ended-none j t (reload json web s q) (reload-Ended q l)
  store_token-Ended p (fail e w) l = (tt, l)
  store_token-Ended p (panic w) l = (tt, l)

  fetch_when-Ended :
      (p : Provider W) (t : Option TokenResponse)
      → p.token_resp ≡ t
      → All (IsLinkedAt j) p.sent
      → Ended j t (after (fetch_when json web s t p) (λ _. reload json web s))
  fetch_when-Ended p none e l = store_token-Ended p _ l
  fetch_when-Ended p (some t) e l = rw (sym e) (reload-Ended p l)

  begin-Ended :
      (p : Provider W) → All (IsLinkedAt j) p.sent → Ended j p.token_resp (begin json web s p)
  unfolding begin fetch_token
  begin-Ended p l = fetch_when-Ended p p.token_resp refl l

-- The token of a machine, and what holds of it at each phase.
module _ {W : Type 0} where
  abbrev pub token_of : Machine W → Option TokenResponse
  token_of m = m.provider.token_resp

  abbrev pub IsAtPhase : Phase → Bool → Provider W → Type 0
  IsAtPhase starting c p = Unit
  IsAtPhase waiting c p = HasToken p.token_resp × IsSent p.sent
  IsAtPhase stopped c p = c ≡ true

  abbrev pub IsSound : Str → Machine W → Type 0
  IsSound j m = All (IsLinkedAt j) m.provider.sent × IsAtPhase m.phase m.cancelled m.provider

module _ {W : Type 0} (json : Json) (web : Web W) (s : Settings) (is_canceled : Error → Bool)
    (never : (e : Error) → is_canceled e ≡ false) where
  abbrev Moved : Str → Option TokenResponse → Machine W → Type 0
  Moved j t m = Keeps t (token_of m) × IsSound j m

  handle_canceled-IsAtPhase :
      (c : Bool) (e : Error) (p : Provider W) → IsAtPhase (handle_canceled is_canceled c e) c p
  unfolding handle_canceled
  handle_canceled-IsAtPhase true e p = refl
  handle_canceled-IsAtPhase false e p = rw (never e) tt

  proceed-Moved :
      (j : Str) (t : Option TokenResponse) (c : Bool) (r : Run (Provider W) (Unit {0}))
      → Ended j t r
      → Moved j t (proceed is_canceled c r)
  unfolding proceed
  proceed-Moved j t c (done _ q) ((k, l), h, i) = (k, (l, (h, i)))
  proceed-Moved j t c (fail e q) (k, l) = (k, (l, handle_canceled-IsAtPhase c e q))
  proceed-Moved j t c (panic q) (k, l) = (k, (l, tt))

  cancel-IsAtPhase : (h : Phase) (c : Bool) (p : Provider W) → IsAtPhase h c p → IsAtPhase h true p
  cancel-IsAtPhase starting c p i = tt
  cancel-IsAtPhase waiting c p i = i
  cancel-IsAtPhase stopped c p i = refl

  Step-Moved :
      (j : Str) {m n : Machine W}
      → Step json web s is_canceled m n
      → IsSound j m
      → Moved j (token_of m) n
  Step-Moved j (attempt c p) (l, i) =
      proceed-Moved j p.token_resp c _ (begin-Ended json web s j p l)
  Step-Moved j (tick c p) (l, i) = proceed-Moved j p.token_resp c _ (reload-Ended json web s j p l)
  Step-Moved j (leave p) (l, i) = (Keeps_refl p.token_resp, (l, refl))
  Step-Moved j (cancel h c p) (l, i) = (Keeps_refl p.token_resp, (l, cancel-IsAtPhase h c p i))

  Steps-Moved :
      (j : Str) {m n : Machine W}
      → Steps json web s is_canceled m n
      → IsSound j m
      → Moved j (token_of m) n
  Steps-Moved j (stay m) i = (Keeps_refl (token_of m), i)
  Steps-Moved j (next {m = m} {n = n} {o = o} r d) i =
      let (k, h) = Steps-Moved j r i in
      let (l, g) = Step-Moved j d h in (Keeps_trans (token_of m) (token_of n) (token_of o) k l, g)

  -- Assume that no error of the client is `context.Canceled` itself. Then at every point of a
  -- run of `schedule`, whatever the auth service answers and whenever the context is cancelled:
  -- every configuration sent has under every name no rule, or a frontend with its backend; in
  -- the polling loop there is a token and a configuration was sent; and the goroutine has
  -- returned only after the cancellation.
  pub Steps-IsSound :
      (j : Str) (w : W) (m : Machine W) → Steps json web s is_canceled (initial w) m → IsSound j m
  Steps-IsSound j w m r = (Steps-Moved j r (tt, tt)).1

  -- Assume that no error of the client is `context.Canceled` itself. Then a token that the
  -- provider has at one point of a run of `schedule` is the token that it has at every later
  -- point, whatever the auth service answers: it is never fetched again.
  pub Steps-token_kept :
      (w : W) (m n : Machine W) (t : TokenResponse)
      → Steps json web s is_canceled (initial w) m
      → Steps json web s is_canceled m n
      → token_of m ≡ some t
      → token_of n ≡ some t
  Steps-token_kept w m n t r d e =
      Keeps_some (token_of m) (token_of n) t (Steps-Moved [] d (Steps-IsSound [] w m r)).0 e
