-- ===== src/HealthCheck/Known.antt =====
-- healthcheck/healthcheck.go: no server is lost, and a check sorts the servers by their health.
use fabric8_oso_proxy.Base.{
  Bool, true, false, not, ◌&&◌, ◌||◌, List, [], ◌∷◌, ◌++◌, ◌≡◌, refl, ◌∙◌, arith, Bool-cases, inl,
  inr,
}
use fabric8_oso_proxy.HealthCheck.{
  LoadBalancer, Client, Options, Backend, check_health, is_up, recheck, check_enabled, each,
  check_backend,
}

module _ {U : Type 0} (same : U → U → Bool) where
  abbrev pub contains : U → List U → Bool
  contains v [] = false
  contains v (u ∷ us) = same u v || contains v us

  -- What the documentation of the balancer says of its calls: a server is added unless it is there,
  -- and one is taken out.
  pub record IsBalancer {L : Type 0} (balancer : LoadBalancer U L) : Type 0 where
    pub upserted :
        (u v : U) (lb : L)
        → contains v (balancer.servers (balancer.upsert_server u lb))
          ≡ same u v || contains v (balancer.servers lb)
    pub removed :
        (u v : U) (lb : L)
        → contains v (balancer.servers (balancer.remove_server u lb))
          ≡ not (same u v) && contains v (balancer.servers lb)

  pub contains-append :
      (v : U) (xs ys : List U) → contains v (xs ++ ys) ≡ contains v xs || contains v ys
  contains-append v [] ys = refl
  contains-append v (x ∷ xs) ys = ground (arith, contains-append v xs ys)

module _ {U L W : Type 0} (same : U → U → Bool) (balancer : LoadBalancer U L) (client : Client U W)
    (opt : Options) where
  abbrev pub enabled : U → Backend U L W → Bool
  enabled v b = contains same v (balancer.servers b.lb)

  abbrev pub disabled : U → Backend U L W → Bool
  disabled v b = contains same v b.disabled_urls

  abbrev pub known : U → Backend U L W → Bool
  known v b = enabled v b || disabled v b

  recheck-known :
      (u v : U) (b : Backend U L W)
      → IsBalancer same balancer
      → known v (recheck balancer client opt u b) ≡ same u v || known v b
  unfolding recheck
  recheck-known u v b law =
      elim (Bool-cases (is_up balancer client opt (check_health balancer client opt u b.world).0)) [
        | inl up ↦ rw (up, law.upserted u v b.lb) (ground arith)
        | inr down ↦ rw (down, contains-append same v b.disabled_urls (u ∷ [])) (ground arith)
      ]

  check_enabled-known :
      (u v : U) (b : Backend U L W)
      → IsBalancer same balancer
      → (same u v ≡ true → known v b ≡ true)
      → known v (check_enabled balancer client opt u b) ≡ known v b
  unfolding check_enabled
  check_enabled-known u v b law h =
      elim (Bool-cases (is_up balancer client opt (check_health balancer client opt u b.world).0)) [
        | inl up ↦ rw up refl
        | inr down ↦
            rw (down, law.removed u v b.lb, contains-append same v b.disabled_urls (u ∷ []))
              (ground arith)
      ]

  recheck-each-known :
      (us : List U) (v : U) (b : Backend U L W)
      → IsBalancer same balancer
      → known v (each balancer client opt (recheck balancer client opt) us b)
        ≡ contains same v us || known v b
  unfolding each
  recheck-each-known [] v b law = refl
  recheck-each-known (u ∷ us) v b law =
      recheck-each-known us v (recheck balancer client opt u b) law
      ∙ rw (recheck-known u v b law) (ground arith)

  check_enabled-each-known :
      (us : List U) (v : U) (b : Backend U L W)
      → IsBalancer same balancer
      → (contains same v us ≡ true → known v b ≡ true)
      → known v (each balancer client opt (check_enabled balancer client opt) us b) ≡ known v b
  unfolding each
  check_enabled-each-known [] v b law h = refl
  check_enabled-each-known (u ∷ us) v b law h =
      let step = check_enabled-known u v b law (λ e. h (rw e refl)) in
      check_enabled-each-known us v (check_enabled balancer client opt u b) law
        (λ e. step ∙ h (later e))
      ∙ step
    where
      later : contains same v us ≡ true → contains same v (u ∷ us) ≡ true
      later e = ground arith

  -- A check neither loses a URL nor adds one.
  pub check_backend-known :
      (v : U) (b : Backend U L W)
      → IsBalancer same balancer
      → known v (check_backend balancer client opt b) ≡ known v b
  unfolding check_backend
  check_backend-known v b law =
      let rechecked = recheck-each-known b.disabled_urls v (record b { disabled_urls = [] }) law in
      check_enabled-each-known (balancer.servers b.lb) v _ law (λ e. rechecked ∙ ground arith)
      ∙ rechecked
      ∙ ground arith
