-- ===== src/HealthCheck/Sorted.antt =====
-- healthcheck/healthcheck.go: while the servers' health does not change, the checks keep exactly
-- the healthy ones in the balancer.
use fabric8_oso_proxy.Base.{
  ℕ, zero, suc, Bool, true, not, ◌&&◌, ◌||◌, List, [], ◌∷◌, ◌≡◌, ◌↔◌, refl, ap, ◌∙◌, arith,
  Bool-cases, inl, inr,
}
use fabric8_oso_proxy.HealthCheck.{
  LoadBalancer, Client, Options, Backend, check_health, is_up, recheck, check_enabled, each,
  check_backend, execute,
}
use fabric8_oso_proxy.HealthCheck.Known.{
  contains, contains-append, IsBalancer, enabled, disabled, check_backend-known,
}

-- What is known of the servers, and which of them are enabled, with no order and no copies.
pub record Pool (U : Type 0) : Type 0 where
  pub member : U → Bool
  pub active : U → Bool

-- What a check means for the pool.
abbrev pub checked : {U : Type 0} → (U → Bool) → Pool U → Pool U
checked up p = record { member = p.member; active = λ v. p.member v && up v }

module _ {U L W : Type 0} (same : U → U → Bool) (balancer : LoadBalancer U L) (client : Client U W)
    (opt : Options) (up : U → Bool) where
  -- What the proof asks of the outside.
  pub record IsSteady : Type 0 where
    pub balances : IsBalancer same balancer
    pub same_iff : (u v : U) → (same u v ≡ true) ↔ (u ≡ v)
    pub steady :
        (u : U) (w : W) → is_up balancer client opt (check_health balancer client opt u w).0 ≡ up u

  abbrev is_enabled : Backend U L W → U → Bool
  is_enabled b v = enabled same balancer client opt v b

  abbrev is_disabled : Backend U L W → U → Bool
  is_disabled b v = disabled same balancer client opt v b

  same-up : (h : IsSteady) (u v : U) → same u v ≡ true → up u ≡ up v
  same-up h u v e = ap up ((h.same_iff u v).0 e)

  -- The two lists behind one round of either loop.
  recheck_lists :
      (h : IsSteady) (u v : U) (b : Backend U L W)
      → (is_enabled (recheck balancer client opt u b) v ≡ (same u v && up v) || is_enabled b v)
        × (is_disabled (recheck balancer client opt u b) v
            ≡ (same u v && not (up v)) || is_disabled b v)
  unfolding recheck
  recheck_lists h u v b = elim (Bool-cases (up u)) [
    | inl e ↦
        rw (h.steady u b.world, e, h.balances.upserted u v b.lb)
          (ground (arith, same-up h u v), ground (arith, same-up h u v))
    | inr e ↦
        rw (h.steady u b.world, e, contains-append same v b.disabled_urls (u ∷ []))
          (ground (arith, same-up h u v), ground (arith, same-up h u v))
  ]

  check_enabled_lists :
      (h : IsSteady) (u v : U) (b : Backend U L W)
      → (is_enabled (check_enabled balancer client opt u b) v
          ≡ is_enabled b v && (up v || not (same u v)))
        × (is_disabled (check_enabled balancer client opt u b) v
            ≡ (same u v && not (up v)) || is_disabled b v)
  unfolding check_enabled
  check_enabled_lists h u v b = elim (Bool-cases (up u)) [
    | inl e ↦
        rw (h.steady u b.world, e) (ground (arith, same-up h u v), ground (arith, same-up h u v))
    | inr e ↦
        rw
          (
            h.steady u b.world,
            e,
            h.balances.removed u v b.lb,
            contains-append same v b.disabled_urls (u ∷ []),
          )
          (ground (arith, same-up h u v), ground (arith, same-up h u v))
  ]

  recheck-each_lists :
      (h : IsSteady) (us : List U) (v : U) (b : Backend U L W)
      → (is_enabled (each balancer client opt (recheck balancer client opt) us b) v
          ≡ (contains same v us && up v) || is_enabled b v)
        × (is_disabled (each balancer client opt (recheck balancer client opt) us b) v
            ≡ (contains same v us && not (up v)) || is_disabled b v)
  unfolding each
  recheck-each_lists h [] v b = (refl, refl)
  recheck-each_lists h (u ∷ us) v b =
      let (on, off) = recheck-each_lists h us v (recheck balancer client opt u b) in
      let (on_u, off_u) = recheck_lists h u v b in
      (on ∙ rw on_u (ground arith), off ∙ rw off_u (ground arith))

  check_enabled-each_lists :
      (h : IsSteady) (us : List U) (v : U) (b : Backend U L W)
      → (is_enabled (each balancer client opt (check_enabled balancer client opt) us b) v
          ≡ is_enabled b v && (up v || not (contains same v us)))
        × (is_disabled (each balancer client opt (check_enabled balancer client opt) us b) v
            ≡ (contains same v us && not (up v)) || is_disabled b v)
  unfolding each
  check_enabled-each_lists h [] v b = (ground arith, refl)
  check_enabled-each_lists h (u ∷ us) v b =
      let (on, off) = check_enabled-each_lists h us v (check_enabled balancer client opt u b) in
      let (on_u, off_u) = check_enabled_lists h u v b in
      (on ∙ rw on_u (ground arith), off ∙ rw off_u (ground arith))

  check_backend_lists :
      (h : IsSteady) (b : Backend U L W) (v : U)
      → (is_enabled (check_backend balancer client opt b) v
          ≡ (is_enabled b v || is_disabled b v) && up v)
        × (is_disabled (check_backend balancer client opt b) v
            ≡ (is_enabled b v || is_disabled b v) && not (up v))
  unfolding check_backend
  check_backend_lists h b v =
      let (on, off) = recheck-each_lists h b.disabled_urls v (record b { disabled_urls = [] }) in
      let (on', off') = check_enabled-each_lists h (balancer.servers b.lb) v _ in
      (on' ∙ rw on (ground arith), off' ∙ rw off (ground arith))

  -- The pool that a backend stands for.
  abbrev pub pool_of : Backend U L W → Pool U
  pool_of b = record {
    member = λ v. is_enabled b v || is_disabled b v;
    active = λ v. is_enabled b v;
  }

  -- Assume that the balancer adds and removes servers as it says, and that the health of every
  -- server is the same during the check. Seen as a pool that has no order and no copies, the
  -- balancer and the disabled servers after a check are those from before, with exactly the
  -- healthy servers enabled; no server is lost or added.
  pub check_backend-pool_of :
      IsSteady
      → (b : Backend U L W) → pool_of (check_backend balancer client opt b) ≡ checked up (pool_of b)
  check_backend-pool_of h b = λ j. record {
    member = λ v. check_backend-known same balancer client opt v b h.balances j;
    active = λ v. (check_backend_lists h b v).0 j;
  }

  -- After any number of ticks with steady answers, the URLs that are up are balanced and the
  -- others are disabled.
  pub execute-sorted :
      IsSteady
      → (ticks : ℕ) (b : Backend U L W) (v : U)
      → (is_enabled (execute balancer client opt ticks b) v
          ≡ (is_enabled b v || is_disabled b v) && up v)
        × (is_disabled (execute balancer client opt ticks b) v
            ≡ (is_enabled b v || is_disabled b v) && not (up v))
  unfolding execute
  execute-sorted h zero b v = check_backend_lists h b v
  execute-sorted h (suc ticks) b v =
      let (on, off) = execute-sorted h ticks (check_backend balancer client opt b) v in
      let (on', off') = check_backend_lists h b v in
      (on ∙ rw (on', off') (ground arith), off ∙ rw (on', off') (ground arith))
