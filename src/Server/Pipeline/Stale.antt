-- ===== src/Server/Pipeline/Stale.antt =====
-- server/server.go: `preLoadConfiguration` compares a configuration with the current one only.
use fabric8_oso_proxy.Base.{true, false, some, ◌≡◌, refl, ap, ◌∙◌, Bool-cases, inl, inr}
use fabric8_oso_proxy.Base.Maps.{lookup, lookup-insert_self}
use fabric8_oso_proxy.Base.Strings.{Str}
use fabric8_oso_proxy.Server.Pipeline.{
  Loader, Server, throttle_or_new, hand_over, pre_load_configuration,
}
use fabric8_oso_proxy.Server.Pipeline.Newest.{newest}

module _ {C H : Type 0} (loader : Loader C H) where
  hand_over-current : (p : Str) (c : C) (s : Server C H) → (hand_over p c s).current ≡ s.current
  unfolding hand_over
  hand_over-current p c s = refl

  hand_over-newest : (p : Str) (c : C) (s : Server C H) → newest p (hand_over p c s) ≡ some c
  unfolding hand_over
  hand_over-newest p c s =
      rw
        (lookup-insert_self p (record (throttle_or_new (lookup p s.throttles)) { ring = some c })
          s.throttles)
        refl

  pre_load_other :
      (p : Str) (d : C) (s : Server C H) {x : C}
      → lookup p s.current ≡ some x
      → loader.is_empty (loader.defaults d) ≡ false
      → loader.deep_equal x (loader.defaults d) ≡ false
      → pre_load_configuration loader p d s ≡ hand_over p (loader.defaults d) s
  unfolding pre_load_configuration
  pre_load_other p d s e filled other = rw filled (rw e (rw other refl))

  pre_load_same :
      (p : Str) (c : C) (s : Server C H) {x : C}
      → lookup p s.current ≡ some x
      → loader.deep_equal x (loader.defaults c) ≡ true
      → pre_load_configuration loader p c s ≡ s
  unfolding pre_load_configuration
  pre_load_same p c s e same = elim (Bool-cases (loader.is_empty (loader.defaults c))) [
    | inl empty ↦ rw empty refl
    | inr filled ↦ rw filled (rw e (rw same refl))
  ]

  -- If a provider sends a configuration that is neither empty nor the current one, and then the
  -- current one again, the second message is skipped: the newest configuration on its way to
  -- the routers is the first of the two, which the provider has taken back.
  pub pre_load_configuration-stale :
      (p : Str) (c d x : C) (s : Server C H)
      → lookup p s.current ≡ some x
      → loader.deep_equal x (loader.defaults c) ≡ true
      → loader.is_empty (loader.defaults d) ≡ false
      → loader.deep_equal x (loader.defaults d) ≡ false
      → newest p (pre_load_configuration loader p c (pre_load_configuration loader p d s))
        ≡ some (loader.defaults d)
  pre_load_configuration-stale p c d x s e same filled other =
      let handed = pre_load_other p d s e filled other in
      let kept = hand_over-current p (loader.defaults d) s ∙ refl in
      ap (λ u. newest p (pre_load_configuration loader p c u)) handed
      ∙ ap (newest p)
          (pre_load_same p c (hand_over p (loader.defaults d) s) (ap (lookup p) kept ∙ e) same)
      ∙ hand_over-newest p (loader.defaults d) s
