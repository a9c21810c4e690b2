-- ===== src/Server/Pipeline/Loaded.antt =====
-- server/server.go: the routers are those of the current configurations.
use fabric8_oso_proxy.Base.{Option, none, some, ◌≡◌, ◌⊎◌, inl, inr, refl, ◌∙◌, arith}
use fabric8_oso_proxy.Base.Maps.{insert}
use fabric8_oso_proxy.Base.Run.{Outcome-cases, ok}
use fabric8_oso_proxy.Base.Strings.{Str}
use fabric8_oso_proxy.Server.Pipeline.{
  Loader, Server, hand_over, pre_load_configuration, on_message, load_configuration, Internal,
  take_ring, publish, wake, load, Step, internal, receive, Steps, here, next,
}

module _ {C H : Type 0} (loader : Loader C H) where
  -- Nothing is loaded since the start, or `loadConfig` made the routers of what is current.
  abbrev pub IsServing : Server C H → Server C H → Type 0
  IsServing s t =
      ((t.current ≡ s.current) × (t.handlers ≡ s.handlers))
      ⊎ (loader.load_config t.current ≡ ok t.handlers)

  on_message-current :
      (p : Str) (m : Option C) (s : Server C H) → (on_message loader p m s).current ≡ s.current
  unfolding on_message pre_load_configuration hand_over
  on_message-current p none s = refl
  on_message-current p (some c) s = ground arith

  on_message-handlers :
      (p : Str) (m : Option C) (s : Server C H) → (on_message loader p m s).handlers ≡ s.handlers
  unfolding on_message pre_load_configuration hand_over
  on_message-handlers p none s = refl
  on_message-handlers p (some c) s = ground arith

  load-IsServing :
      (s t : Server C H) (p : Str) (c : C)
      → IsServing s t
      → IsServing s (load_configuration loader p c t)
  unfolding load_configuration
  load-IsServing s t p c i = elim (Outcome-cases (loader.load_config (insert p c t.current))) [
    | inl (h, e) ↦ rw e (inr e)
    | inr (inl (x, failed)) ↦ rw failed i
    | inr (inr crashed) ↦ rw crashed i
  ]

  Internal-IsServing :
      (s : Server C H) {t u : Server C H} → Internal loader t u → IsServing s t → IsServing s u
  Internal-IsServing s (take_ring p t c _ _ _) i = i
  Internal-IsServing s (publish p t c _ _ _) i = i
  Internal-IsServing s (wake p t _ _) i = i
  Internal-IsServing s {t} (load p c ms _ _) i =
      load-IsServing s (record t { validated = ms }) p c i

  Step-IsServing :
      (s : Server C H) {t u : Server C H} → Step loader t u → IsServing s t → IsServing s u
  Step-IsServing s (internal m) i = Internal-IsServing s m i
  Step-IsServing s {t} (receive p m _) (inl (c, h)) =
      inl (on_message-current p m t ∙ c, on_message-handlers p m t ∙ h)
  Step-IsServing s {t} (receive p m _) (inr e) =
      inr (rw (on_message-current p m t, on_message-handlers p m t) e)

  -- In any run of the server's goroutines the routers and the current configurations are those
  -- of the start, or the routers are what `loadConfig` made of the current configurations: a
  -- configuration that fails to load changes neither.
  pub Steps-IsServing : (s : Server C H) {t : Server C H} → Steps loader s t → IsServing s t
  Steps-IsServing s here = inl (refl, refl)
  Steps-IsServing s (next steps step) = Step-IsServing s step (Steps-IsServing s steps)
