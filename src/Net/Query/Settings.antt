-- ===== src/Net/Query/Settings.antt =====
-- The settings that `Values.Encode` writes are the ones that `parseQuery` reads.
use fabric8_oso_proxy.Base.{
  ℕ, false, List, [], ◌∷◌, ◌++◌, ◌≡◌, ◌≢◌, refl, ap, ◌∙◌, arith, ◌==◌, All,
}
use fabric8_oso_proxy.Base.Strings.{Str}
use fabric8_oso_proxy.Net.Query.{
  Values, is_separator, settings, cut, add_value, add_unescaped, add_setting, setting_of,
  join_settings,
}
use fabric8_oso_proxy.Net.Url.{query_component, escape, unescape}
use fabric8_oso_proxy.Net.Url.Escape.{IsByte, IsSafe, unescape-escape, escape-IsSafe, All-append}

-- A byte that does not separate settings.
abbrev pub IsInside : ℕ → Type 0
IsInside c = is_separator c ≡ false

settings_one : (s : Str) → All IsInside s → settings s ≡ s ∷ []
unfolding settings
settings_one [] h = refl
settings_one (c ∷ s) (i, h) = rw (i, settings_one s h) refl

settings-append : (s t : Str) → All IsInside s → settings (s ++ b'&' ∷ t) ≡ s ∷ settings t
unfolding settings
settings-append [] t h = refl
settings-append (c ∷ s) t (i, h) = rw (i, settings-append s t h) refl

pub settings-join_settings :
    (s : Str) (ss : List Str)
    → All (λ s. All IsInside s) (s ∷ ss)
    → settings (join_settings (s ∷ ss)) ≡ s ∷ ss
unfolding join_settings
settings-join_settings s [] (i, h) = settings_one s i
settings-join_settings s (t ∷ ss) (i, h) =
    settings-append s (join_settings (t ∷ ss)) i ∙ ap (◌∷◌ s) (settings-join_settings t ss h)

cut_at : (k v : Str) → All IsSafe k → cut (k ++ b'=' ∷ v) ≡ (k, v)
unfolding cut
cut_at [] v h = refl
cut_at (c ∷ k) v ((_, _, n), h) =
    let other : (c == b'=') ≡ false = ground arith in rw (other, cut_at k v h) refl

setting_IsInside : (s : Str) → All IsSafe s → All IsInside s
setting_IsInside [] h = tt
setting_IsInside (c ∷ s) (i, h) = (ground arith, setting_IsInside s h)

pub setting_of-IsInside : (k v : Str) → All IsByte k → All IsByte v → All IsInside (setting_of k v)
setting_of-IsInside k v h i =
    All-append IsInside (escape query_component k) (b'=' ∷ escape query_component v)
      (setting_IsInside (escape query_component k) (escape-IsSafe k h))
      (refl, setting_IsInside (escape query_component v) (escape-IsSafe v i))

-- The case of an empty setting does not arise.
add_setting-cut :
    (s : Str) (k v : Str) (m : Values)
    → s ≢ []
    → cut s ≡ (k, v)
    → add_setting s m ≡ add_unescaped (unescape query_component k) (unescape query_component v) m
unfolding add_setting
add_setting-cut [] k v m n e = absurd (n refl)
add_setting-cut (c ∷ s) k v m n e = rw e refl

setting_of-ne : (s v : Str) → s ++ b'=' ∷ v ≢ []
setting_of-ne [] v e = cc
setting_of-ne (c ∷ s) v e = cc

pub add_setting-setting_of :
    (k v : Str) (m : Values)
    → All IsByte k
    → All IsByte v
    → add_setting (setting_of k v) m ≡ add_value k v m
add_setting-setting_of k v m h i =
    add_setting-cut (setting_of k v) (escape query_component k) (escape query_component v) m
      (setting_of-ne (escape query_component k) (escape query_component v))
      (cut_at (escape query_component k) (escape query_component v) (escape-IsSafe k h))
    ∙ rw (unescape-escape k h, unescape-escape v i) refl
