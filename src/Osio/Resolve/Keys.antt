-- ===== src/Osio/Resolve/Keys.antt =====
-- The cache's keys: when two lookups share an entry.
use fabric8_oso_proxy.Base.{ℕ, ◌/◌, ◌%◌, [], ◌∷◌, ◌++◌, ◌≡◌, refl, sym, ap, ◌∙◌, arith}
use mathlib.Core.List.{append_assoc}
use mathlib.Core.Path.{subst, ap₂}
use fabric8_oso_proxy.Base.Strings.{Str, Lacks}
use fabric8_oso_proxy.Osio.Resolve.{hex_digit, hex_encode, plain_key, cache_key}

head_eq : {x y : ℕ} {s t : Str} → ◌≡◌ {A = Str} (x ∷ s) (y ∷ t) → x ≡ y
head_eq e = cc e

tail_eq : {x y : ℕ} {s t : Str} → ◌≡◌ {A = Str} (x ∷ s) (y ∷ t) → s ≡ t
tail_eq e = cc e

not-Lacks : (c : ℕ) (s t : Str) → Lacks c (s ++ c ∷ t) → ⊥
not-Lacks c [] t h = h.0 refl
not-Lacks c (d ∷ s) t h = not-Lacks c s t h.1

-- Texts that are equal agree on both sides of their last separators.
cancel_last :
    (c : ℕ) (a b x y : Str) → Lacks c x → Lacks c y → a ++ c ∷ x ≡ b ++ c ∷ y → (a ≡ b) × (x ≡ y)
cancel_last c [] [] x y hx hy e = (refl, tail_eq e)
cancel_last c [] (d ∷ b) x y hx hy e = absurd (not-Lacks c b y (subst (Lacks c) (tail_eq e) hx))
cancel_last c (d ∷ a) [] x y hx hy e =
    absurd (not-Lacks c a x (subst (Lacks c) (sym (tail_eq e)) hy))
cancel_last c (d ∷ a) (f ∷ b) x y hx hy e =
    let (ab, xy) = cancel_last c a b x y hx hy (tail_eq e) in (ap₂ (◌∷◌) (head_eq e) ab, xy)

plain_key-last : (t u n : Str) → plain_key t u n ≡ (t ++ b'_' ∷ u) ++ b'_' ∷ n
plain_key-last t u n = sym (append_assoc t (b'_' ∷ u) (b'_' ∷ n))

-- Two key texts whose users and namespaces have no underscore are equal only if their tokens,
-- their users and their namespaces are equal.
pub plain_key_injective :
    (t u n t' u' n' : Str)
    → Lacks b'_' u
    → Lacks b'_' n
    → Lacks b'_' u'
    → Lacks b'_' n'
    → plain_key t u n ≡ plain_key t' u' n'
    → (t ≡ t') × (u ≡ u') × (n ≡ n')
plain_key_injective t u n t' u' n' hu hn hu' hn' e =
    let joined = sym (plain_key-last t u n) ∙ e ∙ plain_key-last t' u' n' in
    let (rest, names) = cancel_last b'_' (t ++ b'_' ∷ u) (t' ++ b'_' ∷ u') n n' hn hn' joined in
    let (tokens, users) = cancel_last b'_' t t' u u' hu hu' rest in (tokens, users, names)

-- Users and namespaces with underscores are confused: whatever the hash, a user "u_m" in a
-- namespace "n" has the cache key of the user "u" in a namespace "m_n".
pub cache_key_ambiguous :
    (digest : Str → Str) (t u m n : Str)
    → cache_key digest (plain_key t (u ++ b'_' ∷ m) n)
      ≡ cache_key digest (plain_key t u (m ++ b'_' ∷ n))
cache_key_ambiguous digest t u m n =
    ap (λ s. cache_key digest (t ++ b'_' ∷ s)) (append_assoc u (b'_' ∷ m) (b'_' ∷ n))

hex_digit_injective : (m n : ℕ) → hex_digit m ≡ hex_digit n → m ≡ n
hex_digit_injective m n h = ground arith

hex_encode_injective : (s t : Str) → hex_encode s ≡ hex_encode t → s ≡ t
unfolding hex_encode
hex_encode_injective [] [] e = refl
hex_encode_injective [] (d ∷ t) e = cc
hex_encode_injective (c ∷ s) [] e = cc
hex_encode_injective (c ∷ s) (d ∷ t) e =
    let high = hex_digit_injective (c / 16) (d / 16) (head_eq e) in
    let low = hex_digit_injective (c % 16) (d % 16) (head_eq (tail_eq e)) in
    ap₂ (◌∷◌) (omega arith) (hex_encode_injective s t (tail_eq (tail_eq e)))

-- Two texts share a cache entry only if they collide under the hash.
pub cache_key_injective :
    (digest : Str → Str) (s t : Str) → cache_key digest s ≡ cache_key digest t → digest s ≡ digest t
unfolding cache_key
cache_key_injective digest s t e = hex_encode_injective (digest s) (digest t) e
