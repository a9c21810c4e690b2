-- ===== src/Types/Domains/Matched.antt =====
-- types/domains.go: what `MatchDomain` accepts, and domains as lists of texts.
use fabric8_oso_proxy.Base.{
  ℕ, zero, suc, ◌<◌, true, some, List, [], ◌∷◌, ◌++◌, ◌≡◌, ◌⊎◌, ◌↔◌, inl, inr, refl, sym, ap, ◌∙◌,
  arith, length, drop, All, Bool-cases,
}
use mathlib.Core.List.{append-nil}
use fabric8_oso_proxy.Base.Fields.{join, IsFilled, fields_func-join}
use fabric8_oso_proxy.Base.Strings.{Str, codes, equal, equal_iff, equal_ne, split}
use fabric8_oso_proxy.Types.Domains.{
  Domain, to_str_array, is_separator, set_domains, trim_dots, star, match_labels, match_domain,
}

abbrev pub stars : ℕ → List Str
stars zero = []
stars (suc n) = star ∷ stars n

-- The domain with its first `n` labels replaced by stars.
abbrev pub starred : ℕ → List Str → Str
starred n labels = join (stars n ++ drop n labels) (codes ".")

stars_shift : (n : ℕ) (ls : List Str) → stars n ++ star ∷ ls ≡ star ∷ stars n ++ ls
stars_shift zero ls = refl
stars_shift (suc n) ls = ap (◌∷◌ star) (stars_shift n ls)

stars_next : (k : ℕ) → stars k ++ star ∷ [] ≡ stars (suc k)
stars_next k = stars_shift k [] ∙ append-nil (star ∷ stars k)

-- Some label behind those already stars ends the stars of the certificate.
abbrev StarredBehind : Str → ℕ → List Str → Type 0
StarredBehind cert k ls =
    (n : ℕ) × (n < length ls)
    × (cert ≡ join (stars k ++ (stars (suc n) ++ drop (suc n) ls)) (codes "."))

StarredBehind-cons :
    (cert : Str) (k : ℕ) (l : Str) (ls : List Str)
    → StarredBehind cert (suc k) ls
    → StarredBehind cert k (l ∷ ls)
StarredBehind-cons cert k l ls (n, h, e) = (
  suc n,
  omega arith,
  e ∙ ap (λ x. join x (codes ".")) (sym (stars_shift k (stars (suc n) ++ drop (suc n) ls))),
)

StarredBehind-uncons :
    (cert : Str) (k n : ℕ) (l : Str) (ls : List Str)
    → suc n < length (l ∷ ls)
    → cert ≡ join (stars k ++ (stars (suc (suc n)) ++ drop (suc (suc n)) (l ∷ ls))) (codes ".")
    → StarredBehind cert (suc k) ls
StarredBehind-uncons cert k n l ls h e = (
  n,
  omega arith,
  e ∙ ap (λ x. join x (codes ".")) (stars_shift k (stars (suc n) ++ drop (suc n) ls)),
)

match_labels_sound :
    (cert : Str) (k : ℕ) (ls : List Str)
    → match_labels cert (stars k) ls ≡ true
    → StarredBehind cert k ls
unfolding match_labels
match_labels_sound cert k [] h = cc
match_labels_sound cert k (l ∷ ls) h =
    elim (Bool-cases (equal cert (join (stars k ++ star ∷ ls) (codes ".")))) [
      | inl same ↦ (0, omega arith, (equal_iff cert _).0 same)
      | inr other ↦ StarredBehind-cons cert k l ls (
          match_labels_sound cert (suc k) ls
            (ap (λ x. match_labels cert x ls) (sym (stars_next k)) ∙ (rw other at h)))
    ]

match_labels_complete :
    (cert : Str) (k n : ℕ) (ls : List Str)
    → n < length ls
    → cert ≡ join (stars k ++ (stars (suc n) ++ drop (suc n) ls)) (codes ".")
    → match_labels cert (stars k) ls ≡ true
unfolding match_labels
match_labels_complete cert k n [] h e = elim h [ ]
match_labels_complete cert k zero (l ∷ ls) h e =
    rw ((equal_iff cert (join (stars k ++ star ∷ ls) (codes "."))).1 e) refl
match_labels_complete cert k (suc n) (l ∷ ls) h e =
    let (m, h', e') = StarredBehind-uncons cert k n l ls h e in
    elim (Bool-cases (equal cert (join (stars k ++ star ∷ ls) (codes ".")))) [
      | inl same ↦ rw same refl
      | inr other ↦ rw other (
          ap (λ x. match_labels cert x ls) (stars_next k)
          ∙ match_labels_complete cert (suc k) m ls h' e')
    ]

-- The domain itself, or the domain with stars for its first labels, one of them at least.
abbrev pub Matches : Str → Str → Type 0
Matches domain cert =
    (domain ≡ cert)
    ⊎ ((n : ℕ) × (n < length (split domain b'.'))
        × (trim_dots cert ≡ starred (suc n) (split domain b'.')))

-- A certificate's domain matches exactly if it is the domain itself or, without the dots at its
-- end, is the domain with stars for its first labels, of which there is one at least.
pub match_domain-Matches :
    (domain cert : Str) → (match_domain domain cert ≡ true) ↔ Matches domain cert
unfolding match_domain
match_domain-Matches domain cert = (sound, complete)
  where
    sound : match_domain domain cert ≡ true → Matches domain cert
    sound h = elim (Bool-cases (equal domain cert)) [
      | inl same ↦ inl ((equal_iff domain cert).0 same)
      | inr other ↦ inr (match_labels_sound (trim_dots cert) 0 (split domain b'.') (rw other at h))
    ]

    complete : Matches domain cert → match_domain domain cert ≡ true
    complete (inl e) = rw ((equal_iff domain cert).1 e) refl
    complete (inr (n, h, e)) = elim (Bool-cases (equal domain cert)) [
      | inl same ↦ rw same refl
      | inr other ↦ rw other (match_labels_complete (trim_dots cert) 0 n (split domain b'.') h e)
    ]

-- The names of a certificate: none is empty or holds a separator.
abbrev pub IsNamed : Domain → Type 0
IsNamed d = IsFilled is_separator d.main × All (IsFilled is_separator) d.sans

-- A domain is read back from its printed names.
pub set_domains-to_str_array :
    (d : Domain) (ds : List Domain)
    → IsNamed d
    → set_domains (join (to_str_array d) (codes ",")) ds ≡ some (ds ++ d ∷ [])
unfolding set_domains to_str_array
set_domains-to_str_array d ds (h, hs) =
    rw (equal_ne d.main [] h.1)
      (rw (fields_func-join is_separator b',' d.main d.sans refl (h, hs)) refl)
