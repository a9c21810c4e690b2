-- ===== src/Server/Certificates.antt =====
-- server/server.go: the certificate for a name, `serverEntryPoint.getCertificate`. The map is given
-- in the order in which Go happens to visit it.
use fabric8_oso_proxy.Base.{
  Bool, true, false, Option, none, some, List, [], ◌∷◌, ◌≡◌, ◌⊎◌, inl, inr, refl, ap, if◌then◌else◌,
  Bool-cases,
}
use fabric8_oso_proxy.Base.Strings.{Str, split}
use fabric8_oso_proxy.Rules.{canonical_domain}
use fabric8_oso_proxy.Types.Domains.{match_domain}
use fabric8_oso_proxy.Types.Domains.Matched.{Matches, match_domain-Matches}

-- What the function returns: a certificate of the map, what the listener says, or nil.
pub data Answer (K L : Type 0) : Type 0 where
  certificate : K → Answer K L
  on_demand : L → Answer K L
  nothing : Answer K L

unfoldable pub matches_any : Str → List Str → Bool
matches_any d [] = false
matches_any d (c ∷ cs) = if match_domain d c then true else matches_any d cs

unfoldable pub find_certificate : {K : Type 0} → Str → List (Str × K) → Option K
find_certificate d [] = none
find_certificate d ((domains, k) ∷ certs) =
    if matches_any d (split domains b',') then some k else find_certificate d certs

abbrev pub ask_listener : {K L : Type 0} → Str → Option (Str → L) → Answer K L
ask_listener d none = nothing
ask_listener d (some f) = on_demand (f d)

abbrev pub or_ask : {K L : Type 0} → Str → Option (Str → L) → Option K → Answer K L
or_ask d listener (some k) = certificate k
or_ask d listener none = ask_listener d listener

abbrev pub in_certificates : {K : Type 0} → Str → Option (List (Str × K)) → Option K
in_certificates d none = none
in_certificates d (some certs) = find_certificate d certs

unfoldable pub get_certificate :
    {K L : Type 0} → (Str → Str) → Option (List (Str × K)) → Option (Str → L) → Str → Answer K L
get_certificate to_lower certs listener server_name =
    let d = canonical_domain to_lower server_name in or_ask d listener (in_certificates d certs)

-- One of the names matches the domain.
abbrev pub AnyMatches : Str → List Str → Type 0
AnyMatches d [] = ⊥
AnyMatches d (c ∷ cs) = Matches d c ⊎ AnyMatches d cs

matches_any_sound : (d : Str) (cs : List Str) → matches_any d cs ≡ true → AnyMatches d cs
unfolding matches_any
matches_any_sound d [] h = cc
matches_any_sound d (c ∷ cs) h = elim (Bool-cases (match_domain d c)) [
  | inl yes_c ↦ inl ((match_domain-Matches d c).0 yes_c)
  | inr no_c ↦ inr (matches_any_sound d cs (rw no_c at h))
]

matches_any_complete : (d : Str) (cs : List Str) → AnyMatches d cs → matches_any d cs ≡ true
unfolding matches_any
matches_any_complete d [] m = absurd m
matches_any_complete d (c ∷ cs) (inl m) = rw ((match_domain-Matches d c).1 m) refl
matches_any_complete d (c ∷ cs) (inr m) = elim (Bool-cases (match_domain d c)) [
  | inl yes_c ↦ rw yes_c refl
  | inr no_c ↦ rw no_c (matches_any_complete d cs m)
]

-- A certificate stands under a name that matches.
abbrev pub Serves : {K : Type 0} → Str → List (Str × K) → K → Type 0
Serves d [] k = ⊥
Serves d ((domains, k') ∷ certs) k =
    ((k ≡ k') × AnyMatches d (split domains b',')) ⊎ Serves d certs k

abbrev FoundOrNone : {K : Type 0} → Str → List (Str × K) → Type 0
FoundOrNone {K} d certs =
    ((k : K) × (find_certificate d certs ≡ some k) × Serves d certs k)
    ⊎ (((k : K) → Serves d certs k → ⊥) × (find_certificate d certs ≡ none))

find_certificate_cases : {K : Type 0} (d : Str) (certs : List (Str × K)) → FoundOrNone d certs
unfolding find_certificate
find_certificate_cases d [] = inr (λ k s. s, refl)
find_certificate_cases d ((domains, k) ∷ certs) =
    elim (Bool-cases (matches_any d (split domains b','))) [
      | inl here ↦ inl (k, rw here refl, inl (refl, matches_any_sound d (split domains b',') here))
      | inr not_here ↦ later not_here (find_certificate_cases d certs)
    ]
  where
    later :
        matches_any d (split domains b',') ≡ false
        → FoundOrNone d certs
        → FoundOrNone d ((domains, k) ∷ certs)
    later h (inl (k', e, s)) = inl (k', rw h e, inr s)
    later h (inr (absent, e)) = inr (nobody, rw h e)
      where
        nobody : (k' : _) → Serves d ((domains, k) ∷ certs) k' → ⊥
        nobody k' (inl (_, m)) = let found = matches_any_complete d (split domains b',') m in cc
        nobody k' (inr s) = absent k' s

-- A certificate whose names match the domain, or what the listener says if there is none.
abbrev pub IsAnswer : {K L : Type 0} → Str → List (Str × K) → Option (Str → L) → Answer K L → Type 0
IsAnswer {K} d certs listener a =
    ((k : K) × (a ≡ certificate k) × Serves d certs k)
    ⊎ (((k : K) → Serves d certs k → ⊥) × (a ≡ ask_listener d listener))

or_ask-IsAnswer :
    {K L : Type 0} (d : Str) (certs : List (Str × K)) (listener : Option (Str → L))
    → FoundOrNone d certs
    → IsAnswer d certs listener (or_ask d listener (find_certificate d certs))
or_ask-IsAnswer d certs listener (inl (k, e, s)) = inl (k, ap (or_ask d listener) e, s)
or_ask-IsAnswer d certs listener (inr (absent, e)) = inr (absent, ap (or_ask d listener) e)

-- For a server's name the entry point answers with a certificate of its map that stands under a
-- matching domain; if the map has none, it answers what the listener says, or nil without a
-- listener.
pub get_certificate-IsAnswer :
    {K L : Type 0} (to_lower : Str → Str) (certs : List (Str × K)) (listener : Option (Str → L))
    (server_name : Str)
    → IsAnswer
        (canonical_domain to_lower server_name)
        certs
        listener
        (get_certificate to_lower (some certs) listener server_name)
unfolding get_certificate
get_certificate-IsAnswer to_lower certs listener server_name =
    let d = canonical_domain to_lower server_name in
    or_ask-IsAnswer d certs listener (find_certificate_cases d certs)
