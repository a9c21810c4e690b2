-- ===== src/Cluster/Rules/Defaults.antt =====
-- provider/osio/osio.go: the default backend that `loadRules` chooses and keeps.
use fabric8_oso_proxy.Base.{
  true, List, [], ◌∷◌, none, ◌≡◌, refl, ◌∙◌, ◌≢◌, ◌⊎◌, ◌↔◌, inl, inr, arith, if◌then◌else◌,
  Bool-cases,
}
use fabric8_oso_proxy.Base.Maps.{lookup}
use fabric8_oso_proxy.Base.Strings.{Str, equal, equal_iff, equal_refl}
use fabric8_oso_proxy.Cluster.Client.{ClusterData}
use fabric8_oso_proxy.Cluster.Rules.{
  Configuration, no_rules, default_name, default_exists, new_default, with_default, load_rules,
}
use fabric8_oso_proxy.Cluster.Rules.Routes.{
  entry, entry_of, entry-add_rule, entry-add_clusters_other, default_name-IsOther,
}

-- A URL that is the API's URL of some cluster of the list.
abbrev pub Offers : Str → List ClusterData → Type 0
Offers url [] = ⊥
Offers url (c ∷ cs) = (c.api_url ≡ url) ⊎ Offers url cs

abbrev pub IsKept : Str → List ClusterData → Type 0
IsKept url cs = (url ≢ []) × Offers url cs

default_exists_iff :
    (url : Str) (cs : List ClusterData) → (default_exists url cs ≡ true) ↔ IsKept url cs
unfolding default_exists
default_exists_iff url [] = ground arith
default_exists_iff url (c ∷ cs) =
    ground (arith, equal_iff url [], equal_iff url c.api_url, default_exists_iff url cs)

entry-default :
    (url : Str) (c : Configuration)
    → entry default_name c ≡ (none, none)
    → entry default_name (with_default url c)
      ≡ (if equal url [] then (none, none) else entry_of default_name default_name url)
unfolding with_default
entry-default url c h = elim (Bool-cases (equal url [])) [
  | inl e ↦ rw e h
  | inr e ↦ rw e (
      entry-add_rule default_name default_name default_name url c
      ∙ rw (equal_refl default_name) refl)
]

-- With a first cluster, `loadRules` keeps the default URL if it is not empty and still the
-- API's URL of some cluster, and replaces it by the first cluster's API URL in every other
-- case; the entry "default" then is a frontend and a backend at that URL, and there is none if
-- the URL is empty.
pub load_rules-Kept :
    (url : Str) (c : ClusterData) (cs : List ClusterData)
    → ((IsKept url (c ∷ cs) × ((load_rules url (c ∷ cs)).1 ≡ url))
        ⊎ (¬ IsKept url (c ∷ cs) × ((load_rules url (c ∷ cs)).1 ≡ c.api_url)))
      × (entry default_name (load_rules url (c ∷ cs)).0 ≡ (
          if equal (load_rules url (c ∷ cs)).1 []
          then (none, none)
          else entry_of default_name default_name (load_rules url (c ∷ cs)).1))
unfolding load_rules lookup
load_rules-Kept url c cs = (
  elim (Bool-cases (default_exists url (c ∷ cs))) [
    | inl h ↦ inl ((default_exists_iff url (c ∷ cs)).0 h, rw h refl)
    | inr h ↦ inr (ground (arith, h, default_exists_iff url (c ∷ cs)), rw h refl)
  ],
  entry-default (new_default url c cs) _
      (entry-add_clusters_other default_name 0 (c ∷ cs) no_rules (λ k l. default_name-IsOther k)),
)
