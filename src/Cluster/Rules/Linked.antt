-- ===== src/Cluster/Rules/Linked.antt =====
-- provider/osio/osio.go: every frontend of `loadRules` has its backend.
use fabric8_oso_proxy.Base.{
  ℕ, suc, Bool, true, false, List, [], ◌∷◌, none, some, ◌≡◌, refl, inl, inr, if◌then◌else◌,
  Bool-cases,
}
use fabric8_oso_proxy.Base.Maps.{lookup}
use fabric8_oso_proxy.Base.Strings.{Str, equal, equal_iff}
use fabric8_oso_proxy.Cluster.Client.{ClusterData}
use fabric8_oso_proxy.Cluster.Rules.{
  Configuration, no_rules, create_frontend, add_rule, add_url, add_cluster, add_clusters, api_name,
  metrics_name, default_name, with_default, new_default, load_rules,
}
use fabric8_oso_proxy.Cluster.Rules.Routes.{Entry, entry, entry_of, entry-add_rule}

-- Nothing, or a frontend that names the backend beside it.
abbrev pub IsLinked : Str → Entry → Type 0
IsLinked j (none, none) = Unit
IsLinked j (some f, some b) = f.backend ≡ j
IsLinked j _ = ⊥

IsLinked-if :
    (j name : Str) (b : Bool) (target url : Str) (e : Entry)
    → equal name j ≡ b
    → IsLinked j e
    → IsLinked j (if b then entry_of name target url else e)
unfolding create_frontend
IsLinked-if j name true target url e h l = (equal_iff name j).0 h
IsLinked-if j name false target url e h l = l

add_rule-IsLinked :
    (j name target url : Str) (c : Configuration)
    → IsLinked j (entry j c)
    → IsLinked j (entry j (add_rule name target url c))
add_rule-IsLinked j name target url c l =
    rw (entry-add_rule j name target url c)
      (IsLinked-if j name (equal name j) target url (entry j c) refl l)

add_url-IsLinked :
    (j name url : Str) (c : Configuration)
    → IsLinked j (entry j c)
    → IsLinked j (entry j (add_url name url c))
unfolding add_url
add_url-IsLinked j name url c l = elim (Bool-cases (equal url [])) [
  | inl h ↦ rw h l
  | inr h ↦ rw h (add_rule-IsLinked j name url url c l)
]

add_clusters-IsLinked :
    (j : Str) (i : ℕ) (cs : List ClusterData) (c : Configuration)
    → IsLinked j (entry j c)
    → IsLinked j (entry j (add_clusters i cs c))
unfolding add_clusters add_cluster
add_clusters-IsLinked j i [] c l = l
add_clusters-IsLinked j i (d ∷ cs) c l = add_clusters-IsLinked j (suc i) cs _ (
    add_url-IsLinked j (metrics_name (suc i)) d.metrics_url _
      (add_url-IsLinked j (api_name (suc i)) d.api_url c l))

with_default-IsLinked :
    (j url : Str) (c : Configuration)
    → IsLinked j (entry j c)
    → IsLinked j (entry j (with_default url c))
unfolding with_default
with_default-IsLinked j url c l = elim (Bool-cases (equal url [])) [
  | inl h ↦ rw h l
  | inr h ↦ rw h (add_rule-IsLinked j default_name default_name url c l)
]

-- Under every name, the configuration of `loadRules` has neither a frontend nor a backend, or
-- it has both and the frontend names that backend.
pub load_rules-IsLinked :
    (url : Str) (cs : List ClusterData) (j : Str) → IsLinked j (entry j (load_rules url cs).0)
unfolding load_rules lookup
load_rules-IsLinked url [] j = tt
load_rules-IsLinked url (c ∷ cs) j =
    with_default-IsLinked j (new_default url c cs) _
      (add_clusters-IsLinked j 0 (c ∷ cs) no_rules tt)
