-- ===== src/Cluster/Rules/Routes.antt =====
-- provider/osio/osio.go: what the configuration of `loadRules` holds under a name.
use fabric8_oso_proxy.Base.{
  ℕ, zero, suc, ◌+◌, ◌<◌, Bool, true, false, List, [], ◌∷◌, Option, none, some, ◌≡◌, refl, sym, ap,
  ◌∙◌, ◌≢◌, inl, inr, arith, if◌then◌else◌, Bool-cases, get_elem?, drop,
}
use fabric8_oso_proxy.Base.Decimal.{decimal_injective}
use fabric8_oso_proxy.Base.Maps.{lookup, lookup-insert}
use fabric8_oso_proxy.Base.Strings.{Str, equal, equal_refl, equal_ne}
use fabric8_oso_proxy.Cluster.Client.{ClusterData}
use fabric8_oso_proxy.Cluster.Rules.{
  Frontend, Backend, Configuration, no_rules, create_frontend, create_backend, add_rule, add_url,
  add_cluster, add_clusters, api_name, metrics_name, default_name, with_default, new_default,
  load_rules,
}

-- The frontend and the backend under one name.
abbrev pub Entry : Type 0
Entry = Option Frontend × Option Backend

abbrev pub entry : Str → Configuration → Entry
entry j c = (lookup j c.frontends, lookup j c.backends)

abbrev pub entry_of : Str → Str → Str → Entry
entry_of name target url = (some (create_frontend target name), some (create_backend url))

-- The entry of a rule whose URL may be missing.
abbrev pub entry_for : Str → Str → Entry
entry_for name url = if equal url [] then (none, none) else entry_of name url url

entry-if :
    (j name target url : Str) (c : Configuration) (b : Bool)
    → (
      if b then some (create_frontend target name) else lookup j c.frontends,
      if b then some (create_backend url) else lookup j c.backends,
    )
      ≡ (if b then entry_of name target url else entry j c)
entry-if j name target url c true = refl
entry-if j name target url c false = refl

pub entry-add_rule :
    (j name target url : Str) (c : Configuration)
    → entry j (add_rule name target url c)
      ≡ (if equal name j then entry_of name target url else entry j c)
unfolding add_rule
entry-add_rule j name target url c =
    rw
      (
        lookup-insert j name (create_frontend target name) c.frontends,
        lookup-insert j name (create_backend url) c.backends,
      )
      (entry-if j name target url c (equal name j))

pub entry-add_url :
    (j name url : Str) (c : Configuration)
    → entry j (add_url name url c) ≡ (
        if equal url []
        then entry j c
        else if equal name j
        then entry_of name url url
        else entry j c)
unfolding add_url
entry-add_url j name url c = elim (Bool-cases (equal url [])) [
  | inl h ↦ rw h refl
  | inr h ↦ rw h (entry-add_rule j name url url c)
]

-- The names of the rules.

equal-api-metrics : (i k : ℕ) → equal (api_name i) (metrics_name k) ≡ false
unfolding equal
equal-api-metrics i k = refl

equal-metrics-api : (i k : ℕ) → equal (metrics_name i) (api_name k) ≡ false
unfolding equal
equal-metrics-api i k = refl

equal-api-default : (i : ℕ) → equal (api_name i) default_name ≡ false
unfolding equal
equal-api-default i = refl

equal-metrics-default : (i : ℕ) → equal (metrics_name i) default_name ≡ false
unfolding equal
equal-metrics-default i = refl

equal-default-api : (i : ℕ) → equal default_name (api_name i) ≡ false
unfolding equal
equal-default-api i = refl

equal-default-metrics : (i : ℕ) → equal default_name (metrics_name i) ≡ false
unfolding equal
equal-default-metrics i = refl

equal-api-api : (i k : ℕ) → i ≢ k → equal (api_name i) (api_name k) ≡ false
equal-api-api i k h =
    equal_ne (api_name i) (api_name k) (λ e. h (decimal_injective i k (ap (drop 3) e)))

equal-metrics-metrics : (i k : ℕ) → i ≢ k → equal (metrics_name i) (metrics_name k) ≡ false
equal-metrics-metrics i k h =
    equal_ne (metrics_name i) (metrics_name k) (λ e. h (decimal_injective i k (ap (drop 7) e)))

-- A name that no rule of the cluster `i` has.
abbrev pub IsOther : Str → ℕ → Type 0
IsOther j i = (equal (api_name i) j ≡ false) × (equal (metrics_name i) j ≡ false)

entry-add_url_other :
    (j name url : Str) (c : Configuration)
    → equal name j ≡ false
    → entry j (add_url name url c) ≡ entry j c
entry-add_url_other j name url c h = elim (Bool-cases (equal url [])) [
  | inl e ↦ entry-add_url j name url c ∙ rw (h, e) refl
  | inr e ↦ entry-add_url j name url c ∙ rw (h, e) refl
]

entry-add_url_self :
    (name url : Str) (c : Configuration)
    → entry name (add_url name url c)
      ≡ (if equal url [] then entry name c else entry_of name url url)
entry-add_url_self name url c = entry-add_url name name url c ∙ rw (equal_refl name) refl

entry-add_cluster_other :
    (j : Str) (i : ℕ) (d : ClusterData) (c : Configuration)
    → IsOther j i
    → entry j (add_cluster i d c) ≡ entry j c
unfolding add_cluster
entry-add_cluster_other j i d c (a, m) =
    entry-add_url_other j (metrics_name i) d.metrics_url _ m
    ∙ entry-add_url_other j (api_name i) d.api_url c a

pub entry-add_clusters_other :
    (j : Str) (i : ℕ) (cs : List ClusterData) (c : Configuration)
    → ((k : ℕ) → i < k → IsOther j k)
    → entry j (add_clusters i cs c) ≡ entry j c
unfolding add_clusters
entry-add_clusters_other j i [] c h = refl
entry-add_clusters_other j i (d ∷ cs) c h =
    entry-add_clusters_other j (suc i) cs (add_cluster (suc i) d c) (λ k l. h k (omega arith))
    ∙ entry-add_cluster_other j (suc i) d c (h (suc i) (omega arith))

api_name-IsOther : (i k : ℕ) → i ≢ k → IsOther (api_name i) k
api_name-IsOther i k h = (equal-api-api k i (λ e. h (sym e)), equal-metrics-api k i)

metrics_name-IsOther : (i k : ℕ) → i ≢ k → IsOther (metrics_name i) k
metrics_name-IsOther i k h = (equal-api-metrics k i, equal-metrics-metrics k i (λ e. h (sym e)))

pub default_name-IsOther : (k : ℕ) → IsOther default_name k
default_name-IsOther k = (equal-api-default k, equal-metrics-default k)

entry_api-add_cluster :
    (i : ℕ) (d : ClusterData) (c : Configuration)
    → entry (api_name i) (add_cluster i d c) ≡ (
        if equal d.api_url []
        then entry (api_name i) c
        else entry_of (api_name i) d.api_url d.api_url)
unfolding add_cluster
entry_api-add_cluster i d c =
    entry-add_url_other (api_name i) (metrics_name i) d.metrics_url _ (equal-metrics-api i i)
    ∙ entry-add_url_self (api_name i) d.api_url c

entry_metrics-add_cluster :
    (i : ℕ) (d : ClusterData) (c : Configuration)
    → entry (metrics_name i) (add_cluster i d c) ≡ (
        if equal d.metrics_url []
        then entry (metrics_name i) c
        else entry_of (metrics_name i) d.metrics_url d.metrics_url)
unfolding add_cluster
entry_metrics-add_cluster i d c =
    entry-add_url_self (metrics_name i) d.metrics_url (add_url (api_name i) d.api_url c)
    ∙ ap
        (λ e.
          if equal d.metrics_url []
          then e
          else entry_of (metrics_name i) d.metrics_url d.metrics_url)
        (entry-add_url_other (metrics_name i) (api_name i) d.api_url c (equal-api-metrics i i))

-- One kind of rule: its names, and the field with its URL.
module _ (name : ℕ → Str) (url : ClusterData → Str) (other : (i k : ℕ) → i ≢ k → IsOther (name i) k)
    (self : (i : ℕ) (d : ClusterData) (c : Configuration)
      → entry (name i) (add_cluster i d c)
        ≡ (if equal (url d) [] then entry (name i) c else entry_of (name i) (url d) (url d))) where
  entry-add_clusters :
      (i n : ℕ) (cs : List ClusterData) (c : Configuration) (d : ClusterData)
      → get_elem? cs n ≡ some d
      → entry (name (suc (i + n))) (add_clusters i cs c) ≡ (
          if equal (url d) []
          then entry (name (suc (i + n))) c
          else entry_of (name (suc (i + n))) (url d) (url d))
  unfolding add_clusters
  entry-add_clusters i n [] c d h = cc
  entry-add_clusters i zero (x ∷ cs) c d h =
      let e : x ≡ d = cc in
      let at : i + 0 ≡ i = omega arith in
      rw (at, sym e)
        (entry-add_clusters_other (name (suc i)) (suc i) cs (add_cluster (suc i) x c)
            (λ k l. other (suc i) k (λ q. omega arith))
          ∙ self (suc i) x c)
  entry-add_clusters i (suc m) (x ∷ cs) c d h =
      let at : i + suc m ≡ suc i + m = omega arith in
      rw at (
        entry-add_clusters (suc i) m cs (add_cluster (suc i) x c) d h
        ∙ ap
            (λ e. if equal (url d) [] then e else entry_of (name (suc (suc i + m))) (url d) (url d))
            (entry-add_cluster_other (name (suc (suc i + m))) (suc i) x c
              (other (suc (suc i + m)) (suc i) (λ q. omega arith))))

  entry-all_clusters :
      (n : ℕ) (cs : List ClusterData) (d : ClusterData)
      → get_elem? cs n ≡ some d
      → entry (name (suc n)) (add_clusters 0 cs no_rules) ≡ entry_for (name (suc n)) (url d)
  unfolding lookup
  entry-all_clusters n cs d h =
      let at : n ≡ 0 + n = omega arith in rw at (entry-add_clusters 0 n cs no_rules d h)

entry-with_default :
    (j url : Str) (c : Configuration)
    → equal default_name j ≡ false
    → entry j (with_default url c) ≡ entry j c
unfolding with_default
entry-with_default j url c h = elim (Bool-cases (equal url [])) [
  | inl e ↦ rw e refl
  | inr e ↦ rw e (entry-add_rule j default_name default_name url c ∙ rw h refl)
]

-- The cluster at the index `n` has its API's URL under "api" and its metrics' URL under
-- "metrics", each followed by `n + 1`, as frontend and backend; a name whose URL is empty has
-- neither.
pub load_rules-entries :
    (url : Str) (cs : List ClusterData) (n : ℕ) (d : ClusterData)
    → get_elem? cs n ≡ some d
    → (entry (api_name (suc n)) (load_rules url cs).0 ≡ entry_for (api_name (suc n)) d.api_url)
      × (entry (metrics_name (suc n)) (load_rules url cs).0
          ≡ entry_for (metrics_name (suc n)) d.metrics_url)
unfolding load_rules lookup
load_rules-entries url [] n d h = cc
load_rules-entries url (c ∷ cs) n d h = (
  entry-with_default (api_name (suc n)) (new_default url c cs) _ (equal-default-api (suc n))
      ∙ entry-all_clusters api_name (λ c. c.api_url) api_name-IsOther entry_api-add_cluster n
          (c ∷ cs) d h,
  entry-with_default (metrics_name (suc n)) (new_default url c cs) _ (equal-default-metrics (suc n))
      ∙ entry-all_clusters metrics_name (λ c. c.metrics_url) metrics_name-IsOther
          entry_metrics-add_cluster n (c ∷ cs) d h,
)
