-- ===== src/Cluster/Rules.antt =====
-- provider/osio/osio.go: `loadRules` and what it calls.
pub mod Defaults
pub mod Routes
pub mod Linked
pub mod Parsed
use fabric8_oso_proxy.Base.{
  ℕ, suc, Bool, true, false, not, ◌&&◌, ◌||◌, List, [], ◌∷◌, ◌++◌, if◌then◌else◌,
}
use fabric8_oso_proxy.Base.Decimal.{decimal}
use fabric8_oso_proxy.Base.Maps.{insert}
use fabric8_oso_proxy.Base.Strings.{Str, codes, equal, trim_suffix}
use fabric8_oso_proxy.Cluster.Client.{ClusterData, ClusterResponse}

-- The fields of the configuration that the provider sets.
pub record Route : Type 0 where
  pub rule : Str

pub record Frontend : Type 0 where
  pub backend : Str
  pub routes : List (Str × Route)

pub record Server : Type 0 where
  pub url : Str

pub record Backend : Type 0 where
  pub servers : List (Str × Server)

pub record Configuration : Type 0 where
  pub frontends : List (Str × Frontend)
  pub backends : List (Str × Backend)

abbrev pub no_rules : Configuration
no_rules = record { frontends = []; backends = [] }

unfoldable pub normalize_url : Str → Str
normalize_url url = trim_suffix url (codes "/")

unfoldable pub create_frontend : Str → Str → Frontend
create_frontend cluster_url backend = record {
  backend = backend;
  routes =
      (codes "test_1", record { rule = codes "Headers:Target," ++ normalize_url cluster_url }) ∷ [];
}

unfoldable pub create_backend : Str → Backend
create_backend cluster_url = record {
  servers = (codes "server1", record { url = normalize_url cluster_url }) ∷ [];
}

abbrev pub get_default_url : ClusterData → Str
get_default_url c = c.api_url

-- `config.Frontends[name] = …; config.Backends[name] = …`
unfoldable pub add_rule : Str → Str → Str → Configuration → Configuration
add_rule name target url c = record {
  frontends = insert name (create_frontend target name) c.frontends;
  backends = insert name (create_backend url) c.backends;
}

-- The two statements on one URL of a cluster.
unfoldable pub add_url : Str → Str → Configuration → Configuration
add_url name url c = if not (equal url []) then add_rule name url url c else c

abbrev pub api_name : ℕ → Str
api_name i = codes "api" ++ decimal i

abbrev pub metrics_name : ℕ → Str
metrics_name i = codes "metrics" ++ decimal i

abbrev pub default_name : Str
default_name = codes "default"

unfoldable pub add_cluster : ℕ → ClusterData → Configuration → Configuration
add_cluster i c conf = add_url (metrics_name i) c.metrics_url (add_url (api_name i) c.api_url conf)

-- The loop, from the index `i` on; `configInd` is one more.
unfoldable pub add_clusters : ℕ → List ClusterData → Configuration → Configuration
add_clusters i [] conf = conf
add_clusters i (c ∷ cs) conf = add_clusters (suc i) cs (add_cluster (suc i) c conf)

-- `defaultBackendExist` behind the loop.
unfoldable pub default_exists : Str → List ClusterData → Bool
default_exists url [] = false
default_exists url (c ∷ cs) =
    (not (equal url []) && equal url (get_default_url c)) || default_exists url cs

abbrev pub new_default : Str → ClusterData → List ClusterData → Str
new_default url c cs = if not (default_exists url (c ∷ cs)) then get_default_url c else url

unfoldable pub with_default : Str → Configuration → Configuration
with_default url conf =
    if not (equal url []) then add_rule default_name default_name url conf else conf

-- The configuration, and the new value of `p.defaultBackendURL`.
unfoldable pub load_rules : Str → ClusterResponse → Configuration × Str
load_rules url [] = (no_rules, url)
load_rules url (c ∷ cs) =
    let default_url = new_default url c cs in
    (with_default default_url (add_clusters 0 (c ∷ cs) no_rules), default_url)
