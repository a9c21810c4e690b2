-- ===== src/Tests/Clusters.antt =====
-- The theorems on the provider of provider/osio, at concrete clusters.
use fabric8_oso_proxy.Base.{
  true, false, Bool, none, some, [], ◌∷◌, ◌++◌, ◌≡◌, ◌⊎◌, refl, if◌then◌else◌,
}
use fabric8_oso_proxy.Base.Run.{Error, ok}
use fabric8_oso_proxy.Base.Strings.{Str, codes, equal}
use fabric8_oso_proxy.Cluster.Client.{Json, TokenResponse, ClusterData, get_token, get_clusters}
use fabric8_oso_proxy.Cluster.Rules.{api_name, metrics_name, default_name, load_rules}
use fabric8_oso_proxy.Cluster.Rules.Defaults.{IsKept, load_rules-Kept}
use fabric8_oso_proxy.Cluster.Rules.Routes.{entry, entry_of, entry_for, load_rules-entries}
use fabric8_oso_proxy.Cluster.Schedule.{
  Settings, Machine, Provider, initial, attempt, Steps, stay, next, begin, proceed, reload,
  fetch_token, load_config,
}
use fabric8_oso_proxy.Cluster.Schedule.Phases.{IsSound, token_of, Steps-IsSound}
use fabric8_oso_proxy.Net.Web.{Web, exchange}

abbrev cluster : Str → ClusterData
cluster name = record {
  api_url = codes "https://api." ++ name;
  app_dns = name;
  console_url = codes "https://console." ++ name;
  logging_url = codes "https://logs." ++ name;
  metrics_url = [];
  name = name;
}

abbrev one : ClusterData
one = cluster (codes "one")

abbrev two : ClusterData
two = cluster (codes "two")

load_rules-entries_example :
    (entry (api_name 2) (load_rules [] (one ∷ two ∷ [])).0 ≡ entry_for (api_name 2) two.api_url)
    × (entry (metrics_name 2) (load_rules [] (one ∷ two ∷ [])).0
        ≡ entry_for (metrics_name 2) two.metrics_url)
load_rules-entries_example = load_rules-entries [] (one ∷ two ∷ []) 1 two refl

load_rules-Kept_example :
    ((IsKept two.api_url (one ∷ two ∷ [])
        × ((load_rules two.api_url (one ∷ two ∷ [])).1 ≡ two.api_url))
      ⊎ ((¬ IsKept two.api_url (one ∷ two ∷ []))
          × ((load_rules two.api_url (one ∷ two ∷ [])).1 ≡ one.api_url)))
    × (entry default_name (load_rules two.api_url (one ∷ two ∷ [])).0 ≡ (
        if equal (load_rules two.api_url (one ∷ two ∷ [])).1 []
        then (none, none)
        else entry_of default_name default_name (load_rules two.api_url (one ∷ two ∷ [])).1))
load_rules-Kept_example = load_rules-Kept two.api_url one (two ∷ [])

-- An auth service that gives a token and two clusters.
abbrev auth : Web (Unit {0})
auth = record {
  new_request = λ u. none;
  send = λ r w. (
    record {
      response = some (record { status_code = 200; status = codes "200 OK"; body = ok [] });
      error = none;
    },
    w,
  );
}

abbrev sa_token : TokenResponse
sa_token = record { access_token = codes "sa"; token_type = codes "bearer" }

abbrev json : Json
json = record {
  encode_token_request = λ r. ok r.client_id;
  decode_token_response = λ b. ok (some sa_token);
  decode_clusters = λ b. ok (some (one ∷ two ∷ []));
}

abbrev settings : Settings
settings = record {
  token_url = codes "https://auth/token";
  clusters_url = codes "https://auth/clusters";
  service_account_id = codes "id";
  service_account_secret = codes "secret";
}

abbrev never : Error → Bool
never e = false

abbrev begun : Machine (Unit {0})
begun = proceed never false (begin json auth settings (initial tt).provider)

abbrev provider : Provider (Unit {0})
provider = begun.provider

abbrev first_run : Steps json auth settings never (initial tt) begun
first_run = next (stay (initial tt)) (attempt false (initial tt).provider)

Steps-IsSound_example : IsSound (codes "api1") begun
Steps-IsSound_example =
    Steps-IsSound json auth settings never (λ e. refl) (codes "api1") tt begun first_run

token_begun : token_of begun ≡ some sa_token
unfolding proceed begin fetch_token reload load_config get_token get_clusters exchange load_rules
token_begun = refl

abbrev cancelled : Machine (Unit {0})
cancelled = record { phase = begun.phase; cancelled = true; provider = provider }
