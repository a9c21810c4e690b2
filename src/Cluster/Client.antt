-- ===== src/Cluster/Client.antt =====
-- provider/osio/client.go: the client of the auth service.
use fabric8_oso_proxy.Base.{Option, none, some, List, [], ◌∷◌, ◌++◌}
use fabric8_oso_proxy.Base.Strings.{Str, codes}
use fabric8_oso_proxy.Base.Run.{fail, panic, M, Outcome, ok, err, crash}
use fabric8_oso_proxy.Net.Web.{Web, get_method, exchange}

pub record TokenRequest : Type 0 where
  pub grant_type : Str
  pub client_id : Str
  pub client_secret : Str

pub record TokenResponse : Type 0 where
  pub access_token : Str
  pub token_type : Str

pub record ClusterData : Type 0 where
  pub api_url : Str
  pub app_dns : Str
  pub console_url : Str
  pub logging_url : Str
  pub metrics_url : Str
  pub name : Str

abbrev pub ClusterResponse : Type 0
ClusterResponse = List ClusterData

-- encoding/json on the structs of this file. A document `null` decodes to a nil pointer.
pub record Json : Type 0 where
  pub encode_token_request : TokenRequest → Outcome Str
  pub decode_token_response : Str → Outcome (Option TokenResponse)
  pub decode_clusters : Str → Outcome (Option ClusterResponse)

abbrev post_method : Str
post_method = codes "POST"

-- The token may be nil, on which the field access panics.
abbrev authorization_of : TokenResponse → Str
authorization_of t = t.token_type ++ (codes " " ++ t.access_token)

module _ {W : Type 0} (json : Json) (web : Web W) where
  abbrev pub post : Str → Outcome Str → M W (Option TokenResponse)
  post url (ok body) w =
      exchange web (record { method = post_method; url = url; header = []; body = body })
        json.decode_token_response w
  post url (err e) w = fail e w
  post url crash w = panic w

  unfoldable pub get_token : Str → TokenRequest → M W (Option TokenResponse)
  get_token token_api token_req = post token_api (json.encode_token_request token_req)

  -- `http.NewRequest` stands before the first use of the token.
  abbrev with_token : Str → Option TokenResponse → M W (Option ClusterResponse)
  with_token url none w = elim (web.new_request url) [ some e ↦ fail e w | none ↦ panic w ]
  with_token url (some t) w =
      exchange web
        (record {
          method = get_method;
          url = url;
          header = (codes "Authorization", authorization_of t ∷ []) ∷ [];
          body = [];
        })
        json.decode_clusters w

  unfoldable pub get_clusters : Str → Option TokenResponse → M W (Option ClusterResponse)
  get_clusters clusters_url token_resp = with_token clusters_url token_resp
