-- ===== src/Cluster/Schedule.antt =====
-- provider/osio/osio.go: the provider's state and the operation that `schedule` runs.
-- The operation is retried until it returns nil: job/job.go builds the backoff with no limit on
-- the elapsed time, and `safe.OperationWithRecover` turns a panic into an error.
pub mod Phases
use fabric8_oso_proxy.Base.{
  ℕ, zero, suc, Bool, true, false, ◌||◌, Option, none, some, List, [], ◌∷◌, if◌then◌else◌,
}
use fabric8_oso_proxy.Base.Run.{Error, Run, done, fail, panic, M, after, ◌>>=◌, ◌>>◌}
use fabric8_oso_proxy.Base.Strings.{Str, codes}
use fabric8_oso_proxy.Net.Web.{Web}
use fabric8_oso_proxy.Cluster.Client.{
  Json, TokenRequest, TokenResponse, ClusterResponse, get_token, get_clusters,
}
use fabric8_oso_proxy.Cluster.Rules.{Configuration, load_rules}

pub data ℤ : Type 0 where
  pos : ℕ → ℤ
  negsuc : ℕ → ℤ

-- `init`, on the polling interval.
unfoldable pub init_refresh : ℤ → ℤ
init_refresh (pos zero) = pos 60
init_refresh (pos (suc n)) = pos (suc n)
init_refresh (negsuc n) = pos 60

-- The fields that are set before the provider runs.
pub record Settings : Type 0 where
  pub token_url : Str
  pub clusters_url : Str
  pub service_account_id : Str
  pub service_account_secret : Str

-- The fields that change, the configurations sent so far, the latest first, and the world.
pub record Provider (W : Type 0) : Type 0 where
  pub token_resp : Option TokenResponse
  pub default_backend_url : Str
  pub sent : List Configuration
  pub world : W

-- Where the goroutine of `schedule` is: about to run the operation, in its loop, or returned.
pub data Phase : Type 0 where
  starting waiting stopped : Phase

-- `cancelled` is `ctx.Err() == context.Canceled`.
pub record Machine (W : Type 0) : Type 0 where
  pub phase : Phase
  pub cancelled : Bool
  pub provider : Provider W

abbrev pub token_request : Settings → TokenRequest
token_request s = record {
  grant_type = codes "client_credentials";
  client_id = s.service_account_id;
  client_secret = s.service_account_secret;
}

module _ {W : Type 0} where
  abbrev pub set_world : Provider W → W → Provider W
  set_world p w = record p { world = w }

  -- `p.tokenResp = tokenResp`, which may be nil.
  abbrev pub store_token : Provider W → Run W (Option TokenResponse) → Run (Provider W) (Unit {0})
  store_token p (done t w) = done tt (record p { token_resp = t; world = w })
  store_token p (fail e w) = fail e (set_world p w)
  store_token p (panic w) = panic (set_world p w)

  abbrev pub rules_of : Provider W → ClusterResponse → Run (Provider W) Configuration
  rules_of p cs =
      let (conf, url) = load_rules p.default_backend_url cs in
      done conf (record p { default_backend_url = url })

  -- `len(clusterResp.Clusters)` panics on a nil response.
  abbrev pub store_rules :
      Provider W → Run W (Option ClusterResponse) → Run (Provider W) Configuration
  store_rules p (done (some cs) w) = rules_of (set_world p w) cs
  store_rules p (done none w) = panic (set_world p w)
  store_rules p (fail e w) = fail e (set_world p w)
  store_rules p (panic w) = panic (set_world p w)

  abbrev pub send : Configuration → M (Provider W) (Unit {0})
  send conf p = done tt (record p { sent = conf ∷ p.sent })

module _ {W : Type 0} (json : Json) (web : Web W) (s : Settings) where
  abbrev pub fetch_when : Option TokenResponse → M (Provider W) (Unit {0})
  fetch_when (some t) p = done tt p
  fetch_when none p = store_token p (get_token json web s.token_url (token_request s) p.world)

  unfoldable pub fetch_token : M (Provider W) (Unit {0})
  fetch_token p = fetch_when p.token_resp p

  unfoldable pub load_config : M (Provider W) Configuration
  load_config p = store_rules p (get_clusters json web s.clusters_url p.token_resp p.world)

  -- What the operation does at its start, and at every tick; the configuration is never nil.
  unfoldable pub reload : M (Provider W) (Unit {0})
  reload = load_config >>= send

  unfoldable pub begin : M (Provider W) (Unit {0})
  begin = fetch_token >> reload

-- `handleCanceled` on an error, a recovered panic, and the loop behind a part that succeeds.
-- `is_canceled` is the comparison of an error with `context.Canceled`.
unfoldable pub handle_canceled : (Error → Bool) → Bool → Error → Phase
handle_canceled is_canceled cancelled e = if cancelled || is_canceled e then stopped else starting

module _ {W : Type 0} (is_canceled : Error → Bool) where
  unfoldable pub proceed : Bool → Run (Provider W) (Unit {0}) → Machine W
  proceed c (done _ p) = record { phase = waiting; cancelled = c; provider = p }
  proceed c (fail e p) = record {
    phase = handle_canceled is_canceled c e;
    cancelled = c;
    provider = p;
  }
  proceed c (panic p) = record { phase = starting; cancelled = c; provider = p }

abbrev pub initial : {W : Type 0} → W → Machine W
initial w = record {
  phase = starting;
  cancelled = false;
  provider = record { token_resp = none; default_backend_url = []; sent = []; world = w };
}

module _ {W : Type 0} (json : Json) (web : Web W) (s : Settings) (is_canceled : Error → Bool) where
  -- The goroutine, and the one that cancels its context.
  pub data Step : Machine W → Machine W → Type 0 where
    attempt :
        (c : Bool) (p : Provider W)
        → Step
            (record { phase = starting; cancelled = c; provider = p })
            (proceed is_canceled c (begin json web s p))
    tick :
        (c : Bool) (p : Provider W)
        → Step
            (record { phase = waiting; cancelled = c; provider = p })
            (proceed is_canceled c (reload json web s p))
    leave :
        (p : Provider W)
        → Step
            (record { phase = waiting; cancelled = true; provider = p })
            (record { phase = stopped; cancelled = true; provider = p })
    cancel :
        (h : Phase) (c : Bool) (p : Provider W)
        → Step
            (record { phase = h; cancelled = c; provider = p })
            (record { phase = h; cancelled = true; provider = p })

  pub data Steps : Machine W → Machine W → Type 0 where
    stay : (m : Machine W) → Steps m m
    next : {m n o : Machine W} → Steps m n → Step n o → Steps m o
