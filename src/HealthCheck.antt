-- ===== src/HealthCheck.antt =====
-- healthcheck/healthcheck.go: the check of a backend's servers, and its repetition. The load
-- balancer (github.com/vulcand/oxy), the URLs and the HTTP client are parameters.
pub mod Known
pub mod Sorted
use fabric8_oso_proxy.Base.{
  ℕ, zero, suc, Bool, true, false, not, Option, none, some, List, [], ◌∷◌, ◌++◌, ◌==◌,
  if◌then◌else◌,
}
use fabric8_oso_proxy.Base.Decimal.{decimal}
use fabric8_oso_proxy.Base.Run.{Error, request_not_created, request_failed, non_200}
use fabric8_oso_proxy.Base.Strings.{Str}

-- The interface `LoadBalancer`, over the balancer's states; the errors of its calls are ignored.
pub record LoadBalancer (U L : Type 0) : Type 0 where
  pub servers : L → List U
  pub upsert_server : U → L → L
  pub remove_server : U → L → L

-- What `client.Do` gives: the status of a response, or an error.
pub data Reply : Type 0 where
  answered : ℕ → Reply
  failed : Error → Reply

-- The URL of a server, `net.JoinHostPort`, `http.NewRequest` and `client.Do`.
pub record Client (U W : Type 0) : Type 0 where
  pub to_string : U → Str
  pub hostname : U → Str
  pub path_of : U → Str
  pub with_host : U → Str → U
  pub with_path : U → Str → U
  pub join_host_port : Str → Str → Str
  pub new_request_error : Str → Option Error
  pub send : Str → W → Reply × W

-- `Options`, less the transport and the balancer.
pub record Options : Type 0 where
  pub path : Str
  pub port : ℕ

-- `BackendHealthCheck` with its balancer, the gauge's values, and the outside world.
pub record Backend (U L W : Type 0) : Type 0 where
  pub lb : L
  pub disabled_urls : List U
  pub gauge : List (U × Bool)
  pub world : W

module _ {U L W : Type 0} (balancer : LoadBalancer U L) (client : Client U W) (opt : Options) where
  -- The URL of `newRequest`.
  unfoldable pub request_url : U → Str
  request_url u =
      if opt.port == 0
      then client.to_string u ++ opt.path
      else client.to_string (
          client.with_path
            (client.with_host u (client.join_host_port (client.hostname u) (decimal opt.port)))
            (client.path_of u ++ opt.path))

  -- `none` is a nil error.
  abbrev pub verdict_of : Reply → Option Error
  verdict_of (answered status) = if not (status == 200) then some (non_200 status) else none
  verdict_of (failed e) = some (request_failed e)

  abbrev pub created : Option Error → Option Error × W → W → Option Error × W
  created none sent w = sent
  created (some e) sent w = (some (request_not_created e), w)

  -- `checkHealth`
  unfoldable pub check_health : U → W → Option Error × W
  check_health u w =
      let (reply, w') = client.send (request_url u) w in
      created (client.new_request_error (request_url u)) (verdict_of reply, w') w

  abbrev pub is_up : Option Error → Bool
  is_up none = true
  is_up (some _) = false

  -- One round of the first loop; `disabled_urls` holds what was `newDisabledURLs`.
  unfoldable pub recheck : U → Backend U L W → Backend U L W
  recheck u b =
      let (verdict, w) = check_health u b.world in
      record {
        lb = if is_up verdict then balancer.upsert_server u b.lb else b.lb;
        disabled_urls = if is_up verdict then b.disabled_urls else b.disabled_urls ++ u ∷ [];
        gauge = b.gauge ++ (u, is_up verdict) ∷ [];
        world = w;
      }

  -- One round of the second.
  unfoldable pub check_enabled : U → Backend U L W → Backend U L W
  check_enabled u b =
      let (verdict, w) = check_health u b.world in
      record {
        lb = if is_up verdict then b.lb else balancer.remove_server u b.lb;
        disabled_urls = if is_up verdict then b.disabled_urls else b.disabled_urls ++ u ∷ [];
        gauge = b.gauge ++ (u, is_up verdict) ∷ [];
        world = w;
      }

  unfoldable pub each : (U → Backend U L W → Backend U L W) → List U → Backend U L W → Backend U L W
  each f [] b = b
  each f (u ∷ us) b = each f us (f u b)

  -- `checkBackend`
  unfoldable pub check_backend : Backend U L W → Backend U L W
  check_backend b =
      let rechecked = each recheck b.disabled_urls (record b { disabled_urls = [] }) in
      each check_enabled (balancer.servers b.lb) rechecked

  -- `execute`: the first check, and one for each tick before the context is done.
  unfoldable pub execute : ℕ → Backend U L W → Backend U L W
  execute zero b = check_backend b
  execute (suc ticks) b = execute ticks (check_backend b)
