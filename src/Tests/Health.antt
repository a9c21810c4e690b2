-- ===== src/Tests/Health.antt =====
-- The theorems on the health check, for a balancer that is a list.
use fabric8_oso_proxy.Base.{
  ℕ, Bool, not, ◌&&◌, none, List, [], ◌∷◌, ◌≡◌, refl, arith, ◌==◌, ==_iff, if◌then◌else◌, inl, inr,
  Bool-cases,
}
use fabric8_oso_proxy.Base.Strings.{Str, codes}
use fabric8_oso_proxy.HealthCheck.{
  LoadBalancer, answered, Client, Options, Backend, check_health, is_up, request_url, check_backend,
}
use fabric8_oso_proxy.HealthCheck.Known.{contains, IsBalancer}
use fabric8_oso_proxy.HealthCheck.Sorted.{IsSteady, pool_of, checked, check_backend-pool_of}

abbrev same : ℕ → ℕ → Bool
same a b = a == b

abbrev without : ℕ → List ℕ → List ℕ
without u [] = []
without u (v ∷ vs) = if u == v then without u vs else v ∷ without u vs

abbrev balancer : LoadBalancer ℕ (List ℕ)
balancer = record { servers = λ lb. lb; upsert_server = λ u lb. u ∷ lb; remove_server = without }

-- The server 1 answers, and no other.
abbrev status_for : Str → ℕ
status_for [] = 500
status_for (u ∷ _) = if u == 1 then 200 else 500

abbrev client : Client ℕ (Unit {0})
client = record {
  to_string = λ u. u ∷ [];
  hostname = λ u. u ∷ [];
  path_of = λ u. [];
  with_host = λ u h. u;
  with_path = λ u p. u;
  join_host_port = λ h p. h;
  new_request_error = λ url. none;
  send = λ url w. (answered (status_for url), w);
}

abbrev options : Options
options = record { path = codes "/health"; port = 0 }

abbrev up : ℕ → Bool
up u = u == 1

without-contains :
    (u v : ℕ) (lb : List ℕ) → contains same v (without u lb) ≡ not (same u v) && contains same v lb
without-contains u v [] = ground arith
without-contains u v (w ∷ lb) = ground (arith, without-contains u v lb)

balancer-IsBalancer : IsBalancer same balancer
balancer-IsBalancer = record { upserted = λ u v lb. refl; removed = without-contains }

answers :
    (u : ℕ) (w : Unit {0})
    → is_up balancer client options (check_health balancer client options u w).0 ≡ up u
unfolding check_health request_url
answers u w = elim (Bool-cases (u == 1)) [ inl e ↦ rw e refl | inr e ↦ rw e refl ]

steady : IsSteady same balancer client options up
steady = record { balances = balancer-IsBalancer; same_iff = ==_iff; steady = answers }

-- One server of the balancer is down, and one that was taken out is up again.
abbrev backend : Backend ℕ (List ℕ) (Unit {0})
backend = record { lb = 2 ∷ []; disabled_urls = 1 ∷ []; gauge = []; world = tt }

check_backend-pool_of_example :
    pool_of same balancer client options up (check_backend balancer client options backend)
    ≡ checked up (pool_of same balancer client options up backend)
check_backend-pool_of_example = check_backend-pool_of same balancer client options up steady backend
