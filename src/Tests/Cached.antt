-- ===== src/Tests/Cached.antt =====
-- The theorems on the cache and the lookups of middlewares/osio, at concrete inputs.
use fabric8_oso_proxy.Base.{Option, none, some, [], ◌≡◌, ◌≢◌, refl, arith}
use fabric8_oso_proxy.Base.Maps.{lookup}
use fabric8_oso_proxy.Base.Run.{Run, done, state_of}
use fabric8_oso_proxy.Base.Strings.{Str, codes, equal, Lacks, ne_of_equal}
use fabric8_oso_proxy.Osio.Cache
use fabric8_oso_proxy.Osio.Cache.{
  Cache, Called, returned, empty, entries, force, Step, gets, forces, others, Steps, here, next,
}
use fabric8_oso_proxy.Osio.Cache.Invariant.{empty-IsValid, IsValid, Steps-IsValid}
use fabric8_oso_proxy.Osio.Cache.Order.{force-memoized}
use fabric8_oso_proxy.Osio.Resolve.{
  Auth, Resolver, by_token, call, cache_key, plain_key, resolve_by_token, resolve_by_id,
}
use fabric8_oso_proxy.Osio.Resolve.Isolation.{
  IsKeyed, Answers, Valid, call-Answers, ObtainedFor, resolve_by_token-ObtainedFor,
  resolve_by_id-ObtainedFor,
}
use fabric8_oso_proxy.Osio.Types.{user_token, che_token, CacheData}
use fabric8_oso_proxy.Tests.Fixtures.{handling, alice, locators, digest, no_cache}

abbrev State : Type 0
State = Cache Resolver CacheData × Unit {0}

abbrev token : Str
token = codes "token"

abbrev key : Str
key = cache_key digest token

-- One goroutine gets the promise and forces it.
abbrev cache_of :
    Called (Cache Resolver CacheData) (Option CacheData) (Unit {0}) → Cache Resolver CacheData
cache_of (returned c v e s) = c
cache_of _ = empty

abbrev got : Cache Resolver CacheData
got = (Cache.get key (by_token token user_token) empty).0

abbrev forced : Cache Resolver CacheData
forced = cache_of (force (call locators) 0 got tt)

abbrev data_of_alice : CacheData
data_of_alice = record { token = codes "os"; namespace = alice }

mapped : lookup key (entries got.m) ≡ some 0
unfolding handling
mapped = refl

force_run : force (call locators) 0 got tt ≡ returned forced (some data_of_alice) none tt
unfolding handling
force_run = refl

any_step :
    Steps
      (call locators)
      (λ k r. Unit {0})
      (forced, tt)
      ((Cache.get token (by_token token che_token) forced).0, tt)
any_step = next here (gets token (by_token token che_token) forced tt tt)

force-memoized_example :
    (d : Cache Resolver CacheData) × (force
        (call locators)
        (Cache.get key
          (by_token token che_token)
          (Cache.get token (by_token token che_token) forced).0).1
        (Cache.get key
          (by_token token che_token)
          (Cache.get token (by_token token che_token) forced).0).0
        tt
      ≡ returned d (some data_of_alice) none tt)
force-memoized_example =
    force-memoized (call locators) (λ k r. Unit {0}) key (got, tt) (forced, tt)
      ((Cache.get token (by_token token che_token) forced).0, tt) 0 (some data_of_alice)
      (by_token token che_token) mapped force_run any_step

abbrev asks : Steps (call locators) (IsKeyed digest locators) (empty, tt) (got, tt)
asks = next here (gets key (by_token token user_token) empty tt (refl, tt))

Steps-IsValid_example : IsValid (IsKeyed digest locators) (Answers digest locators) got
Steps-IsValid_example =
    Steps-IsValid (call locators) (IsKeyed digest locators) (Answers digest locators)
      (call-Answers digest locators) asks
      (empty-IsValid (IsKeyed digest locators) (Answers digest locators))

token_run :
    resolve_by_token digest locators token user_token no_cache
    ≡ done data_of_alice (record { cache = forced; services = tt })
unfolding handling
token_run = refl

resolve_by_token-ObtainedFor_example :
    Valid digest locators forced × ObtainedFor digest locators token data_of_alice
resolve_by_token-ObtainedFor_example =
    resolve_by_token-ObtainedFor digest locators token user_token no_cache
      (record { cache = forced; services = tt }) data_of_alice
      (empty-IsValid (IsKeyed digest locators) (Answers digest locators)) (λ q e. e) token_run

-- A service that acts for "bob" in the namespace "n".
abbrev text : Str
text = plain_key (codes "#svc") (codes "bob") (codes "n")

abbrev id_run : Run (Auth (Unit {0})) CacheData
id_run = resolve_by_id digest locators (codes "bob") (codes "#svc") che_token (codes "n") no_cache

abbrev secret_of_alice : CacheData
secret_of_alice = record { token = codes "secret"; namespace = alice }

id_ran : id_run ≡ done secret_of_alice (state_of id_run)
unfolding handling
id_ran = refl

n_ne : codes "n" ≢ []
unfolding equal
n_ne = ne_of_equal (codes "n") [] refl

resolve_by_id-ObtainedFor_example :
    Valid digest locators (state_of id_run).cache × ObtainedFor digest locators text secret_of_alice
resolve_by_id-ObtainedFor_example =
    resolve_by_id-ObtainedFor digest locators (codes "bob") (codes "#svc") che_token (codes "n")
      no_cache (state_of id_run) secret_of_alice n_ne
      (empty-IsValid (IsKeyed digest locators) (Answers digest locators)) (λ q e. e) id_ran

names-Lacks : Lacks b'_' (codes "bob") × Lacks b'_' (codes "n")
names-Lacks = ground arith
