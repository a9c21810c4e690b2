-- ===== src/Osio/Resolve.antt =====
-- middlewares/osio/osio.go: the resolvers, which are closures that the cache keeps, and the
-- methods of `OSIOAuth` that look a request's cluster and token up.
pub mod Keys
pub mod Calls
pub mod Isolation
pub mod Ends
use fabric8_oso_proxy.Base.{
  ℕ, ◌+◌, ◌/◌, ◌%◌, Bool, true, false, Option, none, some, List, [], ◌∷◌, ◌++◌, leb, if◌then◌else◌,
}
use fabric8_oso_proxy.Base.Strings.{Str, codes, equal}
use fabric8_oso_proxy.Base.Run.{Error, Run, done, fail, panic, M, pure, ◌>>=◌, ◌>>◌}
use fabric8_oso_proxy.Osio.Cache
use fabric8_oso_proxy.Osio.Cache.{Cache, Called, returned, crashed}
use fabric8_oso_proxy.Osio.Types.{TokenType, Namespace, CacheData, no_data, Locators}

-- The closures of `cacheResolverByToken` and `cacheResolverByID`, by the variables they capture.
-- The last one of `by_id` is `namespaceName`, which the closure assigns.
pub data Resolver : Type 0 where
  by_token : Str → TokenType → Resolver
  by_id : Str → TokenType → Str → Str → Resolver

pub record Auth (S : Type 0) : Type 0 where
  pub cache : Cache Resolver CacheData
  pub services : S

abbrev hex_digit : ℕ → ℕ
hex_digit n = if leb n 9 then b'0' + n else b'W' + n

-- `hex.EncodeToString`
unfoldable pub hex_encode : Str → Str
hex_encode [] = []
hex_encode (c ∷ s) = hex_digit (c / 16) ∷ hex_digit (c % 16) ∷ hex_encode s

-- `fmt.Sprintf("%s_%s_%s", token, userID, namespaceName)`
abbrev pub plain_key : Str → Str → Str → Str
plain_key token user_id namespace_name =
    token ++ (codes "_" ++ (user_id ++ (codes "_" ++ namespace_name)))

-- `if data, ok := val.(cacheData); ok { return data, err }; return cacheData{}, err`
abbrev pub data_of : Option CacheData → CacheData
data_of none = no_data
data_of (some d) = d

module _ {S : Type 0} where
  abbrev pub tagged : {A : Type 0} → Str → Run S A → Run (Str × S) A
  tagged name (done a s) = done a (name, s)
  tagged name (fail e s) = fail e (name, s)
  tagged name (panic s) = panic (name, s)

  -- A call that leaves the closure's own variable alone.
  abbrev pub lift : {A : Type 0} → M S A → M (Str × S) A
  lift m (name, s) = tagged name (m s)

  -- `if namespaceName == "" { namespaceName = name }`
  abbrev pub default_name : Str → M (Str × S) (Unit {0})
  default_name name (current, s) = done tt (if equal current [] then name else current, s)

  abbrev pub current_name : M (Str × S) Str
  current_name (name, s) = done name (name, s)

  abbrev pub plain : Resolver → Run S CacheData → Called Resolver CacheData S
  plain r (done d s) = returned r d none s
  plain r (fail e s) = returned r no_data (some e) s
  plain r (panic s) = crashed s

  abbrev pub closed : (Str → Resolver) → Run (Str × S) CacheData → Called Resolver CacheData S
  closed f (done d (n, s)) = returned (f n) d none s
  closed f (fail e (n, s)) = returned (f n) no_data (some e) s
  closed f (panic (n, s)) = crashed s

  abbrev pub answered : CacheData → Option Error → Auth S → Run (Auth S) CacheData
  answered d none a = done d a
  answered d (some e) a = fail e a

  abbrev pub from_cache :
      Auth S → Called (Cache Resolver CacheData) (Option CacheData) S → Run (Auth S) CacheData
  from_cache a (returned c v e s) = answered (data_of v) e (record { cache = c; services = s })
  from_cache a (crashed s) = panic (record a { services = s })

  abbrev pub from_call : Auth S → Called Resolver CacheData S → Run (Auth S) CacheData
  from_call a (returned r d e s) = answered d e (record a { services = s })
  from_call a (crashed s) = panic (record a { services = s })

module _ {S : Type 0} (l : Locators S) where
  -- The body of `cacheResolverByToken`.
  unfoldable pub resolve_with_token : Str → TokenType → M S CacheData
  resolve_with_token token token_type = do
    namespace ← l.get_tenant token token_type
    osio_token ← l.get_token_with_user_token token namespace.cluster_url
    pure (record { token = osio_token; namespace = namespace })

  -- The body of `cacheResolverByID`, its last two calls, the two before them, and the whole.
  unfoldable pub secret_with : Namespace → Str → M (Str × S) CacheData
  secret_with namespace cluster_token = do
    name ← current_name
    secret_name ← lift (l.get_name namespace.cluster_url cluster_token name namespace.kind)
    name' ← current_name
    osio_token ← lift (l.get_secret namespace.cluster_url cluster_token name' secret_name)
    pure (record { token = osio_token; namespace = namespace })

  unfoldable pub secret_of : Namespace → M (Str × S) CacheData
  secret_of namespace = do
    sa_token ← lift l.srv_acc_token
    cluster_token ← lift (l.get_token_with_sa_token sa_token namespace.cluster_url)
    secret_with namespace cluster_token

  unfoldable pub resolve_with_id : Str → TokenType → Str → M (Str × S) CacheData
  resolve_with_id token token_type user_id = do
    namespace ← lift (l.get_tenant_by_id token token_type user_id)
    default_name namespace.name
    secret_of namespace

  unfoldable pub call : Resolver → S → Called Resolver CacheData S
  call (by_token token tt) s = plain (by_token token tt) (resolve_with_token token tt s)
  call (by_id token tt user_id name) s =
      closed (by_id token tt user_id) (resolve_with_id token tt user_id (name, s))

  -- `a.cache.Get(key, resolver).Get()`
  unfoldable pub resolve_cached : Str → Resolver → M (Auth S) CacheData
  resolve_cached key r a =
      let (c, i) = Cache.get key r a.cache in from_cache a (Cache.force call i c a.services)

-- `digest` is SHA-256.
unfoldable pub cache_key : (Str → Str) → Str → Str
cache_key digest plain = hex_encode (digest plain)

module _ {S : Type 0} (digest : Str → Str) (l : Locators S) where
  unfoldable pub resolve_by_token : Str → TokenType → M (Auth S) CacheData
  resolve_by_token token tt = resolve_cached l (cache_key digest token) (by_token token tt)

  unfoldable pub resolve_by_id : Str → Str → TokenType → Str → M (Auth S) CacheData
  resolve_by_id user_id token tt namespace_name =
      resolve_cached l (cache_key digest (plain_key token user_id namespace_name))
        (by_id token tt user_id namespace_name)

  unfoldable pub resolve_by_id_without_cache : Str → Str → TokenType → Str → M (Auth S) CacheData
  resolve_by_id_without_cache user_id token tt namespace_name a =
      from_call a (call l (by_id token tt user_id namespace_name) a.services)
