-- ===== src/Osio/Resolve/Ends.antt =====
-- The resolvers return, if the locators do not panic.
use fabric8_oso_proxy.Base.{
  Option, none, some, [], ◌≡◌, refl, inl, inr, if◌then◌else◌, Bool-cases, get_elem?-some,
}
use fabric8_oso_proxy.Base.Strings.{Str, equal}
use fabric8_oso_proxy.Base.Run.{Error, Run, M, after, Ends, with_value, with_error, after-Ends}
use fabric8_oso_proxy.Osio.Cache
use fabric8_oso_proxy.Osio.Cache.{Called, returned, crashed, put_back, settle}
use fabric8_oso_proxy.Osio.Cache.Invariant.{get-IsValid}
use fabric8_oso_proxy.Osio.Cache.Order.{get_value_resolved, get-address}
use fabric8_oso_proxy.Osio.Resolve.{
  Resolver, by_token, by_id, Auth, plain, closed, tagged, answered, resolve_with_token, secret_with,
  secret_of, resolve_with_id, call, resolve_cached,
}
use fabric8_oso_proxy.Osio.Resolve.Isolation.{IsKeyed, Answers, Valid}
use fabric8_oso_proxy.Osio.Types.{TokenType, Namespace, CacheData, Locators}

-- No call of a locator panics.
pub record NeverPanics {S : Type 0} (l : Locators S) : Type 0 where
  pub get_tenant : (t : Str) (k : TokenType) (s : S) → Ends (l.get_tenant t k s)
  pub get_tenant_by_id :
      (t : Str) (k : TokenType) (u : Str) (s : S) → Ends (l.get_tenant_by_id t k u s)
  pub get_token_with_user_token : (t u : Str) (s : S) → Ends (l.get_token_with_user_token t u s)
  pub get_token_with_sa_token : (t u : Str) (s : S) → Ends (l.get_token_with_sa_token t u s)
  pub srv_acc_token : (s : S) → Ends (l.srv_acc_token s)
  pub get_name : (c t n k : Str) (s : S) → Ends (l.get_name c t n k s)
  pub get_secret : (c t n k : Str) (s : S) → Ends (l.get_secret c t n k s)
  pub token_type : (t : Str) (s : S) → Ends (l.token_type t s)

module _ {S : Type 0} where
  lifted-Ends :
      {A B : Type 0} (n : Str) {r : Run S A} (f : A → M (Str × S) B)
      → Ends r
      → ((a : A) (s : S) → Ends (f a (n, s)))
      → Ends (after (tagged n r) f)
  lifted-Ends n f (with_value a s) k = k a s
  lifted-Ends n f (with_error e s) k = with_error e (n, s)

module _ {S : Type 0} (l : Locators S) (quiet : NeverPanics l) where
  resolve_with_token-Ends :
      (token : Str) (tt : TokenType) (s : S) → Ends (resolve_with_token l token tt s)
  unfolding resolve_with_token
  resolve_with_token-Ends token tt s = after-Ends _ (quiet.get_tenant token tt s) λ n t.
      after-Ends _ (quiet.get_token_with_user_token token n.cluster_url t) λ o u. with_value _ u

  secret_with-Ends : (ns : Namespace) (ct name : Str) (s : S) → Ends (secret_with l ns ct (name, s))
  unfolding secret_with
  secret_with-Ends ns ct name s =
      lifted-Ends name _ (quiet.get_name ns.cluster_url ct name ns.kind s) λ n t.
        lifted-Ends name _ (quiet.get_secret ns.cluster_url ct name n t)
          λ o u. with_value _ (name, u)

  secret_of-Ends : (ns : Namespace) (name : Str) (s : S) → Ends (secret_of l ns (name, s))
  unfolding secret_of
  secret_of-Ends ns name s = lifted-Ends name _ (quiet.srv_acc_token s) λ sa t.
      lifted-Ends name _ (quiet.get_token_with_sa_token sa ns.cluster_url t)
        λ ct u. secret_with-Ends ns ct name u

  resolve_with_id-Ends :
      (token : Str) (tt : TokenType) (user_id name : Str) (s : S)
      → Ends (resolve_with_id l token tt user_id (name, s))
  unfolding resolve_with_id
  resolve_with_id-Ends token tt user_id name s =
      lifted-Ends name _ (quiet.get_tenant_by_id token tt user_id s)
        λ ns t. secret_of-Ends ns (if equal name [] then ns.name else name) t

  -- A call of a resolver returns.
  plain-returned :
      (r : Resolver) {run : Run S CacheData}
      → Ends run
      → (q : Resolver) × (d : CacheData) × (e : Option Error) × (s : S) × (plain r run
          ≡ returned q d e s)
  plain-returned r (with_value d s) = (_, _, _, _, refl)
  plain-returned r (with_error e s) = (_, _, _, _, refl)

  closed-returned :
      (f : Str → Resolver) {run : Run (Str × S) CacheData}
      → Ends run
      → (q : Resolver) × (d : CacheData) × (e : Option Error) × (s : S) × (closed f run
          ≡ returned q d e s)
  closed-returned f (with_value d (n, s)) = (_, _, _, _, refl)
  closed-returned f (with_error e (n, s)) = (_, _, _, _, refl)

  pub call-returned :
      (r : Resolver) (s : S)
      → (q : Resolver) × (d : CacheData) × (e : Option Error) × (t : S) × (call l r s
          ≡ returned q d e t)
  unfolding call
  call-returned (by_token token tt) s = plain-returned _ (resolve_with_token-Ends token tt s)
  call-returned (by_id token tt user_id name) s =
      closed-returned _ (resolve_with_id-Ends token tt user_id name s)

  pub get_value-returned :
      (p : Cache.Promise Resolver CacheData) (s : S)
      → (q : Cache.Promise Resolver CacheData) × (v : Option CacheData) × (e : Option Error)
        × (t : S) × (Cache.get_value (call l) p s ≡ returned q v e t)
  unfolding Cache.get_value
  get_value-returned p s = elim (Bool-cases p.resolved) [
    | inl resolved ↦ (p, p.value, p.error, s, get_value_resolved (call l) p s resolved)
    | inr fresh ↦
        let (q, d, e, t, ran) = call-returned p.resolver s in rw (fresh, ran) (_, _, _, _, refl)
  ]

  pub answered-Ends : (d : CacheData) (e : Option Error) (a : Auth S) → Ends (answered d e a)
  answered-Ends d none a = with_value d a
  answered-Ends d (some e) a = with_error e a

  module _ (digest : Str → Str) where
    pub resolve_cached-Ends :
        (key : Str) (r : Resolver) (a : Auth S)
        → IsKeyed digest l key r
        → Valid digest l a.cache
        → Ends (resolve_cached l key r a)
    unfolding resolve_cached Cache.force
    resolve_cached-Ends key r a keyed h =
        let got = get-IsValid (IsKeyed digest l) (Answers digest l) key r a.cache keyed h in
        let there = got.in_range key (Cache.get key r a.cache).1 (get-address key r a.cache) in
        let (p, stored) =
          get_elem?-some (Cache.get key r a.cache).0.heap (Cache.get key r a.cache).1 there in
        let (q, v, e, t, ran) = get_value-returned p a.services in
        rw (stored, Cache.force, ran) (answered-Ends _ e _)
