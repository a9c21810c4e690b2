-- ===== src/Osio/Resolve/Isolation.antt =====
-- Whose data a lookup returns.
use fabric8_oso_proxy.Base.{Option, none, some, [], ◌≡◌, ◌≢◌, refl, sym, ap, ◌∙◌}
use mathlib.Core.Path.{subst, ap₂}
use fabric8_oso_proxy.Base.Strings.{Str}
use fabric8_oso_proxy.Base.Run.{Error, Run, done, fail, panic, state_of}
use fabric8_oso_proxy.Osio.Cache
use fabric8_oso_proxy.Osio.Cache.{Cache, Called, returned, crashed}
use fabric8_oso_proxy.Osio.Cache.Invariant.{Keeps, IsValid, get-force-Answers}
use fabric8_oso_proxy.Osio.Resolve.{
  Resolver, by_token, by_id, Auth, data_of, from_cache, plain_key, plain, closed, call, cache_key,
  resolve_cached, resolve_by_token, resolve_by_id,
}
use fabric8_oso_proxy.Osio.Resolve.Keys.{cache_key_injective}
use fabric8_oso_proxy.Osio.Resolve.Calls.{
  plain_of, IsNamed, Obtained, resolve_with_token-ByToken, resolve_with_id-ById,
  resolve_with_id-KeepsName,
}
use fabric8_oso_proxy.Osio.Types.{TokenType, CacheData, Locators}

-- What the cache guarantees of an entry: it was obtained by a lookup with that key.
module _ {S : Type 0} (digest : Str → Str) (l : Locators S) where
  abbrev pub IsKeyed : Str → Resolver → Type 0
  IsKeyed key r = (key ≡ cache_key digest (plain_of r)) × IsNamed r

  pub record Answers (key : Str) (d : CacheData) : Type 0 where
    pub resolver : Resolver
    pub keyed : IsKeyed key resolver
    pub obtained : Obtained l resolver d

  plain_of_returned :
      (r q : Resolver) (run : Run S CacheData) (s : S) (d : CacheData) (e : Option Error)
      → plain r run ≡ returned q d e s
      → (q ≡ r) × (e ≡ none → run ≡ done d s)
  plain_of_returned r q (done x t) s d e h = (cc h, λ n. cc h)
  plain_of_returned r q (fail x t) s d e h = (cc h, λ n. absurd (cc (h, n)))
  plain_of_returned r q (panic t) s d e h = cc

  closed_of_returned :
      (f : Str → Resolver) (q : Resolver) (run : Run (Str × S) CacheData) (s : S) (d : CacheData)
      (e : Option Error)
      → closed f run ≡ returned q d e s
      → (q ≡ f (state_of run).0) × (e ≡ none → (n : Str) × (run ≡ done d (n, s)))
  closed_of_returned f q (done x (n, t)) s d e h =
      (cc h, λ m. (n, ap₂ (λ a b. done a (n, b)) (cc h) (cc h)))
  closed_of_returned f q (fail x (n, t)) s d e h = (cc h, λ m. absurd (cc (h, m)))
  closed_of_returned f q (panic (n, t)) s d e h = cc

  -- A call keeps the closure's key, and what it returns was obtained by it.
  pub call-Answers : Keeps (call l) IsKeyed Answers
  unfolding call
  call-Answers key (by_token token tt) q s s' d e (keyed, named) h =
      let (same, ran) = plain_of_returned (by_token token tt) q _ s' d e h in
      (
        subst (IsKeyed key) (sym same) (keyed, named),
        λ quiet. record {
          resolver = by_token token tt;
          keyed = (keyed, named);
          obtained = resolve_with_token-ByToken l token tt s s' d (ran quiet);
        },
      )
  call-Answers key (by_id token tt user_id name) q s s' d e (keyed, named) h =
      let (same, ran) = closed_of_returned (by_id token tt user_id) q _ s' d e h in
      let kept =
        ap (by_id token tt user_id)
          (resolve_with_id-KeepsName l token tt user_id name s named).is in
      (
        subst (IsKeyed key) (sym (same ∙ kept)) (keyed, named),
        λ quiet.
            let (n, done_with) = ran quiet in
            record {
              resolver = by_id token tt user_id name;
              keyed = (keyed, named);
              obtained = (resolve_with_id-ById l token tt user_id name n s s' d named done_with).0;
            },
      )

  abbrev pub Valid : Cache.Cache Resolver CacheData → Type 0
  Valid = IsValid IsKeyed Answers

  from_cache-eq-done :
      (a a' : Auth S) (x : Called (Cache.Cache Resolver CacheData) (Option CacheData) S)
      (d : CacheData)
      → from_cache a x ≡ done d a'
      → (c : Cache.Cache Resolver CacheData) × (v : Option CacheData) × (s : S) × (x
          ≡ returned c v none s)
        × (data_of v ≡ d)
  from_cache-eq-done a a' (returned c v none s) d h = (c, v, s, refl, cc h)
  from_cache-eq-done a a' (returned c v (some e) s) d h = cc
  from_cache-eq-done a a' (crashed s) d h = cc

  from_cache-Valid :
      (a : Auth S) (x : Called (Cache.Cache Resolver CacheData) (Option CacheData) S)
      → Valid a.cache
      → ((c : Cache.Cache Resolver CacheData) (v : Option CacheData) (e : Option Error) (s : S)
          → x ≡ returned c v e s
          → Valid c)
      → Valid (state_of (from_cache a x)).cache
  from_cache-Valid a (returned c v none s) h k = k c v none s refl
  from_cache-Valid a (returned c v (some e) s) h k = k c v (some e) s refl
  from_cache-Valid a (crashed s) h k = h

  -- Whatever a lookup ends with, it leaves a valid cache.
  pub resolve_cached-Valid :
      (key : Str) (r : Resolver) (a : Auth S)
      → IsKeyed key r
      → Valid a.cache
      → Valid (state_of (resolve_cached l key r a)).cache
  unfolding resolve_cached
  resolve_cached-Valid key r a keyed h = from_cache-Valid a _ h λ c v e s ran.
      (get-force-Answers (call l) IsKeyed Answers call-Answers key r a.cache c a.services s v e
        keyed h ran).0

  resolve_cached-Answers :
      (key : Str) (r : Resolver) (a a' : Auth S) (d : CacheData)
      → IsKeyed key r
      → Valid a.cache
      → resolve_cached l key r a ≡ done d a'
      → Answers key d
  unfolding resolve_cached
  resolve_cached-Answers key r a a' d keyed h ran =
      let (c, v, s, forced, is) = from_cache-eq-done a a' _ d ran in
      let (_, answers) =
        get-force-Answers (call l) IsKeyed Answers call-Answers key r a.cache c a.services s v none
          keyed h forced in
      let (w, found, answer) = answers refl in
      subst (Answers key) (ap data_of (sym found) ∙ is) answer

  -- The hash of this text is the hash of no other.
  abbrev pub IsUnique : Str → Type 0
  IsUnique p = (q : Str) → digest q ≡ digest p → q ≡ p

  abbrev pub ObtainedFor : Str → CacheData → Type 0
  ObtainedFor p d = (r : Resolver) × (plain_of r ≡ p) × IsNamed r × Obtained l r d

  Answers-ObtainedFor :
      (p : Str) (d : CacheData) → IsUnique p → Answers (cache_key digest p) d → ObtainedFor p d
  Answers-ObtainedFor p d unique x = (
    x.resolver,
    unique (plain_of x.resolver) (cache_key_injective digest _ p (sym x.keyed.0)),
    x.keyed.1,
    x.obtained,
  )

  -- On a valid cache, if no other text has the hash of the user's token, a lookup for the token
  -- that returns data leaves a valid cache, and the data were obtained by a resolver whose key
  -- text is the token.
  pub resolve_by_token-ObtainedFor :
      (token : Str) (tt : TokenType) (a a' : Auth S) (d : CacheData)
      → Valid a.cache
      → IsUnique token
      → resolve_by_token digest l token tt a ≡ done d a'
      → Valid a'.cache × ObtainedFor token d
  unfolding resolve_by_token
  resolve_by_token-ObtainedFor token tt a a' d h unique ran = (
    subst (λ (r : Run (Auth S) CacheData). Valid (state_of r).cache) ran
        (resolve_cached-Valid _ (by_token token tt) a (refl, tt') h),
    Answers-ObtainedFor token d unique
        (resolve_cached-Answers _ (by_token token tt) a a' d (refl, tt') h ran),
  )
    where
      tt' : Unit {0}
      tt' = Prim.tt

  -- On a valid cache, for a namespace that has a name, if no other text has the hash of the
  -- lookup's key text, a service's lookup that returns data leaves a valid cache, and the data
  -- were obtained by a resolver with that key text, which holds the service's token, the user
  -- and the namespace.
  pub resolve_by_id-ObtainedFor :
      (user_id token : Str) (tt : TokenType) (name : Str) (a a' : Auth S) (d : CacheData)
      → name ≢ []
      → Valid a.cache
      → IsUnique (plain_key token user_id name)
      → resolve_by_id digest l user_id token tt name a ≡ done d a'
      → Valid a'.cache × ObtainedFor (plain_key token user_id name) d
  unfolding resolve_by_id
  resolve_by_id-ObtainedFor user_id token tt name a a' d named h unique ran = (
    subst (λ (r : Run (Auth S) CacheData). Valid (state_of r).cache) ran
        (resolve_cached-Valid _ (by_id token tt user_id name) a (refl, named) h),
    Answers-ObtainedFor (plain_key token user_id name) d unique
        (resolve_cached-Answers _ (by_id token tt user_id name) a a' d (refl, named) h ran),
  )
