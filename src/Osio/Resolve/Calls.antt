-- ===== src/Osio/Resolve/Calls.antt =====
-- What a lookup has called when it returns with no error.
use fabric8_oso_proxy.Base.{[], ◌≡◌, ◌≢◌, refl, ap, ◌∙◌}
use mathlib.Core.Path.{subst}
use fabric8_oso_proxy.Base.Strings.{Str, equal_ne}
use fabric8_oso_proxy.Base.Run.{Run, done, fail, panic, M, after, after-eq-done, state_of}
use fabric8_oso_proxy.Osio.Resolve.{
  Resolver, by_token, by_id, plain_key, tagged, resolve_with_token, secret_with, secret_of,
  resolve_with_id,
}
use fabric8_oso_proxy.Osio.Types.{TokenType, Namespace, CacheData, Locators}

-- The text whose hash is the key of a lookup.
abbrev pub plain_of : Resolver → Str
plain_of (by_token token tt) = token
plain_of (by_id token tt user_id name) = plain_key token user_id name

-- A lookup by identity that the cache keeps has a namespace.
abbrev pub IsNamed : Resolver → Type 0
IsNamed (by_token token tt) = Unit
IsNamed (by_id token tt user_id name) = name ≢ []

module _ {S : Type 0} (l : Locators S) where
  -- The tenant's data and the token come from calls made with the user's own token.
  pub record ByToken (token : Str) (tt : TokenType) (d : CacheData) : Type 0 where
    pub s0 : S
    pub s1 : S
    pub s2 : S
    pub tenant : l.get_tenant token tt s0 ≡ done d.namespace s1
    pub osio_token : l.get_token_with_user_token token d.namespace.cluster_url s1 ≡ done d.token s2

  -- The tenant is the one of the identity, and the token is the secret of the namespace, read with
  -- the cluster's token of the proxy's own service account.
  pub record ById (token : Str) (tt : TokenType) (user_id name : Str) (d : CacheData) : Type 0 where
    pub s0 : S
    pub s1 : S
    pub s2 : S
    pub s3 : S
    pub s4 : S
    pub s5 : S
    pub sa_token : Str
    pub cluster_token : Str
    pub secret_name : Str
    pub tenant : l.get_tenant_by_id token tt user_id s0 ≡ done d.namespace s1
    pub account : l.srv_acc_token s1 ≡ done sa_token s2
    pub cluster :
        l.get_token_with_sa_token sa_token d.namespace.cluster_url s2 ≡ done cluster_token s3
    pub named :
        l.get_name d.namespace.cluster_url cluster_token name d.namespace.kind s3
        ≡ done secret_name s4
    pub secret :
        l.get_secret d.namespace.cluster_url cluster_token name secret_name s4 ≡ done d.token s5

  abbrev pub Obtained : Resolver → CacheData → Type 0
  Obtained (by_token token tt) d = ByToken token tt d
  Obtained (by_id token tt user_id name) d = ById token tt user_id name d

  pub resolve_with_token-ByToken :
      (token : Str) (tt : TokenType) (s s' : S) (d : CacheData)
      → resolve_with_token l token tt s ≡ done d s'
      → ByToken token tt d
  unfolding resolve_with_token
  resolve_with_token-ByToken token tt s s' d h =
      let (namespace, s1, tenant, h') = after-eq-done (l.get_tenant token tt s) _ h in
      let (osio, s2, answer, same) =
        after-eq-done (l.get_token_with_user_token token namespace.cluster_url s1) _ h' in
      let is : record { token = osio; namespace = namespace } ≡ d = cc same in
      subst (ByToken token tt) is
        (record { s0 = s; s1 = s1; s2 = s2; tenant = tenant; osio_token = answer })

  lifted-eq-done :
      {A B : Type 0} (n : Str) (r : Run S A) (f : A → M (Str × S) B) {b : B} {x : Str × S}
      → after (tagged n r) f ≡ done b x
      → (a : A) × (s : S) × (r ≡ done a s) × (f a (n, s) ≡ done b x)
  lifted-eq-done n (done a s) f h = (a, s, refl, h)
  lifted-eq-done n (fail e s) f h = cc
  lifted-eq-done n (panic s) f h = cc

  -- What the last two calls of a lookup by identity have returned.
  record Secret (ns : Namespace) (cluster_token name : Str) (s3 : S) (d : CacheData) : Type 0 where
    s4 : S
    s5 : S
    secret_name : Str
    namespace : ns ≡ d.namespace
    named : l.get_name ns.cluster_url cluster_token name ns.kind s3 ≡ done secret_name s4
    secret : l.get_secret ns.cluster_url cluster_token name secret_name s4 ≡ done d.token s5

  secret_with-Secret :
      (ns : Namespace) (ct name n : Str) (s s' : S) (d : CacheData)
      → secret_with l ns ct (name, s) ≡ done d (n, s')
      → Secret ns ct name s d × (n ≡ name)
  unfolding secret_with
  secret_with-Secret ns ct name n s s' d h =
      let (secret_name, s4, e4, h4) =
        lifted-eq-done name (l.get_name ns.cluster_url ct name ns.kind s) _ h in
      let (osio, s5, e5, h5) =
        lifted-eq-done name (l.get_secret ns.cluster_url ct name secret_name s4) _ h4 in
      (
        record {
          s4 = s4;
          s5 = s5;
          secret_name = secret_name;
          namespace = cc h5;
          named = e4;
          secret = e5 ∙ ap (λ t. done t s5) (cc h5);
        },
        cc h5,
      )

  -- What all four calls behind the tenant's have returned.
  record Cluster (ns : Namespace) (name : Str) (s1 : S) (d : CacheData) : Type 0 where
    s2 : S
    s3 : S
    sa_token : Str
    cluster_token : Str
    account : l.srv_acc_token s1 ≡ done sa_token s2
    cluster : l.get_token_with_sa_token sa_token ns.cluster_url s2 ≡ done cluster_token s3
    secret : Secret ns cluster_token name s3 d

  secret_of-Cluster :
      (ns : Namespace) (name n : Str) (s s' : S) (d : CacheData)
      → secret_of l ns (name, s) ≡ done d (n, s')
      → Cluster ns name s d × (n ≡ name)
  unfolding secret_of
  secret_of-Cluster ns name n s s' d h =
      let (sa, s2, e2, h2) = lifted-eq-done name (l.srv_acc_token s) _ h in
      let (ct, s3, e3, h3) =
        lifted-eq-done name (l.get_token_with_sa_token sa ns.cluster_url s2) _ h2 in
      let (secret, same) = secret_with-Secret ns ct name n s3 s' d h3 in
      (
        record {
          s2 = s2;
          s3 = s3;
          sa_token = sa;
          cluster_token = ct;
          account = e2;
          cluster = e3;
          secret = secret;
        },
        same,
      )

  ById-of_Cluster :
      (token : Str) (tt : TokenType) (user_id name : Str) (s s1 : S) (ns : Namespace)
      (d : CacheData)
      → l.get_tenant_by_id token tt user_id s ≡ done ns s1
      → Cluster ns name s1 d
      → ById token tt user_id name d
  ById-of_Cluster token tt user_id name s s1 ns d tenant c =
      let (tenant', cluster, named, secret) =
        subst
          (λ n.
            (l.get_tenant_by_id token tt user_id s ≡ done n s1)
            × (l.get_token_with_sa_token c.sa_token n.cluster_url c.s2 ≡ done c.cluster_token c.s3)
            × (l.get_name n.cluster_url c.cluster_token name n.kind c.s3
                ≡ done c.secret.secret_name c.secret.s4)
            × (l.get_secret n.cluster_url c.cluster_token name c.secret.secret_name c.secret.s4
                ≡ done d.token c.secret.s5))
          c.secret.namespace (tenant, c.cluster, c.secret.named, c.secret.secret) in
      record {
        s0 = s;
        s1 = s1;
        s2 = c.s2;
        s3 = c.s3;
        s4 = c.secret.s4;
        s5 = c.secret.s5;
        sa_token = c.sa_token;
        cluster_token = c.cluster_token;
        secret_name = c.secret.secret_name;
        tenant = tenant';
        account = c.account;
        cluster = cluster;
        named = named;
        secret = secret;
      }

  -- A name that is not empty is kept by the variable `namespaceName`.
  pub resolve_with_id-ById :
      (token : Str) (tt : TokenType) (user_id name n : Str) (s s' : S) (d : CacheData)
      → name ≢ []
      → resolve_with_id l token tt user_id (name, s) ≡ done d (n, s')
      → ById token tt user_id name d × (n ≡ name)
  unfolding resolve_with_id
  resolve_with_id-ById token tt user_id name n s s' d named h =
      let (ns, s1, e1, h1) = lifted-eq-done name (l.get_tenant_by_id token tt user_id s) _ h in
      let kept : secret_of l ns (name, s1) ≡ done d (n, s') = rw (equal_ne name [] named) at h1 in
      let (c, same) = secret_of-Cluster ns name n s1 s' d kept in
      (ById-of_Cluster token tt user_id name s s1 ns d e1 c, same)

  -- So it is whatever the outcome.
  pub record KeepsName {A : Type 0} (name : Str) (r : Run (Str × S) A) : Type 0 where
    pub is : (state_of r).0 ≡ name

  lifted-KeepsName :
      {A B : Type 0} (name : Str) (r : Run S A) (f : A → M (Str × S) B)
      → ((a : A) (s : S) → KeepsName name (f a (name, s)))
      → KeepsName name (after (tagged name r) f)
  lifted-KeepsName name (done a s) f k = k a s
  lifted-KeepsName name (fail e s) f k = record { is = refl }
  lifted-KeepsName name (panic s) f k = record { is = refl }

  secret_with-KeepsName :
      (ns : Namespace) (ct name : Str) (s : S) → KeepsName name (secret_with l ns ct (name, s))
  unfolding secret_with
  secret_with-KeepsName ns ct name s =
      lifted-KeepsName name (l.get_name ns.cluster_url ct name ns.kind s) _ λ secret t.
        lifted-KeepsName name (l.get_secret ns.cluster_url ct name secret t) _
          λ b u. record { is = refl }

  secret_of-KeepsName :
      (ns : Namespace) (name : Str) (s : S) → KeepsName name (secret_of l ns (name, s))
  unfolding secret_of
  secret_of-KeepsName ns name s = lifted-KeepsName name (l.srv_acc_token s) _ λ sa t.
      lifted-KeepsName name (l.get_token_with_sa_token sa ns.cluster_url t) _
        λ ct u. secret_with-KeepsName ns ct name u

  pub resolve_with_id-KeepsName :
      (token : Str) (tt : TokenType) (user_id name : Str) (s : S)
      → name ≢ []
      → KeepsName name (resolve_with_id l token tt user_id (name, s))
  unfolding resolve_with_id
  resolve_with_id-KeepsName token tt user_id name s named =
      lifted-KeepsName name (l.get_tenant_by_id token tt user_id s) _
        λ ns t. rw (equal_ne name [] named) (secret_of-KeepsName ns name t)
