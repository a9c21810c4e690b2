-- ===== src/Server/Wiring/Created.antt =====
-- server/server.go, `loadConfig`: a chain that is built is what it has to be.
use fabric8_oso_proxy.Base.{some, List, ◌++◌, ◌≡◌, sym, ap, ◌∙◌, length}
use mathlib.Core.Path.{subst}
use fabric8_oso_proxy.Base.Maps.{lookup}
use fabric8_oso_proxy.Base.Run.{done, after-eq-done}
use fabric8_oso_proxy.Base.Strings.{Str}
use fabric8_oso_proxy.Middlewares.Rewrite.{Handler}
use fabric8_oso_proxy.Server.Defaults.{LoadBalancerMethod, new_load_balancer_method}
use fabric8_oso_proxy.Server.Wiring.{
  Frontend, Backend, Configuration, Global, Libraries, Link, Chain, Loading, or_skip,
}
use fabric8_oso_proxy.Server.Wiring.Backends.{
  configure_lb_servers, with_rate_limit, with_max_conn, with_retry, with_buffering,
  with_circuit_breaker, frontend_links, parse_health_check_options,
}
use fabric8_oso_proxy.Server.Wiring.Built.{
  with_rate_limit-IsRateLimited, with_max_conn-IsConnLimited, with_retry-IsRetried,
  with_buffering-IsBuffered, with_circuit_breaker-IsBroken,
}
use fabric8_oso_proxy.Server.Wiring.Chains.{
  error_links, add_health_check, sticky_cookie, create_balancer, limited_chain, create_chain,
}
use fabric8_oso_proxy.Server.Wiring.Made.{
  page_handlers, page_links, IsLast, IsRateLimited, IsConnLimited, IsBroken,
}
use fabric8_oso_proxy.Server.Wiring.Pages.{or_skip-eq-done, add_health_check-pages, error_links_lem}

module _ {R T D B : Type 0} (lib : Libraries R T D B) (global : Global) (p : Str)
    (c : Configuration D B) where
  -- What `create_balancer` returns, and that it adds no error page.
  record IsBalanced (e : Str) (f : Frontend D) (b : Backend B) (fwd balanced : Handler R)
      (s t : Loading R T) : Type 0 where
    method : LoadBalancerMethod
    has_method : new_load_balancer_method b.load_balancer ≡ some method
    balancer : lib.Balancer
    balances :
        configure_lb_servers lib b.servers
          (lib.new_balancer method (sticky_cookie lib global p c f.backend b.load_balancer) fwd)
        ≡ some balancer
    returned : lib.balance balancer ≡ balanced
    pages : t.error_pages ≡ s.error_pages

  create_balancer-IsBalanced :
      (e : Str) (f : Frontend D) (b : Backend B) (fwd balanced : Handler R) (s t : Loading R T)
      → create_balancer lib global p c e f b fwd s ≡ done balanced t
      → IsBalanced e f b fwd balanced s t
  unfolding create_balancer
  create_balancer-IsBalanced e f b fwd balanced s t h =
      let (method, s₁, h₁, k₁) =
        after-eq-done (or_skip (new_load_balancer_method b.load_balancer) s) _ h in
      let (method_eq, e₁) = or_skip-eq-done (new_load_balancer_method b.load_balancer) h₁ in
      let made =
        configure_lb_servers lib b.servers
          (lib.new_balancer method (sticky_cookie lib global p c f.backend b.load_balancer) fwd) in
      let (lb, s₂, h₂, k₂) = after-eq-done (or_skip made s₁) _ k₁ in
      let (lb_eq, e₂) = or_skip-eq-done made h₂ in
      let options =
        parse_health_check_options lib f.backend b.health_check global.health_interval in
      let (_, s₃, h₃, k₃) = after-eq-done (add_health_check (e ++ f.backend) options s₂) _ k₂ in
      let kept = add_health_check-pages (e ++ f.backend) options s₂ s₃ h₃ in
      let last : s₃ ≡ t = cc in
      record {
        method = method;
        has_method = method_eq;
        balancer = lb;
        balances = lb_eq;
        returned = cc;
        pages =
            ap (λ (x : Loading R T). x.error_pages) (sym last)
            ∙ kept
            ∙ ap (λ (x : Loading R T). x.error_pages) (sym (e₁ ∙ e₂));
      }

  -- What `limited_chain` returns, in an unchanged state.
  record IsLimitedChain (e : Str) (f : Frontend D) (entry_links : List (Link R)) (b : Backend B)
      (balanced : Handler R) (pages : List (Link R)) (ch : Chain R) (s t : Loading R T)
      : Type 0 where
    rated : Handler R
    is_rated : IsRateLimited lib f.rate_limit balanced rated
    limited : Handler R
    is_limited : IsConnLimited lib b.max_conn rated limited
    is_broken :
        IsBroken lib b.circuit_breaker
          (with_buffering lib b.buffering (with_retry lib global.retry (length b.servers) limited))
          ch.last
    links : ch.links ≡ entry_links ++ (pages ++ frontend_links lib global e f)
    state : s ≡ t

  limited_chain-IsLimitedChain :
      (e : Str) (f : Frontend D) (entry_links : List (Link R)) (b : Backend B)
      (balanced : Handler R) (pages : List (Link R)) (ch : Chain R) (s t : Loading R T)
      → limited_chain lib global p c e f entry_links b balanced pages s ≡ done ch t
      → IsLimitedChain e f entry_links b balanced pages ch s t
  unfolding limited_chain
  limited_chain-IsLimitedChain e f entry_links b balanced pages ch s t h =
      let by_rate = with_rate_limit lib f.rate_limit balanced in
      let (rated, s₁, h₁, k₁) = after-eq-done (or_skip by_rate s) _ h in
      let (rated_eq, e₁) = or_skip-eq-done by_rate h₁ in
      let by_conn = with_max_conn lib b.max_conn rated in
      let (limited, s₂, h₂, k₂) = after-eq-done (or_skip by_conn s₁) _ k₁ in
      let (limited_eq, e₂) = or_skip-eq-done by_conn h₂ in
      let by_breaker =
        with_circuit_breaker lib b.circuit_breaker (
          with_buffering lib b.buffering
            (with_retry lib global.retry (length b.servers) limited)) in
      let (last, s₃, h₃, k₃) = after-eq-done (or_skip by_breaker s₂) _ k₂ in
      let (last_eq, e₃) = or_skip-eq-done by_breaker h₃ in
      let made : record {
        links = entry_links ++ (pages ++ frontend_links lib global e f);
        last = last;
      }
          ≡ ch =
        cc in
      let ended : s₃ ≡ t = cc in
      record {
        rated = rated;
        is_rated = with_rate_limit-IsRateLimited lib f.rate_limit balanced rated rated_eq;
        limited = limited;
        is_limited = with_max_conn-IsConnLimited lib b.max_conn rated limited limited_eq;
        is_broken =
            with_circuit_breaker-IsBroken lib b.circuit_breaker _ ch.last
              (last_eq ∙ ap (λ (x : Chain R). some x.last) made);
        links = ap (λ (x : Chain R). x.links) (sym made);
        state = e₁ ∙ e₂ ∙ e₃ ∙ ended;
      }

  -- A chain that is built, with the error pages that building it adds.
  pub record IsCreated (e : Str) (f : Frontend D) (entry_links : List (Link R)) (ch : Chain R)
      (s t : Loading R T) : Type 0 where
    pub pages : t.error_pages ≡ s.error_pages ++ page_handlers e p c f.backend f.errors
    pub links :
        ch.links
        ≡ entry_links
          ++ (page_links (length s.error_pages) (page_handlers e p c f.backend f.errors)
              ++ frontend_links lib global e f)
    pub is_last : IsLast lib global p c e f ch.last

  pub create_chain-IsCreated :
      (e : Str) (f : Frontend D) (entry_links : List (Link R)) (ch : Chain R) (s t : Loading R T)
      → create_chain lib global p c e f entry_links s ≡ done ch t
      → IsCreated e f entry_links ch s t
  unfolding create_chain
  create_chain-IsCreated e f entry_links ch s t h =
      let forwards = lib.new_forwarder e f.pass_tls_cert f.pass_host_header f.headers in
      let (fwd, s₁, h₁, k₁) = after-eq-done (or_skip forwards s) _ h in
      let (fwd_eq, e₁) = or_skip-eq-done forwards h₁ in
      let found = lookup f.backend c.backends in
      let (b, s₂, h₂, k₂) = after-eq-done (or_skip found s₁) _ k₁ in
      let (b_eq, e₂) = or_skip-eq-done found h₂ in
      let (balanced, s₃, h₃, k₃) =
        after-eq-done (create_balancer lib global p c e f b fwd s₂) _ k₂ in
      let balance = create_balancer-IsBalanced e f b fwd balanced s₂ s₃ h₃ in
      let (pages, s₄, h₄, k₄) = after-eq-done (error_links e p c f.backend f.errors s₃) _ k₃ in
      let limited = limited_chain-IsLimitedChain e f entry_links b balanced pages ch s₄ t k₄ in
      let hs = page_handlers e p c f.backend f.errors in
      let added : done (page_links (length s₃.error_pages) hs)
            (record s₃ { error_pages = s₃.error_pages ++ hs })
          ≡ done pages s₄ =
        sym (error_links_lem e p c f.backend f.errors s₃) ∙ h₄ in
      let pages_eq : page_links (length s₃.error_pages) hs ≡ pages = cc in
      let state_eq : record s₃ { error_pages = s₃.error_pages ++ hs } ≡ s₄ = cc in
      let before : s₃.error_pages ≡ s.error_pages =
        balance.pages ∙ ap (λ (x : Loading R T). x.error_pages) (sym (e₁ ∙ e₂)) in
      record {
        pages =
            ap (λ (x : Loading R T). x.error_pages) (sym (state_eq ∙ limited.state))
            ∙ ap (λ ps. ps ++ hs) before;
        links =
            limited.links
            ∙ ap (λ ps. entry_links ++ (ps ++ frontend_links lib global e f))
                (sym pages_eq ∙ ap (λ ps. page_links (length ps) hs) before);
        is_last = record {
          forwarder = fwd;
          forwards = fwd_eq;
          backend = b;
          found = b_eq;
          method = balance.method;
          has_method = balance.has_method;
          balancer = balance.balancer;
          balances = balance.balances;
          rated = limited.rated;
          is_rated =
              subst (λ lb. IsRateLimited lib f.rate_limit lb limited.rated) (sym balance.returned)
                limited.is_rated;
          limited = limited.limited;
          is_limited = limited.is_limited;
          retried = with_retry lib global.retry (length b.servers) limited.limited;
          is_retried = with_retry-IsRetried lib global.retry (length b.servers) limited.limited;
          buffered =
              with_buffering lib b.buffering
                (with_retry lib global.retry (length b.servers) limited.limited);
          is_buffered =
              with_buffering-IsBuffered lib b.buffering
                (with_retry lib global.retry (length b.servers) limited.limited);
          is_broken = limited.is_broken;
        };
      }
