-- ===== src/Middlewares/Rewrite/Wired.antt =====
-- rules/rules.go and server/server.go: from the text of a rule to the path that the backend sees.
use fabric8_oso_proxy.Base.{
  ◌≢◌, ◌⊎◌, inl, inr, ◌++◌, Bool-cases, Option, Option-cases, false, none, some, List, [], ◌∷◌, ◌≡◌,
  refl, sym, ap, ◌∙◌, if◌then◌else◌,
}
use fabric8_oso_proxy.Base.Run.{Error, rule_failed, done, fail}
use fabric8_oso_proxy.Base.Strings.{
  Str, codes, equal, equal_iff, equal_ne, ne_of_equal, has_prefix, has_prefix_split, trim_prefix,
  trim_prefix-append,
}
use fabric8_oso_proxy.Base.Trim.{IsTrimmed, trim_space, trim_space_of}
use fabric8_oso_proxy.Net.Header
use fabric8_oso_proxy.Net.Header.{all_values-add}
use fabric8_oso_proxy.Net.Url.{request_uri}
use fabric8_oso_proxy.Net.Request.{Request}
use fabric8_oso_proxy.Rules.{path_prefix_strip, add_prefix, Rule}
use fabric8_oso_proxy.Rules.Parsed.{run_rules, parse_rules-print_rules}
use fabric8_oso_proxy.Rules.Printed.{print_rules, IsRule}
use fabric8_oso_proxy.Rules.Routes.{
  Strings, Mux, ServerRoute, build_path, call, returns_route, on_rule, parsed, parse, with_priority,
  get_route,
}
use fabric8_oso_proxy.Middlewares.Rewrite.{
  forwarded_prefix_header, strip_prefix, ensure_leading_slash, Handler, Replies, Patterns,
  stripped_request, prefixed_request, serve_strip_prefix, serve_add_prefix, wire_frontend_backend,
}

-- The server route of a frontend before its rules are read.
abbrev pub new_route : {T : Type 0} → T → ServerRoute T
new_route t = record {
  route = t;
  strip_prefixes = [];
  strip_prefixes_regex = [];
  add_prefix_of = [];
  replace_path_of = [];
  replace_path_regex_of = [];
}

abbrev pub strip_and_add : Str → Str → List Rule
strip_and_add p a = (path_prefix_strip, p ∷ []) ∷ (add_prefix, a ∷ []) ∷ []

fail_ne_done : {S A : Type 0} {e : Error} {x : A} {s t : S} → fail e s ≡ done x t → ⊥
fail_ne_done e = cc

done_injective : {S A : Type 0} {x y : A} {s t : S} → done x s ≡ done y t → t ≡ s
done_injective e = cc

-- A request that has lost the prefix `p` and got the prefix `a`.
pub record IsRewritten (p a : Str) (r r' : Request) : Type 0 where
  pub path :
      (rest : Str) × (r.url.path ≡ p ++ rest)
      × (r'.url.path ≡ a ++ (codes "/" ++ trim_prefix rest (codes "/")))
  pub raw_path :
      ((r.url.raw_path ≡ []) × (r'.url.raw_path ≡ []))
      ⊎ ((r.url.raw_path ≢ [])
          × (r'.url.raw_path
              ≡ a ++ (codes "/" ++ trim_prefix (trim_prefix r.url.raw_path p) (codes "/"))))
  pub query : r'.url.raw_query ≡ r.url.raw_query
  pub method : r'.method ≡ r.method
  pub uri : r'.uri ≡ request_uri r'.url
  pub header :
      (k : Str)
      → Header.all_values r'.header k ≡ (
          if equal forwarded_prefix_header k
          then Header.all_values r.header k ++ p ∷ []
          else Header.all_values r.header k)

-- The raw path is rewritten where there is one.
raw_path_of :
    (p a : Str) (r : Request)
    → ((r.url.raw_path ≡ []) × ((prefixed_request a (stripped_request p r)).url.raw_path ≡ []))
      ⊎ ((r.url.raw_path ≢ [])
          × ((prefixed_request a (stripped_request p r)).url.raw_path
              ≡ a ++ (codes "/" ++ trim_prefix (trim_prefix r.url.raw_path p) (codes "/"))))
unfolding prefixed_request stripped_request strip_prefix ensure_leading_slash equal
raw_path_of p a r = elim (Bool-cases (equal r.url.raw_path [])) [
  | inl empty ↦ let is_nil = (equal_iff r.url.raw_path []).0 empty in inl (is_nil, rw (is_nil) refl)
  | inr filled ↦ inr (ne_of_equal r.url.raw_path [] filled, rw filled refl)
]

header_of :
    (p a : Str) (r : Request) (k : Str)
    → IsTrimmed p
    → Header.all_values (prefixed_request a (stripped_request p r)).header k ≡ (
        if equal forwarded_prefix_header k
        then Header.all_values r.header k ++ p ∷ []
        else Header.all_values r.header k)
unfolding prefixed_request stripped_request
header_of p a r k trimmed =
    all_values-add r.header forwarded_prefix_header (trim_space p) k
    ∙ elim (Bool-cases (equal forwarded_prefix_header k)) [
      | inl same ↦
          rw (same, trim_space_of p trimmed, (equal_iff forwarded_prefix_header k).0 same) refl
      | inr other ↦ rw other refl
    ]

rewritten :
    (p a rest : Str) (r : Request)
    → IsTrimmed p
    → r.url.path ≡ p ++ rest
    → IsRewritten p a r (prefixed_request a (stripped_request p r))
unfolding prefixed_request stripped_request strip_prefix ensure_leading_slash
rewritten p a rest r trimmed split = record {
  path = (
    rest,
    split,
    ap (λ s. a ++ (codes "/" ++ trim_prefix s (codes "/")))
        (ap (λ s. trim_prefix s p) split ∙ trim_prefix-append p rest),
  );
  raw_path = raw_path_of p a r;
  query = refl;
  method = refl;
  uri = refl;
  header = λ k. header_of p a r k trimmed;
}

module _ {T : Type 0} (l : Strings) (mux : Mux T) where
  run_accepted :
      (p a : Str) (t : T)
      → l.by_size (p ∷ []) ≡ p ∷ []
      → mux.get_error (mux.subrouter (build_path p ∷ []) t) ≡ none
      → run_rules (on_rule l mux) (strip_and_add p a) (new_route t, none)
        ≡ done tt (
          record (new_route t) {
            route = mux.subrouter (build_path p ∷ []) t;
            strip_prefixes = p ∷ [];
            add_prefix_of = a;
          },
          some (mux.subrouter (build_path p ∷ []) t),
        )
  unfolding on_rule call returns_route
  run_accepted p a t sorted fine = rw (sorted, fine) (rw fine refl)

  run_refused :
      (p a : Str) (t : T) (e : Error)
      → l.by_size (p ∷ []) ≡ p ∷ []
      → mux.get_error (mux.subrouter (build_path p ∷ []) t) ≡ some e
      → (s : ServerRoute T × Option T) × (run_rules
            (on_rule l mux)
            (strip_and_add p a)
            (new_route t, none)
          ≡ fail (rule_failed e) s)
  unfolding on_rule call returns_route
  run_refused p a t e sorted refused =
      let u = mux.subrouter (build_path p ∷ []) t in
      (
        (record (new_route t) { route = u; strip_prefixes = p ∷ [] }, some u),
        rw (sorted, refused) refl,
      )

  -- What the two rules leave, if the router accepts them.
  get_route_left :
      (p a rule : Str) (t : T) (route : ServerRoute T)
      → l.by_size (p ∷ []) ≡ p ∷ []
      → with_priority l mux rule
          (parsed l mux (run_rules (on_rule l mux) (strip_and_add p a) (new_route t, none)))
        ≡ done tt route
      → (u : T) × (route ≡ record (new_route u) { strip_prefixes = p ∷ []; add_prefix_of = a })
  get_route_left p a rule t route sorted h =
      elim (Option-cases (mux.get_error (mux.subrouter (build_path p ∷ []) t))) [
        | inl fine ↦
            let run =
              ap (λ x. with_priority l mux rule (parsed l mux x))
                (run_accepted p a t sorted fine) in
            (_, done_injective (sym run ∙ h))
        | inr (e, refused) ↦
            let (s, failed) = run_refused p a t e sorted refused in
            let run = ap (λ x. with_priority l mux rule (parsed l mux x)) failed in
            absurd (fail_ne_done (sym run ∙ h))
      ]

wire_strip_and_add :
    {R T : Type 0} (patterns : Patterns) (replies : Replies R) (p a : Str) (t : T)
    (next : Handler R) (req : Request)
    → equal a [] ≡ false
    → wire_frontend_backend patterns replies
        (record (new_route t) { strip_prefixes = p ∷ []; add_prefix_of = a })
        next
        req
      ≡ (if has_prefix req.url.path p
          then next (prefixed_request a (stripped_request p req))
          else replies.not_found)
unfolding wire_frontend_backend serve_strip_prefix serve_add_prefix equal
wire_strip_and_add patterns replies p a t next req h = rw h refl

-- If the sort leaves one prefix alone, and the rules "PathPrefixStrip" on `p` and "AddPrefix"
-- on `a`, both arguments readable, are read without an error, then the frontend gives its
-- backend each request whose path has the prefix `p` with `p` replaced by `a` and one slash in
-- the path and in the raw path, `p` added to X-Forwarded-Prefix, the URI written anew from the
-- URL, and the query, the method and the other headers kept; any other request is not found.
pub wire_frontend_backend-get_route :
    {R T : Type 0} (l : Strings) (mux : Mux T) (patterns : Patterns) (replies : Replies R)
    (p a : Str) (t : T) (route : ServerRoute T) (next : Handler R) (req : Request)
    → IsRule (path_prefix_strip, p ∷ [])
    → IsRule (add_prefix, a ∷ [])
    → l.by_size (p ∷ []) ≡ p ∷ []
    → get_route l mux (print_rules (strip_and_add p a)) (new_route t) ≡ done tt route
    → ((req' : Request) × (wire_frontend_backend patterns replies route next req ≡ next req')
        × IsRewritten p a req req')
      ⊎ ((has_prefix req.url.path p ≡ false)
          × (wire_frontend_backend patterns replies route next req ≡ replies.not_found))
unfolding get_route parse
wire_frontend_backend-get_route l mux patterns replies p a t route next req i j sorted e =
    let rule = print_rules (strip_and_add p a) in
    let ran =
      parse_rules-print_rules (on_rule l mux) (path_prefix_strip, p ∷ [])
        ((add_prefix, a ∷ []) ∷ []) (new_route t, none) (i, (j, tt)) in
    let (u, left) =
      get_route_left l mux p a rule t route sorted
        (sym (ap (λ x. with_priority l mux rule (parsed l mux x)) ran) ∙ e) in
    let wired =
      ap (λ r. wire_frontend_backend patterns replies r next req) left
      ∙ wire_strip_and_add patterns replies p a u next req (equal_ne a [] j.args.0.0.1) in
    elim (Bool-cases (has_prefix req.url.path p)) [
      | inl found ↦
          let (rest, split) = has_prefix_split req.url.path p found in
          inl (
            prefixed_request a (stripped_request p req),
            wired ∙ rw found refl,
            rewritten p a rest req i.args.0.2 split,
          )
      | inr missing ↦ inr (missing, wired ∙ rw missing refl)
    ]
