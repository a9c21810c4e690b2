-- ===== src/Osio/Paths/Strip.antt =====
-- Which request type a path has, and what stripping its prefix leaves.
use fabric8_oso_proxy.Base.{
  ℕ, true, false, [], ◌∷◌, ◌++◌, ◌≡◌, ◌≢◌, refl, ap, ◌∙◌, ◌↔◌, ◌⊎◌, inl, inr, arith, Bool-cases,
}
use fabric8_oso_proxy.Base.Strings.{Str, codes, has_prefix, has_prefix_split, trim_prefix-append}
use fabric8_oso_proxy.Net.Url
use fabric8_oso_proxy.Net.Request.{Request}
use fabric8_oso_proxy.Osio.Paths.{
  ensure_leading_slash, strip_prefix, get_request_type, strip_request_path_prefix,
  strip_path_prefix,
}
use fabric8_oso_proxy.Osio.Types.{
  RequestType, api, metrics, console, logs, undefine, path, api_prefix, oapi_prefix,
}

-- The prefix that a path of each type has; `undefine` has none.
abbrev pub type_prefix : RequestType → Str
type_prefix api = codes "/api/"
type_prefix metrics = codes "/metrics"
type_prefix console = codes "/console"
type_prefix logs = codes "/logs"
type_prefix undefine = []

abbrev pub HasType : RequestType → Str → Type 0
HasType undefine p =
    (has_prefix p (type_prefix api) ≡ false)
    × (has_prefix p (type_prefix metrics) ≡ false)
    × (has_prefix p (type_prefix console) ≡ false)
    × (has_prefix p (type_prefix logs) ≡ false)
HasType t p = has_prefix p (type_prefix t) ≡ true

-- Two prefixes that differ in their second byte exclude one another.
has_prefix_ne :
    (p : Str) (x y z : ℕ) (q r : Str)
    → y ≢ z
    → has_prefix p (x ∷ y ∷ q) ≡ true
    → has_prefix p (x ∷ z ∷ r) ≡ false
unfolding has_prefix
has_prefix_ne [] x y z q r n h = refl
has_prefix_ne (c ∷ []) x y z q r n h = ground arith
has_prefix_ne (c ∷ d ∷ p) x y z q r n h = ground arith

abbrev Excludes : RequestType → RequestType → Str → Type 0
Excludes t u p = has_prefix p (type_prefix t) ≡ true → has_prefix p (type_prefix u) ≡ false

excluded :
    (p : Str)
    → Excludes api metrics p
      × Excludes api console p
      × Excludes api logs p
      × Excludes metrics console p
      × Excludes metrics logs p
      × Excludes console logs p
excluded p = (
  has_prefix_ne p b'/' b'a' b'm' _ _ (omega arith),
  has_prefix_ne p b'/' b'a' b'c' _ _ (omega arith),
  has_prefix_ne p b'/' b'a' b'l' _ _ (omega arith),
  has_prefix_ne p b'/' b'm' b'c' _ _ (omega arith),
  has_prefix_ne p b'/' b'm' b'l' _ _ (omega arith),
  has_prefix_ne p b'/' b'c' b'l' _ _ (omega arith),
)

-- A path has the type `t` exactly if it has the prefix of `t`, or none of the four prefixes for
-- `undefine`: the prefixes exclude one another, so the order of the tests does not matter.
pub get_request_type_iff : (t : RequestType) (p : Str) → (get_request_type p ≡ t) ↔ HasType t p
unfolding get_request_type
get_request_type_iff api p = ground (arith, excluded p)
get_request_type_iff _ p = ground (arith, excluded p)

-- What stripping leaves of a path.
pub data Stripped (p q : Str) : RequestType → Type 0 where
  -- "/api/api/v1" becomes "/api/v1" and "/api/oapi/v1" becomes "/oapi/v1".
  kube : (s : Str) → p ≡ api_prefix ++ s → q ≡ codes "/api" ++ s → Stripped p q api
  openshift : (s : Str) → p ≡ oapi_prefix ++ s → q ≡ codes "/oapi" ++ s → Stripped p q api
  neither :
      has_prefix p api_prefix ≡ false → has_prefix p oapi_prefix ≡ false → q ≡ p → Stripped p q api
  -- "/metrics/a" and "/metricsa" both become "/a".
  service :
      {t : RequestType} (s : Str)
      → (t ≡ metrics) ⊎ ((t ≡ console) ⊎ (t ≡ logs))
      → p ≡ path t ++ s
      → q ≡ ensure_leading_slash s
      → Stripped p q t
  untouched : q ≡ p → Stripped p q undefine

-- What the write of the path does to the rest of the request.
pub record IsRewritten (r r' : Request) : Type 0 where
  pub method : r'.method ≡ r.method
  pub header : r'.header ≡ r.header
  pub query : r'.url.raw_query ≡ r.url.raw_query
  pub uri : (r' ≡ r) ⊎ (r'.uri ≡ Url.request_uri r'.url)

strip_request-IsRewritten :
    (r : Request) (prefix strip : Str) → IsRewritten r (strip_request_path_prefix r prefix strip)
unfolding strip_request_path_prefix
strip_request-IsRewritten r prefix strip = ground arith

pub strip_path_prefix-IsRewritten :
    (t : RequestType) (r : Request) → IsRewritten r (strip_path_prefix t r)
unfolding strip_path_prefix
strip_path_prefix-IsRewritten api r = strip_request-IsRewritten r _ (path api)
strip_path_prefix-IsRewritten metrics r = strip_request-IsRewritten r _ (path metrics)
strip_path_prefix-IsRewritten console r = strip_request-IsRewritten r _ (path console)
strip_path_prefix-IsRewritten logs r = strip_request-IsRewritten r _ (path logs)
strip_path_prefix-IsRewritten undefine r = ground arith

strip_request_on :
    (r : Request) (prefix strip : Str)
    → has_prefix r.url.path prefix ≡ true
    → (strip_request_path_prefix r prefix strip).url.path ≡ strip_prefix r.url.path strip
unfolding strip_request_path_prefix
strip_request_on r prefix strip h = rw h refl

strip_request_off :
    (r : Request) (prefix strip : Str)
    → has_prefix r.url.path prefix ≡ false
    → (strip_request_path_prefix r prefix strip).url.path ≡ r.url.path
unfolding strip_request_path_prefix
strip_request_off r prefix strip h = rw h refl

strip_prefix-append : (prefix s : Str) → strip_prefix (prefix ++ s) prefix ≡ ensure_leading_slash s
unfolding strip_prefix
strip_prefix-append prefix s = ap ensure_leading_slash (trim_prefix-append prefix s)

ensure_leading_slash_slash : (s : Str) → ensure_leading_slash (b'/' ∷ s) ≡ b'/' ∷ s
unfolding ensure_leading_slash
ensure_leading_slash_slash s = ap (◌∷◌ b'/') (trim_prefix-append (codes "/") s)

service-Stripped :
    (t : RequestType) (r : Request)
    → (t ≡ metrics) ⊎ ((t ≡ console) ⊎ (t ≡ logs))
    → has_prefix r.url.path (path t) ≡ true
    → Stripped r.url.path (strip_request_path_prefix r (path t) (path t)).url.path t
service-Stripped t r which h =
    let (s, e) = has_prefix_split r.url.path (path t) h in
    service s which e (
      strip_request_on r (path t) (path t) h
      ∙ ap (λ p. strip_prefix p (path t)) e
      ∙ strip_prefix-append (path t) s)

api-Stripped : (r : Request) → Stripped r.url.path (strip_path_prefix api r).url.path api
unfolding strip_path_prefix
api-Stripped r = elim (Bool-cases (has_prefix r.url.path oapi_prefix)) [
  | inl new ↦
      let (s, e) = has_prefix_split r.url.path oapi_prefix new in
      openshift s e (
        rw new (
          strip_request_on r oapi_prefix (path api) new
          ∙ ap (λ p. strip_prefix p (path api)) e
          ∙ strip_prefix-append (path api) (codes "/oapi" ++ s)
          ∙ ensure_leading_slash_slash (codes "oapi" ++ s)))
  | inr old ↦ elim (Bool-cases (has_prefix r.url.path api_prefix)) [
    | inl kubernetes ↦
        let (s, e) = has_prefix_split r.url.path api_prefix kubernetes in
        kube s e (
          rw old (
            strip_request_on r api_prefix (path api) kubernetes
            ∙ ap (λ p. strip_prefix p (path api)) e
            ∙ strip_prefix-append (path api) (codes "/api" ++ s)
            ∙ ensure_leading_slash_slash (codes "api" ++ s)))
    | inr other ↦ neither other old (rw old (strip_request_off r api_prefix (path api) other))
  ]
]

-- Stripping a request by the type of its own path: "/api/api" becomes "/api" and "/api/oapi"
-- becomes "/oapi", every other API path stays, a metrics, console or logs path loses its prefix
-- and begins with one slash in its place, and a path of no type stays. The method, the headers
-- and the query stay, and the request URI is written anew from the URL unless nothing changes.
pub strip_path_prefix-Stripped :
    (r : Request)
    → Stripped r.url.path
        (strip_path_prefix (get_request_type r.url.path) r).url.path
        (get_request_type r.url.path)
      × IsRewritten r (strip_path_prefix (get_request_type r.url.path) r)
strip_path_prefix-Stripped r =
    (by_type (get_request_type r.url.path) r refl, strip_path_prefix-IsRewritten _ r)
  where
    by_type :
        (t : RequestType) (r : Request)
        → get_request_type r.url.path ≡ t
        → Stripped r.url.path (strip_path_prefix t r).url.path t
    by_type api r e = api-Stripped r
    by_type metrics r e =
        unfold strip_path_prefix in
        service-Stripped metrics r (inl refl) ((get_request_type_iff metrics _).0 e)
    by_type console r e =
        unfold strip_path_prefix in
        service-Stripped console r (inr (inl refl)) ((get_request_type_iff console _).0 e)
    by_type logs r e =
        unfold strip_path_prefix in
        service-Stripped logs r (inr (inr refl)) ((get_request_type_iff logs _).0 e)
    by_type undefine r e = unfold strip_path_prefix in untouched refl
