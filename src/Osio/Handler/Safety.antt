-- ===== src/Osio/Handler/Safety.antt =====
-- What the handler guarantees of a request that it forwards or redirects.
use fabric8_oso_proxy.Base.{
  false, not, ◌&&◌, ◌||◌, true, some, List, [], ◌∷◌, ◌≡◌, ◌≢◌, refl, sym, ap, ◌∙◌, inl, inr, arith,
  if◌then◌else◌, Bool-cases,
}
use fabric8_oso_proxy.Base.Strings.{Str, equal, equal_iff, equal_ne}
use fabric8_oso_proxy.Base.Run.{done}
use fabric8_oso_proxy.Net.Header
use fabric8_oso_proxy.Net.Header.{get-set, all_values-set}
use fabric8_oso_proxy.Net.Request.{Request}
use fabric8_oso_proxy.Osio.Handler.{
  Action, next, options, target, bearer, with_header, forward, route_as, route, serve, serve_http,
}
use fabric8_oso_proxy.Osio.Handler.Served.{Served, serve-Verdict}
use fabric8_oso_proxy.Osio.Paths.{
  get_request_type, strip_path_prefix, normalize_url, get_target_url, is_redirect_request,
  remove_user_id,
}
use fabric8_oso_proxy.Osio.Paths.Strip.{strip_path_prefix-IsRewritten}
use fabric8_oso_proxy.Osio.Paths.Target.{remove_user_id_lem, values_unless_set}
use fabric8_oso_proxy.Osio.Resolve.{Auth}
use fabric8_oso_proxy.Osio.Types.{
  TokenType, user_token, authorization, user_id_header, impersonate_group_header, CacheData,
  Locators, RequestType,
}

-- The values of a header of a forwarded request, by the data of the lookup, the token's type, and
-- the headers that the client sent.
abbrev pub forwarded_values : TokenType → CacheData → Str → Header.Header → Str → List Str
forwarded_values tt d target_url h k =
    if not (equal tt user_token) && (equal user_id_header k || equal impersonate_group_header k)
    then values_unless_set h k
    else if equal authorization k
    then bearer d.token ∷ []
    else if equal target k
    then target_url ∷ []
    else Header.all_values h k

-- The two headers that are set are no impersonation headers.
set_names_differ :
    (equal target user_id_header ≡ false)
    × (equal authorization user_id_header ≡ false)
    × (equal target impersonate_group_header ≡ false)
    × (equal authorization impersonate_group_header ≡ false)
unfolding equal
set_names_differ = (refl, refl, refl, refl)

not_set :
    (k : Str)
    → equal user_id_header k || equal impersonate_group_header k ≡ true
    → (equal target k ≡ false) × (equal authorization k ≡ false)
not_set k h =
    let (tu, au, tg, ag) = set_names_differ in
    elim (Bool-cases (equal user_id_header k)) [
      | inl same ↦ let one = (equal_iff user_id_header k).0 same in rw (sym one) (tu, au)
      | inr other ↦
          let group : equal impersonate_group_header k ≡ true = rw other at h in
          let one = (equal_iff impersonate_group_header k).0 group in rw (sym one) (tg, ag)
    ]

set_others :
    (h : Header.Header) (u v k : Str)
    → equal user_id_header k || equal impersonate_group_header k ≡ true
    → values_unless_set (Header.set (Header.set h target u) authorization v) k
      ≡ values_unless_set h k
set_others h u v k is_imp =
    let (no_target, no_auth) = not_set k is_imp in
    let targeted = Header.set h target u in
    rw
      (
        get-set targeted authorization v k,
        get-set h target u k,
        all_values-set targeted authorization v k,
        all_values-set h target u k,
        no_target,
        no_auth,
      )
      refl

all_values-signed :
    (h : Header.Header) (u v k : Str)
    → Header.all_values (Header.set (Header.set h target u) authorization v) k ≡ (
        if equal authorization k
        then v ∷ []
        else if equal target k
        then u ∷ []
        else Header.all_values h k)
all_values-signed h u v k =
    rw (all_values-set (Header.set h target u) authorization v k, all_values-set h target u k) refl

all_values-forward :
    (tt : TokenType) (d : CacheData) (target_url : Str) (r : Request) (k : Str)
    → Header.all_values (forward tt d target_url r).header k
      ≡ forwarded_values tt d target_url r.header k
unfolding forward
all_values-forward tt d target_url r k =
    let v = bearer d.token in
    let signed = with_header (with_header r target target_url) authorization v in
    let values = all_values-signed r.header target_url v k in
    elim (Bool-cases (equal tt user_token)) [
      | inl same ↦ rw same values
      | inr other ↦
          rw (other, remove_user_id_lem signed k)
            (elim (Bool-cases (equal user_id_header k || equal impersonate_group_header k)) [
              | inl is_imp ↦ rw is_imp (set_others r.header target_url v k is_imp)
              | inr fresh ↦ rw fresh values
            ])
    ]

-- A request that is handed on, and what it was made from.
pub record IsForwarded (r r' : Request) (tt : TokenType) (d : CacheData) : Type 0 where
  pub headers :
      (k : Str)
      → Header.all_values r'.header k
        ≡ forwarded_values tt d
            (normalize_url (get_target_url (get_request_type r.url.path) d.namespace))
            r.header
            k
  pub method : r'.method ≡ r.method
  pub url : r'.url ≡ (strip_path_prefix (get_request_type r.url.path) r).url
  pub not_redirected : is_redirect_request (get_request_type r.url.path) ≡ false

forward_parts :
    (tt : TokenType) (d : CacheData) (target_url : Str) (r : Request)
    → ((forward tt d target_url r).method ≡ r.method) × ((forward tt d target_url r).url ≡ r.url)
unfolding forward remove_user_id
forward_parts tt d target_url r = ground arith

route_as-IsForwarded :
    (t : RequestType) (tt : TokenType) (d : CacheData) (r r' : Request)
    → route_as t tt d r ≡ next r'
    → (r' ≡ forward tt d (normalize_url (get_target_url t d.namespace)) (strip_path_prefix t r))
      × (is_redirect_request t ≡ false)
unfolding route_as
route_as-IsForwarded t tt d r r' h = elim (Bool-cases (is_redirect_request t)) [
  | inl away ↦ absurd (cc (rw away at h))
  | inr stays ↦ (sym (cc (rw stays at h)), stays)
]

route-IsForwarded :
    (tt : TokenType) (d : CacheData) (r r' : Request)
    → route tt r d ≡ next r'
    → IsForwarded r r' tt d
unfolding route
route-IsForwarded tt d r r' h =
    let t = get_request_type r.url.path in
    let target_url = normalize_url (get_target_url t d.namespace) in
    let (is, stays) = route_as-IsForwarded t tt d r r' h in
    let w = strip_path_prefix-IsRewritten t r in
    let (method, url) = forward_parts tt d target_url (strip_path_prefix t r) in
    rw is (record {
      headers = λ k.
          all_values-forward tt d target_url (strip_path_prefix t r) k
          ∙ ap (λ h. forwarded_values tt d target_url h k) w.header;
      method = method ∙ w.method;
      url = url;
      not_redirected = stays;
    })

module _ {S : Type 0} (digest : Str → Str) (l : Locators S) (r : Request) (a a' : Auth S) where
  pub serve_http-serve :
      (act : Action)
      → r.method ≢ options
      → serve_http digest (some l) r a ≡ done act a'
      → serve digest l r a ≡ done act a'
  unfolding serve_http
  serve_http-serve act m h = rw (equal_ne r.method options m) at h

  -- If the handler hands a request that is not an OPTIONS request to the next handler, then the
  -- request has a token, the token has a type, and the lookup for that type has returned data.
  -- The forwarded request has the client's method and the URL with the stripped path, its type
  -- is not one that is redirected, and the values of its headers are as follows: for a token
  -- that is not a user's, an impersonation header is left out if its first value is not empty
  -- and keeps all its values otherwise; the one Authorization is the bearer token of the data;
  -- the one Target is the normalised URL of the cluster for the request's type; and the
  -- client's values stand under every other name.
  pub serve_http-IsForwarded :
      (r' : Request)
      → r.method ≢ options
      → serve_http digest (some l) r a ≡ done (next r') a'
      → (v : Served digest l r a a' (next r')) × IsForwarded r r' v.token_type v.cached
  serve_http-IsForwarded r' m h =
      elim (serve-Verdict digest l r a a' (next r') (serve_http-serve (next r') m h)) [
        | inl refused ↦ absurd (cc refused.0)
        | inr v ↦ (v, route-IsForwarded v.token_type v.cached r r' v.routed)
      ]
