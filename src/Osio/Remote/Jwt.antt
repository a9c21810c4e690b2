-- ===== src/Osio/Remote/Jwt.antt =====
-- middlewares/osio/jwt_token.go: the type of a token, from its claims.
pub mod Laws
use fabric8_oso_proxy.Base.{
  ℕ, Bool, true, false, not, Option, none, some, List, [], ◌∷◌, ◌++◌, ◌≡◌, ◌≢◌, refl, sym, ap, ◌∙◌,
  ◌⊎◌, inl, inr, ◌==◌, if◌then◌else◌, Bool-cases, Option-cases,
}
use fabric8_oso_proxy.Base.Strings.{Str, codes, equal}
use fabric8_oso_proxy.Base.Maps.{lookup, insert}
use fabric8_oso_proxy.Base.Run.{
  Error, bad_status, no_kid, no_public_key, not_rsa_key, unsupported_account, not_valid_jwt, Run,
  done, fail, panic, M, Outcome, ok, err, crash,
}
use fabric8_oso_proxy.Net.Web.{
  Web, with_request, OutRequest, Response, Reply, get_method, status_ok, decoded, ended,
}
use fabric8_oso_proxy.Osio.Types.{TokenType, user_token, token_type_map}

-- A value of the claims: `text` is a string, `null` the nil interface.
pub data Claim : Type 0 where
  text : Str → Claim
  null other : Claim

abbrev pub Claims : Type 0
Claims = List (Str × Claim)

pub record PublicKey (K : Type 0) : Type 0 where
  pub key_id : Str
  pub key : K

-- The libraries: encoding/json on the key document (`Raw` is one undecoded key), go-jose's
-- `UnmarshalJSON` (`none` is a key of another kind than RSA), and jwt-go's `Parse`, which takes
-- the function that finds the key by the "kid" header, formatted as text.
pub record Library (K : Type 0) : Type 1 where
  pub Raw : Type 0
  pub unmarshal_keys : Str → Outcome (List Raw)
  pub marshal : Raw → Outcome Str
  pub unmarshal_jwk : Str → Outcome (Str × Option K)
  pub parse : Str → (Option Str → Outcome K) → Outcome Claims

-- The variable of the closure `CreateTokenTypeLocator`, and the services that it calls.
pub record Keys (K W : Type 0) : Type 0 where
  pub public_keys : Option (List (Str × K))
  pub world : W

abbrev pub bind : {A B : Type 0} → Outcome A → (A → Outcome B) → Outcome B
bind (ok a) f = f a
bind (err e) f = err e
bind crash f = crash

abbrev pub fmap : {A B : Type 0} → (A → B) → Outcome A → Outcome B
fmap f (ok a) = ok (f a)
fmap f (err e) = err e
fmap f crash = crash

abbrev pub claim_of : Option Claim → Claim
claim_of none = null
claim_of (some c) = c

abbrev pub known_type : Str → Option TokenType → Outcome TokenType
known_type account none = err (unsupported_account account)
known_type account (some []) = err (unsupported_account account)
known_type account (some (c ∷ t)) = ok (c ∷ t)

abbrev pub by_sub : Claim → Outcome TokenType
by_sub (text s) = ok user_token
by_sub null = err not_valid_jwt
by_sub other = err not_valid_jwt

abbrev pub by_account : Claim → Claim → Outcome TokenType
by_account (text account) sub = known_type account (lookup account token_type_map)
by_account other sub = err not_valid_jwt
by_account null sub = by_sub sub

-- The claims of a token, in the order in which the locator reads them.
unfoldable pub type_of_claims : Claims → Outcome TokenType
type_of_claims c =
    by_account (claim_of (lookup (codes "service_accountname") c))
      (claim_of (lookup (codes "sub") c))

module _ {K : Type 0} where
  abbrev pub found_key : Option K → Outcome K
  found_key none = err no_public_key
  found_key (some k) = ok k

  unfoldable pub key_func : List (Str × K) → Option Str → Outcome K
  key_func keys none = err no_kid
  key_func keys (some kid) = found_key (lookup kid keys)

  -- `publicKeysMap[remoteKey.KeyID] = remoteKey.Key`, in the order of the list.
  unfoldable pub add_keys : List (PublicKey K) → List (Str × K) → List (Str × K)
  add_keys [] m = m
  add_keys (k ∷ ks) m = add_keys ks (insert k.key_id k.key m)

  abbrev pub rsa_key : Str × Option K → Outcome (PublicKey K)
  rsa_key (id, none) = err not_rsa_key
  rsa_key (id, some k) = ok (record { key_id = id; key = k })

module _ {K : Type 0} (lib : Library K) where
  unfoldable pub unmarshal_key : Str → Outcome (PublicKey K)
  unmarshal_key json = bind (lib.unmarshal_jwk json) rsa_key

  -- The loop of `unmarshalKeys`.
  unfoldable pub unmarshal_each : List lib.Raw → Outcome (List (PublicKey K))
  unmarshal_each [] = ok []
  unmarshal_each (r ∷ rs) =
      bind (bind (lib.marshal r) unmarshal_key) λ k. fmap (◌∷◌ k) (unmarshal_each rs)

  unfoldable pub unmarshal_keys : Str → Outcome (List (PublicKey K))
  unfolding unmarshal_each
  unmarshal_keys json = bind (lib.unmarshal_keys json) unmarshal_each

  -- `fetchKeys` reads the body before it tests the status.
  abbrev pub with_body : Str → Response → Outcome Str → Outcome (List (PublicKey K))
  with_body url r (ok body) =
      if not (r.status_code == status_ok)
      then err (bad_status url r.status)
      else unmarshal_keys body
  with_body url r (err e) = err e
  with_body url r crash = crash

  abbrev pub with_reply : Str → Option Error → Option Response → Outcome (List (PublicKey K))
  with_reply url (some e) r = err e
  with_reply url none none = crash
  with_reply url none (some r) = with_body url r r.body

  module _ {W : Type 0} (web : Web W) (auth_url : Str) where
    abbrev pub keys_request : OutRequest
    keys_request = record {
      method = get_method;
      url = auth_url ++ codes "/token/keys";
      header = [];
      body = [];
    }

    unfoldable pub fetch_keys : M W (List (PublicKey K))
    fetch_keys w =
        let (reply, w') = web.send keys_request w in
        with_request (web.new_request keys_request.url)
          (ended (with_reply keys_request.url reply.error reply.response) w') w

    -- The token's type under the keys at hand.
    abbrev pub type_with : List (Str × K) → Str → Outcome TokenType
    type_with keys token = bind (lib.parse token (key_func keys)) type_of_claims

    abbrev pub with_keys : Str → Run W (List (PublicKey K)) → Run (Keys K W) TokenType
    with_keys token (done ks w) =
        let m = add_keys ks [] in
        ended (type_with m token) (record { public_keys = some m; world = w })
    with_keys token (fail e w) = fail e (record { public_keys = none; world = w })
    with_keys token (panic w) = panic (record { public_keys = none; world = w })

    abbrev pub on_keys : Str → Option (List (Str × K)) → W → Run (Keys K W) TokenType
    on_keys token (some m) w =
        ended (type_with m token) (record { public_keys = some m; world = w })
    on_keys token none w = with_keys token (fetch_keys w)

    -- `CreateTokenTypeLocator`
    unfoldable pub token_type : Str → M (Keys K W) TokenType
    token_type token s = on_keys token s.public_keys s.world
