-- ===== src/Osio/Remote/Safe.antt =====
-- The locators that `NewOSIOAuth` makes, on services that always respond.
use fabric8_oso_proxy.Base.{
  ℕ, zero, suc, Option, none, some, List, [], ◌∷◌, ◌≢◌, refl, inl, inr, ◌==◌, Bool-cases,
  Option-cases,
}
use fabric8_oso_proxy.Base.Maps.{lookup}
use fabric8_oso_proxy.Base.Run.{Error, Run, Outcome, ok, err, crash, Ends, with_value, with_error}
use fabric8_oso_proxy.Base.Strings.{Str, equal}
use fabric8_oso_proxy.Cluster.Client.{TokenRequest}
use fabric8_oso_proxy.Net.Web.{Web, Response, status_ok}
use fabric8_oso_proxy.Osio.Remote.Jwt
use fabric8_oso_proxy.Osio.Remote.Jwt.{
  Claim, text, null, other, Claims, Library, Keys, PublicKey, bind, fmap, claim_of, known_type,
  by_sub, by_account, type_of_claims, found_key, key_func, add_keys, rsa_key, unmarshal_key,
  unmarshal_each, with_body, with_reply, keys_request, fetch_keys, type_with, with_keys, on_keys,
  token_type,
}
use fabric8_oso_proxy.Osio.Remote.Panics.{NeverCrashes}
use fabric8_oso_proxy.Osio.Remote.Responsive.{IsAnswer, Responds, ended-Ends, with_request-Ends}
use fabric8_oso_proxy.Osio.Remote.Secret
use fabric8_oso_proxy.Osio.Remote.Tenant
use fabric8_oso_proxy.Osio.Remote.Token.{prompt}
use fabric8_oso_proxy.Osio.Remote.Wiring.{Codecs}
use fabric8_oso_proxy.Osio.Types.{TokenType, Namespace, token_type_map}

-- The libraries return from every call, and the auth service's token is never the document `null`.
pub record AreSafe {K : Type 0} (c : Codecs K) : Type 0 where
  pub encode : (r : TokenRequest) → c.json.encode_token_request r ≢ crash
  pub decode_response : NeverCrashes c.json.decode_token_response
  pub never_nil : (b : Str) → c.json.decode_token_response b ≢ ok none
  pub decode_tenant : NeverCrashes c.decode_tenant
  pub decode_token : NeverCrashes c.decode_token
  pub decode_names : NeverCrashes c.decode_names
  pub decode_data : NeverCrashes c.decode_data
  pub base64 : NeverCrashes c.base64
  pub decrypt : (t : Str) (f : ℕ → Outcome Str) → ((n : ℕ) → f n ≢ crash) → c.decrypt t f ≢ crash
  pub unmarshal_keys : NeverCrashes c.jwt.unmarshal_keys
  pub marshal : (r : c.jwt.Raw) → c.jwt.marshal r ≢ crash
  pub unmarshal_jwk : NeverCrashes c.jwt.unmarshal_jwk
  pub parse :
      (t : Str) (f : Option Str → Outcome K)
      → ((k : Option Str) → f k ≢ crash)
      → c.jwt.parse t f ≢ crash

bind-ne-crash :
    {A B : Type 0} (o : Outcome A) (f : A → Outcome B)
    → o ≢ crash
    → ((a : A) → f a ≢ crash)
    → bind o f ≢ crash
bind-ne-crash (ok a) f h k = k a
bind-ne-crash (err e) f h k = λ p. cc
bind-ne-crash crash f h k = absurd (h refl)

fmap-ne-crash : {A B : Type 0} (f : A → B) (o : Outcome A) → o ≢ crash → fmap f o ≢ crash
fmap-ne-crash f (ok a) h = λ p. cc
fmap-ne-crash f (err e) h = λ p. cc
fmap-ne-crash f crash h = absurd (h refl)

known_type-ne-crash : (a : Str) (o : Option TokenType) → known_type a o ≢ crash
known_type-ne-crash a none h = cc
known_type-ne-crash a (some []) h = cc
known_type-ne-crash a (some (c ∷ t)) h = cc

by_account-ne-crash : (a b : Claim) → by_account a b ≢ crash
by_account-ne-crash (text a) b = known_type-ne-crash a (lookup a token_type_map)
by_account-ne-crash other b = λ h. cc
by_account-ne-crash null (text s) = λ h. cc
by_account-ne-crash null null = λ h. cc
by_account-ne-crash null other = λ h. cc

type_of_claims-ne-crash : (c : Claims) → type_of_claims c ≢ crash
unfolding type_of_claims
type_of_claims-ne-crash c = by_account-ne-crash _ _

found_key-ne-crash : {K : Type 0} (o : Option K) → found_key o ≢ crash
found_key-ne-crash none h = cc
found_key-ne-crash (some k) h = cc

key_func-ne-crash : {K : Type 0} (m : List (Str × K)) (k : Option Str) → key_func m k ≢ crash
unfolding key_func
key_func-ne-crash m none h = cc
key_func-ne-crash m (some id) h = found_key-ne-crash (lookup id m) h

Picked-ne-crash :
    {t : TokenType} {ns : List Namespace} {o : Outcome Namespace} → Tenant.Picked t ns o → o ≢ crash
Picked-ne-crash (Tenant.first n f) h = cc
Picked-ne-crash (Tenant.unmatched n a) h = cc
Picked-ne-crash (Tenant.nothing e) h = cc

pub namespace_of-ne-crash :
    (tt : TokenType) (o : Outcome (List Namespace)) → o ≢ crash → Tenant.namespace_of tt o ≢ crash
namespace_of-ne-crash t (ok ns) h = Picked-ne-crash (Tenant.get_namespace-Picked ns t)
namespace_of-ne-crash t (err e) h = λ p. cc
namespace_of-ne-crash t crash h = absurd (h refl)

PickedName-ne-crash : {ns : List Str} {o : Outcome Str} → Secret.PickedName ns o → o ≢ crash
PickedName-ne-crash (Secret.first b a n e f s) h = cc
PickedName-ne-crash (Secret.missing a) h = cc

pub name_of-ne-crash : (o : Outcome (List Str)) → o ≢ crash → Secret.name_of o ≢ crash
name_of-ne-crash (ok ns) h = PickedName-ne-crash (Secret.get_secret_name-PickedName ns)
name_of-ne-crash (err e) h = λ p. cc
name_of-ne-crash crash h = absurd (h refl)

pub secret_of-ne-crash :
    (base64 : Str → Outcome Str) (o : Outcome Str)
    → NeverCrashes base64
    → o ≢ crash
    → Secret.secret_of base64 o ≢ crash
unfolding Secret.decode_secret
secret_of-ne-crash base64 (ok t) safe h p = elim (Bool-cases (equal t [])) [
  | inl empty ↦ cc (rw empty at p)
  | inr full ↦ safe t (rw full at p)
]
secret_of-ne-crash base64 (err e) safe h p = cc
secret_of-ne-crash base64 crash safe h p = h refl

pub prompt-ne-crash : (p : Str) (n : ℕ) → prompt p n ≢ crash
prompt-ne-crash p zero h = cc
prompt-ne-crash p (suc n) h = cc

module _ {K W : Type 0} (c : Codecs K) (safe : AreSafe c) (web : Web W)
    (responds : Responds web) where
  -- The keys of the JWT library.
  unmarshal_key-ne-crash : (j : Str) → unmarshal_key c.jwt j ≢ crash
  unfolding unmarshal_key
  unmarshal_key-ne-crash j =
      bind-ne-crash (c.jwt.unmarshal_jwk j) rsa_key (safe.unmarshal_jwk j) rsa_key-ne-crash
    where
      rsa_key-ne-crash : (p : Str × Option K) → rsa_key p ≢ crash
      rsa_key-ne-crash (id, none) h = cc
      rsa_key-ne-crash (id, some k) h = cc

  unmarshal_each-ne-crash : (rs : List c.jwt.Raw) → unmarshal_each c.jwt rs ≢ crash
  unfolding unmarshal_each
  unmarshal_each-ne-crash [] = λ h. cc
  unmarshal_each-ne-crash (r ∷ rs) =
      let rest = unmarshal_each-ne-crash rs in
      bind-ne-crash (bind (c.jwt.marshal r) (unmarshal_key c.jwt)) _
        (bind-ne-crash (c.jwt.marshal r) (unmarshal_key c.jwt) (safe.marshal r)
          unmarshal_key-ne-crash)
        (λ k. fmap-ne-crash (◌∷◌ k) (unmarshal_each c.jwt rs) rest)

  unmarshal_keys-ne-crash : NeverCrashes (Jwt.unmarshal_keys c.jwt)
  unfolding Jwt.unmarshal_keys
  unmarshal_keys-ne-crash j =
      bind-ne-crash (c.jwt.unmarshal_keys j) _ (safe.unmarshal_keys j) unmarshal_each-ne-crash

  with_body-ne-crash :
      (url : Str) (r : Response) (o : Outcome Str) → o ≢ crash → with_body c.jwt url r o ≢ crash
  with_body-ne-crash url r (ok b) h p = elim (Bool-cases (r.status_code == status_ok)) [
    | inl fine ↦ unmarshal_keys-ne-crash b (rw fine at p)
    | inr bad ↦ cc (rw bad at p)
  ]
  with_body-ne-crash url r (err e) h p = cc
  with_body-ne-crash url r crash h p = h refl

  with_reply-ne-crash :
      (url : Str) (e : Option Error) (o : Option Response)
      → IsAnswer o
      → with_reply c.jwt url e o ≢ crash
  with_reply-ne-crash url (some e) o h p = cc
  with_reply-ne-crash url none none h p = h
  with_reply-ne-crash url none (some r) h p = with_body-ne-crash url r r.body h p

  fetch_keys-Ends : (auth_url : Str) (w : W) → Ends (fetch_keys c.jwt web auth_url w)
  unfolding fetch_keys
  fetch_keys-Ends auth_url w =
      let req = keys_request c.jwt web auth_url in
      with_request-Ends (web.new_request req.url) _ w
        (ended-Ends _ _ (with_reply-ne-crash req.url _ _ (responds req w)))

  type_with-ne-crash :
      (auth_url : Str) (m : List (Str × K)) (token : Str)
      → type_with c.jwt web auth_url m token ≢ crash
  type_with-ne-crash auth_url m token =
      bind-ne-crash (c.jwt.parse token (key_func m)) type_of_claims
        (safe.parse token (key_func m) (key_func-ne-crash m)) type_of_claims-ne-crash

  with_keys-Ends :
      (auth_url token : Str) (r : Run W (List (PublicKey K)))
      → Ends r
      → Ends (with_keys c.jwt web auth_url token r)
  with_keys-Ends auth_url token r (with_value ks w) =
      ended-Ends _ _ (type_with-ne-crash auth_url (add_keys ks []) token)
  with_keys-Ends auth_url token r (with_error e w) = with_error e _

  pub token_type-Ends :
      (auth_url token : Str) (s : Keys K W) → Ends (token_type c.jwt web auth_url token s)
  unfolding token_type
  token_type-Ends auth_url token s = elim (Option-cases s.public_keys) [
    | inl fresh ↦ rw fresh (with_keys-Ends auth_url token _ (fetch_keys-Ends auth_url s.world))
    | inr (m, held) ↦ rw held (ended-Ends _ _ (type_with-ne-crash auth_url m token))
  ]
