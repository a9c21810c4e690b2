-- ===== src/Osio/Remote/Jwt/Laws.antt =====
-- Which tokens have a type, and which keys they are checked against.
use fabric8_oso_proxy.Base.{
  Option, none, some, List, [], ◌∷◌, ◌≡◌, refl, sym, ap, ◌∙◌, ◌↔◌, inl, inr, if◌then◌else◌,
  Bool-cases, Option-cases,
}
use fabric8_oso_proxy.Base.Strings.{Str, codes, equal, equal_iff}
use fabric8_oso_proxy.Base.Maps.{lookup, insert, lookup-insert}
use fabric8_oso_proxy.Base.Run.{Run, done, fail, panic, Outcome, ok, err, crash}
use fabric8_oso_proxy.Net.Web.{Web, ended}
use fabric8_oso_proxy.Osio.Remote.Jwt.{
  Claim, text, null, other, Claims, PublicKey, Library, Keys, bind, claim_of, known_type,
  by_account, type_of_claims, key_func, add_keys, fetch_keys, type_with, with_keys, on_keys,
  token_type,
}
use fabric8_oso_proxy.Osio.Types.{TokenType, user_token, che_token, token_type_map}

abbrev pub account_of : Claims → Claim
account_of c = claim_of (lookup (codes "service_accountname") c)

abbrev pub sub_of : Claims → Claim
sub_of c = claim_of (lookup (codes "sub") c)

-- The claims of a token of each type.
pub data HasType (c : Claims) (t : TokenType) : Type 0 where
  service : account_of c ≡ text (codes "rh-che") → t ≡ che_token → HasType c t
  user : (s : Str) → account_of c ≡ null → sub_of c ≡ text s → t ≡ user_token → HasType c t

known_type-eq-ok :
    (account : Str) (t : TokenType)
    → known_type account (lookup account token_type_map) ≡ ok t
    → (account ≡ codes "rh-che") × (t ≡ che_token)
unfolding lookup
known_type-eq-ok account t h = elim (Bool-cases (equal (codes "rh-che") account)) [
  | inl same ↦ (sym ((equal_iff (codes "rh-che") account).0 same), sym (cc (rw same at h)))
  | inr not_same ↦ absurd (cc (rw not_same at h))
]

by_account-eq-ok :
    (c : Claims) (t : TokenType) (a b : Claim)
    → account_of c ≡ a
    → sub_of c ≡ b
    → by_account a b ≡ ok t
    → HasType c t
by_account-eq-ok c t (text account) b e f h =
    let (name, is) = known_type-eq-ok account t h in service (e ∙ ap text name) is
by_account-eq-ok c t other b e f h = cc
by_account-eq-ok c t null (text s) e f h = user s e f (sym (cc h))
by_account-eq-ok c t null null e f h = cc
by_account-eq-ok c t null other e f h = cc

-- Claims give a token a type exactly if they name the service account "rh-che", for the type
-- "che", or name no account and have a subject that is a text, for the type "user".
pub type_of_claims_iff : (c : Claims) (t : TokenType) → (type_of_claims c ≡ ok t) ↔ HasType c t
unfolding type_of_claims
type_of_claims_iff c t = (by_account-eq-ok c t (account_of c) (sub_of c) refl refl, has_type)
  where
    has_type : HasType c t → by_account (account_of c) (sub_of c) ≡ ok t
    has_type (service e f) = rw (e, f) (unfold lookup equal in refl)
    has_type (user s e f g) = rw (e, f, g) refl

-- The key that a list of keys ends up with under an identifier: the last one.
abbrev pub last_key : {K : Type 0} → Str → List (PublicKey K) → Option K → Option K
last_key id [] old = old
last_key id (k ∷ ks) old = last_key id ks (if equal k.key_id id then some k.key else old)

pub lookup-add_keys :
    {K : Type 0} (id : Str) (ks : List (PublicKey K)) (m : List (Str × K))
    → lookup id (add_keys ks m) ≡ last_key id ks (lookup id m)
unfolding add_keys
lookup-add_keys id [] m = refl
lookup-add_keys id (k ∷ ks) m =
    lookup-add_keys id ks (insert k.key_id k.key m)
    ∙ ap (last_key id ks) (lookup-insert id k.key_id k.key m)

bind-eq-ok :
    {A B : Type 0} (o : Outcome A) (f : A → Outcome B) (b : B)
    → bind o f ≡ ok b
    → (a : A) × (o ≡ ok a) × (f a ≡ ok b)
bind-eq-ok (ok a) f b h = (a, refl, h)
bind-eq-ok (err e) f b h = cc
bind-eq-ok crash f b h = cc

ended-eq-done :
    {W T : Type 0} (o : Outcome T) (w w' : W) (t : T)
    → ended o w ≡ done t w'
    → (o ≡ ok t) × (w ≡ w')
ended-eq-done (ok x) w w' t h = (ap ok (cc h), cc h)
ended-eq-done (err e) w w' t h = cc
ended-eq-done crash w w' t h = cc

key_func-eq-ok :
    {K : Type 0} (m : List (Str × K)) (kid : Option Str) (k : K)
    → key_func m kid ≡ ok k
    → (id : Str) × (kid ≡ some id) × (lookup id m ≡ some k)
unfolding key_func
key_func-eq-ok m none k h = cc
key_func-eq-ok m (some id) k h = elim (Option-cases (lookup id m)) [
  | inl missing ↦ absurd (cc (rw missing at h))
  | inr (x, found) ↦ (id, refl, found ∙ ap some (cc (rw found at h)))
]

-- Where the keys come from: they were at hand, and then nothing changes, or this call fetched them.
pub data KeysFrom {K W : Type 0} (lib : Library K) (web : Web W) (auth_url : Str) (s s' : Keys K W)
    (m : List (Str × K)) : Type 0 where
  kept : s.public_keys ≡ some m → s' ≡ s → KeysFrom lib web auth_url s s' m
  fetched :
      (ks : List (PublicKey K))
      → s.public_keys ≡ none
      → fetch_keys lib web auth_url s.world ≡ done ks s'.world
      → m ≡ add_keys ks []
      → KeysFrom lib web auth_url s s' m

-- What it takes for a token to be accepted.
pub record IsAccepted {K W : Type 0} (lib : Library K) (web : Web W) (auth_url : Str)
    (Signed : Str → K → Claims → Type 0) (token : Str) (t : TokenType) (s s' : Keys K W)
    : Type 0 where
  pub keys : List (Str × K)
  pub held : s'.public_keys ≡ some keys
  pub from : KeysFrom lib web auth_url s s' keys
  pub claims : Claims
  pub has_type : HasType claims t
  pub kid : Str
  pub key : K
  pub found : lookup kid keys ≡ some key
  pub signed : Signed token key claims

module _ {K W : Type 0} (lib : Library K) (web : Web W) (auth_url : Str)
    (Signed : Str → K → Claims → Type 0)
    (verified : (token : Str) (f : Option Str → Outcome K) (c : Claims)
      → lib.parse token f ≡ ok c
      → (kid : Option Str) × (k : K) × (f kid ≡ ok k) × Signed token k c) where
  IsAccepted-with :
      (token : Str) (t : TokenType) (s s' : Keys K W) (m : List (Str × K))
      → type_with lib web auth_url m token ≡ ok t
      → s'.public_keys ≡ some m
      → KeysFrom lib web auth_url s s' m
      → IsAccepted lib web auth_url Signed token t s s'
  IsAccepted-with token t s s' m h held from =
      let (c, parsed, typed) = bind-eq-ok (lib.parse token (key_func m)) type_of_claims t h in
      let (kid, k, by_kid, signed) = verified token (key_func m) c parsed in
      let (id, _, found) = key_func-eq-ok m kid k by_kid in
      record {
        keys = m;
        held = held;
        from = from;
        claims = c;
        has_type = (type_of_claims_iff c t).0 typed;
        kid = id;
        key = k;
        found = found;
        signed = signed;
      }

  with_keys-IsAccepted :
      (token : Str) (t : TokenType) (s s' : Keys K W) (r : Run W (List (PublicKey K)))
      → s.public_keys ≡ none
      → fetch_keys lib web auth_url s.world ≡ r
      → with_keys lib web auth_url token r ≡ done t s'
      → IsAccepted lib web auth_url Signed token t s s'
  with_keys-IsAccepted token t s s' (done ks w) missing ran h =
      let (is, state) =
        ended-eq-done (type_with lib web auth_url (add_keys ks []) token) _ s' t h in
      IsAccepted-with token t s s' (add_keys ks []) is
        (ap (λ (x : Keys K W). x.public_keys) (sym state))
        (fetched ks missing (ran ∙ ap (λ (x : Keys K W). done ks x.world) state) refl)
  with_keys-IsAccepted token t s s' (fail e w) missing ran h = cc
  with_keys-IsAccepted token t s s' (panic w) missing ran h = cc

  -- Assume that `Parse` returns claims only if the function that finds keys has found a key
  -- with which they are signed. If a token gets a type, then its claims are those of the type,
  -- and they are signed with a key that the map of keys has under some "kid"; that map was at
  -- hand, and nothing changed, or this call fetched it.
  pub token_type-IsAccepted :
      (token : Str) (t : TokenType) (s s' : Keys K W)
      → token_type lib web auth_url token s ≡ done t s'
      → IsAccepted lib web auth_url Signed token t s s'
  unfolding token_type
  token_type-IsAccepted token t s s' h = elim (Option-cases s.public_keys) [
    | inl missing ↦
        with_keys-IsAccepted token t s s' (fetch_keys lib web auth_url s.world) missing refl
          (on_none token t s s' missing h)
    | inr (m, held) ↦
        let (is, state) =
          ended-eq-done (type_with lib web auth_url m token)
            (record { public_keys = some m; world = s.world }) s' t
            (on_some token t s s' m held h) in
        IsAccepted-with token t s s' m is (ap (λ (x : Keys K W). x.public_keys) (sym state))
          (kept held (sym state ∙ ap (λ k. record { public_keys = k; world = s.world }) (sym held)))
  ]
    where
      on_none :
          (token : Str) (t : TokenType) (s s' : Keys K W)
          → s.public_keys ≡ none
          → on_keys lib web auth_url token s.public_keys s.world ≡ done t s'
          → with_keys lib web auth_url token (fetch_keys lib web auth_url s.world) ≡ done t s'
      on_none token t s s' e k = ap (λ o. on_keys lib web auth_url token o s.world) (sym e) ∙ k

      on_some :
          (token : Str) (t : TokenType) (s s' : Keys K W) (m : List (Str × K))
          → s.public_keys ≡ some m
          → on_keys lib web auth_url token s.public_keys s.world ≡ done t s'
          → on_keys lib web auth_url token (some m) s.world ≡ done t s'
      on_some token t s s' m e k = ap (λ o. on_keys lib web auth_url token o s.world) (sym e) ∙ k
