-- ===== src/Osio/Remote/Secret.antt =====
-- middlewares/osio/secret.go: the secrets of a namespace's service account.
use fabric8_oso_proxy.Base.{
  true, false, List, [], ◌∷◌, ◌++◌, ◌≡◌, refl, ap, inl, inr, All, if◌then◌else◌, Bool-cases,
}
use fabric8_oso_proxy.Base.Strings.{Str, codes, equal, has_prefix}
use fabric8_oso_proxy.Base.Run.{M, Outcome, ok, err, crash, no_secret_name, no_secret}
use fabric8_oso_proxy.Net.Web.{Web, fetch}
use fabric8_oso_proxy.Osio.Paths.{normalize_url}

abbrev pub che_prefix : Str
che_prefix = codes "che-token"

unfoldable pub get_secret_name : List Str → Outcome Str
get_secret_name [] = err no_secret_name
get_secret_name (n ∷ ns) = if has_prefix n che_prefix then ok n else get_secret_name ns

-- `base64` is `base64.StdEncoding.DecodeString`.
unfoldable pub decode_secret : (Str → Outcome Str) → Str → Outcome Str
decode_secret base64 token = if equal token [] then err no_secret else base64 token

abbrev pub name_of : Outcome (List Str) → Outcome Str
name_of (ok ns) = get_secret_name ns
name_of (err e) = err e
name_of crash = crash

abbrev pub secret_of : (Str → Outcome Str) → Outcome Str → Outcome Str
secret_of base64 (ok token) = decode_secret base64 token
secret_of base64 (err e) = err e
secret_of base64 crash = crash

-- `decode_names` and `decode_data` are the JSON decoders of the two responses.
module _ {W : Type 0} (web : Web W) (decode_names : Str → Outcome (List Str))
    (decode_data base64 : Str → Outcome Str) where
  unfoldable pub get_name : Str → Str → Str → Str → M W Str
  get_name cluster_url cluster_token ns_name ns_type =
      let url =
        normalize_url cluster_url
        ++ (codes "/api/v1/namespaces/" ++ (ns_name ++ (codes "/serviceaccounts/" ++ ns_type))) in
      fetch web url cluster_token (λ b. name_of (decode_names b))

  unfoldable pub get_secret : Str → Str → Str → Str → M W Str
  get_secret cluster_url cluster_token ns_name secret_name =
      let url =
        normalize_url cluster_url
        ++ (codes "/api/v1/namespaces/" ++ (ns_name ++ (codes "/secrets/" ++ secret_name))) in
      fetch web url cluster_token (λ b. secret_of base64 (decode_data b))

-- The result of the search for a name.
pub data PickedName (ns : List Str) : Outcome Str → Type 0 where
  first :
      (before after : List Str) (n : Str)
      → ns ≡ before ++ n ∷ after
      → has_prefix n che_prefix ≡ true
      → All (λ m. has_prefix m che_prefix ≡ false) before
      → PickedName ns (ok n)
  missing : All (λ m. has_prefix m che_prefix ≡ false) ns → PickedName ns (err no_secret_name)

PickedName-cons :
    (m : Str) {ns : List Str} {o : Outcome Str}
    → has_prefix m che_prefix ≡ false
    → PickedName ns o
    → PickedName (m ∷ ns) o
PickedName-cons m h (first before after n splits found skipped) =
    first (m ∷ before) after n (ap (◌∷◌ m) splits) found (h, skipped)
PickedName-cons m h (missing all) = missing (h, all)

-- The search returns the first name that begins with "che-token", and an error if there is
-- none.
pub get_secret_name-PickedName : (ns : List Str) → PickedName ns (get_secret_name ns)
unfolding get_secret_name
get_secret_name-PickedName [] = missing tt
get_secret_name-PickedName (n ∷ ns) = elim (Bool-cases (has_prefix n che_prefix)) [
  | inl here ↦ rw here (first [] ns n refl here tt)
  | inr other ↦ rw other (PickedName-cons n other (get_secret_name-PickedName ns))
]
