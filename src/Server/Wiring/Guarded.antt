-- ===== src/Server/Wiring/Guarded.antt =====
-- server/server.go, `loadConfig`: where the white list and the users of a frontend stand in a chain.
use fabric8_oso_proxy.Base.{
  Option, none, some, List, [], ◌∷◌, ◌++◌, ◌≡◌, refl, sym, ap, ◌∙◌, length,
}
use mathlib.Core.List.{append_assoc}
use mathlib.Core.Path.{subst}
use fabric8_oso_proxy.Base.Strings.{Str}
use fabric8_oso_proxy.Middlewares.ErrorPages
use fabric8_oso_proxy.Server.Wiring.{
  Middleware, Frontend, Configuration, Global, Libraries, Link, fixed, Chain,
}
use fabric8_oso_proxy.Server.Wiring.Backends.{
  build_ip_white_lister, white_list_links, auth_links, optional, metrics_links, redirect_links,
  frontend_links,
}
use fabric8_oso_proxy.Server.Wiring.Made.{IsMadeFor, page_handlers, page_links}

module _ {R : Type 0} where
  abbrev pub Has : Middleware R → List (Link R) → Type 0
  Has m links =
      (before : List (Link R)) × (after : List (Link R)) × (links ≡ before ++ fixed m ∷ after)

  abbrev pub EndsWith : Middleware R → List (Link R) → Type 0
  EndsWith m links = (before : List (Link R)) × (links ≡ before ++ fixed m ∷ [])

  -- A white list that could be built is in front of the backend.
  abbrev pub IsListed : Option (Option (Middleware R)) → List (Link R) → Type 0
  IsListed none links = Unit
  IsListed (some none) links = Unit
  IsListed (some (some m)) links = Has m links

  -- Behind the authenticator of some users, if it could be built, there is only the backend.
  abbrev pub IsAuthenticated : List Str → Option (Middleware R) → List (Link R) → Type 0
  IsAuthenticated [] m links = Unit
  IsAuthenticated (u ∷ us) none links = Unit
  IsAuthenticated (u ∷ us) (some m) links = EndsWith m links

-- The guards of a frontend in a chain.
pub record IsGuarded {R T D B : Type 0} (lib : Libraries R T D B) (f : Frontend D)
    (links : List (Link R)) : Type 0 where
  pub listed : IsListed (build_ip_white_lister lib f.white_list f.whitelist_source_range) links
  pub authenticated : IsAuthenticated f.basic_auth (lib.new_authenticator f.basic_auth) links

module _ {R : Type 0} where
  IsListed-append :
      (l : Option (Option (Middleware R))) (xs ys : List (Link R))
      → IsListed l ys
      → IsListed l (xs ++ ys)
  IsListed-append none xs ys h = tt
  IsListed-append (some none) xs ys h = tt
  IsListed-append (some (some m)) xs ys (before, after, e) =
      (xs ++ before, after, ap (λ zs. xs ++ zs) e ∙ sym (append_assoc xs before (fixed m ∷ after)))

  IsAuthenticated-append :
      (users : List Str) (m : Option (Middleware R)) (xs ys : List (Link R))
      → IsAuthenticated users m ys
      → IsAuthenticated users m (xs ++ ys)
  IsAuthenticated-append [] m xs ys h = tt
  IsAuthenticated-append (u ∷ us) none xs ys h = tt
  IsAuthenticated-append (u ∷ us) (some m) xs ys (before, e) =
      (xs ++ before, ap (λ zs. xs ++ zs) e ∙ sym (append_assoc xs before (fixed m ∷ [])))

module _ {R T D B : Type 0} (lib : Libraries R T D B) where
  listed_first :
      (l : Option (Option (Middleware R))) (ys : List (Link R))
      → IsListed l (white_list_links lib l ++ ys)
  listed_first none ys = tt
  listed_first (some none) ys = tt
  listed_first (some (some m)) ys = ([], ys, refl)

  auth_links-IsAuthenticated :
      (users : List Str)
      → IsAuthenticated users (lib.new_authenticator users) (auth_links lib users)
  auth_links-IsAuthenticated [] = tt
  auth_links-IsAuthenticated (u ∷ us) = by_result (lib.new_authenticator (u ∷ us))
    where
      by_result : (m : Option (Middleware R)) → IsAuthenticated (u ∷ us) m (optional lib m)
      by_result none = tt
      by_result (some m) = ([], refl)

  frontend_links-IsGuarded :
      (global : Global) (e : Str) (f : Frontend D) → IsGuarded lib f (frontend_links lib global e f)
  unfolding frontend_links
  frontend_links-IsGuarded global e f =
      let metrics = metrics_links lib f.backend lib.backend_metrics in
      let list = build_ip_white_lister lib f.white_list f.whitelist_source_range in
      let redirect = redirect_links lib global e f.redirect in
      let header = optional lib (lib.header f.headers) in
      let secure = optional lib (lib.secure f.headers) in
      let auth = auth_links lib f.basic_auth in
      let m = lib.new_authenticator f.basic_auth in
      record {
        listed = IsListed-append list metrics _ (listed_first list _);
        authenticated = IsAuthenticated-append f.basic_auth m metrics _ (
            IsAuthenticated-append f.basic_auth m (white_list_links lib list) _ (
              IsAuthenticated-append f.basic_auth m redirect _ (
                IsAuthenticated-append f.basic_auth m header _ (
                  IsAuthenticated-append f.basic_auth m secure auth
                    (auth_links-IsAuthenticated f.basic_auth)))));
      }

  IsGuarded-append :
      (f : Frontend D) (xs ys : List (Link R)) → IsGuarded lib f ys → IsGuarded lib f (xs ++ ys)
  IsGuarded-append f xs ys h = record {
    listed =
        IsListed-append (build_ip_white_lister lib f.white_list f.whitelist_source_range) xs ys
          h.listed;
    authenticated =
        IsAuthenticated-append f.basic_auth (lib.new_authenticator f.basic_auth) xs ys
          h.authenticated;
  }

  -- A chain that is made for a frontend has its guards.
  pub made-IsGuarded :
      (global : Global) (registered : List ErrorPages.Handler) (p : Str) (c : Configuration D B)
      (e : Str) (f : Frontend D) (ch : Chain R)
      → IsMadeFor lib global registered p c e f ch
      → IsGuarded lib f ch.links
  made-IsGuarded global registered p c e f ch made =
      let own = frontend_links lib global e f in
      let pages = page_links (length made.before) (page_handlers e p c f.backend f.errors) in
      subst (IsGuarded lib f) (sym made.links) (
        IsGuarded-append f made.entry_links (pages ++ own)
          (IsGuarded-append f pages own (frontend_links-IsGuarded global e f)))
