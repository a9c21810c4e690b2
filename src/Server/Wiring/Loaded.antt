-- ===== src/Server/Wiring/Loaded.antt =====
-- server/server.go, `loadConfig`: what the routers and the map of chains hold at every moment.
use fabric8_oso_proxy.Base.{
  Bool-cases, inl, inr, Option, none, some, List, [], ◌∷◌, ◌++◌, ◌≡◌, ◌≢◌, ap, ◌∙◌, All,
}
use mathlib.Core.List.{Memᴰ, append_assoc}
use mathlib.Core.Path.{subst}
use fabric8_oso_proxy.Base.Maps.{lookup, insert, lookup-insert, lookup-insert_ne}
use fabric8_oso_proxy.Base.Strings.{Str, equal, equal_iff}
use fabric8_oso_proxy.Net.Url.Escape.{All-append}
use fabric8_oso_proxy.Server.Wiring.{
  Middleware, Redirect, Frontend, Configuration, Global, Libraries, Chain, Entry, Loading,
}
use fabric8_oso_proxy.Middlewares.ErrorPages
use fabric8_oso_proxy.Server.Wiring.Backends.{build_redirect_handler}
use fabric8_oso_proxy.Server.Wiring.Chains.{backend_key}
use fabric8_oso_proxy.Server.Wiring.Frontends.{or_empty, add_entry}
use fabric8_oso_proxy.Server.Wiring.Kept.{IsSame}
use fabric8_oso_proxy.Server.Wiring.Made.{IsMadeFor, page_handlers}

-- A frontend of a provider, on one of its entry points.
pub record Place (D B : Type 0) : Type 0 where
  pub provider : Str
  pub config : Configuration D B
  pub name : Str
  pub frontend : Frontend D
  pub entry_point : Str

abbrev pub key_of : {D B : Type 0} → Place D B → Str
key_of x = backend_key x.entry_point x.provider x.frontend.backend

pub record IsPlace {D B : Type 0} (configs : List (Str × Configuration D B)) (x : Place D B)
    : Type 0 where
  pub provided : Memᴰ (x.provider, x.config) configs
  pub listed : Memᴰ (x.name, x.frontend) x.config.frontends
  pub entered : Memᴰ x.entry_point x.frontend.entry_points

pub All-map :
    {A : Type 0} (P Q : A → Type 0) (xs : List A) → ((x : A) → P x → Q x) → All P xs → All Q xs
All-map P Q [] f h = tt
All-map P Q (x ∷ xs) f (h, hs) = (f x h, All-map P Q xs f hs)

module _ {R T D B : Type 0} (lib : Libraries R T D B) (global : Global)
    (configs : List (Str × Configuration D B)) where
  -- A chain was made for a frontend with its key.
  pub record IsBuiltFor (registered : List ErrorPages.Handler) (key : Str) (ch : Chain R)
      : Type 0 where
    pub place : Place D B
    pub is_place : IsPlace configs place
    pub keyed : key_of place ≡ key
    pub made :
        IsMadeFor lib global registered place.provider place.config place.entry_point place.frontend
          ch

  abbrev pub IsBuilt : List ErrorPages.Handler → Str → Option (Chain R) → Type 0
  IsBuilt registered key none = Unit
  IsBuilt registered key (some ch) = IsBuiltFor registered key ch

  -- A redirect in `redirectHandlers` is the one of its entry point.
  abbrev pub IsRedirectOf : Str → Option (Middleware R) → Type 0
  IsRedirectOf e none = Unit
  IsRedirectOf e (some m) =
      (opt : Redirect) × (lookup e global.entry_points ≡ some (some opt))
      × (build_redirect_handler lib global opt ≡ some m)

  -- A handled route is a frontend's on its entry point, and its chain is the one under its key.
  pub record IsWiredTo (backends : List (Str × Chain R)) (e name : Str) (ch : Chain R)
      : Type 0 where
    pub place : Place D B
    pub is_place : IsPlace configs place
    pub entered : place.entry_point ≡ e
    pub named : place.name ≡ name
    pub found : lookup (key_of place) backends ≡ some ch

  abbrev pub IsWired : List (Str × Chain R) → Str → Str → Option (Chain R) → Type 0
  IsWired backends e name none = Unit
  IsWired backends e name (some ch) = IsWiredTo backends e name ch

  abbrev pub WiredEntry : List (Str × Chain R) → Str → Entry R T → Type 0
  WiredEntry backends e x = IsWired backends e x.name x.handler

  pub record Holds (routers : List (Str × List (Entry R T))) (backends : List (Str × Chain R))
      (redirects : List (Str × Middleware R)) (registered : List ErrorPages.Handler) : Type 0 where
    pub built : (key : Str) → IsBuilt registered key (lookup key backends)
    pub wired : (e : Str) → All (WiredEntry backends e) (or_empty (lookup e routers))
    pub redirected : (e : Str) → IsRedirectOf e (lookup e redirects)

  abbrev pub IsLoaded : Loading R T → Type 0
  IsLoaded s = Holds s.routers s.backends s.redirect_handlers s.error_pages

  -- A chain keeps its error pages when others are added behind them.
  IsBuilt-append :
      (registered more : List ErrorPages.Handler) (key : Str) (ch : Option (Chain R))
      → IsBuilt registered key ch
      → IsBuilt (registered ++ more) key ch
  IsBuilt-append registered more key none b = tt
  IsBuilt-append registered more key (some ch) b =
      let m = b.made in
      let x = b.place in
      let hs =
        page_handlers x.entry_point x.provider x.config x.frontend.backend x.frontend.errors in
      record {
        place = x;
        is_place = b.is_place;
        keyed = b.keyed;
        made = record {
          entry_links = m.entry_links;
          is_redirect = m.is_redirect;
          before = m.before;
          after = m.after ++ more;
          placed =
              ap (λ ps. ps ++ more) m.placed
              ∙ append_assoc m.before (hs ++ m.after) more
              ∙ ap (λ ps. m.before ++ ps) (append_assoc hs m.after more);
          links = m.links;
          is_last = m.is_last;
        };
      }

  pub same-IsLoaded : {s t : Loading R T} → IsSame s t → IsLoaded s → IsLoaded t
  same-IsLoaded {s} {t} same h =
      rw (same.routers, same.backends, same.redirects, same.grown)
        (record {
          built = λ key.
              IsBuilt-append s.error_pages same.added key (lookup key s.backends) (h.built key);
          wired = h.wired;
          redirected = h.redirected;
        })

  IsWired-insert :
      (bs : List (Str × Chain R)) (key : Str) (new : Chain R) (e name : Str)
      (handler : Option (Chain R))
      → lookup key bs ≡ none
      → IsWired bs e name handler
      → IsWired (insert key new bs) e name handler
  IsWired-insert bs key new e name none free w = tt
  IsWired-insert bs key new e name (some ch) free w =
      let other : key ≢ key_of w.place = λ same. cc in
      record {
        place = w.place;
        is_place = w.is_place;
        entered = w.entered;
        named = w.named;
        found = lookup-insert_ne (key_of w.place) key new bs other ∙ w.found;
      }

  IsBuilt-insert :
      (registered : List ErrorPages.Handler) (bs : List (Str × Chain R)) (key : Str) (new : Chain R)
      → IsBuiltFor registered key new
      → ((k : Str) → IsBuilt registered k (lookup k bs))
      → (k : Str) → IsBuilt registered k (lookup k (insert key new bs))
  IsBuilt-insert registered bs key new b h k =
      rw (lookup-insert k key new bs) (elim (Bool-cases (equal key k)) [
        | inl same ↦ rw same (subst (λ j. IsBuiltFor registered j new) ((equal_iff key k).0 same) b)
        | inr other ↦ rw other (h k)
      ])

  -- A new chain under a free key.
  pub insert-Holds :
      (rs : List (Str × List (Entry R T))) (bs : List (Str × Chain R))
      (ms : List (Str × Middleware R)) (registered : List ErrorPages.Handler) (key : Str)
      (new : Chain R)
      → lookup key bs ≡ none
      → IsBuiltFor registered key new
      → Holds rs bs ms registered
      → Holds rs (insert key new bs) ms registered
  insert-Holds rs bs ms registered key new free b h = record {
    built = IsBuilt-insert registered bs key new b h.built;
    wired = λ e.
        All-map (WiredEntry bs e) (WiredEntry (insert key new bs) e) (or_empty (lookup e rs))
          (λ x w. IsWired-insert bs key new e x.name x.handler free w) (h.wired e);
    redirected = h.redirected;
  }

  IsRedirectOf-insert :
      (ms : List (Str × Middleware R)) (e : Str) (m : Middleware R)
      → IsRedirectOf e (some m)
      → ((d : Str) → IsRedirectOf d (lookup d ms))
      → (d : Str) → IsRedirectOf d (lookup d (insert e m ms))
  IsRedirectOf-insert ms e m r h d = rw (lookup-insert d e m ms) (elim (Bool-cases (equal e d)) [
    | inl same ↦ rw same (subst (λ j. IsRedirectOf j (some m)) ((equal_iff e d).0 same) r)
    | inr other ↦ rw other (h d)
  ])

  -- The redirect of an entry point is kept.
  pub redirect-IsLoaded :
      (e : Str) (m : Middleware R) (s : Loading R T)
      → IsRedirectOf e (some m)
      → IsLoaded s
      → IsLoaded (record s { redirect_handlers = insert e m s.redirect_handlers })
  redirect-IsLoaded e m s r h = record {
    built = h.built;
    wired = h.wired;
    redirected = IsRedirectOf-insert s.redirect_handlers e m r h.redirected;
  }

  add_entry_wired :
      (rs : List (Str × List (Entry R T))) (bs : List (Str × Chain R)) (e : Str) (x : Entry R T)
      → WiredEntry bs e x
      → ((e' : Str) → All (WiredEntry bs e') (or_empty (lookup e' rs)))
      → (e' : Str)
      → All
          (WiredEntry bs e')
          (or_empty (lookup e' (insert e (or_empty (lookup e rs) ++ x ∷ []) rs)))
  add_entry_wired rs bs e x w h e' =
      rw (lookup-insert e' e (or_empty (lookup e rs) ++ x ∷ []) rs)
        (elim (Bool-cases (equal e e')) [
          | inl same ↦ rw same (
              subst (λ d. All (WiredEntry bs d) (or_empty (lookup e rs) ++ x ∷ []))
                ((equal_iff e e').0 same)
                (All-append (WiredEntry bs e) (or_empty (lookup e rs)) (x ∷ []) (h e) (w, tt)))
          | inr other ↦ rw other (h e')
        ])

  pub add_entry-IsLoaded :
      (e : Str) (x : Entry R T) (s : Loading R T)
      → WiredEntry s.backends e x
      → IsLoaded s
      → IsLoaded (add_entry e x s)
  unfolding add_entry
  add_entry-IsLoaded e x s w h = record {
    built = h.built;
    wired = add_entry_wired s.routers s.backends e x w h.wired;
    redirected = h.redirected;
  }
