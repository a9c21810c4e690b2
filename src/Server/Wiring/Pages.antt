-- ===== src/Server/Wiring/Pages.antt =====
-- server/server.go, `loadConfig`: the loop over the error pages, and the calls around it.
use fabric8_oso_proxy.Base.{
  suc, Option, none, some, List, [], ◌∷◌, ◌++◌, ◌≡◌, refl, sym, ap, arith, length, length-append,
}
use mathlib.Core.List.{append_assoc, append-nil}
use mathlib.Core.Path.{ap₂}
use fabric8_oso_proxy.Base.Maps.{insert}
use fabric8_oso_proxy.Base.Run.{pure, ◌>>=◌, done, after}
use fabric8_oso_proxy.Base.Strings.{Str}
use fabric8_oso_proxy.Middlewares.ErrorPages
use fabric8_oso_proxy.Server.Wiring.{
  ErrorPage, Configuration, error_page, HealthOptions, Loading, or_skip,
}
use fabric8_oso_proxy.Server.Wiring.Chains.{error_handler, page_link, error_links, add_health_check}
use fabric8_oso_proxy.Server.Wiring.Made.{wanted, page_handlers, page_links}

module _ {R T : Type 0} where
  pub or_skip-eq-done :
      {A : Type 0} (o : Option A) {a : A} {s t : Loading R T}
      → or_skip o s ≡ done a t
      → (o ≡ some a) × (s ≡ t)
  or_skip-eq-done none h = cc
  or_skip-eq-done (some b) h = (cc, cc)

  pub add_health_check-pages :
      (key : Str) (o : Option HealthOptions) {u : Unit {0}} (s t : Loading R T)
      → add_health_check key o s ≡ done u t
      → t.error_pages ≡ s.error_pages
  add_health_check-pages key none s t h =
      let same : s ≡ t = cc in ap (λ (x : Loading R T). x.error_pages) (sym same)
  add_health_check-pages key (some o) s t h =
      let same : record s { health_checks = insert key o s.health_checks } ≡ t = cc in
      ap (λ (x : Loading R T). x.error_pages) (sym same)

  page_link-error_links :
      {D B : Type 0} (e p : Str) (c : Configuration D B) (backend : Str)
      (pages : List (Str × ErrorPage)) (o : Option ErrorPages.Handler)
      → ((s : Loading R T)
          → error_links e p c backend pages s
            ≡ done
                (page_links (length s.error_pages) (page_handlers e p c backend pages))
                (record s { error_pages = s.error_pages ++ page_handlers e p c backend pages }))
      → (s : Loading R T)
      → after
          (page_link o s)
          (λ link. error_links e p c backend pages >>= λ links. pure (link ++ links))
        ≡ done
            (page_links (length s.error_pages) (wanted o (page_handlers e p c backend pages)))
            (record s {
              error_pages = s.error_pages ++ wanted o (page_handlers e p c backend pages);
            })
  page_link-error_links e p c backend pages none below s = rw (below s) refl
  page_link-error_links e p c backend pages (some h) below s =
      let next : length (s.error_pages ++ h ∷ []) ≡ suc (length s.error_pages) =
        omega (arith, length-append s.error_pages (h ∷ [])) in
      rw (below (record s { error_pages = s.error_pages ++ h ∷ [] })) (
        ap₂
          (λ n ps.
            done
              (error_page (length s.error_pages) ∷ page_links n (page_handlers e p c backend pages))
              (record s { error_pages = ps }))
          next (append_assoc s.error_pages (h ∷ []) (page_handlers e p c backend pages)))

  -- The loop over the error pages adds their handlers to `errorPages`, and links to their places.
  pub error_links_lem :
      {D B : Type 0} (e p : Str) (c : Configuration D B) (backend : Str)
      (pages : List (Str × ErrorPage)) (s : Loading R T)
      → error_links e p c backend pages s
        ≡ done
            (page_links (length s.error_pages) (page_handlers e p c backend pages))
            (record s { error_pages = s.error_pages ++ page_handlers e p c backend pages })
  unfolding error_links
  error_links_lem e p c backend [] s =
      ap (λ ps. done [] (record s { error_pages = ps })) (sym (append-nil s.error_pages))
  error_links_lem e p c backend ((_, page) ∷ pages) s =
      page_link-error_links e p c backend pages (error_handler e p c backend page)
        (error_links_lem e p c backend pages) s
