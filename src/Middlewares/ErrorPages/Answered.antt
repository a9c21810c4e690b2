-- ===== src/Middlewares/ErrorPages/Answered.antt =====
-- middlewares/errorpages/error_pages.go: which answer the client gets, where nothing is streamed.
use fabric8_oso_proxy.Base.{
  ℕ, Bool, true, false, Option, none, some, List, [], ◌∷◌, ◌++◌, ◌≡◌, ◌⊎◌, refl, sym, ap, ◌∙◌, map,
  All, if◌then◌else◌, Bool-cases, inl, inr,
}
use mathlib.Core.List.{append_assoc, append-nil}
use fabric8_oso_proxy.Base.Strings.{Str, equal}
use fabric8_oso_proxy.Net.Header
use fabric8_oso_proxy.Net.Header.{Header}
use fabric8_oso_proxy.Types.StatusCodes.{
  Block, contains, new_http_code_ranges, print_block, IsBlock, IsWithin,
  new_http_code_ranges-print_block, contains_iff,
}
use fabric8_oso_proxy.Middlewares.ErrorPages.{
  Call, add_header, write_header, write, flush, Effect, Recorder, new_recorder, Writer, on_recorder,
  record_calls, Handler, new_handler, post_load, Pages, page_query, answer, answer_recorded,
  unrecorded_calls, with_ranges, serve,
}

abbrev pub is_flush : Call → Bool
is_flush flush = true
is_flush _ = false

abbrev pub NoFlush : List Call → Type 0
NoFlush cs = All (λ c. is_flush c ≡ false) cs

-- The last status that the calls write, or the one from before.
abbrev pub status_of : ℕ → List Call → ℕ
status_of code [] = code
status_of code (write_header c ∷ cs) = status_of c cs
status_of code (_ ∷ cs) = status_of code cs

abbrev pub body_of : List Call → Str
body_of [] = []
body_of (write s ∷ cs) = s ++ body_of cs
body_of (_ ∷ cs) = body_of cs

abbrev pub headers_of : Header → List Call → Header
headers_of h [] = h
headers_of h (add_header k v ∷ cs) = headers_of (Header.add h k v) cs
headers_of h (_ ∷ cs) = headers_of h cs

-- What a recorder holds of such calls; nothing reaches the client.
record_calls_quiet :
    (fails : Writer) (cs : List Call) (r : Recorder)
    → NoFlush cs
    → r.failed ≡ false
    → record_calls fails cs r ≡ (record r {
      code = status_of r.code cs;
      header_map = headers_of r.header_map cs;
      body = r.body ++ body_of cs;
    })
unfolding record_calls on_recorder
record_calls_quiet fails [] r h fine = λ j. record r { body = sym (append-nil r.body) j }
record_calls_quiet fails (add_header k v ∷ cs) r (_, h) fine =
    record_calls_quiet fails cs (record r { header_map = Header.add r.header_map k v }) h fine
record_calls_quiet fails (write_header c ∷ cs) r (_, h) fine =
    record_calls_quiet fails cs (record r { code = c }) h fine
record_calls_quiet fails (write s ∷ cs) r (_, h) fine =
    ap (λ b. record_calls fails cs (if b then r else record r { body = r.body ++ s })) fine
    ∙ record_calls_quiet fails cs (record r { body = r.body ++ s }) h fine
    ∙ (λ j. record r {
      code = status_of r.code cs;
      header_map = headers_of r.header_map cs;
      body = append_assoc r.body s (body_of cs) j;
    })
record_calls_quiet fails (flush ∷ cs) r (e, _) fine = cc

-- The response that the calls of a handler make.
abbrev pub response : List Call → List Effect
response cs = answer (headers_of [] cs) (status_of 200 cs) (body_of cs)

-- The page of the backend, with the status that it replaces.
abbrev pub page_response : List Call → ℕ → List Effect
page_response cs code = answer (headers_of [] cs) code (body_of cs)

recorded : List Call → Recorder
recorded cs = record new_recorder {
  code = status_of 200 cs;
  header_map = headers_of [] cs;
  body = body_of cs;
}

module _ (pages : Pages) (fails : Writer) (next : List Call) (page : Str → List Call) where
  abbrev pub page_url : Handler → Str
  page_url h = h.backend_url ++ page_query pages h (status_of 200 next)

  -- The handler with a backend, on calls that do not flush.
  answer_quiet :
      (h : Handler)
      → NoFlush next
      → ((url : Str) → NoFlush (page url))
      → pages.request_fails (page_url h) ≡ false
      → answer_recorded pages fails next page h (record_calls fails next new_recorder) ≡ (
          if contains h.ranges (status_of 200 next)
          then page_response (page (page_url h)) (status_of 200 next)
          else response next)
  answer_quiet h quiet quiet_page fine =
      rw (record_calls_quiet fails next new_recorder quiet refl) (
        rw fine (
          rw
            (record_calls_quiet fails (page (page_url h)) new_recorder (quiet_page (page_url h))
              refl)
            refl))

  serve_quiet :
      (h : Handler)
      → NoFlush next
      → ((url : Str) → NoFlush (page url))
      → h.has_backend ≡ true
      → pages.request_fails (page_url h) ≡ false
      → serve pages fails next page h ≡ (
          if contains h.ranges (status_of 200 next)
          then page_response (page (page_url h)) (status_of 200 next)
          else response next)
  unfolding serve
  serve_quiet h quiet quiet_page given fine =
      ap
        (λ b.
          if b
          then answer_recorded pages fails next page h (record_calls fails next new_recorder)
          else unrecorded_calls next)
        given
      ∙ answer_quiet h quiet quiet_page fine

some_injective : {A : Type 0} {a b : A} → some a ≡ some b → a ≡ b
some_injective e = cc

with_ranges-eq-some :
    (name query : Str) (o : Option (List Block)) {h : Handler}
    → with_ranges name query o ≡ some h
    → o ≡ some h.ranges
with_ranges-eq-some name query none e = cc
with_ranges-eq-some name query (some ranges) e = cc

new_handler-ranges :
    (status : List Str) (query name : Str) {h : Handler}
    → new_handler status query name ≡ some h
    → new_http_code_ranges status ≡ some h.ranges
unfolding new_handler
new_handler-ranges status query name e = elim (Bool-cases (equal name [])) [
  | inl missing ↦ let never = (rw missing at e) in cc
  | inr named ↦ with_ranges-eq-some name query (new_http_code_ranges status) (rw named at e)
]

post_load-ranges : (given : Bool) (h : Handler) → (post_load given h).ranges ≡ h.ranges
unfolding post_load
post_load-ranges true h = refl
post_load-ranges false h = refl

post_load-has_backend : (given : Bool) (h : Handler) → (post_load given h).has_backend ≡ true
unfolding post_load
post_load-has_backend true h = refl
post_load-has_backend false h = refl

-- Take a handler made of blocks of statuses of type `int`, with a backend, where nothing is
-- flushed and the request for the page can be made. If the status of the response lies in one
-- of the blocks, the client gets that status with the headers and the body of the page;
-- otherwise it gets the response itself.
pub serve-new_handler :
    (pages : Pages) (fails : Writer) (next : List Call) (page : Str → List Call)
    (blocks : List Block) (query name : Str) (given : Bool) (h : Handler)
    → All IsBlock blocks
    → new_handler (map print_block blocks) query name ≡ some h
    → NoFlush next
    → ((url : Str) → NoFlush (page url))
    → pages.request_fails (page_url pages fails next page (post_load given h)) ≡ false
    → (IsWithin (status_of 200 next) blocks
        × (serve pages fails next page (post_load given h)
            ≡ page_response
                (page (page_url pages fails next page (post_load given h)))
                (status_of 200 next)))
      ⊎ ((¬ IsWithin (status_of 200 next) blocks)
          × (serve pages fails next page (post_load given h) ≡ response next))
serve-new_handler pages fails next page blocks query name given h i made quiet quiet_page fine =
    let loaded = post_load given h in
    let code = status_of 200 next in
    let served =
      serve_quiet pages fails next page loaded quiet quiet_page (post_load-has_backend given h)
        fine in
    let ranges : some loaded.ranges ≡ some blocks =
      ap some (post_load-ranges given h)
      ∙ sym (new_handler-ranges (map print_block blocks) query name made)
      ∙ new_http_code_ranges-print_block blocks i in
    let same : contains loaded.ranges code ≡ contains blocks code =
      ap (λ rs. contains rs code) (some_injective ranges) in
    elim (Bool-cases (contains blocks code)) [
      | inl within ↦ inl ((contains_iff blocks code).0 within, served ∙ rw (same, within) refl)
      | inr outside ↦
          inr (
            λ w. let never = (contains_iff blocks code).1 w in cc,
            served ∙ rw (same, outside) refl,
          )
    ]
