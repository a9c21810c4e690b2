-- ===== src/Middlewares/ErrorPages.antt =====
-- middlewares/errorpages/error_pages.go: the handler that answers chosen statuses with a page of
-- another backend. What the handlers do with their writers is given as a list of calls.
-- `utils.CopyHeaders`, `http.StatusText`, `url.Parse` and `strings.Replace` are parameters or effects.
pub mod Answered
use fabric8_oso_proxy.Base.{
  ℕ, Bool, true, false, not, Option, none, some, List, [], ◌∷◌, ◌++◌, if◌then◌else◌,
}
use fabric8_oso_proxy.Base.Decimal.{decimal}
use fabric8_oso_proxy.Base.Strings.{Str, codes, equal, trim_prefix}
use fabric8_oso_proxy.Net.Header
use fabric8_oso_proxy.Net.Header.{Header}
use fabric8_oso_proxy.Types.StatusCodes.{Block, contains, new_http_code_ranges}

pub data Call : Type 0 where
  add_header : Str → Str → Call
  write_header : ℕ → Call
  write : Str → Call
  flush : Call

-- What reaches the writer of the client; `headers_copied` is `utils.CopyHeaders(w.Header(), …)`.
pub data Effect : Type 0 where
  headers_copied : Header → Effect
  header_added : Str → Str → Effect
  header_written : ℕ → Effect
  written : Str → Effect
  flushed : Effect

-- `responseRecorderWithoutCloseNotify` and the effects on the writer behind it.
pub record Recorder : Type 0 where
  pub code : ℕ
  pub header_map : Header
  pub body : Str
  pub failed : Bool
  pub streaming_started : Bool
  pub effects : List Effect

-- `newResponseRecorder`
abbrev pub new_recorder : Recorder
new_recorder = record {
  code = 200;
  header_map = [];
  body = [];
  failed = false;
  streaming_started = false;
  effects = [];
}

-- Whether a write to the client fails, by what was done before.
abbrev pub Writer : Type 0
Writer = List Effect → Bool

-- The start of a streamed response in `Flush`.
abbrev pub start_streaming : Recorder → Recorder
start_streaming r = if r.streaming_started then r else record r {
  streaming_started = true;
  effects = r.effects ++ headers_copied r.header_map ∷ header_written r.code ∷ [];
}

module _ (fails : Writer) where
  -- The rest of `Flush`; the response writer flushes.
  abbrev pub flush_body : Recorder → Recorder
  flush_body r = record r {
    failed = if fails r.effects then true else r.failed;
    body = [];
    effects = r.effects ++ written r.body ∷ flushed ∷ [];
  }

  unfoldable pub on_recorder : Call → Recorder → Recorder
  on_recorder (add_header k v) r = record r { header_map = Header.add r.header_map k v }
  on_recorder (write_header c) r = record r { code = c }
  on_recorder (write s) r = if r.failed then r else record r { body = r.body ++ s }
  on_recorder flush r = flush_body (start_streaming r)

  unfoldable pub record_calls : List Call → Recorder → Recorder
  record_calls [] r = r
  record_calls (c ∷ cs) r = record_calls cs (on_recorder c r)

-- `Handler`, less the deprecated fallback.
pub record Handler : Type 0 where
  pub backend_name : Str
  pub has_backend : Bool
  pub ranges : List Block
  pub backend_url : Str
  pub backend_query : Str
  pub fallback_url : Str

abbrev pub with_ranges : Str → Str → Option (List Block) → Option Handler
with_ranges backend_name query none = none
with_ranges backend_name query (some ranges) = some (record {
  backend_name = backend_name;
  has_backend = false;
  ranges = ranges;
  backend_url = codes "http://0.0.0.0";
  backend_query = query;
  fallback_url = [];
})

-- `NewHandler`; `none` is an error.
unfoldable pub new_handler : List Str → Str → Str → Option Handler
new_handler status query backend_name =
    if equal backend_name []
    then none
    else with_ranges backend_name query (new_http_code_ranges status)

-- `PostLoad`, where `forward.New` succeeds.
unfoldable pub post_load : Bool → Handler → Handler
post_load backend_given h =
    if backend_given
    then record h { has_backend = true }
    else record h { has_backend = true; backend_url = h.fallback_url }

-- The libraries: `strings.Replace` of `{status}`, `http.StatusText`, and whether `newRequest` fails.
pub record Pages : Type 0 where
  pub replace_status : Str → Str → Str
  pub status_text : ℕ → Str
  pub request_fails : Str → Bool

unfoldable pub page_query : Pages → Handler → ℕ → Str
page_query pages h code =
    if not (equal h.backend_query [])
    then pages.replace_status (codes "/" ++ trim_prefix h.backend_query (codes "/")) (decimal code)
    else []

abbrev pub unrecorded : Call → Effect
unrecorded (add_header k v) = header_added k v
unrecorded (write_header c) = header_written c
unrecorded (write s) = written s
unrecorded flush = flushed

abbrev pub unrecorded_calls : List Call → List Effect
unrecorded_calls [] = []
unrecorded_calls (c ∷ cs) = unrecorded c ∷ unrecorded_calls cs

-- The three writes at the end of an answer.
abbrev pub answer : Header → ℕ → Str → List Effect
answer header code body = headers_copied header ∷ header_written code ∷ written body ∷ []

-- `next` is what the next handler does, and `page` what the backend does for a URL.
module _ (pages : Pages) (fails : Writer) (next : List Call) (page : Str → List Call) where
  abbrev pub answer_page : Handler → Recorder → Str → List Effect
  answer_page h r url =
      if pages.request_fails url
      then r.effects ++ header_written r.code ∷ written (pages.status_text r.code) ∷ []
      else let p = record_calls fails (page url) (record new_recorder { effects = r.effects }) in
        p.effects ++ answer p.header_map r.code p.body

  abbrev pub answer_recorded : Handler → Recorder → List Effect
  answer_recorded h r =
      if contains h.ranges r.code
      then answer_page h r (h.backend_url ++ page_query pages h r.code)
      else r.effects ++ answer r.header_map r.code r.body

  -- `ServeHTTP`: the effects on the client's writer.
  unfoldable pub serve : Handler → List Effect
  serve h =
      if h.has_backend
      then answer_recorded h (record_calls fails next new_recorder)
      else unrecorded_calls next
