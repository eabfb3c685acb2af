-- ===== src/Runner/Handlers.antt =====
-- What `respond` promises for the callbacks of its routes, and what it makes of that: an answer to any
-- text.
pub mod Handled
use http_web_server_c.Base.{
  ℕ, zero, suc, ◌+◌, ◌-◌, ◌*◌, ◌≤◌, ◌<◌, ◌≡◌, refl, sym, ap, ◌∙◌, ◌≢◌, ◌↔◌, ◌⊎◌, inl, inr, Bool,
  true, false, not, ◌&&◌, ◌||◌, Option, none, some, List, [], ◌∷◌, ◌++◌, append-nil, append_assoc,
  arith, ◌==◌, ltb, leb, if◌then◌else◌, Bool-cases, Option-cases, length, take, drop, length-append,
  drop-append, drop-append_add, take-append, Outcome, ok, fault, abort, timeout, ◌>>=◌, ℤ, pos,
  negsuc, get_elem?, Ends-of_Ensures, Ends-bind, Ends,
}
use http_web_server_c.Runner.Dispatch.{
  at_path, choose, routed, or_500, respond, send_response, with_icon,
}
use http_web_server_c.Http.Headers.{key_is_like}
use http_web_server_c.Http.Routes.{route_matches, Route}
use http_web_server_c.Http.Routes.Laws.{find_route-IsValid}
use http_web_server_c.Runner.Dispatch.Answered.{
  file_response-headers, get_static_file_lem, access_table, access_table-IsValid, prepared_lem,
  response_text,
}
use http_web_server_c.Table.Laws.{find?, IsValid}
use http_web_server_c.Http.Headers.Laws.{updated-IsValid, insert_header_lem}
use http_web_server_c.Http.Names.{
  http_no_content, http_options, method_eq, http_internal_server_error, StatusCode,
}
use http_web_server_c.CString.{codes, str_eq, Bytes}
use http_web_server_c.Http.Request.{parse_http_request, HttpRequest}
use http_web_server_c.Runner.Answers.{file_response, prepared, FileAnswer}
use http_web_server_c.Http.Response.Printing.{http_response_stringify_lem}
use http_web_server_c.Table.{Table}
use http_web_server_c.Http.Response.{HttpResponse}
use http_web_server_c.Http.Request.Total.{IsReceived, parse_http_request_total}
use mathlib.Core.Path.{subst}

-- NULL, or a response whose headers are a valid table.
abbrev pub HasHeaders : Option HttpResponse → Type 0
HasHeaders none = Unit
HasHeaders (some r) = IsValid r.headers

-- Callbacks that end, keep what they promise of the state that they share, and answer with valid
-- headers or NULL.
pub record Handlers (S C : Type 0) : Type 1 where
  pub answer : C → S → HttpRequest → Outcome (S × Option HttpResponse)
  pub Invariant : S → Type 0
  pub keeps :
      (c : C) (s : S) (r : HttpRequest)
      → Invariant s
      → Ends (λ (t : S × Option HttpResponse). Invariant t.0 × HasHeaders t.1) (answer c s r)

-- The text of some response.
abbrev pub IsAnswer : Bytes → Type 0
IsAnswer text = (r : HttpResponse) × IsValid r.headers × (text ≡ response_text r)

module _ {S C : Type 0} (h : Handlers S C) (files : Bytes → FileAnswer) where
  -- A state that keeps the promise, with a response that can be sent.
  abbrev pub Chosen : S × HttpResponse → Type 0
  Chosen (s, r) = h.Invariant s × IsValid r.headers

  abbrev pub Replied : S × Bytes → Type 0
  Replied (s, text) = h.Invariant s × IsAnswer text

  prepared-Chosen :
      (s : S) (c : StatusCode) → h.Invariant s → Ends Chosen (prepared c >>= λ r. ok (s, r))
  prepared-Chosen s c i = rw (prepared_lem c) (i, access_table-IsValid 8 (omega arith))

  or_500-Chosen :
      (t : S × Option HttpResponse)
      → h.Invariant t.0 × HasHeaders t.1
      → Ends Chosen (or_500 h.answer files t)
  or_500-Chosen (s, none) (i, v) = prepared-Chosen s http_internal_server_error i
  or_500-Chosen (s, some r) (i, v) = (i, v)

  with_icon-Chosen :
      (s : S) (path : Bytes) (r : HttpResponse)
      → h.Invariant s
      → IsValid r.headers
      → Ends Chosen (with_icon h.answer files path r >>= λ r'. ok (s, r'))
  with_icon-Chosen s path r i v = elim (Bool-cases (str_eq path (codes "/favicon.ico"))) [
    | inr e ↦ rw e (i, v)
    | inl e ↦
        let key = codes "Content-Type" in
        let value = codes "image/x-icon" in
        rw (e, insert_header_lem r.headers key value v)
          (i, updated-IsValid r.headers key value (find? (key_is_like key) r.headers.items) v)
  ]

  routed-Chosen :
      (dir : Bytes) (s : S) (request : HttpRequest) (path : Bytes) (o : Option (Route C))
      → h.Invariant s
      → Ends Chosen (routed h.answer files dir s request path o)
  routed-Chosen dir s request path none i =
      let r = file_response (access_table 4) (files (dir ++ path)) in
      rw (get_static_file_lem files (dir ++ path)) (
        with_icon-Chosen s path r i (
          subst IsValid (sym (file_response-headers (access_table 4) (files (dir ++ path))))
            (access_table-IsValid 4 (omega arith))))
  routed-Chosen dir s request path (some r) i =
      Ends-bind (λ (t : S × Option HttpResponse). h.Invariant t.0 × HasHeaders t.1) Chosen
        (h.answer r.callback s request) (or_500 h.answer files) (h.keeps r.callback s request i)
        or_500-Chosen

  at_path-Chosen :
      (routes : Table (Route C)) (dir : Bytes) (s : S) (request : HttpRequest) (o : Option Bytes)
      → IsValid routes
      → h.Invariant s
      → Ends Chosen (at_path h.answer files routes dir s request o)
  at_path-Chosen routes dir s request none v i = tt
  at_path-Chosen routes dir s request (some path) v i =
      rw (find_route-IsValid routes path request.method v) (
        routed-Chosen dir s request path (find? (route_matches path request.method) routes.items) i)

  choose-Chosen :
      (routes : Table (Route C)) (dir : Bytes) (s : S) (o : Option HttpRequest)
      → IsValid routes
      → h.Invariant s
      → Ends Chosen (choose h.answer files routes dir s o)
  choose-Chosen routes dir s none v i = prepared-Chosen s http_internal_server_error i
  choose-Chosen routes dir s (some request) v i =
      elim (Bool-cases (method_eq request.method http_options)) [
        | inl e ↦ rw e (prepared-Chosen s http_no_content i)
        | inr e ↦ rw e (at_path-Chosen routes dir s request request.path v i)
      ]

  pub send_response-Replied :
      (t : S × HttpResponse) → Chosen t → Ends Replied (send_response h.answer files t)
  send_response-Replied (s, r) (i, v) = rw (http_response_stringify_lem r v) (i, (r, v, refl))

  -- When the callbacks end, keep their promise of the shared state, and answer with valid headers or
  -- NULL, and the table of routes is valid, then for every text, a request or not, `respond` ends too.
  -- Where it returns, the state keeps the promise, and what is sent is the text of a response.
  pub respond_total :
      (routes : Table (Route C)) (dir : Bytes) (s : S) (text : Bytes)
      → IsValid routes
      → h.Invariant s
      → Ends Replied (respond h.answer files routes dir s text)
  unfolding respond
  respond_total routes dir s text v i =
      Ends-bind (IsReceived text) Replied (parse_http_request text) _
        (Ends-of_Ensures (IsReceived text) (parse_http_request text)
          (parse_http_request_total text))
        (λ o w.
          Ends-bind Chosen Replied (choose h.answer files routes dir s o)
            (send_response h.answer files) (choose-Chosen routes dir s o v i) send_response-Replied)
