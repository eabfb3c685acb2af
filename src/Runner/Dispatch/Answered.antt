-- ===== src/Runner/Dispatch/Answered.antt =====
-- What a client is answered: the bytes that `handle_http_request` sends for a request that is written
-- well, by its method and its route.
use http_web_server_c.Runner.Dispatch.{or_500, respond, send_response}
use http_web_server_c.Http.Names.{
  http_no_content, http_internal_server_error, http_options, Method, http_1_1, StatusCode,
  method_eq,
}
use http_web_server_c.Http.Request.RoundTrip.{parse_http_request-print, stored}
use http_web_server_c.Http.Request.Written.{all_headers, print_request, IsWritten, Written}
use http_web_server_c.Http.Routes.{find_route, Route}
use http_web_server_c.Base.{
  ℕ, ◌≤◌, ◌≡◌, refl, sym, ◌≢◌, inl, inr, false, Option, none, some, ◌∷◌, ◌++◌, arith, Bool-cases,
  Outcome, ok, ◌>>=◌,
}
use http_web_server_c.Table.{init, append, grow, scan, find, Table}
use http_web_server_c.CString.{to_lower, str_case_eq, str_eq, codes, Bytes}
use http_web_server_c.Http.Request.{parse_http_request, HttpRequest}
use http_web_server_c.Http.Response.Printing.{http_response_stringify_lem, status_line}
use http_web_server_c.CString.Search.{str_eq_iff}
use http_web_server_c.Http.Response.{text_of, HttpResponse}
use http_web_server_c.Http.Headers.{header_lines, Header, insert_header}
use http_web_server_c.Runner.Answers.{
  access_control, file_response, FileAnswer, get_static_file, prepared, missing, unreadable,
  content,
}
use http_web_server_c.Table.Laws.{IsValid}
use mathlib.Core.Path.{subst}

-- The table that the three insertions fill.
abbrev pub access_table : ℕ → Table Header
access_table n = record { size = 3; capacity = n; slots = n; items = access_control }

abbrev pub prepared_response : StatusCode → HttpResponse
prepared_response status_code = record {
  headers = access_table 8;
  status_code = status_code;
  http_version = http_1_1;
  body = none;
}

pub prepared_lem : (c : StatusCode) → prepared c ≡ ok (prepared_response c)
unfolding prepared insert_header find scan str_case_eq to_lower grow append init
prepared_lem c = refl

pub get_static_file_lem :
    (files : Bytes → FileAnswer) (p : Bytes)
    → get_static_file files p ≡ ok (file_response (access_table 4) (files p))
unfolding get_static_file insert_header find scan str_case_eq to_lower grow append init
get_static_file_lem files p = refl

pub access_table-IsValid : (n : ℕ) → 3 ≤ n → IsValid (access_table n)
access_table-IsValid n h = record {
  counted = refl;
  fits = h;
  room = refl;
  nonempty = omega (arith, h);
}

-- A response as it is sent.
abbrev pub response_text : HttpResponse → Bytes
response_text r =
    status_line r ++ 13 ∷ 10 ∷ (header_lines r.headers.items ++ 13 ∷ 10 ∷ text_of r.body)

abbrev pub path_of : Written → Bytes
path_of w = w.path_start ∷ w.path_rest

pub other_method : (m : Method) → m ≢ http_options → method_eq m http_options ≡ false
unfolding method_eq
other_method http_options h = absurd (h refl)
other_method _ h = refl

other_path : (p : Bytes) → p ≢ codes "/favicon.ico" → str_eq p (codes "/favicon.ico") ≡ false
other_path p h = elim (Bool-cases (str_eq p (codes "/favicon.ico"))) [
  | inl e ↦ absurd (h ((str_eq_iff p (codes "/favicon.ico")).0 e))
  | inr e ↦ e
]

pub file_response-headers : (t : Table Header) (f : FileAnswer) → (file_response t f).headers ≡ t
file_response-headers t missing = refl
file_response-headers t unreadable = refl
file_response-headers t (content b) = refl

module _ {S C : Type 0} (callback : C → S → HttpRequest → Outcome (S × Option HttpResponse))
    (files : Bytes → FileAnswer) (routes : Table (Route C)) (dir : Bytes) (s : S) where
  pub send_response_lem :
      (u : S) (r : HttpResponse)
      → IsValid r.headers
      → send_response callback files (u, r) ≡ ok (u, response_text r)
  send_response_lem u r v = rw (http_response_stringify_lem r v) refl

  -- A text that is no request is answered with the status 500.
  pub respond_refused :
      (text : Bytes)
      → parse_http_request text ≡ ok none
      → respond callback files routes dir s text
        ≡ ok (s, response_text (prepared_response http_internal_server_error))
  unfolding respond
  respond_refused text e =
      rw (e, prepared_lem http_internal_server_error)
        (send_response_lem s (prepared_response http_internal_server_error)
          (access_table-IsValid 8 (omega arith)))

  -- A request with the method OPTIONS is answered with the status 204 and the three headers of access
  -- control, whatever its path is.
  pub respond_options :
      (w : Written)
      → IsWritten w
      → w.method ≡ http_options
      → respond callback files routes dir s (print_request w)
        ≡ ok (s, response_text (prepared_response http_no_content))
  unfolding respond stored method_eq
  respond_options w v e =
      let (t, run, valid, items) = parse_http_request-print w v in
      rw (run, e, prepared_lem http_no_content)
        (send_response_lem s (prepared_response http_no_content)
          (access_table-IsValid 8 (omega arith)))

  -- A request whose path and method have no route gets the file whose name is `static_files_dir` and
  -- the path, one behind the other, as it is: with the status 200 and the bytes of the file up to the
  -- first 0, or with the status 404 where there is no such file. Segments ".." of the path are kept.
  pub respond_static :
      (w : Written)
      → IsWritten w
      → w.method ≢ http_options
      → path_of w ≢ codes "/favicon.ico"
      → find_route routes (path_of w) w.method ≡ ok none
      → respond callback files routes dir s (print_request w)
        ≡ ok (s, response_text (file_response (access_table 4) (files (dir ++ path_of w))))
  unfolding respond stored
  respond_static w v m p e =
      let (t, run, valid, items) = parse_http_request-print w v in
      let r = file_response (access_table 4) (files (dir ++ path_of w)) in
      rw
        (
          run,
          other_method w.method m,
          e,
          get_static_file_lem files (dir ++ path_of w),
          other_path (path_of w) p,
        )
        (send_response_lem s r (
          subst IsValid (sym (file_response-headers (access_table 4) (files (dir ++ path_of w))))
            (access_table-IsValid 4 (omega arith))))

  -- A request that a route is found for gets what the callback of the route answers to it, with its
  -- method, version, path, query, body and headers, or the status 500 where that is NULL.
  pub respond_routed :
      (w : Written) (r : Route C)
      → IsWritten w
      → w.method ≢ http_options
      → find_route routes (path_of w) w.method ≡ ok (some r)
      → (t : Table Header) × IsValid t
        × (t.items ≡ all_headers w)
        × (respond callback files routes dir s (print_request w) ≡ (
            callback r.callback s (stored w t)
            >>= or_500 callback files
            >>= send_response callback files))
  unfolding respond stored
  respond_routed w r v m e =
      let (t, run, valid, items) = parse_http_request-print w v in
      (t, valid, items, rw (run, other_method w.method m, e) refl)
