-- ===== src/Http/Request/RoundTrip.antt =====
-- `parse_http_request` reads a printed request back.
use http_web_server_c.Base.{
  ℕ, ◌+◌, ◌≡◌, refl, true, Option, none, some, List, ◌∷◌, ◌++◌, append-nil, arith, length, take,
  drop, length-append, drop-append_add, take-append, ok,
}
use http_web_server_c.Http.Request.Written.{
  print_request, start_line, target, IsWritten, all_headers, kept, print_target_query, QueryIsValid,
  Written,
}
use http_web_server_c.CString.Search.{
  lacks, Lacks-lacks, strstr_byte, strstr-crlf, Lacks-append, strchr_lem, strchr-none, Lacks,
}
use http_web_server_c.Table.Laws.{IsValid}
use http_web_server_c.Http.Headers.Printing.{length-header_line}
use http_web_server_c.Http.Headers.{header_line, header_lines, Header}
use http_web_server_c.Http.Names.{
  http_get, http_1_0, parse_http_version-stringify, parse_http_method-stringify,
  http_method_stringify, http_version_stringify, Method, Version,
}
use http_web_server_c.Http.Request.HeaderEnd.{strstr-header_lines, header_end}
use http_web_server_c.Http.HeaderBlock.RoundTrip.{parse_http_headers-print}
use http_web_server_c.Http.Request.{
  parse_rest, with_line, with_method, with_version, HttpRequest, init_http_request,
  parse_http_request, parse_query, split_query,
}
use http_web_server_c.Http.HeaderBlock.{parse_http_headers}
use http_web_server_c.Http.Query.RoundTrip.{parse_query_parameters-print, print_query, Pair}
use http_web_server_c.Table.{Table}
use http_web_server_c.CString.{Bytes}

lacks-http_method_stringify :
    (m : Method)
    → (lacks b' ' (http_method_stringify m) ≡ true) × (lacks 13 (http_method_stringify m) ≡ true)
unfolding http_method_stringify
lacks-http_method_stringify http_get = (refl, refl)
lacks-http_method_stringify _ = (refl, refl)

method-token :
    (m : Method) → Lacks b' ' (http_method_stringify m) × Lacks 13 (http_method_stringify m)
method-token m =
    let s = http_method_stringify m in
    let (a, b) = lacks-http_method_stringify m in (Lacks-lacks b' ' s a, Lacks-lacks 13 s b)

lacks-http_version_stringify :
    (v : Version)
    → (lacks b' ' (http_version_stringify v) ≡ true) × (lacks 13 (http_version_stringify v) ≡ true)
unfolding http_version_stringify
lacks-http_version_stringify http_1_0 = (refl, refl)
lacks-http_version_stringify _ = (refl, refl)

version-token :
    (v : Version) → Lacks b' ' (http_version_stringify v) × Lacks 13 (http_version_stringify v)
version-token v =
    let s = http_version_stringify v in
    let (a, b) = lacks-http_version_stringify v in (Lacks-lacks b' ' s a, Lacks-lacks 13 s b)

split_query-target :
    (c : ℕ) (p : Bytes) (q : Option (List Pair)) (version : Bytes)
    → Lacks b'?' p
    → QueryIsValid q
    → (s : Option Bytes) × (split_query (c ∷ (p ++ print_target_query q)) version ≡ (c ∷ p, s))
      × (parse_query s ≡ ok (kept q))
unfolding split_query
split_query-target c p none version h w =
    (none, rw (append-nil p) (rw (strchr-none b'?' p h) refl), refl)
split_query-target c p (some ps) version h w = (
  some (print_query ps),
  ground (
    arith,
    strchr_lem b'?' p (print_query ps) h,
    take-append p (b'?' ∷ print_query ps),
    drop-append_add p (b'?' ∷ print_query ps) 1,
  ),
  parse_query_parameters-print ps w,
)

module _ (w : Written) where
  -- What the parser stores, with its table of headers.
  unfoldable pub stored : Table Header → HttpRequest
  stored t = record {
    headers = t;
    method = w.method;
    version = w.version;
    body = some w.body;
    path = some (w.path_start ∷ w.path_rest);
    query_parameters = kept w.query;
  }

  abbrev below : Bytes
  below = header_lines (all_headers w) ++ 13 ∷ 10 ∷ w.body

  abbrev lines : Bytes
  lines = header_lines (all_headers w)

  length-lines : header_end (all_headers w) + 2 ≡ length lines
  unfolding header_end
  length-lines = omega (
    arith,
    length-append (header_line w.first_header) (header_lines w.more_headers),
    length-header_line w.first_header,
  )

  take-lines : take (header_end (all_headers w) + 2) below ≡ lines
  take-lines = rw length-lines (take-append lines (13 ∷ 10 ∷ w.body))

  drop-lines : drop (header_end (all_headers w) + 4) below ≡ w.body
  drop-lines =
      let e : header_end (all_headers w) + 4 ≡ length lines + 2 = omega (arith, length-lines) in
      rw e (drop-append_add lines (13 ∷ 10 ∷ w.body) 2)

  parse_rest-written :
      (t : Table Header) (s : Option Bytes)
      → parse_http_headers lines ≡ ok t
      → parse_query s ≡ ok (kept w.query)
      → parse_rest w.method w.version
          (w.path_start ∷ w.path_rest, s)
          below
          (some (header_end (all_headers w)))
        ≡ ok (some (stored t))
  unfolding stored init_http_request
  parse_rest-written t s et es = rw (take-lines, drop-lines, et, es)

  with_version-written :
      (t : Table Header)
      → IsWritten w
      → parse_http_headers lines ≡ ok t
      → with_version below
          (http_method_stringify w.method)
          (target w ++ b' ' ∷ http_version_stringify w.version)
          (some (length (target w)))
        ≡ ok (some (stored t))
  with_version-written t v et =
      let vs = http_version_stringify w.version in
      let (s, split, parsed) =
        split_query-target w.path_start w.path_rest w.query vs v.no_question v.pairs in
      rw
        (
          drop-append_add (target w) (b' ' ∷ vs) 1,
          take-append (target w) (b' ' ∷ vs),
          parse_http_method-stringify w.method,
          parse_http_version-stringify w.version,
          split,
          strstr-header_lines w.first_header w.more_headers w.body v.headers,
        )
        (parse_rest-written t s et parsed)

  with_method-written :
      (t : Table Header)
      → IsWritten w
      → parse_http_headers lines ≡ ok t
      → with_method below (start_line w) (some (length (http_method_stringify w.method)))
        ≡ ok (some (stored t))
  with_method-written t v et =
      let ms = http_method_stringify w.method in
      let rest = target w ++ b' ' ∷ http_version_stringify w.version in
      rw
        (
          drop-append_add ms (b' ' ∷ rest) 1,
          take-append ms (b' ' ∷ rest),
          strstr_byte b' ' (target w) (http_version_stringify w.version) v.no_blank,
        )
        (with_version-written t v et)

  start_line-no_return : IsWritten w → Lacks 13 (start_line w)
  start_line-no_return v =
      Lacks-append 13 (http_method_stringify w.method) _ (method-token w.method).1
        (refl, Lacks-append 13 (target w) _ v.no_return (refl, (version-token w.version).1))

  with_line-written :
      (t : Table Header)
      → IsWritten w
      → parse_http_headers lines ≡ ok t
      → with_line (print_request w) (some (length (start_line w))) ≡ ok (some (stored t))
  with_line-written t v et =
      rw
        (
          drop-append_add (start_line w) (13 ∷ 10 ∷ below) 2,
          take-append (start_line w) (13 ∷ 10 ∷ below),
          strstr_byte b' ' (http_method_stringify w.method) _ (method-token w.method).0,
        )
        (with_method-written t v et)

  -- The text of a request (a method, a path with or without a query of well-formed pairs, a version,
  -- at least one well-formed header, and any body) is parsed, with no undefined behaviour, to a
  -- request with that method, path, version, body and those headers in a valid table; its query
  -- parameters are the pairs in order, or none where there are more than ten. An empty body is
  -- stored as the empty text, where the comment of src/http.h says NULL.
  pub parse_http_request-print :
      IsWritten w
      → (t : Table Header) × (parse_http_request (print_request w) ≡ ok (some (stored t)))
        × IsValid t
        × (t.items ≡ all_headers w)
  unfolding parse_http_request
  parse_http_request-print v =
      let (t, et, valid, items) = parse_http_headers-print (all_headers w) v.headers in
      (
        t,
        rw (strstr-crlf (start_line w) below (start_line-no_return v)) (with_line-written t v et),
        valid,
        items,
      )
