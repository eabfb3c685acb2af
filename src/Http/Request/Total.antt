-- ===== src/Http/Request/Total.antt =====
-- `parse_http_request` on any text.
use http_web_server_c.Http.HeaderBlock.{parse_http_headers}
use http_web_server_c.Http.Request.{
  crlf_crlf, split_query, parse_rest, HttpRequest, parse_query, with_line, with_method,
  with_version, init_http_request, parse_http_request,
}
use http_web_server_c.Base.{
  Ensures-bind, Ensures, ℕ, zero, suc, ◌+◌, ◌≡◌, refl, sym, ap, ◌∙◌, inr, Option, none, some, [],
  ◌∷◌, ◌++◌, append_assoc, take, drop, Outcome, ok, fault, abort, timeout,
}
use http_web_server_c.Http.Names.{parse_http_version, Version, parse_http_method, Method}
use http_web_server_c.CString.Search.{crlf}
use http_web_server_c.Http.Query.{parse_query_parameters}
use http_web_server_c.CString.{strstr, Bytes}
use http_web_server_c.Http.HeaderBlock.Total.{IsParsed, parse_http_headers_total}
use http_web_server_c.Http.Query.Total.{IsResult, Returns, parse_query_parameters_total}

-- A request that was read from the text: its headers are a valid table, or the result of a failure, and so
-- are its query parameters; it has a path, and its body is the end of the text.
pub record IsRead (text : Bytes) (r : HttpRequest) : Type 0 where
  pub headers : IsParsed r.headers
  pub query_parameters : IsResult r.query_parameters
  pub path : Bytes
  pub has_path : r.path ≡ some path
  pub front : Bytes
  pub body : Bytes
  pub has_body : r.body ≡ some body
  pub ends_text : text ≡ front ++ body

abbrev pub IsReceived : Bytes → Option HttpRequest → Type 0
IsReceived text none = Unit
IsReceived text (some r) = IsRead text r

Ensures-of_Returns {ℓ} : {A : Type ℓ} (P : A → Type 0) (m : Outcome A) → Returns P m → Ensures P m
Ensures-of_Returns P (ok a) h = h
Ensures-of_Returns P fault h = tt
Ensures-of_Returns P abort h = h
Ensures-of_Returns P timeout h = h

parse_query_total : (o : Option Bytes) → Ensures IsResult (parse_query o)
parse_query_total none = inr refl
parse_query_total (some q) =
    Ensures-of_Returns IsResult (parse_query_parameters q) (parse_query_parameters_total q)

dropped : (n : ℕ) (s : Bytes) → s ≡ take n s ++ drop n s
dropped zero s = refl
dropped (suc n) [] = refl
dropped (suc n) (c ∷ s) = ap (◌∷◌ c) (dropped n s)

-- The end of an end of a text.
end_of_end :
    (i n : ℕ) (text : Bytes) → text ≡ (take i text ++ take n (drop i text)) ++ drop n (drop i text)
end_of_end i n text =
    dropped i text
    ∙ ap (λ l. take i text ++ l) (dropped n (drop i text))
    ∙ sym (append_assoc (take i text) (take n (drop i text)) (drop n (drop i text)))

parse_rest_total :
    (method : Method) (version : Version) (target : Bytes × Option Bytes) (text : Bytes) (i : ℕ)
    (o : Option ℕ)
    → Ensures (IsReceived text) (parse_rest method version target (drop i text) o)
unfolding init_http_request
parse_rest_total method version (path, query) text i none = tt
parse_rest_total method version (path, query) text i (some b) =
    Ensures-bind IsParsed (IsReceived text) (parse_http_headers (take (b + 2) (drop i text))) _
      (parse_http_headers_total (take (b + 2) (drop i text)))
      (λ headers h.
        Ensures-bind IsResult (IsReceived text) (parse_query query) _ (parse_query_total query)
          (λ parameters q. record {
            headers = h;
            query_parameters = q;
            path = path;
            has_path = refl;
            front = take i text ++ take (b + 4) (drop i text);
            body = drop (b + 4) (drop i text);
            has_body = refl;
            ends_text = end_of_end i (b + 4) text;
          }))

with_version_total :
    (text method target : Bytes) (i : ℕ) (o : Option ℕ)
    → Ensures (IsReceived text) (with_version (drop i text) method target o)
with_version_total text method target i none = tt
with_version_total text method target i (some k) =
    parse_rest_total (parse_http_method method) (parse_http_version (drop (k + 1) target))
      (split_query (take k target) (drop (k + 1) target)) text i (strstr (drop i text) crlf_crlf)

with_method_total :
    (text line : Bytes) (i : ℕ) (o : Option ℕ)
    → Ensures (IsReceived text) (with_method (drop i text) line o)
with_method_total text line i none = tt
with_method_total text line i (some j) =
    with_version_total text (take j line) (drop (j + 1) line) i
      (strstr (drop (j + 1) line) (b' ' ∷ []))

with_line_total : (text : Bytes) (o : Option ℕ) → Ensures (IsReceived text) (with_line text o)
with_line_total text none = tt
with_line_total text (some i) =
    with_method_total text (take i text) (i + 2) (strstr (take i text) (b' ' ∷ []))

-- On every text `parse_http_request` ends and fails no assertion: it returns NULL, or a request with a
-- path, whose body is the end of the text, whose headers are a valid table or the cleared one of a
-- failure, and whose query parameters are an array of at most ten or the empty one of a failure, or its
-- behaviour is undefined.
pub parse_http_request_total : (text : Bytes) → Ensures (IsReceived text) (parse_http_request text)
unfolding parse_http_request
parse_http_request_total text = with_line_total text (strstr text crlf)
