-- ===== src/Http/Request.antt =====
-- struct http_request of src/http.h, `init_http_request` and `parse_http_request` of src/http.c.
-- Memory is found. The copies that the source leaks or frees are not kept track of.
pub mod HeaderEnd
pub mod Written
pub mod RoundTrip
pub mod Headless
pub mod Total
use http_web_server_c.Http.Headers.{Header}
use http_web_server_c.Http.Names.{parse_http_version, parse_http_method, Method, Version}
use http_web_server_c.Http.Query.{parse_query_parameters, QueryParameters}
use http_web_server_c.CString.Search.{crlf}
use http_web_server_c.Http.HeaderBlock.{parse_http_headers}
use http_web_server_c.Table.{Table}
use http_web_server_c.Base.{
  ℕ, zero, suc, ◌+◌, ◌-◌, ◌*◌, ◌≤◌, ◌<◌, ◌≡◌, refl, sym, ap, ◌∙◌, ◌≢◌, ◌↔◌, ◌⊎◌, inl, inr, Bool,
  true, false, not, ◌&&◌, ◌||◌, Option, none, some, List, [], ◌∷◌, ◌++◌, append-nil, append_assoc,
  arith, ◌==◌, ltb, leb, if◌then◌else◌, Bool-cases, Option-cases, length, take, drop, length-append,
  drop-append, drop-append_add, take-append, Outcome, ok, fault, abort, timeout, ◌>>=◌,
}
use http_web_server_c.CString.{Bytes, strstr, strchr}

pub record HttpRequest : Type 0 where
  pub headers : Table Header
  pub method : Method
  pub version : Version
  pub body : Option Bytes
  pub path : Option Bytes
  pub query_parameters : QueryParameters

-- `none` is the result -1, for a null pointer in place of the request.
unfoldable pub init_http_request :
    Bool
    → Table Header
    → Method
    → Version
    → Option Bytes
    → Option Bytes
    → QueryParameters
    → Option HttpRequest
init_http_request is_null headers method version body path query_parameters =
    if is_null
    then none
    else some (record {
      headers = headers;
      method = method;
      version = version;
      body = body;
      path = path;
      query_parameters = query_parameters;
    })

abbrev pub crlf_crlf : Bytes
crlf_crlf = 13 ∷ 10 ∷ 13 ∷ 10 ∷ []

-- `struct http_query_parameters http_query_parameters = {};`
abbrev pub no_query : QueryParameters
no_query = record { size = 0; slots = 0; items = [] }

abbrev pub parse_query : Option Bytes → Outcome QueryParameters
parse_query none = ok no_query
parse_query (some q) = parse_query_parameters q

-- The path and the query, for what `strchr(path_with_query + 1, '?')` finds in `p`.
abbrev cut_query : ℕ → Bytes → Option ℕ → Bytes × Option Bytes
cut_query c p none = (c ∷ p, none)
cut_query c p (some n) = (c ∷ take n p, some (drop (n + 1) p))

abbrev cut_version : Bytes → Option ℕ → Bytes × Option Bytes
cut_version version none = ([], none)
cut_version version (some n) = ([], some (drop (n + 1) version))

-- With an empty path the search begins behind its terminator, in the version.
unfoldable pub split_query : Bytes → Bytes → Bytes × Option Bytes
split_query [] version = cut_version version (strchr version b'?')
split_query (c ∷ p) version = cut_query c p (strchr p b'?')

-- From `header_start + 2` on.
abbrev pub parse_rest :
    Method → Version → Bytes × Option Bytes → Bytes → Option ℕ → Outcome (Option HttpRequest)
parse_rest method version (path, query) header_start none = ok none
parse_rest method version (path, query) header_start (some b) = do
  headers ← parse_http_headers (take (b + 2) header_start)
  parameters ← parse_query query
  ok (
      init_http_request false headers method version (some (drop (b + 4) header_start)) (some path)
        parameters)

abbrev pub with_version : Bytes → Bytes → Bytes → Option ℕ → Outcome (Option HttpRequest)
with_version header_start method target none = ok none
with_version header_start method target (some k) =
    let version = drop (k + 1) target in
    parse_rest (parse_http_method method) (parse_http_version version)
      (split_query (take k target) version) header_start (strstr header_start crlf_crlf)

abbrev pub with_method : Bytes → Bytes → Option ℕ → Outcome (Option HttpRequest)
with_method header_start line none = ok none
with_method header_start line (some j) =
    let target = drop (j + 1) line in
    with_version header_start (take j line) target (strstr target (b' ' ∷ []))

abbrev pub with_line : Bytes → Option ℕ → Outcome (Option HttpRequest)
with_line request none = ok none
with_line request (some i) =
    let line = take i request in with_method (drop (i + 2) request) line (strstr line (b' ' ∷ []))

-- `none` is NULL.
unfoldable pub parse_http_request : Bytes → Outcome (Option HttpRequest)
unfolding init_http_request split_query
parse_http_request request = with_line request (strstr request crlf)
