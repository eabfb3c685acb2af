-- ===== src/Http/Request/Written.antt =====
-- A request as a client writes it.
use http_web_server_c.Base.{ℕ, Option, none, some, List, [], ◌∷◌, ◌++◌, leb, if◌then◌else◌, length}
use http_web_server_c.CString.Search.{Lacks}
use http_web_server_c.Http.Headers.{header_lines, Header}
use http_web_server_c.Http.Names.{http_method_stringify, http_version_stringify, Method, Version}
use http_web_server_c.Http.HeaderBlock.RoundTrip.{AllHeaders}
use http_web_server_c.Http.Query.RoundTrip.{parameters, AllPairs, print_query, Pair}
use http_web_server_c.Http.Query.{QueryParameters}
use http_web_server_c.CString.{Bytes}

-- A request as a client writes it. The path is its first byte and the rest; `query` is what stands
-- behind a '?', if there is one.
pub record Written : Type 0 where
  pub method : Method
  pub path_start : ℕ
  pub path_rest : Bytes
  pub query : Option (List Pair)
  pub version : Version
  pub first_header : Header
  pub more_headers : List Header
  pub body : Bytes

abbrev pub print_target_query : Option (List Pair) → Bytes
print_target_query none = []
print_target_query (some ps) = b'?' ∷ print_query ps

abbrev pub target : Written → Bytes
target w = w.path_start ∷ (w.path_rest ++ print_target_query w.query)

abbrev pub start_line : Written → Bytes
start_line w =
    http_method_stringify w.method ++ b' ' ∷ (target w ++ b' ' ∷ http_version_stringify w.version)

abbrev pub all_headers : Written → List Header
all_headers w = w.first_header ∷ w.more_headers

abbrev pub print_request : Written → Bytes
print_request w = start_line w ++ 13 ∷ 10 ∷ (header_lines (all_headers w) ++ 13 ∷ 10 ∷ w.body)

abbrev pub QueryIsValid : Option (List Pair) → Type 0
QueryIsValid none = Unit
QueryIsValid (some ps) = AllPairs ps

pub record IsWritten (w : Written) : Type 0 where
  pub no_blank : Lacks b' ' (target w)
  pub no_return : Lacks 13 (target w)
  pub no_question : Lacks b'?' w.path_rest
  pub pairs : QueryIsValid w.query
  pub headers : AllHeaders (all_headers w)

-- The parameters that the parser keeps.
abbrev pub kept : Option (List Pair) → QueryParameters
kept none = record { size = 0; slots = 0; items = [] }
kept (some ps) =
    if leb (length ps) 10
    then (record { size = length ps; slots = 10; items = parameters ps })
    else (record { size = 0; slots = 0; items = [] })
