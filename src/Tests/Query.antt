-- ===== src/Tests/Query.antt =====
-- Query texts.
use http_web_server_c.Base.{◌≡◌, refl, List, [], ◌∷◌, arith, ok}
use http_web_server_c.Http.Query.RoundTrip.{
  parse_query_parameters-print, parameters, AllPairs, IsToken, Pair,
}
use http_web_server_c.CString.Search.{Lacks-lacks}
use http_web_server_c.Http.Query.Total.{parse_query_parameters_total, IsResult, Returns}
use http_web_server_c.CString.{codes}
use http_web_server_c.Http.Query.{QueryParameters, parse_query_parameters}

abbrev id_pair : Pair
id_pair = record { name = codes "id"; content = codes "7" }

abbrev code_pair : Pair
code_pair = record { name = codes "code"; content = codes "x" }

id-IsToken : IsToken (codes "id")
id-IsToken = record {
  nonempty = λ e. ground (arith, e);
  no_equals = Lacks-lacks b'=' (codes "id") refl;
  no_ampersand = Lacks-lacks b'&' (codes "id") refl;
}

seven-IsToken : IsToken (codes "7")
seven-IsToken = record {
  nonempty = λ e. ground (arith, e);
  no_equals = Lacks-lacks b'=' (codes "7") refl;
  no_ampersand = Lacks-lacks b'&' (codes "7") refl;
}

code-IsToken : IsToken (codes "code")
code-IsToken = record {
  nonempty = λ e. ground (arith, e);
  no_equals = Lacks-lacks b'=' (codes "code") refl;
  no_ampersand = Lacks-lacks b'&' (codes "code") refl;
}

x-IsToken : IsToken (codes "x")
x-IsToken = record {
  nonempty = λ e. ground (arith, e);
  no_equals = Lacks-lacks b'=' (codes "x") refl;
  no_ampersand = Lacks-lacks b'&' (codes "x") refl;
}

abbrev pub two_pairs : List Pair
two_pairs = id_pair ∷ code_pair ∷ []

pub two_pairs-AllPairs : AllPairs two_pairs
two_pairs-AllPairs = ((id-IsToken, seven-IsToken), ((code-IsToken, x-IsToken), tt))

abbrev no_parameters : QueryParameters
no_parameters = record { size = 0; slots = 10; items = [] }

parse_query_parameters-print_example :
    parse_query_parameters (codes "id=7&code=x")
    ≡ ok (record { size = 2; slots = 10; items = parameters two_pairs })
parse_query_parameters-print_example = parse_query_parameters-print two_pairs two_pairs-AllPairs

parse_query_parameters_total_example : Returns IsResult (parse_query_parameters (codes "a&=b&c==d"))
parse_query_parameters_total_example = parse_query_parameters_total (codes "a&=b&c==d")
