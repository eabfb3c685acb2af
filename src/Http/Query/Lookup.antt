-- ===== src/Http/Query/Lookup.antt =====
-- `find_query_parameter` on what `parse_query_parameters` returns.
use http_web_server_c.Http.Query.RoundTrip.{
  parse_query_parameters-print, print_query, AllPairs, parameters, Pair,
}
use http_web_server_c.Base.{
  ℕ, zero, suc, ◌≤◌, ◌≡◌, refl, ap, true, Option, none, some, List, [], ◌∷◌, arith, leb,
  if◌then◌else◌, length, Outcome, ok, ◌>>=◌,
}
use http_web_server_c.Http.Query.{
  find_loop, find_query_parameter, key_matches, parse_query_parameters, QueryParameter,
  QueryParameters,
}
use http_web_server_c.CString.{str_eq, Bytes}

-- The first parameter of a list with a given key.
abbrev pub first_with : Bytes → List QueryParameter → Option QueryParameter
first_with key [] = none
first_with key (p ∷ ps) = if key_matches key p.key then some p else first_with key ps

find_loop_lem :
    (key : Bytes) (n : ℕ) (ps : List QueryParameter)
    → length ps ≡ n
    → find_loop key n ps ≡ ok (first_with key ps)
unfolding find_loop
find_loop_lem key zero [] h = refl
find_loop_lem key zero (p ∷ ps) h = absurd (omega arith)
find_loop_lem key (suc n) [] h = absurd (omega arith)
find_loop_lem key (suc n) (p ∷ ps) h = ground (arith, find_loop_lem key n ps)

pub find_query_parameter-counted :
    (q : QueryParameters) (key : Bytes)
    → length q.items ≡ q.size
    → find_query_parameter q key ≡ ok (first_with key q.items)
unfolding find_query_parameter
find_query_parameter-counted q key v = find_loop_lem key q.size q.items v

-- A pair that `find_query_parameter` finds by its own name, the first of that name in the list.
abbrev pub content_of : Bytes → List Pair → Option Bytes
content_of key [] = none
content_of key (p ∷ ps) = if str_eq p.name key then some p.content else content_of key ps

abbrev pub value_found : Option QueryParameter → Option Bytes
value_found none = none
value_found (some p) = p.value

first_with-parameters :
    (key : Bytes) (ps : List Pair)
    → value_found (first_with key (parameters ps)) ≡ content_of key ps
first_with-parameters key [] = refl
first_with-parameters key (p ∷ ps) = ground (arith, first_with-parameters key ps)

length-parameters : (ps : List Pair) → length (parameters ps) ≡ length ps
length-parameters [] = refl
length-parameters (p ∷ ps) = ap suc (length-parameters ps)

abbrev pub lookup_text : Bytes → Bytes → Outcome (Option Bytes)
lookup_text text key = do
  q ← parse_query_parameters text
  found ← find_query_parameter q key
  ok (value_found found)

-- Parsing a query text of at most ten well-formed pairs and looking up a key gives the value of the
-- first pair with that key, and NULL where no pair has it.
pub find-parse_query_parameters :
    (ps : List Pair) (key : Bytes)
    → AllPairs ps
    → length ps ≤ 10
    → lookup_text (print_query ps) key ≡ ok (content_of key ps)
find-parse_query_parameters ps key w few =
    let few' : leb (length ps) 10 ≡ true = ground arith in
    let parsed : QueryParameters = record { size = length ps; slots = 10; items = parameters ps } in
    rw (parse_query_parameters-print ps w) (
      rw few' (
        rw (find_query_parameter-counted parsed key (length-parameters ps))
          (ap ok (first_with-parameters key ps))))
