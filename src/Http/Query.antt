-- ===== src/Http/Query.antt =====
-- struct http_query_parameter and struct http_query_parameters of src/http.h, and their functions of
-- src/http.c.
pub mod Lookup
pub mod RoundTrip
pub mod Total
use http_web_server_c.Base.{
  ℕ, zero, suc, ◌+◌, ◌-◌, ◌*◌, ◌≤◌, ◌<◌, ◌≡◌, refl, sym, ap, ◌∙◌, ◌≢◌, ◌↔◌, ◌⊎◌, inl, inr, Bool,
  true, false, not, ◌&&◌, ◌||◌, Option, none, some, List, [], ◌∷◌, ◌++◌, append-nil, append_assoc,
  arith, ◌==◌, ltb, leb, if◌then◌else◌, Bool-cases, Option-cases, length, take, drop, length-append,
  drop-append, drop-append_add, take-append, Outcome, ok, fault, abort, timeout, ◌>>=◌,
}
use http_web_server_c.CString.{Bytes, str_eq, strtok}

-- The two pointers, `none` for NULL. The flag says that `key` was freed before it was returned, as
-- happens when the copy of the value fails.
pub record QueryParameter : Type 0 where
  pub key : Option Bytes
  pub value : Option Bytes
  pub key_freed : Bool

-- `size`, the room behind `items` (0 for NULL) and the items that are written.
pub record QueryParameters : Type 0 where
  pub size : ℕ
  pub slots : ℕ
  pub items : List QueryParameter

-- Which allocations of an insertion succeed: its copy of the text, the inner copy, the two strings
-- and the node.
pub record QueryMemory : Type 0 where
  pub strdup_text : Bool
  pub strdup_inner : Bool
  pub strdup_key : Bool
  pub strdup_value : Bool
  pub malloc_node : Bool

abbrev pub ample : QueryMemory
ample = record {
  strdup_text = true;
  strdup_inner = true;
  strdup_key = true;
  strdup_value = true;
  malloc_node = true;
}

abbrev pub no_parameter : QueryParameter
no_parameter = record { key = none; value = none; key_freed = false }

-- The two copies, for what `strtok_r` found as key and as value.
abbrev pub copy_pair : QueryMemory → Option Bytes → Option Bytes → QueryParameter
copy_pair m none v = no_parameter
copy_pair m (some k) none =
    if m.strdup_key then record no_parameter { key = some k } else no_parameter
copy_pair m (some k) (some v) =
    if not m.strdup_key
    then no_parameter
    else if m.strdup_value
    then record no_parameter { key = some k; value = some v }
    else record no_parameter { key = some k; key_freed = true }

abbrev pub first_of_token : Option (Bytes × Bytes) → Option Bytes
first_of_token none = none
first_of_token (some (t, rest)) = some t

abbrev pub split_value : QueryMemory → Option (Bytes × Bytes) → QueryParameter
split_value m none = no_parameter
split_value m (some (k, rest)) = copy_pair m (some k) (first_of_token (strtok b'=' rest))

-- The argument of the source is never NULL: `insert_query_parameter` passes its own copy.
unfoldable pub parse_http_query_parameter : QueryMemory → Bytes → QueryParameter
parse_http_query_parameter m s =
    if m.strdup_inner then split_value m (strtok b'=' s) else no_parameter

abbrev pub store_parameter :
    QueryMemory → QueryParameters → QueryParameter → Outcome (QueryParameters × Bool)
store_parameter m q p =
    if not m.malloc_node
    then ok (q, false)
    else if ltb q.size q.slots
    then ok (record q { size = q.size + 1; items = q.items ++ (p ∷ []) }, true)
    else fault

-- `if (!parsed_param.key || !parsed_param.value)`: what is not NULL is freed, a freed key again.
abbrev pub checked_parameter :
    QueryMemory
    → QueryParameters
    → Option Bytes
    → Option Bytes
    → QueryParameter
    → Outcome (QueryParameters × Bool)
checked_parameter m q (some k) (some v) p = store_parameter m q p
checked_parameter m q _ _ p = if p.key_freed then fault else ok (q, false)

-- The flag is false for NULL.
unfoldable pub insert_query_parameter :
    QueryMemory → QueryParameters → Bytes → Outcome (QueryParameters × Bool)
insert_query_parameter m q s =
    if not m.strdup_text
    then ok (q, false)
    else if leb 10 q.size
    then ok (q, false)
    else let p = parse_http_query_parameter m s in checked_parameter m q p.key p.value p

-- `size = 0` and `items = NULL`, which is also the value `{0}`.
unfoldable pub free_query_parameters : QueryParameters → QueryParameters
free_query_parameters q = record { size = 0; slots = 0; items = [] }

abbrev pub go_on :
    (Bytes → QueryParameters → Outcome QueryParameters)
    → Bytes
    → QueryParameters × Bool
    → Outcome QueryParameters
go_on go rest (q, true) = go rest q
go_on go rest (q, false) = ok (free_query_parameters q)

-- One round of the loop; `go` is the loop.
unfoldable pub query_round :
    (Bytes → QueryParameters → Outcome QueryParameters)
    → QueryParameters
    → Option (Bytes × Bytes)
    → Outcome QueryParameters
query_round go q none = ok q
query_round go q (some (token, rest)) = insert_query_parameter ample q token >>= go_on go rest

unfoldable pub query_loop : ℕ → Bytes → QueryParameters → Outcome QueryParameters
unfolding query_round
query_loop zero s q = timeout
query_loop (suc fuel) s q = query_round (query_loop fuel) q (strtok b'&' s)

-- Memory is found.
unfoldable pub parse_query_parameters : Bytes → Outcome QueryParameters
parse_query_parameters s = query_loop (length s + 1) s (record { size = 0; slots = 10; items = [] })

abbrev pub key_matches : Bytes → Option Bytes → Bool
key_matches param_key none = false
key_matches param_key (some k) = str_eq k param_key

unfoldable pub find_loop : Bytes → ℕ → List QueryParameter → Outcome (Option QueryParameter)
find_loop key zero items = ok none
find_loop key (suc n) [] = fault
find_loop key (suc n) (p ∷ items) =
    let rest = find_loop key n items in if key_matches key p.key then ok (some p) else rest

unfoldable pub find_query_parameter : QueryParameters → Bytes → Outcome (Option QueryParameter)
unfolding find_loop
find_query_parameter q key = find_loop key q.size q.items
