-- ===== src/Blocks.antt =====
-- The heap blocks behind the structs of src/http.c and src/json.c, and the functions that free them.
-- A block is a number; `malloc` and `strdup` gave each pointer its own one.
pub mod Owned
pub mod Contents
pub mod Destruct
use http_web_server_c.Base.{
  ℕ, zero, suc, ◌+◌, ◌-◌, ◌*◌, ◌≤◌, ◌<◌, ◌≡◌, refl, sym, ap, ◌∙◌, ◌≢◌, ◌↔◌, ◌⊎◌, inl, inr, Bool,
  true, false, not, ◌&&◌, ◌||◌, Option, none, some, List, [], ◌∷◌, ◌++◌, append-nil, append_assoc,
  arith, ◌==◌, ltb, leb, if◌then◌else◌, Bool-cases, Option-cases, length, take, drop, length-append,
  drop-append, drop-append_add, take-append, Outcome, ok, fault, abort, timeout, ◌>>=◌, ℤ, pos,
  negsuc, get_elem?,
}

-- Which blocks were allocated and not freed.
abbrev pub Live : Type 0
Live = ℕ → Bool

-- A block that is not allocated must not be freed.
abbrev pub free : ℕ → Live → Outcome Live
free block live = if live block then ok (λ a. live a && not (block == a)) else fault

-- `if (p) free(p);`, and `free(p)` with a pointer that may be NULL
abbrev pub free_pointer : Option ℕ → Live → Outcome Live
free_pointer none live = ok live
free_pointer (some block) live = free block live

-- A `struct http_header` or a `struct json_element`: its own block, and those of its two strings.
pub record Pair : Type 0 where
  pub block : ℕ
  pub key : ℕ
  pub value : ℕ

-- A `struct http_headers` or a `struct json_object`.
pub record Pairs : Type 0 where
  pub size : ℕ
  pub capacity : ℕ
  pub items : ℕ
  pub entries : List Pair

abbrev pub free_pair : Pair → Live → Outcome Live
free_pair p live = free p.key live >>= free p.value >>= free p.block

-- The loop of `destruct_http_headers` and `destruct_json_object`.
abbrev pub free_pairs : ℕ → List Pair → Live → Outcome Live
free_pairs zero entries live = ok live
free_pairs (suc n) [] live = fault
free_pairs (suc n) (p ∷ ps) live = free_pair p live >>= free_pairs n ps

-- `items` keeps its value.
abbrev pub cleared_pairs : Pairs → Pairs
cleared_pairs t = record t { size = 0; capacity = 0 }

unfoldable pub destruct_pairs : Pairs → Live → Outcome (Pairs × Live)
destruct_pairs t live =
    (free_pairs t.size t.entries live >>= free t.items) >>= λ after. ok (cleared_pairs t, after)

-- A `struct http_query_parameter`.
pub record Parameter : Type 0 where
  pub block : ℕ
  pub key : Option ℕ
  pub value : Option ℕ

pub record Parameters : Type 0 where
  pub size : ℕ
  pub items : Option ℕ
  pub entries : List (Option Parameter)

abbrev pub free_parameter : Option Parameter → Live → Outcome Live
free_parameter none live = ok live
free_parameter (some p) live = free_pointer p.key live >>= free_pointer p.value >>= free p.block

abbrev pub free_entries : ℕ → List (Option Parameter) → Live → Outcome Live
free_entries zero entries live = ok live
free_entries (suc n) [] live = fault
free_entries (suc n) (p ∷ ps) live = free_parameter p live >>= free_entries n ps

abbrev pub free_items : Parameters → Live → Option ℕ → Outcome Live
free_items q live none = ok live
free_items q live (some items) = free_entries q.size q.entries live >>= free items

abbrev pub cleared_parameters : Parameters → Parameters
cleared_parameters q = record q { size = 0; items = none }

-- `free_query_parameters`
unfoldable pub free_parameters : Parameters → Live → Outcome (Parameters × Live)
free_parameters q live = free_items q live q.items >>= λ after. ok (cleared_parameters q, after)

-- A `struct http_request`.
pub record Request : Type 0 where
  pub headers : Pairs
  pub body : Option ℕ
  pub path : Option ℕ
  pub query_parameters : Parameters

abbrev pub destruct_filled : Pairs → Live → Outcome (Pairs × Live)
destruct_filled t live = if t.capacity == 0 then ok (t, live) else destruct_pairs t live

abbrev pub destruct_query : Request → Pairs → Live → Outcome (Request × Live)
destruct_query r headers live = free_parameters r.query_parameters live >>= λ q.
    ok (record r { headers = headers; query_parameters = q.0 }, q.1)

abbrev pub destruct_path : Request → Pairs → Live → Outcome (Request × Live)
destruct_path r headers live = free_pointer r.path live >>= destruct_query r headers

-- `body` and `path` keep their values.
unfoldable pub destruct_http_request : Request → Live → Outcome (Request × Live)
unfolding destruct_pairs free_parameters
destruct_http_request r live = free_pointer r.body live >>= λ between.
    destruct_filled r.headers between >>= λ h. destruct_path r h.0 h.1

-- A response that a callback or `get_static_file` allocated, or one of the three that are prepared once.
pub record Response : Type 0 where
  pub block : ℕ
  pub headers : Pairs
  pub body : Option ℕ

abbrev pub free_response : Option Response → Live → Outcome Live
free_response none live = ok live
free_response (some r) live = free_pointer r.body live >>= λ between.
    destruct_filled r.headers between >>= λ h. free r.block h.1

abbrev pub free_request : Option (ℕ × Request) → Live → Outcome Live
free_request none live = ok live
free_request (some (block, r)) live = destruct_http_request r live >>= λ s. free block s.1

-- What `handle_http_request` frees: the response behind its text, the text, and the request.
unfoldable pub clean_up : Option Response → ℕ → Option (ℕ × Request) → Live → Outcome Live
unfolding destruct_pairs destruct_http_request
clean_up response response_str request live =
    free_response response live >>= free response_str >>= free_request request
