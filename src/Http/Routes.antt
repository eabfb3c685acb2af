-- ===== src/Http/Routes.antt =====
-- struct route and struct routes of src/http.h, and their functions of src/http.c.
pub mod Laws
use http_web_server_c.Table.{Memory, Table, init, cleared, grow, append, find}
use http_web_server_c.Base.{
  ℕ, zero, suc, ◌+◌, ◌-◌, ◌*◌, ◌≤◌, ◌<◌, ◌≡◌, refl, sym, ap, ◌∙◌, ◌≢◌, ◌↔◌, ◌⊎◌, inl, inr, Bool,
  true, false, not, ◌&&◌, ◌||◌, Option, none, some, List, [], ◌∷◌, ◌++◌, append-nil, append_assoc,
  arith, ◌==◌, ltb, leb, if◌then◌else◌, Bool-cases, Option-cases, length, take, drop, length-append,
  drop-append, drop-append_add, take-append, Outcome, ok, fault, abort, timeout, ◌>>=◌,
}
use http_web_server_c.CString.{Bytes, first_char}
use http_web_server_c.Utility.{Comparison, less, same, greater, url_path_cmp}
use http_web_server_c.Http.Names.{Method, method_eq}

-- The callbacks are function pointers, which the table only stores and returns.
pub record Route (Callback : Type 0) : Type 0 where
  pub path : Bytes
  pub method : Method
  pub callback : Callback

abbrev pub is_same : Comparison → Bool
is_same less = false
is_same same = true
is_same greater = false

module _ {C : Type 0} where
  -- The test of the loop in `find_route`.
  unfoldable pub route_matches : Bytes → Method → Route C → Bool
  route_matches path method r = method_eq r.method method && is_same (url_path_cmp path r.path)

  unfoldable pub find_route : Table (Route C) → Bytes → Method → Outcome (Option (Route C))
  find_route routes path method = find (route_matches path method) routes

  -- The returned table is what the pointer's target holds afterwards; the flag is false for NULL.
  abbrev store_route :
      Memory → Table (Route C) → Bytes → Method → C → Outcome (Table (Route C) × Bool)
  store_route m t path method callback =
      if not m.malloc_item
      then ok (t, false)
      else if not m.strdup_first
      then ok (t, false)
      else append (record { path = path; method = method; callback = callback }) t >>= λ t'.
          ok (t', true)

  abbrev unless_found :
      Memory
      → Table (Route C)
      → Bytes
      → Method
      → C
      → Option (Route C)
      → Outcome (Table (Route C) × Bool)
  unless_found m t path method callback (some r) = ok (t, false)
  unless_found m t path method callback none =
      store_route m (grow m.realloc_items t) path method callback

  unfoldable pub insert_route :
      Memory → Table (Route C) → Bytes → Method → C → Outcome (Table (Route C) × Bool)
  insert_route m t path method callback =
      if not (first_char path == b'/')
      then ok (t, false)
      else find_route t path method >>= unless_found m t path method callback

  -- The flag of the call says whether `malloc` succeeds.
  unfoldable pub init_routes : Bool → Table (Route C) × Bool
  init_routes got = if got then (init 8, true) else (cleared, false)
