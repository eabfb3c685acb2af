-- ===== src/Table.antt =====
-- The arrays of pointers that http.c and json.c grow by doubling: `size`, `capacity` and `items` of
-- `struct routes`, `struct http_headers` and `struct json_object`. `slots` is the room that `items`
-- really points to (0 for NULL), and `items` here are the slots written so far.
pub mod Laws
use http_web_server_c.Base.{
  ℕ, zero, suc, ◌+◌, ◌-◌, ◌*◌, ◌≤◌, ◌<◌, ◌≡◌, refl, sym, ap, ◌∙◌, ◌≢◌, ◌↔◌, ◌⊎◌, inl, inr, Bool,
  true, false, not, ◌&&◌, ◌||◌, Option, none, some, List, [], ◌∷◌, ◌++◌, append-nil, append_assoc,
  arith, ◌==◌, ltb, leb, if◌then◌else◌, Bool-cases, Option-cases, length, take, drop, length-append,
  drop-append, drop-append_add, take-append, Outcome, ok, fault, abort, timeout, ◌>>=◌,
}

-- Which of its allocations succeed in a call of an insertion.
pub record Memory : Type 0 where
  pub realloc_items : Bool
  pub malloc_item : Bool
  pub strdup_first : Bool
  pub strdup_second : Bool

abbrev pub plenty : Memory
plenty = record {
  realloc_items = true;
  malloc_item = true;
  strdup_first = true;
  strdup_second = true;
}

pub record Table (A : Type 0) : Type 0 where
  pub size : ℕ
  pub capacity : ℕ
  pub slots : ℕ
  pub items : List A

module _ {A : Type 0} where
  -- `.capacity = n, .items = malloc(n * sizeof(...)), .size = 0`
  unfoldable pub init : ℕ → Table A
  init n = record { size = 0; capacity = n; slots = n; items = [] }

  -- What a cleanup leaves: no capacity, no size, and items that nothing may read.
  abbrev pub cleared : Table A
  cleared = record { size = 0; capacity = 0; slots = 0; items = [] }

  -- The doubling in front of an insertion; the flag says whether `realloc` finds memory. Its result
  -- is not tested, so on a failure `items` is NULL under the new capacity.
  unfoldable pub grow : Bool → Table A → Table A
  grow got t =
      if t.capacity == t.size
      then (record t {
        capacity = t.capacity * 2;
        slots = if got then t.capacity * 2 else 0;
        items = if got then t.items else [];
      })
      else t

  -- `items[size++] = x`
  unfoldable pub append : A → Table A → Outcome (Table A)
  append x t =
      if ltb t.size t.slots
      then ok (record t { size = t.size + 1; items = t.items ++ (x ∷ []) })
      else fault

  -- `for (int i = 0; i < size; i++) if (test(items[i])) return items[i]; return NULL;`
  unfoldable pub scan : (A → Bool) → ℕ → List A → Outcome (Option A)
  scan test zero items = ok none
  scan test (suc n) [] = fault
  scan test (suc n) (x ∷ items) =
      let rest = scan test n items in if test x then ok (some x) else rest

  unfoldable pub find : (A → Bool) → Table A → Outcome (Option A)
  unfolding scan
  find test t = scan test t.size t.items
