-- ===== src/Collections.antt =====
-- The dynamic array of src/collections.c. An item is a value of any type in place of `m_size` bytes.
pub mod Laws
use http_web_server_c.Base.{
  ℕ, zero, suc, ◌+◌, ◌-◌, ◌*◌, ◌≤◌, ◌<◌, ◌≡◌, refl, sym, ap, ◌∙◌, ◌≢◌, ◌↔◌, ◌⊎◌, inl, inr, Bool,
  true, false, not, ◌&&◌, ◌||◌, Option, none, some, List, [], ◌∷◌, ◌++◌, append-nil, append_assoc,
  arith, ◌==◌, ltb, leb, if◌then◌else◌, Bool-cases, Option-cases, length, take, drop, length-append,
  drop-append, drop-append_add, take-append, Outcome, ok, fault, abort, timeout, ◌>>=◌, get_elem?,
}

-- struct array of src/collections.h, with the room behind `items` (0 for NULL) and the first `size`
-- items. `cleaned` is no field: the items that `cleanup_handler` was called on, in order.
pub record Array (A : Type 0) : Type 0 where
  pub size : ℕ
  pub capacity : ℕ
  pub slots : ℕ
  pub items : List A
  pub cleaned : List A

module _ {A : Type 0} where
  -- The flags of this call and of the next two say whether `malloc` or `realloc` finds memory.
  unfoldable pub init_array : Bool → Array A
  init_array got = record {
    size = 0;
    capacity = 8;
    slots = if got then 8 else 0;
    items = [];
    cleaned = [];
  }

  -- `memcpy` to the slot `size`
  abbrev pub copy_back : A → Array A → Outcome (Array A)
  copy_back element t =
      if ltb t.size t.slots
      then ok (record t { size = t.size + 1; items = t.items ++ (element ∷ []) })
      else fault

  abbrev pub resize : ℕ → Array A → Array A
  resize n t = record t { capacity = n; slots = n; items = take n t.items }

  unfoldable pub insert_back : Bool → A → Array A → Outcome (Array A)
  insert_back got element t =
      if t.capacity == t.size
      then (if got then copy_back element (resize (t.capacity * 2) t) else abort)
      else copy_back element t

  unfoldable pub reserve_array : Bool → ℕ → Array A → Outcome (Array A)
  reserve_array got new_capacity t = if got then ok (resize new_capacity t) else abort

  abbrev pub clean_back : ℕ → Array A → Option A → Outcome (Array A)
  clean_back n t none = fault
  clean_back n t (some x) =
      ok (record t { size = n; items = take n t.items; cleaned = t.cleaned ++ (x ∷ []) })

  abbrev pub remove_from : ℕ → Array A → Outcome (Array A)
  remove_from zero t = ok t
  remove_from (suc n) t = clean_back n t (get_elem? t.items n)

  unfoldable pub remove_back : Array A → Outcome (Array A)
  remove_back t = remove_from t.size t

  -- `while (target->size--)`
  unfoldable pub clean_all : ℕ → Array A → Outcome (Array A)
  clean_all zero t = ok t
  clean_all (suc n) t = clean_back n t (get_elem? t.items n) >>= clean_all n

  unfoldable pub destruct_target : Array A → Outcome (Array A)
  unfolding clean_all
  destruct_target t =
      clean_all t.size t >>= λ u. ok (record u { size = 0; capacity = 0; slots = 0; items = [] })
