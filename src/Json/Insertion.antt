-- ===== src/Json/Insertion.antt =====
-- `insert_json_element` and `find_json_element` of src/json.c.
use http_web_server_c.Base.{
  ◌≡◌, refl, ap, ◌∙◌, ◌≢◌, Bool, true, false, not, ◌&&◌, Option, none, some, [], ◌∷◌, arith,
  if◌then◌else◌, Outcome, ok, ◌>>=◌,
}
use http_web_server_c.CString.Search.{str_eq_iff, str_eq_refl}
use http_web_server_c.Table.Laws.{
  find?-append, items-extended, find-IsValid, extended-IsValid, find?, append-grow, or_else,
  extended, IsValid,
}
use http_web_server_c.Table.{append, plenty, find, grow, Memory, Table}
use http_web_server_c.CString.{Bytes, str_eq}
use http_web_server_c.Json.Element.{JsonElement, ValueType}

abbrev pub element_key_is : Bytes → JsonElement → Bool
element_key_is key x = str_eq x.key key

unfoldable pub find_json_element : Table JsonElement → Bytes → Outcome (Option JsonElement)
find_json_element t key = find (element_key_is key) t

abbrev pub element : Bytes → Bytes → ValueType → JsonElement
element key value value_type = record { value_type = value_type; key = key; value = value }

abbrev insert_found :
    Memory
    → Table JsonElement
    → Bytes
    → Bytes
    → ValueType
    → Option JsonElement
    → Outcome (Table JsonElement × Bool)
insert_found m t key value value_type (some x) = ok (t, false)
insert_found m t key value value_type none =
    let t' = grow m.realloc_items t in
    if not m.malloc_item
    then ok (t', false)
    else if not (m.strdup_first && m.strdup_second)
    then ok (t', false)
    else append (element key value value_type) t' >>= λ t''. ok (t'', true)

-- The flag is false for NULL.
unfoldable pub insert_json_element :
    Memory → Table JsonElement → Bytes → Bytes → ValueType → Outcome (Table JsonElement × Bool)
insert_json_element m t key value value_type =
    find (element_key_is key) t >>= insert_found m t key value value_type

find_json_element-extended :
    (t : Table JsonElement) (x : JsonElement) (k : Bytes)
    → IsValid t
    → find_json_element (extended x t) k
      ≡ ok
          (or_else (find? (element_key_is k) t.items) (if element_key_is k x then some x else none))
unfolding find_json_element
find_json_element-extended t x k v =
    find-IsValid (element_key_is k) (extended x t) (extended-IsValid x t v)
    ∙ ap (λ l. ok (find? (element_key_is k) l)) (items-extended x t)
    ∙ ap ok (find?-append (element_key_is k) t.items (x ∷ []))

-- With memory enough, inserting a key that a valid object does not have succeeds and leaves a valid
-- object: looking that key up finds the new element, and looking up any other key finds what it
-- found before.
pub find-insert_json_element :
    (t : Table JsonElement) (key value : Bytes) (value_type : ValueType)
    → IsValid t
    → find_json_element t key ≡ ok none
    → (t' : Table JsonElement) × (insert_json_element plenty t key value value_type ≡ ok (t', true))
      × IsValid t'
      × (find_json_element t' key ≡ ok (some (element key value value_type)))
      × ((k : Bytes) → k ≢ key → find_json_element t' k ≡ find_json_element t k)
unfolding insert_json_element find_json_element
find-insert_json_element t key value value_type v new =
    let x = element key value value_type in
    (
      extended x t,
      rw new (rw (append-grow x t v) refl),
      extended-IsValid x t v,
      ground (
        arith,
        find_json_element-extended t x key v,
        find-IsValid (element_key_is key) t v,
        str_eq_refl key,
      ),
      λ k ne. ground (
        arith,
        find_json_element-extended t x k v,
        find-IsValid (element_key_is k) t v,
        str_eq_iff key k,
        ne,
      ),
    )

-- Whatever memory there is, inserting a key that the object has returns NULL and changes nothing.
pub insert_json_element_duplicate :
    (m : Memory) (t : Table JsonElement) (key value : Bytes) (value_type : ValueType)
    (x : JsonElement)
    → find_json_element t key ≡ ok (some x)
    → insert_json_element m t key value value_type ≡ ok (t, false)
unfolding insert_json_element find_json_element
insert_json_element_duplicate m t key value value_type x e = rw e refl
