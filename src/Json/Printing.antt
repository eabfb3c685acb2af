-- ===== src/Json/Printing.antt =====
-- `json_object_stringify` of src/json.c.
pub mod Length
use http_web_server_c.Table.{Table}
use http_web_server_c.Base.{
  ℕ, zero, suc, ◌+◌, ◌-◌, ◌*◌, ◌≤◌, ◌<◌, ◌≡◌, refl, sym, ap, ◌∙◌, ◌≢◌, ◌↔◌, ◌⊎◌, inl, inr, Bool,
  true, false, not, ◌&&◌, ◌||◌, Option, none, some, List, [], ◌∷◌, ◌++◌, append-nil, append_assoc,
  arith, ◌==◌, ltb, leb, if◌then◌else◌, Bool-cases, Option-cases, length, take, drop, length-append,
  drop-append, drop-append_add, take-append, Outcome, ok, fault, abort, timeout, ◌>>=◌,
}
use http_web_server_c.CString.{Bytes}
use http_web_server_c.Json.Element.{JsonElement, ValueType, json_number, json_string}
use http_web_server_c.Json.Escape.{escape, measure}

abbrev pub is_string : ValueType → Bool
is_string json_string = true
is_string _ = false

-- One round of the first loop.
abbrev pub item_length : JsonElement → ℕ
item_length x =
    measure x.key + 2 + 1 + (if is_string x.value_type then measure x.value + 2 else length x.value)

-- The first loop, and the brackets and commas behind it; a sum of `int`s, so that `size - 1` is -1 for
-- no elements.
abbrev pub items_length : List JsonElement → ℕ
items_length [] = 0
items_length (x ∷ xs) = item_length x + items_length xs

abbrev pub ret_len : Table JsonElement → ℕ
ret_len t = items_length t.items + 2 + t.size - 1

-- One round of the second loop, without the comma.
abbrev pub print_value : JsonElement → Bytes
print_value x = if is_string x.value_type then b'"' ∷ (escape x.value ++ (b'"' ∷ [])) else x.value

abbrev pub print_item : JsonElement → Bytes
print_item x = b'"' ∷ (escape x.key ++ (b'"' ∷ (b':' ∷ print_value x)))

-- The second loop from index `idx` on; `idx < size - 1` decides on the comma.
unfoldable pub print_items : ℕ → ℕ → List JsonElement → Bytes
print_items size idx [] = []
print_items size idx (x ∷ xs) =
    print_item x
    ++ ((if ltb (idx + 1) size then b',' ∷ [] else []) ++ print_items size (idx + 1) xs)

abbrev pub print_object : Table JsonElement → Bytes
print_object t = b'{' ∷ (print_items t.size 0 t.items ++ (b'}' ∷ []))

-- The buffer has `ret_len + 1` bytes. A longer text with its terminator is written behind it, and a
-- shorter one fails the assertion `reti == ret_len`.
unfoldable pub json_object_stringify : Table JsonElement → Outcome Bytes
unfolding print_items
json_object_stringify t =
    let text = print_object t in
    if ltb (ret_len t) (length text)
    then fault
    else if length text == ret_len t
    then ok text
    else abort
