-- ===== src/Json/Printing/Length.antt =====
-- The length that `json_object_stringify` computes, and the text that it writes.
use http_web_server_c.Json.Element.{ValueType, JsonElement, json_string}
use http_web_server_c.Json.Escape.{length-escape, escape, measure}
use http_web_server_c.Json.Printing.{
  is_string, item_length, ret_len, items_length, print_item, print_object, print_value, print_items,
  json_object_stringify,
}
use http_web_server_c.Table.{Table}
use http_web_server_c.Base.{
  ℕ, ◌+◌, ◌-◌, ◌<◌, ◌≡◌, refl, true, false, List, [], ◌∷◌, ◌++◌, arith, ltb, if◌then◌else◌, length,
  length-append, ok, fault,
}

length-print_value :
    (x : JsonElement)
    → length (print_value x)
      ≡ (if is_string x.value_type then measure x.value + 2 else length x.value)
length-print_value x = by_type x.value_type
  where
    quoted_length : length (b'"' ∷ (escape x.value ++ (b'"' ∷ []))) ≡ measure x.value + 2
    quoted_length = omega (arith, length-append (escape x.value) (b'"' ∷ []), length-escape x.value)

    by_type :
        (v : ValueType)
        → length (if is_string v then b'"' ∷ (escape x.value ++ (b'"' ∷ [])) else x.value)
          ≡ (if is_string v then measure x.value + 2 else length x.value)
    by_type json_string = quoted_length
    by_type _ = refl

length-print_item : (x : JsonElement) → length (print_item x) ≡ item_length x
length-print_item x = omega (
  arith,
  length-append (escape x.key) (b'"' ∷ (b':' ∷ print_value x)),
  length-escape x.key,
  length-print_value x,
)

length-print_items :
    (size idx : ℕ) (x : JsonElement) (xs : List JsonElement)
    → idx + length (x ∷ xs) ≡ size
    → length (print_items size idx (x ∷ xs)) + 1 ≡ items_length (x ∷ xs) + length (x ∷ xs)
unfolding print_items
length-print_items size idx x [] e =
    let last : ltb (idx + 1) size ≡ false = ground arith in
    rw last (omega (arith, length-append (print_item x) [], length-print_item x))
length-print_items size idx x (y ∷ ys) e =
    let more : ltb (idx + 1) size ≡ true = ground arith in
    rw more (
      omega (
        arith,
        length-append (print_item x) (b',' ∷ print_items size (idx + 1) (y ∷ ys)),
        length-print_item x,
        length-print_items size (idx + 1) y ys (omega arith),
      ))

length-print_object :
    (t : Table JsonElement)
    → length t.items ≡ t.size
    → 0 < t.size
    → length (print_object t) ≡ ret_len t
length-print_object t counted pos = go t.items counted
  where
    go :
        (xs : List JsonElement)
        → length xs ≡ t.size
        → length (b'{' ∷ (print_items t.size 0 xs ++ (b'}' ∷ [])))
          ≡ items_length xs + 2 + t.size - 1
    go [] e = absurd (omega arith)
    go (x ∷ xs) e = omega (
      arith,
      length-append (print_items t.size 0 (x ∷ xs)) (b'}' ∷ []),
      length-print_items t.size 0 x xs (omega arith),
    )

-- For an object of at least one element whose items are counted by its size, the text has exactly the
-- length that was measured: the buffer is not overrun, the assertion holds, and the text is returned.
pub json_object_stringify_lem :
    (t : Table JsonElement)
    → length t.items ≡ t.size
    → 0 < t.size
    → json_object_stringify t ≡ ok (print_object t)
unfolding json_object_stringify
json_object_stringify_lem t counted pos = ground (arith, length-print_object t counted pos)

-- Printing an object of no elements, of whatever capacity, writes one byte behind the buffer: `ret_len`
-- comes to 1, and "{}" with its terminator takes three bytes.
pub json_object_stringify_empty :
    (t : Table JsonElement) → t.items ≡ [] → t.size ≡ 0 → json_object_stringify t ≡ fault
unfolding json_object_stringify print_items
json_object_stringify_empty t none_there zero_size = ground arith
