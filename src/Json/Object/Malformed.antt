-- ===== src/Json/Object/Malformed.antt =====
-- Texts that `parse_json` does not refuse, though they are no objects.
use http_web_server_c.Table.Laws.{
  items-extended_by, extended_by-IsValid, init-IsValid, IsValid, extended_by,
}
use http_web_server_c.Json.Object.RoundTrip.{
  separator_comma, length-le-print_items, AllElements, parse_elements-items,
}
use http_web_server_c.Table.{init, Table}
use http_web_server_c.Json.Element.RoundTrip.{EndsValue}
use http_web_server_c.Json.Object.{separator, Loop, parse_elements, parse_json}
use http_web_server_c.CString.{Bytes}
use http_web_server_c.Json.Printing.{print_items}
use http_web_server_c.Json.Element.{JsonElement}
use http_web_server_c.Utility.{find_non_space}
use http_web_server_c.Base.{
  ℕ, suc, ◌+◌, ◌<◌, ◌≡◌, refl, ◌∙◌, false, some, List, [], ◌∷◌, ◌++◌, append-nil, arith, ◌==◌,
  length, length-append, ok, fault,
}

-- The elements of a list as `json_object_stringify` prints them, with the opening bracket only.
abbrev pub open_object : List JsonElement → Bytes
open_object xs = b'{' ∷ print_items (length xs) 0 xs

enough_fuel :
    (x : JsonElement) (xs : List JsonElement) (tail : Bytes)
    → length (x ∷ xs) < length (open_object (x ∷ xs) ++ tail) + 1
enough_fuel x xs tail = omega (
  arith,
  length-append (print_items (length (x ∷ xs)) 0 (x ∷ xs)) tail,
  length-le-print_items (length (x ∷ xs)) 0 (x ∷ xs),
)

separator_end : (go : Loop) (t : Table JsonElement) → separator go [] t (find_non_space []) ≡ fault
unfolding find_non_space
separator_end go t = refl

-- The loop on well-formed elements without the closing bracket.
open_run :
    (x : JsonElement) (xs : List JsonElement) (tail : Bytes)
    → AllElements (x ∷ xs)
    → EndsValue tail
    → (f : ℕ) × (parse_elements
          (length (open_object (x ∷ xs) ++ tail) + 1)
          (print_items (length (x ∷ xs)) 0 (x ∷ xs) ++ tail)
          (init 8)
        ≡ separator
            (parse_elements (suc f))
            tail
            (extended_by (x ∷ xs) (init 8))
            (find_non_space tail))
open_run x xs tail w sep =
    parse_elements-items (length (open_object (x ∷ xs) ++ tail) + 1) (length (x ∷ xs)) 0 x xs tail
      (init 8) (enough_fuel x xs tail) (omega arith) w (init-IsValid 8 (omega arith)) sep

-- An object that is cut off behind its last element, with no closing bracket, is not refused: the NULL
-- of `find_non_space` is used as a pointer, and the behaviour is undefined.
pub unclosed_object_faults :
    (x : JsonElement) (xs : List JsonElement)
    → AllElements (x ∷ xs)
    → parse_json (open_object (x ∷ xs)) ≡ fault
unfolding parse_json
unclosed_object_faults x xs w =
    let (f, run) = open_run x xs [] w tt in
    let plain = append-nil (print_items (length (x ∷ xs)) 0 (x ∷ xs)) in
    rw (rw plain at run)
      (rw (separator_end (parse_elements (suc f)) (extended_by (x ∷ xs) (init 8))) refl)

parse_elements_end : (f : ℕ) (t : Table JsonElement) → parse_elements (suc f) [] t ≡ ok t
unfolding parse_elements
parse_elements_end f t = refl

-- An object that is cut off behind a comma is accepted: its elements are returned in a valid object.
pub cut_object_accepted :
    (x : JsonElement) (xs : List JsonElement)
    → AllElements (x ∷ xs)
    → (t : Table JsonElement) × (parse_json (open_object (x ∷ xs) ++ b',' ∷ []) ≡ ok (some t))
      × IsValid t
      × (t.items ≡ x ∷ xs)
unfolding parse_json
cut_object_accepted x xs w =
    let (f, run) = open_run x xs (b',' ∷ []) w refl in
    let t = extended_by (x ∷ xs) (init 8) in
    let v : IsValid t = extended_by-IsValid (x ∷ xs) (init 8) (init-IsValid 8 (omega arith)) in
    let kept : (t.capacity == 0) ≡ false = ground (arith, v.nonempty) in
    (
      t,
      rw (run ∙ separator_comma (parse_elements (suc f)) [] t ∙ parse_elements_end f t)
          (rw kept refl),
      v,
      unfold init in items-extended_by (x ∷ xs) (init 8),
    )
