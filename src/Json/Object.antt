-- ===== src/Json/Object.antt =====
-- `destruct_json_object` and `parse_json` of src/json.c, over the text from `json_string + offset` on.
-- Memory is found.
pub mod RoundTrip
pub mod Total
pub mod Malformed
use http_web_server_c.Base.{
  ℕ, zero, suc, ◌+◌, ◌-◌, ◌*◌, ◌≤◌, ◌<◌, ◌≡◌, refl, sym, ap, ◌∙◌, ◌≢◌, ◌↔◌, ◌⊎◌, inl, inr, Bool,
  true, false, not, ◌&&◌, ◌||◌, Option, none, some, List, [], ◌∷◌, ◌++◌, append-nil, append_assoc,
  arith, ◌==◌, ltb, leb, if◌then◌else◌, Bool-cases, Option-cases, length, take, drop, length-append,
  drop-append, drop-append_add, take-append, Outcome, ok, fault, abort, timeout, ◌>>=◌,
}
use http_web_server_c.Table.{grow, append, cleared, init, Table}
use http_web_server_c.Json.Element.{parse_json_element, JsonElement}
use http_web_server_c.Utility.{find_non_space}
use http_web_server_c.CString.{Bytes, first_char}

unfoldable pub destruct_json_object : Table JsonElement → Table JsonElement
destruct_json_object t = cleared

-- `items[size++] = parsed_element;` behind its doubling
unfoldable pub add_element : JsonElement → Table JsonElement → Outcome (Table JsonElement)
add_element x t = append x (grow true t)

abbrev pub Loop : Type 0
Loop = Bytes → Table JsonElement → Outcome (Table JsonElement)

-- Behind an element: `after` begins at its end, and `g` is the first byte there that is no white
-- space. A NULL of `find_non_space` is used as a pointer.
abbrev pub separator : Loop → Bytes → Table JsonElement → Option ℕ → Outcome (Table JsonElement)
separator go after t none = fault
separator go after t (some g) =
    let c = first_char (drop g after) in
    let more = go (drop (g + 1) after) t in
    if c == b',' then more else if c == b'}' then ok t else ok (destruct_json_object t)

abbrev pub after_element :
    Loop → Bytes → Table JsonElement → Option (ℕ × JsonElement) → Outcome (Table JsonElement)
after_element go here t none = ok (destruct_json_object t)
after_element go here t (some (stat, x)) =
    add_element x t >>= λ t'. separator go (drop stat here) t' (find_non_space (drop stat here))

-- At the first byte that is no white space.
abbrev pub element_at : Loop → Bytes → Table JsonElement → Outcome (Table JsonElement)
element_at go here t =
    if first_char here == b'}'
    then ok t
    else if not (first_char here == b'"')
    then ok (destruct_json_object t)
    else parse_json_element here >>= after_element go here t

unfoldable pub object_round :
    Loop → Bytes → Table JsonElement → Option ℕ → Outcome (Table JsonElement)
unfolding destruct_json_object add_element
object_round go rest t none = ok (destruct_json_object t)
object_round go rest t (some f) = element_at go (drop f rest) t

-- The loop, on fuel.
unfoldable pub parse_elements : ℕ → Bytes → Table JsonElement → Outcome (Table JsonElement)
unfolding object_round
parse_elements zero rest t = timeout
parse_elements (suc fuel) [] t = ok t
parse_elements (suc fuel) (c ∷ rest) t =
    object_round (parse_elements fuel) (c ∷ rest) t (find_non_space (c ∷ rest))

-- `none` is NULL.
unfoldable pub parse_json : Bytes → Outcome (Option (Table JsonElement))
parse_json s =
    if not (first_char s == b'{')
    then ok none
    else parse_elements (length s + 1) (drop 1 s) (init 8) >>= λ t.
        ok (if t.capacity == 0 then none else some t)
