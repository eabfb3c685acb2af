-- ===== src/Json/Object/RoundTrip.antt =====
-- `parse_json` reads back what `json_object_stringify` prints.
use http_web_server_c.Json.Element.RoundTrip.{EndsValue, IsElement, parse_json_element-print}
use http_web_server_c.Json.Object.{
  Loop, element_at, separator, object_round, parse_elements, parse_json,
}
use http_web_server_c.Base.{
  ℕ, zero, suc, ◌+◌, ◌≤◌, ◌<◌, ◌≡◌, refl, ap, ◌∙◌, true, false, some, List, [], ◌∷◌, ◌++◌,
  append-nil, append_assoc, arith, ◌==◌, ltb, if◌then◌else◌, length, length-append, drop-append, ok,
}
use http_web_server_c.Table.Laws.{
  items-extended_by, append-grow, extended-IsValid, extended_by-IsValid, init-IsValid, extended,
  extended_by, IsValid,
}
use http_web_server_c.Utility.Paths.{find_non_space-solid}
use http_web_server_c.Json.Printing.{print_object, print_item, print_items}
use http_web_server_c.Table.{init, Table}
use http_web_server_c.CString.{Bytes}
use http_web_server_c.Utility.{is_non_space, find_non_space}
use http_web_server_c.Json.Element.{JsonElement}

abbrev pub AllElements : List JsonElement → Type 0
AllElements [] = Unit
AllElements (x ∷ xs) = IsElement x × AllElements xs

-- One element at the front of the text, and what stands behind it.
element_at-print :
    (go : Loop) (x : JsonElement) (rest : Bytes) (t : Table JsonElement)
    → EndsValue rest
    → IsElement x
    → IsValid t
    → element_at go (print_item x ++ rest) t
      ≡ separator go rest (extended x t) (find_non_space rest)
unfolding object_round
element_at-print go x rest t sep w v = rw (parse_json_element-print x rest sep w) (
    rw (append-grow x t v) (
      ap (λ s. separator go s (extended x t) (find_non_space s)) (drop-append (print_item x) rest)))

-- One round of the loop on an element.
parse_elements-print :
    (fuel : ℕ) (x : JsonElement) (rest : Bytes) (t : Table JsonElement)
    → EndsValue rest
    → IsElement x
    → IsValid t
    → parse_elements (suc fuel) (print_item x ++ rest) t
      ≡ separator (parse_elements fuel) rest (extended x t) (find_non_space rest)
unfolding parse_elements
parse_elements-print fuel x rest t sep w v =
    rw (find_non_space-solid (print_item x) rest (unfold is_non_space in refl))
      (element_at-print (parse_elements fuel) x rest t sep w v)

pub separator_comma :
    (go : Loop) (rest : Bytes) (t : Table JsonElement)
    → separator go (b',' ∷ rest) t (find_non_space (b',' ∷ rest)) ≡ go rest t
unfolding find_non_space is_non_space
separator_comma go rest t = refl

pub separator_brace :
    (go : Loop) (rest : Bytes) (t : Table JsonElement)
    → separator go (b'}' ∷ rest) t (find_non_space (b'}' ∷ rest)) ≡ ok t
unfolding find_non_space is_non_space
separator_brace go rest t = refl

-- The loop over printed elements, up to what stands behind the last one.
pub parse_elements-items :
    (fuel size idx : ℕ) (x : JsonElement) (xs : List JsonElement) (tail : Bytes)
    (t : Table JsonElement)
    → length (x ∷ xs) < fuel
    → idx + length (x ∷ xs) ≡ size
    → AllElements (x ∷ xs)
    → IsValid t
    → EndsValue tail
    → (f : ℕ) × (parse_elements fuel (print_items size idx (x ∷ xs) ++ tail) t
        ≡ separator (parse_elements (suc f)) tail (extended_by (x ∷ xs) t) (find_non_space tail))
unfolding print_items
parse_elements-items zero size idx x xs tail t lt e w v sep = absurd (omega arith)
parse_elements-items (suc zero) size idx x xs tail t lt e w v sep = absurd (omega arith)
parse_elements-items (suc (suc fuel)) size idx x [] tail t lt e (w, ws) v sep =
    let last : ltb (idx + 1) size ≡ false = ground arith in
    (
      fuel,
      rw last (
          ap (λ s. parse_elements (suc (suc fuel)) (s ++ tail) t) (append-nil (print_item x))
          ∙ parse_elements-print (suc fuel) x tail t sep w v),
    )
parse_elements-items (suc (suc fuel)) size idx x (y ∷ ys) tail t lt e (w, ws) v sep =
    let more : ltb (idx + 1) size ≡ true = ground arith in
    let next = print_items size (idx + 1) (y ∷ ys) in
    let (f, rest) =
      parse_elements-items (suc fuel) size (idx + 1) y ys tail (extended x t) (omega arith)
        (omega arith) ws (extended-IsValid x t v) sep in
    (
      f,
      rw more (
          ap (λ s. parse_elements (suc (suc fuel)) s t)
            (append_assoc (print_item x) (b',' ∷ next) tail)
          ∙ parse_elements-print (suc fuel) x (b',' ∷ (next ++ tail)) t refl w v
          ∙ separator_comma (parse_elements (suc fuel)) (next ++ tail) (extended x t)
          ∙ rest),
    )

length-print_item-pos : (x : JsonElement) → 0 < length (print_item x)
length-print_item-pos x = omega arith

pub length-le-print_items :
    (size idx : ℕ) (xs : List JsonElement) → length xs ≤ length (print_items size idx xs)
unfolding print_items
length-le-print_items size idx [] = omega arith
length-le-print_items size idx (x ∷ xs) =
    let comma : Bytes = if ltb (idx + 1) size then b',' ∷ [] else [] in
    omega (
      arith,
      length-append (print_item x) (comma ++ print_items size (idx + 1) xs),
      length-append comma (print_items size (idx + 1) xs),
      length-le-print_items size (idx + 1) xs,
      length-print_item-pos x,
    )

parse_elements-object :
    (fuel : ℕ) (xs : List JsonElement) (size : ℕ) (rest : Bytes)
    → length xs < fuel
    → length xs ≡ size
    → AllElements xs
    → parse_elements fuel (print_items size 0 xs ++ (b'}' ∷ rest)) (init 8)
      ≡ ok (extended_by xs (init 8))
parse_elements-object zero xs size rest lt e w = absurd (omega arith)
parse_elements-object (suc fuel) [] size rest lt e w =
    unfold print_items parse_elements find_non_space is_non_space in refl
parse_elements-object (suc fuel) (x ∷ xs) size rest lt e w =
    let (f, run) =
      parse_elements-items (suc fuel) size 0 x xs (b'}' ∷ rest) (init 8) lt (omega arith) w
        (init-IsValid 8 (omega arith)) refl in
    run ∙ separator_brace (parse_elements (suc f)) rest (extended_by (x ∷ xs) (init 8))

-- The text that `json_object_stringify` writes for an object of strings and numbers, whose items are
-- counted by its size and in which no string ends with a backslash, is parsed, whatever follows it,
-- to a valid object with the same elements in the same order.
pub parse_json-print :
    (t : Table JsonElement) (rest : Bytes)
    → length t.items ≡ t.size
    → AllElements t.items
    → (t' : Table JsonElement) × (parse_json (print_object t ++ rest) ≡ ok (some t'))
      × IsValid t'
      × (t'.items ≡ t.items)
unfolding parse_json
parse_json-print t rest counted w =
    let t' = extended_by t.items (init 8) in
    let v : IsValid t' = extended_by-IsValid t.items (init 8) (init-IsValid 8 (omega arith)) in
    let kept : (t'.capacity == 0) ≡ false = ground (arith, v.nonempty) in
    let inner = print_items t.size 0 t.items in
    (
      t',
      rw
          (
            append_assoc inner (b'}' ∷ []) rest,
            parse_elements-object (length (b'{' ∷ (inner ++ (b'}' ∷ rest))) + 1) t.items t.size rest
                (omega (
                  arith,
                  length-append inner (b'}' ∷ rest),
                  length-le-print_items t.size 0 t.items,
                ))
                counted w,
          )
          (rw kept refl),
      v,
      unfold init in items-extended_by t.items (init 8),
    )
