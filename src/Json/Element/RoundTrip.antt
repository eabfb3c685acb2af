-- ===== src/Json/Element/RoundTrip.antt =====
-- `parse_json_element` reads back what `json_object_stringify` prints for one element.
use http_web_server_c.Base.{
  ℕ, ◌+◌, ◌≡◌, refl, sym, ap, ◌∙◌, true, false, ◌||◌, some, [], ◌∷◌, ◌++◌, append_assoc, arith,
  ◌==◌, if◌then◌else◌, length, drop, length-append, drop-append, drop-append_add, ok,
}
use http_web_server_c.Json.Element.{
  element_value, behind_key, parse_json_element, scan_value, JsonElement, ValueType, json_object,
  json_array, json_number, json_string, json_boolean, json_null,
}
use http_web_server_c.CString.{first_char, Bytes}
use http_web_server_c.Utility.{is_non_space, find_non_space}
use http_web_server_c.Utility.Slice.{substring_lem, trim_end_lem, char_at-append}
use http_web_server_c.Json.Escape.{escape}
use http_web_server_c.Json.Printing.{is_string, print_item, print_value}
use http_web_server_c.Json.StringToken.RoundTrip.{parse_string_token-quoted, quoted, ends_backslash}
use http_web_server_c.Utility.Paths.{EndsSolid, find_non_space-solid, StartsSolid}
use http_web_server_c.CString.Search.{Lacks}

-- A value that is printed as it is: some bytes, no white space at either end, no quotation mark in
-- front, no ',' and no '}'.
pub record IsPlain (s : Bytes) : Type 0 where
  pub starts : StartsSolid s
  pub ends : EndsSolid s
  pub unquoted : (first_char s == b'"') ≡ false
  pub no_comma : Lacks b',' s
  pub no_brace : Lacks b'}' s

abbrev pub ValueIsValid : ValueType → Bytes → Type 0
ValueIsValid json_string s = ends_backslash false s ≡ false
ValueIsValid json_number s = IsPlain s
ValueIsValid _ s = ⊥

-- The elements that the parser builds: strings, and what it takes for a number.
pub record IsElement (x : JsonElement) : Type 0 where
  pub key_closes : ends_backslash false x.key ≡ false
  pub value_valid : ValueIsValid x.value_type x.value

-- What may stand behind a value: nothing, a ',' or a '}'.
abbrev pub EndsValue : Bytes → Type 0
EndsValue [] = Unit
EndsValue (c ∷ rest) = (c == b',' || c == b'}') ≡ true

scan_value_lem :
    (v rest : Bytes) (i : ℕ)
    → EndsValue rest
    → Lacks b',' v
    → Lacks b'}' v
    → scan_value (v ++ rest) i ≡ i + length v
unfolding scan_value
scan_value_lem [] [] i sep hc hb = omega arith
scan_value_lem [] (c ∷ rest) i sep hc hb = ground arith
scan_value_lem (d ∷ v) rest i sep (h, hc) (g, hb) =
    ground (arith, scan_value_lem v rest (i + 1) sep hc hb)

-- A value behind `p`.
parse_plain :
    (p v rest key : Bytes)
    → EndsValue rest
    → IsPlain v
    → element_value (p ++ (v ++ rest)) key (length p)
      ≡ ok (some (length p + length v, record { value_type = json_number; key = key; value = v }))
unfolding element_value
parse_plain p [] rest key sep w = absurd w.starts
parse_plain p (d ∷ v) rest key sep w = rw (
  char_at-append p ((d ∷ v) ++ rest),
  w.unquoted,
  drop-append p ((d ∷ v) ++ rest),
  scan_value_lem (d ∷ v) rest (length p) sep w.no_comma w.no_brace,
  trim_end_lem p (d ∷ v) rest w.ends,
  substring_lem p (d ∷ v) rest,
)

parse_quoted :
    (p v rest key : Bytes)
    → ends_backslash false v ≡ false
    → element_value (p ++ (quoted v ++ rest)) key (length p)
      ≡ ok (
          some (
            length p + length (quoted v),
            record { value_type = json_string; key = key; value = v },
          ))
unfolding element_value
parse_quoted p v rest key closes = rw (
  char_at-append p (quoted v ++ rest),
  drop-append p (quoted v ++ rest),
  parse_string_token-quoted v rest closes,
)

parse_printed :
    (p rest : Bytes) (x : JsonElement)
    → EndsValue rest
    → IsElement x
    → element_value (p ++ (print_value x ++ rest)) x.key (length p)
      ≡ ok (some (length p + length (print_value x), x))
parse_printed p rest x sep w = by_type x.value_type w.value_valid
  where
    by_type :
        (t : ValueType)
        → ValueIsValid t x.value
        → element_value
            (p
              ++ ((if is_string t then b'"' ∷ (escape x.value ++ (b'"' ∷ [])) else x.value)
                  ++ rest))
            x.key
            (length p)
          ≡ ok (
              some (
                length p
                    + length
                        (if is_string t then b'"' ∷ (escape x.value ++ (b'"' ∷ [])) else x.value),
                record { value_type = t; key = x.key; value = x.value },
              ))
    by_type json_string v = parse_quoted p x.value rest x.key v
    by_type json_number v = parse_plain p x.value rest x.key sep v
    by_type json_object v = absurd v
    by_type json_array v = absurd v
    by_type json_boolean v = absurd v
    by_type json_null v = absurd v

-- What the text of a value begins with.
find_value :
    (x : JsonElement) (rest : Bytes) → IsElement x → find_non_space (print_value x ++ rest) ≡ some 0
find_value x rest w = by_type x.value_type w.value_valid
  where
    by_type :
        (t : ValueType)
        → ValueIsValid t x.value
        → find_non_space
            ((if is_string t then b'"' ∷ (escape x.value ++ (b'"' ∷ [])) else x.value) ++ rest)
          ≡ some 0
    by_type json_string v = find_non_space-solid (quoted x.value) rest (unfold is_non_space in refl)
    by_type json_number v = find_non_space-solid x.value rest v.starts
    by_type json_object v = absurd v
    by_type json_array v = absurd v
    by_type json_boolean v = absurd v
    by_type json_null v = absurd v

module _ (x : JsonElement) (rest : Bytes) where
  abbrev behind : Bytes
  behind = print_value x ++ rest

  abbrev front : Bytes
  front = quoted x.key ++ b':' ∷ []

  abbrev whole : Bytes
  whole = quoted x.key ++ b':' ∷ behind

  print_item-whole : print_item x ++ rest ≡ whole
  print_item-whole = simp append_assoc

  whole-front : whole ≡ front ++ behind
  whole-front = sym (append_assoc (quoted x.key) (b':' ∷ []) behind)

  length-front : length front ≡ length (quoted x.key) + 1
  length-front = length-append (quoted x.key) (b':' ∷ [])

  length-print_item-front : length (print_item x) ≡ length front + length (print_value x)
  length-print_item-front = omega (
    arith,
    length-append (escape x.key) (b'"' ∷ (b':' ∷ print_value x)),
    length-append (escape x.key) (b'"' ∷ []),
    length-front,
  )

  value_at-front :
      EndsValue rest
      → IsElement x
      → element_value whole x.key (length front) ≡ ok (some (length (print_item x), x))
  value_at-front sep w =
      rw whole-front (
        parse_printed front rest x sep w ∙ ap (λ n. ok (some (n, x))) (sym length-print_item-front))

  behind_key-front :
      EndsValue rest
      → IsElement x
      → behind_key whole x.key (length (quoted x.key)) (some 0)
        ≡ ok (some (length (print_item x), x))
  behind_key-front sep w =
      let k = length (quoted x.key) in
      let here : k + 0 ≡ k = omega arith in
      let there : k + 1 + 0 ≡ length front = omega (arith, length-front) in
      rw
        (
          here,
          char_at-append (quoted x.key) (b':' ∷ behind),
          drop-append_add (quoted x.key) (b':' ∷ behind) 1,
          find_value x rest w,
          there,
        )
        (value_at-front sep w)

zero_add : (n : ℕ) → 0 + n ≡ n
zero_add n = omega arith

-- A well-formed element that is followed by ',' or '}', or by the end of the text, is read back from
-- its printed form, and `stat` is the length of that form.
pub parse_json_element-print :
    (x : JsonElement) (rest : Bytes)
    → EndsValue rest
    → IsElement x
    → parse_json_element (print_item x ++ rest) ≡ ok (some (length (print_item x), x))
unfolding parse_json_element
parse_json_element-print x rest sep w =
    let tail = b':' ∷ (print_value x ++ rest) in
    let colon : find_non_space tail ≡ some 0 =
      find_non_space-solid (b':' ∷ []) (print_value x ++ rest) (unfold is_non_space in refl) in
    rw (print_item-whole x rest) (
      rw (find_non_space-solid (quoted x.key) tail (unfold is_non_space in refl)) (
        rw (parse_string_token-quoted x.key tail w.key_closes) (
          let w' = quoted x.key ++ tail in
          ap (λ n. behind_key w' x.key n (find_non_space (drop n w')))
            (zero_add (length (quoted x.key)))
          ∙ ap (λ t. behind_key w' x.key (length (quoted x.key)) (find_non_space t))
              (drop-append (quoted x.key) tail)
          ∙ ap (behind_key w' x.key (length (quoted x.key))) colon
          ∙ behind_key-front x rest sep w)))
