-- ===== src/Json/Element.antt =====
-- struct json_element of src/json.h, and `parse_json_element` of src/json.c.
pub mod RoundTrip
use http_web_server_c.Base.{
  ℕ, zero, suc, ◌+◌, ◌-◌, ◌*◌, ◌≤◌, ◌<◌, ◌≡◌, refl, sym, ap, ◌∙◌, ◌≢◌, ◌↔◌, ◌⊎◌, inl, inr, Bool,
  true, false, not, ◌&&◌, ◌||◌, Option, none, some, List, [], ◌∷◌, ◌++◌, append-nil, append_assoc,
  arith, ◌==◌, ltb, leb, if◌then◌else◌, Bool-cases, Option-cases, length, take, drop, length-append,
  drop-append, drop-append_add, take-append, Outcome, ok, fault, abort, timeout, ◌>>=◌,
}
use http_web_server_c.Utility.Slice.{substring, trim_end, read}
use http_web_server_c.Utility.{find_non_space}
use http_web_server_c.CString.{Bytes}
use http_web_server_c.Json.StringToken.{parse_string_token}

-- enum json_value_type
pub data ValueType : Type 0 where
  json_object json_array json_number json_string json_boolean json_null : ValueType

pub record JsonElement : Type 0 where
  pub value_type : ValueType
  pub key : Bytes
  pub value : Bytes

-- `while (*end && *end != ',' && *end != '}') end++;` from `rest` on, at index `i`
unfoldable pub scan_value : Bytes → ℕ → ℕ
scan_value [] i = i
scan_value (c ∷ rest) i =
    let more = scan_value rest (i + 1) in if c == b',' || c == b'}' then i else more

-- `stat` and the element; `none` stands for `stat` 0 and NULL.
abbrev pub string_value : Bytes → ℕ → Option (ℕ × Bytes) → Outcome (Option (ℕ × JsonElement))
string_value key i none = ok none
string_value key i (some (stat, value)) =
    ok (some (i + stat, record { value_type = json_string; key = key; value = value }))

-- From the value on, at index `i` of the text `s`.
unfoldable pub element_value : Bytes → Bytes → ℕ → Outcome (Option (ℕ × JsonElement))
unfolding scan_value
element_value s key i = do
  c ← read s i
  if not (c == b'"')
      then (do
        let end = scan_value (drop i s) i
        n ← trim_end s end
        value ← substring s i n
        ok (some (end, record { value_type = json_number; key = key; value = value })))
      else parse_string_token (drop i s) >>= string_value key i

-- `find_non_space` behind the ':' may return NULL, which is then used as a pointer.
abbrev pub value_at : Bytes → Bytes → ℕ → Option ℕ → Outcome (Option (ℕ × JsonElement))
value_at s key i none = fault
value_at s key i (some k) = element_value s key (i + k)

abbrev pub behind_key : Bytes → Bytes → ℕ → Option ℕ → Outcome (Option (ℕ × JsonElement))
behind_key s key offset none = ok none
behind_key s key offset (some k) = read s (offset + k) >>= λ c.
    if not (c == b':')
    then ok none
    else let after = offset + k + 1 in value_at s key after (find_non_space (drop after s))

abbrev pub with_key : Bytes → ℕ → Option (ℕ × Bytes) → Outcome (Option (ℕ × JsonElement))
with_key s start none = ok none
with_key s start (some (stat, key)) =
    let offset = start + stat in behind_key s key offset (find_non_space (drop offset s))

abbrev pub from_key : Bytes → Option ℕ → Outcome (Option (ℕ × JsonElement))
from_key s none = fault
from_key s (some start) = parse_string_token (drop start s) >>= with_key s start

unfoldable pub parse_json_element : Bytes → Outcome (Option (ℕ × JsonElement))
unfolding element_value
parse_json_element s = from_key s (find_non_space s)
