-- ===== src/Json/StringToken.antt =====
-- `parse_string_token` of src/json.c.
pub mod RoundTrip
pub mod Bounds
use http_web_server_c.Base.{
  ℕ, zero, suc, ◌+◌, ◌-◌, ◌*◌, ◌≤◌, ◌<◌, ◌≡◌, refl, sym, ap, ◌∙◌, ◌≢◌, ◌↔◌, ◌⊎◌, inl, inr, Bool,
  true, false, not, ◌&&◌, ◌||◌, Option, none, some, List, [], ◌∷◌, ◌++◌, append-nil, append_assoc,
  arith, ◌==◌, ltb, leb, if◌then◌else◌, Bool-cases, Option-cases, length, take, drop, length-append,
  drop-append, drop-append_add, take-append, Outcome, ok, fault, abort, timeout, ◌>>=◌,
}
use http_web_server_c.Utility.Slice.{read}
use http_web_server_c.CString.{Bytes, first_char}
use http_web_server_c.Json.Escape.{is_hex_digit, unescape}

-- The first loop: from `rest` on, at index `len`, behind the byte `prev`; `none` at the terminator.
unfoldable pub scan_close : ℕ → Bytes → ℕ → Option ℕ
scan_close prev [] len = none
scan_close prev (c ∷ rest) len =
    let more = scan_close c rest (len + 1) in
    if prev == b'\\' || not (c == b'"') then more else some len

-- One round of the second loop on the text from index `i` on: the byte that is stored and by how much
-- `i` grows, or `none` where the token is refused. The four digits behind "\u" are read in any case.
abbrev pub unicode : Bytes → Outcome (Option (ℕ × ℕ))
unicode s = do
  a ← read s 2
  b ← read s 3
  c ← read s 4
  d ← read s 5
  if is_hex_digit a && is_hex_digit b && is_hex_digit c && is_hex_digit d
      then ok (some (b' ', 6))
      else ok none

abbrev pub simple : Option ℕ → Outcome (Option (ℕ × ℕ))
simple none = ok none
simple (some c) = ok (some (c, 2))

unfoldable pub next_char : Bytes → Outcome (Option (ℕ × ℕ))
unfolding unescape is_hex_digit
next_char s = do
  c ← read s 0
  if not (c == b'\\')
      then ok (some (c, 1))
      else (do e ← read s 1; if e == b'u' then unicode s else simple (unescape e))

abbrev pub store_char :
    (ℕ → Bytes → Bytes → Outcome (Option Bytes))
    → ℕ
    → Bytes
    → Bytes
    → Option (ℕ × ℕ)
    → Outcome (Option Bytes)
store_char go n s out none = ok none
store_char go n s out (some (c, k)) = go (n - k) (drop k s) (out ++ (c ∷ []))

-- The second loop, on fuel, with `n` bytes left in front of the closing quotation mark.
unfoldable pub decode : ℕ → ℕ → Bytes → Bytes → Outcome (Option Bytes)
unfolding next_char
decode zero n s out = timeout
decode (suc fuel) zero s out = ok (some out)
decode (suc fuel) (suc n) s out = next_char s >>= store_char (decode fuel) (suc n) s out

abbrev pub with_stat : ℕ → Option Bytes → Outcome (Option (ℕ × Bytes))
with_stat len none = ok none
with_stat len (some out) = ok (some (len, out))

abbrev pub decode_to : Bytes → Option ℕ → Outcome (Option (ℕ × Bytes))
decode_to s none = ok none
decode_to s (some close) = decode (close + 1) (close - 1) (drop 1 s) [] >>= with_stat (close + 1)

-- The two fields of the result; `none` where `stat` is 0 and `value` NULL.
unfoldable pub parse_string_token : Bytes → Outcome (Option (ℕ × Bytes))
unfolding scan_close decode
parse_string_token s =
    if not (first_char s == b'"') then ok none else decode_to s (scan_close b'"' (drop 1 s) 1)
