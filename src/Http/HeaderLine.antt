-- ===== src/Http/HeaderLine.antt =====
-- `parse_http_header` of src/http.c. Pointers are indices into `header_string`. Where the code walks
-- in front of the string, behind its terminator, or past an end that it compares pointers with, and
-- where it goes on with a NULL of `find_non_space`, its behaviour is undefined: `fault`.
pub mod RoundTrip
pub mod Quoted
pub mod Defects
use http_web_server_c.Utility.Slice.{read, substring, trim_end}
use http_web_server_c.Base.{
  ℕ, zero, suc, ◌+◌, ◌-◌, ◌*◌, ◌≤◌, ◌<◌, ◌≡◌, refl, sym, ap, ◌∙◌, ◌≢◌, ◌↔◌, ◌⊎◌, inl, inr, Bool,
  true, false, not, ◌&&◌, ◌||◌, Option, none, some, List, [], ◌∷◌, ◌++◌, append-nil, append_assoc,
  arith, ◌==◌, ltb, leb, if◌then◌else◌, Bool-cases, Option-cases, length, take, drop, length-append,
  drop-append, drop-append_add, take-append, Outcome, ok, fault, abort, timeout, ◌>>=◌,
}
use http_web_server_c.CString.{Bytes, char_at, strstr}
use http_web_server_c.CString.Search.{crlf}
use http_web_server_c.Utility.{is_non_space, find_non_space}
use http_web_server_c.Http.Headers.{Header}

-- `pointer == end_of_header`, where `end_of_header` may be NULL
abbrev pub at_end : ℕ → Option ℕ → Bool
at_end i none = false
at_end i (some e) = i == e

-- find_non_space(header_string + i), from the start of the string; `fault` for NULL, since the caller
-- reads through the result
abbrev from_offset : ℕ → Option ℕ → Outcome ℕ
from_offset i none = fault
from_offset i (some k) = ok (i + k)

abbrev pub next_solid : Bytes → ℕ → Outcome ℕ
next_solid s i = from_offset i (find_non_space (drop i s))

-- `while (end_of_key != end_of_header && *end_of_key != ':') end_of_key++;` from `rest` on, at index
-- `i`. The result is `none` at the end of the header.
unfoldable pub scan_key : Option ℕ → Bytes → ℕ → Outcome (Option ℕ)
scan_key eoh [] i = if at_end i eoh then ok none else fault
scan_key eoh (c ∷ rest) i =
    let more = scan_key eoh rest (i + 1) in
    if at_end i eoh then ok none else if c == b':' then ok (some i) else more

-- The loop of a quoted key. The results are `end_of_key` and `last_non_space_at`.
unfoldable pub scan_quoted_key : Option ℕ → Bytes → ℕ → ℕ → ℕ → Outcome (Option (ℕ × ℕ))
scan_quoted_key eoh [] i last last_char = if at_end i eoh then ok none else fault
scan_quoted_key eoh (c ∷ rest) i last last_char =
    let skipped = is_non_space c in
    let more =
      scan_quoted_key eoh rest (i + 1) (if skipped then last else i)
        (if skipped then last_char else c) in
    if at_end i eoh
    then ok none
    else if c == b':' && last_char == b'"'
    then ok (some (i, last))
    else more

abbrev pub plain_key : Bytes → ℕ → Option ℕ → Outcome (Option (Bytes × ℕ))
plain_key s start none = ok none
plain_key s start (some end) = do
  n ← trim_end s end
  key ← substring s start n
  ok (some (key, end - start + 1))

abbrev pub quoted_key : Bytes → ℕ → Option (ℕ × ℕ) → Outcome (Option (Bytes × ℕ))
quoted_key s start none = ok none
quoted_key s start (some (end, last)) = do
  key ← substring s (start + 1) last
  ok (some (key, end - start + 1))

-- The key, and `offset` where the value is looked for. The source takes it from the start of the key,
-- not from the start of the string.
unfoldable pub parse_key : Bytes → Option ℕ → ℕ → Outcome (Option (Bytes × ℕ))
unfolding scan_key scan_quoted_key trim_end substring
parse_key s eoh start = do
  c ← read s start
  if not (c == b'"')
      then (do found ← scan_key eoh (drop start s) start; plain_key s start found)
      else (do
        last ← next_solid s (start + 1)
        last_char ← read s last
        found ← scan_quoted_key eoh (drop (last + 1) s) (last + 1) last last_char
        quoted_key s start found)

-- `while (end_of_value != end_of_header) end_of_value++;`, which no value behind that end leaves.
abbrev pub walk_to_end : ℕ → Option ℕ → Outcome ℕ
walk_to_end i none = fault
walk_to_end i (some e) = if leb i e then ok e else fault

-- The loop of a quoted value; the results are `last_non_space_at` and the byte there.
unfoldable pub scan_quoted_value : Option ℕ → Bytes → ℕ → ℕ → ℕ → Outcome (ℕ × ℕ)
scan_quoted_value eoh [] i last last_char = if at_end i eoh then ok (last, last_char) else fault
scan_quoted_value eoh (c ∷ rest) i last last_char =
    let skipped = is_non_space c in
    let more =
      scan_quoted_value eoh rest (i + 1) (if skipped then last else i)
        (if skipped then last_char else c) in
    if at_end i eoh then ok (last, last_char) else more

abbrev pub quoted_value : Bytes → ℕ → ℕ × ℕ → Outcome (Option Bytes)
quoted_value s start (last, last_char) =
    if not (last_char == b'"')
    then ok none
    else substring s (start + 1) last >>= λ value. ok (some value)

unfoldable pub parse_value : Bytes → Option ℕ → ℕ → Outcome (Option Bytes)
unfolding scan_quoted_value trim_end substring
parse_value s eoh start = do
  c ← read s start
  if not (c == b'"')
      then (do
        end ← walk_to_end start eoh
        n ← trim_end s end
        value ← substring s start n
        ok (some value))
      else (do
        last ← next_solid s (start + 1)
        last_char ← read s last
        found ← scan_quoted_value eoh (drop (last + 1) s) (last + 1) last last_char
        quoted_value s start found)

abbrev pub finish : Bytes → Option Bytes → Outcome (Option Header)
finish key none = ok none
finish key (some value) = ok (some (record { key = key; value = value }))

abbrev pub value_behind : Bytes → Option ℕ → Option (Bytes × ℕ) → Outcome (Option Header)
value_behind s eoh none = ok none
value_behind s eoh (some (key, offset)) = do
  start ← next_solid s offset
  value ← parse_value s eoh start
  finish key value

-- `none` is the NULL of `parse_header_error`.
unfoldable pub parse_http_header : Bytes → Outcome (Option Header)
unfolding parse_key parse_value
parse_http_header s = do
  let eoh = strstr s crlf
  start ← next_solid s 0
  key ← parse_key s eoh start
  value_behind s eoh key
