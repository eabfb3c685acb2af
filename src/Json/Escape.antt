-- ===== src/Json/Escape.antt =====
-- The escapes of json.c: what `parse_string_token` decodes and `json_object_stringify` prints.
use http_web_server_c.Base.{
  ℕ, ◌+◌, ◌≡◌, refl, Bool, true, ◌&&◌, ◌||◌, Option, none, some, [], ◌∷◌, ◌++◌, arith, ◌==◌, leb,
  if◌then◌else◌, length, length-append,
}
use http_web_server_c.CString.{Bytes}

-- isdigit(ch) in the C locale
abbrev is_digit : ℕ → Bool
is_digit ch = leb b'0' ch && leb ch b'9'

unfoldable pub is_hex_digit : ℕ → Bool
is_hex_digit ch =
    if leb b'a' ch && leb ch b'f'
    then true
    else if leb b'A' ch && leb ch b'F'
    then true
    else is_digit ch

-- The byte for the letter behind a backslash, other than 'u'.
unfoldable pub unescape : ℕ → Option ℕ
unescape e =
    if e == b'"'
    then some b'"'
    else if e == b'\\'
    then some b'\\'
    else if e == b'/'
    then some b'/'
    else if e == b'b'
    then some 8
    else if e == b'f'
    then some 12
    else if e == b'n'
    then some 10
    else if e == b'r'
    then some 13
    else if e == b't'
    then some 9
    else none

-- The cases of the measuring `switch`.
unfoldable pub is_escaped : ℕ → Bool
is_escaped c =
    c == b'"' || c == b'\\' || c == b'/' || c == 8 || c == 12 || c == 10 || c == 13 || c == 9

-- The bytes that the printing `switch` writes.
unfoldable pub escape_char : ℕ → Bytes
escape_char c =
    if c == b'"'
    then b'\\' ∷ b'"' ∷ []
    else if c == b'\\'
    then b'\\' ∷ b'\\' ∷ []
    else if c == b'/'
    then b'\\' ∷ b'/' ∷ []
    else if c == 8
    then b'\\' ∷ b'b' ∷ []
    else if c == 12
    then b'\\' ∷ b'f' ∷ []
    else if c == 10
    then b'\\' ∷ b'n' ∷ []
    else if c == 13
    then b'\\' ∷ b'r' ∷ []
    else if c == 9
    then b'\\' ∷ b't' ∷ []
    else c ∷ []

-- The loops over a key or a value: measuring, and printing.
unfoldable pub measure : Bytes → ℕ
unfolding is_escaped
measure [] = 0
measure (c ∷ s) = (if is_escaped c then 2 else 1) + measure s

unfoldable pub escape : Bytes → Bytes
unfolding escape_char
escape [] = []
escape (c ∷ s) = escape_char c ++ escape s

length-escape_char : (c : ℕ) → length (escape_char c) ≡ (if is_escaped c then 2 else 1)
unfolding escape_char is_escaped
length-escape_char c = ground arith

-- The two loops agree.
pub length-escape : (s : Bytes) → length (escape s) ≡ measure s
unfolding escape measure
length-escape [] = refl
length-escape (c ∷ s) =
    omega (arith, length-append (escape_char c) (escape s), length-escape_char c, length-escape s)
