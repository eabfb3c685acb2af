-- ===== src/CString.antt =====
-- Strings of C, and the functions of <string.h> that the program calls. A string is the list of its
-- bytes before the terminator, so no byte of it is 0; a pointer into a string is an index or the
-- list of what follows it.
pub mod Search
use http_web_server_c.Base.{
  ℕ, zero, suc, ◌+◌, ◌-◌, ◌*◌, ◌≤◌, ◌<◌, ◌≡◌, refl, sym, ap, ◌∙◌, ◌≢◌, ◌↔◌, ◌⊎◌, inl, inr, Bool,
  true, false, not, ◌&&◌, ◌||◌, Option, none, some, List, [], ◌∷◌, ◌++◌, append-nil, append_assoc,
  arith, ◌==◌, ltb, leb, if◌then◌else◌, Bool-cases, Option-cases, length, take, drop, length-append,
  drop-append, drop-append_add, take-append, Outcome, ok, fault, abort, timeout, ◌>>=◌, ℤ, pos,
  negsuc, get_elem?, String,
}
use Prim.Native.Char.{code}

abbrev pub Bytes : Type 0
Bytes = List ℕ

-- The bytes of a literal of the source.
abbrev pub codes : String → Bytes
codes String.[] = []
codes (String.◌∷◌ c s) = code c ∷ codes s

-- s[i] at an index up to the terminator; `none` past it.
abbrev pub char_at : Bytes → ℕ → Option ℕ
char_at [] zero = some 0
char_at [] (suc i) = none
char_at (c ∷ s) zero = some c
char_at (c ∷ s) (suc i) = char_at s i

-- *s
abbrev pub first_char : Bytes → ℕ
first_char [] = 0
first_char (c ∷ s) = c

-- strcmp(a, b) == 0
unfoldable pub str_eq : Bytes → Bytes → Bool
str_eq [] [] = true
str_eq [] (d ∷ b) = false
str_eq (c ∷ a) [] = false
str_eq (c ∷ a) (d ∷ b) = c == d && str_eq a b

-- tolower(c) in the C locale
unfoldable pub to_lower : ℕ → ℕ
to_lower c = if leb b'A' c && leb c b'Z' then c + 32 else c

-- strcasecmp(a, b) == 0
unfoldable pub str_case_eq : Bytes → Bytes → Bool
unfolding to_lower
str_case_eq [] [] = true
str_case_eq [] (d ∷ b) = false
str_case_eq (c ∷ a) [] = false
str_case_eq (c ∷ a) (d ∷ b) = to_lower c == to_lower d && str_case_eq a b

-- isspace(c) in the C locale
abbrev pub isspace : ℕ → Bool
isspace c = c == 32 || (leb 9 c && leb c 13)

abbrev pub starts_with : Bytes → Bytes → Bool
starts_with [] s = true
starts_with (n ∷ needle) [] = false
starts_with (n ∷ needle) (c ∷ s) = n == c && starts_with needle s

abbrev pub shift : Option ℕ → Option ℕ
shift none = none
shift (some i) = some (suc i)

-- strstr(s, needle), as the index of the match; the source's needles are not empty
unfoldable pub strstr : Bytes → Bytes → Option ℕ
strstr [] needle = none
strstr (c ∷ s) needle = if starts_with needle (c ∷ s) then some 0 else shift (strstr s needle)

-- strchr(s, ch), for ch other than 0
unfoldable pub strchr : Bytes → ℕ → Option ℕ
strchr [] ch = none
strchr (c ∷ s) ch = if c == ch then some 0 else shift (strchr s ch)

-- strtok_r with one delimiter: `skip` passes the delimiters in front, `until` cuts the token, and
-- what follows the delimiter behind it is the saved pointer.
abbrev pub skip : ℕ → Bytes → Bytes
skip d [] = []
skip d (c ∷ s) = if c == d then skip d s else c ∷ s

abbrev pub until : ℕ → Bytes → Bytes
until d [] = []
until d (c ∷ s) = if c == d then [] else c ∷ until d s

abbrev pub after : ℕ → Bytes → Bytes
after d [] = []
after d (c ∷ s) = if c == d then s else after d s

abbrev token_at : ℕ → Bytes → Option (Bytes × Bytes)
token_at d [] = none
token_at d (c ∷ s) = some (until d (c ∷ s), after d (c ∷ s))

unfoldable pub strtok : ℕ → Bytes → Option (Bytes × Bytes)
strtok d s = token_at d (skip d s)
