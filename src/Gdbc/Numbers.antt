-- ===== src/Gdbc/Numbers.antt =====
-- Numbers as the handlers of gdbc/src/main.c write and read them: "%d" and `atoi`.
pub mod Laws
use http_web_server_c.Base.{
  ℕ, zero, suc, ◌+◌, ◌-◌, ◌*◌, ◌≤◌, ◌<◌, ◌≡◌, refl, sym, ap, ◌∙◌, ◌≢◌, ◌↔◌, ◌⊎◌, inl, inr, Bool,
  true, false, not, ◌&&◌, ◌||◌, Option, none, some, List, [], ◌∷◌, ◌++◌, append-nil, append_assoc,
  arith, ◌==◌, ltb, leb, if◌then◌else◌, Bool-cases, Option-cases, length, take, drop, length-append,
  drop-append, drop-append_add, take-append, Outcome, ok, fault, abort, timeout, ◌>>=◌, ℤ, pos,
  negsuc, get_elem?, ◌%◌,
}
use http_web_server_c.CString.{codes, Bytes}
use http_web_server_c.Gdbc.Trim.{skip_spaces}
use http_web_server_c.Http.Response.{decimal}

unfoldable pub int_text : ℤ → Bytes
int_text (pos n) = decimal n
int_text (negsuc n) = b'-' ∷ decimal (n + 1)

-- The number of the digits at the front of a text, behind the number `n`.
abbrev pub digits_value : ℕ → Bytes → ℕ
digits_value n [] = n
digits_value n (c ∷ s) =
    let rest = digits_value (n * 10 + (c - b'0')) s in if leb b'0' c && leb c b'9' then rest else n

abbrev pub negated : ℕ → ℤ
negated zero = pos 0
negated (suc n) = negsuc n

abbrev pub signed : Bytes → ℤ
signed [] = pos 0
signed (c ∷ s) =
    if c == b'-'
    then negated (digits_value 0 s)
    else if c == b'+'
    then pos (digits_value 0 s)
    else pos (digits_value 0 (c ∷ s))

abbrev smaller_of : ℕ → ℕ → ℕ
smaller_of a b = if leb a b then a else b

-- The `int` whose 32 bits are those of the number `w`.
abbrev pub of_bits : ℕ → ℤ
of_bits w = if ltb w 2147483648 then pos w else negsuc (4294967295 - w)

-- The `int` that a `long` becomes. A number that no `long` holds is the nearest that one does.
abbrev pub to_int : ℤ → ℤ
to_int (pos n) = of_bits (smaller_of n 9223372036854775807 % 4294967296)
to_int (negsuc n) =
    of_bits ((4294967296 - smaller_of (n + 1) 9223372036854775808 % 4294967296) % 4294967296)

-- `atoi` of the C library: the number at the front of the text as `strtol` reads it, where a text
-- beyond the range of `long` gives the nearest bound, as an `int`.
unfoldable pub atoi : Bytes → ℤ
atoi s = to_int (signed (skip_spaces s))

-- "{\"pid\": %d}"
abbrev pub pid_body : ℤ → Bytes
pid_body pid = codes "{\"pid\": " ++ (int_text pid ++ codes "}")
