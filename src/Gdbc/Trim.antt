-- ===== src/Gdbc/Trim.antt =====
-- `trim_string` of gdbc/src/main.c. Its allocations find memory.
pub mod Laws
use http_web_server_c.CString.{Bytes, isspace}
use http_web_server_c.Base.{
  ℕ, zero, suc, ◌+◌, ◌-◌, ◌*◌, ◌≤◌, ◌<◌, ◌≡◌, refl, sym, ap, ◌∙◌, ◌≢◌, ◌↔◌, ◌⊎◌, inl, inr, Bool,
  true, false, not, ◌&&◌, ◌||◌, Option, none, some, List, [], ◌∷◌, ◌++◌, append-nil, append_assoc,
  arith, ◌==◌, ltb, leb, if◌then◌else◌, Bool-cases, Option-cases, length, take, drop, length-append,
  drop-append, drop-append_add, take-append, Outcome, ok, fault, abort, timeout, ◌>>=◌, ℤ, pos,
  negsuc, get_elem?,
}

-- `while (*str && isspace(*str)) str++;`
abbrev pub skip_spaces : Bytes → Bytes
skip_spaces [] = []
skip_spaces (c ∷ s) = if isspace c then skip_spaces s else c ∷ s

abbrev pub space_at : Option ℕ → Bool
space_at none = false
space_at (some c) = isspace c

-- `while (end > str && isspace(*end)) end--;` from the index `n`
abbrev pub last_solid : ℕ → Bytes → ℕ
last_solid zero s = 0
last_solid (suc n) s =
    let before = last_solid n s in if space_at (get_elem? s (suc n)) then before else suc n

abbrev pub trim_end_spaces : Bytes → Bytes
trim_end_spaces [] = []
trim_end_spaces (c ∷ s) = take (last_solid (length s) (c ∷ s) + 1) (c ∷ s)

-- `none` is NULL.
unfoldable pub trim_string : Option Bytes → Option Bytes
trim_string none = none
trim_string (some s) = some (trim_end_spaces (skip_spaces s))
