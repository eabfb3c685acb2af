-- ===== src/Utility.antt =====
-- src/utility.h and src/utility.c: white space, and the comparison of URL paths. A `char` is read as
-- a signed byte, as on x86-64.
pub mod Paths
pub mod Slice
use http_web_server_c.Base.{
  ℕ, zero, suc, ◌+◌, ◌-◌, ◌*◌, ◌≤◌, ◌<◌, ◌≡◌, refl, sym, ap, ◌∙◌, ◌≢◌, ◌↔◌, ◌⊎◌, inl, inr, Bool,
  true, false, not, ◌&&◌, ◌||◌, Option, none, some, List, [], ◌∷◌, ◌++◌, append-nil, append_assoc,
  arith, ◌==◌, ltb, leb, if◌then◌else◌, Bool-cases, Option-cases, length, take, drop, length-append,
  drop-append, drop-append_add, take-append, Outcome, ok, fault, abort, timeout, ◌>>=◌, ◌%◌,
}
use http_web_server_c.CString.{Bytes, shift}

-- The name says the opposite: it holds of the six white-space characters.
unfoldable pub is_non_space : ℕ → Bool
is_non_space ch = ch == 10 || ch == 9 || ch == 13 || ch == 32 || ch == 12 || ch == 11

-- The result is the distance from `str`; `none` is NULL.
unfoldable pub find_non_space : Bytes → Option ℕ
find_non_space [] = none
find_non_space (ch ∷ str) = if is_non_space ch then shift (find_non_space str) else some 0

-- The values -1, 0 and 1.
pub data Comparison : Type 0 where
  less same greater : Comparison

-- Signed bytes are ordered as these numbers.
abbrev biased : ℕ → ℕ
biased c = (c + 128) % 256

-- `lhs[i] - rhs[i] < 0`
abbrev by_difference : ℕ → ℕ → Comparison
by_difference l r = if ltb (biased l) (biased r) then less else greater

abbrev is_slash : Bytes → Bool
is_slash [] = Bool.false
is_slash (c ∷ []) = c == b'/'
is_slash (c ∷ d ∷ s) = Bool.false

unfoldable pub url_path_cmp : Bytes → Bytes → Comparison
url_path_cmp [] [] = same
url_path_cmp [] (r ∷ rhs) = if is_slash (r ∷ rhs) then same else by_difference 0 r
url_path_cmp (l ∷ lhs) [] = if is_slash (l ∷ lhs) then same else by_difference l 0
url_path_cmp (l ∷ lhs) (r ∷ rhs) = if l == r then url_path_cmp lhs rhs else by_difference l r
