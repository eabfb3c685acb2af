-- ===== src/Utility/Slice.antt =====
-- Reads through an index, and the two steps by which http.c and json.c copy a trimmed part of a text:
-- the walk back over white space, and `malloc`, `strncpy` and the terminator.
use http_web_server_c.CString.{first_char, Bytes, char_at}
use http_web_server_c.Base.{
  ℕ, zero, suc, ◌+◌, ◌-◌, ◌≡◌, refl, ap, true, Option, none, some, [], ◌∷◌, ◌++◌, append_assoc,
  arith, leb, if◌then◌else◌, length, take, drop, length-append, drop-append, take-append, Outcome,
  ok, fault, ◌>>=◌,
}
use http_web_server_c.Utility.Paths.{EndsSolid}
use http_web_server_c.Utility.{is_non_space}

abbrev checked : Option ℕ → Outcome ℕ
checked none = fault
checked (some c) = ok c

-- s[i]
abbrev pub read : Bytes → ℕ → Outcome ℕ
read s i = checked (char_at s i)

-- `end--; while (is_non_space(*end)) end--;` from the end `n`. The result is the new end, one past the
-- byte that the source's pointer stops at.
unfoldable pub trim_end : Bytes → ℕ → Outcome ℕ
trim_end s zero = fault
trim_end s (suc n) =
    let more = trim_end s n in read s n >>= λ c. (if is_non_space c then more else ok (suc n))

-- `malloc(length + 1)`, `strncpy` and the terminator, for the bytes from `start` up to `end`; a
-- negative length makes `strncpy` write without a bound.
unfoldable pub substring : Bytes → ℕ → ℕ → Outcome Bytes
substring s start end = if leb start end then ok (take (end - start) (drop start s)) else fault

pub char_at-append : (p s : Bytes) → char_at (p ++ s) (length p) ≡ some (first_char s)
char_at-append [] [] = refl
char_at-append [] (c ∷ s) = refl
char_at-append (d ∷ p) s = char_at-append p s

-- The end of a text that ends with no white space stays where it is.
pub trim_end_lem :
    (p s rest : Bytes)
    → EndsSolid s
    → trim_end (p ++ (s ++ rest)) (length p + length s) ≡ ok (length p + length s)
unfolding trim_end
trim_end_lem p [] rest h = absurd h
trim_end_lem p (c ∷ []) rest h =
    let e : length p + 1 ≡ suc (length p) = omega arith in
    rw e (rw (char_at-append p (c ∷ rest)) (rw h refl))
trim_end_lem p (c ∷ d ∷ s) rest h =
    let e : length p + suc (suc (length s)) ≡ length (p ++ (c ∷ [])) + suc (length s) =
      omega (arith, length-append p (c ∷ [])) in
    rw (e, ← append_assoc p (c ∷ []) ((d ∷ s) ++ rest))
      (trim_end_lem (p ++ (c ∷ [])) (d ∷ s) rest h)

pub substring_lem :
    (p s rest : Bytes) → substring (p ++ (s ++ rest)) (length p) (length p + length s) ≡ ok s
unfolding substring
substring_lem p s rest =
    let e : length p + length s - length p ≡ length s = omega arith in
    let test : leb (length p) (length p + length s) ≡ true = ground arith in
    rw (test, e, drop-append p (s ++ rest)) (ap ok (take-append s rest))
