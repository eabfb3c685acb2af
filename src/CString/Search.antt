-- ===== src/CString/Search.antt =====
-- Lemmas on the functions of CString, for texts that are put together from known pieces.
use http_web_server_c.Base.{
  ℕ, ◌≤◌, ◌<◌, ◌≡◌, refl, ◌↔◌, Bool, true, false, none, some, List, [], ◌∷◌, ◌++◌, arith, ◌==◌,
  if◌then◌else◌, length,
}
use http_web_server_c.CString.{
  Bytes, str_eq, str_case_eq, strstr, strchr, skip, until, after, strtok,
}

-- No byte of the list is `b`.
abbrev pub Lacks : ℕ → Bytes → Type 0
Lacks b [] = Unit
Lacks b (c ∷ s) = ((c == b) ≡ false) × Lacks b s

-- No number stands in the list twice.
abbrev pub Distinct : List ℕ → Type 0
Distinct [] = Unit
Distinct (x ∷ xs) = Lacks x xs × Distinct xs

abbrev pub crlf : Bytes
crlf = 13 ∷ 10 ∷ []

pub Lacks-append : (b : ℕ) (s t : Bytes) → Lacks b s → Lacks b t → Lacks b (s ++ t)
Lacks-append b [] t hs ht = ht
Lacks-append b (c ∷ s) t (h, hs) ht = (h, Lacks-append b s t hs ht)

pub str_eq_refl : (a : Bytes) → str_eq a a ≡ true
unfolding str_eq
str_eq_refl [] = refl
str_eq_refl (c ∷ a) = ground (arith, str_eq_refl a)

pub str_eq_iff : (a b : Bytes) → (str_eq a b ≡ true) ↔ (a ≡ b)
unfolding str_eq
str_eq_iff [] [] = ground arith
str_eq_iff [] (d ∷ b) = ground arith
str_eq_iff (c ∷ a) [] = ground arith
str_eq_iff (c ∷ a) (d ∷ b) = ground (arith, str_eq_iff a b)

pub str_case_eq_refl : (a : Bytes) → str_case_eq a a ≡ true
unfolding str_case_eq
str_case_eq_refl [] = refl
str_case_eq_refl (c ∷ a) = ground (arith, str_case_eq_refl a)

pub strstr-crlf :
    (s rest : Bytes) → Lacks 13 s → strstr (s ++ 13 ∷ 10 ∷ rest) crlf ≡ some (length s)
unfolding strstr
strstr-crlf [] rest h = refl
strstr-crlf (c ∷ s) rest (h, hs) = ground (arith, strstr-crlf s rest hs)

pub strstr_byte :
    (b : ℕ) (s rest : Bytes) → Lacks b s → strstr (s ++ b ∷ rest) (b ∷ []) ≡ some (length s)
unfolding strstr
strstr_byte b [] rest h = ground arith
strstr_byte b (c ∷ s) rest (h, hs) = ground (arith, strstr_byte b s rest hs)

pub strchr_lem : (b : ℕ) (s rest : Bytes) → Lacks b s → strchr (s ++ b ∷ rest) b ≡ some (length s)
unfolding strchr
strchr_lem b [] rest h = ground arith
strchr_lem b (c ∷ s) rest (h, hs) = ground (arith, strchr_lem b s rest hs)

pub strchr-none : (b : ℕ) (s : Bytes) → Lacks b s → strchr s b ≡ none
unfolding strchr
strchr-none b [] h = refl
strchr-none b (c ∷ s) (h, hs) = ground (arith, strchr-none b s hs)

pub until_lem : (b : ℕ) (s rest : Bytes) → Lacks b s → until b (s ++ b ∷ rest) ≡ s
until_lem b [] rest h = ground arith
until_lem b (c ∷ s) rest (h, hs) = ground (arith, until_lem b s rest hs)

pub after_lem : (b : ℕ) (s rest : Bytes) → Lacks b s → after b (s ++ b ∷ rest) ≡ rest
after_lem b [] rest h = ground arith
after_lem b (c ∷ s) rest (h, hs) = ground (arith, after_lem b s rest hs)

pub until_all : (b : ℕ) (s : Bytes) → Lacks b s → until b s ≡ s
until_all b [] h = refl
until_all b (c ∷ s) (h, hs) = ground (arith, until_all b s hs)

pub after_all : (b : ℕ) (s : Bytes) → Lacks b s → after b s ≡ []
after_all b [] h = refl
after_all b (c ∷ s) (h, hs) = ground (arith, after_all b s hs)

-- A token, the delimiter behind it, and the rest.
pub strtok_lem :
    (b c : ℕ) (s rest : Bytes)
    → Lacks b (c ∷ s)
    → strtok b ((c ∷ s) ++ b ∷ rest) ≡ some (c ∷ s, rest)
unfolding strtok
strtok_lem b c s rest (h, hs) = ground (arith, until_lem b s rest hs, after_lem b s rest hs)

-- A token that ends with the text.
pub strtok_last : (b c : ℕ) (s : Bytes) → Lacks b (c ∷ s) → strtok b (c ∷ s) ≡ some (c ∷ s, [])
unfolding strtok
strtok_last b c s (h, hs) = ground (arith, until_all b s hs, after_all b s hs)

length-skip-le : (b : ℕ) (s : Bytes) → length (skip b s) ≤ length s
length-skip-le b [] = omega arith
length-skip-le b (c ∷ s) = ground (arith, length-skip-le b s)

length-after-le : (b : ℕ) (s : Bytes) → length (after b s) ≤ length s
length-after-le b [] = omega arith
length-after-le b (c ∷ s) = ground (arith, length-after-le b s)

length-after-skip : (b : ℕ) (s t r : Bytes) → strtok b s ≡ some (t, r) → length r < length s
unfolding strtok
length-after-skip b [] t r e = cc
length-after-skip b (c ∷ s) t r e = ground (arith, length-after-skip b s t r, length-after-le b s)

-- What `strtok_r` saves is shorter than what it read.
pub length-strtok-lt : (b : ℕ) (s t r : Bytes) → strtok b s ≡ some (t, r) → length r < length s
length-strtok-lt b s t r e = length-after-skip b s t r e

-- `Lacks` by evaluation.
abbrev pub lacks : ℕ → Bytes → Bool
lacks b [] = true
lacks b (c ∷ s) = if c == b then false else lacks b s

pub Lacks-lacks : (b : ℕ) (s : Bytes) → lacks b s ≡ true → Lacks b s
Lacks-lacks b [] h = tt
Lacks-lacks b (c ∷ s) h = (ground arith, Lacks-lacks b s (ground arith))
