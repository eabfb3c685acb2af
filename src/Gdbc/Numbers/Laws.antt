-- ===== src/Gdbc/Numbers/Laws.antt =====
-- `atoi` reads back what "%d" writes, and a number that is written is a plain JSON value.
use http_web_server_c.Base.{
  ℕ, zero, suc, ◌+◌, ◌-◌, ◌*◌, ◌≤◌, ◌<◌, ◌≡◌, refl, ap, ◌∙◌, ◌⊎◌, inl, inr, true, false, [], ◌∷◌,
  arith, ◌==◌, ltb, leb, Bool-cases, ℤ, pos, negsuc, if_both,
}
use http_web_server_c.CString.{isspace, first_char, Bytes}
use http_web_server_c.Gdbc.Trim.{skip_spaces}
use http_web_server_c.Json.Element.RoundTrip.{IsPlain}
use http_web_server_c.CString.Search.{Lacks}
use http_web_server_c.Gdbc.Numbers.{to_int, atoi, int_text, negated, signed, digits_value}
use http_web_server_c.Http.Response.{decimal, digits_before}
use http_web_server_c.Utility.{is_non_space}
use http_web_server_c.Utility.Paths.{EndsSolid, StartsSolid}
use Prim.Native.Nat.{◌/◌, ◌%◌}

abbrev IsDigit : ℕ → Type 0
IsDigit c = (48 ≤ c) × (c < 58)

abbrev AllDigits : Bytes → Type 0
AllDigits [] = Unit
AllDigits (c ∷ s) = IsDigit c × AllDigits s

abbrev SomeDigits : Bytes → Type 0
SomeDigits [] = ⊥
SomeDigits (c ∷ s) = IsDigit c × AllDigits s

last_place : (n : ℕ) → IsDigit (48 + n % 10)
last_place n = (omega arith, omega arith)

AllDigits-SomeDigits : (s : Bytes) → SomeDigits s → AllDigits s
AllDigits-SomeDigits [] h = absurd h
AllDigits-SomeDigits (c ∷ s) h = h

digits_before-SomeDigits :
    (fuel n : ℕ) (out : Bytes)
    → AllDigits out
    → (0 < fuel) ⊎ SomeDigits out
    → SomeDigits (digits_before fuel n out)
unfolding digits_before
digits_before-SomeDigits zero n out h (inl z) = absurd (omega (arith, z))
digits_before-SomeDigits zero n out h (inr d) = d
digits_before-SomeDigits (suc fuel) n out h k =
    if_both SomeDigits (ltb n 10) ((48 + n % 10) ∷ out)
      (digits_before fuel (n / 10) ((48 + n % 10) ∷ out)) (last_place n, h)
      (digits_before-SomeDigits fuel (n / 10) ((48 + n % 10) ∷ out) (last_place n, h)
        (inr (last_place n, h)))

decimal-SomeDigits : (n : ℕ) → SomeDigits (decimal n)
unfolding decimal
decimal-SomeDigits n = digits_before-SomeDigits (n + 1) n [] tt (inl (omega arith))

digit_step :
    (n d : ℕ) (out : Bytes)
    → d < 10
    → digits_value n ((48 + d) ∷ out) ≡ digits_value (n * 10 + d) out
digit_step n d out h =
    let low : leb 48 (48 + d) ≡ true = ground arith in
    let high : leb (48 + d) 57 ≡ true = ground (arith, h) in
    let same_digit : 48 + d - 48 ≡ d = omega arith in rw (low, high, same_digit) refl

digits_value-digits_before :
    (fuel n : ℕ) (out : Bytes)
    → n < fuel
    → digits_value 0 (digits_before fuel n out) ≡ digits_value n out
unfolding digits_before
digits_value-digits_before zero n out h = absurd (omega (arith, h))
digits_value-digits_before (suc fuel) n out h = elim (Bool-cases (ltb n 10)) [
  | inl e ↦
      let small : n < 10 = ground (arith, e) in
      let same_number : n % 10 ≡ n = omega (arith, small) in
      rw (e, same_number) (digit_step 0 n out small ∙ ap (λ m. digits_value m out) (omega arith))
  | inr e ↦
      let large : 10 ≤ n = ground (arith, e) in
      let split : n / 10 * 10 + n % 10 ≡ n = omega arith in
      rw e (
        digits_value-digits_before fuel (n / 10) ((48 + n % 10) ∷ out) (omega (arith, h, large))
        ∙ digit_step (n / 10) (n % 10) out (omega arith)
        ∙ ap (λ m. digits_value m out) split)
]

pub digits_value-decimal : (n : ℕ) → digits_value 0 (decimal n) ≡ n
unfolding decimal
digits_value-decimal n = digits_value-digits_before (n + 1) n [] (omega arith)

signed-SomeDigits : (s : Bytes) → SomeDigits s → signed (skip_spaces s) ≡ pos (digits_value 0 s)
signed-SomeDigits [] h = absurd h
signed-SomeDigits (c ∷ s) ((low, high), h) =
    let solid : isspace c ≡ false = ground (arith, low, high) in
    let no_minus : (c == 45) ≡ false = ground (arith, low) in
    let no_plus : (c == 43) ≡ false = ground (arith, low) in rw (solid, no_minus, no_plus) refl

negative : (n : ℕ) → negated (n + 1) ≡ negsuc n
negative n = let e : n + 1 ≡ suc n = omega arith in rw e refl

-- The numbers that an `int` holds.
abbrev pub IsInt : ℤ → Type 0
IsInt (pos n) = n < 2147483648
IsInt (negsuc n) = n < 2147483648

to_int-IsInt : (z : ℤ) → IsInt z → to_int z ≡ z
to_int-IsInt (pos n) lt =
    let small : leb n 9223372036854775807 ≡ true = ground (arith, lt) in
    let kept : n % 4294967296 ≡ n = omega (arith, lt) in
    let low : ltb n 2147483648 ≡ true = ground (arith, lt) in rw (small, kept, low) refl
to_int-IsInt (negsuc n) lt =
    let small : leb (n + 1) 9223372036854775808 ≡ true = ground (arith, lt) in
    let bits : (4294967296 - (n + 1) % 4294967296) % 4294967296 ≡ 4294967295 - n =
      omega (arith, lt) in
    let high : ltb (4294967295 - n) 2147483648 ≡ false = ground (arith, lt) in
    let back : 4294967295 - (4294967295 - n) ≡ n = omega (arith, lt) in
    rw (small, bits, high, back) refl

-- `atoi` of the text that "%d" writes for an `int` is that number.
pub atoi-int_text : (z : ℤ) → IsInt z → atoi (int_text z) ≡ z
unfolding atoi int_text
atoi-int_text (pos n) v =
    ap to_int
      (signed-SomeDigits (decimal n) (decimal-SomeDigits n) ∙ ap pos (digits_value-decimal n))
    ∙ to_int-IsInt (pos n) v
atoi-int_text (negsuc n) v =
    ap to_int (ap negated (digits_value-decimal (n + 1)) ∙ negative n) ∙ to_int-IsInt (negsuc n) v

Lacks-AllDigits : (b : ℕ) (s : Bytes) → 58 ≤ b → AllDigits s → Lacks b s
Lacks-AllDigits b [] h d = tt
Lacks-AllDigits b (c ∷ s) h ((low, high), d) = (ground (arith, high, h), Lacks-AllDigits b s h d)

Lacks-AllDigits_low : (b : ℕ) (s : Bytes) → b < 48 → AllDigits s → Lacks b s
Lacks-AllDigits_low b [] h d = tt
Lacks-AllDigits_low b (c ∷ s) h ((low, high), d) =
    (ground (arith, low, h), Lacks-AllDigits_low b s h d)

solid_digit : (c : ℕ) → IsDigit c → is_non_space c ≡ false
unfolding is_non_space
solid_digit c (low, high) = ground (arith, low, high)

EndsSolid-SomeDigits : (s : Bytes) → SomeDigits s → EndsSolid s
EndsSolid-SomeDigits [] h = absurd h
EndsSolid-SomeDigits (c ∷ []) (d, h) = solid_digit c d
EndsSolid-SomeDigits (c ∷ e ∷ s) (d, h) = EndsSolid-SomeDigits (e ∷ s) h

StartsSolid-SomeDigits : (s : Bytes) → SomeDigits s → StartsSolid s
StartsSolid-SomeDigits [] h = absurd h
StartsSolid-SomeDigits (c ∷ s) (d, h) = solid_digit c d

unquoted-SomeDigits : (s : Bytes) → SomeDigits s → (first_char s == b'"') ≡ false
unquoted-SomeDigits [] h = absurd h
unquoted-SomeDigits (c ∷ s) ((low, high), h) = ground (arith, low)

-- A number that is not negative is written as a plain value of JSON.
pub int_text-IsPlain : (n : ℕ) → IsPlain (int_text (pos n))
unfolding int_text
int_text-IsPlain n =
    let d = decimal-SomeDigits n in
    record {
      starts = StartsSolid-SomeDigits (decimal n) d;
      ends = EndsSolid-SomeDigits (decimal n) d;
      unquoted = unquoted-SomeDigits (decimal n) d;
      no_comma =
          Lacks-AllDigits_low b',' (decimal n) (omega arith) (AllDigits-SomeDigits (decimal n) d);
      no_brace =
          Lacks-AllDigits b'}' (decimal n) (omega arith) (AllDigits-SomeDigits (decimal n) d);
    }

SomeDigits-nonempty : (s : Bytes) → SomeDigits s → (c : ℕ) × (t : Bytes) × (s ≡ c ∷ t)
SomeDigits-nonempty [] h = absurd h
SomeDigits-nonempty (c ∷ t) h = (c, t, refl)

pub int_text_cons : (n : ℕ) → (c : ℕ) × (t : Bytes) × (int_text (pos n) ≡ c ∷ t)
unfolding int_text
int_text_cons n = SomeDigits-nonempty (decimal n) (decimal-SomeDigits n)
