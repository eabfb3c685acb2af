-- ===== src/Json/StringToken/Bounds.antt =====
-- `parse_string_token` on any text: it ends, and stays in its buffer.
use http_web_server_c.Base.{
  ℕ, zero, suc, ◌+◌, ◌-◌, ◌≤◌, ◌<◌, ◌≡◌, inl, inr, not, ◌&&◌, Option, none, some, [], ◌∷◌, ◌++◌,
  arith, ◌==◌, Option-cases, length, drop, length-append, Outcome, ok, fault, abort, timeout,
  Ensures, Finishes, Ensures-bind, if_both,
}
use http_web_server_c.Json.Escape.{is_hex_digit, unescape}
use http_web_server_c.Json.StringToken.{
  store_char, unicode, with_stat, decode, next_char, scan_close, simple, parse_string_token,
}
use http_web_server_c.Utility.Slice.{read}
use http_web_server_c.CString.{Bytes}

scan_close-bounds :
    (prev : ℕ) (rest : Bytes) (len close : ℕ)
    → scan_close prev rest len ≡ some close
    → (len ≤ close) × (close < len + length rest)
unfolding scan_close
scan_close-bounds prev [] len close e = absurd (cc e)
scan_close-bounds prev (c ∷ rest) len close e =
    ground (arith, scan_close-bounds c rest (len + 1) close)

-- A round moves on by at least one byte.
abbrev Advances : Option (ℕ × ℕ) → Type 0
Advances none = Unit
Advances (some (c, k)) = 0 < k

simple-Advances : (o : Option ℕ) → Ensures Advances (simple o)
simple-Advances none = tt
simple-Advances (some c) = omega arith

read-any : (s : Bytes) (i : ℕ) → Ensures (λ _. Unit {0}) (read s i)
read-any s i = ground arith

unicode-Advances : (s : Bytes) → Ensures Advances (unicode s)
unicode-Advances s =
    Ensures-bind (λ _. Unit {0}) Advances (read s 2) _ (read-any s 2)
      λ a _.
        Ensures-bind (λ _. Unit {0}) Advances (read s 3) _ (read-any s 3)
          λ b _.
            Ensures-bind (λ _. Unit {0}) Advances (read s 4) _ (read-any s 4)
              λ c _.
                Ensures-bind (λ _. Unit {0}) Advances (read s 5) _ (read-any s 5)
                  λ d _.
                    if_both (Ensures Advances)
                      (is_hex_digit a && is_hex_digit b && is_hex_digit c && is_hex_digit d) _ _
                      (omega arith) tt

next_char-Advances : (s : Bytes) → Ensures Advances (next_char s)
unfolding next_char
next_char-Advances s =
    Ensures-bind (λ _. Unit {0}) Advances (read s 0) _ (read-any s 0)
      λ c _. if_both (Ensures Advances) (not (c == b'\\')) _ _ (omega arith) (
        Ensures-bind (λ _. Unit {0}) Advances (read s 1) _ (read-any s 1)
          λ e _.
            if_both (Ensures Advances) (e == b'u') _ _ (unicode-Advances s)
              (simple-Advances (unescape e)))

-- At most `n` bytes are stored behind `out`.
abbrev Stored : ℕ → Bytes → Option Bytes → Type 0
Stored n out none = Unit
Stored n out (some v) = length v ≤ length out + n

Stored-mono :
    (m n : ℕ) (out out' : Bytes) (o : Outcome (Option Bytes))
    → length out' + m ≤ length out + n
    → Ensures (Stored m out') o
    → Ensures (Stored n out) o
Stored-mono m n out out' (ok none) le h = tt
Stored-mono m n out out' (ok (some v)) le h = omega arith
Stored-mono m n out out' fault le h = tt
Stored-mono m n out out' abort le h = h
Stored-mono m n out out' timeout le h = h

store_char-Stored :
    (go : ℕ → Bytes → Bytes → Outcome (Option Bytes)) (n : ℕ) (s out : Bytes) (o : Option (ℕ × ℕ))
    → ((m : ℕ) (r out' : Bytes) → m < n → Ensures (Stored m out') (go m r out'))
    → Advances o
    → 0 < n
    → Ensures (Stored n out) (store_char go n s out o)
store_char-Stored go n s out none ih h pos = tt
store_char-Stored go n s out (some (c, k)) ih h pos =
    Stored-mono (n - k) n out (out ++ (c ∷ [])) (go (n - k) (drop k s) (out ++ (c ∷ [])))
      (omega (arith, length-append out (c ∷ [])))
      (ih (n - k) (drop k s) (out ++ (c ∷ [])) (omega arith))

decode-Stored :
    (fuel n : ℕ) (s out : Bytes) → n < fuel → Ensures (Stored n out) (decode fuel n s out)
unfolding decode
decode-Stored zero n s out lt = absurd (omega arith)
decode-Stored (suc fuel) zero s out lt = omega arith
decode-Stored (suc fuel) (suc n) s out lt =
    Ensures-bind Advances (Stored (suc n) out) (next_char s)
      (store_char (decode fuel) (suc n) s out) (next_char-Advances s)
      (λ o h.
        store_char-Stored (decode fuel) (suc n) s out o
          (λ m r out' less. decode-Stored fuel m r out' (omega arith)) h (omega arith))

-- What `parse_string_token` returns for a text `s`: `stat` counts bytes of `s`, and the string fits,
-- with its terminator, the `stat - 1` bytes between the opening quotation mark and the end.
abbrev pub IsToken : Bytes → Option (ℕ × Bytes) → Type 0
IsToken s none = Unit
IsToken s (some (stat, value)) = (stat ≤ length s) × (length value + 2 ≤ stat)

with_stat-IsToken :
    (s : Bytes) (close : ℕ) (o : Option Bytes)
    → 0 < close
    → close < length s
    → Stored (close - 1) [] o
    → Ensures (IsToken s) (with_stat (close + 1) o)
with_stat-IsToken s close none pos lt h = tt
with_stat-IsToken s close (some v) pos lt h = omega arith

-- On every text `parse_string_token` runs within its fuel. It reads outside the text (`fault`),
-- refuses the token, or returns a string with `stat` at most the length of the text and at least two
-- more than the length of the string, so that string and terminator fit the buffer of `stat` bytes.
pub parse_string_token_bounds : (s : Bytes) → Ensures (IsToken s) (parse_string_token s)
unfolding parse_string_token
parse_string_token_bounds [] = tt
parse_string_token_bounds (c ∷ s) =
    if_both (Ensures (IsToken (c ∷ s))) (not (c == b'"')) _ _ tt
      (elim (Option-cases (scan_close b'"' s 1)) [
        | inl e ↦ rw e tt
        | inr (close, e) ↦
            let (low, high) = scan_close-bounds b'"' s 1 close e in
            rw e (
              Ensures-bind (Stored (close - 1) []) (IsToken (c ∷ s))
                (decode (close + 1) (close - 1) s []) (with_stat (close + 1))
                (decode-Stored (close + 1) (close - 1) s [] (omega arith))
                (λ o h. with_stat-IsToken (c ∷ s) close o (omega arith) (omega arith) h))
      ])

pub parse_string_token-Finishes : (s : Bytes) → Finishes (parse_string_token s)
parse_string_token-Finishes s = go (parse_string_token s) (parse_string_token_bounds s)
  where
    go : (m : Outcome (Option (ℕ × Bytes))) → Ensures (IsToken s) m → Finishes m
    go (ok a) h = tt
    go fault h = tt
    go abort h = h
    go timeout h = h
