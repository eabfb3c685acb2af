-- ===== src/Json/StringToken/RoundTrip.antt =====
-- `parse_string_token` decodes what `json_object_stringify` prints for a string, but for strings that
-- end with a backslash.
use http_web_server_c.CString.{Bytes}
use http_web_server_c.Base.{
  ℕ, zero, suc, ◌+◌, ◌-◌, ◌≤◌, ◌<◌, ◌≡◌, refl, ap, ◌∙◌, Bool, true, false, none, some, [], ◌∷◌,
  ◌++◌, append-nil, append_assoc, arith, ◌==◌, if◌then◌else◌, length, drop, length-append,
  drop-append, ok,
}
use http_web_server_c.Json.Escape.{escape, escape_char}
use http_web_server_c.Json.StringToken.{scan_close, next_char, decode, parse_string_token}

abbrev last_char : ℕ → Bytes → ℕ
last_char prev [] = prev
last_char prev (c ∷ s) = last_char c s

-- Whether the text ends with a backslash; `b` for the empty text.
abbrev pub ends_backslash : Bool → Bytes → Bool
ends_backslash b [] = b
ends_backslash b (c ∷ s) = ends_backslash (c == b'\\') s

-- The scan runs over the escape of one byte.
scan_close-char :
    (prev c : ℕ) (rest : Bytes) (len : ℕ)
    → scan_close prev (escape_char c ++ rest) len
      ≡ scan_close (last_char prev (escape_char c)) rest (len + length (escape_char c))
unfolding scan_close escape_char
scan_close-char prev c rest len = ground arith

-- The escape of a byte ends with a backslash exactly for a backslash.
last_char-char : (prev c : ℕ) → (last_char prev (escape_char c) == b'\\') ≡ (c == b'\\')
unfolding escape_char
last_char-char prev c = ground arith

-- Where the scan stands behind the escape of a text, and behind which byte.
scan_close-escape :
    (prev : ℕ) (b : Bool) (s rest : Bytes) (len : ℕ)
    → (prev == b'\\') ≡ b
    → (d : ℕ) × (scan_close prev (escape s ++ rest) len
        ≡ scan_close d rest (len + length (escape s)))
      × ((d == b'\\') ≡ ends_backslash b s)
unfolding escape
scan_close-escape prev b [] rest len e = (prev, ap (λ n. scan_close prev rest n) (omega arith), e)
scan_close-escape prev b (c ∷ s) rest len e =
    let (d, run, ends) =
      scan_close-escape (last_char prev (escape_char c)) (c == b'\\') s rest
        (len + length (escape_char c)) (last_char-char prev c) in
    (
      d,
      ap (λ t. scan_close prev t len) (append_assoc (escape_char c) (escape s) rest)
          ∙ scan_close-char prev c (escape s ++ rest) len
          ∙ run
          ∙ ap (λ n. scan_close d rest n) (omega (arith, length-append (escape_char c) (escape s))),
      ends,
    )

-- A closing quotation mark is found behind a text that does not end with a backslash, and passed
-- over behind one that does.
scan_close_end :
    (d : ℕ) (rest : Bytes) (len : ℕ)
    → scan_close d (b'"' ∷ rest) len
      ≡ (if d == b'\\' then scan_close b'"' rest (len + 1) else some len)
unfolding scan_close
scan_close_end d rest len = ground arith

next_char-escape :
    (c : ℕ) (rest : Bytes)
    → next_char (escape_char c ++ rest) ≡ ok (some (c, length (escape_char c)))
unfolding next_char escape_char
next_char-escape c rest = ground arith

decode_step :
    (fuel n : ℕ) (s out : Bytes) (c k : ℕ)
    → 0 < n
    → next_char s ≡ ok (some (c, k))
    → decode (suc fuel) n s out ≡ decode fuel (n - k) (drop k s) (out ++ (c ∷ []))
unfolding decode
decode_step fuel zero s out c k pos e = absurd (omega arith)
decode_step fuel (suc n) s out c k pos e = rw e refl

escape_char-pos : (c : ℕ) → 0 < length (escape_char c)
unfolding escape_char
escape_char-pos c = ground arith

pub length-le-escape : (s : Bytes) → length s ≤ length (escape s)
unfolding escape
length-le-escape [] = omega arith
length-le-escape (c ∷ s) =
    omega (arith, length-append (escape_char c) (escape s), escape_char-pos c, length-le-escape s)

decode-escape :
    (fuel : ℕ) (s rest out : Bytes)
    → length s < fuel
    → decode fuel (length (escape s)) (escape s ++ rest) out ≡ ok (some (out ++ s))
unfolding escape
decode-escape zero s rest out lt = absurd (omega arith)
decode-escape (suc fuel) [] rest out lt = unfold decode in rw (append-nil out) refl
decode-escape (suc fuel) (c ∷ s) rest out lt =
    let e = escape_char c in
    let len : length (e ++ escape s) ≡ length e + length (escape s) = length-append e (escape s) in
    let left : length e + length (escape s) - length e ≡ length (escape s) = omega arith in
    rw (append_assoc e (escape s) rest) (
      decode_step fuel (length (e ++ escape s)) (e ++ (escape s ++ rest)) out c (length e)
        (omega (arith, escape_char-pos c)) (next_char-escape c (escape s ++ rest))
      ∙ rw (len, left, drop-append e (escape s ++ rest))
          (decode-escape fuel s rest (out ++ (c ∷ [])) (omega arith)
            ∙ ap (λ t. ok (some t)) (append_assoc out (c ∷ []) s)))

abbrev pub quoted : Bytes → Bytes
quoted s = b'"' ∷ (escape s ++ (b'"' ∷ []))

quoted-rest : (s rest : Bytes) → quoted s ++ rest ≡ b'"' ∷ (escape s ++ b'"' ∷ rest)
quoted-rest s rest = ap (◌∷◌ b'"') (append_assoc (escape s) (b'"' ∷ []) rest)

-- A string that does not end with a backslash is decoded from its printed form "…", whatever follows
-- it, and `stat` is the length of that form.
pub parse_string_token-quoted :
    (s rest : Bytes)
    → ends_backslash false s ≡ false
    → parse_string_token (quoted s ++ rest) ≡ ok (some (length (quoted s), s))
unfolding parse_string_token
parse_string_token-quoted s rest closes =
    let (d, run, ends) = scan_close-escape b'"' false s (b'"' ∷ rest) 1 refl in
    let stop : scan_close b'"' (escape s ++ b'"' ∷ rest) 1 ≡ some (1 + length (escape s)) =
      run ∙ scan_close_end d rest (1 + length (escape s)) ∙ rw (ends, closes) refl in
    let n : 1 + length (escape s) - 1 ≡ length (escape s) = omega arith in
    rw (quoted-rest s rest) (
      rw stop (
        rw
          (
            n,
            decode-escape (1 + length (escape s) + 1) s (b'"' ∷ rest) []
                (omega (arith, length-le-escape s)),
          )
          (ap (λ k. ok (some (k, s))) (omega (arith, length-append (escape s) (b'"' ∷ []))))))

-- A string that ends with a backslash is not decoded from its printed form: the backslash in front of
-- the closing quotation mark makes the parser pass over it, and the token is refused.
pub parse_string_token_backslash :
    (s : Bytes) → ends_backslash false s ≡ true → parse_string_token (quoted s) ≡ ok none
unfolding parse_string_token
parse_string_token_backslash s open_end =
    let (d, run, ends) = scan_close-escape b'"' false s (b'"' ∷ []) 1 refl in
    let stop : scan_close b'"' (escape s ++ b'"' ∷ []) 1 ≡ none =
      run
      ∙ scan_close_end d [] (1 + length (escape s))
      ∙ rw (ends, open_end) (unfold scan_close in refl) in
    rw stop refl
