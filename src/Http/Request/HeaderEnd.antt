-- ===== src/Http/Request/HeaderEnd.antt =====
-- Where `parse_http_request` finds the end of printed headers.
use http_web_server_c.Base.{
  ℕ, ◌+◌, ◌-◌, ◌≡◌, refl, sym, ap, ◌∙◌, inl, inr, false, Option, none, some, List, [], ◌∷◌, ◌++◌,
  append-nil, append_assoc, arith, ◌==◌, Option-cases, length, length-append,
}
use http_web_server_c.CString.Search.{Lacks-append, Lacks}
use http_web_server_c.Http.HeaderLine.RoundTrip.{header_line-append, IsText, IsHeader}
use http_web_server_c.Http.Headers.Printing.{length-header_line}
use http_web_server_c.Http.Headers.{header_line, header_lines, Header}
use http_web_server_c.Http.Request.{crlf_crlf}
use http_web_server_c.CString.{Bytes, strstr}
use http_web_server_c.Http.HeaderBlock.RoundTrip.{AllHeaders}

abbrev shift_by : ℕ → Option ℕ → Option ℕ
shift_by n none = none
shift_by n (some i) = some (n + i)

strstr_skip :
    (s rest : Bytes)
    → Lacks 13 s
    → strstr (s ++ rest) crlf_crlf ≡ shift_by (length s) (strstr rest crlf_crlf)
unfolding strstr
strstr_skip [] rest h = elim (Option-cases (strstr rest crlf_crlf)) [
  | inl e ↦ rw e refl
  | inr (i, e) ↦ rw e (ap some (omega arith))
]
strstr_skip (c ∷ s) rest (h, hs) = elim (Option-cases (strstr rest crlf_crlf)) [
  | inl e ↦ ground (arith, strstr_skip s rest hs)
  | inr (i, e) ↦ ground (arith, strstr_skip s rest hs)
]

-- A line end with something else than another line end behind it.
strstr_pass :
    (c : ℕ) (rest : Bytes)
    → (c == 13) ≡ false
    → strstr (13 ∷ 10 ∷ c ∷ rest) crlf_crlf ≡ shift_by 2 (strstr (c ∷ rest) crlf_crlf)
unfolding strstr
strstr_pass c rest h = ground arith

strstr_hit : (rest : Bytes) → strstr (13 ∷ 10 ∷ 13 ∷ 10 ∷ rest) crlf_crlf ≡ some 0
unfolding strstr
strstr_hit rest = refl

-- The text of a header line without its line end.
abbrev bare : Header → Bytes
bare h = h.key ++ b':' ∷ b' ' ∷ h.value

bare-line : (h : Header) (rest : Bytes) → header_line h ++ rest ≡ bare h ++ 13 ∷ 10 ∷ rest
bare-line h rest =
    header_line-append h rest ∙ sym (append_assoc h.key (b':' ∷ b' ' ∷ h.value) (13 ∷ 10 ∷ rest))

Lacks-bare : (h : Header) → IsHeader h → Lacks 13 (bare h)
Lacks-bare h w =
    Lacks-append 13 h.key (b':' ∷ b' ' ∷ h.value) w.key_text.one_line
      (refl, (refl, w.value_text.one_line))

strstr_line :
    (h : Header) (rest : Bytes)
    → IsHeader h
    → strstr (header_line h ++ rest) crlf_crlf
      ≡ shift_by (length (bare h)) (strstr (13 ∷ 10 ∷ rest) crlf_crlf)
strstr_line h rest w =
    rw (bare-line h rest) (strstr_skip (bare h) (13 ∷ 10 ∷ rest) (Lacks-bare h w))

-- The lines of headers begin with no carriage return.
first_key :
    (k rest : Bytes)
    → IsText k
    → strstr (13 ∷ 10 ∷ (k ++ rest)) crlf_crlf ≡ shift_by 2 (strstr (k ++ rest) crlf_crlf)
first_key [] rest t = absurd t.starts
first_key (c ∷ k) rest t = strstr_pass c (k ++ rest) (t.one_line).0

length-bare : (h : Header) → length (header_line h) ≡ length (bare h) + 2
length-bare h = omega (arith, length-header_line h, length-append h.key (b':' ∷ b' ' ∷ h.value))

-- The number of bytes in front of the last line end.
unfoldable pub header_end : List Header → ℕ
header_end hs = length (header_lines hs) - 2

header_end-add :
    (h : Header) (hs : List Header)
    → header_end (h ∷ hs) + 2 ≡ length (header_line h) + length (header_lines hs)
unfolding header_end
header_end-add h hs = omega (arith, length-bare h, length-append (header_line h) (header_lines hs))

pub strstr-header_lines :
    (h : Header) (hs : List Header) (rest : Bytes)
    → AllHeaders (h ∷ hs)
    → strstr (header_lines (h ∷ hs) ++ 13 ∷ 10 ∷ rest) crlf_crlf ≡ some (header_end (h ∷ hs))
strstr-header_lines h [] rest (w, ws) = rw (append-nil (header_line h)) (
    strstr_line h (13 ∷ 10 ∷ rest) w
    ∙ rw strstr_hit (ap some (omega (arith, header_end-add h [], length-bare h))))
strstr-header_lines h (g ∷ hs) rest (w, (wg, ws)) =
    let tail = header_lines (g ∷ hs) ++ 13 ∷ 10 ∷ rest in
    let split : tail
        ≡ g.key ++ (b':' ∷ b' ' ∷ (g.value ++ 13 ∷ 10 ∷ (header_lines hs ++ 13 ∷ 10 ∷ rest))) =
      append_assoc (header_line g) (header_lines hs) (13 ∷ 10 ∷ rest)
      ∙ header_line-append g (header_lines hs ++ 13 ∷ 10 ∷ rest) in
    let key : strstr (13 ∷ 10 ∷ tail) crlf_crlf ≡ shift_by 2 (strstr tail crlf_crlf) =
      rw split (first_key g.key _ wg.key_text) in
    append_assoc_strstr h (header_lines (g ∷ hs)) (13 ∷ 10 ∷ rest)
    ∙ strstr_line h tail w
    ∙ rw (key, strstr-header_lines g hs rest (wg, ws))
        (ap some (
          omega (
            arith,
            header_end-add h (g ∷ hs),
            header_end-add g hs,
            length-bare h,
            length-append (header_line g) (header_lines hs),
          )))
  where
    append_assoc_strstr :
        (h : Header) (s t : Bytes)
        → strstr ((header_line h ++ s) ++ t) crlf_crlf
          ≡ strstr (header_line h ++ (s ++ t)) crlf_crlf
    append_assoc_strstr h s t = ap (λ l. strstr l crlf_crlf) (append_assoc (header_line h) s t)
