-- ===== src/Http/HeaderLine/Quoted.antt =====
-- `parse_http_header` on a line with a quoted key and a quoted value.
use http_web_server_c.Base.{
  ℕ, suc, ◌+◌, ◌-◌, ◌<◌, ◌≡◌, refl, sym, ap, ◌∙◌, false, some, [], ◌∷◌, ◌++◌, append_assoc, arith,
  ◌==◌, if◌then◌else◌, length, drop, length-append, drop-append, drop-append_add, ok,
}
use http_web_server_c.Utility.Paths.{StartsSolid}
use http_web_server_c.Http.HeaderLine.{
  parse_http_header, parse_key, scan_quoted_key, next_solid, parse_value, scan_quoted_value,
}
use http_web_server_c.Http.Headers.{Header}
use http_web_server_c.CString.Search.{strstr-crlf, Lacks-append, crlf, Lacks}
use http_web_server_c.CString.{strstr, char_at, Bytes}
use http_web_server_c.Utility.Slice.{char_at-append, substring_lem, substring}
use http_web_server_c.Utility.{find_non_space, is_non_space}

scan_quoted_value_end :
    (rest : Bytes) (i last last_char : ℕ)
    → scan_quoted_value (some i) rest i last last_char ≡ ok (last, last_char)
unfolding scan_quoted_value
scan_quoted_value_end [] i last last_char = ground arith
scan_quoted_value_end (c ∷ rest) i last last_char = ground arith

scan_quoted_value_lem :
    (s rest : Bytes) (e i last last_char : ℕ)
    → e ≡ i + length s + 1
    → scan_quoted_value (some e) (s ++ b'"' ∷ rest) i last last_char ≡ ok (i + length s, b'"')
unfolding scan_quoted_value is_non_space
scan_quoted_value_lem [] rest e i last last_char h =
    let before : (i == e) ≡ false = ground (arith, h) in
    let same : e ≡ i + 1 = omega (arith, h) in
    let run : scan_quoted_value (some e) rest (i + 1) i b'"' ≡ ok (i, b'"') =
      rw same (scan_quoted_value_end rest (i + 1) i b'"') in
    let none_left : i + 0 ≡ i = omega arith in rw (before, run, none_left) refl
scan_quoted_value_lem (c ∷ s) rest e i last last_char h =
    let before : (i == e) ≡ false = ground (arith, h) in
    let skipped = is_non_space c in
    let run =
      scan_quoted_value_lem s rest e (i + 1) (if skipped then last else i)
        (if skipped then last_char else c) (omega (arith, h)) in
    let moved : i + 1 + length s ≡ i + suc (length s) = omega arith in rw (before, run, moved) refl

char_at-append_add : (p s : Bytes) (n : ℕ) → char_at (p ++ s) (length p + n) ≡ char_at s n
char_at-append_add [] s n = ap (char_at s) (omega arith)
char_at-append_add (c ∷ p) s n =
    let e : suc (length p) + n ≡ suc (length p + n) = omega arith in rw e (char_at-append_add p s n)

module _ (p : Bytes) (d : ℕ) (v rest : Bytes) (solid : is_non_space d ≡ false) where
  abbrev behind : Bytes
  behind = b'"' ∷ d ∷ (v ++ b'"' ∷ rest)

  next_solid-quoted : next_solid (p ++ behind) (length p + 1) ≡ ok (length p + 1)
  unfolding find_non_space
  next_solid-quoted =
      let same : length p + 1 + 0 ≡ length p + 1 = omega arith in
      rw (drop-append_add p behind 1, solid, same) refl

  drop-quoted : drop (length p + 1 + 1) (p ++ behind) ≡ v ++ b'"' ∷ rest
  drop-quoted =
      let same : length p + 1 + 1 ≡ length p + 2 = omega arith in
      rw same (drop-append_add p behind 2)

  substring-quoted :
      substring (p ++ behind) (length p + 1) (length p + 1 + 1 + length v) ≡ ok (d ∷ v)
  substring-quoted =
      let whole : p ++ behind ≡ (p ++ b'"' ∷ []) ++ ((d ∷ v) ++ b'"' ∷ rest) =
        sym (append_assoc p (b'"' ∷ []) ((d ∷ v) ++ b'"' ∷ rest)) in
      let start : length p + 1 ≡ length (p ++ b'"' ∷ []) = sym (length-append p (b'"' ∷ [])) in
      let end : length p + 1 + 1 + length v ≡ length (p ++ b'"' ∷ []) + length (d ∷ v) =
        omega (arith, start) in
      rw (end, start, whole) (substring_lem (p ++ b'"' ∷ []) (d ∷ v) (b'"' ∷ rest))

  parse_value-quoted :
      parse_value (p ++ behind) (some (length p + 1 + 1 + length v + 1)) (length p)
      ≡ ok (some (d ∷ v))
  unfolding parse_value
  parse_value-quoted =
      let first : char_at (p ++ behind) (length p) ≡ char_at behind 0 = char_at-append p behind in
      let second : char_at (p ++ behind) (length p + 1) ≡ some d = char_at-append_add p behind 1 in
      let scan =
        scan_quoted_value_lem v rest (length p + 1 + 1 + length v + 1) (length p + 1 + 1)
          (length p + 1) d refl in
      rw (first, next_solid-quoted, second, drop-quoted, scan, substring-quoted) refl

scan_quoted_key_lem :
    (s rest : Bytes) (e i last last_char : ℕ)
    → i + length s + 1 < e
    → Lacks b'"' s
    → (last_char == b'"') ≡ false
    → scan_quoted_key (some e) (s ++ b'"' ∷ b':' ∷ rest) i last last_char
      ≡ ok (some (i + length s + 1, i + length s))
unfolding scan_quoted_key is_non_space
scan_quoted_key_lem [] rest e i last last_char lt l n =
    let before : (i == e) ≡ false = ground (arith, lt) in
    let before' : (i + 1 == e) ≡ false = ground (arith, lt) in
    let none_left : i + 0 ≡ i = omega arith in rw (before, before', none_left) refl
scan_quoted_key_lem (c ∷ s) rest e i last last_char lt (m, l) n =
    let before : (i == e) ≡ false = ground (arith, lt) in
    let skipped = is_non_space c in
    let still : ((if skipped then last_char else c) == b'"') ≡ false = ground (arith, m, n) in
    let run =
      scan_quoted_key_lem s rest e (i + 1) (if skipped then last else i)
        (if skipped then last_char else c) (omega (arith, lt)) l still in
    let moved : i + 1 + length s ≡ i + suc (length s) = omega arith in
    rw (before, n, run, moved) (ground arith)

-- The key, and the offset behind the colon, where nothing is in front of the key.
parse_key-quoted :
    (c : ℕ) (k rest : Bytes) (e : ℕ)
    → is_non_space c ≡ false
    → Lacks b'"' (c ∷ k)
    → length k + 3 < e
    → parse_key (b'"' ∷ c ∷ (k ++ b'"' ∷ b':' ∷ rest)) (some e) 0 ≡ ok (some (c ∷ k, length k + 4))
unfolding parse_key
parse_key-quoted c k rest e solid (m, l) lt =
    let next = next_solid-quoted [] c k (b':' ∷ rest) solid in
    let scan = scan_quoted_key_lem k rest e 2 1 c (omega (arith, lt)) l m in
    let key = substring-quoted [] c k (b':' ∷ rest) solid in
    let offset : 2 + length k + 1 - 0 + 1 ≡ length k + 4 = omega arith in
    rw (next, scan, key, offset) refl

-- A key and a value in quotation marks, and the end of the line.
abbrev pub quoted_line : Bytes → Bytes → Bytes → Bytes
quoted_line key value rest =
    b'"' ∷ (key ++ b'"' ∷ b':' ∷ b' ' ∷ b'"' ∷ (value ++ b'"' ∷ 13 ∷ 10 ∷ rest))

module _ (c : ℕ) (k : Bytes) (d : ℕ) (v rest : Bytes) where
  abbrev front : Bytes
  front = b'"' ∷ c ∷ (k ++ b'"' ∷ b':' ∷ b' ' ∷ [])

  length-front : length front ≡ length k + 5
  length-front = omega (arith, length-append k (b'"' ∷ b':' ∷ b' ' ∷ []))

  line-front : quoted_line (c ∷ k) (d ∷ v) rest ≡ front ++ b'"' ∷ d ∷ (v ++ b'"' ∷ 13 ∷ 10 ∷ rest)
  line-front =
      ap (λ l. b'"' ∷ c ∷ l)
        (sym (append_assoc k (b'"' ∷ b':' ∷ b' ' ∷ []) (b'"' ∷ d ∷ (v ++ b'"' ∷ 13 ∷ 10 ∷ rest))))

  strstr-line :
      Lacks 13 (c ∷ k)
      → Lacks 13 (d ∷ v)
      → strstr (quoted_line (c ∷ k) (d ∷ v) rest) crlf ≡ some (length front + 1 + 1 + length v + 1)
  strstr-line hk hv =
      let text = front ++ b'"' ∷ d ∷ (v ++ b'"' ∷ []) in
      let whole : quoted_line (c ∷ k) (d ∷ v) rest ≡ text ++ 13 ∷ 10 ∷ rest =
        line-front
        ∙ sym (
            append_assoc front (b'"' ∷ d ∷ (v ++ b'"' ∷ [])) (13 ∷ 10 ∷ rest)
            ∙ ap (λ l. front ++ b'"' ∷ d ∷ l) (append_assoc v (b'"' ∷ []) (13 ∷ 10 ∷ rest))) in
      let lacked : Lacks 13 text =
        Lacks-append 13 front (b'"' ∷ d ∷ (v ++ b'"' ∷ []))
          (refl, Lacks-append 13 (c ∷ k) (b'"' ∷ b':' ∷ b' ' ∷ []) hk (refl, (refl, (refl, tt))))
          (refl, Lacks-append 13 (d ∷ v) (b'"' ∷ []) hv (refl, tt)) in
      let long : length text ≡ length front + 1 + 1 + length v + 1 =
        omega
          (arith, length-append front (b'"' ∷ d ∷ (v ++ b'"' ∷ [])), length-append v (b'"' ∷ [])) in
      rw whole (strstr-crlf text rest lacked ∙ ap some long)

  next_solid-line : next_solid (quoted_line (c ∷ k) (d ∷ v) rest) (length k + 4) ≡ ok (length front)
  unfolding find_non_space is_non_space
  next_solid-line =
      let back = b' ' ∷ b'"' ∷ d ∷ (v ++ b'"' ∷ 13 ∷ 10 ∷ rest) in
      let q = b'"' ∷ c ∷ (k ++ b'"' ∷ b':' ∷ []) in
      let whole : quoted_line (c ∷ k) (d ∷ v) rest ≡ q ++ back =
        ap (λ l. b'"' ∷ c ∷ l) (sym (append_assoc k (b'"' ∷ b':' ∷ []) back)) in
      let start : length k + 4 ≡ length q = omega (arith, length-append k (b'"' ∷ b':' ∷ [])) in
      let end : length q + 1 ≡ length front = omega (arith, start, length-front) in
      rw (whole, start, drop-append q back) (ap ok end)

  next_solid-start : next_solid (quoted_line (c ∷ k) (d ∷ v) rest) 0 ≡ ok 0
  unfolding find_non_space is_non_space
  next_solid-start = refl

  quoted_line_lem :
      is_non_space c ≡ false
      → is_non_space d ≡ false
      → Lacks b'"' (c ∷ k)
      → Lacks 13 (c ∷ k)
      → Lacks 13 (d ∷ v)
      → parse_http_header (quoted_line (c ∷ k) (d ∷ v) rest)
        ≡ ok (some (record { key = c ∷ k; value = d ∷ v }))
  unfolding parse_http_header
  quoted_line_lem sc sd plain hk hv =
      let line = quoted_line (c ∷ k) (d ∷ v) rest in
      let stop = length front + 1 + 1 + length v + 1 in
      let start : next_solid line 0 ≡ ok 0 = next_solid-start in
      let key : parse_key line (some stop) 0 ≡ ok (some (c ∷ k, length k + 4)) =
        parse_key-quoted c k (b' ' ∷ b'"' ∷ d ∷ (v ++ b'"' ∷ 13 ∷ 10 ∷ rest)) stop sc plain
          (omega (arith, length-front)) in
      let value : parse_value line (some stop) (length front) ≡ ok (some (d ∷ v)) =
        ap (λ s. parse_value s (some stop) (length front)) line-front
        ∙ parse_value-quoted front d v (13 ∷ 10 ∷ rest) sd in
      rw (strstr-line hk hv, start, key, next_solid-line, value) refl

-- What can stand in quotation marks: no white space in front, and no carriage return; and in the key, no
-- quotation mark.
pub record IsQuotable (h : Header) : Type 0 where
  pub key_starts : StartsSolid h.key
  pub value_starts : StartsSolid h.value
  pub key_plain : Lacks b'"' h.key
  pub key_line : Lacks 13 h.key
  pub value_line : Lacks 13 h.value

-- A header whose key and value are not empty, have no white space in front and no carriage return, and
-- whose key has no quotation mark, is read from a line that has both in quotation marks, whatever
-- follows the line. Both may hold colons and end with white space, and the value may hold quotation
-- marks.
pub parse_http_header-quoted_line :
    (h : Header) (rest : Bytes)
    → IsQuotable h
    → parse_http_header (quoted_line h.key h.value rest) ≡ ok (some h)
parse_http_header-quoted_line h rest q =
    by_texts h.key h.value q.key_starts q.value_starts q.key_plain q.key_line q.value_line
  where
    by_texts :
        (key value : Bytes)
        → StartsSolid key
        → StartsSolid value
        → Lacks b'"' key
        → Lacks 13 key
        → Lacks 13 value
        → parse_http_header (quoted_line key value rest)
          ≡ ok (some (record { key = key; value = value }))
    by_texts [] value sk sv plain hk hv = absurd sk
    by_texts (c ∷ k) [] sk sv plain hk hv = absurd sv
    by_texts (c ∷ k) (d ∷ v) sk sv plain hk hv = quoted_line_lem c k d v rest sk sv plain hk hv
