-- ===== src/Http/HeaderLine/RoundTrip.antt =====
-- `parse_http_header` reads back the line "key: value\r\n" of a well-formed header.
use http_web_server_c.Utility.Slice.{substring_lem, trim_end_lem, char_at-append}
use http_web_server_c.Base.{
  ℕ, ◌+◌, ◌<◌, ◌≡◌, refl, sym, ap, ◌∙◌, false, some, [], ◌∷◌, ◌++◌, append_assoc, arith, ◌==◌,
  length, length-append, drop-append, drop-append_add, ok,
}
use http_web_server_c.CString.Search.{Lacks-append, strstr-crlf, crlf, Lacks}
use http_web_server_c.Http.HeaderLine.{
  next_solid, parse_http_header, scan_key, parse_key, parse_value,
}
use http_web_server_c.Utility.{is_non_space, find_non_space}
use http_web_server_c.Utility.Paths.{find_non_space-solid, StartsSolid, EndsSolid}
use http_web_server_c.CString.{strstr, Bytes, first_char}
use http_web_server_c.Http.Headers.{header_line, Header}

-- A text that a header can hold unquoted: some bytes, no white space at either end, no quotation mark
-- in front and no carriage return.
pub record IsText (s : Bytes) : Type 0 where
  pub starts : StartsSolid s
  pub ends : EndsSolid s
  pub unquoted : (first_char s == b'"') ≡ false
  pub one_line : Lacks 13 s

pub record IsHeader (h : Header) : Type 0 where
  pub key_text : IsText h.key
  pub value_text : IsText h.value
  pub key_plain : Lacks b':' h.key

pub scan_key_lem :
    (e : ℕ) (k rest : Bytes) (i : ℕ)
    → Lacks b':' k
    → i + length k < e
    → scan_key (some e) (k ++ b':' ∷ rest) i ≡ ok (some (i + length k))
unfolding scan_key
scan_key_lem e [] rest i h lt = ground arith
scan_key_lem e (c ∷ k) rest i (h, hs) lt = ground (arith, scan_key_lem e k rest (i + 1) hs)

-- A key behind `p`, with the offset of its value.
pub parse_key_lem :
    (p k rest : Bytes) (e : ℕ)
    → IsText k
    → Lacks b':' k
    → length p + length k < e
    → parse_key (p ++ (k ++ b':' ∷ rest)) (some e) (length p) ≡ ok (some (k, length k + 1))
unfolding parse_key
parse_key_lem p [] rest e t plain lt = absurd t.starts
parse_key_lem p (c ∷ k) rest e t plain lt = ground (
  arith,
  char_at-append p ((c ∷ k) ++ b':' ∷ rest),
  drop-append p ((c ∷ k) ++ b':' ∷ rest),
  scan_key_lem e (c ∷ k) rest (length p) plain,
  trim_end_lem p (c ∷ k) (b':' ∷ rest) t.ends,
  substring_lem p (c ∷ k) (b':' ∷ rest),
)

pub parse_value_lem :
    (p v rest : Bytes)
    → IsText v
    → parse_value (p ++ (v ++ rest)) (some (length p + length v)) (length p) ≡ ok (some v)
unfolding parse_value
parse_value_lem p [] rest t = absurd t.starts
parse_value_lem p (c ∷ v) rest t = ground (
  arith,
  char_at-append p ((c ∷ v) ++ rest),
  trim_end_lem p (c ∷ v) rest t.ends,
  substring_lem p (c ∷ v) rest,
)

module _ (k v rest : Bytes) where
  abbrev line : Bytes
  line = k ++ b':' ∷ b' ' ∷ (v ++ 13 ∷ 10 ∷ rest)

  abbrev front : Bytes
  front = k ++ b':' ∷ b' ' ∷ []

  abbrev stop : ℕ
  stop = length front + length v

  length-front : length front ≡ length k + 2
  length-front = length-append k (b':' ∷ b' ' ∷ [])

  line-front : line ≡ front ++ (v ++ 13 ∷ 10 ∷ rest)
  line-front = sym (append_assoc k (b':' ∷ b' ' ∷ []) (v ++ 13 ∷ 10 ∷ rest))

  strstr-line : Lacks 13 k → Lacks 13 v → strstr line crlf ≡ some stop
  strstr-line hk hv =
      let whole : line ≡ (front ++ v) ++ 13 ∷ 10 ∷ rest =
        line-front ∙ sym (append_assoc front v (13 ∷ 10 ∷ rest)) in
      rw whole (
        strstr-crlf (front ++ v) rest
          (Lacks-append 13 front v (Lacks-append 13 k (b':' ∷ b' ' ∷ []) hk (refl, (refl, tt))) hv)
        ∙ ap some (length-append front v))

  next_solid-line : StartsSolid v → next_solid line (length k + 1) ≡ ok (length front)
  unfolding find_non_space is_non_space
  next_solid-line h = ground (
    arith,
    drop-append_add k (b':' ∷ b' ' ∷ (v ++ 13 ∷ 10 ∷ rest)) 1,
    find_non_space-solid v (13 ∷ 10 ∷ rest) h,
    length-front,
  )

  parse_value-line : IsText v → parse_value line (some stop) (length front) ≡ ok (some v)
  parse_value-line t = rw line-front (parse_value_lem front v (13 ∷ 10 ∷ rest) t)

  parse_http_header-line :
      IsText k
      → IsText v
      → Lacks b':' k
      → parse_http_header line ≡ ok (some (record { key = k; value = v }))
  unfolding parse_http_header
  parse_http_header-line tk tv plain = ground (
    arith,
    strstr-line tk.one_line tv.one_line,
    find_non_space-solid k (b':' ∷ b' ' ∷ (v ++ 13 ∷ 10 ∷ rest)) tk.starts,
    parse_key_lem [] k (b' ' ∷ (v ++ 13 ∷ 10 ∷ rest)) stop tk plain (omega (arith, length-front)),
    next_solid-line tv.starts,
    parse_value-line tv,
  )

pub header_line-append :
    (h : Header) (rest : Bytes)
    → header_line h ++ rest ≡ h.key ++ b':' ∷ b' ' ∷ (h.value ++ 13 ∷ 10 ∷ rest)
header_line-append h rest = simp append_assoc

-- A header whose key and value are well-formed texts (not empty, no white space at either end, no
-- quotation mark in front, no carriage return, and no ':' in the key) is read back from the line that
-- `http_headers_stringify` prints for it, whatever follows the line.
pub parse_http_header-print :
    (h : Header) (rest : Bytes)
    → IsHeader h
    → parse_http_header (header_line h ++ rest) ≡ ok (some h)
parse_http_header-print h rest w =
    rw (header_line-append h rest)
      (parse_http_header-line h.key h.value rest w.key_text w.value_text w.key_plain)
