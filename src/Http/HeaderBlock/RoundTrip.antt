-- ===== src/Http/HeaderBlock/RoundTrip.antt =====
-- `parse_http_headers` reads back what `http_headers_stringify` prints.
use http_web_server_c.Base.{
  ℕ, zero, suc, ◌+◌, ◌<◌, ◌≡◌, refl, sym, ap, ◌∙◌, false, some, List, [], ◌∷◌, ◌++◌, append_assoc,
  arith, ◌==◌, length, drop, length-append, drop-append_add, Outcome, ok,
}
use http_web_server_c.Http.Headers.{http_headers_stringify, header_lines, header_line, Header}
use http_web_server_c.Http.Headers.Printing.{http_headers_stringify_lem, length-header_line}
use http_web_server_c.Table.Laws.{
  items-extended_by, extended_by-IsValid, extended_by, init-IsValid, append-grow, extended-IsValid,
  IsValid, extended,
}
use http_web_server_c.CString.Search.{strstr-crlf, crlf, Lacks-append, Lacks}
use http_web_server_c.Table.{init, Table}
use http_web_server_c.CString.{strstr, Bytes}
use http_web_server_c.Http.HeaderBlock.{add_parsed, parse_round, parse_lines, parse_http_headers}
use http_web_server_c.Http.HeaderLine.RoundTrip.{
  IsHeader, header_line-append, parse_http_header-print,
}

abbrev pub AllHeaders : List Header → Type 0
AllHeaders [] = Unit
AllHeaders (h ∷ hs) = IsHeader h × AllHeaders hs

-- The text of a header line without its line end.
abbrev body : Header → Bytes
body h = h.key ++ b':' ∷ b' ' ∷ h.value

body-line : (h : Header) (rest : Bytes) → header_line h ++ rest ≡ body h ++ 13 ∷ 10 ∷ rest
body-line h rest =
    header_line-append h rest ∙ sym (append_assoc h.key (b':' ∷ b' ' ∷ h.value) (13 ∷ 10 ∷ rest))

length-body : (h : Header) → length (body h) ≡ suc (length h.key + length h.value + 1)
length-body h = omega (arith, length-append h.key (b':' ∷ b' ' ∷ h.value))

Lacks-body : (h : Header) → IsHeader h → Lacks 13 (body h)
Lacks-body h w =
    Lacks-append 13 h.key (b':' ∷ b' ' ∷ h.value) w.key_text.one_line
      (refl, (refl, w.value_text.one_line))

body_end : Header → ℕ
body_end h = length h.key + length h.value + 1

strstr-line :
    (h : Header) (rest : Bytes)
    → IsHeader h
    → strstr (header_line h ++ rest) crlf ≡ some (suc (body_end h))
unfolding body_end
strstr-line h rest w =
    rw (body-line h rest) (strstr-crlf (body h) rest (Lacks-body h w) ∙ ap some (length-body h))

drop-line : (h : Header) (rest : Bytes) → drop (suc (body_end h) + 2) (header_line h ++ rest) ≡ rest
unfolding body_end
drop-line h rest = rw (body-line h rest) (
    ap (λ n. drop (n + 2) (body h ++ 13 ∷ 10 ∷ rest)) (sym (length-body h))
    ∙ drop-append_add (body h) (13 ∷ 10 ∷ rest) 2)

parse_round-line :
    (go : Bytes → Table Header → Outcome (Table Header)) (h : Header) (rest : Bytes)
    (t : Table Header)
    → IsHeader h
    → IsValid t
    → parse_round go (header_line h ++ rest) t (some (suc (body_end h))) ≡ go rest (extended h t)
unfolding parse_round add_parsed
parse_round-line go h rest t w v =
    rw (parse_http_header-print h rest w)
      (rw (append-grow h t v) (ap (λ r. go r (extended h t)) (drop-line h rest)))

parse_lines_found :
    (fuel : ℕ) (s : Bytes) (t : Table Header) (i : ℕ)
    → strstr s crlf ≡ some i
    → parse_lines (suc fuel) s t ≡ parse_round (parse_lines fuel) s t (some i)
unfolding parse_lines strstr
parse_lines_found fuel [] t i e = cc
parse_lines_found fuel (c ∷ s) t i e = rw e refl

-- One header line costs one round.
parse_lines-line :
    (fuel : ℕ) (h : Header) (rest : Bytes) (t : Table Header)
    → IsHeader h
    → IsValid t
    → parse_lines (suc fuel) (header_line h ++ rest) t ≡ parse_lines fuel rest (extended h t)
parse_lines-line fuel h rest t w v =
    parse_lines_found fuel (header_line h ++ rest) t (suc (body_end h)) (strstr-line h rest w)
    ∙ parse_round-line (parse_lines fuel) h rest t w v

parse_lines-print :
    (fuel : ℕ) (hs : List Header) (t : Table Header)
    → length (header_lines hs) < fuel
    → AllHeaders hs
    → IsValid t
    → parse_lines fuel (header_lines hs) t ≡ ok (extended_by hs t)
unfolding parse_lines
parse_lines-print zero hs t lt w v = absurd (omega arith)
parse_lines-print (suc fuel) [] t lt w v = refl
parse_lines-print (suc fuel) (h ∷ hs) t lt (w, ws) v =
    parse_lines-line fuel h (header_lines hs) t w v
    ∙ parse_lines-print fuel hs (extended h t)
        (omega (arith, length-append (header_line h) (header_lines hs), length-header_line h)) ws
        (extended-IsValid h t v)

-- The lines of well-formed headers are read back by `parse_http_headers`: the
-- call ends, and its table is valid and holds the same headers in the same order.
pub parse_http_headers-print :
    (hs : List Header)
    → AllHeaders hs
    → (t : Table Header) × (parse_http_headers (header_lines hs) ≡ ok t)
      × IsValid t
      × (t.items ≡ hs)
unfolding parse_http_headers
parse_http_headers-print hs w =
    let v : IsValid (init {A = Header} 8) = init-IsValid 8 (omega arith) in
    (
      extended_by hs (init 8),
      parse_lines-print (length (header_lines hs) + 1) hs (init 8) (omega arith) w v,
      extended_by-IsValid hs (init 8) v,
      unfold init in items-extended_by hs (init 8),
    )

-- From a valid table with at least one header, all of them well-formed, `http_headers_stringify` returns a
-- text, writing nowhere outside its buffer; and `parse_http_headers` reads from that text a valid table
-- with the same headers in the same order.
pub parse_http_headers-stringify :
    (t : Table Header)
    → IsValid t
    → 0 < t.size
    → AllHeaders t.items
    → (text : Bytes) × (http_headers_stringify t ≡ ok (some text))
      × ((u : Table Header) × (parse_http_headers text ≡ ok u) × IsValid u × (u.items ≡ t.items))
parse_http_headers-stringify t v some_there w =
    let filled : (t.size == 0) ≡ false = ground (arith, some_there) in
    (
      header_lines t.items,
      http_headers_stringify_lem t v ∙ rw filled refl,
      parse_http_headers-print t.items w,
    )
