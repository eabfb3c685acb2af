-- ===== src/Http/Headers/Printing.antt =====
-- `http_headers_stringify` stays in its buffer, and prints one line for each header.
use http_web_server_c.Base.{
  ℕ, ◌+◌, ◌≤◌, ◌≡◌, refl, sym, ap, ◌∙◌, true, none, some, List, [], ◌∷◌, ◌++◌, append-nil,
  append_assoc, arith, ◌==◌, leb, if◌then◌else◌, length, length-append, ok,
}
use http_web_server_c.CString.{Bytes}
use http_web_server_c.Table.{Table}
use http_web_server_c.Table.Laws.{IsValid}
use http_web_server_c.Http.Headers.{
  Header, total_length, header_line, header_lines, concatenate, http_headers_stringify,
}

pub length-header_line : (h : Header) → length (header_line h) ≡ length h.key + length h.value + 4
length-header_line h = omega (
  arith,
  length-append h.key (b':' ∷ b' ' ∷ (h.value ++ (13 ∷ 10 ∷ []))),
  length-append h.value (13 ∷ 10 ∷ []),
)

-- The first loop measures what the second one prints.
pub length-header_lines : (hs : List Header) → length (header_lines hs) ≡ total_length hs
length-header_lines [] = refl
length-header_lines (h ∷ hs) = omega (
  arith,
  length-append (header_line h) (header_lines hs),
  length-header_line h,
  length-header_lines hs,
)

concatenate_lem :
    (room : ℕ) (result : Bytes) (hs : List Header)
    → length result + total_length hs + 1 ≤ room
    → concatenate room result hs ≡ ok (result ++ header_lines hs)
unfolding concatenate
concatenate_lem room result [] fits = ap ok (sym (append-nil result))
concatenate_lem room result (h ∷ hs) fits =
    let step : length (result ++ header_line h)
        ≡ length result + (length h.key + length h.value + 4) =
      omega (arith, length-append result (header_line h), length-header_line h) in
    let test : leb (length (result ++ header_line h) + 1) room ≡ true = ground arith in
    rw test (
      concatenate_lem room (result ++ header_line h) hs (omega arith)
      ∙ ap ok (append_assoc result (header_line h) (header_lines hs)))

-- On a valid table, `http_headers_stringify` never writes outside the buffer that it measured: it
-- returns NULL for no headers, and otherwise the line "key: value\r\n" of each header, in order.
pub http_headers_stringify_lem :
    (t : Table Header)
    → IsValid t
    → http_headers_stringify t ≡ ok (if t.size == 0 then none else some (header_lines t.items))
unfolding http_headers_stringify
http_headers_stringify_lem t v =
    ground (arith, concatenate_lem (total_length t.items + 1) [] t.items)
