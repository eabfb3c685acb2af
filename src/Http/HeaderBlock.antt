-- ===== src/Http/HeaderBlock.antt =====
-- `parse_http_headers` of src/http.c, over the text from `headers_string + offset` on.
pub mod RoundTrip
pub mod Total
use http_web_server_c.CString.Search.{crlf}
use http_web_server_c.CString.{strstr, Bytes}
use http_web_server_c.Base.{
  ℕ, zero, suc, ◌+◌, ◌-◌, ◌*◌, ◌≤◌, ◌<◌, ◌≡◌, refl, sym, ap, ◌∙◌, ◌≢◌, ◌↔◌, ◌⊎◌, inl, inr, Bool,
  true, false, not, ◌&&◌, ◌||◌, Option, none, some, List, [], ◌∷◌, ◌++◌, append-nil, append_assoc,
  arith, ◌==◌, ltb, leb, if◌then◌else◌, Bool-cases, Option-cases, length, take, drop, length-append,
  drop-append, drop-append_add, take-append, Outcome, ok, fault, abort, timeout, ◌>>=◌,
}
use http_web_server_c.Table.{Table, init, grow, append}
use http_web_server_c.Http.Headers.{Header, destruct_http_headers}
use http_web_server_c.Http.HeaderLine.{parse_http_header}

-- `headers_ret.items[headers_ret.size++] = parsed_header;` behind its doubling; memory is found.
unfoldable pub add_parsed : Header → Table Header → Outcome (Table Header)
add_parsed h headers = append h (grow true headers)

abbrev pub add_and_go :
    (Bytes → Table Header → Outcome (Table Header))
    → Bytes
    → ℕ
    → Table Header
    → Option Header
    → Outcome (Table Header)
add_and_go go s i headers none = ok (destruct_http_headers headers)
add_and_go go s i headers (some h) = add_parsed h headers >>= go (drop (i + 2) s)

-- One round of the loop on a text that is not empty; `go` is the loop, and `i` is where the next
-- line end was found.
unfoldable pub parse_round :
    (Bytes → Table Header → Outcome (Table Header))
    → Bytes
    → Table Header
    → Option ℕ
    → Outcome (Table Header)
parse_round go s headers none = ok (destruct_http_headers headers)
parse_round go s headers (some zero) = ok headers
parse_round go s headers (some (suc i)) = parse_http_header s >>= add_and_go go s (suc i) headers

-- The loop, on fuel.
unfoldable pub parse_lines : ℕ → Bytes → Table Header → Outcome (Table Header)
unfolding parse_round
parse_lines zero s headers = timeout
parse_lines (suc fuel) [] headers = ok headers
parse_lines (suc fuel) (c ∷ s) headers =
    parse_round (parse_lines fuel) (c ∷ s) headers (strstr (c ∷ s) crlf)

-- The source asks for eight structs where it needs eight pointers; eight slots are counted here.
unfoldable pub parse_http_headers : Bytes → Outcome (Table Header)
parse_http_headers s = parse_lines (length s + 1) s (init 8)
