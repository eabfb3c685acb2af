-- ===== src/Http/Response/Printing.antt =====
-- The text of a response, and how its header block is read back.
use http_web_server_c.Base.{
  ℕ, zero, suc, ◌≡◌, refl, ap, true, none, some, List, [], ◌∷◌, ◌++◌, append_assoc, arith, ◌==◌,
  if◌then◌else◌, length, ok,
}
use http_web_server_c.Http.Names.{http_status_code_stringify, status_value, http_version_stringify}
use http_web_server_c.Http.Headers.Printing.{http_headers_stringify_lem}
use http_web_server_c.Http.Headers.{header_lines, Header}
use http_web_server_c.Http.Response.{decimal, text_of, HttpResponse, http_response_stringify}
use http_web_server_c.Table.Laws.{IsValid}
use http_web_server_c.CString.{Bytes}
use http_web_server_c.Table.{Table}

abbrev pub status_line : HttpResponse → Bytes
status_line r =
    http_version_stringify r.http_version
    ++ b' '
      ∷ (decimal (status_value r.status_code) ++ b' ' ∷ http_status_code_stringify r.status_code)

text_of_lines :
    (t : Table Header)
    → IsValid t
    → text_of (if t.size == 0 then none else some (header_lines t.items)) ≡ header_lines t.items
text_of_lines t v = go t.size t.items v.counted
  where
    go :
        (n : ℕ) (hs : List Header)
        → length hs ≡ n
        → text_of (if n == 0 then none else some (header_lines hs)) ≡ header_lines hs
    go zero [] e = refl
    go zero (h ∷ hs) e = absurd (omega arith)
    go (suc n) hs e = ground arith

regroup :
    (a b c r : Bytes) → a ++ b' ' ∷ (b ++ b' ' ∷ (c ++ r)) ≡ (a ++ b' ' ∷ (b ++ b' ' ∷ c)) ++ r
regroup a b c r = simp append_assoc

-- With memory enough, a response with a valid table is printed as its status line ("VERSION CODE
-- PHRASE"), a line end, the line of each header in order, an empty line and the body; for no headers
-- the block between is empty, and for a NULL body so is the body.
pub http_response_stringify_lem :
    (r : HttpResponse)
    → IsValid r.headers
    → http_response_stringify true r
      ≡ ok (
          some
            (status_line r ++ 13 ∷ 10 ∷ (header_lines r.headers.items ++ 13 ∷ 10 ∷ text_of r.body)))
unfolding http_response_stringify
http_response_stringify_lem r v = rw (http_headers_stringify_lem r.headers v) (
    rw (text_of_lines r.headers v) (
      ap (λ s. ok (some s))
        (regroup (http_version_stringify r.http_version) (decimal (status_value r.status_code))
          (http_status_code_stringify r.status_code)
          (13 ∷ 10 ∷ (header_lines r.headers.items ++ 13 ∷ 10 ∷ text_of r.body)))))
