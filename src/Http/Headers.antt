-- ===== src/Http/Headers.antt =====
-- struct http_header and struct http_headers of src/http.h: search, insertion, cleanup and printing
-- of src/http.c. Keys and values are never NULL: `insert_header` and `parse_http_header` set both.
pub mod Laws
pub mod Printing
use http_web_server_c.Base.{
  ℕ, zero, suc, ◌+◌, ◌-◌, ◌*◌, ◌≤◌, ◌<◌, ◌≡◌, refl, sym, ap, ◌∙◌, ◌≢◌, ◌↔◌, ◌⊎◌, inl, inr, Bool,
  true, false, not, ◌&&◌, ◌||◌, Option, none, some, List, [], ◌∷◌, ◌++◌, append-nil, append_assoc,
  arith, ◌==◌, ltb, leb, if◌then◌else◌, Bool-cases, Option-cases, length, take, drop, length-append,
  drop-append, drop-append_add, take-append, Outcome, ok, fault, abort, timeout, ◌>>=◌, ℤ, pos,
  negsuc, get_elem?,
}
use http_web_server_c.CString.{Bytes, codes, str_eq, str_case_eq}
use http_web_server_c.Table.{Table, cleared, grow, append, find, Memory}

pub record Header : Type 0 where
  pub key : Bytes
  pub value : Bytes

abbrev pub key_is : Bytes → Header → Bool
key_is key h = str_eq h.key key

abbrev pub key_is_like : Bytes → Header → Bool
key_is_like key h = str_case_eq h.key key

unfoldable pub find_header : Table Header → Bytes → Outcome (Option Header)
find_header headers key = find (key_is key) headers

-- The value of the first header whose key is like `key`.
abbrev pub replace : Bytes → Bytes → List Header → List Header
replace key value [] = []
replace key value (h ∷ hs) =
    if key_is_like key h then record h { value = value } ∷ hs else h ∷ replace key value hs

-- The rest of `insert_header`, on what its first loop found.
abbrev insert_found :
    Memory → Table Header → Bytes → Bytes → Option Header → Outcome (Table Header × Bool)
insert_found m t key value (some h) =
    if m.strdup_second
    then ok (record t { items = replace key value t.items }, true)
    else ok (t, false)
insert_found m t key value none =
    let t' = grow m.realloc_items t in
    if not m.malloc_item
    then ok (t', false)
    else if not (m.strdup_first && m.strdup_second)
    then ok (t', false)
    else append (record { key = key; value = value }) t' >>= λ t''. ok (t'', true)

unfoldable pub insert_header : Memory → Table Header → Bytes → Bytes → Outcome (Table Header × Bool)
insert_header m t key value = find (key_is_like key) t >>= insert_found m t key value

-- Everything is freed, so nothing of the old table may be read.
unfoldable pub destruct_http_headers : Table Header → Table Header
destruct_http_headers t = cleared

-- The first loop of `http_headers_stringify`, which measures.
abbrev pub total_length : List Header → ℕ
total_length [] = 0
total_length (h ∷ hs) = (length h.key + length h.value + 4) + total_length hs

-- The four calls of `strncat` of the second loop.
abbrev pub header_line : Header → Bytes
header_line h = h.key ++ (b':' ∷ b' ' ∷ (h.value ++ (13 ∷ 10 ∷ [])))

-- What the printed text should be: the lines of the headers, one behind the other.
abbrev pub header_lines : List Header → Bytes
header_lines [] = []
header_lines (h ∷ hs) = header_line h ++ header_lines hs

-- The second loop; the buffer has `room` bytes, and each header with the terminator must fit.
unfoldable pub concatenate : ℕ → Bytes → List Header → Outcome Bytes
concatenate room result [] = ok result
concatenate room result (h ∷ hs) =
    let next = result ++ header_line h in
    let rest = concatenate room next hs in if leb (length next + 1) room then rest else fault

unfoldable pub http_headers_stringify : Table Header → Outcome (Option Bytes)
unfolding concatenate
http_headers_stringify t =
    if t.size == 0 || t.slots == 0
    then ok none
    else concatenate (total_length t.items + 1) [] t.items >>= λ s. ok (some s)
