-- ===== src/Http/Headers/Laws.antt =====
-- `insert_header` as an update that takes keys without regard to case, and `find_header` beside it.
use http_web_server_c.Base.{
  ◌≡◌, refl, ◌∙◌, inl, inr, true, Option, none, some, List, [], ◌∷◌, ◌++◌, arith, Option-cases,
  length, ok,
}
use http_web_server_c.CString.{Bytes}
use http_web_server_c.CString.Search.{str_case_eq_refl}
use http_web_server_c.Table.{Table, plenty}
use http_web_server_c.Table.Laws.{
  IsValid, extended, extended-IsValid, append-grow, items-extended, find-IsValid, find?,
  find?-append,
}
use http_web_server_c.Http.Headers.{
  Header, key_is, key_is_like, find_header, replace, insert_header,
}

abbrev pub header : Bytes → Bytes → Header
header key value = record { key = key; value = value }

-- `insert_header` with memory enough, on a valid table.
abbrev pub updated : Table Header → Bytes → Bytes → Option Header → Table Header
updated t key value none = extended (header key value) t
updated t key value (some h) = record t { items = replace key value t.items }

pub insert_header_lem :
    (t : Table Header) (key value : Bytes)
    → IsValid t
    → insert_header plenty t key value
      ≡ ok (updated t key value (find? (key_is_like key) t.items), true)
unfolding insert_header
insert_header_lem t key value v = elim (Option-cases (find? (key_is_like key) t.items)) [
  | inl e ↦
      rw (find-IsValid (key_is_like key) t v) (rw e (rw (append-grow (header key value) t v) refl))
  | inr (h, e) ↦ rw (find-IsValid (key_is_like key) t v) (rw e refl)
]

length-replace : (key value : Bytes) (hs : List Header) → length (replace key value hs) ≡ length hs
length-replace key value [] = refl
length-replace key value (h ∷ hs) = ground (arith, length-replace key value hs)

pub updated-IsValid :
    (t : Table Header) (key value : Bytes) (o : Option Header)
    → IsValid t
    → IsValid (updated t key value o)
updated-IsValid t key value none v = extended-IsValid (header key value) t v
updated-IsValid t key value (some h) v = record {
  counted = length-replace key value t.items ∙ v.counted;
  fits = v.fits;
  room = v.room;
  nonempty = v.nonempty;
}

-- Without regard to case, a key is found with the new value.
abbrev pub value_of : Option Header → Option Bytes
value_of none = none
value_of (some h) = some h.value

find?-replace :
    (key value : Bytes) (hs : List Header) (h : Header)
    → find? (key_is_like key) hs ≡ some h
    → value_of (find? (key_is_like key) (replace key value hs)) ≡ some value
find?-replace key value [] h e = cc
find?-replace key value (x ∷ hs) h e = ground (arith, find?-replace key value hs h)

-- The list that holds the headers afterwards, where `o` is the header that the key was found at.
abbrev pub inserted : List Header → Bytes → Bytes → Option Header → List Header
inserted hs key value none = hs ++ (header key value ∷ [])
inserted hs key value (some h) = replace key value hs

items-updated :
    (t : Table Header) (key value : Bytes) (o : Option Header)
    → (updated t key value o).items ≡ inserted t.items key value o
items-updated t key value none = items-extended (header key value) t
items-updated t key value (some h) = refl

found_after :
    (hs : List Header) (key value : Bytes) (o : Option Header)
    → find? (key_is_like key) hs ≡ o
    → value_of (find? (key_is_like key) (inserted hs key value o)) ≡ some value
found_after hs key value none e =
    ground (arith, find?-append (key_is_like key) hs (header key value ∷ []), str_case_eq_refl key)
found_after hs key value (some h) e = find?-replace key value hs h e

-- With memory enough, `insert_header` on a valid table succeeds and leaves a valid table. Its
-- headers are the old ones with the value of the first header whose key is equal but for case
-- replaced, or with the new header behind them where there is none; and the first header with such
-- a key then has the new value.
pub insert_header-updates :
    (t : Table Header) (key value : Bytes)
    → IsValid t
    → (t' : Table Header) × (insert_header plenty t key value ≡ ok (t', true))
      × IsValid t'
      × (t'.items ≡ inserted t.items key value (find? (key_is_like key) t.items))
      × (value_of (find? (key_is_like key) t'.items) ≡ some value)
insert_header-updates t key value v =
    let o = find? (key_is_like key) t.items in
    let e = items-updated t key value o in
    (
      updated t key value o,
      insert_header_lem t key value v,
      updated-IsValid t key value o v,
      e,
      rw e (found_after t.items key value o refl),
    )

-- `find_header` on a valid table returns the first header whose key is the same bytes, case included.
pub find_header-IsValid :
    (t : Table Header) (key : Bytes)
    → IsValid t
    → find_header t key ≡ ok (find? (key_is key) t.items)
unfolding find_header
find_header-IsValid t key v = find-IsValid (key_is key) t v
