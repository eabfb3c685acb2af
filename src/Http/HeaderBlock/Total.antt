-- ===== src/Http/HeaderBlock/Total.antt =====
-- The loop of `parse_http_headers` ends within its fuel, and keeps its table valid.
use http_web_server_c.Utility.Slice.{read, substring, trim_end}
use http_web_server_c.Base.{
  ℕ, zero, suc, ◌+◌, ◌<◌, ◌≡◌, refl, ◌⊎◌, inl, inr, not, Option, none, some, [], ◌∷◌, arith, ◌==◌,
  length, drop, Outcome, ok, fault, abort, timeout, length-drop-lt, if_both, Ensures, Finishes,
  Ensures-bind, Finishes-bind,
}
use http_web_server_c.Table.Laws.{extended-IsValid, extended, append-grow, IsValid, init-IsValid}
use http_web_server_c.Http.HeaderBlock.{
  add_and_go, add_parsed, parse_round, parse_lines, parse_http_headers,
}
use http_web_server_c.Table.{cleared, Table, init}
use http_web_server_c.CString.Search.{crlf}
use http_web_server_c.Http.Headers.{Header, destruct_http_headers}
use http_web_server_c.CString.{strstr, Bytes}
use http_web_server_c.Http.HeaderLine.{
  finish, parse_http_header, parse_value, quoted_value, value_behind, walk_to_end, next_solid,
  plain_key, quoted_key, parse_key, scan_key, scan_quoted_key, scan_quoted_value,
}

-- The functions that read one header return, or their behaviour is undefined.
next_solid-Finishes : (s : Bytes) (i : ℕ) → Finishes (next_solid s i)
next_solid-Finishes s i = ground arith

read-Finishes : (s : Bytes) (i : ℕ) → Finishes (read s i)
read-Finishes s i = ground arith

scan_key-Finishes : (e : Option ℕ) (s : Bytes) (i : ℕ) → Finishes (scan_key e s i)
unfolding scan_key
scan_key-Finishes e [] i = ground arith
scan_key-Finishes e (c ∷ s) i = ground (arith, scan_key-Finishes e s (i + 1))

trim_end-Finishes : (s : Bytes) (n : ℕ) → Finishes (trim_end s n)
unfolding trim_end
trim_end-Finishes s zero = tt
trim_end-Finishes s (suc n) = ground (arith, trim_end-Finishes s n)

substring-Finishes : (s : Bytes) (i j : ℕ) → Finishes (substring s i j)
unfolding substring
substring-Finishes s i j = ground arith

scan_quoted_key-Finishes :
    (e : Option ℕ) (s : Bytes) (i l c : ℕ) → Finishes (scan_quoted_key e s i l c)
unfolding scan_quoted_key
scan_quoted_key-Finishes e [] i l c = ground arith
scan_quoted_key-Finishes e (d ∷ s) i l c =
    ground
      (arith, scan_quoted_key-Finishes e s (i + 1) l c, scan_quoted_key-Finishes e s (i + 1) i d)

scan_quoted_value-Finishes :
    (e : Option ℕ) (s : Bytes) (i l c : ℕ) → Finishes (scan_quoted_value e s i l c)
unfolding scan_quoted_value
scan_quoted_value-Finishes e [] i l c = ground arith
scan_quoted_value-Finishes e (d ∷ s) i l c =
    ground (
      arith,
      scan_quoted_value-Finishes e s (i + 1) l c,
      scan_quoted_value-Finishes e s (i + 1) i d,
    )

plain_key-Finishes : (s : Bytes) (start : ℕ) (o : Option ℕ) → Finishes (plain_key s start o)
plain_key-Finishes s start none = tt
plain_key-Finishes s start (some end) =
    Finishes-bind (trim_end s end) _ (trim_end-Finishes s end)
      λ n. Finishes-bind (substring s start n) _ (substring-Finishes s start n) λ k. tt

quoted_key-Finishes : (s : Bytes) (start : ℕ) (o : Option (ℕ × ℕ)) → Finishes (quoted_key s start o)
quoted_key-Finishes s start none = tt
quoted_key-Finishes s start (some (end, last)) =
    Finishes-bind (substring s (start + 1) last) _ (substring-Finishes s (start + 1) last) λ k. tt

parse_key-Finishes : (s : Bytes) (e : Option ℕ) (start : ℕ) → Finishes (parse_key s e start)
unfolding parse_key
parse_key-Finishes s e start = Finishes-bind (read s start) _ (read-Finishes s start) λ c.
    if_both Finishes (not (c == b'"')) _ _
      (Finishes-bind (scan_key e (drop start s) start) _ (scan_key-Finishes e (drop start s) start)
        (plain_key-Finishes s start))
      (Finishes-bind (next_solid s (start + 1)) _ (next_solid-Finishes s (start + 1)) λ last.
        Finishes-bind (read s last) _ (read-Finishes s last) λ d.
          Finishes-bind (scan_quoted_key e (drop (last + 1) s) (last + 1) last d) _
            (scan_quoted_key-Finishes e (drop (last + 1) s) (last + 1) last d)
            (quoted_key-Finishes s start))

quoted_value-Finishes : (s : Bytes) (start : ℕ) (p : ℕ × ℕ) → Finishes (quoted_value s start p)
quoted_value-Finishes s start (last, d) =
    if_both Finishes (not (d == b'"')) _ _ tt (
      Finishes-bind (substring s (start + 1) last) _ (substring-Finishes s (start + 1) last)
        λ v. tt)

walk_to_end-Finishes : (i : ℕ) (e : Option ℕ) → Finishes (walk_to_end i e)
walk_to_end-Finishes i e = ground arith

parse_value-Finishes : (s : Bytes) (e : Option ℕ) (start : ℕ) → Finishes (parse_value s e start)
unfolding parse_value
parse_value-Finishes s e start = Finishes-bind (read s start) _ (read-Finishes s start) λ c.
    if_both Finishes (not (c == b'"')) _ _
      (Finishes-bind (walk_to_end start e) _ (walk_to_end-Finishes start e) λ end.
        Finishes-bind (trim_end s end) _ (trim_end-Finishes s end)
          λ n. Finishes-bind (substring s start n) _ (substring-Finishes s start n) λ v. tt)
      (Finishes-bind (next_solid s (start + 1)) _ (next_solid-Finishes s (start + 1)) λ last.
        Finishes-bind (read s last) _ (read-Finishes s last) λ d.
          Finishes-bind (scan_quoted_value e (drop (last + 1) s) (last + 1) last d) _
            (scan_quoted_value-Finishes e (drop (last + 1) s) (last + 1) last d)
            (quoted_value-Finishes s start))

finish-Finishes : (k : Bytes) (o : Option Bytes) → Finishes (finish k o)
finish-Finishes k o = ground arith

value_behind-Finishes :
    (s : Bytes) (e : Option ℕ) (o : Option (Bytes × ℕ)) → Finishes (value_behind s e o)
value_behind-Finishes s e none = tt
value_behind-Finishes s e (some (k, offset)) =
    Finishes-bind (next_solid s offset) _ (next_solid-Finishes s offset) λ start.
      Finishes-bind (parse_value s e start) _ (parse_value-Finishes s e start) (finish-Finishes k)

pub parse_http_header-Finishes : (s : Bytes) → Finishes (parse_http_header s)
unfolding parse_http_header
parse_http_header-Finishes s = Finishes-bind (next_solid s 0) _ (next_solid-Finishes s 0) λ start.
    Finishes-bind (parse_key s (strstr s crlf) start) _ (parse_key-Finishes s (strstr s crlf) start)
      (value_behind-Finishes s (strstr s crlf))

-- What a call of `parse_http_headers` may return: a valid table, or one that was cleaned up.
abbrev pub IsParsed : Table Header → Type 0
IsParsed t = IsValid t ⊎ (t ≡ cleared)

-- The loop keeps its contract from one text to a shorter one.
abbrev Keeps : (Bytes → Table Header → Outcome (Table Header)) → ℕ → Type 0
Keeps go n = (s : Bytes) (t : Table Header) → length s < n → IsValid t → Ensures IsParsed (go s t)

add_and_go-Keeps :
    (go : Bytes → Table Header → Outcome (Table Header)) (s : Bytes) (i : ℕ) (t : Table Header)
    (o : Option Header)
    → Keeps go (length s)
    → 0 < length s
    → IsValid t
    → Ensures IsParsed (add_and_go go s i t o)
unfolding add_parsed destruct_http_headers
add_and_go-Keeps go s i t none k pos v = inr refl
add_and_go-Keeps go s i t (some h) k pos v = rw (append-grow h t v) (
    k (drop (i + 2) s) (extended h t) (length-drop-lt (i + 2) s (omega arith) pos)
      (extended-IsValid h t v))

Ensures-of_Finishes {ℓ} : {A : Type ℓ} (m : Outcome A) → Finishes m → Ensures (λ _. Unit {0}) m
Ensures-of_Finishes (ok a) h = tt
Ensures-of_Finishes fault h = tt
Ensures-of_Finishes abort h = h
Ensures-of_Finishes timeout h = h

parse_round-Keeps :
    (go : Bytes → Table Header → Outcome (Table Header)) (s : Bytes) (t : Table Header)
    (o : Option ℕ)
    → Keeps go (length s)
    → 0 < length s
    → IsValid t
    → Ensures IsParsed (parse_round go s t o)
unfolding parse_round destruct_http_headers
parse_round-Keeps go s t none k pos v = inr refl
parse_round-Keeps go s t (some zero) k pos v = inl v
parse_round-Keeps go s t (some (suc i)) k pos v =
    Ensures-bind (λ _. Unit {0}) IsParsed (parse_http_header s) (add_and_go go s (suc i) t)
      (Ensures-of_Finishes (parse_http_header s) (parse_http_header-Finishes s))
      (λ o _. add_and_go-Keeps go s (suc i) t o k pos v)

parse_lines-Keeps : (fuel : ℕ) → Keeps (parse_lines fuel) fuel
unfolding parse_lines
parse_lines-Keeps zero s t lt v = absurd (omega arith)
parse_lines-Keeps (suc fuel) [] t lt v = inl v
parse_lines-Keeps (suc fuel) (c ∷ s) t lt v =
    parse_round-Keeps (parse_lines fuel) (c ∷ s) t (strstr (c ∷ s) crlf)
      (λ r u less. parse_lines-Keeps fuel r u (omega arith)) (omega arith) v

-- On every text `parse_http_headers` runs within its fuel: it returns a table that is valid, or one
-- that was cleaned up after a failure (capacity 0), or its behaviour is undefined.
pub parse_http_headers_total : (s : Bytes) → Ensures IsParsed (parse_http_headers s)
unfolding parse_http_headers
parse_http_headers_total s =
    parse_lines-Keeps (length s + 1) s (init 8) (omega arith) (init-IsValid 8 (omega arith))
