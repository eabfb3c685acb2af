-- ===== src/Runner/Dispatch/Stale.antt =====
-- What the parser sees of a buffer that was used before: the read writes no terminator.
use http_web_server_c.Http.Request.RoundTrip.{parse_http_request-print, stored}
use http_web_server_c.Http.Request.Written.{all_headers, IsWritten, print_request, Written}
use http_web_server_c.Http.Request.{parse_http_request}
use http_web_server_c.Runner.Buffers.{overwrite, has_terminator, string_in}
use http_web_server_c.Http.Headers.{Header}
use http_web_server_c.Table.{Table}
use http_web_server_c.Base.{
  if_both, ◌≡◌, refl, ap, true, some, [], ◌∷◌, ◌++◌, append_assoc, ◌==◌, length, drop, ok, ◌>>=◌,
}
use http_web_server_c.CString.{until, Bytes}
use http_web_server_c.CString.Search.{Lacks}

until_stale : (s old : Bytes) → Lacks 0 s → until 0 (s ++ old) ≡ s ++ until 0 old
until_stale [] old l = refl
until_stale (c ∷ s) old (h, l) = rw h (ap (◌∷◌ c) (until_stale s old l))

has_terminator-append :
    (s old : Bytes) → has_terminator old ≡ true → has_terminator (s ++ old) ≡ true
has_terminator-append [] old h = h
has_terminator-append (c ∷ s) old h =
    if_both (λ b. b ≡ true) (c == 0) true (has_terminator (s ++ old)) refl
      (has_terminator-append s old h)

-- The request with more text at the end of its body.
abbrev pub longer : Written → Bytes → Written
longer w more = record w { body = w.body ++ more }

print_request-longer :
    (w : Written) (more : Bytes) → print_request (longer w more) ≡ print_request w ++ more
print_request-longer w more = simp append_assoc

-- What an earlier request left in the buffer behind the new one.
abbrev pub stale : Written → Bytes → Bytes
stale w old = until 0 (drop (length (print_request w)) old)

-- When a well-formed request without zero bytes is read into a buffer in which a zero byte follows it
-- at some place, it is parsed with its method, path, version, query and headers; but its body is
-- followed by what the buffer held behind it from earlier requests, up to that zero byte.
pub stale_body :
    (w : Written) (old : Bytes)
    → IsWritten w
    → Lacks 0 (print_request w)
    → has_terminator (drop (length (print_request w)) old) ≡ true
    → (t : Table Header) × ((string_in (overwrite (print_request w) old) >>= parse_http_request)
        ≡ ok (some (record (stored w t) { body = some (w.body ++ stale w old) })))
      × (t.items ≡ all_headers w)
unfolding string_in stored
stale_body w old v l z =
    let more = stale w old in
    let (t, run, valid, items) = parse_http_request-print (longer w more) (longer_written v) in
    (
      t,
      rw
          (
            has_terminator-append (print_request w) (drop (length (print_request w)) old) z,
            until_stale (print_request w) (drop (length (print_request w)) old) l,
            ← print_request-longer w more,
          )
          run,
      items,
    )
  where
    longer_written : IsWritten w → IsWritten (longer w (stale w old))
    longer_written v = record {
      no_blank = v.no_blank;
      no_return = v.no_return;
      no_question = v.no_question;
      pairs = v.pairs;
      headers = v.headers;
    }
