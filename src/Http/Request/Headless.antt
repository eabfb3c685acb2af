-- ===== src/Http/Request/Headless.antt =====
-- Requests without headers.
use http_web_server_c.Base.{
  ℕ, ◌≡◌, refl, Option, none, some, [], ◌∷◌, ◌++◌, arith, drop-append_add, take-append, ok,
}
use http_web_server_c.CString.Search.{strstr-crlf, Lacks}
use http_web_server_c.Http.Request.{with_method, with_version, parse_http_request, crlf_crlf}
use http_web_server_c.CString.{Bytes, strstr}

strstr-none : (s : Bytes) → Lacks 13 s → strstr s crlf_crlf ≡ none
unfolding strstr
strstr-none [] h = refl
strstr-none (c ∷ s) (h, hs) = ground (arith, strstr-none s hs)

strstr_alone : (body : Bytes) → Lacks 13 body → strstr (13 ∷ 10 ∷ body) crlf_crlf ≡ none
unfolding strstr
strstr_alone [] h = refl
strstr_alone (c ∷ body) h = ground (arith, strstr-none (c ∷ body) h)

-- A request line with no header behind it, "LINE\r\n\r\n" and a body without carriage return, is
-- refused: `parse_http_request` returns NULL, whatever the line is.
pub headless_refused :
    (line body : Bytes)
    → Lacks 13 line
    → Lacks 13 body
    → parse_http_request (line ++ 13 ∷ 10 ∷ 13 ∷ 10 ∷ body) ≡ ok none
unfolding parse_http_request
headless_refused line body hl hb =
    rw
      (
        strstr-crlf line (13 ∷ 10 ∷ body) hl,
        drop-append_add line (13 ∷ 10 ∷ 13 ∷ 10 ∷ body) 2,
        take-append line (13 ∷ 10 ∷ 13 ∷ 10 ∷ body),
      )
      (by_method (strstr line (b' ' ∷ [])))
  where
    by_version : (m t : Bytes) (o : Option ℕ) → with_version (13 ∷ 10 ∷ body) m t o ≡ ok none
    by_version m t none = refl
    by_version m t (some k) = rw (strstr_alone body hb) refl

    by_method : (o : Option ℕ) → with_method (13 ∷ 10 ∷ body) line o ≡ ok none
    by_method none = refl
    by_method (some j) = by_version _ _ _
