-- ===== src/Http/Response.antt =====
-- struct http_response of src/http.h, `init_http_response` and `http_response_stringify` of
-- src/http.c.
pub mod Printing
use http_web_server_c.Http.Names.{
  http_status_code_stringify, status_value, http_version_stringify, StatusCode, Version,
}
use http_web_server_c.Http.Headers.{Header, http_headers_stringify}
use http_web_server_c.Table.{Table}
use http_web_server_c.Base.{
  ℕ, zero, suc, ◌+◌, ◌-◌, ◌*◌, ◌≤◌, ◌<◌, ◌≡◌, refl, sym, ap, ◌∙◌, ◌≢◌, ◌↔◌, ◌⊎◌, inl, inr, Bool,
  true, false, not, ◌&&◌, ◌||◌, Option, none, some, List, [], ◌∷◌, ◌++◌, append-nil, append_assoc,
  arith, ◌==◌, ltb, leb, if◌then◌else◌, Bool-cases, Option-cases, length, take, drop, length-append,
  drop-append, drop-append_add, take-append, Outcome, ok, fault, abort, timeout, ◌>>=◌,
}
use Prim.Native.Nat.{◌/◌, ◌%◌}
use http_web_server_c.CString.{Bytes}

pub record HttpResponse : Type 0 where
  pub headers : Table Header
  pub status_code : StatusCode
  pub http_version : Version
  pub body : Option Bytes

-- `none` is the result -1, for a null pointer in place of the response. The copy of the body finds
-- its memory.
unfoldable pub init_http_response :
    Bool → StatusCode → Table Header → Version → Option Bytes → Option HttpResponse
init_http_response is_null status_code headers version body =
    if is_null
    then none
    else some (record {
      headers = headers;
      status_code = status_code;
      http_version = version;
      body = body;
    })

-- "%d" of a number that is not negative, in front of `out`; a number has fewer digits than `fuel`.
unfoldable pub digits_before : ℕ → ℕ → Bytes → Bytes
digits_before zero n out = out
digits_before (suc fuel) n out =
    let here = (48 + n % 10) ∷ out in
    let more = digits_before fuel (n / 10) here in if ltb n 10 then here else more

unfoldable pub decimal : ℕ → Bytes
unfolding digits_before
decimal n = digits_before (n + 1) n []

abbrev pub text_of : Option Bytes → Bytes
text_of none = []
text_of (some s) = s

-- "%s %d %s\r\n%s\r\n%s"
abbrev pub format : Bytes → ℕ → Bytes → Bytes → Bytes → Bytes
format version code phrase headers body =
    version ++ b' ' ∷ (decimal code ++ b' ' ∷ (phrase ++ 13 ∷ 10 ∷ (headers ++ 13 ∷ 10 ∷ body)))

-- The flag says whether `malloc` finds memory for the text; `none` is NULL. The first `snprintf`
-- measures the same text that the second one writes.
unfoldable pub http_response_stringify : Bool → HttpResponse → Outcome (Option Bytes)
http_response_stringify got r = http_headers_stringify r.headers >>= λ header_string. ok (
    if got
    then some (
        format (http_version_stringify r.http_version) (status_value r.status_code)
          (http_status_code_stringify r.status_code) (text_of header_string) (text_of r.body))
    else none)
