-- ===== src/Http/Names.antt =====
-- The enumerations of src/http.h, and the functions of src/http.c between them and their texts.
use http_web_server_c.Base.{ℕ, ◌≡◌, refl, ◌≢◌, Bool, true, false, arith, if◌then◌else◌}
use http_web_server_c.CString.{Bytes, codes, str_eq}
use http_web_server_c.CString.Search.{str_eq_iff}

-- enum http_method
pub data Method : Type 0 where
  http_get http_post http_put http_delete http_options http_method_unknown : Method

-- enum http_version
pub data Version : Type 0 where
  http_1_0 http_1_1 http_2_0 http_3_0 http_version_unknown : Version

-- enum http_status_code
pub data StatusCode : Type 0 where
  http_ok http_created http_accepted http_no_content : StatusCode
  http_moved_permanently http_found http_not_modified : StatusCode
  http_temporary_redirect http_permanent_redirect : StatusCode
  http_bad_request http_unauthorized http_forbidden http_not_found : StatusCode
  http_method_not_allowed http_request_timeout http_conflict http_gone : StatusCode
  http_length_required http_payload_too_large http_uri_too_long : StatusCode
  http_unsupported_media_type http_too_many_requests : StatusCode
  http_internal_server_error http_not_implemented http_bad_gateway : StatusCode
  http_service_unavailable http_gateway_timeout http_http_version_not_supported : StatusCode

-- The value of an enumerator.
unfoldable pub status_value : StatusCode → ℕ
status_value http_ok = 200
status_value http_created = 201
status_value http_accepted = 202
status_value http_no_content = 204
status_value http_moved_permanently = 301
status_value http_found = 302
status_value http_not_modified = 304
status_value http_temporary_redirect = 307
status_value http_permanent_redirect = 308
status_value http_bad_request = 400
status_value http_unauthorized = 401
status_value http_forbidden = 403
status_value http_not_found = 404
status_value http_method_not_allowed = 405
status_value http_request_timeout = 408
status_value http_conflict = 409
status_value http_gone = 410
status_value http_length_required = 411
status_value http_payload_too_large = 413
status_value http_uri_too_long = 414
status_value http_unsupported_media_type = 415
status_value http_too_many_requests = 429
status_value http_internal_server_error = 500
status_value http_not_implemented = 501
status_value http_bad_gateway = 502
status_value http_service_unavailable = 503
status_value http_gateway_timeout = 504
status_value http_http_version_not_supported = 505

-- The last `return` of the source, "Unknown Status", is for values outside the enumeration.
unfoldable pub http_status_code_stringify : StatusCode → Bytes
http_status_code_stringify http_ok = codes "OK"
http_status_code_stringify http_created = codes "Created"
http_status_code_stringify http_accepted = codes "Accepted"
http_status_code_stringify http_no_content = codes "No Content"
http_status_code_stringify http_moved_permanently = codes "Moved Permanently"
http_status_code_stringify http_found = codes "Found"
http_status_code_stringify http_not_modified = codes "Not Modified"
http_status_code_stringify http_temporary_redirect = codes "Temporary Redirect"
http_status_code_stringify http_permanent_redirect = codes "Permanent Redirect"
http_status_code_stringify http_bad_request = codes "Bad Request"
http_status_code_stringify http_unauthorized = codes "Unauthorized"
http_status_code_stringify http_forbidden = codes "Forbidden"
http_status_code_stringify http_not_found = codes "Not Found"
http_status_code_stringify http_method_not_allowed = codes "Method Not Allowed"
http_status_code_stringify http_request_timeout = codes "Request Timeout"
http_status_code_stringify http_conflict = codes "Conflict"
http_status_code_stringify http_gone = codes "Gone"
http_status_code_stringify http_length_required = codes "Length Required"
http_status_code_stringify http_payload_too_large = codes "Payload Too Large"
http_status_code_stringify http_uri_too_long = codes "URI Too Long"
http_status_code_stringify http_unsupported_media_type = codes "Unsupported Media Type"
http_status_code_stringify http_too_many_requests = codes "Too Many Requests"
http_status_code_stringify http_internal_server_error = codes "Internal Server Error"
http_status_code_stringify http_not_implemented = codes "Not Implemented"
http_status_code_stringify http_bad_gateway = codes "Bad Gateway"
http_status_code_stringify http_service_unavailable = codes "Service Unavailable"
http_status_code_stringify http_gateway_timeout = codes "Gateway Timeout"
http_status_code_stringify http_http_version_not_supported = codes "HTTP Version Not Supported"

unfoldable pub parse_http_method : Bytes → Method
parse_http_method method =
    if str_eq method (codes "GET")
    then http_get
    else if str_eq method (codes "POST")
    then http_post
    else if str_eq method (codes "PUT")
    then http_put
    else if str_eq method (codes "DELETE")
    then http_delete
    else if str_eq method (codes "OPTIONS")
    then http_options
    else http_method_unknown

unfoldable pub http_method_stringify : Method → Bytes
http_method_stringify http_get = codes "GET"
http_method_stringify http_post = codes "POST"
http_method_stringify http_put = codes "PUT"
http_method_stringify http_delete = codes "DELETE"
http_method_stringify http_options = codes "OPTIONS"
http_method_stringify http_method_unknown = codes "UNKNOWN"

unfoldable pub parse_http_version : Bytes → Version
parse_http_version version =
    if str_eq version (codes "HTTP/1.0")
    then http_1_0
    else if str_eq version (codes "HTTP/1.1")
    then http_1_1
    else if str_eq version (codes "HTTP/2.0")
    then http_2_0
    else if str_eq version (codes "HTTP/3.0")
    then http_3_0
    else http_version_unknown

unfoldable pub http_version_stringify : Version → Bytes
http_version_stringify http_1_0 = codes "HTTP/1.0"
http_version_stringify http_1_1 = codes "HTTP/1.1"
http_version_stringify http_2_0 = codes "HTTP/2.0"
http_version_stringify http_3_0 = codes "HTTP/3.0"
http_version_stringify http_version_unknown = codes "Unknown"

-- `==` on the enumeration
unfoldable pub method_eq : Method → Method → Bool
method_eq http_get http_get = true
method_eq http_post http_post = true
method_eq http_put http_put = true
method_eq http_delete http_delete = true
method_eq http_options http_options = true
method_eq http_method_unknown http_method_unknown = true
method_eq _ _ = false

pub method_eq_refl : (m : Method) → method_eq m m ≡ true
unfolding method_eq
method_eq_refl http_get = refl
method_eq_refl _ = refl

pub parse_http_method-stringify : (m : Method) → parse_http_method (http_method_stringify m) ≡ m
unfolding parse_http_method http_method_stringify str_eq
parse_http_method-stringify http_get = refl
parse_http_method-stringify _ = refl

pub parse_http_version-stringify : (v : Version) → parse_http_version (http_version_stringify v) ≡ v
unfolding parse_http_version http_version_stringify str_eq
parse_http_version-stringify http_1_0 = refl
parse_http_version-stringify _ = refl

stringify-parse_http_method :
    (s : Bytes)
    → parse_http_method s ≢ http_method_unknown
    → http_method_stringify (parse_http_method s) ≡ s
unfolding parse_http_method http_method_stringify
stringify-parse_http_method s h = ground (
  arith,
  str_eq_iff s (codes "GET"),
  str_eq_iff s (codes "POST"),
  str_eq_iff s (codes "PUT"),
  str_eq_iff s (codes "DELETE"),
  str_eq_iff s (codes "OPTIONS"),
)

stringify-parse_http_version :
    (s : Bytes)
    → parse_http_version s ≢ http_version_unknown
    → http_version_stringify (parse_http_version s) ≡ s
unfolding parse_http_version http_version_stringify
stringify-parse_http_version s h = ground (
  arith,
  str_eq_iff s (codes "HTTP/1.0"),
  str_eq_iff s (codes "HTTP/1.1"),
  str_eq_iff s (codes "HTTP/2.0"),
  str_eq_iff s (codes "HTTP/3.0"),
)

-- For every method, parsing its text gives it back; and a text that is parsed to a method other than
-- the unknown one is exactly the text of that method.
pub http_method_names :
    (m : Method) (s : Bytes)
    → (parse_http_method (http_method_stringify m) ≡ m)
      × (parse_http_method s ≢ http_method_unknown
          → http_method_stringify (parse_http_method s) ≡ s)
http_method_names m s = (parse_http_method-stringify m, stringify-parse_http_method s)

-- For every version, parsing its text gives it back; and a text that is parsed to a version other
-- than the unknown one is exactly the text of that version.
pub http_version_names :
    (v : Version) (s : Bytes)
    → (parse_http_version (http_version_stringify v) ≡ v)
      × (parse_http_version s ≢ http_version_unknown
          → http_version_stringify (parse_http_version s) ≡ s)
http_version_names v s = (parse_http_version-stringify v, stringify-parse_http_version s)
