-- ===== src/Tests/Request.antt =====
-- Requests and responses.
use http_web_server_c.Base.{◌≡◌, refl, true, some, [], ◌∷◌, ◌++◌, ok}
use http_web_server_c.Http.Names.{
  http_status_code_stringify, status_value, http_1_1, http_ok, http_version_stringify, http_get,
}
use http_web_server_c.Http.Response.{decimal, HttpResponse, http_response_stringify}
use http_web_server_c.Http.Request.RoundTrip.{parse_http_request-print, stored}
use http_web_server_c.Http.Request.Written.{target, print_request, IsWritten, Written}
use http_web_server_c.Tests.Headers.{accept, accept-IsHeader, host, host-IsHeader, hosts}
use http_web_server_c.Table.Laws.{IsValid}
use http_web_server_c.Http.Headers.{Header, http_headers_stringify}
use http_web_server_c.Tests.Query.{two_pairs, two_pairs-AllPairs}
use http_web_server_c.CString.{codes}
use http_web_server_c.CString.Search.{Lacks-lacks}
use http_web_server_c.Http.Request.{parse_http_request}
use http_web_server_c.Table.{Table}

abbrev pub request : Written
request = record {
  method = http_get;
  path_start = b'/';
  path_rest = codes "user";
  query = some two_pairs;
  version = http_1_1;
  first_header = host;
  more_headers = accept ∷ [];
  body = codes "hello";
}

pub request-IsWritten : IsWritten request
request-IsWritten = record {
  no_blank = Lacks-lacks b' ' (target request) refl;
  no_return = Lacks-lacks 13 (target request) refl;
  no_question = Lacks-lacks b'?' (codes "user") refl;
  pairs = two_pairs-AllPairs;
  headers = (host-IsHeader, (accept-IsHeader, tt));
}

parse_http_request-print_example :
    (t : Table Header) × (parse_http_request (print_request request) ≡ ok (some (stored request t)))
    × IsValid t
    × (t.items ≡ host ∷ accept ∷ [])
parse_http_request-print_example = parse_http_request-print request request-IsWritten

abbrev answer : HttpResponse
answer = record {
  headers = hosts;
  status_code = http_ok;
  http_version = http_1_1;
  body = some (codes "hi");
}

answer_text :
    http_response_stringify true answer
    ≡ ok (
        some (
          codes "HTTP/1.1 200 OK"
          ++ 13 ∷ 10 ∷ (codes "Host: a.org" ++ 13 ∷ 10 ∷ 13 ∷ 10 ∷ codes "hi")))
unfolding http_response_stringify http_headers_stringify http_version_stringify decimal status_value
    http_status_code_stringify
answer_text = refl
