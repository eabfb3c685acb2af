-- ===== src/Runner/Answers.antt =====
-- The responses that src/runner.c makes itself: `get_static_file`, and the three that
-- `run_web_server` prepares. Their allocations find memory.
use http_web_server_c.CString.{until, codes, Bytes}
use http_web_server_c.Http.Names.{http_ok, http_1_1, http_not_found, StatusCode}
use http_web_server_c.Table.{init, plenty, Table}
use http_web_server_c.Http.Headers.{insert_header, Header}
use http_web_server_c.Http.Response.{HttpResponse}
use http_web_server_c.Base.{none, some, List, [], ◌∷◌, Outcome, ok, ◌>>=◌}

-- Insertions one after another; their results are not tested.
abbrev pub insert_all : List Header → Table Header → Outcome (Table Header)
insert_all [] t = ok t
insert_all (h ∷ hs) t = insert_header plenty t h.key h.value >>= λ r. insert_all hs r.0

abbrev pub access_control : List Header
access_control =
    record { key = codes "Access-Control-Allow-Origin"; value = codes "*" }
    ∷ record {
      key = codes "Access-Control-Allow-Methods";
      value = codes "GET, POST, PUT, DELETE, OPTIONS";
    }
    ∷ record { key = codes "Access-Control-Allow-Headers"; value = codes "*" }
    ∷ []

-- `response_500`, `response_404` and `response_204`
unfoldable pub prepared : StatusCode → Outcome HttpResponse
prepared status_code = insert_all access_control (init 8) >>= λ headers.
    ok (record {
      headers = headers;
      status_code = status_code;
      http_version = http_1_1;
      body = none;
    })

-- What the file system answers for a path: no such file, a file that cannot be read, or its bytes.
pub data FileAnswer : Type 0 where
  missing unreadable : FileAnswer
  content : Bytes → FileAnswer

abbrev pub file_response : Table Header → FileAnswer → HttpResponse
file_response headers missing = record {
  headers = headers;
  status_code = http_not_found;
  http_version = http_1_1;
  body = none;
}
file_response headers unreadable = record {
  headers = headers;
  status_code = http_not_found;
  http_version = http_1_1;
  body = none;
}
file_response headers (content bytes) = record {
  headers = headers;
  status_code = http_ok;
  http_version = http_1_1;
  body = some (until 0 bytes);
}

unfoldable pub get_static_file : (Bytes → FileAnswer) → Bytes → Outcome HttpResponse
get_static_file files file_path =
    insert_all access_control (init 4) >>= λ headers. ok (file_response headers (files file_path))
