-- ===== src/Tests/Runner.antt =====
-- The dispatch of the server on a concrete request, with callbacks that count.
use http_web_server_c.Runner.Dispatch.Written.{respond_written, file_headers}
use http_web_server_c.Table.Laws.{find?, IsValid}
use http_web_server_c.Http.Names.{
  http_no_content, http_version_stringify, http_method_stringify, http_get, http_1_1, http_ok,
  http_options,
}
use http_web_server_c.Runner.Dispatch.Answered.{
  prepared_response, response_text, path_of, access_table,
}
use http_web_server_c.Base.{
  ℕ, ◌+◌, ◌≤◌, ◌≡◌, refl, ◌≢◌, ◌⊎◌, true, false, Option, none, some, [], ◌∷◌, ◌++◌, arith, length,
  drop, Outcome, ok, ◌>>=◌, get_elem?,
}
use http_web_server_c.Runner.Sharing.Claims.{AllBelow, trying-Shares}
use http_web_server_c.Runner.Sharing.Counts.{flag_count, holders}
use http_web_server_c.Runner.Sharing.{
  moved, Shares, outside, trying, holding, enter, pass, take_buffer, fresh_start, next_turn,
}
use http_web_server_c.CString.Search.{lacks, Lacks-lacks}
use http_web_server_c.Runner.Buffers.{has_terminator, overwrite, string_in}
use http_web_server_c.Runner.Dispatch.{send_response, or_500, respond}
use http_web_server_c.Runner.Dispatch.Stale.{stale_body, stale}
use http_web_server_c.Http.Request.{parse_http_request, HttpRequest}
use http_web_server_c.Http.Request.RoundTrip.{stored}
use http_web_server_c.Http.Request.Written.{all_headers, print_request}
use http_web_server_c.Table.{Table}
use http_web_server_c.CString.{codes, Bytes}
use http_web_server_c.Http.Headers.{Header}
use http_web_server_c.Http.Routes.{route_matches, Route}
use http_web_server_c.Tests.Request.{request, request-IsWritten}
use http_web_server_c.Runner.Answers.{content, FileAnswer, file_response}
use http_web_server_c.Http.Response.{HttpResponse}

abbrev one_file : Bytes → FileAnswer
one_file p = content (codes "index")

abbrev done : HttpResponse
done = record {
  headers = access_table 8;
  status_code = http_ok;
  http_version = http_1_1;
  body = none;
}

abbrev counted : ℕ → ℕ → HttpRequest → Outcome (ℕ × Option HttpResponse)
counted step n r = ok (n + step, some done)

abbrev user_route : Route ℕ
user_route = record { path = codes "/user"; method = http_get; callback = 2 }

abbrev no_routes : Table (Route ℕ)
no_routes = record { size = 0; capacity = 8; slots = 8; items = [] }

abbrev user_routes : Table (Route ℕ)
user_routes = record { size = 1; capacity = 8; slots = 8; items = user_route ∷ [] }

user_routes-IsValid : IsValid user_routes
user_routes-IsValid = record {
  counted = refl;
  fits = omega arith;
  room = refl;
  nonempty = omega arith;
}

respond_written_example :
    ((http_get ≡ http_options)
      × (respond counted one_file user_routes (codes "./www") 0 (print_request request)
          ≡ ok (0, response_text (prepared_response http_no_content))))
    ⊎ ((http_get ≢ http_options)
        × (((r : Route ℕ) × (find? (route_matches (path_of request) http_get) user_routes.items
                ≡ some r)
              × ((t : Table Header) × IsValid t
                  × (t.items ≡ all_headers request)
                  × (respond counted one_file user_routes (codes "./www") 0 (print_request request)
                      ≡ (counted r.callback 0 (stored request t)
                          >>= or_500 counted one_file
                          >>= send_response counted one_file))))
            ⊎ ((find? (route_matches (path_of request) http_get) user_routes.items ≡ none)
                × (respond counted one_file user_routes (codes "./www") 0 (print_request request)
                    ≡ ok (
                      0,
                      response_text (
                          file_response
                            (file_headers (path_of request))
                            (one_file (codes "./www" ++ path_of request))),
                    )))))
respond_written_example =
    respond_written counted one_file user_routes (codes "./www") 0 request request-IsWritten
      user_routes-IsValid

-- The buffer held an earlier request with a longer body.
abbrev earlier : Bytes
earlier = print_request request ++ (codes "secret" ++ 0 ∷ [])

no_zero : lacks 0 (print_request request) ≡ true
unfolding http_method_stringify http_version_stringify
no_zero = refl

ends : has_terminator (drop (length (print_request request)) earlier) ≡ true
unfolding http_method_stringify http_version_stringify
ends = refl

stale_body_example :
    (t : Table Header) × ((string_in (overwrite (print_request request) earlier)
        >>= parse_http_request)
      ≡ ok (
          some (record (stored request t) { body = some (request.body ++ stale request earlier) })))
    × (t.items ≡ all_headers request)
stale_body_example =
    stale_body request earlier request-IsWritten (Lacks-lacks 0 (print_request request) no_zero)
      ends

-- One of two threads holds the first buffer, and the other one tries the second.
one_waits : Shares 2 (moved (holding 0 ∷ []) (trying 1) [] (true ∷ false ∷ []))
one_waits =
    next_turn
      (next_turn
        (next_turn (next_turn fresh_start (enter [] (outside ∷ []) refl))
          (take_buffer [] (outside ∷ []) 0 refl refl))
        (enter (holding 0 ∷ []) [] refl))
      (pass (holding 0 ∷ []) [] 0 refl refl)

trying-Shares_example :
    AllBelow 2 (holding 0 ∷ trying 1 ∷ [])
    × (holders 0 (moved (holding 0 ∷ []) (trying 1) [] (true ∷ false ∷ [])) ≤ 1)
    × (holders 0 (moved (holding 0 ∷ []) (trying 1) [] (true ∷ false ∷ []))
        ≡ flag_count (get_elem? (true ∷ false ∷ []) 0))
trying-Shares_example =
    trying-Shares 2 (moved (holding 0 ∷ []) (trying 1) [] (true ∷ false ∷ [])) 0 one_waits
