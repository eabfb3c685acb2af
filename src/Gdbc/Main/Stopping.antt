-- ===== src/Gdbc/Main/Stopping.antt =====
-- A request to stop a process, from the bytes of the client to the bytes of the answer.
use http_web_server_c.Base.{
  ℕ, ◌<◌, ◌≡◌, refl, ap, ◌∙◌, ◌≢◌, true, Option, none, some, List, [], ◌∷◌, ◌++◌, arith, length,
  Outcome, ok, ◌>>=◌, pos, get_elem?,
}
use http_web_server_c.Gdbc.Callbacks.{stop_callback}
use http_web_server_c.Runner.Dispatch.Answered.{send_response_lem, respond_routed, response_text}
use http_web_server_c.Gdbc.Numbers.Laws.{atoi-int_text, int_text_cons}
use http_web_server_c.Gdbc.Callbacks.Pids.{stop_callback_twice, Names}
use http_web_server_c.Gdbc.Main.Routes.{every_route, route_table}
use http_web_server_c.Gdbc.Processes.{check_pidx, killed, ProcessRunning}
use http_web_server_c.Gdbc.Processes.Cleanup.{end_effects}
use http_web_server_c.Gdbc.Numbers.{pid_body, int_text}
use http_web_server_c.Runner.Dispatch.{respond}
use http_web_server_c.Table.Laws.{find?, find-IsValid, IsValid}
use http_web_server_c.Gdbc.Processes.Slots.{IsOpen}
use http_web_server_c.Http.Headers.{key_is, Header, find_header}
use http_web_server_c.Http.Response.{HttpResponse}
use http_web_server_c.Gdbc.Run.{parameter_value, Gdb, response}
use http_web_server_c.Http.Request.{HttpRequest}
use http_web_server_c.Runner.Answers.{FileAnswer}
use http_web_server_c.Table.{Table}
use http_web_server_c.CString.{Bytes, codes, str_eq}
use http_web_server_c.Gdbc.Callbacks.Programs.{json_table}
use http_web_server_c.Gdbc.Main.{Callback, System, call, stop, listed}
use http_web_server_c.Http.Query.{find_query_parameter}
use http_web_server_c.Http.Request.RoundTrip.{stored}
use http_web_server_c.Http.Request.Written.{Written, IsWritten, print_request, kept}
use http_web_server_c.Http.Names.{http_post, http_options, http_1_1, http_ok}

abbrev pub json_type : Header
json_type = record { key = codes "Content-Type"; value = codes "application/json" }

-- What a client sends to stop the process i.
abbrev pub stop_request : ℕ → List Header → Bytes → Written
stop_request i more body = record {
  method = http_post;
  path_start = b'/';
  path_rest = codes "stop";
  query = some (record { name = codes "pid"; content = int_text (pos i) } ∷ []);
  version = http_1_1;
  first_header = json_type;
  more_headers = more;
  body = body;
}

-- The routes of the server as `handle_http_request` calls them; their allocations find memory.
abbrev pub routes_of : System → Callback → Gdb → HttpRequest → Outcome (Gdb × Option HttpResponse)
routes_of o c g request = call o c g request >>= λ (h, r). ok (h, some r)

pid_parameter :
    (i : ℕ)
    → parameter_value (kept (stop_request i [] []).query) (codes "pid")
      ≡ ok (some (int_text (pos i)))
unfolding find_query_parameter str_eq
pid_parameter i = let (c, t, e) = int_text_cons i in rw e refl

typed_table :
    (t : Table Header) (more : List Header)
    → IsValid t
    → t.items ≡ json_type ∷ more
    → find_header t (codes "Content-Type") ≡ ok (some json_type)
unfolding find_header str_eq
typed_table t more v e =
    find-IsValid (key_is (codes "Content-Type")) t v
    ∙ ap (λ l. ok (find? (key_is (codes "Content-Type")) l)) e

stop_request-Names :
    (i : ℕ) (more : List Header) (body : Bytes) (t : Table Header)
    → IsValid t
    → t.items ≡ json_type ∷ more
    → Names (stored (stop_request i more body) t) (int_text (pos i))
unfolding stored
stop_request-Names i more body t v e = record {
  content_type = json_type;
  typed = typed_table t more v e;
  json = refl;
  named = pid_parameter i;
}

json_table-IsValid : IsValid json_table
json_table-IsValid = record {
  counted = refl;
  fits = omega arith;
  room = refl;
  nonempty = omega arith;
}

post_is_not_options : http_post ≢ http_options
post_is_not_options e = cc

-- When a client sends "POST /stop?pid=<i>" as a well-formed request whose first header is the content type
-- JSON, the slot i, a number that fits an `int`, has a running process with open streams and file names that were not freed, and
-- `kill` succeeds: the server that has the routes of `main` kills the process, waits for it, removes
-- those of its two files whose names the slot still has, the executable first, and answers with the
-- status 200 and the number; and the number is no process any more.
pub respond-stop_callback :
    (o : System) (files : Bytes → FileAnswer) (dir : Bytes) (g : Gdb) (i : ℕ) (p : ProcessRunning)
    → (more : List Header) (body : Bytes) → o.can_kill ≡ true
    → IsWritten (stop_request i more body)
    → get_elem? g.service.processes i ≡ some p
    → i < length g.service.processes
    → i < 2147483648
    → p.is_running ≡ true
    → IsOpen p
    → (h : Gdb) × (respond
          (routes_of o)
          files
          route_table
          dir
          g
          (print_request (stop_request i more body))
        ≡ ok (h, response_text (response http_ok (pid_body (pos i)) json_table)))
      × (h.service.effects ≡ (g.service.effects ++ killed p.pid ∷ []) ++ end_effects p)
      × (check_pidx h.service (pos i) ≡ none)
unfolding call
respond-stop_callback o files dir g i p more body can_kill w at lt small running fine =
    let r = listed (codes "/stop") http_post stop in
    let (t, valid, items, run) =
      respond_routed (routes_of o) files route_table dir g (stop_request i more body) r w
        post_is_not_options (every_route.0) in
    let (h, first, again, effects, gone) =
      stop_callback_twice g (stored (stop_request i more body) t) (int_text (pos i)) i p
        (stop_request-Names i more body t valid items) (atoi-int_text (pos i) small) at lt running
        fine in
    let answered =
      ap (λ b. stop_callback b g (stored (stop_request i more body) t)) can_kill ∙ first in
    (
      h,
      run
          ∙ rw answered (
              send_response_lem (routes_of o) files route_table dir g h
                (response http_ok (pid_body (pos i)) json_table) json_table-IsValid),
      effects,
      gone,
    )
