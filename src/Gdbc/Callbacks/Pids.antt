-- ===== src/Gdbc/Callbacks/Pids.antt =====
-- `stop_callback` and `input_callback` on requests that name a process.
use http_web_server_c.Gdbc.Processes.Cleanup.{stop_process_lem, ended, after_end, end_effects}
use http_web_server_c.Gdbc.Processes.Slots.{
  get_elem?-put, check_pidx_stopped, check_pidx_running, IsOpen,
}
use http_web_server_c.Gdbc.Processes.{log, check_pidx, killed, ProcessRunning, stop_process}
use http_web_server_c.Gdbc.Numbers.{pid_body, atoi}
use http_web_server_c.Http.Names.{http_ok}
use http_web_server_c.Gdbc.Run.{response, parameter_value, Gdb}
use http_web_server_c.CString.Search.{str_eq_refl}
use http_web_server_c.CString.{str_eq, Bytes, codes}
use http_web_server_c.Gdbc.Callbacks.Programs.{json_headers_lem, json_table}
use http_web_server_c.Gdbc.Callbacks.{is_exactly_json, stop_pid, input_callback, stop_callback}
use http_web_server_c.Http.Headers.{find_header, Header}
use http_web_server_c.Json.Object.{parse_json}
use http_web_server_c.Http.Request.{HttpRequest}
use http_web_server_c.Base.{
  ℕ, ◌<◌, ◌≡◌, refl, ap, ◌∙◌, Bool, true, Option, none, some, [], ◌∷◌, ◌++◌, length, ok, fault, pos,
  get_elem?,
}

-- A request with the content type "application/json" and a parameter "pid".
pub record Names (request : HttpRequest) (value : Bytes) : Type 0 where
  pub content_type : Header
  pub typed : find_header request.headers (codes "Content-Type") ≡ ok (some content_type)
  pub json : content_type.value ≡ codes "application/json"
  pub named : parameter_value request.query_parameters (codes "pid") ≡ ok (some value)

is_json_lem : (h : Header) → h.value ≡ codes "application/json" → is_exactly_json (some h) ≡ true
is_json_lem h e =
    ap (λ v. str_eq v (codes "application/json")) e ∙ str_eq_refl (codes "application/json")

stop_callback_lem :
    (can_kill : Bool) (g : Gdb) (request : HttpRequest) (value : Bytes)
    → Names request value
    → stop_callback can_kill g request ≡ stop_pid can_kill g json_table (some value)
unfolding stop_callback
stop_callback_lem can_kill g request value v =
    rw (json_headers_lem, v.typed, is_json_lem v.content_type v.json, v.named) refl

-- A request that names a running process kills it, waits for it, removes its files, and is answered
-- with the status 200. The same request sent again changes nothing, and its answer is the same: it does
-- not say whether there was a process to stop.
pub stop_callback_twice :
    (g : Gdb) (request : HttpRequest) (value : Bytes) (i : ℕ) (p : ProcessRunning)
    → Names request value
    → atoi value ≡ pos i
    → get_elem? g.service.processes i ≡ some p
    → i < length g.service.processes
    → p.is_running ≡ true
    → IsOpen p
    → (h : Gdb) × (stop_callback true g request
        ≡ ok (h, response http_ok (pid_body (pos i)) json_table))
      × (stop_callback true h request ≡ ok (h, response http_ok (pid_body (pos i)) json_table))
      × (h.service.effects ≡ (g.service.effects ++ killed p.pid ∷ []) ++ end_effects p)
      × (check_pidx h.service (pos i) ≡ none)
unfolding stop_process
stop_callback_twice g request value i p v number at lt running o =
    let here = check_pidx_running g.service i p at running in
    let s = after_end i p (log (killed p.pid) g.service) in
    let gone : check_pidx s (pos i) ≡ none =
      check_pidx_stopped s i (ended p) (get_elem?-put i (ended p) g.service.processes lt) refl in
    (
      record g { service = s },
      stop_callback_lem true g request value v
          ∙ rw (number, stop_process_lem g.service (pos i) i p here running o) refl,
      stop_callback_lem true (record g { service = s }) request value v ∙ rw (number, gone) refl,
      refl,
      gone,
    )

-- An input for a process, in a request whose body is not parsed as JSON, uses the NULL of the parser as
-- an object: the behaviour is undefined, also when the number is no process.
pub malformed_input_faults :
    (alive : Bool) (printed : Option ℕ) (g : Gdb) (request : HttpRequest) (value text : Bytes)
    → Names request value
    → request.body ≡ some text
    → parse_json text ≡ ok none
    → input_callback alive printed g request ≡ fault
unfolding input_callback
malformed_input_faults alive printed g request value text v body bad =
    rw (json_headers_lem, v.typed, is_json_lem v.content_type v.json, v.named, body, bad) refl
