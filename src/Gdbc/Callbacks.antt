-- ===== src/Gdbc/Callbacks.antt =====
-- `stop_callback`, `input_callback` and `program_callback` of gdbc/src/main.c. Their allocations find
-- memory, and the log is off.
pub mod Pids
pub mod Programs
use http_web_server_c.Json.Printing.{json_object_stringify}
use http_web_server_c.Json.Element.{json_string, json_number, JsonElement}
use http_web_server_c.Gdbc.Numbers.{pid_body, atoi, int_text}
use http_web_server_c.Http.Names.{http_1_1, http_no_content, http_bad_request, http_ok}
use http_web_server_c.Gdbc.Processes.{
  pass_input_to_child, get_output_from_child, stop_process, Output, Service, Reading, invalid, dead,
  nothing, buffer,
}
use http_web_server_c.Gdbc.Execute.{with_service}
use http_web_server_c.Gdbc.Run.{parameter_value, value_behind_pointer, json_headers, response, Gdb}
use http_web_server_c.Http.Headers.{find_header, Header}
use http_web_server_c.Json.Object.{parse_json}
use http_web_server_c.Table.{init, plenty, Table}
use http_web_server_c.CString.{codes, str_eq, Bytes}
use http_web_server_c.Json.Insertion.{find_json_element, insert_json_element}
use http_web_server_c.Http.Request.{HttpRequest}
use http_web_server_c.Http.Response.{HttpResponse}
use http_web_server_c.Base.{
  ℕ, zero, suc, ◌+◌, ◌-◌, ◌*◌, ◌≤◌, ◌<◌, ◌≡◌, refl, sym, ap, ◌∙◌, ◌≢◌, ◌↔◌, ◌⊎◌, inl, inr, Bool,
  true, false, not, ◌&&◌, ◌||◌, Option, none, some, List, [], ◌∷◌, ◌++◌, append-nil, append_assoc,
  arith, ◌==◌, ltb, leb, if◌then◌else◌, Bool-cases, Option-cases, length, take, drop, length-append,
  drop-append, drop-append_add, take-append, Outcome, ok, fault, abort, timeout, ◌>>=◌, ℤ, pos,
  negsuc, get_elem?,
}

abbrev pub is_exactly_json : Option Header → Bool
is_exactly_json none = false
is_exactly_json (some h) = str_eq h.value (codes "application/json")

abbrev pub bad_request : Gdb → Bytes → Table Header → Outcome (Gdb × HttpResponse)
bad_request g body headers = ok (g, response http_bad_request body headers)

-- With the value of the parameter "pid", or none.
abbrev pub stop_pid : Bool → Gdb → Table Header → Option Bytes → Outcome (Gdb × HttpResponse)
stop_pid can_kill g headers none =
    bad_request g (codes "Missing required query parameter: pid") headers
stop_pid can_kill g headers (some value) = stop_process can_kill g.service (atoi value) >>= λ r.
    ok (with_service r.0 g, response http_ok (pid_body (atoi value)) headers)

-- The flag is the answer of `kill`.
unfoldable pub stop_callback : Bool → Gdb → HttpRequest → Outcome (Gdb × HttpResponse)
stop_callback can_kill g request = do
  headers ← json_headers
  content_type ← find_header request.headers (codes "Content-Type")
  if not (is_exactly_json content_type)
      then bad_request g (codes "Content-Type must be application/json") headers
      else (parameter_value request.query_parameters (codes "pid") >>= stop_pid can_kill g headers)

-- `find_json_element(body, "stdin")`, where `body` is NULL for a text that is not parsed
abbrev pub stdin_of : Option (Table JsonElement) → Outcome Bytes
stdin_of none = fault
stdin_of (some body) = find_json_element body (codes "stdin") >>= value_behind_pointer

abbrev pub body_text : Option Bytes → Outcome Bytes
body_text none = fault
body_text (some s) = ok s

abbrev pub input_pid :
    Bool → Option ℕ → Gdb → HttpRequest → Table Header → Option Bytes → Outcome (Gdb × HttpResponse)
input_pid alive printed g request headers none =
    bad_request g (codes "Missing required query parameter: pid") headers
input_pid alive printed g request headers (some value) = do
  text ← body_text request.body
  body ← parse_json text
  input ← stdin_of body
  passed ← pass_input_to_child alive printed g.service (atoi value) input
  ok (with_service passed.0 g, response http_ok (pid_body (atoi value)) headers)

unfoldable pub input_callback : Bool → Option ℕ → Gdb → HttpRequest → Outcome (Gdb × HttpResponse)
input_callback alive printed g request = do
  headers ← json_headers
  content_type ← find_header request.headers (codes "Content-Type")
  if not (is_exactly_json content_type)
      then bad_request g (codes "Content-Type must be application/json") headers
      else (parameter_value request.query_parameters (codes "pid")
          >>= input_pid alive printed g request headers)

-- The body of a response with some output.
abbrev pub output_body : ℤ → Bytes → Outcome Bytes
output_body pid output = do
  first ← insert_json_element plenty (init 2) (codes "pid") (int_text pid) json_number
  second ← insert_json_element plenty first.0 (codes "output") output json_string
  json_object_stringify second.0

abbrev pub with_output : Gdb → Table Header → ℤ → Bytes → Outcome (Gdb × HttpResponse)
with_output g headers pid output =
    output_body pid output >>= λ body. ok (g, response http_ok body headers)

abbrev pub on_output : Gdb → Table Header → ℤ → Service × Output → Outcome (Gdb × HttpResponse)
on_output g headers pid (s, nothing) = with_output (with_service s g) headers pid []
on_output g headers pid (s, dead) = ok (
  with_service s g,
  record { headers = headers; status_code = http_no_content; http_version = http_1_1; body = none },
)
on_output g headers pid (s, invalid) =
    bad_request (with_service s g) (codes "Invalid parameter: pid") headers
on_output g headers pid (s, buffer output) = with_output (with_service s g) headers pid output

abbrev pub program_pid : Reading → Gdb → Table Header → Option Bytes → Outcome (Gdb × HttpResponse)
program_pid r g headers none = bad_request g (codes "Missing required query parameter: pid") headers
program_pid r g headers (some value) =
    get_output_from_child g.service (atoi value) r >>= on_output g headers (atoi value)

unfoldable pub program_callback : Reading → Gdb → HttpRequest → Outcome (Gdb × HttpResponse)
program_callback r g request = do
  headers ← json_headers
  value ← parameter_value request.query_parameters (codes "pid")
  program_pid r g headers value
