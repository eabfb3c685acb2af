-- ===== src/Gdbc/Main/Serving.antt =====
-- The callbacks of gdbc/src/main.c as handlers of the server: on any request they keep the table of
-- processes in order.
pub mod Running
pub mod Requests
use http_web_server_c.Base.{
  ℕ, zero, suc, ◌+◌, ◌-◌, ◌*◌, ◌≤◌, ◌<◌, ◌≡◌, refl, sym, ap, ◌∙◌, ◌≢◌, ◌↔◌, ◌⊎◌, inl, inr, Bool,
  true, false, not, ◌&&◌, ◌||◌, Option, none, some, List, [], ◌∷◌, ◌++◌, append-nil, append_assoc,
  arith, ◌==◌, ltb, leb, if◌then◌else◌, Bool-cases, Option-cases, length, take, drop, length-append,
  drop-append, drop-append_add, take-append, Outcome, ok, fault, abort, timeout, ◌>>=◌, ℤ, pos,
  negsuc, get_elem?, Ends-of_Ensures, if_both, Ends-after, Ends-bind, Finishes-bind, Ends, Finishes,
}
use http_web_server_c.Gdbc.Build.Follows.{Follows, spawned}
use http_web_server_c.Gdbc.Processes.{
  pass_input_to_child, get_output_from_child, stop_process, Reading, ProcessRunning, Service,
  Output, invalid, dead, nothing, buffer,
}
use http_web_server_c.Json.Object.Total.{parse_json_total, IsObject}
use http_web_server_c.Gdbc.Callbacks.{
  is_exactly_json, body_text, input_pid, bad_request, on_output, program_pid, stdin_of, stop_pid,
  input_callback, program_callback, stop_callback,
}
use http_web_server_c.Json.Object.{parse_json}
use http_web_server_c.Http.Headers.{key_is, find_header}
use http_web_server_c.CString.{codes, Bytes}
use http_web_server_c.Gdbc.Numbers.{atoi}
use http_web_server_c.Gdbc.Callbacks.Programs.{json_headers_lem, output_body_lem, json_table}
use http_web_server_c.Json.Insertion.{element_key_is, find_json_element}
use http_web_server_c.Gdbc.Run.{value_behind_pointer, Gdb, parameter_value}
use http_web_server_c.Http.Request.{HttpRequest}
use http_web_server_c.Http.Response.{HttpResponse}
use http_web_server_c.Json.Element.{JsonElement}
use http_web_server_c.Http.Query.{QueryParameter, QueryParameters, find_loop, find_query_parameter}
use http_web_server_c.Table.{Table, scan, find}
use http_web_server_c.Gdbc.Processes.Slots.{AllProper}
use http_web_server_c.Table.Laws.{IsValid}
use http_web_server_c.Gdbc.Build.Calls.{call-Follows, Fits, stops, inputs, outputs}
use http_web_server_c.Gdbc.Main.{System}
use mathlib.Core.Path.{subst}

-- The pipes and forks of a build succeed and its streams open, and a reading leaves room for the terminator.
pub record IsWorking (o : System) : Type 0 where
  pub child : ℕ
  pub spawns : o.run.spawn ≡ spawned child
  pub fits : (pidx : ℤ) → Fits (outputs pidx o.reading)

-- The table of processes is in order, and has n slots.
abbrev pub IsOrdered : ℕ → Service → Type 0
IsOrdered n s = AllProper s.processes × (length s.processes ≡ n)

pub find-Finishes : {A : Type 0} (test : A → Bool) (t : Table A) → Finishes (find test t)
unfolding find scan
find-Finishes {A = A} test t = scan-Finishes t.size t.items
  where
    scan-Finishes : (n : ℕ) (items : List A) → Finishes (scan test n items)
    scan-Finishes zero items = tt
    scan-Finishes (suc n) [] = tt
    scan-Finishes (suc n) (x ∷ items) = ground (arith, scan-Finishes n items)

pub parameter_value-Finishes :
    (q : QueryParameters) (key : Bytes) → Finishes (parameter_value q key)
unfolding find_query_parameter find_loop
parameter_value-Finishes q key =
    Finishes-bind (find_loop key q.size q.items) _ (find_loop-Finishes q.size q.items) λ p. tt
  where
    find_loop-Finishes : (n : ℕ) (items : List QueryParameter) → Finishes (find_loop key n items)
    find_loop-Finishes zero items = tt
    find_loop-Finishes (suc n) [] = tt
    find_loop-Finishes (suc n) (p ∷ items) = ground (arith, find_loop-Finishes n items)

pub json_table-IsValid : IsValid json_table
json_table-IsValid = record {
  counted = refl;
  fits = omega arith;
  room = refl;
  nonempty = omega arith;
}

call-IsOrdered {ℓ} :
    {B : Type ℓ} (n : ℕ) (s : Service) (m : Outcome (Service × B))
    → length s.processes ≡ n
    → Follows s (m >>= λ r. ok r.0)
    → Ends (λ r. IsOrdered n r.0) m
call-IsOrdered n s (ok (u, b)) l f =
    let same : u ≡ f.service = cc (f.returns) in
    subst (λ t. IsOrdered n t) (sym same) (f.proper, f.sized ∙ l)
call-IsOrdered n s fault l f = tt
call-IsOrdered n s abort l f = tt
call-IsOrdered n s timeout l f = absurd (cc (f.returns))

-- A state of the server in order, with a response that can be sent.
abbrev pub Done : ℕ → Gdb × HttpResponse → Type 0
Done n (g, r) = IsOrdered n g.service × IsValid r.headers

bad_request-Done :
    (n : ℕ) (g : Gdb) (body : Bytes)
    → IsOrdered n g.service
    → Ends (Done n) (bad_request g body json_table)
bad_request-Done n g body i = (i, json_table-IsValid)

-- A call of the service, made in a table in order.
pub called_service :
    (n : ℕ) (g : Gdb) {B : Type 0} (m : Outcome (Service × B))
    (f : Service × B → Outcome (Gdb × HttpResponse))
    → IsOrdered n g.service
    → Follows g.service (m >>= λ r. ok r.0)
    → ((r : Service × B) → IsOrdered n r.0 → Ends (Done n) (f r))
    → Ends (Done n) (m >>= f)
called_service n g m f i follows h =
    Ends-bind (λ r. IsOrdered n r.0) (Done n) m f (call-IsOrdered n g.service m (i.1) follows) h

stop_pid-Done :
    (n : ℕ) (can_kill : Bool) (g : Gdb) (o : Option Bytes)
    → IsOrdered n g.service
    → Ends (Done n) (stop_pid can_kill g json_table o)
stop_pid-Done n can_kill g none i = (i, json_table-IsValid)
stop_pid-Done n can_kill g (some value) i =
    called_service n g (stop_process can_kill g.service (atoi value)) _ i
      (call-Follows g.service (stops can_kill (atoi value)) (i.0) tt)
      (λ r v. (v, json_table-IsValid))

pub stop_callback-Done :
    (n : ℕ) (can_kill : Bool) (g : Gdb) (request : HttpRequest)
    → IsOrdered n g.service
    → Ends (Done n) (stop_callback can_kill g request)
unfolding stop_callback find_header
stop_callback-Done n can_kill g request i = rw json_headers_lem (
    Ends-after (Done n) (find (key_is (codes "Content-Type")) request.headers) _
      (find-Finishes (key_is (codes "Content-Type")) request.headers)
      (λ content_type.
        if_both (Ends (Done n)) (not (is_exactly_json content_type)) _ _ (i, json_table-IsValid)
          (Ends-after (Done n) (parameter_value request.query_parameters (codes "pid")) _
            (parameter_value-Finishes request.query_parameters (codes "pid"))
            (λ o. stop_pid-Done n can_kill g o i))))

pub value_behind_pointer-Finishes : (o : Option JsonElement) → Finishes (value_behind_pointer o)
value_behind_pointer-Finishes o = ground arith

stdin_of-Finishes : (o : Option (Table JsonElement)) → Finishes (stdin_of o)
unfolding find_json_element
stdin_of-Finishes none = tt
stdin_of-Finishes (some body) =
    Finishes-bind (find (element_key_is (codes "stdin")) body) value_behind_pointer
      (find-Finishes (element_key_is (codes "stdin")) body) value_behind_pointer-Finishes

input_pid-Done :
    (n : ℕ) (alive : Bool) (printed : Option ℕ) (g : Gdb) (request : HttpRequest) (o : Option Bytes)
    → IsOrdered n g.service
    → Ends (Done n) (input_pid alive printed g request json_table o)
input_pid-Done n alive printed g request none i = (i, json_table-IsValid)
input_pid-Done n alive printed g request (some value) i =
    Ends-after (Done n) (body_text request.body) _ (body_text-Finishes request.body) (λ text.
      Ends-bind IsObject (Done n) (parse_json text) _
        (Ends-of_Ensures IsObject (parse_json text) (parse_json_total text))
        (λ body _. Ends-after (Done n) (stdin_of body) _ (stdin_of-Finishes body) (λ given.
          called_service n g (pass_input_to_child alive printed g.service (atoi value) given) _ i
            (call-Follows g.service (inputs alive printed (atoi value) given) (i.0) tt)
            (λ r v. (v, json_table-IsValid)))))
  where
    body_text-Finishes : (o : Option Bytes) → Finishes (body_text o)
    body_text-Finishes o = ground arith

pub input_callback-Done :
    (n : ℕ) (alive : Bool) (printed : Option ℕ) (g : Gdb) (request : HttpRequest)
    → IsOrdered n g.service
    → Ends (Done n) (input_callback alive printed g request)
unfolding input_callback find_header
input_callback-Done n alive printed g request i = rw json_headers_lem (
    Ends-after (Done n) (find (key_is (codes "Content-Type")) request.headers) _
      (find-Finishes (key_is (codes "Content-Type")) request.headers)
      (λ content_type.
        if_both (Ends (Done n)) (not (is_exactly_json content_type)) _ _ (i, json_table-IsValid)
          (Ends-after (Done n) (parameter_value request.query_parameters (codes "pid")) _
            (parameter_value-Finishes request.query_parameters (codes "pid"))
            (λ o. input_pid-Done n alive printed g request o i))))

on_output-Done :
    (n : ℕ) (g : Gdb) (pid : ℤ) (s : Service) (o : Output)
    → IsOrdered n s
    → Ends (Done n) (on_output g json_table pid (s, o))
on_output-Done n g pid s nothing i = rw (output_body_lem pid []) (i, json_table-IsValid)
on_output-Done n g pid s dead i = (i, json_table-IsValid)
on_output-Done n g pid s invalid i = (i, json_table-IsValid)
on_output-Done n g pid s (buffer b) i = rw (output_body_lem pid b) (i, json_table-IsValid)

program_pid-Done :
    (n : ℕ) (reading : Reading) (g : Gdb) (o : Option Bytes)
    → ((pidx : ℤ) → Fits (outputs pidx reading))
    → IsOrdered n g.service
    → Ends (Done n) (program_pid reading g json_table o)
program_pid-Done n reading g none fits i = (i, json_table-IsValid)
program_pid-Done n reading g (some value) fits i =
    called_service n g (get_output_from_child g.service (atoi value) reading) _ i
      (call-Follows g.service (outputs (atoi value) reading) (i.0) (fits (atoi value)))
      (λ r v. on_output-Done n g (atoi value) (r.0) (r.1) v)

pub program_callback-Done :
    (n : ℕ) (reading : Reading) (g : Gdb) (request : HttpRequest)
    → ((pidx : ℤ) → Fits (outputs pidx reading))
    → IsOrdered n g.service
    → Ends (Done n) (program_callback reading g request)
unfolding program_callback
program_callback-Done n reading g request fits i = rw json_headers_lem (
    Ends-after (Done n) (parameter_value request.query_parameters (codes "pid")) _
      (parameter_value-Finishes request.query_parameters (codes "pid"))
      (λ o. program_pid-Done n reading g o fits i))
