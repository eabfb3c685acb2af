-- ===== src/Gdbc/Main.antt =====
-- `main` of gdbc/src/main.c: its route table, and the callbacks behind it.
pub mod Routes
pub mod Stopping
pub mod Serving
pub mod Start
use http_web_server_c.Base.{
  ℕ, zero, suc, ◌+◌, ◌-◌, ◌*◌, ◌≤◌, ◌<◌, ◌≡◌, refl, sym, ap, ◌∙◌, ◌≢◌, ◌↔◌, ◌⊎◌, inl, inr, Bool,
  true, false, not, ◌&&◌, ◌||◌, Option, none, some, List, [], ◌∷◌, ◌++◌, append-nil, append_assoc,
  arith, ◌==◌, ltb, leb, if◌then◌else◌, Bool-cases, Option-cases, length, take, drop, length-append,
  drop-append, drop-append_add, take-append, Outcome, ok, fault, abort, timeout, ◌>>=◌, ℤ, pos,
  negsuc, get_elem?,
}
use http_web_server_c.Gdbc.Execute.{handle_run_request}
use http_web_server_c.Gdbc.Callbacks.{program_callback, input_callback, stop_callback}
use http_web_server_c.Http.Names.{http_get, http_post, Method}
use http_web_server_c.Http.Response.{HttpResponse}
use http_web_server_c.Table.{plenty, Table}
use http_web_server_c.CString.{codes, Bytes}
use http_web_server_c.Gdbc.Processes.{Reading}
use http_web_server_c.Http.Request.{HttpRequest}
use http_web_server_c.Http.Routes.{init_routes, insert_route, Route}
use http_web_server_c.Gdbc.Run.{Answers, Gdb}

pub data Callback : Type 0 where
  stop input program text_mode interactive_mode debugger : Callback

-- What the operating system answers while a callback runs.
pub record System : Type 0 where
  pub run : Answers
  pub can_kill : Bool
  pub reading : Reading

-- `handle_text_mode`, `handle_interactive_mode` and `handle_debugger` are the last three.
unfoldable pub call : System → Callback → Gdb → HttpRequest → Outcome (Gdb × HttpResponse)
call o stop g request = stop_callback o.can_kill g request
call o input g request = input_callback o.run.alive o.run.printed g request
call o program g request = program_callback o.reading g request
call o text_mode g request = handle_run_request o.run g request false
call o interactive_mode g request = handle_run_request o.run g request false
call o debugger g request = handle_run_request o.run g request true

-- Insertions one after another; their results are not tested.
abbrev pub insert_routes :
    List (Route Callback) → Table (Route Callback) → Outcome (Table (Route Callback))
insert_routes [] t = ok t
insert_routes (r ∷ rs) t =
    insert_route plenty t r.path r.method r.callback >>= λ a. insert_routes rs a.0

abbrev pub listed : Bytes → Method → Callback → Route Callback
listed path method callback = record { path = path; method = method; callback = callback }

abbrev pub all_routes : List (Route Callback)
all_routes =
    listed (codes "/stop") http_post stop
    ∷ listed (codes "/input") http_post input
    ∷ listed (codes "/program") http_get program
    ∷ listed (codes "/run/text-mode") http_post text_mode
    ∷ listed (codes "/run/interactive-mode") http_post interactive_mode
    ∷ listed (codes "/run/debugger") http_post debugger
    ∷ []

unfoldable pub main_routes : Outcome (Table (Route Callback))
main_routes = insert_routes all_routes (init_routes true).0
