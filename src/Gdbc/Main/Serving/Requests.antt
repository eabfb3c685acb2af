-- ===== src/Gdbc/Main/Serving/Requests.antt =====
-- The server of `main` behind any texts that clients send to it.
use http_web_server_c.Runner.Handlers.Handled.{Gets, handle_http_request_total, Handled}
use http_web_server_c.Base.{
  ℕ, ◌≡◌, refl, ◌∙◌, true, false, Option, List, [], ◌∷◌, Outcome, ok, ◌>>=◌, Ends-bind, Ends,
}
use http_web_server_c.Runner.Dispatch.{handle_http_request}
use http_web_server_c.Runner.Startup.Serving.{flags}
use http_web_server_c.Runner.Buffers.{Buffer, Received}
use http_web_server_c.Gdbc.Main.Serving.Running.{handle_run_request-Done}
use http_web_server_c.Gdbc.Main.Routes.{route_table-IsValid, route_table}
use http_web_server_c.Gdbc.Main.Serving.{
  program_callback-Done, input_callback-Done, stop_callback-Done, IsOrdered, IsWorking, Done,
}
use http_web_server_c.CString.{codes, Bytes}
use http_web_server_c.Http.Response.{HttpResponse}
use http_web_server_c.Gdbc.Main.Stopping.{routes_of}
use http_web_server_c.Http.Request.{HttpRequest}
use http_web_server_c.Gdbc.Main.{
  Callback, System, call, stop, input, program, text_mode, interactive_mode, debugger,
}
use http_web_server_c.Gdbc.Run.{Gdb}
use http_web_server_c.Runner.Answers.{FileAnswer}
use http_web_server_c.Runner.Handlers.{Handlers, HasHeaders}

pub call-Done :
    (n : ℕ) (o : System) (c : Callback) (g : Gdb) (request : HttpRequest)
    → IsWorking o
    → IsOrdered n g.service
    → Ends (Done n) (call o c g request)
unfolding call
call-Done n o stop g request w i = stop_callback-Done n o.can_kill g request i
call-Done n o input g request w i = input_callback-Done n o.run.alive o.run.printed g request i
call-Done n o program g request w i = program_callback-Done n o.reading g request w.fits i
call-Done n o text_mode g request w i =
    handle_run_request-Done n o.run g request false w.child w.spawns i
call-Done n o interactive_mode g request w i =
    handle_run_request-Done n o.run g request false w.child w.spawns i
call-Done n o debugger g request w i =
    handle_run_request-Done n o.run g request true w.child w.spawns i

-- The callbacks as handlers, whose promise is a table of n slots in order.
abbrev pub gdb_handlers : ℕ → (o : System) → IsWorking o → Handlers Gdb Callback
gdb_handlers n o w = record {
  answer = routes_of o;
  Invariant = λ g. IsOrdered n g.service;
  keeps = λ c g request i.
      Ends-bind (Done n)
        (λ (t : Gdb × Option HttpResponse). IsOrdered n t.0.service × HasHeaders t.1)
        (call o c g request) _ (call-Done n o c g request w i) (λ t d. d);
}

-- Clients that come one after another, each with what it sends and what the operating system answers
-- meanwhile, and what is written to them.
abbrev pub serve :
    (Bytes → FileAnswer)
    → List Buffer × Gdb
    → List (System × Received)
    → Outcome ((List Buffer × Gdb) × List (Option Bytes))
serve files t [] = ok (t, [])
serve files t ((o, r) ∷ clients) =
    handle_http_request (routes_of o) files route_table (codes "ide") t r >>= λ x.
    serve files x.0 clients >>= λ u. ok (u.0, x.1 ∷ u.1)

abbrev pub AllWorking : List (System × Received) → Type 0
AllWorking [] = Unit
AllWorking ((o, r) ∷ clients) = IsWorking o × AllWorking clients

-- A response for each client that sent something.
abbrev pub Answer : List (System × Received) → List (Option Bytes) → Type 0
Answer [] [] = Unit
Answer [] (a ∷ answers) = ⊥
Answer (c ∷ clients) [] = ⊥
Answer ((o, r) ∷ clients) (a ∷ answers) = Gets r a × Answer clients answers

-- The same buffers are in use, the table of processes is in order, and the clients got their answers.
abbrev pub Served :
    ℕ → List Buffer → List (System × Received) → (List Buffer × Gdb) × List (Option Bytes) → Type 0
Served n buffers clients ((bs, g), answers) =
    (flags bs ≡ flags buffers) × (IsOrdered n g.service × Answer clients answers)

-- When pipes and forks succeed, streams open and no reading fills its buffer, then, from a table of n
-- slots in order, whatever comes from the clients one after another, requests or not: handling it
-- ends. If the server was not stopped and its behaviour was defined, the text of
-- a response was written to each client that sent something, and nothing to each one whose connection
-- failed or was closed; the read
-- buffers that are in use are those that were, and every process that is running has open streams
-- and file names that were not freed.
pub serve_total :
    (n : ℕ) (files : Bytes → FileAnswer) (buffers : List Buffer) (g : Gdb)
    (clients : List (System × Received))
    → AllWorking clients
    → IsOrdered n g.service
    → Ends (Served n buffers clients) (serve files (buffers, g) clients)
serve_total n files buffers g [] w i = (refl, (i, tt))
serve_total n files buffers g ((o, r) ∷ clients) (w, ws) i =
    Ends-bind
      (Handled (gdb_handlers n o w) files route_table (codes "ide") buffers g route_table-IsValid i
        r)
      (Served n buffers ((o, r) ∷ clients))
      (handle_http_request (routes_of o) files route_table (codes "ide") (buffers, g) r) _
      (handle_http_request_total (gdb_handlers n o w) files route_table (codes "ide") buffers g
        route_table-IsValid i r)
      (λ x v.
        Ends-bind (Served n (x.0.0) clients) (Served n buffers ((o, r) ∷ clients))
          (serve files (x.0) clients) _ (serve_total n files (x.0.0) (x.0.1) clients ws (v.1.0))
          (λ u y. (y.0 ∙ v.0, (y.1.0, (v.1.1, y.1.1)))))
