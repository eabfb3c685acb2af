-- ===== src/Tests/Serving.antt =====
-- A server that gets a request to stop its process, and then a client that closes its connection.
use http_web_server_c.Base.{refl, inl, inr, List, [], ◌∷◌, ◌++◌, Ends}
use http_web_server_c.Runner.Startup.{fresh_buffers}
use http_web_server_c.Gdbc.Main.Serving.Requests.{Served, serve_total, serve}
use http_web_server_c.Runner.Buffers.{received, closed, Received}
use http_web_server_c.Gdbc.Main.Stopping.{stop_request}
use http_web_server_c.Gdbc.Main.Serving.{IsWorking}
use http_web_server_c.Http.Request.Written.{print_request}
use http_web_server_c.Gdbc.Main.{System}
use http_web_server_c.Tests.Stopping.{system, no_files, one_program}

abbrev two_clients : List (System × Received)
two_clients =
    (system, received (print_request (stop_request 0 [] []) ++ 0 ∷ [])) ∷ (system, closed) ∷ []

system-IsWorking : IsWorking system
system-IsWorking = record { child = 7; spawns = refl; fits = λ pidx. tt }

serve_total_example :
    Ends
      (Served 2 (fresh_buffers 3 []) two_clients)
      (serve no_files (fresh_buffers 3 [], one_program) two_clients)
serve_total_example =
    serve_total 2 no_files (fresh_buffers 3 []) one_program two_clients
      (system-IsWorking, (system-IsWorking, tt))
      (
        (
          inr (record { to_open = refl; from_open = refl; source_kept = tt; executable_kept = tt }),
          (inl refl, tt),
        ),
        refl,
      )
