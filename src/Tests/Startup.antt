-- ===== src/Tests/Startup.antt =====
-- Starts of the server, and the writing of a response.
use http_web_server_c.Base.{
  ℕ, ◌≡◌, refl, ◌⊎◌, true, false, ◌&&◌, none, List, [], ◌∷◌, ◌++◌, arith, if◌then◌else◌, length, ok,
  ℤ, pos,
}
use http_web_server_c.Runner.Startup.Serving.{run_web_server-serving, flags, server_of, all_open}
use http_web_server_c.Runner.Sharing.{all_outside, Shares}
use http_web_server_c.Gdbc.Main.Start.Opening.{main-gdb_server, gdb_server, all_there}
use http_web_server_c.Gdbc.Main.{all_routes}
use http_web_server_c.Gdbc.Main.Routes.{AllFound}
use http_web_server_c.Runner.Sending.Prefix.{write_all-prefix, fails}
use http_web_server_c.ThreadPool.Pool.{Reaches}
use http_web_server_c.CString.{Bytes, codes}
use http_web_server_c.ThreadPool.Queue.{Heap}
use http_web_server_c.Runner.Startup.{WebServer, SocketAnswers, run_web_server, serving, returned}
use http_web_server_c.Gdbc.Main.Start.{main, Host, present, made, runs, exits}
use http_web_server_c.Runner.Sending.{Write, wrote, interrupted, failed, write_all}

abbrev interrupted_writes : List Write
interrupted_writes = wrote 1 ∷ interrupted ∷ wrote 9 ∷ wrote 1 ∷ []

write_all-prefix_example :
    (sent rest : Bytes) × (write_all interrupted_writes (codes "HTT") ≡ ok sent)
    × (codes "HTT" ≡ sent ++ rest)
    × ((rest ≡ []) ⊎ (fails interrupted_writes ≡ true))
write_all-prefix_example = write_all-prefix interrupted_writes (codes "HTT") (omega arith)

cut_off : write_all (wrote 1 ∷ interrupted ∷ failed ∷ []) (codes "HTTP") ≡ ok (codes "HT")
unfolding write_all
cut_off = refl

abbrev no_jobs : Heap
no_jobs a = none

abbrev no_routes : WebServer Unit
no_routes = record {
  route_table = tt;
  port_num = 80;
  backlog = 16;
  threadpool_size = 2;
  static_files_dir = codes "www";
}

abbrev sockets : SocketAnswers
sockets = record { server_fd = pos 3; reusable = true; bound = true; listening = true; errno = 0 }

run_web_server-serving_example :
    ((all_open sockets ≡ true)
      × (run_web_server no_jobs [] no_routes sockets
          ≡ ok (serving (server_of no_jobs [] no_routes sockets)))
      × Reaches no_jobs 2 (server_of no_jobs [] no_routes sockets).pool
      × Shares 2 (record {
        buffer_used = flags (server_of no_jobs [] no_routes sockets).buffers;
        places = all_outside 2;
      }))
    ⊎ ((all_open sockets ≡ false)
        × ((fds : List ℤ) × (run_web_server no_jobs [] no_routes sockets ≡ ok (returned 0 fds))))
run_web_server-serving_example = run_web_server-serving no_jobs [] no_routes sockets

abbrev host : Host
host = record { temp = present; bins = made; sockets = sockets }

main-gdb_server_example :
    ((all_there host && all_open sockets ≡ true)
      × (main no_jobs [] host ≡ ok (runs (gdb_server no_jobs [] sockets)))
      × AllFound (gdb_server no_jobs [] sockets).routes all_routes
      × Reaches no_jobs 256 (gdb_server no_jobs [] sockets).pool
      × (length (gdb_server no_jobs [] sockets).buffers ≡ 256))
    ⊎ ((all_there host && all_open sockets ≡ false)
        × ((n : ℕ) × (main no_jobs [] host ≡ ok (exits n))
            × (n ≡ (if all_there host then 0 else 1))))
main-gdb_server_example = main-gdb_server no_jobs [] host
