-- ===== src/Gdbc/Main/Start/Opening.antt =====
-- When `main` comes to serve, and with what.
use http_web_server_c.Gdbc.Main.Routes.{main_routes_lem, every_route, route_table, AllFound}
use http_web_server_c.Base.{
  ℕ, zero, suc, ◌≡◌, refl, ap, ◌∙◌, ◌⊎◌, inl, inr, Bool, true, false, ◌&&◌, if◌then◌else◌, length,
  ok,
}
use http_web_server_c.Runner.Startup.Serving.{server_of, run_web_server-serving, all_open}
use http_web_server_c.ThreadPool.Pool.{created, Reaches}
use http_web_server_c.Gdbc.Main.{Callback, all_routes}
use http_web_server_c.Http.Routes.{Route}
use http_web_server_c.Gdbc.Main.Start.{
  app, with_bins, with_temp, run_app, Directory, Host, main, present, made, refused, exits, runs,
}
use http_web_server_c.Table.{Table}
use http_web_server_c.Runner.Startup.{Server, SocketAnswers, fresh_buffers}
use http_web_server_c.CString.{Bytes}
use http_web_server_c.ThreadPool.Queue.{Heap}

abbrev pub is_there : Directory → Bool
is_there refused = false
is_there _ = true

abbrev pub all_there : Host → Bool
all_there host = is_there host.temp && is_there host.bins

-- The server that `main` starts.
abbrev pub gdb_server : Heap → Bytes → SocketAnswers → Server (Table (Route Callback))
gdb_server h bytes a = server_of h bytes (app route_table) a

run_app_lem :
    (h : Heap) (bytes : Bytes) (host : Host)
    → ((all_open host.sockets ≡ true)
        × (run_app h bytes host ≡ ok (runs (gdb_server h bytes host.sockets))))
      ⊎ ((all_open host.sockets ≡ false) × (run_app h bytes host ≡ ok (exits 0)))
run_app_lem h bytes host = elim (run_web_server-serving h bytes (app route_table) host.sockets) [
  | inl (e, run, reached, shares) ↦ inl (e, rw (main_routes_lem, run) refl)
  | inr (e, (fds, run)) ↦ inr (e, rw (main_routes_lem, run) refl)
]

length-fresh_buffers : (n : ℕ) (bytes : Bytes) → length (fresh_buffers n bytes) ≡ n
length-fresh_buffers zero bytes = refl
length-fresh_buffers (suc n) bytes = ap suc (length-fresh_buffers n bytes)

directory_cases : (d : Directory) → ((d ≡ present) ⊎ (d ≡ made)) ⊎ (d ≡ refused)
directory_cases present = inl (inl refl)
directory_cases made = inl (inr refl)
directory_cases refused = inr refl

there :
    (h : Heap) (bytes : Bytes) (host : Host)
    → ((all_there host ≡ true) × (main h bytes host ≡ run_app h bytes host))
      ⊎ ((all_there host ≡ false) × (main h bytes host ≡ ok (exits 1)))
unfolding main
there h bytes host = elim (directory_cases host.temp) [
  | inr t ↦ inr (rw t refl, rw t refl)
  | inl (inl t) ↦ by_bins (rw t refl) (rw t refl)
  | inl (inr t) ↦ by_bins (rw t refl) (rw t refl)
]
  where
    by_bins :
        is_there host.temp ≡ true
        → with_temp h bytes host host.temp ≡ with_bins h bytes host host.bins
        → ((all_there host ≡ true) × (with_temp h bytes host host.temp ≡ run_app h bytes host))
          ⊎ ((all_there host ≡ false) × (with_temp h bytes host host.temp ≡ ok (exits 1)))
    by_bins t run = elim (directory_cases host.bins) [
      | inr b ↦ inr (rw (t, b) refl, run ∙ rw b refl)
      | inl (inl b) ↦ inl (rw (t, b) refl, run ∙ rw b refl)
      | inl (inr b) ↦ inl (rw (t, b) refl, run ∙ rw b refl)
    ]

-- `main` serves exactly when both directories are there or can be made, `socket` does not return 0, and
-- the other three calls for the socket succeed; so a descriptor 0 counts as a failure, and the -1 of
-- a `socket` that failed does not. It serves on port 10010, with the table of the six routes, files from
-- "ide", a pool of 256 threads and 256 read buffers. A directory that cannot be made ends it with the
-- status 1, and what counts as a failure with the socket with the status 0.
pub main-gdb_server :
    (h : Heap) (bytes : Bytes) (host : Host)
    → ((all_there host && all_open host.sockets ≡ true)
        × (main h bytes host ≡ ok (runs (gdb_server h bytes host.sockets)))
        × AllFound (gdb_server h bytes host.sockets).routes all_routes
        × Reaches h 256 (gdb_server h bytes host.sockets).pool
        × (length (gdb_server h bytes host.sockets).buffers ≡ 256))
      ⊎ ((all_there host && all_open host.sockets ≡ false)
          × ((n : ℕ) × (main h bytes host ≡ ok (exits n))
              × (n ≡ (if all_there host then 0 else 1))))
main-gdb_server h bytes host = elim (there h bytes host) [
  | inr (e, run) ↦ inr (rw e refl, (1, run, rw e refl))
  | inl (e, run) ↦ elim (run_app_lem h bytes host) [
    | inl (o, run') ↦
        inl (rw (e, o) refl, run ∙ run', every_route, created, length-fresh_buffers 256 bytes)
    | inr (o, run') ↦ inr (rw (e, o) refl, (0, run ∙ run', rw e refl))
  ]
]
