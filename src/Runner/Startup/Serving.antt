-- ===== src/Runner/Startup/Serving.antt =====
-- When the server of `run_web_server` serves, and with what.
use http_web_server_c.Base.{
  ℕ, zero, suc, ◌≡◌, refl, ap, ◌⊎◌, inl, inr, Bool, true, false, not, ◌&&◌, List, [], ◌∷◌,
  Bool-cases, ok, ◌>>=◌, ℤ,
}
use http_web_server_c.Runner.Dispatch.Answered.{prepared_lem, prepared_response}
use http_web_server_c.Runner.Startup.{
  begin, open_socket, Server, Start, run_web_server, WebServer, fresh_buffers, is_zero,
  SocketAnswers, serving, returned,
}
use http_web_server_c.Http.Names.{http_no_content, http_not_found, http_internal_server_error}
use http_web_server_c.Runner.Answers.{prepared}
use http_web_server_c.Runner.Sharing.{all_outside, Shares, unused, fresh_start}
use http_web_server_c.ThreadPool.Pool.{Reaches, threadpool_create, created}
use http_web_server_c.CString.{Bytes}
use http_web_server_c.Runner.Buffers.{Buffer}
use http_web_server_c.ThreadPool.Queue.{Heap}

-- No call for the socket is taken to have failed: `socket` does not return 0, and the others succeed.
abbrev pub all_open : SocketAnswers → Bool
all_open a = not (is_zero a.server_fd) && (a.reusable && (a.bound && a.listening))

abbrev pub flags : List Buffer → List Bool
flags [] = []
flags (b ∷ bs) = b.used ∷ flags bs

flags-fresh_buffers : (n : ℕ) (bytes : Bytes) → flags (fresh_buffers n bytes) ≡ unused n
flags-fresh_buffers zero bytes = refl
flags-fresh_buffers (suc n) bytes = ap (◌∷◌ false) (flags-fresh_buffers n bytes)

module _ {Routes : Type 0} (h : Heap) (bytes : Bytes) (w : WebServer Routes)
    (a : SocketAnswers) where
  abbrev pub server_of : Server Routes
  server_of = record {
    fd = a.server_fd;
    port = w.port_num;
    routes = w.route_table;
    files_dir = w.static_files_dir;
    pool = threadpool_create h w.threadpool_size;
    buffers = fresh_buffers w.threadpool_size bytes;
    response_500 = prepared_response http_internal_server_error;
    response_404 = prepared_response http_not_found;
    response_204 = prepared_response http_no_content;
  }

  open_cases :
      (s : Start Routes)
      → ((all_open a ≡ true) × (open_socket a s ≡ s))
        ⊎ ((all_open a ≡ false) × ((fds : List ℤ) × (open_socket a s ≡ returned a.errno fds)))
  open_cases s = elim (Bool-cases (is_zero a.server_fd)) [
    | inl z ↦ inr (rw z refl, ([], rw z refl))
    | inr z ↦ elim (Bool-cases a.reusable) [
      | inr r ↦ inr (rw (z, r) refl, (a.server_fd ∷ [], rw (z, r) refl))
      | inl r ↦ elim (Bool-cases a.bound) [
        | inr b ↦ inr (rw (z, r, b) refl, (a.server_fd ∷ [], rw (z, r, b) refl))
        | inl b ↦ elim (Bool-cases a.listening) [
          | inr l ↦ inr (rw (z, r, b, l) refl, (a.server_fd ∷ [], rw (z, r, b, l) refl))
          | inl l ↦ inl (rw (z, r, b, l) refl, rw (z, r, b, l) refl)
        ]
      ]
    ]
  ]

  -- `run_web_server` returns `errno` exactly where one of its calls for the socket is taken to have
  -- failed. Else it serves, on the socket and the port, with the routes and the directory of its argument,
  -- the three prepared responses, a pool that is in its first state, and as many read buffers as the
  -- pool has threads, none of which is in use: the first state of the threads' claims.
  pub run_web_server-serving :
      ((all_open a ≡ true)
        × (run_web_server h bytes w a ≡ ok (serving server_of))
        × Reaches h w.threadpool_size server_of.pool
        × Shares w.threadpool_size (record {
          buffer_used = flags server_of.buffers;
          places = all_outside w.threadpool_size;
        }))
      ⊎ ((all_open a ≡ false)
          × ((fds : List ℤ) × (run_web_server h bytes w a ≡ ok (returned a.errno fds))))
  unfolding run_web_server
  run_web_server-serving = elim (open_cases (serving server_of)) [
    | inl (e, run) ↦ inl (e, prepared_all run, created, fresh)
    | inr (e, (fds, run)) ↦ inr (e, (fds, prepared_all run))
  ]
    where
      prepared_all :
          {s : Start Routes}
          → open_socket a (serving server_of) ≡ s
          → (prepared http_internal_server_error >>= λ r500. prepared http_not_found >>= λ r404.
              prepared http_no_content >>= λ r204.
              ok (open_socket a (begin h bytes w a r500 r404 r204)))
            ≡ ok s
      prepared_all run =
          rw
            (
              prepared_lem http_internal_server_error,
              prepared_lem http_not_found,
              prepared_lem http_no_content,
            )
            (ap ok run)

      fresh :
          Shares w.threadpool_size (record {
            buffer_used = flags server_of.buffers;
            places = all_outside w.threadpool_size;
          })
      fresh = rw (flags-fresh_buffers w.threadpool_size bytes) fresh_start
