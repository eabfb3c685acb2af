-- ===== src/Runner/Startup.antt =====
-- `run_web_server` and `cleanup` of src/runner.c. Its allocations find memory.
pub mod Serving
use http_web_server_c.Base.{
  ℕ, zero, suc, ◌+◌, ◌-◌, ◌*◌, ◌≤◌, ◌<◌, ◌≡◌, refl, sym, ap, ◌∙◌, ◌≢◌, ◌↔◌, ◌⊎◌, inl, inr, Bool,
  true, false, not, ◌&&◌, ◌||◌, Option, none, some, List, [], ◌∷◌, ◌++◌, append-nil, append_assoc,
  arith, ◌==◌, ltb, leb, if◌then◌else◌, Bool-cases, Option-cases, length, take, drop, length-append,
  drop-append, drop-append_add, take-append, Outcome, ok, fault, abort, timeout, ◌>>=◌, ℤ, pos,
  negsuc, get_elem?,
}
use http_web_server_c.Http.Names.{http_no_content, http_not_found, http_internal_server_error}
use http_web_server_c.Http.Response.{HttpResponse}
use http_web_server_c.Runner.Answers.{prepared}
use http_web_server_c.Runner.Buffers.{Buffer}
use http_web_server_c.ThreadPool.Pool.{Pool, threadpool_create}
use http_web_server_c.CString.{Bytes}
use http_web_server_c.ThreadPool.Queue.{Heap}

-- struct web_server of src/runner.h; the routes are passed on as they are.
pub record WebServer (Routes : Type 0) : Type 0 where
  pub route_table : Routes
  pub port_num : ℕ
  pub backlog : ℕ
  pub threadpool_size : ℕ
  pub static_files_dir : Bytes

-- What the operating system answers: the number that `socket` returns, which of the next three calls
-- succeed, and `errno` behind a failure.
pub record SocketAnswers : Type 0 where
  pub server_fd : ℤ
  pub reusable : Bool
  pub bound : Bool
  pub listening : Bool
  pub errno : ℕ

-- The static variables of the file, once the server listens.
pub record Server (Routes : Type 0) : Type 0 where
  pub fd : ℤ
  pub port : ℕ
  pub routes : Routes
  pub files_dir : Bytes
  pub pool : Pool
  pub buffers : List Buffer
  pub response_500 : HttpResponse
  pub response_404 : HttpResponse
  pub response_204 : HttpResponse

-- The return value of `run_web_server` and the descriptors that it closed, or a server in its loop.
pub data Start (Routes : Type 0) : Type 0 where
  returned : ℕ → List ℤ → Start Routes
  serving : Server Routes → Start Routes

-- `buffer_list` and `buffer_used`; the bytes of `malloc` are given.
abbrev pub fresh_buffers : ℕ → Bytes → List Buffer
fresh_buffers zero bytes = []
fresh_buffers (suc n) bytes = record { used = false; bytes = some bytes } ∷ fresh_buffers n bytes

abbrev pub is_zero : ℤ → Bool
is_zero (pos zero) = true
is_zero _ = false

module _ {Routes : Type 0} where
  -- Behind `listen`.
  abbrev pub begin :
      Heap
      → Bytes
      → WebServer Routes
      → SocketAnswers
      → HttpResponse
      → HttpResponse
      → HttpResponse
      → Start Routes
  begin h bytes server a r500 r404 r204 = serving (record {
    fd = a.server_fd;
    port = server.port_num;
    routes = server.route_table;
    files_dir = server.static_files_dir;
    pool = threadpool_create h server.threadpool_size;
    buffers = fresh_buffers server.threadpool_size bytes;
    response_500 = r500;
    response_404 = r404;
    response_204 = r204;
  })

  -- From `socket` on; only a descriptor 0 is taken for a failure.
  abbrev pub open_socket : SocketAnswers → Start Routes → Start Routes
  open_socket a rest =
      if is_zero a.server_fd
      then returned a.errno []
      else if not a.reusable
      then returned a.errno (a.server_fd ∷ [])
      else if not a.bound
      then returned a.errno (a.server_fd ∷ [])
      else if not a.listening
      then returned a.errno (a.server_fd ∷ [])
      else rest

  unfoldable pub run_web_server :
      Heap → Bytes → WebServer Routes → SocketAnswers → Outcome (Start Routes)
  unfolding threadpool_create
  run_web_server h bytes server a = do
    r500 ← prepared http_internal_server_error
    r404 ← prepared http_not_found
    r204 ← prepared http_no_content
    ok (open_socket a (begin h bytes server a r500 r404 r204))

-- The loop: the jobs that it adds, in order; an `accept` that fails is passed over.
unfoldable pub accept_loop : List (Option ℕ) → List ℕ
accept_loop [] = []
accept_loop (none ∷ answers) = accept_loop answers
accept_loop (some client_socket ∷ answers) = client_socket ∷ accept_loop answers
