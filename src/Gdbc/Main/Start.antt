-- ===== src/Gdbc/Main/Start.antt =====
-- The whole of `main` of gdbc/src/main.c: its two directories, its routes and its server.
pub mod Opening
use http_web_server_c.CString.{codes, Bytes}
use http_web_server_c.Runner.Startup.{
  run_web_server, Server, SocketAnswers, Start, WebServer, serving, returned,
}
use http_web_server_c.Gdbc.Main.{Callback, main_routes}
use http_web_server_c.Http.Routes.{Route}
use http_web_server_c.Table.{Table}
use http_web_server_c.ThreadPool.Queue.{Heap}
use http_web_server_c.Base.{
  ℕ, zero, suc, ◌+◌, ◌-◌, ◌*◌, ◌≤◌, ◌<◌, ◌≡◌, refl, sym, ap, ◌∙◌, ◌≢◌, ◌↔◌, ◌⊎◌, inl, inr, Bool,
  true, false, not, ◌&&◌, ◌||◌, Option, none, some, List, [], ◌∷◌, ◌++◌, append-nil, append_assoc,
  arith, ◌==◌, ltb, leb, if◌then◌else◌, Bool-cases, Option-cases, length, take, drop, length-append,
  drop-append, drop-append_add, take-append, Outcome, ok, fault, abort, timeout, ◌>>=◌, ℤ, pos,
  negsuc, get_elem?,
}

-- What `stat` and `mkdir` answer for a directory: it is there, or it was made, or it cannot be made.
pub data Directory : Type 0 where
  present made refused : Directory

pub record Host : Type 0 where
  pub temp : Directory
  pub bins : Directory
  pub sockets : SocketAnswers

-- The exit status of `main`, or a server in its loop.
pub data Exit : Type 0 where
  exits : ℕ → Exit
  runs : Server (Table (Route Callback)) → Exit

abbrev pub app : Table (Route Callback) → WebServer (Table (Route Callback))
app routes = record {
  route_table = routes;
  port_num = 10010;
  backlog = 128;
  threadpool_size = 256;
  static_files_dir = codes "ide";
}

-- The result of `run_web_server` is dropped.
abbrev pub exit_of : Start (Table (Route Callback)) → Exit
exit_of (returned n fds) = exits 0
exit_of (serving s) = runs s

abbrev pub run_app : Heap → Bytes → Host → Outcome Exit
run_app h bytes host = do
  routes ← main_routes
  start ← run_web_server h bytes (app routes) host.sockets
  ok (exit_of start)

abbrev pub with_bins : Heap → Bytes → Host → Directory → Outcome Exit
with_bins h bytes host refused = ok (exits 1)
with_bins h bytes host _ = run_app h bytes host

abbrev pub with_temp : Heap → Bytes → Host → Directory → Outcome Exit
with_temp h bytes host refused = ok (exits 1)
with_temp h bytes host _ = with_bins h bytes host host.bins

-- The heap and the bytes are those that `malloc` gives.
unfoldable pub main : Heap → Bytes → Host → Outcome Exit
main h bytes host = with_temp h bytes host host.temp
