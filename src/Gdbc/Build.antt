-- ===== src/Gdbc/Build.antt =====
-- `build_and_run` of gdbc/src/service.c. Its allocations find memory.
pub mod Lifetime
pub mod Names
pub mod Follows
pub mod Calls
pub mod Failures
use http_web_server_c.Gdbc.Processes.{
  forked, freed, log, path, set_process, null, ProcessRunning, Service,
}
use http_web_server_c.Base.{
  negsuc, pos, ℤ, ℕ, ◌+◌, Bool, true, false, not, ◌&&◌, Option, none, some, List, [], ◌∷◌, ◌++◌,
  if◌then◌else◌, Outcome, ok, ◌>>=◌,
}
use http_web_server_c.Http.Response.{decimal}
use http_web_server_c.CString.{codes, shift, Bytes}
use http_web_server_c.Gdbc.Arguments.{CompilerType, cl_args, compile_args}

-- What the operating system answers to the two calls of `pipe` and to `fork` in the parent (`none` is
-- its -1), and whether the two ends that are left become streams: `fdopen` returns NULL also for a
-- descriptor that `set_FD_CLOEXEC` closed.
pub record Spawn : Type 0 where
  pub first_pipe : Bool
  pub second_pipe : Bool
  pub fork : Option ℕ
  pub to_opens : Bool
  pub from_opens : Bool

pub record Program : Type 0 where
  pub path_to_source_code : Bytes
  pub compiler_type : CompilerType
  pub compile_options : Option Bytes
  pub command_line_args : Option Bytes
  pub is_gdb : Bool

-- The first lines forget the files of slot 0, before a slot is chosen.
abbrev pub without_paths : ProcessRunning → ProcessRunning
without_paths p = record p { source_code_path = null; executable_file_path = null }

abbrev pub forget_first : List ProcessRunning → List ProcessRunning
forget_first [] = []
forget_first (p ∷ ps) = without_paths p ∷ ps

-- The first slot that is not running.
abbrev pub first_free : List ProcessRunning → Option ℕ
first_free [] = none
first_free (p ∷ ps) = if p.is_running then shift (first_free ps) else some 0

-- "bins/%d.out"
abbrev pub executable_filename : ℕ → Bytes
executable_filename n = codes "bins/" ++ (decimal n ++ codes ".out")

abbrev pub claimed : Bytes → Bytes → ProcessRunning
claimed source executable = record {
  pid = pos 0;
  to_child = false;
  from_child = false;
  source_code_path = path source;
  executable_file_path = path executable;
  is_running = true;
}

-- The end of `build_and_run_error` for a slot that was claimed; `is_running` stays set.
abbrev pub failed_at : ℕ → ProcessRunning → Service → Service × ℤ
failed_at i p s = (
  set_process i (record p { source_code_path = freed; executable_file_path = freed }) s,
  negsuc 0,
)

-- From the fork on.
abbrev pub forked_at :
    Spawn
    → ℕ
    → ProcessRunning
    → Service
    → Program
    → Bytes
    → List Bytes
    → Option ℕ
    → Outcome (Service × ℤ)
forked_at answers i p s a executable compiler none =
    ok (failed_at i (record p { pid = negsuc 0 }) s)
forked_at answers i p s a executable compiler (some child) =
    cl_args executable a.is_gdb a.command_line_args >>= λ arguments. ok (
      log (forked child compiler arguments) (
          set_process i
            (record p {
              pid = pos child;
              to_child = answers.to_opens;
              from_child = answers.from_opens;
            })
            s),
      pos i,
    )

-- The slot is claimed.
abbrev pub spawn_at : Spawn → Service → Program → ℕ → Outcome (Service × ℤ)
spawn_at answers s a i =
    let executable = executable_filename s.pcnt in
    let p = claimed a.path_to_source_code executable in
    let s' = set_process i p (record s { pcnt = s.pcnt + 1 }) in
    compile_args a.compiler_type a.path_to_source_code executable a.is_gdb a.compile_options
    >>= λ c.
        if not (answers.first_pipe && answers.second_pipe)
        then ok (failed_at i p s')
        else forked_at answers i p s' a executable c answers.fork

abbrev pub build_at : Spawn → Service → Program → Option ℕ → Outcome (Service × ℤ)
build_at answers s a none = ok (s, negsuc 0)
build_at answers s a (some i) = spawn_at answers s a i

unfoldable pub build_and_run : Spawn → Service → Program → Outcome (Service × ℤ)
unfolding compile_args cl_args
build_and_run answers s a =
    build_at answers (record s { processes = forget_first s.processes }) a
      (first_free (forget_first s.processes))
