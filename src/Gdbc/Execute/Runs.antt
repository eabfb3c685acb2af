-- ===== src/Gdbc/Execute/Runs.antt =====
-- A request of which every step succeeds.
use http_web_server_c.Gdbc.Build.Follows.{spawned}
use http_web_server_c.Base.{ℕ, ◌+◌, ◌≡◌, refl, inr, Bool, true, some, [], ◌∷◌, ◌++◌, ok, pos}
use http_web_server_c.Gdbc.Execute.{
  count_source, log_effect, with_service, on_result, execute_program, handle_run_request,
}
use http_web_server_c.Gdbc.Build.Lifetime.{
  build_and_run_lem, first_free_lem, program_arguments, compiler_arguments, process_of, built,
}
use http_web_server_c.Gdbc.Callbacks.Programs.{json_headers_lem, json_table}
use http_web_server_c.Gdbc.Processes.Slots.{get_elem?-put, check_pidx_running}
use http_web_server_c.Gdbc.Processes.{
  forked, saved, written, check_pidx, log, ProcessRunning, Service, pass_input_to_child,
}
use http_web_server_c.Gdbc.Build.{executable_filename, forget_first, first_free, Program}
use http_web_server_c.Gdbc.Numbers.{pid_body}
use http_web_server_c.Http.Names.{http_ok}
use http_web_server_c.Gdbc.Run.{
  response, choose_compiler, source_code_file, validate_run_request, RunHandlerConfig, Gdb, Answers,
}
use http_web_server_c.CString.{codes, Bytes}
use http_web_server_c.Json.Insertion.{find_json_element}
use http_web_server_c.Gdbc.Arguments.{CompilerType}
use http_web_server_c.Http.Request.{HttpRequest}
use http_web_server_c.Json.Element.{JsonElement}

-- The operating system answers every question with success.
abbrev pub all_answered : ℕ → ℕ → Answers
all_answered child printed = record {
  opened = true;
  saved_source = true;
  spawn = spawned child;
  alive = true;
  printed = some printed;
}

abbrev pub program_of : RunHandlerConfig → Bytes → CompilerType → Bool → Program
program_of c file compiler_type is_gdb = record {
  path_to_source_code = file;
  compiler_type = compiler_type;
  compile_options = c.compile_options;
  command_line_args = c.command_line_args;
  is_gdb = is_gdb;
}

-- The service behind the build, to whose child the text was written.
abbrev pub fed : Service → RunHandlerConfig → Bytes → Program → ℕ → ℕ → Bytes → Service
fed s c file a child i input =
    log (written (pos child) (input ++ 10 ∷ []))
      (built (log (saved file c.source_code) s) a child i)

on_result_lem :
    (c : RunHandlerConfig) (g : Gdb) (t : Service) (child printed i : ℕ) (p : ProcessRunning)
    → (x : JsonElement) → check_pidx t (pos i) ≡ some (i, p)
    → p.to_child ≡ true
    → p.pid ≡ pos child
    → find_json_element c.parsed_body (codes "stdin") ≡ ok (some x)
    → on_result (all_answered child printed) c json_table g (t, pos i)
      ≡ ok (
        with_service (log (written (pos child) (x.value ++ 10 ∷ [])) t) g,
        response http_ok (pid_body (pos i)) json_table,
      )
unfolding pass_input_to_child
on_result_lem c g t child printed i p x here streams number present =
    rw (present, here) (rw (streams, number) refl)

-- A validated request, for one of the two languages and one of the two compilers, with a "stdin" in its
-- body, a free slot in the table and an operating system that refuses nothing, is answered by 200 with
-- the number of the first free slot, in which the child then runs. What was asked of the operating
-- system meanwhile is, in this order: to write the source file, to run the compiler and the
-- program with their arguments, and to write the text of "stdin" and a line end to the child.
pub handle_run_request-build_and_run :
    (g : Gdb) (request : HttpRequest) (is_gdb : Bool) (c : RunHandlerConfig) (file : Bytes)
    → (k : CompilerType) (x : JsonElement) (child printed i : ℕ)
    → validate_run_request request ≡ ok (inr c)
    → source_code_file c.language g.source_code_count ≡ ok file
    → choose_compiler c.language c.compiler_type ≡ inr k
    → find_json_element c.parsed_body (codes "stdin") ≡ ok (some x)
    → first_free (forget_first g.service.processes) ≡ some i
    → (h : Gdb) × (handle_run_request (all_answered child printed) g request is_gdb
        ≡ ok (h, response http_ok (pid_body (pos i)) json_table))
      × (h.source_code_count ≡ g.source_code_count + 1)
      × (check_pidx h.service (pos i)
          ≡ some (
            i,
            process_of (program_of c file k is_gdb) (executable_filename g.service.pcnt) child,
          ))
      × (h.service.effects
          ≡ ((g.service.effects ++ saved file c.source_code ∷ [])
              ++ forked child
                  (compiler_arguments
                    (program_of c file k is_gdb)
                    (executable_filename g.service.pcnt))
                  (program_arguments
                    (program_of c file k is_gdb)
                    (executable_filename g.service.pcnt))
                ∷ [])
            ++ written (pos child) (x.value ++ 10 ∷ []) ∷ [])
unfolding handle_run_request execute_program
handle_run_request-build_and_run g request is_gdb c file k x child printed i e f compiler present
      free =
    let a = program_of c file k is_gdb in
    let s = log (saved file c.source_code) g.service in
    let p = process_of a (executable_filename g.service.pcnt) child in
    let (lt, found) = first_free_lem (forget_first g.service.processes) i free in
    let here : check_pidx (built s a child i) (pos i) ≡ some (i, p) =
      check_pidx_running (built s a child i) i p
        (get_elem?-put i p (forget_first g.service.processes) lt) refl in
    (
      record g {
        service = fed g.service c file a child i x.value;
        source_code_count = g.source_code_count + 1;
      },
      rw (e, json_headers_lem, f, compiler, build_and_run_lem s a child i free)
          (on_result_lem c (log_effect (saved file c.source_code) (count_source g))
            (built s a child i) child printed i p x here refl refl present),
      refl,
      check_pidx_running (fed g.service c file a child i x.value) i p
          (get_elem?-put i p (forget_first g.service.processes) lt) refl,
      refl,
    )
