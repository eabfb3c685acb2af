-- ===== src/Gdbc/Execute.antt =====
-- `execute_program` and `handle_run_request` of gdbc/src/main.c. Their allocations find memory.
pub mod Runs
use http_web_server_c.Gdbc.Numbers.{pid_body}
use http_web_server_c.Gdbc.Run.{
  choose_compiler, response, value_behind_pointer, source_code_file, json_headers, RunHandlerConfig,
  Validation, Answers, Gdb, validate_run_request,
}
use http_web_server_c.Gdbc.Build.{build_and_run}
use http_web_server_c.Gdbc.Processes.{saved, removed, pass_input_to_child, log, Effect, Service}
use http_web_server_c.Http.Names.{http_ok, http_bad_request, http_internal_server_error}
use http_web_server_c.Gdbc.Arguments.{CompilerType}
use http_web_server_c.CString.{Bytes, codes}
use http_web_server_c.Http.Headers.{Header}
use http_web_server_c.Json.Insertion.{find_json_element}
use http_web_server_c.Table.{Table}
use http_web_server_c.Http.Request.{HttpRequest}
use http_web_server_c.Http.Response.{HttpResponse}
use http_web_server_c.Base.{
  ℕ, zero, suc, ◌+◌, ◌-◌, ◌*◌, ◌≤◌, ◌<◌, ◌≡◌, refl, sym, ap, ◌∙◌, ◌≢◌, ◌↔◌, ◌⊎◌, inl, inr, Bool,
  true, false, not, ◌&&◌, ◌||◌, Option, none, some, List, [], ◌∷◌, ◌++◌, append-nil, append_assoc,
  arith, ◌==◌, ltb, leb, if◌then◌else◌, Bool-cases, Option-cases, length, take, drop, length-append,
  drop-append, drop-append_add, take-append, Outcome, ok, fault, abort, timeout, ◌>>=◌, ℤ, pos,
  negsuc, get_elem?,
}

abbrev pub with_service : Service → Gdb → Gdb
with_service s g = record g { service = s }

-- The result of `pass_input_to_child` is asserted not to be -2.
abbrev pub asserted : Gdb → HttpResponse → Service × ℤ → Outcome (Gdb × HttpResponse)
asserted g r (s, negsuc (suc zero)) = abort
asserted g r (s, _) = ok (with_service s g, r)

abbrev pub pass_stdin :
    Answers → Gdb → RunHandlerConfig → ℤ → HttpResponse → Outcome (Gdb × HttpResponse)
pass_stdin a g c pidx r = do
  element ← find_json_element c.parsed_body (codes "stdin")
  input_data ← value_behind_pointer element
  passed ← pass_input_to_child a.alive a.printed g.service pidx input_data
  asserted g r passed

-- The tests of `result`.
abbrev pub on_result :
    Answers → RunHandlerConfig → Table Header → Gdb → Service × ℤ → Outcome (Gdb × HttpResponse)
on_result a c headers g (s, negsuc zero) = ok (
  with_service s g,
  response http_internal_server_error (codes "Failed to build and run program") headers,
)
on_result a c headers g (s, negsuc (suc zero)) =
    ok (with_service s g, response http_bad_request (codes "Invaild request") headers)
on_result a c headers g (s, pidx) =
    pass_stdin a (with_service s g) c pidx (response http_ok (pid_body pidx) headers)

-- From the choice of the compiler on, with the source file written.
abbrev pub compile :
    Answers
    → RunHandlerConfig
    → Bool
    → Table Header
    → Bytes
    → Gdb
    → Bytes ⊎ CompilerType
    → Outcome (Gdb × HttpResponse)
compile a c is_gdb headers file g (inl body) = ok (g, response http_bad_request body headers)
compile a c is_gdb headers file g (inr compiler_type) =
    build_and_run a.spawn g.service (record {
      path_to_source_code = file;
      compiler_type = compiler_type;
      compile_options = c.compile_options;
      command_line_args = c.command_line_args;
      is_gdb = is_gdb;
    })
    >>= on_result a c headers g

abbrev pub count_source : Gdb → Gdb
count_source g = record g { source_code_count = g.source_code_count + 1 }

abbrev pub log_effect : Effect → Gdb → Gdb
log_effect e g = with_service (log e g.service) g

-- From `fopen` on. A file that cannot be written is removed.
abbrev pub write_source :
    Answers → RunHandlerConfig → Bool → Table Header → Bytes → Gdb → Outcome (Gdb × HttpResponse)
write_source a c is_gdb headers file g =
    if not a.opened
    then ok
        (g, response http_internal_server_error (codes "Failed to create source code file") headers)
    else if not a.saved_source
    then ok (
      log_effect (removed file) g,
      response http_internal_server_error (codes "Failed to write source code to file") headers,
    )
    else compile a c is_gdb headers file (log_effect (saved file c.source_code) g)
        (choose_compiler c.language c.compiler_type)

unfoldable pub execute_program :
    Answers → Gdb → RunHandlerConfig → Bool → Outcome (Gdb × HttpResponse)
execute_program a g c is_gdb = do
  headers ← json_headers
  file ← source_code_file c.language g.source_code_count
  write_source a c is_gdb headers file (count_source g)

abbrev pub run_validated : Answers → Gdb → Bool → Validation → Outcome (Gdb × HttpResponse)
run_validated a g is_gdb (inl r) = ok (g, r)
run_validated a g is_gdb (inr c) = execute_program a g c is_gdb

unfoldable pub handle_run_request :
    Answers → Gdb → HttpRequest → Bool → Outcome (Gdb × HttpResponse)
unfolding validate_run_request execute_program
handle_run_request a g request is_gdb = validate_run_request request >>= run_validated a g is_gdb
