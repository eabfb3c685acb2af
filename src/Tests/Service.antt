-- ===== src/Tests/Service.antt =====
-- The service of gdbc on concrete inputs.
use http_web_server_c.Gdbc.Child.{ChildAnswers, exited}
use http_web_server_c.Base.{
  ◌≡◌, refl, inl, inr, true, none, some, List, [], ◌∷◌, ◌++◌, arith, length, ok, pos,
}
use http_web_server_c.Http.Response.{decimal}
use http_web_server_c.CString.{Bytes, codes}
use http_web_server_c.Gdbc.Build.Calls.{
  run_calls-AllOwn, run_calls-AllProper, Call, run_calls, builds, stops, inputs, outputs,
}
use http_web_server_c.Gdbc.Build.Names.{AllOwn}
use http_web_server_c.Gdbc.Build.Follows.{spawned}
use http_web_server_c.Gdbc.Build.Lifetime.{
  stop_process-build_and_run, program_arguments, compiler_arguments, process_of,
}
use http_web_server_c.Gdbc.Build.{forget_first, executable_filename, build_and_run, Program}
use http_web_server_c.Gdbc.Processes.Cleanup.{ended}
use http_web_server_c.Gdbc.Processes.{
  put, removed, forked, reaped, killed, stop_process, check_pidx, repeated, Service, ProcessRunning,
  path, some_bytes,
}
use http_web_server_c.Gdbc.Arguments.Laws.{compile_args-pieces, AllLack, options, joined}
use http_web_server_c.Gdbc.Arguments.{cl_args, get_compiler_path, compile_args, gcc_c}
use http_web_server_c.Gdbc.Processes.Slots.{AllProper}
use http_web_server_c.Gdbc.Trim.{trim_string}

abbrev pub spare : Service
spare = record { processes = repeated 2; pcnt = 3; effects = [] }

abbrev pub hello : Program
hello = record {
  path_to_source_code = codes "./temp/0.c";
  compiler_type = gcc_c;
  compile_options = some (codes "-Wall -O2");
  command_line_args = none;
  is_gdb = true;
}

compile_args-pieces_example :
    (compile_args gcc_c (codes "a.c") (codes "a.out") true (some (codes "-Wall -O2"))
      ≡ ok (
          get_compiler_path gcc_c
          ∷ codes "a.c"
          ∷ codes "-o"
          ∷ codes "a.out"
          ∷ codes "-g"
          ∷ codes "-Wall"
          ∷ codes "-O2"
          ∷ []))
    × (cl_args (codes "a.out") true (some (codes "x  y"))
        ≡ ok (codes "/usr/bin/gdb" ∷ codes "a.out" ∷ codes "x" ∷ [] ∷ codes "y" ∷ []))
    × (joined (options (some (codes "-Wall -O2"))) ≡ codes "-Wall -O2")
    × AllLack b' ' (options (some (codes "-Wall -O2")))
compile_args-pieces_example =
    compile_args-pieces gcc_c (codes "a.c") (codes "a.out") true (some (codes "-Wall -O2"))
      (some (codes "x  y"))

stop_process-build_and_run_example :
    (t u : Service) × (build_and_run (spawned 7) spare hello ≡ ok (t, pos 0))
    × (check_pidx t (pos 0) ≡ some (0, process_of hello (executable_filename 3) 7))
    × (stop_process true t (pos 0) ≡ ok (u, true))
    × (check_pidx u (pos 0) ≡ none)
    × (u.effects
        ≡ []
          ++ forked 7
              (compiler_arguments hello (executable_filename 3))
              (program_arguments hello (executable_filename 3))
            ∷ killed (pos 7)
            ∷ reaped (pos 7)
            ∷ removed (executable_filename 3)
            ∷ removed (codes "./temp/0.c")
            ∷ [])
    × (u.processes
        ≡ put 0 (ended (process_of hello (executable_filename 3) 7)) (forget_first (repeated 2)))
stop_process-build_and_run_example = stop_process-build_and_run spare hello 7 0 refl

abbrev some_calls : List Call
some_calls =
    builds 7 hello
    ∷ inputs true (some 4) (pos 0) (codes "run")
    ∷ outputs (pos 0) (some_bytes (codes "hi"))
    ∷ stops true (pos 0)
    ∷ stops true (pos 1)
    ∷ []

run_calls-AllProper_example :
    (t : Service) × (run_calls spare some_calls ≡ ok t)
    × AllProper t.processes
    × (length t.processes ≡ 2)
run_calls-AllProper_example =
    run_calls-AllProper spare some_calls (inl refl, (inl refl, tt))
      (tt, (tt, (omega arith, (tt, (tt, tt)))))

-- A process in slot 0, and one free slot.
abbrev pub started_process : ProcessRunning
started_process = record {
  pid = pos 9;
  to_child = true;
  from_child = true;
  source_code_path = path (codes "./temp/1.c");
  executable_file_path = path (codes "bins/2.out");
  is_running = true;
}

abbrev pub half_full : Service
half_full = record { processes = started_process ∷ repeated 1; pcnt = 3; effects = [] }

trimmed : trim_string (some (codes "  -O2 -g ")) ≡ some (codes "-O2 -g")
unfolding trim_string
trimmed = refl

abbrev three_calls : List Call
three_calls = builds 7 hello ∷ stops true (pos 0) ∷ builds 8 hello ∷ []

half_full-AllOwn : AllOwn 3 half_full.processes
unfolding decimal
half_full-AllOwn = (((2, omega arith, refl), ((λ e. cc), tt)), (tt, tt))

run_calls-AllOwn_example :
    (t : Service) × (run_calls half_full three_calls ≡ ok t)
    × AllProper t.processes
    × AllOwn t.pcnt t.processes
run_calls-AllOwn_example =
    run_calls-AllOwn half_full three_calls
      (
        inr (record { to_open = refl; from_open = refl; source_kept = tt; executable_kept = tt }),
        (inl refl, tt),
      )
      (tt, (tt, (tt, tt))) half_full-AllOwn

abbrev compiles : ChildAnswers
compiles = record {
  spawns = true;
  status = exited 0;
  executes = true;
  error_text = codes "No such file or directory";
}

abbrev hello_file : Bytes
hello_file = codes "bins/3.out"
