-- ===== src/Gdbc/Build/Lifetime.antt =====
-- A process from `build_and_run` to `stop_process`.
use http_web_server_c.Gdbc.Build.Follows.{spawned}
use http_web_server_c.Base.{
  ℕ, suc, ◌+◌, ◌<◌, ◌≡◌, refl, sym, ◌∙◌, inl, inr, true, false, Option, none, some, List, [], ◌∷◌,
  ◌++◌, append_assoc, arith, Bool-cases, length, ok, pos, get_elem?,
}
use http_web_server_c.Gdbc.Processes.Cleanup.{stop_process_lem, end_effects, ended, after_end}
use http_web_server_c.Gdbc.Processes.Slots.{
  length-put, check_pidx_stopped, IsOpen, get_elem?-put, check_pidx_running, put-put,
}
use http_web_server_c.Gdbc.Processes.{
  log, removed, reaped, killed, check_pidx, stop_process, forked, put, ProcessRunning, Service,
}
use http_web_server_c.Gdbc.Arguments.Laws.{options, if_debugged, compile_args-pieces}
use http_web_server_c.CString.{codes, shift, Bytes}
use http_web_server_c.Gdbc.Arguments.{get_compiler_path}
use http_web_server_c.Gdbc.Build.{
  claimed, forget_first, executable_filename, first_free, Program, build_and_run,
}

-- The arguments of the compiler and of the program, by their pieces.
abbrev pub compiler_arguments : Program → Bytes → List Bytes
compiler_arguments a executable =
    get_compiler_path a.compiler_type
    ∷ a.path_to_source_code
    ∷ codes "-o"
    ∷ executable
    ∷ (if_debugged a.is_gdb (codes "-g") ++ options a.compile_options)

abbrev pub program_arguments : Program → Bytes → List Bytes
program_arguments a executable =
    if_debugged a.is_gdb (codes "/usr/bin/gdb") ++ executable ∷ options a.command_line_args

abbrev pub process_of : Program → Bytes → ℕ → ProcessRunning
process_of a executable child = record (claimed a.path_to_source_code executable) {
  pid = pos child;
  to_child = true;
  from_child = true;
}

unshift : (o : Option ℕ) (i : ℕ) → shift o ≡ some i → (j : ℕ) × (o ≡ some j) × (i ≡ suc j)
unshift none i e = cc
unshift (some j) i e = (j, refl, ground (arith, e))

-- The slot that is chosen is there, and it is not running.
pub first_free_lem :
    (ps : List ProcessRunning) (i : ℕ)
    → first_free ps ≡ some i
    → (i < length ps) × ((p : ProcessRunning) × (get_elem? ps i ≡ some p) × (p.is_running ≡ false))
first_free_lem [] i e = cc
first_free_lem (p ∷ ps) i e = elim (Bool-cases p.is_running) [
  | inl r ↦
      let (j, f, g) = unshift (first_free ps) i (sym (rw r refl) ∙ e) in
      let (lt, found) = first_free_lem ps j f in rw g (omega (arith, lt), found)
  | inr r ↦ let z : 0 ≡ i = ground (arith, r, e) in rw (← z) (omega arith, (p, refl, r))
]

-- The service behind a build into the slot `i`.
abbrev pub built : Service → Program → ℕ → ℕ → Service
built s a child i =
    let executable = executable_filename s.pcnt in
    record {
      processes = put i (process_of a executable child) (forget_first s.processes);
      pcnt = s.pcnt + 1;
      effects =
          s.effects
          ++ (forked child (compiler_arguments a executable) (program_arguments a executable) ∷ []);
    }

pub build_and_run_lem :
    (s : Service) (a : Program) (child i : ℕ)
    → first_free (forget_first s.processes) ≡ some i
    → build_and_run (spawned child) s a ≡ ok (built s a child i, pos i)
unfolding build_and_run
build_and_run_lem s a child i e =
    let executable = executable_filename s.pcnt in
    let (c, r, whole, apart) =
      compile_args-pieces a.compiler_type a.path_to_source_code executable a.is_gdb
        a.compile_options a.command_line_args in
    rw
      (
        e,
        c,
        r,
        put-put i (claimed a.path_to_source_code executable) (process_of a executable child)
            (forget_first s.processes),
      )
      refl

-- Building in a table with a free slot, where the pipes and the fork succeed and both
-- streams open, returns the number of the
-- first free slot; stopping that number kills the child, waits for it, removes the executable and the
-- source file in this order, and the number is then no process. The other slots are what they were,
-- but that slot 0 lost its file names.
pub stop_process-build_and_run :
    (s : Service) (a : Program) (child i : ℕ)
    → first_free (forget_first s.processes) ≡ some i
    → (t u : Service) × (build_and_run (spawned child) s a ≡ ok (t, pos i))
      × (check_pidx t (pos i) ≡ some (i, process_of a (executable_filename s.pcnt) child))
      × (stop_process true t (pos i) ≡ ok (u, true))
      × (check_pidx u (pos i) ≡ none)
      × (u.effects
          ≡ s.effects
            ++ forked child
                (compiler_arguments a (executable_filename s.pcnt))
                (program_arguments a (executable_filename s.pcnt))
              ∷ killed (pos child)
              ∷ reaped (pos child)
              ∷ removed (executable_filename s.pcnt)
              ∷ removed a.path_to_source_code
              ∷ [])
      × (u.processes
          ≡ put i
              (ended (process_of a (executable_filename s.pcnt) child))
              (forget_first s.processes))
stop_process-build_and_run s a child i e =
    let executable = executable_filename s.pcnt in
    let p = process_of a executable child in
    let t = built s a child i in
    let ps = forget_first s.processes in
    let (lt, found) = first_free_lem ps i e in
    let here : check_pidx t (pos i) ≡ some (i, p) =
      check_pidx_running t i p (get_elem?-put i p ps lt) refl in
    let o : IsOpen p = record {
      to_open = refl;
      from_open = refl;
      source_kept = tt;
      executable_kept = tt;
    } in
    let u = after_end i p (log (killed p.pid) t) in
    (
      t,
      u,
      build_and_run_lem s a child i e,
      here,
      stop_process_lem t (pos i) i p here refl o,
      check_pidx_stopped u i (ended p)
          (get_elem?-put i (ended p) (put i p ps) (omega (arith, lt, length-put i p ps))) refl,
      append_assoc
            (s.effects
              ++ (forked child (compiler_arguments a executable) (program_arguments a executable)
                  ∷ []))
            (killed (pos child) ∷ []) (end_effects p)
          ∙ append_assoc s.effects
              (forked child (compiler_arguments a executable) (program_arguments a executable) ∷ [])
              (killed (pos child) ∷ end_effects p),
      put-put i p (ended p) ps,
    )
