-- ===== src/Gdbc/Build/Failures.antt =====
-- Builds that fail, and what a build does to slot 0.
use http_web_server_c.Gdbc.Build.Follows.{spawned}
use http_web_server_c.Base.{
  ℕ, zero, suc, ◌+◌, ◌≡◌, refl, sym, ap, ◌∙◌, ◌≢◌, inl, inr, true, false, not, ◌&&◌, none, some,
  List, [], ◌∷◌, ◌++◌, append_assoc, arith, ltb, Option-cases, length, ok, fault, ℤ, pos, negsuc,
  get_elem?, if_both,
}
use http_web_server_c.Gdbc.Processes.Cleanup.{stop_process_lem, after_end}
use http_web_server_c.Gdbc.Processes.{
  log, put, reaped, killed, some_bytes, ProcessRunning, check_pidx, cleanup_child_process, Service,
  stop_process, get_output_from_child, freed,
}
use http_web_server_c.Gdbc.Build.Lifetime.{build_and_run_lem, built, first_free_lem}
use http_web_server_c.Gdbc.Processes.Slots.{IsOpen, put-put, get_elem?-put, check_pidx_running}
use http_web_server_c.Gdbc.Build.{
  without_paths, claimed, executable_filename, forget_first, first_free, Spawn, Program,
  build_and_run,
}
use http_web_server_c.Gdbc.Arguments.Laws.{compile_args-pieces}
use http_web_server_c.CString.{Bytes}

-- When a pipe fails, the build returns -1, but the slot that was chosen stays running, with the process
-- number 0 and file names that were freed. So its number passes the check of `stop_process`, which
-- gives 0, the server's own process group, to `kill`; if that returns, the clean-up uses streams that
-- were never opened.
pub failed_pipe_leaks :
    (s : Service) (a : Program) (answers : Spawn) (i : ℕ)
    → first_free (forget_first s.processes) ≡ some i
    → answers.first_pipe && answers.second_pipe ≡ false
    → (t : Service) × (p : ProcessRunning) × (build_and_run answers s a ≡ ok (t, negsuc 0))
      × (check_pidx t (pos i) ≡ some (i, p))
      × (p.pid ≡ pos 0)
      × (p.source_code_path ≡ freed)
      × (stop_process true t (pos i) ≡ fault)
unfolding build_and_run stop_process cleanup_child_process
failed_pipe_leaks s a answers i e pipes =
    let executable = executable_filename s.pcnt in
    let (c, r, whole, apart) =
      compile_args-pieces a.compiler_type a.path_to_source_code executable a.is_gdb
        a.compile_options a.command_line_args in
    let p = claimed a.path_to_source_code executable in
    let q : ProcessRunning = record p { source_code_path = freed; executable_file_path = freed } in
    let ps = forget_first s.processes in
    let (lt, found) = first_free_lem ps i e in
    let t : Service = record s { processes = put i q ps; pcnt = s.pcnt + 1 } in
    let here : check_pidx t (pos i) ≡ some (i, q) =
      check_pidx_running t i q (get_elem?-put i q ps lt) refl in
    (t, q, rw (e, c, pipes, put-put i p q ps) refl, here, refl, refl, rw here refl)

-- A build in a full table.
build_full :
    (s : Service) (a : Program) (child : ℕ)
    → first_free (forget_first s.processes) ≡ none
    → build_and_run (spawned child) s a
      ≡ ok (record s { processes = forget_first s.processes }, negsuc 0)
unfolding build_and_run
build_full s a child n = rw n refl

-- A build leaves the process of slot 0 there, when it is running, without its file names.
build_keeps_first :
    (s : Service) (a : Program) (child : ℕ) (p : ProcessRunning) (ps : List ProcessRunning)
    → s.processes ≡ p ∷ ps
    → p.is_running ≡ true
    → (t : Service) × (r : ℤ) × (build_and_run (spawned child) s a ≡ ok (t, r))
      × (get_elem? t.processes 0 ≡ some (without_paths p))
build_keeps_first s a child p ps e r = elim (Option-cases (first_free (forget_first s.processes))) [
  | inl n ↦ (
    record s { processes = forget_first s.processes },
    negsuc 0,
    build_full s a child n,
    rw e refl,
  )
  | inr (zero, f) ↦ absurd (taken f)
  | inr (suc i, f) ↦
      (built s a child (suc i), pos (suc i), build_and_run_lem s a child (suc i) f, rw e refl)
]
  where
    taken : first_free (forget_first s.processes) ≡ some 0 → ⊥
    taken f =
        let (lt, (q, at, idle)) = first_free_lem (forget_first s.processes) 0 f in
        let d : some (without_paths p) ≡ some q = sym (rw e refl) ∙ at in
        let same_process : without_paths p ≡ q = cc in
        let running : q.is_running ≡ true =
          ap (λ (x : ProcessRunning). x.is_running) (sym same_process) ∙ r in
        ground (arith, running, idle)

-- A build forgets the file names of the process in slot 0, when that is running, wherever the new
-- process goes: stopping the process of slot 0 afterwards kills it and waits for it, and removes none
-- of its files.
pub build_forgets_first :
    (s : Service) (a : Program) (child : ℕ) (p : ProcessRunning) (ps : List ProcessRunning)
    → s.processes ≡ p ∷ ps
    → p.is_running ≡ true
    → p.to_child ≡ true
    → p.from_child ≡ true
    → (t u : Service) × (r : ℤ) × (build_and_run (spawned child) s a ≡ ok (t, r))
      × (stop_process true t (pos 0) ≡ ok (u, true))
      × (u.effects ≡ t.effects ++ killed p.pid ∷ reaped p.pid ∷ [])
build_forgets_first s a child p ps e r o o' =
    let q = without_paths p in
    let (t, n, run, at) = build_keeps_first s a child p ps e r in
    let here : check_pidx t (pos 0) ≡ some (0, q) = check_pidx_running t 0 q at r in
    let fine : IsOpen q = record {
      to_open = o;
      from_open = o';
      source_kept = tt;
      executable_kept = tt;
    } in
    (
      t,
      after_end 0 q (log (killed p.pid) t),
      n,
      run,
      stop_process_lem t (pos 0) 0 q here r fine,
      append_assoc t.effects (killed p.pid ∷ []) (reaped p.pid ∷ []),
    )

-- A reading that fills the buffer has its terminator written behind it.
pub full_reading_overruns :
    (s : Service) (pidx : ℤ) (b : Bytes)
    → check_pidx s pidx ≢ none
    → length b ≡ 14336
    → get_output_from_child s pidx (some_bytes b) ≡ fault
unfolding get_output_from_child
full_reading_overruns s pidx b found e = elim (Option-cases (check_pidx s pidx)) [
  | inl n ↦ absurd (found n)
  | inr ((i, p), f) ↦
      let full : ltb (length b) 14336 ≡ false = ground (arith, e) in
      rw (f, full) (if_both (λ x. x ≡ fault) (not p.from_child) fault fault refl refl)
]
