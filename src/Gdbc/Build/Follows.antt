-- ===== src/Gdbc/Build/Follows.antt =====
-- One call of the service on a table in order.
use http_web_server_c.Base.{
  ℕ, ◌+◌, ◌<◌, ◌≡◌, refl, sym, ap, ◌∙◌, inl, inr, Bool, true, not, Option, none, some, List, [],
  ◌∷◌, arith, ltb, if◌then◌else◌, Bool-cases, Option-cases, length, Outcome, ok, fault, ◌>>=◌, ℤ,
  pos,
}
use http_web_server_c.Gdbc.Processes.{
  null, freed, path, FilePath, Output, killed, cleanup_child_process, log, output_of, check_pidx,
  print_result, get_output_from_child, pass_input_to_child, Reading, put, stop_process, Effect,
  ProcessRunning, Service, end_of_file, would_block, read_failed, some_bytes,
}
use http_web_server_c.Gdbc.Processes.Cleanup.{released, cleanup_child_process_lem, ended}
use http_web_server_c.Gdbc.Build.Names.{AllOwn-put_fresh, AllOwn, AllOwn-put_nameless, name_of}
use http_web_server_c.Gdbc.Processes.Slots.{
  AllProper-get_elem?, check_pidx_sound, IsOpen, put-put, IsProper, length-put, AllProper-put,
  AllProper,
}
use http_web_server_c.Gdbc.Build.{
  claimed, executable_filename, build_at, forget_first, Program, Spawn,
}
use http_web_server_c.Gdbc.Arguments.Laws.{compile_args-pieces}
use http_web_server_c.CString.{Bytes}
use mathlib.Core.Path.{subst}

abbrev pub spawned : ℕ → Spawn
spawned child = record {
  first_pipe = true;
  second_pipe = true;
  fork = some child;
  to_opens = true;
  from_opens = true;
}

-- A reading that leaves room for the terminator.
abbrev pub HasRoom : Reading → Type 0
HasRoom (some_bytes b) = length b < 14336
HasRoom _ = Unit

pub forget_first-AllProper : (ps : List ProcessRunning) → AllProper ps → AllProper (forget_first ps)
forget_first-AllProper [] a = tt
forget_first-AllProper (p ∷ ps) (inl r, a) = (inl r, a)
forget_first-AllProper (p ∷ ps) (inr o, a) = (
  inr (record {
    to_open = o.to_open;
    from_open = o.from_open;
    source_kept = tt;
    executable_kept = tt;
  }),
  a,
)

pub forget_first-AllOwn :
    (c : ℕ) (ps : List ProcessRunning) → AllOwn c ps → AllOwn c (forget_first ps)
forget_first-AllOwn c [] h = tt
forget_first-AllOwn c (p ∷ ps) (o, h) = (tt, h)

pub length-forget_first : (ps : List ProcessRunning) → length (forget_first ps) ≡ length ps
length-forget_first [] = refl
length-forget_first (p ∷ ps) = refl

-- A service whose table is in order and has as many slots as that of s; where the executables of s had
-- names of their own, so have its own.
pub record Follows (s : Service) (m : Outcome Service) : Type 0 where
  pub service : Service
  pub returns : m ≡ ok service
  pub proper : AllProper service.processes
  pub sized : length service.processes ≡ length s.processes
  pub named : AllOwn s.pcnt s.processes → AllOwn service.pcnt service.processes

unchanged : (s : Service) → AllProper s.processes → Follows s (ok s)
unchanged s a = record { service = s; returns = refl; proper = a; sized = refl; named = λ h. h }

pub build-Follows :
    (s : Service) (child : ℕ) (a : Program) (o : Option ℕ)
    → AllProper s.processes
    → Follows s (build_at (spawned child) s a o >>= λ r. ok r.0)
build-Follows s child a none h = unchanged s h
build-Follows s child a (some i) h =
    let executable = executable_filename s.pcnt in
    let (c, r, whole, apart) =
      compile_args-pieces a.compiler_type a.path_to_source_code executable a.is_gdb
        a.compile_options a.command_line_args in
    let p = claimed a.path_to_source_code executable in
    let q : ProcessRunning = record p { pid = pos child; to_child = true; from_child = true } in
    let fine : IsProper q =
      inr (record { to_open = refl; from_open = refl; source_kept = tt; executable_kept = tt }) in
    rw (c, r)
      (record {
        service = _;
        returns = refl;
        proper =
            subst AllProper (sym (put-put i p q s.processes))
              (AllProper-put i q s.processes fine h);
        sized = length-put i q (put i p s.processes) ∙ length-put i p s.processes;
        named = λ own.
            subst (AllOwn (s.pcnt + 1)) (sym (put-put i p q s.processes))
              (AllOwn-put_fresh s.pcnt i q s.processes refl own);
      })

ended-nameless : (p : ProcessRunning) → name_of (ended p).executable_file_path ≡ none
ended-nameless p = released-nameless p.executable_file_path
  where
    released-nameless : (f : FilePath) → name_of (released f) ≡ none
    released-nameless null = refl
    released-nameless freed = refl
    released-nameless (path f) = refl

end-Follows :
    (s : Service) (i : ℕ) (p : ProcessRunning) (es : List Effect)
    → AllProper s.processes
    → Follows s (ok (record s { processes = put i (ended p) s.processes; effects = es }))
end-Follows s i p es h = record {
  service = record s { processes = put i (ended p) s.processes; effects = es };
  returns = refl;
  proper = AllProper-put i (ended p) s.processes (inl refl) h;
  sized = length-put i (ended p) s.processes;
  named = AllOwn-put_nameless s.pcnt i (ended p) s.processes (ended-nameless p);
}

proper_running : (p : ProcessRunning) → p.is_running ≡ true → IsProper p → IsOpen p
proper_running p r (inl e) = absurd (ground (arith, r, e))
proper_running p r (inr o) = o

-- Ending a process that `check_pidx` finds in a table in order.
cleanup-Follows :
    (s u : Service) (pidx : ℤ) (i : ℕ) (p : ProcessRunning)
    → AllProper s.processes
    → check_pidx s pidx ≡ some (i, p)
    → u.processes ≡ s.processes
    → u.pcnt ≡ s.pcnt
    → (t : Service) × (cleanup_child_process i p u ≡ ok t) × Follows s (ok t)
cleanup-Follows s u pidx i p h e same counted =
    let (r, at) = check_pidx_sound s pidx i p e in
    let o = proper_running p r (AllProper-get_elem? i p s.processes h at) in
    (
      _,
      cleanup_child_process_lem i p u r o,
      record {
        service = _;
        returns = refl;
        proper = AllProper-put i (ended p) u.processes (inl refl) (subst AllProper (sym same) h);
        sized = length-put i (ended p) u.processes ∙ ap length same;
        named = λ own. AllOwn-put_nameless u.pcnt i (ended p) u.processes (ended-nameless p) (
            subst (λ ps. AllOwn u.pcnt ps) (sym same)
              (subst (λ c. AllOwn c s.processes) (sym counted) own));
      },
    )

pub stop-Follows :
    (s : Service) (can_kill : Bool) (pidx : ℤ)
    → AllProper s.processes
    → Follows s (stop_process can_kill s pidx >>= λ r. ok r.0)
unfolding stop_process
stop-Follows s can_kill pidx h = elim (Option-cases (check_pidx s pidx)) [
  | inl e ↦ rw e (unchanged s h)
  | inr ((i, p), e) ↦ elim (Bool-cases can_kill) [
    | inl k ↦
        let (t, run, f) = cleanup-Follows s (log (killed p.pid) s) pidx i p h e refl refl in
        rw (e, k, run) f
    | inr k ↦ rw (e, k) (unchanged s h)
  ]
]

print-Follows :
    (s : Service) (pid : ℤ) (input : Bytes) (printed : Option ℕ)
    → AllProper s.processes
    → Follows s (ok (print_result pid input s printed).0)
print-Follows s pid input none h = unchanged s h
print-Follows s pid input (some n) h = record {
  service = _;
  returns = refl;
  proper = h;
  sized = refl;
  named = λ own. own;
}

pub input-Follows :
    (s : Service) (alive : Bool) (printed : Option ℕ) (pidx : ℤ) (input : Bytes)
    → AllProper s.processes
    → Follows s (pass_input_to_child alive printed s pidx input >>= λ r. ok r.0)
unfolding pass_input_to_child
input-Follows s alive printed pidx input h = elim (Option-cases (check_pidx s pidx)) [
  | inl e ↦ rw e (unchanged s h)
  | inr ((i, p), e) ↦ elim (Bool-cases alive) [
    | inl k ↦
        let (r, at) = check_pidx_sound s pidx i p e in
        let o = proper_running p r (AllProper-get_elem? i p s.processes h at) in
        rw (e, k, o.to_open) (print-Follows s p.pid input printed h)
    | inr k ↦ rw (e, k) (unchanged s h)
  ]
]

read-Follows :
    (s : Service) (pidx : ℤ) (i : ℕ) (p : ProcessRunning) (r : Reading)
    → AllProper s.processes
    → check_pidx s pidx ≡ some (i, p)
    → HasRoom r
    → Follows s (output_of i p s r >>= λ r. ok r.0)
read-Follows s pidx i p end_of_file h e f =
    let (t, run, g) = cleanup-Follows s s pidx i p h e refl refl in rw run g
read-Follows s pidx i p would_block h e f = unchanged s h
read-Follows s pidx i p read_failed h e f = unchanged s h
read-Follows s pidx i p (some_bytes b) h e f =
    let fits : ltb (length b) 14336 ≡ true = ground (arith, f) in rw fits (unchanged s h)

if_open : (b : Bool) (m : Outcome (Service × Output)) → b ≡ true → (if not b then fault else m) ≡ m
if_open b m e = rw e refl

pub output-Follows :
    (s : Service) (pidx : ℤ) (r : Reading)
    → AllProper s.processes
    → HasRoom r
    → Follows s (get_output_from_child s pidx r >>= λ r. ok r.0)
unfolding get_output_from_child
output-Follows s pidx r h f = elim (Option-cases (check_pidx s pidx)) [
  | inl e ↦ rw e (unchanged s h)
  | inr ((i, p), e) ↦
      let (running, at) = check_pidx_sound s pidx i p e in
      let o = proper_running p running (AllProper-get_elem? i p s.processes h at) in
      rw (e, if_open p.from_child (output_of i p s r) o.from_open) (read-Follows s pidx i p r h e f)
]
