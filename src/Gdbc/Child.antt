-- ===== src/Gdbc/Child.antt =====
-- The child of `build_and_run` of gdbc/src/service.c behind its redirections: it runs the compiler, and
-- then the program.
pub mod Outcomes
use http_web_server_c.Base.{
  ℕ, zero, suc, ◌+◌, ◌-◌, ◌*◌, ◌≤◌, ◌<◌, ◌≡◌, refl, sym, ap, ◌∙◌, ◌≢◌, ◌↔◌, ◌⊎◌, inl, inr, Bool,
  true, false, not, ◌&&◌, ◌||◌, Option, none, some, List, [], ◌∷◌, ◌++◌, append-nil, append_assoc,
  arith, ◌==◌, ltb, leb, if◌then◌else◌, Bool-cases, Option-cases, length, take, drop, length-append,
  drop-append, drop-append_add, take-append, Outcome, ok, fault, abort, timeout, ◌>>=◌, ℤ, pos,
  negsuc, get_elem?,
}
use http_web_server_c.Gdbc.Build.{Program}
use http_web_server_c.Gdbc.Arguments.{compile_args, cl_args}
use http_web_server_c.CString.{Bytes, codes}

-- How the compiler ended: with an exit status, or in another way.
pub data CompilerStatus : Type 0 where
  exited : ℕ → CompilerStatus
  not_exited : CompilerStatus

-- Whether `posix_spawn` succeeds, what `waitpid` tells, whether `execv` finds the program, and what
-- `perror` writes of its error.
pub record ChildAnswers : Type 0 where
  pub spawns : Bool
  pub status : CompilerStatus
  pub executes : Bool
  pub error_text : Bytes

-- `exit(EXIT_FAILURE)`, with what the child itself wrote to the pipe, or the program with its arguments.
-- The standard error is the same pipe and has no buffer; what was printed is written by `exit`. What was
-- printed before `execv` is not written: the output is a pipe, so it was kept in a buffer.
pub data ChildEnd : Type 0 where
  exits_failed : Bytes → ChildEnd
  becomes : Bytes → List Bytes → ChildEnd

-- The loop of `printf("%s ", compile_args[i])`.
abbrev pub words : List Bytes → Bytes
words [] = []
words (w ∷ ws) = w ++ b' ' ∷ words ws

-- `perror("exec")`
abbrev pub exec_error : Bytes → Bytes
exec_error text = codes "exec: " ++ (text ++ 10 ∷ [])

abbrev pub execute : ChildAnswers → Bytes → List Bytes → Outcome ChildEnd
execute a printed [] = fault
execute a printed (file ∷ args) =
    if a.executes
    then ok (becomes file (file ∷ args))
    else ok (exits_failed (exec_error a.error_text ++ printed))

abbrev pub compiled : ChildAnswers → Bytes → Program → Bytes → CompilerStatus → Outcome ChildEnd
compiled a executable p printed not_exited =
    ok (exits_failed (printed ++ (codes "Compile failed (unknown reason) " ++ 10 ∷ [])))
compiled a executable p printed (exited zero) =
    cl_args executable p.is_gdb p.command_line_args >>= execute a printed
compiled a executable p printed (exited (suc n)) =
    ok (exits_failed (printed ++ (codes "Compile failed (compile error) " ++ 10 ∷ [])))

-- Behind a `posix_spawn` that fails, the number of the compiler and its status were never set.
unfoldable pub child_run : ChildAnswers → Bytes → Program → Outcome ChildEnd
unfolding compile_args cl_args
child_run a executable p =
    compile_args p.compiler_type p.path_to_source_code executable p.is_gdb p.compile_options
    >>= λ c. if a.spawns then compiled a executable p (words c ++ 10 ∷ []) a.status else fault
