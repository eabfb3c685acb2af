-- ===== src/Gdbc/Descriptors.antt =====
-- The file descriptors in `build_and_run` of gdbc/src/service.c: those of the server, and those of the
-- child between `fork` and `execv`. A call of `dup2` or `close` on an open descriptor succeeds.
pub mod Lifetime
use http_web_server_c.Base.{
  ℕ, zero, suc, ◌+◌, ◌-◌, ◌*◌, ◌≤◌, ◌<◌, ◌≡◌, refl, sym, ap, ◌∙◌, ◌≢◌, ◌↔◌, ◌⊎◌, inl, inr, Bool,
  true, false, not, ◌&&◌, ◌||◌, Option, none, some, List, [], ◌∷◌, ◌++◌, append-nil, append_assoc,
  arith, ◌==◌, ltb, leb, if◌then◌else◌, Bool-cases, Option-cases, length, take, drop, length-append,
  drop-append, drop-append_add, take-append, Outcome, ok, fault, abort, timeout, ◌>>=◌, ℤ, pos,
  negsuc, get_elem?,
}

-- The two pipes.
pub data Pipe : Type 0 where
  from_child_pipe to_child_pipe : Pipe

-- What a descriptor stands for: an end of a pipe, or something else, by a number.
pub data Target : Type 0 where
  reads writes : Pipe → Target
  other : ℕ → Target

pub record Descriptor : Type 0 where
  pub target : Target
  pub cloexec : Bool

-- The descriptors of a process; `none` is closed.
abbrev pub Files : Type 0
Files = ℕ → Option Descriptor

abbrev pub store : ℕ → Option Descriptor → Files → Files
store fd d files = λ k. if k == fd then d else files k

abbrev pub close : ℕ → Files → Files
close fd = store fd none

-- The copy is not closed by `execv`.
abbrev pub duplicate : Option Descriptor → Option Descriptor → Option Descriptor
duplicate none d = d
duplicate (some d) _ = some (record d { cloexec = false })

abbrev pub dup2 : ℕ → ℕ → Files → Files
dup2 fd copy files = store copy (duplicate (files fd) (files copy)) files

-- The two numbers that `pipe` writes into its array.
pub record PipeEnds : Type 0 where
  pub read_end : ℕ
  pub write_end : ℕ

abbrev pub opened : Target → Option Descriptor
opened t = some (record { target = t; cloexec = false })

abbrev pub pipe : Pipe → PipeEnds → Files → Files
pipe p e files = store e.write_end (opened (writes p)) (store e.read_end (opened (reads p)) files)

-- Whether the two calls of `fcntl` succeed.
pub record Flags : Type 0 where
  pub get_succeeds : Bool
  pub set_succeeds : Bool

abbrev pub marked : Option Descriptor → Option Descriptor
marked none = none
marked (some d) = some (record d { cloexec = true })

-- A descriptor whose flags cannot be read or written is closed.
unfoldable pub set_fd_cloexec : Flags → ℕ → Files → Files
set_fd_cloexec a fd files =
    if not a.get_succeeds
    then close fd files
    else if not a.set_succeeds
    then close fd files
    else store fd (marked (files fd)) files

-- `if (p[0] != -1) close(p[0]); if (p[1] != -1) close(p[1]);`
abbrev pub close_ends : Option PipeEnds → Files → Files
close_ends none files = files
close_ends (some e) files = close e.write_end (close e.read_end files)

-- `build_and_run_error`
abbrev pub close_pipes : Option PipeEnds → Option PipeEnds → Files → Files
close_pipes from_child to_child files = close_ends to_child (close_ends from_child files)

-- The parent behind a fork that succeeds.
abbrev pub parent_files : Flags → Flags → PipeEnds → PipeEnds → Files → Files
parent_files to_flags from_flags from_child to_child files =
    set_fd_cloexec from_flags from_child.read_end (
      set_fd_cloexec to_flags to_child.write_end
        (close from_child.write_end (close to_child.read_end files)))

-- The child, up to its call of the compiler.
unfoldable pub child_files : PipeEnds → PipeEnds → Files → Files
child_files from_child to_child files =
    let stdout = dup2 from_child.write_end 1 (close from_child.read_end files) in
    let outputs = close from_child.write_end (dup2 from_child.write_end 2 stdout) in
    close to_child.read_end (dup2 to_child.read_end 0 (close to_child.write_end outputs))

abbrev pub kept_open : Option Descriptor → Option Descriptor
kept_open none = none
kept_open (some d) = if d.cloexec then none else some d

-- `execv` closes what is marked.
abbrev pub execv : Files → Files
execv files = λ k. kept_open (files k)

-- The answers to the calls of `pipe` and of `fork`.
pub record PipeAnswers : Type 0 where
  pub from_child : Option PipeEnds
  pub to_child : Option PipeEnds
  pub forks : Bool
  pub to_flags : Flags
  pub from_flags : Flags

abbrev pub forked_files : PipeAnswers → PipeEnds → PipeEnds → Files → Files
forked_files a from_child to_child files =
    if a.forks
    then parent_files a.to_flags a.from_flags from_child to_child files
    else close_pipes (some from_child) (some to_child) files

abbrev pub second_pipe : PipeAnswers → PipeEnds → Files → Option PipeEnds → Files
second_pipe a from_child files none = close_pipes (some from_child) none files
second_pipe a from_child files (some to_child) =
    forked_files a from_child to_child (pipe to_child_pipe to_child files)

abbrev pub first_pipe : PipeAnswers → Files → Option PipeEnds → Files
first_pipe a files none = close_pipes none none files
first_pipe a files (some from_child) =
    second_pipe a from_child (pipe from_child_pipe from_child files) a.to_child

-- The descriptors of the server behind `build_and_run`.
unfoldable pub build_files : PipeAnswers → Files → Files
unfolding set_fd_cloexec
build_files a files = first_pipe a files a.from_child
