-- ===== src/Gdbc/Processes.antt =====
-- struct process_running of gdbc/src/service.h, and the table of processes of gdbc/src/service.c. The
-- answers of the operating system are arguments; what is asked of it is kept in `effects`.
pub mod Slots
pub mod Cleanup
use http_web_server_c.Base.{
  ℕ, zero, suc, ◌+◌, ◌-◌, ◌*◌, ◌≤◌, ◌<◌, ◌≡◌, refl, sym, ap, ◌∙◌, ◌≢◌, ◌↔◌, ◌⊎◌, inl, inr, Bool,
  true, false, not, ◌&&◌, ◌||◌, Option, none, some, List, [], ◌∷◌, ◌++◌, append-nil, append_assoc,
  arith, ◌==◌, ltb, leb, if◌then◌else◌, Bool-cases, Option-cases, length, take, drop, length-append,
  drop-append, drop-append_add, take-append, Outcome, ok, fault, abort, timeout, ◌>>=◌, ℤ, pos,
  negsuc, get_elem?,
}
use http_web_server_c.CString.{Bytes, until}

-- A pointer to a file name: NULL, a string, or a string that was freed.
pub data FilePath : Type 0 where
  null freed : FilePath
  path : Bytes → FilePath

-- `to_child` and `from_child` say that the pointers are open streams.
pub record ProcessRunning : Type 0 where
  pub pid : ℤ
  pub to_child : Bool
  pub from_child : Bool
  pub source_code_path : FilePath
  pub executable_file_path : FilePath
  pub is_running : Bool

-- `forked p c a` is a child p that runs the compiler with the arguments c, and then the program a;
-- `saved f s` is a file f that is written with the text s.
pub data Effect : Type 0 where
  forked : ℕ → List Bytes → List Bytes → Effect
  saved : Bytes → Bytes → Effect
  killed reaped : ℤ → Effect
  removed : Bytes → Effect
  written : ℤ → Bytes → Effect

-- `PROCESSES`, whose length is MAX_PROCESS, and `pcnt`.
pub record Service : Type 0 where
  pub processes : List ProcessRunning
  pub pcnt : ℕ
  pub effects : List Effect

abbrev pub no_process : ProcessRunning
no_process = record {
  pid = pos 0;
  to_child = false;
  from_child = false;
  source_code_path = null;
  executable_file_path = null;
  is_running = false;
}

abbrev pub repeated : ℕ → List ProcessRunning
repeated zero = []
repeated (suc n) = no_process ∷ repeated n

abbrev pub empty_service : Service
empty_service = record { processes = repeated 4096; pcnt = 0; effects = [] }

abbrev pub put : ℕ → ProcessRunning → List ProcessRunning → List ProcessRunning
put i p [] = []
put zero p (q ∷ qs) = p ∷ qs
put (suc i) p (q ∷ qs) = q ∷ put i p qs

abbrev pub set_process : ℕ → ProcessRunning → Service → Service
set_process i p s = record s { processes = put i p s.processes }

abbrev pub log : Effect → Service → Service
log e s = record s { effects = s.effects ++ (e ∷ []) }

abbrev pub if_running : ℕ → Option ProcessRunning → Option (ℕ × ProcessRunning)
if_running i none = none
if_running i (some p) = if p.is_running then some (i, p) else none

-- `none` where `check_pidx` returns 0, and else the process at the index.
unfoldable pub check_pidx : Service → ℤ → Option (ℕ × ProcessRunning)
check_pidx s (negsuc n) = none
check_pidx s (pos i) = if_running i (get_elem? s.processes i)

-- `if (path) { remove(path); free(path); }`
abbrev pub remove_file : FilePath → Service → Outcome (FilePath × Service)
remove_file null s = ok (null, s)
remove_file freed s = fault
remove_file (path f) s = ok (freed, log (removed f) s)

unfoldable pub cleanup_child_process : ℕ → ProcessRunning → Service → Outcome Service
cleanup_child_process i p s =
    if not p.is_running
    then abort
    else if not (p.to_child && p.from_child)
    then fault
    else remove_file p.executable_file_path (log (reaped p.pid) s) >>= λ (executable, s1).
        remove_file p.source_code_path s1 >>= λ (source, s2). ok (
          set_process i
            (record {
              pid = p.pid;
              to_child = false;
              from_child = false;
              source_code_path = source;
              executable_file_path = executable;
              is_running = false;
            })
            s2)

-- The flag says whether `kill` succeeds.
abbrev pub stop_at : Bool → Service → Option (ℕ × ProcessRunning) → Outcome (Service × Bool)
stop_at can_kill s none = ok (s, false)
stop_at can_kill s (some (i, p)) =
    if not can_kill
    then ok (s, false)
    else cleanup_child_process i p (log (killed p.pid) s) >>= λ s'. ok (s', true)

unfoldable pub stop_process : Bool → Service → ℤ → Outcome (Service × Bool)
unfolding check_pidx cleanup_child_process
stop_process can_kill s pidx = stop_at can_kill s (check_pidx s pidx)

-- `fprintf` returns the number of bytes, or a negative number (`none`).
abbrev pub print_result : ℤ → Bytes → Service → Option ℕ → Service × ℤ
print_result pid input s none = (s, negsuc 0)
print_result pid input s (some n) = (log (written pid (input ++ 10 ∷ [])) s, pos n)

abbrev pub pass_at :
    Bool → Option ℕ → Service → Bytes → Option (ℕ × ProcessRunning) → Outcome (Service × ℤ)
pass_at alive printed s input none = ok (s, negsuc 1)
pass_at alive printed s input (some (i, p)) =
    if not alive
    then ok (s, negsuc 0)
    else if not p.to_child
    then fault
    else ok (print_result p.pid input s printed)

-- The first flag is the answer of `check_pid_alive`.
unfoldable pub pass_input_to_child : Bool → Option ℕ → Service → ℤ → Bytes → Outcome (Service × ℤ)
unfolding check_pidx
pass_input_to_child alive printed s pidx input = pass_at alive printed s input (check_pidx s pidx)

-- What `read` answers: 0, -1 with EAGAIN or EWOULDBLOCK, -1 with another error, or some bytes.
pub data Reading : Type 0 where
  end_of_file would_block read_failed : Reading
  some_bytes : Bytes → Reading

-- The results -2, -1, 0, and a buffer.
pub data Output : Type 0 where
  invalid dead nothing : Output
  buffer : Bytes → Output

abbrev pub buffer_size : ℕ
buffer_size = 14336

-- At most `buffer_size` bytes are read, and the terminator is written behind them.
abbrev pub output_of : ℕ → ProcessRunning → Service → Reading → Outcome (Service × Output)
output_of i p s end_of_file = cleanup_child_process i p s >>= λ s'. ok (s', dead)
output_of i p s would_block = ok (s, nothing)
output_of i p s read_failed = ok (s, buffer [])
output_of i p s (some_bytes b) =
    if ltb (length b) buffer_size then ok (s, buffer (until 0 b)) else fault

abbrev pub output_at : Service → Reading → Option (ℕ × ProcessRunning) → Outcome (Service × Output)
output_at s r none = ok (s, invalid)
output_at s r (some (i, p)) = if not p.from_child then fault else output_of i p s r

unfoldable pub get_output_from_child : Service → ℤ → Reading → Outcome (Service × Output)
unfolding check_pidx cleanup_child_process
get_output_from_child s pidx r = output_at s r (check_pidx s pidx)
