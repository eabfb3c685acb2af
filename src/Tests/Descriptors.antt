-- ===== src/Tests/Descriptors.antt =====
-- The descriptors of a server that has its standard ones and a socket, and two calls for one process.
use http_web_server_c.Base.{
  ◌≡◌, refl, inr, Bool, true, false, not, none, some, [], ◌∷◌, ◌++◌, arith, ltb, if◌then◌else◌,
  abort,
}
use http_web_server_c.Gdbc.Descriptors.Lifetime.{
  build_files-execv, both_pipes, build_files_failed, IsFresh,
}
use http_web_server_c.Gdbc.Descriptors.{
  close, from_child_pipe, writes, child_files, to_child_pipe, build_files, execv, reads, Files,
  PipeEnds, PipeAnswers, Flags, opened, other,
}
use http_web_server_c.Tests.Service.{started_process, half_full}
use http_web_server_c.Gdbc.Race.Stops.{race-stop_process}
use http_web_server_c.Gdbc.Race.{called, race}
use http_web_server_c.Tests.Blocks.{Distinct-distinct}

abbrev four_open : Files
four_open k = if ltb k 4 then opened (other k) else none

abbrev from_child : PipeEnds
from_child = record { read_end = 4; write_end = 5 }

abbrev to_child : PipeEnds
to_child = record { read_end = 6; write_end = 7 }

abbrev marks : Flags
marks = record { get_succeeds = true; set_succeeds = true }

abbrev answers : Bool → PipeAnswers
answers forks = record {
  from_child = some from_child;
  to_child = some to_child;
  forks = forks;
  to_flags = marks;
  from_flags = marks;
}

four_open-IsFresh : IsFresh from_child to_child four_open
four_open-IsFresh = record {
  distinct = Distinct-distinct (0 ∷ 1 ∷ 2 ∷ 4 ∷ 5 ∷ 6 ∷ 7 ∷ []) refl;
  from_read = refl;
  from_write = refl;
  to_read = refl;
  to_write = refl;
}

abbrev child : Files
child = execv (child_files from_child to_child (both_pipes from_child to_child four_open))

build_files-execv_example :
    (child 0 ≡ opened (reads to_child_pipe))
    × (child 1 ≡ opened (writes from_child_pipe))
    × (child 2 ≡ opened (writes from_child_pipe))
    × (child 3 ≡ opened (other 3))
    × (build_files (answers true) four_open 7
        ≡ some (record { target = writes to_child_pipe; cloexec = true }))
    × (build_files (answers true) four_open 4
        ≡ some (record { target = reads from_child_pipe; cloexec = true }))
    × (close 4 (close 7 (build_files (answers true) four_open)) 1 ≡ opened (other 1))
build_files-execv_example =
    build_files-execv (answers true) from_child to_child four_open 3 1 refl refl refl
      four_open-IsFresh (omega arith)

build_files_failed_example : build_files (answers false) four_open 5 ≡ none
build_files_failed_example =
    build_files_failed (answers false) from_child to_child four_open 5 four_open-IsFresh
      (inr (refl, inr (refl, refl)))

race-stop_process_example :
    race 0
      ((true ∷ false ∷ false ∷ true ∷ []) ++ false ∷ not false ∷ [])
      (record { service = half_full; first = called; second = called })
    ≡ abort
race-stop_process_example =
    race-stop_process 0 half_full started_process (true ∷ false ∷ false ∷ true ∷ []) false refl
      (omega arith) refl
      (record { to_open = refl; from_open = refl; source_kept = tt; executable_kept = tt }) refl
      refl
