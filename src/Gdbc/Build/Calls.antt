-- ===== src/Gdbc/Build/Calls.antt =====
-- Every call of the service on a table in order, and the runs made of such calls.
use http_web_server_c.Base.{
  ℕ, ◌≡◌, refl, ◌∙◌, Bool, Option, List, [], ◌∷◌, length, Outcome, ok, ◌>>=◌, ℤ,
}
use http_web_server_c.Gdbc.Build.Follows.{
  forget_first-AllOwn, length-forget_first, forget_first-AllProper, Follows, HasRoom, spawned,
  build-Follows, stop-Follows, input-Follows, output-Follows,
}
use http_web_server_c.Gdbc.Processes.{
  get_output_from_child, pass_input_to_child, Reading, stop_process, Service,
}
use http_web_server_c.Gdbc.Build.Names.{AllOwn}
use http_web_server_c.Gdbc.Processes.Slots.{AllProper}
use http_web_server_c.Gdbc.Build.{first_free, build_and_run, forget_first, Program}
use http_web_server_c.CString.{Bytes}

-- A call of the service, with the answers of the operating system; the pipes and the fork of a build
-- succeed, and both streams open.
pub data Call : Type 0 where
  builds : ℕ → Program → Call
  stops : Bool → ℤ → Call
  inputs : Bool → Option ℕ → ℤ → Bytes → Call
  outputs : ℤ → Reading → Call

-- The service behind a call; its result is dropped.
abbrev pub run_call : Service → Call → Outcome Service
run_call s (builds child a) = build_and_run (spawned child) s a >>= λ r. ok r.0
run_call s (stops can_kill pidx) = stop_process can_kill s pidx >>= λ r. ok r.0
run_call s (inputs alive printed pidx input) =
    pass_input_to_child alive printed s pidx input >>= λ r. ok r.0
run_call s (outputs pidx r) = get_output_from_child s pidx r >>= λ r. ok r.0

abbrev pub run_calls : Service → List Call → Outcome Service
run_calls s [] = ok s
run_calls s (c ∷ cs) = run_call s c >>= λ t. run_calls t cs

abbrev pub Fits : Call → Type 0
Fits (outputs pidx r) = HasRoom r
Fits _ = Unit

abbrev pub AllFit : List Call → Type 0
AllFit [] = Unit
AllFit (c ∷ cs) = Fits c × AllFit cs

pub call-Follows :
    (s : Service) (c : Call) → AllProper s.processes → Fits c → Follows s (run_call s c)
unfolding build_and_run
call-Follows s (builds child a) h f =
    let t : Service = record s { processes = forget_first s.processes } in
    let g =
      build-Follows t child a (first_free (forget_first s.processes))
        (forget_first-AllProper s.processes h) in
    record {
      service = g.service;
      returns = g.returns;
      proper = g.proper;
      sized = g.sized ∙ length-forget_first s.processes;
      named = λ own. g.named (forget_first-AllOwn s.pcnt s.processes own);
    }
call-Follows s (stops can_kill pidx) h f = stop-Follows s can_kill pidx h
call-Follows s (inputs alive printed pidx input) h f = input-Follows s alive printed pidx input h
call-Follows s (outputs pidx r) h f = output-Follows s pidx r h f

-- From a table in which every running process has open streams and file names that were not freed,
-- any sequence of calls (builds whose pipes and forks succeed and whose streams open, stops, inputs, and outputs whose
-- readings leave room for the terminator) runs with no undefined behaviour and no failed assertion,
-- and leaves such a table, with the same number of slots.
pub run_calls-AllProper :
    (s : Service) (cs : List Call)
    → AllProper s.processes
    → AllFit cs
    → (t : Service) × (run_calls s cs ≡ ok t)
      × AllProper t.processes
      × (length t.processes ≡ length s.processes)
run_calls-AllProper s [] h f = (s, refl, h, refl)
run_calls-AllProper s (c ∷ cs) h (f, fs) =
    let g = call-Follows s c h f in
    let (t, run, proper, sized) = run_calls-AllProper g.service cs g.proper fs in
    (t, rw g.returns run, proper, sized ∙ g.sized)

-- From a table in which every running process has open streams and file names that were not freed, and
-- whose executables were named by the builds before, no two of them the same: any sequence of calls
-- (builds whose pipes and forks succeed and whose streams open, stops, inputs, and outputs whose
-- readings leave room for the terminator) returns, and leaves a table with both properties.
pub run_calls-AllOwn :
    (s : Service) (cs : List Call)
    → AllProper s.processes
    → AllFit cs
    → AllOwn s.pcnt s.processes
    → (t : Service) × (run_calls s cs ≡ ok t) × AllProper t.processes × AllOwn t.pcnt t.processes
run_calls-AllOwn s [] h f own = (s, refl, h, own)
run_calls-AllOwn s (c ∷ cs) h (f, fs) own =
    let g = call-Follows s c h f in
    let (t, run, proper, kept) = run_calls-AllOwn g.service cs g.proper fs (g.named own) in
    (t, rw g.returns run, proper, kept)
