-- ===== src/Gdbc/Race.antt =====
-- Two threads of the server that call `stop_process` of gdbc/src/service.c for the same number. One step
-- is the check, the call of `kill`, or `cleanup_child_process`; nothing locks the slot between them.
pub mod Stops
use http_web_server_c.Base.{
  ℕ, zero, suc, ◌+◌, ◌-◌, ◌*◌, ◌≤◌, ◌<◌, ◌≡◌, refl, sym, ap, ◌∙◌, ◌≢◌, ◌↔◌, ◌⊎◌, inl, inr, Bool,
  true, false, not, ◌&&◌, ◌||◌, Option, none, some, List, [], ◌∷◌, ◌++◌, append-nil, append_assoc,
  arith, ◌==◌, ltb, leb, if◌then◌else◌, Bool-cases, Option-cases, length, take, drop, length-append,
  drop-append, drop-append_add, take-append, Outcome, ok, fault, abort, timeout, ◌>>=◌, ℤ, pos,
  negsuc, get_elem?,
}
use http_web_server_c.Gdbc.Processes.{
  killed, cleanup_child_process, log, ProcessRunning, Service, check_pidx, Effect,
}

-- Where a call is: before its check, before `kill`, before the clean-up, or returned.
pub data StopState : Type 0 where
  called checked signalled done : StopState

pub record Race : Type 0 where
  pub service : Service
  pub first : StopState
  pub second : StopState

-- `kill` finds the child until it is waited for.
abbrev pub kill_child : Service → Option (ℕ × ProcessRunning) → Service × StopState
kill_child s none = (s, done)
kill_child s (some (i, p)) = (log (killed p.pid) s, signalled)

abbrev pub check : Option (ℕ × ProcessRunning) → StopState
check none = done
check (some r) = checked

-- The assertion of `cleanup_child_process` fails for a slot that is no longer running.
abbrev pub clean : Service → Option (ℕ × ProcessRunning) → Outcome (Service × StopState)
clean s none = abort
clean s (some (i, p)) = cleanup_child_process i p s >>= λ s'. ok (s', done)

-- The next step of a call for the slot i.
unfoldable pub stop_step : ℕ → Service → StopState → Outcome (Service × StopState)
unfolding check_pidx cleanup_child_process
stop_step i s called = ok (s, check (check_pidx s (pos i)))
stop_step i s checked = ok (kill_child s (check_pidx s (pos i)))
stop_step i s signalled = clean s (check_pidx s (pos i))
stop_step i s done = ok (s, done)

-- A step of the first thread, for true, or of the second.
unfoldable pub race_step : ℕ → Race → Bool → Outcome Race
unfolding stop_step
race_step i r true =
    stop_step i r.service r.first >>= λ t. ok (record r { service = t.0; first = t.1 })
race_step i r false =
    stop_step i r.service r.second >>= λ t. ok (record r { service = t.0; second = t.1 })

unfoldable pub race : ℕ → List Bool → Race → Outcome Race
unfolding race_step
race i [] r = ok r
race i (turn ∷ turns) r = race_step i r turn >>= race i turns
