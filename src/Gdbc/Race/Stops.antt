-- ===== src/Gdbc/Race/Stops.antt =====
-- What two calls of `stop_process` for one process come to.
use http_web_server_c.Gdbc.Race.{
  race_step, Race, StopState, race, stop_step, called, checked, signalled,
}
use http_web_server_c.Base.{
  ℕ, zero, suc, ◌≤◌, ◌<◌, ◌≡◌, refl, ap, ◌∙◌, Bool, true, false, not, none, some, List, [], ◌∷◌,
  ◌++◌, arith, length, Outcome, ok, fault, abort, timeout, ◌>>=◌, pos, get_elem?,
}
use http_web_server_c.Gdbc.Processes.Slots.{
  get_elem?-put, check_pidx_stopped, IsOpen, check_pidx_running,
}
use http_web_server_c.Gdbc.Processes.Cleanup.{ended, cleanup_child_process_lem, after_end}
use http_web_server_c.Gdbc.Processes.{
  cleanup_child_process, killed, check_pidx, log, ProcessRunning, Service,
}

-- How often the list has the flag.
abbrev pub count : Bool → List Bool → ℕ
count b [] = 0
count true (true ∷ bs) = suc (count true bs)
count false (false ∷ bs) = suc (count false bs)
count b (_ ∷ bs) = count b bs

-- The place with so many steps before the clean-up.
abbrev pub place : ℕ → StopState
place zero = signalled
place (suc zero) = checked
place (suc (suc n)) = called

abbrev pub racing : Service → ℕ → ℕ → Race
racing s m n = record { service = s; first = place m; second = place n }

-- A step before the clean-up leaves the table of processes xs it is.
step_before :
    (s : Service) (i m : ℕ) (p : ProcessRunning)
    → get_elem? s.processes i ≡ some p
    → p.is_running ≡ true
    → suc m ≤ 2
    → (t : Service) × (stop_step i s (place (suc m)) ≡ ok (t, place m))
      × (t.processes ≡ s.processes)
unfolding stop_step
step_before s i zero p at running le =
    let here = check_pidx_running s i p at running in (log (killed p.pid) s, rw here refl, refl)
step_before s i (suc zero) p at running le =
    let here = check_pidx_running s i p at running in (s, rw here refl, refl)
step_before s i (suc (suc m)) p at running le = absurd (omega (arith, le))

bind_same :
    (m : Outcome Race) (f g : Race → Outcome Race) (t : Race) (y : Outcome Race)
    → ((u : Race) → f u ≡ ok t → g u ≡ y)
    → (m >>= f) ≡ ok t
    → (m >>= g) ≡ y
bind_same (ok u) f g t y h e = h u e
bind_same fault f g t y h e = cc
bind_same abort f g t y h e = cc
bind_same timeout f g t y h e = cc

race-append :
    (i : ℕ) (xs bs : List Bool) (r t : Race)
    → race i xs r ≡ ok t
    → race i (xs ++ bs) r ≡ race i bs t
unfolding race
race-append i [] bs r t e = let same : r ≡ t = cc in ap (race i bs) same
race-append i (x ∷ xs) bs r t e =
    bind_same (race_step i r x) (race i xs) (race i (xs ++ bs)) t (race i bs t)
      (λ u. race-append i xs bs u t) e

both_signalled :
    (i : ℕ) (turns : List Bool) (s : Service) (p : ProcessRunning) (m n : ℕ)
    → get_elem? s.processes i ≡ some p
    → p.is_running ≡ true
    → m ≤ 2
    → n ≤ 2
    → count true turns ≡ m
    → count false turns ≡ n
    → (t : Service) × (race i turns (racing s m n) ≡ ok (racing t 0 0))
      × (t.processes ≡ s.processes)
unfolding race
both_signalled i [] s p zero zero at running lm ln a b = (s, refl, refl)
both_signalled i [] s p (suc m) n at running lm ln a b = absurd (omega (arith, a))
both_signalled i [] s p m (suc n) at running lm ln a b = absurd (omega (arith, b))
both_signalled i (true ∷ turns) s p zero n at running lm ln a b = absurd (omega (arith, a))
both_signalled i (true ∷ turns) s p (suc m) n at running lm ln a b =
    let (u, step, same) = step_before s i m p at running lm in
    let (t, run, same') =
      both_signalled i turns u p m n (ap (λ ps. get_elem? ps i) same ∙ at) running
        (omega (arith, lm)) ln (omega (arith, a)) b in
    (t, rw step run, same' ∙ same)
both_signalled i (false ∷ turns) s p m zero at running lm ln a b = absurd (omega (arith, b))
both_signalled i (false ∷ turns) s p m (suc n) at running lm ln a b =
    let (u, step, same) = step_before s i n p at running ln in
    let (t, run, same') =
      both_signalled i turns u p m n (ap (λ ps. get_elem? ps i) same ∙ at) running lm
        (omega (arith, ln)) a (omega (arith, b)) in
    (t, rw step run, same' ∙ same)

-- The clean-ups, in either order.
both_clean :
    (i : ℕ) (s : Service) (p : ProcessRunning) (b : Bool)
    → get_elem? s.processes i ≡ some p
    → i < length s.processes
    → p.is_running ≡ true
    → IsOpen p
    → race i (b ∷ not b ∷ []) (racing s 0 0) ≡ abort
unfolding race
both_clean i s p b at lt running o = by_turn b
  where
    here : check_pidx s (pos i) ≡ some (i, p)
    here = check_pidx_running s i p at running

    cleaned : cleanup_child_process i p s ≡ ok (after_end i p s)
    cleaned = cleanup_child_process_lem i p s running o

    gone : check_pidx (after_end i p s) (pos i) ≡ none
    gone =
        check_pidx_stopped (after_end i p s) i (ended p) (get_elem?-put i (ended p) s.processes lt)
          refl

    by_turn : (b : Bool) → race i (b ∷ not b ∷ []) (racing s 0 0) ≡ abort
    by_turn true = rw (here, cleaned) (rw gone refl)
    by_turn false = rw (here, cleaned) (rw gone refl)

-- When two threads stop the same running process, and both have checked its number and called `kill`,
-- in any order of these steps, before the first of them cleans it up, then the second clean-up, in
-- either order, fails the assertion that the process is running, and the server stops.
pub race-stop_process :
    (i : ℕ) (s : Service) (p : ProcessRunning) (turns : List Bool) (b : Bool)
    → get_elem? s.processes i ≡ some p
    → i < length s.processes
    → p.is_running ≡ true
    → IsOpen p
    → count true turns ≡ 2
    → count false turns ≡ 2
    → race i (turns ++ b ∷ not b ∷ []) (record { service = s; first = called; second = called })
      ≡ abort
race-stop_process i s p turns b at lt running o m n =
    let (t, run, same) =
      both_signalled i turns s p 2 2 at running (omega arith) (omega arith) m n in
    race-append i turns (b ∷ not b ∷ []) (racing s 2 2) (racing t 0 0) run
    ∙ both_clean i t p b (ap (λ ps. get_elem? ps i) same ∙ at) (omega (arith, lt, ap length same))
        running o
