-- ===== src/ThreadPool/Pool/Stopping.antt =====
-- The workers of the pool return after the stop, so the joins of `threadpool_destroy` come to an end.
use http_web_server_c.Base.{
  ℕ, suc, ◌+◌, ◌≡◌, refl, ap, ◌⊎◌, inl, inr, true, false, List, [], ◌∷◌, ◌++◌, arith,
}
use mathlib.Core.Path.{subst}
use http_web_server_c.ThreadPool.Pool.{
  created, later, admit, enqueue, look, wait, wake, start, finish, return, destroy, Reaches, Step,
  Pool, threadpool_create, Worker, idle, found_empty, waiting, running, exited, locked, woken,
  broadcast, finish_job, leave,
}
use http_web_server_c.ThreadPool.Queue.{Heap}

-- The steps that a worker that does not wait has to make before it has returned.
abbrev pub to_make : Worker → ℕ
to_make idle = 1
to_make found_empty = 1
to_make waiting = 1
to_make (running job) = 2
to_make exited = 0

abbrev pub steps_left : List Worker → ℕ
steps_left [] = 0
steps_left (w ∷ ws) = to_make w + steps_left ws

abbrev pub AllExited : List Worker → Type 0
AllExited [] = Unit
AllExited (w ∷ ws) = (w ≡ exited) × AllExited ws

-- How many of the steps of a run are steps of workers.
abbrev pub by_worker : {s t : Pool} → Step s t → ℕ
by_worker (admit job u p w l) = 0
by_worker (enqueue job p) = 0
by_worker (look pre post u w e z) = 1
by_worker (wait pre post w) = 1
by_worker (wake pre post w) = 1
by_worker (start pre post job q u w z d) = 1
by_worker (finish pre post job u w) = 1
by_worker (return pre post u w z) = 1
by_worker (destroy u) = 0

-- Any steps of any threads, so many of them of workers.
pub data Run (s : Pool) : ℕ → Pool → Type 0 where
  none_yet : Run s 0 s
  next_step : {k : ℕ} {t u : Pool} → Run s k t → (x : Step t u) → Run s (by_worker x + k) u

-- A worker that does not wait and is not about to.
abbrev pub Awake : Worker → Type 0
Awake idle = Unit
Awake found_empty = ⊥
Awake waiting = ⊥
Awake (running job) = Unit
Awake exited = Unit

abbrev pub AllAwake : List Worker → Type 0
AllAwake [] = Unit
AllAwake (w ∷ ws) = Awake w × AllAwake ws

AllAwake-replace :
    (pre post : List Worker) (x w : Worker)
    → Awake w
    → AllAwake (pre ++ x ∷ post)
    → AllAwake (pre ++ w ∷ post)
AllAwake-replace [] post x w a (b, h) = (a, h)
AllAwake-replace (y ∷ pre) post x w a (b, h) = (b, AllAwake-replace pre post x w a h)

AllAwake-at : (pre post : List Worker) (x : Worker) → AllAwake (pre ++ x ∷ post) → Awake x
AllAwake-at [] post x (b, h) = b
AllAwake-at (y ∷ pre) post x (b, h) = AllAwake-at pre post x h

-- While no worker has the lock, the broadcast leaves none that waits.
AllAwake-broadcast : (ws : List Worker) → locked ws ≡ false → AllAwake (broadcast ws)
AllAwake-broadcast [] e = tt
AllAwake-broadcast (idle ∷ ws) e = (tt, AllAwake-broadcast ws e)
AllAwake-broadcast (found_empty ∷ ws) e = absurd (ground (arith, e))
AllAwake-broadcast (waiting ∷ ws) e = (tt, AllAwake-broadcast ws e)
AllAwake-broadcast (running job ∷ ws) e = (tt, AllAwake-broadcast ws e)
AllAwake-broadcast (exited ∷ ws) e = (tt, AllAwake-broadcast ws e)

locked-AllAwake : (ws : List Worker) → AllAwake ws → locked ws ≡ false
locked-AllAwake [] h = refl
locked-AllAwake (idle ∷ ws) (b, h) = locked-AllAwake ws h
locked-AllAwake (found_empty ∷ ws) (b, h) = absurd b
locked-AllAwake (waiting ∷ ws) (b, h) = absurd b
locked-AllAwake (running job ∷ ws) (b, h) = locked-AllAwake ws h
locked-AllAwake (exited ∷ ws) (b, h) = locked-AllAwake ws h

to_make-woken : (w : Worker) → to_make (woken w) ≡ to_make w
to_make-woken idle = refl
to_make-woken found_empty = refl
to_make-woken waiting = refl
to_make-woken (running job) = refl
to_make-woken exited = refl

steps_left-broadcast : (ws : List Worker) → steps_left (broadcast ws) ≡ steps_left ws
steps_left-broadcast [] = refl
steps_left-broadcast (w ∷ ws) = omega (arith, to_make-woken w, steps_left-broadcast ws)

steps_left-append :
    (pre post : List Worker) → steps_left (pre ++ post) ≡ steps_left pre + steps_left post
steps_left-append [] post = omega arith
steps_left-append (w ∷ pre) post = omega (arith, steps_left-append pre post)

-- A worker that has one step more to make goes on.
replaced :
    (ws pre post : List Worker) (x w : Worker)
    → ws ≡ pre ++ x ∷ post
    → to_make x ≡ suc (to_make w)
    → 1 + steps_left (pre ++ w ∷ post) ≡ steps_left ws
replaced ws pre post x w e m =
    omega (
      arith,
      ap steps_left e,
      m,
      steps_left-append pre (x ∷ post),
      steps_left-append pre (w ∷ post),
    )

-- A pool whose stop was requested and in which no worker waits.
abbrev IsStopped : Pool → Type 0
IsStopped s = (s.stop ≡ true) × AllAwake s.workers

IsStopped-Step :
    (s t : Pool) (x : Step s t)
    → IsStopped s
    → IsStopped t × (by_worker x + steps_left t.workers ≡ steps_left s.workers)
IsStopped-Step s _ (admit job u p w l) v = (v, omega arith)
IsStopped-Step s _ (enqueue job p) v = (v, omega arith)
IsStopped-Step s _ (look pre post u w e z) (on, a) = absurd (ground (arith, on, z))
IsStopped-Step s _ (wait pre post w) (on, a) =
    absurd (AllAwake-at pre post found_empty (subst AllAwake w a))
IsStopped-Step s _ (wake pre post w) (on, a) =
    absurd (AllAwake-at pre post waiting (subst AllAwake w a))
IsStopped-Step s _ (start pre post job q u w z d) (on, a) = absurd (ground (arith, on, z))
IsStopped-Step s _ (finish pre post job u w) (on, a) = (
  (on, AllAwake-replace pre post (running job) idle tt (subst AllAwake w a)),
  replaced s.workers pre post (running job) idle w refl,
)
IsStopped-Step s _ (return pre post u w z) (on, a) = (
  (on, AllAwake-replace pre post idle exited tt (subst AllAwake w a)),
  replaced s.workers pre post idle exited w refl,
)
IsStopped-Step s _ (destroy u) (on, a) =
    ((refl, AllAwake-broadcast s.workers u), omega (arith, steps_left-broadcast s.workers))

IsStopped-Reaches : (h : Heap) (n : ℕ) (s : Pool) → Reaches h n s → s.stop ≡ true → IsStopped s
unfolding threadpool_create
IsStopped-Reaches h n _ created e = absurd (ground (arith, e))
IsStopped-Reaches h n _ (later {s} r (destroy u)) e = (refl, AllAwake-broadcast s.workers u)
IsStopped-Reaches h n _ (later {s} r (admit job u p w l)) e = IsStopped-Reaches h n s r e
IsStopped-Reaches h n _ (later {s} r (enqueue job p)) e = IsStopped-Reaches h n s r e
IsStopped-Reaches h n _ (later {s} r (look pre post u w f z)) e = absurd (ground (arith, e, z))
IsStopped-Reaches h n _ (later {s} r (start pre post job q u w z d)) e =
    absurd (ground (arith, e, z))
IsStopped-Reaches h n _ (later {s} {t} r (wait pre post w)) e =
    (IsStopped-Step s t (wait pre post w) (IsStopped-Reaches h n s r e)).0
IsStopped-Reaches h n _ (later {s} {t} r (wake pre post w)) e =
    (IsStopped-Step s t (wake pre post w) (IsStopped-Reaches h n s r e)).0
IsStopped-Reaches h n _ (later {s} {t} r (finish pre post job u w)) e =
    (IsStopped-Step s t (finish pre post job u w) (IsStopped-Reaches h n s r e)).0
IsStopped-Reaches h n _ (later {s} {t} r (return pre post u w z)) e =
    (IsStopped-Step s t (return pre post u w z) (IsStopped-Reaches h n s r e)).0

IsStopped-Run :
    (s : Pool) (k : ℕ) (u : Pool)
    → IsStopped s
    → Run s k u
    → IsStopped u × (k + steps_left u.workers ≡ steps_left s.workers)
IsStopped-Run s _ _ v none_yet = (v, omega arith)
IsStopped-Run s _ u v (next_step {k} {t} r x) =
    let (c, e) = IsStopped-Run s k t v r in
    let (d, f) = IsStopped-Step t u x c in (d, omega (arith, e, f))

-- A worker that runs a job, one in front of the lock, or all have returned.
some_worker :
    (ws : List Worker)
    → AllAwake ws
    → AllExited ws
      ⊎ (((pre post : List Worker) × (job : ℕ) × (ws ≡ pre ++ running job ∷ post))
          ⊎ ((pre post : List Worker) × (ws ≡ pre ++ idle ∷ post)))
some_worker [] a = inl tt
some_worker (idle ∷ ws) a = inr (inr ([], ws, refl))
some_worker (found_empty ∷ ws) (b, a) = absurd b
some_worker (waiting ∷ ws) (b, a) = absurd b
some_worker (running job ∷ ws) a = inr (inl ([], ws, job, refl))
some_worker (exited ∷ ws) (b, a) = elim (some_worker ws a) [
  | inl all ↦ inl (refl, all)
  | inr (inl (pre, post, job, e)) ↦ inr (inl (exited ∷ pre, post, job, ap (λ l. exited ∷ l) e))
  | inr (inr (pre, post, e)) ↦ inr (inr (exited ∷ pre, post, ap (λ l. exited ∷ l) e))
]

worker_step :
    (s : Pool)
    → IsStopped s
    → AllExited s.workers ⊎ ((t : Pool) × (x : Step s t) × (by_worker x ≡ 1))
worker_step s (on, a) =
    let free = locked-AllAwake s.workers a in
    elim (some_worker s.workers a) [
      | inl all ↦ inl all
      | inr (inl (pre, post, job, e)) ↦
          inr (finish_job pre post s, finish pre post job free e, refl)
      | inr (inr (pre, post, e)) ↦ inr (leave pre post s, return pre post free e on, refl)
    ]

-- After the stop of the pool was requested, the workers all return if the jobs do, whatever the threads
-- do in between: after any steps of any threads, k of them of workers, exactly k of the `steps_left`
-- are made, of which a running worker has two and another that has not returned one; and either some
-- worker can make a step, or all have returned, which the joins of `threadpool_destroy` wait for. No
-- worker waits then, or is about to.
pub steps_left-Run :
    (h : Heap) (n k : ℕ) (s u : Pool)
    → Reaches h n s
    → s.stop ≡ true
    → Run s k u
    → (k + steps_left u.workers ≡ steps_left s.workers)
      × AllAwake u.workers
      × (AllExited u.workers ⊎ ((t : Pool) × (x : Step u t) × (by_worker x ≡ 1)))
steps_left-Run h n k s u r on run =
    let (v, e) = IsStopped-Run s k u (IsStopped-Reaches h n s r on) run in (e, v.1, worker_step u v)
