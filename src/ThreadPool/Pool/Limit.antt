-- ===== src/ThreadPool/Pool/Limit.antt =====
-- When `threadpool_add_job` waits.
use http_web_server_c.ThreadPool.Pool.{
  broadcast, woken, later, created, admit, enqueue, look, wait, wake, start, finish, return,
  destroy, Worker, idle, found_empty, waiting, running, exited, must_wait, Reaches, Pool, as_int,
  threadpool_create,
}
use http_web_server_c.Base.{
  ℕ, ◌≤◌, ◌≡◌, refl, sym, ap, ◌∙◌, Bool, true, false, not, ◌||◌, List, [], ◌∷◌, ◌++◌, arith, ◌==◌,
}
use http_web_server_c.ThreadPool.Queue.{Heap}

-- The limit is the number of threads that the pool was created with.
max_threads-Reaches : (h : Heap) (n : ℕ) (s : Pool) → Reaches h n s → s.max_threads ≡ n
unfolding threadpool_create
max_threads-Reaches h n _ created = refl
max_threads-Reaches h n _ (later r (admit job u p w l)) = max_threads-Reaches h n _ r
max_threads-Reaches h n _ (later r (enqueue job p)) = max_threads-Reaches h n _ r
max_threads-Reaches h n _ (later r (look pre post u w e z)) = max_threads-Reaches h n _ r
max_threads-Reaches h n _ (later r (wait pre post w)) = max_threads-Reaches h n _ r
max_threads-Reaches h n _ (later r (wake pre post w)) = max_threads-Reaches h n _ r
max_threads-Reaches h n _ (later r (start pre post job q u w z d)) = max_threads-Reaches h n _ r
max_threads-Reaches h n _ (later r (finish pre post job u w)) = max_threads-Reaches h n _ r
max_threads-Reaches h n _ (later r (return pre post u w z)) = max_threads-Reaches h n _ r
max_threads-Reaches h n _ (later r (destroy u)) = max_threads-Reaches h n _ r

as_int-le : (b : Bool) → as_int b ≤ 1
as_int-le true = omega arith
as_int-le false = omega arith

-- In a pool of two or more threads `threadpool_add_job` never waits, however many of them are running:
-- the count of active threads is kept in a Boolean.
pub must_wait-never : (h : Heap) (n : ℕ) (s : Pool) → Reaches h n s → 2 ≤ n → must_wait s ≡ false
must_wait-never h n s r two =
    ground (arith, max_threads-Reaches h n s r, as_int-le s.active_threads)

abbrev pub is_running : Worker → Bool
is_running idle = false
is_running found_empty = false
is_running waiting = false
is_running (running job) = true
is_running exited = false

-- Whether some worker runs a job.
abbrev pub some_running : List Worker → Bool
some_running [] = false
some_running (w ∷ ws) = is_running w || some_running ws

only_one :
    (pre post : List Worker) (x w : Worker)
    → w ∷ [] ≡ pre ++ x ∷ post
    → (pre ≡ []) × (post ≡ []) × (w ≡ x)
only_one [] post x w e = (refl, cc, cc)
only_one (p ∷ []) post x w e = absurd (ground (arith, e))
only_one (p ∷ q ∷ pre) post x w e = absurd (ground (arith, e))

-- A pool of one worker, whose flag says whether it runs.
record IsSingle (s : Pool) : Type 0 where
  worker : Worker
  alone : s.workers ≡ worker ∷ []
  flagged : s.active_threads ≡ is_running worker

-- The worker of a pool of one, which `e` finds between `pre` and `post`, becomes `y`.
replaced :
    (s : Pool) (pre post : List Worker) (x y : Worker)
    → IsSingle s
    → s.workers ≡ pre ++ x ∷ post
    → (pre ++ y ∷ post ≡ y ∷ []) × (s.active_threads ≡ is_running x)
replaced s pre post x y v e =
    let (a, b, c) = only_one pre post x v.worker (sym v.alone ∙ e) in
    (rw (a, b) refl, v.flagged ∙ ap is_running c)

is_running-woken : (w : Worker) → is_running (woken w) ≡ is_running w
is_running-woken idle = refl
is_running-woken found_empty = refl
is_running-woken waiting = refl
is_running-woken (running job) = refl
is_running-woken exited = refl

IsSingle-Reaches : (h : Heap) (s : Pool) → Reaches h 1 s → IsSingle s
unfolding threadpool_create
IsSingle-Reaches h _ created = record { worker = idle; alone = refl; flagged = refl }
IsSingle-Reaches h _ (later r (admit job u p w l)) =
    let v = IsSingle-Reaches h _ r in
    record { worker = v.worker; alone = v.alone; flagged = v.flagged }
IsSingle-Reaches h _ (later r (enqueue job p)) =
    let v = IsSingle-Reaches h _ r in
    record { worker = v.worker; alone = v.alone; flagged = v.flagged }
IsSingle-Reaches h _ (later {s} r (look pre post u w q z)) =
    let (e, f) = replaced s pre post idle found_empty (IsSingle-Reaches h s r) w in
    record { worker = found_empty; alone = e; flagged = f }
IsSingle-Reaches h _ (later {s} r (wait pre post w)) =
    let (e, f) = replaced s pre post found_empty waiting (IsSingle-Reaches h s r) w in
    record { worker = waiting; alone = e; flagged = f }
IsSingle-Reaches h _ (later {s} r (wake pre post w)) =
    let (e, f) = replaced s pre post waiting idle (IsSingle-Reaches h s r) w in
    record { worker = idle; alone = e; flagged = f }
IsSingle-Reaches h _ (later {s} r (start pre post job q u w z d)) =
    let (e, f) = replaced s pre post idle (running job) (IsSingle-Reaches h s r) w in
    record { worker = running job; alone = e; flagged = refl }
IsSingle-Reaches h _ (later {s} r (finish pre post job u w)) =
    let (e, f) = replaced s pre post (running job) idle (IsSingle-Reaches h s r) w in
    record { worker = idle; alone = e; flagged = ap not f }
IsSingle-Reaches h _ (later {s} r (return pre post u w z)) =
    let (e, f) = replaced s pre post idle exited (IsSingle-Reaches h s r) w in
    record { worker = exited; alone = e; flagged = f }
IsSingle-Reaches h _ (later r (destroy u)) =
    let v = IsSingle-Reaches h _ r in
    record {
      worker = woken v.worker;
      alone = ap broadcast v.alone;
      flagged = v.flagged ∙ sym (is_running-woken v.worker);
    }

-- In a pool of one thread `threadpool_add_job` waits exactly while that thread runs a job.
pub must_wait-one : (h : Heap) (s : Pool) → Reaches h 1 s → must_wait s ≡ some_running s.workers
must_wait-one h s r =
    let v = IsSingle-Reaches h s r in
    rw (max_threads-Reaches h 1 s r, v.alone, v.flagged) (by_worker v.worker)
  where
    by_worker : (w : Worker) → (as_int (is_running w) == 1) ≡ (is_running w || false)
    by_worker idle = refl
    by_worker found_empty = refl
    by_worker waiting = refl
    by_worker (running job) = refl
    by_worker exited = refl
