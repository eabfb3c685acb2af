-- ===== src/ThreadPool/Destroy/Drain.antt =====
-- What the loop at the end of `threadpool_destroy` frees.
use http_web_server_c.Base.{
  ℕ, zero, suc, ◌+◌, ◌<◌, ◌≡◌, refl, sym, ap, ◌∙◌, true, false, List, [], ◌∷◌, ◌++◌, append-nil,
  append_assoc, arith, ◌==◌, length, ok,
}
use http_web_server_c.CString.Search.{Distinct, Lacks-append, lacks, Lacks}
use http_web_server_c.ThreadPool.Pool.Order.{Sound-Reaches}
use http_web_server_c.ThreadPool.Queue.Refines.{job_dequeue-Represents, Represents}
use http_web_server_c.ThreadPool.Pool.{Reaches, Pool}
use http_web_server_c.ThreadPool.Queue.{JobQueue, Heap}
use http_web_server_c.ThreadPool.Destroy.{free_jobs, free_rest}

abbrev AllLacked : List ℕ → List ℕ → Type 0
AllLacked freed [] = Unit
AllLacked freed (x ∷ xs) = Lacks x freed × AllLacked freed xs

AllLacked-nil : (xs : List ℕ) → AllLacked [] xs
AllLacked-nil [] = tt
AllLacked-nil (x ∷ xs) = (tt, AllLacked-nil xs)

lacks-Lacks : (b : ℕ) (s : List ℕ) → Lacks b s → lacks b s ≡ true
lacks-Lacks b [] h = refl
lacks-Lacks b (c ∷ s) (e, h) = rw e (lacks-Lacks b s h)

-- One more job is freed, which the rest of the queue does not have.
AllLacked-append :
    (x : ℕ) (freed xs : List ℕ) → Lacks x xs → AllLacked freed xs → AllLacked (freed ++ (x ∷ [])) xs
AllLacked-append x freed [] d a = tt
AllLacked-append x freed (y ∷ xs) (e, d) (l, a) =
    let f : (x == y) ≡ false = ground (arith, e) in
    (Lacks-append y freed (x ∷ []) l (f, tt), AllLacked-append x freed xs d a)

free_jobs-Represents :
    (fuel : ℕ) (h : Heap) (q : JobQueue) (freed xs : List ℕ)
    → Represents h q xs
    → AllLacked freed xs
    → length xs < fuel
    → free_jobs fuel h q freed ≡ ok (freed ++ xs)
unfolding free_jobs
free_jobs-Represents zero h q freed xs v a lt = absurd (omega (arith, lt))
free_jobs-Represents (suc fuel) h q freed [] v a lt =
    let e = job_dequeue-Represents h q [] v in rw e (ap ok (sym (append-nil freed)))
free_jobs-Represents (suc fuel) h q freed (x ∷ xs) v (l, a) lt =
    let (r, e, held) = job_dequeue-Represents h q (x ∷ xs) v in
    rw (e, lacks-Lacks x freed l)
      (free_jobs-Represents fuel h r (freed ++ (x ∷ [])) xs held
          (AllLacked-append x freed xs (v.distinct.0) a) (omega (arith, lt))
        ∙ ap ok (append_assoc freed (x ∷ []) xs))

-- In every state that the steps of the pool reach, the loop at the end of `threadpool_destroy` ends and
-- frees the jobs that are still queued, each once: the jobs that were started, and behind them those
-- that are freed, are the jobs that were added, in order. That its joins come to an end is not part of
-- this.
pub free_rest-Reaches :
    (h : Heap) (n : ℕ) (s : Pool)
    → Reaches h n s
    → (freed : List ℕ) × (free_rest s ≡ ok freed) × (s.started ++ freed ≡ s.added) × Distinct freed
unfolding free_rest
free_rest-Reaches h n s r =
    let (xs, v) = Sound-Reaches h n s r in
    (
      xs,
      free_jobs-Represents (s.job_queue.job_count + 1) s.heap s.job_queue [] xs v.held
          (AllLacked-nil xs) (omega (arith, v.held.tallied)),
      v.ordered,
      v.held.distinct,
    )
