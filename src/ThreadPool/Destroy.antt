-- ===== src/ThreadPool/Destroy.antt =====
-- The loop at the end of `threadpool_destroy` of src/threadpool.c, behind its joins: it frees the jobs
-- that are still in the queue.
pub mod Drain
use http_web_server_c.Base.{
  ℕ, zero, suc, ◌+◌, ◌-◌, ◌*◌, ◌≤◌, ◌<◌, ◌≡◌, refl, sym, ap, ◌∙◌, ◌≢◌, ◌↔◌, ◌⊎◌, inl, inr, Bool,
  true, false, not, ◌&&◌, ◌||◌, Option, none, some, List, [], ◌∷◌, ◌++◌, append-nil, append_assoc,
  arith, ◌==◌, ltb, leb, if◌then◌else◌, Bool-cases, Option-cases, length, take, drop, length-append,
  drop-append, drop-append_add, take-append, Outcome, ok, fault, abort, timeout, ◌>>=◌, ℤ, pos,
  negsuc, get_elem?,
}
use http_web_server_c.ThreadPool.Queue.{Heap, JobQueue, job_dequeue}
use http_web_server_c.ThreadPool.Pool.{Pool}
use http_web_server_c.CString.Search.{lacks}

-- `while (front != NULL) { job = job_dequeue(queue); free(job); }` with the jobs that were freed; a job
-- that is freed already would be read and freed again.
abbrev pub free_front :
    (JobQueue → List ℕ → Outcome (List ℕ))
    → Heap
    → JobQueue
    → List ℕ
    → Option (ℕ × JobQueue)
    → Outcome (List ℕ)
free_front go h q freed none = ok freed
free_front go h q freed (some (job, q')) =
    if lacks job freed then go q' (freed ++ (job ∷ [])) else fault

unfoldable pub free_jobs : ℕ → Heap → JobQueue → List ℕ → Outcome (List ℕ)
unfolding job_dequeue
free_jobs zero h q freed = timeout
free_jobs (suc fuel) h q freed = free_front (free_jobs fuel h) h q freed (job_dequeue h q)

-- The jobs that are freed. No job is dequeued twice, so that one round more than `job_count` is enough.
unfoldable pub free_rest : Pool → Outcome (List ℕ)
unfolding free_jobs
free_rest s = free_jobs (s.job_queue.job_count + 1) s.heap s.job_queue []
