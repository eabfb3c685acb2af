-- ===== src/ThreadPool/Queue.antt =====
-- struct job_queue of src/threadpool.h, `job_enqueue` and `job_dequeue` of src/threadpool.c, each of
-- which runs under the lock of the queue. A job is its address; the heap gives its `next`.
pub mod Refines
use http_web_server_c.Base.{
  ℕ, zero, suc, ◌+◌, ◌-◌, ◌*◌, ◌≤◌, ◌<◌, ◌≡◌, refl, sym, ap, ◌∙◌, ◌≢◌, ◌↔◌, ◌⊎◌, inl, inr, Bool,
  true, false, not, ◌&&◌, ◌||◌, Option, none, some, List, [], ◌∷◌, ◌++◌, append-nil, append_assoc,
  arith, ◌==◌, ltb, leb, if◌then◌else◌, Bool-cases, Option-cases, length, take, drop, length-append,
  drop-append, drop-append_add, take-append, Outcome, ok, fault, abort, timeout, ◌>>=◌,
}

abbrev pub Heap : Type 0
Heap = ℕ → Option ℕ

-- `job->next = n`
abbrev pub store_next : ℕ → Option ℕ → Heap → Heap
store_next job n h a = if a == job then n else h a

pub record JobQueue : Type 0 where
  pub front : Option ℕ
  pub rear : Option ℕ
  pub job_count : ℕ

abbrev pub empty_queue : JobQueue
empty_queue = record { front = none; rear = none; job_count = 0 }

abbrev pub enqueue_behind : Heap → JobQueue → ℕ → Option ℕ → Heap × JobQueue
enqueue_behind h q job none =
    (h, record { front = some job; rear = some job; job_count = q.job_count + 1 })
enqueue_behind h q job (some r) = (
  store_next r (some job) h,
  record { front = q.front; rear = some job; job_count = q.job_count + 1 },
)

unfoldable pub job_enqueue : Heap → JobQueue → ℕ → Heap × JobQueue
job_enqueue h q job = enqueue_behind h q job q.rear

-- The queue behind the removed job, whose `next` is given.
abbrev pub unlink : JobQueue → Option ℕ → JobQueue
unlink q none = record { front = none; rear = none; job_count = q.job_count - 1 }
unlink q (some n) = record { front = some n; rear = q.rear; job_count = q.job_count - 1 }

abbrev pub dequeue_front : Heap → JobQueue → Option ℕ → Option (ℕ × JobQueue)
dequeue_front h q none = none
dequeue_front h q (some job) = some (job, unlink q (h job))

-- `none` where the call waits for a job.
unfoldable pub job_dequeue : Heap → JobQueue → Option (ℕ × JobQueue)
job_dequeue h q = dequeue_front h q q.front
