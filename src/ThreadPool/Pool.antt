-- ===== src/ThreadPool/Pool.antt =====
-- struct threadpool of src/threadpool.h, and `worker_thread`, `threadpool_create`, `threadpool_add_job`
-- and `threadpool_destroy` of src/threadpool.c. One step is what a thread does while it holds the lock
-- of the pool, or the lock of the queue; the test of `worker_thread` and its `pthread_cond_wait` are two
-- steps, since `job_enqueue` and the signal behind it do not take the lock of the pool and may come
-- between them. The accept loop of src/runner.c is the only caller of
-- `threadpool_add_job`, so at most one job is between its `malloc` and its `job_enqueue`.
pub mod Order
pub mod Limit
pub mod Stopping
use http_web_server_c.Base.{
  ℕ, zero, suc, ◌+◌, ◌-◌, ◌*◌, ◌≤◌, ◌<◌, ◌≡◌, refl, sym, ap, ◌∙◌, ◌≢◌, ◌↔◌, ◌⊎◌, inl, inr, Bool,
  true, false, not, ◌&&◌, ◌||◌, Option, none, some, List, [], ◌∷◌, ◌++◌, append-nil, append_assoc,
  arith, ◌==◌, ltb, leb, if◌then◌else◌, Bool-cases, Option-cases, length, take, drop, length-append,
  drop-append, drop-append_add, take-append, Outcome, ok, fault, abort, timeout, ◌>>=◌, ℤ, pos,
  negsuc, get_elem?,
}
use http_web_server_c.ThreadPool.Queue.{
  empty_queue, job_dequeue, Heap, JobQueue, job_enqueue, store_next,
}
use http_web_server_c.CString.Search.{Lacks}

-- Where a worker is: in front of its `pthread_mutex_lock`, or woken and about to take the lock again
-- (`idle`), with the lock behind the test that found no job and no stop (`found_empty`), in
-- `pthread_cond_wait` (`waiting`), running a job outside the lock, or returned.
pub data Worker : Type 0 where
  idle : Worker
  found_empty : Worker
  waiting : Worker
  running : ℕ → Worker
  exited : Worker

-- `added` and `started` are no fields of the source: the jobs that were enqueued so far, and those
-- that workers took, in order. `pending` is the job that the call of `threadpool_add_job` holds.
pub record Pool : Type 0 where
  pub heap : Heap
  pub job_queue : JobQueue
  pub workers : List Worker
  pub max_threads : ℕ
  pub active_threads : Bool
  pub stop : Bool
  pub pending : Option ℕ
  pub added : List ℕ
  pub started : List ℕ

abbrev pub threads : ℕ → List Worker
threads zero = []
threads (suc n) = idle ∷ threads n

unfoldable pub threadpool_create : Heap → ℕ → Pool
threadpool_create h num_threads = record {
  heap = h;
  job_queue = empty_queue;
  workers = threads num_threads;
  max_threads = num_threads;
  active_threads = false;
  stop = false;
  pending = none;
  added = [];
  started = [];
}

-- `active_threads++` and `active_threads--`: the field is an `atomic_bool`, so that every value but 0
-- is stored as 1, also the -1 that comes of 0.
abbrev pub increment : Bool → Bool
increment b = true

abbrev pub decrement : Bool → Bool
decrement b = not b

abbrev pub as_int : Bool → ℕ
as_int true = 1
as_int false = 0

-- `pool->active_threads == pool->max_threads`, the condition on which `threadpool_add_job` waits
abbrev pub must_wait : Pool → Bool
must_wait s = as_int s.active_threads == s.max_threads

-- The jobs of the queue, by following the links; `job_count` many at most.
abbrev pub follow : ℕ → Heap → Option ℕ → List ℕ
follow n h none = []
follow zero h (some job) = []
follow (suc n) h (some job) = job ∷ follow n h (h job)

abbrev pub queued : Pool → List ℕ
queued s = follow s.job_queue.job_count s.heap s.job_queue.front

-- `threadpool_add_job` up to the unlock, behind its wait.
abbrev pub make_job : ℕ → Pool → Pool
make_job job s = record s { heap = store_next job none s.heap; pending = some job }

-- Its `job_enqueue`.
abbrev pub add_job : ℕ → Pool → Pool
add_job job s = record s {
  heap = (job_enqueue s.heap s.job_queue job).0;
  job_queue = (job_enqueue s.heap s.job_queue job).1;
  pending = none;
  added = s.added ++ (job ∷ []);
}

-- The first half of a round of `worker_thread`, for the worker between `pre` and `post`.
abbrev pub start_job : List Worker → List Worker → ℕ → JobQueue → Pool → Pool
start_job pre post job q s = record s {
  job_queue = q;
  active_threads = increment s.active_threads;
  workers = pre ++ running job ∷ post;
  started = s.started ++ (job ∷ []);
}

-- The second half.
abbrev pub finish_job : List Worker → List Worker → Pool → Pool
finish_job pre post s = record s {
  active_threads = decrement s.active_threads;
  workers = pre ++ idle ∷ post;
}

-- The worker between `pre` and `post` goes to another place and changes nothing else.
abbrev pub move_worker : List Worker → List Worker → Worker → Pool → Pool
move_worker pre post w s = record s { workers = pre ++ w ∷ post }

-- Whether a worker is between its test and its wait, and so holds the lock of the pool. All other
-- blocks under that lock are single steps.
abbrev pub holds_lock : Worker → Bool
holds_lock idle = false
holds_lock found_empty = true
holds_lock waiting = false
holds_lock (running job) = false
holds_lock exited = false

abbrev pub locked : List Worker → Bool
locked [] = false
locked (w ∷ ws) = holds_lock w || locked ws

abbrev pub leave : List Worker → List Worker → Pool → Pool
leave pre post s = record s { workers = pre ++ exited ∷ post }

-- `pthread_cond_broadcast`: every thread that waits is woken.
abbrev pub woken : Worker → Worker
woken idle = idle
woken found_empty = found_empty
woken waiting = idle
woken (running job) = running job
woken exited = exited

abbrev pub broadcast : List Worker → List Worker
broadcast [] = []
broadcast (w ∷ ws) = woken w ∷ broadcast ws

-- The first block of `threadpool_destroy`.
abbrev pub request_stop : Pool → Pool
request_stop s = record s { stop = true; workers = broadcast s.workers }

-- A worker that waits may be woken at any time: by the signal of `threadpool_add_job` or of another
-- worker, or, as POSIX allows, by none of them. That a signal comes is not required, so a worker may
-- also wait while there are jobs. The broadcast of `threadpool_destroy` wakes all of them.
pub data Step (s : Pool) : Pool → Type 0 where
  admit :
      (job : ℕ)
      → locked s.workers ≡ false
      → s.pending ≡ none
      → must_wait s ≡ false
      → Lacks job (queued s)
      → Step s (make_job job s)
  enqueue : (job : ℕ) → s.pending ≡ some job → Step s (add_job job s)
  look :
      (pre post : List Worker)
      → locked s.workers ≡ false
      → s.workers ≡ pre ++ idle ∷ post
      → s.job_queue.front ≡ none
      → s.stop ≡ false
      → Step s (move_worker pre post found_empty s)
  wait :
      (pre post : List Worker)
      → s.workers ≡ pre ++ found_empty ∷ post
      → Step s (move_worker pre post waiting s)
  wake :
      (pre post : List Worker)
      → s.workers ≡ pre ++ waiting ∷ post
      → Step s (move_worker pre post idle s)
  start :
      (pre post : List Worker) (job : ℕ) (q : JobQueue)
      → locked s.workers ≡ false
      → s.workers ≡ pre ++ idle ∷ post
      → s.stop ≡ false
      → job_dequeue s.heap s.job_queue ≡ some (job, q)
      → Step s (start_job pre post job q s)
  finish :
      (pre post : List Worker) (job : ℕ)
      → locked s.workers ≡ false
      → s.workers ≡ pre ++ running job ∷ post
      → Step s (finish_job pre post s)
  return :
      (pre post : List Worker)
      → locked s.workers ≡ false
      → s.workers ≡ pre ++ idle ∷ post
      → s.stop ≡ true
      → Step s (leave pre post s)
  destroy : locked s.workers ≡ false → Step s (request_stop s)

pub data Reaches (h : Heap) (n : ℕ) : Pool → Type 0 where
  created : Reaches h n (threadpool_create h n)
  later : {s t : Pool} → Reaches h n s → Step s t → Reaches h n t
