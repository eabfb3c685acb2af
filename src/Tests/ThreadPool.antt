-- ===== src/Tests/ThreadPool.antt =====
-- The job queue and the pool.
use http_web_server_c.ThreadPool.Pool.Stopping.{
  AllAwake, steps_left-Run, by_worker, AllExited, Run, steps_left, none_yet, next_step,
}
use http_web_server_c.Base.{
  ℕ, zero, suc, ◌+◌, ◌≡◌, refl, ◌⊎◌, false, none, some, List, [], ◌∷◌, ◌++◌, arith, ◌==◌, length,
  ok,
}
use http_web_server_c.ThreadPool.Pool.{
  Step, leave, make_job, Reaches, add_job, start_job, Pool, Worker, must_wait, queued,
  threadpool_create, created, later, admit, enqueue, start, running, idle, look, wait, waiting,
  found_empty, locked, move_worker, threads, destroy, return, exited, request_stop,
}
use http_web_server_c.CString.Search.{Distinct}
use http_web_server_c.ThreadPool.Destroy.Drain.{free_rest-Reaches}
use http_web_server_c.ThreadPool.Queue.Refines.{job_dequeue-Represents, Dequeued, Represents}
use http_web_server_c.ThreadPool.Destroy.{free_rest}
use http_web_server_c.ThreadPool.Pool.Limit.{must_wait-never}
use http_web_server_c.ThreadPool.Queue.{
  empty_queue, job_dequeue, job_enqueue, store_next, Heap, JobQueue,
}
use http_web_server_c.ThreadPool.Pool.Order.{queued-Reaches}

abbrev unlinked : Heap
unlinked a = none

-- 5 in front of 6.
abbrev two_jobs : JobQueue
two_jobs = record { front = some 5; rear = some 6; job_count = 2 }

abbrev linked : Heap
linked = store_next 5 (some 6) unlinked

two_jobs-Represents : Represents linked two_jobs (5 ∷ 6 ∷ [])
two_jobs-Represents = record {
  chain = (refl, (refl, refl));
  at_rear = refl;
  distinct = ((refl, tt), (tt, tt));
  tallied = refl;
}

job_dequeue-Represents_example : Dequeued linked (5 ∷ 6 ∷ []) (job_dequeue linked two_jobs)
job_dequeue-Represents_example =
    job_dequeue-Represents linked two_jobs (5 ∷ 6 ∷ []) two_jobs-Represents

-- A pool with the job 5 in its queue, and one where its first worker took it.
abbrev loaded : ℕ → Pool
loaded n = add_job 5 (make_job 5 (threadpool_create unlinked n))

abbrev busy : ℕ → List Worker → Pool
busy n others = start_job [] others 5 empty_queue (loaded n)

unlocked : (n : ℕ) → locked (threads n) ≡ false
unlocked zero = refl
unlocked (suc n) = unlocked n

loaded-Reaches : (n : ℕ) → (0 == n) ≡ false → Reaches unlinked n (loaded n)
unfolding threadpool_create
loaded-Reaches n e = later (later created (admit 5 (unlocked n) refl e tt)) (enqueue 5 refl)

busy_one-Reaches : Reaches unlinked 1 (busy 1 [])
unfolding threadpool_create job_enqueue job_dequeue
busy_one-Reaches = later (loaded-Reaches 1 refl) (start [] [] 5 empty_queue refl refl refl refl)

busy_two-Reaches : Reaches unlinked 2 (busy 2 (idle ∷ []))
unfolding threadpool_create job_enqueue job_dequeue
busy_two-Reaches =
    later (loaded-Reaches 2 refl) (start [] (idle ∷ []) 5 empty_queue refl refl refl refl)

-- The worker of a pool of one finds no job, the job 5 is enqueued and signalled, and then it waits.
abbrev lost_wakeup : Pool
lost_wakeup =
    move_worker [] [] waiting
      (add_job 5 (move_worker [] [] found_empty (make_job 5 (threadpool_create unlinked 1))))

lost_wakeup-Reaches :
    Reaches unlinked 1 lost_wakeup
    × (lost_wakeup.workers ≡ waiting ∷ [])
    × (queued lost_wakeup ≡ 5 ∷ [])
unfolding threadpool_create job_enqueue
lost_wakeup-Reaches = (
  later
      (later (later (later created (admit 5 refl refl refl tt)) (look [] [] refl refl refl refl))
        (enqueue 5 refl))
      (wait [] [] refl),
  refl,
  refl,
)

-- Both workers run, and a third job is admitted.
abbrev full : Pool
full = start_job (running 5 ∷ []) [] 6 empty_queue (add_job 6 (make_job 6 (busy 2 (idle ∷ []))))

full-Reaches : Reaches unlinked 2 full
unfolding threadpool_create job_enqueue job_dequeue
full-Reaches =
    later (later (later busy_two-Reaches (admit 6 refl refl refl tt)) (enqueue 6 refl))
      (start (running 5 ∷ []) [] 6 empty_queue refl refl refl refl)

must_wait-never_example : must_wait full ≡ false
must_wait-never_example = must_wait-never unlinked 2 full full-Reaches (omega arith)

queued-Reaches_example :
    (full.started ++ queued full ≡ full.added) × (full.job_queue.job_count ≡ length (queued full))
queued-Reaches_example = queued-Reaches unlinked 2 full full-Reaches

-- The pool in which the worker waits beside a job is destroyed, and its worker returns.
abbrev stopped_pool : Pool
stopped_pool = request_stop lost_wakeup

stopped-Reaches : Reaches unlinked 1 stopped_pool
stopped-Reaches = later (lost_wakeup-Reaches.0) (destroy refl)

one_return : Run stopped_pool 1 (leave [] [] stopped_pool)
one_return = next_step none_yet (return [] [] refl refl refl)

steps_left-Run_example :
    (1 + steps_left (exited ∷ []) ≡ steps_left (idle ∷ []))
    × AllAwake (exited ∷ [])
    × (AllExited (exited ∷ [])
        ⊎ ((t : Pool) × (x : Step (leave [] [] stopped_pool) t) × (by_worker x ≡ 1)))
steps_left-Run_example =
    steps_left-Run unlinked 1 1 stopped_pool (leave [] [] stopped_pool) stopped-Reaches refl
      one_return

free_rest-Reaches_example :
    (freed : List ℕ) × (free_rest (loaded 2) ≡ ok freed)
    × ((loaded 2).started ++ freed ≡ (loaded 2).added)
    × Distinct freed
free_rest-Reaches_example = free_rest-Reaches unlinked 2 (loaded 2) (loaded-Reaches 2 refl)
