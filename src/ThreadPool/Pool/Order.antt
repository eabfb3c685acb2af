-- ===== src/ThreadPool/Pool/Order.antt =====
-- The order in which the jobs of the pool are started.
use http_web_server_c.Base.{
  ℕ, ◌≡◌, refl, sym, ap, ◌∙◌, Option, none, some, List, [], ◌∷◌, ◌++◌, append_assoc, arith, length,
}
use http_web_server_c.ThreadPool.Queue.Refines.{
  Chain-store_next, job_enqueue-Represents, job_dequeue-Represents, Chain, Represents,
}
use mathlib.Core.Path.{subst}
use http_web_server_c.ThreadPool.Pool.{
  start_job, follow, make_job, Reaches, Worker, add_job, queued, Pool, threadpool_create, later,
  created, admit, enqueue, look, wait, wake, start, finish, return, destroy,
}
use http_web_server_c.ThreadPool.Queue.{job_dequeue, JobQueue, Heap}
use http_web_server_c.CString.Search.{Lacks}

-- A job that waits to be enqueued is not in the queue and has no next one.
abbrev pub IsFresh : Heap → List ℕ → Option ℕ → Type 0
IsFresh h xs none = Unit
IsFresh h xs (some job) = Lacks job xs × (h job ≡ none)

-- The queue holds the jobs of the list, and they are those that were added and not started.
pub record IsSound (s : Pool) (xs : List ℕ) : Type 0 where
  pub held : Represents s.heap s.job_queue xs
  pub ordered : s.started ++ xs ≡ s.added
  pub fresh : IsFresh s.heap xs s.pending

abbrev pub Sound : Pool → Type 0
Sound s = (xs : List ℕ) × IsSound s xs

follow-Chain : (h : Heap) (xs : List ℕ) (o : Option ℕ) → Chain h xs o → follow (length xs) h o ≡ xs
follow-Chain h [] o c = rw c refl
follow-Chain h (x ∷ xs) o (e, c) = rw e (ap (◌∷◌ x) (follow-Chain h xs (h x) c))

pub queued-IsSound : (s : Pool) (xs : List ℕ) → IsSound s xs → queued s ≡ xs
queued-IsSound s xs v = rw v.held.tallied (follow-Chain s.heap xs s.job_queue.front v.held.chain)

make_job-IsSound :
    (s : Pool) (job : ℕ) (xs : List ℕ)
    → Lacks job (queued s)
    → IsSound s xs
    → IsSound (make_job job s) xs
make_job-IsSound s job xs l v =
    let m : Lacks job xs = subst (Lacks job) (queued-IsSound s xs v) l in
    record {
      held = record {
        chain = Chain-store_next s.heap job none xs s.job_queue.front m v.held.chain;
        at_rear = v.held.at_rear;
        distinct = v.held.distinct;
        tallied = v.held.tallied;
      };
      ordered = v.ordered;
      fresh = (m, ground arith);
    }

add_job-IsSound :
    (s : Pool) (job : ℕ) (xs : List ℕ)
    → s.pending ≡ some job
    → IsSound s xs
    → IsSound (add_job job s) (xs ++ (job ∷ []))
add_job-IsSound s job xs p v =
    let (l, n) = subst (IsFresh s.heap xs) p v.fresh in
    record {
      held = job_enqueue-Represents s.heap s.job_queue job xs v.held l n;
      ordered = sym (append_assoc s.started xs (job ∷ [])) ∙ ap (λ ys. ys ++ (job ∷ [])) v.ordered;
      fresh = tt;
    }

IsFresh-tail :
    (h : Heap) (x : ℕ) (xs : List ℕ) (o : Option ℕ) → IsFresh h (x ∷ xs) o → IsFresh h xs o
IsFresh-tail h x xs none f = tt
IsFresh-tail h x xs (some job) ((e, l), n) = (l, n)

start_job-Sound :
    (s : Pool) (pre post : List Worker) (job : ℕ) (q : JobQueue) (xs : List ℕ)
    → job_dequeue s.heap s.job_queue ≡ some (job, q)
    → IsSound s xs
    → Sound (start_job pre post job q s)
start_job-Sound s pre post job q [] d v =
    absurd (ground (arith, d, job_dequeue-Represents s.heap s.job_queue [] v.held))
start_job-Sound s pre post job q (x ∷ xs) d v =
    let (r, e, held) = job_dequeue-Represents s.heap s.job_queue (x ∷ xs) v.held in
    let same_pair : some (job, q) ≡ some (x, r) = sym d ∙ e in
    let same_job : job ≡ x = cc in
    let same_queue : r ≡ q = cc in
    (
      xs,
      record {
        held = subst (λ u. Represents s.heap u xs) same_queue held;
        ordered = append_assoc s.started (job ∷ []) xs ∙ rw same_job v.ordered;
        fresh = IsFresh-tail s.heap x xs s.pending v.fresh;
      },
    )

pub Sound-Reaches : (h : Heap) (n : ℕ) (s : Pool) → Reaches h n s → Sound s
unfolding threadpool_create
Sound-Reaches h n _ created = (
  [],
  record {
    held = record { chain = refl; at_rear = refl; distinct = tt; tallied = refl };
    ordered = refl;
    fresh = tt;
  },
)
Sound-Reaches h n _ (later {s} r (admit job u p w l)) =
    let (xs, v) = Sound-Reaches h n s r in (xs, make_job-IsSound s job xs l v)
Sound-Reaches h n _ (later {s} r (enqueue job p)) =
    let (xs, v) = Sound-Reaches h n s r in (xs ++ (job ∷ []), add_job-IsSound s job xs p v)
Sound-Reaches h n _ (later {s} r (look pre post u w e z)) =
    let (xs, v) = Sound-Reaches h n s r in
    (xs, record { held = v.held; ordered = v.ordered; fresh = v.fresh })
Sound-Reaches h n _ (later {s} r (wait pre post w)) =
    let (xs, v) = Sound-Reaches h n s r in
    (xs, record { held = v.held; ordered = v.ordered; fresh = v.fresh })
Sound-Reaches h n _ (later {s} r (wake pre post w)) =
    let (xs, v) = Sound-Reaches h n s r in
    (xs, record { held = v.held; ordered = v.ordered; fresh = v.fresh })
Sound-Reaches h n _ (later {s} r (start pre post job q u w z d)) =
    let (xs, v) = Sound-Reaches h n s r in start_job-Sound s pre post job q xs d v
Sound-Reaches h n _ (later {s} r (finish pre post job u w)) =
    let (xs, v) = Sound-Reaches h n s r in
    (xs, record { held = v.held; ordered = v.ordered; fresh = v.fresh })
Sound-Reaches h n _ (later {s} r (return pre post u w z)) =
    let (xs, v) = Sound-Reaches h n s r in
    (xs, record { held = v.held; ordered = v.ordered; fresh = v.fresh })
Sound-Reaches h n _ (later {s} r (destroy u)) =
    let (xs, v) = Sound-Reaches h n s r in
    (xs, record { held = v.held; ordered = v.ordered; fresh = v.fresh })

-- In every state that the threads reach, whatever their interleaving, the jobs that were started, and
-- behind them those that the links of the queue lead through, are the jobs that were added, in order:
-- none is lost, started twice or overtaken. And `job_count` is the number of jobs in the queue.
pub queued-Reaches :
    (h : Heap) (n : ℕ) (s : Pool)
    → Reaches h n s
    → (s.started ++ queued s ≡ s.added) × (s.job_queue.job_count ≡ length (queued s))
queued-Reaches h n s r =
    let (xs, v) = Sound-Reaches h n s r in rw (queued-IsSound s xs v) (v.ordered, v.held.tallied)
