-- ===== src/ThreadPool/Queue/Refines.antt =====
-- The job queue as a list of jobs, first in, first out.
use http_web_server_c.CString.Search.{Distinct, Lacks-append, Lacks}
use http_web_server_c.Base.{
  ℕ, ◌+◌, ◌≡◌, refl, sym, ap, false, Option, none, some, List, [], ◌∷◌, ◌++◌, arith, ◌==◌, length,
  length-append,
}
use http_web_server_c.ThreadPool.Queue.{
  dequeue_front, enqueue_behind, job_dequeue, job_enqueue, unlink, JobQueue, store_next, Heap,
}

-- From `o` on, the links of the heap run through the jobs of the list and end.
abbrev pub Chain : Heap → List ℕ → Option ℕ → Type 0
Chain h [] o = o ≡ none
Chain h (x ∷ xs) o = (o ≡ some x) × Chain h xs (h x)

abbrev pub last_of : List ℕ → Option ℕ
last_of [] = none
last_of (x ∷ []) = some x
last_of (x ∷ y ∷ xs) = last_of (y ∷ xs)

-- The queue in the heap holds the jobs of the list, each once, in this order.
pub record Represents (h : Heap) (q : JobQueue) (xs : List ℕ) : Type 0 where
  pub chain : Chain h xs q.front
  pub at_rear : q.rear ≡ last_of xs
  pub distinct : Distinct xs
  pub tallied : q.job_count ≡ length xs

-- A chain does not see a store to a job outside it.
pub Chain-store_next :
    (h : Heap) (job : ℕ) (n : Option ℕ) (xs : List ℕ) (o : Option ℕ)
    → Lacks job xs
    → Chain h xs o
    → Chain (store_next job n h) xs o
Chain-store_next h job n [] o l c = c
Chain-store_next h job n (x ∷ xs) o (e, l) (f, c) =
    (f, rw e (Chain-store_next h job n xs (h x) l c))

last_of-Lacks : (x r : ℕ) (xs : List ℕ) → Lacks x xs → last_of xs ≡ some r → (x == r) ≡ false
last_of-Lacks x r [] l e = ground arith
last_of-Lacks x r (y ∷ []) (n, l) e = ground arith
last_of-Lacks x r (y ∷ z ∷ xs) (n, l) e = last_of-Lacks x r (z ∷ xs) l e

-- Linking a new job behind the last one makes the chain longer by it.
Chain-link :
    (h : Heap) (job r : ℕ) (xs : List ℕ) (o : Option ℕ)
    → last_of xs ≡ some r
    → Distinct xs
    → Lacks job xs
    → h job ≡ none
    → Chain h xs o
    → Chain (store_next r (some job) h) (xs ++ (job ∷ [])) o
Chain-link h job r [] o e d l n c = absurd (ground arith)
Chain-link h job r (x ∷ []) o e d (m, l) n (f, c) = (f, (ground arith, ground arith))
Chain-link h job r (x ∷ y ∷ xs) o e (dx, d) (m, l) n (f, c) =
    let apart : (x == r) ≡ false = last_of-Lacks x r (y ∷ xs) dx e in
    (f, rw apart (Chain-link h job r (y ∷ xs) (h x) e d l n c))

last_of-some : (x : ℕ) (xs : List ℕ) → (r : ℕ) × (last_of (x ∷ xs) ≡ some r)
last_of-some x [] = (x, refl)
last_of-some x (y ∷ xs) = last_of-some y xs

last_of-snoc : (xs : List ℕ) (job : ℕ) → last_of (xs ++ (job ∷ [])) ≡ some job
last_of-snoc [] job = refl
last_of-snoc (x ∷ []) job = refl
last_of-snoc (x ∷ y ∷ xs) job = last_of-snoc (y ∷ xs) job

Distinct-snoc : (xs : List ℕ) (job : ℕ) → Distinct xs → Lacks job xs → Distinct (xs ++ (job ∷ []))
Distinct-snoc [] job d l = (tt, tt)
Distinct-snoc (x ∷ xs) job (n, d) (m, l) =
    (Lacks-append x xs (job ∷ []) n (ground arith, tt), Distinct-snoc xs job d l)

enqueue_behind-Represents :
    (h : Heap) (q : JobQueue) (job : ℕ) (xs : List ℕ)
    → Represents h q xs
    → Lacks job xs
    → h job ≡ none
    → Represents
        (enqueue_behind h q job (last_of xs)).0
        (enqueue_behind h q job (last_of xs)).1
        (xs ++ (job ∷ []))
enqueue_behind-Represents h q job [] v l n = record {
  chain = (refl, n);
  at_rear = refl;
  distinct = (tt, tt);
  tallied = ap (λ m. m + 1) v.tallied;
}
enqueue_behind-Represents h q job (x ∷ xs) v l n =
    let (r, e) = last_of-some x xs in
    rw e (record {
      chain = Chain-link h job r (x ∷ xs) q.front e v.distinct l n v.chain;
      at_rear = sym (last_of-snoc (x ∷ xs) job);
      distinct = Distinct-snoc (x ∷ xs) job v.distinct l;
      tallied = omega (arith, v.tallied, length-append (x ∷ xs) (job ∷ []));
    })

-- Enqueueing a job that is not in the queue and has no next one puts it behind the others.
pub job_enqueue-Represents :
    (h : Heap) (q : JobQueue) (job : ℕ) (xs : List ℕ)
    → Represents h q xs
    → Lacks job xs
    → h job ≡ none
    → Represents (job_enqueue h q job).0 (job_enqueue h q job).1 (xs ++ (job ∷ []))
unfolding job_enqueue
job_enqueue-Represents h q job xs v l n = rw v.at_rear (enqueue_behind-Represents h q job xs v l n)

-- What taking a job from a queue that holds the list returns.
abbrev pub Dequeued : Heap → List ℕ → Option (ℕ × JobQueue) → Type 0
Dequeued h [] r = r ≡ none
Dequeued h (x ∷ xs) r = (q : JobQueue) × (r ≡ some (x, q)) × Represents h q xs

unlink-Represents :
    (h : Heap) (q : JobQueue) (x : ℕ) (xs : List ℕ)
    → Represents h q (x ∷ xs)
    → Represents h (unlink q (h x)) xs
unlink-Represents h q x [] v =
    rw (v.chain.1)
      (record { chain = refl; at_rear = refl; distinct = tt; tallied = omega (arith, v.tallied) })
unlink-Represents h q x (y ∷ xs) v = rw (v.chain.1.0) (record {
  chain = (refl, v.chain.1.1);
  at_rear = v.at_rear;
  distinct = v.distinct.1;
  tallied = omega (arith, v.tallied);
})

-- Taking a job from a queue returns the first one and leaves the others in their order; it waits
-- exactly where the queue is empty.
pub job_dequeue-Represents :
    (h : Heap) (q : JobQueue) (xs : List ℕ) → Represents h q xs → Dequeued h xs (job_dequeue h q)
unfolding job_dequeue
job_dequeue-Represents h q [] v = ap (dequeue_front h q) v.chain
job_dequeue-Represents h q (x ∷ xs) v =
    (unlink q (h x), ap (dequeue_front h q) v.chain.0, unlink-Represents h q x xs v)
