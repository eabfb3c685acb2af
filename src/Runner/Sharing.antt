-- ===== src/Runner/Sharing.antt =====
-- How the threads share the read buffers of src/runner.c: the loop of `handle_http_request` that claims
-- a buffer with one compare-and-exchange after another, and its release at the end. One step is one
-- atomic operation on `buffer_used`.
pub mod Counts
pub mod Claims
use http_web_server_c.Base.{
  ℕ, zero, suc, ◌+◌, ◌-◌, ◌*◌, ◌≤◌, ◌<◌, ◌≡◌, refl, sym, ap, ◌∙◌, ◌≢◌, ◌↔◌, ◌⊎◌, inl, inr, Bool,
  true, false, not, ◌&&◌, ◌||◌, Option, none, some, List, [], ◌∷◌, ◌++◌, append-nil, append_assoc,
  arith, ◌==◌, ltb, leb, if◌then◌else◌, Bool-cases, Option-cases, length, take, drop, length-append,
  drop-append, drop-append_add, take-append, Outcome, ok, fault, abort, timeout, ◌>>=◌, ℤ, pos,
  negsuc, get_elem?,
}

-- Where a thread is: outside, in the loop at a value of `i`, or behind it with `buffer_idx`.
pub data Place : Type 0 where
  outside : Place
  trying holding : ℕ → Place

-- `buffer_used`, and the threads of the pool.
pub record Shared : Type 0 where
  pub buffer_used : List Bool
  pub places : List Place

abbrev pub set_used : ℕ → Bool → List Bool → List Bool
set_used i b [] = []
set_used zero b (c ∷ cs) = b ∷ cs
set_used (suc i) b (c ∷ cs) = c ∷ set_used i b cs

abbrev pub unused : ℕ → List Bool
unused zero = []
unused (suc n) = false ∷ unused n

abbrev pub all_outside : ℕ → List Place
all_outside zero = []
all_outside (suc n) = outside ∷ all_outside n

-- `max_threads` threads, and as many buffers.
abbrev pub shared : ℕ → Shared
shared n = record { buffer_used = unused n; places = all_outside n }

abbrev pub moved : List Place → Place → List Place → List Bool → Shared
moved pre p post used = record { buffer_used = used; places = pre ++ p ∷ post }

pub data Turn (s : Shared) : Shared → Type 0 where
  enter :
      (pre post : List Place)
      → s.places ≡ pre ++ outside ∷ post
      → Turn s (moved pre (trying 0) post s.buffer_used)
  pass :
      (pre post : List Place) (i : ℕ)
      → s.places ≡ pre ++ trying i ∷ post
      → get_elem? s.buffer_used i ≡ some true
      → Turn s (moved pre (trying (i + 1)) post s.buffer_used)
  take_buffer :
      (pre post : List Place) (i : ℕ)
      → s.places ≡ pre ++ trying i ∷ post
      → get_elem? s.buffer_used i ≡ some false
      → Turn s (moved pre (holding i) post (set_used i true s.buffer_used))
  release :
      (pre post : List Place) (i : ℕ)
      → s.places ≡ pre ++ holding i ∷ post
      → Turn s (moved pre outside post (set_used i false s.buffer_used))

pub data Shares (n : ℕ) : Shared → Type 0 where
  fresh_start : Shares n (shared n)
  next_turn : {s t : Shared} → Shares n s → Turn s t → Shares n t
