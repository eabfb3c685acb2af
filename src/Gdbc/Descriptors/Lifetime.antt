-- ===== src/Gdbc/Descriptors/Lifetime.antt =====
-- Which descriptors a process of the service leaves open.
use http_web_server_c.Base.{
  ℕ, ◌<◌, ◌≡◌, refl, sym, ap, ◌∙◌, ◌⊎◌, inl, inr, true, false, ◌&&◌, ◌||◌, none, some, [], ◌∷◌,
  arith, ◌==◌, if◌then◌else◌, Bool-cases,
}
use http_web_server_c.Gdbc.Descriptors.{
  kept_open, close, parent_files, Flags, PipeAnswers, build_files, set_fd_cloexec, opened, execv,
  child_files, close_pipes, pipe, PipeEnds, Files, from_child_pipe, to_child_pipe, reads, writes,
}
use http_web_server_c.CString.Search.{Distinct}

-- `pipe` gives four different numbers that are not open, other than the standard ones.
pub record IsFresh (f t : PipeEnds) (files : Files) : Type 0 where
  pub distinct : Distinct (0 ∷ 1 ∷ 2 ∷ f.read_end ∷ f.write_end ∷ t.read_end ∷ t.write_end ∷ [])
  pub from_read : files f.read_end ≡ none
  pub from_write : files f.write_end ≡ none
  pub to_read : files t.read_end ≡ none
  pub to_write : files t.write_end ≡ none

abbrev pub both_pipes : PipeEnds → PipeEnds → Files → Files
both_pipes f t files = pipe to_child_pipe t (pipe from_child_pipe f files)

closed_at : (files : Files) (fd k : ℕ) → (k == fd) ≡ true → files fd ≡ none → files k ≡ none
closed_at files fd k same e = let i : k ≡ fd = ground (arith, same) in rw i e

-- Descriptors that are one of four that were closed, and the others.
one_of :
    (P : Type 0) (files : Files) (a b c d k : ℕ)
    → (files a ≡ none) × (files b ≡ none) × (files c ≡ none) × (files d ≡ none)
    → (((k == a) ≡ false) → ((k == b) ≡ false) → ((k == c) ≡ false) → ((k == d) ≡ false) → P)
    → ((files k ≡ none) × (((k == a) || ((k == b) || ((k == c) || (k == d)))) ≡ true)) ⊎ P
one_of P files a b c d k (ea, eb, ec, ed) h = elim (Bool-cases (k == a)) [
  | inl s ↦ inl (closed_at files a k s ea, rw s refl)
  | inr na ↦ elim (Bool-cases (k == b)) [
    | inl s ↦ inl (closed_at files b k s eb, rw (na, s) refl)
    | inr nb ↦ elim (Bool-cases (k == c)) [
      | inl s ↦ inl (closed_at files c k s ec, rw (na, nb, s) refl)
      | inr nc ↦ elim (Bool-cases (k == d)) [
        | inl s ↦ inl (closed_at files d k s ed, rw (na, nb, nc, s) refl)
        | inr nd ↦ inr (h na nb nc nd)
      ]
    ]
  ]
]

-- The whole of the four ends is closed, and the other descriptors are what they were.
restored :
    (files after : Files) (a b c d k : ℕ)
    → (files a ≡ none) × (files b ≡ none) × (files c ≡ none) × (files d ≡ none)
    → (((k == a) || ((k == b) || ((k == c) || (k == d)))) ≡ true → after k ≡ none)
    → (((k == a) ≡ false)
        → ((k == b) ≡ false)
        → ((k == c) ≡ false)
        → ((k == d) ≡ false)
        → after k ≡ files k)
    → after k ≡ files k
restored files after a b c d k e h g = elim (one_of (after k ≡ files k) files a b c d k e g) [
  | inl (gone, one) ↦ h one ∙ sym gone
  | inr same ↦ same
]

module _ (f t : PipeEnds) (files : Files) (v : IsFresh f t files) where
  abbrev EndsClosed : Type 0
  EndsClosed =
      (files t.write_end ≡ none)
      × (files t.read_end ≡ none)
      × (files f.write_end ≡ none)
      × (files f.read_end ≡ none)

  were_closed : EndsClosed
  were_closed = (v.to_write, v.to_read, v.from_write, v.from_read)

  all_closed : (k : ℕ) → close_pipes (some f) (some t) (both_pipes f t files) k ≡ files k
  all_closed k =
      restored files (close_pipes (some f) (some t) (both_pipes f t files)) t.write_end t.read_end
        f.write_end f.read_end k were_closed (λ one. ground (arith, one))
        (λ a b c d. ground (arith, a, b, c, d))

  first_closed : (k : ℕ) → close_pipes (some f) none (pipe from_child_pipe f files) k ≡ files k
  first_closed k =
      restored files (close_pipes (some f) none (pipe from_child_pipe f files)) f.write_end
        f.read_end f.write_end f.read_end k (v.from_write, v.from_read, v.from_write, v.from_read)
        (λ one. ground (arith, one)) (λ a b c d. ground (arith, a, b))

  child_in : execv (child_files f t (both_pipes f t files)) 0 ≡ opened (reads to_child_pipe)
  unfolding child_files
  child_in = ground (arith, v.distinct)

  child_out : execv (child_files f t (both_pipes f t files)) 1 ≡ opened (writes from_child_pipe)
  unfolding child_files
  child_out = ground (arith, v.distinct)

  child_error : execv (child_files f t (both_pipes f t files)) 2 ≡ opened (writes from_child_pipe)
  unfolding child_files
  child_error = ground (arith, v.distinct)

  child_others : (k : ℕ) → 2 < k → child_files f t (both_pipes f t files) k ≡ files k
  unfolding child_files
  child_others k lt =
      restored files (child_files f t (both_pipes f t files)) t.write_end t.read_end f.write_end
        f.read_end k were_closed (λ one. ground (arith, one, lt))
        (λ a b c d. ground (arith, a, b, c, d, lt))

  closed_later :
      (to_flags from_flags : Flags) (k : ℕ)
      → close f.read_end
          (close t.write_end (parent_files to_flags from_flags f t (both_pipes f t files)))
          k
        ≡ files k
  unfolding set_fd_cloexec
  closed_later to_flags from_flags k =
      restored files
        (close f.read_end
          (close t.write_end (parent_files to_flags from_flags f t (both_pipes f t files))))
        t.write_end t.read_end f.write_end f.read_end k were_closed (λ one. ground (arith, one))
        (λ a b c d. ground (arith, a, b, c, d))

  parent_writes :
      (to_flags from_flags : Flags)
      → parent_files to_flags from_flags f t (both_pipes f t files) t.write_end ≡ (
          if to_flags.get_succeeds && to_flags.set_succeeds
          then some (record { target = writes to_child_pipe; cloexec = true })
          else none)
  unfolding set_fd_cloexec
  parent_writes to_flags from_flags = ground (arith, v.distinct)

  parent_reads :
      (to_flags from_flags : Flags)
      → parent_files to_flags from_flags f t (both_pipes f t files) f.read_end ≡ (
          if from_flags.get_succeeds && from_flags.set_succeeds
          then some (record { target = reads from_child_pipe; cloexec = true })
          else none)
  unfolding set_fd_cloexec
  parent_reads to_flags from_flags = ground (arith, v.distinct)

-- When both pipes and the fork succeed, and the pipes got four different numbers that were closed and
-- are not 0, 1 or 2: the program of the child has the pipe to it as its standard input and the pipe
-- from it as its standard output and error, and every other descriptor as if there had been no pipe.
-- The server has the other two ends, marked as closed on `execv`, or not at all where marking failed;
-- and once it closes them, every descriptor, also 0, 1 and 2, is what it was before.
pub build_files-execv :
    (a : PipeAnswers) (f t : PipeEnds) (files : Files) (k j : ℕ)
    → a.from_child ≡ some f
    → a.to_child ≡ some t
    → a.forks ≡ true
    → IsFresh f t files
    → 2 < k
    → (execv (child_files f t (both_pipes f t files)) 0 ≡ opened (reads to_child_pipe))
      × (execv (child_files f t (both_pipes f t files)) 1 ≡ opened (writes from_child_pipe))
      × (execv (child_files f t (both_pipes f t files)) 2 ≡ opened (writes from_child_pipe))
      × (execv (child_files f t (both_pipes f t files)) k ≡ execv files k)
      × (build_files a files t.write_end ≡ (
          if a.to_flags.get_succeeds && a.to_flags.set_succeeds
          then some (record { target = writes to_child_pipe; cloexec = true })
          else none))
      × (build_files a files f.read_end ≡ (
          if a.from_flags.get_succeeds && a.from_flags.set_succeeds
          then some (record { target = reads from_child_pipe; cloexec = true })
          else none))
      × (close f.read_end (close t.write_end (build_files a files)) j ≡ files j)
unfolding build_files
build_files-execv a f t files k j ef et forks v lt = (
  child_in f t files v,
  child_out f t files v,
  child_error f t files v,
  ap kept_open (child_others f t files v k lt),
  rw (ef, et, forks) (parent_writes f t files v a.to_flags a.from_flags),
  rw (ef, et, forks) (parent_reads f t files v a.to_flags a.from_flags),
  rw (ef, et, forks) (closed_later f t files v a.to_flags a.from_flags j),
)

-- Where a pipe or the fork fails, everything that was opened is closed again: each descriptor is what
-- it was before. `f` and `t` are the numbers that the pipes get, where they get any.
pub build_files_failed :
    (a : PipeAnswers) (f t : PipeEnds) (files : Files) (k : ℕ)
    → IsFresh f t files
    → (a.from_child ≡ none)
      ⊎ ((a.from_child ≡ some f)
          × ((a.to_child ≡ none) ⊎ ((a.to_child ≡ some t) × (a.forks ≡ false))))
    → build_files a files k ≡ files k
unfolding build_files
build_files_failed a f t files k v (inl ef) = rw ef refl
build_files_failed a f t files k v (inr (ef, inl et)) = rw (ef, et) (first_closed f t files v k)
build_files_failed a f t files k v (inr (ef, inr (et, forks))) =
    rw (ef, et, forks) (all_closed f t files v k)
