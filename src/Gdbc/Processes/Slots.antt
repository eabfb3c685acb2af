-- ===== src/Gdbc/Processes/Slots.antt =====
-- The slots of the table of processes.
use http_web_server_c.Base.{
  ℕ, zero, suc, ◌<◌, ◌≡◌, refl, sym, ap, ◌∙◌, ◌≢◌, ◌⊎◌, inl, inr, true, false, none, some, List, [],
  ◌∷◌, arith, Bool-cases, Option-cases, length, ℤ, pos, negsuc, get_elem?,
}
use http_web_server_c.Gdbc.Processes.{
  Service, put, FilePath, ProcessRunning, check_pidx, null, freed, path,
}
use mathlib.Core.Path.{subst}

pub get_elem?-put :
    (i : ℕ) (p : ProcessRunning) (ps : List ProcessRunning)
    → i < length ps
    → get_elem? (put i p ps) i ≡ some p
get_elem?-put i p [] h = absurd (omega (arith, h))
get_elem?-put zero p (q ∷ qs) h = refl
get_elem?-put (suc i) p (q ∷ qs) h = get_elem?-put i p qs (omega (arith, h))

pub get_elem?-put_other :
    (i j : ℕ) (p : ProcessRunning) (ps : List ProcessRunning)
    → i ≢ j
    → get_elem? (put i p ps) j ≡ get_elem? ps j
get_elem?-put_other i j p [] h = refl
get_elem?-put_other zero zero p (q ∷ qs) h = absurd (h refl)
get_elem?-put_other zero (suc j) p (q ∷ qs) h = refl
get_elem?-put_other (suc i) zero p (q ∷ qs) h = refl
get_elem?-put_other (suc i) (suc j) p (q ∷ qs) h = get_elem?-put_other i j p qs (λ e. h (ap suc e))

pub length-put :
    (i : ℕ) (p : ProcessRunning) (ps : List ProcessRunning) → length (put i p ps) ≡ length ps
length-put i p [] = refl
length-put zero p (q ∷ qs) = refl
length-put (suc i) p (q ∷ qs) = ap suc (length-put i p qs)

pub put-put :
    (i : ℕ) (p q : ProcessRunning) (ps : List ProcessRunning) → put i q (put i p ps) ≡ put i q ps
put-put i p q [] = refl
put-put zero p q (r ∷ ps) = refl
put-put (suc i) p q (r ∷ ps) = ap (◌∷◌ r) (put-put i p q ps)

-- A pointer that is NULL or points to a string.
abbrev pub IsKept : FilePath → Type 0
IsKept null = Unit
IsKept freed = ⊥
IsKept (path f) = Unit

-- The streams of the process are open, and its file names were not freed.
pub record IsOpen (p : ProcessRunning) : Type 0 where
  pub to_open : p.to_child ≡ true
  pub from_open : p.from_child ≡ true
  pub source_kept : IsKept p.source_code_path
  pub executable_kept : IsKept p.executable_file_path

abbrev pub IsProper : ProcessRunning → Type 0
IsProper p = (p.is_running ≡ false) ⊎ IsOpen p

abbrev pub AllProper : List ProcessRunning → Type 0
AllProper [] = Unit
AllProper (p ∷ ps) = IsProper p × AllProper ps

pub AllProper-put :
    (i : ℕ) (p : ProcessRunning) (ps : List ProcessRunning)
    → IsProper p
    → AllProper ps
    → AllProper (put i p ps)
AllProper-put i p [] h a = tt
AllProper-put zero p (q ∷ qs) h (b, a) = (h, a)
AllProper-put (suc i) p (q ∷ qs) h (b, a) = (b, AllProper-put i p qs h a)

pub AllProper-get_elem? :
    (i : ℕ) (p : ProcessRunning) (ps : List ProcessRunning)
    → AllProper ps
    → get_elem? ps i ≡ some p
    → IsProper p
AllProper-get_elem? i p [] a e = cc
AllProper-get_elem? zero p (q ∷ qs) (b, a) e = let d : q ≡ p = cc in subst IsProper d b
AllProper-get_elem? (suc i) p (q ∷ qs) (b, a) e = AllProper-get_elem? i p qs a e

-- What `check_pidx` finds is running, at that index.
pub check_pidx_sound :
    (s : Service) (pidx : ℤ) (i : ℕ) (p : ProcessRunning)
    → check_pidx s pidx ≡ some (i, p)
    → (p.is_running ≡ true) × (get_elem? s.processes i ≡ some p)
unfolding check_pidx
check_pidx_sound s (negsuc n) i p e = cc
check_pidx_sound s (pos j) i p e = elim (Option-cases (get_elem? s.processes j)) [
  | inl f ↦ absurd (ground (arith, e, f))
  | inr (q, f) ↦ elim (Bool-cases q.is_running) [
    | inl r ↦
        let d : some (j, q) ≡ some (i, p) = sym (rw (f, r) refl) ∙ e in
        let same_process : q ≡ p = cc in
        let same_index : j ≡ i = cc in
        (
          ap (λ (x : ProcessRunning). x.is_running) (sym same_process) ∙ r,
          rw (← same_index) (f ∙ ap some same_process),
        )
    | inr r ↦ absurd (ground (arith, e, f, r))
  ]
]

pub check_pidx_running :
    (s : Service) (i : ℕ) (p : ProcessRunning)
    → get_elem? s.processes i ≡ some p
    → p.is_running ≡ true
    → check_pidx s (pos i) ≡ some (i, p)
unfolding check_pidx
check_pidx_running s i p e r = rw e (rw r refl)

pub check_pidx_stopped :
    (s : Service) (i : ℕ) (p : ProcessRunning)
    → get_elem? s.processes i ≡ some p
    → p.is_running ≡ false
    → check_pidx s (pos i) ≡ none
unfolding check_pidx
check_pidx_stopped s i p e r = rw e (rw r refl)
