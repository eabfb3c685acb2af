-- ===== src/Runner/Sharing/Claims.antt =====
-- Each thread that enters the loop gets a buffer, and no two threads have the same.
use http_web_server_c.Base.{
  ℕ, zero, suc, ◌+◌, ◌≤◌, ◌<◌, ◌≡◌, refl, sym, ap, ◌∙◌, ◌⊎◌, inl, inr, true, false, some, List, [],
  ◌∷◌, ◌++◌, append_assoc, arith, ◌==◌, Bool-cases, length, get_elem?,
}
use http_web_server_c.Runner.Sharing.Counts.{
  beyond_moved, beyond_one, get_elem?-set_used_other, bound_kept, get_elem?-set_used, holds_moved,
  total-beyond, flag_bound, length_moved, total_bound, total_moved, tries, beyond, flag_count,
  flag_some, holders, holds, total,
}
use http_web_server_c.Runner.Sharing.{
  set_used, unused, moved, Place, Shares, Shared, all_outside, shared, outside, trying, holding,
  enter, pass, take_buffer, release, fresh_start, next_turn,
}

-- As many threads as buffers; a used buffer is held by one thread and an unused one by none; and where
-- a thread is from the index j on, there are at most as many such threads as there are buffers.
record IsFair (n : ℕ) (s : Shared) : Type 0 where
  counted : length s.places ≡ n
  exclusive : (j : ℕ) → total (holds j) s.places ≡ flag_count (get_elem? s.buffer_used j)
  bounded : (j : ℕ) → (total (beyond j) s.places ≡ 0) ⊎ (total (beyond j) s.places + j ≤ n)

enter-IsFair :
    (n : ℕ) (s : Shared) (pre post : List Place)
    → s.places ≡ pre ++ outside ∷ post
    → IsFair n s
    → IsFair n (moved pre (trying 0) post s.buffer_used)
enter-IsFair n s pre post e v = record {
  counted = length_moved s.places pre post outside (trying 0) e ∙ v.counted;
  exclusive = λ j. holds_moved j s.places pre post outside (trying 0) e refl ∙ v.exclusive j;
  bounded = bound;
}
  where
    bound :
        (j : ℕ)
        → (total (beyond j) (pre ++ trying 0 ∷ post) ≡ 0)
          ⊎ (total (beyond j) (pre ++ trying 0 ∷ post) + j ≤ n)
    bound zero = inr (
        omega (
          arith,
          total_bound 0 (pre ++ trying 0 ∷ post),
          length_moved s.places pre post outside (trying 0) e,
          v.counted,
        ))
    bound (suc j) =
        bound_kept n (suc j) (total (beyond (suc j)) s.places)
          (total (beyond (suc j)) (pre ++ trying 0 ∷ post))
          (beyond_moved (suc j) s.places pre post outside (trying 0) e (ground arith))
          (v.bounded (suc j))

-- A thread at an index is beyond it, and so is the one that holds its buffer.
index_bound :
    (n : ℕ) (s : Shared) (pre post : List Place) (i : ℕ)
    → s.places ≡ pre ++ trying i ∷ post
    → IsFair n s
    → total (beyond (i + 1)) s.places + (flag_count (get_elem? s.buffer_used i) + 1) + i ≤ n
index_bound n s pre post i e v =
    let one : tries i (trying i) ≡ 1 = ground arith in
    let t = total_moved (tries i) s.places pre post (trying i) outside e in
    elim (v.bounded i) [
      | inl none_there ↦ absurd (omega (arith, one, t, total-beyond i s.places, none_there))
      | inr b ↦ omega (arith, one, t, total-beyond i s.places, v.exclusive i, b)
    ]

pass-IsFair :
    (n : ℕ) (s : Shared) (pre post : List Place) (i : ℕ)
    → s.places ≡ pre ++ trying i ∷ post
    → get_elem? s.buffer_used i ≡ some true
    → IsFair n s
    → IsFair n (moved pre (trying (i + 1)) post s.buffer_used)
pass-IsFair n s pre post i e used v = record {
  counted = length_moved s.places pre post (trying i) (trying (i + 1)) e ∙ v.counted;
  exclusive =
      λ j. holds_moved j s.places pre post (trying i) (trying (i + 1)) e refl ∙ v.exclusive j;
  bounded = λ j. elim (Bool-cases (j == (i + 1))) [
    | inl here ↦ inr (
        let f : flag_count (get_elem? s.buffer_used i) ≡ 1 = ap flag_count used in
        let k : j ≡ i + 1 = ground (arith, here) in
        rw k (
          omega (
            arith,
            f,
            index_bound n s pre post i e v,
            beyond_one (i + 1) (trying (i + 1)),
            total_moved (beyond (i + 1)) s.places pre post (trying i) (trying (i + 1)) e,
          )))
    | inr other ↦
        bound_kept n j (total (beyond j) s.places) (total (beyond j) (pre ++ trying (i + 1) ∷ post))
          (beyond_moved j s.places pre post (trying i) (trying (i + 1)) e (ground (arith, other)))
          (v.bounded j)
  ];
}

take_buffer-IsFair :
    (n : ℕ) (s : Shared) (pre post : List Place) (i : ℕ)
    → s.places ≡ pre ++ trying i ∷ post
    → get_elem? s.buffer_used i ≡ some false
    → IsFair n s
    → IsFair n (moved pre (holding i) post (set_used i true s.buffer_used))
take_buffer-IsFair n s pre post i e free v = record {
  counted = length_moved s.places pre post (trying i) (holding i) e ∙ v.counted;
  exclusive = λ j. elim (Bool-cases (i == j)) [
    | inl here ↦
        let k : i ≡ j = ground (arith, here) in
        let f : flag_count (get_elem? s.buffer_used i) ≡ 0 = ap flag_count free in
        let g : flag_count (get_elem? (set_used i true s.buffer_used) i) ≡ 1 =
          ap flag_count (get_elem?-set_used i true false s.buffer_used free) in
        let one : holds i (holding i) ≡ 1 = ground arith in
        rw (← k) (
          omega (
            arith,
            f,
            g,
            one,
            v.exclusive i,
            total_moved (holds i) s.places pre post (trying i) (holding i) e,
          ))
    | inr other ↦
        let same_flag = ap flag_count (
          get_elem?-set_used_other i j true s.buffer_used
            (λ k. absurd (ground (arith, other, k)))) in
        holds_moved j s.places pre post (trying i) (holding i) e (ground (arith, other))
        ∙ v.exclusive j
        ∙ sym same_flag
  ];
  bounded = λ j.
      bound_kept n j (total (beyond j) s.places) (total (beyond j) (pre ++ holding i ∷ post))
        (beyond_moved j s.places pre post (trying i) (holding i) e (omega arith)) (v.bounded j);
}

-- The buffer of a thread that holds one is marked as used.
holding-used :
    (n : ℕ) (s : Shared) (pre post : List Place) (i : ℕ)
    → s.places ≡ pre ++ holding i ∷ post
    → IsFair n s
    → get_elem? s.buffer_used i ≡ some true
holding-used n s pre post i e v =
    let one : holds i (holding i) ≡ 1 = ground arith in
    flag_some (get_elem? s.buffer_used i) (
      omega
        (arith, one, v.exclusive i, total_moved (holds i) s.places pre post (holding i) outside e))

release-IsFair :
    (n : ℕ) (s : Shared) (pre post : List Place) (i : ℕ)
    → s.places ≡ pre ++ holding i ∷ post
    → IsFair n s
    → IsFair n (moved pre outside post (set_used i false s.buffer_used))
release-IsFair n s pre post i e v = record {
  counted = length_moved s.places pre post (holding i) outside e ∙ v.counted;
  exclusive = λ j. elim (Bool-cases (i == j)) [
    | inl here ↦
        let k : i ≡ j = ground (arith, here) in
        let used = holding-used n s pre post i e v in
        let f : flag_count (get_elem? s.buffer_used i) ≡ 1 = ap flag_count used in
        let g : flag_count (get_elem? (set_used i false s.buffer_used) i) ≡ 0 =
          ap flag_count (get_elem?-set_used i false true s.buffer_used used) in
        let one : holds i (holding i) ≡ 1 = ground arith in
        rw (← k) (
          omega (
            arith,
            f,
            g,
            one,
            v.exclusive i,
            total_moved (holds i) s.places pre post (holding i) outside e,
          ))
    | inr other ↦
        let same_flag = ap flag_count (
          get_elem?-set_used_other i j false s.buffer_used
            (λ k. absurd (ground (arith, other, k)))) in
        holds_moved j s.places pre post (holding i) outside e (ground (arith, other))
        ∙ v.exclusive j
        ∙ sym same_flag
  ];
  bounded = λ j.
      bound_kept n j (total (beyond j) s.places) (total (beyond j) (pre ++ outside ∷ post))
        (beyond_moved j s.places pre post (holding i) outside e (omega arith)) (v.bounded j);
}

no_holder : (n j : ℕ) → total (holds j) (all_outside n) ≡ 0
no_holder zero j = refl
no_holder (suc n) j = omega (arith, no_holder n j)

nobody :
    (n j : ℕ)
    → (length (all_outside n) ≡ n)
      × (total (holds j) (all_outside n) ≡ flag_count (get_elem? (unused n) j))
      × (total (beyond j) (all_outside n) ≡ 0)
nobody zero j = (refl, refl, refl)
nobody (suc n) zero =
    let (l, h, b) = nobody n zero in (ap suc l, omega (arith, no_holder n zero), omega (arith, b))
nobody (suc n) (suc j) =
    let (l, h, b) = nobody n (suc j) in
    let (l', h', b') = nobody n j in
    (ap suc l, omega (arith, no_holder n (suc j), no_holder n j, h'), omega (arith, b))

shared-IsFair : (n : ℕ) → IsFair n (shared n)
shared-IsFair n =
    let (many, held, there) = nobody n 0 in
    record {
      counted = many;
      exclusive = λ j. let (l, h, b) = nobody n j in h;
      bounded = λ j. let (l, h, b) = nobody n j in inl b;
    }

IsFair-Shares : (n : ℕ) (s : Shared) → Shares n s → IsFair n s
IsFair-Shares n _ fresh_start = shared-IsFair n
IsFair-Shares n _ (next_turn {s} r (enter pre post e)) =
    enter-IsFair n s pre post e (IsFair-Shares n s r)
IsFair-Shares n _ (next_turn {s} r (pass pre post i e used)) =
    pass-IsFair n s pre post i e used (IsFair-Shares n s r)
IsFair-Shares n _ (next_turn {s} r (take_buffer pre post i e free)) =
    take_buffer-IsFair n s pre post i e free (IsFair-Shares n s r)
IsFair-Shares n _ (next_turn {s} r (release pre post i e)) =
    release-IsFair n s pre post i e (IsFair-Shares n s r)

-- Every thread in the loop is at an index below n.
abbrev pub AllBelow : ℕ → List Place → Type 0
AllBelow n [] = Unit
AllBelow n (trying i ∷ ps) = (i < n) × AllBelow n ps
AllBelow n (_ ∷ ps) = AllBelow n ps

below :
    (n : ℕ) (s : Shared) (pre ps : List Place) → IsFair n s → s.places ≡ pre ++ ps → AllBelow n ps
below n s pre [] v e = tt
below n s pre (outside ∷ ps) v e =
    below n s (pre ++ outside ∷ []) ps v (e ∙ sym (append_assoc pre (outside ∷ []) ps))
below n s pre (trying i ∷ ps) v e = (
  omega (arith, index_bound n s pre ps i e v),
  below n s (pre ++ trying i ∷ []) ps v (e ∙ sym (append_assoc pre (trying i ∷ []) ps)),
)
below n s pre (holding i ∷ ps) v e =
    below n s (pre ++ holding i ∷ []) ps v (e ∙ sym (append_assoc pre (holding i ∷ []) ps))

-- With as many buffers as threads, in every interleaving of their atomic operations: each thread in the
-- loop is at an index below the number of buffers, so that the loop never ends without a buffer;
-- and each index is held by at most one thread, by one exactly when it is marked as used.
pub trying-Shares :
    (n : ℕ) (s : Shared) (j : ℕ)
    → Shares n s
    → AllBelow n s.places
      × (holders j s ≤ 1)
      × (holders j s ≡ flag_count (get_elem? s.buffer_used j))
trying-Shares n s j r =
    let v = IsFair-Shares n s r in
    (
      below n s [] s.places v refl,
      omega (arith, v.exclusive j, flag_bound (get_elem? s.buffer_used j)),
      v.exclusive j,
    )
