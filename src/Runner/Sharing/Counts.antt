-- ===== src/Runner/Sharing/Counts.antt =====
-- Counting the threads that try or hold the buffers.
use http_web_server_c.Runner.Sharing.{Place, Shared, set_used, outside, trying, holding}
use http_web_server_c.Base.{
  ℕ, zero, suc, ◌+◌, ◌≤◌, ◌≡◌, refl, ap, ◌≢◌, ◌⊎◌, inl, inr, Bool, true, false, Option, none, some,
  List, [], ◌∷◌, ◌++◌, arith, ◌==◌, leb, if◌then◌else◌, length, length-append, get_elem?,
}

abbrev pub total : (Place → ℕ) → List Place → ℕ
total f [] = 0
total f (p ∷ ps) = f p + total f ps

pub total-append :
    (f : Place → ℕ) (pre post : List Place) → total f (pre ++ post) ≡ total f pre + total f post
total-append f [] post = omega arith
total-append f (p ∷ pre) post = omega (arith, total-append f pre post)

-- The sum when one thread moves.
pub total_moved :
    (f : Place → ℕ) (ps pre post : List Place) (x y : Place)
    → ps ≡ pre ++ x ∷ post
    → total f (pre ++ y ∷ post) + f x ≡ total f ps + f y
total_moved f ps pre post x y e =
    omega (arith, ap (total f) e, total-append f pre (x ∷ post), total-append f pre (y ∷ post))

abbrev pub holds : ℕ → Place → ℕ
holds j outside = 0
holds j (trying i) = 0
holds j (holding i) = if i == j then 1 else 0

-- How many threads hold a buffer.
abbrev pub holders : ℕ → Shared → ℕ
holders j s = total (holds j) s.places

abbrev pub tries : ℕ → Place → ℕ
tries j outside = 0
tries j (trying i) = if i == j then 1 else 0
tries j (holding i) = 0

-- 1 for a thread that tries or holds a buffer from the index j on.
abbrev pub beyond : ℕ → Place → ℕ
beyond j outside = 0
beyond j (trying i) = if leb j i then 1 else 0
beyond j (holding i) = if leb j i then 1 else 0

pub beyond_next : (j : ℕ) (p : Place) → beyond j p ≡ beyond (j + 1) p + (holds j p + tries j p)
beyond_next j outside = omega arith
beyond_next j (trying i) = ground arith
beyond_next j (holding i) = ground arith

pub total-beyond :
    (j : ℕ) (ps : List Place)
    → total (beyond j) ps ≡ total (beyond (j + 1)) ps + (total (holds j) ps + total (tries j) ps)
total-beyond j [] = omega arith
total-beyond j (p ∷ ps) = omega (arith, beyond_next j p, total-beyond j ps)

pub beyond_one : (j : ℕ) (p : Place) → beyond j p ≤ 1
beyond_one j outside = omega arith
beyond_one j (trying i) = ground arith
beyond_one j (holding i) = ground arith

pub total_bound : (j : ℕ) (ps : List Place) → total (beyond j) ps ≤ length ps
total_bound j [] = omega arith
total_bound j (p ∷ ps) = omega (arith, beyond_one j p, total_bound j ps)

abbrev pub flag_count : Option Bool → ℕ
flag_count none = 0
flag_count (some true) = 1
flag_count (some false) = 0

pub get_elem?-set_used :
    (i : ℕ) (b c : Bool) (used : List Bool)
    → get_elem? used i ≡ some c
    → get_elem? (set_used i b used) i ≡ some b
get_elem?-set_used i b c [] e = cc
get_elem?-set_used zero b c (d ∷ used) e = refl
get_elem?-set_used (suc i) b c (d ∷ used) e = get_elem?-set_used i b c used e

pub get_elem?-set_used_other :
    (i j : ℕ) (b : Bool) (used : List Bool)
    → i ≢ j
    → get_elem? (set_used i b used) j ≡ get_elem? used j
get_elem?-set_used_other i j b [] h = refl
get_elem?-set_used_other zero zero b (d ∷ used) h = absurd (h refl)
get_elem?-set_used_other zero (suc j) b (d ∷ used) h = refl
get_elem?-set_used_other (suc i) zero b (d ∷ used) h = refl
get_elem?-set_used_other (suc i) (suc j) b (d ∷ used) h =
    get_elem?-set_used_other i j b used (λ e. h (ap suc e))

pub length_moved :
    (ps pre post : List Place) (x y : Place)
    → ps ≡ pre ++ x ∷ post
    → length (pre ++ y ∷ post) ≡ length ps
length_moved ps pre post x y e =
    omega (arith, ap length e, length-append pre (x ∷ post), length-append pre (y ∷ post))

-- A bound is kept where no thread came to be beyond the index.
pub bound_kept : (n j a b : ℕ) → b ≤ a → (a ≡ 0) ⊎ (a + j ≤ n) → (b ≡ 0) ⊎ (b + j ≤ n)
bound_kept n j a b h (inl e) = inl (omega (arith, h, e))
bound_kept n j a b h (inr e) = inr (omega (arith, h, e))

pub beyond_moved :
    (j : ℕ) (ps pre post : List Place) (x y : Place)
    → ps ≡ pre ++ x ∷ post
    → beyond j y ≤ beyond j x
    → total (beyond j) (pre ++ y ∷ post) ≤ total (beyond j) ps
beyond_moved j ps pre post x y e h = omega (arith, h, total_moved (beyond j) ps pre post x y e)

pub holds_moved :
    (j : ℕ) (ps pre post : List Place) (x y : Place)
    → ps ≡ pre ++ x ∷ post
    → holds j y ≡ holds j x
    → total (holds j) (pre ++ y ∷ post) ≡ total (holds j) ps
holds_moved j ps pre post x y e h = omega (arith, h, total_moved (holds j) ps pre post x y e)

pub flag_some : (o : Option Bool) → 1 ≤ flag_count o → o ≡ some true
flag_some none h = absurd (omega (arith, h))
flag_some (some true) h = refl
flag_some (some false) h = absurd (omega (arith, h))

pub flag_bound : (o : Option Bool) → flag_count o ≤ 1
flag_bound none = omega arith
flag_bound (some true) = omega arith
flag_bound (some false) = omega arith
