-- ===== src/Gdbc/Trim/Laws.antt =====
-- What `trim_string` keeps of its argument.
use http_web_server_c.Base.{
  ℕ, zero, suc, ◌+◌, ◌-◌, ◌≤◌, ◌<◌, ◌≡◌, refl, sym, ap, ◌∙◌, inl, inr, true, false, none, some, [],
  ◌∷◌, ◌++◌, arith, leb, Bool-cases, length, take, drop, get_elem?,
}
use http_web_server_c.Gdbc.Trim.{last_solid, trim_end_spaces, skip_spaces, space_at, trim_string}
use http_web_server_c.CString.{isspace, Bytes}

abbrev pub AllSpace : Bytes → Type 0
AllSpace [] = Unit
AllSpace (c ∷ s) = (isspace c ≡ true) × AllSpace s

AllSpace-get_elem? :
    (s : Bytes) → ((j c : ℕ) → get_elem? s j ≡ some c → isspace c ≡ true) → AllSpace s
AllSpace-get_elem? [] h = tt
AllSpace-get_elem? (c ∷ s) h = (h 0 c refl, AllSpace-get_elem? s (λ j d e. h (suc j) d e))

-- Neither the first nor the last byte is white space.
abbrev pub IsSolid : Bytes → Type 0
IsSolid s = (space_at (get_elem? s 0) ≡ false) × (space_at (get_elem? s (length s - 1)) ≡ false)

skip_spaces_lem :
    (s : Bytes)
    → (a : Bytes) × (s ≡ a ++ skip_spaces s)
      × AllSpace a
      × (space_at (get_elem? (skip_spaces s) 0) ≡ false)
skip_spaces_lem [] = ([], refl, tt, refl)
skip_spaces_lem (c ∷ s) = elim (Bool-cases (isspace c)) [
  | inl e ↦
      let (a, split, spaces, solid) = skip_spaces_lem s in
      (c ∷ a, rw e (ap (λ l. c ∷ l) split), (e, spaces), rw e solid)
  | inr e ↦ ([], rw e refl, tt, rw e e)
]

-- A property of the places up to n, and a white space at n + 1.
last_is_space :
    (n : ℕ) (s : Bytes)
    → space_at (get_elem? s (suc n)) ≡ true
    → (j : ℕ) → (j ≤ n → space_at (get_elem? s j) ≡ true)
    → j ≤ suc n
    → space_at (get_elem? s j) ≡ true
last_is_space n s e j h le = elim (Bool-cases (leb j n)) [
  | inl f ↦ h (ground (arith, f))
  | inr f ↦ let g : j ≡ suc n = ground (arith, f, le) in rw g e
]

last_solid_lem :
    (n : ℕ) (s : Bytes)
    → space_at (get_elem? s 0) ≡ false
    → (last_solid n s ≤ n)
      × (space_at (get_elem? s (last_solid n s)) ≡ false)
      × ((j : ℕ) → last_solid n s < j → j ≤ n → space_at (get_elem? s j) ≡ true)
last_solid_lem zero s e = (omega arith, e, λ j f g. absurd (omega (arith, f, g)))
last_solid_lem (suc n) s e = elim (Bool-cases (space_at (get_elem? s (suc n)))) [
  | inl f ↦
      let (le, solid, spaces) = last_solid_lem n s e in
      (
        rw f (omega (arith, le)),
        rw f solid,
        λ j g h. last_is_space n s f j (spaces j (ground (arith, g, f))) h,
      )
  | inr f ↦ (rw f (omega arith), rw f f, λ j g h. absurd (ground (arith, f, g, h)))
]

take-drop : (n : ℕ) (s : Bytes) → s ≡ take n s ++ drop n s
take-drop zero s = refl
take-drop (suc n) [] = refl
take-drop (suc n) (c ∷ s) = ap (λ l. c ∷ l) (take-drop n s)

get_elem?-drop : (n j : ℕ) (s : Bytes) → get_elem? (drop n s) j ≡ get_elem? s (n + j)
get_elem?-drop zero j s = ap (get_elem? s) (omega arith)
get_elem?-drop (suc n) j [] = refl
get_elem?-drop (suc n) j (c ∷ s) =
    let e : suc n + j ≡ suc (n + j) = omega arith in rw e (get_elem?-drop n j s)

get_elem?-take : (n j : ℕ) (s : Bytes) → j < n → get_elem? (take n s) j ≡ get_elem? s j
get_elem?-take zero j s h = absurd (omega (arith, h))
get_elem?-take (suc n) j [] h = refl
get_elem?-take (suc n) zero (c ∷ s) h = refl
get_elem?-take (suc n) (suc j) (c ∷ s) h = get_elem?-take n j s (omega (arith, h))

length-take : (n : ℕ) (s : Bytes) → n ≤ length s → length (take n s) ≡ n
length-take zero s h = refl
length-take (suc n) [] h = absurd (omega (arith, h))
length-take (suc n) (c ∷ s) h = ap suc (length-take n s (omega (arith, h)))

get_elem?_bound : (s : Bytes) (j c : ℕ) → get_elem? s j ≡ some c → j < length s
get_elem?_bound [] j c e = cc
get_elem?_bound (d ∷ s) zero c e = omega arith
get_elem?_bound (d ∷ s) (suc j) c e = omega (arith, get_elem?_bound s j c e)

trim_end_spaces_lem :
    (s : Bytes)
    → space_at (get_elem? s 0) ≡ false
    → (b : Bytes) × (s ≡ trim_end_spaces s ++ b) × AllSpace b × IsSolid (trim_end_spaces s)
trim_end_spaces_lem [] e = ([], refl, tt, (refl, refl))
trim_end_spaces_lem (c ∷ s) e =
    let l = last_solid (length s) (c ∷ s) in
    let (le, solid, spaces) = last_solid_lem (length s) (c ∷ s) e in
    let m : length (take (l + 1) (c ∷ s)) ≡ l + 1 =
      length-take (l + 1) (c ∷ s) (omega (arith, le)) in
    let last : length (take (l + 1) (c ∷ s)) - 1 ≡ l = omega (arith, m) in
    (
      drop (l + 1) (c ∷ s),
      take-drop (l + 1) (c ∷ s),
      AllSpace-get_elem? (drop (l + 1) (c ∷ s)) (λ j d f.
          let g : get_elem? (c ∷ s) (l + 1 + j) ≡ some d =
            sym (get_elem?-drop (l + 1) j (c ∷ s)) ∙ f in
          let lt = get_elem?_bound (c ∷ s) (l + 1 + j) d g in
          sym (ap space_at g) ∙ spaces (l + 1 + j) (omega arith) (omega (arith, lt))),
      (
        ap space_at (get_elem?-take (l + 1) 0 (c ∷ s) (omega arith)) ∙ e,
        ap (λ i. space_at (get_elem? (take (l + 1) (c ∷ s)) i)) last
            ∙ ap space_at (get_elem?-take (l + 1) l (c ∷ s) (omega arith))
            ∙ solid,
      ),
    )

-- Trimming keeps the middle of a string: what is cut off on both sides is white space, and what is kept
-- neither begins nor ends with white space. NULL stays NULL.
pub trim_string_lem :
    (s : Bytes)
    → (a t b : Bytes) × (trim_string (some s) ≡ some t)
      × (trim_string none ≡ none)
      × (s ≡ a ++ (t ++ b))
      × AllSpace a
      × AllSpace b
      × IsSolid t
unfolding trim_string
trim_string_lem s =
    let (a, front, spaces, first) = skip_spaces_lem s in
    let (b, back, ending, solid) = trim_end_spaces_lem (skip_spaces s) first in
    (
      a,
      trim_end_spaces (skip_spaces s),
      b,
      refl,
      refl,
      front ∙ ap (λ l. a ++ l) back,
      spaces,
      ending,
      solid,
    )
