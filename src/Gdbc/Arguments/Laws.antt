-- ===== src/Gdbc/Arguments/Laws.antt =====
-- The argument arrays hold the pieces of the text between its blanks.
use http_web_server_c.Base.{
  ℕ, suc, ◌+◌, ◌≡◌, refl, sym, ap, ◌∙◌, inl, inr, Bool, true, false, Option, none, some, List, [],
  ◌∷◌, ◌++◌, arith, ◌==◌, if◌then◌else◌, Bool-cases, length, ok,
}
use http_web_server_c.Gdbc.Arguments.{
  text_or_empty, get_compiler_path, CompilerType, blanks, cl_args, cut_option, compile_args,
  fill_options, option_slots,
}
use http_web_server_c.CString.{codes, shift, strstr, Bytes}
use http_web_server_c.CString.Search.{Lacks}
use mathlib.Core.Path.{subst}

abbrev pub prepend : ℕ → List Bytes → List Bytes
prepend c [] = []
prepend c (p ∷ ps) = (c ∷ p) ∷ ps

-- The pieces of a text between its blanks, also the empty ones.
abbrev pub pieces : Bytes → List Bytes
pieces [] = [] ∷ []
pieces (c ∷ s) = if c == b' ' then [] ∷ pieces s else prepend c (pieces s)

abbrev pub options : Option Bytes → List Bytes
options none = []
options (some []) = []
options (some (c ∷ s)) = pieces (c ∷ s)

abbrev pub joined : List Bytes → Bytes
joined [] = []
joined (p ∷ []) = p
joined (p ∷ q ∷ ps) = p ++ b' ' ∷ joined (q ∷ ps)

abbrev pub AllLack : ℕ → List Bytes → Type 0
AllLack b [] = Unit
AllLack b (p ∷ ps) = Lacks b p × AllLack b ps

pieces_cons : (s : Bytes) → (p : Bytes) × (ps : List Bytes) × (pieces s ≡ p ∷ ps)
pieces_cons [] = ([], [], refl)
pieces_cons (c ∷ s) = elim (Bool-cases (c == b' ')) [
  | inl e ↦ rw e ([], pieces s, refl)
  | inr e ↦ let (p, ps, f) = pieces_cons s in rw (e, f) (c ∷ p, ps, refl)
]

joined-prepend :
    (c : ℕ) (p : Bytes) (ps : List Bytes) → joined (prepend c (p ∷ ps)) ≡ c ∷ joined (p ∷ ps)
joined-prepend c p [] = refl
joined-prepend c p (q ∷ ps) = refl

-- Joining the pieces with blanks gives the text back, and no piece has a blank.
pub joined-pieces : (s : Bytes) → (joined (pieces s) ≡ s) × AllLack b' ' (pieces s)
joined-pieces [] = (refl, (tt, tt))
joined-pieces (c ∷ s) =
    let (p, ps, f) = pieces_cons s in
    let (e, l) = joined-pieces s in
    let e' : joined (p ∷ ps) ≡ s = ap joined (sym f) ∙ e in
    let l' : AllLack b' ' (p ∷ ps) = subst (AllLack b' ') f l in
    elim (Bool-cases (c == b' ')) [
      | inl h ↦
          let d : c ≡ b' ' = ground (arith, h) in
          rw (h, f) (ap (λ t. b' ' ∷ t) e' ∙ ap (λ b. b ∷ s) (sym d), (tt, l'))
      | inr h ↦ rw (h, f) (joined-prepend c p ps ∙ ap (◌∷◌ c) e', ((h, l'.0), l'.1))
    ]

cut_option-prepend :
    (go : Bytes → List Bytes) (c : ℕ) (s : Bytes) (o : Option ℕ)
    → cut_option go (c ∷ s) (shift o) ≡ prepend c (cut_option go s o)
cut_option-prepend go c s none = refl
cut_option-prepend go c s (some k) = let e : suc k + 1 ≡ suc (k + 1) = omega arith in rw e refl

fill_options-pieces : (s : Bytes) → fill_options (suc (blanks s)) s ≡ pieces s
unfolding fill_options strstr
fill_options-pieces [] = refl
fill_options-pieces (c ∷ s) = elim (Bool-cases (c == b' ')) [
  | inl e ↦
      let d : (b' ' == c) ≡ true = ground (arith, e) in
      rw (e, d) (ap (λ ps. [] ∷ ps) (fill_options-pieces s))
  | inr e ↦
      let d : (b' ' == c) ≡ false = ground (arith, e) in
      rw (e, d)
        (cut_option-prepend (fill_options (blanks s)) c s (strstr s (b' ' ∷ []))
          ∙ ap (prepend c) (fill_options-pieces s))
]

length-prepend : (c : ℕ) (ps : List Bytes) → length (prepend c ps) ≡ length ps
length-prepend c [] = refl
length-prepend c (p ∷ ps) = refl

length-pieces : (s : Bytes) → length (pieces s) ≡ suc (blanks s)
length-pieces [] = refl
length-pieces (c ∷ s) = elim (Bool-cases (c == b' ')) [
  | inl e ↦ rw e (ap suc (length-pieces s))
  | inr e ↦ rw e (length-prepend c (pieces s) ∙ length-pieces s)
]

pub option_slots_lem : (o : Option Bytes) → option_slots o ≡ ok (options o)
unfolding option_slots fill_options
option_slots_lem none = refl
option_slots_lem (some []) = refl
option_slots_lem (some (c ∷ s)) = rw (fill_options-pieces (c ∷ s)) (
    let e : (length (pieces (c ∷ s)) == suc (blanks (c ∷ s))) ≡ true =
      ground (arith, length-pieces (c ∷ s)) in
    rw e refl)

abbrev pub if_debugged : Bool → Bytes → List Bytes
if_debugged is_gdb s = if is_gdb then s ∷ [] else []

-- Every slot of the two argument arrays is written: `compile_args` is the compiler, the source, "-o",
-- the executable, "-g" for a debugger, and the options; `cl_args` is gdb for a debugger, the
-- executable and the arguments. The options of a text are its pieces between blanks: no piece has a
-- blank, and joined they are the text.
pub compile_args-pieces :
    (t : CompilerType) (source executable : Bytes) (is_gdb : Bool) (o a : Option Bytes)
    → (compile_args t source executable is_gdb o
        ≡ ok (
            get_compiler_path t
            ∷ source
            ∷ codes "-o"
            ∷ executable
            ∷ (if_debugged is_gdb (codes "-g") ++ options o)))
      × (cl_args executable is_gdb a
          ≡ ok (if_debugged is_gdb (codes "/usr/bin/gdb") ++ executable ∷ options a))
      × (joined (options o) ≡ text_or_empty o)
      × AllLack b' ' (options o)
unfolding compile_args cl_args
compile_args-pieces t source executable is_gdb o a =
    let (whole, apart) = joined-options o in
    (rw (option_slots_lem o) refl, rw (option_slots_lem a) refl, whole, apart)
  where
    joined-options :
        (o : Option Bytes) → (joined (options o) ≡ text_or_empty o) × AllLack b' ' (options o)
    joined-options none = (refl, tt)
    joined-options (some []) = (refl, tt)
    joined-options (some (c ∷ s)) = joined-pieces (c ∷ s)
