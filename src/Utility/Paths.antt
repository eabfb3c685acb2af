-- ===== src/Utility/Paths.antt =====
-- What `url_path_cmp` of src/utility.h identifies, and in which order it puts the rest.
use http_web_server_c.Base.{
  ℕ, ◌<◌, ◌≡◌, refl, ap, ◌↔◌, ◌⊎◌, inl, inr, false, some, [], ◌∷◌, ◌++◌, arith, ◌==◌, Bool-cases,
}
use http_web_server_c.CString.{Bytes}
use http_web_server_c.Utility.{
  Comparison, less, same, greater, url_path_cmp, is_non_space, find_non_space,
}

-- Equal, or equal but for one '/' at the end of one of them.
abbrev pub SamePath : Bytes → Bytes → Type 0
SamePath a b = (a ≡ b) ⊎ ((a ++ b'/' ∷ [] ≡ b) ⊎ (b ++ b'/' ∷ [] ≡ a))

SamePath-cons : (c : ℕ) (a b : Bytes) → SamePath a b → SamePath (c ∷ a) (c ∷ b)
SamePath-cons c a b (inl e) = inl (ap (◌∷◌ c) e)
SamePath-cons c a b (inr (inl e)) = inr (inl (ap (◌∷◌ c) e))
SamePath-cons c a b (inr (inr e)) = inr (inr (ap (◌∷◌ c) e))

SamePath-tail : (c d : ℕ) (a b : Bytes) → SamePath (c ∷ a) (d ∷ b) → SamePath a b
SamePath-tail c d a b (inl e) = inl cc
SamePath-tail c d a b (inr (inl e)) = inr (inl cc)
SamePath-tail c d a b (inr (inr e)) = inr (inr cc)

SamePath-head : (c d : ℕ) (a b : Bytes) → SamePath (c ∷ a) (d ∷ b) → c ≡ d
SamePath-head c d a b (inl e) = cc
SamePath-head c d a b (inr (inl e)) = cc
SamePath-head c d a b (inr (inr e)) = cc

pub same→SamePath : (a b : Bytes) → url_path_cmp a b ≡ same → SamePath a b
unfolding url_path_cmp
same→SamePath [] [] h = inl refl
same→SamePath [] (r ∷ []) h = inr (inl (ground arith))
same→SamePath [] (r ∷ s ∷ b) h = absurd (ground arith)
same→SamePath (l ∷ []) [] h = inr (inr (ground arith))
same→SamePath (l ∷ k ∷ a) [] h = absurd (ground arith)
same→SamePath (l ∷ a) (r ∷ b) h = elim (Bool-cases (l == r)) [
  | inl e ↦
      let e' : l ≡ r = ground arith in
      rw e' (SamePath-cons r a b (same→SamePath a b (ground arith)))
  | inr e ↦ absurd (ground arith)
]

pub SamePath→same : (a b : Bytes) → SamePath a b → url_path_cmp a b ≡ same
unfolding url_path_cmp
SamePath→same [] [] h = refl
SamePath→same [] (r ∷ []) h = ground arith
SamePath→same [] (r ∷ s ∷ b) h = ground arith
SamePath→same (l ∷ []) [] h = ground arith
SamePath→same (l ∷ k ∷ a) [] h = ground arith
SamePath→same (l ∷ a) (r ∷ b) h =
    ground (arith, SamePath-head l r a b h, SamePath→same a b (SamePath-tail l r a b h))

-- `url_path_cmp` returns 0 exactly when the two paths are equal, or one of them is the other with
-- a single '/' behind it.
pub url_path_cmp-same_iff : (a b : Bytes) → (url_path_cmp a b ≡ same) ↔ SamePath a b
url_path_cmp-same_iff a b = (same→SamePath a b, SamePath→same a b)

abbrev pub opposite : Comparison → Comparison
opposite less = greater
opposite same = same
opposite greater = less

-- Every byte is a byte and not the terminator.
abbrev pub AllBytes : Bytes → Type 0
AllBytes [] = Unit
AllBytes (c ∷ s) = (0 < c) × (c < 256) × AllBytes s

-- On strings of bytes, exchanging the two paths turns -1 into 1 and 1 into -1, and keeps 0.
pub url_path_cmp_swap :
    (a b : Bytes) → AllBytes a → AllBytes b → url_path_cmp b a ≡ opposite (url_path_cmp a b)
unfolding url_path_cmp
url_path_cmp_swap [] [] ha hb = refl
url_path_cmp_swap [] (r ∷ []) ha hb = ground arith
url_path_cmp_swap [] (r ∷ s ∷ b) ha hb = ground arith
url_path_cmp_swap (l ∷ []) [] ha hb = ground arith
url_path_cmp_swap (l ∷ k ∷ a) [] ha hb = ground arith
url_path_cmp_swap (l ∷ a) (r ∷ b) (l0, l1, ha) (r0, r1, hb) =
    ground (arith, url_path_cmp_swap a b ha hb)

-- A text whose first byte is no white space.
abbrev pub StartsSolid : Bytes → Type 0
StartsSolid [] = ⊥
StartsSolid (c ∷ s) = is_non_space c ≡ false

-- A text whose last byte is no white space.
abbrev pub EndsSolid : Bytes → Type 0
EndsSolid [] = ⊥
EndsSolid (c ∷ []) = is_non_space c ≡ false
EndsSolid (c ∷ d ∷ s) = EndsSolid (d ∷ s)

pub find_non_space-solid : (s rest : Bytes) → StartsSolid s → find_non_space (s ++ rest) ≡ some 0
unfolding find_non_space
find_non_space-solid [] rest h = absurd h
find_non_space-solid (c ∷ s) rest h = rw h refl
