-- ===== src/Blocks/Owned.antt =====
-- The blocks of a struct, and what freeing them leaves.
use http_web_server_c.Base.{
  ℕ, ◌≡◌, refl, ◌∙◌, Bool, true, false, not, ◌&&◌, Option, none, some, List, [], ◌∷◌, ◌++◌, arith,
  ◌==◌, Outcome, ok, ◌>>=◌,
}
use http_web_server_c.CString.Search.{Distinct, Lacks, lacks}
use http_web_server_c.Blocks.{Live, free, free_pointer}

abbrev pub AllLive : List ℕ → Live → Type 0
AllLive [] live = Unit
AllLive (b ∷ bs) live = (live b ≡ true) × AllLive bs live

-- The blocks are allocated, and no two of them are the same.
abbrev pub Owns : List ℕ → Live → Type 0
Owns bs live = Distinct bs × AllLive bs live

-- `after` is `live` less the blocks of the list.
abbrev pub Without : List ℕ → Live → Live → Type 0
Without bs live after = (a : ℕ) → after a ≡ (live a && lacks a bs)

-- The call frees the blocks of the list, and no others.
abbrev pub Frees : List ℕ → (Live → Outcome Live) → Type 0
Frees bs c =
    (live : Live) → Owns bs live → (after : Live) × (c live ≡ ok after) × Without bs live after

lacks-append : (a : ℕ) (bs cs : List ℕ) → lacks a (bs ++ cs) ≡ (lacks a bs && lacks a cs)
lacks-append a [] cs = refl
lacks-append a (b ∷ bs) cs = ground (arith, lacks-append a bs cs)

Distinct-front : (bs cs : List ℕ) → Distinct (bs ++ cs) → Distinct bs
Distinct-front [] cs d = tt
Distinct-front (b ∷ bs) cs (l, d) = (Lacks-front b bs cs l, Distinct-front bs cs d)
  where
    Lacks-front : (b : ℕ) (bs cs : List ℕ) → Lacks b (bs ++ cs) → Lacks b bs
    Lacks-front b [] cs l = tt
    Lacks-front b (c ∷ bs) cs (e, l) = (e, Lacks-front b bs cs l)

Distinct-back : (bs cs : List ℕ) → Distinct (bs ++ cs) → Distinct cs
Distinct-back [] cs d = d
Distinct-back (b ∷ bs) cs (l, d) = Distinct-back bs cs d

AllLive-front : (bs cs : List ℕ) (live : Live) → AllLive (bs ++ cs) live → AllLive bs live
AllLive-front [] cs live h = tt
AllLive-front (b ∷ bs) cs live (e, h) = (e, AllLive-front bs cs live h)

AllLive-back : (bs cs : List ℕ) (live : Live) → AllLive (bs ++ cs) live → AllLive cs live
AllLive-back [] cs live h = h
AllLive-back (b ∷ bs) cs live (e, h) = AllLive-back bs cs live h

Lacks-member :
    (b : ℕ) (bs : List ℕ) (c : ℕ) (cs : List ℕ) → Lacks b (bs ++ c ∷ cs) → (c == b) ≡ false
Lacks-member b [] c cs (e, l) = e
Lacks-member b (d ∷ bs) c cs (e, l) = Lacks-member b bs c cs l

lacks-Distinct : (bs : List ℕ) (c : ℕ) (cs : List ℕ) → Distinct (bs ++ c ∷ cs) → lacks c bs ≡ true
lacks-Distinct [] c cs d = refl
lacks-Distinct (b ∷ bs) c cs (l, d) =
    let e = Lacks-member b bs c cs l in
    let f : (b == c) ≡ false = ground (arith, e) in rw f (lacks-Distinct bs c cs d)

Distinct-skip : (bs : List ℕ) (c : ℕ) (cs : List ℕ) → Distinct (bs ++ c ∷ cs) → Distinct (bs ++ cs)
Distinct-skip [] c cs (l, d) = d
Distinct-skip (b ∷ bs) c cs (l, d) = (Lacks-skip bs l, Distinct-skip bs c cs d)
  where
    Lacks-skip : (bs : List ℕ) → Lacks b (bs ++ c ∷ cs) → Lacks b (bs ++ cs)
    Lacks-skip [] (e, l) = l
    Lacks-skip (x ∷ bs) (e, l) = (e, Lacks-skip bs l)

-- Blocks other than the freed ones are still allocated.
AllLive-Without :
    (bs cs : List ℕ) (live after : Live)
    → Distinct (bs ++ cs)
    → AllLive cs live
    → Without bs live after
    → AllLive cs after
AllLive-Without bs [] live after d h w = tt
AllLive-Without bs (c ∷ cs) live after d (e, h) w = (
  w c ∙ rw (e, lacks-Distinct bs c cs d) refl,
  AllLive-Without bs cs live after (Distinct-skip bs c cs d) h w,
)

abbrev pub pointer_blocks : Option ℕ → List ℕ
pointer_blocks none = []
pointer_blocks (some b) = b ∷ []

&&_assoc : (a b c : Bool) → ((a && b) && c) ≡ (a && (b && c))
&&_assoc true b c = refl
&&_assoc false b c = refl

pub nothing-Frees : Frees [] ok
nothing-Frees live o = (live, refl, λ a. ground arith)

pub free-Frees : (b : ℕ) → Frees (b ∷ []) (free b)
free-Frees b live (d, (e, h)) = (λ a. live a && not (b == a), rw e refl, λ a. ground arith)

pub free_pointer-Frees : (o : Option ℕ) → Frees (pointer_blocks o) (free_pointer o)
free_pointer-Frees none = nothing-Frees
free_pointer-Frees (some b) = free-Frees b

-- The first blocks are owned, and behind a call that frees them the others are still.
Owns-front : (bs cs : List ℕ) (live : Live) → Owns (bs ++ cs) live → Owns bs live
Owns-front bs cs live (d, h) = (Distinct-front bs cs d, AllLive-front bs cs live h)

Owns-back :
    (bs cs : List ℕ) (live between : Live)
    → Owns (bs ++ cs) live
    → Without bs live between
    → Owns cs between
Owns-back bs cs live between (d, h) w =
    (Distinct-back bs cs d, AllLive-Without bs cs live between d (AllLive-back bs cs live h) w)

Without-append :
    (bs cs : List ℕ) (live between after : Live)
    → Without bs live between
    → Without cs between after
    → Without (bs ++ cs) live after
Without-append bs cs live between after w w' a =
    w' a ∙ rw (w a, lacks-append a bs cs) (&&_assoc (live a) (lacks a bs) (lacks a cs))

-- One call behind another.
pub bind-Frees :
    (bs cs : List ℕ) (c d : Live → Outcome Live)
    → Frees bs c
    → Frees cs d
    → Frees (bs ++ cs) (λ live. c live >>= d)
bind-Frees bs cs c d f g live o =
    let (between, run, w) = f live (Owns-front bs cs live o) in
    let (after, run', w') = g between (Owns-back bs cs live between o w) in
    (after, rw run run', Without-append bs cs live between after w w')

-- The call frees the blocks of the list and no others, and returns the given struct.
abbrev pub Destructs : {A : Type 0} → List ℕ → A → (Live → Outcome (A × Live)) → Type 0
Destructs bs x c =
    (live : Live) → Owns bs live → (after : Live) × (c live ≡ ok (x, after)) × Without bs live after

module _ {A : Type 0} where
  pub return-Destructs :
      (bs : List ℕ) (x : A) (c : Live → Outcome Live)
      → Frees bs c
      → Destructs bs x (λ live. c live >>= λ after. ok (x, after))
  return-Destructs bs x c f live o = let (after, run, w) = f live o in (after, rw run refl, w)

  pub bind-Destructs :
      (bs cs : List ℕ) (y : A) (c : Live → Outcome Live) (d : Live → Outcome (A × Live))
      → Frees bs c
      → Destructs cs y d
      → Destructs (bs ++ cs) y (λ live. c live >>= d)
  bind-Destructs bs cs y c d f g live o =
      let (between, run, w) = f live (Owns-front bs cs live o) in
      let (after, run', w') = g between (Owns-back bs cs live between o w) in
      (after, rw run run', Without-append bs cs live between after w w')

  -- What stands behind a destructor, with its struct.
  pub behind-Destructs :
      {B : Type 0} (bs cs : List ℕ) (x : A) (y : B) (c : Live → Outcome (A × Live))
      → (d : A → Live → Outcome (B × Live)) → Destructs bs x c
      → Destructs cs y (d x)
      → Destructs (bs ++ cs) y (λ live. c live >>= λ r. d r.0 r.1)
  behind-Destructs bs cs x y c d f g live o =
      let (between, run, w) = f live (Owns-front bs cs live o) in
      let (after, run', w') = g between (Owns-back bs cs live between o w) in
      (after, rw run run', Without-append bs cs live between after w w')

  -- Where the struct is dropped.
  pub freed-Destructs :
      (bs cs : List ℕ) (x : A) (c : Live → Outcome (A × Live)) (d : Live → Outcome Live)
      → Destructs bs x c
      → Frees cs d
      → Frees (bs ++ cs) (λ live. c live >>= λ r. d r.1)
  freed-Destructs bs cs x c d f g live o =
      let (between, run, w) = f live (Owns-front bs cs live o) in
      let (after, run', w') = g between (Owns-back bs cs live between o w) in
      (after, rw run run', Without-append bs cs live between after w w')

  pub map-Destructs :
      {B : Type 0} (bs : List ℕ) (x : A) (f : A → B) (c : Live → Outcome (A × Live))
      → Destructs bs x c
      → Destructs bs (f x) (λ live. c live >>= λ r. ok (f r.0, r.1))
  map-Destructs bs x f c g live o = let (after, run, w) = g live o in (after, rw run refl, w)
