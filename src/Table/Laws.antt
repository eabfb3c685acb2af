-- ===== src/Table/Laws.antt =====
-- The invariant of a table, and its operations as operations on the list of its items.
use http_web_server_c.Base.{
  ℕ, zero, suc, ◌+◌, ◌≤◌, ◌<◌, ◌≡◌, refl, sym, ap, ◌∙◌, Bool, true, false, Option, none, some, List,
  [], ◌∷◌, ◌++◌, append-nil, append_assoc, arith, if◌then◌else◌, length, length-append, ok, fault,
}
use http_web_server_c.Table.{Table, init, grow, append, scan, find}

module _ {A : Type 0} where
  -- The pointer has room for `capacity` items, `size` of them are there, and doubling makes room.
  pub record IsValid (t : Table A) : Type 0 where
    pub counted : length t.items ≡ t.size
    pub fits : t.size ≤ t.capacity
    pub room : t.slots ≡ t.capacity
    pub nonempty : 0 < t.capacity

module _ {A : Type 0} where
  pub init-IsValid : (n : ℕ) → 0 < n → IsValid (init {A = A} n)
  unfolding init
  init-IsValid n h = record { counted = refl; fits = omega arith; room = refl; nonempty = h }

  pub length_snoc : (xs : List A) (x : A) → length (xs ++ (x ∷ [])) ≡ length xs + 1
  length_snoc xs x = omega (arith, length-append xs (x ∷ []))

  -- The table after an insertion that finds its memory.
  unfoldable pub extended : A → Table A → Table A
  unfolding grow
  extended x t = let g = grow true t in record g { size = t.size + 1; items = t.items ++ (x ∷ []) }

  pub append-grow : (x : A) (t : Table A) → IsValid t → append x (grow true t) ≡ ok (extended x t)
  unfolding append extended
  append-grow x t v = ground arith

  pub items-extended : (x : A) (t : Table A) → (extended x t).items ≡ t.items ++ (x ∷ [])
  unfolding extended
  items-extended x t = refl

  pub extended-IsValid : (x : A) (t : Table A) → IsValid t → IsValid (extended x t)
  unfolding extended
  extended-IsValid x t v = record {
    counted = ground (arith, length_snoc t.items x);
    fits = ground arith;
    room = ground arith;
    nonempty = ground arith;
  }

  -- A full table whose `realloc` fails is written through a null pointer.
  pub append-grow_fault :
      (x : A) (t : Table A) → t.capacity ≡ t.size → append x (grow false t) ≡ fault
  unfolding append grow
  append-grow_fault x t h = ground arith

  -- The search without its counter.
  abbrev pub find? : (A → Bool) → List A → Option A
  find? test [] = none
  find? test (x ∷ xs) = if test x then some x else find? test xs

  scan-length :
      (test : A → Bool) (n : ℕ) (xs : List A) → length xs ≡ n → scan test n xs ≡ ok (find? test xs)
  unfolding scan
  scan-length test zero [] h = refl
  scan-length test zero (x ∷ xs) h = absurd (omega arith)
  scan-length test (suc n) [] h = absurd (omega arith)
  scan-length test (suc n) (x ∷ xs) h = ground (arith, scan-length test n xs)

  -- On a valid table the search reads no slot that is not written.
  pub find-IsValid :
      (test : A → Bool) (t : Table A) → IsValid t → find test t ≡ ok (find? test t.items)
  unfolding find
  find-IsValid test t v = scan-length test t.size t.items v.counted

  abbrev pub or_else : Option A → Option A → Option A
  or_else none b = b
  or_else (some a) b = some a

  pub find?-append :
      (test : A → Bool) (xs ys : List A)
      → find? test (xs ++ ys) ≡ or_else (find? test xs) (find? test ys)
  find?-append test [] ys = refl
  find?-append test (x ∷ xs) ys = ground (arith, find?-append test xs ys)

  -- What was found satisfies the test.
  pub find?-sound : (test : A → Bool) (xs : List A) (x : A) → find? test xs ≡ some x → test x ≡ true
  find?-sound test [] x e = cc
  find?-sound test (y ∷ xs) x e = ground (arith, find?-sound test xs x)

module _ {A : Type 0} where
  -- The table after the items of a list were added one by one.
  abbrev pub extended_by : List A → Table A → Table A
  extended_by [] t = t
  extended_by (x ∷ xs) t = extended_by xs (extended x t)

  pub extended_by-IsValid : (xs : List A) (t : Table A) → IsValid t → IsValid (extended_by xs t)
  extended_by-IsValid [] t v = v
  extended_by-IsValid (x ∷ xs) t v = extended_by-IsValid xs (extended x t) (extended-IsValid x t v)

  pub items-extended_by : (xs : List A) (t : Table A) → (extended_by xs t).items ≡ t.items ++ xs
  items-extended_by [] t = sym (append-nil t.items)
  items-extended_by (x ∷ xs) t =
      items-extended_by xs (extended x t)
      ∙ ap (λ l. l ++ xs) (items-extended x t)
      ∙ append_assoc t.items (x ∷ []) xs
