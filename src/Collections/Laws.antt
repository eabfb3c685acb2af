-- ===== src/Collections/Laws.antt =====
-- What the operations of the dynamic array keep, and what its cleanup handler is called on.
use http_web_server_c.Collections.{
  clean_back, remove_from, copy_back, resize, remove_back, insert_back, Array, clean_all,
  destruct_target,
}
use http_web_server_c.Base.{
  get_elem?-append, ℕ, zero, suc, ◌+◌, ◌*◌, ◌≤◌, ◌<◌, ◌≡◌, refl, sym, ap, ◌∙◌, inl, inr, true, some,
  List, [], ◌∷◌, ◌++◌, append-nil, append_assoc, arith, ◌==◌, Bool-cases, length, take,
  length-append, take-append, ok, get_elem?,
}

module _ {A : Type 0} where
  pub record IsArray (t : Array A) : Type 0 where
    pub counted : length t.items ≡ t.size
    pub fits : t.size ≤ t.capacity
    pub room : t.slots ≡ t.capacity
    pub nonempty : 0 < t.capacity

  take_all : (n : ℕ) (xs : List A) → length xs ≤ n → take n xs ≡ xs
  take_all zero [] h = refl
  take_all zero (x ∷ xs) h = absurd (omega (arith, h))
  take_all (suc n) [] h = refl
  take_all (suc n) (x ∷ xs) h = ap (◌∷◌ x) (take_all n xs (omega (arith, h)))

  -- The last of the first n + 1 items.
  get_elem?-take :
      (n : ℕ) (xs : List A)
      → n < length xs
      → (x : A) × (get_elem? xs n ≡ some x) × (take (suc n) xs ≡ take n xs ++ (x ∷ []))
  get_elem?-take n [] h = absurd (omega (arith, h))
  get_elem?-take zero (x ∷ xs) h = (x, refl, refl)
  get_elem?-take (suc n) (x ∷ xs) h =
      let (y, e, f) = get_elem?-take n xs (omega (arith, h)) in (y, e, ap (◌∷◌ x) f)

  length-take : (n : ℕ) (xs : List A) → n ≤ length xs → length (take n xs) ≡ n
  length-take zero xs h = refl
  length-take (suc n) [] h = absurd (omega (arith, h))
  length-take (suc n) (x ∷ xs) h = ap suc (length-take n xs (omega (arith, h)))

  take-take : (n : ℕ) (xs : List A) → take n (take (suc n) xs) ≡ take n xs
  take-take zero xs = refl
  take-take (suc n) [] = refl
  take-take (suc n) (x ∷ xs) = ap (◌∷◌ x) (take-take n xs)

  abbrev pub backwards : List A → List A
  backwards [] = []
  backwards (x ∷ xs) = backwards xs ++ (x ∷ [])

  backwards_snoc : (xs : List A) (x : A) → backwards (xs ++ (x ∷ [])) ≡ x ∷ backwards xs
  backwards_snoc [] x = refl
  backwards_snoc (y ∷ xs) x = ap (λ ys. ys ++ (y ∷ [])) (backwards_snoc xs x)

  clean_all_lem :
      (n : ℕ) (t : Array A)
      → n ≤ length t.items
      → (u : Array A) × (clean_all n t ≡ ok u)
        × (u.cleaned ≡ t.cleaned ++ backwards (take n t.items))
  unfolding clean_all
  clean_all_lem zero t h = (t, refl, sym (append-nil t.cleaned))
  clean_all_lem (suc n) t h =
      let (x, e, f) = get_elem?-take n t.items (omega (arith, h)) in
      let next : Array A = record t {
        size = n;
        items = take n t.items;
        cleaned = t.cleaned ++ (x ∷ []);
      } in
      let (u, run, done) =
        clean_all_lem n next (omega (arith, length-take n t.items (omega (arith, h)))) in
      let same : take n (take n t.items) ≡ take n t.items =
        take_all n (take n t.items) (omega (arith, length-take n t.items (omega (arith, h)))) in
      (
        u,
        rw e run,
        done
            ∙ ap (λ ys. (t.cleaned ++ (x ∷ [])) ++ backwards ys) same
            ∙ append_assoc t.cleaned (x ∷ []) (backwards (take n t.items))
            ∙ ap (λ ys. t.cleaned ++ ys)
                (sym (backwards_snoc (take n t.items) x) ∙ ap backwards (sym f)),
      )

  -- `destruct_target` on a valid array calls the cleanup handler on every item exactly once, the last
  -- item first, and leaves an array with no items and no capacity.
  pub destruct_target-cleaned :
      (t : Array A)
      → IsArray t
      → destruct_target t
        ≡ ok (record {
          size = 0;
          capacity = 0;
          slots = 0;
          items = [];
          cleaned = t.cleaned ++ backwards t.items;
        })
  unfolding destruct_target
  destruct_target-cleaned t v =
      let (u, run, done) = clean_all_lem t.size t (omega (arith, v.counted)) in
      let whole : take t.size t.items ≡ t.items =
        take_all t.size t.items (omega (arith, v.counted)) in
      rw (run, done, whole) refl

  resize-IsArray : (t : Array A) → IsArray t → IsArray (resize (t.capacity * 2) t)
  resize-IsArray t v =
      let same : take (t.capacity * 2) t.items ≡ t.items =
        take_all (t.capacity * 2) t.items (omega (arith, v.counted, v.fits)) in
      record {
        counted = rw same v.counted;
        fits = omega (arith, v.fits);
        room = refl;
        nonempty = omega (arith, v.nonempty);
      }

  items-resize : (t : Array A) → IsArray t → (resize (t.capacity * 2) t).items ≡ t.items
  items-resize t v = take_all (t.capacity * 2) t.items (omega (arith, v.counted, v.fits))

  abbrev pushed : A → Array A → Array A
  pushed element t = record t { size = t.size + 1; items = t.items ++ (element ∷ []) }

  pushed-IsArray :
      (element : A) (t : Array A) → IsArray t → t.size < t.capacity → IsArray (pushed element t)
  pushed-IsArray element t v h = record {
    counted = omega (arith, v.counted, length-append t.items (element ∷ []));
    fits = omega (arith, h);
    room = v.room;
    nonempty = v.nonempty;
  }

  copy_back_lem :
      (element : A) (t : Array A)
      → IsArray t
      → t.size < t.capacity
      → copy_back element t ≡ ok (pushed element t)
  copy_back_lem element t v h = ground (arith, v.room)

  insert_back_lem :
      (t : Array A) (element : A)
      → IsArray t
      → (u : Array A) × (insert_back true element t ≡ ok u)
        × IsArray u
        × (u.items ≡ t.items ++ (element ∷ []))
        × (u.cleaned ≡ t.cleaned)
  unfolding insert_back
  insert_back_lem t element v = elim (Bool-cases (t.capacity == t.size)) [
    | inl e ↦
        let r = resize (t.capacity * 2) t in
        let w = resize-IsArray t v in
        let lt : t.size < t.capacity * 2 = ground (arith, e, v.nonempty) in
        (
          pushed element r,
          rw e (copy_back_lem element r w lt),
          pushed-IsArray element r w lt,
          ap (λ xs. xs ++ (element ∷ [])) (items-resize t v),
          refl,
        )
    | inr e ↦
        let lt : t.size < t.capacity = ground (arith, e, v.fits) in
        (
          pushed element t,
          rw e (copy_back_lem element t v lt),
          pushed-IsArray element t v lt,
          refl,
          refl,
        )
  ]

  remove_back_lem :
      (u : Array A) (xs : List A) (x : A)
      → IsArray u
      → u.items ≡ xs ++ (x ∷ [])
      → (w : Array A) × (remove_back u ≡ ok w)
        × IsArray w
        × (w.items ≡ xs)
        × (w.cleaned ≡ u.cleaned ++ (x ∷ []))
  unfolding remove_back
  remove_back_lem u xs x v e =
      let size : u.size ≡ suc (length xs) =
        sym v.counted ∙ ap length e ∙ omega (arith, length-append xs (x ∷ [])) in
      let last : get_elem? u.items (length xs) ≡ some x =
        ap (λ ys. get_elem? ys (length xs)) e
        ∙ ap (get_elem? (xs ++ (x ∷ []))) (omega arith)
        ∙ get_elem?-append xs (x ∷ []) 0 in
      let rest : take (length xs) u.items ≡ xs =
        ap (take (length xs)) e ∙ take-append xs (x ∷ []) in
      (
        record u {
          size = length xs;
          items = take (length xs) u.items;
          cleaned = u.cleaned ++ (x ∷ []);
        },
        ap (λ n. remove_from n u) size ∙ ap (clean_back (length xs) u) last,
        record {
          counted = ap length rest;
          fits = omega (arith, size, v.fits);
          room = v.room;
          nonempty = v.nonempty;
        },
        rest,
        refl,
      )

  -- Where memory is found, inserting into a valid array puts the item behind the others, leaves a
  -- valid array and cleans nothing; and removing the last item of that array calls the cleanup handler
  -- on it alone and gives a valid array of the old items.
  pub remove_back-insert_back :
      (t : Array A) (element : A)
      → IsArray t
      → (u : Array A) × (insert_back true element t ≡ ok u)
        × IsArray u
        × (u.items ≡ t.items ++ (element ∷ []))
        × (u.cleaned ≡ t.cleaned)
        × ((w : Array A) × (remove_back u ≡ ok w)
            × IsArray w
            × (w.items ≡ t.items)
            × (w.cleaned ≡ t.cleaned ++ (element ∷ [])))
  remove_back-insert_back t element v =
      let (u, run, w, items, cleaned) = insert_back_lem t element v in
      let (r, back, z, old, done) = remove_back_lem u t.items element w items in
      (u, run, w, items, cleaned, (r, back, z, old, done ∙ ap (λ ys. ys ++ (element ∷ [])) cleaned))
