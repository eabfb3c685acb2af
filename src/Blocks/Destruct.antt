-- ===== src/Blocks/Destruct.antt =====
-- What the destructors free, and that they free it once.
use http_web_server_c.Blocks.Contents.{
  received_blocks, response_blocks, IsCounted, ReceivedIsCounted, ResponseIsCounted, entry_blocks,
  filled_blocks, items_blocks, pair_blocks, pairs_blocks, parameter_blocks, parameter_list_blocks,
  parameters_blocks, request_blocks,
}
use http_web_server_c.Base.{
  ℕ, zero, suc, ◌≡◌, refl, ◌∙◌, inl, inr, false, Option, none, some, List, [], ◌∷◌, ◌++◌, arith,
  ◌==◌, if◌then◌else◌, Bool-cases, length, ok, fault, ◌>>=◌,
}
use http_web_server_c.Blocks.Owned.{
  behind-Destructs, freed-Destructs, map-Destructs, free_pointer-Frees, bind-Destructs,
  return-Destructs, Destructs, free-Frees, bind-Frees, nothing-Frees, Without, Frees, Owns,
  pointer_blocks,
}
use http_web_server_c.Blocks.{
  destruct_path, clean_up, destruct_query, free_request, free_response, destruct_filled,
  free_pointer, cleared_parameters, destruct_http_request, free_entries, free_items, free_parameter,
  free_parameters, free, free_pair, free_pairs, cleared_pairs, Live, Pair, Pairs, Parameter,
  Parameters, Request, Response, destruct_pairs,
}

free_pair-Frees : (p : Pair) → Frees (pair_blocks p) (free_pair p)
free_pair-Frees p =
    bind-Frees (p.key ∷ p.value ∷ []) (p.block ∷ []) (λ live. free p.key live >>= free p.value)
      (free p.block)
      (bind-Frees (p.key ∷ []) (p.value ∷ []) (free p.key) (free p.value) (free-Frees p.key)
        (free-Frees p.value))
      (free-Frees p.block)

free_pairs-Frees :
    (n : ℕ) (ps : List Pair) → length ps ≡ n → Frees (entry_blocks ps) (free_pairs n ps)
free_pairs-Frees zero [] h = nothing-Frees
free_pairs-Frees zero (p ∷ ps) h = absurd (omega (arith, h))
free_pairs-Frees (suc n) [] h = absurd (omega (arith, h))
free_pairs-Frees (suc n) (p ∷ ps) h =
    bind-Frees (pair_blocks p) (entry_blocks ps) (free_pair p) (free_pairs n ps) (free_pair-Frees p)
      (free_pairs-Frees n ps (omega (arith, h)))

destruct_pairs-Destructs :
    (t : Pairs)
    → length t.entries ≡ t.size
    → Destructs (pairs_blocks t) (cleared_pairs t) (destruct_pairs t)
unfolding destruct_pairs
destruct_pairs-Destructs t h =
    return-Destructs (pairs_blocks t) (cleared_pairs t)
      (λ live. free_pairs t.size t.entries live >>= free t.items)
      (bind-Frees (entry_blocks t.entries) (t.items ∷ []) (free_pairs t.size t.entries)
        (free t.items) (free_pairs-Frees t.size t.entries h) (free-Frees t.items))

-- The struct behind `if (headers.capacity) destruct_http_headers(&headers)`.
abbrev pub destructed : Pairs → Pairs
destructed t = if t.capacity == 0 then t else cleared_pairs t

destruct_filled-Destructs :
    (t : Pairs)
    → length t.entries ≡ t.size
    → Destructs (filled_blocks t) (destructed t) (destruct_filled t)
destruct_filled-Destructs t h = elim (Bool-cases (t.capacity == 0)) [
  | inl e ↦ rw e (λ live o. (live, refl, λ a. ground arith))
  | inr e ↦ rw e (destruct_pairs-Destructs t h)
]

free_parameter-Frees : (p : Option Parameter) → Frees (parameter_blocks p) (free_parameter p)
free_parameter-Frees none = nothing-Frees
free_parameter-Frees (some p) =
    bind-Frees (pointer_blocks p.key ++ pointer_blocks p.value) (p.block ∷ [])
      (λ live. free_pointer p.key live >>= free_pointer p.value) (free p.block)
      (bind-Frees (pointer_blocks p.key) (pointer_blocks p.value) (free_pointer p.key)
        (free_pointer p.value) (free_pointer-Frees p.key) (free_pointer-Frees p.value))
      (free-Frees p.block)

free_entries-Frees :
    (n : ℕ) (ps : List (Option Parameter))
    → length ps ≡ n
    → Frees (parameter_list_blocks ps) (free_entries n ps)
free_entries-Frees zero [] h = nothing-Frees
free_entries-Frees zero (p ∷ ps) h = absurd (omega (arith, h))
free_entries-Frees (suc n) [] h = absurd (omega (arith, h))
free_entries-Frees (suc n) (p ∷ ps) h =
    bind-Frees (parameter_blocks p) (parameter_list_blocks ps) (free_parameter p)
      (free_entries n ps) (free_parameter-Frees p) (free_entries-Frees n ps (omega (arith, h)))

free_items-Frees :
    (q : Parameters) (items : Option ℕ)
    → length q.entries ≡ q.size
    → Frees (items_blocks q.entries items) (λ live. free_items q live items)
free_items-Frees q none h = nothing-Frees
free_items-Frees q (some items) h =
    bind-Frees (parameter_list_blocks q.entries) (items ∷ []) (free_entries q.size q.entries)
      (free items) (free_entries-Frees q.size q.entries h) (free-Frees items)

free_parameters-Destructs :
    (q : Parameters)
    → length q.entries ≡ q.size
    → Destructs (parameters_blocks q) (cleared_parameters q) (free_parameters q)
unfolding free_parameters
free_parameters-Destructs q h =
    return-Destructs (parameters_blocks q) (cleared_parameters q)
      (λ live. free_items q live q.items) (free_items-Frees q q.items h)

-- What `destruct_http_request` leaves of the struct.
abbrev pub destructed_request : Request → Request
destructed_request r = record r {
  headers = destructed r.headers;
  query_parameters = cleared_parameters r.query_parameters;
}

destruct_http_request-Destructs :
    (r : Request)
    → IsCounted r
    → Destructs (request_blocks r) (destructed_request r) (destruct_http_request r)
unfolding destruct_http_request
destruct_http_request-Destructs r (counted, counted') =
    let h = destructed r.headers in
    let query = parameters_blocks r.query_parameters in
    let rest =
      bind-Destructs (pointer_blocks r.path) query (destructed_request r) (free_pointer r.path)
        (destruct_query r h) (free_pointer-Frees r.path)
        (map-Destructs query (cleared_parameters r.query_parameters)
          (λ q. record r { headers = h; query_parameters = q }) (free_parameters r.query_parameters)
          (free_parameters-Destructs r.query_parameters counted')) in
    bind-Destructs (pointer_blocks r.body)
      (filled_blocks r.headers ++ (pointer_blocks r.path ++ query)) (destructed_request r)
      (free_pointer r.body)
      (λ between. destruct_filled r.headers between >>= λ t. destruct_path r t.0 t.1)
      (free_pointer-Frees r.body)
      (behind-Destructs (filled_blocks r.headers) (pointer_blocks r.path ++ query) h
        (destructed_request r) (destruct_filled r.headers) (destruct_path r)
        (destruct_filled-Destructs r.headers counted) rest)

free_response-Frees :
    (o : Option Response) → ResponseIsCounted o → Frees (response_blocks o) (free_response o)
free_response-Frees none c = nothing-Frees
free_response-Frees (some r) c =
    bind-Frees (pointer_blocks r.body) (filled_blocks r.headers ++ (r.block ∷ []))
      (free_pointer r.body) (λ between. destruct_filled r.headers between >>= λ h. free r.block h.1)
      (free_pointer-Frees r.body)
      (freed-Destructs (filled_blocks r.headers) (r.block ∷ []) (destructed r.headers)
        (destruct_filled r.headers) (free r.block) (destruct_filled-Destructs r.headers c)
        (free-Frees r.block))

free_request-Frees :
    (o : Option (ℕ × Request)) → ReceivedIsCounted o → Frees (received_blocks o) (free_request o)
free_request-Frees none c = nothing-Frees
free_request-Frees (some (block, r)) c =
    freed-Destructs (request_blocks r) (block ∷ []) (destructed_request r) (destruct_http_request r)
      (free block) (destruct_http_request-Destructs r c) (free-Frees block)

-- The body is the first block of a request.
body_freed :
    (r : Request) (live after : Live) (body : ℕ)
    → r.body ≡ some body
    → Without (request_blocks r) live after
    → free_pointer r.body after ≡ fault
body_freed r live after body e w =
    let gone : after body ≡ false = w body ∙ rw e (ground arith) in rw (e, gone) refl

-- When the blocks of a request with a body are allocated and no two of them are the same, and its sizes
-- count its headers and parameters, `destruct_http_request` frees each of these blocks once and no
-- other, and clears the headers and the parameters; but the body keeps its pointer, so that
-- destructing the same struct again frees it a second time.
pub destruct_http_request_twice :
    (r : Request) (live : Live) (body : ℕ)
    → r.body ≡ some body
    → IsCounted r
    → Owns (request_blocks r) live
    → (after : Live) × (destruct_http_request r live ≡ ok (destructed_request r, after))
      × Without (request_blocks r) live after
      × (destruct_http_request (destructed_request r) after ≡ fault)
unfolding destruct_http_request
destruct_http_request_twice r live body e c o =
    let (after, run, w) = destruct_http_request-Destructs r c live o in
    (after, run, w, rw (body_freed r live after body e w) refl)

-- At the end of `handle_http_request`, when the response is not one of the three that are prepared, its
-- blocks, the text that was sent, and the blocks of the request are freed, each once and no other;
-- of a prepared response nothing is freed. The blocks are allocated and no two are the same.
pub clean_up-Owns :
    (response : Option Response) (text : ℕ) (request : Option (ℕ × Request)) (live : Live)
    → ResponseIsCounted response
    → ReceivedIsCounted request
    → Owns ((response_blocks response ++ (text ∷ [])) ++ received_blocks request) live
    → (after : Live) × (clean_up response text request live ≡ ok after)
      × Without ((response_blocks response ++ (text ∷ [])) ++ received_blocks request) live after
unfolding clean_up
clean_up-Owns response text request live c c' o =
    bind-Frees (response_blocks response ++ (text ∷ [])) (received_blocks request)
      (λ live. free_response response live >>= free text) (free_request request)
      (bind-Frees (response_blocks response) (text ∷ []) (free_response response) (free text)
        (free_response-Frees response c) (free-Frees text))
      (free_request-Frees request c') live o
