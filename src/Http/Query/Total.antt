-- ===== src/Http/Query/Total.antt =====
-- `parse_query_parameters` on any text, and an insertion whose last copy fails.
use http_web_server_c.Http.Query.RoundTrip.{
  IsArray, strtok_end, strtok_token, print_pair, IsPair, Pair,
}
use http_web_server_c.Base.{
  ℕ, zero, suc, ◌+◌, ◌<◌, ◌≡◌, refl, ◌⊎◌, inl, inr, Bool, true, false, Option, none, some, [], ◌∷◌,
  arith, ltb, leb, Bool-cases, Option-cases, length, length-append, Outcome, ok, fault, abort,
  timeout, ◌>>=◌,
}
use http_web_server_c.CString.Search.{length-strtok-lt}
use http_web_server_c.CString.{strtok, Bytes}
use http_web_server_c.Http.Query.{
  checked_parameter, store_parameter, QueryParameter, ample, go_on, query_round, QueryParameters,
  free_query_parameters, parse_http_query_parameter, parse_query_parameters, query_loop,
  insert_query_parameter,
}

abbrev pub released : QueryParameters
released = record { size = 0; slots = 0; items = [] }

-- A call that returns, with `P` of its result.
abbrev pub Returns {ℓ} : {A : Type ℓ} → (A → Type 0) → Outcome A → Type 0
Returns P (ok a) = P a
Returns P fault = ⊥
Returns P abort = ⊥
Returns P timeout = ⊥

abbrev pub IsResult : QueryParameters → Type 0
IsResult q = IsArray q ⊎ (q ≡ released)

key_kept : (s : Bytes) → (parse_http_query_parameter ample s).key_freed ≡ false
unfolding parse_http_query_parameter
key_kept s = ground arith

abbrev IsInserted : QueryParameters × Bool → Type 0
IsInserted (q, true) = IsArray q
IsInserted (q, false) = Unit

store_parameter-IsArray :
    (q : QueryParameters) (p : QueryParameter)
    → IsArray q
    → q.size < 10
    → Returns IsInserted (store_parameter ample q p)
store_parameter-IsArray q p v lt =
    let test : ltb q.size q.slots ≡ true = ground (arith, v.room) in
    rw test (record {
      counted = omega (arith, v.counted, length-append q.items (p ∷ []));
      room = v.room;
      fits = omega arith;
    })

checked_parameter-IsArray :
    (q : QueryParameters) (k v : Option Bytes) (p : QueryParameter)
    → p.key_freed ≡ false
    → IsArray q
    → q.size < 10
    → Returns IsInserted (checked_parameter ample q k v p)
checked_parameter-IsArray q none none p e v lt = rw e tt
checked_parameter-IsArray q none (some c) p e v lt = rw e tt
checked_parameter-IsArray q (some k) none p e v lt = rw e tt
checked_parameter-IsArray q (some k) (some c) p e v lt = store_parameter-IsArray q p v lt

insert_query_parameter-IsArray :
    (q : QueryParameters) (s : Bytes)
    → IsArray q
    → Returns IsInserted (insert_query_parameter ample q s)
unfolding insert_query_parameter
insert_query_parameter-IsArray q s v =
    let p = parse_http_query_parameter ample s in
    elim (Bool-cases (leb 10 q.size)) [
      | inl e ↦ rw e tt
      | inr e ↦ rw e (checked_parameter-IsArray q p.key p.value p (key_kept s) v (ground arith))
    ]

abbrev Keeps : (Bytes → QueryParameters → Outcome QueryParameters) → ℕ → Type 0
Keeps go n =
    (s : Bytes) (q : QueryParameters) → length s < n → IsArray q → Returns IsResult (go s q)

go_on-Keeps :
    (go : Bytes → QueryParameters → Outcome QueryParameters) (n : ℕ) (rest : Bytes)
    (m : Outcome (QueryParameters × Bool))
    → Keeps go n
    → length rest < n
    → Returns IsInserted m
    → Returns IsResult (m >>= go_on go rest)
unfolding free_query_parameters
go_on-Keeps go n rest (ok (q, true)) k lt h = k rest q lt h
go_on-Keeps go n rest (ok (q, false)) k lt h = inr refl
go_on-Keeps go n rest fault k lt h = h
go_on-Keeps go n rest abort k lt h = h
go_on-Keeps go n rest timeout k lt h = h

query_loop-Keeps : (fuel : ℕ) → Keeps (query_loop fuel) fuel
unfolding query_loop query_round
query_loop-Keeps zero s q lt v = absurd (omega arith)
query_loop-Keeps (suc f) s q lt v = elim (Option-cases (strtok b'&' s)) [
  | inl e ↦ rw e (inl v)
  | inr ((token, rest), e) ↦ rw e (
      go_on-Keeps (query_loop f) f rest (insert_query_parameter ample q token) (query_loop-Keeps f)
        (omega (arith, length-strtok-lt b'&' s token rest e))
        (insert_query_parameter-IsArray q token v))
]

-- On every text `parse_query_parameters` returns, with no undefined behaviour and within its fuel:
-- either an array of ten slots whose written ones are counted by `size`, at most ten, or the empty
-- result of a failure.
pub parse_query_parameters_total : (s : Bytes) → Returns IsResult (parse_query_parameters s)
unfolding parse_query_parameters
parse_query_parameters_total s =
    query_loop-Keeps (length s + 1) s (record { size = 0; slots = 10; items = [] }) (omega arith)
      (record { counted = refl; room = refl; fits = omega arith })

-- When the copy of the value is the only allocation that fails, inserting a well-formed pair into an
-- array with room frees the copy of the key twice.
pub insert_query_parameter_double_free :
    (q : QueryParameters) (p : Pair)
    → IsPair p
    → q.size < 10
    → insert_query_parameter (record ample { strdup_value = false }) q (print_pair p) ≡ fault
unfolding insert_query_parameter parse_http_query_parameter
insert_query_parameter_double_free q p (n, c) lt =
    rw
      (
        strtok_token b'=' p.name p.content n.nonempty n.no_equals,
        strtok_end b'=' p.content c.nonempty c.no_equals,
      )
      (ground arith)
