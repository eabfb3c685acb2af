-- ===== src/Http/Query/RoundTrip.antt =====
-- `parse_query_parameters` on texts "key=value&key=value…", and lookups in what it returns.
use http_web_server_c.Base.{
  ℕ, zero, suc, ◌+◌, ◌≤◌, ◌<◌, ◌≡◌, refl, ap, ◌∙◌, ◌≢◌, inl, inr, true, false, none, some, List, [],
  ◌∷◌, ◌++◌, append-nil, append_assoc, arith, ltb, leb, if◌then◌else◌, Bool-cases, length,
  length-append, Outcome, ok,
}
use http_web_server_c.Http.Query.{
  free_query_parameters, parse_query_parameters, query_loop, query_round, ample, QueryParameter,
  QueryParameters, parse_http_query_parameter, insert_query_parameter,
}
use http_web_server_c.CString.{strtok, Bytes}
use http_web_server_c.CString.Search.{strtok_last, strtok_lem, Lacks-append, Lacks}

-- A key or a value: some bytes, none of them a delimiter.
pub record IsToken (s : Bytes) : Type 0 where
  pub nonempty : s ≢ []
  pub no_equals : Lacks b'=' s
  pub no_ampersand : Lacks b'&' s

pub record Pair : Type 0 where
  pub name : Bytes
  pub content : Bytes

abbrev pub IsPair : Pair → Type 0
IsPair p = IsToken p.name × IsToken p.content

abbrev pub AllPairs : List Pair → Type 0
AllPairs [] = Unit
AllPairs (p ∷ ps) = IsPair p × AllPairs ps

abbrev pub print_pair : Pair → Bytes
print_pair p = p.name ++ b'=' ∷ p.content

abbrev pub print_query : List Pair → Bytes
print_query [] = []
print_query (p ∷ []) = print_pair p
print_query (p ∷ r ∷ ps) = print_pair p ++ b'&' ∷ print_query (r ∷ ps)

-- How a pair is stored.
abbrev pub parameter : Pair → QueryParameter
parameter p = record { key = some p.name; value = some p.content; key_freed = false }

abbrev pub parameters : List Pair → List QueryParameter
parameters [] = []
parameters (p ∷ ps) = parameter p ∷ parameters ps

pub strtok_token :
    (b : ℕ) (s rest : Bytes) → s ≢ [] → Lacks b s → strtok b (s ++ b ∷ rest) ≡ some (s, rest)
strtok_token b [] rest h l = absurd (h refl)
strtok_token b (c ∷ s) rest h l = strtok_lem b c s rest l

pub strtok_end : (b : ℕ) (s : Bytes) → s ≢ [] → Lacks b s → strtok b s ≡ some (s, [])
strtok_end b [] h l = absurd (h refl)
strtok_end b (c ∷ s) h l = strtok_last b c s l

parse_pair : (p : Pair) → IsPair p → parse_http_query_parameter ample (print_pair p) ≡ parameter p
unfolding parse_http_query_parameter
parse_pair p (n, c) = rw (
  strtok_token b'=' p.name p.content n.nonempty n.no_equals,
  strtok_end b'=' p.content c.nonempty c.no_equals,
)

-- The array of the parser: ten slots, of which the first ones are written.
pub record IsArray (q : QueryParameters) : Type 0 where
  pub counted : length q.items ≡ q.size
  pub room : q.slots ≡ 10
  pub fits : q.size ≤ 10

insert_pair :
    (q : QueryParameters) (p : Pair)
    → IsPair p
    → IsArray q
    → insert_query_parameter ample q (print_pair p) ≡ (
        if ltb q.size 10
        then ok (record q { size = q.size + 1; items = q.items ++ (parameter p ∷ []) }, true)
        else ok (q, false))
unfolding insert_query_parameter
insert_pair q p w v = ground (arith, parse_pair p w)

print_pair-token : (p : Pair) → IsPair p → Lacks b'&' (print_pair p)
print_pair-token p (n, c) =
    Lacks-append b'&' p.name (b'=' ∷ p.content) n.no_ampersand (refl, c.no_ampersand)

print_pair-nonempty : (p : Pair) → print_pair p ≢ []
print_pair-nonempty p = go p.name
  where
    go : (n : Bytes) → (n ++ b'=' ∷ p.content) ≢ []
    go [] = λ e. cc
    go (c ∷ n) = λ e. cc

abbrev pushed : QueryParameters → Pair → QueryParameters
pushed q p = record q { size = q.size + 1; items = q.items ++ (parameter p ∷ []) }

pushed-IsArray : (q : QueryParameters) (p : Pair) → IsArray q → q.size < 10 → IsArray (pushed q p)
pushed-IsArray q p v lt = record {
  counted = omega (arith, v.counted, length-append q.items (parameter p ∷ []));
  room = v.room;
  fits = omega arith;
}

abbrev freed : QueryParameters
freed = record { size = 0; slots = 0; items = [] }

-- What the loop returns on the pairs `ps` from the array `q`.
abbrev outcome : QueryParameters → List Pair → QueryParameters
outcome q ps =
    if leb (q.size + length ps) 10
    then (record { size = q.size + length ps; slots = 10; items = q.items ++ parameters ps })
    else freed

query_round_pair :
    (go : Bytes → QueryParameters → Outcome QueryParameters) (q : QueryParameters) (p : Pair)
    (rest : Bytes)
    → IsPair p
    → IsArray q
    → query_round go q (some (print_pair p, rest))
      ≡ (if ltb q.size 10 then go rest (pushed q p) else ok freed)
unfolding query_round free_query_parameters
query_round_pair go q p rest w v = ground (arith, insert_pair q p w v)

strtok_nil : strtok b'&' [] ≡ none
unfolding strtok
strtok_nil = refl

outcome_nil : (q : QueryParameters) → IsArray q → q ≡ outcome q []
outcome_nil q v = ground (arith, append-nil q.items)

outcome_cons :
    (q : QueryParameters) (p : Pair) (ps : List Pair)
    → (if ltb q.size 10 then ok (outcome (pushed q p) ps) else ok freed) ≡ ok (outcome q (p ∷ ps))
outcome_cons q p ps = ground (arith, append_assoc q.items (parameter p ∷ []) (parameters ps))

length-print_pair : (p : Pair) → 0 < length (print_pair p)
length-print_pair p = omega (arith, length-append p.name (b'=' ∷ p.content))

query_loop_lem :
    (fuel : ℕ) (q : QueryParameters) (ps : List Pair)
    → length (print_query ps) < fuel
    → AllPairs ps
    → IsArray q
    → query_loop fuel (print_query ps) q ≡ ok (outcome q ps)
unfolding query_loop
query_loop_lem zero q ps lt w v = absurd (omega arith)
query_loop_lem (suc f) q [] lt w v = rw strtok_nil (ap ok (outcome_nil q v))
query_loop_lem (suc zero) q (p ∷ []) lt (w, ws) v = absurd (omega (arith, length-print_pair p))
query_loop_lem (suc (suc f)) q (p ∷ []) lt (w, ws) v =
    rw (strtok_end b'&' (print_pair p) (print_pair-nonempty p) (print_pair-token p w)) (
      query_round_pair (query_loop (suc f)) q p [] w v
      ∙ rw strtok_nil (ground (arith, append-nil q.items)))
query_loop_lem (suc f) q (p ∷ r ∷ ps) lt (w, ws) v =
    rw
      (strtok_token b'&' (print_pair p) (print_query (r ∷ ps)) (print_pair-nonempty p)
        (print_pair-token p w))
      (query_round_pair (query_loop f) q p (print_query (r ∷ ps)) w v
        ∙ elim (Bool-cases (ltb q.size 10)) [
          | inl e ↦
              let room : q.size < 10 = ground arith in
              let less : length (print_query (r ∷ ps)) < f =
                omega (arith, length-append (print_pair p) (b'&' ∷ print_query (r ∷ ps))) in
              rw e (
                query_loop_lem f (pushed q p) (r ∷ ps) less ws (pushed-IsArray q p v room)
                ∙ rw e at (outcome_cons q p (r ∷ ps)))
          | inr e ↦ rw e (rw e at (outcome_cons q p (r ∷ ps)))
        ])

-- A query text of well-formed pairs, joined by '&', is parsed to exactly those pairs in order when
-- there are at most ten of them; with more than ten everything is freed and the result is empty. In
-- both cases the call ends with no undefined behaviour.
pub parse_query_parameters-print :
    (ps : List Pair)
    → AllPairs ps
    → parse_query_parameters (print_query ps)
      ≡ ok (
          if leb (length ps) 10
          then (record { size = length ps; slots = 10; items = parameters ps })
          else freed)
unfolding parse_query_parameters
parse_query_parameters-print ps w =
    query_loop_lem (length (print_query ps) + 1) (record { size = 0; slots = 10; items = [] }) ps
      (omega arith) w (record { counted = refl; room = refl; fits = omega arith })
    ∙ ground arith
