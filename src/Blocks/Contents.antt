-- ===== src/Blocks/Contents.antt =====
-- The blocks that a struct owns, in the order in which they are freed.
use http_web_server_c.Blocks.Owned.{pointer_blocks}
use http_web_server_c.Blocks.{Pairs, Parameter, Parameters, Request, Response, Pair}
use http_web_server_c.Base.{
  ℕ, ◌≡◌, Option, none, some, List, [], ◌∷◌, ◌++◌, ◌==◌, if◌then◌else◌, length,
}

abbrev pub pair_blocks : Pair → List ℕ
pair_blocks p = p.key ∷ p.value ∷ p.block ∷ []

abbrev pub entry_blocks : List Pair → List ℕ
entry_blocks [] = []
entry_blocks (p ∷ ps) = pair_blocks p ++ entry_blocks ps

abbrev pub pairs_blocks : Pairs → List ℕ
pairs_blocks t = entry_blocks t.entries ++ (t.items ∷ [])

-- A struct with no capacity owns nothing.
abbrev pub filled_blocks : Pairs → List ℕ
filled_blocks t = if t.capacity == 0 then [] else pairs_blocks t

abbrev pub parameter_blocks : Option Parameter → List ℕ
parameter_blocks none = []
parameter_blocks (some p) = (pointer_blocks p.key ++ pointer_blocks p.value) ++ (p.block ∷ [])

abbrev pub parameter_list_blocks : List (Option Parameter) → List ℕ
parameter_list_blocks [] = []
parameter_list_blocks (p ∷ ps) = parameter_blocks p ++ parameter_list_blocks ps

abbrev pub items_blocks : List (Option Parameter) → Option ℕ → List ℕ
items_blocks entries none = []
items_blocks entries (some items) = parameter_list_blocks entries ++ (items ∷ [])

abbrev pub parameters_blocks : Parameters → List ℕ
parameters_blocks q = items_blocks q.entries q.items

abbrev pub request_blocks : Request → List ℕ
request_blocks r =
    pointer_blocks r.body
    ++ (filled_blocks r.headers ++ (pointer_blocks r.path ++ parameters_blocks r.query_parameters))

abbrev pub response_blocks : Option Response → List ℕ
response_blocks none = []
response_blocks (some r) = pointer_blocks r.body ++ (filled_blocks r.headers ++ (r.block ∷ []))

abbrev pub received_blocks : Option (ℕ × Request) → List ℕ
received_blocks none = []
received_blocks (some (block, r)) = request_blocks r ++ (block ∷ [])

-- The sizes count the entries that were written.
abbrev pub IsCounted : Request → Type 0
IsCounted r =
    (length r.headers.entries ≡ r.headers.size)
    × (length r.query_parameters.entries ≡ r.query_parameters.size)

abbrev pub ResponseIsCounted : Option Response → Type 0
ResponseIsCounted none = Unit
ResponseIsCounted (some r) = length r.headers.entries ≡ r.headers.size

abbrev pub ReceivedIsCounted : Option (ℕ × Request) → Type 0
ReceivedIsCounted none = Unit
ReceivedIsCounted (some (block, r)) = IsCounted r
