-- ===== src/Tests/Blocks.antt =====
-- The blocks of a request with one header and one query parameter, and of a response without headers.
use http_web_server_c.Blocks.Destruct.{
  destruct_http_request_twice, clean_up-Owns, destructed_request,
}
use http_web_server_c.Blocks.Contents.{request_blocks, received_blocks, response_blocks}
use http_web_server_c.Blocks.Owned.{Without, AllLive}
use http_web_server_c.CString.Search.{Lacks-lacks, Distinct, lacks}
use http_web_server_c.Blocks.{
  clean_up, destruct_http_request, Live, Pairs, Parameters, Request, Response,
}
use http_web_server_c.Base.{
  ℕ, ◌≡◌, refl, Bool, true, ◌&&◌, none, some, List, [], ◌∷◌, ◌++◌, arith, ltb, ok, fault,
}

abbrev below_hundred : Live
below_hundred a = ltb a 100

abbrev one_header : Pairs
one_header = record {
  size = 1;
  capacity = 4;
  items = 10;
  entries = record { block = 13; key = 11; value = 12 } ∷ [];
}

abbrev one_parameter : Parameters
one_parameter = record {
  size = 1;
  items = some 16;
  entries = some (record { block = 17; key = some 18; value = none }) ∷ [];
}

abbrev received : Request
received = record {
  headers = one_header;
  body = some 14;
  path = some 15;
  query_parameters = one_parameter;
}

abbrev no_headers : Pairs
no_headers = record { size = 0; capacity = 0; items = 0; entries = [] }

abbrev answered : Response
answered = record { block = 19; headers = no_headers; body = some 20 }

abbrev distinct : List ℕ → Bool
distinct [] = true
distinct (x ∷ xs) = lacks x xs && distinct xs

pub Distinct-distinct : (xs : List ℕ) → distinct xs ≡ true → Distinct xs
Distinct-distinct [] e = tt
Distinct-distinct (x ∷ xs) e =
    (Lacks-lacks x xs (ground (arith, e)), Distinct-distinct xs (ground (arith, e)))

abbrev live_all : List ℕ → Live → Bool
live_all [] live = true
live_all (x ∷ xs) live = live x && live_all xs live

AllLive-live_all : (xs : List ℕ) (live : Live) → live_all xs live ≡ true → AllLive xs live
AllLive-live_all [] live e = tt
AllLive-live_all (x ∷ xs) live e = (ground (arith, e), AllLive-live_all xs live (ground (arith, e)))

destruct_http_request_twice_example :
    (after : Live) × (destruct_http_request received below_hundred
      ≡ ok (destructed_request received, after))
    × Without (request_blocks received) below_hundred after
    × (destruct_http_request (destructed_request received) after ≡ fault)
destruct_http_request_twice_example =
    destruct_http_request_twice received below_hundred 14 refl (refl, refl)
      (
        Distinct-distinct (request_blocks received) refl,
        AllLive-live_all (request_blocks received) below_hundred refl,
      )

abbrev all_blocks : List ℕ
all_blocks = (response_blocks (some answered) ++ (21 ∷ [])) ++ received_blocks (some (22, received))

clean_up-Owns_example :
    (after : Live) × (clean_up (some answered) 21 (some (22, received)) below_hundred ≡ ok after)
    × Without all_blocks below_hundred after
clean_up-Owns_example =
    clean_up-Owns (some answered) 21 (some (22, received)) below_hundred refl (refl, refl)
      (Distinct-distinct all_blocks refl, AllLive-live_all all_blocks below_hundred refl)
