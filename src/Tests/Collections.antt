-- ===== src/Tests/Collections.antt =====
-- The dynamic array, with numbers for the items.
use http_web_server_c.Base.{ℕ, ◌≡◌, refl, true, [], ◌∷◌, fault, ◌>>=◌}
use http_web_server_c.Collections.{insert_back, Array, reserve_array}

abbrev two_items : Array ℕ
two_items = record { size = 2; capacity = 2; slots = 2; items = 4 ∷ 5 ∷ []; cleaned = [] }

-- An array that is reserved below its size is written outside its room.
reserve_array_below : reserve_array true 1 two_items >>= insert_back true 6 ≡ fault
unfolding reserve_array insert_back
reserve_array_below = refl
