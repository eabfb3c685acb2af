-- ===== src/Http/Routes/Laws.antt =====
-- The route table as a map: lookups after insertions, and refused insertions.
use http_web_server_c.Base.{
  ◌≡◌, refl, ap, ◌∙◌, ◌⊎◌, inl, inr, true, false, none, some, [], ◌∷◌, arith, ◌==◌, if◌then◌else◌,
  ok, fault, ◌>>=◌,
}
use http_web_server_c.CString.{Bytes, first_char}
use http_web_server_c.Utility.{same, url_path_cmp}
use http_web_server_c.Utility.Paths.{SamePath→same}
use http_web_server_c.Table.{Table, Memory, plenty}
use http_web_server_c.Table.Laws.{
  IsValid, init-IsValid, extended, extended-IsValid, append-grow, append-grow_fault, items-extended,
  find-IsValid, find?, find?-append, or_else,
}
use http_web_server_c.Http.Names.{Method, method_eq_refl}
use http_web_server_c.Http.Routes.{Route, route_matches, find_route, insert_route, init_routes}

url_path_cmp_refl : (a : Bytes) → url_path_cmp a a ≡ same
url_path_cmp_refl a = SamePath→same a a (inl refl)

module _ {C : Type 0} where
  abbrev pub route : Bytes → Method → C → Route C
  route path method callback = record { path = path; method = method; callback = callback }

  route_matches-route :
      (path : Bytes) (method : Method) (cb : C)
      → route_matches path method (route path method cb) ≡ true
  unfolding route_matches
  route_matches-route path method cb = ground (arith, method_eq_refl method, url_path_cmp_refl path)

  -- `find_route` on a valid table is the first match of its list.
  pub find_route-IsValid :
      (t : Table (Route C)) (path : Bytes) (method : Method)
      → IsValid t
      → find_route t path method ≡ ok (find? (route_matches path method) t.items)
  unfolding find_route
  find_route-IsValid t path method v = find-IsValid (route_matches path method) t v

  -- The empty table of `init_routes` is valid and has no route.
  pub init_routes-IsValid : IsValid (init_routes {C = C} true).0
  unfolding init_routes
  init_routes-IsValid = init-IsValid 8 (omega arith)

  insert_route_new :
      (t : Table (Route C)) (path : Bytes) (method : Method) (cb : C)
      → IsValid t
      → first_char path ≡ b'/'
      → find_route t path method ≡ ok none
      → insert_route plenty t path method cb ≡ ok (extended (route path method cb) t, true)
  unfolding insert_route
  insert_route_new t path method cb v slash e =
      ground (arith, append-grow (route path method cb) t v)

  find_route-extended :
      (t : Table (Route C)) (path p : Bytes) (method m : Method) (cb : C)
      → IsValid t
      → find_route (extended (route path method cb) t) p m
        ≡ ok (
            or_else (find? (route_matches p m) t.items) (
              if route_matches p m (route path method cb)
              then some (route path method cb)
              else none))
  find_route-extended t path p method m cb v =
      find_route-IsValid (extended (route path method cb) t) p m (extended-IsValid _ t v)
      ∙ ap (λ l. ok (find? (route_matches p m) l)) (items-extended (route path method cb) t)
      ∙ ap ok (find?-append (route_matches p m) t.items (route path method cb ∷ []))

  -- Inserting into a valid table a route whose path starts with '/' and that `find_route` does not
  -- find succeeds, with memory enough. The new table is valid; looking up the route's own path and
  -- method returns it; and any other lookup returns what it returned before, or the new route where
  -- it returned NULL and the new route matches.
  pub find_route-insert_route :
      (t : Table (Route C)) (path : Bytes) (method : Method) (cb : C)
      → IsValid t
      → first_char path ≡ b'/'
      → find_route t path method ≡ ok none
      → (t' : Table (Route C)) × (insert_route plenty t path method cb ≡ ok (t', true))
        × IsValid t'
        × (find_route t' path method ≡ ok (some (route path method cb)))
        × ((p : Bytes) (m : Method)
            → find_route t' p m ≡ (
                find_route t p m >>= λ old. ok (
                  or_else old (
                    if route_matches p m (route path method cb)
                    then some (route path method cb)
                    else none))))
  find_route-insert_route t path method cb v slash e = (
    extended (route path method cb) t,
    insert_route_new t path method cb v slash e,
    extended-IsValid _ t v,
    ground (
      arith,
      find_route-extended t path path method method cb v,
      find_route-IsValid t path method v,
      route_matches-route path method cb,
    ),
    λ p m. rw (find_route-IsValid t p m v) (find_route-extended t path p method m cb v),
  )

  -- Whatever memory there is, an insertion leaves the table unchanged and returns NULL
  -- when the path does not start with '/', and when `find_route` finds a route for it already.
  pub insert_route_refused :
      (m : Memory) (t : Table (Route C)) (path : Bytes) (method : Method) (cb : C) (r : Route C)
      → ((first_char path == b'/') ≡ false) ⊎ (find_route t path method ≡ ok (some r))
      → insert_route m t path method cb ≡ ok (t, false)
  unfolding insert_route
  insert_route_refused m t path method cb r (inl h) = ground arith
  insert_route_refused m t path method cb r (inr h) = ground arith

  -- When the table is full and `realloc` finds no memory while the other allocations do, inserting a
  -- new route writes through a null pointer.
  pub insert_route_unchecked_realloc :
      (t : Table (Route C)) (path : Bytes) (method : Method) (cb : C)
      → t.capacity ≡ t.size
      → first_char path ≡ b'/'
      → find_route t path method ≡ ok none
      → insert_route (record plenty { realloc_items = false }) t path method cb ≡ fault
  unfolding insert_route
  insert_route_unchecked_realloc t path method cb full slash e =
      ground (arith, append-grow_fault (route path method cb) t full)
