-- ===== src/Tests/Routes.antt =====
-- The route table, with numbers for the callbacks.
use http_web_server_c.Base.{
  ℕ, ◌≡◌, refl, true, none, some, [], ◌∷◌, arith, if◌then◌else◌, ok, ◌>>=◌,
}
use http_web_server_c.Http.Routes.Laws.{find_route-insert_route, route}
use http_web_server_c.Table.Laws.{or_else, IsValid}
use http_web_server_c.Http.Names.{Method, method_eq, http_get, http_post}
use http_web_server_c.CString.{Bytes, codes}
use http_web_server_c.Utility.{url_path_cmp}
use http_web_server_c.Http.Routes.{route_matches, Route, find_route, insert_route}
use http_web_server_c.Table.{scan, find, plenty, Table}

abbrev empty_table : Table (Route ℕ)
empty_table = record { size = 0; capacity = 1; slots = 1; items = [] }

abbrev full_table : Table (Route ℕ)
full_table = record {
  size = 1;
  capacity = 1;
  slots = 1;
  items = route (codes "/api") http_get 7 ∷ [];
}

full_table-IsValid : IsValid full_table
full_table-IsValid = record {
  counted = refl;
  fits = omega arith;
  room = refl;
  nonempty = omega arith;
}

full_table-no_post : find_route full_table (codes "/api") http_post ≡ ok none
unfolding find_route find scan route_matches url_path_cmp method_eq
full_table-no_post = refl

full_table-get :
    find_route full_table (codes "/api/") http_get ≡ ok (some (route (codes "/api") http_get 7))
unfolding find_route find scan route_matches url_path_cmp method_eq
full_table-get = refl

find_route-insert_route_example :
    (t' : Table (Route ℕ)) × (insert_route plenty full_table (codes "/api") http_post 9
      ≡ ok (t', true))
    × IsValid t'
    × (find_route t' (codes "/api") http_post ≡ ok (some (route (codes "/api") http_post 9)))
    × ((p : Bytes) (m : Method)
        → find_route t' p m ≡ (
            find_route full_table p m >>= λ old. ok (
              or_else old (
                if route_matches {C = ℕ} p m (route (codes "/api") http_post 9)
                then some (route (codes "/api") http_post 9)
                else none))))
find_route-insert_route_example =
    find_route-insert_route full_table (codes "/api") http_post 9 full_table-IsValid refl
      full_table-no_post
