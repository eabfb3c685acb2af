-- ===== src/Gdbc/Main/Routes.antt =====
-- The routes of the server for gdb.
use http_web_server_c.Base.{
  ◌≡◌, refl, sym, ◌∙◌, true, Option, some, List, [], ◌∷◌, arith, Outcome, ok,
}
use http_web_server_c.Http.Routes.Laws.{find_route-IsValid}
use http_web_server_c.Table.Laws.{find?, find?-sound, IsValid}
use http_web_server_c.Http.Routes.{
  is_same, route_matches, find_route, insert_route, Route, init_routes,
}
use http_web_server_c.Utility.Paths.{same→SamePath, SamePath}
use http_web_server_c.Http.Names.{
  http_get, http_post, http_put, http_delete, http_options, http_method_unknown, method_eq, Method,
}
use http_web_server_c.Utility.{Comparison, same, url_path_cmp}
use http_web_server_c.Table.{init, append, grow, scan, find, Table}
use http_web_server_c.Gdbc.Main.{all_routes, Callback, main_routes}
use http_web_server_c.CString.{Bytes}

abbrev pub route_table : Table (Route Callback)
route_table = record { size = 6; capacity = 8; slots = 8; items = all_routes }

pub main_routes_lem : main_routes ≡ ok route_table
unfolding main_routes init_routes insert_route find_route route_matches find scan url_path_cmp
    method_eq grow append init
main_routes_lem = refl

pub route_table-IsValid : IsValid route_table
route_table-IsValid = record {
  counted = refl;
  fits = omega arith;
  room = refl;
  nonempty = omega arith;
}

-- Each of the routes is found by its path and its method.
abbrev pub AllFound : Table (Route Callback) → List (Route Callback) → Type 0
AllFound t [] = Unit
AllFound t (r ∷ rs) = (find_route t r.path r.method ≡ ok (some r)) × AllFound t rs

pub every_route : AllFound route_table all_routes
unfolding find_route route_matches find scan url_path_cmp method_eq
every_route = (refl, (refl, (refl, (refl, (refl, (refl, tt))))))

method_eq_sound : (a b : Method) → method_eq a b ≡ true → a ≡ b
unfolding method_eq
method_eq_sound http_get http_get e = refl
method_eq_sound http_post http_post e = refl
method_eq_sound http_put http_put e = refl
method_eq_sound http_delete http_delete e = refl
method_eq_sound http_options http_options e = refl
method_eq_sound http_method_unknown http_method_unknown e = refl
method_eq_sound _ _ e = cc

is_same_sound : (c : Comparison) → is_same c ≡ true → c ≡ same
is_same_sound same e = refl
is_same_sound _ e = cc

route_matches_sound :
    (p : Bytes) (m : Method) (r : Route Callback)
    → route_matches p m r ≡ true
    → (r.method ≡ m) × SamePath p r.path
unfolding route_matches
route_matches_sound p m r e = (
  method_eq_sound r.method m (ground arith),
  same→SamePath p r.path (is_same_sound (url_path_cmp p r.path) (ground arith)),
)

some_of :
    {A : Type 0} (o : Option A) (x : A)
    → Path (Outcome (Option A)) (ok o) (ok (some x))
    → o ≡ some x
some_of o x e = cc

-- The six insertions of `main` succeed. In the table that they leave each of the six routes is found by
-- its path and its method; and what is found for any path and method has that method, and the path
-- but for one '/' at the end.
pub find_route-main_routes :
    (p : Bytes) (m : Method) (r : Route Callback)
    → find_route route_table p m ≡ ok (some r)
    → (main_routes ≡ ok route_table)
      × AllFound route_table all_routes
      × (r.method ≡ m)
      × SamePath p r.path
find_route-main_routes p m r e =
    let found =
      some_of (find? (route_matches p m) all_routes) r
        (sym (find_route-IsValid route_table p m route_table-IsValid) ∙ e) in
    let (same_method, same_path) =
      route_matches_sound p m r (find?-sound (route_matches p m) all_routes r found) in
    (main_routes_lem, every_route, same_method, same_path)
