-- ===== src/Tests/Utility.antt =====
-- Paths and names.
use http_web_server_c.Base.{◌≡◌, refl, ◌↔◌, arith}
use http_web_server_c.Http.Names.{http_method_unknown, parse_http_method}
use http_web_server_c.Utility.Paths.{url_path_cmp-same_iff, SamePath, AllBytes}
use http_web_server_c.Utility.{greater, same, url_path_cmp}
use http_web_server_c.CString.{codes, str_eq}

url_path_cmp_slash : url_path_cmp (codes "/api") (codes "/api/") ≡ same
unfolding url_path_cmp
url_path_cmp_slash = refl

url_path_cmp_order : url_path_cmp (codes "/b") (codes "/api") ≡ greater
unfolding url_path_cmp
url_path_cmp_order = refl

http_method_lower_case : parse_http_method (codes "get") ≡ http_method_unknown
unfolding parse_http_method str_eq
http_method_lower_case = refl

url_path_cmp-same_iff_example :
    (url_path_cmp (codes "/api") (codes "/api/") ≡ same) ↔ SamePath (codes "/api") (codes "/api/")
url_path_cmp-same_iff_example = url_path_cmp-same_iff (codes "/api") (codes "/api/")

a_path-AllBytes : AllBytes (codes "/a")
a_path-AllBytes = (omega arith, omega arith, (omega arith, omega arith, tt))

b_path-AllBytes : AllBytes (codes "/b")
b_path-AllBytes = (omega arith, omega arith, (omega arith, omega arith, tt))
