-- ===== src/Tests/JsonObject.antt =====
-- JSON objects.
use http_web_server_c.Base.{◌≡◌, refl, none, some, [], ◌∷◌, ◌++◌, arith, ok, Ensures}
use http_web_server_c.Json.Escape.{escape, escape_char}
use http_web_server_c.Json.Insertion.{find_json_element}
use http_web_server_c.CString.{str_eq, codes}
use http_web_server_c.Tests.Json.{line-IsElement, name-IsElement, line_element, name_element}
use http_web_server_c.Json.Element.{JsonElement}
use http_web_server_c.Json.Object.RoundTrip.{parse_json-print, AllElements}
use http_web_server_c.Json.Object.Total.{parse_json_total, IsObject}
use http_web_server_c.Json.Printing.Length.{json_object_stringify_lem}
use http_web_server_c.Json.Printing.{print_object, json_object_stringify, print_items}
use http_web_server_c.Table.{scan, find, Table}
use http_web_server_c.Json.Object.{parse_json}
use http_web_server_c.Table.Laws.{IsValid}

abbrev objects : Table JsonElement
objects = record { size = 2; capacity = 2; slots = 2; items = name_element ∷ line_element ∷ [] }

objects-IsValid : IsValid objects
objects-IsValid = record { counted = refl; fits = omega arith; room = refl; nonempty = omega arith }

objects-AllElements : AllElements (name_element ∷ line_element ∷ [])
objects-AllElements = (name-IsElement, (line-IsElement, tt))

objects-no_pid : find_json_element objects (codes "pid") ≡ ok none
unfolding find_json_element find scan str_eq
objects-no_pid = refl

objects-line : find_json_element objects (codes "line") ≡ ok (some line_element)
unfolding find_json_element find scan str_eq
objects-line = refl

parse_json-print_example :
    (t' : Table JsonElement) × (parse_json (print_object objects ++ codes "tail") ≡ ok (some t'))
    × IsValid t'
    × (t'.items ≡ name_element ∷ line_element ∷ [])
parse_json-print_example = parse_json-print objects (codes "tail") refl objects-AllElements

parse_json_total_example : Ensures IsObject (parse_json (codes "{\"a\" : 1 , b"))
parse_json_total_example = parse_json_total (codes "{\"a\" : 1 , b")

json_object_stringify_lem_example :
    json_object_stringify objects ≡ ok (codes "{\"name\":\"a,\\\"b\",\"line\":42}")
unfolding print_items escape escape_char
json_object_stringify_lem_example = json_object_stringify_lem objects refl (omega arith)
