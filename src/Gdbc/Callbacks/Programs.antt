-- ===== src/Gdbc/Callbacks/Programs.antt =====
-- The response of `program_callback`, and what a client reads from it.
use http_web_server_c.Base.{
  ℕ, ◌<◌, ◌≡◌, refl, sym, ap, ◌∙◌, true, false, some, [], ◌∷◌, append-nil, arith, ltb, length, ok,
  ◌>>=◌, ℤ, pos,
}
use http_web_server_c.Json.Printing.Length.{json_object_stringify_lem}
use http_web_server_c.Json.Printing.{print_object}
use http_web_server_c.Gdbc.Callbacks.{output_body, with_output, on_output, program_callback}
use http_web_server_c.Json.Object.RoundTrip.{parse_json-print, AllElements}
use http_web_server_c.Json.Object.{parse_json}
use http_web_server_c.Table.{init, append, grow, scan, find, Table}
use http_web_server_c.Http.Names.{http_ok}
use http_web_server_c.CString.{to_lower, str_case_eq, str_eq, codes, until, Bytes}
use http_web_server_c.Gdbc.Run.{response, parameter_value, Gdb, json_headers}
use http_web_server_c.Json.Element.{json_string, json_number, JsonElement}
use http_web_server_c.Gdbc.Numbers.{atoi, int_text}
use http_web_server_c.Gdbc.Numbers.Laws.{int_text-IsPlain}
use http_web_server_c.Gdbc.Processes.{
  check_pidx, output_at, ProcessRunning, Reading, get_output_from_child, end_of_file, some_bytes,
  would_block, read_failed,
}
use http_web_server_c.Runner.Answers.{access_control}
use http_web_server_c.Json.Insertion.{element, find_json_element, insert_json_element}
use http_web_server_c.Http.Headers.{Header, insert_header}
use http_web_server_c.Http.Request.{HttpRequest}
use http_web_server_c.Json.StringToken.RoundTrip.{ends_backslash}

abbrev pub json_table : Table Header
json_table = record {
  size = 4;
  capacity = 8;
  slots = 8;
  items = record { key = codes "Content-Type"; value = codes "application/json" } ∷ access_control;
}

pub json_headers_lem : json_headers ≡ ok json_table
unfolding json_headers insert_header find scan str_case_eq to_lower grow append init
json_headers_lem = refl

abbrev pub output_table : ℤ → Bytes → Table JsonElement
output_table pid output = record {
  size = 2;
  capacity = 2;
  slots = 2;
  items =
      element (codes "pid") (int_text pid) json_number
      ∷ element (codes "output") output json_string
      ∷ [];
}

pub output_body_lem :
    (pid : ℤ) (output : Bytes)
    → output_body pid output ≡ ok (print_object (output_table pid output))
unfolding insert_json_element find_json_element find scan str_eq grow append init
output_body_lem pid output = json_object_stringify_lem (output_table pid output) refl (omega arith)

-- What a reading leaves for the client: nothing yet, or the bytes up to the first 0.
abbrev pub seen : Reading → Bytes
seen (some_bytes b) = until 0 b
seen _ = []

abbrev IsLive : Reading → Type 0
IsLive end_of_file = ⊥
IsLive (some_bytes b) = length b < 14336
IsLive _ = Unit

two_elements :
    (i : ℕ) (output : Bytes)
    → ends_backslash false output ≡ false
    → AllElements (output_table (pos i) output).items
two_elements i output h = (
  record { key_closes = refl; value_valid = int_text-IsPlain i },
  (record { key_closes = refl; value_valid = h }, tt),
)

-- With a live reading both results are answered as an output.
output_at_lem :
    (g : Gdb) (headers : Table Header) (pid : ℤ) (i : ℕ) (p : ProcessRunning) (r : Reading)
    → p.from_child ≡ true
    → IsLive r
    → (output_at g.service r (some (i, p)) >>= on_output g headers pid)
      ≡ with_output g headers pid (seen r)
output_at_lem g headers pid i p end_of_file o l = absurd l
output_at_lem g headers pid i p would_block o l = rw o refl
output_at_lem g headers pid i p read_failed o l = rw o refl
output_at_lem g headers pid i p (some_bytes b) o l =
    let room : ltb (length b) 14336 ≡ true = ground (arith, l) in rw (o, room) refl

live_output :
    (g : Gdb) (headers : Table Header) (i : ℕ) (p : ProcessRunning) (r : Reading)
    → check_pidx g.service (pos i) ≡ some (i, p)
    → p.from_child ≡ true
    → IsLive r
    → (get_output_from_child g.service (pos i) r >>= on_output g headers (pos i))
      ≡ with_output g headers (pos i) (seen r)
unfolding get_output_from_child
live_output g headers i p r at o l = rw at (output_at_lem g headers (pos i) i p r o l)

-- When the parameter "pid" is the number of a running process whose output is
-- open, and the reading of its output is not
-- at its end and leaves room for the terminator, `program_callback` answers with the status 200 and a
-- JSON text; and `parse_json` reads from that text the number of the process and the output up to its
-- first 0, when this does not end with a backslash.
pub parse_json-program_callback :
    (g : Gdb) (request : HttpRequest) (value : Bytes) (i : ℕ) (p : ProcessRunning) (r : Reading)
    → parameter_value request.query_parameters (codes "pid") ≡ ok (some value)
    → atoi value ≡ pos i
    → check_pidx g.service (pos i) ≡ some (i, p)
    → p.from_child ≡ true
    → IsLive r
    → ends_backslash false (seen r) ≡ false
    → (body : Bytes) × (t : Table JsonElement) × (program_callback r g request
        ≡ ok (g, response http_ok body json_table))
      × (parse_json body ≡ ok (some t))
      × (t.items
          ≡ element (codes "pid") (int_text (pos i)) json_number
            ∷ element (codes "output") (seen r) json_string
            ∷ [])
unfolding program_callback
parse_json-program_callback g request value i p r has_value number at streams live closes =
    let (t, run, valid, items) =
      parse_json-print (output_table (pos i) (seen r)) [] refl (two_elements i (seen r) closes) in
    (
      print_object (output_table (pos i) (seen r)),
      t,
      rw (json_headers_lem, has_value, number, live_output g json_table i p r at streams live)
          (rw (output_body_lem (pos i) (seen r)) refl),
      ap parse_json (sym (append-nil (print_object (output_table (pos i) (seen r))))) ∙ run,
      items,
    )
