-- ===== src/Tests/Handlers.antt =====
-- The handlers of gdbc on concrete requests.
use http_web_server_c.Base.{
  ◌≡◌, refl, ◌≢◌, inr, true, false, Option, none, some, List, [], ◌∷◌, ◌++◌, arith, length, ok, pos,
}
use http_web_server_c.Http.Response.{decimal}
use http_web_server_c.Gdbc.Execute.Runs.{handle_run_request-build_and_run, all_answered, program_of}
use http_web_server_c.Gdbc.Processes.{written, forked, saved, check_pidx, some_bytes}
use http_web_server_c.Gdbc.Build.Lifetime.{program_arguments, compiler_arguments, process_of}
use http_web_server_c.Gdbc.Main.Routes.{route_table}
use http_web_server_c.Gdbc.Build.{executable_filename, Program}
use http_web_server_c.Gdbc.Main.{listed, stop}
use http_web_server_c.Http.Names.{method_eq, http_ok, http_post, http_1_1}
use http_web_server_c.Utility.{url_path_cmp, is_non_space, find_non_space}
use http_web_server_c.Http.Routes.{route_matches, find_route}
use http_web_server_c.CString.Search.{str_eq_iff}
use http_web_server_c.Gdbc.Execute.{handle_run_request}
use http_web_server_c.Gdbc.Run.{
  choose_compiler, source_code_file, validate_run_request, parameter_value, Gdb, RunHandlerConfig,
  response,
}
use http_web_server_c.Gdbc.Trim.{trim_string}
use http_web_server_c.CString.{strchr, to_lower, str_case_eq, str_eq, Bytes, codes}
use http_web_server_c.Table.{append, grow, init, scan, find, Table}
use http_web_server_c.Json.StringToken.{scan_close, next_char, decode, parse_string_token}
use http_web_server_c.Json.Element.{
  scan_value, element_value, parse_json_element, json_number, JsonElement, json_string,
}
use http_web_server_c.Json.Object.{add_element, object_round, parse_elements, parse_json}
use http_web_server_c.Gdbc.Callbacks.Pids.{Names}
use http_web_server_c.Json.Insertion.{find_json_element, element}
use http_web_server_c.Gdbc.Processes.Slots.{check_pidx_running}
use http_web_server_c.Gdbc.Callbacks.Programs.{parse_json-program_callback, json_table}
use http_web_server_c.Tests.Service.{started_process, half_full}
use http_web_server_c.Gdbc.Numbers.{int_text, pid_body, atoi}
use http_web_server_c.Gdbc.Callbacks.{program_callback}
use http_web_server_c.Http.Headers.{Header, find_header}
use http_web_server_c.Http.Query.{QueryParameter, find_query_parameter}
use http_web_server_c.Http.Request.{HttpRequest}
use http_web_server_c.Gdbc.Arguments.{gcc_c}

abbrev content_type : Header
content_type = record { key = codes "Content-Type"; value = codes "application/json" }

abbrev typed_headers : Table Header
typed_headers = record { size = 1; capacity = 8; slots = 8; items = content_type ∷ [] }

abbrev posted : List QueryParameter → Option Bytes → HttpRequest
posted parameters body = record {
  headers = typed_headers;
  method = http_post;
  version = http_1_1;
  body = body;
  path = some (codes "/stop");
  query_parameters = record { size = length parameters; slots = 10; items = parameters };
}

abbrev pid_zero : HttpRequest
pid_zero =
    posted (record { key = some (codes "pid"); value = some (codes "0"); key_freed = false } ∷ [])
      (some [])

abbrev one_program : Gdb
one_program = record { service = half_full; source_code_count = 2 }

pid_zero_value : parameter_value pid_zero.query_parameters (codes "pid") ≡ ok (some (codes "0"))
unfolding find_query_parameter str_eq
pid_zero_value = refl

zero_number : atoi (codes "0") ≡ pos 0
unfolding atoi
zero_number = refl

parse_json-program_callback_example :
    (body : Bytes) × (t : Table JsonElement) × (program_callback
        (some_bytes (codes "hi"))
        one_program
        pid_zero
      ≡ ok (one_program, response http_ok body json_table))
    × (parse_json body ≡ ok (some t))
    × (t.items
        ≡ element (codes "pid") (int_text (pos 0)) json_number
          ∷ element (codes "output") (codes "hi") json_string
          ∷ [])
parse_json-program_callback_example =
    parse_json-program_callback one_program pid_zero (codes "0") 0 started_process
      (some_bytes (codes "hi")) pid_zero_value zero_number
      (check_pidx_running half_full 0 started_process refl refl) refl (omega arith) refl

pid_zero-Names : Names pid_zero (codes "0")
unfolding find_header find scan str_eq
pid_zero-Names = record {
  content_type = content_type;
  typed = refl;
  json = refl;
  named = pid_zero_value;
}

empty_text : parse_json [] ≡ ok none
unfolding parse_json
empty_text = refl

-- A program in a language, with its text and its input.
abbrev parameters : Bytes → List QueryParameter
parameters language =
    record { key = some (codes "language"); value = some language; key_freed = false }
    ∷ record { key = some (codes "compiler_type"); value = some (codes "gcc"); key_freed = false }
    ∷ []

abbrev run_body : Table JsonElement
run_body = record {
  size = 2;
  capacity = 8;
  slots = 8;
  items =
      element (codes "source_code") (codes "x") json_string
      ∷ element (codes "stdin") (codes "y") json_string
      ∷ [];
}

abbrev run_text : Bytes
run_text = codes "{\"source_code\":\"x\",\"stdin\":\"y\"}"

abbrev run_request : Bytes → HttpRequest
run_request language = posted (parameters language) (some run_text)

abbrev run_config : Bytes → RunHandlerConfig
run_config language = record {
  source_code = codes "x";
  language = language;
  compiler_type = codes "gcc";
  compile_options = none;
  command_line_args = none;
  parsed_body = run_body;
}

run_text_parsed : parse_json run_text ≡ ok (some run_body)
unfolding parse_json parse_elements object_round add_element parse_json_element element_value
    scan_value parse_string_token decode next_char scan_close find_non_space is_non_space grow
    append init strchr
run_text_parsed = refl

find_input :
    find_json_element run_body (codes "stdin")
    ≡ ok (some (element (codes "stdin") (codes "y") json_string))
unfolding find_json_element find scan str_eq
find_input = refl

run_validated_c : validate_run_request (run_request (codes "c")) ≡ ok (inr (run_config (codes "c")))
unfolding validate_run_request find scan str_case_eq str_eq to_lower find_query_parameter
    find_json_element trim_string parse_json parse_elements object_round add_element
    parse_json_element element_value scan_value parse_string_token decode next_char scan_close
    find_non_space is_non_space grow append init strchr
run_validated_c = refl

run_validated_rust :
    validate_run_request (run_request (codes "rust")) ≡ ok (inr (run_config (codes "rust")))
unfolding validate_run_request find scan str_case_eq str_eq to_lower find_query_parameter
    find_json_element trim_string parse_json parse_elements object_round add_element
    parse_json_element element_value scan_value parse_string_token decode next_char scan_close
    find_non_space is_non_space grow append init strchr
run_validated_rust = refl

differs_from : (a b : Bytes) → str_eq a b ≡ false → a ≢ b
differs_from a b e f = let t : str_eq a b ≡ true = (str_eq_iff a b).1 f in ground (arith, e, t)

rust_is_not_c : codes "rust" ≢ codes "c"
unfolding str_eq
rust_is_not_c = differs_from (codes "rust") (codes "c") refl

rust_is_not_cpp : codes "rust" ≢ codes "cpp"
unfolding str_eq
rust_is_not_cpp = differs_from (codes "rust") (codes "cpp") refl

abbrev source_file : Bytes
source_file = codes "./temp/2.c"

source_file_lem : source_code_file (codes "c") 2 ≡ ok source_file
unfolding str_eq decimal
source_file_lem = refl

compiler_lem : choose_compiler (codes "c") (codes "gcc") ≡ inr gcc_c
unfolding str_eq
compiler_lem = refl

abbrev compiled_program : Program
compiled_program = program_of (run_config (codes "c")) source_file gcc_c false

handle_run_request-build_and_run_example :
    (h : Gdb) × (handle_run_request (all_answered 7 2) one_program (run_request (codes "c")) false
      ≡ ok (h, response http_ok (pid_body (pos 1)) json_table))
    × (h.source_code_count ≡ 3)
    × (check_pidx h.service (pos 1)
        ≡ some (1, process_of compiled_program (executable_filename 3) 7))
    × (h.service.effects
        ≡ (([] ++ saved source_file (codes "x") ∷ [])
            ++ forked 7
                (compiler_arguments compiled_program (executable_filename 3))
                (program_arguments compiled_program (executable_filename 3))
              ∷ [])
          ++ written (pos 7) (codes "y" ++ 10 ∷ []) ∷ [])
handle_run_request-build_and_run_example =
    handle_run_request-build_and_run one_program (run_request (codes "c")) false
      (run_config (codes "c")) source_file gcc_c (element (codes "stdin") (codes "y") json_string) 7
      2 1 run_validated_c source_file_lem compiler_lem find_input refl

stop_found :
    find_route route_table (codes "/stop/") http_post
    ≡ ok (some (listed (codes "/stop") http_post stop))
unfolding find_route route_matches find scan url_path_cmp method_eq
stop_found = refl
