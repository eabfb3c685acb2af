-- ===== src/Gdbc/Run.antt =====
-- `validate_run_request`, and the choices of `execute_program`, of gdbc/src/main.c. Their
-- allocations find memory.
pub mod Checks
use http_web_server_c.Base.{
  ℕ, zero, suc, ◌+◌, ◌-◌, ◌*◌, ◌≤◌, ◌<◌, ◌≡◌, refl, sym, ap, ◌∙◌, ◌≢◌, ◌↔◌, ◌⊎◌, inl, inr, Bool,
  true, false, not, ◌&&◌, ◌||◌, Option, none, some, List, [], ◌∷◌, ◌++◌, append-nil, append_assoc,
  arith, ◌==◌, ltb, leb, if◌then◌else◌, Bool-cases, Option-cases, length, take, drop, length-append,
  drop-append, drop-append_add, take-append, Outcome, ok, fault, abort, timeout, ◌>>=◌, ℤ, pos,
  negsuc, get_elem?,
}
use http_web_server_c.Gdbc.Arguments.{clang_cpp, gcc_cpp, clang_c, gcc_c, CompilerType}
use http_web_server_c.Gdbc.Trim.{trim_string}
use http_web_server_c.Http.Headers.{key_is_like, Header}
use http_web_server_c.Http.Response.{decimal, HttpResponse}
use http_web_server_c.Runner.Answers.{access_control, insert_all}
use http_web_server_c.Table.{init, find, Table}
use http_web_server_c.CString.{codes, str_case_eq, str_eq, Bytes}
use http_web_server_c.Http.Names.{http_1_1, http_bad_request, StatusCode}
use http_web_server_c.Http.Query.{find_query_parameter, QueryParameter, QueryParameters}
use http_web_server_c.Json.Insertion.{find_json_element}
use http_web_server_c.Json.Object.{parse_json}
use http_web_server_c.Gdbc.Build.{Spawn}
use http_web_server_c.Gdbc.Processes.{Service}
use http_web_server_c.Http.Request.{HttpRequest}
use http_web_server_c.Json.Element.{JsonElement}

-- The service and `source_code_count`.
pub record Gdb : Type 0 where
  pub service : Service
  pub source_code_count : ℕ

-- What the operating system answers in a run: whether `fopen` and `fprintf` succeed for the source
-- file, the answers to the build, whether the child is alive, and what printing to it returns.
pub record Answers : Type 0 where
  pub opened : Bool
  pub saved_source : Bool
  pub spawn : Spawn
  pub alive : Bool
  pub printed : Option ℕ

-- struct run_handler_config; `is_gdb` is set behind the validation.
pub record RunHandlerConfig : Type 0 where
  pub source_code : Bytes
  pub language : Bytes
  pub compiler_type : Bytes
  pub compile_options : Option Bytes
  pub command_line_args : Option Bytes
  pub parsed_body : Table JsonElement

abbrev pub response : StatusCode → Bytes → Table Header → HttpResponse
response status_code body headers = record {
  headers = headers;
  status_code = status_code;
  http_version = http_1_1;
  body = some body;
}

-- A query parameter that has a value, which is not empty.
abbrev pub value_of_parameter : Option QueryParameter → Option Bytes
value_of_parameter none = none
value_of_parameter (some p) = not_empty p.value
  where
    not_empty : Option Bytes → Option Bytes
    not_empty none = none
    not_empty (some []) = none
    not_empty (some (c ∷ s)) = some (c ∷ s)

abbrev pub parameter_value : QueryParameters → Bytes → Outcome (Option Bytes)
parameter_value q key = find_query_parameter q key >>= λ p. ok (value_of_parameter p)

-- The response of `validate_error`, with a new table of headers, or the configuration.
abbrev pub Validation : Type 0
Validation = HttpResponse ⊎ RunHandlerConfig

abbrev pub refused : Bytes → Outcome Validation
refused body = ok (inl (response http_bad_request body (init 8)))

abbrev pub is_json : Option Header → Bool
is_json none = false
is_json (some h) = str_case_eq h.value (codes "application/json")

-- `find_json_element(…)->value`
abbrev pub value_behind_pointer : Option JsonElement → Outcome Bytes
value_behind_pointer none = fault
value_behind_pointer (some x) = ok x.value

abbrev pub element_text : Option JsonElement → Option Bytes
element_text none = none
element_text (some x) = some x.value

abbrev pub configured :
    Table JsonElement
    → Bytes
    → Bytes
    → Option JsonElement
    → Option JsonElement
    → Bytes
    → RunHandlerConfig
configured body language compiler_type compile_opt args source_code = record {
  source_code = source_code;
  language = language;
  compiler_type = compiler_type;
  compile_options = trim_string (element_text compile_opt);
  command_line_args = trim_string (element_text args);
  parsed_body = body;
}

-- From the optional parameters on.
abbrev pub configure : Table JsonElement → Bytes → Bytes → Outcome Validation
configure body language compiler_type = do
  compile_opt ← find_json_element body (codes "compiler_options")
  args ← find_json_element body (codes "command_line_arguments")
  source ← find_json_element body (codes "source_code")
  source_code ← value_behind_pointer source
  ok (inr (configured body language compiler_type compile_opt args source_code))

abbrev pub has_text : Bytes → Bool
has_text [] = false
has_text (c ∷ s) = true

abbrev pub check_compiler_type :
    Bytes → Table JsonElement → Bytes → Option Bytes → Outcome Validation
check_compiler_type text body language none =
    refused (codes "Missing required query parameter: compiler_type")
check_compiler_type text body language (some compiler_type) =
    if has_text text
    then configure body language compiler_type
    else refused (codes "Missing request body")

abbrev pub check_language :
    HttpRequest → Bytes → Table JsonElement → Option Bytes → Outcome Validation
check_language request text body none = refused (codes "Missing required query parameter: language")
check_language request text body (some language) =
    parameter_value request.query_parameters (codes "compiler_type")
    >>= check_compiler_type text body language

abbrev pub check_json : HttpRequest → Bytes → Option (Table JsonElement) → Outcome Validation
check_json request text none = refused (codes "JSON data is malformed")
check_json request text (some body) =
    parameter_value request.query_parameters (codes "language") >>= check_language request text body

-- `parse_json` reads the first byte of the body, which must not be NULL.
abbrev pub check_body : HttpRequest → Option Bytes → Outcome Validation
check_body request none = fault
check_body request (some text) = parse_json text >>= check_json request text

unfoldable pub validate_run_request : HttpRequest → Outcome Validation
validate_run_request request =
    find (key_is_like (codes "Content-Type")) request.headers >>= λ content_type.
    if is_json content_type
    then check_body request request.body
    else refused (codes "Content-Type must be application/json")

-- The headers of every response of `execute_program` and the callbacks.
unfoldable pub json_headers : Outcome (Table Header)
json_headers =
    insert_all
      (record { key = codes "Content-Type"; value = codes "application/json" } ∷ access_control)
      (init 8)

-- "./temp/%d.c" and "./temp/%d.cpp"; `assert(0)` for another language
abbrev pub source_code_file : Bytes → ℕ → Outcome Bytes
source_code_file language n =
    if str_eq language (codes "c")
    then ok (codes "./temp/" ++ (decimal n ++ codes ".c"))
    else if str_eq language (codes "cpp")
    then ok (codes "./temp/" ++ (decimal n ++ codes ".cpp"))
    else abort

-- The compiler, or the body of the refusal.
abbrev pub choose_compiler : Bytes → Bytes → Bytes ⊎ CompilerType
choose_compiler language compiler_type =
    if str_eq language (codes "c")
    then (if str_eq compiler_type (codes "gcc")
        then inr gcc_c
        else if str_eq compiler_type (codes "clang")
        then inr clang_c
        else inl (codes "Invalid compiler type specified"))
    else if str_eq language (codes "cpp")
    then (if str_eq compiler_type (codes "gcc")
        then inr gcc_cpp
        else if str_eq compiler_type (codes "clang")
        then inr clang_cpp
        else inl (codes "Invalid compiler type specified"))
    else inl (codes "Invalid language specified")
