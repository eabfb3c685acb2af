-- ===== src/Gdbc/Main/Serving/Running.antt =====
-- A request to run a program, on any state in order.
use http_web_server_c.Gdbc.Build.Follows.{spawned}
use http_web_server_c.Base.{
  ℕ, zero, suc, ◌≡◌, ◌⊎◌, inl, inr, Bool, not, Option, none, some, arith, ℤ, pos, negsuc,
  Ends-of_Ensures, if_both, Ends-after, Ends-bind, Ends,
}
use http_web_server_c.Gdbc.Run.{
  choose_compiler, has_text, is_json, parameter_value, value_behind_pointer, check_compiler_type,
  check_json, check_language, configure, check_body, source_code_file, RunHandlerConfig, Answers,
  Gdb, Validation, validate_run_request, refused,
}
use http_web_server_c.Gdbc.Processes.{pass_input_to_child, saved, Service}
use http_web_server_c.Json.Object.Total.{parse_json_total, IsObject}
use http_web_server_c.Gdbc.Build.{build_and_run, Program}
use http_web_server_c.Gdbc.Execute.{
  log_effect, count_source, with_service, asserted, compile, on_result, pass_stdin, run_validated,
  write_source, execute_program, handle_run_request,
}
use http_web_server_c.CString.{codes, Bytes}
use http_web_server_c.Http.Headers.{key_is_like}
use http_web_server_c.Json.Insertion.{element_key_is, find_json_element}
use http_web_server_c.Json.Object.{parse_json}
use http_web_server_c.Gdbc.Callbacks.Programs.{json_headers_lem, json_table}
use http_web_server_c.Table.{find, Table}
use http_web_server_c.Table.Laws.{init-IsValid, IsValid}
use http_web_server_c.Gdbc.Arguments.{CompilerType}
use http_web_server_c.Json.Element.{JsonElement}
use http_web_server_c.Http.Response.{HttpResponse}
use http_web_server_c.Http.Request.{HttpRequest}
use http_web_server_c.Gdbc.Build.Calls.{call-Follows, builds, inputs}
use http_web_server_c.Gdbc.Main.Serving.{
  Done, IsOrdered, called_service, find-Finishes, json_table-IsValid, parameter_value-Finishes,
  value_behind_pointer-Finishes,
}

abbrev IsValidation : Validation → Type 0
IsValidation (inl r) = IsValid r.headers
IsValidation (inr c) = Unit

refused-IsValidation : (body : Bytes) → Ends IsValidation (refused body)
refused-IsValidation body = init-IsValid 8 (omega arith)

configure-IsValidation :
    (body : Table JsonElement) (language compiler_type : Bytes)
    → Ends IsValidation (configure body language compiler_type)
unfolding find_json_element
configure-IsValidation body language compiler_type =
    Ends-after IsValidation (find (element_key_is (codes "compiler_options")) body) _
      (find-Finishes (element_key_is (codes "compiler_options")) body)
      (λ options.
        Ends-after IsValidation (find (element_key_is (codes "command_line_arguments")) body) _
          (find-Finishes (element_key_is (codes "command_line_arguments")) body)
          (λ args.
            Ends-after IsValidation (find (element_key_is (codes "source_code")) body) _
              (find-Finishes (element_key_is (codes "source_code")) body)
              (λ source.
                Ends-after IsValidation (value_behind_pointer source) _
                  (value_behind_pointer-Finishes source) (λ code. tt))))

check_compiler_type-IsValidation :
    (text : Bytes) (body : Table JsonElement) (language : Bytes) (o : Option Bytes)
    → Ends IsValidation (check_compiler_type text body language o)
check_compiler_type-IsValidation text body language none =
    refused-IsValidation (codes "Missing required query parameter: compiler_type")
check_compiler_type-IsValidation text body language (some compiler_type) =
    if_both (Ends IsValidation) (has_text text) _ _
      (configure-IsValidation body language compiler_type)
      (refused-IsValidation (codes "Missing request body"))

check_language-IsValidation :
    (request : HttpRequest) (text : Bytes) (body : Table JsonElement) (o : Option Bytes)
    → Ends IsValidation (check_language request text body o)
check_language-IsValidation request text body none =
    refused-IsValidation (codes "Missing required query parameter: language")
check_language-IsValidation request text body (some language) =
    Ends-after IsValidation (parameter_value request.query_parameters (codes "compiler_type")) _
      (parameter_value-Finishes request.query_parameters (codes "compiler_type"))
      (check_compiler_type-IsValidation text body language)

check_json-IsValidation :
    (request : HttpRequest) (text : Bytes) (o : Option (Table JsonElement))
    → Ends IsValidation (check_json request text o)
check_json-IsValidation request text none = refused-IsValidation (codes "JSON data is malformed")
check_json-IsValidation request text (some body) =
    Ends-after IsValidation (parameter_value request.query_parameters (codes "language")) _
      (parameter_value-Finishes request.query_parameters (codes "language"))
      (check_language-IsValidation request text body)

check_body-IsValidation :
    (request : HttpRequest) (o : Option Bytes) → Ends IsValidation (check_body request o)
check_body-IsValidation request none = tt
check_body-IsValidation request (some text) =
    Ends-bind IsObject IsValidation (parse_json text) _
      (Ends-of_Ensures IsObject (parse_json text) (parse_json_total text))
      (λ o _. check_json-IsValidation request text o)

validate_run_request-IsValidation :
    (request : HttpRequest) → Ends IsValidation (validate_run_request request)
unfolding validate_run_request
validate_run_request-IsValidation request =
    Ends-after IsValidation (find (key_is_like (codes "Content-Type")) request.headers) _
      (find-Finishes (key_is_like (codes "Content-Type")) request.headers)
      (λ content_type.
        if_both (Ends IsValidation) (is_json content_type) _ _
          (check_body-IsValidation request request.body)
          (refused-IsValidation (codes "Content-Type must be application/json")))

asserted-Done :
    (n : ℕ) (g : Gdb) (r : HttpResponse) (s : Service) (z : ℤ)
    → IsOrdered n s
    → IsValid r.headers
    → Ends (Done n) (asserted g r (s, z))
asserted-Done n g r s (pos k) i v = (i, v)
asserted-Done n g r s (negsuc zero) i v = (i, v)
asserted-Done n g r s (negsuc (suc zero)) i v = tt
asserted-Done n g r s (negsuc (suc (suc k))) i v = (i, v)

pass_stdin-Done :
    (n : ℕ) (a : Answers) (g : Gdb) (c : RunHandlerConfig) (pidx : ℤ) (r : HttpResponse)
    → IsOrdered n g.service
    → IsValid r.headers
    → Ends (Done n) (pass_stdin a g c pidx r)
unfolding find_json_element
pass_stdin-Done n a g c pidx r i v =
    Ends-after (Done n) (find (element_key_is (codes "stdin")) c.parsed_body) _
      (find-Finishes (element_key_is (codes "stdin")) c.parsed_body)
      (λ element.
        Ends-after (Done n) (value_behind_pointer element) _ (value_behind_pointer-Finishes element)
          (λ given.
            called_service n g (pass_input_to_child a.alive a.printed g.service pidx given)
              (asserted g r) i
              (call-Follows g.service (inputs a.alive a.printed pidx given) (i.0) tt)
              (λ t w. asserted-Done n g r (t.0) (t.1) w v)))

on_result-Done :
    (n : ℕ) (a : Answers) (c : RunHandlerConfig) (g : Gdb) (s : Service) (z : ℤ)
    → IsOrdered n s
    → Ends (Done n) (on_result a c json_table g (s, z))
on_result-Done n a c g s (negsuc zero) i = (i, json_table-IsValid)
on_result-Done n a c g s (negsuc (suc zero)) i = (i, json_table-IsValid)
on_result-Done n a c g s (negsuc (suc (suc k))) i =
    pass_stdin-Done n a (with_service s g) c (negsuc (suc (suc k))) _ i json_table-IsValid
on_result-Done n a c g s (pos k) i =
    pass_stdin-Done n a (with_service s g) c (pos k) _ i json_table-IsValid

compile-Done :
    (n : ℕ) (a : Answers) (c : RunHandlerConfig) (is_gdb : Bool) (file : Bytes) (g : Gdb)
    (choice : Bytes ⊎ CompilerType) (child : ℕ)
    → a.spawn ≡ spawned child
    → IsOrdered n g.service
    → Ends (Done n) (compile a c is_gdb json_table file g choice)
compile-Done n a c is_gdb file g (inl body) child e i = (i, json_table-IsValid)
compile-Done n a c is_gdb file g (inr compiler_type) child e i = rw e (
    called_service n g (build_and_run (spawned child) g.service p) _ i
      (call-Follows g.service (builds child p) (i.0) tt)
      (λ r v. on_result-Done n a c g (r.0) (r.1) v))
  where
    p : Program
    p = record {
      path_to_source_code = file;
      compiler_type = compiler_type;
      compile_options = c.compile_options;
      command_line_args = c.command_line_args;
      is_gdb = is_gdb;
    }

write_source-Done :
    (n : ℕ) (a : Answers) (c : RunHandlerConfig) (is_gdb : Bool) (file : Bytes) (g : Gdb)
    (child : ℕ)
    → a.spawn ≡ spawned child
    → IsOrdered n g.service
    → Ends (Done n) (write_source a c is_gdb json_table file g)
write_source-Done n a c is_gdb file g child e i =
    if_both (Ends (Done n)) (not a.opened) _ _ (i, json_table-IsValid)
      (if_both (Ends (Done n)) (not a.saved_source) _ _ (i, json_table-IsValid)
        (compile-Done n a c is_gdb file (log_effect (saved file c.source_code) g)
          (choose_compiler c.language c.compiler_type) child e i))

source_code_file-Ends :
    (language : Bytes) (k : ℕ) → Ends (λ _. Unit {0}) (source_code_file language k)
source_code_file-Ends language k = ground arith

run_validated-Done :
    (n : ℕ) (a : Answers) (g : Gdb) (is_gdb : Bool) (v : Validation) (child : ℕ)
    → a.spawn ≡ spawned child
    → IsOrdered n g.service
    → IsValidation v
    → Ends (Done n) (run_validated a g is_gdb v)
unfolding execute_program
run_validated-Done n a g is_gdb (inl r) child e i v = (i, v)
run_validated-Done n a g is_gdb (inr c) child e i v = rw json_headers_lem (
    Ends-bind (λ _. Unit {0}) (Done n) (source_code_file c.language g.source_code_count) _
      (source_code_file-Ends c.language g.source_code_count)
      (λ file _. write_source-Done n a c is_gdb file (count_source g) child e i))

pub handle_run_request-Done :
    (n : ℕ) (a : Answers) (g : Gdb) (request : HttpRequest) (is_gdb : Bool) (child : ℕ)
    → a.spawn ≡ spawned child
    → IsOrdered n g.service
    → Ends (Done n) (handle_run_request a g request is_gdb)
unfolding handle_run_request
handle_run_request-Done n a g request is_gdb child e i =
    Ends-bind IsValidation (Done n) (validate_run_request request) (run_validated a g is_gdb)
      (validate_run_request-IsValidation request)
      (λ v w. run_validated-Done n a g is_gdb v child e i w)
