-- ===== src/Gdbc/Run/Checks.antt =====
-- Which refusals of `validate_run_request` and `execute_program` can happen.
use http_web_server_c.Gdbc.Run.{
  configured, value_behind_pointer, parameter_value, is_json, RunHandlerConfig, Gdb, Answers,
  check_compiler_type, check_json, check_language, configure, refused, Validation, check_body,
  validate_run_request,
}
use http_web_server_c.Json.Insertion.{find_json_element}
use http_web_server_c.Base.{
  ℕ, ◌≡◌, refl, sym, ◌≢◌, inl, inr, Bool, true, false, Option, none, some, [], ◌∷◌, arith,
  if◌then◌else◌, Bool-cases, Outcome, ok, fault, abort, timeout, ◌>>=◌,
}
use http_web_server_c.Gdbc.Callbacks.Programs.{json_headers_lem}
use http_web_server_c.Http.Headers.{key_is_like}
use http_web_server_c.Table.{find, Table}
use http_web_server_c.CString.{codes, Bytes, str_eq}
use http_web_server_c.CString.Search.{str_eq_iff}
use http_web_server_c.Gdbc.Execute.{execute_program, handle_run_request}
use http_web_server_c.Http.Response.{HttpResponse}
use http_web_server_c.Json.Element.{JsonElement}
use http_web_server_c.Json.Object.{parse_json}
use http_web_server_c.Http.Request.{HttpRequest}
use mathlib.Core.Path.{subst}

abbrev Says : Bytes → Outcome Validation → Type 0
Says body (ok (inl r)) = r.body ≡ some body
Says body _ = ⊥

Says-bind :
    {A : Type 0} (body : Bytes) (m : Outcome A) (f : A → Outcome Validation)
    → ((a : A) → m ≡ ok a → ¬ Says body (f a))
    → ¬ Says body (m >>= f)
Says-bind body (ok a) f h = h a refl
Says-bind body fault f h = λ x. x
Says-bind body abort f h = λ x. x
Says-bind body timeout f h = λ x. x

differs : (a b : Bytes) → str_eq a b ≡ false → ¬ (some a ≡ some b)
differs a b e f =
    let d : a ≡ b = cc in let t : str_eq a b ≡ true = (str_eq_iff a b).1 d in ground (arith, e, t)

abbrev missing_body : Bytes
missing_body = codes "Missing request body"

bound-Says :
    {A B C D : Type 0} (body : Bytes) (m : Outcome A) (n : Outcome B) (o : Outcome C)
    → (p : C → Outcome D) → (k : A → B → D → RunHandlerConfig)
    → ¬ Says body (m >>= λ a. n >>= λ b. o >>= λ c. p c >>= λ d. ok (inr (k a b d)))
bound-Says body m n o p k = Says-bind body m _ λ a e.
    Says-bind body n _
      λ b f. Says-bind body o _ λ c g. Says-bind body (p c) (λ d. ok (inr (k a b d))) λ d h. λ x. x

configure-Says :
    (body : Table JsonElement) (language compiler_type : Bytes)
    → ¬ Says missing_body (configure body language compiler_type)
configure-Says body language compiler_type =
    bound-Says missing_body (find_json_element body (codes "compiler_options"))
      (find_json_element body (codes "command_line_arguments"))
      (find_json_element body (codes "source_code")) value_behind_pointer
      (configured body language compiler_type)

compiler-Says :
    (c : ℕ) (text : Bytes) (body : Table JsonElement) (language : Bytes) (o : Option Bytes)
    → ¬ Says missing_body (check_compiler_type (c ∷ text) body language o)
unfolding str_eq
compiler-Says c text body language none =
    differs (codes "Missing required query parameter: compiler_type") missing_body refl
compiler-Says c text body language (some t) = configure-Says body language t

language-Says :
    (request : HttpRequest) (c : ℕ) (text : Bytes) (body : Table JsonElement) (o : Option Bytes)
    → ¬ Says missing_body (check_language request (c ∷ text) body o)
unfolding str_eq
language-Says request c text body none =
    differs (codes "Missing required query parameter: language") missing_body refl
language-Says request c text body (some l) =
    Says-bind missing_body (parameter_value request.query_parameters (codes "compiler_type"))
      (check_compiler_type (c ∷ text) body l) λ o e. compiler-Says c text body l o

parsed-Says :
    (request : HttpRequest) (text : Bytes) (o : Option (Table JsonElement))
    → parse_json text ≡ ok o
    → ¬ Says missing_body (check_json request text o)
unfolding str_eq parse_json
parsed-Says request text none e = differs (codes "JSON data is malformed") missing_body refl
parsed-Says request [] (some body) e = absurd (ground (arith, e))
parsed-Says request (c ∷ text) (some body) e =
    Says-bind missing_body (parameter_value request.query_parameters (codes "language"))
      (check_language request (c ∷ text) body) λ o f. language-Says request c text body o

body-Says : (request : HttpRequest) (o : Option Bytes) → ¬ Says missing_body (check_body request o)
body-Says request none = λ x. x
body-Says request (some text) =
    Says-bind missing_body (parse_json text) (check_json request text)
      λ o e. parsed-Says request text o e

-- The answer "Missing request body" is never given: an empty body is refused before, by the parser.
pub missing_body_unreachable :
    (request : HttpRequest) (r : HttpResponse)
    → validate_run_request request ≡ ok (inl r)
    → r.body ≢ some (codes "Missing request body")
unfolding validate_run_request str_eq
missing_body_unreachable request r e f = says (subst (Says missing_body) (sym e) f)
  where
    typed :
        (b : Bool)
        → ¬ Says missing_body (
            if b
            then check_body request request.body
            else refused (codes "Content-Type must be application/json"))
    typed true = body-Says request request.body
    typed false = differs (codes "Content-Type must be application/json") missing_body refl

    says : ¬ Says missing_body (
        find (key_is_like (codes "Content-Type")) request.headers >>= λ h.
        (if is_json h
          then check_body request request.body
          else refused (codes "Content-Type must be application/json")))
    says =
        Says-bind missing_body (find (key_is_like (codes "Content-Type")) request.headers)
          (λ h.
            if is_json h
            then check_body request request.body
            else refused (codes "Content-Type must be application/json"))
          λ h g. typed (is_json h)

-- A validated request for a language other than "c" and "cpp" stops the whole server: the assertion of
-- `execute_program` fails before the answer "Invalid language specified".
pub unknown_language_aborts :
    (a : Answers) (g : Gdb) (request : HttpRequest) (is_gdb : Bool) (c : RunHandlerConfig)
    → validate_run_request request ≡ ok (inr c)
    → c.language ≢ codes "c"
    → c.language ≢ codes "cpp"
    → handle_run_request a g request is_gdb ≡ abort
unfolding handle_run_request execute_program
unknown_language_aborts a g request is_gdb c e first second =
    rw (e, json_headers_lem, other (codes "c") first, other (codes "cpp") second) refl
  where
    other : (s : Bytes) → c.language ≢ s → str_eq c.language s ≡ false
    other s h = elim (Bool-cases (str_eq c.language s)) [
      | inl f ↦ absurd (h ((str_eq_iff c.language s).0 f))
      | inr f ↦ f
    ]
