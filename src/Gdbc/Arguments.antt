-- ===== src/Gdbc/Arguments.antt =====
-- `get_compiler_path` of gdbc/src/service.h, and the two argument arrays of `build_and_run` in
-- gdbc/src/service.c.
pub mod Laws
use http_web_server_c.CString.{codes, strstr, Bytes}
use http_web_server_c.Base.{
  ℕ, zero, suc, ◌+◌, ◌-◌, ◌*◌, ◌≤◌, ◌<◌, ◌≡◌, refl, sym, ap, ◌∙◌, ◌≢◌, ◌↔◌, ◌⊎◌, inl, inr, Bool,
  true, false, not, ◌&&◌, ◌||◌, Option, none, some, List, [], ◌∷◌, ◌++◌, append-nil, append_assoc,
  arith, ◌==◌, ltb, leb, if◌then◌else◌, Bool-cases, Option-cases, length, take, drop, length-append,
  drop-append, drop-append_add, take-append, Outcome, ok, fault, abort, timeout, ◌>>=◌,
}

-- enum compiler_type
pub data CompilerType : Type 0 where
  gcc_c gcc_cpp clang_c clang_cpp : CompilerType

unfoldable pub get_compiler_path : CompilerType → Bytes
get_compiler_path gcc_c = codes "/usr/bin/gcc"
get_compiler_path gcc_cpp = codes "/usr/bin/g++"
get_compiler_path clang_c = codes "/usr/bin/clang"
get_compiler_path clang_cpp = codes "/usr/bin/clang++"

-- How often the first loop finds " ".
abbrev pub blanks : Bytes → ℕ
blanks [] = 0
blanks (c ∷ s) = if c == b' ' then suc (blanks s) else blanks s

-- The options that the first loop counts; NULL and the empty text have none.
abbrev pub option_count : Option Bytes → ℕ
option_count none = 0
option_count (some []) = 0
option_count (some (c ∷ s)) = suc (blanks (c ∷ s))

-- The second loop, for `n` slots: each gets the text up to the next blank, and the loop ends with the
-- text.
abbrev pub cut_option : (Bytes → List Bytes) → Bytes → Option ℕ → List Bytes
cut_option go s none = s ∷ []
cut_option go s (some k) = take k s ∷ go (drop (k + 1) s)

unfoldable pub fill_options : ℕ → Bytes → List Bytes
fill_options zero s = []
fill_options (suc n) s = cut_option (fill_options n) s (strstr s (b' ' ∷ []))

-- A slot that the loop does not write would be read behind it.
abbrev pub all_written : ℕ → List Bytes → Outcome (List Bytes)
all_written n args = if length args == n then ok args else fault

abbrev pub text_or_empty : Option Bytes → Bytes
text_or_empty none = []
text_or_empty (some s) = s

unfoldable pub option_slots : Option Bytes → Outcome (List Bytes)
unfolding fill_options
option_slots o = all_written (option_count o) (fill_options (option_count o) (text_or_empty o))

-- `compile_args` up to its NULL.
unfoldable pub compile_args :
    CompilerType → Bytes → Bytes → Bool → Option Bytes → Outcome (List Bytes)
compile_args compiler_type path_to_source_code executable_filename is_gdb compile_options =
    option_slots compile_options >>= λ slots. ok (
      get_compiler_path compiler_type
      ∷ path_to_source_code
      ∷ codes "-o"
      ∷ executable_filename
      ∷ ((if is_gdb then codes "-g" ∷ [] else []) ++ slots))

-- `cl_args` up to its NULL.
unfoldable pub cl_args : Bytes → Bool → Option Bytes → Outcome (List Bytes)
cl_args executable_filename is_gdb command_line_args = option_slots command_line_args >>= λ slots.
    ok ((if is_gdb then codes "/usr/bin/gdb" ∷ [] else []) ++ executable_filename ∷ slots)
