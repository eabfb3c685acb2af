-- ===== src/Gdbc/Child/Outcomes.antt =====
-- What a client may see of the child: its program, or why there is none.
use http_web_server_c.Gdbc.Child.{CompilerStatus, words, exited}
use http_web_server_c.Base.{zero, Bool, true, false, List, [], ◌∷◌, ◌++◌}
use http_web_server_c.Gdbc.Arguments.Laws.{options, if_debugged}
use http_web_server_c.CString.{codes, Bytes}
use http_web_server_c.Gdbc.Arguments.{get_compiler_path}
use http_web_server_c.Gdbc.Build.{Program}

abbrev pub is_compiled : CompilerStatus → Bool
is_compiled (exited zero) = true
is_compiled _ = false

-- The command that is printed, with its line end.
abbrev pub command_line : Bytes → Program → Bytes
command_line executable p =
    words (
      get_compiler_path p.compiler_type
      ∷ p.path_to_source_code
      ∷ codes "-o"
      ∷ executable
      ∷ (if_debugged p.is_gdb (codes "-g") ++ options p.compile_options))
    ++ 10 ∷ []

-- The arguments of the program, its file first.
abbrev pub program_args : Bytes → Program → List Bytes
program_args executable p =
    if_debugged p.is_gdb (codes "/usr/bin/gdb") ++ executable ∷ options p.command_line_args
