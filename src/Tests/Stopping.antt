-- ===== src/Tests/Stopping.antt =====
-- A request to stop a process, on concrete bytes.
use http_web_server_c.Base.{◌≡◌, refl, true, none, [], ◌∷◌, ◌++◌, arith, ok, pos}
use http_web_server_c.Gdbc.Main.Stopping.{respond-stop_callback, stop_request, routes_of}
use http_web_server_c.Gdbc.Processes.{check_pidx, killed, would_block}
use http_web_server_c.Gdbc.Processes.Cleanup.{end_effects}
use http_web_server_c.Gdbc.Callbacks.Programs.{json_table}
use http_web_server_c.Gdbc.Numbers.{pid_body, int_text}
use http_web_server_c.Http.Names.{http_ok}
use http_web_server_c.Http.Request.Written.{target, print_request, IsWritten}
use http_web_server_c.Runner.Dispatch.Answered.{response_text}
use http_web_server_c.CString.Search.{Lacks-lacks}
use http_web_server_c.Gdbc.Main.Routes.{route_table}
use http_web_server_c.CString.{codes, Bytes}
use http_web_server_c.Http.HeaderLine.RoundTrip.{IsText}
use http_web_server_c.Gdbc.Execute.Runs.{all_answered}
use http_web_server_c.Http.Query.RoundTrip.{IsToken}
use http_web_server_c.Http.Response.{decimal}
use http_web_server_c.Runner.Dispatch.{respond}
use http_web_server_c.Utility.{is_non_space}
use http_web_server_c.Gdbc.Main.{System}
use http_web_server_c.Tests.Service.{half_full, started_process}
use http_web_server_c.Gdbc.Run.{Gdb, response}
use http_web_server_c.Runner.Answers.{missing, FileAnswer}

abbrev zero_text : Bytes
zero_text = int_text (pos 0)

pid-IsToken : IsToken (codes "pid")
pid-IsToken = record {
  nonempty = λ e. ground (arith, e);
  no_equals = Lacks-lacks b'=' (codes "pid") refl;
  no_ampersand = Lacks-lacks b'&' (codes "pid") refl;
}

zero-IsToken : IsToken zero_text
unfolding decimal int_text
zero-IsToken = record {
  nonempty = λ e. ground (arith, e);
  no_equals = Lacks-lacks b'=' zero_text refl;
  no_ampersand = Lacks-lacks b'&' zero_text refl;
}

type_name-IsText : IsText (codes "Content-Type")
unfolding is_non_space
type_name-IsText = record {
  starts = refl;
  ends = refl;
  unquoted = refl;
  one_line = Lacks-lacks 13 (codes "Content-Type") refl;
}

type_value-IsText : IsText (codes "application/json")
unfolding is_non_space
type_value-IsText = record {
  starts = refl;
  ends = refl;
  unquoted = refl;
  one_line = Lacks-lacks 13 (codes "application/json") refl;
}

stop_zero-IsWritten : IsWritten (stop_request 0 [] [])
unfolding decimal int_text
stop_zero-IsWritten = record {
  no_blank = Lacks-lacks b' ' (target (stop_request 0 [] [])) refl;
  no_return = Lacks-lacks 13 (target (stop_request 0 [] [])) refl;
  no_question = Lacks-lacks b'?' (codes "stop") refl;
  pairs = ((pid-IsToken, zero-IsToken), tt);
  headers = (
    record {
      key_text = type_name-IsText;
      value_text = type_value-IsText;
      key_plain = Lacks-lacks b':' (codes "Content-Type") refl;
    },
    tt,
  );
}

abbrev pub system : System
system = record { run = all_answered 7 2; can_kill = true; reading = would_block }

abbrev pub no_files : Bytes → FileAnswer
no_files name = missing

abbrev pub one_program : Gdb
one_program = record { service = half_full; source_code_count = 2 }

respond-stop_callback_example :
    (h : Gdb) × (respond
        (routes_of system)
        no_files
        route_table
        (codes "ide")
        one_program
        (print_request (stop_request 0 [] []))
      ≡ ok (h, response_text (response http_ok (pid_body (pos 0)) json_table)))
    × (h.service.effects ≡ ([] ++ killed (pos 9) ∷ []) ++ end_effects started_process)
    × (check_pidx h.service (pos 0) ≡ none)
respond-stop_callback_example =
    respond-stop_callback system no_files (codes "ide") one_program 0 started_process [] [] refl
      stop_zero-IsWritten refl (omega arith) (omega arith) refl
      (record { to_open = refl; from_open = refl; source_kept = tt; executable_kept = tt })
