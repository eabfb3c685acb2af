-- ===== src/Runner/Dispatch.antt =====
-- `handle_http_request` of src/runner.c. What the callbacks of the routes do, and the file system, are
-- arguments; `S` is the state that the callbacks share. The request that is being read is the only one
-- in its buffer (Runner/Sharing), so the claim and the release of the buffer are one step here.
pub mod Answered
pub mod Written
pub mod Stale
use http_web_server_c.Base.{
  ℕ, zero, suc, ◌+◌, ◌-◌, ◌*◌, ◌≤◌, ◌<◌, ◌≡◌, refl, sym, ap, ◌∙◌, ◌≢◌, ◌↔◌, ◌⊎◌, inl, inr, Bool,
  true, false, not, ◌&&◌, ◌||◌, Option, none, some, List, [], ◌∷◌, ◌++◌, append-nil, append_assoc,
  arith, ◌==◌, ltb, leb, if◌then◌else◌, Bool-cases, Option-cases, length, take, drop, length-append,
  drop-append, drop-append_add, take-append, Outcome, ok, fault, abort, timeout, ◌>>=◌, ℤ, pos,
  negsuc, get_elem?,
}
use http_web_server_c.Http.Names.{
  http_no_content, http_options, method_eq, http_internal_server_error,
}
use http_web_server_c.Runner.Buffers.{
  overwrite, first_unused, string_in, Received, set_buffer, Buffer, failed, closed, received,
}
use http_web_server_c.Table.{plenty, Table}
use http_web_server_c.Http.Headers.{insert_header}
use http_web_server_c.CString.{codes, str_eq, Bytes}
use http_web_server_c.Http.Request.{parse_http_request, HttpRequest}
use http_web_server_c.Http.Routes.{find_route, Route}
use http_web_server_c.Runner.Answers.{get_static_file, prepared, FileAnswer}
use http_web_server_c.Http.Response.{http_response_stringify, HttpResponse}

abbrev pub held_bytes : Option Bytes → Outcome Bytes
held_bytes none = fault
held_bytes (some old) = ok old

module _ {S C : Type 0} (callback : C → S → HttpRequest → Outcome (S × Option HttpResponse))
    (files : Bytes → FileAnswer) where
  -- A callback that returns NULL is answered by `response_500`.
  abbrev pub or_500 : S × Option HttpResponse → Outcome (S × HttpResponse)
  or_500 (s, none) = prepared http_internal_server_error >>= λ r. ok (s, r)
  or_500 (s, some r) = ok (s, r)

  abbrev pub with_icon : Bytes → HttpResponse → Outcome HttpResponse
  with_icon path r =
      if str_eq path (codes "/favicon.ico")
      then (insert_header plenty r.headers (codes "Content-Type") (codes "image/x-icon") >>= λ h.
          ok (record r { headers = h.0 }))
      else ok r

  abbrev pub routed :
      Bytes → S → HttpRequest → Bytes → Option (Route C) → Outcome (S × HttpResponse)
  routed static_files_dir s request path none =
      get_static_file files (static_files_dir ++ path) >>= λ r.
      with_icon path r >>= λ r'. ok (s, r')
  routed static_files_dir s request path (some r) = callback r.callback s request >>= or_500

  abbrev pub at_path :
      Table (Route C) → Bytes → S → HttpRequest → Option Bytes → Outcome (S × HttpResponse)
  at_path routes static_files_dir s request none = fault
  at_path routes static_files_dir s request (some path) =
      find_route routes path request.method >>= routed static_files_dir s request path

  -- From the test of the parsed request on, up to `label_send_response`.
  abbrev pub choose : Table (Route C) → Bytes → S → Option HttpRequest → Outcome (S × HttpResponse)
  choose routes static_files_dir s none = prepared http_internal_server_error >>= λ r. ok (s, r)
  choose routes static_files_dir s (some request) =
      if method_eq request.method http_options
      then (prepared http_no_content >>= λ r. ok (s, r))
      else at_path routes static_files_dir s request request.path

  -- The text that is written to the client; a NULL would be measured by `strlen`.
  abbrev pub sent : S → Option Bytes → Outcome (S × Bytes)
  sent s none = fault
  sent s (some text) = ok (s, text)

  abbrev pub send_response : S × HttpResponse → Outcome (S × Bytes)
  send_response (s, r) = http_response_stringify true r >>= sent s

  -- From the call of `parse_http_request` on.
  unfoldable pub respond : Table (Route C) → Bytes → S → Bytes → Outcome (S × Bytes)
  respond routes static_files_dir s text = parse_http_request text >>= λ request.
      choose routes static_files_dir s request >>= send_response

  -- The text that is written to the client, `none` where the socket was closed before.
  abbrev pub give_back :
      ℕ → Option Bytes → List Buffer → S → Option Bytes → (List Buffer × S) × Option Bytes
  give_back i bytes buffers s text =
      ((set_buffer i (record { used = false; bytes = bytes }) buffers, s), text)

  abbrev pub refuse : S → Outcome (S × Bytes)
  refuse s = prepared http_internal_server_error >>= λ r. send_response (s, r)

  -- With the bytes of the buffer that was claimed. A read that fails frees them. Where nothing was read
  -- the socket is closed before the response is written to it; no other thread gets its number
  -- meanwhile.
  abbrev pub read_into :
      Table (Route C)
      → Bytes
      → List Buffer
      → S
      → ℕ
      → Bytes
      → Received
      → Outcome ((List Buffer × S) × Option Bytes)
  read_into routes static_files_dir buffers s i old failed =
      refuse s >>= λ r. ok (give_back i none buffers r.0 none)
  read_into routes static_files_dir buffers s i old closed =
      refuse s >>= λ r. ok (give_back i (some old) buffers r.0 none)
  read_into routes static_files_dir buffers s i old (received bytes) =
      string_in (overwrite bytes old) >>= λ text. respond routes static_files_dir s text >>= λ r.
      ok (give_back i (some (overwrite bytes old)) buffers r.0 (some r.1))

  -- A buffer that was freed is read into all the same.
  abbrev pub in_buffer :
      Table (Route C)
      → Bytes
      → List Buffer
      → S
      → Received
      → ℕ
      → Option Buffer
      → Outcome ((List Buffer × S) × Option Bytes)
  in_buffer routes static_files_dir buffers s r i none = fault
  in_buffer routes static_files_dir buffers s r i (some b) =
      held_bytes b.bytes >>= λ old. read_into routes static_files_dir buffers s i old r

  -- Without a free buffer the number of the buffer that is released at the end was never set.
  abbrev pub with_buffer :
      Table (Route C)
      → Bytes
      → List Buffer
      → S
      → Received
      → Option ℕ
      → Outcome ((List Buffer × S) × Option Bytes)
  with_buffer routes static_files_dir buffers s r none = fault
  with_buffer routes static_files_dir buffers s r (some i) =
      in_buffer routes static_files_dir buffers s r i (get_elem? buffers i)

  unfoldable pub handle_http_request :
      Table (Route C)
      → Bytes
      → List Buffer × S
      → Received
      → Outcome ((List Buffer × S) × Option Bytes)
  unfolding respond
  handle_http_request routes static_files_dir (buffers, s) r =
      with_buffer routes static_files_dir buffers s r (first_unused buffers)
