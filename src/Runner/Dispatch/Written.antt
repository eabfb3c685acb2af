-- ===== src/Runner/Dispatch/Written.antt =====
-- What a client is answered to a request that is written well, in every case.
use http_web_server_c.Runner.Dispatch.Answered.{
  file_response-headers, respond_routed, send_response_lem, get_static_file_lem, respond_options,
  other_method, path_of, access_table, access_table-IsValid, prepared_response, response_text,
}
use http_web_server_c.Base.{
  ◌≡◌, refl, sym, ap, ◌∙◌, ◌≢◌, ◌⊎◌, inl, inr, Option, none, some, [], ◌∷◌, ◌++◌, arith,
  if◌then◌else◌, Bool-cases, Option-cases, Outcome, ok, ◌>>=◌, if_both,
}
use mathlib.Core.Path.{subst}
use http_web_server_c.Table.{plenty, append, grow, scan, find, Table}
use http_web_server_c.CString.{to_lower, str_case_eq, codes, str_eq, Bytes}
use http_web_server_c.Http.Routes.Laws.{find_route-IsValid}
use http_web_server_c.Http.Request.RoundTrip.{parse_http_request-print, stored}
use http_web_server_c.Http.Routes.{route_matches, find_route, Route}
use http_web_server_c.Table.Laws.{find?, IsValid}
use http_web_server_c.Http.Headers.{insert_header, Header}
use http_web_server_c.Runner.Dispatch.{with_icon, respond, or_500, send_response}
use http_web_server_c.Http.Response.{HttpResponse}
use http_web_server_c.Http.Names.{
  Method, http_get, http_post, http_put, http_delete, http_options, http_method_unknown,
  http_no_content,
}
use http_web_server_c.Http.Request.{HttpRequest}
use http_web_server_c.Http.Request.Written.{all_headers, print_request, IsWritten, Written}
use http_web_server_c.Runner.Answers.{
  missing, unreadable, content, FileAnswer, file_response, access_control,
}

abbrev pub icon_headers : Table Header
icon_headers = record {
  size = 4;
  capacity = 4;
  slots = 4;
  items =
      access_control ++ (record { key = codes "Content-Type"; value = codes "image/x-icon" } ∷ []);
}

-- The headers of a file: those of access control, and for the icon its type.
abbrev pub file_headers : Bytes → Table Header
file_headers path = if str_eq path (codes "/favicon.ico") then icon_headers else access_table 4

options_or_not : (m : Method) → (m ≡ http_options) ⊎ (m ≢ http_options)
options_or_not http_get = inr (λ e. cc)
options_or_not http_post = inr (λ e. cc)
options_or_not http_put = inr (λ e. cc)
options_or_not http_delete = inr (λ e. cc)
options_or_not http_options = inl refl
options_or_not http_method_unknown = inr (λ e. cc)

file_headers-IsValid : (path : Bytes) → IsValid (file_headers path)
file_headers-IsValid path =
    if_both IsValid (str_eq path (codes "/favicon.ico")) _ _
      (record { counted = refl; fits = omega arith; room = refl; nonempty = omega arith })
      (access_table-IsValid 4 (omega arith))

module _ {S C : Type 0} (callback : C → S → HttpRequest → Outcome (S × Option HttpResponse))
    (files : Bytes → FileAnswer) (routes : Table (Route C)) (dir : Bytes) (s : S) where
  icon :
      (f : FileAnswer)
      → (insert_header plenty
            (file_response (access_table 4) f).headers
            (codes "Content-Type")
            (codes "image/x-icon")
          >>= λ h. ok (record (file_response (access_table 4) f) { headers = h.0 }))
        ≡ ok (file_response icon_headers f)
  unfolding insert_header find scan str_case_eq to_lower grow append
  icon missing = refl
  icon unreadable = refl
  icon (content bytes) = refl

  with_icon_lem :
      (path : Bytes) (f : FileAnswer)
      → with_icon callback files path (file_response (access_table 4) f)
        ≡ ok (file_response (file_headers path) f)
  with_icon_lem path f = elim (Bool-cases (str_eq path (codes "/favicon.ico"))) [
    | inl e ↦ rw e (icon f)
    | inr e ↦ rw e refl
  ]

  to_file :
      (w : Written)
      → IsWritten w
      → w.method ≢ http_options
      → find_route routes (path_of w) w.method ≡ ok none
      → respond callback files routes dir s (print_request w)
        ≡ ok
            (s, response_text (file_response (file_headers (path_of w)) (files (dir ++ path_of w))))
  unfolding respond stored
  to_file w v m e =
      let (t, run, valid, items) = parse_http_request-print w v in
      let f = files (dir ++ path_of w) in
      rw
        (
          run,
          other_method w.method m,
          e,
          get_static_file_lem files (dir ++ path_of w),
          with_icon_lem (path_of w) f,
        )
        (send_response_lem callback files routes dir s s
          (file_response (file_headers (path_of w)) f)
          (subst IsValid (sym (file_response-headers (file_headers (path_of w)) f))
            (file_headers-IsValid (path_of w))))

  -- A well-formed request with at least one header is answered by the first of these cases that applies.
  -- With the method OPTIONS: the status 204 and the headers of access control, whatever its path is.
  -- With a route of the table for its path and its method, the first that matches: what the callback
  -- of the route answers to its method, version, path, query, body and headers, or the status 500 where
  -- that is NULL. Else: the file whose name is `static_files_dir` and the path, one behind the other
  -- as it is, with segments ".." kept: with the status 200 and its bytes up to the first 0, or with the
  -- status 404, and for "/favicon.ico" with the type of an icon. The table of routes is valid.
  pub respond_written :
      (w : Written)
      → IsWritten w
      → IsValid routes
      → ((w.method ≡ http_options)
          × (respond callback files routes dir s (print_request w)
              ≡ ok (s, response_text (prepared_response http_no_content))))
        ⊎ ((w.method ≢ http_options)
            × (((r : Route C) × (find? (route_matches (path_of w) w.method) routes.items ≡ some r)
                  × ((t : Table Header) × IsValid t
                      × (t.items ≡ all_headers w)
                      × (respond callback files routes dir s (print_request w) ≡ (
                          callback r.callback s (stored w t)
                          >>= or_500 callback files
                          >>= send_response callback files))))
                ⊎ ((find? (route_matches (path_of w) w.method) routes.items ≡ none)
                    × (respond callback files routes dir s (print_request w)
                        ≡ ok (
                          s,
                          response_text
                              (file_response (file_headers (path_of w)) (files (dir ++ path_of w))),
                        )))))
  respond_written w v valid = elim (options_or_not w.method) [
    | inl o ↦ inl (o, respond_options callback files routes dir s w v o)
    | inr m ↦ inr (
      m,
      elim (Option-cases (find? (route_matches (path_of w) w.method) routes.items)) [
        | inr (r, e) ↦
            inl (r, e, respond_routed callback files routes dir s w r v m (found ∙ ap ok e))
        | inl e ↦ inr (e, to_file w v m (found ∙ ap ok e))
      ],
    )
  ]
    where
      found :
          find_route routes (path_of w) w.method
          ≡ ok (find? (route_matches (path_of w) w.method) routes.items)
      found = find_route-IsValid routes (path_of w) w.method valid
