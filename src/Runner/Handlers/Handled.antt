-- ===== src/Runner/Handlers/Handled.antt =====
-- `handle_http_request` on whatever a client sends: its answer, and its buffer.
use http_web_server_c.Base.{
  ℕ, suc, ◌≡◌, refl, ap, inl, inr, false, Option, none, some, List, [], ◌∷◌, arith, Bool-cases,
  Option-cases, get_elem?, Ends-after, Ends-bind, Ends,
}
use http_web_server_c.Runner.Dispatch.{
  respond, give_back, in_buffer, read_into, handle_http_request, refuse,
}
use http_web_server_c.Runner.Dispatch.Answered.{
  access_table-IsValid, prepared_response, prepared_lem,
}
use http_web_server_c.Runner.Buffers.{
  overwrite, string_in, set_buffer, first_unused, failed, closed, received, Received, Buffer,
}
use http_web_server_c.Http.Names.{http_internal_server_error}
use http_web_server_c.Table.Laws.{IsValid}
use http_web_server_c.Http.Routes.{Route}
use http_web_server_c.Table.{Table}
use http_web_server_c.Runner.Answers.{FileAnswer}
use http_web_server_c.CString.{Bytes}
use http_web_server_c.Runner.Startup.Serving.{flags}
use http_web_server_c.Runner.Handlers.{
  Handlers, Replied, respond_total, send_response-Replied, IsAnswer,
}

-- The buffer that a request claims and gives back.
flags-set_buffer :
    (i : ℕ) (bytes : Option Bytes) (bs : List Buffer)
    → first_unused bs ≡ some i
    → flags (set_buffer i (record { used = false; bytes = bytes }) bs) ≡ flags bs
flags-set_buffer i bytes [] e = cc
flags-set_buffer i bytes (b ∷ bs) e = elim (Bool-cases b.used) [
  | inr u ↦ let first : i ≡ 0 = ground (arith, u, e) in rw (first, u) refl
  | inl u ↦ elim (Option-cases (first_unused bs)) [
    | inl n ↦ absurd (ground (arith, u, n, e))
    | inr (j, at) ↦
        let next : i ≡ suc j = ground (arith, u, at, e) in
        rw next (ap (◌∷◌ b.used) (flags-set_buffer j bytes bs at))
  ]
]

-- To a client that sent something the text of a response is written, and to one whose connection failed
-- or was closed nothing.
abbrev pub Gets : Received → Option Bytes → Type 0
Gets (received bytes) (some text) = IsAnswer text
Gets (received bytes) none = ⊥
Gets _ text = text ≡ none

module _ {S C : Type 0} (h : Handlers S C) (files : Bytes → FileAnswer) (routes : Table (Route C))
    (dir : Bytes) (buffers : List Buffer) (s : S) (v : IsValid routes) (i : h.Invariant s) where
  -- The same buffers are in use as before, and the client got its answer.
  abbrev pub Handled : Received → (List Buffer × S) × Option Bytes → Type 0
  Handled r ((bs, t), text) = (flags bs ≡ flags buffers) × (h.Invariant t × Gets r text)

  given_back :
      (r : Received) (k : ℕ) (bytes : Option Bytes) (t : S) (text : Option Bytes)
      → first_unused buffers ≡ some k
      → h.Invariant t
      → Gets r text
      → Handled r (give_back h.answer files k bytes buffers t text)
  given_back r k bytes t text e w g = (flags-set_buffer k bytes buffers e, (w, g))

  refuse-Replied : Ends (Replied h files) (refuse h.answer files s)
  refuse-Replied = rw (prepared_lem http_internal_server_error) (
      send_response-Replied h files (s, prepared_response http_internal_server_error)
        (i, access_table-IsValid 8 (omega arith)))

  read_into-Handled :
      (k : ℕ) (old : Bytes) (r : Received)
      → first_unused buffers ≡ some k
      → Ends (Handled r) (read_into h.answer files routes dir buffers s k old r)
  unfolding string_in
  read_into-Handled k old failed e =
      Ends-bind (Replied h files) (Handled failed) (refuse h.answer files s) _ refuse-Replied
        (λ x w. given_back failed k none (x.0) none e (w.0) refl)
  read_into-Handled k old closed e =
      Ends-bind (Replied h files) (Handled closed) (refuse h.answer files s) _ refuse-Replied
        (λ x w. given_back closed k (some old) (x.0) none e (w.0) refl)
  read_into-Handled k old (received bytes) e =
      Ends-after (Handled (received bytes)) (string_in (overwrite bytes old)) _ (ground arith)
        (λ text.
          Ends-bind (Replied h files) (Handled (received bytes))
            (respond h.answer files routes dir s text) _
            (respond_total h files routes dir s text v i)
            (λ x w.
              given_back (received bytes) k (some (overwrite bytes old)) (x.0) (some (x.1)) e (w.0)
                (w.1)))

  in_buffer-Handled :
      (k : ℕ) (r : Received) (o : Option Buffer)
      → first_unused buffers ≡ some k
      → Ends (Handled r) (in_buffer h.answer files routes dir buffers s r k o)
  in_buffer-Handled k r none e = tt
  in_buffer-Handled k r (some b) e = elim (Option-cases b.bytes) [
    | inl f ↦ rw f tt
    | inr (old, f) ↦ rw f (read_into-Handled k old r e)
  ]

  -- Under the conditions of `respond_total`, and whatever comes from the client, `handle_http_request`
  -- ends, and where it returns, the buffers that are in use are those that were, the state keeps the
  -- promise of the callbacks, and to a client that sent something the text of a response is written, to any
  -- other one nothing.
  pub handle_http_request_total :
      (r : Received)
      → Ends (Handled r) (handle_http_request h.answer files routes dir (buffers, s) r)
  unfolding handle_http_request
  handle_http_request_total r = elim (Option-cases (first_unused buffers)) [
    | inl e ↦ rw e tt
    | inr (k, e) ↦ rw e (in_buffer-Handled k r (get_elem? buffers k) e)
  ]
