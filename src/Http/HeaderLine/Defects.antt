-- ===== src/Http/HeaderLine/Defects.antt =====
-- Two inputs that `parse_http_header` does not read as it means to.
use http_web_server_c.Utility.Slice.{read}
use http_web_server_c.Base.{
  ℕ, ◌+◌, ◌≤◌, ◌<◌, ◌≡◌, refl, ap, ◌∙◌, inl, inr, not, some, [], ◌∷◌, ◌++◌, append_assoc, arith,
  ◌==◌, Option-cases, length, drop, length-append, drop-append, drop-append_add, ok, fault, Ensures,
  fault-bind, if_both,
}
use http_web_server_c.CString.Search.{Lacks-append, strstr-crlf, crlf, Lacks}
use http_web_server_c.Http.HeaderLine.RoundTrip.{parse_value_lem, parse_key_lem, IsText}
use http_web_server_c.CString.{shift, strstr, Bytes}
use http_web_server_c.Utility.Paths.{find_non_space-solid, EndsSolid}
use http_web_server_c.Utility.{is_non_space, find_non_space}
use http_web_server_c.Http.HeaderLine.{
  next_solid, parse_http_header, parse_value, scan_quoted_value,
}

next_solid-ge : (s : Bytes) (i : ℕ) → Ensures (λ l. i ≤ l) (next_solid s i)
next_solid-ge s i = elim (Option-cases (find_non_space (drop i s))) [
  | inl e ↦ rw e tt
  | inr (k, e) ↦ rw e (omega arith)
]

read-any : (s : Bytes) (i : ℕ) → Ensures (λ _. Unit {0}) (read s i)
read-any s i = ground arith

scan_quoted_value_past :
    (e : ℕ) (s : Bytes) (i l c : ℕ) → e < i → scan_quoted_value (some e) s i l c ≡ fault
unfolding scan_quoted_value
scan_quoted_value_past e [] i l c h = ground arith
scan_quoted_value_past e (d ∷ s) i l c h =
    ground (arith, scan_quoted_value_past e s (i + 1) l c, scan_quoted_value_past e s (i + 1) i d)

-- A value that begins behind the end of its header.
parse_value_past : (s : Bytes) (e start : ℕ) → e < start → parse_value s (some e) start ≡ fault
unfolding parse_value
parse_value_past s e start h =
    fault-bind (λ _. Unit {0}) (read s start) _ (read-any s start)
      λ c _.
        if_both (λ m. m ≡ fault) (not (c == b'"')) _ _ (ground arith)
          (fault-bind (λ l. start + 1 ≤ l) (next_solid s (start + 1)) _
            (next_solid-ge s (start + 1))
            λ last past.
              fault-bind (λ _. Unit {0}) (read s last) _ (read-any s last)
                λ d _.
                  rw (scan_quoted_value_past e (drop (last + 1) s) (last + 1) last d (omega arith))
                    refl)

module _ (k rest : Bytes) where
  abbrev empty_line : Bytes
  empty_line = k ++ b':' ∷ 13 ∷ 10 ∷ rest

  strstr-empty_line : Lacks 13 k → strstr empty_line crlf ≡ some (length k + 1)
  strstr-empty_line h = rw (← append_assoc k (b':' ∷ []) (13 ∷ 10 ∷ rest)) (
      strstr-crlf (k ++ b':' ∷ []) rest (Lacks-append 13 k (b':' ∷ []) h (refl, tt))
      ∙ ap some (length-append k (b':' ∷ [])))

  next_solid-empty_line : Ensures (λ l. length k + 2 ≤ l) (next_solid empty_line (length k + 1))
  unfolding find_non_space is_non_space
  next_solid-empty_line =
      rw (drop-append_add k (b':' ∷ 13 ∷ 10 ∷ rest) 1) (elim (Option-cases (find_non_space rest)) [
        | inl e ↦ rw e tt
        | inr (j, e) ↦ rw e (omega arith)
      ])

  -- A header line with a well-formed key, a ':' and nothing behind it: the search for the value goes
  -- past the line end, and the behaviour is undefined, whatever follows the line.
  pub empty_value_faults : IsText k → Lacks b':' k → parse_http_header empty_line ≡ fault
  unfolding parse_http_header
  empty_value_faults t plain =
      rw
        (
          find_non_space-solid k (b':' ∷ 13 ∷ 10 ∷ rest) t.starts,
          strstr-empty_line t.one_line,
          parse_key_lem [] k (13 ∷ 10 ∷ rest) (length k + 1) t plain (omega arith),
        )
        (fault-bind (λ l. length k + 2 ≤ l) (next_solid empty_line (length k + 1)) _
          next_solid-empty_line
          λ start past. rw (parse_value_past empty_line (length k + 1) start (omega arith)) refl)

module _ (k v rest : Bytes) where
  -- The header, with one blank in front.
  abbrev indented : Bytes
  indented = b' ' ∷ (k ++ b':' ∷ b' ' ∷ (v ++ 13 ∷ 10 ∷ rest))

  abbrev shifted : Bytes
  shifted = b':' ∷ b' ' ∷ v

  indented-shifted : indented ≡ (b' ' ∷ k) ++ (shifted ++ 13 ∷ 10 ∷ rest)
  indented-shifted = refl

  strstr-indented :
      Lacks 13 k → Lacks 13 v → strstr indented crlf ≡ some (length (b' ' ∷ k) + length shifted)
  strstr-indented hk hv = rw (← append_assoc (b' ' ∷ k) shifted (13 ∷ 10 ∷ rest)) (
      strstr-crlf ((b' ' ∷ k) ++ shifted) rest
        (Lacks-append 13 (b' ' ∷ k) shifted (refl, hk) (refl, (refl, hv)))
      ∙ ap some (length-append (b' ' ∷ k) shifted))

  solid-shifted : EndsSolid v → EndsSolid shifted
  solid-shifted = go v
    where
      go : (v : Bytes) → EndsSolid v → EndsSolid (b':' ∷ b' ' ∷ v)
      go [] h = absurd h
      go (c ∷ v) h = h

  first_solid :
      find_non_space indented ≡ shift (find_non_space (k ++ b':' ∷ b' ' ∷ (v ++ 13 ∷ 10 ∷ rest)))
  unfolding find_non_space is_non_space
  first_solid = refl

  next_solid-indented : next_solid indented (length k + 1) ≡ ok (length k + 1)
  unfolding find_non_space is_non_space
  next_solid-indented = ground (arith, drop-append (b' ' ∷ k) (shifted ++ 13 ∷ 10 ∷ rest))

  -- With one blank in front of a well-formed header the key is read as it is, and the value comes
  -- with the ": " in front of it, since `offset` is taken from the start of the key.
  pub indented_key_shifts_value :
      IsText k
      → IsText v
      → Lacks b':' k
      → parse_http_header indented ≡ ok (some (record { key = k; value = b':' ∷ b' ' ∷ v }))
  unfolding parse_http_header is_non_space
  indented_key_shifts_value tk tv plain = ground (
    arith,
    strstr-indented tk.one_line tv.one_line,
    first_solid,
    find_non_space-solid k (b':' ∷ b' ' ∷ (v ++ 13 ∷ 10 ∷ rest)) tk.starts,
    parse_key_lem (b' ' ∷ []) k (b' ' ∷ (v ++ 13 ∷ 10 ∷ rest)) (length (b' ' ∷ k) + length shifted)
        tk plain (omega arith),
    next_solid-indented,
    parse_value_lem (b' ' ∷ k) shifted (13 ∷ 10 ∷ rest) (record {
      starts = refl;
      ends = solid-shifted tv.ends;
      unquoted = refl;
      one_line = (refl, (refl, tv.one_line));
    }),
  )
