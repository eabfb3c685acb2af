-- ===== src/Runner/Sending/Prefix.antt =====
-- What a client gets of a response.
use http_web_server_c.Base.{
  ℕ, zero, suc, ◌≤◌, ◌≡◌, refl, sym, ap, ◌∙◌, ◌⊎◌, inl, inr, Bool, true, false, List, [], ◌∷◌, ◌++◌,
  append_assoc, arith, length, take, drop, ok, length-drop-le,
}
use http_web_server_c.CString.{Bytes}
use http_web_server_c.Runner.Sending.{Write, write_all, wrote, interrupted, failed}

-- How many answers move the loop on.
abbrev pub moves : List Write → ℕ
moves [] = 0
moves (interrupted ∷ answers) = moves answers
moves (_ ∷ answers) = suc (moves answers)

abbrev pub fails : List Write → Bool
fails [] = false
fails (failed ∷ answers) = true
fails (_ ∷ answers) = fails answers

take-drop : (n : ℕ) (s : Bytes) → s ≡ take n s ++ drop n s
take-drop zero s = refl
take-drop (suc n) [] = refl
take-drop (suc n) (c ∷ s) = ap (◌∷◌ c) (take-drop n s)

-- When the answers that are not interruptions are as many as the bytes of the response, the loop ends.
-- What the client got then is a front part of the response: all of it, unless some write failed.
pub write_all-prefix :
    (answers : List Write) (text : Bytes)
    → length text ≤ moves answers
    → (sent rest : Bytes) × (write_all answers text ≡ ok sent)
      × (text ≡ sent ++ rest)
      × ((rest ≡ []) ⊎ (fails answers ≡ true))
unfolding write_all
write_all-prefix answers [] h = ([], [], refl, refl, inl refl)
write_all-prefix [] (c ∷ s) h = absurd (omega (arith, h))
write_all-prefix (wrote n ∷ answers) (c ∷ s) h =
    let (sent, rest, run, split, whole) =
      write_all-prefix answers (drop n s) (omega (arith, h, length-drop-le n s)) in
    (
      c ∷ (take n s ++ sent),
      rest,
      rw run refl,
      ap (◌∷◌ c)
          (take-drop n s ∙ ap (λ l. take n s ++ l) split ∙ sym (append_assoc (take n s) sent rest)),
      whole,
    )
write_all-prefix (interrupted ∷ answers) (c ∷ s) h = write_all-prefix answers (c ∷ s) h
write_all-prefix (failed ∷ answers) (c ∷ s) h = ([], c ∷ s, refl, refl, inr refl)
