-- ===== src/Runner/Sending.antt =====
-- The loop of `handle_http_request` in src/runner.c that writes the response to the client.
pub mod Prefix
use http_web_server_c.Base.{
  ℕ, zero, suc, ◌+◌, ◌-◌, ◌*◌, ◌≤◌, ◌<◌, ◌≡◌, refl, sym, ap, ◌∙◌, ◌≢◌, ◌↔◌, ◌⊎◌, inl, inr, Bool,
  true, false, not, ◌&&◌, ◌||◌, Option, none, some, List, [], ◌∷◌, ◌++◌, append-nil, append_assoc,
  arith, ◌==◌, ltb, leb, if◌then◌else◌, Bool-cases, Option-cases, length, take, drop, length-append,
  drop-append, drop-append_add, take-append, Outcome, ok, fault, abort, timeout, ◌>>=◌, ℤ, pos,
  negsuc, get_elem?,
}
use http_web_server_c.CString.{Bytes}

-- What `write` answers: n + 1 bytes were taken, or it returns 0 or less where `errno` is EINTR or
-- something else.
pub data Write : Type 0 where
  wrote : ℕ → Write
  interrupted failed : Write

-- What the client gets of the rest of the text. Where the answers end with something left, the loop
-- waits for the next one.
unfoldable pub write_all : List Write → Bytes → Outcome Bytes
write_all answers [] = ok []
write_all [] (c ∷ s) = timeout
write_all (wrote n ∷ answers) (c ∷ s) =
    write_all answers (drop n s) >>= λ rest. ok (c ∷ (take n s ++ rest))
write_all (interrupted ∷ answers) (c ∷ s) = write_all answers (c ∷ s)
write_all (failed ∷ answers) (c ∷ s) = ok []
