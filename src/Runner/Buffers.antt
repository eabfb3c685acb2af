-- ===== src/Runner/Buffers.antt =====
-- The read buffers of src/runner.c: `buffer_list`, `buffer_used`, and the read of
-- `handle_http_request`.
use http_web_server_c.CString.{until, Bytes, shift}
use http_web_server_c.Base.{
  ℕ, zero, suc, Bool, true, false, Option, none, some, List, [], ◌∷◌, ◌++◌, ◌==◌, if◌then◌else◌,
  length, drop, Outcome, ok, fault,
}

-- The bytes of a buffer, `none` when it was freed.
pub record Buffer : Type 0 where
  pub used : Bool
  pub bytes : Option Bytes

abbrev pub first_unused : List Buffer → Option ℕ
first_unused [] = none
first_unused (b ∷ bs) = if b.used then shift (first_unused bs) else some 0

abbrev pub set_buffer : ℕ → Buffer → List Buffer → List Buffer
set_buffer i b [] = []
set_buffer zero b (c ∷ cs) = b ∷ cs
set_buffer (suc i) b (c ∷ cs) = c ∷ set_buffer i b cs

-- N_KB * KB
abbrev pub buffer_length : ℕ
buffer_length = 16384

-- What `read` answers: an error, the end of the stream, or at most buffer_length - 1 bytes.
pub data Received : Type 0 where
  failed closed : Received
  received : Bytes → Received

-- The bytes are written over the front of the buffer, and no terminator behind them.
abbrev pub overwrite : Bytes → Bytes → Bytes
overwrite bytes old = bytes ++ drop (length bytes) old

abbrev pub has_terminator : Bytes → Bool
has_terminator [] = false
has_terminator (c ∷ s) = if c == 0 then true else has_terminator s

-- The string that the parser sees in a buffer.
unfoldable pub string_in : Bytes → Outcome Bytes
string_in s = if has_terminator s then ok (until 0 s) else fault
