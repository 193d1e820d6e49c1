-- ===== src/Match/Quoting.antt =====
-- The quoting of a word (`QUOTED` and `UNQUOTED` of glob.c, `ISQUOTED` and `TAILQUOTE` of match.c).
-- A quoting is `QUOTED`, `UNQUOTED`, or a string that holds 'q' or 'r' for each byte of the word.
use es_shell_mirror.Prelude.{
  ℕ, zero, suc, Bool, true, false, [], ◌∷◌, CString, ◌==◌, get_or, head_byte,
}

pub data Quoting : Type 0 where
  quoted : Quoting
  unquoted : Quoting
  flags : CString → Quoting

-- `ISQUOTED(q, n)`
unfoldable pub is_quoted : Quoting → ℕ → Bool
is_quoted quoted n = true
is_quoted unquoted n = false
is_quoted (flags q) n = get_or q n 0 == b'q'

-- `q == UNQUOTED || q[0] == 'r'`, the test of match.c and glob.c for a character that is raw.
unfoldable pub is_raw : Quoting → Bool
is_raw quoted = false
is_raw unquoted = true
is_raw (flags q) = head_byte q == b'r'

-- `TAILQUOTE(q, 1)`. At `QUOTED` the source steps into the array "QUOTED".
unfoldable pub tail_quote : Quoting → Quoting
tail_quote quoted = flags (b'U' ∷ b'O' ∷ b'T' ∷ b'E' ∷ b'D' ∷ [])
tail_quote unquoted = unquoted
tail_quote (flags []) = flags []
tail_quote (flags (x ∷ q)) = flags q

-- `TAILQUOTE(q, n)`
unfoldable pub tail_quote_by : ℕ → Quoting → Quoting
unfolding tail_quote
tail_quote_by zero q = q
tail_quote_by (suc n) q = tail_quote_by n (tail_quote q)

-- `q++`. At `UNQUOTED` the source steps into the array "RAW", and past its end after four steps,
-- which is undefined. Here no 'q' is read there; `class_within` is false of a class that comes to that.
unfoldable pub step_quote : Quoting → Quoting
step_quote quoted = flags (b'U' ∷ b'O' ∷ b'T' ∷ b'E' ∷ b'D' ∷ [])
step_quote unquoted = flags (b'A' ∷ b'W' ∷ [])
step_quote (flags []) = flags []
step_quote (flags (x ∷ q)) = flags q
