-- ===== src/Conv/Quote.antt =====
-- `%S` of conv.c: a string with quotes where the scanner would not read it as a word.
use es_shell_mirror.Prelude.{
  ℕ, ◌+◌, ◌/◌, ◌%◌, Bool, true, false, ◌||◌, [], ◌∷◌, ◌++◌, CString, ◌==◌, ltb, if◌then◌else◌,
  is_nil,
}
use es_shell_mirror.Scan.State.{nw}

pub data QuoteState : Type 0 where
  begin_state quoted_state unquoted_state : QuoteState

-- "%o" of a byte.
abbrev pub octal : ℕ → CString
octal c =
    if ltb c 8
    then (48 + c) ∷ []
    else if ltb c 64
    then (48 + c / 8) ∷ (48 + c % 8) ∷ []
    else (48 + c / 64) ∷ (48 + c / 8 % 8) ∷ (48 + c % 8) ∷ []

-- A byte that does not print.
unfoldable pub escape_of : ℕ → CString
escape_of c =
    if c == 7
    then 92 ∷ b'a' ∷ []
    else if c == 8
    then 92 ∷ b'b' ∷ []
    else if c == 12
    then 92 ∷ b'f' ∷ []
    else if c == 10
    then 92 ∷ b'n' ∷ []
    else if c == 13
    then 92 ∷ b'r' ∷ []
    else if c == 9
    then 92 ∷ b't' ∷ []
    else if c == 27
    then 92 ∷ b'e' ∷ []
    else 92 ∷ octal c

-- What goes before an escape, and before a printing byte.
abbrev pub before_escape : QuoteState → CString
before_escape begin_state = []
before_escape quoted_state = 39 ∷ b'^' ∷ []
before_escape unquoted_state = b'^' ∷ []

abbrev pub before_char : QuoteState → CString
before_char begin_state = 39 ∷ []
before_char quoted_state = []
before_char unquoted_state = b'^' ∷ 39 ∷ []

abbrev pub quote_end : QuoteState → CString
quote_end begin_state = 39 ∷ 39 ∷ []
quote_end quoted_state = 39 ∷ []
quote_end unquoted_state = []

abbrev pub quoted_byte : ℕ → CString
quoted_byte c = if c == 39 then 39 ∷ 39 ∷ [] else c ∷ []

unfoldable pub needs_quotes : CString → Bool
needs_quotes [] = false
needs_quotes (c ∷ s) = if nw c || c == b'@' then true else needs_quotes s

-- `isprint` is of the C library.
module _ (isprint : ℕ → Bool) where
  -- From the label `quoteit` on.
  unfoldable pub quote_loop : QuoteState → CString → CString
  unfolding escape_of
  quote_loop st [] = quote_end st
  quote_loop st (c ∷ s) =
      let rest = quote_loop (if isprint c then quoted_state else unquoted_state) s in
      if isprint c
      then before_char st ++ quoted_byte c ++ rest
      else before_escape st ++ escape_of c ++ rest

  -- `altform` is the flag of `%#S`.
  unfoldable pub sconv : Bool → CString → CString
  unfolding quote_loop needs_quotes
  sconv altform s = if altform || is_nil s || needs_quotes s then quote_loop begin_state s else s
