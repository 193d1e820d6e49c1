-- ===== src/Scan/Words.antt =====
-- Words, numbers and quoted words in `yylex` of token.c.
use es_shell_mirror.Prelude.{
  ℕ, ◌+◌, ◌-◌, ◌*◌, ◌%◌, ◌^◌, Bool, true, false, not, ◌||◌, [], ◌∷◌, CString, codes, Option, none,
  some, ◌==◌, if◌then◌else◌, streq, head_byte,
}
use es_shell_mirror.Prelude.Int.{ℤ}
use es_shell_mirror.Glom.Eval.{Strto}
use es_shell_mirror.Scan.State.{
  Scanner, WordState, nw_state, rw_state, kw_state, Token, char_token, word_token, qword_token,
  int_token, float_token, error_token, fn_token, for_token, local_token, let_token, extract_token,
  closure_token, first_of, rest_of, between, setskip, scanerror, skip_char,
}

-- Functions of the C library: `strtoll`, `strtod` and a test of ctype.h.
pub record Numerals (F : Type 0) : Type 0 where
  pub strtoll : CString → Strto ℤ
  pub strtod : CString → Strto F
  pub isalnum : ℕ → Bool

-- The characters of a word, and what follows them.
unfoldable pub gather : (ℕ → Bool) → Bool → CString → CString × CString
gather meta skipeq [] = ([], [])
gather meta skipeq (c ∷ s) =
    let more = gather meta skipeq s in
    if not (meta c) || skip_char skipeq c s then (c ∷ more.0, more.1) else ([], c ∷ s)

-- The keyword that a word is, if it is one.
unfoldable pub keyword : {F : Type 0} → CString → Option (Token F)
unfolding streq
keyword word =
    if streq word (codes "@") || streq word (codes "~")
    then some (char_token (head_byte word))
    else if streq word (codes "fn")
    then some fn_token
    else if streq word (codes "for")
    then some for_token
    else if streq word (codes "local")
    then some local_token
    else if streq word (codes "let")
    then some let_token
    else if streq word (codes "~~")
    then some extract_token
    else if streq word (codes "%closure")
    then some closure_token
    else none

module _ {F : Type 0} where
  abbrev pub after_keyword : Option (Token F) → CString → Scanner → Token F × Scanner
  after_keyword (some t) word st = (t, setskip false (record st { w = kw_state }))
  after_keyword none word st = (word_token word, setskip false (record st { w = rw_state }))

  -- A word where numbers are expected. The character after it is read and put back.
  unfoldable pub number_token : Numerals F → CString → Scanner → Token F × Scanner
  number_token lib word st =
      let i = lib.strtoll word in
      let f = lib.strtod word in
      let last = first_of st.input in
      if i.at_end
      then (if i.erange
          then (error_token, scanerror last (codes "integer value too large") st)
          else (int_token i.parsed, st))
      else if f.at_end
      then (if i.erange || f.erange
          then (error_token, scanerror last (codes "float value too large") st)
          else (float_token f.parsed, st))
      else (error_token, scanerror last (codes "invalid number") st)

  -- InsertFreeCaret: between two words without blanks a caret is read. `c` is read again.
  abbrev pub caret_or : WordState → ℕ → Scanner → (Scanner → Token F × Scanner) → Token F × Scanner
  caret_or nw_state c st next = next st
  caret_or rw_state c st next = (char_token b'^', record st { w = nw_state; input = c ∷ st.input })
  caret_or kw_state c st next = (char_token b'^', record st { w = nw_state; input = c ∷ st.input })

  unfoldable pub free_caret : ℕ → Scanner → (Scanner → Token F × Scanner) → Token F × Scanner
  free_caret c st next = caret_or st.w c st next

  -- A word that begins with `c`.
  unfoldable pub lex_word : Numerals F → (ℕ → Bool) → ℕ → Scanner → Token F × Scanner
  lex_word lib meta c st =
      let got = gather meta st.skipequals st.input in
      let st' = record st { w = rw_state; input = got.1 } in
      if st.numeric
      then number_token lib (c ∷ got.0) st'
      else after_keyword (keyword (c ∷ got.0)) (c ∷ got.0) st'

-- What a quoted word is made of: its text, what follows, the newlines in it, and whether it ended.
pub record Quoted : Type 0 where
  pub text : CString
  pub after : CString
  pub lines : ℕ
  pub ended : Bool

abbrev pub quoted_char : ℕ → Quoted → Quoted
quoted_char c q = record q { text = c ∷ q.text; lines = if c == 10 then q.lines + 1 else q.lines }

-- Behind the first quote. Two quotes stand for one.
unfoldable pub quoted_loop : CString → Quoted
quoted_loop [] = record { text = []; after = []; lines = 0; ended = false }
quoted_loop (c ∷ []) =
    if c == 39
    then record { text = []; after = []; lines = 0; ended = true }
    else quoted_char c (record { text = []; after = []; lines = 0; ended = false })
quoted_loop (c ∷ d ∷ s) = elim (c == 39) [
  | true ↦ elim (d == 39) [
    | true ↦ quoted_char 39 (quoted_loop s)
    | false ↦ record { text = []; after = d ∷ s; lines = 0; ended = true }
  ]
  | false ↦ quoted_char c (quoted_loop (d ∷ s))
]

module _ {F : Type 0} where
  unfoldable pub lex_quoted : Scanner → Token F × Scanner
  lex_quoted st =
      let q = quoted_loop st.input in
      let st' = record st { input = q.after; lineno = st.lineno + q.lines } in
      if q.ended then (qword_token q.text, setskip false (record st' { w = rw_state })) else (
        error_token,
        scanerror none (codes "eof in quoted string") (record st' { w = nw_state }),
      )

-- A character of a string; a NUL ends it.
abbrev pub one_char : ℕ → CString
one_char c = if c == 0 then [] else c ∷ []

abbrev pub is_octal : ℕ → Bool
is_octal c = between 48 55 c

abbrev pub is_hexadecimal : ℕ → Bool
is_hexadecimal c = between 48 57 c || between 65 70 c || between 97 102 c

abbrev pub hex_value : ℕ → ℕ
hex_value c = if between 48 57 c then c - 48 else if between 97 102 c then c - 87 else c - 55

-- The digits of an escape: its number, an `int` of 32 bits, and what follows.
unfoldable pub hex_loop : ℕ → CString → ℕ × CString
hex_loop n [] = (n, [])
hex_loop n (c ∷ s) =
    let more = hex_loop ((n * 16 + hex_value c) % 2 ^ 32) s in
    if is_hexadecimal c then more else (n, c ∷ s)

unfoldable pub octal_loop : ℕ → CString → ℕ × CString
octal_loop n [] = (n, [])
octal_loop n (c ∷ s) =
    let more = octal_loop ((n * 8 + (c - 48)) % 2 ^ 32) s in if is_octal c then more else (n, c ∷ s)

module _ {F : Type 0} where
  abbrev pub bad_escape : Option ℕ → Scanner → Token F × Scanner
  bad_escape last st = (error_token, scanerror last (codes "bad backslash escape") st)

  abbrev pub escaped : CString → Scanner → Token F × Scanner
  escaped buf st = (qword_token buf, setskip false st)

  -- An escape by a number, which is cut to a `char`.
  unfoldable pub numbered : ℕ × CString → Scanner → Token F × Scanner
  numbered (n, s) st =
      if n == 0
      then bad_escape (first_of s) (record st { input = rest_of s })
      else escaped (one_char (n % 256)) (record st { input = s })

  -- The character `c` after a backslash.
  unfoldable pub lex_escape : Numerals F → ℕ → Scanner → Token F × Scanner
  lex_escape lib c st =
      if c == b'a'
      then escaped (7 ∷ []) st
      else if c == b'b'
      then escaped (8 ∷ []) st
      else if c == b'e'
      then escaped (27 ∷ []) st
      else if c == b'f'
      then escaped (12 ∷ []) st
      else if c == b'n'
      then escaped (10 ∷ []) st
      else if c == b'r'
      then escaped (13 ∷ []) st
      else if c == b't'
      then escaped (9 ∷ []) st
      else if c == b'x' || c == b'X'
      then numbered (hex_loop 0 st.input) st
      else if is_octal c
      then numbered (octal_loop (c - 48) st.input) st
      else if lib.isalnum c
      then bad_escape (some c) st
      else escaped (one_char c) st
