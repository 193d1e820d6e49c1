-- ===== src/Scan/Lex.antt =====
-- `yylex` of token.c: the next token, and the state after it.
use es_shell_mirror.Prelude.{
  ℕ, zero, suc, ◌+◌, Bool, true, false, not, ◌&&◌, ◌||◌, [], ◌∷◌, CString, codes, Option, none,
  some, ◌==◌, if◌then◌else◌, length,
}
use es_shell_mirror.Syntax.Tree.{n_pipe}
use es_shell_mirror.Syntax.Rewrite.{mkredircmd}
use es_shell_mirror.Syntax.Redirections.{mkclose, mkdup}
use es_shell_mirror.Scan.State.{
  Scanner, WordState, nw_state, rw_state, kw_state, Token, char_token, pipe_token, dup_token,
  redir_token, endfile, nl, error_token, sub_token, count_token, flat_token, prim_token, backback,
  arith_begin, call_token, pass_token, andand, oror, neq, leq, geq, first_of, rest_of, is_char, nw,
  nnw, dnw, setskip, unsetskip, print_prompt2, scanerror, skip_char, skip_line,
}
use es_shell_mirror.Scan.Redirect.{closed_fd, default_fd, fd_number, Fds, no_fds, fds, getfds}
use es_shell_mirror.Scan.Words.{Numerals, free_caret, lex_word, lex_quoted, lex_escape, bad_escape}

module _ {F : Type 0} (print_fd : ℕ → CString) (lib : Numerals F) where
  abbrev pub Lexed : Type 0
  Lexed = Token F × Scanner

  abbrev pub with_w : WordState → Scanner → Scanner
  with_w w st = record st { w = w }

  -- A character is taken where it is `c`, and the token `t` is returned; else `u`.
  unfoldable pub if_next : ℕ → Token F → Token F → Scanner → Lexed
  if_next c t u st =
      if is_char (first_of st.input) c then (t, record st { input = rest_of st.input }) else (u, st)

  -- The descriptors of a pipe.
  abbrev pub pipe_of : Option ℕ → Fds × Scanner → Lexed
  pipe_of c (no_fds, st) = (error_token, st)
  pipe_of c (fds out (fd_number n), st) = (pipe_token (some (n_pipe out n)), st)
  pipe_of c (fds out default_fd, st) = (pipe_token none, st)
  pipe_of c (fds out closed_fd, st) =
      (error_token, scanerror c (codes "expected digit after '='") st)

  unfoldable pub lex_pipe : Scanner → Lexed
  lex_pipe st0 =
      let st = unsetskip (with_w nw_state st0) in
      let c = first_of st.input in
      let st' = record st { input = rest_of st.input } in
      if is_char c b'|' then (oror, st') else pipe_of c (getfds c 1 (fd_number 0) st')

  -- The label `redirection`.
  abbrev pub redirection_of : CString → Fds × Scanner → Lexed
  redirection_of cmd (no_fds, st) = (error_token, st)
  redirection_of cmd (fds fd default_fd, st) = (redir_token (mkredircmd print_fd cmd fd), st)
  redirection_of cmd (fds fd closed_fd, st) = (dup_token (mkclose print_fd fd), st)
  redirection_of cmd (fds fd (fd_number n), st) = (dup_token (mkdup print_fd fd n), st)

  -- `s` follows the operator.
  unfoldable pub redirection : CString → ℕ → CString → Scanner → Lexed
  redirection cmd fd s st =
      redirection_of cmd
        (getfds (first_of s) fd default_fd (record (with_w nw_state st) { input = rest_of s }))

  -- Behind "<".
  unfoldable pub lex_less : Scanner → Lexed
  lex_less st =
      let s = st.input in
      let s1 = rest_of s in
      let s2 = rest_of s1 in
      if is_char (first_of s) b'>'
      then (if is_char (first_of s1) b'>'
          then redirection (codes "%open-append") 0 s2 st
          else redirection (codes "%open-write") 0 s1 st)
      else if is_char (first_of s) b'<'
      then (if is_char (first_of s1) b'<'
          then redirection (codes "%here") 0 s2 st
          else redirection (codes "%heredoc") 0 s1 st)
      else if is_char (first_of s) b'='
      then (call_token, record st { input = s1; numeric = false })
      else redirection (codes "%open") 0 s st

  -- Behind ">".
  unfoldable pub lex_greater : Scanner → Lexed
  lex_greater st =
      let s = st.input in
      let s1 = rest_of s in
      let s2 = rest_of s1 in
      if is_char (first_of s) b'>'
      then (if is_char (first_of s1) b'<'
          then redirection (codes "%open-append") 1 s2 st
          else redirection (codes "%append") 1 s1 st)
      else if is_char (first_of s) b'<'
      then redirection (codes "%open-create") 1 s1 st
      else redirection (codes "%create") 1 s st

  -- The end of a line.
  unfoldable pub lex_newline : Scanner → Lexed
  lex_newline st =
      (nl, unsetskip (record st { lineno = st.lineno + 1; newline = true; w = nw_state }))

  -- A comment.
  unfoldable pub has_newline : CString → Bool
  has_newline [] = false
  has_newline (c ∷ s) = if c == 10 then true else has_newline s

  unfoldable pub lex_comment : Scanner → Lexed
  lex_comment st =
      let st' = record st { input = skip_line st.input } in
      if has_newline st.input then lex_newline st' else (endfile, st')

  -- Behind a backquote or a dollar sign.
  unfoldable pub lex_backquote : Scanner → Lexed
  lex_backquote st0 =
      let st = record st0 { numeric = false } in
      let c = first_of st.input in
      let st' = record st { input = rest_of st.input } in
      if is_char c b'`'
      then (backback, st')
      else if is_char c b'('
      then (arith_begin, record st' { numeric = true })
      else (char_token b'`', st)

  unfoldable pub lex_dollar : Scanner → Lexed
  lex_dollar st0 =
      let st = record st0 { dollar = true; numeric = false } in
      let c = first_of st.input in
      let st' = record st { input = rest_of st.input } in
      if is_char c b'#'
      then (count_token, st')
      else if is_char c b'^'
      then (flat_token, st')
      else if is_char c b'&'
      then (prim_token, st')
      else (char_token b'$', st)

  abbrev pub is_rw : WordState → Bool
  is_rw rw_state = true
  is_rw nw_state = false
  is_rw kw_state = false

  -- The last `switch`, on a character that is no word; not the backslash.
  unfoldable pub lex_special : ℕ → Scanner → Lexed
  lex_special c st =
      if c == b'!'
      then (char_token b'!', st)
      else if c == b'`'
      then lex_backquote st
      else if c == b'$'
      then lex_dollar st
      else if c == 39
      then lex_quoted st
      else if c == b'#'
      then lex_comment st
      else if c == 10
      then lex_newline st
      else if c == b'('
      then ((if is_rw st.w then sub_token else char_token b'('), with_w nw_state st)
      else if c == b';' || c == b'{'
      then (char_token c, unsetskip (with_w nw_state st))
      else if c == b')' || c == b'}' || c == b'^'
      then (char_token c, with_w nw_state st)
      else if c == b'='
      then (if is_char (first_of st.input) b'>'
          then (pass_token, unsetskip (record st { w = nw_state; input = rest_of st.input }))
          else (char_token b'=', setskip true (with_w nw_state st)))
      else if c == b'&'
      then if_next b'&' andand (char_token b'&') (unsetskip (with_w nw_state st))
      else if c == b'|'
      then lex_pipe st
      else if c == b'<'
      then lex_less st
      else if c == b'>'
      then lex_greater st
      else (char_token c, with_w nw_state st)

  -- "if (c == '`' || c == '!' || ...)", then the switch.
  unfoldable pub lex_operator : ℕ → Scanner → Lexed
  lex_operator c st =
      if c == b'!'
      then free_caret c st (λ st'. lex_special c (with_w kw_state st'))
      else if c == b'`' || c == b'$' || c == 39
      then free_caret c st (lex_special c)
      else lex_special c st

  -- Operators of arithmetic.
  unfoldable pub lex_numeric : ℕ → Scanner → Lexed
  lex_numeric c st =
      let st' = with_w nw_state st in
      if c == b'!'
      then (if is_char (first_of st.input) b'='
          then (neq, record st' { input = rest_of st.input })
          else lex_operator c st')
      else if c == b'<'
      then if_next b'=' leq (char_token c) st'
      else if c == b'='
      then if_next b'=' (char_token b'=') (char_token c) st'
      else if c == b'>'
      then if_next b'=' geq (char_token c) st'
      else if c == b'-' || c == b'+' || c == b'*' || c == b'/' || c == b'%'
      then (char_token c, st')
      else lex_operator c st

  -- A character that is neither blank nor a backslash.
  unfoldable pub lex_char : (ℕ → Bool) → ℕ → Scanner → Lexed
  lex_char meta c st =
      if not (meta c) || skip_char st.skipdual c st.input
      then free_caret c st (lex_word lib meta c)
      else if st.numeric
      then lex_numeric c st
      else lex_operator c st

  -- A backslash that is not before a newline. `c` is the character after it, which is read, put back,
  -- and read again.
  unfoldable pub backslash_at : Option ℕ → Scanner → Lexed
  backslash_at none st = bad_escape none st
  backslash_at (some c) st =
      free_caret 92 st
        (λ st'. lex_escape lib c (record st' { w = rw_state; input = rest_of st'.input }))

  unfoldable pub lex_backslash : Scanner → Lexed
  lex_backslash st = backslash_at (first_of st.input) st

  abbrev pub is_blank : ℕ → Bool
  is_blank c = c == 32 || c == 9

  -- From the label `top` on, where blanks are skipped, and backslashes before newlines with them: each
  -- round takes a character, so the length of the input is fuel enough.
  unfoldable pub lex_top : ℕ → (ℕ → Bool) → CString → Scanner → Lexed
  lex_top zero meta s st = (endfile, record st { input = s })
  lex_top (suc n) meta [] st = (endfile, record st { input = [] })
  lex_top (suc n) meta (c ∷ s) st =
      let blank = is_blank c in
      let joined = c == 92 && is_char (first_of s) 10 in
      let again =
        lex_top n meta (if blank then s else rest_of s)
          (with_w nw_state (if blank then st else print_prompt2 st)) in
      if blank || joined
      then again
      else if c == 92
      then lex_backslash (record st { input = s })
      else lex_char meta c (record st { input = s })

  abbrev pub meta_of : Scanner → ℕ → Bool
  meta_of st = if st.numeric then nnw else if st.dollar then dnw else nw

  unfoldable pub yylex : Scanner → Lexed
  yylex st =
      if st.goterror
      then (nl, record st { goterror = false })
      else lex_top (suc (length st.input)) (meta_of st) st.input
          (record st { newline = false; dollar = false })

  -- `inityy`, but for its buffer.
  abbrev pub inityy : Scanner → Scanner
  inityy st = record st { newline = false; w = nw_state }
