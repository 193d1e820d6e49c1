-- ===== src/Scan/Lengths.antt =====
-- What the functions of `yylex` leave of the input is no longer than what they were given.
use es_shell_mirror.Prelude.{
  ◌%◌, ◌^◌, ◌-◌, ℕ, ◌+◌, ◌*◌, ◌≤◌, Bool, [], ◌∷◌, CString, Option, none, some, arith, length, codes,
}
use es_shell_mirror.Scan.State.{
  char_token, andand, unsetskip, Scanner, nw_state, rw_state, Token, first_of, rest_of, unget,
  skip_line, scanerror,
}
use es_shell_mirror.Scan.Redirect.{
  SecondFd, closed_fd, default_fd, fd_number, Fds, no_fds, fds, digits_loop, digit_value, fds_end,
  fds_second, fds_first, getfds,
}
use es_shell_mirror.Scan.Words.{
  quoted_loop, gather, keyword, Numerals, lex_quoted, lex_word, lex_escape, numbered, hex_loop,
  octal_loop, number_token, after_keyword, hex_value,
}
use es_shell_mirror.Scan.Lex.{
  lex_special, lex_backquote, lex_dollar, lex_comment, lex_newline, lex_pipe, lex_less, lex_greater,
  redirection, pipe_of, redirection_of, if_next,
}

pub rest_of-le : (s : CString) → length (rest_of s) ≤ length s
rest_of-le [] = omega arith
rest_of-le (c ∷ s) = omega arith

pub skip_line-le : (s : CString) → length (skip_line s) ≤ length s
unfolding skip_line
skip_line-le [] = omega arith
skip_line-le (c ∷ s) = ground (arith, skip_line-le s)

pub scanerror-le :
    (last : Option ℕ) (m : CString) (st : Scanner)
    → length ((scanerror last m st).input) ≤ length st.input
unfolding scanerror
scanerror-le none m st = omega arith
scanerror-le (some c) m st = ground (arith, skip_line-le st.input)

pub gather-le :
    (meta : ℕ → Bool) (skipeq : Bool) (s : CString) → length (gather meta skipeq s).1 ≤ length s
unfolding gather
gather-le meta skipeq [] = omega arith
gather-le meta skipeq (c ∷ s) = ground (arith, gather-le meta skipeq s)

pub digits_loop-le : (n : ℕ) (s : CString) → length (digits_loop n s).1 ≤ length s
unfolding digits_loop
digits_loop-le n [] = omega arith
digits_loop-le n (c ∷ s) = ground (arith, digits_loop-le (n * 10 + (c - 48)) s)

pub quoted_loop-le : (s : CString) → length (quoted_loop s).after ≤ length s
unfolding quoted_loop
quoted_loop-le [] = omega arith
quoted_loop-le (c ∷ []) = ground arith
quoted_loop-le (c ∷ d ∷ s) = ground (arith, quoted_loop-le s, quoted_loop-le (d ∷ s))

-- The digits of an escape.
pub hex_loop-le : (n : ℕ) (s : CString) → length (hex_loop n s).1 ≤ length s
unfolding hex_loop
hex_loop-le n [] = omega arith
hex_loop-le n (c ∷ s) = ground (arith, hex_loop-le ((n * 16 + hex_value c) % 2 ^ 32) s)

pub octal_loop-le : (n : ℕ) (s : CString) → length (octal_loop n s).1 ≤ length s
unfolding octal_loop
octal_loop-le n [] = omega arith
octal_loop-le n (c ∷ s) = ground (arith, octal_loop-le ((n * 8 + (c - 48)) % 2 ^ 32) s)

module _ (F : Type 0) where
  pub number_token-le :
      (lib : Numerals F) (word : CString) (st : Scanner)
      → length (number_token lib word st).1.input ≤ length st.input
  unfolding number_token
  number_token-le lib word st = ground (
    arith,
    scanerror-le (first_of st.input) (codes "integer value too large") st,
    scanerror-le (first_of st.input) (codes "float value too large") st,
    scanerror-le (first_of st.input) (codes "invalid number") st,
  )

  pub after_keyword-le :
      (o : Option (Token F)) (word : CString) (st : Scanner)
      → length (after_keyword o word st).1.input ≤ length st.input
  after_keyword-le none word st = omega arith
  after_keyword-le (some t) word st = omega arith

  pub lex_word-le :
      (lib : Numerals F) (meta : ℕ → Bool) (c : ℕ) (st : Scanner)
      → length (lex_word lib meta c st).1.input ≤ length st.input
  unfolding lex_word
  lex_word-le lib meta c st =
      let got = gather meta st.skipequals st.input in
      let st' : Scanner = record st { w = rw_state; input = got.1 } in
      ground (
        arith,
        gather-le meta st.skipequals st.input,
        number_token-le lib (c ∷ got.0) st',
        after_keyword-le (keyword (c ∷ got.0)) (c ∷ got.0) st',
      )

  pub lex_quoted-le : (st : Scanner) → length (lex_quoted {F = F} st).1.input ≤ length st.input
  unfolding lex_quoted
  lex_quoted-le st =
      let q = quoted_loop st.input in
      let st' : Scanner = record st {
        input = q.after;
        lineno = st.lineno + q.lines;
        w = nw_state;
      } in
      ground (arith, quoted_loop-le st.input, scanerror-le none (codes "eof in quoted string") st')

  pub numbered-le :
      (r : ℕ × CString) (st : Scanner) → length (numbered {F = F} r st).1.input ≤ length r.1
  unfolding numbered
  numbered-le (n, s) st = ground (
    arith,
    rest_of-le s,
    scanerror-le (first_of s) (codes "bad backslash escape") (record st { input = rest_of s }),
  )

  pub lex_escape-le :
      (lib : Numerals F) (c : ℕ) (st : Scanner)
      → length (lex_escape lib c st).1.input ≤ length st.input
  unfolding lex_escape
  lex_escape-le lib c st = ground (
    arith,
    numbered-le (hex_loop 0 st.input) st,
    hex_loop-le 0 st.input,
    numbered-le (octal_loop (c - 48) st.input) st,
    octal_loop-le (c - 48) st.input,
    scanerror-le (some c) (codes "bad backslash escape") st,
  )

module _ (st : Scanner) where
  pub fds_end-le : (fd n : ℕ) (s : CString) → length (fds_end fd (n, s) st).1.input ≤ length s
  unfolding fds_end
  fds_end-le fd n s = ground (
    arith,
    rest_of-le s,
    scanerror-le (first_of s) (codes "expected ']' after digit") (record st { input = rest_of s }),
  )

  pub fds_second-le : (fd : ℕ) (s : CString) → length (fds_second fd s st).1.input ≤ length s
  unfolding fds_second
  fds_second-le fd s =
      let d = digits_loop (digit_value (first_of s)) (rest_of s) in
      ground (
        arith,
        rest_of-le s,
        fds_end-le fd d.0 d.1,
        digits_loop-le (digit_value (first_of s)) (rest_of s),
        scanerror-le (first_of s) (codes "expected digit or ']' after '='")
            (record st { input = rest_of s }),
      )

  pub fds_first-le :
      (d : SecondFd) (n : ℕ) (s : CString) → length (fds_first d (n, s) st).1.input ≤ length s
  unfolding fds_first
  fds_first-le d n s = ground (
    arith,
    rest_of-le s,
    fds_second-le n (rest_of s),
    scanerror-le (first_of s) (codes "expected '=' or ']' after digit")
        (record st { input = rest_of s }),
  )

  pub getfds-le :
      (c : Option ℕ) (d0 : ℕ) (d1 : SecondFd) (k : ℕ)
      → length (unget c st.input) ≤ k
      → length st.input ≤ k
      → length (getfds c d0 d1 st).1.input ≤ k
  unfolding getfds
  getfds-le c d0 d1 k h h' =
      let d = digits_loop (digit_value (first_of st.input)) (rest_of st.input) in
      ground (
        arith,
        h,
        h',
        rest_of-le st.input,
        fds_first-le d1 d.0 d.1,
        digits_loop-le (digit_value (first_of st.input)) (rest_of st.input),
        scanerror-le (first_of st.input) (codes "expected digit after '['")
            (record st { input = rest_of st.input }),
      )

pub unget-first : (s : CString) → length (unget (first_of s) (rest_of s)) ≤ length s
unget-first [] = omega arith
unget-first (c ∷ s) = omega arith

module _ {F : Type 0} (print_fd : ℕ → CString) (lib : Numerals F) where
  pub pipe_of-le :
      (c : Option ℕ) (r : Fds × Scanner)
      → length (pipe_of print_fd lib c r).1.input ≤ length r.1.input
  pipe_of-le c (no_fds, st) = omega arith
  pipe_of-le c (fds out (fd_number n), st) = omega arith
  pipe_of-le c (fds out default_fd, st) = omega arith
  pipe_of-le c (fds out closed_fd, st) = scanerror-le c (codes "expected digit after '='") st

  pub lex_pipe-le : (st : Scanner) → length (lex_pipe print_fd lib st).1.input ≤ length st.input
  unfolding lex_pipe
  lex_pipe-le st0 =
      let st : Scanner = unsetskip (record st0 { w = nw_state }) in
      let st' : Scanner = record st { input = rest_of st.input } in
      ground (
        arith,
        rest_of-le st0.input,
        pipe_of-le (first_of st.input) (getfds (first_of st.input) 1 (fd_number 0) st'),
        getfds-le st' (first_of st.input) 1 (fd_number 0) (length st0.input) (unget-first st0.input)
            (rest_of-le st0.input),
      )

  pub redirection_of-le :
      (cmd : CString) (r : Fds × Scanner)
      → length (redirection_of print_fd lib cmd r).1.input ≤ length r.1.input
  redirection_of-le cmd (no_fds, st) = omega arith
  redirection_of-le cmd (fds fd (fd_number n), st) = omega arith
  redirection_of-le cmd (fds fd default_fd, st) = omega arith
  redirection_of-le cmd (fds fd closed_fd, st) = omega arith

  pub redirection-le :
      (cmd : CString) (fd : ℕ) (s : CString) (st : Scanner)
      → length (redirection print_fd lib cmd fd s st).1.input ≤ length s
  unfolding redirection
  redirection-le cmd fd s st =
      let st' : Scanner = record st { w = nw_state; input = rest_of s } in
      omega (
        arith,
        redirection_of-le cmd (getfds (first_of s) fd default_fd st'),
        getfds-le st' (first_of s) fd default_fd (length s) (unget-first s) (rest_of-le s),
      )

  pub lex_less-le : (st : Scanner) → length (lex_less print_fd lib st).1.input ≤ length st.input
  unfolding lex_less
  lex_less-le st =
      let s = st.input in
      let s1 = rest_of s in
      let s2 = rest_of s1 in
      ground (
        arith,
        rest_of-le s,
        rest_of-le s1,
        redirection-le (codes "%open-append") 0 s2 st,
        redirection-le (codes "%open-write") 0 s1 st,
        redirection-le (codes "%here") 0 s2 st,
        redirection-le (codes "%heredoc") 0 s1 st,
        redirection-le (codes "%open") 0 s st,
      )

  pub lex_greater-le :
      (st : Scanner) → length (lex_greater print_fd lib st).1.input ≤ length st.input
  unfolding lex_greater
  lex_greater-le st =
      let s = st.input in
      let s1 = rest_of s in
      let s2 = rest_of s1 in
      ground (
        arith,
        rest_of-le s,
        rest_of-le s1,
        redirection-le (codes "%open-append") 1 s2 st,
        redirection-le (codes "%append") 1 s1 st,
        redirection-le (codes "%open-create") 1 s1 st,
        redirection-le (codes "%create") 1 s st,
      )

  pub lex_comment-le :
      (st : Scanner) → length (lex_comment print_fd lib st).1.input ≤ length st.input
  unfolding lex_comment lex_newline
  lex_comment-le st = ground (arith, skip_line-le st.input)

  pub lex_backquote-le :
      (st : Scanner) → length (lex_backquote print_fd lib st).1.input ≤ length st.input
  unfolding lex_backquote
  lex_backquote-le st = ground (arith, rest_of-le st.input)

  pub lex_dollar-le : (st : Scanner) → length (lex_dollar print_fd lib st).1.input ≤ length st.input
  unfolding lex_dollar
  lex_dollar-le st = ground (arith, rest_of-le st.input)

  pub if_next-le :
      (c : ℕ) (t u : Token F) (st : Scanner)
      → length (if_next print_fd lib c t u st).1.input ≤ length st.input
  unfolding if_next
  if_next-le c t u st = ground (arith, rest_of-le st.input)

  pub lex_special-le :
      (c : ℕ) (st : Scanner) → length (lex_special print_fd lib c st).1.input ≤ length st.input
  unfolding lex_special lex_newline
  lex_special-le c st =
      let quiet : Scanner = unsetskip (record st { w = nw_state }) in
      ground (
        arith,
        rest_of-le st.input,
        lex_backquote-le st,
        lex_dollar-le st,
        lex_quoted-le F st,
        lex_comment-le st,
        lex_pipe-le st,
        lex_less-le st,
        lex_greater-le st,
        if_next-le b'&' andand (char_token b'&') quiet,
      )
