-- ===== src/Scan/Tests.antt =====
-- Runs of the scanner.
use es_shell_mirror.Prelude.{
  ℕ, ◌≡◌, refl, Bool, true, false, ◌&&◌, [], ◌∷◌, ◌++◌, CString, codes, none, leb, head_byte, ◌+◌,
  streq,
}
use es_shell_mirror.Prelude.Int.{pos}
use es_shell_mirror.Scan.State.{
  Scanner, nw_state, rw_state, char_token, qword_token, oror, nl, nw, nnw, scanerror, skip_line,
  int_token,
}
use es_shell_mirror.Scan.Words.{
  Numerals, keyword, gather, free_caret, lex_word, lex_quoted, quoted_loop, lex_escape, octal_loop,
  numbered, number_token,
}
use es_shell_mirror.Scan.Lex.{
  yylex, lex_top, lex_char, lex_operator, lex_special, lex_pipe, lex_backslash, backslash_at,
}
use es_shell_mirror.Scan.Printed.{ReadAs, yylex-sconv, ready}
use es_shell_mirror.Scan.Progress.{Nears, distance, yylex-Nears}
use es_shell_mirror.Conv.Quote.{sconv}

-- A number reads as its first byte.
abbrev sample : Numerals ℕ
sample = record {
  strtoll = λ s. record { parsed = pos (head_byte s); at_end = true; erange = false };
  strtod = λ s. record { parsed = 0; at_end = false; erange = false };
  isalnum = λ c. leb 97 c && leb c 122;
}

abbrev digits : ℕ → CString
digits n = (48 + n) ∷ []

abbrev isprint : ℕ → Bool
isprint c = leb 32 c && leb c 126

abbrev start : Scanner
start = record {
  w = nw_state;
  numeric = false;
  newline = false;
  goterror = false;
  skipequals = false;
  skipdual = false;
  dollar = false;
  lineno = 1;
  input = [];
  errors = [];
}

nw_semicolon : nw b';' ≡ true
unfolding nw
nw_semicolon = refl

no_key : keyword {F = ℕ} (codes "it's") ≡ none
unfolding keyword
no_key = refl

yylex-sconv_example :
    ReadAs digits sample
      (yylex digits sample (ready start (sconv isprint false (codes "it's") ++ codes ";x")))
      (codes "it's")
      (codes ";x")
yylex-sconv_example =
    yylex-sconv digits sample isprint false start (codes "it's") (codes ";x") refl refl refl no_key
      (nw_semicolon, refl, refl)

-- The caret between a word and a quoted word.
yylex-Nears_example :
    Nears digits sample
      (distance digits sample (record start { w = rw_state; input = codes "'b'" }))
      (yylex digits sample (record start { w = rw_state; input = codes "'b'" }))
yylex-Nears_example = yylex-Nears digits sample (record start { w = rw_state; input = codes "'b'" })

caret_first :
    (yylex digits sample (record start { w = rw_state; input = codes "'b'" })).0 ≡ char_token b'^'
unfolding yylex lex_top lex_char lex_operator free_caret nw
caret_first = refl

-- Escapes are cut to a byte; an escape of 256 is the empty word.
cut_escape : (yylex digits sample (record start { input = codes "\\400" })).0 ≡ qword_token []
unfolding yylex lex_top lex_char lex_backslash backslash_at free_caret lex_escape octal_loop
    numbered nw
cut_escape = refl

-- An error skips the rest of the line, and the next token is the end of the line.
unended : (yylex digits sample (yylex digits sample (record start { input = codes "'a" })).1).0 ≡ nl
unfolding yylex lex_top lex_char lex_operator lex_special lex_quoted quoted_loop free_caret
    scanerror skip_line nw
unended = refl

either : (yylex digits sample (record start { input = codes "a||b" })).1.input ≡ codes "||b"
unfolding yylex lex_top lex_char lex_word gather keyword streq free_caret nw
either = refl

pipes : (yylex digits sample (record start { input = codes "||b" })).0 ≡ oror
unfolding yylex lex_top lex_char lex_operator lex_special lex_pipe free_caret nw
pipes = refl

number :
    (yylex digits sample (record start { numeric = true; input = codes "12)" })).0
    ≡ int_token (pos 49)
unfolding yylex lex_top lex_char lex_word gather number_token nnw free_caret
number = refl
