-- ===== src/Scan/State.antt =====
-- The state of the scanner of token.c, its tables of characters, and the tokens.
-- The input is the list of the characters to come; its end is EOF, which is read again and again.
use es_shell_mirror.Prelude.{
  ℕ, ◌+◌, Bool, true, false, not, ◌&&◌, ◌||◌, List, [], ◌∷◌, ◌++◌, CString, Option, none, some,
  ◌==◌, leb, if◌then◌else◌,
}
use es_shell_mirror.Prelude.Int.{ℤ}
use es_shell_mirror.Syntax.Tree.{Tree}

-- "nonword", "realword", "keyword"
pub data WordState : Type 0 where
  nw_state rw_state kw_state : WordState

-- The variables of the file, those of `input` that the scanner uses, and what `yyerror` was told.
pub record Scanner : Type 0 where
  pub w : WordState
  pub numeric : Bool
  pub newline : Bool
  pub goterror : Bool
  pub skipequals : Bool
  pub skipdual : Bool
  pub dollar : Bool
  pub lineno : ℕ
  pub input : CString
  pub errors : List CString

-- What `yylex` returns, with what it leaves in `yylval`. A character is returned as itself.
pub data Token (F : Type 0) : Type 0 where
  char_token : ℕ → Token F
  word_token qword_token : CString → Token F
  int_token : ℤ → Token F
  float_token : F → Token F
  pipe_token dup_token redir_token : Option (Tree F) → Token F
  endfile nl error_token fn_token for_token local_token let_token extract_token closure_token :
      Token F
  sub_token count_token flat_token prim_token backback arith_begin call_token pass_token : Token F
  andand oror neq leq geq : Token F

-- `GETC` and `UNGETC`. EOF is `none`; it is not pushed back, since it is read again.
abbrev pub first_of : CString → Option ℕ
first_of [] = none
first_of (c ∷ s) = some c

abbrev pub rest_of : CString → CString
rest_of [] = []
rest_of (c ∷ s) = s

abbrev pub unget : Option ℕ → CString → CString
unget none s = s
unget (some c) s = c ∷ s

abbrev pub is_char : Option ℕ → ℕ → Bool
is_char none d = false
is_char (some c) d = c == d

-- "Non-word in default context"
unfoldable pub nw : ℕ → Bool
nw c =
    c == 0
    || c == 9
    || c == 10
    || c == b' '
    || c == b'!'
    || c == b'#'
    || c == b'$'
    || c == b'&'
    || c == 39
    || c == b'('
    || c == b')'
    || c == b';'
    || c == b'<'
    || c == b'='
    || c == b'>'
    || c == 92
    || c == b'^'
    || c == b'`'
    || c == b'{'
    || c == b'|'
    || c == b'}'

abbrev pub between : ℕ → ℕ → ℕ → Bool
between a b c = leb a c && leb c b

-- "Non-word in numeric context": all but '.', 'x', 'X' and the hexadecimal digits.
unfoldable pub nnw : ℕ → Bool
nnw c = not (
    c == b'.'
    || between b'0' b'9' c
    || between b'A' b'F' c
    || c == b'X'
    || between b'a' b'f' c
    || c == b'x')

-- "valid chars are % * - [0-9] [A-Z] _ [a-z]"
unfoldable pub dnw : ℕ → Bool
dnw c = not (
    c == b'%'
    || c == b'*'
    || c == b'-'
    || between b'0' b'9' c
    || between b'A' b'Z' c
    || c == b'_'
    || between b'a' b'z' c)

abbrev pub setskip : Bool → Scanner → Scanner
setskip dual st = record st { skipequals = true; skipdual = st.skipdual || dual }

abbrev pub unsetskip : Scanner → Scanner
unsetskip st = record st { skipequals = false; skipdual = false }

abbrev pub print_prompt2 : Scanner → Scanner
print_prompt2 st = record st { lineno = st.lineno + 1 }

abbrev pub yyerror : CString → Scanner → Scanner
yyerror s st = record st { errors = st.errors ++ s ∷ [] }

-- What follows the next newline.
unfoldable pub skip_line : CString → CString
skip_line [] = []
skip_line (c ∷ s) = let rest = skip_line s in if c == 10 then s else rest

-- `last` is the last character that was read.
unfoldable pub scanerror : Option ℕ → CString → Scanner → Scanner
unfolding skip_line
scanerror none s st = yyerror s (record st { goterror = true })
scanerror (some last) s st =
    yyerror s
      (record st { goterror = true; input = if last == 10 then st.input else skip_line st.input })

-- `skip(dual, c)`: an equals sign that may be a part of a word, `s` being what follows `c`.
abbrev pub skip_char : Bool → ℕ → CString → Bool
skip_char skipeq c s = skipeq && c == b'=' && not (is_char (first_of s) b'>')
