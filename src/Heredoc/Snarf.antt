-- ===== src/Heredoc/Snarf.antt =====
-- `snarfheredoc` and `getherevar` of heredoc.c, over the characters to come.
use es_shell_mirror.Prelude.{
  ℕ, zero, suc, Bool, true, false, not, ◌&&◌, List, [], ◌∷◌, ◌++◌, CString, codes, Option, none,
  some, ◌==◌, if◌then◌else◌, is_nil, length,
}
use es_shell_mirror.Syntax.Tree.{Tree, n_word, n_qword, n_var}
use es_shell_mirror.Syntax.Rewrite.{flatten}
use es_shell_mirror.Scan.State.{first_of, rest_of, is_char, dnw}

-- The document with what follows it; an error with its message; or, where the input ends in a name, what C leaves
-- undefined, since a table is read before its start.
pub data Snarfed (F : Type 0) : Type 0 where
  snarfed : List (Tree F) → CString → Snarfed F
  refused : CString → Snarfed F
  undefined : Snarfed F

-- How much of the marker the line begins with, and what the loop leaves of the marker and of the input.
pub record Compared : Type 0 where
  pub matched : CString
  pub left : CString
  pub input : CString

abbrev pub and_matched : ℕ → Compared → Compared
and_matched c r = record r { matched = c ∷ r.matched }

unfoldable pub compare_marker : CString → CString → Compared
compare_marker [] s = record { matched = []; left = []; input = s }
compare_marker (e ∷ eof) [] = record { matched = []; left = e ∷ eof; input = [] }
compare_marker (e ∷ eof) (c ∷ s) =
    let more = compare_marker eof s in
    if c == e then and_matched c more else record { matched = []; left = e ∷ eof; input = c ∷ s }

abbrev pub is_line_end : CString → Bool
is_line_end [] = true
is_line_end (c ∷ s) = c == 10

-- The name of a variable, and what follows it.
unfoldable pub here_name : CString → Option (CString × CString)
here_name [] = none
here_name (c ∷ s) =
    let more = here_name s in
    if dnw c
    then some ([], c ∷ s)
    else elim more [ none ↦ none | some (name, after) ↦ some (c ∷ name, after) ]

-- A caret after a name is taken away.
abbrev pub without_caret : CString → CString
without_caret s = if is_char (first_of s) b'^' then rest_of s else s

-- The text so far as a word, if there is any.
abbrev pub flush : {F : Type 0} → CString → List (Tree F)
flush [] = []
flush (c ∷ buf) = n_qword (c ∷ buf) ∷ []

abbrev pub end_words : {F : Type 0} → List (Tree F) → CString → List (Tree F)
end_words [] buf = n_qword buf ∷ []
end_words (t ∷ trees) buf = t ∷ trees ++ flush buf

unfoldable pub has_line_end : CString → Bool
has_line_end [] = false
has_line_end (c ∷ s) = if c == 10 then true else has_line_end s

module _ {F : Type 0} (eof : CString) (quoted : Bool) where
  -- The rest of a line, then `next`, which is given the words and the text so far. The fuel is for the characters.
  unfoldable pub here_line :
      ℕ
      → (List (Tree F) → CString → CString → Snarfed F)
      → List (Tree F)
      → CString
      → CString
      → Snarfed F
  here_line zero next trees buf s = undefined
  here_line (suc n) next trees buf [] = refused (codes "incomplete here document")
  here_line (suc n) next trees buf (c ∷ s) =
      let plain = λ (s' : CString).
        if c == 10
        then next trees (buf ++ c ∷ []) s'
        else here_line n next trees (buf ++ c ∷ []) s' in
      let var = λ (name after : CString).
        here_line n next (trees ++ flush buf ++ flatten (n_var (n_word name)) (codes " ") ∷ []) []
          (without_caret after) in
      if c == b'$' && not quoted
      then (if is_char (first_of s) b'$' then plain (rest_of s) else elim (here_name s) [
        | none ↦ undefined
        | some (name, after) ↦
            if is_nil name
            then refused (codes "null variable name in here document")
            else var name after
      ])
      else plain s

  -- The lines of the document. Each takes a character, or is the last one.
  unfoldable pub here_lines : ℕ → List (Tree F) → CString → CString → Snarfed F
  here_lines zero trees buf s = undefined
  here_lines (suc n) trees buf s =
      let r = compare_marker eof s in
      if is_nil r.left && is_line_end r.input
      then snarfed (end_words trees buf) (rest_of r.input)
      else here_line (suc (length s)) (here_lines n) trees (buf ++ r.matched) r.input

  -- One word is returned as itself; here it is still a list.
  unfoldable pub snarfheredoc : CString → Snarfed F
  snarfheredoc s =
      if has_line_end eof
      then refused (codes "here document eof-marker contains a newline")
      else here_lines (suc (length s)) [] [] s
