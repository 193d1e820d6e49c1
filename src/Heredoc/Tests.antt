-- ===== src/Heredoc/Tests.antt =====
-- Runs of here documents.
use es_shell_mirror.Prelude.{ℕ, ◌≡◌, refl, true, false, [], ◌∷◌, ◌++◌, codes, streq}
use es_shell_mirror.Syntax.Tree.{n_qword, n_word, n_var}
use es_shell_mirror.Syntax.Rewrite.{flatten}
use es_shell_mirror.Scan.State.{dnw}
use es_shell_mirror.Heredoc.Snarf.{
  snarfed, undefined, snarfheredoc, here_lines, here_line, here_name, compare_marker, has_line_end,
}
use es_shell_mirror.Heredoc.Quoted.{joined, AllOther, snarfheredoc-joined}

no_newline : has_line_end (codes "EOF") ≡ false
unfolding has_line_end
no_newline = refl

others : AllOther (codes "EOF") (codes "EO" ∷ codes "$x" ∷ [])
unfolding has_line_end streq
others = (refl, refl, (refl, refl, tt))

snarfheredoc-joined_example :
    snarfheredoc {F = ℕ}
      (codes "EOF")
      true
      (joined (codes "EO" ∷ codes "$x" ∷ []) ++ (codes "EOF" ++ 10 ∷ codes "echo"))
    ≡ snarfed (n_qword (joined (codes "EO" ∷ codes "$x" ∷ [])) ∷ []) (codes "echo")
snarfheredoc-joined_example =
    snarfheredoc-joined {F = ℕ} (codes "EOF") (codes "EO" ∷ codes "$x" ∷ []) (codes "echo")
      no_newline others

with_variable :
    snarfheredoc {F = ℕ} (codes "E") false (codes "a$x^b" ++ 10 ∷ (codes "E" ++ 10 ∷ []))
    ≡ snarfed
        (n_qword (codes "a")
          ∷ flatten (n_var (n_word (codes "x"))) (codes " ")
          ∷ n_qword (98 ∷ 10 ∷ [])
          ∷ [])
        []
unfolding snarfheredoc here_lines here_line here_name compare_marker has_line_end dnw
with_variable = refl

name_at_end : snarfheredoc {F = ℕ} (codes "E") false (codes "a$x") ≡ undefined
unfolding snarfheredoc here_lines here_line here_name compare_marker has_line_end dnw
name_at_end = refl
