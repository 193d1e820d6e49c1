-- ===== src/Syntax/Tests.antt =====
-- Runs of the tree rewriting of syntax.c.
use es_shell_mirror.Prelude.{true, false, ℕ, ◌≡◌, refl, codes, some, streq, CString}
use es_shell_mirror.Syntax.Tree.{Tree, null, n_list, n_word, n_lambda}
use es_shell_mirror.Syntax.Rewrite.{mkseq, firstis, thunkify}
use es_shell_mirror.Syntax.Tree.{n_redir}
use es_shell_mirror.Syntax.Redirections.{isredir, redirappend}

abbrev command : CString → Tree ℕ
command s = n_list (n_word s) null

abbrev and_of_two : Tree ℕ
and_of_two = n_list (n_word (codes "%and")) (
    n_list (n_lambda null (command (codes "a")))
      (n_list (n_lambda null (command (codes "b"))) null))

and_built : mkseq (codes "%and") (command (codes "a")) (command (codes "b")) ≡ some and_of_two
unfolding mkseq firstis thunkify streq
and_built = refl

open_is_redir : isredir (command (codes "%open-write")) ≡ true
unfolding isredir streq
open_is_redir = refl

plain_is_none : isredir (command (codes "%opened")) ≡ false
unfolding isredir streq
plain_is_none = refl

-- A redirection goes before the words and behind the redirections.
redir_first :
    redirappend (n_redir (command (codes "x")) (command (codes "echo"))) (command (codes "y"))
    ≡ some (n_redir (command (codes "x")) (n_redir (command (codes "y")) (command (codes "echo"))))
unfolding redirappend
redir_first = refl
