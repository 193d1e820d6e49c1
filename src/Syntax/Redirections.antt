-- ===== src/Syntax/Redirections.antt =====
-- The nodes of redirections in syntax.c, before `redirect` rewrites them, and negation.
use es_shell_mirror.Prelude.{
  ℕ, ◌+◌, Bool, true, false, not, ◌||◌, [], ◌∷◌, ◌++◌, CString, codes, Option, none, some, streq,
  if◌then◌else◌, ◌==◌, take, drop,
}
use es_shell_mirror.Prelude.Int.{pos, negsuc, ◌-ℤ◌, ltb_ℤ}
use es_shell_mirror.Syntax.Tree.{Tree, null, n_list, n_redir, n_word, n_var, n_call, n_int, n_float}
use es_shell_mirror.Syntax.Rewrite.{treecons, treeappend, prefix, firstis, mkop, is_thunk, ◌=>>◌}

unfoldable pub is_open_mode : CString → Bool
unfolding streq
is_open_mode [] = true
is_open_mode (c ∷ s) =
    if streq (c ∷ s) (codes "file")
    then true
    else if c == b'-'
    then streq s (codes "write") || streq s (codes "append") || streq s (codes "create")
    else false

-- The words that begin a redirection.
unfoldable pub is_redir_word : CString → Bool
unfolding is_open_mode streq
is_redir_word [] = false
is_redir_word (c ∷ s) =
    if not (c == b'%')
    then false
    else if streq s (codes "create") || streq s (codes "append") || streq s (codes "here")
    then true
    else if streq (take 4 s) (codes "open")
    then is_open_mode (drop 4 s)
    else false

module _ {F : Type 0} where
  unfoldable pub isredir : Tree F → Bool
  unfolding is_redir_word
  isredir (n_list (n_word w) b) = is_redir_word w
  isredir t = false

  -- The static node that stands for the command: no other nRedir has no children.
  abbrev pub placeholder : Tree F
  placeholder = n_redir null null

  -- `neg` is the negation of floats. `none` is an overflow or a failed assertion.
  unfoldable pub mkneg : (F → F) → Tree F → Option (Tree F)
  unfolding mkop ◌-ℤ◌
  mkneg neg (n_int i) =
      if ltb_ℤ i (negsuc 9223372036854775806) then none else some (n_int (pos 0 -ℤ i))
  mkneg neg (n_float x) = some (n_float (neg x))
  mkneg neg t = mkop (codes "-") (n_int (pos 0)) t

  -- "before any other nodes": behind the redirections that are there.
  unfoldable pub put_redir : Tree F → Tree F → Option (Tree F)
  put_redir r (n_redir a b) = put_redir r b =>> λ t. some (n_redir a t)
  put_redir r null = some (n_redir r null)
  put_redir r (n_list a b) = some (n_redir r (n_list a b))
  put_redir r t = none

  unfoldable pub redirappend : Tree F → Tree F → Option (Tree F)
  unfolding treeappend put_redir
  redirappend tree (n_redir a r) = treeappend tree a =>> λ t. redirappend t r
  redirappend tree (n_list a b) = put_redir (n_list a b) tree
  redirappend tree r = none

  -- The word that takes the place of a thunk, with an error for other redirections.
  unfoldable pub devfd_op : Tree F → CString × Bool
  unfolding firstis streq
  devfd_op cmd =
      if firstis cmd (codes "%open")
      then (codes "%readfrom", false)
      else if firstis cmd (codes "%create")
      then (codes "%writeto", false)
      else ([], true)

  -- A redirection from a file, which is to be one word but for a here document.
  unfoldable pub redir_file : Tree F → Tree F → Option (Tree F)
  unfolding treeappend firstis streq
  redir_file cmd file =
      let one =
        if firstis cmd (codes "%heredoc") || firstis cmd (codes "%here")
        then file
        else n_call (n_list (n_word (codes "%one")) (n_list file null)) in
      treeappend cmd (n_list one (n_list placeholder null))

-- `str("%d", fd)` is a parameter.
module _ {F : Type 0} (print_fd : ℕ → CString) where
  unfoldable pub devfd_tree : CString → Tree F → Tree F → Tree F
  devfd_tree op var file =
      n_redir (n_list (n_var var) null)
        (n_list (n_word op) (n_list var (n_list file (n_list placeholder null))))

  -- The tree, the next `id`, and whether an error was reported.
  unfoldable pub mkredir : ℕ → Tree F → Tree F → Option (Tree F × ℕ × Bool)
  unfolding devfd_op devfd_tree redir_file
  mkredir id cmd file =
      let (op, bad) = devfd_op cmd in
      if is_thunk file
      then some (devfd_tree op (n_word (codes "_devfd" ++ print_fd id)) file, id + 1, bad)
      else redir_file cmd file =>> λ t. some (t, id, false)

  unfoldable pub mkclose : ℕ → Option (Tree F)
  unfolding prefix treecons
  mkclose fd =
      treecons placeholder null =>> λ t. prefix (print_fd fd) t =>> λ t'. prefix (codes "%close") t'

  unfoldable pub mkdup : ℕ → ℕ → Option (Tree F)
  unfolding prefix treecons
  mkdup fd0 fd1 = treecons placeholder null =>> λ t. prefix (print_fd fd1) t =>> λ t'.
      prefix (print_fd fd0) t' =>> λ t''. prefix (codes "%dup") t''
