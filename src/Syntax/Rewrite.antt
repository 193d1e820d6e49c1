-- ===== src/Syntax/Rewrite.antt =====
-- The tree rewriting of syntax.c that the grammar's actions call. `none` is a failed assertion.
-- A destructive operation gives the new tree.
use es_shell_mirror.Prelude.{
  ℕ, Bool, true, false, not, ◌&&◌, [], CString, codes, Option, none, some, streq, if◌then◌else◌,
  head_byte, ◌==◌,
}
use es_shell_mirror.Syntax.Tree.{
  Tree, null, n_assign, n_concat, n_closure, n_for, n_lambda, n_let, n_list, n_local, n_varsub,
  n_match, n_extract, n_redir, n_call, n_word, n_qword, n_op, n_cmp,
}

infixl 5 ◌=>>◌
abbrev pub ◌=>>◌ : {A B : Type 0} → Option A → (A → Option B) → Option B
none =>> f = none
some a =>> f = f a

module _ {F : Type 0} where
  abbrev pub is_null : Tree F → Bool
  is_null null = true
  is_null t = false

  -- `CAR` and `CDR`, the two trees of a node. A node without them is no command; it has none here.
  unfoldable pub car : Tree F → Tree F
  car (n_list a b) = a
  car (n_lambda a b) = a
  car (n_assign a b) = a
  car (n_concat a b) = a
  car (n_closure a b) = a
  car (n_for a b) = a
  car (n_let a b) = a
  car (n_local a b) = a
  car (n_varsub a b) = a
  car (n_match a b) = a
  car (n_extract a b) = a
  car (n_redir a b) = a
  car t = null

  unfoldable pub cdr : Tree F → Tree F
  cdr (n_list a b) = b
  cdr (n_lambda a b) = b
  cdr (n_assign a b) = b
  cdr (n_concat a b) = b
  cdr (n_closure a b) = b
  cdr (n_for a b) = b
  cdr (n_let a b) = b
  cdr (n_local a b) = b
  cdr (n_varsub a b) = b
  cdr (n_match a b) = b
  cdr (n_extract a b) = b
  cdr (n_redir a b) = b
  cdr t = null

  abbrev pub is_list : Tree F → Bool
  is_list (n_list a b) = true
  is_list t = false

  unfoldable pub treecons : Tree F → Tree F → Option (Tree F)
  treecons a null = some (n_list a null)
  treecons a (n_list b c) = some (n_list a (n_list b c))
  treecons a t = none

  unfoldable pub treecons2 : Tree F → Tree F → Option (Tree F)
  treecons2 null null = some null
  treecons2 null (n_list b c) = some (n_list b c)
  treecons2 null t = none
  treecons2 a null = some (n_list a null)
  treecons2 a (n_list b c) = some (n_list a (n_list b c))
  treecons2 a t = none

  unfoldable pub treeappend : Tree F → Tree F → Option (Tree F)
  treeappend null tail = some tail
  treeappend (n_list a b) tail = treeappend b tail =>> λ t. some (n_list a t)
  treeappend (n_redir a b) tail = treeappend b tail =>> λ t. some (n_redir a t)
  treeappend t tail = none

  unfoldable pub treeconsend : Tree F → Tree F → Option (Tree F)
  unfolding treeappend
  treeconsend head tail = treeappend head (n_list tail null)

  unfoldable pub treeconsend2 : Tree F → Tree F → Option (Tree F)
  unfolding treeconsend
  treeconsend2 null null = some null
  treeconsend2 (n_list a b) null = some (n_list a b)
  treeconsend2 (n_redir a b) null = some (n_redir a b)
  treeconsend2 head null = none
  treeconsend2 head tail = treeconsend head tail

  -- IS_THUNK
  abbrev pub is_thunk : Tree F → Bool
  is_thunk (n_lambda null b) = true
  is_thunk t = false

  abbrev pub only_child : Tree F → Bool
  only_child t = not (is_null (car t)) && is_null (cdr t)

  unfoldable pub thunkify : Tree F → Tree F
  unfolding car cdr
  thunkify null = n_lambda null null
  thunkify t =
      if is_thunk t
      then t
      else if only_child t && is_thunk (car t)
      then car t
      else if only_child t && is_list (car t) && only_child (car t) && is_thunk (car (car t))
      then car (car t)
      else n_lambda null t

  unfoldable pub firstis : Tree F → CString → Bool
  firstis (n_list (n_word w) b) s = streq w s
  firstis t s = false

  unfoldable pub prefix : CString → Tree F → Option (Tree F)
  unfolding treecons
  prefix s t = treecons (n_word s) t

  unfoldable pub flatten : Tree F → CString → Tree F
  flatten t sep = n_call (n_list (n_word (codes "%flatten")) (n_list (n_qword sep) (n_list t null)))

  unfoldable pub backquote : Tree F → Tree F → Tree F
  unfolding flatten
  backquote ifs body =
      n_call (n_list (n_word (codes "%backquote")) (n_list (flatten ifs []) (n_list body null)))

  unfoldable pub fnassign : Tree F → Tree F → Tree F
  fnassign name defn = n_assign (n_concat (n_word (codes "fn-")) name) defn

  unfoldable pub mklambda : Tree F → Tree F → Tree F
  mklambda null body = n_lambda (n_list (n_word (codes "*")) null) body
  mklambda params body = n_lambda params body

  -- The tail of a sequence or a pipe: the operands of `t2` if it has the operator, else a thunk.
  unfoldable pub tail_of : Bool → Tree F → Option (Tree F)
  unfolding cdr thunkify
  tail_of true t2 = some (cdr t2)
  tail_of false t2 = some (n_list (thunkify t2) null)

  -- `t1`, with or without the operator, before a tail.
  unfoldable pub join_tail : CString → Bool → Tree F → Tree F → Option (Tree F)
  unfolding thunkify treeappend prefix
  join_tail op true t1 tail = treeappend t1 tail
  join_tail op false t1 tail = treecons (thunkify t1) tail =>> λ t. prefix op t

  unfoldable pub seq_trees : CString → Tree F → Tree F → Option (Tree F)
  unfolding tail_of join_tail
  seq_trees op t1 t2 = tail_of (firstis t2 op) t2 =>> λ tail. join_tail op (firstis t1 op) t1 tail

  unfoldable pub mkseq : CString → Tree F → Tree F → Option (Tree F)
  unfolding seq_trees firstis
  mkseq op t1 t2 =
      if streq op (codes "%seq") && is_null t1
      then some t2
      else if streq op (codes "%seq") && is_null t2
      then some t1
      else seq_trees op t1 t2

  unfoldable pub mkcmp : CString → Tree F → Tree F → Tree F
  mkcmp op t1 t2 = n_cmp op (n_list t1 (n_list t2 null))

  abbrev pub operand_list : Tree F → Tree F
  operand_list (n_list a b) = n_list a b
  operand_list t = n_list t null

  unfoldable pub mkop : CString → Tree F → Tree F → Option (Tree F)
  unfolding treeconsend treeconsend2
  mkop op (n_list a b) t2 = treeconsend2 (n_list a b) t2 =>> λ t. some (n_op op t)
  mkop op (n_op op1 cl) t2 =
      if head_byte op1 == head_byte op
      then (treeconsend cl t2 =>> λ t. some (n_op op1 t))
      else some (n_op op (n_list (n_op op1 cl) (operand_list t2)))
  mkop op t1 t2 = some (n_op op (n_list t1 (operand_list t2)))

-- `str("%d", fd)` is a parameter.
module _ {F : Type 0} (print_fd : ℕ → CString) where
  unfoldable pub mkpipe : Tree F → ℕ → ℕ → Tree F → Option (Tree F)
  unfolding tail_of join_tail firstis prefix
  mkpipe t1 outfd infd t2 = tail_of (firstis t2 (codes "%pipe")) t2 =>> λ last.
      prefix (print_fd infd) last =>> λ t. prefix (print_fd outfd) t =>> λ tail.
      join_tail (codes "%pipe") (firstis t1 (codes "%pipe")) t1 tail

  unfoldable pub mkredircmd : CString → ℕ → Option (Tree F)
  unfolding prefix
  mkredircmd cmd fd = prefix (print_fd fd) null =>> λ t. prefix cmd t
