-- ===== src/Syntax/Tree.antt =====
-- The parse trees of es.h, as `mk` of tree.c makes them, and the terms of term.c. Floating-point
-- numbers and closures are parameters.
use es_shell_mirror.Prelude.{ℕ, Bool, false, CString, Option, none, some, ◌++◌, streq}
use es_shell_mirror.Prelude.Int.{ℤ}

-- A node by its kind; `null` is the null pointer.
pub data Tree (F : Type 0) : Type 0 where
  null : Tree F
  n_assign n_concat n_closure n_for n_lambda n_let n_list n_local : Tree F → Tree F → Tree F
  n_varsub n_match n_extract n_redir : Tree F → Tree F → Tree F
  n_call n_var n_arith : Tree F → Tree F
  n_word n_qword n_prim : CString → Tree F
  n_int : ℤ → Tree F
  n_float : F → Tree F
  n_op n_cmp : CString → Tree F → Tree F
  n_pipe : ℕ → ℕ → Tree F

-- A term holds a string or a closure, never both and never neither.
pub data Term (C : Type 0) : Type 0 where
  mkstr : CString → Term C
  mkfun : C → Term C

module _ {C : Type 0} (show : C → CString) where
  -- A closure is printed by the conversion `%C`, which is `show`.
  unfoldable pub getstr : Term C → CString
  getstr (mkstr s) = s
  getstr (mkfun c) = show c

  -- NULL is `none`.
  unfoldable pub termcat : Option (Term C) → Option (Term C) → Option (Term C)
  unfolding getstr
  termcat none t2 = t2
  termcat (some t1) none = some t1
  termcat (some t1) (some t2) = some (mkstr (getstr t1 ++ getstr t2))

unfoldable pub termeq : {C : Type 0} → Term C → CString → Bool
termeq (mkstr t) s = streq t s
termeq (mkfun c) s = false
