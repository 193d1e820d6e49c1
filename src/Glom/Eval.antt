-- ===== src/Glom/Eval.antt =====
-- `glom1`, `glom2`, `arithmefy` and `glom` of glom.c, by recursion on the tree.
-- The functions call each other on the same tree, so what each of them does with a tree is one
-- record, built from the records of its children.
use es_shell_mirror.Prelude.{
  ℕ, Bool, true, false, List, [], ◌∷◌, ◌++◌, CString, codes, Option, none, some, if◌then◌else◌,
  head_byte, ◌||◌, ◌==◌, get_or, replicate, length,
}
use es_shell_mirror.Prelude.Int.{ℤ, pos, eqb_ℤ}
use es_shell_mirror.Syntax.Tree.{
  Tree, null, n_assign, n_concat, n_closure, n_for, n_lambda, n_let, n_list, n_local, n_varsub,
  n_match, n_extract, n_redir, n_call, n_var, n_arith, n_word, n_qword, n_prim, n_int, n_float,
  n_op, n_cmp, n_pipe, Term, mkstr, mkfun, getstr,
}
use es_shell_mirror.ListOps.{listcopy}
use es_shell_mirror.Match.Quoting.{Quoting, quoted, unquoted}
use es_shell_mirror.Glom.Int.{
  Outcome, value, failed, undefined, null_list, multiple_term, value_too_large, float_too_large,
  not_a_number, null_variable, multi_word_variable, bad_node,
}
use es_shell_mirror.Glom.Concat.{concat, qconcat}
use es_shell_mirror.Glom.Subscript.{subscript}
use es_shell_mirror.Glom.Number.{
  Floats, Number, int_number, float_number, cmp_number, do_op, coerce_operands, compare_on, truth,
}

-- A computation that reads and changes the state of the shell.
abbrev pub Run : Type 0 → Type 0 → Type 0
Run St A = St → Outcome A × St

abbrev pub follow : {St A B : Type 0} → Outcome A × St → (A → Run St B) → Outcome B × St
follow (value a, st) f = f a st
follow (failed e, st) f = (failed e, st)
follow (undefined, st) f = (undefined, st)

infixl 5 ◌>=◌
abbrev pub ◌>=◌ : {St A B : Type 0} → Run St A → (A → Run St B) → Run St B
(m >= f) st = follow (m st) f

-- An outcome that leaves the state alone.
abbrev pub lift : {St A : Type 0} → Outcome A → Run St A
lift o st = (o, st)

abbrev pub done : {St A : Type 0} → A → Run St A
done a st = (value a, st)

-- The answer of `strtoll` or `strtod`: the number, whether `*end == '\0'`, and whether errno became
-- ERANGE.
pub record Strto (A : Type 0) : Type 0 where
  pub parsed : A
  pub at_end : Bool
  pub erange : Bool

-- The rest of the shell, as glom.c calls it, and functions of the C library.
pub record Shell (C B F St : Type 0) : Type 0 where
  -- `%C`
  pub show : C → CString
  pub mkclosure : Tree F → Option B → C
  pub varlookup : CString → B → St → List (Term C)
  pub walk : Tree F → B → Run St (List (Term C))
  pub glob : List (Term C) → List Quoting → Run St (List (Term C))
  pub atoi : CString → ℤ
  pub strtoll : CString → Strto ℤ
  pub strtod : CString → Strto F
  -- `%ld` and `%f`
  pub print_int : ℤ → CString
  pub print_float : F → CString
  pub floats : Floats F

-- What the functions do with a tree: `glom1`, `glom2`, `arithmefy`, and `arithmefy` on each
-- element where the tree is a list of operands.
pub record Meaning (C F St : Type 0) : Type 0 where
  pub glom1 : Run St (List (Term C))
  pub glom2 : Run St (List (Term C) × List Quoting)
  pub number : Run St (Number F)
  pub operands : List (Run St (Number F))

module _ {C B F St : Type 0} (sh : Shell C B F St) (bp : B) where
  -- The last part of `arithmefy`. errno is set to 0 once, so the second test sees the first error.
  unfoldable pub number_of_string : CString → Outcome (Number F)
  number_of_string s =
      let i = sh.strtoll s in
      let f = sh.strtod s in
      if i.at_end
      then (if i.erange then failed value_too_large else value (int_number i.parsed))
      else if f.at_end
      then (if i.erange || f.erange then failed float_too_large else value (float_number f.parsed))
      else failed not_a_number

  unfoldable pub number_of_words : List (Term C) → Outcome (Number F)
  unfolding getstr number_of_string
  number_of_words [] = failed null_list
  number_of_words (t ∷ []) = number_of_string (getstr sh.show t)
  number_of_words (t ∷ t' ∷ list) = failed multiple_term

  -- The loop over the operands of an nOp, `accum` being there.
  unfoldable pub accumulate : ℕ → List (Run St (Number F)) → Number F → Run St (Number F)
  unfolding do_op
  accumulate op [] accum = done accum
  accumulate op (m ∷ ms) accum =
      m >= λ val. lift (do_op sh.floats op val accum) >= λ r. accumulate op ms r

  unfoldable pub run_op : ℕ → List (Run St (Number F)) → Run St (Number F)
  unfolding accumulate
  run_op op [] = lift undefined
  run_op op (m ∷ ms) = m >= λ val. accumulate op ms val

  abbrev pub compared : Option Bool → Run St (Number F)
  compared none = lift undefined
  compared (some b) = done (truth sh.floats b)

  unfoldable pub run_cmp : CString → List (Run St (Number F)) → Run St (Number F)
  unfolding compare_on coerce_operands
  run_cmp cmp (l ∷ r ∷ ms) = l >= λ lhs. r >= λ rhs. compared (
      compare_on sh.floats (head_byte cmp) (get_or cmp 1 0 == b'=')
        (coerce_operands sh.floats lhs rhs))
  run_cmp cmp ms = lift undefined

  -- What an nArith becomes.
  unfoldable pub word_of_number : Number F → CString
  word_of_number (int_number z) = sh.print_int z
  word_of_number (float_number x) = sh.print_float x
  word_of_number (cmp_number z) = if eqb_ℤ z (pos 0) then codes "false" else codes "true"

  -- The values of the variables that are named, one after the other.
  unfoldable pub var_values : List (Term C) → St → List (Term C)
  unfolding listcopy getstr
  var_values [] st = []
  var_values (t ∷ var) st = listcopy (sh.varlookup (getstr sh.show t) bp st) ++ var_values var st

  unfoldable pub run_varsub : List (Term C) → Run St (List (Term C)) → Run St (List (Term C))
  unfolding subscript getstr
  run_varsub [] subs = lift (failed null_variable)
  run_varsub (t ∷ []) subs = λ st.
      let list = sh.varlookup (getstr sh.show t) bp st in
      follow (subs st) (λ sub. lift (subscript sh.show sh.atoi list sub))
  run_varsub (t ∷ t' ∷ list) subs = lift (failed multi_word_variable)

  -- `glom2` where the tree has no words that could be raw: all of `glom1`, quoted.
  abbrev pub all_quoted : Run St (List (Term C)) → Run St (List (Term C) × List Quoting)
  all_quoted m = m >= λ list. done (list, replicate (length list) quoted)

  -- `arithmefy` where the tree is no number and no operation.
  abbrev pub number_by : Run St (List (Term C) × List Quoting) → Run St (Number F)
  number_by m = m >= λ p. sh.glob p.0 p.1 >= λ list. lift (number_of_words list)

  -- A tree that is no list of operands fails an assertion.
  abbrev pub by_glom1 : Run St (List (Term C)) → Meaning C F St
  by_glom1 m = record {
    glom1 = m;
    glom2 = all_quoted m;
    number = number_by (all_quoted m);
    operands = lift undefined ∷ [];
  }

  abbrev pub by_glom2 :
      Run St (List (Term C))
      → Run St (List (Term C) × List Quoting)
      → List (Run St (Number F))
      → Meaning C F St
  by_glom2 m1 m2 ops = record { glom1 = m1; glom2 = m2; number = number_by m2; operands = ops }

  -- A number that may also be printed, or not be glommed at all.
  abbrev pub by_number : Run St (List (Term C)) → Run St (Number F) → Meaning C F St
  by_number m n = record {
    glom1 = m;
    glom2 = all_quoted m;
    number = n;
    operands = lift undefined ∷ [];
  }

  abbrev pub bad_kind : Run St (List (Term C))
  bad_kind = lift (failed bad_node)

  unfoldable pub meaning : Tree F → Meaning C F St
  unfolding number_of_words run_op run_cmp word_of_number var_values run_varsub concat qconcat
  meaning null = record {
    glom1 = done [];
    glom2 = done ([], []);
    number = lift undefined;
    operands = [];
  }
  meaning (n_word s) =
      by_glom2 (done (mkstr s ∷ [])) (done (mkstr s ∷ [], unquoted ∷ [])) (lift undefined ∷ [])
  meaning (n_qword s) = by_glom1 (done (mkstr s ∷ []))
  meaning (n_int z) = by_number (done (mkstr (sh.print_int z) ∷ [])) (done (int_number z))
  meaning (n_float x) = by_number (done (mkstr (sh.print_float x) ∷ [])) (done (float_number x))
  meaning (n_op s t) = by_number bad_kind (run_op (head_byte s) (meaning t).operands)
  meaning (n_cmp s t) = by_number bad_kind (run_cmp s (meaning t).operands)
  meaning (n_arith t) = by_glom1 ((meaning t).number >= λ n. done (mkstr (word_of_number n) ∷ []))
  meaning (n_lambda a b) = by_glom1 (done (mkfun (sh.mkclosure (n_lambda a b) (some bp)) ∷ []))
  meaning (n_prim s) = by_glom1 (done (mkfun (sh.mkclosure (n_prim s) none) ∷ []))
  meaning (n_var t) = by_glom1 ((meaning t).glom1 >= λ var st. (value (var_values var st), st))
  meaning (n_varsub a b) =
      let subs = (meaning b).glom1 in by_glom1 ((meaning a).glom1 >= λ list. run_varsub list subs)
  meaning (n_call t) = by_glom1 (sh.walk t bp >= λ list. done (listcopy list))
  meaning (n_list a b) =
      let ma = meaning a in
      let mb = meaning b in
      by_glom2 (ma.glom1 >= λ list. mb.glom1 >= λ rest. done (list ++ rest))
        (ma.glom2 >= λ p. mb.glom2 >= λ r. done (p.0 ++ r.0, p.1 ++ r.1)) (ma.number ∷ mb.operands)
  meaning (n_concat a b) =
      let ma = meaning a in
      let mb = meaning b in
      by_glom2 (ma.glom1 >= λ l. mb.glom1 >= λ r. done (concat sh.show l r))
        (ma.glom2 >= λ l. mb.glom2 >= λ r. done (qconcat sh.show l.0 r.0 l.1 r.1))
        (lift undefined ∷ [])
  meaning (n_assign a b) = by_glom1 bad_kind
  meaning (n_closure a b) = by_glom1 bad_kind
  meaning (n_for a b) = by_glom1 bad_kind
  meaning (n_let a b) = by_glom1 bad_kind
  meaning (n_local a b) = by_glom1 bad_kind
  meaning (n_match a b) = by_glom1 bad_kind
  meaning (n_extract a b) = by_glom1 bad_kind
  meaning (n_redir a b) = by_glom1 bad_kind
  meaning (n_pipe m n) = by_glom1 bad_kind

  -- The three functions, and `glom`, which globs where it is asked to.
  unfoldable pub glom1 : Tree F → Run St (List (Term C))
  unfolding meaning
  glom1 t = (meaning t).glom1

  unfoldable pub glom2 : Tree F → Run St (List (Term C) × List Quoting)
  unfolding meaning
  glom2 t = (meaning t).glom2

  unfoldable pub arithmefy : Tree F → Run St (Number F)
  unfolding meaning
  arithmefy t = (meaning t).number

  unfoldable pub glom : Tree F → Bool → Run St (List (Term C))
  unfolding glom1 glom2
  glom t true = glom2 t >= λ p. sh.glob p.0 p.1
  glom t false = glom1 t
