-- ===== src/Glom/Operations.antt =====
-- The flattening of operations by `mkop` of syntax.c, against `arithmefy` of glom.c.
use es_shell_mirror.Prelude.{
  ◌≡◌, refl, sym, ◌∙◌, ap, false, List, [], ◌∷◌, ◌++◌, CString, Option, none, some, head_byte, ◌==◌,
  Bool-cases, inl, inr, ==→eq, ℕ,
}
use es_shell_mirror.Syntax.Tree.{Tree, null, n_list, n_op}
use es_shell_mirror.Syntax.Rewrite.{mkop, treeconsend, treeappend, is_list, operand_list, ◌=>>◌}
use es_shell_mirror.Syntax.Sequence.{IsProper}
use es_shell_mirror.Glom.Int.{Outcome, value, failed, undefined}
use es_shell_mirror.Glom.Number.{Number, do_op}
use es_shell_mirror.Glom.Eval.{
  Run, follow, lift, ◌>=◌, Shell, done, meaning, accumulate, run_op, arithmefy,
}

module _ {St A B D : Type 0} where
  follow_assoc :
      (o : Outcome A × St) (f : A → Run St B) (g : B → Run St D)
      → follow (follow o f) g ≡ follow o (λ a st. follow (f a st) g)
  follow_assoc (value a, st) f g = refl
  follow_assoc (failed e, st) f g = refl
  follow_assoc (undefined, st) f g = refl

module _ {St A B : Type 0} where
  follow_same :
      (o : Outcome A × St) (f g : A → Run St B)
      → ((a : A) (st : St) → f a st ≡ g a st)
      → follow o f ≡ follow o g
  follow_same (value a, st) f g h = h a st
  follow_same (failed e, st) f g h = refl
  follow_same (undefined, st) f g h = refl

module _ {St A : Type 0} where
  follow_neutral : (o : Outcome A × St) → follow o done ≡ o
  follow_neutral (value a, st) = refl
  follow_neutral (failed e, st) = refl
  follow_neutral (undefined, st) = refl

module _ {C B F St : Type 0} (sh : Shell C B F St) (bp : B) where
  -- One operation on two operands, the left one first.
  abbrev pub binary : ℕ → Run St (Number F) → Run St (Number F) → Run St (Number F)
  binary op m n = m >= λ accum. n >= λ val. lift (do_op sh.floats op val accum)

  accumulate-append :
      (op : ℕ) (ms : List (Run St (Number F))) (n : Run St (Number F)) (accum : Number F) (st : St)
      → accumulate sh bp op (ms ++ n ∷ []) accum st
        ≡ follow
            (accumulate sh bp op ms accum st)
            (λ a. n >= λ val. lift (do_op sh.floats op val a))
  unfolding accumulate
  accumulate-append op [] n accum st =
      follow_same (n st) _ _ (λ val st1. follow_neutral (do_op sh.floats op val accum, st1))
  accumulate-append op (m ∷ ms) n accum st =
      follow_same (m st) _ _ (λ val st1.
        follow_same (do_op sh.floats op val accum, st1) _ _
          (λ r st2. accumulate-append op ms n r st2)
        ∙ sym (
            follow_assoc (do_op sh.floats op val accum, st1) (λ r. accumulate sh bp op ms r)
              (λ a. n >= λ val. lift (do_op sh.floats op val a))))
      ∙ sym (
          follow_assoc (m st)
            (λ val st1. follow (do_op sh.floats op val accum, st1) (λ r. accumulate sh bp op ms r))
            (λ a. n >= λ val. lift (do_op sh.floats op val a)))

  run_op-two :
      (op : ℕ) (m n : Run St (Number F)) (st : St)
      → run_op sh bp op (m ∷ n ∷ []) st ≡ binary op m n st
  unfolding run_op
  run_op-two op m n st = follow_same (m st) _ _ (λ a st1. accumulate-append op [] n a st1 ∙ refl)

  run_op-more :
      (op : ℕ) (m : Run St (Number F)) (ms : List (Run St (Number F))) (n : Run St (Number F))
      (st : St)
      → run_op sh bp op (m ∷ ms ++ n ∷ []) st ≡ binary op (run_op sh bp op (m ∷ ms)) n st
  unfolding run_op
  run_op-more op m ms n st =
      follow_same (m st) _ _ (λ a st1. accumulate-append op ms n a st1)
      ∙ sym (
          follow_assoc (m st) (λ a. accumulate sh bp op ms a)
            (λ a. n >= λ val. lift (do_op sh.floats op val a)))

  -- A list of operands that was built.
  abbrev pub HasOperands : Option (Tree F) → List (Run St (Number F)) → Type 0
  HasOperands none ms = ⊥
  HasOperands (some t) ms = (meaning sh bp t).operands ≡ ms

  cons-HasOperands :
      (a : Tree F) (o : Option (Tree F)) (ms : List (Run St (Number F)))
      → HasOperands o ms
      → HasOperands (o =>> λ t. some (n_list a t)) ((meaning sh bp a).number ∷ ms)
  unfolding meaning
  cons-HasOperands a none ms h = h
  cons-HasOperands a (some t) ms h = ap (λ ms. (meaning sh bp a).number ∷ ms) h

  treeappend-HasOperands :
      (cl t : Tree F)
      → IsProper cl
      → HasOperands
          (treeappend cl (n_list t null))
          ((meaning sh bp cl).operands ++ (meaning sh bp t).number ∷ [])
  unfolding treeappend meaning
  treeappend-HasOperands null t h = refl
  treeappend-HasOperands (n_list a b) t h =
      cons-HasOperands a (treeappend b (n_list t null))
        ((meaning sh bp b).operands ++ (meaning sh bp t).number ∷ []) (treeappend-HasOperands b t h)
  treeappend-HasOperands cl t h = elim h [ ]

  -- What the parser makes of an operation: one operand at least, in a list that ends.
  abbrev pub IsOperation : Tree F → Type 0
  IsOperation (n_op s (n_list a b)) = IsProper b
  IsOperation (n_op s cl) = ⊥
  IsOperation (n_list a b) = ⊥
  IsOperation t = Unit

  -- A tree that was built, and what it comes to.
  abbrev pub ComesTo : Option (Tree F) → Run St (Number F) → Type 0
  ComesTo none m = ⊥
  ComesTo (some t) m = (st : St) → arithmefy sh bp t st ≡ m st

  operand_list-eq : (t : Tree F) → is_list t ≡ false → operand_list t ≡ n_list t null
  operand_list-eq (n_list a b) h = cc
  operand_list-eq t h = refl

  -- A new node.
  two-ComesTo :
      (op : CString) (t1 t2 : Tree F)
      → is_list t2 ≡ false
      → ComesTo
          (some (n_op op (n_list t1 (operand_list t2))))
          (binary (head_byte op) (arithmefy sh bp t1) (arithmefy sh bp t2))
  unfolding arithmefy
  two-ComesTo op t1 t2 h st =
      rw (operand_list-eq t2 h)
        (run_op-two (head_byte op) (meaning sh bp t1).number (meaning sh bp t2).number st)

  -- One more operand in a node.
  more-ComesTo :
      (op1 : CString) (op : ℕ) (a b t2 : Tree F) (o : Option (Tree F))
      → head_byte op1 ≡ op
      → HasOperands o ((meaning sh bp (n_list a b)).operands ++ (meaning sh bp t2).number ∷ [])
      → ComesTo
          (o =>> λ t. some (n_op op1 t))
          (binary op (arithmefy sh bp (n_op op1 (n_list a b))) (arithmefy sh bp t2))
  unfolding arithmefy
  more-ComesTo op1 op a b t2 none e h = h
  more-ComesTo op1 op a b t2 (some t) e h = λ st.
      ap (λ ms. run_op sh bp (head_byte op1) ms st) h
      ∙ run_op-more (head_byte op1) (meaning sh bp a).number (meaning sh bp b).operands
          (meaning sh bp t2).number st
      ∙ ap
          (λ c.
            binary c
              (run_op sh bp (head_byte op1) ((meaning sh bp a).number ∷ (meaning sh bp b).operands))
              (meaning sh bp t2).number st)
          e

  -- `mkop` keeps the meaning of an operation: its tree comes to the operation on what the two operands
  -- come to, the left one evaluated first, also where the right operand is put into the node of the
  -- left one. The operands are no lists, and an operation on the left has a list of operands that
  -- ends and is not empty.
  pub mkop-ComesTo :
      (op : CString) (t1 t2 : Tree F)
      → IsOperation t1
      → is_list t2 ≡ false
      → ComesTo (mkop op t1 t2) (binary (head_byte op) (arithmefy sh bp t1) (arithmefy sh bp t2))
  unfolding mkop treeconsend
  mkop-ComesTo op (n_op op1 (n_list a b)) t2 h no_list =
      elim (Bool-cases (head_byte op1 == head_byte op)) [
        | inl e ↦ rw (e) (
            more-ComesTo op1 (head_byte op) a b t2 (treeappend (n_list a b) (n_list t2 null))
              (==→eq (head_byte op1) (head_byte op) e) (treeappend-HasOperands (n_list a b) t2 h))
        | inr e ↦ rw (e) (two-ComesTo op (n_op op1 (n_list a b)) t2 no_list)
      ]
  mkop-ComesTo op (n_op op1 cl) t2 h no_list = elim h [ ]
  mkop-ComesTo op (n_list a b) t2 h no_list = elim h [ ]
  mkop-ComesTo op t1 t2 h no_list = two-ComesTo op t1 t2 no_list
