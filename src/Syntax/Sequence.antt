-- ===== src/Syntax/Sequence.antt =====
-- Sequences of commands, as `mkseq` of syntax.c builds them.
use es_shell_mirror.Prelude.{
  ◌≡◌, true, false, List, [], ◌∷◌, CString, Option, none, some, if◌then◌else◌, ◌⊎◌, false,
}
use es_shell_mirror.Syntax.Tree.{Tree, null, n_list, n_lambda}
use es_shell_mirror.Syntax.Rewrite.{firstis, thunkify, is_thunk, only_child, car, cdr}

module _ {F : Type 0} where
  -- A list of trees to its end.
  abbrev pub IsProper : Tree F → Type 0
  IsProper null = Unit
  IsProper (n_list a b) = IsProper b
  IsProper t = ⊥

  abbrev pub elements : Tree F → List (Tree F)
  elements (n_list a b) = a ∷ elements b
  elements t = []

  abbrev pub AllThunks : List (Tree F) → Type 0
  AllThunks [] = Unit
  AllThunks (t ∷ l) = (is_thunk t ≡ true) × AllThunks l

  -- The thunk of a command: the command, or its only child, or the only child of that one, if this is a thunk; and
  -- else a thunk around the command.
  pub data ThunkOf : Tree F → Tree F → Type 0 where
    itself : (t : Tree F) → is_thunk t ≡ true → ThunkOf t t
    in_child : (t : Tree F) → only_child t ≡ true → is_thunk (car t) ≡ true → ThunkOf t (car t)
    in_grandchild :
        (t : Tree F)
        → only_child t ≡ true
        → only_child (car t) ≡ true
        → is_thunk (car (car t)) ≡ true
        → ThunkOf t (car (car t))
    around : (t : Tree F) → is_thunk t ≡ false → ThunkOf t (n_lambda null t)

  -- The commands of a tree: those after the operator, or its thunk.
  abbrev pub Commands : CString → Tree F → List (Tree F) → Type 0
  Commands op t l =
      ((firstis t op ≡ true) × (l ≡ elements (cdr t)))
      ⊎ ((firstis t op ≡ false) × (u : Tree F) × (l ≡ u ∷ []) × ThunkOf t u)

  -- What `mkseq` has for the commands.
  abbrev commands : CString → Tree F → List (Tree F)
  commands op t = if firstis t op then elements (cdr t) else thunkify t ∷ []

  -- A tree that does not have the operator, or has it with a proper list of thunks.
  abbrev pub IsSequence : CString → Tree F → Type 0
  IsSequence op t = (firstis t op ≡ false) ⊎ (IsProper t × AllThunks (elements (cdr t)))

  -- What holds of a list that was built: its elements.
  abbrev pub Built : Option (Tree F) → CString → List (Tree F) → Type 0
  Built none op l = ⊥
  Built (some t) op l = (firstis t op ≡ true) × (elements (cdr t) ≡ l) × IsProper t

  abbrev pub Appended : Option (Tree F) → List (Tree F) → Type 0
  Appended none l = ⊥
  Appended (some t) l = (elements t ≡ l) × IsProper t
