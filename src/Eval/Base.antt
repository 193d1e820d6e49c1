-- ===== src/Eval/Base.antt =====
-- What eval.c runs on: outcomes, handlers, and the interface to the rest of the shell.
use es_shell_mirror.Prelude.{ℕ, Bool, List, [], ◌∷◌, CString, codes, Option}
use es_shell_mirror.Syntax.Tree.{Tree, Term, mkstr}
use es_shell_mirror.Match.Quoting.{Quoting}

-- `evaldepth`, and all other state of the shell.
pub record World (S : Type 0) : Type 0 where
  pub evaldepth : ℕ
  pub state : S

-- A function returns, throws an exception, fails an assertion or panics; or the fuel is used up.
pub data Result (C S : Type 0) (A : Type 0) : Type 0 where
  done : A → World S → Result C S A
  thrown : List (Term C) → World S → Result C S A
  aborted no_fuel : Result C S A

-- The flags of `eval`.
pub record Flags : Type 0 where
  pub eval_inchild : Bool
  pub eval_throwonfalse : Bool

abbrev pub and_then :
    {C S A B : Type 0} → Result C S A → (A → World S → Result C S B) → Result C S B
and_then (done a w) f = f a w
and_then (thrown e w) f = thrown e w
and_then aborted f = aborted
and_then no_fuel f = no_fuel

-- The functions that eval.c calls. `B` is the type of a chain of bindings, which lives in the state, since an
-- assignment changes it for all that share it.
pub record Machine (F C B S : Type 0) : Type 0 where
  pub maxevaldepth : ℕ
  pub no_bindings : B
  pub has_bindings : B → Bool
  pub getstr : Term C → CString
  -- `%E`
  pub print_term : Term C → CString
  -- The tree and the bindings of a closure, also of one that is spelled out in a string.
  pub getclosure : Term C → Option (Tree F × B)
  pub glom : Tree F → B → Bool → World S → Result C S (List (Term C))
  pub glom2 : Tree F → B → World S → Result C S (List (Term C) × List Quoting)
  pub validatevar : CString → World S → Result C S Unit
  pub newbinding : CString → List (Term C) → B → World S → Result C S B
  pub vardef : CString → B → List (Term C) → World S → Result C S Unit
  pub varpush : CString → List (Term C) → World S → Result C S Unit
  pub varpop : World S → Result C S Unit
  pub varlookup : CString → World S → Result C S (List (Term C))
  pub varlookup2 : CString → CString → B → World S → List (Term C)
  pub prim : CString → List (Term C) → B → Flags → World S → Result C S (List (Term C))
  pub forkexec : CString → List (Term C) → Bool → World S → Result C S (List (Term C))
  pub isabsolute : CString → Bool
  pub checkexecutable : CString → World S → Option CString
  pub sigchk : World S → Result C S Unit
  -- How many variables are pushed, and the popping down to a number of them.
  pub pushes : World S → ℕ
  pub unwind : ℕ → World S → Result C S Unit

module _ {C S : Type 0} where
  -- `fail` of except.c
  abbrev pub fail : {A : Type 0} → CString → CString → World S → Result C S A
  fail from message w = thrown (mkstr (codes "error") ∷ mkstr from ∷ mkstr message ∷ []) w

-- `true` and `false` of status.c
abbrev pub true_list : {C : Type 0} → List (Term C)
true_list = mkstr (codes "0") ∷ []

abbrev pub false_list : {C : Type 0} → List (Term C)
false_list = mkstr (codes "1") ∷ []

module _ {F C B S : Type 0} (m : Machine F C B S) where
  -- ExceptionHandler, CatchException and `throw`: the pushes are taken back, then `evaldepth` is what it
  -- was, and the exception goes to `catcher`, after which the program goes on behind the handler.
  abbrev pub caught :
      {A : Type 0}
      → Result C S A
      → World S
      → (List (Term C) → World S → Result C S A)
      → Result C S A
  caught (done a w') w catcher = done a w'
  caught aborted w catcher = aborted
  caught no_fuel w catcher = no_fuel
  caught (thrown e w') w catcher =
      and_then (m.unwind (m.pushes w) w')
        (λ u w''. catcher e (record w'' { evaldepth = w.evaldepth }))

  -- `mkbinding` of closure.c
  unfoldable pub mkbinding : CString → List (Term C) → B → World S → Result C S B
  mkbinding name defn next w =
      and_then (m.validatevar name w) (λ u w'. m.newbinding name defn next w')
