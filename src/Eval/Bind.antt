-- ===== src/Eval/Bind.antt =====
-- How values are dealt out to variables: `assign`, `letbindings` and `bindargs` of eval.c.
use es_shell_mirror.Prelude.{
  Bool, true, false, List, [], ◌∷◌, CString, codes, Option, none, some, if◌then◌else◌, is_nil,
}
use es_shell_mirror.Syntax.Tree.{Tree, null, n_assign, n_list, n_word, n_qword, Term}
use es_shell_mirror.Eval.Base.{World, Result, done, aborted, and_then, Machine, fail, mkbinding}

module _ {A : Type 0} where
  -- The value of a variable, which is the last one or not, and the values that are left.
  unfoldable pub next_value : Bool → List A → List A × List A
  next_value last [] = ([], [])
  next_value last (t ∷ []) = (t ∷ [], [])
  next_value last (t ∷ u ∷ values) = if last then (t ∷ u ∷ values, []) else (t ∷ [], u ∷ values)

module _ {F C B S : Type 0} (m : Machine F C B S) where
  -- The loop over the variables. `add` is `vardef`, or `mkbinding` onto a chain.
  unfoldable pub bind_vars :
      {X : Type 0}
      → (CString → List (Term C) → X → World S → Result C S X)
      → List (Term C)
      → List (Term C)
      → X
      → World S
      → Result C S X
  bind_vars add [] values acc w = done acc w
  bind_vars add (var ∷ vars) values acc w =
      let got = next_value (is_nil vars) values in
      and_then (add (m.getstr var) got.0 acc w) (λ acc' w'. bind_vars add vars got.1 acc' w')

  abbrev pub unless_nil :
      {X : Type 0} → CString → List (Term C) → World S → Result C S X → Result C S X
  unless_nil from [] w next = fail from (codes "null variable name") w
  unless_nil from (var ∷ vars) w next = next

  unfoldable pub assign : Tree F → Tree F → B → World S → Result C S (List (Term C))
  assign varform valueform binding w = and_then (m.glom varform binding false w) (λ vars w1.
      unless_nil (codes "es:assign") vars w1 (
        and_then (m.glom valueform binding true w1) (λ values w2.
          and_then (bind_vars (λ name value u w'. m.vardef name binding value w') vars values tt w2)
            (λ u w3. done values w3))))

  -- One definition of `let` or `local`. The words are glommed in `context`.
  unfoldable pub let_one :
      {X : Type 0}
      → (CString → List (Term C) → X → World S → Result C S X)
      → Tree F
      → B
      → X
      → World S
      → Result C S X
  let_one add (n_assign varform valueform) context acc w =
      and_then (m.glom varform context false w) (λ vars w1.
        and_then (m.glom valueform context true w1)
          (λ values w2. unless_nil (codes "es:let") vars w2 (bind_vars add vars values acc w2)))
  let_one add null context acc w = done acc w
  let_one add other context acc w = aborted

  unfoldable pub let_loop :
      {X : Type 0}
      → (CString → List (Term C) → X → World S → Result C S X)
      → Tree F
      → B
      → X
      → World S
      → Result C S X
  let_loop add null context acc w = done acc w
  let_loop add (n_list defn rest) context acc w =
      and_then (let_one add defn context acc w) (λ acc' w'. let_loop add rest context acc' w')
  let_loop add other context acc w = aborted

  unfoldable pub letbindings : Tree F → B → B → World S → Result C S B
  letbindings defn outer context w = let_loop (mkbinding m) defn context outer w

  -- The parameters of a lambda.
  abbrev pub is_null : Tree F → Bool
  is_null null = true
  is_null other = false

  abbrev pub name_of : Tree F → Option CString
  name_of (n_word s) = some s
  name_of (n_qword s) = some s
  name_of other = none

  unfoldable pub bindargs : Tree F → List (Term C) → B → World S → Result C S B
  bindargs null args binding w = done binding w
  bindargs (n_list param params) args binding w =
      let got = next_value (is_null params) args in
      elim (name_of param) [
        | none ↦ aborted
        | some name ↦
            and_then (mkbinding m name got.0 binding w) (λ b w'. bindargs params got.1 b w')
      ]
  bindargs other args binding w = aborted
