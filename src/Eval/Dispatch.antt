-- ===== src/Eval/Dispatch.antt =====
-- The rest of `eval` of eval.c: closures, functions, commands; and the fuel that ties the calls together.
use es_shell_mirror.Prelude.{
  ℕ, zero, suc, ◌-◌, true, false, not, ◌&&◌, List, [], ◌∷◌, ◌++◌, CString, codes, Option, none,
  some, if◌then◌else◌,
}
use es_shell_mirror.ListOps.{append}
use es_shell_mirror.Syntax.Tree.{Tree, null, n_lambda, n_list, n_prim, Term, mkstr, termeq}
use es_shell_mirror.Status.{istrue}
use es_shell_mirror.Eval.Base.{
  World, Result, done, thrown, aborted, no_fuel, Flags, and_then, Machine, fail, caught, true_list,
}
use es_shell_mirror.Eval.Bind.{bindargs}
use es_shell_mirror.Eval.Walk.{Calls, walk, eval}

abbrev no_flags : Flags
no_flags = record { eval_inchild = false; eval_throwonfalse = false }

module _ {F C B S : Type 0} (m : Machine F C B S) where
  abbrev Listed : Type 0
  Listed = Result C S (List (Term C))

  -- `--evaldepth`
  abbrev pub shallower : World S → World S
  shallower w = record w { evaldepth = w.evaldepth - 1 }

  -- The label `done`.
  unfoldable pub finish : Flags → List (Term C) → World S → Listed
  finish flags list w =
      if flags.eval_throwonfalse && not (istrue list)
      then thrown (mkstr (codes "false") ∷ list) (shallower w)
      else done list (shallower w)

  abbrev pub return_exception : List (Term C) → World S → Listed
  return_exception [] w = thrown [] w
  return_exception (t ∷ e) w = if termeq t (codes "return") then done e w else thrown (t ∷ e) w

  -- A function that was found by its name has the name in the variable "0".
  unfoldable pub with_funcname : Option CString → (World S → Listed) → World S → Listed
  with_funcname none body w = body w
  with_funcname (some name) body w =
      and_then (m.varpush (codes "0") (mkstr name ∷ []) w)
        (λ u w1. and_then (body w1) (λ list w2. and_then (m.varpop w2) (λ u' w3. done list w3)))

  -- Without parameters there is no handler for "return".
  unfoldable pub call_lambda :
      Calls F C B S
      → Tree F
      → Tree F
      → B
      → List (Term C)
      → Option CString
      → Flags
      → World S
      → Listed
  call_lambda calls null body closed args funcname flags w = calls.walk body closed flags w
  call_lambda calls params body closed args funcname flags w =
      caught m
        (and_then (bindargs m params args closed w)
          (λ context w1. with_funcname funcname (calls.walk body context flags) w1))
        w return_exception

  -- "list = append(list, list->next)": an empty list has no next one.
  unfoldable pub list_again :
      Calls F C B S → List (Term C) → B → Option CString → Flags → World S → Listed
  list_again calls [] binding funcname flags w = aborted
  list_again calls (t ∷ list) binding funcname flags w =
      calls.restart (append (t ∷ list) list) binding funcname flags w

  -- The head of the list is a closure.
  unfoldable pub apply_closure :
      Calls F C B S → Tree F → B → List (Term C) → B → Option CString → Flags → World S → Listed
  apply_closure calls (n_prim s) closed args binding funcname flags w =
      if m.has_bindings closed
      then aborted
      else and_then (m.prim s args binding flags w) (finish flags)
  apply_closure calls (n_lambda params body) closed args binding funcname flags w =
      and_then (call_lambda calls params body closed args funcname flags w) (finish flags)
  apply_closure calls (n_list l r) closed args binding funcname flags w =
      and_then (m.glom (n_list l r) closed true w)
        (λ list w'. list_again calls list binding funcname flags w')
  apply_closure calls other closed args binding funcname flags w = aborted

  unfoldable pub run_checked : Option CString → CString → List (Term C) → Flags → World S → Listed
  run_checked (some error) name list flags w =
      fail (codes "$&whatis") (name ++ codes ": " ++ error) w
  run_checked none name list flags w =
      and_then (m.forkexec name list flags.eval_inchild w) (finish flags)

  unfoldable pub search_with : Calls F C B S → Term C → List (Term C) → World S → Listed
  search_with calls term [] w =
      fail (codes "es:pathsearch") (m.print_term term ++ codes ": fn %pathsearch undefined") w
  search_with calls term (t ∷ search) w =
      eval m calls (append (t ∷ search) (term ∷ [])) m.no_bindings no_flags w

  unfoldable pub pathsearch : Calls F C B S → Term C → World S → Listed
  pathsearch calls term w =
      and_then (m.varlookup (codes "fn-%pathsearch") w)
        (λ search w'. search_with calls term search w')

  -- What the search has found: the name of a file, or what is evaluated in place of the head.
  unfoldable pub run_found :
      Calls F C B S
      → List (Term C)
      → Term C
      → List (Term C)
      → B
      → Option CString
      → Flags
      → World S
      → Listed
  run_found calls (t ∷ []) head args binding funcname flags w = elim (m.getclosure t) [
    | none ↦ and_then (m.forkexec (m.getstr t) (head ∷ args) flags.eval_inchild w) (finish flags)
    | some _ ↦ calls.restart (append (t ∷ []) args) binding funcname flags w
  ]
  run_found calls fn head args binding funcname flags w =
      calls.restart (append fn args) binding funcname flags w

  unfoldable pub by_function :
      Calls F C B S
      → List (Term C)
      → Term C
      → List (Term C)
      → B
      → Option CString
      → Flags
      → World S
      → Listed
  by_function calls [] head args binding funcname flags w =
      if m.isabsolute (m.getstr head)
      then run_checked (m.checkexecutable (m.getstr head) w) (m.getstr head) (head ∷ args) flags w
      else and_then (pathsearch calls head w)
          (λ fn w'. run_found calls fn head args binding funcname flags w')
  by_function calls (t ∷ fn) head args binding funcname flags w =
      calls.restart (append (t ∷ fn) args) binding (some (m.getstr head)) flags w

  -- From the label `restart` on.
  unfoldable pub restart :
      Calls F C B S → List (Term C) → B → Option CString → Flags → World S → Listed
  restart calls [] binding funcname flags w = done true_list (shallower w)
  restart calls (head ∷ args) binding funcname flags w = elim (m.getclosure head) [
    | some (tree, closed) ↦ apply_closure calls tree closed args binding funcname flags w
    | none ↦
        by_function calls (m.varlookup2 (codes "fn-") (m.getstr head) binding w) head args binding
          funcname flags w
  ]

  -- The calls, `n` deep.
  unfoldable pub calls_within : ℕ → Calls F C B S
  calls_within zero = record {
    walk = λ tree binding flags w. no_fuel;
    restart = λ list binding funcname flags w. no_fuel;
  }
  calls_within (suc n) = record {
    walk = λ tree binding flags w. walk m (calls_within n) tree binding flags w;
    restart =
        λ list binding funcname flags w. restart (calls_within n) list binding funcname flags w;
  }
