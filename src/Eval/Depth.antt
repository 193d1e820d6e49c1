-- ===== src/Eval/Depth.antt =====
-- `evaldepth` is what it was when `eval` returns.
use es_shell_mirror.Prelude.{
  ℕ, zero, suc, ◌≡◌, refl, true, not, ◌&&◌, List, [], ◌∷◌, CString, codes, Option, none, some,
  arith,
}
use es_shell_mirror.ListOps.{append}
use es_shell_mirror.Syntax.Tree.{Tree, null, n_lambda, n_list, n_prim, Term, mkstr, termeq}
use es_shell_mirror.Status.{istrue}
use es_shell_mirror.Eval.Base.{World, Result, Flags, and_then, Machine, caught}
use es_shell_mirror.Eval.Bind.{bindargs}
use es_shell_mirror.Eval.Walk.{Calls, eval}
use es_shell_mirror.Eval.Dispatch.{
  finish, return_exception, with_funcname, call_lambda, list_again, apply_closure, run_checked,
  search_with, pathsearch, run_found, by_function, restart, calls_within,
}
use es_shell_mirror.Eval.Steady.{
  Balanced, bind, either, Keeps, IsSteady, GoodCalls, caught_kept, bindargs_kept,
}
use es_shell_mirror.Eval.Walks.{eval_kept, walk_step}

module _ {F C B S : Type 0} (m : Machine F C B S) (steady : IsSteady m) where
  module _ (calls : Calls F C B S) (good : GoodCalls calls) where
    -- From `restart` on the depth goes down by one.
    finish_kept :
        (flags : Flags) (list : List (Term C)) (k : ℕ) (w : World S)
        → w.evaldepth ≡ suc k
        → Balanced k (finish m flags list w)
    unfolding finish
    finish_kept flags list k w h =
        either k (flags.eval_throwonfalse && not (istrue list)) _ _ tt (omega (arith, h))

    finished :
        (flags : Flags) (r : Result C S (List (Term C))) (k : ℕ)
        → Balanced (suc k) r
        → Balanced k (and_then r (finish m flags))
    finished flags r k h = bind k r _ h (λ list w1 h1. finish_kept flags list k w1 h1)

    return_exception_kept : (e : List (Term C)) → Keeps (return_exception m e)
    return_exception_kept [] k w h = tt
    return_exception_kept (t ∷ e) k w h = either k (termeq t (codes "return")) _ _ h tt

    with_funcname_kept :
        (o : Option CString) (body : World S → Result C S (List (Term C)))
        → Keeps body
        → Keeps (with_funcname m o body)
    unfolding with_funcname
    with_funcname_kept none body kept k w h = kept k w h
    with_funcname_kept (some name) body kept k w h =
        bind k (m.varpush (codes "0") (mkstr name ∷ []) w) _
          (steady.varpush_kept (codes "0") (mkstr name ∷ []) k w h)
          (λ u w1 h1.
            bind k (body w1) _ (kept k w1 h1)
              (λ list w2 h2. bind k (m.varpop w2) _ (steady.varpop_kept k w2 h2) (λ u' w3 h3. h3)))

    with_params_kept :
        (params body : Tree F) (closed : B) (args : List (Term C)) (o : Option CString)
        (flags : Flags)
        → Keeps (λ w.
          caught m
            (and_then
              (bindargs m params args closed w)
              (λ context w1. with_funcname m o (calls.walk body context flags) w1))
            w
            (return_exception m))
    with_params_kept params body closed args o flags k w h =
        caught_kept m steady k _ w (return_exception m) h
          (bind k (bindargs m params args closed w) _
            (bindargs_kept m steady params args closed k w h)
            (λ context w1 h1.
              with_funcname_kept o (calls.walk body context flags)
                (good.walk_kept body context flags) k w1 h1))
          return_exception_kept

    call_lambda_kept :
        (params body : Tree F) (closed : B) (args : List (Term C)) (o : Option CString)
        (flags : Flags)
        → Keeps (call_lambda m calls params body closed args o flags)
    unfolding call_lambda
    call_lambda_kept null body closed args o flags k w h = good.walk_kept body closed flags k w h
    call_lambda_kept params body closed args o flags k w h =
        with_params_kept params body closed args o flags k w h

    -- What is called at `restart`, one deeper than it returns.
    list_again_kept :
        (list : List (Term C)) (b : B) (o : Option CString) (flags : Flags) (k : ℕ) (w : World S)
        → w.evaldepth ≡ suc k
        → Balanced k (list_again m calls list b o flags w)
    unfolding list_again
    list_again_kept [] b o flags k w h = tt
    list_again_kept (t ∷ list) b o flags k w h =
        good.restart_kept (append (t ∷ list) list) b o flags k w h

    apply_closure_kept :
        (t : Tree F) (closed : B) (args : List (Term C)) (b : B) (o : Option CString)
        (flags : Flags) (k : ℕ) (w : World S)
        → w.evaldepth ≡ suc k
        → Balanced k (apply_closure m calls t closed args b o flags w)
    unfolding apply_closure
    apply_closure_kept (n_prim s) closed args b o flags k w h =
        either k (m.has_bindings closed) _ _ tt
          (finished flags (m.prim s args b flags w) k (steady.prim_kept s args b flags (suc k) w h))
    apply_closure_kept (n_lambda params body) closed args b o flags k w h =
        finished flags (call_lambda m calls params body closed args o flags w) k
          (call_lambda_kept params body closed args o flags (suc k) w h)
    apply_closure_kept (n_list l r) closed args b o flags k w h =
        bind k (m.glom (n_list l r) closed true w) _
          (steady.glom_kept (n_list l r) closed true (suc k) w h)
          (λ list w1 h1. list_again_kept list b o flags k w1 h1)
    apply_closure_kept other closed args b o flags k w h = tt

    run_checked_kept :
        (e : Option CString) (name : CString) (list : List (Term C)) (flags : Flags) (k : ℕ)
        (w : World S)
        → w.evaldepth ≡ suc k
        → Balanced k (run_checked m e name list flags w)
    unfolding run_checked
    run_checked_kept (some e) name list flags k w h = tt
    run_checked_kept none name list flags k w h =
        finished flags (m.forkexec name list flags.eval_inchild w) k
          (steady.forkexec_kept name list flags.eval_inchild (suc k) w h)

    search_with_kept : (t : Term C) (search : List (Term C)) → Keeps (search_with m calls t search)
    unfolding search_with
    search_with_kept t [] k w h = tt
    search_with_kept t (s ∷ search) k w h =
        eval_kept m steady calls good (append (s ∷ search) (t ∷ [])) m.no_bindings _ k w h

    pathsearch_kept : (t : Term C) → Keeps (pathsearch m calls t)
    unfolding pathsearch
    pathsearch_kept t k w h =
        bind k (m.varlookup (codes "fn-%pathsearch") w) _
          (steady.varlookup_kept (codes "fn-%pathsearch") k w h)
          (λ search w1 h1. search_with_kept t search k w1 h1)

    run_found_kept :
        (fn : List (Term C)) (head : Term C) (args : List (Term C)) (b : B) (o : Option CString)
        (flags : Flags) (k : ℕ) (w : World S)
        → w.evaldepth ≡ suc k
        → Balanced k (run_found m calls fn head args b o flags w)
    unfolding run_found
    run_found_kept [] head args b o flags k w h = good.restart_kept (append [] args) b o flags k w h
    run_found_kept (t ∷ u ∷ fn) head args b o flags k w h =
        good.restart_kept (append (t ∷ u ∷ fn) args) b o flags k w h
    run_found_kept (t ∷ []) head args b o flags k w h = go (m.getclosure t)
      where
        go :
            (c : Option (Tree F × B))
            → Balanced k (elim c [
              | none ↦
                  and_then
                    (m.forkexec (m.getstr t) (head ∷ args) flags.eval_inchild w)
                    (finish m flags)
              | some _ ↦ calls.restart (append (t ∷ []) args) b o flags w
            ])
        go none =
            finished flags (m.forkexec (m.getstr t) (head ∷ args) flags.eval_inchild w) k
              (steady.forkexec_kept (m.getstr t) (head ∷ args) flags.eval_inchild (suc k) w h)
        go (some c) = good.restart_kept (append (t ∷ []) args) b o flags k w h

    by_function_kept :
        (fn : List (Term C)) (head : Term C) (args : List (Term C)) (b : B) (o : Option CString)
        (flags : Flags) (k : ℕ) (w : World S)
        → w.evaldepth ≡ suc k
        → Balanced k (by_function m calls fn head args b o flags w)
    unfolding by_function
    by_function_kept [] head args b o flags k w h =
        either k (m.isabsolute (m.getstr head)) _ _
          (run_checked_kept (m.checkexecutable (m.getstr head) w) (m.getstr head) (head ∷ args)
            flags k w h)
          (bind k (pathsearch m calls head w) _ (pathsearch_kept head (suc k) w h)
            (λ fn w1 h1. run_found_kept fn head args b o flags k w1 h1))
    by_function_kept (t ∷ fn) head args b o flags k w h =
        good.restart_kept (append (t ∷ fn) args) b _ flags k w h

    restart_step :
        (list : List (Term C)) (b : B) (o : Option CString) (flags : Flags) (k : ℕ) (w : World S)
        → w.evaldepth ≡ suc k
        → Balanced k (restart m calls list b o flags w)
    unfolding restart
    restart_step [] b o flags k w h = omega (arith, h)
    restart_step (head ∷ args) b o flags k w h = go (m.getclosure head)
      where
        go :
            (c : Option (Tree F × B))
            → Balanced k (elim c [
              | some (tree, closed) ↦ apply_closure m calls tree closed args b o flags w
              | none ↦
                  by_function m calls
                    (m.varlookup2 (codes "fn-") (m.getstr head) b w)
                    head
                    args
                    b
                    o
                    flags
                    w
            ])
        go none =
            by_function_kept (m.varlookup2 (codes "fn-") (m.getstr head) b w) head args b o flags k
              w h
        go (some (tree, closed)) = apply_closure_kept tree closed args b o flags k w h

  calls_within-Good : (n : ℕ) → GoodCalls (calls_within m n)
  unfolding calls_within
  calls_within-Good zero = record {
    walk_kept = λ t b flags k w h. tt;
    restart_kept = λ list b o flags k w h. tt;
  }
  calls_within-Good (suc n) = record {
    walk_kept = λ t b flags k w h.
        walk_step m steady (calls_within m n) (calls_within-Good n) t b flags k w h;
    restart_kept = λ list b o flags k w h.
        restart_step (calls_within m n) (calls_within-Good n) list b o flags k w h;
  }

  -- However deep the calls go, where `eval` returns a list `evaldepth` is what it was, if that holds of the functions of
  -- the shell that eval.c calls: after functions, loops, local variables and caught exceptions too.
  pub eval-Balanced :
      (n : ℕ) (list : List (Term C)) (binding : B) (flags : Flags) (w : World S)
      → Balanced w.evaldepth (eval m (calls_within m n) list binding flags w)
  eval-Balanced n list binding flags w =
      eval_kept m steady (calls_within m n) (calls_within-Good n) list binding flags w.evaldepth w
        refl
