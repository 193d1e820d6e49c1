-- ===== src/Eval/Walks.antt =====
-- `evaldepth` at the end of `walk`.
use es_shell_mirror.Prelude.{suc, ◌+◌, true, false, List, [], none, arith, leb}
use es_shell_mirror.Syntax.Tree.{
  Tree, null, n_assign, n_concat, n_closure, n_for, n_lambda, n_let, n_list, n_local, n_varsub,
  n_match, n_extract, n_call, n_var, n_arith, n_word, n_qword, n_prim, Term,
}
use es_shell_mirror.Match.Lists.{Extracted, extracted}
use es_shell_mirror.Eval.Base.{Flags, Machine, mkbinding, true_list}
use es_shell_mirror.Eval.Bind.{let_loop, letbindings}
use es_shell_mirror.Eval.Walk.{
  Calls, local, add_dynamic, for_groups, total_values, forloop, matchpattern, extractpattern,
  extracted_list, eval, eval_words, walk_top, walk,
}
use es_shell_mirror.Eval.Steady.{
  bind, either, Keeps, IsSteady, GoodCalls, mkbinding_kept, assign_kept, let_loop_kept,
}
use es_shell_mirror.Eval.Loops.{add_dynamic_kept, localbind_kept, for_groups_kept, for_rounds_kept}

module _ {F C B S : Type 0} (m : Machine F C B S) (steady : IsSteady m) where
  module _ (calls : Calls F C B S) (good : GoodCalls calls) where
    pub local_kept :
        (defn body : Tree F) (b : B) (flags : Flags) → Keeps (local m calls defn body b flags)
    unfolding local
    local_kept defn body b flags k w h =
        bind k (let_loop m (add_dynamic m) defn b [] w) _
          (let_loop_kept m steady (add_dynamic m) (add_dynamic_kept m steady) defn b [] k w h)
          (λ dynamic w1 h1.
            localbind_kept m steady dynamic (calls.walk body b flags) (good.walk_kept body b flags)
              k w1 h1)

    pub forloop_kept :
        (defn body : Tree F) (b : B) (flags : Flags) → Keeps (forloop m calls defn body b flags)
    unfolding forloop
    forloop_kept defn body b flags k w h =
        bind k (for_groups m defn b w) _ (for_groups_kept m steady defn b k w h) (λ groups w1 h1.
          for_rounds_kept m steady
            (λ bp w'. calls.walk body bp (record flags { eval_inchild = false }) w')
            (λ bp. good.walk_kept body bp (record flags { eval_inchild = false }))
            (suc (total_values m groups)) groups b true_list k w1 h1)

    pub matchpattern_kept : (l r : Tree F) (b : B) → Keeps (matchpattern m l r b)
    unfolding matchpattern
    matchpattern_kept l r b k w h =
        bind k (m.glom l b true w) _ (steady.glom_kept l b true k w h) (λ subject w1 h1.
          bind k (m.glom2 r b w1) _ (steady.glom2_kept r b k w1 h1) (λ got w2 h2. h2))

    pub extracted_kept : (o : Extracted) → Keeps (extracted_list m o)
    extracted_kept (extracted l) k w h = h
    extracted_kept Extracted.aborted k w h = tt

    pub extractpattern_kept : (l r : Tree F) (b : B) → Keeps (extractpattern m l r b)
    unfolding extractpattern
    extractpattern_kept l r b k w h =
        bind k (m.glom l b true w) _ (steady.glom_kept l b true k w h) (λ subject w1 h1.
          bind k (m.glom2 r b w1) _ (steady.glom2_kept r b k w1 h1)
            (λ got w2 h2. extracted_kept _ k w2 h2))

    pub eval_kept :
        (list : List (Term C)) (b : B) (flags : Flags) → Keeps (eval m calls list b flags)
    unfolding eval
    eval_kept list b flags k w h = either k (leb m.maxevaldepth (w.evaldepth + 1)) _ _ tt (
        good.restart_kept list b none flags k (record w { evaldepth = w.evaldepth + 1 })
          (omega (arith, h)))

    pub eval_words_kept :
        (t : Tree F) (b : B) (flags : Flags) → Keeps (eval_words m calls t b flags)
    unfolding eval_words
    eval_words_kept t b flags k w h =
        bind k (m.glom t b true w) _ (steady.glom_kept t b true k w h)
          (λ list w1 h1. eval_kept list b flags k w1 h1)

    pub walk_top_kept : (t : Tree F) (b : B) (flags : Flags) → Keeps (walk_top m calls t b flags)
    unfolding walk_top letbindings
    walk_top_kept null b flags k w h = h
    walk_top_kept (n_assign l r) b flags k w h = assign_kept m steady l r b k w h
    walk_top_kept (n_let defn body) b flags k w h =
        bind k (let_loop m (mkbinding m) defn b b w) _
          (let_loop_kept m steady (mkbinding m) (mkbinding_kept m steady) defn b b k w h)
          (λ b' w1 h1. walk_top_kept body b' flags k w1 h1)
    walk_top_kept (n_closure defn body) b flags k w h =
        bind k (let_loop m (mkbinding m) defn b b w) _
          (let_loop_kept m steady (mkbinding m) (mkbinding_kept m steady) defn b b k w h)
          (λ b' w1 h1. walk_top_kept body b' flags k w1 h1)
    walk_top_kept (n_local defn body) b flags k w h = local_kept defn body b flags k w h
    walk_top_kept (n_for defn body) b flags k w h = forloop_kept defn body b flags k w h
    walk_top_kept (n_match l r) b flags k w h = matchpattern_kept l r b k w h
    walk_top_kept (n_extract l r) b flags k w h = extractpattern_kept l r b k w h
    walk_top_kept (n_concat l r) b flags k w h = eval_words_kept (n_concat l r) b flags k w h
    walk_top_kept (n_list l r) b flags k w h = eval_words_kept (n_list l r) b flags k w h
    walk_top_kept (n_qword s) b flags k w h = eval_words_kept (n_qword s) b flags k w h
    walk_top_kept (n_var t) b flags k w h = eval_words_kept (n_var t) b flags k w h
    walk_top_kept (n_varsub l r) b flags k w h = eval_words_kept (n_varsub l r) b flags k w h
    walk_top_kept (n_word s) b flags k w h = eval_words_kept (n_word s) b flags k w h
    walk_top_kept (n_lambda l r) b flags k w h = eval_words_kept (n_lambda l r) b flags k w h
    walk_top_kept (n_call t) b flags k w h = eval_words_kept (n_call t) b flags k w h
    walk_top_kept (n_prim s) b flags k w h = eval_words_kept (n_prim s) b flags k w h
    walk_top_kept (n_arith t) b flags k w h = eval_words_kept (n_arith t) b flags k w h
    walk_top_kept other b flags k w h = tt

    pub walk_step : (t : Tree F) (b : B) (flags : Flags) → Keeps (walk m calls t b flags)
    unfolding walk
    walk_step t b flags k w h =
        bind k (m.sigchk w) _ (steady.sigchk_kept k w h)
          (λ u w1 h1. walk_top_kept t b flags k w1 h1)
