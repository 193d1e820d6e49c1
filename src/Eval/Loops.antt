-- ===== src/Eval/Loops.antt =====
-- `evaldepth` at the end of local variables and of loops.
use es_shell_mirror.Prelude.{
  ℕ, zero, suc, ◌≡◌, Bool, true, false, List, [], ◌∷◌, CString, codes, if◌then◌else◌, map,
}
use es_shell_mirror.Syntax.Tree.{Tree, null, n_assign, n_list, Term, termeq}
use es_shell_mirror.Eval.Base.{World, Result, done, and_then, Machine, mkbinding}
use es_shell_mirror.Eval.Bind.{unless_nil}
use es_shell_mirror.Eval.Walk.{
  LoopGroup, localbind, add_dynamic, check_names, for_groups, bind_group, bind_round, advance,
  all_null, loop_exception, end_or_body, for_round, for_rounds,
}
use es_shell_mirror.Eval.Steady.{
  Balanced, bind, either, Keeps, IsSteady, mkbinding_kept, caught_kept, unless_nil_kept,
}

module _ {F C B S : Type 0} (m : Machine F C B S) (steady : IsSteady m) where
  pub add_dynamic_kept :
      (name : CString) (defn : List (Term C)) (dynamic : List (CString × List (Term C)))
      → Keeps (add_dynamic m name defn dynamic)
  add_dynamic_kept name defn dynamic k w h =
      bind k (m.validatevar name w) _ (steady.validatevar_kept name k w h) (λ u w1 h1. h1)

  pub localbind_kept :
      (dynamic : List (CString × List (Term C))) (body : World S → Result C S (List (Term C)))
      → Keeps body
      → Keeps (localbind m dynamic body)
  unfolding localbind
  localbind_kept [] body kept k w h = kept k w h
  localbind_kept ((name, defn) ∷ dynamic) body kept k w h =
      bind k (m.varpush name defn w) _ (steady.varpush_kept name defn k w h) (λ u w1 h1.
        bind k (localbind m dynamic body w1) _ (localbind_kept dynamic body kept k w1 h1)
          (λ result w2 h2. bind k (m.varpop w2) _ (steady.varpop_kept k w2 h2) (λ u' w3 h3. h3)))

  pub check_names_kept : (vars : List (Term C)) → Keeps (check_names m vars)
  unfolding check_names
  check_names_kept [] k w h = h
  check_names_kept (var ∷ vars) k w h =
      bind k (m.validatevar (m.getstr var) w) _ (steady.validatevar_kept (m.getstr var) k w h)
        (λ u w1 h1. check_names_kept vars k w1 h1)

  pub for_one_kept :
      (l r : Tree F) (outer : B) (next : World S → Result C S (List (LoopGroup C)))
      → Keeps next
      → (g : List (Term C) → List (Term C) → LoopGroup C)
      → Keeps (λ w. and_then (m.glom l outer false w) (λ vars w1.
        and_then (m.glom r outer true w1) (λ list w2. unless_nil m (codes "es:for") vars w2 (
          and_then (check_names m vars w2) (λ u w3.
            and_then
              (m.sigchk w3)
              (λ u' w4. and_then (next w4) (λ groups w5. done (g vars list ∷ groups) w5)))))))
  for_one_kept l r outer next kept g k w h =
      bind k (m.glom l outer false w) _ (steady.glom_kept l outer false k w h) (λ vars w1 h1.
        bind k (m.glom r outer true w1) _ (steady.glom_kept r outer true k w1 h1) (λ list w2 h2.
          unless_nil_kept m steady (codes "es:for") vars w2 _ k (
            bind k (check_names m vars w2) _ (check_names_kept vars k w2 h2) (λ u w3 h3.
              bind k (m.sigchk w3) _ (steady.sigchk_kept k w3 h3)
                (λ u' w4 h4. bind k (next w4) _ (kept k w4 h4) (λ groups w5 h5. h5))))))

  pub for_groups_kept : (t : Tree F) (outer : B) → Keeps (for_groups m t outer)
  unfolding for_groups
  for_groups_kept null outer k w h = h
  for_groups_kept (n_list null rest) outer k w h = for_groups_kept rest outer k w h
  for_groups_kept (n_list (n_assign l r) rest) outer k w h =
      for_one_kept l r outer (for_groups m rest outer)
        (λ k' w' h'. for_groups_kept rest outer k' w' h')
        (λ vars list. record { names = map m.getstr vars; values = list }) k w h
  for_groups_kept other outer k w h = tt

  pub bind_group_kept :
      (names : List CString) (values : List (Term C)) (b : B) → Keeps (bind_group m names values b)
  unfolding bind_group
  bind_group_kept [] values b k w h = h
  bind_group_kept (name ∷ names) values b k w h =
      bind k (mkbinding m name _ b w) _ (mkbinding_kept m steady name _ b k w h)
        (λ b' w1 h1. bind_group_kept names _ b' k w1 h1)

  pub bind_round_kept : (groups : List (LoopGroup C)) (b : B) → Keeps (bind_round m groups b)
  unfolding bind_round
  bind_round_kept [] b k w h = h
  bind_round_kept (g ∷ groups) b k w h =
      bind k (bind_group m g.names g.values b w) _ (bind_group_kept g.names g.values b k w h)
        (λ b' w1 h1. bind_round_kept groups b' k w1 h1)

  pub loop_exception_kept : (e : List (Term C)) → Keeps (loop_exception m e)
  loop_exception_kept [] k w h = tt
  loop_exception_kept (t ∷ e) k w h =
      either k (termeq t (codes "break")) _ _ h (either k (termeq t (codes "continue")) _ _ h tt)

  module _ (body : B → World S → Result C S (List (Term C))) (kept : (b : B) → Keeps (body b)) where
    pub end_or_body_kept :
        (ended : Bool) (result : List (Term C)) (b : B)
        → Keeps (end_or_body m ended result (body b))
    end_or_body_kept true result b k w h = h
    end_or_body_kept false result b k w h =
        bind k (body b w) _ (kept b k w h)
          (λ r w1 h1. bind k (m.sigchk w1) _ (steady.sigchk_kept k w1 h1) (λ u w2 h2. h2))

    pub for_round_kept :
        (groups : List (LoopGroup C)) (outer : B) (result : List (Term C))
        → Keeps (for_round m body groups outer result)
    unfolding for_round
    for_round_kept groups outer result k w h =
        caught_kept m steady k _ w (loop_exception m) h
          (bind k (bind_round m groups outer w) _ (bind_round_kept groups outer k w h)
            (λ bp w1 h1. end_or_body_kept (all_null m groups) result bp k w1 h1))
          loop_exception_kept

    pub next_round_kept :
        (goes_on : Bool) (next : World S → Result C S (List (Term C))) (result : List (Term C))
        (k : ℕ) (w : World S)
        → w.evaldepth ≡ k
        → Keeps next
        → Balanced k (if goes_on then next w else done result w)
    next_round_kept true next result k w h next_kept = next_kept k w h
    next_round_kept false next result k w h next_kept = h

    pub for_rounds_kept :
        (n : ℕ) (groups : List (LoopGroup C)) (outer : B) (result : List (Term C))
        → Keeps (for_rounds m n body groups outer result)
    unfolding for_rounds
    for_rounds_kept zero groups outer result k w h = tt
    for_rounds_kept (suc n) groups outer result k w h =
        bind k (for_round m body groups outer result w) _ (for_round_kept groups outer result k w h)
          (λ got w1 h1.
            next_round_kept got.0 (for_rounds m n body (advance m groups) outer got.1) got.1 k w1 h1
              (λ k' w' h'. for_rounds_kept n (advance m groups) outer got.1 k' w' h'))
