-- ===== src/Eval/Walk.antt =====
-- `walk` and `eval` of eval.c, and the loops and binders that `walk` enters.
use es_shell_mirror.Prelude.{
  ℕ, zero, suc, ◌+◌, Bool, true, false, ◌&&◌, List, [], ◌∷◌, ◌++◌, CString, codes, Option, none,
  if◌then◌else◌, is_nil, map, length, leb, drop,
}
use es_shell_mirror.Syntax.Tree.{
  Tree, null, n_assign, n_concat, n_closure, n_for, n_lambda, n_let, n_list, n_local, n_varsub,
  n_match, n_extract, n_call, n_var, n_arith, n_word, n_qword, n_prim, Term, mkstr, termeq,
}
use es_shell_mirror.Match.Lists.{Extracted, extracted, aborted, listmatch, extractmatches}
use es_shell_mirror.Eval.Base.{
  World, Result, done, thrown, no_fuel, Flags, and_then, Machine, fail, mkbinding, caught,
  true_list, false_list,
}
use es_shell_mirror.Eval.Bind.{let_loop, letbindings, assign, unless_nil}

-- The functions that call each other: `walk`, and `eval` from the label `restart` on.
pub record Calls (F C B S : Type 0) : Type 0 where
  pub walk : Tree F → B → Flags → World S → Result C S (List (Term C))
  pub restart : List (Term C) → B → Option CString → Flags → World S → Result C S (List (Term C))

-- The variables of one definition of a loop: the first takes from the list, and so do the others, which the
-- code marks MULTIPLE.
pub record LoopGroup (C : Type 0) : Type 0 where
  pub names : List CString
  pub values : List (Term C)

module _ {F C B S : Type 0} (m : Machine F C B S) where
  abbrev pub Listed : Type 0
  Listed = Result C S (List (Term C))

  -- A dynamic binding of `local`; the chain is a list.
  abbrev pub add_dynamic :
      CString
      → List (Term C)
      → List (CString × List (Term C))
      → World S
      → Result C S (List (CString × List (Term C)))
  add_dynamic name defn dynamic w =
      and_then (m.validatevar name w) (λ u w'. done (dynamic ++ (name, defn) ∷ []) w')

  -- `body` is what is walked.
  unfoldable pub localbind : List (CString × List (Term C)) → (World S → Listed) → World S → Listed
  localbind [] body w = body w
  localbind ((name, defn) ∷ dynamic) body w = and_then (m.varpush name defn w) (λ u w1.
      and_then (localbind dynamic body w1)
        (λ result w2. and_then (m.varpop w2) (λ u' w3. done result w3)))

  unfoldable pub local : Calls F C B S → Tree F → Tree F → B → Flags → World S → Listed
  local calls defn body bindings flags w =
      and_then (let_loop m add_dynamic defn bindings [] w)
        (λ dynamic w'. localbind dynamic (calls.walk body bindings flags) w')

  -- The names of a definition are bound outside of the list, as far as `mkbinding` goes.
  unfoldable pub check_names : List (Term C) → World S → Result C S Unit
  check_names [] w = done tt w
  check_names (var ∷ vars) w =
      and_then (m.validatevar (m.getstr var) w) (λ u w'. check_names vars w')

  unfoldable pub for_groups : Tree F → B → World S → Result C S (List (LoopGroup C))
  for_groups null outer w = done [] w
  for_groups (n_list null rest) outer w = for_groups rest outer w
  for_groups (n_list (n_assign varform valueform) rest) outer w =
      and_then (m.glom varform outer false w) (λ vars w1.
        and_then (m.glom valueform outer true w1) (λ list w2.
          unless_nil m (codes "es:for") vars w2 (
            and_then (check_names vars w2) (λ u w3. and_then (m.sigchk w3) (λ u' w4.
              and_then (for_groups rest outer w4) (λ groups w5.
                done ((record { names = map m.getstr vars; values = list }) ∷ groups) w5))))))
  for_groups other outer w = Result.aborted

  abbrev pub head_list : List (Term C) → List (Term C)
  head_list [] = []
  head_list (t ∷ list) = t ∷ []

  abbrev pub tail_list : List (Term C) → List (Term C)
  tail_list [] = []
  tail_list (t ∷ list) = list

  -- One round: each variable is bound to the next value of its list.
  unfoldable pub bind_group : List CString → List (Term C) → B → World S → Result C S B
  bind_group [] values bp w = done bp w
  bind_group (name ∷ names) values bp w =
      and_then (mkbinding m name (head_list values) bp w)
        (λ bp' w'. bind_group names (tail_list values) bp' w')

  unfoldable pub bind_round : List (LoopGroup C) → B → World S → Result C S B
  bind_round [] bp w = done bp w
  bind_round (g ∷ groups) bp w =
      and_then (bind_group g.names g.values bp w) (λ bp' w'. bind_round groups bp' w')

  -- What the round leaves of the lists.
  unfoldable pub advance : List (LoopGroup C) → List (LoopGroup C)
  advance [] = []
  advance (g ∷ groups) = (record g { values = drop (length g.names) g.values }) ∷ advance groups

  unfoldable pub all_null : List (LoopGroup C) → Bool
  all_null [] = true
  all_null (g ∷ groups) = is_nil g.values && all_null groups

  unfoldable pub total_values : List (LoopGroup C) → ℕ
  total_values [] = 0
  total_values (g ∷ groups) = length g.values + total_values groups

  -- Whether the loop goes on, and its result, after an exception.
  abbrev pub loop_exception : List (Term C) → World S → Result C S (Bool × List (Term C))
  loop_exception [] w = thrown [] w
  loop_exception (t ∷ e) w =
      if termeq t (codes "break")
      then done (false, e) w
      else if termeq t (codes "continue")
      then done (true, e) w
      else thrown (t ∷ e) w

  abbrev pub only_throwonfalse : Flags → Flags
  only_throwonfalse flags = record flags { eval_inchild = false }

  abbrev pub end_or_body :
      Bool → List (Term C) → (World S → Listed) → World S → Result C S (Bool × List (Term C))
  end_or_body true result body w = done (false, result) w
  end_or_body false result body w =
      and_then (body w) (λ r w1. and_then (m.sigchk w1) (λ u w2. done (true, r) w2))

  -- The body of the handler, in a round with the result so far.
  unfoldable pub for_round :
      (B → World S → Listed)
      → List (LoopGroup C)
      → B
      → List (Term C)
      → World S
      → Result C S (Bool × List (Term C))
  for_round body groups outer result w =
      caught m
        (and_then (bind_round groups outer w)
          (λ bp w1. end_or_body (all_null groups) result (body bp) w1))
        w loop_exception

  -- Each round takes a value, so their number is fuel enough.
  unfoldable pub for_rounds :
      ℕ → (B → World S → Listed) → List (LoopGroup C) → B → List (Term C) → World S → Listed
  for_rounds zero body groups outer result w = no_fuel
  for_rounds (suc n) body groups outer result w =
      and_then (for_round body groups outer result w) (λ got w'.
        if got.0 then for_rounds n body (advance groups) outer got.1 w' else done got.1 w')

  unfoldable pub forloop : Calls F C B S → Tree F → Tree F → B → Flags → World S → Listed
  forloop calls defn body outer flags w = and_then (for_groups defn outer w) (λ groups w'.
      for_rounds (suc (total_values groups))
        (λ bp w1. calls.walk body bp (only_throwonfalse flags) w1) groups outer true_list w')

  unfoldable pub matchpattern : Tree F → Tree F → B → World S → Listed
  matchpattern subjectform patternform bp w = and_then (m.glom subjectform bp true w) (λ subject w1.
      and_then (m.glom2 patternform bp w1) (λ got w2.
        done
          (if listmatch (map m.getstr subject) (map m.getstr got.0) got.1
            then true_list
            else false_list)
          w2))

  abbrev pub extracted_list : Extracted → World S → Listed
  extracted_list (extracted l) w = done (map mkstr l) w
  extracted_list aborted w = Result.aborted

  unfoldable pub extractpattern : Tree F → Tree F → B → World S → Listed
  extractpattern subjectform patternform bp w =
      and_then (m.glom subjectform bp true w) (λ subject w1.
        and_then (m.glom2 patternform bp w1) (λ got w2.
          extracted_list (extractmatches (map m.getstr subject) (map m.getstr got.0) got.1) w2))

  -- `eval`: one more call; the list is evaluated from the label `restart` on.
  unfoldable pub eval : Calls F C B S → List (Term C) → B → Flags → World S → Listed
  eval calls list binding flags w =
      let deeper = record w { evaldepth = w.evaldepth + 1 } in
      if leb m.maxevaldepth (w.evaldepth + 1)
      then fail (codes "es:eval") (codes "max-eval-depth exceeded") deeper
      else calls.restart list binding none flags deeper

  unfoldable pub eval_words : Calls F C B S → Tree F → B → Flags → World S → Listed
  eval_words calls tree binding flags w =
      and_then (m.glom tree binding true w) (λ list w'. eval calls list binding flags w')

  -- From the label `top` on.
  unfoldable pub walk_top : Calls F C B S → Tree F → B → Flags → World S → Listed
  walk_top calls null binding flags w = done true_list w
  walk_top calls (n_assign l r) binding flags w = assign m l r binding w
  walk_top calls (n_let defn body) binding flags w =
      and_then (letbindings m defn binding binding w)
        (λ binding' w'. walk_top calls body binding' flags w')
  walk_top calls (n_closure defn body) binding flags w =
      and_then (letbindings m defn binding binding w)
        (λ binding' w'. walk_top calls body binding' flags w')
  walk_top calls (n_local defn body) binding flags w = local calls defn body binding flags w
  walk_top calls (n_for defn body) binding flags w = forloop calls defn body binding flags w
  walk_top calls (n_match l r) binding flags w = matchpattern l r binding w
  walk_top calls (n_extract l r) binding flags w = extractpattern l r binding w
  walk_top calls (n_concat l r) binding flags w = eval_words calls (n_concat l r) binding flags w
  walk_top calls (n_list l r) binding flags w = eval_words calls (n_list l r) binding flags w
  walk_top calls (n_qword s) binding flags w = eval_words calls (n_qword s) binding flags w
  walk_top calls (n_var t) binding flags w = eval_words calls (n_var t) binding flags w
  walk_top calls (n_varsub l r) binding flags w = eval_words calls (n_varsub l r) binding flags w
  walk_top calls (n_word s) binding flags w = eval_words calls (n_word s) binding flags w
  walk_top calls (n_lambda l r) binding flags w = eval_words calls (n_lambda l r) binding flags w
  walk_top calls (n_call t) binding flags w = eval_words calls (n_call t) binding flags w
  walk_top calls (n_prim s) binding flags w = eval_words calls (n_prim s) binding flags w
  walk_top calls (n_arith t) binding flags w = eval_words calls (n_arith t) binding flags w
  walk_top calls other binding flags w = Result.aborted

  unfoldable pub walk : Calls F C B S → Tree F → B → Flags → World S → Listed
  walk calls tree binding flags w =
      and_then (m.sigchk w) (λ u w'. walk_top calls tree binding flags w')
