-- ===== src/Eval/Rounds.antt =====
-- A for loop ends.
use es_shell_mirror.Prelude.{
  ℕ, zero, suc, ◌≤◌, ◌<◌, ◌≡◌, refl, Bool, true, false, ◌||◌, ◌⊎◌, List, [], ◌∷◌, CString, codes,
  if◌then◌else◌, is_nil, length, drop, arith, Bool-cases, inl, inr,
}
use es_shell_mirror.Syntax.Tree.{Term, termeq}
use es_shell_mirror.Eval.Base.{
  World, Result, done, thrown, aborted, no_fuel, and_then, Machine, mkbinding, caught,
}
use es_shell_mirror.Eval.Walk.{
  LoopGroup, bind_group, bind_round, advance, all_null, total_values, loop_exception, end_or_body,
  for_round, for_rounds,
}

module _ {C S : Type 0} where
  -- The fuel was enough.
  abbrev pub Ends : {A : Type 0} → Result C S A → Type 0
  Ends (done a w) = Unit
  Ends (thrown e w) = Unit
  Ends aborted = Unit
  Ends no_fuel = ⊥

module _ {F C B S : Type 0} (m : Machine F C B S) where
  -- Every group has a variable, as `forloop` sees to.
  abbrev pub AllNamed : List (LoopGroup C) → Type 0
  AllNamed [] = Unit
  AllNamed (g ∷ groups) = (1 ≤ length g.names) × AllNamed groups

  drop-le : (n : ℕ) (l : List (Term C)) → length (drop n l) ≤ length l
  drop-le zero l = omega arith
  drop-le (suc n) [] = omega arith
  drop-le (suc n) (t ∷ l) = omega (arith, drop-le n l)

  drop-less : (n : ℕ) (l : List (Term C)) → 1 ≤ n → is_nil l ≡ false → length (drop n l) < length l
  drop-less zero l h e = absurd (omega arith)
  drop-less (suc n) [] h e = cc
  drop-less (suc n) (t ∷ l) h e = omega (arith, drop-le n l)

  advance-le :
      (groups : List (LoopGroup C)) → total_values m (advance m groups) ≤ total_values m groups
  unfolding advance total_values
  advance-le [] = omega arith
  advance-le (g ∷ groups) = omega (arith, advance-le groups, drop-le (length g.names) g.values)

  -- A round that finds a value leaves fewer.
  advance-less :
      (groups : List (LoopGroup C))
      → AllNamed groups
      → all_null m groups ≡ false
      → total_values m (advance m groups) < total_values m groups
  unfolding advance total_values all_null
  advance-less [] named h = cc
  advance-less (g ∷ groups) (one, named) h = elim (Bool-cases (is_nil g.values)) [
    | inl e ↦
        omega (
          arith,
          advance-less groups named (ground (arith, h, e)),
          drop-le (length g.names) g.values,
        )
    | inr e ↦ omega (arith, advance-le groups, drop-less (length g.names) g.values one e)
  ]

  advance-Named : (groups : List (LoopGroup C)) → AllNamed groups → AllNamed (advance m groups)
  unfolding advance
  advance-Named [] named = tt
  advance-Named (g ∷ groups) (one, named) = (one, advance-Named groups named)

  -- An exception that a loop takes for itself.
  abbrev pub is_loop_word : List (Term C) → Bool
  is_loop_word [] = false
  is_loop_word (t ∷ e) = termeq t (codes "break") || termeq t (codes "continue")

  -- Ends, and does not throw such an exception.
  abbrev pub Quiet : {A : Type 0} → Result C S A → Type 0
  Quiet (done a w) = Unit
  Quiet (thrown e w) = is_loop_word e ≡ false
  Quiet aborted = Unit
  Quiet no_fuel = ⊥

  bind-Quiet :
      {A D : Type 0} (r : Result C S A) (f : A → World S → Result C S D)
      → Quiet r
      → ((a : A) (w : World S) → Quiet (f a w))
      → Quiet (and_then r f)
  bind-Quiet (done a w) f h next = next a w
  bind-Quiet (thrown e w) f h next = h
  bind-Quiet aborted f h next = tt
  bind-Quiet no_fuel f h next = h

  -- A round goes on only where it found a value.
  abbrev Round : Bool → Result C S (Bool × List (Term C)) → Type 0
  Round ended (done (true, r) w) = ended ≡ false
  Round ended (done (false, r) w) = Unit
  Round ended (thrown e w) = Unit
  Round ended aborted = Unit
  Round ended no_fuel = ⊥

  -- The same before its exceptions are caught.
  abbrev RoundBody : Bool → Result C S (Bool × List (Term C)) → Type 0
  RoundBody ended (done (true, r) w) = ended ≡ false
  RoundBody ended (done (false, r) w) = Unit
  RoundBody ended (thrown e w) = (ended ≡ false) ⊎ (is_loop_word e ≡ false)
  RoundBody ended aborted = Unit
  RoundBody ended no_fuel = ⊥

-- What the loop needs of the shell: names are bound without an exception for loops, and the functions come to an end.
pub record IsEnding {F C B S : Type 0} (m : Machine F C B S)
    (body : B → World S → Result C S (List (Term C))) : Type 0 where
  pub validatevar_quiet : (name : CString) (w : World S) → Quiet m (m.validatevar name w)
  pub newbinding_quiet :
      (name : CString) (defn : List (Term C)) (b : B) (w : World S)
      → Quiet m (m.newbinding name defn b w)
  pub unwind_ends : (n : ℕ) (w : World S) → Ends (m.unwind n w)
  pub sigchk_ends : (w : World S) → Ends (m.sigchk w)
  pub body_ends : (b : B) (w : World S) → Ends (body b w)

module _ {F C B S : Type 0} (m : Machine F C B S) (body : B → World S → Result C S (List (Term C)))
    (ending : IsEnding m body) where
  bind_group-Quiet :
      (names : List CString) (values : List (Term C)) (b : B) (w : World S)
      → Quiet m (bind_group m names values b w)
  unfolding bind_group mkbinding
  bind_group-Quiet [] values b w = tt
  bind_group-Quiet (name ∷ names) values b w =
      bind-Quiet m _ _
        (bind-Quiet m (m.validatevar name w) _ (ending.validatevar_quiet name w)
          (λ u w1. ending.newbinding_quiet name _ b w1))
        (λ b' w1. bind_group-Quiet names _ b' w1)

  bind_round-Quiet :
      (groups : List (LoopGroup C)) (b : B) (w : World S) → Quiet m (bind_round m groups b w)
  unfolding bind_round
  bind_round-Quiet [] b w = tt
  bind_round-Quiet (g ∷ groups) b w =
      bind-Quiet m (bind_group m g.names g.values b w) _ (bind_group-Quiet g.names g.values b w)
        (λ b' w1. bind_round-Quiet groups b' w1)

  loop_exception-Round :
      (ended : Bool) (e : List (Term C)) (w : World S)
      → (ended ≡ false) ⊎ (is_loop_word m e ≡ false)
      → Round m ended (loop_exception m e w)
  loop_exception-Round ended [] w h = tt
  loop_exception-Round ended (t ∷ e) w h =
      choose (termeq t (codes "break")) (termeq t (codes "continue")) h
    where
      choose :
          (b c : Bool)
          → (ended ≡ false) ⊎ ((b || c) ≡ false)
          → Round m ended
              (if b then done (false, e) w else if c then done (true, e) w else thrown (t ∷ e) w)
      choose true c h' = tt
      choose false true (inl h') = h'
      choose false true (inr h') = cc
      choose false false h' = tt

  caught-Round :
      (ended : Bool) (r : Result C S (Bool × List (Term C))) (w : World S)
      → RoundBody m ended r
      → Round m ended (caught m r w (loop_exception m))
  caught-Round ended (done (true, r) w') w h = h
  caught-Round ended (done (false, r) w') w h = tt
  caught-Round ended aborted w h = tt
  caught-Round ended no_fuel w h = h
  caught-Round ended (thrown e w') w h =
      go (m.unwind (m.pushes w) w') (ending.unwind_ends (m.pushes w) w')
    where
      go :
          (r : Result C S Unit)
          → Ends r
          → Round m ended
              (and_then r (λ u w''. loop_exception m e (record w'' { evaldepth = w.evaldepth })))
      go (done u w'') ends = loop_exception-Round ended e (record w'' { evaldepth = w.evaldepth }) h
      go (thrown e' w'') ends = tt
      go aborted ends = tt
      go no_fuel ends = ends

  body-Round :
      (r : Result C S (List (Term C)))
      → Ends r
      → RoundBody m false
          (and_then r (λ r' w1. and_then (m.sigchk w1) (λ u w2. done (true, r') w2)))
  body-Round (thrown e w) h = inl refl
  body-Round aborted h = tt
  body-Round no_fuel h = h
  body-Round (done r w) h = go (m.sigchk w) (ending.sigchk_ends w)
    where
      go :
          (s : Result C S Unit)
          → Ends s
          → RoundBody m false (and_then s (λ u w2. done (true, r) w2))
      go (done u w2) ends = refl
      go (thrown e w2) ends = inl refl
      go aborted ends = tt
      go no_fuel ends = ends

  end_or_body-Round :
      (ended : Bool) (result : List (Term C)) (bp : B) (w : World S)
      → RoundBody m ended (end_or_body m ended result (body bp) w)
  end_or_body-Round true result bp w = tt
  end_or_body-Round false result bp w = body-Round (body bp w) (ending.body_ends bp w)

  for_round-Round :
      (groups : List (LoopGroup C)) (outer : B) (result : List (Term C)) (w : World S)
      → Round m (all_null m groups) (for_round m body groups outer result w)
  unfolding for_round
  for_round-Round groups outer result w =
      caught-Round (all_null m groups) _ w
        (go (bind_round m groups outer w) (bind_round-Quiet groups outer w))
    where
      go :
          (r : Result C S B)
          → Quiet m r
          → RoundBody m
              (all_null m groups)
              (and_then r (λ bp w1. end_or_body m (all_null m groups) result (body bp) w1))
      go (done bp w1) h = end_or_body-Round (all_null m groups) result bp w1
      go (thrown e w1) h = inr h
      go aborted h = tt
      go no_fuel h = h

  -- A for loop comes to an end within as many rounds as there are values in its lists, and one more,
  -- whatever its body returns and throws, if each of its lists has a variable, the body comes to an
  -- end, and so do the functions that the loop calls, and the names are bound without an exception
  -- for loops.
  pub for_rounds-Ends :
      (n : ℕ) (groups : List (LoopGroup C)) (outer : B) (result : List (Term C)) (w : World S)
      → AllNamed m groups
      → total_values m groups < n
      → Ends (for_rounds m n body groups outer result w)
  unfolding for_rounds
  for_rounds-Ends zero groups outer result w named enough = absurd (omega arith)
  for_rounds-Ends (suc n) groups outer result w named enough =
      go
        (λ more r w'.
          for_rounds-Ends n (advance m groups) outer r w' (advance-Named m groups named)
            (omega (arith, advance-less m groups named more, enough)))
        (for_round m body groups outer result w) (for_round-Round groups outer result w)
    where
      go :
          (all_null m groups ≡ false
            → (r : List (Term C)) (w' : World S)
            → Ends (for_rounds m n body (advance m groups) outer r w'))
          → (r : Result C S (Bool × List (Term C))) → Round m (all_null m groups) r
          → Ends (
              and_then r (λ got w'.
                if got.0
                then for_rounds m n body (advance m groups) outer got.1 w'
                else done got.1 w'))
      go rest (done (true, r) w') h = rest h r w'
      go rest (done (false, r) w') h = tt
      go rest (thrown e w') h = tt
      go rest aborted h = tt
      go rest no_fuel h = h
