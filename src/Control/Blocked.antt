-- ===== src/Control/Blocked.antt =====
-- `catch` leaves signals blocked as often as they were, however it ends.
use es_shell_mirror.Prelude.{
  ℕ, zero, suc, ◌≡◌, refl, ap, subst, ◌∙◌, Bool, true, false, List, [], ◌∷◌, CString, codes, Option,
  none, some, if◌then◌else◌,
}
use es_shell_mirror.Syntax.Tree.{Term}
use es_shell_mirror.Eval.Base.{
  World, Result, done, thrown, aborted, no_fuel, Flags, and_then, Machine, caught,
}
use es_shell_mirror.Eval.Walk.{Calls, eval}
use es_shell_mirror.Control.{
  prim_catch, catch_loop, run_catcher, from_catcher, next_round, is_retry,
}

module _ {C S : Type 0} (blocked : World S → ℕ) where
  -- Where a function returns or throws, signals are blocked `n` times.
  abbrev pub Blocks : {A : Type 0} → ℕ → Result C S A → Type 0
  Blocks n (done a w) = blocked w ≡ n
  Blocks n (thrown e w) = blocked w ≡ n
  Blocks n aborted = Unit
  Blocks n no_fuel = Unit

  -- It returns with `n`, or throws with `k`.
  abbrev pub BlocksBoth : {A : Type 0} → ℕ → ℕ → Result C S A → Type 0
  BlocksBoth k n (done a w) = blocked w ≡ n
  BlocksBoth k n (thrown e w) = blocked w ≡ k
  BlocksBoth k n aborted = Unit
  BlocksBoth k n no_fuel = Unit

  -- It does not throw.
  abbrev pub BlocksQuietly : {A : Type 0} → ℕ → Result C S A → Type 0
  BlocksQuietly n (done a w) = blocked w ≡ n
  BlocksQuietly n (thrown e w) = ⊥
  BlocksQuietly n aborted = Unit
  BlocksQuietly n no_fuel = Unit

  and_then-Blocks :
      {A D : Type 0} (n : ℕ) (r : Result C S A) (f : A → World S → Result C S D)
      → Blocks n r
      → ((a : A) (w : World S) → blocked w ≡ n → Blocks n (f a w))
      → Blocks n (and_then r f)
  and_then-Blocks n (done a w) f h next = next a w h
  and_then-Blocks n (thrown e w) f h next = h
  and_then-Blocks n aborted f h next = tt
  and_then-Blocks n no_fuel f h next = tt

-- What the rest of the shell does with the count.
pub record IsKept {F C B S : Type 0} (m : Machine F C B S) (calls : Calls F C B S)
    (blocksignals unblocksignals : World S → Result C S Unit) (blocked : World S → ℕ) : Type 0 where
  pub depth_apart : (depth : ℕ) (w : World S) → blocked (record w { evaldepth = depth }) ≡ blocked w
  pub eval_kept :
      (list : List (Term C)) (b : B) (flags : Flags) (w : World S)
      → Blocks blocked (blocked w) (eval m calls list b flags w)
  pub prim_kept :
      (name : CString) (list : List (Term C)) (b : B) (flags : Flags) (w : World S)
      → Blocks blocked (blocked w) (m.prim name list b flags w)
  pub unwind_kept : (n : ℕ) (w : World S) → BlocksQuietly blocked (blocked w) (m.unwind n w)
  pub blocks :
      (w : World S)
      → (w' : World S) × (blocksignals w ≡ done tt w') × (blocked w' ≡ suc (blocked w))
  pub unblocks :
      (w : World S) (n : ℕ)
      → blocked w ≡ suc n
      → (w' : World S) × (unblocksignals w ≡ done tt w') × (blocked w' ≡ n)

module _ {F C B S : Type 0} (m : Machine F C B S) (calls : Calls F C B S)
    (blocksignals unblocksignals : World S → Result C S Unit) (blocked : World S → ℕ)
    (kept : IsKept m calls blocksignals unblocksignals blocked) where
  -- After a handler, if the body and what the catcher does after the unwinding are right.
  caught-Blocks :
      {A : Type 0} (k n : ℕ) (r : Result C S A) (w : World S)
      (catcher : List (Term C) → World S → Result C S A)
      → BlocksBoth blocked k n r
      → ((e : List (Term C)) (w' : World S) → blocked w' ≡ k → Blocks blocked n (catcher e w'))
      → Blocks blocked n (caught m r w catcher)
  caught-Blocks k n (done a w') w catcher h next = h
  caught-Blocks k n aborted w catcher h next = tt
  caught-Blocks k n no_fuel w catcher h next = tt
  caught-Blocks k n (thrown e w') w catcher h next = unwound (m.unwind (m.pushes w) w') (
      subst (λ j. BlocksQuietly blocked j (m.unwind (m.pushes w) w')) h
        (kept.unwind_kept (m.pushes w) w'))
    where
      unwound :
          (r : Result C S Unit)
          → BlocksQuietly blocked k r
          → Blocks blocked n
              (and_then r (λ u w''. catcher e (record w'' { evaldepth = w.evaldepth })))
      unwound (done u w'') h' =
          next e (record w'' { evaldepth = w.evaldepth }) (kept.depth_apart w.evaldepth w'' ∙ h')
      unwound (thrown e w'') h' = absurd h'
      unwound aborted h' = tt
      unwound no_fuel h' = tt

  both-Blocks :
      {A : Type 0} (n : ℕ) (r : Result C S A) → Blocks blocked n r → BlocksBoth blocked n n r
  both-Blocks n (done a w) h = h
  both-Blocks n (thrown e w) h = h
  both-Blocks n aborted h = tt
  both-Blocks n no_fuel h = tt

  from_catcher-Blocks :
      (n : ℕ) (e : List (Term C)) (w : World S)
      → blocked w ≡ suc n
      → Blocks blocked n (from_catcher m calls blocksignals unblocksignals e w)
  from_catcher-Blocks n e w h =
      let (w', run, left) = kept.unblocks w n h in
      rw run (whether (is_retry m calls blocksignals unblocksignals e) w' left)
    where
      whether :
          (b : Bool) (w' : World S)
          → blocked w' ≡ n
          → Blocks blocked {A = Option (List (Term C))} n (if b then done none w' else thrown e w')
      whether true w' left = left
      whether false w' left = left

  -- The catcher's own result: unblocked if it returns, still blocked if it throws.
  returned-Both :
      (n : ℕ) (r : Result C S (List (Term C)))
      → Blocks blocked (suc n) r
      → BlocksBoth blocked
          (suc n)
          n
          (and_then r (λ list w''. and_then (unblocksignals w'') (λ u w3. done (some list) w3)))
  returned-Both n (done list w) h = let (w', run, left) = kept.unblocks w n h in rw run left
  returned-Both n (thrown e w) h = h
  returned-Both n aborted h = tt
  returned-Both n no_fuel h = tt

  run_catcher-Blocks :
      (n : ℕ) (catcher : Term C) (flags : Flags) (e : List (Term C)) (w : World S)
      → blocked w ≡ n
      → Blocks blocked n (run_catcher m calls blocksignals unblocksignals catcher flags e w)
  run_catcher-Blocks n catcher flags e w h =
      let (w', run, more) = kept.blocks w in
      let at_prim = m.prim (codes "noreturn") (catcher ∷ e) m.no_bindings flags w' in
      let kept_by_prim : Blocks blocked (suc n) at_prim =
        subst (λ j. Blocks blocked j at_prim) (more ∙ ap suc h)
          (kept.prim_kept (codes "noreturn") (catcher ∷ e) m.no_bindings flags w') in
      rw run (
        caught-Blocks (suc n) n _ w' (from_catcher m calls blocksignals unblocksignals)
          (returned-Both n at_prim kept_by_prim) (from_catcher-Blocks n))

  next_round-Blocks :
      (n : ℕ) (r : Option (List (Term C))) (w : World S)
      (again : World S → Result C S (List (Term C)))
      → blocked w ≡ n
      → Blocks blocked n (again w)
      → Blocks blocked n (next_round m calls blocksignals unblocksignals r w again)
  next_round-Blocks n none w again h h' = h'
  next_round-Blocks n (some list) w again h h' = h

  catch_loop-Blocks :
      (rounds n : ℕ) (catcher : Term C) (body : List (Term C)) (flags : Flags) (w : World S)
      → blocked w ≡ n
      → Blocks blocked n
          (catch_loop m calls blocksignals unblocksignals rounds catcher body flags w)
  unfolding catch_loop
  catch_loop-Blocks zero n catcher body flags w h = tt
  catch_loop-Blocks (suc rounds) n catcher body flags w h =
      let evaluated = eval m calls body m.no_bindings flags w in
      let kept_by_body : Blocks blocked n evaluated =
        subst (λ j. Blocks blocked j evaluated) h (kept.eval_kept body m.no_bindings flags w) in
      let with_some =
        and_then-Blocks blocked n evaluated (λ list w. done (some list) w) kept_by_body
          (λ list w' h'. h') in
      and_then-Blocks blocked n _ _
        (caught-Blocks n n _ w (run_catcher m calls blocksignals unblocksignals catcher flags)
          (both-Blocks n _ with_some) (λ e w'. run_catcher-Blocks n catcher flags e w'))
        (λ r w' h'.
          next_round-Blocks n r w'
            (catch_loop m calls blocksignals unblocksignals rounds catcher body flags) h'
            (catch_loop-Blocks rounds n catcher body flags w' h'))

  -- `catch` leaves signals blocked as often as they were, whether it returns or throws, and whatever the catcher does: if the
  -- evaluation, the primitives and the unwinding of variables leave them so, the unwinding does not throw, and
  -- `blocksignals` and `unblocksignals` count up and down.
  pub prim_catch-Blocks :
      (rounds : ℕ) (list : List (Term C)) (flags : Flags) (w : World S)
      → Blocks blocked
          (blocked w)
          (prim_catch m calls blocksignals unblocksignals rounds list flags w)
  unfolding prim_catch
  prim_catch-Blocks rounds [] flags w = refl
  prim_catch-Blocks rounds (catcher ∷ body) flags w =
      catch_loop-Blocks rounds (blocked w) catcher body flags w refl
