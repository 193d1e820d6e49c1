-- ===== src/Control.antt =====
-- The primitives of control flow (prim-ctl.c), over the evaluation of Eval.
mod Tests
mod Blocked
use es_shell_mirror.Prelude.{
  ℕ, zero, suc, Bool, true, false, ◌&&◌, List, [], ◌∷◌, CString, codes, Option, none, some,
  if◌then◌else◌, is_nil,
}
use es_shell_mirror.Syntax.Tree.{Term, mkstr, termeq}
use es_shell_mirror.Status.{istrue}
use es_shell_mirror.Eval.Walk.{Calls, eval}
use es_shell_mirror.Eval.Base.{
  World, Result, done, thrown, aborted, no_fuel, Flags, and_then, Machine, fail, caught, true_list,
}

-- `blocksignals` and `unblocksignals` are those of signal.c, on the state of the shell.
module _ {F C B S : Type 0} (m : Machine F C B S) (calls : Calls F C B S)
    (blocksignals unblocksignals : World S → Result C S Unit) where
  abbrev pub Listed : Type 0
  Listed = Result C S (List (Term C))

  abbrev pub eval1 : Term C → Flags → World S → Listed
  eval1 term flags w = eval m calls (term ∷ []) m.no_bindings flags w

  -- Only the last command may take the place of the shell.
  abbrev pub in_child_if : Bool → Flags → Flags
  in_child_if last flags = record flags { eval_inchild = flags.eval_inchild && last }

  unfoldable pub seq_loop : List (Term C) → List (Term C) → Flags → World S → Listed
  seq_loop result [] flags w = done result w
  seq_loop result (t ∷ list) flags w =
      and_then (eval1 t (in_child_if (is_nil list) flags) w)
        (λ result w'. seq_loop result list flags w')

  abbrev pub prim_seq : List (Term C) → Flags → World S → Listed
  prim_seq list flags w = seq_loop true_list list flags w

  -- `evalflags & eval_inchild`, or no flag.
  abbrev pub condition_flags : Bool → Flags → Flags
  condition_flags last flags = record {
    eval_inchild = flags.eval_inchild && last;
    eval_throwonfalse = false;
  }

  unfoldable pub prim_if : List (Term C) → Flags → World S → Listed
  prim_if [] flags w = done true_list w
  prim_if (t ∷ []) flags w = eval1 t (condition_flags true flags) w
  prim_if (t ∷ body ∷ list) flags w =
      and_then (eval1 t (condition_flags false flags) w)
        (λ cond w'. if istrue cond then eval1 body flags w' else prim_if list flags w')

  -- On fuel for the rounds, which only an exception ends.
  unfoldable pub prim_forever : ℕ → List (Term C) → Flags → World S → Listed
  prim_forever zero body flags w = no_fuel
  prim_forever (suc n) body flags w =
      and_then (eval m calls body m.no_bindings (record flags { eval_inchild = false }) w)
        (λ list w'. prim_forever n body flags w')

  unfoldable pub prim_throw : List (Term C) → Flags → World S → Listed
  prim_throw [] flags w = fail (codes "$&throw") (codes "usage: throw exception [args ...]") w
  prim_throw (e ∷ list) flags w = thrown (e ∷ list) w

  abbrev pub is_retry : List (Term C) → Bool
  is_retry [] = false
  is_retry (t ∷ list) = termeq t (codes "retry")

  -- The list that is left, or none for another round.
  abbrev pub Round : Type 0
  Round = Result C S (Option (List (Term C)))

  abbrev pub some_list : Listed → Round
  some_list r = and_then r (λ list w. done (some list) w)

  abbrev pub from_catcher : List (Term C) → World S → Round
  from_catcher e w =
      and_then (unblocksignals w) (λ u w'. if is_retry e then done none w' else thrown e w')

  -- The catcher runs with signals blocked.
  abbrev pub run_catcher : Term C → Flags → List (Term C) → World S → Round
  run_catcher catcher flags e w = and_then (blocksignals w) (λ u w'.
      caught m
        (and_then (m.prim (codes "noreturn") (catcher ∷ e) m.no_bindings flags w')
          (λ list w''. and_then (unblocksignals w'') (λ u w3. done (some list) w3)))
        w' from_catcher)

  abbrev pub catch_round : Term C → List (Term C) → Flags → World S → Round
  catch_round catcher body flags w =
      caught m (some_list (eval m calls body m.no_bindings flags w)) w (run_catcher catcher flags)

  abbrev pub next_round : Option (List (Term C)) → World S → (World S → Listed) → Listed
  next_round none w again = again w
  next_round (some list) w again = done list w

  -- "while (retry)", on fuel for the rounds.
  unfoldable pub catch_loop : ℕ → Term C → List (Term C) → Flags → World S → Listed
  catch_loop zero catcher body flags w = no_fuel
  catch_loop (suc n) catcher body flags w =
      and_then (catch_round catcher body flags w)
        (λ r w'. next_round r w' (catch_loop n catcher body flags))

  unfoldable pub prim_catch : ℕ → List (Term C) → Flags → World S → Listed
  unfolding catch_loop
  prim_catch n [] flags w = fail (codes "$&catch") (codes "usage: catch catcher body") w
  prim_catch n (catcher ∷ body) flags w = catch_loop n catcher body flags w
