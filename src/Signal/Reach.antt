-- ===== src/Signal/Reach.antt =====
-- Whatever signals come in between, `sigcount` counts the signals that wait, so `sigchk` finds one.
use es_shell_mirror.Prelude.{
  ℕ, zero, suc, ◌+◌, ◌-◌, ◌<◌, ◌≡◌, refl, sym, ap, subst, Bool, true, false, ◌||◌, ◌==◌, ltb,
  if◌then◌else◌, replicate, arith,
}
use es_shell_mirror.Signal.State.{
  Sigeffect, Sighandler, Signals, Ended, returned, jumped, threw, exited, aborted, outside,
  set_caught, note, catcher, first_caught, deliver_first, sigchk, blocksignals, unblocksignals,
  esignal, sig_nochange, sig_catch, sig_default, sig_ignore, sig_noop, sig_special, set_effect,
  change_effect, unless_same, same_effect,
}
use es_shell_mirror.Signal.Deliver.{
  count_caught, Counted, CountedIn, set_caught-Sets, note-CountedIn, deliver_first-Delivers,
  sigchk-CountedIn, Delivers,
}

abbrev pub initial : ℕ → (ℕ → Sigeffect) → Bool → Signals
initial nsig effects newline = record {
  sigcount = 0;
  caught = replicate nsig false;
  sigeffect = effects;
  blocked = 0;
  interrupted = false;
  slow = false;
  hasforked = false;
  sigint_newline = newline;
}

-- A function that returns, throws or jumps leaves a state.
pub data Leaves : Ended → Signals → Type 0 where
  by_return : (st : Signals) → Leaves (returned st) st
  by_jump : (st : Signals) → Leaves (jumped st) st
  by_throw : (sig : ℕ) (st : Signals) → Leaves (threw sig st) st

module _ (setsignal : ℕ → Sighandler → Bool) where
  -- What can happen between two steps of the shell: a signal, a check, a block or its end, and a change of an effect; the
  -- code that waits sets `slow`, and a fork sets `hasforked`.
  pub data Step : Signals → Signals → Type 0 where
    signal_comes : (sig : ℕ) (st st' : Signals) → Leaves (catcher sig st) st' → Step st st'
    checks : (st st' : Signals) → Leaves (sigchk st) st' → Step st st'
    blocks : (st st' : Signals) → Leaves (blocksignals st) st' → Step st st'
    unblocks : (st st' : Signals) → Leaves (unblocksignals st) st' → Step st st'
    sets_effect :
        (sig : ℕ) (effect : Sigeffect) (st : Signals)
        → Step st ((esignal setsignal sig effect st).1)
    waits :
        (interrupted slow : Bool) (st : Signals)
        → Step st (record st { interrupted = interrupted; slow = slow })
    forks : (st : Signals) → Step st (record st { hasforked = true })

  pub data Reachable (nsig : ℕ) : Signals → Type 0 where
    at_start :
        (effects : ℕ → Sigeffect) (newline : Bool) → Reachable nsig (initial nsig effects newline)
    after : (st st' : Signals) → Reachable nsig st → Step st st' → Reachable nsig st'

Leaves-CountedIn : (e : Ended) (st : Signals) → Leaves e st → CountedIn e → Counted st
Leaves-CountedIn (returned _) st (by_return _) h = h
Leaves-CountedIn (jumped _) st (by_jump _) h = h
Leaves-CountedIn (threw _ _) st (by_throw sig _) h = h
Leaves-CountedIn exited st leaves h = elim leaves [ ]
Leaves-CountedIn aborted st leaves h = elim leaves [ ]
Leaves-CountedIn outside st leaves h = elim leaves [ ]

module _ (setsignal : ℕ → Sighandler → Bool) where
  set_effect-Counted :
      (taken : Bool) (sig : ℕ) (effect : Sigeffect) (st : Signals)
      → Counted st
      → Counted (set_effect setsignal taken sig effect st)
  set_effect-Counted true sig effect st h = h
  set_effect-Counted false sig effect st h = h

  change_effect-Counted :
      (sig : ℕ) (effect : Sigeffect) (st : Signals)
      → Counted st
      → Counted (change_effect setsignal sig effect st)
  change_effect-Counted sig sig_nochange st h = h
  change_effect-Counted sig sig_ignore st h = set_effect-Counted _ sig sig_ignore st h
  change_effect-Counted sig sig_special st h = set_effect-Counted _ sig sig_special st h
  change_effect-Counted sig sig_catch st h = set_effect-Counted _ sig sig_catch st h
  change_effect-Counted sig sig_noop st h = set_effect-Counted _ sig sig_noop st h
  change_effect-Counted sig sig_default st h = h

  unless_same-Counted :
      (same : Bool) (sig : ℕ) (effect : Sigeffect) (st : Signals)
      → Counted st
      → Counted (unless_same setsignal same sig effect st)
  unless_same-Counted true sig effect st h = h
  unless_same-Counted false sig effect st h = change_effect-Counted sig effect st h

  unblock-CountedIn :
      (b : Bool) (st : Signals)
      → Counted st
      → CountedIn (if b then returned (record st { blocked = st.blocked - 1 }) else aborted)
  unblock-CountedIn true st h = h
  unblock-CountedIn false st h = tt

  catcher-CountedIn : (sig : ℕ) (st : Signals) → Counted st → CountedIn (catcher sig st)
  unfolding catcher
  catcher-CountedIn sig st h = whether st.hasforked
    where
      whether : (b : Bool) → CountedIn (if b then exited else note (set_caught sig st.caught) st)
      whether true = tt
      whether false = note-CountedIn st (set_caught sig st.caught) h (set_caught-Sets sig st.caught)

  Step-Counted : (st st' : Signals) → Step setsignal st st' → Counted st → Counted st'
  Step-Counted st st' (signal_comes sig _ _ l) h =
      Leaves-CountedIn (catcher sig st) st' l (catcher-CountedIn sig st h)
  Step-Counted st st' (checks _ _ l) h = Leaves-CountedIn (sigchk st) st' l (sigchk-CountedIn st h)
  Step-Counted st st' (blocks _ _ l) h = Leaves-CountedIn (blocksignals st) st' l h
  Step-Counted st st' (unblocks _ _ l) h =
      Leaves-CountedIn (unblocksignals st) st' l (unblock-CountedIn (ltb 0 st.blocked) st h)
  Step-Counted st st' (sets_effect sig effect _) h =
      unless_same-Counted (same_effect effect (st.sigeffect sig)) sig effect st h
  Step-Counted st st' (waits i s _) h = h
  Step-Counted st st' (forks _) h = h

  count-nothing : (n : ℕ) → count_caught (replicate n false) ≡ 0
  count-nothing zero = refl
  count-nothing (suc n) = ap (λ k. 0 + k) (count-nothing n)

  Reachable-Counted : (nsig : ℕ) (st : Signals) → Reachable setsignal nsig st → Counted st
  Reachable-Counted nsig st (at_start effects newline) = sym (count-nothing nsig)
  Reachable-Counted nsig st (after st0 _ r step) =
      Step-Counted st0 st step (Reachable-Counted nsig st0 r)

  -- In every state that signals, checks, blocks, forks and changes of effects lead to, where a signal is counted, signals are not
  -- blocked and the shell has not forked, `sigchk` finds the least signal that was caught, takes only that one out, is left with
  -- the count of the others, and delivers it by its effect; so the array is not read past its end.
  pub sigchk-Delivers :
      (nsig : ℕ) (st : Signals)
      → Reachable setsignal nsig st
      → 0 < st.sigcount
      → st.blocked ≡ 0
      → st.hasforked ≡ false
      → Delivers st (sigchk st)
  unfolding sigchk
  sigchk-Delivers nsig st reachable waiting free parent =
      let go : (st.sigcount == 0 || ltb 0 st.blocked) ≡ false = ground arith in
      subst (Delivers st) (run (st.sigcount == 0 || ltb 0 st.blocked) st.hasforked go parent)
        (deliver_first-Delivers st (Reachable-Counted nsig st reachable) waiting)
    where
      run :
          (b forked : Bool)
          → b ≡ false
          → forked ≡ false
          → deliver_first (first_caught 0 st.caught) st ≡ (
              if b
              then returned st
              else (if forked then exited else deliver_first (first_caught 0 st.caught) st))
      run true forked e e' = cc
      run false true e e' = cc
      run false false e e' = refl
