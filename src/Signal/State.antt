-- ===== src/Signal/State.antt =====
-- The state of signal.c: a handler notes a signal, and `sigchk` delivers it.
use es_shell_mirror.Prelude.{
  ℕ, zero, suc, ◌+◌, ◌-◌, Bool, true, false, ◌&&◌, ◌||◌, List, [], ◌∷◌, Option, none, some, ◌==◌,
  ltb, if◌then◌else◌, length,
}

pub data Sigeffect : Type 0 where
  sig_nochange sig_catch sig_default sig_ignore sig_noop sig_special : Sigeffect

abbrev pub same_effect : Sigeffect → Sigeffect → Bool
same_effect a b = number a == number b
  where
    number : Sigeffect → ℕ
    number sig_nochange = 0
    number sig_catch = 1
    number sig_default = 2
    number sig_ignore = 3
    number sig_noop = 4
    number sig_special = 5

-- `caught` has NSIG entries.
pub record Signals : Type 0 where
  pub sigcount : ℕ
  pub caught : List Bool
  pub sigeffect : ℕ → Sigeffect
  pub blocked : ℕ
  pub interrupted : Bool
  pub slow : Bool
  pub hasforked : Bool
  pub sigint_newline : Bool

abbrev pub sigint : ℕ
sigint = 2

-- How a function ends: it returns, throws the signal, jumps to `slowlabel`, or ends the shell; or an assertion
-- fails, or an array is read outside its bounds.
pub data Ended : Type 0 where
  returned jumped : Signals → Ended
  threw : ℕ → Signals → Ended
  exited aborted outside : Ended

-- Whether an entry was set, and the array with it set.
unfoldable pub set_caught : ℕ → List Bool → Option (Bool × List Bool)
set_caught sig [] = none
set_caught zero (b ∷ l) = some (b, true ∷ l)
set_caught (suc sig) (b ∷ l) =
    let rest = set_caught sig l in elim rest [ none ↦ none | some (was, l') ↦ some (was, b ∷ l') ]

abbrev pub note : Option (Bool × List Bool) → Signals → Ended
note none st = outside
note (some (was, caught)) st =
    let st' : Signals = record st {
      caught = caught;
      sigcount = if was then st.sigcount else st.sigcount + 1;
      interrupted = true;
    } in
    if st.slow then jumped st' else returned st'

-- "catch (and defer) a signal from the kernel"
unfoldable pub catcher : ℕ → Signals → Ended
unfolding set_caught
catcher sig st = if st.hasforked then exited else note (set_caught sig st.caught) st

-- The first entry that is set, and the array with it reset; past the end the code reads on.
unfoldable pub first_caught : ℕ → List Bool → Option (ℕ × List Bool)
first_caught sig [] = none
first_caught sig (true ∷ l) = some (sig, false ∷ l)
first_caught sig (false ∷ l) =
    let rest = first_caught (suc sig) l in
    elim rest [ none ↦ none | some (k, l') ↦ some (k, false ∷ l') ]

abbrev pub deliver : Sigeffect → ℕ → Signals → Ended
deliver sig_catch sig st = threw sig st
deliver sig_special sig st =
    if sig == sigint then threw sig (record st { sigint_newline = true }) else aborted
deliver sig_noop sig st = returned st
deliver sig_nochange sig st = returned st
deliver sig_default sig st = returned st
deliver sig_ignore sig st = returned st

abbrev pub deliver_first : Option (ℕ × List Bool) → Signals → Ended
deliver_first none st = outside
deliver_first (some (sig, caught)) st =
    deliver (st.sigeffect sig) sig (record st { sigcount = st.sigcount - 1; caught = caught })

-- "throw the signal as an exception"
unfoldable pub sigchk : Signals → Ended
unfolding first_caught
sigchk st =
    if st.sigcount == 0 || ltb 0 st.blocked
    then returned st
    else (if st.hasforked then exited else deliver_first (first_caught 0 st.caught) st)

abbrev pub blocksignals : Signals → Ended
blocksignals st = returned (record st { blocked = st.blocked + 1 })

abbrev pub unblocksignals : Signals → Ended
unblocksignals st =
    if ltb 0 st.blocked then returned (record st { blocked = st.blocked - 1 }) else aborted

-- What a signal is set to in the kernel.
pub data Sighandler : Type 0 where
  by_default ignored by_catcher : Sighandler

-- Whether the kernel takes it.
module _ (setsignal : ℕ → Sighandler → Bool) where
  abbrev pub set_effect : Bool → ℕ → Sigeffect → Signals → Signals
  set_effect taken sig effect st =
      if taken
      then record st { sigeffect = λ s. if s == sig then effect else st.sigeffect s }
      else st

  abbrev pub change_effect : ℕ → Sigeffect → Signals → Signals
  change_effect sig sig_nochange st = st
  change_effect sig sig_ignore st = set_effect (setsignal sig ignored) sig sig_ignore st
  change_effect sig sig_special st =
      set_effect (sig == sigint && setsignal sig by_catcher) sig sig_special st
  change_effect sig sig_catch st = set_effect (setsignal sig by_catcher) sig sig_catch st
  change_effect sig sig_noop st = set_effect (setsignal sig by_catcher) sig sig_noop st
  change_effect sig sig_default st = set_effect true sig sig_default st

  abbrev pub unless_same : Bool → ℕ → Sigeffect → Signals → Signals
  unless_same same sig effect st = if same then st else change_effect sig effect st

  -- With the old effect, for a signal number.
  abbrev pub esignal : ℕ → Sigeffect → Signals → Sigeffect × Signals
  esignal sig effect st =
      (st.sigeffect sig, unless_same (same_effect effect (st.sigeffect sig)) sig effect st)

  -- The signals from the `sig`-th on, with how many there are.
  unfoldable pub effects_loop : ℕ → ℕ → (ℕ → Sigeffect) → Signals → Signals
  effects_loop zero sig effects st = st
  effects_loop (suc n) sig effects st =
      effects_loop n (suc sig) effects ((esignal sig (effects sig) st).1)

  abbrev pub setsigeffects : (ℕ → Sigeffect) → Signals → Signals
  setsigeffects effects st = effects_loop (length st.caught - 1) 1 effects st

  abbrev pub default_if_caught : Sigeffect → Sigeffect
  default_if_caught sig_catch = sig_default
  default_if_caught sig_noop = sig_default
  default_if_caught sig_special = sig_default
  default_if_caught sig_nochange = sig_nochange
  default_if_caught sig_default = sig_nochange
  default_if_caught sig_ignore = sig_nochange

  abbrev pub setsigdefaults : Signals → Signals
  setsigdefaults st = setsigeffects (λ sig. default_if_caught (st.sigeffect sig)) st
