-- ===== src/Fd/Remap.antt =====
-- `remapfds` gives each descriptor the file of the last operation that was put off for it.
use es_shell_mirror.Prelude.{
  ℕ, suc, ◌+◌, ◌<◌, ◌≤◌, ◌≡◌, ◌≢◌, refl, ap, subst, ◌∙◌, false, List, [], ◌∷◌, ◌++◌, Option, some,
  arith, length, length-append,
}
use es_shell_mirror.Fd.State.{
  deferred, owner, same_cell, Fds, Ran, ran, failed, aborted, then_run, unregisterfd, dodeferred,
  remap_loop, remapfds, emptied,
}
use es_shell_mirror.Fd.Store.{one_if}
use es_shell_mirror.Fd.Own.{Reserved, IsValid, held}
use es_shell_mirror.Fd.Release.{IsFree}
use es_shell_mirror.Fd.Moves.{Settled}
use es_shell_mirror.Fd.Step.{Stepped, step, step-Steps}

abbrev pub Absent : ℕ → List ℕ → Type 0
Absent v [] = Unit
Absent v (u ∷ us) = (v ≢ u) × Absent v us

abbrev pub AllBelow : ℕ → List ℕ → Type 0
AllBelow limit [] = Unit
AllBelow limit (u ∷ us) = (u < limit) × AllBelow limit us

module _ {F : Type 0} where
  -- The operations from the `i`-th on are in the cells.
  abbrev pub InCells : ℕ → List ℕ → Fds F → Type 0
  InCells i us st = (j : ℕ) → i ≤ j → j < i + length us → Reserved (deferred j) st

  abbrev pub OwnersHold : Fds F → Fds F → Type 0
  OwnersHold st st' = (k : ℕ) → Reserved (owner k) st → held (owner k) st' ≡ held (owner k) st

  module _ (free : List (Option F) → Option ℕ) (is_free : IsFree free) (limit : ℕ) where
    apart : (i j : ℕ) → i < j → same_cell (deferred i) (deferred j) ≡ false
    unfolding same_cell
    apart i j h = ground arith

    owner_apart : (i k : ℕ) → same_cell (deferred i) (owner k) ≡ false
    unfolding same_cell
    owner_apart i k = refl

    later_cells :
        (i u : ℕ) (us : List ℕ) (st st' : Fds F)
        → InCells i (u ∷ us) st
        → Stepped (deferred i) u st st'
        → InCells (suc i) us st'
    later_cells i u us st st' cells done j low high = omega (
      arith,
      done.counts (deferred j),
      cells j (omega arith) (omega arith),
      ap one_if (apart i j low),
    )

    owners_stay :
        (i u : ℕ) (st st' : Fds F)
        → Stepped (deferred i) u st st'
        → (k : ℕ) → Reserved (owner k) st
        → Reserved (owner k) st'
    owners_stay i u st st' done k h =
        omega (arith, done.counts (owner k), ap one_if (owner_apart i k))

    then_then :
        (r : Ran F) (f g : Fds F → Ran F)
        → then_run r (λ x. then_run (f x) g) ≡ then_run (then_run r f) g
    then_then (ran st) f g = refl
    then_then (failed st) f g = refl
    then_then aborted f g = refl

    remap_loop-step :
        (i u : ℕ) (us : List ℕ) (st st' : Fds F)
        → step free is_free limit i u st ≡ ran st'
        → remap_loop free limit i (u ∷ us) st ≡ remap_loop free limit (suc i) us st'
    unfolding remap_loop
    remap_loop-step i u us st st' e =
        then_then (unregisterfd (deferred i) st)
          (λ st'. dodeferred free limit (st'.cells (deferred i)) u st')
          (remap_loop free limit (suc i) us)
        ∙ ap (λ r. then_run r (remap_loop free limit (suc i) us)) e

    owners_trans :
        (i u : ℕ) (st st1 st' : Fds F)
        → Stepped (deferred i) u st st1
        → OwnersHold st1 st'
        → OwnersHold st st'
    owners_trans i u st st1 st' done holds k h =
        let reserved1 = owners_stay i u st st1 done k h in
        holds k reserved1 ∙ done.holds (owner k) reserved1

    -- A descriptor that no operation is on stays as it is, and the owners keep their files.
    remap_loop-Keeps :
        (i : ℕ) (us : List ℕ) (v : ℕ) (g : F) (st : Fds F)
        → AllBelow limit us
        → IsValid st
        → InCells i us st
        → Absent v us
        → Settled v g st
        → (st' : Fds F) × (remap_loop free limit i us st ≡ ran st')
          × Settled v g st'
          × OwnersHold st st'
    unfolding remap_loop
    remap_loop-Keeps i [] v g st all valid cells absent settled = (st, refl, settled, λ k r. refl)
    remap_loop-Keeps i (u ∷ us) v g st (low, all) valid cells (other, absent) settled =
        let (st1, e, done) =
          step-Steps free is_free limit i u st low valid (cells i (omega arith) (omega arith)) in
        let (st', e', settled', holds) =
          remap_loop-Keeps (suc i) us v g st1 all done.valid (later_cells i u us st st1 cells done)
            absent (done.keeps v g other settled) in
        (
          st',
          remap_loop-step i u us st st1 e ∙ e',
          settled',
          owners_trans i u st st1 st' done holds,
        )

    remap_loop-Settles :
        (i : ℕ) (before : List ℕ) (u : ℕ) (after : List ℕ) (f : F) (st : Fds F)
        → AllBelow limit (before ++ u ∷ after)
        → IsValid st
        → InCells i (before ++ u ∷ after) st
        → Absent u after
        → held (deferred (i + length before)) st ≡ some f
        → (st' : Fds F) × (remap_loop free limit i (before ++ u ∷ after) st ≡ ran st')
          × Settled u f st'
          × OwnersHold st st'
    remap_loop-Settles i [] u after f st (low, all) valid cells absent here =
        let (st1, e, done) =
          step-Steps free is_free limit i u st low valid (cells i (omega arith) (omega arith)) in
        let here' : held (deferred i) st ≡ some f =
          subst (λ k. held (deferred k) st ≡ some f) (omega arith) here in
        let (st', e', settled', holds) =
          remap_loop-Keeps (suc i) after u f st1 all done.valid
            (later_cells i u after st st1 cells done) absent (done.arrives f here') in
        (
          st',
          remap_loop-step i u after st st1 e ∙ e',
          settled',
          owners_trans i u st st1 st' done holds,
        )
    remap_loop-Settles i (b ∷ before) u after f st (low, all) valid cells absent here =
        let us = before ++ u ∷ after in
        let (st1, e, done) =
          step-Steps free is_free limit i b st low valid (cells i (omega arith) (omega arith)) in
        let cells1 = later_cells i b us st st1 cells done in
        let j = suc i + length before in
        let reserved1 : Reserved (deferred j) st1 =
          cells1 j (omega arith) (omega (arith, length-append before (u ∷ after))) in
        let here' : held (deferred j) st ≡ some f =
          subst (λ k. held (deferred k) st ≡ some f) (omega arith) here in
        let (st', e', settled', holds) =
          remap_loop-Settles (suc i) before u after f st1 all done.valid cells1 absent
            (done.holds (deferred j) reserved1 ∙ here') in
        (
          st',
          remap_loop-step i b us st st1 e ∙ e',
          settled',
          owners_trans i b st st1 st' done holds,
        )

    -- Where the kernel has descriptors to spare, the shell's cells hold different open ones, those of the deferred operations are
    -- reserved, and the operations are on descriptors below the kernel's limit: `remapfds` returns, and the descriptor that
    -- an operation moves its file to, where no later one is on the same descriptor, is open on that file afterwards, and
    -- is not the shell's; the other reserved cells have the files they had, and nothing is deferred any more.
    pub remapfds-Settles :
        (before : List ℕ) (u : ℕ) (after : List ℕ) (f : F) (st : Fds F)
        → st.deftab ≡ before ++ u ∷ after
        → AllBelow limit (before ++ u ∷ after)
        → IsValid st
        → InCells 0 (before ++ u ∷ after) st
        → Absent u after
        → held (deferred (length before)) st ≡ some f
        → (st' : Fds F) × (remapfds free limit st ≡ ran st')
          × Settled u f st'
          × OwnersHold st st'
          × (st'.deftab ≡ [])
    unfolding remapfds
    remapfds-Settles before u after f st table all valid cells absent here =
        let here' : held (deferred (0 + length before)) st ≡ some f =
          subst (λ k. held (deferred k) st ≡ some f) (omega arith) here in
        let (st', e, settled, holds) =
          remap_loop-Settles 0 before u after f st all valid cells absent here' in
        let e' : remap_loop free limit 0 st.deftab st ≡ ran st' =
          ap (λ l. remap_loop free limit 0 l st) table ∙ e in
        (
          record st' { deftab = [] },
          ap (λ r. then_run r (emptied free limit)) e',
          settled,
          holds,
          refl,
        )
