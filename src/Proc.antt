-- ===== src/Proc.antt =====
-- The processes of the shell (proc.c), a doubly linked list in a store of cells.
mod Tests
use es_shell_mirror.Prelude.{
  ℕ, zero, suc, ◌+◌, Bool, true, false, not, ◌&&◌, ◌||◌, List, [], ◌∷◌, ◌++◌, Option, none, some,
  ◌==◌, if◌then◌else◌, length,
}

-- A pointer is the index of a cell, or `none` for NULL.
pub record Proc : Type 0 where
  pub pid : ℕ
  pub status : ℕ
  pub alive : Bool
  pub background : Bool
  pub next : Option ℕ
  pub prev : Option ℕ

-- What `dowait` returns: a process that has died, with its status, or -1 with EINTR, ECHILD or another error.
pub data Waited : Type 0 where
  died : ℕ → ℕ → Waited
  interrupted no_child wait_error : Waited

-- A cell that was freed is `none`. `waits` are the outcomes of the next calls of `dowait`, and `statuses` what
-- `printstatus` was called with.
pub record Procs : Type 0 where
  pub cells : List (Option Proc)
  pub proclist : Option ℕ
  pub hasforked : Bool
  pub waits : List Waited
  pub statuses : List (ℕ × ℕ)

-- A function returns, throws, fails an assertion, or reads a cell that is freed; or it still waits, where the list of
-- outcomes ends.
pub data Done (A : Type 0) : Type 0 where
  returned : A → Procs → Done A
  failed signalled : Procs → Done A
  aborted freed waiting : Done A

abbrev pub and_then : {A D : Type 0} → Done A → (A → Procs → Done D) → Done D
and_then (returned a st) k = k a st
and_then (failed st) k = failed st
and_then (signalled st) k = signalled st
and_then aborted k = aborted
and_then freed k = freed
and_then waiting k = waiting

unfoldable pub cell_at : List (Option Proc) → ℕ → Option Proc
cell_at [] p = none
cell_at (c ∷ cells) zero = c
cell_at (c ∷ cells) (suc p) = cell_at cells p

unfoldable pub set_at : List (Option Proc) → ℕ → Option Proc → List (Option Proc)
set_at [] p c = []
set_at (d ∷ cells) zero c = c ∷ cells
set_at (d ∷ cells) (suc p) c = d ∷ set_at cells p c

abbrev pub set_proc : ℕ → Proc → Procs → Procs
set_proc p c st = record st { cells = set_at st.cells p (some c) }

abbrev pub read_cell : Option Proc → Procs → Done Proc
read_cell none st = freed
read_cell (some c) st = returned c st

abbrev pub read : ℕ → Procs → Done Proc
read p st = read_cell (cell_at st.cells p) st

-- "for (proc = proclist; proc != NULL; proc = proc->next)": the first process that passes, on fuel for the cells.
unfoldable pub find : ℕ → (Proc → Bool) → Option ℕ → Procs → Done (Option ℕ)
unfolding cell_at
find n test none st = returned none st
find zero test (some p) st = freed
find (suc n) test (some p) st =
    and_then (read p st) (λ c st. if test c then returned (some p) st else find n test c.next st)

abbrev pub find_in_list : (Proc → Bool) → Procs → Done (Option ℕ)
find_in_list test st = find (length st.cells) test st.proclist st

abbrev pub is_pid : ℕ → Proc → Bool
is_pid pid c = c.pid == pid

-- A process that is dead is used again where it stands.
abbrev pub make_at : ℕ → Bool → Option ℕ → Procs → Done ℕ
make_at pid background none st = returned (length st.cells) (record st {
  cells =
      st.cells
      ++ some record {
        pid = pid;
        status = 0;
        alive = true;
        background = background;
        next = st.proclist;
        prev = none;
      }
        ∷ [];
})
make_at pid background (some p) st = and_then (read p st) (λ c st.
    if c.alive
    then aborted
    else returned p (
        set_proc p (record c { pid = pid; alive = true; background = background; prev = none }) st))

unfoldable pub mkproc : ℕ → Bool → Procs → Done ℕ
unfolding find set_at
mkproc pid background st = and_then (find_in_list (is_pid pid) st) (make_at pid background)

-- Writing the field of the cell that a pointer leads to, if there is one.
abbrev pub set_prev : Option ℕ → Option ℕ → Procs → Done Unit
set_prev none prev st = returned tt st
set_prev (some p) prev st =
    and_then (read p st) (λ c st. returned tt (set_proc p (record c { prev = prev }) st))

-- What `fork` returns.
pub data Forked : Type 0 where
  in_parent : ℕ → Forked
  in_child fork_error : Forked

-- What the child does with descriptors, signals and its own catchers is left out; the number is 0 there, and
-- without a fork.
abbrev pub forked : Forked → Bool → Procs → Done ℕ
forked (in_parent pid) background st = and_then (mkproc pid background st) (λ p st.
    and_then (set_prev st.proclist (some p) st)
      (λ u st. returned pid (record st { proclist = some p })))
forked in_child background st = returned 0 (record st { proclist = none; hasforked = true })
forked fork_error background st = failed st

unfoldable pub efork : Bool → Bool → Forked → Procs → Done ℕ
unfolding mkproc cell_at set_at
efork parent background fork st = if parent then forked fork background st else returned 0 st

abbrev pub reap_at : Option ℕ → ℕ → Procs → Done Unit
reap_at none status st = returned tt st
reap_at (some p) status st = and_then (read p st) (λ c st.
    if c.alive
    then returned tt (set_proc p (record c { alive = false; status = status }) st)
    else aborted)

-- "mark a process as dead and attach its exit status"
unfoldable pub reap : ℕ → ℕ → Procs → Done Unit
unfolding find set_at
reap pid status st = and_then (find_in_list (is_pid pid) st) (λ p st. reap_at p status st)

-- "while ((deadpid = dowait(&proc->status)) != pid)": the status goes into the entry that is waited for, whose process it
-- may not be. `interrupts` says whether a check for signals throws.
unfoldable pub wait_loop : List Waited → Bool → Bool → Bool → ℕ → ℕ → Procs → Done Unit
unfolding reap cell_at set_at
wait_loop [] interruptible interrupts seen pid p st = waiting
wait_loop (died deadpid status ∷ waits) interruptible interrupts seen pid p st =
    and_then (read p st) (λ c st.
      let st' : Procs = set_proc p (record c { status = status }) (record st { waits = waits }) in
      if deadpid == pid
      then returned tt st'
      else and_then (reap deadpid status st')
          (λ u st. wait_loop waits interruptible interrupts seen pid p st))
wait_loop (interrupted ∷ waits) interruptible interrupts seen pid p st =
    if interruptible && interrupts
    then signalled (record st { waits = waits })
    else wait_loop waits interruptible interrupts true pid p st
wait_loop (no_child ∷ waits) interruptible interrupts seen pid p st =
    if seen then returned tt (record st { waits = waits }) else failed (record st { waits = waits })
wait_loop (wait_error ∷ waits) interruptible interrupts seen pid p st =
    failed (record st { waits = waits })

abbrev pub set_next : Option ℕ → Option ℕ → Procs → Done Unit
set_next none next st = returned tt (record st { proclist = next })
set_next (some p) next st =
    and_then (read p st) (λ c st. returned tt (set_proc p (record c { next = next }) st))

-- The entry is taken out of the list and freed.
abbrev pub take_out : ℕ → Procs → Done ℕ
take_out p st = and_then (read p st) (λ c st. and_then (set_prev c.next c.prev st) (λ u st.
    and_then (set_next c.prev c.next st) (λ u st. returned c.status (record st {
      cells = set_at st.cells p none;
      statuses = if c.background then st.statuses ++ (c.pid, c.status) ∷ [] else st.statuses;
    }))))

-- The process is dead by now.
abbrev pub mark_dead : ℕ → Procs → Done Unit
mark_dead p st =
    and_then (read p st) (λ c st. returned tt (set_proc p (record c { alive = false }) st))

abbrev pub wait_at : Bool → Bool → ℕ → ℕ → Procs → Done ℕ
wait_at interruptible interrupts pid p st = and_then (read p st) (λ c st.
    if c.alive
    then and_then (wait_loop st.waits interruptible interrupts false pid p st)
        (λ u st. and_then (mark_dead p st) (λ u st. take_out p st))
    else take_out p st)

abbrev pub is_waited : ℕ → Proc → Bool
is_waited pid c = c.pid == pid || (pid == 0 && not c.alive)

-- Any process: the loop goes back to the label with the number of the one that has died.
unfoldable pub wait_any : List Waited → Bool → Bool → Procs → Done ℕ
unfolding reap
wait_any [] interruptible interrupts st = waiting
wait_any (died pid status ∷ waits) interruptible interrupts st =
    and_then (reap pid status (record st { waits = waits })) (λ u st. returned pid st)
wait_any (interrupted ∷ waits) interruptible interrupts st =
    if interruptible && interrupts
    then signalled (record st { waits = waits })
    else wait_any waits interruptible interrupts st
wait_any (no_child ∷ waits) interruptible interrupts st = failed (record st { waits = waits })
wait_any (wait_error ∷ waits) interruptible interrupts st = failed (record st { waits = waits })

abbrev pub wait_found : Bool → Bool → ℕ → Option ℕ → Procs → (ℕ → Procs → Done ℕ) → Done ℕ
wait_found interruptible interrupts pid (some p) st again =
    wait_at interruptible interrupts pid p st
wait_found interruptible interrupts zero none st again =
    and_then (wait_any st.waits interruptible interrupts st) again
wait_found interruptible interrupts (suc n) none st again = failed st

-- "goto top" is taken once: with a process number the search does not come back there.
unfoldable pub ewait_top : ℕ → Bool → Bool → ℕ → Procs → Done ℕ
unfolding find wait_loop wait_any
ewait_top zero interruptible interrupts pid st = waiting
ewait_top (suc n) interruptible interrupts pid st =
    and_then (find_in_list (is_waited pid) st)
      (λ p st. wait_found interruptible interrupts pid p st (ewait_top n interruptible interrupts))

unfoldable pub ewait : ℕ → Bool → Bool → Procs → Done ℕ
unfolding ewait_top
ewait pid interruptible interrupts st = ewait_top 2 interruptible interrupts pid st
