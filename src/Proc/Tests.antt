-- ===== src/Proc/Tests.antt =====
-- Runs of the list of processes.
use es_shell_mirror.Prelude.{ℕ, ◌≡◌, refl, true, false, List, [], ◌∷◌, Option, none, some}
use es_shell_mirror.Proc.{
  Procs, Done, returned, failed, signalled, aborted, freed, waiting, Waited, died, interrupted,
  and_then, cell_at, set_at, find, mkproc, efork, in_parent, reap, wait_loop, ewait_top, ewait,
}

abbrev no_procs : List Waited → Procs
no_procs waits = record {
  cells = [];
  proclist = none;
  hasforked = false;
  waits = waits;
  statuses = [];
}

abbrev value : {A : Type 0} → Done A → Option A
value (returned a st) = some a
value (failed st) = none
value (signalled st) = none
value aborted = none
value freed = none
value waiting = none

-- The second of two processes dies first, while the shell waits for the first.
abbrev two_procs : Done ℕ
two_procs =
    and_then (efork true false (in_parent 7) (no_procs (died 8 3 ∷ interrupted ∷ died 7 5 ∷ [])))
      (λ pid st. efork true true (in_parent 8) st)

first_waited : value (and_then two_procs (λ pid st. ewait 7 true false st)) ≡ some 5
unfolding ewait ewait_top wait_loop reap find efork mkproc cell_at set_at
first_waited = refl

second_waited :
    value (
      and_then two_procs
        (λ pid st. and_then (ewait 7 true false st) (λ status st. ewait 8 true false st)))
    ≡ some 3
unfolding ewait ewait_top wait_loop reap find efork mkproc cell_at set_at
second_waited = refl

-- A number that is used again, with its process at the head of the list: after it is waited for, the list leads to a cell
-- that is freed.
abbrev used_again : Done ℕ
used_again =
    and_then (efork true false (in_parent 7) (no_procs (died 7 1 ∷ [])))
      (λ pid st. and_then (reap 7 0 st) (λ u st. efork true false (in_parent 7) st))

left_in_list :
    and_then used_again
      (λ pid st. and_then (ewait 7 true false st) (λ status st. ewait 0 true false st))
    ≡ freed
unfolding ewait ewait_top wait_loop reap find efork mkproc cell_at set_at
left_in_list = refl
