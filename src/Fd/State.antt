-- ===== src/Fd/State.antt =====
-- The table of open files, the list of reserved descriptors, and the deferred operations.
use es_shell_mirror.Prelude.{
  ℕ, zero, suc, Bool, false, List, [], ◌∷◌, ◌++◌, Option, none, some, ◌==◌, ltb, leb, if◌then◌else◌,
}

-- What an `int *` points to: `realfd` of an entry of `deftab`, or a variable of the code that registered it.
pub data Cell : Type 0 where
  deferred owner : ℕ → Cell

unfoldable pub same_cell : Cell → Cell → Bool
same_cell (deferred i) (deferred j) = i == j
same_cell (deferred i) (owner j) = false
same_cell (owner i) (deferred j) = false
same_cell (owner i) (owner j) = i == j

pub record Reserve : Type 0 where
  pub fdp : Cell
  pub closeonfork : Bool

module _ {F : Type 0} where
  -- The file that a descriptor is open on.
  unfoldable pub file_at : List (Option F) → ℕ → Option F
  file_at [] n = none
  file_at (f ∷ table) zero = f
  file_at (f ∷ table) (suc n) = file_at table n

  unfoldable pub set_file : List (Option F) → ℕ → Option F → List (Option F)
  set_file [] zero f = f ∷ []
  set_file [] (suc n) f = none ∷ set_file [] n f
  set_file (g ∷ table) zero f = f ∷ table
  set_file (g ∷ table) (suc n) f = g ∷ set_file table n f

-- The files are the kernel's; -1 in a cell is `none`. `deftab` has the user's descriptors, in order: the real ones
-- are in the cells.
pub record Fds (F : Type 0) : Type 0 where
  pub table : List (Option F)
  pub cells : Cell → Option ℕ
  pub reserved : List Reserve
  pub deftab : List ℕ
  pub defmax : ℕ

-- A failed call of the system throws an exception and leaves a state; a failed assertion and `panic` end the shell.
pub data Ran (F : Type 0) : Type 0 where
  ran failed : Fds F → Ran F
  aborted : Ran F

abbrev pub then_run : {F : Type 0} → Ran F → (Fds F → Ran F) → Ran F
then_run (ran st) k = k st
then_run (failed st) k = failed st
then_run aborted k = aborted

abbrev pub is_at : ℕ → Option ℕ → Bool
is_at n none = false
is_at n (some m) = m == n

abbrev pub set_cell : Cell → Option ℕ → (Cell → Option ℕ) → Cell → Option ℕ
set_cell a v cells b = if same_cell a b then v else cells b

-- "reserved[i] = reserved[--rescount]", for the entries from `i + 1` on.
abbrev pub last_of : Reserve → List Reserve → Reserve
last_of r [] = r
last_of r (r' ∷ rs) = last_of r' rs

abbrev pub before_last : Reserve → List Reserve → List Reserve
before_last r [] = []
before_last r (r' ∷ rs) = r ∷ before_last r' rs

abbrev pub move_last : List Reserve → List Reserve
move_last [] = []
move_last (r ∷ rs) = last_of r rs ∷ before_last r rs

unfoldable pub unregister : Cell → List Reserve → Option (List Reserve)
unfolding same_cell
unregister a [] = none
unregister a (r ∷ rs) =
    let rest = unregister a rs in
    if same_cell r.fdp a
    then some (move_last rs)
    else elim rest [ none ↦ none | some l ↦ some (r ∷ l) ]

module _ {F : Type 0} where
  abbrev pub registerfd : Cell → Bool → Fds F → Fds F
  registerfd a closeonfork st = record st {
    reserved = st.reserved ++ record { fdp = a; closeonfork = closeonfork } ∷ [];
  }

  abbrev pub with_reserved : Option (List Reserve) → Fds F → Ran F
  with_reserved none st = aborted
  with_reserved (some l) st = ran (record st { reserved = l })

  unfoldable pub unregisterfd : Cell → Fds F → Ran F
  unfolding unregister
  unregisterfd a st = with_reserved (unregister a st.reserved) st

  abbrev pub close_fd : ℕ → Fds F → Fds F
  close_fd n st = record st { table = set_file st.table n none }

  -- The descriptor that `dup` takes is the kernel's choice; there may be none left.
  module _ (free : List (Option F) → Option ℕ) where
    -- `*fdp = dup(n)`, and `close(n)`.
    abbrev pub dup_cell : Option F → Option ℕ → ℕ → Cell → Fds F → Ran F
    dup_cell none new n a st = aborted
    dup_cell (some f) none n a st = failed (record st { cells = set_cell a none st.cells })
    dup_cell (some f) (some m) n a st = ran (record st {
      cells = set_cell a (some m) st.cells;
      table = set_file (set_file st.table m (some f)) n none;
    })

    abbrev pub release_one : ℕ → Cell → Fds F → Ran F
    release_one n a st =
        if is_at n (st.cells a)
        then dup_cell (file_at st.table n) (free st.table) n a st
        else ran st

    unfoldable pub release_loop : ℕ → List Reserve → Fds F → Ran F
    unfolding file_at set_file same_cell
    release_loop n [] st = ran st
    release_loop n (r ∷ rs) st = then_run (release_one n r.fdp st) (release_loop n rs)

    -- "release a specific file descriptor from its es uses"
    unfoldable pub releasefd : ℕ → Fds F → Ran F
    unfolding release_loop
    releasefd n st = release_loop n st.reserved st

  -- The kernel has descriptors below a limit: `dup2` fails for a descriptor that is not open, and for a new one from the limit on.
  module _ (limit : ℕ) where
    abbrev pub dup2 : Option F → ℕ → ℕ → Fds F → Ran F
    dup2 none old new st = failed st
    dup2 (some f) old new st =
        if ltb new limit
        then ran (record st { table = set_file (set_file st.table new (some f)) old none })
        else failed st

    -- "duplicate a fd and close the old"
    unfoldable pub mvfd : ℕ → ℕ → Fds F → Ran F
    unfolding file_at set_file
    mvfd old new st = if old == new then ran st else dup2 (file_at st.table old) old new st

    abbrev pub close_or_mv : Option ℕ → ℕ → Fds F → Ran F
    close_or_mv none userfd st = ran (close_fd userfd st)
    close_or_mv (some realfd) userfd st = mvfd realfd userfd st

  module _ (free : List (Option F) → Option ℕ) (limit : ℕ) where
    unfoldable pub dodeferred : Option ℕ → ℕ → Fds F → Ran F
    unfolding releasefd mvfd
    dodeferred realfd userfd st =
        then_run (releasefd free userfd st) (close_or_mv limit realfd userfd)

    unfoldable pub remap_loop : ℕ → List ℕ → Fds F → Ran F
    unfolding unregisterfd dodeferred
    remap_loop i [] st = ran st
    remap_loop i (userfd ∷ deftab) st = then_run (unregisterfd (deferred i) st) (λ st'.
        then_run (dodeferred (st'.cells (deferred i)) userfd st') (remap_loop (suc i) deftab))

    abbrev pub emptied : Fds F → Ran F
    emptied st = ran (record st { deftab = [] })

    -- "apply the fd map to the current file descriptor table"
    unfoldable pub remapfds : Fds F → Ran F
    unfolding remap_loop
    remapfds st = then_run (remap_loop 0 st.deftab st) emptied

    abbrev pub close_cell : Option ℕ → Cell → Fds F → Fds F
    close_cell none a st = record st { cells = set_cell a none st.cells }
    close_cell (some fd) a st = record st {
      cells = set_cell a none st.cells;
      table = if leb 3 fd then set_file st.table fd none else st.table;
    }

    unfoldable pub close_loop : List Reserve → Fds F → Fds F
    unfolding set_file same_cell
    close_loop [] st = st
    close_loop (r ∷ rs) st =
        close_loop rs (if r.closeonfork then close_cell (st.cells r.fdp) r.fdp st else st)

    abbrev pub closed_all : Fds F → Ran F
    closed_all st = ran (close_loop st.reserved st)

    -- "close file descriptors after a fork()"
    unfoldable pub closefds : Fds F → Ran F
    unfolding remapfds close_loop
    closefds st = then_run (remapfds st) closed_all
