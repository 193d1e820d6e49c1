-- ===== src/Fd/Defer.antt =====
-- The deferred operations: putting one off, taking the last back, and what a descriptor stands for meanwhile.
use es_shell_mirror.Prelude.{
  ℕ, suc, ◌+◌, Bool, true, false, List, [], ◌∷◌, ◌++◌, Option, none, some, ◌==◌, leb, if◌then◌else◌,
  length,
}
use es_shell_mirror.Fd.State.{
  Cell, deferred, Fds, Ran, ran, aborted, then_run, set_cell, same_cell, registerfd, unregisterfd,
  dodeferred, close_fd, set_file,
}

-- The part of `deftab` that is looked at, the newest entry first, with the index of each.
unfoldable pub newest_first : ℕ → List ℕ → List (ℕ × ℕ)
newest_first i [] = []
newest_first i (userfd ∷ deftab) = newest_first (suc i) deftab ++ (i, userfd) ∷ []

abbrev pub map_one : ℕ → ℕ → Option ℕ → Option ℕ
map_one fd userfd realfd = if fd == userfd then realfd else some fd

unfoldable pub fdmap_loop : List (ℕ × ℕ) → (Cell → Option ℕ) → Option ℕ → Option ℕ
fdmap_loop l cells none = none
fdmap_loop [] cells (some fd) = some fd
fdmap_loop ((i, userfd) ∷ l) cells (some fd) =
    fdmap_loop l cells (map_one fd userfd (cells (deferred i)))

abbrev pub before_newest : ℕ → List ℕ → List ℕ
before_newest userfd [] = []
before_newest userfd (userfd' ∷ l) = userfd ∷ before_newest userfd' l

module _ {F : Type 0} where
  -- "turn a deferred (user) fd into a real fd"
  unfoldable pub fdmap : ℕ → Fds F → Option ℕ
  unfolding newest_first fdmap_loop
  fdmap fd st = fdmap_loop (newest_first 0 st.deftab) st.cells (some fd)

  unfoldable pub unregister_all : ℕ → List ℕ → Fds F → Ran F
  unfolding unregisterfd
  unregister_all i [] st = ran st
  unregister_all i (userfd ∷ l) st =
      then_run (unregisterfd (deferred i) st) (unregister_all (suc i) l)

  unfoldable pub register_all : ℕ → List ℕ → Fds F → Fds F
  register_all i [] st = st
  register_all i (userfd ∷ l) st = register_all (suc i) l (registerfd (deferred i) true st)

  abbrev pub register_again : List ℕ → Fds F → Ran F
  register_again deftab st = ran (register_all 0 deftab st)

  -- A full `deftab` moves, and so do the cells in it.
  unfoldable pub room_for_defer : Fds F → Ran F
  unfolding unregister_all register_all
  room_for_defer st =
      if leb st.defmax (length st.deftab)
      then then_run (unregister_all 0 st.deftab (record st { defmax = st.defmax + 10 }))
          (register_again st.deftab)
      else ran st

  abbrev pub add_defer : Option ℕ → ℕ → Fds F → Ran F
  add_defer realfd userfd st =
      let i = length st.deftab in
      ran (
        registerfd (deferred i) true (record st {
          deftab = st.deftab ++ userfd ∷ [];
          cells = set_cell (deferred i) realfd st.cells;
        }))

  module _ (free : List (Option F) → Option ℕ) (limit : ℕ) where
    -- With the ticket: `none` is UNREGISTERED.
    unfoldable pub pushdefer : Bool → Option ℕ → ℕ → Fds F → Option ℕ × Ran F
    unfolding room_for_defer same_cell dodeferred
    pushdefer true realfd userfd st =
        (some (length st.deftab), then_run (room_for_defer st) (add_defer realfd userfd))
    pushdefer false realfd userfd st = (none, dodeferred free limit realfd userfd st)

    abbrev pub defer_mvfd : Bool → ℕ → ℕ → Fds F → Option ℕ × Ran F
    defer_mvfd parent old new st = pushdefer parent (some old) new st

    abbrev pub defer_close : Bool → ℕ → Fds F → Option ℕ × Ran F
    defer_close parent fd st = pushdefer parent none fd st

  abbrev pub close_real : Option ℕ → Fds F → Ran F
  close_real none st = ran st
  close_real (some fd) st = ran (close_fd fd st)

  -- The cell that is given up is looked at after the fact, by its address.
  abbrev pub undefer_last : ℕ → List ℕ → Fds F → Ran F
  undefer_last ticket [] st = aborted
  undefer_last ticket (userfd ∷ l) st =
      if ticket == length l
      then then_run (unregisterfd (deferred ticket) (record st { deftab = before_newest userfd l }))
          (λ st'. close_real (st'.cells (deferred ticket)) st')
      else aborted

  unfoldable pub undefer : Option ℕ → Fds F → Ran F
  unfolding set_file unregisterfd
  undefer none st = ran st
  undefer (some ticket) st = undefer_last ticket st.deftab st

abbrev pub is_deferred : ℕ → List ℕ → Bool
is_deferred fd [] = false
is_deferred fd (userfd ∷ deftab) = if userfd == fd then true else is_deferred fd deftab

module _ {F : Type 0} where
  abbrev pub isdeferred : ℕ → Fds F → Bool
  isdeferred fd st = is_deferred fd st.deftab
