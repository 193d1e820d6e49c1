-- ===== src/Fd/Tests.antt =====
-- Runs of the deferred operations.
use es_shell_mirror.Prelude.{
  ℕ, suc, ◌≡◌, refl, sym, ap, true, false, List, [], ◌∷◌, Option, none, some, ◌≤◌, if◌then◌else◌,
  arith, some_inj,
}
use es_shell_mirror.Prelude.{
  Bool, false, Bool-cases, inl, inr, subst, ap, sym, some_inj, ◌≤◌, arith, ◌∙◌,
}
use es_shell_mirror.Fd.Store.{same_cell→eq, same_cell_refl, one_if}
use es_shell_mirror.Fd.State.{
  aborted, Cell, deferred, same_cell, file_at, set_file, Fds, Ran, ran, failed, then_run,
  release_loop, releasefd, unregister, unregisterfd, mvfd, dodeferred, remap_loop, remapfds,
}
use es_shell_mirror.Fd.Defer.{
  newest_first, fdmap_loop, fdmap, pushdefer, room_for_defer, unregister_all, register_all,
}
use es_shell_mirror.Fd.Own.{IsValid, Reserved, held_by}
use es_shell_mirror.Fd.Release.{IsFree, Releases, releasefd-Releases}
use es_shell_mirror.Fd.Remap.{InCells, OwnersHold, remapfds-Settles}
use es_shell_mirror.Fd.Map.{fdmap-remapfds}
use es_shell_mirror.Fd.Moves.{Settled}

-- POSIX has `dup` take the lowest descriptor that is not open.
unfoldable lowest : List (Option ℕ) → ℕ
lowest [] = 0
lowest (none ∷ t) = 0
lowest (some f ∷ t) = suc (lowest t)

abbrev free : List (Option ℕ) → Option ℕ
free t = some (lowest t)

lowest-free : (t : List (Option ℕ)) → file_at t (lowest t) ≡ none
unfolding lowest file_at
lowest-free [] = refl
lowest-free (none ∷ t) = refl
lowest-free (some f ∷ t) = lowest-free t

free-IsFree : IsFree free
free-IsFree t = (lowest t, refl, lowest-free t)

-- Files 10, 11 and 12 on the first descriptors, and nothing the shell holds.
abbrev at_start : Fds ℕ
at_start = record {
  table = some 10 ∷ some 11 ∷ some 12 ∷ [];
  cells = λ a. none;
  reserved = [];
  deftab = [];
  defmax = 0;
}

-- A file that was opened on 3 is put off for 4.
abbrev one_deferred : Fds ℕ
one_deferred = record at_start {
  table = some 10 ∷ some 11 ∷ some 12 ∷ some 20 ∷ [];
  cells = λ a. if same_cell a (deferred 0) then some 3 else none;
  reserved = record { fdp = deferred 0; closeonfork = true } ∷ [];
  deftab = 4 ∷ [];
  defmax = 10;
}

only_cell : (a : Cell) → Reserved a one_deferred → deferred 0 ≡ a
only_cell a h = elim (Bool-cases (same_cell (deferred 0) a)) [
  | inl same ↦ same_cell→eq (deferred 0) a same
  | inr other ↦ absurd (omega (arith, ap one_if other))
]

one_if_bound : (b : Bool) → one_if b ≤ 1
one_if_bound true = omega arith
one_if_bound false = omega arith

here : (a : Cell) → Reserved a one_deferred → one_deferred.cells a ≡ some 3
here a h = rw⁻¹ (only_cell a h) (rw (same_cell_refl (deferred 0)) refl)

one_deferred-IsValid : IsValid one_deferred
unfolding file_at
one_deferred-IsValid = record {
  once = λ a. omega (arith, one_if_bound (same_cell (deferred 0) a));
  distinct = λ a b n ra rb e e'. sym (only_cell a ra) ∙ only_cell b rb;
  opened = λ a n r e. (
    20,
    subst (λ k. file_at one_deferred.table k ≡ some 20) (some_inj (sym (here a r) ∙ e)) refl,
  );
}

cells_reserved : InCells 0 (4 ∷ []) one_deferred
cells_reserved j low high = omega (
  arith,
  ap one_if (
      subst (λ k. same_cell (deferred 0) (deferred k) ≡ true) at_zero
        (same_cell_refl (deferred 0))),
)
  where
    at_zero : 0 ≡ j
    at_zero = omega arith

holds_file : held_by (one_deferred.cells (deferred 0)) one_deferred.table ≡ some 20
unfolding file_at same_cell
holds_file = refl

releasefd-Releases_example : Releases free 3 one_deferred (releasefd free 3 one_deferred)
releasefd-Releases_example = releasefd-Releases free free-IsFree 3 one_deferred one_deferred-IsValid

remapfds-Settles_example :
    (st : Fds ℕ) × (remapfds free 1024 one_deferred ≡ ran st)
    × Settled 4 20 st
    × OwnersHold one_deferred st
    × (st.deftab ≡ [])
remapfds-Settles_example =
    remapfds-Settles free free-IsFree 1024 [] 4 [] 20 one_deferred refl (omega arith, tt)
      one_deferred-IsValid cells_reserved tt holds_file

fdmap-remapfds_example :
    (st : Fds ℕ) × (remapfds free 1024 one_deferred ≡ ran st)
    × (held_by (fdmap 4 one_deferred) one_deferred.table ≡ file_at st.table 4)
fdmap-remapfds_example =
    fdmap-remapfds free free-IsFree 1024 [] 4 [] 3 one_deferred refl (omega arith, tt)
      one_deferred-IsValid cells_reserved tt tt (rw (same_cell_refl (deferred 0)) refl)

-- File 20 was opened on 3 for 4, and then file 21 on 4 for 5.
abbrev with_file : ℕ → Ran ℕ → Ran ℕ
with_file f (ran st) = ran (record st { table = set_file st.table (lowest st.table) (some f) })
with_file f (failed st) = failed st
with_file f aborted = aborted

abbrev chained : Ran ℕ
chained =
    then_run
      (with_file 21
        (pushdefer free 1024 true (some 3) 4
          (record at_start { table = some 10 ∷ some 11 ∷ some 12 ∷ some 20 ∷ [] })).1)
      (λ st. (pushdefer free 1024 true (some 4) 5 st).1)

abbrev files_of : Ran ℕ → (Fds ℕ → Option ℕ) → Option ℕ
files_of (ran st) f = f st
files_of (failed st) f = none
files_of aborted f = none

-- In the parent, 5 is taken for the first file; the child gets the second one.
chained_parent : files_of chained (λ st. held_by (fdmap 5 st) st.table) ≡ some 20
unfolding pushdefer room_for_defer unregister_all register_all same_cell fdmap newest_first
    fdmap_loop file_at set_file lowest
chained_parent = refl

chained_child :
    files_of (then_run chained (remapfds free 1024)) (λ st. file_at st.table 5) ≡ some 21
unfolding pushdefer room_for_defer unregister_all register_all same_cell remapfds remap_loop
    unregisterfd unregister dodeferred releasefd release_loop mvfd file_at set_file lowest
chained_child = refl

-- Where the new descriptor is past the limit, nothing is moved.
past_limit : files_of (mvfd 1024 1 1024 at_start) (λ st. file_at st.table 1) ≡ none
unfolding mvfd file_at set_file
past_limit = refl
