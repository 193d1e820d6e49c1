-- ===== src/Fd/Map.antt =====
-- `fdmap` finds the descriptor that a deferred operation will move.
use es_shell_mirror.Prelude.{
  ℕ, suc, ◌+◌, ◌≡◌, ◌≢◌, refl, sym, ap, ◌∙◌, List, [], ◌∷◌, ◌++◌, Option, none, some, ◌==◌, arith,
  Bool-cases, inl, inr, eq→==, ==→eq, length, length-append, append_assoc, append-nil,
}
use es_shell_mirror.Fd.State.{Cell, deferred, Fds, ran, file_at, remapfds}
use es_shell_mirror.Fd.Defer.{newest_first, fdmap_loop, map_one, fdmap}
use es_shell_mirror.Fd.Own.{IsValid, held, held_by}
use es_shell_mirror.Fd.Release.{IsFree}
use es_shell_mirror.Fd.Remap.{Absent, AllBelow, InCells, remapfds-Settles}

newest_first-append :
    (i : ℕ) (us vs : List ℕ)
    → newest_first i (us ++ vs) ≡ newest_first (i + length us) vs ++ newest_first i us
unfolding newest_first
newest_first-append i [] vs =
    sym (append-nil (newest_first (i + 0) vs) ∙ ap (λ k. newest_first k vs) (omega arith))
newest_first-append i (u ∷ us) vs =
    ap (λ l. l ++ (i, u) ∷ []) (newest_first-append (suc i) us vs)
    ∙ append_assoc (newest_first (suc i + length us) vs) (newest_first (suc i) us) ((i, u) ∷ [])
    ∙ ap (λ k. newest_first k vs ++ (newest_first (suc i) us ++ (i, u) ∷ [])) (omega arith)

fdmap_loop-append :
    (l l' : List (ℕ × ℕ)) (cells : Cell → Option ℕ) (o : Option ℕ)
    → fdmap_loop (l ++ l') cells o ≡ fdmap_loop l' cells (fdmap_loop l cells o)
unfolding fdmap_loop
fdmap_loop-append [] l' cells none = refl
fdmap_loop-append [] l' cells (some fd) = refl
fdmap_loop-append ((i, u) ∷ l) l' cells none = refl
fdmap_loop-append ((i, u) ∷ l) l' cells (some fd) =
    fdmap_loop-append l l' cells (map_one fd u (cells (deferred i)))

map_one-other : (fd u : ℕ) (o : Option ℕ) → fd ≢ u → map_one fd u o ≡ some fd
map_one-other fd u o other = elim (Bool-cases (fd == u)) [
  | inl same ↦ absurd (other (==→eq fd u same))
  | inr differs ↦ rw differs refl
]

fdmap_loop-Absent :
    (i fd : ℕ) (us : List ℕ) (cells : Cell → Option ℕ)
    → Absent fd us
    → fdmap_loop (newest_first i us) cells (some fd) ≡ some fd
unfolding newest_first fdmap_loop
fdmap_loop-Absent i fd [] cells h = refl
fdmap_loop-Absent i fd (u ∷ us) cells (other, h) =
    fdmap_loop-append (newest_first (suc i) us) ((i, u) ∷ []) cells (some fd)
    ∙ ap (fdmap_loop ((i, u) ∷ []) cells) (fdmap_loop-Absent (suc i) fd us cells h)
    ∙ ap (fdmap_loop [] cells) (map_one-other fd u (cells (deferred i)) other)

module _ {F : Type 0} where
  fdmap-last :
      (before : List ℕ) (u : ℕ) (after : List ℕ) (r : ℕ) (st : Fds F)
      → st.deftab ≡ before ++ u ∷ after
      → Absent u after
      → Absent r before
      → st.cells (deferred (length before)) ≡ some r
      → fdmap u st ≡ some r
  unfolding fdmap newest_first fdmap_loop
  fdmap-last before u after r st table later earlier here =
      let i = length before in
      let first = newest_first 0 before in
      let hit : map_one u u (st.cells (deferred i)) ≡ some r = rw (eq→== u u refl, here) refl in
      ap (λ l. fdmap_loop (newest_first 0 l) st.cells (some u)) table
      ∙ ap (λ l. fdmap_loop l st.cells (some u)) (newest_first-append 0 before (u ∷ after))
      ∙ ap (λ k. fdmap_loop (newest_first k (u ∷ after) ++ first) st.cells (some u)) (omega arith)
      ∙ fdmap_loop-append (newest_first i (u ∷ after)) first st.cells (some u)
      ∙ ap (fdmap_loop first st.cells) (
          fdmap_loop-append (newest_first (suc i) after) ((i, u) ∷ []) st.cells (some u)
          ∙ ap (fdmap_loop ((i, u) ∷ []) st.cells)
              (fdmap_loop-Absent (suc i) u after st.cells later)
          ∙ ap (fdmap_loop [] st.cells) hit)
      ∙ fdmap_loop-Absent 0 r before st.cells earlier

  -- While an operation is deferred, `fdmap` of the descriptor gives one that is open on the file that `remapfds` will give the
  -- descriptor itself: where no later operation is on that descriptor, and no earlier one on the real descriptor; the kernel has
  -- descriptors to spare, the shell's cells hold different open ones, those of the deferred operations are reserved, and the
  -- operations are on descriptors below the kernel's limit.
  pub fdmap-remapfds :
      (free : List (Option F) → Option ℕ)
      → IsFree free
      → (limit : ℕ) (before : List ℕ) (u : ℕ) (after : List ℕ) (r : ℕ) (st : Fds F)
      → st.deftab ≡ before ++ u ∷ after
      → AllBelow limit (before ++ u ∷ after)
      → IsValid st
      → InCells 0 (before ++ u ∷ after) st
      → Absent u after
      → Absent r before
      → st.cells (deferred (length before)) ≡ some r
      → (st' : Fds F) × (remapfds free limit st ≡ ran st')
        × (held_by (fdmap u st) st.table ≡ file_at st'.table u)
  fdmap-remapfds free is_free limit before u after r st table all valid cells later earlier here =
      let i = length before in
      let (f, open_) =
        valid.opened (deferred i) r
          (cells i (omega arith) (omega (arith, length-append before (u ∷ after)))) here in
      let held_here : held (deferred i) st ≡ some f = ap (λ o. held_by o st.table) here ∙ open_ in
      let (st', e, settled, holds, empty) =
        remapfds-Settles free is_free limit before u after f st table all valid cells later
          held_here in
      (
        st',
        e,
        ap (λ o. held_by o st.table) (fdmap-last before u after r st table later earlier here)
            ∙ open_
            ∙ sym (settled.0),
      )
