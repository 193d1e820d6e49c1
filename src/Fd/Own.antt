-- ===== src/Fd/Own.antt =====
-- Which descriptors the shell's cells hold, and what moving one of them to a free descriptor keeps.
use es_shell_mirror.Prelude.{
  ℕ, ◌<◌, ◌≤◌, ◌≡◌, ◌≢◌, refl, sym, ap, subst, ◌∙◌, List, Option, none, some, inl, inr, some_inj,
}
use es_shell_mirror.Fd.State.{Cell, file_at, set_file, Fds, set_cell}
use es_shell_mirror.Fd.Store.{file_at-set_same, file_at-set_other, set_cell-cases, count}

module _ {F : Type 0} where
  abbrev pub Reserved : Cell → Fds F → Type 0
  Reserved a st = 0 < count a st.reserved

  -- No cell is reserved twice, no two hold the same descriptor, and what they hold is open.
  pub record IsValid (st : Fds F) : Type 0 where
    pub once : (a : Cell) → count a st.reserved ≤ 1
    pub distinct :
        (a b : Cell) (n : ℕ)
        → Reserved a st
        → Reserved b st
        → st.cells a ≡ some n
        → st.cells b ≡ some n
        → a ≡ b
    pub opened :
        (a : Cell) (n : ℕ)
        → Reserved a st
        → st.cells a ≡ some n
        → (f : F) × (file_at st.table n ≡ some f)

  abbrev pub held_by : Option ℕ → List (Option F) → Option F
  held_by none t = none
  held_by (some n) t = file_at t n

  -- The file that a cell holds.
  abbrev pub held : Cell → Fds F → Option F
  held a st = held_by (st.cells a) st.table

  -- A descriptor that the shell does not hold.
  abbrev pub NotHeld : ℕ → Fds F → Type 0
  NotHeld n st = (a : Cell) → Reserved a st → st.cells a ≢ some n

  abbrev pub moved : Cell → ℕ → F → ℕ → Fds F → Fds F
  moved a m f n st = record st {
    cells = set_cell a (some m) st.cells;
    table = set_file (set_file st.table m (some f)) n none;
  }

  clash : (o : Option F) (f : F) → o ≡ none → o ≡ some f → ⊥
  clash o f e e' = cc

  module _ (st : Fds F) (valid : IsValid st) (a : Cell) (m n : ℕ) (f : F) (r : Reserved a st)
      (here : st.cells a ≡ some n) (open_ : file_at st.table n ≡ some f)
      (unused : file_at st.table m ≡ none) where
    m≢n : m ≢ n
    m≢n e = clash (file_at st.table n) f (subst (λ k. file_at st.table k ≡ none) e unused) open_

    moved-new : file_at (moved a m f n st).table m ≡ some f
    moved-new =
        file_at-set_other (set_file st.table m (some f)) n m none m≢n
        ∙ file_at-set_same st.table m (some f)

    pub moved-old : file_at (moved a m f n st).table n ≡ none
    moved-old = file_at-set_same (set_file st.table m (some f)) n none

    -- The other open descriptors stay.
    pub moved-file :
        (k : ℕ) (g : F)
        → k ≢ n
        → file_at st.table k ≡ some g
        → file_at (moved a m f n st).table k ≡ some g
    moved-file k g other e =
        file_at-set_other (set_file st.table m (some f)) n k none other
        ∙ file_at-set_other st.table m k (some f) (λ same.
          clash (file_at st.table m) g unused (subst (λ x. file_at st.table x ≡ some g) same e))
        ∙ e

    not_old : (b : Cell) (k : ℕ) → a ≢ b → Reserved b st → st.cells b ≡ some k → k ≢ n
    not_old b k other rb e same = other (valid.distinct a b n r rb here (e ∙ ap some same))

    pub moved-NotHeld : NotHeld n (moved a m f n st)
    moved-NotHeld b rb e = elim (set_cell-cases a (some m) st.cells b) [
      | inl (same, v) ↦ m≢n (some_inj (sym v ∙ e))
      | inr (other, v) ↦ not_old b n other rb (sym v ∙ e) refl
    ]

    pub moved-NotHeld_other :
        (k : ℕ) (g : F) → file_at st.table k ≡ some g → NotHeld k st → NotHeld k (moved a m f n st)
    moved-NotHeld_other k g e not_held b rb h = elim (set_cell-cases a (some m) st.cells b) [
      | inl (same, v) ↦
          clash (file_at st.table k) g
            (subst (λ x. file_at st.table x ≡ none) (some_inj (sym v ∙ h)) unused) e
      | inr (other, v) ↦ not_held b rb (sym v ∙ h)
    ]

    pub moved-held : (b : Cell) → Reserved b st → held b (moved a m f n st) ≡ held b st
    moved-held b rb = elim (set_cell-cases a (some m) st.cells b) [
      | inl (same, v) ↦
          ap (λ o. held_by o (moved a m f n st).table) v
          ∙ moved-new
          ∙ sym open_
          ∙ ap (λ o. held_by o st.table) (sym (subst (λ c. st.cells c ≡ some n) same here))
      | inr (other, v) ↦
          ap (λ o. held_by o (moved a m f n st).table) v ∙ kept (st.cells b) refl other
    ]
      where
        kept :
            (o : Option ℕ)
            → st.cells b ≡ o
            → a ≢ b
            → held_by o (moved a m f n st).table ≡ held_by o st.table
        kept none e other = refl
        kept (some k) e other =
            let (g, opened) = valid.opened b k rb e in
            moved-file k g (not_old b k other rb e) opened ∙ sym opened

    -- No cell held what was not open.
    not_new : (b : Cell) (k : ℕ) → Reserved b st → m ≡ k → st.cells b ≡ some k → ⊥
    not_new b k rb e h =
        let (g, opened) = valid.opened b k rb h in
        clash (file_at st.table k) g (subst (λ x. file_at st.table x ≡ none) e unused) opened

    moved-distinct :
        (b c : Cell) (k : ℕ)
        → Reserved b st
        → Reserved c st
        → (moved a m f n st).cells b ≡ some k
        → (moved a m f n st).cells c ≡ some k
        → b ≡ c
    moved-distinct b c k rb rc e e' = elim (set_cell-cases a (some m) st.cells b) [
      | inl (same, v) ↦ elim (set_cell-cases a (some m) st.cells c) [
        | inl (same', v') ↦ sym same ∙ same'
        | inr (other', v') ↦ absurd (not_new c k rc (some_inj (sym v ∙ e)) (sym v' ∙ e'))
      ]
      | inr (other, v) ↦ elim (set_cell-cases a (some m) st.cells c) [
        | inl (same', v') ↦ absurd (not_new b k rb (some_inj (sym v' ∙ e')) (sym v ∙ e))
        | inr (other', v') ↦ valid.distinct b c k rb rc (sym v ∙ e) (sym v' ∙ e')
      ]
    ]

    moved-opened :
        (b : Cell) (k : ℕ)
        → Reserved b st
        → (moved a m f n st).cells b ≡ some k
        → (g : F) × (file_at (moved a m f n st).table k ≡ some g)
    moved-opened b k rb e = elim (set_cell-cases a (some m) st.cells b) [
      | inl (same, v) ↦ (
        f,
        subst (λ x. file_at (moved a m f n st).table x ≡ some f) (some_inj (sym v ∙ e)) moved-new,
      )
      | inr (other, v) ↦
          let (g, opened) = valid.opened b k rb (sym v ∙ e) in
          (g, moved-file k g (not_old b k other rb (sym v ∙ e)) opened)
    ]

    pub moved-IsValid : IsValid (moved a m f n st)
    moved-IsValid = record { once = valid.once; distinct = moved-distinct; opened = moved-opened }
