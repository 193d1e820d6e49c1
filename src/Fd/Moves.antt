-- ===== src/Fd/Moves.antt =====
-- What moving and closing a descriptor keeps, where no cell of the shell holds it.
use es_shell_mirror.Prelude.{
  ℕ, ◌<◌, ◌≡◌, ◌≢◌, refl, sym, ap, subst, ◌∙◌, true, false, List, Option, none, some, ◌==◌, ltb,
  arith, Bool-cases, inl, inr, ==→eq, eq→==,
}
use es_shell_mirror.Fd.State.{Cell, file_at, set_file, Fds, ran, mvfd, close_fd, close_or_mv}
use es_shell_mirror.Fd.Store.{file_at-set_same, file_at-set_other}
use es_shell_mirror.Fd.Own.{Reserved, IsValid, held, held_by, NotHeld}

module _ {F : Type 0} where
  -- A descriptor that is open on the file, and not the shell's.
  abbrev pub Settled : ℕ → F → Fds F → Type 0
  Settled n f st = (file_at st.table n ≡ some f) × NotHeld n st

  -- What moving or closing does where no cell holds either descriptor.
  pub record Moves (u : ℕ) (real : Option ℕ) (st st' : Fds F) : Type 0 where
    pub valid : IsValid st'
    pub same_reserved : st'.reserved ≡ st.reserved
    pub holds : (a : Cell) → Reserved a st → held a st' ≡ held a st
    pub not_held : NotHeld u st'
    pub arrives : (f : F) → held_by real st.table ≡ some f → file_at st'.table u ≡ some f
    pub keeps : (k : ℕ) → k ≢ u → real ≢ some k → file_at st'.table k ≡ file_at st.table k
    pub keeps_free : (k : ℕ) → NotHeld k st → NotHeld k st'

  module _ (t : List (Option F)) (st : Fds F) (valid : IsValid st)
      (same : (k : ℕ) (a : Cell)
        → Reserved a st
        → st.cells a ≡ some k
        → file_at t k ≡ file_at st.table k) where
    with_table-IsValid : IsValid (record st { table = t })
    with_table-IsValid = record {
      once = valid.once;
      distinct = valid.distinct;
      opened = λ a n r e. let (f, opened) = valid.opened a n r e in (f, same n a r e ∙ opened);
    }

    with_table-held : (a : Cell) → Reserved a st → held a (record st { table = t }) ≡ held a st
    with_table-held a r = kept (st.cells a) refl
      where
        kept : (o : Option ℕ) → st.cells a ≡ o → held_by o t ≡ held_by o st.table
        kept none e = refl
        kept (some k) e = same k a r e

  close-Moves : (u : ℕ) (st : Fds F) → IsValid st → NotHeld u st → Moves u none st (close_fd u st)
  close-Moves u st valid not_held =
      let same = λ (k : ℕ) (a : Cell) (r : Reserved a st) (e : st.cells a ≡ some k).
        file_at-set_other st.table u k none (λ k≡u. not_held a r (e ∙ ap some k≡u)) in
      record {
        valid = with_table-IsValid (set_file st.table u none) st valid same;
        same_reserved = refl;
        holds = with_table-held (set_file st.table u none) st valid same;
        not_held = not_held;
        arrives = λ f e. cc;
        keeps = λ k other real. file_at-set_other st.table u k none other;
        keeps_free = λ k free. free;
      }

  -- Neither the old nor the new descriptor is a cell's.
  abbrev moved_table : ℕ → ℕ → F → Fds F → List (Option F)
  moved_table old new f st = set_file (set_file st.table new (some f)) old none

  module _ (old u : ℕ) (f : F) (st : Fds F) (other : old ≢ u) where
    moved_table-new : file_at (moved_table old u f st) u ≡ some f
    moved_table-new =
        file_at-set_other (set_file st.table u (some f)) old u none (λ e. other (sym e))
        ∙ file_at-set_same st.table u (some f)

    moved_table-other :
        (k : ℕ) → k ≢ u → k ≢ old → file_at (moved_table old u f st) k ≡ file_at st.table k
    moved_table-other k not_u not_old =
        file_at-set_other (set_file st.table u (some f)) old k none not_old
        ∙ file_at-set_other st.table u k (some f) not_u

    mv-Moves :
        IsValid st
        → NotHeld u st
        → NotHeld old st
        → file_at st.table old ≡ some f
        → Moves u (some old) st (record st { table = moved_table old u f st })
    mv-Moves valid not_held not_held_old open_ =
        let same = λ (k : ℕ) (a : Cell) (r : Reserved a st) (e : st.cells a ≡ some k).
          moved_table-other k (λ k≡u. not_held a r (e ∙ ap some k≡u))
            (λ k≡old. not_held_old a r (e ∙ ap some k≡old)) in
        record {
          valid = with_table-IsValid (moved_table old u f st) st valid same;
          same_reserved = refl;
          holds = with_table-held (moved_table old u f st) st valid same;
          not_held = not_held;
          arrives = λ g e. moved_table-new ∙ sym open_ ∙ e;
          keeps = λ k not_u real. moved_table-other k not_u (λ e. real (ap some (sym e)));
          keeps_free = λ k free. free;
        }

  stay-Moves : (u : ℕ) (st : Fds F) → IsValid st → NotHeld u st → Moves u (some u) st st
  stay-Moves u st valid not_held = record {
    valid = valid;
    same_reserved = refl;
    holds = λ a r. refl;
    not_held = not_held;
    arrives = λ f e. e;
    keeps = λ k other real. refl;
    keeps_free = λ k free. free;
  }

  -- What is moved is open and in no cell.
  abbrev pub Loose : Option ℕ → Fds F → Type 0
  Loose none st = Unit
  Loose (some r) st = ((f : F) × (file_at st.table r ≡ some f)) × NotHeld r st

  pub close_or_mv-Moves :
      (limit : ℕ) (real : Option ℕ) (u : ℕ) (st : Fds F)
      → u < limit
      → IsValid st
      → NotHeld u st
      → Loose real st
      → (st' : Fds F) × (close_or_mv limit real u st ≡ ran st') × Moves u real st st'
  unfolding mvfd
  close_or_mv-Moves limit none u st low valid not_held loose =
      (close_fd u st, refl, close-Moves u st valid not_held)
  close_or_mv-Moves limit (some r) u st low valid not_held ((f, open_), free) =
      elim (Bool-cases (r == u)) [
        | inl same ↦ rw same (
          st,
          refl,
          subst (λ k. Moves u (some k) st st) (sym (==→eq r u same))
              (stay-Moves u st valid not_held),
        )
        | inr other ↦
            let differ : r ≢ u = λ e. (differs (eq→== r u e) other) in
            let below : ltb u limit ≡ true = ground arith in
            rw (other, open_, below) (_, refl, mv-Moves r u f st differ valid not_held free open_)
      ]
    where
      differs : (r == u) ≡ true → (r == u) ≡ false → ⊥
      differs s o = cc
