-- ===== src/Fd/Release.antt =====
-- `releasefd` moves what the shell holds off a descriptor, and the shell still has its files.
use es_shell_mirror.Prelude.{
  ℕ, ◌<◌, ◌≡◌, ◌≢◌, refl, sym, ap, subst, true, false, List, [], ◌∷◌, Option, none, some, ◌==◌,
  arith, Bool-cases, inl, inr, ◌⊎◌, ==→eq, eq→==, some_inj,
}
use es_shell_mirror.Fd.State.{
  Cell, same_cell, Reserve, file_at, Fds, Ran, ran, is_at, release_loop, releasefd,
}
use es_shell_mirror.Fd.Store.{count, one_if, same_cell_refl, same_cell→eq}
use es_shell_mirror.Fd.Own.{
  Reserved, IsValid, held, NotHeld, moved, moved-file, moved-NotHeld, moved-NotHeld_other,
  moved-held, moved-IsValid,
}

-- `dup` finds a descriptor that is not open.
abbrev pub IsFree : {F : Type 0} → (List (Option F) → Option ℕ) → Type 0
IsFree {F} free = (t : List (Option F)) → (n : ℕ) × (free t ≡ some n) × (file_at t n ≡ none)

is_at-cases :
    (n : ℕ) (o : Option ℕ)
    → ((is_at n o ≡ true) × (o ≡ some n)) ⊎ ((is_at n o ≡ false) × (o ≢ some n))
is_at-cases n none = inr (refl, λ e. cc)
is_at-cases n (some m) = elim (Bool-cases (m == n)) [
  | inl same ↦ inl (same, ap some (==→eq m n same))
  | inr other ↦ inr (other, λ e. differ (eq→== m n (some_inj e)) other)
]
  where
    differ : (m == n) ≡ true → (m == n) ≡ false → ⊥
    differ s o = cc

module _ {F : Type 0} where
  -- What `releasefd` keeps: the cells hold their files, the open descriptors but `n` stay, and stay with whom they were.
  pub record Released (n : ℕ) (st st' : Fds F) : Type 0 where
    pub valid : IsValid st'
    pub same_reserved : st'.reserved ≡ st.reserved
    pub not_held : NotHeld n st'
    pub holds : (a : Cell) → Reserved a st → held a st' ≡ held a st
    pub keeps : (k : ℕ) (g : F) → k ≢ n → file_at st.table k ≡ some g → file_at st'.table k ≡ some g
    pub keeps_free : (k : ℕ) (g : F) → file_at st.table k ≡ some g → NotHeld k st → NotHeld k st'

  module _ (free : List (Option F) → Option ℕ) where
    release_loop-nothing :
        (n : ℕ) (rs : List Reserve) (st : Fds F)
        → ((a : Cell) → 0 < count a rs → st.cells a ≢ some n)
        → release_loop free n rs st ≡ ran st
    unfolding release_loop
    release_loop-nothing n [] st not_held = refl
    release_loop-nothing n (r ∷ rs) st not_held = elim (is_at-cases n (st.cells r.fdp)) [
      | inl (hit, e) ↦ absurd (not_held r.fdp (omega (arith, ap one_if (same_cell_refl r.fdp))) e)
      | inr (miss, other) ↦ rw miss (release_loop-nothing n rs st (λ a h. not_held a (omega arith)))
    ]

    pub releasefd-nothing : (n : ℕ) (st : Fds F) → NotHeld n st → releasefd free n st ≡ ran st
    unfolding releasefd
    releasefd-nothing n st not_held = release_loop-nothing n st.reserved st not_held

    abbrev pub Releases : ℕ → Fds F → Ran F → Type 0
    Releases n st r = (st' : Fds F) × (r ≡ ran st') × Released n st st'

    moved-Released :
        (n m : ℕ) (f : F) (a : Cell) (st : Fds F)
        → IsValid st
        → Reserved a st
        → st.cells a ≡ some n
        → file_at st.table n ≡ some f
        → file_at st.table m ≡ none
        → Released n st (moved a m f n st)
    moved-Released n m f a st valid r here open_ unused = record {
      valid = moved-IsValid st valid a m n f r here open_ unused;
      same_reserved = refl;
      not_held = moved-NotHeld st valid a m n f r here open_ unused;
      holds = moved-held st valid a m n f r here open_ unused;
      keeps = moved-file st valid a m n f r here open_ unused;
      keeps_free = moved-NotHeld_other st valid a m n f r here open_ unused;
    }

    pub same-Released : (n : ℕ) (st : Fds F) → IsValid st → NotHeld n st → Released n st st
    same-Released n st valid not_held = record {
      valid = valid;
      same_reserved = refl;
      not_held = not_held;
      holds = λ a r. refl;
      keeps = λ k g other e. e;
      keeps_free = λ k g e free. free;
    }

    miss_first :
        (n : ℕ) (r : Reserve) (rs : List Reserve) (st : Fds F)
        → st.cells r.fdp ≢ some n
        → ((a : Cell) → Reserved a st → st.cells a ≡ some n → 0 < count a (r ∷ rs))
        → (a : Cell) → Reserved a st
        → st.cells a ≡ some n
        → 0 < count a rs
    miss_first n r rs st other sup a ra e = elim (Bool-cases (same_cell r.fdp a)) [
      | inl same ↦
          absurd (other (subst (λ c. st.cells c ≡ some n) (sym (same_cell→eq r.fdp a same)) e))
      | inr differs ↦ omega (arith, sup a ra e, ap one_if differs)
    ]

    release_loop-Releases :
        IsFree free
        → (n : ℕ) (rs : List Reserve) (st : Fds F) → IsValid st
        → ((a : Cell) → 0 < count a rs → Reserved a st)
        → ((a : Cell) → Reserved a st → st.cells a ≡ some n → 0 < count a rs)
        → Releases n st (release_loop free n rs st)
    unfolding release_loop
    release_loop-Releases is_free n [] st valid sub sup =
        (st, refl, same-Released n st valid (λ a r e. absurd (omega (arith, sup a r e))))
    release_loop-Releases is_free n (r ∷ rs) st valid sub sup =
        elim (is_at-cases n (st.cells r.fdp)) [
          | inl (hit, e) ↦
              let reserved : Reserved r.fdp st =
                sub r.fdp (omega (arith, ap one_if (same_cell_refl r.fdp))) in
              let (f, open_) = valid.opened r.fdp n reserved e in
              let (m, chosen, unused) = is_free st.table in
              let then_nothing = release_loop-nothing n rs (moved r.fdp m f n st) (λ a h.
                moved-NotHeld st valid r.fdp m n f reserved e open_ unused a
                  (sub a (omega arith))) in
              rw (hit, open_, chosen)
                (
                  moved r.fdp m f n st,
                  then_nothing,
                  moved-Released n m f r.fdp st valid reserved e open_ unused,
                )
          | inr (miss, other) ↦ rw miss (
              release_loop-Releases is_free n rs st valid (λ a h. sub a (omega arith))
                (miss_first n r rs st other sup))
        ]

    -- `releasefd`, where the kernel has a descriptor to spare, returns, if the reserved cells hold different open
    -- descriptors and none is reserved twice, which stays so: no reserved cell holds `n` any more, each has its file under the
    -- same or another number, the other open descriptors stay open on their files, and an open descriptor that no
    -- reserved cell held is held by none.
    pub releasefd-Releases :
        IsFree free → (n : ℕ) (st : Fds F) → IsValid st → Releases n st (releasefd free n st)
    unfolding releasefd
    releasefd-Releases is_free n st valid =
        release_loop-Releases is_free n st.reserved st valid (λ a h. h) (λ a r e. r)
