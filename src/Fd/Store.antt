-- ===== src/Fd/Store.antt =====
-- Laws of the table of files, of the cells and of the list of reserved descriptors.
use es_shell_mirror.Prelude.{
  ℕ, zero, suc, ◌+◌, ◌<◌, ◌≡◌, ◌≢◌, refl, ap, subst, Bool, true, false, List, [], ◌∷◌, Option, none,
  some, arith, Bool-cases, inl, inr, ◌⊎◌, ==→eq, eq→==,
}
use es_shell_mirror.Fd.State.{
  Cell, deferred, owner, same_cell, Reserve, file_at, set_file, set_cell, last_of, before_last,
  move_last, unregister,
}

module _ {F : Type 0} where
  pub file_at-set_same :
      (t : List (Option F)) (n : ℕ) (f : Option F) → file_at (set_file t n f) n ≡ f
  unfolding file_at set_file
  file_at-set_same [] zero f = refl
  file_at-set_same [] (suc n) f = file_at-set_same [] n f
  file_at-set_same (g ∷ t) zero f = refl
  file_at-set_same (g ∷ t) (suc n) f = file_at-set_same t n f

  pub file_at-set_other :
      (t : List (Option F)) (n m : ℕ) (f : Option F)
      → m ≢ n
      → file_at (set_file t n f) m ≡ file_at t m
  unfolding file_at set_file
  file_at-set_other [] zero zero f other = absurd (other refl)
  file_at-set_other [] zero (suc m) f other = refl
  file_at-set_other [] (suc n) zero f other = refl
  file_at-set_other [] (suc n) (suc m) f other = file_at-set_other [] n m f (λ e. other (ap suc e))
  file_at-set_other (g ∷ t) zero zero f other = absurd (other refl)
  file_at-set_other (g ∷ t) zero (suc m) f other = refl
  file_at-set_other (g ∷ t) (suc n) zero f other = refl
  file_at-set_other (g ∷ t) (suc n) (suc m) f other =
      file_at-set_other t n m f (λ e. other (ap suc e))

pub same_cell→eq : (a b : Cell) → same_cell a b ≡ true → a ≡ b
unfolding same_cell
same_cell→eq (deferred i) (deferred j) h = ap deferred (==→eq i j h)
same_cell→eq (deferred i) (owner j) h = absurd (ground arith)
same_cell→eq (owner i) (deferred j) h = absurd (ground arith)
same_cell→eq (owner i) (owner j) h = ap owner (==→eq i j h)

pub same_cell_refl : (a : Cell) → same_cell a a ≡ true
unfolding same_cell
same_cell_refl (deferred i) = eq→== i i refl
same_cell_refl (owner i) = eq→== i i refl

pub set_cell_same : (a : Cell) (v : Option ℕ) (cells : Cell → Option ℕ) → set_cell a v cells a ≡ v
set_cell_same a v cells = rw (same_cell_refl a) refl

-- A cell is the one that was set, or is as it was.
pub set_cell-cases :
    (a : Cell) (v : Option ℕ) (cells : Cell → Option ℕ) (b : Cell)
    → ((a ≡ b) × (set_cell a v cells b ≡ v)) ⊎ ((a ≢ b) × (set_cell a v cells b ≡ cells b))
set_cell-cases a v cells b = elim (Bool-cases (same_cell a b)) [
  | inl same ↦ inl (same_cell→eq a b same, rw same refl)
  | inr other ↦
      inr (
        (λ e. differ (subst (λ c. same_cell a c ≡ true) e (same_cell_refl a)) other),
        rw other refl,
      )
]
  where
    differ : same_cell a b ≡ true → same_cell a b ≡ false → ⊥
    differ s o = cc

-- How often a cell is reserved.
abbrev pub one_if : Bool → ℕ
one_if true = 1
one_if false = 0

abbrev pub count : Cell → List Reserve → ℕ
count a [] = 0
count a (r ∷ rs) = one_if (same_cell r.fdp a) + count a rs

count-before_last :
    (a : Cell) (r : Reserve) (rs : List Reserve)
    → count a (last_of r rs ∷ before_last r rs) ≡ count a (r ∷ rs)
count-before_last a r [] = refl
count-before_last a r (r' ∷ rs) = omega (arith, count-before_last a r' rs)

count-move_last : (a : Cell) (rs : List Reserve) → count a (move_last rs) ≡ count a rs
count-move_last a [] = refl
count-move_last a (r ∷ rs) = count-before_last a r rs

-- A reserved cell is given up, and the others stay.
abbrev pub GivenUp : Cell → List Reserve → Option (List Reserve) → Type 0
GivenUp a rs l =
    (rs' : List Reserve) × (l ≡ some rs')
    × ((b : Cell) → count b rs ≡ one_if (same_cell a b) + count b rs')

pub unregister-GivenUp :
    (a : Cell) (rs : List Reserve) → 0 < count a rs → GivenUp a rs (unregister a rs)
unfolding unregister
unregister-GivenUp a [] h = absurd (omega arith)
unregister-GivenUp a (r ∷ rs) h = elim (Bool-cases (same_cell r.fdp a)) [
  | inl same ↦ rw same (move_last rs, refl, λ b. found b (same_cell→eq r.fdp a same))
  | inr other ↦ rw other (later (unregister-GivenUp a rs (less other h)))
]
  where
    found :
        (b : Cell) → r.fdp ≡ a → count b (r ∷ rs) ≡ one_if (same_cell a b) + count b (move_last rs)
    found b e = rw (e, count-move_last b rs) refl

    less : same_cell r.fdp a ≡ false → 0 < count a (r ∷ rs) → 0 < count a rs
    less other h = omega (arith, subst (λ c. 0 < one_if c + count a rs) other h)

    later :
        GivenUp a rs (unregister a rs)
        → GivenUp a (r ∷ rs) (elim (unregister a rs) [ none ↦ none | some l ↦ some (r ∷ l) ])
    later (l, e, each) = rw e (r ∷ l, refl, λ b. omega (arith, each b))
