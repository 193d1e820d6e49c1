-- ===== src/Fd/Step.antt =====
-- One deferred operation: its cell is given up, the descriptor is released, and its file is moved or closed.
use es_shell_mirror.Prelude.{
  ℕ, ◌+◌, ◌<◌, ◌≡◌, ◌≢◌, refl, sym, ap, subst, ◌∙◌, true, false, List, Option, none, some, ◌==◌,
  arith, Bool-cases, inl, inr, ==→eq, eq→==,
}
use es_shell_mirror.Fd.State.{
  Cell, deferred, same_cell, Reserve, Fds, Ran, ran, then_run, releasefd, unregisterfd, dodeferred,
}
use es_shell_mirror.Fd.Store.{count, one_if, same_cell_refl, unregister-GivenUp}
use es_shell_mirror.Fd.Own.{Reserved, IsValid, held, held_by, NotHeld}
use es_shell_mirror.Fd.Release.{
  IsFree, Released, releasefd-Releases, releasefd-nothing, same-Released,
}
use es_shell_mirror.Fd.Moves.{Settled, Moves, Loose, close_or_mv-Moves}

module _ {F : Type 0} where
  -- A cell that is given up holds a loose descriptor.
  module _ (a : Cell) (rs : List Reserve) (st : Fds F) (valid : IsValid st)
      (reserved : Reserved a st)
      (each : (b : Cell) → count b st.reserved ≡ one_if (same_cell a b) + count b rs) where
    abbrev without : Fds F
    without = record st { reserved = rs }

    still : (b : Cell) → 0 < count b rs → Reserved b st
    still b h = omega (arith, each b)

    given_up : count a rs ≡ 0
    given_up = omega (arith, each a, valid.once a, ap one_if (same_cell_refl a))

    without-IsValid : IsValid without
    without-IsValid = record {
      once = λ b. omega (arith, each b, valid.once b);
      distinct = λ b c n rb rc. valid.distinct b c n (still b rb) (still c rc);
      opened = λ b n rb. valid.opened b n (still b rb);
    }

    without-Loose : Loose (st.cells a) without
    without-Loose = loose (st.cells a) refl
      where
        loose : (o : Option ℕ) → st.cells a ≡ o → Loose o without
        loose none e = tt
        loose (some r) e = (
          valid.opened a r reserved e,
          λ b rb h.
              let same : a ≡ b = valid.distinct a b r reserved (still b rb) e h in
              absurd (omega (arith, rb, subst (λ c. count c rs ≡ 0) same given_up)),
        )

  module _ (free : List (Option F) → Option ℕ) (is_free : IsFree free) where
    abbrev Clears : ℕ → Option ℕ → Fds F → Type 0
    Clears u real st =
        (st' : Fds F) × (releasefd free u st ≡ ran st')
        × Released u st st'
        × Loose real st'
        × (held_by real st'.table ≡ held_by real st.table)

    releasefd-Clears :
        (u : ℕ) (real : Option ℕ) (st : Fds F) → IsValid st → Loose real st → Clears u real st
    releasefd-Clears u none st valid loose =
        let (st', e, released) = releasefd-Releases free is_free u st valid in
        (st', e, released, loose, refl)
    releasefd-Clears u (some r) st valid ((f, open_), not_held) = elim (Bool-cases (r == u)) [
      | inl same ↦
          let at_u : NotHeld u st = subst (λ k. NotHeld k st) (==→eq r u same) not_held in
          (
            st,
            releasefd-nothing free u st at_u,
            same-Released free u st valid at_u,
            ((f, open_), not_held),
            refl,
          )
      | inr other ↦
          let (st', e, released) = releasefd-Releases free is_free u st valid in
          let opened = released.keeps r f (λ same. differs (eq→== r u same) other) open_ in
          (
            st',
            e,
            released,
            ((f, opened), released.keeps_free r f open_ not_held),
            opened ∙ sym open_,
          )
    ]
      where
        differs : (r == u) ≡ true → (r == u) ≡ false → ⊥
        differs s o = cc

  -- One deferred operation: the cell is given up, and its file is at the user's descriptor.
  pub record Stepped (a : Cell) (u : ℕ) (st st' : Fds F) : Type 0 where
    pub valid : IsValid st'
    pub counts : (b : Cell) → count b st.reserved ≡ one_if (same_cell a b) + count b st'.reserved
    pub holds : (b : Cell) → Reserved b st' → held b st' ≡ held b st
    pub arrives : (f : F) → held a st ≡ some f → Settled u f st'
    pub keeps : (v : ℕ) (g : F) → v ≢ u → Settled v g st → Settled v g st'

  module _ (a : Cell) (u : ℕ) (rs : List Reserve) (st st2 st3 : Fds F) (valid : IsValid st)
      (reserved : Reserved a st)
      (each : (b : Cell) → count b st.reserved ≡ one_if (same_cell a b) + count b rs)
      (released : Released u (without a rs st valid reserved each) st2)
      (same : held_by (st.cells a) st2.table ≡ held a st)
      (moves : Moves u (st.cells a) st2 st3) where
    left : st3.reserved ≡ rs
    left = moves.same_reserved ∙ released.same_reserved

    in_left : (b : Cell) → Reserved b st3 → 0 < count b rs
    in_left b h = subst (λ l. 0 < count b l) left h

    in_between : (b : Cell) → 0 < count b rs → Reserved b st2
    in_between b h = subst (λ l. 0 < count b l) (sym released.same_reserved) h

    stepped-keeps : (v : ℕ) (g : F) → v ≢ u → Settled v g st → Settled v g st3
    stepped-keeps v g other (open_, free) =
        let file2 = released.keeps v g other open_ in
        let free2 =
          released.keeps_free v g open_ (λ b h. free b (still a rs st valid reserved each b h)) in
        (moves.keeps v other (free a reserved) ∙ file2, moves.keeps_free v free2)

    stepped : Stepped a u st st3
    stepped = record {
      valid = moves.valid;
      counts = λ b.
          subst (λ l. count b st.reserved ≡ one_if (same_cell a b) + count b l) (sym left) (each b);
      holds = λ b h. moves.holds b (in_between b (in_left b h)) ∙ released.holds b (in_left b h);
      arrives = λ f e. (moves.arrives f (same ∙ e), moves.not_held);
      keeps = stepped-keeps;
    }

  module _ (free : List (Option F) → Option ℕ) (is_free : IsFree free) (limit : ℕ) where
    abbrev pub step : ℕ → ℕ → Fds F → Ran F
    step i u st =
        then_run (unregisterfd (deferred i) st)
          (λ st'. dodeferred free limit (st'.cells (deferred i)) u st')

    abbrev pub Steps : ℕ → ℕ → Fds F → Ran F → Type 0
    Steps i u st r = (st' : Fds F) × (r ≡ ran st') × Stepped (deferred i) u st st'

    pub step-Steps :
        (i u : ℕ) (st : Fds F)
        → u < limit
        → IsValid st
        → Reserved (deferred i) st
        → Steps i u st (step i u st)
    unfolding unregisterfd dodeferred
    step-Steps i u st low valid reserved =
        let a = deferred i in
        let (rs, e, each) = unregister-GivenUp a st.reserved reserved in
        let st1 = without a rs st valid reserved each in
        let valid1 = without-IsValid a rs st valid reserved each in
        let (st2, e2, released, loose, same) =
          releasefd-Clears free is_free u (st.cells a) st1 valid1
            (without-Loose a rs st valid reserved each) in
        let (st3, e3, moves) =
          close_or_mv-Moves limit (st.cells a) u st2 low released.valid released.not_held loose in
        rw (e, e2, e3)
          (st3, refl, stepped a u rs st st2 st3 valid reserved each released same moves)
