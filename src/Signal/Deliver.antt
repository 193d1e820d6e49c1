-- ===== src/Signal/Deliver.antt =====
-- The count of the signals that wait, and what keeps it.
use es_shell_mirror.Prelude.{
  ℕ, zero, suc, ◌+◌, ◌-◌, ◌<◌, ◌≡◌, refl, sym, ap, subst, ◌∙◌, Bool, true, false, ◌||◌, List, [],
  ◌∷◌, ◌++◌, Option, none, some, ◌==◌, ltb, if◌then◌else◌, replicate, arith,
}
use es_shell_mirror.Signal.State.{
  Sigeffect, Signals, Ended, returned, jumped, threw, exited, aborted, outside, set_caught, note,
  first_caught, deliver, deliver_first, sigchk, sig_nochange, sig_catch, sig_default, sig_ignore,
  sig_noop, sig_special, sigint,
}

abbrev pub count_caught : List Bool → ℕ
count_caught [] = 0
count_caught (b ∷ l) = (if b then 1 else 0) + count_caught l

abbrev pub Counted : Signals → Type 0
Counted st = st.sigcount ≡ count_caught st.caught

-- The same of what a function leaves.
abbrev pub CountedIn : Ended → Type 0
CountedIn (returned st) = Counted st
CountedIn (jumped st) = Counted st
CountedIn (threw sig st) = Counted st
CountedIn exited = Unit
CountedIn aborted = Unit
CountedIn outside = Unit

-- Setting an entry that was not set counts one.
abbrev pub Sets : List Bool → Option (Bool × List Bool) → Type 0
Sets l none = Unit
Sets l (some (was, l')) = count_caught l' ≡ (if was then 0 else 1) + count_caught l

pub set_caught-Sets : (sig : ℕ) (l : List Bool) → Sets l (set_caught sig l)
unfolding set_caught
set_caught-Sets sig [] = tt
set_caught-Sets zero (true ∷ l) = omega arith
set_caught-Sets zero (false ∷ l) = omega arith
set_caught-Sets (suc sig) (b ∷ l) = behind (set_caught sig l) (set_caught-Sets sig l)
  where
    behind :
        (r : Option (Bool × List Bool))
        → Sets l r
        → Sets (b ∷ l) (elim r [ none ↦ none | some (was, l') ↦ some (was, b ∷ l') ])
    behind none h = tt
    behind (some (was, l')) h = omega (arith, h)

pub note-CountedIn :
    (st : Signals) (r : Option (Bool × List Bool))
    → Counted st
    → Sets st.caught r
    → CountedIn (note r st)
note-CountedIn st none h set = tt
note-CountedIn st (some (was, l)) h set = whether was st.slow set
  where
    whether :
        (was slow : Bool)
        → count_caught l ≡ (if was then 0 else 1) + count_caught st.caught
        → CountedIn (
            let st' : Signals = record st {
              caught = l;
              sigcount = if was then st.sigcount else st.sigcount + 1;
              interrupted = true;
            } in
            if slow then jumped st' else returned st')
    whether true true set = omega (arith, h, set)
    whether true false set = omega (arith, h, set)
    whether false true set = omega (arith, h, set)
    whether false false set = omega (arith, h, set)

-- The first entry that is set.
abbrev pub IsFirst : ℕ → List Bool → List Bool → Option (ℕ × List Bool) → Type 0
IsFirst n l rest r =
    (k : ℕ) × (l ≡ replicate k false ++ true ∷ rest)
    × (r ≡ some (n + k, replicate k false ++ false ∷ rest))

first_caught-IsFirst :
    (n : ℕ) (l : List Bool)
    → 0 < count_caught l
    → (rest : List Bool) × IsFirst n l rest (first_caught n l)
unfolding first_caught
first_caught-IsFirst n [] h = absurd (omega arith)
first_caught-IsFirst n (true ∷ l) h = (l, (0, refl, ap (λ k. some (k, false ∷ l)) (omega arith)))
first_caught-IsFirst n (false ∷ l) h =
    let (rest, (k, here, found)) = first_caught-IsFirst (suc n) l (omega arith) in
    (
      rest,
      (
        suc k,
        ap (λ l. false ∷ l) here,
        rw found (ap (λ i. some (i, false ∷ (replicate k false ++ false ∷ rest))) (omega arith)),
      ),
    )

count-replicate :
    (k : ℕ) (b : Bool) (rest : List Bool)
    → count_caught (replicate k false ++ b ∷ rest) ≡ (if b then 1 else 0) + count_caught rest
count-replicate zero b rest = refl
count-replicate (suc k) b rest = ap (λ n. 0 + n) (count-replicate k b rest) ∙ omega arith

-- The state after the first signal that waits is taken out.
abbrev pub taken_out : ℕ → List Bool → Signals → Signals
taken_out k rest st = record st {
  sigcount = count_caught rest;
  caught = replicate k false ++ false ∷ rest;
}

abbrev pub Delivers : Signals → Ended → Type 0
Delivers st e =
    (k : ℕ) × (rest : List Bool) × (st.caught ≡ replicate k false ++ true ∷ rest)
    × (e ≡ deliver (st.sigeffect k) k (taken_out k rest st))

pub deliver_first-Delivers :
    (st : Signals)
    → Counted st
    → 0 < st.sigcount
    → Delivers st (deliver_first (first_caught 0 st.caught) st)
deliver_first-Delivers st counted waiting =
    let (rest, (k, here, found)) = first_caught-IsFirst 0 st.caught (omega arith) in
    let less : st.sigcount - 1 ≡ count_caught rest =
      omega (arith, counted, ap count_caught here, count-replicate k true rest) in
    let at_k : 0 + k ≡ k = omega arith in
    (
      k,
      rest,
      here,
      ap (λ r. deliver_first r st) found
          ∙ ap
              (λ i. deliver (st.sigeffect i) i (record st {
                sigcount = st.sigcount - 1;
                caught = replicate k false ++ false ∷ rest;
              }))
              at_k
          ∙ ap
              (λ n.
                deliver (st.sigeffect k) k
                  (record st { sigcount = n; caught = replicate k false ++ false ∷ rest }))
              less,
    )

deliver-CountedIn :
    (effect : Sigeffect) (sig : ℕ) (st : Signals) → Counted st → CountedIn (deliver effect sig st)
deliver-CountedIn sig_catch sig st h = h
deliver-CountedIn sig_special sig st h = whether (sig == sigint)
  where
    whether :
        (b : Bool)
        → CountedIn (if b then threw sig (record st { sigint_newline = true }) else aborted)
    whether true = h
    whether false = tt
deliver-CountedIn sig_noop sig st h = h
deliver-CountedIn sig_nochange sig st h = h
deliver-CountedIn sig_default sig st h = h
deliver-CountedIn sig_ignore sig st h = h

taken_out-Counted : (k : ℕ) (rest : List Bool) (st : Signals) → Counted (taken_out k rest st)
taken_out-Counted k rest st = omega (arith, count-replicate k false rest)

pub sigchk-CountedIn : (st : Signals) → Counted st → CountedIn (sigchk st)
unfolding sigchk
sigchk-CountedIn st h = whether (st.sigcount == 0 || ltb 0 st.blocked) st.hasforked refl
  where
    taken : 0 < st.sigcount → CountedIn (deliver_first (first_caught 0 st.caught) st)
    taken waiting =
        let (k, rest, here, e) = deliver_first-Delivers st h waiting in
        subst CountedIn (sym e)
          (deliver-CountedIn (st.sigeffect k) k (taken_out k rest st) (taken_out-Counted k rest st))

    whether :
        (b forked : Bool)
        → (st.sigcount == 0 || ltb 0 st.blocked) ≡ b
        → CountedIn (
            if b
            then returned st
            else (if forked then exited else deliver_first (first_caught 0 st.caught) st))
    whether true forked e = h
    whether false true e = tt
    whether false false e = taken (ground arith)
