-- ===== src/Vars/Lookup.antt =====
-- What the operations of var.c do to the values of the variables.
use es_shell_mirror.Prelude.{
  ℕ, zero, suc, ◌≡◌, refl, sym, ◌∙◌, ap, Bool, true, false, ◌||◌, List, [], ◌∷◌, ◌++◌, CString,
  codes, Option, none, some, subst, ap₂, if◌then◌else◌, streq, is_nil, arith, drop,
}
use es_shell_mirror.Syntax.Tree.{Term}
use es_shell_mirror.Dict.Table.{dictget}
use es_shell_mirror.Dict.Room.{Roomy}
use es_shell_mirror.Vars.State.{
  Var, Push, VarState, Binding, Outcome, done, thrown, then_do, Library, iscounting, validatevar,
  complaint,
}
use es_shell_mirror.Vars.Access.{
  defn_of, dirty_for, push_defn, pushed, pop_defn, rest_of_pushes, varpush, varpop, rebind,
  assigned, vardef, unwind, from_top,
}
use es_shell_mirror.Vars.Values.{
  value, value-popped, value-assigned, popped-Roomy, callsettor-none, varpop_lem,
}

module _ {C : Type 0} (lib : Library C) where
  -- No variable is a settor.
  abbrev pub NoSettors : VarState C → Type 0
  NoSettors st = (name : CString) → value st (codes "set-" ++ name) ≡ []

  -- No push brings a settor back.
  abbrev pub Harmless : List (Push C) → Type 0
  Harmless [] = Unit
  Harmless (p ∷ list) =
      ((name : CString) → streq p.name (codes "set-" ++ name) ≡ true → p.saved ≡ []) × Harmless list

  -- The value that the oldest of the first `n` pushes of a name has saved, or `v`.
  abbrev pub oldest : ℕ → List (Push C) → CString → List (Term C) → List (Term C)
  oldest zero list x v = v
  oldest (suc n) [] x v = v
  oldest (suc n) (p ∷ list) x v = oldest n list x (if streq p.name x then p.saved else v)

  abbrev pub Unwound : ℕ → VarState C → Outcome C Unit → Type 0
  Unwound n st out =
      (st' : VarState C) × (out ≡ done tt st')
      × ((x : CString) → value st' x ≡ oldest n st.pushlist x (value st x))
      × (st'.pushlist ≡ drop n st.pushlist)

  if_nil :
      (b : Bool) (a c : List (Term C)) → (b ≡ true → a ≡ []) → c ≡ [] → (if b then a else c) ≡ []
  if_nil true a c h h' = h refl
  if_nil false a c h h' = h'

  -- In a valid table with room for `n` growths, an exception takes `n` local variables back, where
  -- no settor is set or comes back by that: every name has what the oldest of these pushes saved of
  -- it, or else its value, and the pushes are gone.
  pub unwind-Unwound :
      (n : ℕ) (st : VarState C)
      → Roomy n st.vars
      → NoSettors st
      → Harmless st.pushlist
      → Unwound n st (unwind lib n st)
  unfolding unwind pop_defn
  unwind-Unwound zero st room none_set harmless = (st, refl, λ x. refl, refl)
  unwind-Unwound (suc n) st room none_set harmless =
      go (λ st1 a b c. unwind-Unwound n st1 a b c) st.pushlist refl harmless
    where
      go :
          ((st1 : VarState C)
            → Roomy n st1.vars
            → NoSettors st1
            → Harmless st1.pushlist
            → Unwound n st1 (unwind lib n st1))
          → (list : List (Push C)) → st.pushlist ≡ list
          → Harmless list
          → (st' : VarState C) × (from_top lib list
                (λ p. then_do (varpop lib p st) (λ one st''. unwind lib n st''))
                st
              ≡ done tt st')
            × ((x : CString) → value st' x ≡ oldest (suc n) list x (value st x))
            × (st'.pushlist ≡ drop (suc n) list)
      go ih [] e h = (st, refl, λ x. refl, e)
      go ih (p ∷ list) e h =
          let st1 = pop_defn lib p p.saved (dirty_for p.name st) in
          let stack1 : st1.pushlist ≡ list = ap (rest_of_pushes lib) e in
          let values1 = λ (x : CString). value-popped lib (suc n) p p.saved st.vars x room in
          let (st', out, values, stack) =
            ih st1 (popped-Roomy lib n p p.saved st.vars room)
              (λ name.
                values1 (codes "set-" ++ name)
                ∙ if_nil (streq p.name (codes "set-" ++ name)) p.saved
                    (value st (codes "set-" ++ name)) (h.0 name) (none_set name))
              (subst Harmless (sym stack1) h.1) in
          rw (varpop_lem lib p st (none_set p.name)) (
            st',
            out,
            λ x. values x ∙ ap₂ (λ l v. oldest n l x v) stack1 (values1 x),
            stack ∙ ap (drop n) stack1,
          )

  -- Names that can be a variable.
  complaint-none :
      (name : CString) → (is_nil name || iscounting name) ≡ false → complaint lib name ≡ none
  unfolding complaint
  complaint-none name h = ground (arith, h)

  pub varpush_lem :
      (name : CString) (defn : List (Term C)) (st : VarState C)
      → (is_nil name || iscounting name) ≡ false
      → value st (codes "set-" ++ name) ≡ []
      → varpush lib name defn st ≡ done tt (push_defn lib name defn (dirty_for name st))
  unfolding varpush validatevar
  varpush_lem name defn st valid h =
      rw (complaint-none name valid, callsettor-none lib name defn (dirty_for name st) h) refl

  -- In a valid table with room to grow, after `vardef` on a name with no lexical binding and no
  -- settor, that is neither empty nor a counter, the name has the new value and every other name has
  -- what it had; the chain of bindings is as it was.
  pub vardef-value :
      (name : CString) (bp : List (Binding C)) (defn : List (Term C)) (st : VarState C)
      → Roomy 1 st.vars
      → (is_nil name || iscounting name) ≡ false
      → rebind lib name defn bp ≡ none
      → value st (codes "set-" ++ name) ≡ []
      → (st' : VarState C) × (vardef lib name bp defn st ≡ done bp st')
        × ((x : CString) → value st' x ≡ (if streq name x then defn else value st x))
  unfolding vardef validatevar
  vardef-value name bp defn st room valid no_binding no_settor =
      rw (complaint-none name valid, no_binding, callsettor-none lib name defn st no_settor)
        (
          assigned lib name defn (dirty_for name st),
          refl,
          λ x. value-assigned lib 1 name defn (dirty_for name st) x room,
        )

  abbrev pub state_of : {A : Type 0} → Outcome C A → VarState C
  state_of (done a st) = st
  state_of (thrown e st) = st

  pushed-saved :
      (name : CString) (defn : List (Term C)) (o : Option (Var C)) (st : VarState C)
      → dictget st.vars name ≡ o
      → (p : Push C) × ((pushed lib name defn o st).pushlist ≡ p ∷ st.pushlist)
        × (p.name ≡ name)
        × (p.saved ≡ value st name)
  pushed-saved name defn none st e = (_, refl, refl, ap defn_of (sym e))
  pushed-saved name defn (some var) st e = (_, refl, refl, ap defn_of (sym e))

  -- A local variable: after `varpush` on a valid name without a settor, let the body come to any
  -- state with the same pushes and no settor for the name, with a valid table that has room to grow.
  -- Then popping, as `throw` does it, gives the name the value from before `varpush`, leaves every
  -- other name as the body left it, and has the pushes from before.
  pub varpush-unwind :
      (name : CString) (defn : List (Term C)) (st st1 st' : VarState C)
      → (is_nil name || iscounting name) ≡ false
      → value st (codes "set-" ++ name) ≡ []
      → varpush lib name defn st ≡ done tt st1
      → st'.pushlist ≡ st1.pushlist
      → Roomy 1 st'.vars
      → value st' (codes "set-" ++ name) ≡ []
      → (st2 : VarState C) × (unwind lib 1 st' ≡ done tt st2)
        × ((x : CString) → value st2 x ≡ (if streq name x then value st name else value st' x))
        × (st2.pushlist ≡ st.pushlist)
  unfolding unwind pop_defn push_defn
  varpush-unwind name defn st st1 st' valid no_settor pushed_to same room no_settor' =
      let st0 = dirty_for name st in
      let (p, top, p_name, p_saved) = pushed-saved name defn (dictget st.vars name) st0 refl in
      let st1_is : st1 ≡ push_defn lib name defn st0 =
        ap state_of (sym pushed_to ∙ varpush_lem name defn st valid no_settor) in
      let stack : st'.pushlist ≡ p ∷ st.pushlist = same ∙ ap (λ s. s.pushlist) st1_is ∙ top in
      let no_p : value st' (codes "set-" ++ p.name) ≡ [] =
        ap (λ n. value st' (codes "set-" ++ n)) p_name ∙ no_settor' in
      (
        pop_defn lib p p.saved (dirty_for p.name st'),
        ap (λ l. from_top lib l (λ p'. then_do (varpop lib p' st') (λ one st''. done tt st'')) st')
              stack
            ∙ ap (λ o. then_do o (λ one st''. done tt st'')) (varpop_lem lib p st' no_p),
        λ x.
            value-popped lib 1 p p.saved st'.vars x room
            ∙ ap₂ (λ n v. if streq n x then v else value st' x) p_name p_saved,
        ap (rest_of_pushes lib) stack,
      )

  -- Whether an exception was thrown.
  abbrev pub is_thrown : {A : Type 0} → Outcome C A → Bool
  is_thrown (done a st) = false
  is_thrown (thrown e st) = true

  -- An exception, with the state as it was.
  abbrev pub Refuses : {A : Type 0} → Outcome C A → VarState C → Type 0
  Refuses o st = (is_thrown o ≡ true) × (state_of o ≡ st)
