-- ===== src/Vars/Values.antt =====
-- The variables as a function from names to values, and what a change of the dictionary does to it.
use es_shell_mirror.Prelude.{
  ℕ, suc, ◌≡◌, refl, ◌∙◌, ap, Bool, true, false, List, [], ◌∷◌, ◌++◌, CString, codes, Option, none,
  some, if◌then◌else◌, streq, Bool-cases, inl, inr,
}
use es_shell_mirror.Syntax.Tree.{Term}
use es_shell_mirror.Dict.Table.{Dict, dictget, dictput}
use es_shell_mirror.Dict.Refine.{dictget2-eq-dictget}
use es_shell_mirror.Dict.Room.{Roomy, get-put, dictput-Roomy}
use es_shell_mirror.Vars.State.{Var, Push, VarState, done, Library, specialvar, mkvar}
use es_shell_mirror.Vars.Access.{
  defn_of, bound_in, varlookup2, dirty_for, pushed, pop_defn, popped, callsettor, varpop, assigned,
}

module _ {C : Type 0} where
  -- The value of a dynamic variable.
  abbrev pub value : VarState C → CString → List (Term C)
  value st name = defn_of (dictget st.vars name)

  defn_of_if :
      (b : Bool) (o o' : Option (Var C))
      → defn_of (if b then o else o') ≡ (if b then defn_of o else defn_of o')
  defn_of_if true o o' = refl
  defn_of_if false o o' = refl

module _ {C : Type 0} (lib : Library C) where
  pub value-put :
      (n : ℕ) (d : Dict (Var C)) (name : CString) (v : Option (Var C)) (x : CString)
      → Roomy n d
      → defn_of (dictget (dictput d name v) x)
        ≡ (if streq name x then defn_of v else defn_of (dictget d x))
  value-put n d name v x h =
      ap defn_of (get-put n d name v x h) ∙ defn_of_if (streq name x) v (dictget d x)

  pub value-popped :
      (n : ℕ) (p : Push C) (defn : List (Term C)) (d : Dict (Var C)) (x : CString)
      → Roomy n d
      → defn_of (dictget (popped lib p defn d) x)
        ≡ (if streq p.name x then defn else defn_of (dictget d x))
  value-popped n p [] d x h = value-put n d p.name none x h
  value-popped n p (t ∷ defn) d x h = value-put n d p.name _ x h

  pub value-pushed :
      (n : ℕ) (name : CString) (defn : List (Term C)) (o : Option (Var C)) (st : VarState C)
      (x : CString)
      → Roomy n st.vars
      → value (pushed lib name defn o st) x ≡ (if streq name x then defn else value st x)
  unfolding mkvar
  value-pushed n name defn none st x h = value-put n st.vars name _ x h
  value-pushed n name defn (some var) st x h = value-put n st.vars name _ x h

  pub value-assigned :
      (n : ℕ) (name : CString) (defn : List (Term C)) (st : VarState C) (x : CString)
      → Roomy n st.vars
      → value (assigned lib name defn st) x ≡ (if streq name x then defn else value st x)
  unfolding mkvar
  value-assigned n name [] st x h = value-put n st.vars name none x h
  value-assigned n name (t ∷ defn) st x h = value-put n st.vars name _ x h

  pub popped-Roomy :
      (n : ℕ) (p : Push C) (defn : List (Term C)) (d : Dict (Var C))
      → Roomy (suc n) d
      → Roomy n (popped lib p defn d)
  popped-Roomy n p [] d h = dictput-Roomy n d p.name none h
  popped-Roomy n p (t ∷ defn) d h = dictput-Roomy n d p.name _ h

  pub value2 :
      (name : CString) (st : VarState C)
      → varlookup2 (codes "set-") name [] st ≡ value st (codes "set-" ++ name)
  unfolding varlookup2 bound_in
  value2 name st = ap defn_of (dictget2-eq-dictget st.vars (codes "set-") name)

  -- Without a settor, the value is taken as it is.
  pub callsettor-none :
      (name : CString) (defn : List (Term C)) (st : VarState C)
      → value st (codes "set-" ++ name) ≡ []
      → callsettor lib name defn st ≡ done defn st
  unfolding callsettor
  callsettor-none name defn st h = elim (Bool-cases (specialvar name)) [
    | inl e ↦ rw e refl
    | inr e ↦ rw (e, value2 name st, h) refl
  ]

  pub varpop_lem :
      (p : Push C) (st : VarState C)
      → value st (codes "set-" ++ p.name) ≡ []
      → varpop lib p st ≡ done tt (pop_defn lib p p.saved (dirty_for p.name st))
  unfolding varpop
  varpop_lem p st h = rw (callsettor-none p.name p.saved (dirty_for p.name st) h) refl
