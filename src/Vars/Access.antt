-- ===== src/Vars/Access.antt =====
-- Looking up, assigning, pushing and popping variables: var.c, and `throw` of except.c.
use es_shell_mirror.Prelude.{
  ℕ, zero, suc, Bool, true, false, ◌||◌, List, [], ◌∷◌, CString, codes, Option, none, some,
  if◌then◌else◌, streq,
}
use es_shell_mirror.ListOps.{nth, append, listcopy}
use es_shell_mirror.Syntax.Tree.{Term, mkstr}
use es_shell_mirror.Dict.Hash.{streq2}
use es_shell_mirror.Dict.Table.{Dict, dictget, dictget2, dictput}
use es_shell_mirror.Vars.State.{
  Var, Push, VarState, Binding, Outcome, done, then_do, Library, specialvar, iscounting,
  hasbindings, mkvar, validatevar, isexported,
}

module _ {C : Type 0} where
  -- `var == NULL ? NULL : var->defn`
  abbrev pub defn_of : Option (Var C) → List (Term C)
  defn_of none = []
  defn_of (some var) = var.defn

  unfoldable pub bound_in : (CString → Bool) → List (Binding C) → Option (List (Term C))
  bound_in is_name [] = none
  bound_in is_name (b ∷ bp) = if is_name b.name then some b.defn else bound_in is_name bp

  abbrev pub or_global : Option (List (Term C)) → List (Term C) → List (Term C)
  or_global (some defn) global = defn
  or_global none global = global

  abbrev pub dirty_for : CString → VarState C → VarState C
  dirty_for name st = record st { isdirty = st.isdirty || isexported name st }

  abbrev pub nth_word : Option (Term C) → List (Term C)
  nth_word none = []
  nth_word (some term) = term ∷ []

  -- "lookup a variable in the current context"; the name of a counter is a place in the list `*`.
  unfoldable pub lookup_name : CString → List (Binding C) → VarState C → List (Term C)
  lookup_name name bp st = or_global (bound_in (streq name) bp) (defn_of (dictget st.vars name))

  unfoldable pub varlookup :
      Library C → CString → List (Binding C) → VarState C → Outcome C (List (Term C))
  varlookup lib name bp st =
      if iscounting name
      then done (nth_word (nth (lookup_name (codes "*") bp st) (lib.strtol name))) st
      else validatevar lib name st (done (lookup_name name bp st) st)

  unfoldable pub varlookup2 : CString → CString → List (Binding C) → VarState C → List (Term C)
  varlookup2 name1 name2 bp st =
      or_global (bound_in (λ name. streq2 name name1 name2) bp)
        (defn_of (dictget2 st.vars name1 name2))

module _ {C : Type 0} (lib : Library C) where
  -- `push` after the call of the settor.
  abbrev pub pushed : CString → List (Term C) → Option (Var C) → VarState C → VarState C
  pushed name defn none st = record st {
    vars = dictput st.vars name (some (mkvar lib defn));
    pushlist =
        (record { name = name; saved = []; hasbindings_flag = false; isinternal_flag = false })
        ∷ st.pushlist;
  }
  pushed name defn (some var) st = record st {
    vars = dictput st.vars name (
        some (record {
          defn = defn;
          env = none;
          var_hasbindings = hasbindings lib defn;
          var_isinternal = false;
        }));
    pushlist =
        (record {
          name = name;
          saved = var.defn;
          hasbindings_flag = var.var_hasbindings;
          isinternal_flag = var.var_isinternal;
        })
        ∷ st.pushlist;
  }

  unfoldable pub push_defn : CString → List (Term C) → VarState C → VarState C
  push_defn name defn st = pushed name defn (dictget st.vars name) st

  -- The variable after a pop: NULL removes it.
  abbrev pub popped : Push C → List (Term C) → Dict (Var C) → Dict (Var C)
  popped p [] vars = dictput vars p.name none
  popped p (t ∷ defn) vars = dictput vars p.name (
      some (record {
        defn = t ∷ defn;
        env = none;
        var_hasbindings = p.hasbindings_flag;
        var_isinternal = p.isinternal_flag;
      }))

  abbrev pub rest_of_pushes : List (Push C) → List (Push C)
  rest_of_pushes [] = []
  rest_of_pushes (p ∷ list) = list

  unfoldable pub pop_defn : Push C → List (Term C) → VarState C → VarState C
  pop_defn p defn st = record st {
    vars = popped p defn st.vars;
    pushlist = rest_of_pushes st.pushlist;
  }

  -- The variable "0" has no settor, so it is pushed and popped without one.
  unfoldable pub varpush_zero : List (Term C) → VarState C → VarState C
  varpush_zero defn st = push_defn (codes "0") defn (dirty_for (codes "0") st)

  unfoldable pub varpop_zero : Push C → VarState C → VarState C
  varpop_zero p st = pop_defn p p.saved (dirty_for p.name st)

  -- `varpop` on the top of the stack.
  abbrev pub pop_top : List (Push C) → List (Term C) → VarState C → Outcome C (List (Term C))
  pop_top [] result st = done result st
  pop_top (p ∷ list) result st = done result (varpop_zero p st)

  abbrev pub run_settor :
      List (Term C) → CString → List (Term C) → VarState C → Outcome C (List (Term C))
  run_settor [] name defn st = done defn st
  run_settor (t ∷ settor) name defn st =
      then_do (lib.eval (append (t ∷ settor) defn) (varpush_zero (mkstr name ∷ []) st))
        (λ result st'. pop_top st'.pushlist (listcopy result) st')

  unfoldable pub callsettor : CString → List (Term C) → VarState C → Outcome C (List (Term C))
  callsettor name defn st =
      if specialvar name
      then done defn st
      else run_settor (varlookup2 (codes "set-") name [] st) name defn st

  unfoldable pub varpush : CString → List (Term C) → VarState C → Outcome C Unit
  varpush name defn st = validatevar lib name st (
      then_do (callsettor name defn (dirty_for name st))
        (λ defn' st'. done tt (push_defn name defn' st')))

  unfoldable pub varpop : Push C → VarState C → Outcome C Unit
  varpop p st =
      then_do (callsettor p.name p.saved (dirty_for p.name st))
        (λ defn st'. done tt (pop_defn p defn st'))

  -- The lexical binding of the name, if there is one, has the value put in; who shares the chain sees it.
  unfoldable pub rebind : CString → List (Term C) → List (Binding C) → Option (List (Binding C))
  rebind name defn [] = none
  rebind name defn (b ∷ bp) =
      let rest = rebind name defn bp in
      if streq name b.name
      then some ((record b { defn = defn }) ∷ bp)
      else elim rest [ none ↦ none | some bp' ↦ some (b ∷ bp') ]

  -- A variable that is there is assigned in place; NULL removes it.
  abbrev pub assigned : CString → List (Term C) → VarState C → VarState C
  assigned name [] st = record st { vars = dictput st.vars name none }
  assigned name (t ∷ defn) st = record st {
    vars = dictput st.vars name (some (mkvar lib (t ∷ defn)));
  }

  abbrev pub bind_or :
      Option (List (Binding C))
      → CString
      → List (Binding C)
      → List (Term C)
      → VarState C
      → Outcome C (List (Binding C))
  bind_or (some bp') name bp defn st = done bp' (record st { rebound = true })
  bind_or none name bp defn st =
      then_do (callsettor name defn st)
        (λ defn' st'. done bp (assigned name defn' (dirty_for name st')))

  -- The chain of bindings is returned with its change.
  unfoldable pub vardef :
      CString → List (Binding C) → List (Term C) → VarState C → Outcome C (List (Binding C))
  vardef name bp defn st = validatevar lib name st (bind_or (rebind name defn bp) name bp defn st)

  -- `throw` takes the pushes down to those of the handler, which are `n` fewer.
  abbrev pub from_top : List (Push C) → (Push C → Outcome C Unit) → VarState C → Outcome C Unit
  from_top [] next st = done tt st
  from_top (p ∷ list) next st = next p

  unfoldable pub unwind : ℕ → VarState C → Outcome C Unit
  unwind zero st = done tt st
  unwind (suc n) st = from_top st.pushlist (λ p. then_do (varpop p st) (λ one st'. unwind n st')) st
