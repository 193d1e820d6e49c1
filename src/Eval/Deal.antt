-- ===== src/Eval/Deal.antt =====
-- What the variables of an assignment, of `let`, and of a lambda get.
use es_shell_mirror.Prelude.{
  ◌⊎◌, inl, inr, ◌≡◌, refl, sym, ap, ◌∙◌, true, false, List, [], ◌∷◌, ◌++◌, CString, is_nil, map,
  length, append-nil,
}
use mathlib.Core.Path.{fun_ext}
use es_shell_mirror.Syntax.Tree.{Tree, null, n_list, n_word, Term}
use es_shell_mirror.Eval.Base.{World, Result, done, and_then, Machine, mkbinding}
use es_shell_mirror.Eval.Bind.{next_value, bind_vars, is_null, bindargs}

module _ {A : Type 0} where
  -- The names with what they get, the values in order: one for each, and what is left for the last.
  abbrev pub deal : List CString → List A → List (CString × List A)
  deal [] values = []
  deal (name ∷ names) values =
      let got = next_value (is_nil names) values in (name, got.0) ∷ deal names got.1

  abbrev pub all_values : List (CString × List A) → List A
  all_values [] = []
  all_values (got ∷ dealt) = got.1 ++ all_values dealt

  abbrev pub names_of : List (CString × List A) → List CString
  names_of [] = []
  names_of (got ∷ dealt) = got.0 ∷ names_of dealt

  -- All but the last have one value, or none where no value is left for them and those after them.
  abbrev pub OneEach : List (CString × List A) → Type 0
  OneEach [] = Unit
  OneEach (got ∷ []) = Unit
  OneEach (got ∷ next ∷ dealt) =
      ((length got.1 ≡ 1) ⊎ (got.1 ++ all_values (next ∷ dealt) ≡ [])) × OneEach (next ∷ dealt)

  last-whole : (values : List A) → next_value true values ≡ (values, [])
  unfolding next_value
  last-whole [] = refl
  last-whole (t ∷ []) = refl
  last-whole (t ∷ u ∷ values) = refl

  next-whole :
      (values : List A) → (next_value false values).0 ++ (next_value false values).1 ≡ values
  unfolding next_value
  next-whole [] = refl
  next-whole (t ∷ []) = refl
  next-whole (t ∷ u ∷ values) = refl

  next-one : (values : List A) → (length (next_value false values).0 ≡ 1) ⊎ (values ≡ [])
  unfolding next_value
  next-one [] = inr refl
  next-one (t ∷ []) = inl refl
  next-one (t ∷ u ∷ values) = inl refl

  deal-names : (names : List CString) (values : List A) → names_of (deal names values) ≡ names
  deal-names [] values = refl
  deal-names (name ∷ names) values =
      ap (λ l. name ∷ l) (deal-names names (next_value (is_nil names) values).1)

  deal-whole :
      (name : CString) (names : List CString) (values : List A)
      → all_values (deal (name ∷ names) values) ≡ values
  deal-whole name [] values = rw (last-whole values) (append-nil values)
  deal-whole name (name2 ∷ names) values =
      ap (λ l. (next_value false values).0 ++ l)
        (deal-whole name2 names (next_value false values).1)
      ∙ next-whole values

  deal-OneEach : (names : List CString) (values : List A) → OneEach (deal names values)
  deal-OneEach [] values = tt
  deal-OneEach (name ∷ []) values = tt
  deal-OneEach (name ∷ name2 ∷ names) values =
      (one (next-one values), deal-OneEach (name2 ∷ names) (next_value false values).1)
    where
      one :
          (length (next_value false values).0 ≡ 1) ⊎ (values ≡ [])
          → (length (next_value false values).0 ≡ 1)
            ⊎ (all_values (deal (name ∷ name2 ∷ names) values) ≡ [])
      one (inl h) = inl h
      one (inr h) = inr (deal-whole name (name2 ∷ names) values ∙ h)

module _ {F C B S : Type 0} (m : Machine F C B S) where
  -- One assignment after the other.
  abbrev pub add_all :
      {X : Type 0}
      → (CString → List (Term C) → X → World S → Result C S X)
      → List (CString × List (Term C))
      → X
      → World S
      → Result C S X
  add_all add [] acc w = done acc w
  add_all add (got ∷ dealt) acc w =
      and_then (add got.0 got.1 acc w) (λ acc' w'. add_all add dealt acc' w')

  is_nil-map : (vars : List (Term C)) → is_nil (map m.getstr vars) ≡ is_nil vars
  is_nil-map [] = refl
  is_nil-map (v ∷ vars) = refl

  bind_vars-all :
      {X : Type 0} (add : CString → List (Term C) → X → World S → Result C S X)
      (vars values : List (Term C)) (acc : X) (w : World S)
      → bind_vars m add vars values acc w ≡ add_all add (deal (map m.getstr vars) values) acc w
  unfolding bind_vars
  bind_vars-all add [] values acc w = refl
  bind_vars-all add (var ∷ vars) values acc w =
      let got = next_value (is_nil vars) values in
      rw (is_nil-map vars) (
        ap (and_then (add (m.getstr var) got.0 acc w))
          (fun_ext (λ acc'. fun_ext (λ w'. bind_vars-all add vars got.1 acc' w'))))

  -- The loops of `assign`, `let` and `local` give the variables, where there are some, their values in this way: one
  -- assignment after the other, in the order of the variables, under their names; what they get is the
  -- list of values from the first to the last; and each but the last gets exactly one, unless
  -- no value is left for it and those after it.
  pub bind_vars-dealt :
      {X : Type 0} (add : CString → List (Term C) → X → World S → Result C S X) (var : Term C)
      (vars values : List (Term C)) (acc : X) (w : World S)
      → (dealt : List (CString × List (Term C))) × (bind_vars m add (var ∷ vars) values acc w
          ≡ add_all add dealt acc w)
        × (names_of dealt ≡ map m.getstr (var ∷ vars))
        × (all_values dealt ≡ values)
        × OneEach dealt
  bind_vars-dealt add var vars values acc w = (
    deal (map m.getstr (var ∷ vars)) values,
    bind_vars-all add (var ∷ vars) values acc w,
    deal-names (map m.getstr (var ∷ vars)) values,
    deal-whole (m.getstr var) (map m.getstr vars) values,
    deal-OneEach (map m.getstr (var ∷ vars)) values,
  )

  -- A list of parameters as the parser makes it.
  abbrev pub params_of : List CString → Tree F
  params_of [] = null
  params_of (name ∷ names) = n_list (n_word name) (params_of names)

  is_null-params : (names : List CString) → is_null m (params_of names) ≡ is_nil names
  is_null-params [] = refl
  is_null-params (name ∷ names) = refl

  bindargs-all :
      (names : List CString) (args : List (Term C)) (binding : B) (w : World S)
      → bindargs m (params_of names) args binding w
        ≡ add_all (mkbinding m) (deal names args) binding w
  unfolding bindargs
  bindargs-all [] args binding w = refl
  bindargs-all (name ∷ names) args binding w =
      let got = next_value (is_nil names) args in
      rw (is_null-params names) (
        ap (and_then (mkbinding m name got.0 binding w))
          (fun_ext (λ b'. fun_ext (λ w'. bindargs-all names got.1 b' w'))))

  -- `bindargs` deals the arguments out to the parameters just as `letbindings` deals values out to variables of
  -- the same names.
  pub bindargs-bind_vars :
      (vars args : List (Term C)) (binding : B) (w : World S)
      → bindargs m (params_of (map m.getstr vars)) args binding w
        ≡ bind_vars m (mkbinding m) vars args binding w
  bindargs-bind_vars vars args binding w =
      bindargs-all (map m.getstr vars) args binding w
      ∙ sym (bind_vars-all (mkbinding m) vars args binding w)
