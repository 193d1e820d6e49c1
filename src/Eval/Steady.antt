-- ===== src/Eval/Steady.antt =====
-- `evaldepth` at the end of the functions that bind variables.
use es_shell_mirror.Prelude.{
  ℕ, suc, ◌≡◌, Bool, true, false, List, [], ◌∷◌, CString, codes, Option, none, some, if◌then◌else◌,
  is_nil,
}
use es_shell_mirror.Syntax.Tree.{Tree, null, n_assign, n_list, Term}
use es_shell_mirror.Eval.Base.{
  World, Result, done, thrown, aborted, no_fuel, Flags, and_then, Machine, mkbinding, caught,
}
use es_shell_mirror.Eval.Bind.{
  next_value, bind_vars, unless_nil, assign, let_one, let_loop, name_of, is_null, bindargs,
}
use es_shell_mirror.Eval.Walk.{Calls}

module _ {C S : Type 0} where
  -- A result is returned with the given depth, if one is returned.
  abbrev pub Balanced : {A : Type 0} → ℕ → Result C S A → Type 0
  Balanced k (done a w) = w.evaldepth ≡ k
  Balanced k (thrown e w) = Unit
  Balanced k aborted = Unit
  Balanced k no_fuel = Unit

  pub bind :
      {A B : Type 0} {k : ℕ} (j : ℕ) (r : Result C S A) (f : A → World S → Result C S B)
      → Balanced k r
      → ((a : A) (w : World S) → w.evaldepth ≡ k → Balanced j (f a w))
      → Balanced j (and_then r f)
  bind j (done a w) f h next = next a w h
  bind j (thrown e w) f h next = tt
  bind j aborted f h next = tt
  bind j no_fuel f h next = tt

  pub either :
      {A : Type 0} (k : ℕ) (b : Bool) (r r' : Result C S A)
      → Balanced k r
      → Balanced k r'
      → Balanced k (if b then r else r')
  either k true r r' h h' = h
  either k false r r' h h' = h'

  abbrev pub Keeps : {A : Type 0} → (World S → Result C S A) → Type 0
  Keeps f = (k : ℕ) (w : World S) → w.evaldepth ≡ k → Balanced k (f w)

-- The functions of the shell that return at the depth where they were called.
pub record IsSteady {F C B S : Type 0} (m : Machine F C B S) : Type 0 where
  pub glom_kept : (t : Tree F) (b : B) (globit : Bool) → Keeps (m.glom t b globit)
  pub glom2_kept : (t : Tree F) (b : B) → Keeps (m.glom2 t b)
  pub validatevar_kept : (name : CString) → Keeps (m.validatevar name)
  pub newbinding_kept :
      (name : CString) (defn : List (Term C)) (b : B) → Keeps (m.newbinding name defn b)
  pub vardef_kept : (name : CString) (b : B) (defn : List (Term C)) → Keeps (m.vardef name b defn)
  pub varpush_kept : (name : CString) (defn : List (Term C)) → Keeps (m.varpush name defn)
  pub varpop_kept : Keeps m.varpop
  pub varlookup_kept : (name : CString) → Keeps (m.varlookup name)
  pub prim_kept :
      (name : CString) (list : List (Term C)) (b : B) (flags : Flags)
      → Keeps (m.prim name list b flags)
  pub forkexec_kept :
      (file : CString) (list : List (Term C)) (inchild : Bool)
      → Keeps (m.forkexec file list inchild)
  pub sigchk_kept : Keeps m.sigchk

pub record GoodCalls {F C B S : Type 0} (calls : Calls F C B S) : Type 0 where
  pub walk_kept : (t : Tree F) (b : B) (flags : Flags) → Keeps (calls.walk t b flags)
  pub restart_kept :
      (list : List (Term C)) (b : B) (funcname : Option CString) (flags : Flags) (k : ℕ)
      (w : World S)
      → w.evaldepth ≡ suc k
      → Balanced k (calls.restart list b funcname flags w)

module _ {F C B S : Type 0} (m : Machine F C B S) (steady : IsSteady m) where
  pub mkbinding_kept :
      (name : CString) (defn : List (Term C)) (b : B) → Keeps (mkbinding m name defn b)
  unfolding mkbinding
  mkbinding_kept name defn b k w h =
      bind k (m.validatevar name w) _ (steady.validatevar_kept name k w h)
        (λ u w1 h1. steady.newbinding_kept name defn b k w1 h1)

  -- After an exception the depth is that of the handler.
  pub caught_kept :
      {A : Type 0} (k : ℕ) (r : Result C S A) (w : World S)
      (catcher : List (Term C) → World S → Result C S A)
      → w.evaldepth ≡ k
      → Balanced k r
      → ((e : List (Term C)) → Keeps (catcher e))
      → Balanced k (caught m r w catcher)
  caught_kept k (done a w') w catcher at h kept = h
  caught_kept k aborted w catcher at h kept = tt
  caught_kept k no_fuel w catcher at h kept = tt
  caught_kept k (thrown e w') w catcher at h kept = go (m.unwind (m.pushes w) w')
    where
      go :
          (r : Result C S Unit)
          → Balanced k (and_then r (λ u w''. catcher e (record w'' { evaldepth = w.evaldepth })))
      go (done u w'') = kept e k (record w'' { evaldepth = w.evaldepth }) at
      go (thrown e' w'') = tt
      go aborted = tt
      go no_fuel = tt

  pub bind_vars_kept :
      {X : Type 0} (add : CString → List (Term C) → X → World S → Result C S X)
      → ((name : CString) (defn : List (Term C)) (acc : X) → Keeps (add name defn acc))
      → (vars values : List (Term C)) (acc : X) → Keeps (bind_vars m add vars values acc)
  unfolding bind_vars
  bind_vars_kept add kept [] values acc k w h = h
  bind_vars_kept add kept (var ∷ vars) values acc k w h =
      let got = next_value (is_nil vars) values in
      bind k (add (m.getstr var) got.0 acc w) _ (kept (m.getstr var) got.0 acc k w h)
        (λ acc' w1 h1. bind_vars_kept add kept vars got.1 acc' k w1 h1)

  pub unless_nil_kept :
      {X : Type 0} (from : CString) (list : List (Term C)) (w : World S) (next : Result C S X)
      (k : ℕ)
      → Balanced k next
      → Balanced k (unless_nil m from list w next)
  unless_nil_kept from [] w next k h = tt
  unless_nil_kept from (t ∷ list) w next k h = h

  pub assign_kept : (l r : Tree F) (b : B) → Keeps (assign m l r b)
  unfolding assign
  assign_kept l r b k w h =
      bind k (m.glom l b false w) _ (steady.glom_kept l b false k w h) (λ vars w1 h1.
        unless_nil_kept (codes "es:assign") vars w1 _ k (
          bind k (m.glom r b true w1) _ (steady.glom_kept r b true k w1 h1) (λ values w2 h2.
            bind k (bind_vars m (λ name value u w'. m.vardef name b value w') vars values tt w2) _
              (bind_vars_kept (λ name value u w'. m.vardef name b value w')
                (λ name value u. steady.vardef_kept name b value) vars values tt k w2 h2)
              (λ u w3 h3. h3))))

  pub let_one_kept :
      {X : Type 0} (add : CString → List (Term C) → X → World S → Result C S X)
      → ((name : CString) (defn : List (Term C)) (acc : X) → Keeps (add name defn acc))
      → (l r : Tree F) (context : B) (acc : X) → Keeps (let_one m add (n_assign l r) context acc)
  unfolding let_one
  let_one_kept add kept l r context acc k w h =
      bind k (m.glom l context false w) _ (steady.glom_kept l context false k w h) (λ vars w1 h1.
        bind k (m.glom r context true w1) _ (steady.glom_kept r context true k w1 h1)
          (λ values w2 h2.
            unless_nil_kept (codes "es:let") vars w2 _ k
              (bind_vars_kept add kept vars values acc k w2 h2)))

  pub let_defn_kept :
      {X : Type 0} (add : CString → List (Term C) → X → World S → Result C S X)
      → ((name : CString) (defn : List (Term C)) (acc : X) → Keeps (add name defn acc))
      → (t : Tree F) (context : B) (acc : X) → Keeps (let_one m add t context acc)
  unfolding let_one
  let_defn_kept add kept null context acc k w h = h
  let_defn_kept add kept (n_assign l r) context acc k w h =
      let_one_kept add kept l r context acc k w h
  let_defn_kept add kept other context acc k w h = tt

  pub let_loop_kept :
      {X : Type 0} (add : CString → List (Term C) → X → World S → Result C S X)
      → ((name : CString) (defn : List (Term C)) (acc : X) → Keeps (add name defn acc))
      → (t : Tree F) (context : B) (acc : X) → Keeps (let_loop m add t context acc)
  unfolding let_loop
  let_loop_kept add kept null context acc k w h = h
  let_loop_kept add kept (n_list defn rest) context acc k w h =
      bind k (let_one m add defn context acc w) _ (let_defn_kept add kept defn context acc k w h)
        (λ acc' w1 h1. let_loop_kept add kept rest context acc' k w1 h1)
  let_loop_kept add kept other context acc k w h = tt

  pub bindargs_kept :
      (params : Tree F) (args : List (Term C)) (b : B) → Keeps (bindargs m params args b)
  unfolding bindargs
  bindargs_kept null args b k w h = h
  bindargs_kept (n_list param params) args b k w h =
      let got = next_value (is_null m params) args in
      go (λ b' k' w' h'. bindargs_kept params got.1 b' k' w' h') (name_of m param)
    where
      go :
          ((b' : B) → Keeps (bindargs m params (next_value (is_null m params) args).1 b'))
          → (o : Option CString)
          → Balanced k (elim o [
            | none ↦ aborted
            | some name ↦
                and_then
                  (mkbinding m name (next_value (is_null m params) args).0 b w)
                  (λ b' w'. bindargs m params (next_value (is_null m params) args).1 b' w')
          ])
      go rest none = tt
      go rest (some name) =
          bind k (mkbinding m name (next_value (is_null m params) args).0 b w) _
            (mkbinding_kept name (next_value (is_null m params) args).0 b k w h)
            (λ b' w1 h1. rest b' k w1 h1)
  bindargs_kept other args b k w h = tt
