-- ===== src/Vars/Tests.antt =====
-- Runs of the variables.
use es_shell_mirror.Prelude.{
  ◌≡◌, refl, true, false, ◌&&◌, ◌||◌, List, [], ◌∷◌, ◌++◌, CString, codes, none, leb, arith,
  if◌then◌else◌, streq, is_nil, head_byte, ◌-◌,
}
use es_shell_mirror.ListOps.{nth}
use es_shell_mirror.Syntax.Tree.{Term, mkstr}
use es_shell_mirror.Dict.Table.{mkdict, mkdict0, dictget, get, get_loop, value_at}
use es_shell_mirror.Dict.Refine.{mkdict-IsValid}
use es_shell_mirror.Dict.Room.{Roomy}
use es_shell_mirror.Vars.State.{
  VarState, done, Library, iscounting, all_digits, complaint, validatevar,
}
use es_shell_mirror.Vars.Access.{
  varlookup, lookup_name, bound_in, dirty_for, varpush, vardef, unwind, rebind, push_defn,
}
use es_shell_mirror.Vars.Values.{value}
use es_shell_mirror.Vars.Lookup.{
  is_thrown, Harmless, Unwound, unwind-Unwound, vardef-value, varpush-unwind, varpush_lem,
}

abbrev word : CString → List (Term CString)
word s = mkstr s ∷ []

-- Commands return what they are given.
abbrev sample : Library CString
sample = record {
  eval = λ list st. done list st;
  bound = λ c. false;
  isprint = λ c. leb 32 c && leb c 126;
  strtol = λ s. head_byte s - 48;
}

abbrev start : VarState CString
start = record {
  vars = mkdict;
  noexport = none;
  isdirty = false;
  rebound = false;
  pushlist =
      (record {
        name = codes "x";
        saved = word (codes "old");
        hasbindings_flag = false;
        isinternal_flag = false;
      })
      ∷ [];
}

empty_at : (name : CString) → value start name ≡ []
unfolding dictget get get_loop value_at mkdict mkdict0
empty_at name = refl

start-Roomy : Roomy 2 start.vars
unfolding mkdict mkdict0
start-Roomy = record { valid = mkdict-IsValid; room = omega arith }

start-Harmless : Harmless sample start.pushlist
unfolding streq
start-Harmless = (λ name h. cc, tt)

one-Roomy : Roomy 1 start.vars
unfolding mkdict mkdict0
one-Roomy = record { valid = mkdict-IsValid; room = omega arith }

unwind-Unwound_example : Unwound sample 1 start (unwind sample 1 start)
unwind-Unwound_example =
    unwind-Unwound sample 1 start one-Roomy (λ name. empty_at (codes "set-" ++ name)) start-Harmless

y_valid : (is_nil (codes "y") || iscounting (codes "y")) ≡ false
unfolding iscounting all_digits
y_valid = refl

unbound : rebind sample (codes "y") (word (codes "v")) [] ≡ none
unfolding rebind
unbound = refl

vardef-value_example :
    (st' : VarState CString) × (vardef sample (codes "y") [] (word (codes "v")) start ≡ done [] st')
    × ((x : CString)
        → value st' x ≡ (if streq (codes "y") x then word (codes "v") else value start x))
vardef-value_example =
    vardef-value sample (codes "y") [] (word (codes "v")) start one-Roomy y_valid unbound
      (empty_at (codes "set-y"))

abbrev inside : VarState CString
inside = push_defn sample (codes "y") (word (codes "v")) (dirty_for (codes "y") start)

-- The body of the local variable takes every variable away.
abbrev after_body : VarState CString
after_body = record start { pushlist = inside.pushlist }

pushed_here : varpush sample (codes "y") (word (codes "v")) start ≡ done tt inside
pushed_here =
    varpush_lem sample (codes "y") (word (codes "v")) start y_valid (empty_at (codes "set-y"))

varpush-unwind_example :
    (st2 : VarState CString) × (unwind sample 1 after_body ≡ done tt st2)
    × ((x : CString)
        → value st2 x
          ≡ (if streq (codes "y") x then value start (codes "y") else value after_body x))
    × (st2.pushlist ≡ start.pushlist)
varpush-unwind_example =
    varpush-unwind sample (codes "y") (word (codes "v")) start inside after_body y_valid
      (empty_at (codes "set-y")) pushed_here refl one-Roomy (empty_at (codes "set-y"))

second_word :
    varlookup sample
      (codes "2")
      ((record { name = codes "*"; defn = mkstr (codes "a") ∷ mkstr (codes "b") ∷ [] }) ∷ [])
      start
    ≡ done (word (codes "b")) start
unfolding varlookup iscounting all_digits lookup_name bound_in streq nth
second_word = refl

refused : is_thrown sample (varpush sample (codes "12") [] start) ≡ true
unfolding varpush validatevar complaint iscounting all_digits streq
refused = refl
