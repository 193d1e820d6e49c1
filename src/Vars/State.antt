-- ===== src/Vars/State.antt =====
-- The state of var.c, its records, and the tests on names.
use es_shell_mirror.Prelude.{
  ℕ, Bool, true, false, not, ◌&&◌, ◌||◌, List, [], ◌∷◌, ◌++◌, CString, codes, Option, none, some,
  ◌==◌, leb, if◌then◌else◌, streq, is_nil,
}
use es_shell_mirror.Syntax.Tree.{Term, mkstr, mkfun}
use es_shell_mirror.Dict.Table.{Dict, mkdict, dictget, dictput}
use es_shell_mirror.Conv.Quote.{sconv}

-- `struct Var`; the flags are Booleans. A value that is NULL is the empty list.
pub record Var (C : Type 0) : Type 0 where
  pub defn : List (Term C)
  pub env : Option CString
  pub var_hasbindings : Bool
  pub var_isinternal : Bool

-- What a call of `varpush` leaves on the stack of pushes.
pub record Push (C : Type 0) : Type 0 where
  pub name : CString
  pub saved : List (Term C)
  pub hasbindings_flag : Bool
  pub isinternal_flag : Bool

-- The variables of the file, and `pushlist` of except.c.
pub record VarState (C : Type 0) : Type 0 where
  pub vars : Dict (Var C)
  pub noexport : Option (Dict Bool)
  pub isdirty : Bool
  pub rebound : Bool
  pub pushlist : List (Push C)

-- A lexical binding. A chain of them is a list.
pub record Binding (C : Type 0) : Type 0 where
  pub name : CString
  pub defn : List (Term C)

-- A function returns a value, or throws an exception.
pub data Outcome (C : Type 0) (A : Type 0) : Type 0 where
  done : A → VarState C → Outcome C A
  thrown : List (Term C) → VarState C → Outcome C A

abbrev pub then_do : {C A B : Type 0} → Outcome C A → (A → VarState C → Outcome C B) → Outcome C B
then_do (done a st) f = f a st
then_do (thrown e st) f = thrown e st

-- The rest of the shell: the evaluation of a list, whether a closure has bindings, and two functions of
-- the C library.
pub record Library (C : Type 0) : Type 0 where
  pub eval : List (Term C) → VarState C → Outcome C (List (Term C))
  pub bound : C → Bool
  pub isprint : ℕ → Bool
  pub strtol : CString → ℕ

abbrev pub specialvar : CString → Bool
specialvar [] = false
specialvar (c ∷ s) = (c == b'*' || c == b'0') && is_nil s

-- "is it a counter number, i.e., an integer > 0"
unfoldable pub all_digits : CString → Bool
all_digits [] = true
all_digits (c ∷ s) = if leb 48 c && leb c 57 then all_digits s else false

unfoldable pub iscounting : CString → Bool
iscounting name = all_digits name && not (streq name (codes "0")) && not (is_nil name)

module _ {C : Type 0} (lib : Library C) where
  unfoldable pub hasbindings : List (Term C) → Bool
  hasbindings [] = false
  hasbindings (mkstr s ∷ list) = hasbindings list
  hasbindings (mkfun c ∷ list) = if lib.bound c then true else hasbindings list

  unfoldable pub mkvar : List (Term C) → Var C
  mkvar defn = record {
    defn = defn;
    env = none;
    var_hasbindings = hasbindings defn;
    var_isinternal = false;
  }

  -- `fail` of except.c
  abbrev pub fail : {A : Type 0} → CString → CString → VarState C → Outcome C A
  fail from message st = thrown (mkstr (codes "error") ∷ mkstr from ∷ mkstr message ∷ []) st

  -- What `validatevar` says of a name; with PROTECT_ENV an equals sign is as good as any.
  unfoldable pub complaint : CString → Option CString
  complaint name =
      if is_nil name
      then some (codes "zero-length variable name")
      else if iscounting name
      then some (codes "illegal variable name: " ++ sconv lib.isprint false name)
      else none

  abbrev pub complain : {A : Type 0} → Option CString → VarState C → Outcome C A → Outcome C A
  complain none st next = next
  complain (some message) st next = fail (codes "es:var") message st

  -- `next` is what the caller does when the name is valid.
  unfoldable pub validatevar : {A : Type 0} → CString → VarState C → Outcome C A → Outcome C A
  validatevar name st next = complain (complaint name) st next

unfoldable pub isexported : {C : Type 0} → CString → VarState C → Bool
isexported name st = if specialvar name then false else elim st.noexport [
  | none ↦ true
  | some names ↦ elim (dictget names name) [ none ↦ true | some _ ↦ false ]
]

unfoldable pub put_names : List CString → Dict Bool → Dict Bool
put_names [] names = names
put_names (name ∷ list) names = put_names list (dictput names name (some true))

unfoldable pub setnoexport : {C : Type 0} → List CString → VarState C → VarState C
setnoexport [] st = record st { isdirty = true; noexport = none }
setnoexport (name ∷ list) st = record st {
  isdirty = true;
  noexport = some (put_names (name ∷ list) mkdict);
}
