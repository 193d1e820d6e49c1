-- ===== src/Opt.antt =====
-- The options of a primitive (opt.c). The file's static variables are one record, which is passed along.
mod Tests
use es_shell_mirror.Prelude.{
  ℕ, zero, suc, ◌+◌, Bool, true, false, List, [], ◌∷◌, CString, Option, none, some, ◌==◌,
  if◌then◌else◌, drop, head_byte, get_elem?, length,
}
use es_shell_mirror.Syntax.Tree.{Term, mkstr, getstr}

pub record Options (C : Type 0) : Type 0 where
  pub usage : Option CString
  pub invoker : CString
  pub args : List (Term C)
  pub termarg : Option (Term C)
  pub nextchar : ℕ

-- What `esopt` gives: the letter of an option, EOF, one of the two exceptions, a failed assertion, or a read behind the
-- end of a string.
pub data Opted (C : Type 0) : Type 0 where
  option : ℕ → Options C → Opted C
  at_end illegal argument_missing : Options C → Opted C
  aborted outside : Opted C

module _ {C : Type 0} (show : C → CString) where
  abbrev pub begin_unless :
      Option CString → CString → CString → List (Term C) → Options C → Option (Options C)
  begin_unless (some old) caller usagemsg list st = none
  begin_unless none caller usagemsg list st =
      some record {
        usage = some usagemsg;
        invoker = caller;
        args = list;
        termarg = none;
        nextchar = 0;
      }

  -- A failed assertion is `none`.
  unfoldable pub esoptbegin : List (Term C) → CString → CString → Options C → Option (Options C)
  esoptbegin list caller usagemsg st = begin_unless st.usage caller usagemsg list st

  -- `strchr`: the text from the letter on. The NUL is found at the end.
  unfoldable pub strchr : CString → ℕ → Option CString
  strchr [] c = if c == 0 then some [] else none
  strchr (d ∷ s) c = let rest = strchr s c in if d == c then some (d ∷ s) else rest

  -- "usage = NULL; args = NULL; nextchar = 0;" before the exception.
  abbrev pub cleared : Options C → Options C
  cleared st = record st { usage = none; args = []; nextchar = 0 }

  abbrev pub tail_args : List (Term C) → List (Term C)
  tail_args [] = []
  tail_args (t ∷ args) = args

  abbrev pub take_argument : ℕ → CString → List (Term C) → Options C → Opted C
  take_argument c rest [] st = argument_missing st
  take_argument c [] (t ∷ args) st =
      option c (record st { termarg = some t; nextchar = 0; args = args })
  take_argument c (d ∷ rest) (t ∷ args) st =
      option c (record st { termarg = some (mkstr (d ∷ rest)); nextchar = 0; args = args })

  -- `rest` is what follows the letter in the word; at its end the next word is up.
  abbrev pub past_letter : CString → Options C → Options C
  past_letter [] st = record st { nextchar = 0; args = tail_args st.args }
  past_letter (c ∷ rest) st = record st { nextchar = st.nextchar + 1 }

  abbrev pub with_letter : ℕ → CString → Option CString → Options C → Opted C
  with_letter c rest none st = illegal (cleared st)
  with_letter c rest (some []) st = outside
  with_letter c rest (some (d ∷ opt)) st =
      let st' = past_letter rest st in
      if head_byte opt == b':' then take_argument c rest st'.args st' else option c st'

  -- The character at `nextchar`, and those behind it.
  abbrev pub at_letter : CString → CString → Options C → Opted C
  at_letter options [] st = with_letter 0 [] (strchr options 0) st
  at_letter options (c ∷ rest) st = with_letter c rest (strchr options c) st

  abbrev pub start_word : CString → CString → Term C → List (Term C) → Options C → Opted C
  start_word options [] t args st = at_end st
  start_word options (c ∷ []) t args st =
      if c == b'-' then at_letter options [] (record st { nextchar = 1 }) else at_end st
  start_word options (c ∷ d ∷ []) t args st =
      if c == b'-'
      then (if d == b'-'
          then at_end (record st { args = args })
          else at_letter options (d ∷ []) (record st { nextchar = 1 }))
      else at_end st
  start_word options (c ∷ d ∷ e ∷ word) t args st =
      if c == b'-' then at_letter options (d ∷ e ∷ word) (record st { nextchar = 1 }) else at_end st

  abbrev pub next_letter : CString → ℕ → List (Term C) → Options C → Opted C
  next_letter options zero [] st = at_end st
  next_letter options zero (t ∷ args) st = start_word options (getstr show t) t args st
  next_letter options (suc n) [] st = aborted
  next_letter options (suc n) (t ∷ args) st = at_letter options (drop (suc n) (getstr show t)) st

  abbrev pub asserted : Option CString → Option (Term C) → CString → Options C → Opted C
  asserted none termarg options st = aborted
  asserted (some usage) (some t) options st = aborted
  asserted (some usage) none options st = next_letter options st.nextchar st.args st

  unfoldable pub esopt : CString → Options C → Opted C
  unfolding getstr strchr
  esopt options st = asserted st.usage st.termarg options st

  abbrev pub taken_arg : Option (Term C) → Options C → Option (Term C × Options C)
  taken_arg none st = none
  taken_arg (some t) st = some (t, record st { termarg = none })

  unfoldable pub esoptarg : Options C → Option (Term C × Options C)
  esoptarg st = taken_arg st.termarg st

  abbrev pub esoptend : Options C → List (Term C) × Options C
  esoptend st = (st.args, record st { args = []; usage = none })
