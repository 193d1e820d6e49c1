-- ===== src/Split/State.antt =====
-- The state and the operations of split.c.
use es_shell_mirror.Prelude.{
  ℕ, zero, suc, ◌+◌, Bool, true, false, not, ◌&&◌, Option, none, some, List, [], ◌∷◌, ◌++◌, CString,
  ◌==◌, ltb, if◌then◌else◌, length, is_nil, streq,
}
use es_shell_mirror.ListOps.{reverse}

-- The static variables. A counted buffer is the bytes put into it.
pub record SplitState : Type 0 where
  pub coalesce : Bool
  pub splitchars : Bool
  pub buffer : Option CString
  pub value : List CString
  pub ifsvalid : Bool
  pub ifs : CString
  pub isifs : ℕ → Bool

-- before the first call
abbrev pub initial : SplitState
initial = record {
  coalesce = false;
  splitchars = false;
  buffer = none;
  value = [];
  ifsvalid = false;
  ifs = [];
  isifs = λ c. false;
}

-- `isifs[c] = TRUE` for each separator.
unfoldable pub mark_ifs : (ℕ → Bool) → CString → ℕ → Bool
mark_ifs t [] = t
mark_ifs t (c ∷ sep) = mark_ifs (λ x. if x == c then true else t x) sep

-- The table is made anew where `sep` is not the one that it was made for; one that fits the ten
-- bytes of `ifs` is remembered.
unfoldable pub set_ifs : CString → SplitState → SplitState
unfolding mark_ifs
set_ifs sep st = if st.ifsvalid && streq sep st.ifs then st else record st {
  ifsvalid = ltb (length sep + 1) 10;
  ifs = if ltb (length sep + 1) 10 then sep else st.ifs;
  isifs = mark_ifs (λ c. c == 0) sep;
}

unfoldable pub startsplit : CString → Bool → SplitState → SplitState
unfolding set_ifs
startsplit sep coalesce st = set_ifs sep (record st {
  coalesce = coalesce;
  splitchars = not coalesce && is_nil sep;
  buffer = none;
  value = [];
})

-- The loop over the bytes; the option is the rest, where it returns at a separator.
unfoldable pub split_loop :
    SplitState → Option CString → Bool → CString → SplitState × Option CString
split_loop st none endword [] = (record st { buffer = none }, none)
split_loop st (some b) endword [] =
    if endword
    then (record st { buffer = none; value = b ∷ st.value }, none)
    else (record st { buffer = some b }, none)
split_loop st none endword (c ∷ s) =
    split_loop st (if st.isifs c then none else some (c ∷ [])) endword s
split_loop st (some b) endword (c ∷ s) =
    let word : SplitState = record st {
      buffer = if st.coalesce then none else some [];
      value = b ∷ st.value;
    } in
    let rest = split_loop st (some (b ++ c ∷ [])) endword s in
    if st.isifs c then (word, some s) else rest

-- The branch for single characters. It looks for the NUL, not at the length.
unfoldable pub split_char : SplitState → CString → SplitState × Option CString
split_char st [] = (st, none)
split_char st (zero ∷ s) = (st, none)
split_char st (c ∷ []) = (record st { value = (c ∷ []) ∷ st.value }, none)
split_char st (c ∷ zero ∷ s) = (record st { value = (c ∷ []) ∷ st.value }, none)
split_char st (c ∷ d ∷ s) = (record st { value = (c ∷ []) ∷ st.value }, some (d ∷ s))

-- `if (!coalesce && buf == NULL) buf = openbuffer(0)`
unfoldable pub open_buffer : Bool → Option CString → Option CString
open_buffer false none = some []
open_buffer coalesce buf = buf

unfoldable pub splitstring_r : SplitState → CString → Bool → SplitState × Option CString
unfolding split_loop split_char open_buffer
splitstring_r st s endword =
    if st.splitchars
    then split_char st s
    else split_loop st (open_buffer st.coalesce st.buffer) endword s

-- `do ... while (s != NULL)`. Each round takes at least a byte.
unfoldable pub splitstring_loop : ℕ → SplitState → CString → Bool → SplitState
splitstring_loop zero st s endword = st
splitstring_loop (suc f) st s endword =
    let (st', rest) = splitstring_r st s endword in
    elim rest [ none ↦ st' | some s' ↦ splitstring_loop f st' s' endword ]

unfoldable pub splitstring : SplitState → CString → Bool → SplitState
unfolding splitstring_loop
splitstring st s endword = splitstring_loop (length s + 1) st s endword

unfoldable pub endsplit : SplitState → SplitState × List CString
endsplit st =
    let value : List CString = elim st.buffer [ none ↦ st.value | some b ↦ b ∷ st.value ] in
    (record st { buffer = none; value = [] }, reverse value)

-- The loop of `fsplit` over the strings of the list.
unfoldable pub fsplit_loop : SplitState → List CString → SplitState
unfolding splitstring
fsplit_loop st [] = st
fsplit_loop st (s ∷ list) = fsplit_loop (splitstring st s true) list

unfoldable pub fsplit : SplitState → CString → List CString → Bool → SplitState × List CString
unfolding startsplit fsplit_loop endsplit
fsplit st sep list coalesce = endsplit (fsplit_loop (startsplit sep coalesce st) list)

-- `bqinput` of prim-io.c: the output of a command, in the chunks in which it is read.
unfoldable pub bqinput_loop : SplitState → List CString → SplitState
unfolding splitstring
bqinput_loop st [] = st
bqinput_loop st (chunk ∷ chunks) = bqinput_loop (splitstring st chunk false) chunks

unfoldable pub bqinput : SplitState → CString → List CString → SplitState × List CString
unfolding startsplit bqinput_loop endsplit
bqinput st sep chunks = endsplit (bqinput_loop (startsplit sep true st) chunks)
