-- ===== src/Signal/Names.antt =====
-- The names of signals, and the list of their effects.
use es_shell_mirror.Prelude.{
  ℕ, zero, suc, ◌-◌, ◌&&◌, List, [], ◌∷◌, ◌++◌, CString, codes, Option, none, some, ◌==◌, ltb,
  if◌then◌else◌, drop, take, streq,
}
use es_shell_mirror.Signal.State.{
  Sigeffect, sig_nochange, sig_catch, sig_default, sig_ignore, sig_noop, sig_special,
}

-- An entry of `signals`.
pub record Sigmsgs : Type 0 where
  pub sig : ℕ
  pub name : CString
  pub msg : CString

-- The table is generated; a number is printed by `digits`, and `strtol` gives the number at the start of a text, if it
-- is not negative, and what follows.
module _ (signals : List Sigmsgs) (digits : ℕ → CString) (strtol : CString → ℕ × CString)
    (nsig : ℕ) where
  unfoldable pub number_in : List Sigmsgs → CString → Option ℕ
  unfolding streq
  number_in [] name = none
  number_in (s ∷ l) name =
      let rest = number_in l name in if streq s.name name then some s.sig else rest

  abbrev pub in_bounds : ℕ × CString → Option ℕ
  in_bounds (i, []) = if ltb 0 i && ltb i nsig then some i else none
  in_bounds (i, c ∷ suffix) = none

  abbrev pub or_number : Option ℕ → CString → Option ℕ
  or_number (some sig) name = some sig
  or_number none name = in_bounds (strtol (drop 3 name))

  -- -1 is `none`.
  unfoldable pub signumber : CString → Option ℕ
  unfolding number_in streq
  signumber name =
      if streq (take 3 name) (codes "sig") then or_number (number_in signals name) name else none

  unfoldable pub entry_of : List Sigmsgs → ℕ → Option Sigmsgs
  entry_of [] sig = none
  entry_of (s ∷ l) sig = let rest = entry_of l sig in if s.sig == sig then some s else rest

  unfoldable pub signame : ℕ → CString
  unfolding entry_of
  signame sig = elim (entry_of signals sig) [ none ↦ codes "sig" ++ digits sig | some s ↦ s.name ]

  unfoldable pub sigmessage : ℕ → CString
  unfolding entry_of
  sigmessage sig = elim (entry_of signals sig) [
    | none ↦ codes "unknown signal " ++ digits sig
    | some s ↦ s.msg
  ]

  -- `none` for what has no prefix in the list and is left out, and for the panic.
  abbrev pub prefix_of : Sigeffect → Option CString
  prefix_of sig_default = none
  prefix_of sig_catch = some []
  prefix_of sig_ignore = some (b'-' ∷ [])
  prefix_of sig_noop = some (b'/' ∷ [])
  prefix_of sig_special = some (b'.' ∷ [])
  prefix_of sig_nochange = none

  abbrev pub with_prefix : Option CString → CString → List CString → List CString
  with_prefix none name l = l
  with_prefix (some prefix) name l = (prefix ++ name) ∷ l

  unfoldable pub siglist_loop : ℕ → (ℕ → Sigeffect) → List CString → List CString
  unfolding signame
  siglist_loop zero effects l = l
  siglist_loop (suc n) effects l =
      siglist_loop n effects (with_prefix (prefix_of (effects (suc n))) (signame (suc n)) l)

  abbrev pub mksiglist : (ℕ → Sigeffect) → List CString
  mksiglist effects = siglist_loop (nsig - 1) effects []
