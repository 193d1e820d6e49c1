-- ===== src/Glom/Words.antt =====
-- The two expansions of glom.c, `glom1` and `glom2`, against each other.
use es_shell_mirror.Prelude.{CString, ◌≡◌, refl, subst, List, [], ◌∷◌, replicate, length}
use es_shell_mirror.Syntax.Tree.{Tree, null, n_concat, n_list, n_word, Term}
use es_shell_mirror.Match.Quoting.{Quoting, quoted}
use es_shell_mirror.Glom.Int.{Outcome, value, failed, undefined}
use es_shell_mirror.Glom.Concat.{IsQuoted, IsQuoted-append, qconcat-IsQuoted, qconcat-words}
use es_shell_mirror.Glom.Eval.{Run, follow, done, Shell, meaning, glom1, glom2}

-- The same outcome and state, the words with a fitting quoting each.
abbrev pub Agrees :
    {C St : Type 0}
    → (C → CString)
    → Outcome (List (Term C)) × St
    → Outcome (List (Term C) × List Quoting) × St
    → Type 0
Agrees show (value list, st) (value (list', ql), st') =
    (list' ≡ list) × (st' ≡ st) × IsQuoted show list' ql
Agrees show (failed e, st) (failed e', st') = (e' ≡ e) × (st' ≡ st)
Agrees show (undefined, st) (undefined, st') = st' ≡ st
Agrees show o o' = ⊥

module _ {C : Type 0} (show : C → CString) where
  replicate-IsQuoted : (list : List (Term C)) → IsQuoted show list (replicate (length list) quoted)
  replicate-IsQuoted [] = tt
  replicate-IsQuoted (t ∷ list) = (tt, replicate-IsQuoted list)

module _ {C St : Type 0} (show : C → CString) where
  -- All words quoted fit.
  all_quoted-Agrees :
      (o : Outcome (List (Term C)) × St)
      → Agrees show o (follow o (λ list. done (list, replicate (length list) quoted)))
  all_quoted-Agrees (value list, st) = (refl, refl, replicate-IsQuoted show list)
  all_quoted-Agrees (failed e, st) = (refl, refl)
  all_quoted-Agrees (undefined, st) = refl

  follow-Agrees :
      (o : Outcome (List (Term C)) × St) (o' : Outcome (List (Term C) × List Quoting) × St)
      (f : List (Term C) → Run St (List (Term C)))
      (g : List (Term C) × List Quoting → Run St (List (Term C) × List Quoting))
      → Agrees show o o'
      → ((list : List (Term C)) (ql : List Quoting) (st : St)
          → IsQuoted show list ql
          → Agrees show (f list st) (g (list, ql) st))
      → Agrees show (follow o f) (follow o' g)
  follow-Agrees (value list, st) (value (list', ql), st') f g (e, e', fits) h =
      subst (λ l. Agrees show (f l st) (g (list', ql) st')) e
        (subst (λ s. Agrees show (f list' s) (g (list', ql) st')) e' (h list' ql st' fits))
  follow-Agrees (value list, st) (failed e, st') f g a h = elim a [ ]
  follow-Agrees (value list, st) (undefined, st') f g a h = elim a [ ]
  follow-Agrees (failed e, st) (value p, st') f g a h = elim a [ ]
  follow-Agrees (failed e, st) (failed e', st') f g a h = a
  follow-Agrees (failed e, st) (undefined, st') f g a h = elim a [ ]
  follow-Agrees (undefined, st) (value p, st') f g a h = elim a [ ]
  follow-Agrees (undefined, st) (failed e, st') f g a h = elim a [ ]
  follow-Agrees (undefined, st) (undefined, st') f g a h = a

module _ {C B F St : Type 0} (sh : Shell C B F St) (bp : B) where
  -- Two trees one after the other.
  list-Agrees :
      (a b : Tree F)
      → ((st : St) → Agrees sh.show (glom1 sh bp a st) (glom2 sh bp a st))
      → ((st : St) → Agrees sh.show (glom1 sh bp b st) (glom2 sh bp b st))
      → (st : St) → Agrees sh.show (glom1 sh bp (n_list a b) st) (glom2 sh bp (n_list a b) st)
  unfolding glom1 glom2
  list-Agrees a b iha ihb st =
      follow-Agrees sh.show ((meaning sh bp a).glom1 st) ((meaning sh bp a).glom2 st) _ _ (iha st)
        (λ list ql st' fits.
          follow-Agrees sh.show ((meaning sh bp b).glom1 st') ((meaning sh bp b).glom2 st') _ _
            (ihb st')
            (λ rest qrest st'' fits'.
              (refl, refl, IsQuoted-append sh.show list rest ql qrest fits fits')))

  concat-Agrees :
      (a b : Tree F)
      → ((st : St) → Agrees sh.show (glom1 sh bp a st) (glom2 sh bp a st))
      → ((st : St) → Agrees sh.show (glom1 sh bp b st) (glom2 sh bp b st))
      → (st : St) → Agrees sh.show (glom1 sh bp (n_concat a b) st) (glom2 sh bp (n_concat a b) st)
  unfolding glom1 glom2
  concat-Agrees a b iha ihb st =
      follow-Agrees sh.show ((meaning sh bp a).glom1 st) ((meaning sh bp a).glom2 st) _ _ (iha st)
        (λ list ql st' fits.
          follow-Agrees sh.show ((meaning sh bp b).glom1 st') ((meaning sh bp b).glom2 st') _ _
            (ihb st')
            (λ rest qrest st'' fits'. (
              qconcat-words sh.show list rest ql qrest fits fits',
              refl,
              qconcat-IsQuoted sh.show list rest ql qrest fits fits',
            )))

  -- `glom2` runs as `glom1` does: the same words, failures and states. Each of its words has a
  -- quoting, and a string of flags is as long as its word, as `glob` asserts.
  pub glom2-Agrees : (t : Tree F) (st : St) → Agrees sh.show (glom1 sh bp t st) (glom2 sh bp t st)
  unfolding glom1 glom2
  glom2-Agrees null st = (refl, refl, tt)
  glom2-Agrees (n_word s) st = (refl, refl, (tt, tt))
  glom2-Agrees (n_list a b) st = list-Agrees a b (glom2-Agrees a) (glom2-Agrees b) st
  glom2-Agrees (n_concat a b) st = concat-Agrees a b (glom2-Agrees a) (glom2-Agrees b) st
  glom2-Agrees t st = all_quoted-Agrees sh.show (glom1 sh bp t st)
