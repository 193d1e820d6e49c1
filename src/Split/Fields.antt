-- ===== src/Split/Fields.antt =====
-- What split.c computes: the fields of a text, however the text comes in.
use mathlib.Core.List
use es_shell_mirror.Prelude.{
  ℕ, zero, suc, ◌≤◌, ◌≡◌, ◌≢◌, refl, sym, ◌∙◌, ap, Bool, true, false, ◌||◌, Option, none, some,
  List, [], ◌∷◌, ◌++◌, CString, ◌==◌, if◌then◌else◌, length, arith, Bool-cases, inl, inr,
  append-nil, append_assoc,
}
use es_shell_mirror.Split.State.{
  SplitState, split_loop, split_char, open_buffer, splitstring_r, splitstring_loop, splitstring,
}

-- The bytes go before the first field.
unfoldable pub prepend : CString → List CString → List CString
prepend b [] = []
prepend b (w ∷ l) = (b ++ w) ∷ l

-- The text between the separators, in order, empty fields included.
unfoldable pub split_fields : (ℕ → Bool) → CString → List CString
unfolding prepend
split_fields p [] = [] ∷ []
split_fields p (c ∷ s) =
    let rest = split_fields p s in if p c then [] ∷ rest else prepend (c ∷ []) rest

-- The fields that are not empty.
unfoldable pub nonempty : List CString → List CString
nonempty [] = []
nonempty ([] ∷ l) = nonempty l
nonempty ((c ∷ w) ∷ l) = (c ∷ w) ∷ nonempty l

unfoldable pub contains : CString → ℕ → Bool
contains [] c = false
contains (d ∷ sep) c = c == d || contains sep c

-- A byte that `startsplit` marks: one of the separators, or the NUL.
unfoldable pub is_separator : CString → ℕ → Bool
unfolding contains
is_separator sep c = contains sep c || c == 0

prepend-prepend : (a b : CString) (l : List CString) → prepend a (prepend b l) ≡ prepend (a ++ b) l
unfolding prepend
prepend-prepend a b [] = refl
prepend-prepend a b (w ∷ l) = ap (λ x. x ∷ l) (sym (append_assoc a b w))

pub prepend-nil : (l : List CString) → prepend [] l ≡ l
unfolding prepend
prepend-nil [] = refl
prepend-nil (w ∷ l) = refl

-- The loop as a fold over bytes: the word being read, if any, and the words read, the last first.
module _ (p : ℕ → Bool) (co : Bool) where
  abbrev pub step : Option CString × List CString → ℕ → Option CString × List CString
  step (none, v) c = (if p c then none else some (c ∷ []), v)
  step (some b, v) c =
      if p c then (if co then none else some [], b ∷ v) else (some (b ++ c ∷ []), v)

  unfoldable pub run : Option CString × List CString → CString → Option CString × List CString
  run x [] = x
  run x (c ∷ s) = run (step x c) s

  pub run-append :
      (x : Option CString × List CString) (s t : CString) → run x (s ++ t) ≡ run (run x s) t
  unfolding run
  run-append x [] t = refl
  run-append x (c ∷ s) t = run-append (step x c) s t

-- The end of a word, where there is one.
unfoldable pub finish : Bool → Option CString × List CString → Option CString × List CString
finish endword (none, v) = (none, v)
finish endword (some b, v) = if endword then (none, b ∷ v) else (some b, v)

abbrev pub with_words : SplitState → Option CString × List CString → SplitState
with_words st (b, v) = record st { buffer = b; value = v }

continue : ℕ → Bool → SplitState × Option CString → SplitState
continue f endword (st, none) = st
continue f endword (st, some s) = splitstring_loop f st s endword

splitstring_r-plain :
    (st : SplitState) (s : CString) (endword : Bool)
    → st.splitchars ≡ false
    → splitstring_r st s endword ≡ split_loop st (open_buffer st.coalesce st.buffer) endword s
unfolding splitstring_r
splitstring_r-plain st s endword plain =
    ap
      (λ b.
        if b then split_char st s else split_loop st (open_buffer st.coalesce st.buffer) endword s)
      plain

splitstring_loop-suc :
    (f : ℕ) (st : SplitState) (s : CString) (endword : Bool)
    → st.splitchars ≡ false
    → splitstring_loop (suc f) st s endword
      ≡ continue f endword (split_loop st (open_buffer st.coalesce st.buffer) endword s)
unfolding splitstring_loop continue
splitstring_loop-suc f st s endword plain =
    go (splitstring_r st s endword)
    ∙ ap (continue f endword) (splitstring_r-plain st s endword plain)
  where
    go :
        (r : SplitState × Option CString)
        → (elim r.1 [ none ↦ r.0 | some s' ↦ splitstring_loop f r.0 s' endword ])
          ≡ continue f endword r
    go (st', none) = refl
    go (st', some s') = refl

-- The buffer of a new word is open.
open-new_word :
    (co : Bool) → open_buffer co (if co then none else some []) ≡ (if co then none else some [])
unfolding open_buffer
open-new_word true = refl
open-new_word false = refl

new_word-opened :
    (co : Bool) → co ≡ false → ◌≢◌ {A = Option CString} (if co then none else some []) none
new_word-opened true h = cc
new_word-opened false h = λ e. cc

-- All rounds of `splitstring` together fold over the bytes.
continue-split_loop :
    (s : CString) (f : ℕ) (st : SplitState) (buf : Option CString) (endword : Bool)
    → st.splitchars ≡ false
    → (st.coalesce ≡ false → buf ≢ none)
    → length s ≤ f
    → continue f endword (split_loop st buf endword s)
      ≡ with_words st (finish endword (run st.isifs st.coalesce (buf, st.value) s))
unfolding continue split_loop run finish
continue-split_loop [] f st none endword plain opened len = refl
continue-split_loop [] f st (some b) true plain opened len = refl
continue-split_loop [] f st (some b) false plain opened len = refl
continue-split_loop (c ∷ s) f st none endword plain opened len =
    continue-split_loop s f st (if st.isifs c then none else some (c ∷ [])) endword plain
      (λ h. absurd (opened h refl)) (omega arith)
continue-split_loop (c ∷ s) zero st (some b) endword plain opened len = absurd (omega arith)
continue-split_loop (c ∷ s) (suc f) st (some b) endword plain opened len =
    elim (Bool-cases (st.isifs c)) [
      | inl sep ↦
          let word : SplitState = record st {
            buffer = if st.coalesce then none else some [];
            value = b ∷ st.value;
          } in
          rw sep (
            splitstring_loop-suc f word s endword plain
            ∙ ap (λ buf. continue f endword (split_loop word buf endword s))
                (open-new_word st.coalesce)
            ∙ continue-split_loop s f word (if st.coalesce then none else some []) endword plain
                (new_word-opened st.coalesce) (omega arith))
      | inr word ↦ rw word (
          continue-split_loop s (suc f) st (some (b ++ c ∷ [])) endword plain (λ h e. cc)
            (omega arith))
    ]

open_buffer-opened : (co : Bool) (buf : Option CString) → co ≡ false → open_buffer co buf ≢ none
unfolding open_buffer
open_buffer-opened true buf h = cc
open_buffer-opened false none h = λ e. cc
open_buffer-opened false (some b) h = λ e. cc

-- `splitstring` on a text is a fold over its bytes.
pub splitstring-run :
    (st : SplitState) (s : CString) (endword : Bool)
    → st.splitchars ≡ false
    → splitstring st s endword
      ≡ with_words st (
          finish endword (run st.isifs st.coalesce (open_buffer st.coalesce st.buffer, st.value) s))
unfolding splitstring
splitstring-run st s endword plain =
    ap (λ n. splitstring_loop n st s endword) {y = suc (length s)} (omega arith)
    ∙ splitstring_loop-suc (length s) st s endword plain
    ∙ continue-split_loop s (length s) st (open_buffer st.coalesce st.buffer) endword plain
        (open_buffer-opened st.coalesce st.buffer) (omega arith)

-- The words of a fold, in order, when it is closed.
unfoldable pub closed : Option CString × List CString → List CString
closed (none, v) = List.reverse v
closed (some b, v) = List.reverse v ++ b ∷ []

reverse-cons : {A : Type 0} (x : A) (l : List A) → List.reverse (x ∷ l) ≡ List.reverse l ++ x ∷ []
reverse-cons x l = List.reverse-append (x ∷ []) l

-- Without coalescing, the fields are those between the separators.
pub closed-run_all :
    (p : ℕ → Bool) (b : CString) (v : List CString) (s : CString)
    → closed (run p false (some b, v) s) ≡ List.reverse v ++ prepend b (split_fields p s)
unfolding run closed split_fields prepend
closed-run_all p b v [] = ap (λ w. List.reverse v ++ w ∷ []) (sym (append-nil b))
closed-run_all p b v (c ∷ s) = elim (Bool-cases (p c)) [
  | inl sep ↦ rw sep (
      closed-run_all p [] (b ∷ v) s
      ∙ ap (λ l. List.reverse (b ∷ v) ++ l) (prepend-nil (split_fields p s))
      ∙ ap (λ l. l ++ split_fields p s) (reverse-cons b v)
      ∙ append_assoc (List.reverse v) (b ∷ []) (split_fields p s)
      ∙ ap (λ w. List.reverse v ++ w ∷ split_fields p s) (sym (append-nil b)))
  | inr word ↦ rw word (
      closed-run_all p (b ++ c ∷ []) v s
      ∙ ap (λ l. List.reverse v ++ l) (sym (prepend-prepend b (c ∷ []) (split_fields p s))))
]

-- With coalescing, a word that is being read is not empty.
unfoldable pub pending : Option CString → CString
pending none = []
pending (some b) = b

abbrev pub IsPending : Option CString → Type 0
IsPending none = Unit
IsPending (some b) = b ≢ []

nonempty-cons : (b : CString) (l : List CString) → b ≢ [] → nonempty (b ∷ l) ≡ b ∷ nonempty l
unfolding nonempty
nonempty-cons [] l ne = absurd (ne refl)
nonempty-cons (c ∷ b) l ne = refl

append-ne : (b : CString) (c : ℕ) → (b ++ c ∷ []) ≢ []
append-ne [] c e = cc
append-ne (d ∷ b) c e = cc

nonempty-nil : nonempty [] ≡ []
unfolding nonempty
nonempty-nil = refl

nonempty-skip : (l : List CString) → nonempty ([] ∷ l) ≡ nonempty l
unfolding nonempty
nonempty-skip l = refl

-- A separator after a word that is being read.
end_word :
    (b : CString) (v l : List CString)
    → b ≢ []
    → List.reverse (b ∷ v) ++ nonempty (prepend [] l) ≡ List.reverse v ++ nonempty ((b ++ []) ∷ l)
end_word b v l ok =
    ap (λ k. List.reverse (b ∷ v) ++ nonempty k) (prepend-nil l)
    ∙ ap (λ k. k ++ nonempty l) (reverse-cons b v)
    ∙ append_assoc (List.reverse v) (b ∷ []) (nonempty l)
    ∙ ap (λ k. List.reverse v ++ k) (sym (nonempty-cons b l ok))
    ∙ ap (λ w. List.reverse v ++ nonempty (w ∷ l)) (sym (append-nil b))

pub closed-run_words :
    (p : ℕ → Bool) (buf : Option CString) (v : List CString) (s : CString)
    → IsPending buf
    → closed (run p true (buf, v) s)
      ≡ List.reverse v ++ nonempty (prepend (pending buf) (split_fields p s))
unfolding run closed split_fields prepend pending
closed-run_words p none v [] ok = unfold nonempty in sym (append-nil (List.reverse v))
closed-run_words p (some b) v [] ok =
    ap (λ w. List.reverse v ++ w ∷ []) (sym (append-nil b))
    ∙ ap (λ l. List.reverse v ++ (b ++ []) ∷ l) (sym nonempty-nil)
    ∙ ap (λ l. List.reverse v ++ l) (sym (nonempty-cons (b ++ []) [] (rw (append-nil b) ok)))
closed-run_words p none v (c ∷ s) ok = elim (Bool-cases (p c)) [
  | inl sep ↦ rw sep (
      closed-run_words p none v s tt
      ∙ ap (λ l. List.reverse v ++ nonempty l) (prepend-nil (split_fields p s))
      ∙ ap (λ l. List.reverse v ++ l) (sym (nonempty-skip (split_fields p s))))
  | inr word ↦ rw word (
      closed-run_words p (some (c ∷ [])) v s (λ e. cc)
      ∙ ap (λ l. List.reverse v ++ nonempty l)
          (sym (prepend-nil (prepend (c ∷ []) (split_fields p s)))))
]
closed-run_words p (some b) v (c ∷ s) ok = elim (Bool-cases (p c)) [
  | inl sep ↦ rw sep (closed-run_words p none (b ∷ v) s tt ∙ end_word b v (split_fields p s) ok)
  | inr word ↦ rw word (
      closed-run_words p (some (b ++ c ∷ [])) v s (append-ne b c)
      ∙ ap (λ l. List.reverse v ++ nonempty l)
          (sym (prepend-prepend b (c ∷ []) (split_fields p s))))
]
