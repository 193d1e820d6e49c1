-- ===== src/Match/Complete.antt =====
-- `match` answers true on every word that matches: taking a star's text step by step loses nothing.
use es_shell_mirror.Prelude.{
  ℕ, zero, suc, ◌≤◌, ◌<◌, ◌≡◌, refl, ◌⊎◌, inl, inr, Bool, true, false, ◌&&◌, [], ◌∷◌, CString, ◌==◌,
  length, drop, arith, none, some, Bool-cases, eq→==, length-drop, &&-true, sym, ◌∙◌,
}
use mathlib.Core.Bool.{false≢true}
use es_shell_mirror.Match.Quoting.{Quoting, tail_quote, tail_quote_by}
use es_shell_mirror.Match.Marks.{reads_raw, is_raw-reads}
use es_shell_mirror.Match.Class.{Class, class_of, accepts, decide_class}
use es_shell_mirror.Match.Decide.{rangematch-decides}
use es_shell_mirror.Match.Word.{
  Next, try_suffixes, skip_stars, match_star, match_any, match_byte, match_range, match_class,
  match_step, match_loop,
}
use es_shell_mirror.Match.Spec.{
  is_literal, Matches, done, byte, any, star_stop, star_more, class, bracket,
}

-- `P` holds of some end of the word.
abbrev SomeSuffix : (CString → Type 0) → CString → Type 0
SomeSuffix P [] = P []
SomeSuffix P (x ∷ s) = P (x ∷ s) ⊎ SomeSuffix P s

SomeSuffix-self : (P : CString → Type 0) (s : CString) → P s → SomeSuffix P s
SomeSuffix-self P [] h = h
SomeSuffix-self P (x ∷ s) h = inl h

try_suffixes_complete :
    (P : CString → Type 0) (f : CString → Bool) (s : CString)
    → ¬ P []
    → ((t : CString) → P t → f t ≡ true)
    → SomeSuffix P s
    → try_suffixes f s ≡ true
unfolding try_suffixes
try_suffixes_complete P f [] no_empty k h = absurd (no_empty h)
try_suffixes_complete P f (x ∷ s) no_empty k (inl h) = rw (k (x ∷ s) h)
try_suffixes_complete P f (x ∷ s) no_empty k (inr h) =
    ground (arith, try_suffixes_complete P f s no_empty k h)

module _ (c : ℕ) (q : Quoting) (star : (c == b'*' && reads_raw q) ≡ true) where
  star_not_literal : is_literal c q ≡ true → ⊥
  unfolding is_literal
  star_not_literal l = ground arith

  star_suffix :
      {p s : CString} (P : CString → Type 0)
      → ((t : CString) → Matches p (tail_quote q) t → SomeSuffix P t)
      → Matches (c ∷ p) q s
      → SomeSuffix P s
  star_suffix P pass (star_stop _ _ d) = pass _ d
  star_suffix P pass (star_more _ _ d) = inr (star_suffix P pass d)
  star_suffix P pass (byte l d) = absurd (star_not_literal l)
  star_suffix P pass (any r e d) = ground (arith, &&-true (c == b'*') (reads_raw q) star)
  star_suffix P pass (class k r e k_is a d) = ground (arith, &&-true (c == b'*') (reads_raw q) star)
  star_suffix P pass (bracket r e k_is d) = ground (arith, &&-true (c == b'*') (reads_raw q) star)

-- What is matched by stars and a rest has an end that the rest matches.
skip_suffix :
    (p : CString) (q : Quoting) (s : CString)
    → Matches p q s
    → SomeSuffix (Matches (skip_stars p q).0 (skip_stars p q).1) s
unfolding skip_stars
skip_suffix [] q s d = SomeSuffix-self (Matches [] q) s d
skip_suffix (c ∷ p) q s d = elim (Bool-cases (c == b'*' && reads_raw q)) [
  | inl h ↦
      rw (is_raw-reads q, h)
        (star_suffix c q h (Matches (skip_stars p (tail_quote q)).0 (skip_stars p (tail_quote q)).1)
          (skip_suffix p (tail_quote q)) d)
  | inr h ↦ rw (is_raw-reads q, h) (SomeSuffix-self (Matches (c ∷ p) q) s d)
]

length-skip_stars : (p : CString) (q : Quoting) → length (skip_stars p q).0 ≤ length p
unfolding skip_stars
length-skip_stars [] q = omega arith
length-skip_stars (c ∷ p) q = ground (arith, length-skip_stars p (tail_quote q))

-- Nothing matches the empty text but a star and the empty pattern.
Matches-nil :
    {c : ℕ} {p : CString} {q : Quoting} → Matches (c ∷ p) q [] → (c == b'*' && reads_raw q) ≡ true
Matches-nil (star_stop r e d) = ground arith

-- Behind the stars that are skipped stands no star.
abbrev StarFree : CString × Quoting → Type 0
StarFree ([], q) = Unit
StarFree (c ∷ p, q) = (c == b'*' && reads_raw q) ≡ false

skip_stars-StarFree : (p : CString) (q : Quoting) → StarFree (skip_stars p q)
unfolding skip_stars
skip_stars-StarFree [] q = tt
skip_stars-StarFree (c ∷ p) q = elim (Bool-cases (c == b'*' && reads_raw q)) [
  | inl h ↦ rw (is_raw-reads q, h) (skip_stars-StarFree p (tail_quote q))
  | inr h ↦ rw (is_raw-reads q, h) h
]

module _ (next : Next) (n : ℕ)
    (complete : (s p : CString) (q : Quoting)
      → length p ≤ n
      → Matches p q s
      → next s p q ≡ true) where
  match_star_complete :
      (s : CString) (pq : CString × Quoting)
      → length pq.0 ≤ n
      → StarFree pq
      → SomeSuffix (Matches pq.0 pq.1) s
      → match_star next s pq ≡ true
  unfolding match_star
  match_star_complete s ([], q) len free h = refl
  match_star_complete s (c ∷ p, q) len free h =
      try_suffixes_complete (Matches (c ∷ p) q) (λ t. next t (c ∷ p) q) s
        (λ d. false≢true (sym free ∙ Matches-nil d)) (λ t d. complete t (c ∷ p) q len d) h

  match_byte_complete :
      (c : ℕ) (p s : CString) (q : Quoting)
      → length p ≤ n
      → Matches p q s
      → match_byte next c (c ∷ s) p q ≡ true
  unfolding match_byte
  match_byte_complete c p s q len d = rw (eq→== c c refl) (complete s p q len d)

  match_range_complete :
      (x : ℕ) (p s : CString) (q : Quoting) (k : Class)
      → length p ≤ n
      → accepts k x ≡ true
      → Matches (drop k.size p) (tail_quote_by k.size q) s
      → match_range next (decide_class (some k) x) x s p q ≡ true
  unfolding match_range decide_class
  match_range_complete x p s q k len a d =
      rw a (
        complete s (drop k.size p) (tail_quote_by k.size q) (omega (arith, length-drop k.size p)) d)

  match_class_complete :
      (x : ℕ) (p s : CString) (q : Quoting) (k : Class)
      → length p ≤ n
      → class_of p q ≡ some k
      → accepts k x ≡ true
      → Matches (drop k.size p) (tail_quote_by k.size q) s
      → match_class next (x ∷ s) p q ≡ true
  unfolding match_class
  match_class_complete x p s q k len k_is a d =
      rw (rangematch-decides p q x, k_is) (match_range_complete x p s q k len a d)

  match_bracket_complete :
      {p s : CString} {q : Quoting}
      → length p ≤ n
      → class_of p q ≡ none
      → Matches p q s
      → match_class next (b'[' ∷ s) p q ≡ true
  unfolding match_class match_range decide_class
  match_bracket_complete {p} {s} {q} len k_is d =
      rw (rangematch-decides p q b'[', k_is) (complete s p q len d)

  match_stars_complete :
      {c : ℕ} {p : CString} {q : Quoting} (s : CString)
      → length p ≤ n
      → c ≡ b'*'
      → reads_raw q ≡ true
      → Matches (c ∷ p) q s
      → match_star next s (skip_stars p (tail_quote q)) ≡ true
  match_stars_complete {c} {p} {q} s len e r d =
      match_star_complete s (skip_stars p (tail_quote q))
        (omega (arith, length-skip_stars p (tail_quote q))) (skip_stars-StarFree p (tail_quote q))
        (star_suffix c q (ground arith)
          (Matches (skip_stars p (tail_quote q)).0 (skip_stars p (tail_quote q)).1)
          (skip_suffix p (tail_quote q)) d)

  raw_complete :
      (c : ℕ) (p : CString) (q : Quoting) (s : CString)
      → length p ≤ n
      → reads_raw q ≡ true
      → Matches (c ∷ p) q s
      → match_step next true c s p (tail_quote q) ≡ true
  unfolding match_step is_literal match_any
  raw_complete c p q (x ∷ s) len r (byte l d) =
      ground (arith, match_byte_complete c p s (tail_quote q) len d)
  raw_complete c p q (x ∷ s) len r (any _ e d) = ground (arith, complete s p (tail_quote q) len d)
  raw_complete c p q s len r (star_stop r' e d) =
      ground (arith, match_stars_complete s len e r (star_stop r' e d))
  raw_complete c p q (x ∷ s) len r (star_more r' e d) =
      ground (arith, match_stars_complete (x ∷ s) len e r (star_more r' e d))
  raw_complete c p q (x ∷ s) len r (class k _ e k_is a d) =
      ground (arith, match_class_complete x p s (tail_quote q) k len k_is a d)
  raw_complete c p q (x ∷ s) len r (bracket _ e k_is d) =
      ground (arith, match_bracket_complete len k_is d)

  quoted_complete :
      (c : ℕ) (p : CString) (q : Quoting) (s : CString)
      → length p ≤ n
      → reads_raw q ≡ false
      → Matches (c ∷ p) q s
      → match_step next false c s p (tail_quote q) ≡ true
  unfolding match_step
  quoted_complete c p q (x ∷ s) len r (byte l d) = match_byte_complete c p s (tail_quote q) len d
  quoted_complete c p q s len r (any r' e d) = absurd (false≢true (sym r ∙ r'))
  quoted_complete c p q s len r (star_stop r' e d) = absurd (false≢true (sym r ∙ r'))
  quoted_complete c p q s len r (star_more r' e d) = absurd (false≢true (sym r ∙ r'))
  quoted_complete c p q s len r (class k r' e k_is a d) = absurd (false≢true (sym r ∙ r'))
  quoted_complete c p q s len r (bracket r' e k_is d) = absurd (false≢true (sym r ∙ r'))

  match_step_complete :
      (c : ℕ) (p : CString) (q : Quoting) (s : CString)
      → length p ≤ n
      → Matches (c ∷ p) q s
      → match_step next (reads_raw q) c s p (tail_quote q) ≡ true
  match_step_complete c p q s len d = elim (Bool-cases (reads_raw q)) [
    | inl r ↦ rw r (raw_complete c p q s len r d)
    | inr r ↦ rw r (quoted_complete c p q s len r d)
  ]

pub match_loop_complete :
    (n : ℕ) (s p : CString) (q : Quoting) → length p < n → Matches p q s → match_loop n s p q ≡ true
unfolding match_loop
match_loop_complete zero s p q len d = absurd (omega arith)
match_loop_complete (suc n) s [] q len done = refl
match_loop_complete (suc n) s (c ∷ p) q len d = rw (is_raw-reads q) (
    match_step_complete (match_loop n) (length p)
      (λ s' p' q' len' d'. match_loop_complete n s' p' q' (omega arith) d') c p q s (omega arith) d)
