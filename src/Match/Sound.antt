-- ===== src/Match/Sound.antt =====
-- `match` answers true only on words that match.
use es_shell_mirror.Prelude.{
  ℕ, zero, suc, ◌≡◌, refl, inl, inr, true, ◌&&◌, [], ◌∷◌, CString, ◌==◌, Option, none, some,
  Bool-cases, ==→eq, subst, &&-true, sym, ◌∙◌,
}
use mathlib.Core.Bool.{false≢true}
use es_shell_mirror.Match.Quoting.{Quoting, tail_quote}
use es_shell_mirror.Match.Marks.{reads_raw, is_raw-reads}
use es_shell_mirror.Match.Class.{Class, class_of, accepts, decide_class}
use es_shell_mirror.Match.Decide.{rangematch-decides}
use es_shell_mirror.Match.Word.{
  Next, try_suffixes, skip_stars, match_star, match_any, match_byte, match_range, match_class,
  match_step, match_loop,
}
use es_shell_mirror.Match.Spec.{
  is_literal, Matches, done, byte, any, star_stop, star_more, class, bracket,
}

-- Stars that are skipped match the empty text.
unskip_stars :
    (p : CString) (q : Quoting) (s : CString)
    → Matches (skip_stars p q).0 (skip_stars p q).1 s
    → Matches p q s
unfolding skip_stars
unskip_stars [] q s d = d
unskip_stars (c ∷ p) q s d = elim (Bool-cases (c == b'*' && reads_raw q)) [
  | inl h ↦
      let (e, r) = &&-true (c == b'*') (reads_raw q) h in
      star_stop r (==→eq c b'*' e) (unskip_stars p (tail_quote q) s (rw (is_raw-reads q, h) at d))
  | inr h ↦ rw (is_raw-reads q, h) at d
]

module _ (next : Next)
    (sound : (s p : CString) (q : Quoting) → next s p q ≡ true → Matches p q s) where
  try_suffixes_sound :
      {c : ℕ} {p : CString} {q : Quoting} (p' : CString) (q' : Quoting) (s : CString)
      → reads_raw q ≡ true
      → c ≡ b'*'
      → ((t : CString) → Matches p' q' t → Matches p (tail_quote q) t)
      → try_suffixes (λ t. next t p' q') s ≡ true
      → Matches (c ∷ p) q s
  unfolding try_suffixes
  try_suffixes_sound p' q' [] r e pass h = cc
  try_suffixes_sound p' q' (x ∷ s) r e pass h = elim (Bool-cases (next (x ∷ s) p' q')) [
    | inl t ↦ star_stop r e (pass (x ∷ s) (sound (x ∷ s) p' q' t))
    | inr f ↦ star_more r e (try_suffixes_sound p' q' s r e pass (rw f at h))
  ]

  star_at_end :
      {c : ℕ} {p : CString} {q : Quoting} (s : CString)
      → reads_raw q ≡ true
      → c ≡ b'*'
      → Matches p (tail_quote q) []
      → Matches (c ∷ p) q s
  star_at_end [] r e d = star_stop r e d
  star_at_end (x ∷ s) r e d = star_more r e (star_at_end s r e d)

  match_star_sound :
      {c : ℕ} {p : CString} {q : Quoting} (s : CString) (pq : CString × Quoting)
      → reads_raw q ≡ true
      → c ≡ b'*'
      → ((t : CString) → Matches pq.0 pq.1 t → Matches p (tail_quote q) t)
      → match_star next s pq ≡ true
      → Matches (c ∷ p) q s
  unfolding match_star
  match_star_sound s ([], q') r e pass h = star_at_end s r e (pass [] done)
  match_star_sound s (c' ∷ p', q') r e pass h = try_suffixes_sound (c' ∷ p') q' s r e pass h

  match_any_sound :
      {c : ℕ} {p : CString} {q : Quoting} (s : CString)
      → reads_raw q ≡ true
      → c ≡ b'?'
      → match_any next s p (tail_quote q) ≡ true
      → Matches (c ∷ p) q s
  unfolding match_any
  match_any_sound [] r e h = cc
  match_any_sound (x ∷ s) r e h = any r e (sound s _ _ h)

  match_byte_sound :
      {c : ℕ} {p : CString} {q : Quoting} (s : CString)
      → is_literal c q ≡ true
      → match_byte next c s p (tail_quote q) ≡ true
      → Matches (c ∷ p) q s
  unfolding match_byte
  match_byte_sound [] l h = cc
  match_byte_sound {c} {p} {q} (x ∷ s) l h = elim (Bool-cases (c == x)) [
    | inl e ↦
        subst (λ y. Matches (c ∷ p) q (y ∷ s)) (==→eq c x e) (byte l (sound s _ _ (rw e at h)))
    | inr e ↦ cc
  ]

  match_range_sound :
      {c x : ℕ} {p : CString} {q : Quoting} (s : CString) (k : Option Class)
      → reads_raw q ≡ true
      → c ≡ b'['
      → class_of p (tail_quote q) ≡ k
      → match_range next (decide_class k x) x s p (tail_quote q) ≡ true
      → Matches (c ∷ p) q (x ∷ s)
  unfolding match_range decide_class
  match_range_sound {c} {x} {p} {q} s none r e k_is h = elim (Bool-cases (x == b'[')) [
    | inl y ↦
        subst (λ y. Matches (c ∷ p) q (y ∷ s)) (e ∙ sym (==→eq x b'[' y))
          (bracket r e k_is (sound s _ _ (rw y at h)))
    | inr n ↦ absurd (false≢true (rw n at h))
  ]
  match_range_sound {x} s (some k) r e k_is h = elim (Bool-cases (accepts k x)) [
    | inl a ↦ class k r e k_is a (sound s _ _ (rw a at h))
    | inr n ↦ absurd (false≢true (rw n at h))
  ]

  match_class_sound :
      {c : ℕ} {p : CString} {q : Quoting} (s : CString)
      → reads_raw q ≡ true
      → c ≡ b'['
      → match_class next s p (tail_quote q) ≡ true
      → Matches (c ∷ p) q s
  unfolding match_class
  match_class_sound [] r e h = cc
  match_class_sound {p} {q} (x ∷ s) r e h =
      match_range_sound s (class_of p (tail_quote q)) r e refl
        (rw (rangematch-decides p (tail_quote q) x) at h)

  raw_sound :
      (c : ℕ) (p : CString) (q : Quoting) (s : CString)
      → reads_raw q ≡ true
      → match_step next true c s p (tail_quote q) ≡ true
      → Matches (c ∷ p) q s
  unfolding match_step is_literal
  raw_sound c p q s r h = elim (Bool-cases (c == b'?')) [
    | inl e ↦ match_any_sound s r (==→eq c b'?' e) (rw e at h)
    | inr e ↦ elim (Bool-cases (c == b'*')) [
      | inl f ↦
          match_star_sound s (skip_stars p (tail_quote q)) r (==→eq c b'*' f)
            (unskip_stars p (tail_quote q)) (rw (e, f) at h)
      | inr f ↦ elim (Bool-cases (c == b'[')) [
        | inl g ↦ match_class_sound s r (==→eq c b'[' g) (rw (e, f, g) at h)
        | inr g ↦ match_byte_sound s (rw (r, e, f, g)) (rw (e, f, g) at h)
      ]
    ]
  ]

  match_step_sound :
      (c : ℕ) (p : CString) (q : Quoting) (s : CString)
      → match_step next (reads_raw q) c s p (tail_quote q) ≡ true
      → Matches (c ∷ p) q s
  match_step_sound c p q s h = elim (Bool-cases (reads_raw q)) [
    | inl r ↦ raw_sound c p q s r (rw r at h)
    | inr r ↦ match_byte_sound s (unfold is_literal in rw r) (unfold match_step in rw r at h)
  ]

pub match_loop_sound :
    (n : ℕ) (s p : CString) (q : Quoting) → match_loop n s p q ≡ true → Matches p q s
unfolding match_loop
match_loop_sound zero s p q h = cc
match_loop_sound (suc n) [] [] q h = done
match_loop_sound (suc n) (x ∷ s) [] q h = cc
match_loop_sound (suc n) s (c ∷ p) q h =
    match_step_sound (match_loop n) (match_loop_sound n) c p q s (rw (is_raw-reads q) at h)
