-- ===== src/Match/Wild.antt =====
-- The tests of glob.c for what is special in a word, and what `match` does without wildcards.
use es_shell_mirror.Prelude.{
  ℕ, zero, suc, ◌+◌, ◌<◌, ◌≡◌, refl, ◌∙◌, ap, Bool, true, false, ◌&&◌, ◌||◌, [], ◌∷◌, CString, ◌==◌,
  arith, length, head_byte, if◌then◌else◌, streq, Bool-cases, inl, inr,
}
use es_shell_mirror.Match.Quoting.{Quoting, quoted, unquoted, flags, is_raw, tail_quote}
use es_shell_mirror.Match.Word.{match, match_loop, match_step, match_byte}

unfoldable pub hastilde : CString → Quoting → Bool
hastilde s unquoted = head_byte s == b'~'
hastilde s quoted = false
hastilde s (flags q) = head_byte s == b'~' && head_byte q == b'r'

abbrev pub is_wild : ℕ → Bool
is_wild c = c == b'*' || c == b'?' || c == b'['

unfoldable pub wild_raw : CString → Bool
wild_raw [] = false
wild_raw (c ∷ s) = if is_wild c then true else wild_raw s

unfoldable pub wild_flags : CString → CString → Bool
wild_flags [] q = false
wild_flags (c ∷ s) [] = wild_flags s []
wild_flags (c ∷ s) (r ∷ q) = if is_wild c && r == b'r' then true else wild_flags s q

unfoldable pub haswild : CString → Quoting → Bool
unfolding wild_raw wild_flags
haswild s quoted = false
haswild s unquoted = wild_raw s
haswild s (flags q) = wild_flags s q

-- SHOW_DOT_FILES is 0.
unfoldable pub ishiddenfile : CString → Bool
ishiddenfile s = head_byte s == b'.'

match_byte-cons :
    (n c : ℕ) (s p : CString) (q : Quoting)
    → ((t : CString) → match_loop n t p q ≡ streq t p)
    → match_byte (match_loop n) c s p q ≡ streq s (c ∷ p)
unfolding match_byte streq
match_byte-cons n c [] p q h = refl
match_byte-cons n c (x ∷ s) p q h = ground (arith, h s)

step_raw :
    (n c : ℕ) (s p : CString) (q : Quoting)
    → is_wild c ≡ false
    → match_step (match_loop n) true c s p q ≡ match_byte (match_loop n) c s p q
unfolding match_step
step_raw n c s p q h = ground arith

raw_loop :
    (n : ℕ) (s p : CString)
    → length p < n
    → wild_raw p ≡ false
    → match_loop n s p unquoted ≡ streq s p
unfolding match_loop wild_raw is_raw tail_quote streq
raw_loop zero s p lt h = ground arith
raw_loop (suc n) [] [] lt h = refl
raw_loop (suc n) (x ∷ s) [] lt h = refl
raw_loop (suc n) s (c ∷ p) lt h =
    let not_wild : is_wild c ≡ false = ground arith in
    let rest : wild_raw p ≡ false = ground arith in
    step_raw n c s p unquoted not_wild
    ∙ match_byte-cons n c s p unquoted (λ t. raw_loop n t p (omega (arith, lt)) rest)

step_quoted :
    (n c : ℕ) (s p : CString) (q : Quoting)
    → match_step (match_loop n) false c s p q ≡ match_byte (match_loop n) c s p q
unfolding match_step
step_quoted n c s p q = refl

step_flag :
    (n c r : ℕ) (s p : CString) (q : Quoting)
    → (is_wild c && r == b'r') ≡ false
    → match_step (match_loop n) (r == b'r') c s p q ≡ match_byte (match_loop n) c s p q
step_flag n c r s p q h = elim (Bool-cases (r == b'r')) [
  | inl e ↦ ap (λ b. match_step (match_loop n) b c s p q) e ∙ step_raw n c s p q (ground (arith, e))
  | inr e ↦ ap (λ b. match_step (match_loop n) b c s p q) e ∙ step_quoted n c s p q
]

flags_loop :
    (n : ℕ) (s p q : CString)
    → length p < n
    → wild_flags p q ≡ false
    → match_loop n s p (flags q) ≡ streq s p
unfolding match_loop wild_flags is_raw tail_quote streq
flags_loop zero s p q lt h = ground arith
flags_loop (suc n) [] [] q lt h = refl
flags_loop (suc n) (x ∷ s) [] q lt h = refl
flags_loop (suc n) s (c ∷ p) [] lt h =
    step_quoted n c s p (flags [])
    ∙ match_byte-cons n c s p (flags []) (λ t. flags_loop n t p [] (omega (arith, lt)) h)
flags_loop (suc n) s (c ∷ p) (r ∷ q) lt h =
    let plain : (is_wild c && r == b'r') ≡ false = ground arith in
    let rest : wild_flags p q ≡ false = ground arith in
    step_flag n c r s p (flags q) plain
    ∙ match_byte-cons n c s p (flags q) (λ t. flags_loop n t p q (omega (arith, lt)) rest)

-- A pattern in which `haswild` finds no wildcard is matched by the equal word and by no other.
pub match-without_wild :
    (s p : CString) (q : Quoting) → haswild p q ≡ false → match s p q ≡ streq s p
unfolding match haswild
match-without_wild s p quoted h = refl
match-without_wild s p unquoted h = raw_loop (length p + 1) s p (omega arith) h
match-without_wild s p (flags q) h = flags_loop (length p + 1) s p q (omega arith) h
