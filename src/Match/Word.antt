-- ===== src/Match/Word.antt =====
-- `match` of match.c: one word against one pattern with its quoting.
use es_shell_mirror.Prelude.{
  ℕ, zero, suc, ◌+◌, Bool, true, false, ◌&&◌, [], ◌∷◌, CString, ◌==◌, if◌then◌else◌, length, drop,
  is_nil, streq,
}
use es_shell_mirror.Match.Quoting.{Quoting, quoted, is_raw, tail_quote, tail_quote_by}
use es_shell_mirror.Match.Range.{RangeResult, range_end, range_fail, range_error, rangematch}

-- What is matched next: the rest of the word, the rest of the pattern and its quoting.
abbrev pub Next : Type 0
Next = CString → CString → Quoting → Bool

-- `while (*s != '\0') if (match(s++, p + i, ...)) return TRUE; return FALSE;`
unfoldable pub try_suffixes : (CString → Bool) → CString → Bool
try_suffixes f [] = false
try_suffixes f (c ∷ s) = if f (c ∷ s) then true else try_suffixes f s

-- "collapse multiple stars"
unfoldable pub skip_stars : CString → Quoting → CString × Quoting
skip_stars [] q = ([], q)
skip_stars (c ∷ p) q = if c == b'*' && is_raw q then skip_stars p (tail_quote q) else (c ∷ p, q)

unfoldable pub match_star : Next → CString → CString × Quoting → Bool
match_star next s ([], q) = true
match_star next s (c ∷ p, q) = try_suffixes (λ t. next t (c ∷ p) q) s

unfoldable pub match_any : Next → CString → CString → Quoting → Bool
match_any next [] p q = false
match_any next (x ∷ s) p q = next s p q

-- `if (c != *s++) return FALSE;`
unfoldable pub match_byte : Next → ℕ → CString → CString → Quoting → Bool
match_byte next c [] p q = false
match_byte next c (x ∷ s) p q = if c == x then next s p q else false

unfoldable pub match_range : Next → RangeResult → ℕ → CString → CString → Quoting → Bool
match_range next (range_end j) x s p q = next s (drop j p) (tail_quote_by j q)
match_range next range_fail x s p q = false
match_range next range_error x s p q = if x == b'[' then next s p q else false

unfoldable pub match_class : Next → CString → CString → Quoting → Bool
match_class next [] p q = false
match_class next (x ∷ s) p q = match_range next (rangematch p q x) x s p q

-- One round of the loop on the character `c`, at which `raw` holds or not; `p` and `q` follow it.
unfoldable pub match_step : Next → Bool → ℕ → CString → CString → Quoting → Bool
match_step next true c s p q =
    if c == b'?'
    then match_any next s p q
    else if c == b'*'
    then match_star next s (skip_stars p q)
    else if c == b'['
    then match_class next s p q
    else match_byte next c s p q
match_step next false c s p q = match_byte next c s p q

-- The loop. Each round takes at least a byte of the pattern, so fuel above its length is enough.
unfoldable pub match_loop : ℕ → Next
match_loop zero s p q = false
match_loop (suc n) s [] q = is_nil s
match_loop (suc n) s (c ∷ p) q = match_step (match_loop n) (is_raw q) c s p (tail_quote q)

unfoldable pub match : CString → CString → Quoting → Bool
unfolding match_loop
match s p quoted = streq s p
match s p q = match_loop (length p + 1) s p q
