-- ===== src/Match/Lists.antt =====
-- `listmatch`, `extractsinglematch` and `extractmatches` of match.c.
use es_shell_mirror.Prelude.{
  ℕ, zero, suc, ◌+◌, Bool, true, false, ◌&&◌, List, [], ◌∷◌, ◌++◌, CString, ◌==◌, head_byte,
  if◌then◌else◌, drop, length,
}
use es_shell_mirror.Match.Quoting.{Quoting, quoted, is_quoted, is_raw, tail_quote, tail_quote_by}
use es_shell_mirror.Match.Range.{RangeResult, range_end, range_fail, range_error, rangematch}
use es_shell_mirror.Match.Word.{match}
use es_shell_mirror.Match.Wild.{haswild}
use es_shell_mirror.ListOps.{reverse}

-- Each character is a raw star.
unfoldable pub only_stars : CString → Quoting → Bool
only_stars [] q = true
only_stars (c ∷ p) q = if c == b'*' && is_raw q then only_stars p (tail_quote q) else false

-- "one or more stars match null"
unfoldable pub stars_match_null : CString → Quoting → Bool
unfolding only_stars
stars_match_null [] q = false
stars_match_null (c ∷ p) quoted = false
stars_match_null (c ∷ p) q = only_stars (c ∷ p) q

unfoldable pub null_match : List CString → List Quoting → Bool
unfolding stars_match_null
null_match (p ∷ pattern) (q ∷ quote) =
    if stars_match_null p q then true else null_match pattern quote
null_match pattern quote = false

-- The words of the subject against one pattern.
unfoldable pub any_word : List CString → CString → Quoting → Bool
any_word [] p q = false
any_word (t ∷ s) p q = if match t p q then true else any_word s p q

unfoldable pub any_match : List CString → List CString → List Quoting → Bool
unfolding any_word
any_match s (p ∷ pattern) (q ∷ quote) = if any_word s p q then true else any_match s pattern quote
any_match s pattern quote = false

unfoldable pub listmatch : List CString → List CString → List Quoting → Bool
unfolding null_match any_match
listmatch [] [] quote = true
listmatch [] (p ∷ pattern) quote = null_match (p ∷ pattern) quote
listmatch (t ∷ s) pattern quote = any_match (t ∷ s) pattern quote

-- A list, or a failed assertion.
pub data Extracted : Type 0 where
  extracted : List CString → Extracted
  aborted : Extracted

-- The loop of extractsinglematch, on the rest of the subject, of the pattern and of its quoting, with
-- the result so far.
abbrev pub Extract : Type 0
Extract = CString → CString → Quoting → List CString → Extracted

-- What follows once the pattern is seen to match: the loop, else NULL.
unfoldable pub extract_with : Extract → Extract
extract_with next s p q result =
    if haswild p q && match s p q then next s p q result else extracted []

-- The search for the end of a star; `piece` is what the star has so far.
unfoldable pub extract_star :
    Extract → CString → CString → CString → Quoting → List CString → Extracted
unfolding extract_with
extract_star next piece [] p q result = aborted
extract_star next piece (c ∷ s) p q result =
    let later = extract_star next (piece ++ (c ∷ [])) s p q result in
    if match (c ∷ s) p q
    then (if haswild p q
        then extract_with next (c ∷ s) p q (piece ∷ result)
        else extracted (piece ∷ result))
    else later

unfoldable pub extract_class : Extract → RangeResult → Extract
extract_class next (range_end j) s p q result =
    next (drop 1 s) (drop j p) (tail_quote_by j q) ((head_byte s ∷ []) ∷ result)
extract_class next range_fail s p q result = aborted
extract_class next range_error s p q result =
    if head_byte s == b'[' then next (drop 1 s) p q result else aborted

-- A raw character `c`, followed by `p` and `q`.
unfoldable pub extract_char : Extract → ℕ → Extract
unfolding extract_star extract_class
extract_char next c s [] q result =
    if c == b'*'
    then extracted (s ∷ result)
    else if c == b'['
    then extract_class next (rangematch [] q (head_byte s)) s [] q result
    else if c == b'?'
    then next (drop 1 s) [] q ((head_byte s ∷ []) ∷ result)
    else next (drop 1 s) [] q result
extract_char next c s (d ∷ p) q result =
    if c == b'*'
    then extract_star next [] s (d ∷ p) q result
    else if c == b'['
    then extract_class next (rangematch (d ∷ p) q (head_byte s)) s (d ∷ p) q result
    else if c == b'?'
    then next (drop 1 s) (d ∷ p) q ((head_byte s ∷ []) ∷ result)
    else next (drop 1 s) (d ∷ p) q result

-- Each round takes a character of the pattern, so its length is fuel enough.
unfoldable pub extract_loop : ℕ → Extract
unfolding extract_char is_quoted
extract_loop zero s p q result = extracted result
extract_loop (suc n) s [] q result = extracted result
extract_loop (suc n) s (c ∷ p) q result =
    let next = extract_loop n in
    if is_quoted q 0
    then next (drop 1 s) p (tail_quote q) result
    else extract_char next c s p (tail_quote q) result

unfoldable pub extractsinglematch : CString → CString → Quoting → List CString → Extracted
unfolding extract_with extract_loop
extractsinglematch s p q result = extract_with (extract_loop (length p + 1)) s p q result

-- The first pattern that gives something, turned around.
unfoldable pub first_match : CString → List CString → List Quoting → Extracted
unfolding extractsinglematch reverse
first_match s (p ∷ patterns) (q ∷ quotes) =
    let later = first_match s patterns quotes in
    elim (extractsinglematch s p q []) [
      | extracted [] ↦ later
      | extracted (x ∷ found) ↦ extracted (reverse (x ∷ found))
      | aborted ↦ aborted
    ]
first_match s patterns quotes = extracted []

abbrev pub both : Extracted → Extracted → Extracted
both (extracted l) (extracted l') = extracted (l ++ l')
both (extracted l) aborted = aborted
both aborted o = aborted

unfoldable pub extractmatches : List CString → List CString → List Quoting → Extracted
unfolding first_match
extractmatches [] patterns quotes = extracted []
extractmatches (s ∷ subjects) patterns quotes =
    both (first_match s patterns quotes) (extractmatches subjects patterns quotes)
