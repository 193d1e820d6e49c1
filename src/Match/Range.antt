-- ===== src/Match/Range.antt =====
-- `rangematch` of match.c: a character against the class that follows a `[`.
use es_shell_mirror.Prelude.{
  ℕ, ◌+◌, ◌%◌, Bool, true, false, not, xor, ◌&&◌, ◌||◌, [], ◌∷◌, CString, ◌==◌, leb, if◌then◌else◌,
}
use es_shell_mirror.Match.Quoting.{Quoting, is_quoted, step_quote}

-- An offset past the bracket, or `RANGE_FAIL`, or `RANGE_ERROR`.
pub data RangeResult : Type 0 where
  range_end : ℕ → RangeResult
  range_fail : RangeResult
  range_error : RangeResult

-- `a <= b` for `char`, which is signed: 128 to 255 stand for the negative values.
unfoldable pub char_le : ℕ → ℕ → Bool
char_le a b = leb ((a + 128) % 256) ((b + 128) % 256)

-- `c >= *p && c <= p[2]`
unfoldable pub in_span : ℕ → ℕ → ℕ → Bool
unfolding char_le
in_span lo hi c = char_le lo c && char_le c hi

-- `*p == x && !ISQUOTED(q, 0)`
unfoldable pub is_plain : ℕ → ℕ → Quoting → Bool
unfolding is_quoted
is_plain x c q = c == x && not (is_quoted q 0)

-- the test for `a-b` at `*p == a`, where `d` is `p[1]` and `b` is `p[2]`
unfoldable pub is_span : ℕ → ℕ → Quoting → Bool
unfolding is_quoted
is_span d b q = d == b'-' && not (is_quoted q 1) && (not (b == b']') || is_quoted q 2)

-- `matched ^ neg` at the right bracket, `off` bytes after the start
unfoldable pub range_close : Bool → Bool → ℕ → RangeResult
range_close neg matched off = if xor matched neg then range_end (off + 1) else range_fail

-- The loop. The last clause is for the bytes that have no two bytes after them: `p[1]` or `p[2]` is
-- the NUL, and no span begins there.
unfoldable pub range_loop : CString → Quoting → ℕ → Bool → Bool → ℕ → RangeResult
range_loop [] q c neg matched off = range_error
range_loop (a ∷ d ∷ b ∷ p) q c neg matched off =
    let span =
      range_loop p (step_quote (step_quote (step_quote q))) c neg (matched || in_span a b c)
        (off + 3) in
    let single = range_loop (d ∷ b ∷ p) (step_quote q) c neg (matched || a == c) (off + 1) in
    if is_plain b']' a q
    then range_close neg matched off
    else if is_span d b q
    then span
    else single
range_loop (a ∷ p) q c neg matched off =
    let single = range_loop p (step_quote q) c neg (matched || a == c) (off + 1) in
    if is_plain b']' a q then range_close neg matched off else single

-- After an initial `~`, if any: a right bracket that comes first is an ordinary character.
unfoldable pub range_first : CString → Quoting → ℕ → Bool → ℕ → RangeResult
range_first [] q c neg off = range_loop [] q c neg false off
range_first (a ∷ p) q c neg off =
    if is_plain b']' a q
    then range_loop p (step_quote q) c neg (c == b']') (off + 1)
    else range_loop (a ∷ p) q c neg false off

unfoldable pub rangematch : CString → Quoting → ℕ → RangeResult
rangematch [] q c = range_first [] q c false 0
rangematch (a ∷ p) q c =
    if is_plain b'~' a q
    then range_first p (step_quote q) c true 1
    else range_first (a ∷ p) q c false 0
