-- ===== src/Match/Tests.antt =====
-- Runs of the matching functions of match.c.
use es_shell_mirror.Prelude.{◌≡◌, refl, true, false, codes, xor, streq, [], ◌∷◌}
use es_shell_mirror.Match.Quoting.{unquoted, flags, is_raw, is_quoted, tail_quote, step_quote}
use es_shell_mirror.Match.Range.{
  range_end, range_fail, range_error, rangematch, range_first, range_loop, range_close, is_plain,
  is_span, in_span,
}
use es_shell_mirror.Match.Word.{
  match, match_step, match_any, match_byte, match_star, skip_stars, try_suffixes,
}
use es_shell_mirror.Match.Wild.{haswild, match-without_wild}
use es_shell_mirror.Match.Lists.{extracted, aborted, extractsinglematch}

backtracks : match (codes "a.tt.txt") (codes "*.t?t") unquoted ≡ true
unfolding match match_step match_any match_byte match_star skip_stars try_suffixes is_raw tail_quote
backtracks = refl

-- The star of the pattern is quoted.
quoted_star : match (codes "ab") (codes "a*") (flags (codes "rq")) ≡ false
unfolding match match_step match_any match_byte match_star skip_stars try_suffixes is_raw tail_quote
quoted_star = refl

class_range : rangematch (codes "0-9a]x") unquoted b'7' ≡ range_end 5
unfolding rangematch range_first range_loop range_close is_plain is_span in_span is_quoted
    step_quote xor
class_range = refl

negated_class : rangematch (codes "~a-c]") unquoted b'b' ≡ range_fail
unfolding rangematch range_first range_loop range_close is_plain is_span in_span is_quoted
    step_quote xor
negated_class = refl

open_class : rangematch (codes "ab") unquoted b'a' ≡ range_error
unfolding rangematch range_first range_loop range_close is_plain is_span in_span is_quoted
    step_quote xor
open_class = refl

match-without_wild_example :
    match (codes "a*") (codes "a*") (flags (codes "rq")) ≡ streq (codes "a*") (codes "a*")
unfolding haswild
match-without_wild_example = match-without_wild (codes "a*") (codes "a*") (flags (codes "rq")) refl

-- What the wildcards stood for, the last one first.
pieces :
    extractsinglematch (codes "foo.c") (codes "*.?") unquoted []
    ≡ extracted (codes "c" ∷ codes "foo" ∷ [])
unfolding extractsinglematch haswild match match_step match_any match_byte match_star skip_stars
    try_suffixes is_raw tail_quote
pieces = refl

-- Two stars against the empty word: it matches, and an assertion fails.
two_stars : extractsinglematch [] (codes "**") unquoted [] ≡ aborted
unfolding extractsinglematch haswild match match_step match_any match_byte match_star skip_stars
    try_suffixes is_raw tail_quote
two_stars = refl
