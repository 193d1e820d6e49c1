-- ===== src/Match/Class.antt =====
-- Character classes read on their own: the spans, the sense and the end of a class, with no
-- character at hand, and what a class says of a character.
use es_shell_mirror.Prelude.{
  ℕ, ◌+◌, ◌-◌, Bool, true, false, not, xor, ◌||◌, ◌&&◌, List, [], ◌∷◌, Option, none, some, CString,
  ◌==◌, leb, if◌then◌else◌, length,
}
use es_shell_mirror.Match.Quoting.{Quoting, quoted, unquoted, flags, is_raw, tail_quote}
use es_shell_mirror.Match.Range.{RangeResult, range_end, range_fail, range_error}
use es_shell_mirror.Match.Marks.{between, stands, is_dash}

-- A character, or all characters from one to another.
pub data Piece : Type 0 where
  single : ℕ → Piece
  span : ℕ → ℕ → Piece

abbrev pub Spans : Type 0
Spans = List Piece

pub record Class : Type 0 where
  pub negated : Bool
  pub spans : Spans
  pub size : ℕ

unfoldable pub in_piece : Piece → ℕ → Bool
unfolding between
in_piece (single a) c = a == c
in_piece (span a b) c = between a b c

-- Some piece holds the character.
unfoldable pub in_spans : Spans → ℕ → Bool
unfolding in_piece
in_spans [] c = false
in_spans (x ∷ l) c = in_piece x c || in_spans l c

unfoldable pub accepts : Class → ℕ → Bool
unfolding in_spans xor
accepts k c = xor (in_spans k.spans c) k.negated

unfoldable pub push_span : Piece → ℕ → Option (Spans × ℕ) → Option (Spans × ℕ)
push_span x n none = none
push_span x n (some (l, m)) = some (x ∷ l, n + m)

-- The spans up to the right bracket, and their length in bytes with it.
unfoldable pub spans_of : CString → Quoting → Option (Spans × ℕ)
spans_of [] q = none
spans_of (a ∷ d ∷ b ∷ p) q =
    let longer = push_span (span a b) 3 (spans_of p (tail_quote (tail_quote (tail_quote q)))) in
    let shorter = push_span (single a) 1 (spans_of (d ∷ b ∷ p) (tail_quote q)) in
    if stands b']' a q then some ([], 1) else if is_dash d b q then longer else shorter
spans_of (a ∷ p) q =
    let shorter = push_span (single a) 1 (spans_of p (tail_quote q)) in
    if stands b']' a q then some ([], 1) else shorter

-- A right bracket that comes first stands for itself.
unfoldable pub body_of : CString → Quoting → Option (Spans × ℕ)
body_of [] q = none
body_of (a ∷ p) q =
    if stands b']' a q
    then push_span (single b']') 1 (spans_of p (tail_quote q))
    else spans_of (a ∷ p) q

unfoldable pub make_class : Bool → ℕ → Option (Spans × ℕ) → Option Class
make_class neg n none = none
make_class neg n (some (l, m)) = some (record { negated = neg; spans = l; size = n + m })

-- The class that a pattern begins with, behind its `[`. None if no bracket ends it.
unfoldable pub class_of : CString → Quoting → Option Class
class_of [] q = none
class_of (a ∷ p) q =
    if stands b'~' a q
    then make_class true 1 (body_of p (tail_quote q))
    else make_class false 0 (body_of (a ∷ p) q)

-- What a class says of a character.
unfoldable pub decide_class : Option Class → ℕ → RangeResult
decide_class none c = range_error
decide_class (some k) c = if accepts k c then range_end k.size else range_fail

-- The bytes up to the one at which a class is decided.
abbrev pub class_reach : Option Class → CString → ℕ
class_reach none p = length p
class_reach (some k) p = k.size - 1

-- What a quoting points to, without the byte that ends it.
abbrev pub array_of : Quoting → CString
array_of quoted = b'Q' ∷ b'U' ∷ b'O' ∷ b'T' ∷ b'E' ∷ b'D' ∷ []
array_of unquoted = b'R' ∷ b'A' ∷ b'W' ∷ []
array_of (flags l) = l

-- The class is decided before its quoting ends. Past that the source reads behind the array, which is undefined.
abbrev pub class_within : CString → Quoting → Bool
class_within p q = leb (class_reach (class_of p q) p) (length (array_of q))

-- So it is with the class behind each bracket that may begin one.
abbrev pub classes_within : CString → Quoting → Bool
classes_within [] q = true
classes_within (c ∷ p) q =
    (not (is_raw q && c == b'[') || class_within p (tail_quote q))
    && classes_within p (tail_quote q)
