-- ===== src/Match/Decide.antt =====
-- `rangematch` decides membership in the class that a pattern spells.
use es_shell_mirror.Prelude.{
  ℕ, ◌+◌, ◌≡◌, refl, ◌∙◌, Bool, true, false, xor, ◌||◌, [], ◌∷◌, arith, Option, none, some, CString,
  ◌==◌, if◌then◌else◌,
}
use native.Mathlib.Nat.{add_assoc}
use es_shell_mirror.Match.Quoting.{Quoting, step_quote, tail_quote}
use es_shell_mirror.Match.Range.{
  RangeResult, range_end, range_fail, range_error, range_close, range_loop, range_first, rangematch,
}
use es_shell_mirror.Match.Marks.{
  between, stands, is_dash, Alike, alike, step-Alike, in_span-between, is_plain-stands,
  is_span-dash,
}
use es_shell_mirror.Match.Class.{
  Piece, single, span, Spans, Class, in_piece, in_spans, accepts, push_span, spans_of, body_of,
  make_class, class_of, decide_class,
}

or_assoc : (a b c : Bool) → ((a || b) || c) ≡ (a || (b || c))
or_assoc a b c = ground arith

==_comm : (a b : ℕ) → (a == b) ≡ (b == a)
==_comm a b = ground arith

-- `decide_class` from a given state of the loop.
pub decide_from : Bool → Bool → ℕ → Option (Spans × ℕ) → ℕ → RangeResult
unfolding in_spans xor
decide_from neg matched off none c = range_error
decide_from neg matched off (some (l, m)) c =
    if xor (matched || in_spans l c) neg then range_end (off + m) else range_fail

decide_from-push_span :
    (neg matched : Bool) (off n : ℕ) (x : Piece) (r : Option (Spans × ℕ)) (c : ℕ)
    → decide_from neg matched off (push_span x n r) c
      ≡ decide_from neg (matched || in_piece x c) (off + n) r c
unfolding decide_from push_span
decide_from-push_span neg matched off n x none c = refl
decide_from-push_span neg matched off n x (some (l, m)) c =
    rw (or_assoc matched (in_piece x c) (in_spans l c), add_assoc off n m)

decide_from-close :
    (neg matched : Bool) (off c : ℕ)
    → range_close neg matched off ≡ decide_from neg matched off (some ([], 1)) c
unfolding decide_from range_close in_spans
decide_from-close neg matched off c = ground arith

decide_from-if :
    (neg matched : Bool) (off : ℕ) (b : Bool) (r r' : Option (Spans × ℕ)) (c : ℕ)
    → decide_from neg matched off (if b then r else r') c
      ≡ (if b then decide_from neg matched off r c else decide_from neg matched off r' c)
decide_from-if neg matched off true r r' c = refl
decide_from-if neg matched off false r r' c = refl

-- One round of the loop, with the quoting of the class read on its own.
range_loop-three :
    (a d b : ℕ) (p : CString) {q q' : Quoting}
    → Alike q q'
    → (c : ℕ) (neg matched : Bool) (off : ℕ)
    → range_loop (a ∷ d ∷ b ∷ p) q c neg matched off ≡ (
        if stands b']' a q'
        then range_close neg matched off
        else if is_dash d b q'
        then range_loop p
            (step_quote (step_quote (step_quote q)))
            c
            neg
            (matched || between a b c)
            (off + 3)
        else range_loop (d ∷ b ∷ p) (step_quote q) c neg (matched || a == c) (off + 1))
unfolding range_loop
range_loop-three a d b p {q} {q'} same c neg matched off =
    rw⁻¹ (is_plain-stands b']' a same, is_span-dash d b same, in_span-between a b c) refl

spans_of-three :
    (a d b : ℕ) (p : CString) (q : Quoting)
    → spans_of (a ∷ d ∷ b ∷ p) q ≡ (
        if stands b']' a q
        then some ([], 1)
        else if is_dash d b q
        then push_span (span a b) 3 (spans_of p (tail_quote (tail_quote (tail_quote q))))
        else push_span (single a) 1 (spans_of (d ∷ b ∷ p) (tail_quote q)))
unfolding spans_of
spans_of-three a d b p q = refl

range_loop-one :
    (a : ℕ) {q q' : Quoting}
    → Alike q q'
    → (c : ℕ) (neg matched : Bool) (off : ℕ)
    → range_loop (a ∷ []) q c neg matched off ≡ (
        if stands b']' a q'
        then range_close neg matched off
        else range_loop [] (step_quote q) c neg (matched || a == c) (off + 1))
unfolding range_loop
range_loop-one a {q} {q'} same c neg matched off = rw⁻¹ (is_plain-stands b']' a same) refl

spans_of-one :
    (a : ℕ) (q : Quoting)
    → spans_of (a ∷ []) q ≡ (
        if stands b']' a q
        then some ([], 1)
        else push_span (single a) 1 (spans_of [] (tail_quote q)))
unfolding spans_of
spans_of-one a q = refl

range_loop-two :
    (a d : ℕ) {q q' : Quoting}
    → Alike q q'
    → (c : ℕ) (neg matched : Bool) (off : ℕ)
    → range_loop (a ∷ d ∷ []) q c neg matched off ≡ (
        if stands b']' a q'
        then range_close neg matched off
        else range_loop (d ∷ []) (step_quote q) c neg (matched || a == c) (off + 1))
unfolding range_loop
range_loop-two a d {q} {q'} same c neg matched off = rw⁻¹ (is_plain-stands b']' a same) refl

spans_of-two :
    (a d : ℕ) (q : Quoting)
    → spans_of (a ∷ d ∷ []) q ≡ (
        if stands b']' a q
        then some ([], 1)
        else push_span (single a) 1 (spans_of (d ∷ []) (tail_quote q)))
unfolding spans_of
spans_of-two a d q = refl

range_loop-eq :
    (p : CString) {q q' : Quoting}
    → Alike q q'
    → (c : ℕ) (neg matched : Bool) (off : ℕ)
    → range_loop p q c neg matched off ≡ decide_from neg matched off (spans_of p q') c
unfolding in_piece
range_loop-eq [] same c neg matched off = unfold range_loop spans_of decide_from in refl
range_loop-eq (a ∷ d ∷ b ∷ p) {q} {q'} same c neg matched off = simp (
  range_loop-three a d b p same,
  spans_of-three,
  decide_from-if,
  decide_from-push_span,
  range_loop-eq p (step-Alike (step-Alike (step-Alike same))),
  range_loop-eq (d ∷ b ∷ p) (step-Alike same),
  decide_from-close neg matched off c,
)
range_loop-eq (a ∷ []) same c neg matched off = simp (
  range_loop-one a same,
  spans_of-one,
  decide_from-if,
  decide_from-push_span,
  range_loop-eq [] (step-Alike same),
  decide_from-close neg matched off c,
)
range_loop-eq (a ∷ d ∷ []) same c neg matched off = simp (
  range_loop-two a d same,
  spans_of-two,
  decide_from-if,
  decide_from-push_span,
  range_loop-eq (d ∷ []) (step-Alike same),
  decide_from-close neg matched off c,
)

range_first-eq :
    (p : CString) {q q' : Quoting}
    → Alike q q'
    → (c : ℕ) (neg : Bool) (off : ℕ)
    → range_first p q c neg off ≡ decide_from neg false off (body_of p q') c
unfolding range_first body_of in_piece
range_first-eq [] same c neg off = range_loop-eq [] same c neg false off ∙ (unfold spans_of in refl)
range_first-eq (a ∷ p) same c neg off = simp (
  is_plain-stands b']' a same,
  decide_from-if,
  decide_from-push_span,
  range_loop-eq p (step-Alike same),
  range_loop-eq (a ∷ p) same,
  ==_comm c b']',
)

class_from-eq :
    (neg : Bool) (off : ℕ) (r : Option (Spans × ℕ)) (c : ℕ)
    → decide_from neg false off r c ≡ decide_class (make_class neg off r) c
unfolding decide_from decide_class make_class accepts
class_from-eq neg off none c = refl
class_from-eq neg off (some (l, m)) c = refl

decide_class-if :
    (b : Bool) (k k' : Option Class) (c : ℕ)
    → decide_class (if b then k else k') c ≡ (if b then decide_class k c else decide_class k' c)
decide_class-if true k k' c = refl
decide_class-if false k k' c = refl

rangematch-Alike :
    (p : CString) {q q' : Quoting}
    → Alike q q'
    → (c : ℕ) → rangematch p q c ≡ decide_class (class_of p q') c
unfolding rangematch class_of
rangematch-Alike [] same c =
    range_first-eq [] same c false 0
    ∙ (unfold body_of spans_of decide_class make_class decide_from in refl)
rangematch-Alike (a ∷ p) same c = simp (
  is_plain-stands b'~' a same,
  range_first-eq p (step-Alike same),
  range_first-eq (a ∷ p) same,
  class_from-eq,
  decide_class-if,
)

pub rangematch-decides :
    (p : CString) (q : Quoting) (c : ℕ) → rangematch p q c ≡ decide_class (class_of p q) c
rangematch-decides p q c = rangematch-Alike p (alike q) c
