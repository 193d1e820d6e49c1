-- ===== src/Match/Marks.antt =====
-- The characters of a class and its brackets on their own: which are quoted, and what lies between two of them.
use es_shell_mirror.Prelude.{
  ℕ, zero, suc, ◌≡◌, refl, Bool, true, false, not, [], ◌∷◌, CString, ◌==◌, leb, ◌%◌, if◌then◌else◌,
  get_or, get_elem?, none, some, Option, arith,
}
use es_shell_mirror.Match.Quoting.{
  Quoting, quoted, unquoted, flags, is_quoted, tail_quote, step_quote, is_raw,
}
use es_shell_mirror.Match.Range.{char_le, in_span, is_plain, is_span}

abbrev pub is_mark : Option ℕ → Bool
is_mark none = false
is_mark (some x) = x == b'q'

-- Whether the `n`-th character is quoted.
abbrev pub has_mark : Quoting → ℕ → Bool
has_mark quoted n = true
has_mark unquoted n = false
has_mark (flags l) n = is_mark (get_elem? l n)

-- Whether the first character is raw: nothing is quoted, or its flag is 'r'.
abbrev pub reads_raw : Quoting → Bool
reads_raw quoted = false
reads_raw unquoted = true
reads_raw (flags []) = false
reads_raw (flags (x ∷ l)) = x == b'r'

pub is_raw-reads : (q : Quoting) → is_raw q ≡ reads_raw q
unfolding is_raw
is_raw-reads quoted = refl
is_raw-reads unquoted = refl
is_raw-reads (flags []) = refl
is_raw-reads (flags (x ∷ l)) = refl

abbrev pub is_negative : ℕ → Bool
is_negative a = leb 128 (a % 256)

-- The order of signed characters: the negative ones come first.
abbrev pub comes_before : ℕ → ℕ → Bool
comes_before a b =
    if is_negative a
    then (if is_negative b then leb (a % 256) (b % 256) else true)
    else (if is_negative b then false else leb (a % 256) (b % 256))

unfoldable pub between : ℕ → ℕ → ℕ → Bool
between a b c = if comes_before a c then comes_before c b else false

-- The first character is `x`, and is not quoted.
unfoldable pub stands : ℕ → ℕ → Quoting → Bool
stands x a q = if has_mark q 0 then false else a == x

-- A dash that is not quoted, and no bracket that ends the class behind it.
unfoldable pub is_dash : ℕ → ℕ → Quoting → Bool
is_dash d b q =
    if d == b'-'
    then (if has_mark q 1 then false else if has_mark q 2 then true else not (b == b']'))
    else false

abbrev NoMark : CString → Type 0
NoMark l = (n : ℕ) → (get_or l n 0 == b'q') ≡ false

-- Two quotings that say the same of each character: the array "RAW" has no 'q'.
pub data Alike : Quoting → Quoting → Type 0 where
  alike : (q : Quoting) → Alike q q
  raw : (l : CString) → NoMark l → Alike (flags l) unquoted

pub step-Alike : {q q' : Quoting} → Alike q q' → Alike (step_quote q) (tail_quote q')
unfolding step_quote tail_quote
step-Alike (alike quoted) = alike _
step-Alike (alike unquoted) = raw _ no_mark
  where
    no_mark : NoMark (b'A' ∷ b'W' ∷ [])
    no_mark zero = refl
    no_mark (suc zero) = refl
    no_mark (suc (suc n)) = refl
step-Alike (alike (flags [])) = alike _
step-Alike (alike (flags (x ∷ l))) = alike _
step-Alike (raw [] h) = raw _ h
step-Alike (raw (x ∷ l) h) = raw _ (λ n. h (suc n))

get_or-mark : (l : CString) (n : ℕ) → (get_or l n 0 == b'q') ≡ is_mark (get_elem? l n)
get_or-mark [] n = refl
get_or-mark (x ∷ l) zero = refl
get_or-mark (x ∷ l) (suc n) = get_or-mark l n

marked : {q q' : Quoting} → Alike q q' → (n : ℕ) → is_quoted q n ≡ has_mark q' n
unfolding is_quoted
marked (alike quoted) n = refl
marked (alike unquoted) n = refl
marked (alike (flags l)) n = get_or-mark l n
marked (raw l h) n = h n

char_le-comes_before : (a b : ℕ) → char_le a b ≡ comes_before a b
unfolding char_le
char_le-comes_before a b = ground arith

pub in_span-between : (a b c : ℕ) → in_span a b c ≡ between a b c
unfolding in_span between
in_span-between a b c = rw (char_le-comes_before a c, char_le-comes_before c b) (ground arith)

pub is_plain-stands : (x a : ℕ) {q q' : Quoting} → Alike q q' → is_plain x a q ≡ stands x a q'
unfolding is_plain stands
is_plain-stands x a {q} {q'} same = rw (marked same 0) (ground arith)

pub is_span-dash : (d b : ℕ) {q q' : Quoting} → Alike q q' → is_span d b q ≡ is_dash d b q'
unfolding is_span is_dash
is_span-dash d b {q} {q'} same = rw (marked same 1, marked same 2) (ground arith)
