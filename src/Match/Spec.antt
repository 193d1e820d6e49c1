-- ===== src/Match/Spec.antt =====
-- What it means for a word to match a pattern, with no search in it.
use es_shell_mirror.Prelude.{
  ℕ, ◌≡◌, Bool, true, false, [], ◌∷◌, CString, ◌==◌, if◌then◌else◌, drop, none, some,
}
use es_shell_mirror.Match.Quoting.{Quoting, tail_quote, tail_quote_by}
use es_shell_mirror.Match.Marks.{reads_raw}
use es_shell_mirror.Match.Class.{Class, class_of, accepts}

-- A character that stands for itself: it is quoted, or it is no wildcard.
unfoldable pub is_literal : ℕ → Quoting → Bool
is_literal c q = if reads_raw q then not_wild else true
  where
    not_wild : Bool
    not_wild =
        if c == b'?' then false else if c == b'*' then false else if c == b'[' then false else true

-- `Matches p q s`: the word `s` matches the pattern `p` under `q`.
pub data Matches : CString → Quoting → CString → Type 0 where
  done : {q : Quoting} → Matches [] q []
  byte :
      {c : ℕ} {p : CString} {q : Quoting} {s : CString}
      → is_literal c q ≡ true
      → Matches p (tail_quote q) s
      → Matches (c ∷ p) q (c ∷ s)
  any :
      {c x : ℕ} {p : CString} {q : Quoting} {s : CString}
      → reads_raw q ≡ true
      → c ≡ b'?'
      → Matches p (tail_quote q) s
      → Matches (c ∷ p) q (x ∷ s)
  star_stop :
      {c : ℕ} {p : CString} {q : Quoting} {s : CString}
      → reads_raw q ≡ true
      → c ≡ b'*'
      → Matches p (tail_quote q) s
      → Matches (c ∷ p) q s
  star_more :
      {c x : ℕ} {p : CString} {q : Quoting} {s : CString}
      → reads_raw q ≡ true
      → c ≡ b'*'
      → Matches (c ∷ p) q s
      → Matches (c ∷ p) q (x ∷ s)
  class :
      {c x : ℕ} {p : CString} {q : Quoting} {s : CString} (k : Class)
      → reads_raw q ≡ true
      → c ≡ b'['
      → class_of p (tail_quote q) ≡ some k
      → accepts k x ≡ true
      → Matches (drop k.size p) (tail_quote_by k.size (tail_quote q)) s
      → Matches (c ∷ p) q (x ∷ s)
  -- A bracket that nothing closes stands for itself.
  bracket :
      {c : ℕ} {p : CString} {q : Quoting} {s : CString}
      → reads_raw q ≡ true
      → c ≡ b'['
      → class_of p (tail_quote q) ≡ none
      → Matches p (tail_quote q) s
      → Matches (c ∷ p) q (c ∷ s)
