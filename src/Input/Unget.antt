-- ===== src/Input/Unget.antt =====
-- `unget` puts a character in front of those to come.
use es_shell_mirror.Prelude.{
  ℕ, suc, ◌-◌, ◌≤◌, ◌<◌, ◌≡◌, refl, ap, ◌∙◌, ltb→lt, Bool, true, not, ◌&&◌, List, [], ◌∷◌, CString,
  Option, none, some, ◌==◌, ltb, length, get_or, drop, arith, Bool-cases, inl, inr, ==→eq, &&-true,
}
use es_shell_mirror.Input.State.{
  Fill, fd_fill, string_fill, eof_fill, unget_fill, Got, byte, eof, thrown, Read, Input, is_last,
  push_first, unget_onto, unget,
}
use es_shell_mirror.Input.Refine.{raw, Plain, IsValid, drop-step, plain, pushed}

-- What is pushed back is in front of the characters to come.
abbrev pub Pushes : Got → Input → Option Input → Type 0
Pushes c in_ r = (in' : Input) × (r ≡ some in') × (raw in' ≡ c ∷ raw in_) × IsValid in'

module _ (content : CString) (echoes interactive : Bool) where
  push_first-Pushes :
      (c : Got) (fill : Fill) (buf : ℕ) (is_open : Bool) (reads : List Read)
      → Plain fill is_open
      → buf ≤ length content
      → Pushes c
          (plain content echoes interactive fill buf is_open reads)
          (push_first none none c (plain content echoes interactive fill buf is_open reads))
  push_first-Pushes c fill buf is_open reads h within =
      (_, refl, refl, (h, within, refl, omega arith))

  drop-before :
      (n : ℕ)
      → 0 < n
      → n ≤ length content
      → drop (n - 1) content ≡ get_or content (n - 1) 0 ∷ drop n content
  drop-before n some_ within =
      let e : suc (n - 1) ≡ n = omega arith in
      drop-step (n - 1) content (omega arith)
      ∙ ap (λ m. get_or content (n - 1) 0 ∷ drop m content) e

  last-Pushes :
      (c : ℕ) (fill : Fill) (buf : ℕ) (is_open : Bool) (reads : List Read)
      → Plain fill is_open
      → buf ≤ length content
      → (ltb 0 buf && get_or content (buf - 1) 0 == c) ≡ true
      → Pushes
          (byte c)
          (plain content echoes interactive fill buf is_open reads)
          (some (plain content echoes interactive fill (buf - 1) is_open reads))
  last-Pushes c fill buf is_open reads h within last =
      let two = &&-true (ltb 0 buf) (get_or content (buf - 1) 0 == c) last in
      let same = ==→eq (get_or content (buf - 1) 0) c two.1 in
      (_, refl, rw (drop-before buf (ltb→lt 0 buf two.0) within, same) refl, (h, omega arith))

  unget-plain :
      (c : Got) (fill : Fill) (buf : ℕ) (is_open : Bool) (reads : List Read)
      → Plain fill is_open
      → buf ≤ length content
      → Pushes c
          (plain content echoes interactive fill buf is_open reads)
          (unget_onto [] c (plain content echoes interactive fill buf is_open reads))
  unget-plain (byte c) fill buf is_open reads h within =
      let in_ = plain content echoes interactive fill buf is_open reads in
      elim (Bool-cases (is_last (byte c) in_ && not echoes)) [
        | inl same ↦ rw same (
            last-Pushes c fill buf is_open reads h within
              (&&-true (is_last (byte c) in_) (not echoes) same).0)
        | inr other ↦ rw other (push_first-Pushes (byte c) fill buf is_open reads h within)
      ]
  unget-plain eof fill buf is_open reads h within =
      push_first-Pushes eof fill buf is_open reads h within
  unget-plain thrown fill buf is_open reads h within =
      push_first-Pushes thrown fill buf is_open reads h within

  unget-pushed :
      (c : Got) (ungot : List Got) (rfill : Option Fill) (rbuf : Option ℕ) (fill : Fill) (buf : ℕ)
      (is_open : Bool) (reads : List Read)
      → IsValid (pushed content echoes interactive ungot rfill rbuf fill buf is_open reads)
      → length ungot ≤ 1
      → Pushes c (pushed content echoes interactive ungot rfill rbuf fill buf is_open reads) (
          unget_onto ungot c
            (pushed content echoes interactive ungot rfill rbuf fill buf is_open reads))
  unget-pushed c [] none none fill buf is_open reads (h, within) few =
      unget-plain c fill buf is_open reads h within
  unget-pushed c [] none (some b) fill buf is_open reads h few = absurd h
  unget-pushed c [] (some f) rbuf fill buf is_open reads h few = absurd h
  unget-pushed c (d ∷ ungot) none rbuf fill buf is_open reads h few = absurd h
  unget-pushed c (d ∷ ungot) (some f) none fill buf is_open reads h few = absurd h
  unget-pushed c (d ∷ ungot) (some f) (some b) unget_fill buf is_open reads (h, kept, e, many) few =
      let room : ltb (suc (length ungot)) 2 ≡ true = ground arith in
      rw room (_, refl, refl, (h, kept, e, omega arith))
  unget-pushed c (d ∷ ungot) (some f) (some b) fd_fill buf is_open reads h few = absurd h
  unget-pushed c (d ∷ ungot) (some f) (some b) string_fill buf is_open reads h few = absurd h
  unget-pushed c (d ∷ ungot) (some f) (some b) eof_fill buf is_open reads h few = absurd h

-- `unget` on a well-formed source where fewer than two characters are pushed back puts the character in front of those
-- to come, whether it steps back in the buffer or sets the buffer aside; the source stays well-formed and no assertion fails.
pub unget-Pushes :
    (c : Got) (in_ : Input) → IsValid in_ → length in_.ungot ≤ 1 → Pushes c in_ (unget c in_)
unfolding unget
unget-Pushes c in_ h few =
    unget-pushed in_.content in_.echoes in_.interactive c in_.ungot in_.rfill in_.rbuf in_.fill
      in_.buf in_.is_open in_.reads h few
