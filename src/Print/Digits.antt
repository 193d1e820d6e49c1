-- ===== src/Print/Digits.antt =====
-- Reading a number, and that the digits of `es_utoa` are read back.
use es_shell_mirror.Prelude.{
  ℕ, zero, suc, ◌+◌, ◌-◌, ◌*◌, ◌/◌, ◌%◌, ◌<◌, ◌≤◌, ◌≡◌, refl, ap, subst, ◌∙◌, Bool, true, false,
  ◌&&◌, [], ◌∷◌, ◌++◌, CString, ◌==◌, leb, replicate, get_or, length, length-append, arith,
  Bool-cases, inl, inr, &&-true, ==→eq, leb→le, leb→gt,
}
use es_shell_mirror.Print.Convert.{chartable, utoa_loop, es_utoa}

-- The value of decimal digits.
abbrev pub read_digits : ℕ → CString → ℕ
read_digits acc [] = acc
read_digits acc (c ∷ s) = read_digits (acc * 10 + (c - b'0')) s

abbrev all_below : ℕ → (ℕ → Bool) → Bool
all_below zero p = true
all_below (suc n) p = p n && all_below n p

all_below-at : (n : ℕ) (p : ℕ → Bool) → all_below n p ≡ true → (k : ℕ) → k < n → p k ≡ true
all_below-at zero p h k less = absurd (omega arith)
all_below-at (suc n) p h k less = elim (Bool-cases (k == n)) [
  | inl same ↦ subst (λ x. p x ≡ true) (ground arith) (&&-true (p n) (all_below n p) h).0
  | inr other ↦ all_below-at n p (&&-true (p n) (all_below n p) h).1 k (ground arith)
]

-- The digits are at their places, from '0' to '9'.
abbrev good_digit : ℕ → Bool
good_digit k =
    leb b'0' (get_or (chartable false) k 0)
    && leb (get_or (chartable false) k 0) b'9'
    && get_or (chartable false) k 0 - b'0' == k

good_digits : all_below 10 good_digit ≡ true
good_digits = refl

three : (a b c : Bool) → (a && b && c) ≡ true → (a ≡ true) × (b ≡ true) × (c ≡ true)
three a b c h = (ground arith, ground arith, ground arith)

abbrev pub IsDigits : CString → Type 0
IsDigits [] = Unit
IsDigits (c ∷ s) = ((b'0' ≤ c) × (c ≤ b'9')) × IsDigits s

pub IsDigits-append : (s t : CString) → IsDigits s → IsDigits t → IsDigits (s ++ t)
IsDigits-append [] t h h' = h'
IsDigits-append (c ∷ s) t (d, h) h' = (d, IsDigits-append s t h h')

pub IsDigits-zeros : (n : ℕ) → IsDigits (replicate n b'0')
IsDigits-zeros zero = tt
IsDigits-zeros (suc n) = ((omega arith, omega arith), IsDigits-zeros n)

pub read_digits-append :
    (acc : ℕ) (s t : CString) → read_digits acc (s ++ t) ≡ read_digits (read_digits acc s) t
read_digits-append acc [] t = refl
read_digits-append acc (c ∷ s) t = read_digits-append (acc * 10 + (c - b'0')) s t

pub read_digits-zeros :
    (n : ℕ) (s : CString) → read_digits 0 (replicate n b'0' ++ s) ≡ read_digits 0 s
read_digits-zeros zero s = refl
read_digits-zeros (suc n) s = read_digits-zeros n s

digit-good :
    (k : ℕ)
    → k < 10
    → ((b'0' ≤ get_or (chartable false) k 0) × (get_or (chartable false) k 0 ≤ b'9'))
      × (get_or (chartable false) k 0 - b'0' ≡ k)
digit-good k h =
    let c = get_or (chartable false) k 0 in
    let (low, high, place) =
      three (leb b'0' c) (leb c b'9') (c - b'0' == k)
        (all_below-at 10 good_digit good_digits k h) in
    ((leb→le b'0' c low, leb→le c b'9' high), ==→eq (c - b'0') k place)

-- At least one digit, and their value is the number.
abbrev pub Writes : ℕ → CString → Type 0
Writes u s = IsDigits s × (read_digits 0 s ≡ u) × (0 < length s)

one_digit : (k : ℕ) → k < 10 → Writes k (get_or (chartable false) k 0 ∷ [])
one_digit k h =
    let (d, e) = digit-good k h in ((d, tt), ap (λ x. 0 * 10 + x) e ∙ omega arith, omega arith)

next_digit :
    (u k : ℕ) (s : CString)
    → k < 10
    → Writes u s
    → Writes (u * 10 + k) (s ++ get_or (chartable false) k 0 ∷ [])
next_digit u k s h (digits, reads, some_digit) =
    let c = get_or (chartable false) k 0 in
    let (d, e) = digit-good k h in
    (
      IsDigits-append s (c ∷ []) digits (d, tt),
      read_digits-append 0 s (c ∷ [])
          ∙ ap (λ a. read_digits a (c ∷ [])) reads
          ∙ ap (λ x. u * 10 + x) e,
      omega (arith, length-append s (c ∷ [])),
    )

utoa_loop-Writes : (n u : ℕ) → u ≤ n → Writes u (utoa_loop n u 10 (chartable false))
unfolding utoa_loop
utoa_loop-Writes zero u h = one_digit u (omega arith)
utoa_loop-Writes (suc n) u h = elim (Bool-cases (leb 10 u)) [
  | inl big ↦
      let least = leb→le 10 u big in
      let split : u / 10 * 10 + u % 10 ≡ u = omega arith in
      let written =
        next_digit (u / 10) (u % 10) (utoa_loop n (u / 10) 10 (chartable false)) (omega arith)
          (utoa_loop-Writes n (u / 10) (omega arith)) in
      rw big (
        subst
          (λ x.
            Writes x (
              utoa_loop n (u / 10) 10 (chartable false)
              ++ get_or (chartable false) (u % 10) 0 ∷ []))
          split written)
  | inr small ↦ rw small (one_digit u (leb→gt 10 u small))
]

pub es_utoa-Writes : (u : ℕ) → Writes u (es_utoa u 10 (chartable false))
unfolding es_utoa
es_utoa-Writes u = utoa_loop-Writes u u (omega arith)
