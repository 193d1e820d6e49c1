-- ===== src/Print/Number.antt =====
-- What `%d` puts out is a decimal numeral of the number.
use es_shell_mirror.Prelude.{
  ℕ, ◌+◌, ◌≤◌, ◌<◌, ◌≡◌, refl, sym, ap, subst, ◌∙◌, Bool, true, false, ◌&&◌, [], ◌∷◌, ◌++◌, CString,
  none, some, ltb, if◌then◌else◌, length, replicate, arith, Bool-cases, inl, inr, &&-true,
  length-append, length-replicate, append-nil, append_assoc,
}
use es_shell_mirror.Prelude.Int.{ℤ, pos, negsuc}
use es_shell_mirror.Print.State.{Format, FormatFlags, Formatted}
use es_shell_mirror.Print.Convert.{
  chartable, es_utoa, magnitude, sign, missing, put_number, zero_padded, put_padded, int_fits,
  negatable, intconv_of,
}
use es_shell_mirror.Print.Digits.{
  read_digits, IsDigits, Writes, IsDigits-append, IsDigits-zeros, read_digits-zeros, es_utoa-Writes,
}
use es_shell_mirror.Print.Buffer.{
  text, IsValid, Appends, append_then, fmtappend-Appends, pad-Appends,
}

-- Padding, sign, zeros, digits, padding.
abbrev field : ℕ → CString → ℕ → CString → ℕ → CString
field p prefix z number q =
    replicate p b' ' ++ (prefix ++ (replicate z b'0' ++ (number ++ replicate q b' ')))

abbrev pub minus : ℤ → CString
minus (pos n) = []
minus (negsuc n) = b'-' ∷ []

abbrev pub absolute : ℤ → ℕ
absolute (pos n) = n
absolute (negsuc n) = n + 1

-- Spaces, a minus sign if the number is negative, decimal digits whose value is its magnitude, and spaces.
abbrev pub IsNumeral : ℤ → CString → Type 0
IsNumeral n t =
    (p : ℕ) × (ds : CString) × (q : ℕ) × (t
      ≡ replicate p b' ' ++ (minus n ++ (ds ++ replicate q b' ')))
    × IsDigits ds
    × (0 < length ds)
    × (read_digits 0 ds ≡ absolute n)

sign-minus : (n : ℤ) → sign false n ≡ minus n
sign-minus (pos n) = refl
sign-minus (negsuc n) = refl

magnitude-absolute : (n : ℤ) → magnitude false n ≡ absolute n
magnitude-absolute (pos n) = refl
magnitude-absolute (negsuc n) = omega arith

field-IsNumeral :
    (n : ℤ) (p z q : ℕ) (number : CString)
    → Writes (magnitude false n) number
    → IsNumeral n (field p (sign false n) z number q)
field-IsNumeral n p z q number (digits, reads, some_digit) = (
  p,
  replicate z b'0' ++ number,
  q,
  ap (λ l. replicate p b' ' ++ (sign false n ++ l))
        (sym (append_assoc (replicate z b'0') number (replicate q b' ')))
      ∙ ap (λ l. replicate p b' ' ++ (l ++ ((replicate z b'0' ++ number) ++ replicate q b' ')))
          (sign-minus n),
  IsDigits-append (replicate z b'0') number (IsDigits-zeros z) digits,
  omega (arith, length-append (replicate z b'0') number),
  read_digits-zeros z number ∙ reads ∙ magnitude-absolute n,
)

length-field :
    (p z q : ℕ) (prefix number : CString)
    → length (field p prefix z number q) ≡ p + (length prefix + (z + (length number + q)))
length-field p z q prefix number =
    let inner = number ++ replicate q b' ' in
    omega (
      arith,
      length-append (replicate p b' ') (prefix ++ (replicate z b'0' ++ inner)),
      length-append prefix (replicate z b'0' ++ inner),
      length-append (replicate z b'0') inner,
      length-append number (replicate q b' '),
      length-replicate {A = ℕ} p b' ',
      length-replicate {A = ℕ} z b'0',
      length-replicate {A = ℕ} q b' ',
    )

some-Appends : (f : Format) → IsValid f → Appends [] f (some f)
some-Appends f valid = (f, refl, valid, sym (append-nil (text f)), omega arith)

module _ (prefix number : CString) (zeroes : ℕ) where
  put_number-right :
      (padding padchar : ℕ) (f : Format)
      → IsValid f
      → Appends
          (replicate padding padchar ++ (prefix ++ (replicate zeroes b'0' ++ (number ++ []))))
          f
          (put_number false padding padchar prefix zeroes number f)
  put_number-right padding padchar f valid =
      append_then _ _ f _ _ (pad-Appends padding padchar f valid) (λ f1 valid1.
        append_then _ _ f1 _ _ (fmtappend-Appends prefix f1 valid1) (λ f2 valid2.
          append_then _ _ f2 _ _ (pad-Appends zeroes b'0' f2 valid2) (λ f3 valid3.
            append_then _ _ f3 _ _ (fmtappend-Appends number f3 valid3) some-Appends)))

  put_number-left :
      (padding padchar : ℕ) (f : Format)
      → IsValid f
      → Appends
          (prefix ++ (replicate zeroes b'0' ++ (number ++ replicate padding padchar)))
          f
          (put_number true padding padchar prefix zeroes number f)
  put_number-left padding padchar f valid =
      append_then _ _ f _ _ (fmtappend-Appends prefix f valid) (λ f2 valid2.
        append_then _ _ f2 _ _ (pad-Appends zeroes b'0' f2 valid2) (λ f3 valid3.
          append_then _ _ f3 _ _ (fmtappend-Appends number f3 valid3)
            (pad-Appends padding padchar)))

missing-fills : (is_set : Bool) (f len : ℕ) → (if is_set then f else 0) ≤ missing is_set f len + len
missing-fills true f len = ground arith
missing-fills false f len = omega arith

-- The text that is put out, which is a numeral of the number and is as wide as was asked for.
abbrev pub Prints : ℤ → ℕ → Format → Formatted → Type 0
Prints n width f o = (t : CString) × Appends t f o × IsNumeral n t × (width ≤ length t)

module _ (n : ℤ) (number : CString) (writes : Writes (magnitude false n) number)
    (zeroes width padding : ℕ)
    (fills : width ≤ padding + (length (sign false n) + zeroes + length number)) (f : Format)
    (valid : IsValid f) where
  at_right :
      (p z : ℕ) (c : ℕ)
      → (replicate p c ≡ replicate p b' ')
      → width ≤ p + (length (sign false n) + z + length number)
      → Prints n width f (put_number false p c (sign false n) z number f)
  at_right p z c e wide = (
    field p (sign false n) z number 0,
    subst
        (λ l.
          Appends (l ++ (sign false n ++ (replicate z b'0' ++ (number ++ [])))) f
            (put_number false p c (sign false n) z number f))
        e (put_number-right (sign false n) number z p c f valid),
    field-IsNumeral n p z 0 number writes,
    omega (arith, length-field p z 0 (sign false n) number),
  )

  at_left : Prints n width f (put_number true padding b' ' (sign false n) zeroes number f)
  at_left = (
    field 0 (sign false n) zeroes number padding,
    put_number-left (sign false n) number zeroes padding b' ' f valid,
    field-IsNumeral n 0 zeroes padding number writes,
    omega (arith, length-field 0 zeroes padding (sign false n) number),
  )

  with_blanks :
      (flags : FormatFlags) (leftside : Bool)
      → flags.leftside ≡ leftside
      → (ltb 0 padding && flags.zeropad) ≡ false
      → Prints n width f (zero_padded flags padding (sign false n) zeroes number f)
  with_blanks flags true e blanks = rw (blanks, e) at_left
  with_blanks flags false e blanks = rw (blanks, e) (at_right padding zeroes b' ' refl fills)

  zero_padded-Prints :
      (flags : FormatFlags)
      → (flags.leftside && flags.zeropad) ≡ false
      → Prints n width f (zero_padded flags padding (sign false n) zeroes number f)
  zero_padded-Prints flags h = elim (Bool-cases (ltb 0 padding && flags.zeropad)) [
    | inl zeros ↦
        let right : flags.leftside ≡ false =
          only_zeros flags.leftside flags.zeropad h
            (&&-true (ltb 0 padding) flags.zeropad zeros).1 in
        rw (zeros, right) (at_right 0 (zeroes + padding) b'0' refl (omega arith))
    | inr blanks ↦ with_blanks flags flags.leftside refl blanks
  ]
    where
      only_zeros : (a b : Bool) → (a && b) ≡ false → b ≡ true → a ≡ false
      only_zeros true b h h' = cc
      only_zeros false b h h' = refl

-- `%d`, without the flags for an unsigned number and for the other form, and without zeros for padding on the right, of a number
-- that an argument of that type holds and whose negation does not overflow, appends a text to a format whose buffer has room and
-- whose `write` does not fail or stop halfway. The text is spaces, a minus sign if the number is negative, decimal digits whose
-- value is its magnitude, and spaces, and it is at least as wide as was asked for.
pub intconv_of-Prints :
    (n : ℤ) (f : Format)
    → IsValid f
    → f.flags.unsigned ≡ false
    → f.flags.altform ≡ false
    → (f.flags.leftside && f.flags.zeropad) ≡ false
    → int_fits f.flags.long n ≡ true
    → negatable false n ≡ true
    → Prints n (if f.flags.f1set then f.f1 else 0) f (intconv_of 10 false [] n f)
unfolding intconv_of
intconv_of-Prints n f valid signed plain h fits negates =
    let number = λ (u : Bool). es_utoa (magnitude u n) 10 (chartable false) in
    let zeroes = missing f.flags.f2set f.f2 (length (number false)) in
    let len = length (sign false n) + zeroes + length (number false) in
    let guard : (int_fits f.flags.long n && negatable f.flags.unsigned n) ≡ true =
      ap (λ u. int_fits f.flags.long n && negatable u n) signed
      ∙ ap (λ b. b && negatable false n) fits
      ∙ negates in
    let run : intconv_of 10 false [] n f ≡ put_padded (sign false n) (number false) f =
      then_put guard
      ∙ ap (λ u. put_padded (sign u n ++ (if f.flags.altform then [] else [])) (number u) f) signed
      ∙ ap (λ a. put_padded (sign false n ++ (if a then [] else [])) (number false) f) plain
      ∙ ap (λ l. put_padded l (number false) f) (append-nil (sign false n)) in
    subst (Prints n (if f.flags.f1set then f.f1 else 0) f) (sym run) (
      zero_padded-Prints n (number false) (es_utoa-Writes (magnitude false n)) zeroes
        (if f.flags.f1set then f.f1 else 0) (missing f.flags.f1set f.f1 len)
        (missing-fills f.flags.f1set f.f1 len) f valid f.flags h)
  where
    then_put : {b : Bool} {o : Formatted} → b ≡ true → (if b then o else none) ≡ o
    then_put {b} {o} e = ap (λ c. if c then o else none) e
