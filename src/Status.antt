-- ===== src/Status.antt =====
-- status.c: the truth of a status and the number that the shell exits with.
use es_shell_mirror.Prelude.{
  ℕ, zero, suc, ◌≤◌, ◌<◌, ◌≡◌, refl, Bool, true, false, not, ◌&&◌, ◌||◌, List, [], ◌∷◌, CString,
  codes, ◌==◌, arith, head_byte, get_or, if◌then◌else◌, ltb, Bool-cases, inl, inr,
}
use es_shell_mirror.Prelude.Int.{ℤ, pos, negsuc}
use es_shell_mirror.Syntax.Tree.{Term, mkstr, mkfun}
mod Tests

-- A term that is true: "" or "0".
unfoldable pub is_true_string : CString → Bool
is_true_string str =
    not (not (head_byte str == 0) && (not (head_byte str == b'0') || not (get_or str 1 0 == 0)))

module _ {C : Type 0} where
  unfoldable pub istrue : List (Term C) → Bool
  unfolding is_true_string
  istrue [] = true
  istrue (mkfun c ∷ status) = false
  istrue (mkstr s ∷ status) = let rest = istrue status in if is_true_string s then rest else false

-- The number as an `unsigned long`: a negative one is above 255.
unfoldable pub exit_code : ℤ × Bool → ℕ
exit_code (pos n, true) = if ltb 255 n then 1 else n
exit_code (negsuc n, true) = 1
exit_code (n, false) = 1

exit_code-bound : (r : ℤ × Bool) → exit_code r ≤ 255
unfolding exit_code
exit_code-bound (pos n, true) = ground arith
exit_code-bound (negsuc n, true) = ground arith
exit_code-bound (n, false) = ground arith

module _ (strtol : CString → ℤ × Bool) where
  single_true :
      (s : CString)
      → ((n : CString) → head_byte n ≡ b'0' → get_or n 1 0 ≡ 0 → strtol n ≡ (pos 0, true))
      → is_true_string s ≡ true
      → (if head_byte s == 0 then 0 else exit_code (strtol s)) ≡ 0
  unfolding exit_code is_true_string
  single_true s zero_read h = elim (Bool-cases (head_byte s == 0)) [
    | inl e ↦ rw (e) refl
    | inr e ↦ rw (e, zero_read s (ground (arith, e)) (ground (arith, e))) refl
  ]

-- `strtol` is `strtol(s, &s, 0)` of the C library: the number, and whether the whole string was read.
module _ {C : Type 0} (strtol : CString → ℤ × Bool) where
  unfoldable pub exitstatus : List (Term C) → ℕ
  unfolding istrue exit_code
  exitstatus [] = 0
  exitstatus (mkfun c ∷ []) = 1
  exitstatus (mkstr s ∷ []) = if head_byte s == 0 then 0 else exit_code (strtol s)
  exitstatus (t ∷ t' ∷ status) = if istrue (t ∷ t' ∷ status) then 0 else 1

  -- Every exit status fits in a byte, whatever `strtol` says.
  pub exitstatus-bound : (status : List (Term C)) → exitstatus status ≤ 255
  unfolding exitstatus
  exitstatus-bound [] = ground arith
  exitstatus-bound (mkfun c ∷ []) = ground arith
  exitstatus-bound (mkstr s ∷ []) = ground (arith, exit_code-bound (strtol s))
  exitstatus-bound (t ∷ t' ∷ status) = ground arith

  -- A status that is true exits with 0, if `strtol` reads the string "0" as 0.
  pub exitstatus-istrue :
      (status : List (Term C))
      → ((n : CString) → head_byte n ≡ b'0' → get_or n 1 0 ≡ 0 → strtol n ≡ (pos 0, true))
      → istrue status ≡ true
      → exitstatus status ≡ 0
  unfolding exitstatus istrue
  exitstatus-istrue [] zero_read h = refl
  exitstatus-istrue (mkfun c ∷ []) zero_read h = cc
  exitstatus-istrue (mkstr s ∷ []) zero_read h = elim (Bool-cases (is_true_string s)) [
    | inl e ↦ single_true strtol s zero_read e
    | inr e ↦ ground (arith, e)
  ]
  exitstatus-istrue (mkfun c ∷ t' ∷ status) zero_read h = cc
  exitstatus-istrue (mkstr s ∷ t' ∷ status) zero_read h = rw (h) refl
