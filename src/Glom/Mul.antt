-- ===== src/Glom/Mul.antt =====
-- The products, quotients and remainders of `do_op` of glom.c.
use native.Mathlib.Nat.{div-add-mod, mod-lt}
use es_shell_mirror.Prelude.{
  ℕ, zero, suc, ◌*◌, ◌/◌, ◌<◌, ◌≡◌, refl, true, false, ◌&&◌, arith, ltb, if◌then◌else◌,
}
use es_shell_mirror.Prelude.Int.{ℤ, pos, negsuc, ◌*ℤ◌, ◌/ℤ◌, ◌%ℤ◌, ltb_ℤ, eqb_ℤ}
use es_shell_mirror.Glom.Int.{
  integer_overflow, divide_by_zero, modulus_by_zero, Outcome, value, failed, undefined, ◌>>=◌,
  int_max, int_min, in_range, c_mul, c_div, c_mod, and_then, or_else, fail_if,
}

unfoldable pub mul_int : ℤ → ℤ → Outcome ℤ
unfolding ◌*ℤ◌ ◌/ℤ◌
mul_int accum val =
    fail_if
      (and_then (ltb_ℤ (pos 0) val) (
        or_else (c_div int_max val >>= λ m. value (ltb_ℤ m accum))
          (c_div int_min val >>= λ m. value (ltb_ℤ accum m))))
      (fail_if
        (and_then (ltb_ℤ val (pos 0)) (
          or_else (c_div int_max val >>= λ m. value (ltb_ℤ accum m))
            (c_div int_min val >>= λ m. value (ltb_ℤ m accum))))
        (c_mul accum val))

unfoldable pub div_int : ℤ → ℤ → Outcome ℤ
unfolding ◌/ℤ◌
div_int accum val =
    if eqb_ℤ val (pos 0)
    then failed divide_by_zero
    else if eqb_ℤ accum int_min && eqb_ℤ val (negsuc 0)
    then failed integer_overflow
    else c_div accum val

unfoldable pub mod_int : ℤ → ℤ → Outcome ℤ
unfolding ◌/ℤ◌ ◌%ℤ◌
mod_int accum val =
    if eqb_ℤ val (pos 0)
    then failed modulus_by_zero
    else if eqb_ℤ accum int_min && eqb_ℤ val (negsuc 0)
    then value (pos 0)
    else c_mod accum val

-- The quotient test of the code against the product.
div_test : (m n v : ℕ) → 0 < v → ltb (m / v) n ≡ ltb m (n * v)
div_test m n v h = grind (arith, div-add-mod m v, mod-lt m {m = v})

mul_int_test : mul_int (pos 3) (negsuc 4) ≡ value (negsuc 14)
unfolding mul_int
mul_int_test = refl

-- Multiplication by -1 divides `ES_INT_MIN` by -1 on the way, which does not fit: that is undefined
-- for every number but `ES_INT_MIN`, for which the code fails with "integer overflow" before.
pub mul_int-minus_one :
    (a : ℤ)
    → in_range a ≡ true
    → mul_int a (negsuc 0) ≡ (if eqb_ℤ a int_min then failed integer_overflow else undefined)
unfolding mul_int
mul_int-minus_one (pos a) h = ground arith
mul_int-minus_one (negsuc a) h = ground arith

-- Multiplication by any other number is exact where the product fits, and fails where it does not.
pub mul_int-exact :
    (a b : ℤ)
    → in_range a ≡ true
    → in_range b ≡ true
    → eqb_ℤ b (negsuc 0) ≡ false
    → mul_int a b ≡ (if in_range (a *ℤ b) then value (a *ℤ b) else failed integer_overflow)
unfolding mul_int
mul_int-exact (pos a) (pos zero) ha hb h = ground arith
mul_int-exact (pos a) (pos (suc b)) ha hb h =
    ground (arith, div_test 9223372036854775807 a (suc b), div_test 9223372036854775808 a (suc b))
mul_int-exact (pos a) (negsuc b) ha hb h =
    ground (arith, div_test 9223372036854775807 a (suc b), div_test 9223372036854775808 a (suc b))
mul_int-exact (negsuc a) (pos zero) ha hb h = ground arith
mul_int-exact (negsuc a) (pos (suc b)) ha hb h = ground (
  arith,
  div_test 9223372036854775807 (suc a) (suc b),
  div_test 9223372036854775808 (suc a) (suc b),
)
mul_int-exact (negsuc a) (negsuc b) ha hb h = ground (
  arith,
  div_test 9223372036854775807 (suc a) (suc b),
  div_test 9223372036854775808 (suc a) (suc b),
)
