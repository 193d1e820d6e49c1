-- ===== src/Glom/Int.antt =====
-- The integer arithmetic of `do_op` of glom.c, on `long long` of 64 bits.
use es_shell_mirror.Prelude.{◌≡◌, Bool, true, false, arith, ltb, if◌then◌else◌, List, CString}
use es_shell_mirror.Prelude.Int.{ℤ, pos, negsuc, ◌+ℤ◌, ◌-ℤ◌, ◌*ℤ◌, ◌/ℤ◌, ◌%ℤ◌, ltb_ℤ, eqb_ℤ}

-- The messages with which glom.c fails, or what a command raised.
pub data Failure : Type 0 where
  integer_overflow divide_by_zero modulus_by_zero : Failure
  division_by_zero invalid_operation float_overflow float_underflow : Failure
  nan_result infinite_result : Failure
  null_list multiple_term value_too_large float_too_large not_a_number bad_operator : Failure
  bad_subscript null_variable multi_word_variable bad_node : Failure
  raised : List CString → Failure

-- A value, or `fail`, or what C leaves undefined: an overflow, a trap.
pub data Outcome (A : Type 0) : Type 0 where
  value : A → Outcome A
  failed : Failure → Outcome A
  undefined : Outcome A

infixl 5 ◌>>=◌
abbrev pub ◌>>=◌ : {A B : Type 0} → Outcome A → (A → Outcome B) → Outcome B
value a >>= f = f a
failed e >>= f = failed e
undefined >>= f = undefined

-- `ES_INT_MAX` and `ES_INT_MIN`
abbrev pub int_max : ℤ
int_max = pos 9223372036854775807

abbrev pub int_min : ℤ
int_min = negsuc 9223372036854775807

abbrev pub in_range : ℤ → Bool
in_range (pos n) = ltb n 9223372036854775808
in_range (negsuc n) = ltb n 9223372036854775808

-- The result of a C operation on signed integers.
abbrev pub checked : ℤ → Outcome ℤ
checked z = if in_range z then value z else undefined

abbrev pub c_add : ℤ → ℤ → Outcome ℤ
c_add a b = checked (a +ℤ b)

abbrev pub c_sub : ℤ → ℤ → Outcome ℤ
c_sub a b = checked (a -ℤ b)

abbrev pub c_mul : ℤ → ℤ → Outcome ℤ
c_mul a b = checked (a *ℤ b)

abbrev pub c_div : ℤ → ℤ → Outcome ℤ
c_div a b = if eqb_ℤ b (pos 0) then undefined else checked (a /ℤ b)

-- `MIN % -1` is undefined like `MIN / -1`.
abbrev pub c_mod : ℤ → ℤ → Outcome ℤ
c_mod a b =
    if eqb_ℤ b (pos 0) then undefined else if in_range (a /ℤ b) then checked (a %ℤ b) else undefined

-- `a && b` and `a || b`, where `b` is evaluated only if it is needed.
abbrev pub and_then : Bool → Outcome Bool → Outcome Bool
and_then a b = if a then b else value false

abbrev pub or_else : Outcome Bool → Outcome Bool → Outcome Bool
or_else a b = a >>= λ x. if x then value true else b

-- `if (test) fail("es:arith", "integer overflow");`
abbrev pub fail_if : Outcome Bool → Outcome ℤ → Outcome ℤ
fail_if test next = test >>= λ t. if t then failed integer_overflow else next

unfoldable pub add_int : ℤ → ℤ → Outcome ℤ
unfolding ◌+ℤ◌ ◌-ℤ◌
add_int accum val =
    fail_if (and_then (ltb_ℤ (pos 0) accum) (c_sub int_max accum >>= λ m. value (ltb_ℤ m val))) (
      fail_if (and_then (ltb_ℤ accum (pos 0)) (c_sub int_min accum >>= λ m. value (ltb_ℤ val m)))
        (c_add accum val))

unfoldable pub sub_int : ℤ → ℤ → Outcome ℤ
unfolding ◌+ℤ◌ ◌-ℤ◌
sub_int accum val =
    fail_if (and_then (ltb_ℤ (pos 0) accum) (c_add int_min accum >>= λ m. value (ltb_ℤ val m))) (
      fail_if
        (and_then (ltb_ℤ accum (pos 0))
          (c_add int_max accum >>= λ m. c_add m (pos 1) >>= λ m'. value (ltb_ℤ m' val)))
        (c_sub accum val))

-- Addition is exact where the sum fits, and fails with "integer overflow" where it does not; nothing
-- undefined is computed on the way.
pub add_int-exact :
    (a b : ℤ)
    → in_range a ≡ true
    → in_range b ≡ true
    → add_int a b ≡ (if in_range (a +ℤ b) then value (a +ℤ b) else failed integer_overflow)
unfolding add_int
add_int-exact (pos a) (pos b) ha hb = ground arith
add_int-exact (pos a) (negsuc b) ha hb = ground arith
add_int-exact (negsuc a) (pos b) ha hb = ground arith
add_int-exact (negsuc a) (negsuc b) ha hb = ground arith

-- Subtraction is exact but at one value: with `accum` not negative and `val` equal to
-- `ES_INT_MIN + accum` the difference does not fit, and the code computes it all the same.
pub sub_int-exact :
    (a b : ℤ)
    → in_range a ≡ true
    → in_range b ≡ true
    → sub_int a b ≡ (
        if in_range (a -ℤ b)
        then value (a -ℤ b)
        else if eqb_ℤ b (int_min +ℤ a)
        then undefined
        else failed integer_overflow)
unfolding sub_int
sub_int-exact (pos a) (pos b) ha hb = ground arith
sub_int-exact (pos a) (negsuc b) ha hb = ground arith
sub_int-exact (negsuc a) (pos b) ha hb = ground arith
sub_int-exact (negsuc a) (negsuc b) ha hb = ground arith
