-- ===== src/Glom/Number.antt =====
-- The numbers of glom.c: `es_num`, `coerce_operands`, `do_op` and the comparisons of `arithmefy`.
use es_shell_mirror.Prelude.{ℕ, Bool, true, false, Option, none, some, ◌==◌, if◌then◌else◌, not}
use es_shell_mirror.Prelude.Int.{ℤ, pos, ltb_ℤ, eqb_ℤ}
use es_shell_mirror.Glom.Int.{
  Outcome, value, failed, ◌>>=◌, divide_by_zero, modulus_by_zero, division_by_zero,
  invalid_operation, float_overflow, float_underflow, nan_result, infinite_result, bad_operator,
  add_int, sub_int,
}
use es_shell_mirror.Glom.Mul.{mul_int, div_int, mod_int}

-- What `fetestexcept` reports after an operation.
pub record FloatFlags : Type 0 where
  pub fe_divbyzero : Bool
  pub fe_invalid : Bool
  pub fe_overflow : Bool
  pub fe_underflow : Bool

-- `fpclassify`
pub data FloatClass : Type 0 where
  fp_nan fp_infinite fp_other : FloatClass

-- Floating-point numbers: the operations of the hardware and of the C library, with their flags.
-- `bits` and `of_bits` read the one member of the union `es_num` as the other.
pub record Floats (F : Type 0) : Type 0 where
  pub of_int : ℤ → F
  pub bits : F → ℤ
  pub of_bits : ℤ → F
  pub f_add : F → F → F × FloatFlags
  pub f_sub : F → F → F × FloatFlags
  pub f_mul : F → F → F × FloatFlags
  pub f_div : F → F → F × FloatFlags
  pub f_mod : F → F → F × FloatFlags
  pub f_lt : F → F → Bool
  pub f_eq : F → F → Bool
  pub f_zero : F
  pub f_le : F → F → Bool
  pub fpclassify : F → FloatClass

-- A number with its type: nInt, nFloat or nCmp. That of nCmp is the member `i`.
pub data Number (F : Type 0) : Type 0 where
  int_number : ℤ → Number F
  float_number : F → Number F
  cmp_number : ℤ → Number F

module _ {F : Type 0} (fl : Floats F) where
  -- The members `i` and `f` of the union.
  abbrev pub member_i : Number F → ℤ
  member_i (int_number z) = z
  member_i (cmp_number z) = z
  member_i (float_number x) = fl.bits x

  abbrev pub member_f : Number F → F
  member_f (int_number z) = fl.of_bits z
  member_f (cmp_number z) = fl.of_bits z
  member_f (float_number x) = x

  abbrev pub is_float : Number F → Bool
  is_float (float_number x) = true
  is_float (int_number z) = false
  is_float (cmp_number z) = false

  -- An nInt becomes an nFloat; an nCmp stays as it is.
  unfoldable pub to_float : Number F → Number F
  to_float (int_number z) = float_number (fl.of_int z)
  to_float (float_number x) = float_number x
  to_float (cmp_number z) = cmp_number z

  -- Whether the result is an nFloat, and the operands.
  unfoldable pub coerce_operands : Number F → Number F → Bool × Number F × Number F
  unfolding to_float
  coerce_operands (float_number x) rhs = (true, float_number x, to_float rhs)
  coerce_operands lhs (float_number y) = (true, to_float lhs, float_number y)
  coerce_operands lhs rhs = (false, lhs, rhs)

  -- An assignment to `accum->i` or `accum->f`, which leaves the type.
  abbrev pub set_i : Number F → ℤ → Number F
  set_i (int_number _) z = int_number z
  set_i (cmp_number _) z = cmp_number z
  set_i (float_number _) z = float_number (fl.of_bits z)

  abbrev pub set_f : Number F → F → Number F
  set_f (int_number _) x = int_number (fl.bits x)
  set_f (cmp_number _) x = cmp_number (fl.bits x)
  set_f (float_number _) x = float_number x

  -- The operation on integers; the operator is the first byte of its name.
  unfoldable pub int_op : ℕ → ℤ → ℤ → Outcome ℤ
  unfolding add_int sub_int mul_int div_int mod_int
  int_op op accum val =
      if op == b'+'
      then add_int accum val
      else if op == b'-'
      then sub_int accum val
      else if op == b'*'
      then mul_int accum val
      else if op == b'/'
      then div_int accum val
      else if op == b'%'
      then mod_int accum val
      else failed bad_operator

  unfoldable pub float_op : ℕ → F → F → Outcome (F × FloatFlags)
  float_op op accum val =
      if op == b'+'
      then value (fl.f_add accum val)
      else if op == b'-'
      then value (fl.f_sub accum val)
      else if op == b'*'
      then value (fl.f_mul accum val)
      else if op == b'/'
      then (if fl.f_eq val fl.f_zero then failed divide_by_zero else value (fl.f_div accum val))
      else if op == b'%'
      then (if fl.f_eq val fl.f_zero then failed modulus_by_zero else value (fl.f_mod accum val))
      else failed bad_operator

  -- TEST_EXCEPTION, four times.
  unfoldable pub test_exceptions : FloatFlags → Number F → Outcome (Number F)
  test_exceptions e accum =
      if e.fe_divbyzero
      then failed division_by_zero
      else if e.fe_invalid
      then failed invalid_operation
      else if e.fe_overflow
      then failed float_overflow
      else if e.fe_underflow
      then failed float_underflow
      else value accum

  abbrev pub test_class : FloatClass → Number F → Outcome (Number F)
  test_class fp_nan accum = failed nan_result
  test_class fp_infinite accum = failed infinite_result
  test_class fp_other accum = value accum

  -- "if (*accum_t == nFloat)"
  unfoldable pub test_result : Number F → Outcome (Number F)
  test_result (float_number x) = test_class (fl.fpclassify x) (float_number x)
  test_result (int_number z) = value (int_number z)
  test_result (cmp_number z) = value (cmp_number z)

  unfoldable pub op_on : ℕ → Bool × Number F × Number F → Outcome (Number F)
  unfolding int_op float_op test_exceptions test_result
  op_on op (false, val, accum) =
      int_op op (member_i accum) (member_i val) >>= λ z. test_result (set_i accum z)
  op_on op (true, val, accum) = float_op op (member_f accum) (member_f val) >>= λ r.
      test_exceptions r.1 (set_f accum r.0) >>= test_result

  unfoldable pub do_op : ℕ → Number F → Number F → Outcome (Number F)
  unfolding op_on coerce_operands
  do_op op val accum = op_on op (coerce_operands val accum)

  abbrev pub truth : Bool → Number F
  truth true = cmp_number (pos 1)
  truth false = cmp_number (pos 0)

  abbrev pub le_ℤ : ℤ → ℤ → Bool
  le_ℤ a b = not (ltb_ℤ b a)

  -- A comparison of floats with `<` or `>` alone compares the members `i`, with `<=` or `>=`.
  unfoldable pub compare_on : ℕ → Bool → Bool × Number F × Number F → Option Bool
  compare_on cmp or_eq (is_f, lhs, rhs) =
      let li = member_i lhs in
      let ri = member_i rhs in
      let lf = member_f lhs in
      let rf = member_f rhs in
      if cmp == b'<'
      then some (
          if or_eq
          then (if is_f then fl.f_le lf rf else le_ℤ li ri)
          else if is_f
          then le_ℤ li ri
          else ltb_ℤ li ri)
      else if cmp == b'!'
      then some (if is_f then not (fl.f_eq lf rf) else not (eqb_ℤ li ri))
      else if cmp == b'>'
      then some (
          if or_eq
          then (if is_f then fl.f_le rf lf else le_ℤ ri li)
          else if is_f
          then le_ℤ ri li
          else ltb_ℤ ri li)
      else if cmp == b'='
      then some (if is_f then fl.f_eq lf rf else eqb_ℤ li ri)
      else none
