-- ===== src/Glom/Tests.antt =====
-- Runs of the arithmetic of glom.c.
use es_shell_mirror.Prelude.{head_byte, ℕ, [], ◌∷◌, codes, ◌≡◌, refl, if◌then◌else◌}
use es_shell_mirror.Prelude.Int.{pos, negsuc, ◌+ℤ◌, ◌-ℤ◌, ◌*ℤ◌, eqb_ℤ}
use es_shell_mirror.Glom.Int.{
  value, undefined, failed, integer_overflow, int_max, int_min, in_range, add_int, sub_int,
  add_int-exact, sub_int-exact,
}
use es_shell_mirror.Syntax.Tree.{
  n_op, n_int, Tree, null, n_word, n_qword, n_list, n_concat, n_call, mkstr, getstr,
}
use es_shell_mirror.Match.Quoting.{flags, quoted}
use es_shell_mirror.Glom.Eval.{glom1, glom2}
use es_shell_mirror.Glom.Concat.{qconcat_one, join, qcat, fill}
use es_shell_mirror.Glom.Sample.{sample_shell}
use es_shell_mirror.Syntax.Rewrite.{mkop}
use es_shell_mirror.Glom.Eval.{arithmefy}
use es_shell_mirror.Glom.Operations.{ComesTo, binary, mkop-ComesTo}
use es_shell_mirror.Glom.Words.{Agrees, glom2-Agrees}
use es_shell_mirror.Glom.Mul.{mul_int, mul_int-exact, mul_int-minus_one}

sum_overflows : add_int int_max (pos 1) ≡ failed integer_overflow
unfolding add_int
sum_overflows = refl

-- 0 - MIN does not fit, and is not caught.
difference_missed : sub_int (pos 0) int_min ≡ undefined
unfolding sub_int
difference_missed = refl

product : mul_int (negsuc 2) (pos 5) ≡ value (negsuc 14)
unfolding mul_int
product = refl

add_int-exact_example : add_int int_max (negsuc 4) ≡ (
    if in_range (int_max +ℤ negsuc 4) then value (int_max +ℤ negsuc 4) else failed integer_overflow)
add_int-exact_example = add_int-exact int_max (negsuc 4) refl refl

sub_int-exact_example : sub_int (pos 7) (negsuc 4) ≡ (
    if in_range (pos 7 -ℤ negsuc 4)
    then value (pos 7 -ℤ negsuc 4)
    else if eqb_ℤ (negsuc 4) (int_min +ℤ pos 7)
    then undefined
    else failed integer_overflow)
sub_int-exact_example = sub_int-exact (pos 7) (negsuc 4) refl refl

mul_int-exact_example :
    mul_int (negsuc 2) (pos 5)
    ≡ (if in_range (negsuc 2 *ℤ pos 5) then value (negsuc 2 *ℤ pos 5) else failed integer_overflow)
mul_int-exact_example = mul_int-exact (negsuc 2) (pos 5) refl refl refl

mul_int-minus_one_example :
    mul_int (pos 6) (negsuc 0)
    ≡ (if eqb_ℤ (pos 6) int_min then failed integer_overflow else undefined)
mul_int-minus_one_example = mul_int-minus_one (pos 6) refl

-- The word `a^'*'`, and after it a command.
abbrev quoted_star : Tree ℕ
quoted_star =
    n_list (n_concat (n_word (codes "a")) (n_qword (codes "*")))
      (n_list (n_call (n_word (codes "c"))) null)

-- Its flags: the star is quoted.
star_flags :
    glom2 sample_shell 0 quoted_star 3
    ≡ (value (mkstr (codes "a*") ∷ mkstr (codes "r") ∷ [], flags (codes "rq") ∷ quoted ∷ []), 4)
unfolding glom2 getstr qconcat_one join qcat fill
star_flags = refl

glom2-Agrees_example :
    Agrees sample_shell.show
      (glom1 sample_shell 0 quoted_star 3)
      (glom2 sample_shell 0 quoted_star 3)
glom2-Agrees_example = glom2-Agrees sample_shell 0 quoted_star 3

abbrev difference : Tree ℕ
difference = n_op (codes "-") (n_list (n_int (pos 7)) (n_list (n_int (pos 2)) null))

mkop-ComesTo_example : ComesTo sample_shell 0 (mkop (codes "-") difference (n_int (pos 3))) (
    binary sample_shell 0
      (head_byte (codes "-"))
      (arithmefy sample_shell 0 difference)
      (arithmefy sample_shell 0 (n_int (pos 3))))
mkop-ComesTo_example = mkop-ComesTo sample_shell 0 (codes "-") difference (n_int (pos 3)) tt refl
