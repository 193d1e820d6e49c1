-- ===== src/Glom/Sample.antt =====
-- A small shell for the tests of the expansion: closures are strings, the state is a counter that
-- a command adds to, and a float is a number of which nothing is used.
use es_shell_mirror.Prelude.{ℕ, ◌+◌, true, false, [], ◌∷◌, CString, codes, ◌==◌}
use es_shell_mirror.Prelude.Int.{pos, pos_part}
use es_shell_mirror.Syntax.Tree.{mkstr}
use es_shell_mirror.Glom.Int.{value}
use es_shell_mirror.Glom.Number.{Floats, FloatFlags, fp_other}
use es_shell_mirror.Glom.Eval.{Shell}

abbrev no_flags : FloatFlags
no_flags = record {
  fe_divbyzero = false;
  fe_invalid = false;
  fe_overflow = false;
  fe_underflow = false;
}

abbrev some_floats : Floats ℕ
some_floats = record {
  of_int = pos_part;
  bits = pos;
  of_bits = pos_part;
  f_add = λ x y. (x + y, no_flags);
  f_sub = λ x y. (x, no_flags);
  f_mul = λ x y. (x, no_flags);
  f_div = λ x y. (x, no_flags);
  f_mod = λ x y. (x, no_flags);
  f_lt = λ x y. false;
  f_eq = λ x y. x == y;
  f_zero = 0;
  f_le = λ x y. true;
  fpclassify = λ x. fp_other;
}

-- Each number reads as the first byte of its string.
abbrev pub sample_shell : Shell CString ℕ ℕ ℕ
sample_shell = record {
  show = λ c. c;
  mkclosure = λ t b. codes "{}";
  varlookup = λ name b st. mkstr name ∷ mkstr (codes "v") ∷ [];
  walk = λ t b st. (value (mkstr (codes "r") ∷ []), st + 1);
  glob = λ list ql st. (value list, st);
  atoi = λ s. pos 1;
  strtoll = λ s. record { parsed = pos 7; at_end = true; erange = false };
  strtod = λ s. record { parsed = 0; at_end = false; erange = false };
  print_int = λ z. pos_part z ∷ [];
  print_float = λ x. [];
  floats = some_floats;
}
