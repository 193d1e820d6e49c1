-- ===== src/Print/Tests.antt =====
-- Runs of formatted printing.
use es_shell_mirror.Prelude.{
  ℕ, ◌≡◌, refl, true, false, [], ◌∷◌, CString, codes, Option, none, some, arith,
}
use es_shell_mirror.Prelude.Int.{pos, negsuc}
use es_shell_mirror.Print.State.{
  Format, Formatted, int_arg, str_arg, flags_clear, write_loop, fprint_flush, append_loop,
  fmtappend, fmtputc, pad,
}
use es_shell_mirror.Print.Convert.{
  utoa_loop, es_utoa, intconv_of, inittab, printfmt_loop, fdprint, Conv, badconv,
}
use es_shell_mirror.Print.Buffer.{Appends, fmtappend-Appends}
use es_shell_mirror.Print.Number.{Prints, intconv_of-Prints}

abbrev table : ℕ → Conv
table = inittab (λ c. badconv)

-- A buffer of four characters, with one in it.
abbrev small_format : Format
small_format = record {
  args = [];
  flags = record flags_clear { zeropad = true; f1set = true };
  f1 = 6;
  f2 = 0;
  invoker = b'd';
  buf = codes "x";
  room = 4;
  flushed = 0;
  out = [];
  writes = [];
}

abbrev out_of : Formatted → Option CString
out_of none = none
out_of (some f) = some f.out

printed :
    out_of (fdprint table (codes "%s is %5d%%") (str_arg (codes "n") ∷ int_arg (negsuc 41) ∷ []) [])
    ≡ some (codes "n is   -42%")
unfolding printfmt_loop inittab fprint_flush write_loop fmtputc fmtappend append_loop pad intconv_of
    es_utoa utoa_loop
printed = refl

-- Zeros for padding on the right make another number.
padded_right :
    out_of (fdprint table (codes "%-05d") (int_arg (pos 42) ∷ []) []) ≡ some (codes "42000")
unfolding printfmt_loop inittab fprint_flush write_loop fmtputc fmtappend append_loop pad intconv_of
    es_utoa utoa_loop
padded_right = refl

-- Where `write` stops halfway, the start is written again.
written_twice : out_of (fdprint table (codes "abcd") [] (some 2 ∷ [])) ≡ some (codes "abab")
unfolding printfmt_loop fprint_flush write_loop fmtputc
written_twice = refl

fmtappend-Appends_example :
    Appends (codes "abcdefghij") small_format (fmtappend (codes "abcdefghij") small_format)
fmtappend-Appends_example =
    fmtappend-Appends (codes "abcdefghij") small_format (omega arith, omega arith, refl)

intconv_of-Prints_example :
    Prints (negsuc 41) 6 small_format (intconv_of 10 false [] (negsuc 41) small_format)
intconv_of-Prints_example =
    intconv_of-Prints (negsuc 41) small_format (omega arith, omega arith, refl) refl refl refl refl
      refl
