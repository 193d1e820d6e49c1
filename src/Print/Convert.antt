-- ===== src/Print/Convert.antt =====
-- The conversions, and the driver.
use es_shell_mirror.Prelude.Int.{ℤ, pos, negsuc}
use es_shell_mirror.Prelude.{
  ℕ, zero, suc, ◌+◌, ◌-◌, ◌*◌, ◌/◌, ◌%◌, ◌^◌, Bool, true, false, not, ◌&&◌, ◌||◌, List, [], ◌∷◌,
  ◌++◌, CString, codes, Option, none, some, ◌==◌, ltb, leb, if◌then◌else◌, length, get_or,
}
use es_shell_mirror.Print.State.{
  FormatFlags, flags_clear, Arg, int_arg, long_arg, str_arg, Format, Formatted, then_format,
  fmtappend, fmtputc, pad, fprint_flush,
}

abbrev pub chartable : Bool → CString
chartable false = codes "0123456789abcdefghijklmnopqrstuvwxyz"
chartable true = codes "0123456789ABCDEFGHIJKLMNOPQRSTUVWXYZ"

-- On fuel for the digits: `u` itself is enough.
unfoldable pub utoa_loop : ℕ → ℕ → ℕ → CString → CString
utoa_loop zero u radix digit = get_or digit u 0 ∷ []
utoa_loop (suc n) u radix digit =
    let rest = utoa_loop n (u / radix) radix digit in
    if leb radix u then rest ++ get_or digit (u % radix) 0 ∷ [] else get_or digit u 0 ∷ []

unfoldable pub es_utoa : ℕ → ℕ → CString → CString
unfolding utoa_loop
es_utoa u radix digit = utoa_loop u u radix digit

-- The number that is printed, and whether it has a sign: an unsigned one wraps around.
abbrev pub magnitude : Bool → ℤ → ℕ
magnitude unsigned (pos n) = n
magnitude true (negsuc n) = 2 ^ 64 - suc n
magnitude false (negsuc n) = suc n

abbrev pub sign : Bool → ℤ → CString
sign unsigned (pos n) = []
sign true (negsuc n) = []
sign false (negsuc n) = b'-' ∷ []

abbrev pub missing : Bool → ℕ → ℕ → ℕ
missing is_set f len = if is_set && ltb len f then f - len else 0

-- What is put out: padding, prefix, zeros, digits, padding.
abbrev pub put_number : Bool → ℕ → ℕ → CString → ℕ → CString → Format → Formatted
put_number leftside padding padchar prefix zeroes number f =
    then_format (if leftside then some f else pad padding padchar f) (λ f.
      then_format (fmtappend prefix f) (λ f. then_format (pad zeroes b'0' f) (λ f.
        then_format (fmtappend number f)
          (λ f. if leftside then pad padding padchar f else some f))))

-- "if (padding > 0 && flags & FMT_zeropad)"
abbrev pub zero_padded : FormatFlags → ℕ → CString → ℕ → CString → Format → Formatted
zero_padded flags padding prefix zeroes number f =
    if ltb 0 padding && flags.zeropad
    then (if flags.leftside
        then put_number flags.leftside padding b'0' prefix zeroes number f
        else put_number flags.leftside 0 b'0' prefix (zeroes + padding) number f)
    else put_number flags.leftside padding b' ' prefix zeroes number f

-- From the lengths to the end of `intconv`.
abbrev pub put_padded : CString → CString → Format → Formatted
put_padded prefix number f =
    let zeroes = missing f.flags.f2set f.f2 (length number) in
    let padding = missing f.flags.f1set f.f1 (length prefix + zeroes + length number) in
    zero_padded f.flags padding prefix zeroes number f

-- Whether an `int`, or a `long long`, holds the number.
abbrev pub int_fits : Bool → ℤ → Bool
int_fits long (pos n) = ltb n (if long then 2 ^ 63 else 2 ^ 31)
int_fits long (negsuc n) = ltb n (if long then 2 ^ 63 else 2 ^ 31)

-- "u = -n" is undefined at the least number, unless the number is taken as it is.
abbrev pub negatable : Bool → ℤ → Bool
negatable unsigned (pos n) = true
negatable unsigned (negsuc n) = unsigned || not (n == 2 ^ 63 - 1)

module _ (radix : ℕ) (upper : Bool) (altform : CString) where
  -- `none` where the argument cannot have the number, or its negation is undefined.
  unfoldable pub intconv_of : ℤ → Format → Formatted
  unfolding es_utoa
  intconv_of n f =
      if int_fits f.flags.long n && negatable f.flags.unsigned n
      then put_padded (sign f.flags.unsigned n ++ (if f.flags.altform then altform else []))
          (es_utoa (magnitude f.flags.unsigned n) radix (chartable upper)) f
      else none

  abbrev pub int_with : List Arg → Format → Formatted
  int_with (int_arg n ∷ args) f =
      if f.flags.long then none else intconv_of n (record f { args = args })
  int_with (long_arg n ∷ args) f =
      if f.flags.long then intconv_of n (record f { args = args }) else none
  int_with (str_arg s ∷ args) f = none
  int_with [] f = none

  abbrev pub intconv : Format → Formatted
  intconv f = if ltb 36 radix then some f else int_with f.args f

-- A conversion is done, or has only changed the flags.
pub data Converted : Type 0 where
  changed printed : Format → Converted

abbrev pub Conv : Type 0
Conv = Format → Option Converted

abbrev pub converted : Formatted → Option Converted
converted none = none
converted (some f) = some (printed f)

abbrev pub flag : (FormatFlags → FormatFlags) → Conv
flag set f = some (changed (record f { flags = set f.flags }))

abbrev pub digitconv : Conv
digitconv f =
    if f.flags.f2set
    then some (changed (record f { f2 = 10 * f.f2 + f.invoker - b'0' }))
    else some (
        changed
          (record f { flags = record f.flags { f1set = true }; f1 = 10 * f.f1 + f.invoker - b'0' }))

abbrev pub zeroconv : Conv
zeroconv f =
    if f.flags.f1set || f.flags.f2set
    then digitconv f
    else flag (λ l. record l { zeropad = true }) f

-- A width that is less than the length is negative as a `long`, and there is no padding.
abbrev pub put_string : CString → Format → Formatted
put_string s f =
    let width = f.f1 - length s in
    if not f.flags.f1set
    then fmtappend s f
    else (if f.flags.leftside
        then then_format (fmtappend s f) (pad width b' ')
        else then_format (pad width b' ' f) (fmtappend s))

abbrev pub str_with : List Arg → Format → Formatted
str_with (str_arg s ∷ args) f = put_string s (record f { args = args })
str_with (int_arg n ∷ args) f = none
str_with (long_arg n ∷ args) f = none
str_with [] f = none

abbrev pub sconv_format : Conv
sconv_format f = converted (str_with f.args f)

abbrev pub char_with : List Arg → Format → Formatted
char_with (int_arg (pos c) ∷ args) f = fmtputc (c % 256) (record f { args = args })
char_with (int_arg (negsuc c) ∷ args) f = none
char_with (long_arg n ∷ args) f = none
char_with (str_arg s ∷ args) f = none
char_with [] f = none

abbrev pub cconv : Conv
cconv f = converted (char_with f.args f)

abbrev pub dconv : Conv
dconv f = converted (intconv 10 false [] f)

abbrev pub oconv : Conv
oconv f = converted (intconv 8 false (codes "0") f)

abbrev pub xconv : Conv
xconv f = converted (intconv 16 false (codes "0x") f)

abbrev pub pctconv : Conv
pctconv f = converted (fmtputc b'%' f)

abbrev pub badconv : Conv
badconv f = none

-- The table that `inittab` makes; the other entries are those of `fmtinstall`, or `badconv`.
unfoldable pub inittab : (ℕ → Conv) → ℕ → Conv
unfolding fprint_flush fmtputc fmtappend pad intconv_of
inittab installed c =
    if c == b's'
    then sconv_format
    else (if c == b'c'
        then cconv
        else (if c == b'd'
            then dconv
            else (if c == b'o'
                then oconv
                else (if c == b'x'
                    then xconv
                    else (if c == b'%'
                        then pctconv
                        else (if c == b'u'
                            then flag (λ l. record l { unsigned = true })
                            else (if c == b'h'
                                then flag (λ l. record l { short = true })
                                else (if c == b'l'
                                    then flag (λ l. record l { long = true })
                                    else (if c == b'#'
                                        then flag (λ l. record l { altform = true })
                                        else (if c == b'-'
                                            then flag (λ l. record l { leftside = true })
                                            else (if c == b'.'
                                                then flag (λ l. record l { f2set = true })
                                                else (if c == b'0'
                                                    then zeroconv
                                                    else (if leb b'1' c && leb c b'9'
                                                        then digitconv
                                                        else installed c)))))))))))))

abbrev pub go_on : Option Converted → (Bool → Format → Formatted) → Formatted
go_on none next = none
go_on (some (changed f)) next = next true f
go_on (some (printed f)) next = next false f

-- The driver, outside of a directive or within one. At the end of the text a directive has the NUL for its letter.
unfoldable pub printfmt_loop : (ℕ → Conv) → CString → Bool → Format → Formatted
unfolding fmtputc
printfmt_loop fmttab [] false f = some f
printfmt_loop fmttab [] true f = go_on (fmttab 0 (record f { invoker = 0 })) (λ directive f. none)
printfmt_loop fmttab (c ∷ s) false f =
    if c == b'%'
    then printfmt_loop fmttab s true (record f { flags = flags_clear; f1 = 0; f2 = 0 })
    else then_format (fmtputc c f) (printfmt_loop fmttab s false)
printfmt_loop fmttab (c ∷ s) true f =
    go_on (fmttab c (record f { invoker = c })) (printfmt_loop fmttab s)

abbrev pub counted : Formatted → Option (ℕ × Format)
counted none = none
counted (some f) = some (length f.buf + f.flushed, f)

unfoldable pub printfmt : (ℕ → Conv) → CString → Format → Option (ℕ × Format)
unfolding printfmt_loop
printfmt fmttab fmt f = counted (printfmt_loop fmttab fmt false f)

abbrev pub fprint_bufsiz : ℕ
fprint_bufsiz = 1024

-- The text that a call prints to a descriptor, with what `write` returns each time.
abbrev pub fdprint : (ℕ → Conv) → CString → List Arg → List (Option ℕ) → Formatted
fdprint fmttab fmt args writes =
    then_format
      (printfmt_loop fmttab fmt false record {
        args = args;
        flags = flags_clear;
        f1 = 0;
        f2 = 0;
        invoker = 0;
        buf = [];
        room = fprint_bufsiz;
        flushed = 0;
        out = [];
        writes = writes;
      })
      fprint_flush
