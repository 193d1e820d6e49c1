-- ===== src/Print/State.antt =====
-- A format: its flags and its buffer, which is written out when it is full.
use es_shell_mirror.Prelude.Int.{ℤ}
use es_shell_mirror.Prelude.{
  ℕ, zero, suc, ◌+◌, ◌-◌, Bool, false, List, [], ◌∷◌, ◌++◌, CString, Option, none, some, ltb, leb,
  if◌then◌else◌, length, take, drop,
}

-- The bits of `flags`.
pub record FormatFlags : Type 0 where
  pub long : Bool
  pub short : Bool
  pub unsigned : Bool
  pub zeropad : Bool
  pub leftside : Bool
  pub altform : Bool
  pub f1set : Bool
  pub f2set : Bool

abbrev pub flags_clear : FormatFlags
flags_clear = record {
  long = false;
  short = false;
  unsigned = false;
  zeropad = false;
  leftside = false;
  altform = false;
  f1set = false;
  f2set = false;
}

-- What `va_arg` takes: an `int`, a `long long` or a string.
pub data Arg : Type 0 where
  int_arg long_arg : ℤ → Arg
  str_arg : CString → Arg

-- `buf` is what lies between `bufbegin` and `buf`, and `room` the distance from `bufbegin` to `bufend`. What was
-- written is `out`, and `writes` says what the next calls of `write` return: `none` is -1, and from the end of the
-- list on a call writes all.
pub record Format : Type 0 where
  pub args : List Arg
  pub flags : FormatFlags
  pub f1 : ℕ
  pub f2 : ℕ
  pub invoker : ℕ
  pub buf : CString
  pub room : ℕ
  pub flushed : ℕ
  pub out : CString
  pub writes : List (Option ℕ)

-- `none` is where the shell ends, and where an argument is not of the type that is taken.
abbrev pub Formatted : Type 0
Formatted = Option Format

abbrev pub then_format : Formatted → (Format → Formatted) → Formatted
then_format none k = none
then_format (some f) k = k f

-- "while (n != 0)": the pointer stays at the start of the buffer.
unfoldable pub write_loop :
    List (Option ℕ) → CString → ℕ → CString → Option (CString × List (Option ℕ))
write_loop writes buf zero out = some (out, writes)
write_loop [] buf (suc n) out = some (out ++ take (suc n) buf, [])
write_loop (none ∷ writes) buf (suc n) out = none
write_loop (some written ∷ writes) buf (suc n) out =
    write_loop writes buf (suc n - written) (out ++ take written buf)

abbrev pub with_out : Format → Option (CString × List (Option ℕ)) → Formatted
with_out f none = none
with_out f (some (out, writes)) = some (record f { out = out; writes = writes })

unfoldable pub fprint_flush : Format → Formatted
unfolding write_loop
fprint_flush f =
    let n = length f.buf in
    with_out (record f { flushed = f.flushed + n; buf = [] }) (write_loop f.writes f.buf n f.out)

-- "while (format->buf + len > format->bufend)", on fuel for the characters, with one round for a full buffer.
unfoldable pub append_loop : ℕ → CString → Format → Formatted
unfolding fprint_flush
append_loop zero s f = none
append_loop (suc n) s f =
    let split = f.room - length f.buf in
    if ltb f.room (length f.buf + length s)
    then then_format (fprint_flush (record f { buf = f.buf ++ take split s }))
        (append_loop n (drop split s))
    else some (record f { buf = f.buf ++ s })

unfoldable pub fmtappend : CString → Format → Formatted
unfolding append_loop
fmtappend s f = append_loop (suc (suc (length s))) s f

abbrev pub put_char : ℕ → Format → Formatted
put_char c f = some (record f { buf = f.buf ++ c ∷ [] })

unfoldable pub fmtputc : ℕ → Format → Formatted
unfolding fprint_flush
fmtputc c f =
    then_format (if leb f.room (length f.buf) then fprint_flush f else some f) (put_char c)

unfoldable pub pad : ℕ → ℕ → Format → Formatted
unfolding fmtputc
pad zero c f = some f
pad (suc len) c f = then_format (fmtputc c f) (pad len c)
