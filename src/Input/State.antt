-- ===== src/Input/State.antt =====
-- The buffer of an input source: filling it, taking a character, and pushing one back.
use es_shell_mirror.Prelude.{
  ℕ, zero, suc, ◌+◌, ◌-◌, Bool, true, false, not, ◌&&◌, List, [], ◌∷◌, CString, Option, none, some,
  ◌==◌, ltb, if◌then◌else◌, length, get_or,
}

-- The `fill` routines.
pub data Fill : Type 0 where
  fd_fill string_fill eof_fill unget_fill : Fill

-- What is taken from an input: a byte, EOF, or the exception of a read that failed.
pub data Got : Type 0 where
  byte : ℕ → Got
  eof thrown : Got

-- What the reads of a descriptor will give: at least one byte, the end, an error, or an interruption
-- after which the loop reads again. A line of readline is a chunk.
pub data Read : Type 0 where
  chunk : ℕ → CString → Read
  at_end read_error interrupted : Read

-- `struct Input`. `content` is what lies between `bufbegin` and `bufend`, and `buf` an index into it; `unget` is
-- a list with the last character first.
pub record Input : Type 0 where
  pub fill : Fill
  pub rfill : Option Fill
  pub content : CString
  pub buf : ℕ
  pub rbuf : Option ℕ
  pub ungot : List Got
  pub is_open : Bool
  pub echoes : Bool
  pub interactive : Bool
  pub reads : List Read

abbrev pub max_unget : ℕ
max_unget = 2

-- A failed assertion is `none`.
abbrev pub Fetched : Type 0
Fetched = Option (Got × Input)

-- The descriptor is closed at its end, and where a read fails.
abbrev pub closed : List Read → Input → Input
closed reads in_ = record in_ {
  is_open = false;
  fill = eof_fill;
  interactive = false;
  reads = reads;
}

unfoldable pub fill_with : List Read → Input → Got × Input
fill_with [] in_ = (eof, closed [] in_)
fill_with (chunk c s ∷ reads) in_ = (byte c, record in_ { content = c ∷ s; buf = 1; reads = reads })
fill_with (at_end ∷ reads) in_ = (eof, closed reads in_)
fill_with (read_error ∷ reads) in_ = (thrown, closed reads in_)
fill_with (interrupted ∷ reads) in_ = fill_with reads in_

unfoldable pub fdfill : Input → Fetched
unfolding fill_with
fdfill in_ =
    if in_.is_open && in_.buf == length in_.content then some (fill_with in_.reads in_) else none

abbrev pub eoffill : Input → Fetched
eoffill in_ = if in_.is_open then none else some (eof, in_)

abbrev pub stringfill : Input → Fetched
stringfill in_ = some (eof, record in_ { fill = eof_fill })

-- The last character that was pushed back is taken with the buffer and the routine from before.
abbrev pub restored : Option Fill → Option ℕ → Got → Input → Fetched
restored (some fill) (some buf) c in_ =
    some (c, record in_ { ungot = []; fill = fill; rfill = none; buf = buf; rbuf = none })
restored (some fill) none c in_ = none
restored none rbuf c in_ = none

abbrev pub take_ungot : List Got → Input → Fetched
take_ungot [] in_ = none
take_ungot (c ∷ []) in_ = restored in_.rfill in_.rbuf c in_
take_ungot (c ∷ d ∷ ungot) in_ = some (c, record in_ { ungot = d ∷ ungot })

abbrev pub ungetfill : Input → Fetched
ungetfill in_ = take_ungot in_.ungot in_

abbrev pub fill_by : Fill → Input → Fetched
fill_by fd_fill in_ = fdfill in_
fill_by string_fill in_ = stringfill in_
fill_by eof_fill in_ = eoffill in_
fill_by unget_fill in_ = ungetfill in_

-- "in->buf < in->bufend ? *in->buf++ : (*in->fill)(in)"
unfoldable pub fetch : Input → Fetched
fetch in_ =
    if ltb in_.buf (length in_.content)
    then some (byte (get_or in_.content in_.buf 0), record in_ { buf = in_.buf + 1 })
    else fill_by in_.fill in_

abbrev pub skip_null : Fetched → (Input → Fetched) → Fetched
skip_null none next = none
skip_null (some (byte c, in_)) next = if c == 0 then next in_ else some (byte c, in_)
skip_null (some (eof, in_)) next = some (eof, in_)
skip_null (some (thrown, in_)) next = some (thrown, in_)

-- "get a character, filter out nulls", on fuel for the characters.
unfoldable pub get_loop : ℕ → Input → Fetched
get_loop zero in_ = none
get_loop (suc n) in_ = skip_null (fetch in_) (get_loop n)

-- How many characters are to come.
unfoldable pub read_size : List Read → ℕ
read_size [] = 0
read_size (chunk c s ∷ reads) = suc (length s) + read_size reads
read_size (at_end ∷ reads) = read_size reads
read_size (read_error ∷ reads) = suc (read_size reads)
read_size (interrupted ∷ reads) = read_size reads

unfoldable pub get : Input → Fetched
unfolding get_loop
get in_ = get_loop (suc (length in_.ungot + (length in_.content + read_size in_.reads))) in_

-- Whether the character before `buf` is the one that is pushed back.
abbrev pub is_last : Got → Input → Bool
is_last (byte c) in_ = ltb 0 in_.buf && get_or in_.content (in_.buf - 1) 0 == c
is_last eof in_ = false
is_last thrown in_ = false

abbrev pub push_first : Option Fill → Option ℕ → Got → Input → Option Input
push_first none none c in_ = some (record in_ {
  rfill = some in_.fill;
  fill = unget_fill;
  rbuf = some in_.buf;
  buf = length in_.content;
  ungot = c ∷ [];
})
push_first none (some buf) c in_ = none
push_first (some fill) rbuf c in_ = none

abbrev pub unget_onto : List Got → Got → Input → Option Input
unget_onto [] c in_ =
    if is_last c in_ && not in_.echoes
    then some (record in_ { buf = in_.buf - 1 })
    else push_first in_.rfill in_.rbuf c in_
unget_onto (d ∷ ungot) c in_ =
    if ltb (length (d ∷ ungot)) max_unget then some (record in_ { ungot = c ∷ d ∷ ungot }) else none

-- "push back one character"
unfoldable pub unget : Got → Input → Option Input
unget c in_ = unget_onto in_.ungot c in_

-- The inputs of `runfd` and of `runstring`.
abbrev pub runfd_input : List Read → Bool → Bool → Input
runfd_input reads echoes interactive = record {
  fill = fd_fill;
  rfill = none;
  content = [];
  buf = 0;
  rbuf = none;
  ungot = [];
  is_open = true;
  echoes = echoes;
  interactive = interactive;
  reads = reads;
}

abbrev pub runstring_input : CString → Bool → Bool → Input
runstring_input str echoes interactive = record (runfd_input [] echoes interactive) {
  fill = string_fill;
  content = str;
  is_open = false;
}
