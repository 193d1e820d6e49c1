-- ===== src/Print/Buffer.antt =====
-- The buffer is not seen: what is put into a format is appended to its text.
use es_shell_mirror.Prelude.{
  ℕ, zero, suc, ◌+◌, ◌-◌, ◌<◌, ◌≤◌, ◌≡◌, refl, sym, ap, ◌∙◌, false, [], ◌∷◌, ◌++◌, CString, some,
  ltb, leb, ltb→lt, length, take, drop, replicate, arith, Bool-cases, inl, inr, append_assoc,
  append-nil, length-append, length-drop,
}
use es_shell_mirror.Print.State.{
  Format, Formatted, then_format, write_loop, with_out, fprint_flush, append_loop, fmtappend,
  put_char, fmtputc, pad,
}

-- What was written, and what is to be.
abbrev pub text : Format → CString
text f = f.out ++ f.buf

-- There is room, and `write` does not fail or stop halfway.
abbrev pub IsValid : Format → Type 0
IsValid f = (0 < f.room) × (length f.buf ≤ f.room) × (f.writes ≡ [])

-- The text grows by `t`, and so does the count of what was printed.
abbrev pub Appends : CString → Format → Formatted → Type 0
Appends t f o =
    (f' : Format) × (o ≡ some f')
    × IsValid f'
    × (text f' ≡ text f ++ t)
    × (f'.flushed + length f'.buf ≡ f.flushed + length f.buf + length t)

take-all : (s : CString) → take (length s) s ≡ s
take-all [] = refl
take-all (c ∷ s) = ap (λ l. c ∷ l) (take-all s)

take-drop : (n : ℕ) (s : CString) → take n s ++ drop n s ≡ s
take-drop zero s = refl
take-drop (suc n) [] = refl
take-drop (suc n) (c ∷ s) = ap (λ l. c ∷ l) (take-drop n s)

length-take : (n : ℕ) (s : CString) → n ≤ length s → length (take n s) ≡ n
length-take zero s h = refl
length-take (suc n) [] h = absurd (omega arith)
length-take (suc n) (c ∷ s) h = ap suc (length-take n s (omega arith))

write_loop-all :
    (buf : CString) (out : CString) → write_loop [] buf (length buf) out ≡ some (out ++ buf, [])
unfolding write_loop
write_loop-all [] out = ap (λ l. some (l, [])) (sym (append-nil out))
write_loop-all (c ∷ s) out = ap (λ l. some (out ++ c ∷ l, [])) (take-all s)

abbrev flushed_format : Format → Format
flushed_format f = record f {
  flushed = f.flushed + length f.buf;
  buf = [];
  out = f.out ++ f.buf;
  writes = [];
}

flush-all : (f : Format) → f.writes ≡ [] → fprint_flush f ≡ some (flushed_format f)
unfolding fprint_flush
flush-all f e =
    ap
      (λ w.
        with_out (record f { flushed = f.flushed + length f.buf; buf = [] })
          (write_loop w f.buf (length f.buf) f.out))
      e
    ∙ ap (with_out (record f { flushed = f.flushed + length f.buf; buf = [] }))
        (write_loop-all f.buf f.out)

pub append_then :
    (t t' : CString) (f : Format) (o : Formatted) (k : Format → Formatted)
    → Appends t f o
    → ((f' : Format) → IsValid f' → Appends t' f' (k f'))
    → Appends (t ++ t') f (then_format o k)
append_then t t' f o k (f1, e, valid, here, size) next =
    let (f2, e2, valid2, here2, size2) = next f1 valid in
    (
      f2,
      ap (λ o. then_format o k) e ∙ e2,
      valid2,
      here2 ∙ ap (λ l. l ++ t') here ∙ append_assoc (text f) t t',
      omega (arith, size, size2, length-append t t'),
    )

fits :
    (s : CString) (f : Format)
    → IsValid f
    → length f.buf + length s ≤ f.room
    → Appends s f (some (record f { buf = f.buf ++ s }))
fits s f (room, within, whole) h = (
  _,
  refl,
  (room, omega (arith, length-append f.buf s), whole),
  sym (append_assoc f.out f.buf s),
  omega (arith, length-append f.buf s),
)

-- The format after one round of the loop.
abbrev filled : CString → Format → Format
filled s f = flushed_format (record f { buf = f.buf ++ take (f.room - length f.buf) s })

filled-IsValid : (s : CString) (f : Format) → IsValid f → IsValid (filled s f)
filled-IsValid s f (room, within, whole) = (room, omega arith, refl)

filled-Appends :
    (s : CString) (f : Format) (o : Formatted)
    → f.room - length f.buf ≤ length s
    → Appends (drop (f.room - length f.buf) s) (filled s f) o
    → Appends s f o
filled-Appends s f o short (f', e, valid, here, size) =
    let split = f.room - length f.buf in
    (
      f',
      e,
      valid,
      here
          ∙ ap (λ l. l ++ [] ++ drop split s) (sym (append_assoc f.out f.buf (take split s)))
          ∙ ap (λ l. l ++ drop split s) (append-nil (text f ++ take split s))
          ∙ append_assoc (text f) (take split s) (drop split s)
          ∙ ap (λ l. text f ++ l) (take-drop split s),
      omega (
        arith,
        size,
        length-append f.buf (take split s),
        length-take split s short,
        length-drop split s,
      ),
    )

round-Appends :
    (n : ℕ) (s : CString) (f : Format)
    → IsValid f
    → (length f.buf + length s ≤ f.room → Appends s f (append_loop (suc n) s f))
    → (f.room < length f.buf + length s
        → Appends
            (drop (f.room - length f.buf) s)
            (filled s f)
            (append_loop n (drop (f.room - length f.buf) s) (filled s f)))
    → Appends s f (append_loop (suc n) s f)
unfolding append_loop
round-Appends n s f valid fit more = elim (Bool-cases (ltb f.room (length f.buf + length s))) [
  | inl full ↦
      let big = ltb→lt f.room (length f.buf + length s) full in
      let flushed =
        flush-all (record f { buf = f.buf ++ take (f.room - length f.buf) s }) valid.2 in
      rw (full, flushed) (filled-Appends s f _ (omega arith) (more big))
  | inr fit' ↦ fit (ground arith)
]

append_loop-fits :
    (n : ℕ) (s : CString) (f : Format)
    → IsValid f
    → length f.buf + length s ≤ f.room
    → Appends s f (append_loop (suc n) s f)
unfolding append_loop
append_loop-fits n s f valid h =
    let small : ltb f.room (length f.buf + length s) ≡ false = ground arith in
    rw small (fits s f valid h)

-- With an empty buffer each round takes a character.
append_loop-empty :
    (n : ℕ) (s : CString) (f : Format)
    → IsValid f
    → f.buf ≡ []
    → length s < n
    → Appends s f (append_loop n s f)
append_loop-empty zero s f valid empty enough = absurd (omega arith)
append_loop-empty (suc n) s f valid empty enough =
    round-Appends n s f valid (append_loop-fits n s f valid) (λ big.
      append_loop-empty n (drop (f.room - length f.buf) s) (filled s f) (filled-IsValid s f valid)
        refl (omega (arith, length-drop (f.room - length f.buf) s, ap length empty, valid.0)))

-- `fmtappend` appends the string to the text, whatever its length and that of the buffer, and the loop comes to an end: where
-- the buffer has room for a character, and `write` does not fail or stop halfway.
pub fmtappend-Appends : (s : CString) (f : Format) → IsValid f → Appends s f (fmtappend s f)
unfolding fmtappend
fmtappend-Appends s f valid =
    round-Appends (suc (length s)) s f valid (append_loop-fits (suc (length s)) s f valid) (λ big.
      append_loop-empty (suc (length s)) (drop (f.room - length f.buf) s) (filled s f)
        (filled-IsValid s f valid) refl (omega (arith, length-drop (f.room - length f.buf) s)))

put_char-Appends :
    (c : ℕ) (f : Format) → IsValid f → length f.buf < f.room → Appends (c ∷ []) f (put_char c f)
put_char-Appends c f valid h = fits (c ∷ []) f valid (omega arith)

pub fmtputc-Appends : (c : ℕ) (f : Format) → IsValid f → Appends (c ∷ []) f (fmtputc c f)
unfolding fmtputc
fmtputc-Appends c f valid = elim (Bool-cases (leb f.room (length f.buf))) [
  | inl full ↦
      rw (full, flush-all f valid.2)
        (after_flush (put_char-Appends c (flushed_format f) (valid.0, omega arith, refl) valid.0))
  | inr room ↦ rw room (put_char-Appends c f valid (ground arith))
]
  where
    after_flush :
        Appends (c ∷ []) (flushed_format f) (put_char c (flushed_format f))
        → Appends (c ∷ []) f (put_char c (flushed_format f))
    after_flush (f', e, valid', here, size) =
        (f', e, valid', here ∙ ap (λ l. l ++ c ∷ []) (append-nil (text f)), omega (arith, size))

pub pad-Appends : (n c : ℕ) (f : Format) → IsValid f → Appends (replicate n c) f (pad n c f)
unfolding pad
pad-Appends zero c f valid = (f, refl, valid, sym (append-nil (text f)), omega arith)
pad-Appends (suc n) c f valid =
    append_then (c ∷ []) (replicate n c) f (fmtputc c f) (pad n c) (fmtputc-Appends c f valid)
      (pad-Appends n c)
