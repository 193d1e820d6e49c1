-- ===== src/Input/Refine.antt =====
-- An input source is a list of characters to come: `get` takes the first, and `unget` puts one in front.
use es_shell_mirror.Prelude.{
  ℕ, zero, suc, ◌+◌, ◌≤◌, ◌<◌, ◌≡◌, refl, ap, subst, ltb→lt, Bool, true, false, List, [], ◌∷◌, ◌++◌,
  CString, Option, none, some, ◌==◌, ltb, length, get_or, drop, map, arith, Bool-cases, inl, inr,
  lt→ltb, eq→==,
}
use es_shell_mirror.Input.State.{
  Fill, fd_fill, string_fill, eof_fill, unget_fill, Got, byte, eof, thrown, Read, chunk, at_end,
  read_error, interrupted, Input, Fetched, fill_with, fdfill, fetch, fill_by, take_ungot,
}

-- The characters that a descriptor gives.
abbrev pub from_reads : List Read → List Got
from_reads [] = []
from_reads (chunk c s ∷ reads) = byte c ∷ map byte s ++ from_reads reads
from_reads (at_end ∷ reads) = []
from_reads (read_error ∷ reads) = thrown ∷ []
from_reads (interrupted ∷ reads) = from_reads reads

abbrev pub from_fill : Fill → List Read → List Got
from_fill fd_fill reads = from_reads reads
from_fill string_fill reads = []
from_fill eof_fill reads = []
from_fill unget_fill reads = []

abbrev pub raw_of : List Got → CString → ℕ → Fill → List Read → List Got
raw_of ungot content buf fill reads = ungot ++ (map byte (drop buf content) ++ from_fill fill reads)

abbrev pub kept_or {ℓ} : {A : Type ℓ} → Option A → A → A
kept_or none a = a
kept_or (some b) a = b

-- The characters to come, nulls included.
abbrev pub raw : Input → List Got
raw in_ =
    raw_of in_.ungot in_.content (kept_or in_.rbuf in_.buf) (kept_or in_.rfill in_.fill) in_.reads

abbrev pub Plain : Fill → Bool → Type 0
Plain fd_fill is_open = is_open ≡ true
Plain string_fill is_open = is_open ≡ false
Plain eof_fill is_open = is_open ≡ false
Plain unget_fill is_open = ⊥

-- While characters are pushed back, the buffer looks empty and its place is kept; there are two at most.
abbrev pub ValidBy : List Got → Option Fill → Option ℕ → Fill → ℕ → ℕ → Bool → Type 0
ValidBy [] none none fill buf len is_open = Plain fill is_open × (buf ≤ len)
ValidBy [] none (some b) fill buf len is_open = ⊥
ValidBy [] (some f) rbuf fill buf len is_open = ⊥
ValidBy (c ∷ ungot) none rbuf fill buf len is_open = ⊥
ValidBy (c ∷ ungot) (some f) none fill buf len is_open = ⊥
ValidBy (c ∷ ungot) (some f) (some b) unget_fill buf len is_open =
    Plain f is_open × (b ≤ len) × (buf ≡ len) × (length ungot ≤ 1)
ValidBy (c ∷ ungot) (some f) (some b) fd_fill buf len is_open = ⊥
ValidBy (c ∷ ungot) (some f) (some b) string_fill buf len is_open = ⊥
ValidBy (c ∷ ungot) (some f) (some b) eof_fill buf len is_open = ⊥

abbrev pub IsValid : Input → Type 0
IsValid in_ = ValidBy in_.ungot in_.rfill in_.rbuf in_.fill in_.buf (length in_.content) in_.is_open

-- What is taken is the first of the characters, or EOF where there is none.
abbrev pub Takes : List Got → Fetched → Type 0
Takes [] r = (in' : Input) × (r ≡ some (eof, in')) × (raw in' ≡ []) × IsValid in'
Takes (c ∷ rest) r = (in' : Input) × (r ≡ some (c, in')) × (raw in' ≡ rest) × IsValid in'

drop-all : (s : CString) → drop (length s) s ≡ []
drop-all [] = refl
drop-all (c ∷ s) = drop-all s

pub drop-step : (n : ℕ) (s : CString) → n < length s → drop n s ≡ get_or s n 0 ∷ drop (suc n) s
drop-step n [] h = absurd (omega arith)
drop-step zero (c ∷ s) h = refl
drop-step (suc n) (c ∷ s) h = drop-step n s (omega arith)

none_left : (s : CString) → map byte (drop (length s) s) ++ [] ≡ []
none_left s = rw (drop-all s) refl

module _ (content : CString) (echoes interactive : Bool) where
  -- An input by its fields.
  abbrev pub pushed : List Got → Option Fill → Option ℕ → Fill → ℕ → Bool → List Read → Input
  pushed ungot rfill rbuf fill buf is_open reads = record {
    fill = fill;
    rfill = rfill;
    content = content;
    buf = buf;
    rbuf = rbuf;
    ungot = ungot;
    is_open = is_open;
    echoes = echoes;
    interactive = interactive;
    reads = reads;
  }

  abbrev pub plain : Fill → ℕ → Bool → List Read → Input
  plain = pushed [] none none

  fill_with-Takes :
      (reads coming : List Read)
      → Takes
          (from_reads reads)
          (some (fill_with reads (plain fd_fill (length content) true coming)))
  unfolding fill_with
  fill_with-Takes [] coming = (_, refl, none_left content, (refl, omega arith))
  fill_with-Takes (chunk c s ∷ reads) coming = (_, refl, refl, (refl, omega arith))
  fill_with-Takes (at_end ∷ reads) coming = (_, refl, none_left content, (refl, omega arith))
  fill_with-Takes (read_error ∷ reads) coming = (_, refl, none_left content, (refl, omega arith))
  fill_with-Takes (interrupted ∷ reads) coming = fill_with-Takes reads coming

  fdfill-Takes :
      (at_end_ : (length content == length content) ≡ true) (reads : List Read)
      → Takes (from_reads reads) (fdfill (plain fd_fill (length content) true reads))
  unfolding fdfill
  fdfill-Takes at_end_ reads = rw at_end_ (fill_with-Takes reads reads)

  -- The buffer is at its end: the routine fills it.
  fill_by-Takes :
      (fill : Fill) (is_open : Bool) (reads : List Read)
      → Plain fill is_open
      → Takes (from_fill fill reads) (fill_by fill (plain fill (length content) is_open reads))
  fill_by-Takes fd_fill true reads h =
      fdfill-Takes (eq→== (length content) (length content) refl) reads
  fill_by-Takes fd_fill false reads h = absurd (ground arith)
  fill_by-Takes string_fill true reads h = absurd (ground arith)
  fill_by-Takes string_fill false reads h = (_, refl, none_left content, (refl, omega arith))
  fill_by-Takes eof_fill true reads h = absurd (ground arith)
  fill_by-Takes eof_fill false reads h = (_, refl, none_left content, (refl, omega arith))
  fill_by-Takes unget_fill is_open reads h = absurd h

  module _ (fill : Fill) (is_open : Bool) (reads : List Read) (h : Plain fill is_open) where
    fetch-plain-byte :
        (buf : ℕ)
        → buf < length content
        → Takes (raw_of [] content buf fill reads) (fetch (plain fill buf is_open reads))
    unfolding fetch
    fetch-plain-byte buf less =
        let next : buf + 1 ≡ suc buf = omega arith in
        rw (lt→ltb buf (length content) less, drop-step buf content less)
          (
            _,
            refl,
            ap (λ n. map byte (drop n content) ++ from_fill fill reads) next,
            (h, omega arith),
          )

    fetch-plain-fill :
        Takes
          (raw_of [] content (length content) fill reads)
          (fetch (plain fill (length content) is_open reads))
    unfolding fetch
    fetch-plain-fill =
        let end : ltb (length content) (length content) ≡ false = ground arith in
        rw (end, drop-all content) (fill_by-Takes fill is_open reads h)

    fetch-plain :
        (buf : ℕ)
        → buf ≤ length content
        → Takes (raw_of [] content buf fill reads) (fetch (plain fill buf is_open reads))
    fetch-plain buf within = elim (Bool-cases (ltb buf (length content))) [
      | inl less ↦ fetch-plain-byte buf (ltb→lt buf (length content) less)
      | inr end ↦
          let e : length content ≡ buf = ground arith in
          subst (λ n. Takes (raw_of [] content n fill reads) (fetch (plain fill n is_open reads))) e
            fetch-plain-fill
    ]

  fetch-ungot :
      (c : Got) (ungot : List Got) (f : Fill) (b buf : ℕ) (is_open : Bool) (reads : List Read)
      → Plain f is_open
      → b ≤ length content
      → buf ≡ length content
      → length ungot ≤ 1
      → Takes
          (c ∷ raw_of ungot content b f reads)
          (fetch (pushed (c ∷ ungot) (some f) (some b) unget_fill buf is_open reads))
  unfolding fetch
  fetch-ungot c ungot f b buf is_open reads h kept e few =
      let end : ltb buf (length content) ≡ false = ground arith in rw end (take ungot few)
    where
      take :
          (ungot : List Got)
          → length ungot ≤ 1
          → Takes (c ∷ raw_of ungot content b f reads) (
              take_ungot
                (c ∷ ungot)
                (pushed (c ∷ ungot) (some f) (some b) unget_fill buf is_open reads))
      take [] few = (_, refl, refl, (h, kept))
      take (d ∷ ungot) few = (_, refl, refl, (h, kept, e, omega arith))

  fetch-pushed :
      (ungot : List Got) (rfill : Option Fill) (rbuf : Option ℕ) (fill : Fill) (buf : ℕ)
      (is_open : Bool) (reads : List Read)
      → IsValid (pushed ungot rfill rbuf fill buf is_open reads)
      → Takes
          (raw (pushed ungot rfill rbuf fill buf is_open reads))
          (fetch (pushed ungot rfill rbuf fill buf is_open reads))
  fetch-pushed [] none none fill buf is_open reads (h, within) =
      fetch-plain fill is_open reads h buf within
  fetch-pushed [] none (some b) fill buf is_open reads h = absurd h
  fetch-pushed [] (some f) rbuf fill buf is_open reads h = absurd h
  fetch-pushed (c ∷ ungot) none rbuf fill buf is_open reads h = absurd h
  fetch-pushed (c ∷ ungot) (some f) none fill buf is_open reads h = absurd h
  fetch-pushed (c ∷ ungot) (some f) (some b) unget_fill buf is_open reads (h, kept, e, few) =
      fetch-ungot c ungot f b buf is_open reads h kept e few
  fetch-pushed (c ∷ ungot) (some f) (some b) fd_fill buf is_open reads h = absurd h
  fetch-pushed (c ∷ ungot) (some f) (some b) string_fill buf is_open reads h = absurd h
  fetch-pushed (c ∷ ungot) (some f) (some b) eof_fill buf is_open reads h = absurd h

pub fetch-Takes : (in_ : Input) → IsValid in_ → Takes (raw in_) (fetch in_)
fetch-Takes in_ h =
    fetch-pushed in_.content in_.echoes in_.interactive in_.ungot in_.rfill in_.rbuf in_.fill
      in_.buf in_.is_open in_.reads h
