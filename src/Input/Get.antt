-- ===== src/Input/Get.antt =====
-- `get` is the first character that is not a null: the fuel of its loop is enough.
use es_shell_mirror.Prelude.{
  ℕ, zero, suc, ◌+◌, ◌≤◌, ◌<◌, ◌≡◌, refl, ap, subst, List, [], ◌∷◌, ◌++◌, CString, ◌==◌,
  if◌then◌else◌, length, drop, map, arith, Bool-cases, inl, inr, length-append, length-drop,
}
use es_shell_mirror.Input.State.{
  Fill, fd_fill, string_fill, eof_fill, unget_fill, Got, byte, eof, thrown, Read, chunk, at_end,
  read_error, interrupted, Input, Fetched, fetch, skip_null, get_loop, read_size, get,
}
use es_shell_mirror.Input.Refine.{from_reads, from_fill, kept_or, raw, IsValid, Takes, fetch-Takes}

-- The nulls are dropped.
abbrev pub drop_nulls : List Got → List Got
drop_nulls [] = []
drop_nulls (byte c ∷ l) = if c == 0 then drop_nulls l else byte c ∷ l
drop_nulls (eof ∷ l) = eof ∷ l
drop_nulls (thrown ∷ l) = thrown ∷ l

skip-Takes :
    (f : Input → Fetched) (m : ℕ)
    → ((l : List Got) (in_ : Input)
        → raw in_ ≡ l
        → length l < m
        → IsValid in_
        → Takes (drop_nulls l) (f in_))
    → (l : List Got) (r : Fetched) → length l < suc m
    → Takes l r
    → Takes (drop_nulls l) (skip_null r f)
skip-Takes f m next [] r more (in', taken, left, valid) = rw taken (in', refl, left, valid)
skip-Takes f m next (byte c ∷ l) r more (in', taken, left, valid) =
    rw taken (elim (Bool-cases (c == 0)) [
      | inl null ↦ rw null (next l in' left (omega arith) valid)
      | inr other ↦ rw other (in', refl, left, valid)
    ])
skip-Takes f m next (eof ∷ l) r more (in', taken, left, valid) = rw taken (in', refl, left, valid)
skip-Takes f m next (thrown ∷ l) r more (in', taken, left, valid) =
    rw taken (in', refl, left, valid)

get_loop-Takes :
    (n : ℕ) (l : List Got) (in_ : Input)
    → raw in_ ≡ l
    → length l < n
    → IsValid in_
    → Takes (drop_nulls l) (get_loop n in_)
unfolding get_loop
get_loop-Takes zero l in_ e more h = absurd (omega arith)
get_loop-Takes (suc n) l in_ e more h =
    skip-Takes (get_loop n) n (get_loop-Takes n) l (fetch in_) more
      (subst (λ k. Takes k (fetch in_)) e (fetch-Takes in_ h))

length-map : (s : CString) → length (map byte s) ≡ length s
length-map [] = refl
length-map (c ∷ s) = ap suc (length-map s)

length-from_reads : (reads : List Read) → length (from_reads reads) ≤ read_size reads
unfolding read_size
length-from_reads [] = omega arith
length-from_reads (chunk c s ∷ reads) =
    ground
      (arith, length-from_reads reads, length-append (map byte s) (from_reads reads), length-map s)
length-from_reads (at_end ∷ reads) = omega arith
length-from_reads (read_error ∷ reads) = omega arith
length-from_reads (interrupted ∷ reads) = length-from_reads reads

length-from_fill :
    (fill : Fill) (reads : List Read) → length (from_fill fill reads) ≤ read_size reads
length-from_fill fd_fill reads = length-from_reads reads
length-from_fill string_fill reads = omega arith
length-from_fill eof_fill reads = omega arith
length-from_fill unget_fill reads = omega arith

length-raw :
    (in_ : Input) → length (raw in_) ≤ length in_.ungot + (length in_.content + read_size in_.reads)
length-raw in_ =
    let place = kept_or in_.rbuf in_.buf in
    let fill = kept_or in_.rfill in_.fill in
    let buffered = map byte (drop place in_.content) in
    omega (
      arith,
      length-append in_.ungot (buffered ++ from_fill fill in_.reads),
      length-append buffered (from_fill fill in_.reads),
      length-map (drop place in_.content),
      length-drop place in_.content,
      length-from_fill fill in_.reads,
    )

-- `get` of a well-formed source gives the first character to come that is not a null, or EOF where there is none,
-- and leaves a well-formed source of the characters after it: the reads of the descriptor in between, and those that were
-- interrupted, are not seen, and a failed read is an exception in the place of a character.
pub get-Takes : (in_ : Input) → IsValid in_ → Takes (drop_nulls (raw in_)) (get in_)
unfolding get
get-Takes in_ h =
    get_loop-Takes (suc (length in_.ungot + (length in_.content + read_size in_.reads))) (raw in_)
      in_ refl (omega (arith, length-raw in_)) h
