-- ===== src/Conv/Names.antt =====
-- `%F` and `%N` of conv.c, which protect the name of a variable in the environment and undo that.
use es_shell_mirror.Prelude.{
  ℕ, ◌+◌, ◌-◌, ◌*◌, ◌/◌, ◌%◌, ◌<◌, ◌≡◌, refl, sym, ◌∙◌, ap, Bool, true, false, not, ◌&&◌, ◌||◌,
  Option, none, some, [], ◌∷◌, CString, ◌==◌, ltb, leb, if◌then◌else◌, head_byte, arith, Bool-cases,
  ==→eq, inl, inr,
}

-- A digit of "%02x", and the place of a byte in "0123456789abcdef". `strchr` finds the NUL too.
abbrev pub hex_digit : ℕ → ℕ
hex_digit n = if ltb n 10 then 48 + n else 87 + n

abbrev pub hex_index : ℕ → Option ℕ
hex_index c =
    if leb 48 c && leb c 57
    then some (c - 48)
    else if leb 97 c && leb c 102
    then some (c - 87)
    else none

-- `isalpha` and `isalnum` are of the C library.
module _ (isalpha isalnum : ℕ → Bool) where
  -- Whether a byte stands for itself, `first` at the start of the name; `s` follows it.
  abbrev pub is_kept : Bool → ℕ → CString → Bool
  is_kept first c s =
      (if first then isalpha c else isalnum c) || (c == b'_' && not (head_byte s == b'_'))

  unfoldable pub fconv_loop : Bool → CString → CString
  fconv_loop first [] = []
  fconv_loop first (c ∷ s) =
      let rest = fconv_loop false s in
      if is_kept first c s
      then c ∷ rest
      else b'_' ∷ b'_' ∷ hex_digit (c / 16) ∷ hex_digit (c % 16) ∷ rest

  unfoldable pub fconv : CString → CString
  unfolding fconv_loop
  fconv name = fconv_loop true name

-- The byte that two digits behind two underscores spell.
abbrev pub byte_of : Option ℕ → Option ℕ → Option ℕ
byte_of (some h) (some l) = some (h * 16 + l)
byte_of h l = none

abbrev pub escape_at : ℕ → ℕ → ℕ → ℕ → Option ℕ
escape_at c d a b = if c == b'_' && d == b'_' then byte_of (hex_index a) (hex_index b) else none

abbrev pub is_hex : ℕ → Bool
is_hex a = elim (hex_index a) [ some _ ↦ true | none ↦ false ]

abbrev pub put_byte : ℕ → Option CString → Option CString
put_byte c none = none
put_byte c (some s) = some (c ∷ s)

-- `none` where the code reads beyond the end of the name: the NUL counts as a digit, and three bytes
-- are skipped with it.
unfoldable pub nconv : CString → Option CString
nconv [] = some []
nconv (c ∷ []) = some (c ∷ [])
nconv (c ∷ d ∷ []) =
    let rest = nconv (d ∷ []) in if c == b'_' && d == b'_' then none else put_byte c rest
nconv (c ∷ d ∷ a ∷ []) =
    let rest = nconv (d ∷ a ∷ []) in
    if c == b'_' && d == b'_' && is_hex a then none else put_byte c rest
nconv (c ∷ d ∷ a ∷ b ∷ u) = elim (escape_at c d a b) [
  | some v ↦ put_byte v (nconv u)
  | none ↦ put_byte c (nconv (d ∷ a ∷ b ∷ u))
]

hex_digit-index : (n : ℕ) → n < 16 → hex_index (hex_digit n) ≡ some n
hex_digit-index n h = ground arith

escape_at-digits :
    (h l : ℕ)
    → h < 16
    → l < 16
    → escape_at b'_' b'_' (hex_digit h) (hex_digit l) ≡ some (h * 16 + l)
escape_at-digits h l h_in l_in =
    ap (λ o. byte_of o (hex_index (hex_digit l))) (hex_digit-index h h_in)
    ∙ ap (λ o. byte_of (some h) o) (hex_digit-index l l_in)

module _ (c d a b : ℕ) (u : CString) where
  nconv-some :
      (v : ℕ) → escape_at c d a b ≡ some v → nconv (c ∷ d ∷ a ∷ b ∷ u) ≡ put_byte v (nconv u)
  unfolding nconv
  nconv-some v e = rw (e, nconv) refl

  nconv-none :
      escape_at c d a b ≡ none → nconv (c ∷ d ∷ a ∷ b ∷ u) ≡ put_byte c (nconv (d ∷ a ∷ b ∷ u))
  unfolding nconv
  nconv-none e = rw (e, nconv) refl

-- A byte that is escaped comes back.
nconv-escape :
    (c : ℕ) (t : CString)
    → c < 256
    → nconv (b'_' ∷ b'_' ∷ hex_digit (c / 16) ∷ hex_digit (c % 16) ∷ t) ≡ put_byte c (nconv t)
nconv-escape c t h =
    nconv-some b'_' b'_' (hex_digit (c / 16)) (hex_digit (c % 16)) t (c / 16 * 16 + c % 16)
      (escape_at-digits (c / 16) (c % 16) (omega arith) (omega arith))
    ∙ ap (λ v. put_byte v (nconv t)) (omega arith)

-- A byte is read as itself where two underscores do not begin with it.
nconv-plain :
    (c : ℕ) (t : CString)
    → (c == b'_' && head_byte t == b'_') ≡ false
    → nconv (c ∷ t) ≡ put_byte c (nconv t)
unfolding nconv
nconv-plain c [] h = refl
nconv-plain c (d ∷ []) h = rw (h, nconv) refl
nconv-plain c (d ∷ a ∷ []) h =
    let no : (c == b'_' && d == b'_' && is_hex a) ≡ false = ground (arith, h) in rw (no, nconv) refl
nconv-plain c (d ∷ a ∷ b ∷ u) h = nconv-none c d a b u (ground (arith, h))

-- Nor where three of them do.
nconv-three :
    (c : ℕ) (t : CString) → nconv (c ∷ b'_' ∷ b'_' ∷ t) ≡ put_byte c (nconv (b'_' ∷ b'_' ∷ t))
unfolding nconv
nconv-three c [] =
    let no : (c == b'_' && b'_' == b'_' && is_hex b'_') ≡ false = ground arith in
    rw (no, nconv) refl
nconv-three c (b ∷ u) = nconv-none c b'_' b'_' b u (ground arith)

abbrev are_bytes : CString → Bool
are_bytes [] = true
are_bytes (c ∷ s) = ltb c 256 && are_bytes s

module _ (isalpha isalnum : ℕ → Bool) where
  -- The start of a protected name: a byte that is kept, or an escape.
  loop_head :
      (s : CString)
      → isalnum b'_' ≡ false
      → (head_byte s == b'_') ≡ false
      → nconv (b'_' ∷ fconv_loop isalpha isalnum false s)
        ≡ put_byte b'_' (nconv (fconv_loop isalpha isalnum false s))
  unfolding fconv_loop nconv
  loop_head [] no_score h = refl
  loop_head (d ∷ s) no_score h = elim (Bool-cases (is_kept isalpha isalnum false d s)) [
    | inl e ↦
        rw (e, fconv_loop)
          (nconv-plain b'_' (d ∷ fconv_loop isalpha isalnum false s) (ground (arith, h)))
    | inr e ↦
        rw (e, fconv_loop)
          (nconv-three b'_'
            (hex_digit (d / 16) ∷ hex_digit (d % 16) ∷ fconv_loop isalpha isalnum false s))
  ]

  no_more :
      (first : Bool) (c : ℕ) (s : CString)
      → (c == b'_') ≡ true
      → is_kept isalpha isalnum first c s ≡ true
      → isalpha b'_' ≡ false
      → isalnum b'_' ≡ false
      → (head_byte s == b'_') ≡ false
  no_more true c s score e no_alpha no_alnum = ground (arith, ap isalpha (==→eq c b'_' score))
  no_more false c s score e no_alpha no_alnum = ground (arith, ap isalnum (==→eq c b'_' score))

  nconv-loop :
      (first : Bool) (s : CString)
      → isalpha b'_' ≡ false
      → isalnum b'_' ≡ false
      → are_bytes s ≡ true
      → nconv (fconv_loop isalpha isalnum first s) ≡ some s
  unfolding fconv_loop nconv
  nconv-loop first [] no_alpha no_alnum h = refl
  nconv-loop first (c ∷ s) no_alpha no_alnum h =
      let ih = nconv-loop false s no_alpha no_alnum (ground (arith, h)) in
      let rest = fconv_loop isalpha isalnum false s in
      elim (Bool-cases (is_kept isalpha isalnum first c s)) [
        | inl e ↦ elim (Bool-cases (c == b'_')) [
          | inl score ↦
              let is : c ≡ b'_' = ==→eq c b'_' score in
              rw (e, fconv_loop)
                (ap (λ x. nconv (x ∷ rest)) is
                  ∙ loop_head s no_alnum (no_more first c s score e no_alpha no_alnum)
                  ∙ ap (put_byte b'_') ih
                  ∙ ap (λ x. some (x ∷ s)) (sym is))
          | inr other ↦
              rw (e, fconv_loop) (nconv-plain c rest (ground (arith, other)) ∙ ap (put_byte c) ih)
        ]
        | inr e ↦ rw (e, fconv_loop) (nconv-escape c rest (ground (arith, h)) ∙ ap (put_byte c) ih)
      ]

-- A name of bytes that was protected comes back, and nothing is read beyond its end, if an
-- underscore is no letter and no digit.
pub nconv-fconv :
    (isalpha isalnum : ℕ → Bool) (name : CString)
    → isalpha b'_' ≡ false
    → isalnum b'_' ≡ false
    → are_bytes name ≡ true
    → nconv (fconv isalpha isalnum name) ≡ some name
unfolding fconv
nconv-fconv isalpha isalnum name no_alpha no_alnum h =
    nconv-loop isalpha isalnum true name no_alpha no_alnum h
