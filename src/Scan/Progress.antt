-- ===== src/Scan/Progress.antt =====
-- Each call of `yylex` brings the end of the input nearer.
use es_shell_mirror.Prelude.{
  ℕ, zero, suc, ◌+◌, ◌*◌, ◌≤◌, ◌<◌, ◌≡◌, refl, ap, Bool, true, false, not, ◌&&◌, ◌||◌, ◌⊎◌, inl,
  inr, [], ◌∷◌, CString, Option, none, some, ◌==◌, if◌then◌else◌, arith, Bool-cases, length,
}
use es_shell_mirror.Scan.State.{
  char_token, leq, geq, Scanner, WordState, nw_state, rw_state, kw_state, Token, endfile, nl,
  first_of, rest_of, is_char, scanerror, skip_char, print_prompt2,
}
use es_shell_mirror.Scan.Words.{Numerals, lex_word, lex_escape, caret_or, free_caret, bad_escape}
use es_shell_mirror.Scan.Lex.{
  yylex, lex_top, meta_of, lex_char, lex_operator, lex_special, lex_numeric, backslash_at,
  lex_backslash,
}
use es_shell_mirror.Scan.Lengths.{
  rest_of-le, lex_word-le, lex_escape-le, if_next-le, lex_special-le,
}

abbrev pub is_outside : WordState → Bool
is_outside nw_state = true
is_outside rw_state = false
is_outside kw_state = false

module _ {F : Type 0} (print_fd : ℕ → CString) (lib : Numerals F) where
  -- A function that comes after InsertFreeCaret: it leaves no more than it was given, or a caret is
  -- read, and `c` again, and the scanner stands outside of words.
  abbrev pub Advances : ℕ → Scanner → Token F × Scanner → Type 0
  Advances n st r =
      (length r.1.input ≤ n)
      ⊎ ((is_outside st.w ≡ false)
          × (is_outside r.1.w ≡ true)
          × (length r.1.input ≡ suc (length st.input))
          × (r.1.goterror ≡ st.goterror))

  free_caret-Advances :
      (c : ℕ) (st : Scanner) (next : Scanner → Token F × Scanner)
      → length (next st).1.input ≤ length st.input
      → Advances (length st.input) st (free_caret c st next)
  unfolding free_caret
  free_caret-Advances c st next h = go st.w refl
    where
      go : (w : WordState) → st.w ≡ w → Advances (length st.input) st (caret_or w c st next)
      go nw_state e = inl h
      go rw_state e = inr (ap is_outside e, refl, refl, refl)
      go kw_state e = inr (ap is_outside e, refl, refl, refl)

  -- What is outside of words takes what it is given.
  outside :
      (n : ℕ) (st : Scanner) (r : Token F × Scanner)
      → is_outside st.w ≡ true
      → Advances n st r
      → length r.1.input ≤ n
  outside n st r e (inl h) = h
  outside n st r e (inr h) = cc

  lex_operator-Advances :
      (c : ℕ) (st : Scanner) → Advances (length st.input) st (lex_operator print_fd lib c st)
  unfolding lex_operator
  lex_operator-Advances c st = elim (Bool-cases (c == b'!')) [
    | inl e ↦ rw e (
        free_caret-Advances c st (λ st'. lex_special print_fd lib c (record st' { w = kw_state }))
          (lex_special-le print_fd lib c (record st { w = kw_state })))
    | inr e ↦ elim (Bool-cases (c == b'`' || c == b'$' || c == 39)) [
      | inl e' ↦
          rw (e, e')
            (free_caret-Advances c st (lex_special print_fd lib c)
              (lex_special-le print_fd lib c st))
      | inr e' ↦ rw (e, e') (inl (lex_special-le print_fd lib c st))
    ]
  ]

  lex_numeric-Advances :
      (c : ℕ) (st : Scanner) → Advances (length st.input) st (lex_numeric print_fd lib c st)
  unfolding lex_numeric
  lex_numeric-Advances c st =
      let out : Scanner = record st { w = nw_state } in
      elim (Bool-cases (
        c == b'!'
        || c == b'<'
        || c == b'='
        || c == b'>'
        || c == b'-'
        || c == b'+'
        || c == b'*'
        || c == b'/'
        || c == b'%')) [
          | inl e ↦ inl (
              ground (
                arith,
                e,
                rest_of-le st.input,
                outside (length st.input) out (lex_operator print_fd lib c out) refl
                    (lex_operator-Advances c out),
                if_next-le print_fd lib b'=' leq (char_token c) out,
                if_next-le print_fd lib b'=' (char_token b'=') (char_token c) out,
                if_next-le print_fd lib b'=' geq (char_token c) out,
              ))
          | inr e ↦
              let e1 : (c == b'!') ≡ false = ground (arith, e) in
              let e2 : (c == b'<') ≡ false = ground (arith, e) in
              let e3 : (c == b'=') ≡ false = ground (arith, e) in
              let e4 : (c == b'>') ≡ false = ground (arith, e) in
              let e5 : (c == b'-' || c == b'+' || c == b'*' || c == b'/' || c == b'%') ≡ false =
                ground (arith, e) in
              rw (e1, e2, e3, e4, e5) (lex_operator-Advances c st)
        ]

  choose :
      (st : Scanner) (n : ℕ) (b : Bool) (r r' : Token F × Scanner)
      → Advances n st r
      → Advances n st r'
      → Advances n st (if b then r else r')
  choose st n true r r' h h' = h
  choose st n false r r' h h' = h'

  lex_char-Advances :
      (meta : ℕ → Bool) (c : ℕ) (st : Scanner)
      → Advances (length st.input) st (lex_char print_fd lib meta c st)
  unfolding lex_char
  lex_char-Advances meta c st =
      elim (Bool-cases (not (meta c) || skip_char st.skipdual c st.input)) [
        | inl e ↦
            rw e (free_caret-Advances c st (lex_word lib meta c) (lex_word-le F lib meta c st))
        | inr e ↦ rw e (
            choose st (length st.input) st.numeric (lex_numeric print_fd lib c st)
              (lex_operator print_fd lib c st) (lex_numeric-Advances c st)
              (lex_operator-Advances c st))
      ]

  -- How far the scanner is from the end of its input.
  abbrev pub distance : Scanner → ℕ
  distance st =
      3 * length st.input + (if is_outside st.w then 0 else 1) + (if st.goterror then 1 else 0)

  -- With a character taken, what a function returns is nearer to the end.
  nearer :
      (n : ℕ) (st : Scanner) (r : Token F × Scanner)
      → st.goterror ≡ false
      → length st.input ≡ n
      → Advances n st r
      → distance r.1 < 3 * suc n + (if is_outside st.w then 0 else 1)
  nearer n st r no_error len (inl h) = ground (arith, h)
  nearer n st r no_error len (inr (h0, h1, h2, h3)) = ground (arith, h0, h1, h2, h3, no_error, len)

  bad_escape-nearer :
      (st : Scanner)
      → distance (bad_escape {F = F} none st).1
        < 3 * suc (length st.input) + (if is_outside st.w then 0 else 1)
  unfolding scanerror
  bad_escape-nearer st = ground arith

  backslash-nearer :
      (o : Option ℕ) (st : Scanner)
      → st.goterror ≡ false
      → distance (backslash_at print_fd lib o st).1
        < 3 * suc (length st.input) + (if is_outside st.w then 0 else 1)
  unfolding backslash_at
  backslash-nearer none st no_error = bad_escape-nearer st
  backslash-nearer (some c) st no_error =
      let next = λ (st' : Scanner).
        lex_escape lib c (record st' { w = rw_state; input = rest_of st'.input }) in
      nearer (length st.input) st (free_caret 92 st next) no_error refl (
        free_caret-Advances 92 st next (
          omega (
            arith,
            rest_of-le st.input,
            lex_escape-le F lib c (record st { w = rw_state; input = rest_of st.input }),
          )))

  -- The end of the input is found, or is nearer than `k`.
  abbrev pub Nears : ℕ → Token F × Scanner → Type 0
  Nears k r = (r.0 ≡ endfile) ⊎ (distance r.1 < k)

  choose-Nears :
      (k : ℕ) (b : Bool) (r r' : Token F × Scanner)
      → Nears k r
      → Nears k r'
      → Nears k (if b then r else r')
  choose-Nears k true r r' h h' = h
  choose-Nears k false r r' h h' = h'

  weaken : (k k' : ℕ) (r : Token F × Scanner) → k ≤ k' → Nears k r → Nears k' r
  weaken k k' r le (inl h) = inl h
  weaken k k' r le (inr h) = inr (omega (arith, le, h))

  -- The state and the input after a blank, or after an escaped newline.
  skipped-le : (b : Bool) (s : CString) → length (if b then s else rest_of s) ≤ length s
  skipped-le true s = omega arith
  skipped-le false s = rest_of-le s

  skipped_error :
      (b : Bool) (st : Scanner)
      → st.goterror ≡ false
      → (if b then st else print_prompt2 st).goterror ≡ false
  skipped_error true st h = h
  skipped_error false st h = h

  -- The loop at `top`: where a token is returned that is not ENDFILE, the input is nearer to its end.
  lex_top-Nears :
      (n : ℕ) (meta : ℕ → Bool) (s : CString) (st : Scanner)
      → length s < n
      → st.goterror ≡ false
      → Nears (3 * length s + (if is_outside st.w then 0 else 1)) (lex_top print_fd lib n meta s st)
  unfolding lex_top lex_backslash
  lex_top-Nears zero meta s st h no_error = absurd (omega arith)
  lex_top-Nears (suc n) meta [] st h no_error = inl refl
  lex_top-Nears (suc n) meta (c ∷ s) st h no_error =
      let k = 3 * suc (length s) + (if is_outside st.w then 0 else 1) in
      let blank = c == 32 || c == 9 in
      let s' = if blank then s else rest_of s in
      let st' : Scanner = record (if blank then st else print_prompt2 st) { w = nw_state } in
      let here : Scanner = record st { input = s } in
      choose-Nears k (blank || c == 92 && is_char (first_of s) 10)
        (lex_top print_fd lib n meta s' st') _
        (weaken (3 * length s' + 0) k (lex_top print_fd lib n meta s' st')
          (omega (arith, skipped-le blank s))
          (lex_top-Nears n meta s' st' (omega (arith, skipped-le blank s, h))
            (skipped_error blank st no_error)))
        (choose-Nears k (c == 92) (lex_backslash print_fd lib here)
          (lex_char print_fd lib meta c here) (inr (backslash-nearer (first_of s) here no_error))
          (inr (
            nearer (length s) here (lex_char print_fd lib meta c here) no_error refl
              (lex_char-Advances meta c here))))

  choose_with :
      (k : ℕ) (b : Bool) (r r' : Token F × Scanner)
      → (b ≡ true → Nears k r)
      → (b ≡ false → Nears k r')
      → Nears k (if b then r else r')
  choose_with k true r r' h h' = h refl
  choose_with k false r r' h h' = h' refl

  noted :
      (st : Scanner) → st.goterror ≡ true → distance (record st { goterror = false }) < distance st
  noted st e = ground (arith, e)

  at_top : (st : Scanner) → 3 * length st.input + (if is_outside st.w then 0 else 1) ≤ distance st
  at_top st = ground arith

  -- Each call of `yylex` returns ENDFILE or brings the end of the input nearer: there is less of it,
  -- or the same of it with a caret put in before a word or an error taken note of.
  pub yylex-Nears : (st : Scanner) → Nears (distance st) (yylex print_fd lib st)
  unfolding yylex
  yylex-Nears st =
      let st' : Scanner = record st { newline = false; dollar = false } in
      let r = lex_top print_fd lib (suc (length st.input)) (meta_of print_fd lib st) st.input st' in
      choose_with (distance st) st.goterror (nl, record st { goterror = false }) r
        (λ e. inr (noted st e))
        (λ e.
          weaken (3 * length st.input + (if is_outside st.w then 0 else 1)) (distance st) r
            (at_top st)
            (lex_top-Nears (suc (length st.input)) (meta_of print_fd lib st) st.input st'
              (omega arith) e))
