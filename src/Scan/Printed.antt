-- ===== src/Scan/Printed.antt =====
-- What `%S` of conv.c prints is read back by `yylex`.
use es_shell_mirror.Prelude.{
  ℕ, ◌≡◌, refl, sym, ◌∙◌, ap, Bool, true, false, not, ◌&&◌, ◌||◌, ◌⊎◌, inl, inr, [], ◌∷◌, ◌++◌,
  CString, none, ◌==◌, arith, Bool-cases, ==→eq, append_assoc, is_nil,
}
use es_shell_mirror.Conv.Quote.{
  QuoteState, begin_state, quoted_state, quote_loop, needs_quotes, sconv, quoted_byte, before_char,
}
use es_shell_mirror.Scan.State.{
  Scanner, nw_state, Token, word_token, qword_token, first_of, is_char, nw,
}
use es_shell_mirror.Scan.Words.{
  Quoted, quoted_loop, quoted_char, gather, keyword, Numerals, lex_quoted, lex_word, free_caret,
}
use es_shell_mirror.Scan.Lex.{yylex, lex_top, lex_char, lex_operator, lex_special}

abbrev all_print : (ℕ → Bool) → CString → Bool
all_print isprint [] = true
all_print isprint (c ∷ s) = isprint c && all_print isprint s

-- A word of printing bytes between quotes.
abbrev whole : CString → CString → Quoted
whole s t = record { text = s; after = t; lines = 0; ended = true }

-- The closing quote, where no other follows.
close : (t : CString) → is_char (first_of t) 39 ≡ false → quoted_loop (39 ∷ t) ≡ whole [] t
unfolding quoted_loop
close [] h = refl
close (d ∷ t) h = rw (h, quoted_loop) refl

quoted_loop-char :
    (c : ℕ) (u : CString) → (c == 39) ≡ false → quoted_loop (c ∷ u) ≡ quoted_char c (quoted_loop u)
unfolding quoted_loop
quoted_loop-char c [] h = rw (h, quoted_loop) refl
quoted_loop-char c (d ∷ u) h = rw (h, quoted_loop) refl

quoted_loop-byte :
    (c : ℕ) (u : CString) → quoted_loop (quoted_byte c ++ u) ≡ quoted_char c (quoted_loop u)
unfolding quoted_loop
quoted_loop-byte c u = elim (Bool-cases (c == 39)) [
  | inl e ↦ let is : c ≡ 39 = ==→eq c 39 e in rw is refl
  | inr e ↦ rw e (quoted_loop-char c u e)
]

quoted_char-whole :
    (c : ℕ) (s t : CString) → (c == 10) ≡ false → quoted_char c (whole s t) ≡ whole (c ∷ s) t
quoted_char-whole c s t h = rw h refl

module _ (isprint : ℕ → Bool) (no_newline : isprint 10 ≡ false) where
  quote_loop-print :
      (st : QuoteState) (c : ℕ) (s : CString)
      → isprint c ≡ true
      → quote_loop isprint st (c ∷ s)
        ≡ before_char st ++ quoted_byte c ++ quote_loop isprint quoted_state s
  unfolding quote_loop
  quote_loop-print st c s h = rw (h, quote_loop) refl

  prints : (c : ℕ) → isprint c ≡ true → (c == 10) ≡ false
  prints c h = elim (Bool-cases (c == 10)) [
    | inl e ↦ ground (arith, ap isprint (==→eq c 10 e))
    | inr e ↦ e
  ]

  -- Inside the quotes.
  body :
      (s t : CString)
      → all_print isprint s ≡ true
      → is_char (first_of t) 39 ≡ false
      → quoted_loop (quote_loop isprint quoted_state s ++ t) ≡ whole s t
  body [] t h h' = unfold quote_loop in close t h'
  body (c ∷ s) t h h' =
      let print_c : isprint c ≡ true = ground (arith, h) in
      ap (λ l. quoted_loop (l ++ t)) (quote_loop-print quoted_state c s print_c)
      ∙ ap quoted_loop (append_assoc (quoted_byte c) (quote_loop isprint quoted_state s) t)
      ∙ quoted_loop-byte c (quote_loop isprint quoted_state s ++ t)
      ∙ ap (quoted_char c) (body s t (ground (arith, h)) h')
      ∙ quoted_char-whole c s t (prints c print_c)

  -- The whole: a quote, and what is inside.
  quoted_whole :
      (s t : CString)
      → is_nil s ≡ false
      → all_print isprint s ≡ true
      → quote_loop isprint begin_state s ++ t ≡ 39 ∷ (quote_loop isprint quoted_state s ++ t)
  quoted_whole [] t h h' = cc
  quoted_whole (c ∷ s) t h h' =
      let print_c : isprint c ≡ true = ground (arith, h') in
      ap (λ l. l ++ t)
        (quote_loop-print begin_state c s print_c
          ∙ ap (λ l. 39 ∷ l) (sym (quote_loop-print quoted_state c s print_c)))

-- What may follow a word: the end, or a character that ends it whatever the state; no quote.
abbrev pub Ends : CString → Type 0
Ends [] = Unit
Ends (c ∷ t) = (nw c ≡ true) × ((c == b'=') ≡ false) × ((c == 39) ≡ false)

Ends-quote : (t : CString) → Ends t → is_char (first_of t) 39 ≡ false
Ends-quote [] h = refl
Ends-quote (c ∷ t) h = h.2

plain_char :
    (c : ℕ) (s : CString) → needs_quotes (c ∷ s) ≡ false → (nw c ≡ false) × (needs_quotes s ≡ false)
unfolding needs_quotes
plain_char c s h = ground arith

gather-end :
    (skipeq : Bool) (c : ℕ) (t : CString) → Ends (c ∷ t) → gather nw skipeq (c ∷ t) ≡ ([], c ∷ t)
unfolding gather
gather-end true c t h = rw (h.0, h.1, gather) refl
gather-end false c t h = rw (h.0, gather) refl

gather-more :
    (skipeq : Bool) (c : ℕ) (s : CString)
    → nw c ≡ false
    → gather nw skipeq (c ∷ s) ≡ (c ∷ (gather nw skipeq s).0, (gather nw skipeq s).1)
unfolding gather
gather-more skipeq c s h = rw (h, gather) refl

gather-all :
    (skipeq : Bool) (s t : CString)
    → needs_quotes s ≡ false
    → Ends t
    → gather nw skipeq (s ++ t) ≡ (s, t)
gather-all skipeq [] [] h ends = unfold gather in refl
gather-all skipeq [] (c ∷ t) h ends = gather-end skipeq c t ends
gather-all skipeq (c ∷ s) t h ends =
    let (plain, rest) = plain_char c s h in
    gather-more skipeq c (s ++ t) plain ∙ ap (λ p. (c ∷ p.0, p.1)) (gather-all skipeq s t rest ends)

-- Nothing of the words that hold up `yylex` is a plain character.
not_special : (c : ℕ) → nw c ≡ false → ((c == 32 || c == 9) ≡ false) × ((c == 92) ≡ false)
unfolding nw
not_special c h = ground arith

nw_quote : nw 39 ≡ true
unfolding nw
nw_quote = refl

skip_none : (b x : Bool) → (b && false && x) ≡ false
skip_none true x = refl
skip_none false x = refl

module _ (isprint : ℕ → Bool) (altform : Bool) (s : CString) where
  sconv-quoted :
      (altform || is_nil s || needs_quotes s) ≡ true
      → sconv isprint altform s ≡ quote_loop isprint begin_state s
  unfolding sconv
  sconv-quoted e = rw e refl

  sconv-plain : (altform || is_nil s || needs_quotes s) ≡ false → sconv isprint altform s ≡ s
  unfolding sconv
  sconv-plain e = rw e refl

-- The scanner at the start of a word: no word before, no error, and neither a number nor the name of a
-- variable expected.
abbrev pub ready : Scanner → CString → Scanner
ready st s = record st {
  w = nw_state;
  numeric = false;
  goterror = false;
  dollar = false;
  input = s;
}

module _ {F : Type 0} (print_fd : ℕ → CString) (lib : Numerals F) where
  -- One token that holds the string, and nothing of the rest is read.
  abbrev pub ReadAs : Token F × Scanner → CString → CString → Type 0
  ReadAs r s t = (r.0 ≡ word_token s ⊎ r.0 ≡ qword_token s) × (r.1.input ≡ t)

  quoted-ReadAs :
      (st : Scanner) (u s t : CString)
      → quoted_loop u ≡ whole s t
      → ReadAs (yylex print_fd lib (ready st (39 ∷ u))) s t
  unfolding yylex lex_top lex_char lex_operator lex_special free_caret lex_word lex_quoted
  quoted-ReadAs st u s t e =
      rw (e, nw_quote, skip_none st.skipdual (not (is_char (first_of u) b'>'))) (inr refl, refl)

  word-ReadAs :
      (st : Scanner) (c : ℕ) (s t : CString)
      → needs_quotes (c ∷ s) ≡ false
      → Ends t
      → keyword {F = F} (c ∷ s) ≡ none
      → ReadAs (yylex print_fd lib (ready st (c ∷ s ++ t))) (c ∷ s) t
  unfolding yylex lex_top lex_char lex_operator lex_special free_caret lex_word lex_quoted
  word-ReadAs st c s t plain ends no_key =
      let (plain_c, rest) = plain_char c s plain in
      let (not_blank, not_backslash) = not_special c plain_c in
      rw (not_blank, not_backslash, plain_c, gather-all st.skipequals s t rest ends, no_key)
        (inl refl, refl)

  -- What `%S`, or `%#S`, prints of a string whose bytes print is read back, at the start of a word
  -- where no error is pending and neither a number nor the name of a variable is expected, as one
  -- token that holds the string, and nothing behind it is read; if a newline does not print, the
  -- string is not empty and no keyword, and what follows is the end of the input or a character that
  -- ends a word, but no equals sign and no quote.
  pub yylex-sconv :
      (isprint : ℕ → Bool) (altform : Bool) (st : Scanner) (s t : CString)
      → isprint 10 ≡ false
      → all_print isprint s ≡ true
      → is_nil s ≡ false
      → keyword {F = F} s ≡ none
      → Ends t
      → ReadAs (yylex print_fd lib (ready st (sconv isprint altform s ++ t))) s t
  yylex-sconv isprint altform st [] t no_newline all some_s no_key ends = cc
  yylex-sconv isprint altform st (c ∷ s) t no_newline all some_s no_key ends =
      elim (Bool-cases (altform || is_nil (c ∷ s) || needs_quotes (c ∷ s))) [
        | inl e ↦
            rw
              (
                sconv-quoted isprint altform (c ∷ s) e,
                quoted_whole isprint no_newline (c ∷ s) t refl all,
              )
              (quoted-ReadAs st (quote_loop isprint quoted_state (c ∷ s) ++ t) (c ∷ s) t
                (body isprint no_newline (c ∷ s) t all (Ends-quote t ends)))
        | inr e ↦
            rw (sconv-plain isprint altform (c ∷ s) e)
              (word-ReadAs st c s t (ground (arith, e)) ends no_key)
      ]
