-- ===== src/Heredoc/Quoted.antt =====
-- A here document with a quoted marker is the text of its lines.
use es_shell_mirror.Prelude.{
  ℕ, zero, suc, ◌<◌, ◌≤◌, ◌≡◌, refl, sym, ap, ◌∙◌, Bool, true, false, ◌&&◌, List, [], ◌∷◌, ◌++◌,
  CString, Bool-cases, inl, inr, ◌==◌, is_nil, length, streq, arith, append_assoc, append-nil,
  length-append,
}
use es_shell_mirror.Syntax.Tree.{Tree, n_qword}
use es_shell_mirror.Heredoc.Snarf.{
  Snarfed, snarfed, Compared, compare_marker, is_line_end, here_line, here_lines, has_line_end,
  snarfheredoc,
}

-- Lines with their ends.
abbrev pub joined : List CString → CString
joined [] = []
joined (line ∷ lines) = line ++ 10 ∷ joined lines

-- Lines without a newline in them, none of them the marker.
abbrev pub AllOther : CString → List CString → Type 0
AllOther eof [] = Unit
AllOther eof (line ∷ lines) =
    (has_line_end line ≡ false) × (streq eof line ≡ false) × AllOther eof lines

no_end :
    (c : ℕ) (s : CString)
    → has_line_end (c ∷ s) ≡ false
    → ((c == 10) ≡ false) × (has_line_end s ≡ false)
unfolding has_line_end
no_end c s h = elim (Bool-cases (c == 10)) [
  | inl e ↦ ground (arith, h, e)
  | inr e ↦ ground (arith, h, e)
]

compare_self :
    (eof s : CString)
    → compare_marker eof (eof ++ 10 ∷ s) ≡ (record { matched = eof; left = []; input = 10 ∷ s })
unfolding compare_marker
compare_self [] s = refl
compare_self (e ∷ eof) s =
    let same : (e == e) ≡ true = ground arith in rw (same, compare_self eof s) refl

-- Where a line is not the marker, its characters are those that were compared and what is left of it.
abbrev Differs : CString → CString → Compared → Type 0
Differs line more r =
    (u : CString) × (line ≡ r.matched ++ u)
    × (r.input ≡ u ++ 10 ∷ more)
    × (has_line_end u ≡ false)
    × ((is_nil r.left && is_line_end r.input) ≡ false)

compare-Differs :
    (eof line more : CString)
    → has_line_end eof ≡ false
    → has_line_end line ≡ false
    → streq eof line ≡ false
    → Differs line more (compare_marker eof (line ++ 10 ∷ more))
unfolding compare_marker streq
compare-Differs [] [] more h h' differ = cc
compare-Differs [] (c ∷ line) more h h' differ = (c ∷ line, refl, refl, h', (no_end c line h').0)
compare-Differs (e ∷ eof) [] more h h' differ =
    let other : (10 == e) ≡ false = ground (arith, (no_end e eof h).0) in
    rw other ([], refl, refl, h', refl)
compare-Differs (e ∷ eof) (c ∷ line) more h h' differ = elim (Bool-cases (c == e)) [
  | inl same ↦
      let (u, parts, input_is, no_u, goes_on) =
        compare-Differs eof line more (no_end e eof h).1 (no_end c line h').1
          (ground (arith, differ, same)) in
      rw same (u, ap (λ l. c ∷ l) parts, input_is, no_u, goes_on)
  | inr other ↦ rw other (c ∷ line, refl, refl, h', refl)
]

and_false : (b : Bool) → (b && false) ≡ false
and_false true = refl
and_false false = refl

lines-le : (lines : List CString) → length lines ≤ length (joined lines)
lines-le [] = omega arith
lines-le (line ∷ lines) = omega (arith, lines-le lines, length-append line (10 ∷ joined lines))

module _ {F : Type 0} (eof : CString) where
  here_line-text :
      (n : ℕ) (next : List (Tree F) → CString → CString → Snarfed F) (trees : List (Tree F))
      (buf u more : CString)
      → length u < n
      → has_line_end u ≡ false
      → here_line eof true n next trees buf (u ++ 10 ∷ more)
        ≡ next trees (buf ++ (u ++ 10 ∷ [])) more
  unfolding here_line
  here_line-text zero next trees buf u more enough h = absurd (omega arith)
  here_line-text (suc n) next trees buf [] more enough h = refl
  here_line-text (suc n) next trees buf (c ∷ u) more enough h =
      let (not_end, h') = no_end c u h in
      rw (and_false (c == b'$'), not_end)
        (here_line-text n next trees (buf ++ c ∷ []) u more (omega (arith, enough)) h'
          ∙ ap (λ l. next trees l more) (append_assoc buf (c ∷ []) (u ++ 10 ∷ [])))

  here_lines-line :
      (n : ℕ) (line buf more : CString)
      → has_line_end eof ≡ false
      → has_line_end line ≡ false
      → streq eof line ≡ false
      → here_lines {F = F} eof true (suc n) [] buf (line ++ 10 ∷ more)
        ≡ here_lines eof true n [] (buf ++ (line ++ 10 ∷ [])) more
  unfolding here_lines
  here_lines-line n line buf more h no_end_in differs =
      let r = compare_marker eof (line ++ 10 ∷ more) in
      let (u, parts, input_is, no_u, goes_on) = compare-Differs eof line more h no_end_in differs in
      let after = here_lines {F = F} eof true n in
      let text : (buf ++ r.matched) ++ (u ++ 10 ∷ []) ≡ buf ++ (line ++ 10 ∷ []) =
        append_assoc buf r.matched (u ++ 10 ∷ [])
        ∙ ap (λ l. buf ++ l)
            (sym (append_assoc r.matched u (10 ∷ [])) ∙ ap (λ l. l ++ 10 ∷ []) (sym parts)) in
      let fits : length u < suc (length (line ++ 10 ∷ more)) =
        omega (arith, length-append r.matched u, ap length parts, length-append line (10 ∷ more)) in
      rw goes_on (
        ap (here_line eof true (suc (length (line ++ 10 ∷ more))) after [] (buf ++ r.matched))
          input_is
        ∙ here_line-text (suc (length (line ++ 10 ∷ more))) after [] (buf ++ r.matched) u more fits
            no_u
        ∙ ap (λ l. after [] l more) text)

  here_lines-text :
      (n : ℕ) (lines : List CString) (buf rest : CString)
      → length lines < n
      → has_line_end eof ≡ false
      → AllOther eof lines
      → here_lines {F = F} eof true n [] buf (joined lines ++ (eof ++ 10 ∷ rest))
        ≡ snarfed (n_qword (buf ++ joined lines) ∷ []) rest
  unfolding here_lines
  here_lines-text zero lines buf rest enough h others = absurd (omega arith)
  here_lines-text (suc n) [] buf rest enough h others =
      rw (compare_self eof rest, append-nil buf) refl
  here_lines-text (suc n) (line ∷ lines) buf rest enough h (no_end_in, differs, others) =
      let more = joined lines ++ (eof ++ 10 ∷ rest) in
      let after = buf ++ (line ++ 10 ∷ []) in
      ap (here_lines eof true (suc n) [] buf)
        (append_assoc line (10 ∷ joined lines) (eof ++ 10 ∷ rest))
      ∙ here_lines-line n line buf more h no_end_in differs
      ∙ here_lines-text n lines after rest (omega (arith, enough)) h others
      ∙ ap (λ l. snarfed (n_qword l ∷ []) rest)
          (append_assoc buf (line ++ 10 ∷ []) (joined lines)
            ∙ ap (λ l. buf ++ l) (append_assoc line (10 ∷ []) (joined lines)))

  -- A here document whose marker is quoted, and has no newline, is one word: its lines, with their
  -- ends, up to the first line that is the marker; and what follows that line is not read.
  pub snarfheredoc-joined :
      (lines : List CString) (rest : CString)
      → has_line_end eof ≡ false
      → AllOther eof lines
      → snarfheredoc {F = F} eof true (joined lines ++ (eof ++ 10 ∷ rest))
        ≡ snarfed (n_qword (joined lines) ∷ []) rest
  unfolding snarfheredoc
  snarfheredoc-joined lines rest h others =
      let s = joined lines ++ (eof ++ 10 ∷ rest) in
      rw h (
        here_lines-text (suc (length s)) lines [] rest
          (omega (arith, lines-le lines, length-append (joined lines) (eof ++ 10 ∷ rest))) h others)
