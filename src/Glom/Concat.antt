-- ===== src/Glom/Concat.antt =====
-- `concat`, `qcat` and `qconcat` of glom.c: every word of one list with every word of another.
use es_shell_mirror.Prelude.{
  ℕ, ◌≡◌, refl, List, [], ◌∷◌, ◌++◌, CString, length, replicate, length-append, length-replicate,
  arith,
}
use es_shell_mirror.Syntax.Tree.{Term, mkstr, getstr}
use es_shell_mirror.Match.Quoting.{Quoting, quoted, unquoted, flags}

-- The flags that a quoting stands for on a word of length `len`: `memset` or `memcpy`.
unfoldable pub fill : Quoting → ℕ → CString
fill quoted len = replicate len b'q'
fill unquoted len = replicate len b'r'
fill (flags q) len = q

module _ {C : Type 0} (show : C → CString) where
  -- `termcat` of two terms that are not NULL.
  unfoldable pub join : Term C → Term C → Term C
  unfolding getstr
  join t1 t2 = mkstr (getstr show t1 ++ getstr show t2)

  -- The inner loop: `t1` with every word of `list2`.
  unfoldable pub concat_one : Term C → List (Term C) → List (Term C)
  concat_one t1 [] = []
  concat_one t1 (t2 ∷ list2) = join t1 t2 ∷ concat_one t1 list2

  unfoldable pub concat : List (Term C) → List (Term C) → List (Term C)
  unfolding concat_one
  concat [] list2 = []
  concat (t1 ∷ list1) list2 = concat_one t1 list2 ++ concat list1 list2

  unfoldable pub qcat : Quoting → Quoting → Term C → Term C → Quoting
  qcat quoted quoted t1 t2 = quoted
  qcat unquoted unquoted t1 t2 = unquoted
  qcat q1 q2 t1 t2 = flags (fill q1 (length (getstr show t1)) ++ fill q2 (length (getstr show t2)))

  unfoldable pub qconcat_one :
      Term C → Quoting → List (Term C) → List Quoting → List (Term C) × List Quoting
  qconcat_one t1 q1 (t2 ∷ list2) (q2 ∷ ql2) =
      let (list, ql) = qconcat_one t1 q1 list2 ql2 in (join t1 t2 ∷ list, qcat q1 q2 t1 t2 ∷ ql)
  qconcat_one t1 q1 list2 ql2 = ([], [])

  -- The lists of quotings are as long as the lists of words.
  unfoldable pub qconcat :
      List (Term C) → List (Term C) → List Quoting → List Quoting → List (Term C) × List Quoting
  qconcat (t1 ∷ list1) list2 (q1 ∷ ql1) ql2 =
      let (list, ql) = qconcat_one t1 q1 list2 ql2 in
      let (rest, qrest) = qconcat list1 list2 ql1 ql2 in (list ++ rest, ql ++ qrest)
  qconcat list1 list2 ql1 ql2 = ([], [])

  -- What `glob` asserts: a string of flags is as long as its word.
  abbrev pub Fits : Term C → Quoting → Type 0
  Fits t quoted = Unit
  Fits t unquoted = Unit
  Fits t (flags q) = length q ≡ length (getstr show t)

  -- There is a fitting quoting for each word.
  abbrev pub IsQuoted : List (Term C) → List Quoting → Type 0
  IsQuoted [] [] = Unit
  IsQuoted (t ∷ list) (q ∷ ql) = Fits t q × IsQuoted list ql
  IsQuoted list ql = ⊥

  fill-length :
      (t : Term C) (q : Quoting)
      → Fits t q
      → length (fill q (length (getstr show t))) ≡ length (getstr show t)
  unfolding fill
  fill-length t quoted h = length-replicate (length (getstr show t)) b'q'
  fill-length t unquoted h = length-replicate (length (getstr show t)) b'r'
  fill-length t (flags q) h = h

  joined :
      (t1 t2 : Term C) (q1 q2 : Quoting)
      → Fits t1 q1
      → Fits t2 q2
      → length (fill q1 (length (getstr show t1)) ++ fill q2 (length (getstr show t2)))
        ≡ length (getstr show (join t1 t2))
  unfolding join
  joined t1 t2 q1 q2 h1 h2 = omega (
    arith,
    length-append (fill q1 (length (getstr show t1))) (fill q2 (length (getstr show t2))),
    length-append (getstr show t1) (getstr show t2),
    fill-length t1 q1 h1,
    fill-length t2 q2 h2,
  )

  pub qcat-Fits :
      (t1 t2 : Term C) (q1 q2 : Quoting)
      → Fits t1 q1
      → Fits t2 q2
      → Fits (join t1 t2) (qcat q1 q2 t1 t2)
  unfolding qcat
  qcat-Fits t1 t2 quoted quoted h1 h2 = tt
  qcat-Fits t1 t2 quoted unquoted h1 h2 = joined t1 t2 quoted unquoted h1 h2
  qcat-Fits t1 t2 quoted (flags q2) h1 h2 = joined t1 t2 quoted (flags q2) h1 h2
  qcat-Fits t1 t2 unquoted quoted h1 h2 = joined t1 t2 unquoted quoted h1 h2
  qcat-Fits t1 t2 unquoted unquoted h1 h2 = tt
  qcat-Fits t1 t2 unquoted (flags q2) h1 h2 = joined t1 t2 unquoted (flags q2) h1 h2
  qcat-Fits t1 t2 (flags q1) quoted h1 h2 = joined t1 t2 (flags q1) quoted h1 h2
  qcat-Fits t1 t2 (flags q1) unquoted h1 h2 = joined t1 t2 (flags q1) unquoted h1 h2
  qcat-Fits t1 t2 (flags q1) (flags q2) h1 h2 = joined t1 t2 (flags q1) (flags q2) h1 h2

  pub IsQuoted-append :
      (list list' : List (Term C)) (ql ql' : List Quoting)
      → IsQuoted list ql
      → IsQuoted list' ql'
      → IsQuoted (list ++ list') (ql ++ ql')
  IsQuoted-append [] list' [] ql' h0 w = w
  IsQuoted-append [] list' (q ∷ ql) ql' h0 w = elim h0 [ ]
  IsQuoted-append (t ∷ list) list' [] ql' h0 w = elim h0 [ ]
  IsQuoted-append (t ∷ list) list' (q ∷ ql) ql' (f, v) w =
      (f, IsQuoted-append list list' ql ql' v w)

  pub qconcat_one-IsQuoted :
      (t1 : Term C) (q1 : Quoting) (list2 : List (Term C)) (ql2 : List Quoting)
      → Fits t1 q1
      → IsQuoted list2 ql2
      → IsQuoted (qconcat_one t1 q1 list2 ql2).0 (qconcat_one t1 q1 list2 ql2).1
  unfolding qconcat_one
  qconcat_one-IsQuoted t1 q1 [] [] h h0 = h0
  qconcat_one-IsQuoted t1 q1 [] (q2 ∷ ql2) h h0 = elim h0 [ ]
  qconcat_one-IsQuoted t1 q1 (t2 ∷ list2) [] h h0 = elim h0 [ ]
  qconcat_one-IsQuoted t1 q1 (t2 ∷ list2) (q2 ∷ ql2) h (f, v) =
      (qcat-Fits t1 t2 q1 q2 h f, qconcat_one-IsQuoted t1 q1 list2 ql2 h v)

  -- The strings of flags that `qconcat` makes are as long as the words.
  pub qconcat-IsQuoted :
      (list1 list2 : List (Term C)) (ql1 ql2 : List Quoting)
      → IsQuoted list1 ql1
      → IsQuoted list2 ql2
      → IsQuoted (qconcat list1 list2 ql1 ql2).0 (qconcat list1 list2 ql1 ql2).1
  unfolding qconcat
  qconcat-IsQuoted [] list2 [] ql2 h0 w = tt
  qconcat-IsQuoted [] list2 (q1 ∷ ql1) ql2 h0 w = elim h0 [ ]
  qconcat-IsQuoted (t1 ∷ list1) list2 [] ql2 h0 w = elim h0 [ ]
  qconcat-IsQuoted (t1 ∷ list1) list2 (q1 ∷ ql1) ql2 (f, v) w =
      IsQuoted-append (qconcat_one t1 q1 list2 ql2).0 (qconcat list1 list2 ql1 ql2).0
        (qconcat_one t1 q1 list2 ql2).1 (qconcat list1 list2 ql1 ql2).1
        (qconcat_one-IsQuoted t1 q1 list2 ql2 f w) (qconcat-IsQuoted list1 list2 ql1 ql2 v w)

  concat_one-words :
      (t1 : Term C) (q1 : Quoting) (list2 : List (Term C)) (ql2 : List Quoting)
      → IsQuoted list2 ql2
      → (qconcat_one t1 q1 list2 ql2).0 ≡ concat_one t1 list2
  unfolding qconcat_one concat_one
  concat_one-words t1 q1 [] [] h0 = refl
  concat_one-words t1 q1 [] (q2 ∷ ql2) h0 = elim h0 [ ]
  concat_one-words t1 q1 (t2 ∷ list2) [] h0 = elim h0 [ ]
  concat_one-words t1 q1 (t2 ∷ list2) (q2 ∷ ql2) (f, v) =
      rw (concat_one-words t1 q1 list2 ql2 v) refl

  -- The words of `qconcat` are those of `concat`, where the quotings fit.
  pub qconcat-words :
      (list1 list2 : List (Term C)) (ql1 ql2 : List Quoting)
      → IsQuoted list1 ql1
      → IsQuoted list2 ql2
      → (qconcat list1 list2 ql1 ql2).0 ≡ concat list1 list2
  unfolding qconcat concat
  qconcat-words [] list2 [] ql2 h0 w = refl
  qconcat-words [] list2 (q1 ∷ ql1) ql2 h0 w = elim h0 [ ]
  qconcat-words (t1 ∷ list1) list2 [] ql2 h0 w = elim h0 [ ]
  qconcat-words (t1 ∷ list1) list2 (q1 ∷ ql1) ql2 (f, v) w =
      rw (concat_one-words t1 q1 list2 ql2 w, qconcat-words list1 list2 ql1 ql2 v w) refl
