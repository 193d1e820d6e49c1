-- ===== src/Glob/Expand.antt =====
-- `dirmatch`, `listglob`, `glob1`, `glob0` and `glob` of glob.c. The file system and `qsort` are
-- parameters, and words are strings, since a closure is not globbed.
use es_shell_mirror.Prelude.{
  ℕ, zero, suc, Bool, true, false, not, ◌&&◌, ◌||◌, List, [], ◌∷◌, ◌++◌, CString, codes, ◌==◌,
  head_byte, if◌then◌else◌, replicate, length, Option, none, some,
}
use es_shell_mirror.Match.Quoting.{Quoting, quoted, flags}
use es_shell_mirror.Match.Word.{match}
use es_shell_mirror.Match.Wild.{haswild, ishiddenfile}
use es_shell_mirror.ListOps

-- What the calls of the system say: `stat` with the test for a directory, `lstat`, and the names
-- that `readdir` gives, none if the directory does not open; and what `qsort` does to strings.
pub record Files : Type 0 where
  pub is_directory : CString → Bool
  pub exists_file : CString → Bool
  pub entries : CString → Option (List CString)
  pub qsort : List CString → List CString

-- Bytes up to a slash, with their flags, and what follows.
unfoldable pub component : CString → CString → (CString × CString) × (CString × CString)
component [] q = (([], []), ([], q))
component (c ∷ s) [] = (([], []), (c ∷ s, []))
component (c ∷ s) (r ∷ q) =
    let (got, rest) = component s q in
    if c == b'/' then (([], []), (c ∷ s, r ∷ q)) else ((c ∷ got.0, r ∷ got.1), rest)

-- The slashes, with their flags, and what follows.
unfoldable pub slashes : CString → CString → (CString × CString) × (CString × CString)
slashes [] q = (([], []), ([], q))
slashes (c ∷ s) [] = (([], []), (c ∷ s, []))
slashes (c ∷ s) (r ∷ q) =
    let (got, rest) = slashes s q in
    if c == b'/' then ((c ∷ got.0, r ∷ got.1), rest) else (([], []), (c ∷ s, r ∷ q))

module _ (fs : Files) where
  -- The names that match, with the prefix.
  unfoldable pub matching_names : CString → List CString → CString → Quoting → List CString
  unfolding ishiddenfile
  matching_names prefix [] pattern qlist = []
  matching_names prefix (name ∷ names) pattern qlist =
      let rest = matching_names prefix names pattern qlist in
      if match name pattern qlist && (not (ishiddenfile name) || head_byte pattern == b'.')
      then (prefix ++ name) ∷ rest
      else rest

  abbrev pub names_of : CString → Option (List CString) → CString → Quoting → List CString
  names_of prefix none pattern qlist = []
  names_of prefix (some names) pattern qlist = matching_names prefix names pattern qlist

  unfoldable pub dirmatch : CString → CString → CString → Quoting → List CString
  unfolding matching_names
  dirmatch prefix dirname pattern qlist =
      if not (fs.is_directory dirname)
      then []
      else if not (haswild pattern qlist)
      then (if fs.exists_file (prefix ++ pattern) then (prefix ++ pattern) ∷ [] else [])
      else names_of prefix (fs.entries dirname) pattern qlist

  unfoldable pub listglob : List CString → CString → Quoting → ℕ → List CString
  unfolding dirmatch
  listglob [] pattern qlist slashcount = []
  listglob (dir ∷ list) pattern qlist slashcount =
      dirmatch (dir ++ replicate slashcount b'/') dir pattern qlist
      ++ listglob list pattern qlist slashcount

  -- The loop over the components. Each round takes at least a byte.
  unfoldable pub glob1_loop : ℕ → CString → CString → List CString → List CString
  unfolding slashes component listglob
  glob1_loop zero s q matched = matched
  glob1_loop (suc n) s q matched =
      let (skipped, after) = slashes s q in
      let (pat, rest) = component after.0 after.1 in
      let matched' = listglob matched pat.0 (flags pat.1) (length skipped.0) in
      let more = glob1_loop n rest.0 rest.1 matched' in
      elim matched' [ [] ↦ [] | m ∷ ms ↦ elim rest.0 [ [] ↦ m ∷ ms | c ∷ s' ↦ more ] ]

  -- "get first directory component", the leading slashes if there are some.
  abbrev pub first_component : CString → CString → (CString × CString) × (CString × CString)
  first_component s q = if head_byte s == b'/' then slashes s q else component s q

  abbrev pub flags_of : CString → Quoting → CString
  flags_of pattern (flags q) = q
  flags_of pattern q = replicate (length pattern) b'r'

  -- With no slash the current directory is read.
  unfoldable pub glob1 : CString → Quoting → List CString
  unfolding slashes component glob1_loop dirmatch
  glob1 pattern qlist =
      let (dir, rest) = first_component pattern (flags_of pattern qlist) in
      let here = dirmatch [] (codes ".") dir.0 (flags dir.1) in
      elim rest.0 [
        | [] ↦ here
        | c ∷ s ↦
            glob1_loop (length (c ∷ s)) (c ∷ s) rest.1
              (if head_byte pattern == b'/' then dir.0 ∷ [] else here)
      ]

  -- `sortlist` of list.c, on strings: `vectorize`, `sortvector` and `listify` of vec.c.
  unfoldable pub sortlist : List CString → List CString
  unfolding ListOps.length
  sortlist [] = []
  sortlist (s ∷ []) = s ∷ []
  sortlist (s ∷ t ∷ list) = fs.qsort (s ∷ t ∷ list)

  -- One word: itself where nothing matches.
  unfoldable pub glob_word : CString → Quoting → List CString
  unfolding glob1 sortlist
  glob_word s quoted = s ∷ []
  glob_word s q =
      if haswild s q then elim (glob1 s q) [ [] ↦ s ∷ [] | x ∷ xs ↦ sortlist (x ∷ xs) ] else s ∷ []

  unfoldable pub glob0 : List CString → List Quoting → List CString
  unfolding glob_word
  glob0 (s ∷ list) (q ∷ qlist) = glob_word s q ++ glob0 list qlist
  glob0 list qlist = []

  -- Whether a word is to be globbed.
  unfoldable pub some_wild : List CString → List Quoting → Bool
  some_wild (s ∷ list) (q ∷ qlist) = if haswild s q then true else some_wild list qlist
  some_wild list qlist = false

  -- The last part of `glob`, after the tildes.
  unfoldable pub glob_words : List CString → List Quoting → List CString
  unfolding some_wild glob0
  glob_words list qlist = if some_wild list qlist then glob0 list qlist else list
