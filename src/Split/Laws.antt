-- ===== src/Split/Laws.antt =====
-- The results of `fsplit` and `bqinput`.
use mathlib.Core.List
use mathlib.Core.Path.{fun_ext}
use es_shell_mirror.Prelude.{
  ℕ, ◌≡◌, refl, sym, ◌∙◌, ap, Bool, true, false, not, ◌&&◌, ◌||◌, Option, none, some, List, [], ◌∷◌,
  ◌++◌, CString, ◌==◌, if◌then◌else◌, is_nil, streq, streq→eq, arith, Bool-cases, inl, inr,
  append-nil, append_assoc, &&-true,
}
use es_shell_mirror.ListOps.{reverse, reverse-eq}
use es_shell_mirror.Split.State.{
  SplitState, mark_ifs, set_ifs, startsplit, splitstring, endsplit, fsplit_loop, fsplit,
  bqinput_loop, bqinput, open_buffer,
}
use es_shell_mirror.Split.Fields.{
  split_fields, nonempty, contains, is_separator, run, run-append, finish, with_words,
  splitstring-run, closed, pending, closed-run_all, closed-run_words, prepend-nil,
}

-- The table of separators that is remembered is the one of the string that is remembered.
abbrev pub IsCached : SplitState → Type 0
IsCached st = st.ifsvalid ≡ true → st.isifs ≡ is_separator st.ifs

mark_ifs-contains :
    (t : ℕ → Bool) (sep : CString) (x : ℕ) → mark_ifs t sep x ≡ (contains sep x || t x)
unfolding mark_ifs contains
mark_ifs-contains t [] x = refl
mark_ifs-contains t (c ∷ sep) x =
    ground (arith, mark_ifs-contains (λ y. if y == c then true else t y) sep x)

mark_ifs-eq : (sep : CString) → mark_ifs (λ c. c == 0) sep ≡ is_separator sep
unfolding is_separator
mark_ifs-eq sep = fun_ext (mark_ifs-contains (λ c. c == 0) sep)

isifs-set_ifs :
    (sep : CString) (st : SplitState) → IsCached st → (set_ifs sep st).isifs ≡ is_separator sep
unfolding set_ifs
isifs-set_ifs sep st cached = elim (Bool-cases (st.ifsvalid && streq sep st.ifs)) [
  | inl same ↦
      let (valid, eq) = &&-true st.ifsvalid (streq sep st.ifs) same in
      rw same (cached valid ∙ ap is_separator (sym (streq→eq sep st.ifs eq)))
  | inr new ↦ rw new (mark_ifs-eq sep)
]

set_ifs_keeps :
    (sep : CString) (st : SplitState)
    → ((set_ifs sep st).coalesce ≡ st.coalesce)
      × ((set_ifs sep st).splitchars ≡ st.splitchars)
      × ((set_ifs sep st).buffer ≡ st.buffer)
      × ((set_ifs sep st).value ≡ st.value)
unfolding set_ifs
set_ifs_keeps sep st = ground arith

-- What `startsplit` sets up, whatever the calls before it left.
pub startsplit_lem :
    (sep : CString) (coalesce : Bool) (st : SplitState)
    → IsCached st
    → ((startsplit sep coalesce st).isifs ≡ is_separator sep)
      × ((startsplit sep coalesce st).coalesce ≡ coalesce)
      × ((startsplit sep coalesce st).splitchars ≡ (not coalesce && is_nil sep))
      × ((startsplit sep coalesce st).buffer ≡ none)
      × ((startsplit sep coalesce st).value ≡ [])
unfolding startsplit
startsplit_lem sep coalesce st cached =
    let st' : SplitState = record st {
      coalesce = coalesce;
      splitchars = not coalesce && is_nil sep;
      buffer = none;
      value = [];
    } in
    let (co, chars, buf, val) = set_ifs_keeps sep st' in
    (isifs-set_ifs sep st' cached, co, chars, buf, val)

-- The remembered table stays the one of the remembered separators.
pub startsplit-IsCached :
    (sep : CString) (coalesce : Bool) (st : SplitState)
    → IsCached st
    → IsCached (startsplit sep coalesce st)
unfolding startsplit set_ifs
startsplit-IsCached sep coalesce st cached = elim (Bool-cases (st.ifsvalid && streq sep st.ifs)) [
  | inl same ↦ rw same cached
  | inr new ↦ rw new λ fits. rw fits (mark_ifs-eq sep)
]

finish-false : (x : Option CString × List CString) → finish false x ≡ x
unfolding finish
finish-false (none, v) = refl
finish-false (some b, v) = refl

-- The chunks, one after the other.
abbrev pub flatten : List CString → CString
flatten [] = []
flatten (c ∷ chunks) = c ++ flatten chunks

open_buffer-coalesce : (buf : Option CString) → open_buffer true buf ≡ buf
unfolding open_buffer
open_buffer-coalesce none = refl
open_buffer-coalesce (some b) = refl

-- One chunk, with coalescing.
splitstring-chunk :
    (st : SplitState) (chunk : CString)
    → st.splitchars ≡ false
    → st.coalesce ≡ true
    → splitstring st chunk false ≡ with_words st (run st.isifs true (st.buffer, st.value) chunk)
splitstring-chunk st chunk plain co =
    splitstring-run st chunk false plain
    ∙ ap (with_words st) (
        finish-false (run st.isifs st.coalesce (open_buffer st.coalesce st.buffer, st.value) chunk))
    ∙ ap (λ c. with_words st (run st.isifs c (open_buffer c st.buffer, st.value) chunk)) co
    ∙ ap (λ b. with_words st (run st.isifs true (b, st.value) chunk))
        (open_buffer-coalesce st.buffer)

-- Chunk by chunk or all at once, the state is that after the whole text.
bqinput_loop-run :
    (st : SplitState) (chunks : List CString)
    → st.splitchars ≡ false
    → st.coalesce ≡ true
    → bqinput_loop st chunks
      ≡ with_words st (run st.isifs true (st.buffer, st.value) (flatten chunks))
unfolding bqinput_loop
bqinput_loop-run st [] plain co = unfold run in refl
bqinput_loop-run st (chunk ∷ chunks) plain co =
    let y = run st.isifs true (st.buffer, st.value) chunk in
    ap (λ s. bqinput_loop s chunks) (splitstring-chunk st chunk plain co)
    ∙ bqinput_loop-run (with_words st y) chunks plain co
    ∙ ap (with_words st)
        (sym (run-append st.isifs true (st.buffer, st.value) chunk (flatten chunks)))

endsplit-closed : (st : SplitState) → (endsplit st).1 ≡ closed (st.buffer, st.value)
unfolding endsplit closed
endsplit-closed st = go st.buffer st.value
  where
    go :
        (b : Option CString) (v : List CString)
        → reverse (elim b [ none ↦ v | some w ↦ w ∷ v ]) ≡ closed (b, v)
    go none v = reverse-eq v
    go (some w) v = reverse-eq (w ∷ v) ∙ List.reverse-append (w ∷ []) v

-- The output of a command is split into its fields that are not empty, by the given separators, and
-- it does not matter in what chunks it was read, nor what was split before if the table agrees
-- with the separators it was made for.
pub bqinput-fields :
    (st : SplitState) (sep : CString) (chunks : List CString)
    → IsCached st
    → (bqinput st sep chunks).1 ≡ nonempty (split_fields (is_separator sep) (flatten chunks))
unfolding bqinput
bqinput-fields st sep chunks cached =
    let st1 = startsplit sep true st in
    let (table, co, chars, buf, val) = startsplit_lem sep true st cached in
    endsplit-closed (bqinput_loop st1 chunks)
    ∙ ap (λ s. closed (s.buffer, s.value)) (bqinput_loop-run st1 chunks chars co)
    ∙ ap (λ t. closed (run t true (st1.buffer, st1.value) (flatten chunks))) table
    ∙ ap (λ b. closed (run (is_separator sep) true (b, st1.value) (flatten chunks))) buf
    ∙ ap (λ v. closed (run (is_separator sep) true (none, v) (flatten chunks))) val
    ∙ closed-run_words (is_separator sep) none [] (flatten chunks) tt
    ∙ unfold pending in ap nonempty (prepend-nil (split_fields (is_separator sep) (flatten chunks)))

-- The fields of one string: all of them, or with coalescing those that are not empty.
abbrev pub fields_by : Bool → CString → CString → List CString
fields_by false sep s = split_fields (is_separator sep) s
fields_by true sep s = nonempty (split_fields (is_separator sep) s)

-- The fields of a list of strings, in order.
abbrev pub all_fields : Bool → CString → List CString → List CString
all_fields co sep [] = []
all_fields co sep (s ∷ list) = fields_by co sep s ++ all_fields co sep list

closed-run_by :
    (co : Bool) (sep : CString) (v : List CString) (s : CString)
    → closed (run (is_separator sep) co (open_buffer co none, v) s)
      ≡ List.reverse v ++ fields_by co sep s
unfolding open_buffer
closed-run_by false sep v s =
    closed-run_all (is_separator sep) [] v s
    ∙ ap (λ l. List.reverse v ++ l) (prepend-nil (split_fields (is_separator sep) s))
closed-run_by true sep v s =
    closed-run_words (is_separator sep) none v s tt
    ∙ unfold pending in
      ap (λ l. List.reverse v ++ nonempty l) (prepend-nil (split_fields (is_separator sep) s))

-- At the end of a string the word that is being read ends.
finish-true :
    (x : Option CString × List CString)
    → ((finish true x).0 ≡ none) × (List.reverse (finish true x).1 ≡ closed x)
unfolding finish closed
finish-true (none, v) = (refl, refl)
finish-true (some b, v) = (refl, List.reverse-append (b ∷ []) v)

fsplit_loop-all :
    (sep : CString) (st : SplitState) (list : List CString)
    → st.isifs ≡ is_separator sep
    → st.splitchars ≡ false
    → st.buffer ≡ none
    → closed ((fsplit_loop st list).buffer, (fsplit_loop st list).value)
      ≡ List.reverse st.value ++ all_fields st.coalesce sep list
unfolding fsplit_loop
fsplit_loop-all sep st [] table plain buf =
    ap (λ b. closed (b, st.value)) buf ∙ unfold closed in sym (append-nil (List.reverse st.value))
fsplit_loop-all sep st (s ∷ list) table plain buf =
    let x = run st.isifs st.coalesce (open_buffer st.coalesce st.buffer, st.value) s in
    let (no_word, words) = finish-true x in
    let read : closed x ≡ List.reverse st.value ++ fields_by st.coalesce sep s =
      ap (λ t. closed (run t st.coalesce (open_buffer st.coalesce st.buffer, st.value) s)) table
      ∙ ap
          (λ b. closed (run (is_separator sep) st.coalesce (open_buffer st.coalesce b, st.value) s))
          buf
      ∙ closed-run_by st.coalesce sep st.value s in
    ap (λ t. closed ((fsplit_loop t list).buffer, (fsplit_loop t list).value))
      (splitstring-run st s true plain)
    ∙ fsplit_loop-all sep (with_words st (finish true x)) list table plain no_word
    ∙ ap (λ l. l ++ all_fields st.coalesce sep list) (words ∙ read)
    ∙ append_assoc (List.reverse st.value) (fields_by st.coalesce sep s)
        (all_fields st.coalesce sep list)

-- `fsplit` gives the fields of the strings in order: between separators, empty ones included; or,
-- with coalescing, only those that are not empty. Without separators and coalescing it takes
-- another branch, which is left out here. The table must agree with the separators it was made for.
pub fsplit-fields :
    (st : SplitState) (sep : CString) (list : List CString) (coalesce : Bool)
    → IsCached st
    → (not coalesce && is_nil sep) ≡ false
    → (fsplit st sep list coalesce).1 ≡ all_fields coalesce sep list
unfolding fsplit
fsplit-fields st sep list coalesce cached some_sep =
    let st1 = startsplit sep coalesce st in
    let (table, co, chars, buf, val) = startsplit_lem sep coalesce st cached in
    endsplit-closed (fsplit_loop st1 list)
    ∙ fsplit_loop-all sep st1 list table (chars ∙ some_sep) buf
    ∙ ap (λ c. List.reverse st1.value ++ all_fields c sep list) co
    ∙ ap (λ v. List.reverse v ++ all_fields coalesce sep list) val
