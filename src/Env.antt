-- ===== src/Env.antt =====
-- The lists of variables in the environment: `%W` of conv.c, which `mkenv` of var.c exports with,
-- and the splitting that `importvar` of var.c begins with.
use es_shell_mirror.Prelude.{
  ℕ, ◌≡◌, refl, sym, ◌∙◌, ap, Bool, true, false, not, ◌&&◌, ◌||◌, List, [], ◌∷◌, ◌++◌, CString,
  ◌==◌, if◌then◌else◌, arith, append-nil, streq, is_nil,
}
use es_shell_mirror.Split.State.{SplitState, fsplit}
use es_shell_mirror.Split.Fields.{split_fields, is_separator, contains, prepend}
use es_shell_mirror.Split.Laws.{IsCached, fsplit-fields}
mod Tests

-- ENV_SEPARATOR and ENV_ESCAPE
abbrev pub env_separator : ℕ
env_separator = 15

abbrev pub env_escape : ℕ
env_escape = 14

unfoldable pub escape_word : CString → CString
escape_word [] = []
escape_word (c ∷ s) =
    let rest = escape_word s in
    if c == env_escape || c == env_separator then env_escape ∷ c ∷ rest else c ∷ rest

unfoldable pub wconv : List CString → CString
unfolding escape_word
wconv [] = []
wconv (w ∷ []) = escape_word w
wconv (w ∷ w' ∷ list) = escape_word w ++ env_separator ∷ wconv (w' ∷ list)

-- The definition of an imported variable whose value has no ENV_ESCAPE.
unfoldable pub import_plain : SplitState → CString → List CString
unfolding fsplit
import_plain st value = (fsplit st (env_separator ∷ []) (value ∷ []) false).1

-- A word without the two special bytes, and without a NUL.
abbrev pub is_plain_word : CString → Bool
is_plain_word [] = true
is_plain_word (c ∷ s) = not (c == env_escape || c == env_separator || c == 0) && is_plain_word s

abbrev pub are_plain : List CString → Bool
are_plain [] = true
are_plain (w ∷ list) = is_plain_word w && are_plain list

abbrev separates : ℕ → Bool
separates = is_separator (env_separator ∷ [])

escape_word-plain : (w : CString) → is_plain_word w ≡ true → escape_word w ≡ w
unfolding escape_word
escape_word-plain [] h = refl
escape_word-plain (c ∷ s) h =
    let ih = escape_word-plain s (ground (arith, h)) in
    let plain : (c == env_escape || c == env_separator) ≡ false = ground (arith, h) in
    rw (plain) (ap (λ l. c ∷ l) ih)

-- A byte of a plain word goes before the first field.
split-plain :
    (c : ℕ) (s : CString)
    → (c == env_escape || c == env_separator || c == 0) ≡ false
    → split_fields separates (c ∷ s) ≡ prepend (c ∷ []) (split_fields separates s)
unfolding split_fields is_separator
split-plain c s h = let plain : separates c ≡ false = ground (arith, h) in rw (plain) refl

last_word : (w : CString) → is_plain_word w ≡ true → split_fields separates w ≡ w ∷ []
unfolding prepend
last_word [] h = unfold split_fields in refl
last_word (c ∷ s) h =
    split-plain c s (ground (arith, h))
    ∙ ap (λ l. prepend (c ∷ []) l) (last_word s (ground (arith, h)))

first_word :
    (w t : CString)
    → is_plain_word w ≡ true
    → split_fields separates (w ++ env_separator ∷ t) ≡ w ∷ split_fields separates t
unfolding prepend
first_word [] t h = unfold split_fields is_separator contains in refl
first_word (c ∷ s) t h =
    split-plain c (s ++ env_separator ∷ t) (ground (arith, h))
    ∙ ap (λ l. prepend (c ∷ []) l) (first_word s t (ground (arith, h)))

wconv-fields :
    (w : CString) (list : List CString)
    → are_plain (w ∷ list) ≡ true
    → split_fields separates (wconv (w ∷ list)) ≡ w ∷ list
unfolding wconv
wconv-fields w [] h =
    ap (λ x. split_fields separates x) (escape_word-plain w (ground (arith, h)))
    ∙ last_word w (ground (arith, h))
wconv-fields w (w' ∷ list) h =
    ap (λ x. split_fields separates (x ++ env_separator ∷ wconv (w' ∷ list)))
      (escape_word-plain w (ground (arith, h)))
    ∙ first_word w (wconv (w' ∷ list)) (ground (arith, h))
    ∙ ap (λ l. w ∷ l) (wconv-fields w' list (ground (arith, h)))

-- A list that is not empty, of words without special bytes, comes back from the environment as it
-- was exported, if the table of split.c agrees with the separators it was made for.
pub import_plain-wconv :
    (st : SplitState) (w : CString) (list : List CString)
    → IsCached st
    → are_plain (w ∷ list) ≡ true
    → import_plain st (wconv (w ∷ list)) ≡ w ∷ list
unfolding import_plain
import_plain-wconv st w list cached h =
    fsplit-fields st (env_separator ∷ []) (wconv (w ∷ list) ∷ []) false cached refl
    ∙ append-nil (split_fields separates (wconv (w ∷ list)))
    ∙ wconv-fields w list h
