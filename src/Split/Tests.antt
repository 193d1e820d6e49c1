-- ===== src/Split/Tests.antt =====
-- Runs of the splitting functions of split.c.
use es_shell_mirror.Prelude.{◌≡◌, refl, false, [], ◌∷◌, codes, streq}
use es_shell_mirror.ListOps.{reverse}
use es_shell_mirror.Split.State.{initial, fsplit, bqinput, splitstring_r}
use es_shell_mirror.Split.Fields.{split_fields, nonempty, is_separator}
use es_shell_mirror.Split.Laws.{IsCached, all_fields, bqinput-fields, fsplit-fields}

path_fields :
    (fsplit initial (codes ":") (codes "a::b" ∷ codes "c" ∷ []) false).1
    ≡ codes "a" ∷ [] ∷ codes "b" ∷ codes "c" ∷ []
unfolding fsplit splitstring_r streq reverse
path_fields = refl

-- A word that goes over the end of a chunk.
chunks_join :
    (bqinput initial (codes " ") (codes "one t" ∷ codes "wo " ∷ [])).1
    ≡ codes "one" ∷ codes "two" ∷ []
unfolding bqinput splitstring_r streq reverse
chunks_join = refl

single_chars : (fsplit initial [] (codes "ab" ∷ []) false).1 ≡ codes "a" ∷ codes "b" ∷ []
unfolding fsplit splitstring_r streq reverse
single_chars = refl

IsCached-initial : IsCached initial
IsCached-initial h = cc

bqinput-fields_example :
    (bqinput initial (codes " ") (codes "one t" ∷ codes "wo " ∷ [])).1
    ≡ nonempty (split_fields (is_separator (codes " ")) (codes "one two "))
bqinput-fields_example =
    bqinput-fields initial (codes " ") (codes "one t" ∷ codes "wo " ∷ []) IsCached-initial

fsplit-fields_example :
    (fsplit initial (codes ":") (codes "a::b" ∷ []) false).1
    ≡ all_fields false (codes ":") (codes "a::b" ∷ [])
fsplit-fields_example =
    fsplit-fields initial (codes ":") (codes "a::b" ∷ []) false IsCached-initial refl
