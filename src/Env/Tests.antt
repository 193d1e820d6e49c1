-- ===== src/Env/Tests.antt =====
-- Runs of the export and import of variables.
use es_shell_mirror.Prelude.{◌≡◌, refl, [], ◌∷◌, codes, streq}
use es_shell_mirror.ListOps.{reverse}
use es_shell_mirror.Split.State.{initial, splitstring_r}
use es_shell_mirror.Split.Laws.{IsCached}
use es_shell_mirror.Env.{wconv, import_plain, import_plain-wconv}

separated : wconv (codes "a" ∷ [] ∷ codes "b" ∷ []) ≡ 97 ∷ 15 ∷ 15 ∷ 98 ∷ []
unfolding wconv
separated = refl

escaped : wconv ((97 ∷ 15 ∷ 14 ∷ []) ∷ []) ≡ 97 ∷ 14 ∷ 15 ∷ 14 ∷ 14 ∷ []
unfolding wconv
escaped = refl

imported : import_plain initial (97 ∷ 15 ∷ 15 ∷ 98 ∷ []) ≡ codes "a" ∷ [] ∷ codes "b" ∷ []
unfolding import_plain splitstring_r streq reverse
imported = refl

IsCached-start : IsCached initial
IsCached-start h = cc

import_plain-wconv_example :
    import_plain initial (wconv (codes "a" ∷ [] ∷ codes "b" ∷ [])) ≡ codes "a" ∷ [] ∷ codes "b" ∷ []
import_plain-wconv_example =
    import_plain-wconv initial (codes "a") ([] ∷ codes "b" ∷ []) IsCached-start refl
