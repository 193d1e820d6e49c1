-- ===== src/ListOps/Tests.antt =====
-- Runs of the list operations of list.c.
use es_shell_mirror.Prelude.{ℕ, ◌+◌, ◌≡◌, refl, List, [], ◌∷◌, get_elem?, some, length, ◌-◌, arith}
use es_shell_mirror.ListOps.{reverse, nth, nth-eq, get_elem?-reverse}

abbrev some_list : List ℕ
some_list = 4 ∷ 5 ∷ 6 ∷ []

second : nth some_list 2 ≡ some 5
unfolding nth
second = refl

nth-eq_example : nth some_list (1 + 1) ≡ get_elem? some_list 1
nth-eq_example = nth-eq some_list 1

get_elem?-reverse_example :
    (length (reverse some_list) ≡ length some_list)
    × (get_elem? (reverse some_list) (length some_list - 1 - 0) ≡ get_elem? some_list 0)
get_elem?-reverse_example = get_elem?-reverse some_list 0 (omega arith)
