-- ===== src/Dict/Tests.antt =====
-- Runs of the dictionary operations of dict.c.
use es_shell_mirror.Prelude.{ℕ, ◌≡◌, refl, none, some, arith, codes, streq}
use es_shell_mirror.Dict.Hash.{strhash}
use es_shell_mirror.Dict.Table.{
  Dict, mkdict, mkdict0, put_in, put, dictput, dictget, dictforall, put_dropping, rm, dictget2, get,
  value_at, set_value, get_loop, put_loop, skip_dead, clear_dead,
}
use es_shell_mirror.Dict.Inv.{IsValid}
use es_shell_mirror.Dict.Refine.{
  mkdict-IsValid, dictput-IsValid, dictget-dictput, dictget2-eq-dictget,
}

abbrev one_entry : Dict ℕ
one_entry = dictput mkdict (codes "a") (some 1)

-- Three entries make the table grow twice, and one of them is removed.
abbrev after_removal : Dict ℕ
after_removal =
    dictput (dictput (dictput one_entry (codes "b") (some 2)) (codes "c") (some 3)) (codes "b") none

removed : dictget after_removal (codes "b") ≡ none
unfolding dictput mkdict put put_in put_loop rm get get_loop skip_dead clear_dead dictforall
    put_dropping set_value dictget value_at strhash streq
removed = refl

kept : dictget after_removal (codes "c") ≡ some 3
unfolding dictput mkdict put put_in put_loop rm get get_loop skip_dead clear_dead dictforall
    put_dropping set_value dictget value_at strhash streq
kept = refl

size_one : one_entry.size ≡ 4
unfolding dictput mkdict put put_in put_loop get get_loop dictforall put_dropping strhash streq
size_one = refl

dictput-IsValid_example : IsValid one_entry
dictput-IsValid_example =
    dictput-IsValid mkdict (codes "a") (some 1) mkdict-IsValid
      (unfold mkdict mkdict0 in omega arith)

dictget-dictput_example :
    dictget (dictput one_entry (codes "b") (some 2)) (codes "a") ≡ dictget one_entry (codes "a")
unfolding streq
dictget-dictput_example =
    dictget-dictput one_entry (codes "b") (some 2) (codes "a") dictput-IsValid_example
      (rw size_one (omega arith))

dictget2_example : dictget2 one_entry (codes "f") (codes "n") ≡ dictget one_entry (codes "fn")
dictget2_example = dictget2-eq-dictget one_entry (codes "f") (codes "n")
