-- ===== src/Signal/Tests.antt =====
-- Runs of signal delivery.
use es_shell_mirror.Prelude.{ℕ, ◌≡◌, refl, Bool, true, false, [], ◌∷◌, codes, some, arith, streq}
use es_shell_mirror.Signal.State.{
  Signals, sig_catch, sig_ignore, threw, returned, set_caught, catcher, first_caught, sigchk,
  Sighandler,
}
use es_shell_mirror.Signal.Names.{signumber, number_in, signame, entry_of, mksiglist, siglist_loop}
use es_shell_mirror.Signal.Deliver.{Delivers}
use es_shell_mirror.Signal.Reach.{
  initial, Reachable, at_start, after, signal_comes, by_return, sigchk-Delivers,
}

abbrev taken : ℕ → Sighandler → Bool
taken sig handler = true

abbrev begun : Signals
begun = initial 4 (λ sig. sig_catch) true

-- Signal 3 came in, and then signal 2.
abbrev after_one : Signals
after_one = record begun {
  sigcount = 1;
  caught = false ∷ false ∷ false ∷ true ∷ [];
  interrupted = true;
}

abbrev after_two : Signals
after_two = record after_one { sigcount = 2; caught = false ∷ false ∷ true ∷ true ∷ [] }

first_comes : catcher 3 begun ≡ returned after_one
unfolding catcher set_caught
first_comes = refl

second_comes : catcher 2 after_one ≡ returned after_two
unfolding catcher set_caught
second_comes = refl

least_first : sigchk after_two ≡ threw 2 after_one
unfolding sigchk first_caught
least_first = refl

two_reachable : Reachable taken 4 after_two
unfolding catcher set_caught
two_reachable =
    after after_one after_two
      (after begun after_one (at_start (λ sig. sig_catch) true)
        (signal_comes 3 begun after_one (by_return after_one)))
      (signal_comes 2 after_one after_two (by_return after_two))

sigchk-Delivers_example : Delivers after_two (sigchk after_two)
sigchk-Delivers_example = sigchk-Delivers taken 4 after_two two_reachable (omega arith) refl refl

names :
    signumber
      (record { sig = 2; name = codes "sigint"; msg = codes "interrupt" } ∷ [])
      (λ n. codes "9")
      (λ s. (9, []))
      32
      (codes "sigint")
    ≡ some 2
unfolding signumber number_in streq
names = refl

list_of_effects :
    mksiglist [] (λ n. codes "9") (λ s. (9, [])) 3 (λ sig. sig_ignore)
    ≡ codes "-sig9" ∷ codes "-sig9" ∷ []
unfolding siglist_loop signame entry_of
list_of_effects = refl
