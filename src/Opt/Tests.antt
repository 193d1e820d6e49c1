-- ===== src/Opt/Tests.antt =====
-- Runs of option reading.
use es_shell_mirror.Prelude.{◌≡◌, refl, [], ◌∷◌, CString, codes, Option, none, some}
use es_shell_mirror.Syntax.Tree.{Term, mkstr, getstr}
use es_shell_mirror.Opt.{
  Options, Opted, option, argument_missing, outside, aborted, at_end, illegal, strchr, esopt,
  esoptbegin,
}

abbrev show : CString → CString
show c = c

abbrev begun : Term CString → Options CString
begun t = record {
  usage = some (codes "usage");
  invoker = codes "$&access";
  args = t ∷ mkstr (codes "file") ∷ [];
  termarg = none;
  nextchar = 0;
}

two_letters :
    esopt show (codes "rn:") (begun (mkstr (codes "-rn")))
    ≡ option b'r' (record (begun (mkstr (codes "-rn"))) { nextchar = 2 })
unfolding esopt getstr strchr
two_letters = refl

next_word :
    esopt show (codes "rn:") (record (begun (mkstr (codes "-rn"))) { nextchar = 2 })
    ≡ option b'n'
        (record (begun (mkstr (codes "-rn"))) { args = []; termarg = some (mkstr (codes "file")) })
unfolding esopt getstr strchr
next_word = refl

-- A lone dash is searched for as the NUL, which `strchr` finds.
lone_dash : esopt show (codes "rn:") (begun (mkstr (codes "-"))) ≡ outside
unfolding esopt getstr strchr
lone_dash = refl

-- After a missing argument the next `esoptbegin` fails.
abbrev after_missing : Opted CString → Option (Options CString)
after_missing (argument_missing st) = esoptbegin show [] (codes "$&access") (codes "usage") st
after_missing (option c st) = some st
after_missing (at_end st) = some st
after_missing (illegal st) = some st
after_missing aborted = some (begun (mkstr []))
after_missing outside = some (begun (mkstr []))

stuck_usage :
    after_missing (
      esopt show
        (codes "rn:")
        (record (begun (mkstr (codes "-n"))) { args = mkstr (codes "-n") ∷ [] }))
    ≡ none
unfolding esopt esoptbegin getstr strchr
stuck_usage = refl
