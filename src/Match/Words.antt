-- ===== src/Match/Words.antt =====
-- `match` decides whether a word matches a pattern.
use es_shell_mirror.Prelude.{◌≡◌, CString}
use es_shell_mirror.Match.Quoting.{Quoting, quoted}
use es_shell_mirror.Match.Spec.{Matches}

-- A quoted pattern stands for itself.
abbrev pub MatchesWord : CString → Quoting → CString → Type 0
MatchesWord p quoted s = s ≡ p
MatchesWord p q s = Matches p q s
