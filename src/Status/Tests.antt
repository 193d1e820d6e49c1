-- ===== src/Status/Tests.antt =====
-- Runs of the status functions of status.c.
use es_shell_mirror.Prelude.{
  ℕ, ◌≡◌, refl, Bool, true, false, List, [], ◌∷◌, CString, codes, head_byte, get_or, ◌==◌,
  if◌then◌else◌,
}
use es_shell_mirror.Prelude.Int.{ℤ, pos}
use es_shell_mirror.Syntax.Tree.{Term, mkstr}
use es_shell_mirror.Status.{istrue, exitstatus, exitstatus-istrue}

-- Reads "0" and nothing else.
abbrev sample_strtol : CString → ℤ × Bool
sample_strtol s = if head_byte s == b'0' then (pos 0, true) else (pos 0, false)

abbrev true_statuses : List (Term ℕ)
true_statuses = mkstr (codes "0") ∷ mkstr [] ∷ []

abbrev zeros : List (Term ℕ)
zeros = mkstr (codes "00") ∷ []

-- A string that `strtol` reads as 0, but that is not true.
false_and_zero : (istrue (zeros) ≡ false) × (exitstatus sample_strtol (zeros) ≡ 0)
unfolding istrue exitstatus
false_and_zero = (refl, refl)

sample_reads_zero :
    (n : CString) → head_byte n ≡ b'0' → get_or n 1 0 ≡ 0 → sample_strtol n ≡ (pos 0, true)
sample_reads_zero n h h' = rw (h) refl

exitstatus-istrue_example : exitstatus sample_strtol true_statuses ≡ 0
unfolding istrue
exitstatus-istrue_example = exitstatus-istrue sample_strtol true_statuses sample_reads_zero refl
