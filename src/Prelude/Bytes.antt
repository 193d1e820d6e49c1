-- ===== src/Prelude/Bytes.antt =====
-- C strings: the bytes before the terminating NUL.
use Prim.Native.Nat.{ℕ}
use Prim.Native.Char.{code}
use Prim.Native.String.{String}
use mathlib.Core.Path.{◌≡◌, refl}
use mathlib.Core.Bool.{Bool, true, false, ◌&&◌}
use mathlib.Core.List.{List, [], ◌∷◌}
use native.Mathlib.Omega.{arith}
use es_shell_mirror.Prelude.Tests.{◌==◌}

abbrev pub CString : Type 0
CString = List ℕ

-- The code points of a text, which are its bytes if it is ASCII.
abbrev pub codes : String → CString
codes String.[] = []
codes (String.◌∷◌ c s) = code c ∷ codes s

-- `*s`, where the end reads as the NUL.
abbrev pub head_byte : CString → ℕ
head_byte [] = 0
head_byte (c ∷ s) = c

-- `streq(s, t)`, that is `strcmp(s, t) == 0`.
unfoldable pub streq : CString → CString → Bool
streq [] [] = true
streq [] (d ∷ t) = false
streq (c ∷ s) [] = false
streq (c ∷ s) (d ∷ t) = c == d && streq s t

pub streq→eq : (s t : CString) → streq s t ≡ true → s ≡ t
unfolding streq
streq→eq [] [] h = refl
streq→eq [] (d ∷ t) h = ground arith
streq→eq (c ∷ s) [] h = ground arith
streq→eq (c ∷ s) (d ∷ t) h = ground (arith, streq→eq s t)

pub streq_refl : (s : CString) → streq s s ≡ true
unfolding streq
streq_refl [] = refl
streq_refl (c ∷ s) = ground (arith, streq_refl s)
