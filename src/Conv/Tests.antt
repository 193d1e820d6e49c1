-- ===== src/Conv/Tests.antt =====
-- Runs of the conversions.
use es_shell_mirror.Prelude.{ℕ, ◌≡◌, refl, Bool, false, ◌&&◌, ◌||◌, [], ◌∷◌, codes, some, leb}
use es_shell_mirror.Conv.Names.{fconv, fconv_loop, nconv, nconv-fconv}
use es_shell_mirror.Conv.Quote.{sconv, needs_quotes, quote_loop, escape_of}
use es_shell_mirror.Scan.State.{nw}

abbrev isalpha : ℕ → Bool
isalpha c = leb 65 c && leb c 90 || leb 97 c && leb c 122

abbrev isalnum : ℕ → Bool
isalnum c = isalpha c || leb 48 c && leb c 57

abbrev isprint : ℕ → Bool
isprint c = leb 32 c && leb c 126

protected : fconv isalpha isalnum (codes "fn-a_") ≡ codes "fn__2da_"
unfolding fconv fconv_loop
protected = refl

nconv-fconv_example : nconv (fconv isalpha isalnum (codes "fn-__x")) ≡ some (codes "fn-__x")
nconv-fconv_example = nconv-fconv isalpha isalnum (codes "fn-__x") refl refl refl

printed : sconv isprint false (codes "it's") ≡ codes "'it''s'"
unfolding sconv nw needs_quotes quote_loop
printed = refl

control : sconv isprint false (97 ∷ 10 ∷ 98 ∷ []) ≡ codes "'a'^\\n^'b'"
unfolding sconv nw needs_quotes quote_loop escape_of
control = refl
