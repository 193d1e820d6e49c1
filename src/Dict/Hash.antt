-- ===== src/Dict/Hash.antt =====
-- `strhash2`, `strhash` of dict.c and `streq2` of util.c.
use es_shell_mirror.Prelude.{
  ℕ, ◌+◌, ◌*◌, ◌%◌, ◌^◌, ◌≡◌, refl, Bool, false, ◌&&◌, Option, none, some, [], ◌∷◌, ◌++◌, CString,
  ◌==◌, is_nil, streq,
}

-- `h = ((h << 5) + h) + c` in an `unsigned long` of 64 bits.
unfoldable pub hash_from : ℕ → CString → ℕ
hash_from h [] = h
hash_from h (c ∷ s) = hash_from ((h * 33 + c) % 2 ^ 64) s

-- At the end of the first string the loop goes on with the second, if there is one.
unfoldable pub strhash2 : CString → Option CString → ℕ
unfolding hash_from
strhash2 s1 none = hash_from 5381 s1
strhash2 s1 (some s2) = hash_from (hash_from 5381 s1) s2

unfoldable pub strhash : CString → ℕ
unfolding strhash2
strhash s = strhash2 s none

hash_from-append : (h : ℕ) (s t : CString) → hash_from h (s ++ t) ≡ hash_from (hash_from h s) t
unfolding hash_from
hash_from-append h [] t = refl
hash_from-append h (c ∷ s) t = hash_from-append ((h * 33 + c) % 2 ^ 64) s t

pub strhash2-append : (s t : CString) → strhash2 s (some t) ≡ strhash (s ++ t)
unfolding strhash
strhash2-append s t = rw (hash_from-append 5381 s t)

-- the second loop of `streq2` and its final test
unfoldable pub streq2_rest : CString → CString → Bool
streq2_rest s [] = is_nil s
streq2_rest [] (c ∷ t2) = false
streq2_rest (d ∷ s) (c ∷ t2) = c == d && streq2_rest s t2

-- "is a string equal to the concatenation of two strings?"
unfoldable pub streq2 : CString → CString → CString → Bool
unfolding streq2_rest
streq2 s [] t2 = streq2_rest s t2
streq2 [] (c ∷ t1) t2 = false
streq2 (d ∷ s) (c ∷ t1) t2 = c == d && streq2 s t1 t2

streq2_rest-eq : (s t : CString) → streq2_rest s t ≡ streq t s
unfolding streq2_rest streq
streq2_rest-eq [] [] = refl
streq2_rest-eq (d ∷ s) [] = refl
streq2_rest-eq [] (c ∷ t) = refl
streq2_rest-eq (d ∷ s) (c ∷ t) = rw (streq2_rest-eq s t)

pub streq2-append : (s t1 t2 : CString) → streq2 s t1 t2 ≡ streq (t1 ++ t2) s
unfolding streq2 streq
streq2-append s [] t2 = streq2_rest-eq s t2
streq2-append [] (c ∷ t1) t2 = refl
streq2-append (d ∷ s) (c ∷ t1) t2 = rw (streq2-append s t1 t2)
