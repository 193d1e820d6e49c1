-- ===== src/ListOps.antt =====
-- list.c: lists of terms, and the vectors of vec.c that they are turned into.
mod Tests
use mathlib.Core.List
use es_shell_mirror.Prelude.{
  ℕ, zero, suc, ◌+◌, ◌-◌, ◌≤◌, ◌<◌, ◌≡◌, refl, sym, ◌∙◌, ap, Bool, true, false, Option, none, some,
  List, [], ◌∷◌, ◌++◌, map, append-nil, append_assoc, arith, ◌==◌, ltb, if◌then◌else◌, CString,
  get_elem?, Bool-cases,
}
use es_shell_mirror.Prelude

module _ {ℓ} {A : Type ℓ} where
  -- The loop of `reverse`: the list still to do, and `prev`.
  unfoldable pub reverse_loop : List A → List A → List A
  reverse_loop [] prev = prev
  reverse_loop (x ∷ list) prev = reverse_loop list (x ∷ prev)

  -- "destructively reverse a list"
  unfoldable pub reverse : List A → List A
  unfolding reverse_loop
  reverse list = reverse_loop list []

  -- "merge two lists, non-destructively"
  unfoldable pub append : List A → List A → List A
  append [] tail = tail
  append (x ∷ head) tail = x ∷ append head tail

  unfoldable pub listcopy : List A → List A
  unfolding append
  listcopy list = append list []

  unfoldable pub length_loop : List A → ℕ → ℕ
  length_loop [] len = len
  length_loop (x ∷ list) len = length_loop list (len + 1)

  unfoldable pub length : List A → ℕ
  unfolding length_loop
  length list = length_loop list 0

  -- "return nth element of a list, indexed from 1"; the caller sees to `n > 0`.
  unfoldable pub nth : List A → ℕ → Option A
  nth [] n = none
  nth (x ∷ list) n = let rest = nth list (n - 1) in if n - 1 == 0 then some x else rest

  reverse_loop-eq : (list prev : List A) → reverse_loop list prev ≡ List.reverse list ++ prev
  unfolding reverse_loop
  reverse_loop-eq [] prev = refl
  reverse_loop-eq (x ∷ list) prev =
      reverse_loop-eq list (x ∷ prev)
      ∙ sym (append_assoc (List.reverse list) (x ∷ []) prev)
      ∙ ap (λ l. l ++ prev) (sym (List.reverse-append (x ∷ []) list))

  pub reverse-eq : (list : List A) → reverse list ≡ List.reverse list
  unfolding reverse
  reverse-eq list = reverse_loop-eq list [] ∙ append-nil (List.reverse list)

  -- Twice reversed is as before.
  pub reverse-reverse : (list : List A) → reverse (reverse list) ≡ list
  reverse-reverse list =
      reverse-eq (reverse list) ∙ ap List.reverse (reverse-eq list) ∙ List.reverse-reverse list

  pub append-eq : (head tail : List A) → append head tail ≡ head ++ tail
  unfolding append
  append-eq [] tail = refl
  append-eq (x ∷ head) tail = ap (λ l. x ∷ l) (append-eq head tail)

  -- The place of an element in a loop of `reverse`: those behind it come first, and `prev` last.
  get_elem?-reverse_loop-late :
      (list prev : List A) (i : ℕ)
      → get_elem? (reverse_loop list prev) (Prelude.length list + i) ≡ get_elem? prev i
  unfolding reverse_loop
  get_elem?-reverse_loop-late [] prev i = ap (get_elem? prev) (omega arith)
  get_elem?-reverse_loop-late (x ∷ list) prev i =
      let later : suc (Prelude.length list) + i ≡ Prelude.length list + suc i = omega arith in
      ap (get_elem? (reverse_loop list (x ∷ prev))) later
      ∙ get_elem?-reverse_loop-late list (x ∷ prev) (suc i)

  get_elem?-reverse_loop :
      (list prev : List A) (i : ℕ)
      → i < Prelude.length list
      → get_elem? (reverse_loop list prev) (Prelude.length list - 1 - i) ≡ get_elem? list i
  unfolding reverse_loop
  get_elem?-reverse_loop [] prev i less = absurd (omega arith)
  get_elem?-reverse_loop (x ∷ list) prev zero less =
      let place : suc (Prelude.length list) - 1 - 0 ≡ Prelude.length list + 0 = omega arith in
      ap (get_elem? (reverse_loop list (x ∷ prev))) place
      ∙ get_elem?-reverse_loop-late list (x ∷ prev) 0
  get_elem?-reverse_loop (x ∷ list) prev (suc i) less =
      let place : suc (Prelude.length list) - 1 - suc i ≡ Prelude.length list - 1 - i =
        omega arith in
      ap (get_elem? (reverse_loop list (x ∷ prev))) place
      ∙ get_elem?-reverse_loop list (x ∷ prev) i (omega arith)

  length-reverse_loop :
      (list prev : List A)
      → Prelude.length (reverse_loop list prev) ≡ Prelude.length list + Prelude.length prev
  unfolding reverse_loop
  length-reverse_loop [] prev = omega arith
  length-reverse_loop (x ∷ list) prev = omega (arith, length-reverse_loop list (x ∷ prev))

  -- `reverse` keeps the length of a list, and the element with index `i` of the list, where there is one, has the index
  -- `length - 1 - i` afterwards.
  pub get_elem?-reverse :
      (list : List A) (i : ℕ)
      → i < Prelude.length list
      → (Prelude.length (reverse list) ≡ Prelude.length list)
        × (get_elem? (reverse list) (Prelude.length list - 1 - i) ≡ get_elem? list i)
  unfolding reverse
  get_elem?-reverse list i less =
      (omega (arith, length-reverse_loop list []), get_elem?-reverse_loop list [] i less)

  length_loop-eq : (list : List A) (len : ℕ) → length_loop list len ≡ len + Prelude.length list
  unfolding length_loop
  length_loop-eq [] len = omega arith
  length_loop-eq (x ∷ list) len = omega (arith, length_loop-eq list (len + 1))

  pub length-eq : (list : List A) → length list ≡ Prelude.length list
  unfolding length
  length-eq list = omega (arith, length_loop-eq list 0)

  -- `nth` counts from one: it is the element of index `n - 1`, or none past the end.
  pub nth-eq : (list : List A) (i : ℕ) → nth list (i + 1) ≡ get_elem? list i
  unfolding nth
  nth-eq [] i = refl
  nth-eq (x ∷ list) zero = refl
  nth-eq (x ∷ list) (suc i) =
      let back : suc i + 1 - 1 ≡ i + 1 = omega arith in rw back (ground (arith, nth-eq list i))
