-- ===== src/Vars/Counters.antt =====
-- The names that no variable has: what `iscounting` of var.c takes for a counter.
use es_shell_mirror.Prelude.{
  ◌≡◌, ◌≢◌, refl, ap, subst, Bool, true, false, ◌&&◌, ◌||◌, [], ◌∷◌, CString, codes, leb, streq,
  streq→eq, streq_refl, is_nil, arith, Bool-cases, inl, inr, ◌⊎◌, ◌≤◌,
}
use es_shell_mirror.Vars.State.{iscounting, all_digits}

abbrev pub AllDigits : CString → Type 0
AllDigits [] = Unit
AllDigits (c ∷ s) = ((b'0' ≤ c) × (c ≤ b'9')) × AllDigits s

-- The empty name, and the numbers in digits but "0".
abbrev pub IsUnsettable : CString → Type 0
IsUnsettable name = (name ≡ []) ⊎ (AllDigits name × (name ≢ codes "0"))

differ : {b : Bool} → b ≡ true → b ≡ false → ⊥
differ h h' = cc

all_digits-AllDigits : (s : CString) → all_digits s ≡ true → AllDigits s
unfolding all_digits
all_digits-AllDigits [] h = tt
all_digits-AllDigits (c ∷ s) h = elim (Bool-cases (leb 48 c && leb c 57)) [
  | inl e ↦ ((ground (arith, e), ground (arith, e)), all_digits-AllDigits s (rw e at h))
  | inr e ↦ absurd (differ h (rw e refl))
]

AllDigits-all_digits : (s : CString) → AllDigits s → all_digits s ≡ true
unfolding all_digits
AllDigits-all_digits [] h = refl
AllDigits-all_digits (c ∷ s) ((low, high), h) =
    let digit : (leb 48 c && leb c 57) ≡ true = ground arith in rw digit (AllDigits-all_digits s h)

iscounting-counts : (name : CString) → iscounting name ≡ true → AllDigits name × (name ≢ codes "0")
unfolding iscounting
iscounting-counts name h =
    let digits : all_digits name ≡ true = ground (arith, h) in
    let other : streq name (codes "0") ≡ false = ground (arith, h) in
    (
      all_digits-AllDigits name digits,
      λ e. differ (subst (λ s. streq name s ≡ true) e (streq_refl name)) other,
    )

counts-iscounting :
    (name : CString)
    → is_nil name ≡ false
    → AllDigits name
    → name ≢ codes "0"
    → iscounting name ≡ true
unfolding iscounting
counts-iscounting name some_name digits other = elim (Bool-cases (streq name (codes "0"))) [
  | inl e ↦ absurd (other (streq→eq name (codes "0") e))
  | inr e ↦ rw (AllDigits-all_digits name digits, e, some_name) refl
]

is_nil→eq : (name : CString) → is_nil name ≡ true → name ≡ []
is_nil→eq [] h = refl
is_nil→eq (c ∷ name) h = cc

-- The tests of `validatevar`, and what they mean.
pub IsUnsettable-cases :
    (name : CString)
    → (((is_nil name || iscounting name) ≡ true) × IsUnsettable name)
      ⊎ (((is_nil name || iscounting name) ≡ false) × ¬ IsUnsettable name)
IsUnsettable-cases name = elim (Bool-cases (is_nil name)) [
  | inl e ↦ rw e (inl (refl, inl (is_nil→eq name e)))
  | inr e ↦ elim (Bool-cases (iscounting name)) [
    | inl f ↦ rw (e, f) (inl (refl, inr (iscounting-counts name f)))
    | inr f ↦ rw (e, f) (inr (refl, not_refused e f))
  ]
]
  where
    not_refused : is_nil name ≡ false → iscounting name ≡ false → ¬ IsUnsettable name
    not_refused e f (inl empty) = differ (ap is_nil empty) e
    not_refused e f (inr (digits, other)) = differ (counts-iscounting name e digits other) f
