-- ===== src/Dict/Store.antt =====
-- Writing one slot of a table keeps it valid.
use es_shell_mirror.Prelude.{
  ℕ, zero, suc, ◌+◌, ◌%◌, ◌≤◌, ◌<◌, ◌≡◌, ◌≢◌, refl, sym, ◌∙◌, ap, subst, ◌⊎◌, inl, inr, CString,
  ◌==◌, arith, Bool-cases, ==→eq,
}
use es_shell_mirror.Dict.Hash.{strhash}
use es_shell_mirror.Dict.Table.{Slot, empty, live, Dict, store}
use es_shell_mirror.Dict.Probe.{Reaches, here, there}
use es_shell_mirror.Dict.Inv.{used, used_slot, IsValid}

module _ {ℓ} {V : Type ℓ} where
  pub store_other : (t : ℕ → Slot V) (i j : ℕ) (x : Slot V) → i ≢ j → store t i x j ≡ t j
  store_other t i j x ne = elim (Bool-cases (i == j)) [
    | inl e ↦ absurd (ne (==→eq i j e))
    | inr e ↦ rw e
  ]

  pub store_self : (t : ℕ → Slot V) (i : ℕ) (x : Slot V) → store t i x i ≡ x
  store_self t i x = ground arith

  -- The two ways to read a slot of a table that was written to.
  pub store_cases :
      (t : ℕ → Slot V) (i j : ℕ) (x y : Slot V)
      → store t i x j ≡ y
      → ((i ≡ j) × (x ≡ y)) ⊎ ((i ≢ j) × (t j ≡ y))
  store_cases t i j x y h = elim (Bool-cases (i == j)) [
    | inl e ↦ inl (==→eq i j e, rw e at h)
    | inr e ↦ inr (λ same. ground arith, rw e at h)
  ]

  used-store_beyond :
      (t : ℕ → Slot V) (i n : ℕ) (x : Slot V) → n ≤ i → used (store t i x) n ≡ used t n
  unfolding used
  used-store_beyond t i zero x le = refl
  used-store_beyond t i (suc n) x le =
      rw (store_other t i n x (λ e. omega arith), used-store_beyond t i n x (omega arith))

  pub used-store :
      (t : ℕ → Slot V) (i n : ℕ) (x : Slot V)
      → i < n
      → used (store t i x) n + used_slot (t i) ≡ used t n + used_slot x
  unfolding used
  used-store t i zero x lt = absurd (omega arith)
  used-store t i (suc n) x lt = elim (Bool-cases (i == n)) [
    | inl e ↦
        let same = ==→eq i n e in
        rw e
          (omega (arith, used-store_beyond t i n x (omega arith), ap (λ m. used_slot (t m)) same))
    | inr e ↦ rw e (omega (arith, used-store t i n x (ground arith)))
  ]

  -- A walk goes through a slot that becomes used.
  pub Reaches-store :
      (t : ℕ → Slot V) (s i : ℕ) (x : Slot V) {a b : ℕ}
      → x ≢ empty
      → Reaches t s a b
      → Reaches (store t i x) s a b
  Reaches-store t s i x ne here = here
  Reaches-store t s i x {a} ne (there a_used r) =
      there (λ e. elim (store_cases t i a x empty e) [ inl p ↦ ne p.1 | inr p ↦ a_used p.1 ])
        (Reaches-store t s i x ne r)

-- The dictionary with `x` in the slot `i`, and `r` for its `remain`.
abbrev pub written {ℓ} : {V : Type ℓ} → Dict V → ℕ → Slot V → ℕ → Dict V
written d i x r = record d { remain = r; table = store d.table i x }

module _ {ℓ} {V : Type ℓ} (d : Dict V) (valid : IsValid d) (i : ℕ) (i_in : i < d.size) (x : Slot V)
    (r : ℕ) where
  -- A slot may be written if the name is reached there, stands nowhere else, and `remain` counts.
  pub written-IsValid :
      x ≢ empty
      → ((name : CString) (v : V)
          → x ≡ live name v
          → Reaches d.table d.size (strhash name % d.size) i)
      → ((name : CString) (v w : V) (m : ℕ)
          → x ≡ live name v
          → m < d.size
          → d.table m ≡ live name w
          → i ≡ m)
      → used_slot (d.table i) + d.remain ≡ used_slot x + r
      → IsValid (written d i x r)
  written-IsValid ne reach only count = record {
    exponent = valid.exponent;
    size_is = valid.size_is;
    exponent_in = valid.exponent_in;
    reached = λ j name v lt at.
        Reaches-store d.table d.size i x ne (elim (store_cases d.table i j x (live name v) at) [
          | inl p ↦ subst (Reaches d.table d.size (strhash name % d.size)) p.0 (reach name v p.1)
          | inr p ↦ valid.reached j name v lt p.1
        ]);
    unique = λ j k name v w j_in k_in at_j at_k.
        (elim (store_cases d.table i j x (live name v) at_j) [
          | inl p ↦ elim (store_cases d.table i k x (live name w) at_k) [
            | inl p' ↦ sym p.0 ∙ p'.0
            | inr p' ↦ sym p.0 ∙ only name v w k p.1 k_in p'.1
          ]
          | inr p ↦ elim (store_cases d.table i k x (live name w) at_k) [
            | inl p' ↦ sym (only name w v j p'.1 j_in p.1) ∙ p'.0
            | inr p' ↦ valid.unique j k name v w j_in k_in p.1 p'.1
          ]
        ]);
    counted = omega (arith, used-store d.table i d.size x i_in, valid.counted, count);
  }
