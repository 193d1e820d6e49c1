-- ===== src/Dict/Inv.antt =====
-- The representation invariant of the tables of dict.c, and what `get` finds in them.
use Prim.Native.Nat.{◌∣◌}
use native.Mathlib.Nat.{mod-lt, pow-suc, pow-le-pow_right, dvd_refl, dvd-mul_right_of_dvd}
use es_shell_mirror.Prelude.{
  ℕ, zero, suc, ◌+◌, ◌%◌, ◌^◌, ◌≤◌, ◌<◌, ◌≡◌, refl, sym, ap, subst, inl, inr, some, CString, leb,
  streq, arith, Bool-cases, leb→le, leb→gt, streq→eq, streq_refl,
}
use es_shell_mirror.Dict.Hash.{strhash}
use es_shell_mirror.Dict.Table.{Slot, empty, dead, live, Dict, remain_of, get}
use es_shell_mirror.Dict.Probe.{
  Reaches, EmptyAhead, EmptyAhead-of, Found, get_loop-Found, get_loop-Reaches,
}

dvd-pow : (a b : ℕ) → a ≤ b → 2 ^ a ∣ 2 ^ b
dvd-pow a zero h = subst (λ m. 2 ^ m ∣ 2 ^ 0) {x = 0} (omega arith) (dvd_refl (2 ^ 0))
dvd-pow a (suc b) h = elim (Bool-cases (leb a b)) [
  | inl le ↦ rw (pow-suc 2 b) (dvd-mul_right_of_dvd (2 ^ a) (dvd-pow a b (leb→le a b le)) 2)
  | inr gt ↦
      subst (λ m. 2 ^ m ∣ 2 ^ suc b) {x = suc b} (omega (arith, leb→gt a b gt))
        (dvd_refl (2 ^ suc b))
]

module _ {ℓ} {V : Type ℓ} where
  unfoldable pub used_slot : Slot V → ℕ
  used_slot empty = 0
  used_slot dead = 1
  used_slot (live name v) = 1

  -- The slots below `n` that are not empty.
  unfoldable pub used : (ℕ → Slot V) → ℕ → ℕ
  used t zero = 0
  used t (suc n) = used_slot (t n) + used t n

  -- Some slot is empty where fewer are used.
  pub empty_below : (t : ℕ → Slot V) (n : ℕ) → used t n < n → (e : ℕ) × (e < n) × (t e ≡ empty)
  unfolding used used_slot
  empty_below t zero h = absurd (omega arith)
  empty_below t (suc n) h = go (t n) refl (empty_below t n)
    where
      go :
          (x : Slot V)
          → t n ≡ x
          → (used t n < n → (e : ℕ) × (e < n) × (t e ≡ empty))
          → (e : ℕ) × (e < suc n) × (t e ≡ empty)
      go empty at ih = (n, omega arith, at)
      go dead at ih =
          let (e, lt, at_e) = ih (omega (arith, ap used_slot at)) in (e, omega arith, at_e)
      go (live m v) at ih =
          let (e, lt, at_e) = ih (omega (arith, ap used_slot at)) in (e, omega arith, at_e)

-- A power of two for a size; every name is reached from its hash; no name stands twice; and
-- `remain` counts what may still be used.
pub record IsValid {ℓ} {V : Type ℓ} (d : Dict V) : Type ℓ where
  pub exponent : ℕ
  pub size_is : d.size ≡ 2 ^ exponent
  pub exponent_in : (1 ≤ exponent) × (exponent ≤ 64)
  pub reached :
      (i : ℕ) (name : CString) (v : V)
      → i < d.size
      → d.table i ≡ live name v
      → Reaches d.table d.size (strhash name % d.size) i
  pub unique :
      (i j : ℕ) (name : CString) (v w : V)
      → i < d.size
      → j < d.size
      → d.table i ≡ live name v
      → d.table j ≡ live name w
      → i ≡ j
  pub counted : used d.table d.size + d.remain ≡ remain_of d.size

module _ {ℓ} {V : Type ℓ} (d : Dict V) (valid : IsValid d) where
  pub size_ge : 2 ≤ d.size
  size_ge =
      rw valid.size_is
        (pow-le-pow_right {n = 2} (omega arith) {i = 1} {j = valid.exponent} valid.exponent_in.0)

  pub size_divides : d.size ∣ 2 ^ 64
  size_divides = rw valid.size_is (dvd-pow valid.exponent 64 valid.exponent_in.1)

  -- A search from any index meets an empty slot within one round of the table.
  pub empty_ahead : (i : ℕ) → i < d.size → (k : ℕ) × (k < d.size) × EmptyAhead d.table d.size i k
  empty_ahead i lt =
      let (e, e_in, at_e) = empty_below d.table d.size (omega (arith, valid.counted, size_ge)) in
      EmptyAhead-of d.table d.size i e lt e_in at_e

  -- The table holds the value under the name.
  abbrev pub Holds : CString → V → Type ℓ
  Holds name v = (i : ℕ) × (i < d.size) × (d.table i ≡ live name v)

  pub get_holds :
      (name : CString) (v : V) (i : ℕ) → i < d.size → d.table i ≡ live name v → get d name ≡ some i
  unfolding get
  get_holds name v i lt at =
      let (k, k_in, ahead) =
        empty_ahead (strhash name % d.size) (mod-lt (strhash name) (omega (arith, size_ge))) in
      get_loop-Reaches d (streq name) size_divides d.size (strhash name) (strhash name % d.size) i k
        name v refl (mod-lt (strhash name) (omega (arith, size_ge))) k_in ahead
        (valid.reached i name v lt at) at (streq_refl name)
        (λ m name' w m_in at_m same.
          valid.unique m i name w v m_in lt
            (subst (λ x. d.table m ≡ live x w) (sym (streq→eq name name' same)) at_m) at)

  pub get-Found : (name : CString) → Found d (streq name) size_divides (get d name)
  unfolding get
  get-Found name =
      get_loop-Found d (streq name) size_divides d.size (strhash name) (omega (arith, size_ge))
