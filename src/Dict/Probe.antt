-- ===== src/Dict/Probe.antt =====
-- Probing in dict.c: what the search for a name finds, and that it ends.
use Prim.Native.Nat.{◌∣◌}
use native.Mathlib.Nat.{mod-mod_of_dvd, mod-add-mod, mod-eq_of_lt, mod-lt, add-mod_right}
use es_shell_mirror.Prelude.{
  ℕ, zero, suc, ◌+◌, ◌-◌, ◌%◌, ◌^◌, ◌<◌, ◌≡◌, ◌≢◌, refl, sym, ◌∙◌, ap, subst, ◌⊎◌, inl, inr, Bool,
  true, Option, none, some, CString, leb, arith, Bool-cases, leb→le, leb→gt,
}
use es_shell_mirror.Dict.Table.{Slot, empty, dead, live, Dict, next_index, get_loop}

-- One step round the table.
abbrev pub succ_in : ℕ → ℕ → ℕ
succ_in s i = (i + 1) % s

pub next_index-mod : (s n : ℕ) → s ∣ 2 ^ 64 → next_index n % s ≡ succ_in s (n % s)
next_index-mod s n h = mod-mod_of_dvd s (n + 1) h ∙ sym (mod-add-mod n s 1)

pub Slot-cases {ℓ} : {V : Type ℓ} (x : Slot V) → (x ≡ empty) ⊎ (x ≢ empty)
Slot-cases empty = inl refl
Slot-cases dead = inr (λ e. cc)
Slot-cases (live n v) = inr (λ e. cc)

module _ {ℓ} {V : Type ℓ} where
  -- A walk through slots that are not empty.
  pub data Reaches (t : ℕ → Slot V) (s : ℕ) : ℕ → ℕ → Type ℓ where
    here : {i : ℕ} → Reaches t s i i
    there : {i j : ℕ} → t i ≢ empty → Reaches t s (succ_in s i) j → Reaches t s i j

  -- An empty slot is `k` steps ahead of the index `i`.
  abbrev pub EmptyAhead : (ℕ → Slot V) → ℕ → ℕ → ℕ → Type ℓ
  EmptyAhead t s i k = t ((i + k) % s) ≡ empty

  pub EmptyAhead-succ :
      (t : ℕ → Slot V) (s i k : ℕ) → EmptyAhead t s i (suc k) → EmptyAhead t s (succ_in s i) k
  EmptyAhead-succ t s i k h =
      rw (mod-add-mod (i + 1) s k) (subst (λ m. t (m % s) ≡ empty) (omega arith) h)

  pub EmptyAhead-ne : (t : ℕ → Slot V) (s i : ℕ) → i < s → t i ≢ empty → EmptyAhead t s i zero → ⊥
  EmptyAhead-ne t s i lt ne h =
      ne (ap t (sym (mod-eq_of_lt {n = i + 0} {m = s} (omega arith) ∙ omega arith)) ∙ h)

  -- From an empty slot anywhere there is one ahead, within one round.
  pub EmptyAhead-of :
      (t : ℕ → Slot V) (s i e : ℕ)
      → i < s
      → e < s
      → t e ≡ empty
      → (k : ℕ) × (k < s) × EmptyAhead t s i k
  EmptyAhead-of t s i e hi he h = elim (Bool-cases (leb i e)) [
    | inl le ↦
        let below = leb→le i e le in
        let back : (i + (e - i)) % s ≡ e = ap (λ m. m % s) (omega arith) ∙ mod-eq_of_lt he in
        (e - i, omega arith, subst (λ m. t m ≡ empty) (sym back) h)
    | inr gt ↦
        let above = leb→gt i e gt in
        let back : (i + (e + s - i)) % s ≡ e =
          ap (λ m. m % s) (omega arith) ∙ add-mod_right e s ∙ mod-eq_of_lt he in
        (e + s - i, omega arith, subst (λ m. t m ≡ empty) (sym back) h)
  ]

-- The search over a test for one name.
module _ {ℓ} {V : Type ℓ} (d : Dict V) (is_name : CString → Bool) (divides : d.size ∣ 2 ^ 64) where
  -- What is found has the name.
  abbrev pub Found : Option ℕ → Type ℓ
  Found none = Unit
  Found (some i) =
      (name : CString) × (v : V) × (i < d.size) × (d.table i ≡ live name v) × (is_name name ≡ true)

  pub get_loop-Found : (f n : ℕ) → 0 < d.size → Found (get_loop f d is_name n)
  unfolding get_loop
  get_loop-Found zero n pos = tt
  get_loop-Found (suc f) n pos =
      go (d.table (n % d.size)) refl (get_loop-Found f (next_index n) pos)
    where
      go :
          (x : Slot V)
          → d.table (n % d.size) ≡ x
          → Found (get_loop f d is_name (next_index n))
          → Found (get_loop (suc f) d is_name n)
      go empty e ih = rw (e, get_loop) tt
      go dead e ih = rw (e, get_loop) ih
      go (live name v) e ih = elim (Bool-cases (is_name name)) [
        | inl y ↦ rw (e, get_loop, y) (name, v, mod-lt n pos, e, y)
        | inr no_match ↦ rw (e, get_loop, no_match) ih
      ]

  -- A slot that the walk reaches is found, if it alone has the name.
  pub get_loop-Reaches :
      (f n i j k : ℕ) (name : CString) (v : V)
      → n % d.size ≡ i
      → i < d.size
      → k < f
      → EmptyAhead d.table d.size i k
      → Reaches d.table d.size i j
      → d.table j ≡ live name v
      → is_name name ≡ true
      → ((m : ℕ) (name' : CString) (w : V)
          → m < d.size
          → d.table m ≡ live name' w
          → is_name name' ≡ true
          → m ≡ j)
      → get_loop f d is_name n ≡ some j
  unfolding get_loop
  get_loop-Reaches zero n i j k name v e lt kf ahead r at y only = absurd (omega arith)
  get_loop-Reaches (suc f) n i j k name v e lt kf ahead here at y only =
      rw (e, at, get_loop, y) (ap some e)
  get_loop-Reaches (suc f) n i j zero name v e lt kf ahead (there ne r) at y only =
      absurd (EmptyAhead-ne d.table d.size i lt ne ahead)
  get_loop-Reaches (suc f) n i j (suc k) name v e lt kf ahead (there ne r) at y only =
      go (d.table i) refl (
        get_loop-Reaches f (next_index n) (succ_in d.size i) j k name v
          (next_index-mod d.size n divides ∙ ap (succ_in d.size) e) (mod-lt (i + 1) (omega arith))
          (omega arith) (EmptyAhead-succ d.table d.size i k ahead) r at y only)
    where
      go :
          (x : Slot V)
          → d.table i ≡ x
          → get_loop f d is_name (next_index n) ≡ some j
          → get_loop (suc f) d is_name n ≡ some j
      go empty at_i ih = absurd (ne at_i)
      go dead at_i ih = rw (e, at_i, get_loop) ih
      go (live name' w) at_i ih = elim (Bool-cases (is_name name')) [
        | inl y' ↦ rw (e, at_i, get_loop, y') (ap some (e ∙ only i name' w lt at_i y'))
        | inr n' ↦ rw (e, at_i, get_loop, n') ih
      ]
