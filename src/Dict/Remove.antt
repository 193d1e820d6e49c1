-- ===== src/Dict/Remove.antt =====
-- `rm`: the slot is marked dead, and dead slots before an empty one are emptied.
use Prim.Native.Nat.{◌∣◌}
use native.Mathlib.Nat.{mod-lt, mod-mod_of_dvd, mod-add-mod, add-mod-mod, mod-eq-zero_of_dvd}
use es_shell_mirror.Prelude.{
  ℕ, zero, suc, ◌+◌, ◌-◌, ◌%◌, ◌^◌, ◌<◌, ◌≡◌, ◌≢◌, refl, sym, ◌∙◌, ap, inl, inr, CString, ◌==◌,
  arith, Bool-cases, ==→eq,
}
use es_shell_mirror.Dict.Table.{
  Slot, empty, dead, live, Dict, store, rm, clear_dead, skip_dead, next_index, prev_index,
}
use es_shell_mirror.Dict.Probe.{
  Reaches, here, there, succ_in, next_index-mod, EmptyAhead, EmptyAhead-succ, EmptyAhead-ne,
}
use es_shell_mirror.Dict.Inv.{used_slot, IsValid, size_ge, size_divides}
use es_shell_mirror.Dict.Store.{written, written-IsValid, store_self, store_cases, used-store}

prev_index-mod : (s n : ℕ) → s ∣ 2 ^ 64 → succ_in s (prev_index n % s) ≡ n % s
prev_index-mod s n h =
    ap (λ m. (m + 1) % s) (mod-mod_of_dvd s (n + 2 ^ 64 - 1) h)
    ∙ mod-add-mod (n + 2 ^ 64 - 1) s 1
    ∙ ap (λ m. m % s) (omega arith)
    ∙ sym (add-mod-mod n (2 ^ 64) s)
    ∙ ap (λ m. (n + m) % s) (mod-eq-zero_of_dvd s h)
    ∙ ap (λ m. m % s) (omega arith)

-- The same live slots, in a table of the same size.
pub record SameLive {ℓ} {V : Type ℓ} (d d' : Dict V) : Type ℓ where
  pub same_size : d'.size ≡ d.size
  pub kept : (j : ℕ) (name : CString) (v : V) → d.table j ≡ live name v → d'.table j ≡ live name v
  pub old : (j : ℕ) (name : CString) (v : V) → d'.table j ≡ live name v → d.table j ≡ live name v

module _ {ℓ} {V : Type ℓ} where
  SameLive-refl : (d : Dict V) → SameLive d d
  SameLive-refl d = record { same_size = refl; kept = λ j name v h. h; old = λ j name v h. h }

  -- A walk to a live slot does not go through a slot that an empty one follows.
  Reaches-empty :
      (t : ℕ → Slot V) (s i : ℕ) {a j : ℕ} (name : CString) (v : V)
      → t (succ_in s i) ≡ empty
      → t j ≡ live name v
      → Reaches t s a j
      → Reaches (store t i empty) s a j
  Reaches-empty t s i name v next at here = here
  Reaches-empty t s i {a} name v next at (there a_used here) =
      there
        (λ e. elim (store_cases t i a empty empty e) [
          | inl p ↦ ground (arith, ap (λ m. t (succ_in s m)) p.0, next, at)
          | inr p ↦ a_used p.1
        ])
        here
  Reaches-empty t s i {a} name v next at (there a_used (there b_used r)) =
      there
        (λ e. elim (store_cases t i a empty empty e) [
          | inl p ↦ b_used (ap (λ m. t (succ_in s m)) (sym p.0) ∙ next)
          | inr p ↦ a_used p.1
        ])
        (Reaches-empty t s i name v next at (there b_used r))

-- One slot that is emptied.
module _ {ℓ} {V : Type ℓ} (d : Dict V) (valid : IsValid d) (i : ℕ) (i_in : i < d.size)
    (at : d.table i ≡ dead) (next : d.table (succ_in d.size i) ≡ empty) where
  clear_one-IsValid : IsValid (written d i empty (d.remain + 1))
  unfolding used_slot
  clear_one-IsValid = record {
    exponent = valid.exponent;
    size_is = valid.size_is;
    exponent_in = valid.exponent_in;
    reached = λ j name v lt at_j. elim (store_cases d.table i j empty (live name v) at_j) [
      | inl p ↦ cc
      | inr p ↦ Reaches-empty d.table d.size i name v next p.1 (valid.reached j name v lt p.1)
    ];
    unique = λ j k name v w j_in k_in at_j at_k.
        elim (store_cases d.table i j empty (live name v) at_j) [
          | inl p ↦ cc
          | inr p ↦ elim (store_cases d.table i k empty (live name w) at_k) [
            | inl p' ↦ cc
            | inr p' ↦ valid.unique j k name v w j_in k_in p.1 p'.1
          ]
        ];
    counted = omega (arith, used-store d.table i d.size empty i_in, valid.counted, ap used_slot at);
  }

  clear_one-SameLive : SameLive d (written d i empty (d.remain + 1))
  clear_one-SameLive = record {
    same_size = refl;
    kept = λ j name v h. elim (Bool-cases (i == j)) [
      | inl e ↦ ground (arith, ap d.table (==→eq i j e), at, h)
      | inr e ↦ rw e h
    ];
    old = λ j name v h. elim (store_cases d.table i j empty (live name v) h) [
      | inl p ↦ cc
      | inr p ↦ p.1
    ];
  }

SameLive-trans {ℓ} : {V : Type ℓ} (a b c : Dict V) → SameLive a b → SameLive b c → SameLive a c
SameLive-trans a b c p q = record {
  same_size = q.same_size ∙ p.same_size;
  kept = λ j name v h. q.kept j name v (p.kept j name v h);
  old = λ j name v h. p.old j name v (q.old j name v h);
}

module _ {ℓ} {V : Type ℓ} where
  clear_dead_lem :
      (f : ℕ) (d : Dict V) (n : ℕ)
      → IsValid d
      → d.table (succ_in d.size (n % d.size)) ≡ empty
      → IsValid (clear_dead f d n) × SameLive d (clear_dead f d n)
  unfolding clear_dead
  clear_dead_lem zero d n valid next = (valid, SameLive-refl d)
  clear_dead_lem (suc f) d n valid next =
      go (d.table (n % d.size)) refl
        (clear_dead_lem f (written d (n % d.size) empty (d.remain + 1)) (prev_index n))
    where
      i_in : n % d.size < d.size
      i_in = mod-lt n (omega (arith, size_ge d valid))

      go :
          (x : Slot V)
          → d.table (n % d.size) ≡ x
          → (IsValid (written d (n % d.size) empty (d.remain + 1))
              → store d.table (n % d.size) empty (succ_in d.size (prev_index n % d.size)) ≡ empty
              → IsValid (clear_dead f (written d (n % d.size) empty (d.remain + 1)) (prev_index n))
                × SameLive
                    (written d (n % d.size) empty (d.remain + 1))
                    (clear_dead f (written d (n % d.size) empty (d.remain + 1)) (prev_index n)))
          → IsValid (clear_dead (suc f) d n) × SameLive d (clear_dead (suc f) d n)
      go empty at ih = rw (at, clear_dead) (valid, SameLive-refl d)
      go (live m w) at ih = rw (at, clear_dead) (valid, SameLive-refl d)
      go dead at ih =
          let r = ih (clear_one-IsValid d valid (n % d.size) i_in at next) (
            ap (store d.table (n % d.size) empty) (prev_index-mod d.size n (size_divides d valid))
            ∙ store_self d.table (n % d.size) empty) in
          rw (at, clear_dead)
            (r.0, SameLive-trans d _ _ (clear_one-SameLive d valid (n % d.size) i_in at next) r.1)

module _ {ℓ} {V : Type ℓ} (d : Dict V) (valid : IsValid d) where
  -- The forward loop of `rm` stops at a slot that is not dead.
  skip_dead_ends :
      (f n i k : ℕ)
      → n % d.size ≡ i
      → i < d.size
      → k < f
      → EmptyAhead d.table d.size i k
      → d.table (skip_dead f d n % d.size) ≢ dead
  unfolding skip_dead
  skip_dead_ends zero n i k e lt kf ahead = absurd (omega arith)
  skip_dead_ends (suc f) n i zero e lt kf ahead = go (d.table i) refl
    where
      go : (x : Slot V) → d.table i ≡ x → d.table (skip_dead (suc f) d n % d.size) ≢ dead
      go empty at = rw (e, at, skip_dead) (rw (e, at) (λ h. cc))
      go dead at = absurd (EmptyAhead-ne d.table d.size i lt (λ h. ground (arith, at, h)) ahead)
      go (live m w) at = rw (e, at, skip_dead) (rw (e, at) (λ h. cc))
  skip_dead_ends (suc f) n i (suc k) e lt kf ahead = go (d.table i) refl (
      skip_dead_ends f (next_index n) (succ_in d.size i) k
        (next_index-mod d.size n (size_divides d valid) ∙ ap (succ_in d.size) e)
        (mod-lt (i + 1) (omega arith)) (omega arith) (EmptyAhead-succ d.table d.size i k ahead))
    where
      go :
          (x : Slot V)
          → d.table i ≡ x
          → d.table (skip_dead f d (next_index n) % d.size) ≢ dead
          → d.table (skip_dead (suc f) d n % d.size) ≢ dead
      go empty at ih = rw (e, at, skip_dead) (rw (e, at) (λ h. cc))
      go dead at ih = rw (e, at, skip_dead) ih
      go (live m w) at ih = rw (e, at, skip_dead) (rw (e, at) (λ h. cc))

module _ {ℓ} {V : Type ℓ} (d : Dict V) (valid : IsValid d) (i : ℕ) (i_in : i < d.size)
    (name : CString) (v : V) (at : d.table i ≡ live name v) where
  abbrev marked : Dict V
  marked = written d i dead d.remain

  marked-IsValid : IsValid marked
  unfolding used_slot
  marked-IsValid =
      written-IsValid d valid i i_in dead d.remain (λ e. cc) (λ other w e. cc)
        (λ other w w' m e m_in at_m. cc) (omega (arith, ap used_slot at))

  -- `rm` keeps the table valid, and takes the one name out of it.
  pub rm_lem : IsValid (rm d i) × SameLive marked (rm d i)
  unfolding rm
  rm_lem = go (marked.table (n % d.size)) refl
    where
      n : ℕ
      n = skip_dead d.size marked (next_index i)

      go :
          (x : Slot V) → marked.table (n % d.size) ≡ x → IsValid (rm d i) × SameLive marked (rm d i)
      go dead e = rw (e, rm) (marked-IsValid, SameLive-refl marked)
      go (live m w) e = rw (e, rm) (marked-IsValid, SameLive-refl marked)
      go empty e =
          rw (e, rm)
            (clear_dead_lem d.size marked (prev_index n) marked-IsValid
              (ap marked.table (prev_index-mod d.size n (size_divides d valid)) ∙ e))
