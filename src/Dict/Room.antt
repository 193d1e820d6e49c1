-- ===== src/Dict/Room.antt =====
-- How the size of a table grows, and tables with room for a number of calls of `dictput`.
use es_shell_mirror.Prelude.{
  ℕ, zero, suc, ◌+◌, ◌*◌, ◌%◌, ◌^◌, ◌≤◌, ◌<◌, ◌≡◌, refl, ◌∙◌, CString, Option, none, some,
  if◌then◌else◌, arith, streq, Bool-cases, inl, inr, leb,
}
use es_shell_mirror.Dict.Hash.{strhash}
use es_shell_mirror.Dict.Table.{
  Slot, empty, dead, live, Dict, mkdict0, put_loop, put_in, put_dropping, forall_below, dictforall,
  put, skip_dead, clear_dead, rm, dictget, set_value, dictput, get, grow, prev_index, next_index,
  store,
}
use es_shell_mirror.Dict.Inv.{IsValid}
use es_shell_mirror.Dict.Refine.{dictput-IsValid, dictget-dictput}

-- A size after growing `n` times.
abbrev pub grown : ℕ → ℕ → ℕ
grown zero size = size
grown (suc n) size = grown n (2 * size)

grown-le : (n k m : ℕ) → k ≤ m → grown n k ≤ grown n m
grown-le zero k m h = h
grown-le (suc n) k m h = grown-le n (2 * k) (2 * m) (omega (arith, h))

le-grown : (n k : ℕ) → k ≤ grown n k
le-grown zero k = omega arith
le-grown (suc n) k = omega (arith, le-grown n (2 * k))

module _ {ℓ} {V : Type ℓ} where
  size-put_loop :
      (f : ℕ) (d : Dict V) (name : CString) (v : V) (n : ℕ) → (put_loop f d name v n).size ≡ d.size
  unfolding put_loop
  size-put_loop zero d name v n = refl
  size-put_loop (suc f) d name v n =
      go (size-put_loop f d name v (next_index n)) (d.table (n % d.size)) refl
    where
      go :
          (put_loop f d name v (next_index n)).size ≡ d.size
          → (s : Slot V) → d.table (n % d.size) ≡ s
          → (put_loop (suc f) d name v n).size ≡ d.size
      go ih empty e = rw (e, put_loop) refl
      go ih dead e = rw (e, put_loop) refl
      go ih (live _ _) e = rw (e, put_loop) ih

  size-put_dropping : (d : Dict V) (name : CString) (v : V) → (put_dropping d name v).size ≡ d.size
  unfolding put_dropping put_in
  size-put_dropping d name v = elim (Bool-cases (leb d.remain 1)) [
    | inl e ↦ rw e refl
    | inr e ↦ rw e (size-put_loop d.size d name v (strhash name))
  ]

  size-copy : (i : ℕ) (d new : Dict V) → (forall_below i d put_dropping new).size ≡ new.size
  unfolding forall_below
  size-copy zero d new = refl
  size-copy (suc i) d new = go (size-copy i d new) (d.table i) refl
    where
      go :
          (forall_below i d put_dropping new).size ≡ new.size
          → (s : Slot V) → d.table i ≡ s
          → (forall_below (suc i) d put_dropping new).size ≡ new.size
      go ih empty e = rw (e, forall_below) ih
      go ih dead e = rw (e, forall_below) ih
      go ih (live name v) e =
          rw (e, forall_below) (size-put_dropping (forall_below i d put_dropping new) name v ∙ ih)

  size-put : (d : Dict V) (name : CString) (v : V) → (put d name v).size ≤ 2 * d.size
  unfolding put put_in dictforall mkdict0
  size-put d name v = elim (Bool-cases (leb d.remain 1)) [
    | inl e ↦
        let new = dictforall d put_dropping (mkdict0 (grow d.size)) in
        rw e (
          omega (
            arith,
            size-put_loop new.size new name v (strhash name),
            size-copy d.size d (mkdict0 (grow d.size)),
          ))
    | inr e ↦ rw e (omega (arith, size-put_loop d.size d name v (strhash name)))
  ]

  size-clear_dead : (f : ℕ) (d : Dict V) (n : ℕ) → (clear_dead f d n).size ≡ d.size
  unfolding clear_dead
  size-clear_dead zero d n = refl
  size-clear_dead (suc f) d n =
      go
        (size-clear_dead f
          (record d { remain = d.remain + 1; table = store d.table (n % d.size) empty })
          (prev_index n))
        (d.table (n % d.size)) refl
    where
      go :
          (clear_dead f
              (record d { remain = d.remain + 1; table = store d.table (n % d.size) empty })
              (prev_index n)).size
            ≡ d.size
          → (s : Slot V) → d.table (n % d.size) ≡ s
          → (clear_dead (suc f) d n).size ≡ d.size
      go ih empty e = rw (e, clear_dead) refl
      go ih (live _ _) e = rw (e, clear_dead) refl
      go ih dead e = rw (e, clear_dead) ih

  size-rm : (d : Dict V) (i : ℕ) → (rm d i).size ≡ d.size
  unfolding rm
  size-rm d i =
      let marked : Dict V = record d { table = store d.table i dead } in
      go (marked.table (skip_dead d.size marked (next_index i) % d.size)) refl
    where
      marked : Dict V
      marked = record d { table = store d.table i dead }

      go :
          (s : Slot V)
          → marked.table (skip_dead d.size marked (next_index i) % d.size) ≡ s
          → (rm d i).size ≡ d.size
      go empty e =
          rw (e, rm)
            (size-clear_dead d.size marked (prev_index (skip_dead d.size marked (next_index i))))
      go dead e = rw (e, rm) refl
      go (live _ _) e = rw (e, rm) refl

  size-set_value : (d : Dict V) (i : ℕ) (v : V) → (set_value d i v).size ≡ d.size
  unfolding set_value
  size-set_value d i v = go (d.table i) refl
    where
      go : (s : Slot V) → d.table i ≡ s → (set_value d i v).size ≡ d.size
      go empty e = rw (e, set_value) refl
      go dead e = rw (e, set_value) refl
      go (live _ _) e = rw (e, set_value) refl

  size-dictput :
      (d : Dict V) (name : CString) (value : Option V) → (dictput d name value).size ≤ 2 * d.size
  unfolding dictput
  size-dictput d name (some v) = go (get d name) refl
    where
      go : (o : Option ℕ) → get d name ≡ o → (dictput d name (some v)).size ≤ 2 * d.size
      go none e = rw (e, dictput) (size-put d name v)
      go (some i) e = rw (e, dictput) (omega (arith, size-set_value d i v))
  size-dictput d name none = go (get d name) refl
    where
      go : (o : Option ℕ) → get d name ≡ o → (dictput d name none).size ≤ 2 * d.size
      go none e = rw (e, dictput) (omega arith)
      go (some i) e = rw (e, dictput) (omega (arith, size-rm d i))

  -- A valid table that stays below 2 ^ 30 slots if it grows `n` times.
  pub record Roomy (n : ℕ) (d : Dict V) : Type ℓ where
    pub valid : IsValid d
    pub room : grown n d.size < 2 ^ 30

  small : (n : ℕ) (d : Dict V) → Roomy n d → d.size < 2 ^ 30
  small n d h = omega (arith, h.room, le-grown n d.size)

  pub dictput-Roomy :
      (n : ℕ) (d : Dict V) (name : CString) (value : Option V)
      → Roomy (suc n) d
      → Roomy n (dictput d name value)
  dictput-Roomy n d name value h = record {
    valid = dictput-IsValid d name value h.valid (small (suc n) d h);
    room = omega (
      arith,
      h.room,
      grown-le n (dictput d name value).size (2 * d.size) (size-dictput d name value),
    );
  }

  pub get-put :
      (n : ℕ) (d : Dict V) (name : CString) (value : Option V) (other : CString)
      → Roomy n d
      → dictget (dictput d name value) other ≡ (if streq name other then value else dictget d other)
  get-put n d name value other h = dictget-dictput d name value other h.valid (small n d h)
