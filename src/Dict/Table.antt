-- ===== src/Dict/Table.antt =====
-- The tables of dict.c and their operations. `n & mask` is `n % size`: a size is a power of two.
use es_shell_mirror.Prelude.{
  ℕ, zero, suc, ◌+◌, ◌-◌, ◌*◌, ◌/◌, ◌%◌, ◌^◌, Bool, Option, none, some, CString, ◌==◌, leb,
  if◌then◌else◌, streq,
}
use es_shell_mirror.Dict.Hash.{strhash, strhash2, streq2}

-- An `Assoc`: its name is NULL, or `DEAD`, or a string beside the value.
pub data Slot {ℓ} (V : Type ℓ) : Type ℓ where
  empty : Slot V
  dead : Slot V
  live : CString → V → Slot V

-- `struct Dict`. The table is read and written below `size` only.
pub record Dict {ℓ} (V : Type ℓ) : Type ℓ where
  pub size : ℕ
  pub remain : ℕ
  pub table : ℕ → Slot V

-- `INIT_DICT_SIZE`, `REMAIN(n)` and `GROW(n)`
abbrev pub init_dict_size : ℕ
init_dict_size = 2

abbrev pub remain_of : ℕ → ℕ
remain_of n = n * 2 / 3

abbrev pub grow : ℕ → ℕ
grow n = n * 2

-- `n++` and `n--` on an `unsigned long`
abbrev pub next_index : ℕ → ℕ
next_index n = (n + 1) % 2 ^ 64

abbrev pub prev_index : ℕ → ℕ
prev_index n = (n + 2 ^ 64 - 1) % 2 ^ 64

module _ {ℓ} {V : Type ℓ} where
  -- `table[i] = x`
  abbrev pub store : (ℕ → Slot V) → ℕ → Slot V → ℕ → Slot V
  store t i x j = if i == j then x else t j

  unfoldable pub mkdict0 : ℕ → Dict V
  mkdict0 size = record { size = size; remain = remain_of size; table = λ i. empty }

  unfoldable pub mkdict : Dict V
  unfolding mkdict0
  mkdict = mkdict0 init_dict_size

  -- The loop of `get`, over the test for a name: the index of the slot that it stops at. A table
  -- has an empty slot, so fuel for one round of the table is enough.
  unfoldable pub get_loop : ℕ → Dict V → (CString → Bool) → ℕ → Option ℕ
  get_loop zero d is_name n = none
  get_loop (suc f) d is_name n =
      let rest = get_loop f d is_name (next_index n) in
      elim (d.table (n % d.size)) [
        | empty ↦ none
        | dead ↦ rest
        | live name v ↦ if is_name name then some (n % d.size) else rest
      ]

  unfoldable pub get : Dict V → CString → Option ℕ
  get d name = get_loop d.size d (streq name) (strhash name)

  -- The last loop of `put`: the first slot that is dead or empty.
  unfoldable pub put_loop : ℕ → Dict V → CString → V → ℕ → Dict V
  put_loop zero d name v n = d
  put_loop (suc f) d name v n =
      let rest = put_loop f d name v (next_index n) in
      elim (d.table (n % d.size)) [
        | empty ↦ record d {
          remain = d.remain - 1;
          table = store d.table (n % d.size) (live name v);
        }
        | dead ↦ record d { table = store d.table (n % d.size) (live name v) }
        | live _ _ ↦ rest
      ]

  -- `put` into a table that has room.
  unfoldable pub put_in : Dict V → CString → V → Dict V
  put_in d name v = put_loop d.size d name v (strhash name)

  -- The call of `put` on a new table whose result `dictforall` drops: had that table to grow, the
  -- entry would go to the copy and be lost.
  unfoldable pub put_dropping : Dict V → CString → V → Dict V
  put_dropping d name v = if leb d.remain 1 then d else put_in d name v

  -- `dictforall` over the first `i` slots, with a procedure that changes its argument.
  unfoldable pub forall_below : ℕ → {A : Type ℓ} → Dict V → (A → CString → V → A) → A → A
  forall_below zero d proc arg = arg
  forall_below (suc i) d proc arg =
      let before = forall_below i d proc arg in
      elim (d.table i) [ empty ↦ before | dead ↦ before | live name v ↦ proc before name v ]

  unfoldable pub dictforall : {A : Type ℓ} → Dict V → (A → CString → V → A) → A → A
  unfolding forall_below
  dictforall d proc arg = forall_below d.size d proc arg

  unfoldable pub put : Dict V → CString → V → Dict V
  put d name v =
      if leb d.remain 1
      then put_in (dictforall d put_dropping (mkdict0 (grow d.size))) name v
      else put_in d name v

  -- The first loop of `rm`: the first index from `n` on whose slot is not dead.
  unfoldable pub skip_dead : ℕ → Dict V → ℕ → ℕ
  skip_dead zero d n = n
  skip_dead (suc f) d n =
      let rest = skip_dead f d (next_index n) in
      elim (d.table (n % d.size)) [ empty ↦ n | dead ↦ rest | live _ _ ↦ n ]

  -- The second loop of `rm`: dead slots are emptied backwards.
  unfoldable pub clear_dead : ℕ → Dict V → ℕ → Dict V
  clear_dead zero d n = d
  clear_dead (suc f) d n =
      let cleared : Dict V = record d {
        remain = d.remain + 1;
        table = store d.table (n % d.size) empty;
      } in
      let rest = clear_dead f cleared (prev_index n) in
      elim (d.table (n % d.size)) [ empty ↦ d | dead ↦ rest | live _ _ ↦ d ]

  -- `rm` on the slot of index `i`.
  unfoldable pub rm : Dict V → ℕ → Dict V
  rm d i =
      let marked : Dict V = record d { table = store d.table i dead } in
      let n = skip_dead d.size marked (next_index i) in
      elim (marked.table (n % d.size)) [
        | empty ↦ clear_dead d.size marked (prev_index n)
        | dead ↦ marked
        | live _ _ ↦ marked
      ]

  unfoldable pub value_at : Dict V → Option ℕ → Option V
  value_at d none = none
  value_at d (some i) = elim (d.table i) [ empty ↦ none | dead ↦ none | live _ v ↦ some v ]

  unfoldable pub dictget : Dict V → CString → Option V
  dictget d name = value_at d (get d name)

  -- `ap->value = value`
  unfoldable pub set_value : Dict V → ℕ → V → Dict V
  set_value d i v = elim (d.table i) [
    | empty ↦ d
    | dead ↦ d
    | live name _ ↦ record d { table = store d.table i (live name v) }
  ]

  -- Without a value, the name is removed.
  unfoldable pub dictput : Dict V → CString → Option V → Dict V
  dictput d name (some v) = elim (get d name) [ none ↦ put d name v | some i ↦ set_value d i v ]
  dictput d name none = elim (get d name) [ none ↦ d | some i ↦ rm d i ]

  -- "look up the catenation of two names (such a hack!)"
  unfoldable pub dictget2 : Dict V → CString → CString → Option V
  dictget2 d name1 name2 =
      value_at d (get_loop d.size d (λ name. streq2 name name1 name2) (strhash2 name1 (some name2)))
