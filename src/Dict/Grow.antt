-- ===== src/Dict/Grow.antt =====
-- Growth in dict.c: every entry of the old table gets into the new one, which never has to grow
-- itself, and `put` keeps what the table holds.
use native.Mathlib.Nat.{pow-suc, pow-le-pow_right}
use es_shell_mirror.Prelude.{
  ℕ, zero, suc, ◌+◌, ◌*◌, ◌%◌, ◌^◌, ◌≤◌, ◌<◌, ◌≡◌, ◌≢◌, refl, sym, ◌∙◌, ap, ap₂, subst, ◌⊎◌, inl,
  inr, false, CString, ◌==◌, leb, arith, Bool-cases, leb→le, leb→gt, ==→eq,
}
use es_shell_mirror.Dict.Hash.{strhash}
use es_shell_mirror.Dict.Table.{
  Slot, empty, dead, live, Dict, remain_of, grow, mkdict0, put_in, put_dropping, forall_below,
  dictforall, put,
}
use es_shell_mirror.Dict.Inv.{used, used_slot, IsValid, size_ge}
use es_shell_mirror.Dict.Store.{store_self, store_other, store_cases}
use es_shell_mirror.Dict.Insert.{PutAt, put_in_lem, put_in-IsValid}

used-none {ℓ} : (V : Type ℓ) (n : ℕ) → used {V = V} (λ i. empty) n ≡ 0
unfolding used used_slot
used-none V zero = refl
used-none V (suc n) = omega (arith, used-none V n)

module _ {ℓ} {V : Type ℓ} where
  used-le : (t : ℕ → Slot V) (m n : ℕ) → m ≤ n → used t m ≤ used t n
  unfolding used
  used-le t m zero le = subst (λ k. used t k ≤ used t 0) {x = 0} (omega arith) (omega arith)
  used-le t m (suc n) le = elim (Bool-cases (leb m n)) [
    | inl h ↦ omega (arith, used-le t m n (leb→le m n h))
    | inr h ↦
        subst (λ k. used t k ≤ used t (suc n)) {x = suc n} (omega (arith, leb→gt m n h))
          (omega arith)
  ]

  -- A table with no entry is valid.
  pub mkdict0-IsValid : (e : ℕ) → 1 ≤ e → e ≤ 64 → IsValid (mkdict0 {V = V} (2 ^ e))
  unfolding mkdict0
  mkdict0-IsValid e lo hi = record {
    exponent = e;
    size_is = refl;
    exponent_in = (lo, hi);
    reached = λ i name v lt at. cc;
    unique = λ i j name v w i_in j_in at_i at_j. cc;
    counted = omega (arith, used-none V (2 ^ e));
  }

-- What `put` does to the entries of a table, where the name is not in it.
pub record Added {ℓ} {V : Type ℓ} (d : Dict V) (name : CString) (v : V) (after : Dict V)
    : Type ℓ where
  pub kept :
      (other : CString) (w : V) (i : ℕ)
      → i < d.size
      → d.table i ≡ live other w
      → (j : ℕ) × (j < after.size) × (after.table j ≡ live other w)
  pub added : (j : ℕ) × (j < after.size) × (after.table j ≡ live name v)
  pub only :
      (other : CString) (w : V) (j : ℕ)
      → j < after.size
      → after.table j ≡ live other w
      → ((i : ℕ) × (i < d.size) × (d.table i ≡ live other w)) ⊎ ((name ≡ other) × (v ≡ w))

module _ {ℓ} {V : Type ℓ} (d : Dict V) (valid : IsValid d) (name : CString) (v : V)
    (has_room : 1 ≤ d.remain) where
  size-put_in : (put_in d name v).size ≡ d.size
  size-put_in = let p = put_in_lem d valid name v has_room in rw p.after_is

  remain-put_in : d.remain ≤ (put_in d name v).remain + 1
  unfolding used_slot
  remain-put_in =
      let p = put_in_lem d valid name v has_room in rw p.after_is (go p (d.table p.at) refl)
    where
      go :
          (p : PutAt d name v (strhash name % d.size) (put_in d name v)) (x : Slot V)
          → d.table p.at ≡ x
          → d.remain ≤ p.room + 1
      go p empty e = omega (arith, p.counts, ap used_slot e)
      go p dead e = omega (arith, p.counts, ap used_slot e)
      go p (live m w) e = omega (arith, p.counts, ap used_slot e)

  put_in-Added : Added d name v (put_in d name v)
  put_in-Added = go (put_in_lem d valid name v has_room)
    where
      go :
          PutAt d name v (strhash name % d.size) (put_in d name v)
          → Added d name v (put_in d name v)
      go p = rw p.after_is (record {
        kept = λ other w i lt at. (
          i,
          lt,
          store_other d.table p.at i (live name v) (λ e. p.free other w (ap d.table e ∙ at)) ∙ at,
        );
        added = (p.at, p.at_in, store_self d.table p.at (live name v));
        only = λ other w j lt at.
            elim (store_cases d.table p.at j (live name v) (live other w) at) [
              | inl q ↦ inr (cc, cc)
              | inr q ↦ inl (j, lt, q.1)
            ];
      })

room_left : (r : ℕ) → 2 ≤ r → leb r 1 ≡ false
room_left r h = ground arith

-- The new table when the slots below `i` of the old one have been copied into it.
record Copied {ℓ} {V : Type ℓ} (d : Dict V) (i : ℕ) (new : Dict V) : Type ℓ where
  valid : IsValid new
  doubled : new.size ≡ grow d.size
  few : used new.table new.size ≤ used d.table i
  kept :
      (name : CString) (v : V) (m : ℕ)
      → m < i
      → d.table m ≡ live name v
      → (j : ℕ) × (j < new.size) × (new.table j ≡ live name v)
  only :
      (name : CString) (v : V) (j : ℕ)
      → j < new.size
      → new.table j ≡ live name v
      → (m : ℕ) × (m < i) × (d.table m ≡ live name v)

module _ {ℓ} {V : Type ℓ} (d : Dict V) (valid : IsValid d) where
  -- The new table has room for one more than it holds.
  room_for_copy :
      (i : ℕ) (new : Dict V)
      → Copied d i new
      → 1 + used d.table i ≤ used d.table d.size
      → 2 ≤ new.remain
  room_for_copy i new c h = omega (
    arith,
    c.valid.counted,
    valid.counted,
    c.few,
    c.doubled,
    size_ge d valid,
    ap remain_of c.doubled,
  )

  Copied-live :
      (i : ℕ) (new : Dict V) (name : CString) (v : V)
      → i < d.size
      → d.table i ≡ live name v
      → Copied d i new
      → Copied d (suc i) (put_dropping new name v)
  unfolding put_dropping used used_slot
  Copied-live i new name v lt at c =
      let used_here : used d.table (suc i) ≡ 1 + used d.table i = omega (arith, ap used_slot at) in
      let room =
        room_for_copy i new c (omega (arith, used-le d.table (suc i) d.size lt, used_here)) in
      let absent : (m : ℕ) (w : V) → m < new.size → new.table m ≢ live name w = λ m w m_in at_m.
        let (k, k_in, at_k) = c.only name w m m_in at_m in
        absurd (omega (arith, valid.unique k i name w v (omega arith) lt at_k at)) in
      let has_room : 1 ≤ new.remain = omega arith in
      let after = put_in new name v in
      let add = put_in-Added new c.valid name v has_room in
      let after_valid = put_in-IsValid new c.valid name v has_room absent in
      rw (room_left new.remain room) (record {
        valid = after_valid;
        doubled = size-put_in new c.valid name v has_room ∙ c.doubled;
        few = omega (
          arith,
          c.valid.counted,
          after_valid.counted,
          c.few,
          used_here,
          remain-put_in new c.valid name v has_room,
          ap remain_of (size-put_in new c.valid name v has_room),
        );
        kept = λ other w m m_in at_m. elim (Bool-cases (m == i)) [
          | inl e ↦
              let same = ap d.table (==→eq m i e) in
              let (j, j_in, at_j) = add.added in (j, j_in, at_j ∙ (sym at ∙ sym same ∙ at_m))
          | inr e ↦
              let (j, j_in, at_j) = c.kept other w m (ground arith) at_m in
              add.kept other w j j_in at_j
        ];
        only = λ other w j j_in at_j. elim (add.only other w j j_in at_j) [
          | inl q ↦ let (m, m_in, at_m) = c.only other w q.0 q.1 q.2 in (m, omega arith, at_m)
          | inr q ↦ (i, omega arith, at ∙ ap₂ live q.0 q.1)
        ];
      })

  Copied-skip :
      (i : ℕ) (new : Dict V)
      → ((name : CString) (v : V) → d.table i ≢ live name v)
      → Copied d i new
      → Copied d (suc i) new
  Copied-skip i new none_here c = record {
    valid = c.valid;
    doubled = c.doubled;
    few = omega (arith, c.few, used-le d.table i (suc i) (omega arith));
    kept = λ other w m m_in at_m. elim (Bool-cases (m == i)) [
      | inl e ↦ absurd (none_here other w (ap d.table (sym (==→eq m i e)) ∙ at_m))
      | inr e ↦ c.kept other w m (ground arith) at_m
    ];
    only = λ other w j j_in at_j.
        let (m, m_in, at_m) = c.only other w j j_in at_j in (m, omega arith, at_m);
  }

  forall_below-Copied :
      (i : ℕ) (new : Dict V)
      → i ≤ d.size
      → Copied d zero new
      → Copied d i (forall_below i d put_dropping new)
  unfolding forall_below
  forall_below-Copied zero new le c = c
  forall_below-Copied (suc i) new le c =
      go (d.table i) refl (forall_below-Copied i new (omega arith) c)
    where
      before : Dict V
      before = forall_below i d put_dropping new

      go :
          (x : Slot V)
          → d.table i ≡ x
          → Copied d i before
          → Copied d (suc i) (forall_below (suc i) d put_dropping new)
      go empty at ih =
          rw (at, forall_below) (Copied-skip i before (λ name v e. ground (arith, at, e)) ih)
      go dead at ih =
          rw (at, forall_below) (Copied-skip i before (λ name v e. ground (arith, at, e)) ih)
      go (live name v) at ih =
          rw (at, forall_below) (Copied-live i before name v (omega arith) at ih)

  small_exponent : d.size < 2 ^ 30 → valid.exponent < 30
  small_exponent small = elim (Bool-cases (leb 30 valid.exponent)) [
    | inl h ↦ absurd (
        omega (
          arith,
          valid.size_is,
          pow-le-pow_right {n = 2} (omega arith) {i = 30} {j = valid.exponent}
              (leb→le 30 valid.exponent h),
        ))
    | inr h ↦ leb→gt 30 valid.exponent h
  ]

  fresh-IsValid : d.size < 2 ^ 30 → IsValid (mkdict0 {V = V} (grow d.size))
  fresh-IsValid small =
      subst (λ n. IsValid (mkdict0 {V = V} n))
        (pow-suc 2 valid.exponent ∙ ap (λ n. n * 2) (sym valid.size_is))
        (mkdict0-IsValid (suc valid.exponent) (omega arith) (omega (arith, small_exponent small)))

  fresh-Copied : d.size < 2 ^ 30 → Copied d zero (mkdict0 (grow d.size))
  unfolding mkdict0
  fresh-Copied small = record {
    valid = fresh-IsValid small;
    doubled = refl;
    few = omega (arith, used-none V (grow d.size));
    kept = λ name v m m_in at_m. absurd (omega arith);
    only = λ name v j j_in at_j. cc;
  }

  -- The copy of the whole table, in a table of twice the size.
  copy-Copied :
      d.size < 2 ^ 30 → Copied d d.size (dictforall d put_dropping (mkdict0 (grow d.size)))
  unfolding dictforall
  copy-Copied small =
      forall_below-Copied d.size (mkdict0 (grow d.size)) (omega arith) (fresh-Copied small)

  -- `put` of a name that is not there, with growth or without: the table stays valid, keeps its
  -- entries and has one more.
  pub put_lem :
      (name : CString) (v : V)
      → d.size < 2 ^ 30
      → ((m : ℕ) (w : V) → m < d.size → d.table m ≢ live name w)
      → IsValid (put d name v) × Added d name v (put d name v)
  unfolding put
  put_lem name v small absent = elim (Bool-cases (leb d.remain 1)) [
    | inl full ↦ rw full (grown (copy-Copied small))
    | inr room ↦
        let has_room : 1 ≤ d.remain = omega (arith, leb→gt d.remain 1 room) in
        rw room
          (put_in-IsValid d valid name v has_room absent, put_in-Added d valid name v has_room)
  ]
    where
      grown :
          {new : Dict V}
          → Copied d d.size new
          → IsValid (put_in new name v) × Added d name v (put_in new name v)
      grown {new} c =
          let has_room : 1 ≤ new.remain = omega (
            arith,
            c.valid.counted,
            valid.counted,
            c.few,
            c.doubled,
            size_ge d valid,
            ap remain_of c.doubled,
          ) in
          let none_there : (m : ℕ) (w : V) → m < new.size → new.table m ≢ live name w =
            λ m w m_in at_m.
              let (k, k_in, at_k) = c.only name w m m_in at_m in absent k w k_in at_k in
          let add = put_in-Added new c.valid name v has_room in
          (
            put_in-IsValid new c.valid name v has_room none_there,
            record {
              kept = λ other w i i_in at_i.
                  let (j, j_in, at_j) = c.kept other w i i_in at_i in add.kept other w j j_in at_j;
              added = add.added;
              only = λ other w j j_in at_j. elim (add.only other w j j_in at_j) [
                | inl q ↦ inl (c.only other w q.0 q.1 q.2)
                | inr q ↦ inr q
              ];
            },
          )
