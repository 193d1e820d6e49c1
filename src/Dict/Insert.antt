-- ===== src/Dict/Insert.antt =====
-- `put` into a table with room, and the assignment of a value: both keep the table valid.
use native.Mathlib.Nat.{mod-lt}
use es_shell_mirror.Prelude.{
  ℕ, zero, suc, ◌+◌, ◌-◌, ◌%◌, ◌≤◌, ◌<◌, ◌≡◌, ◌≢◌, refl, ◌∙◌, ap, subst, CString, arith,
}
use es_shell_mirror.Dict.Hash.{strhash}
use es_shell_mirror.Dict.Table.{
  Slot, empty, dead, live, Dict, put_loop, put_in, next_index, set_value,
}
use es_shell_mirror.Dict.Probe.{
  Reaches, here, there, succ_in, next_index-mod, EmptyAhead, EmptyAhead-succ, EmptyAhead-ne,
}
use es_shell_mirror.Dict.Inv.{used_slot, IsValid, size_ge, size_divides, empty_ahead}
use es_shell_mirror.Dict.Store.{written, written-IsValid}

-- Where `put_loop` writes from the index `i` on: a free slot that the walk reaches.
pub record PutAt {ℓ} {V : Type ℓ} (d : Dict V) (name : CString) (v : V) (i : ℕ) (after : Dict V)
    : Type ℓ where
  pub at : ℕ
  pub at_in : at < d.size
  pub walk : Reaches d.table d.size i at
  pub free : (other : CString) (w : V) → d.table at ≢ live other w
  pub room : ℕ
  pub counts : used_slot (d.table at) + d.remain ≡ 1 + room
  pub after_is : after ≡ written d at (live name v) room

module _ {ℓ} {V : Type ℓ} (d : Dict V) (valid : IsValid d) (name : CString) (v : V)
    (has_room : 1 ≤ d.remain) where
  pass_live :
      (f n i : ℕ) (m : CString) (w : V)
      → n % d.size ≡ i
      → d.table i ≡ live m w
      → PutAt d name v (succ_in d.size i) (put_loop f d name v (next_index n))
      → PutAt d name v i (put_loop (suc f) d name v n)
  unfolding put_loop
  pass_live f n i m w e at p = record {
    at = p.at;
    at_in = p.at_in;
    walk = there (λ h. ground (arith, at, h)) p.walk;
    free = p.free;
    room = p.room;
    counts = p.counts;
    after_is = rw (e, at, put_loop) p.after_is;
  }

  put_loop_lem :
      (f n i k : ℕ)
      → n % d.size ≡ i
      → i < d.size
      → k < f
      → EmptyAhead d.table d.size i k
      → PutAt d name v i (put_loop f d name v n)
  unfolding put_loop used_slot
  put_loop_lem zero n i k e lt kf ahead = absurd (omega arith)
  put_loop_lem (suc f) n i k e lt kf ahead =
      go k (d.table i) refl kf ahead (put_loop_lem f (next_index n) (succ_in d.size i))
    where
      go :
          (k : ℕ) (x : Slot V)
          → d.table i ≡ x
          → k < suc f
          → EmptyAhead d.table d.size i k
          → ((k' : ℕ)
              → next_index n % d.size ≡ succ_in d.size i
              → succ_in d.size i < d.size
              → k' < f
              → EmptyAhead d.table d.size (succ_in d.size i) k'
              → PutAt d name v (succ_in d.size i) (put_loop f d name v (next_index n)))
          → PutAt d name v i (put_loop (suc f) d name v n)
      go k empty at kf ahead ih = record {
        at = i;
        at_in = lt;
        walk = here;
        free = λ other w same. ground (arith, at, same);
        room = d.remain - 1;
        counts = omega (arith, ap used_slot at);
        after_is = rw (e, at, put_loop) (ap (λ m. written d m (live name v) (d.remain - 1)) e);
      }
      go k dead at kf ahead ih = record {
        at = i;
        at_in = lt;
        walk = here;
        free = λ other w same. ground (arith, at, same);
        room = d.remain;
        counts = omega (arith, ap used_slot at);
        after_is = rw (e, at, put_loop) (ap (λ m. written d m (live name v) d.remain) e);
      }
      go zero (live m w) at kf ahead ih =
          absurd (EmptyAhead-ne d.table d.size i lt (λ h. ground (arith, at, h)) ahead)
      go (suc k) (live m w) at kf ahead ih = pass_live f n i m w e at (
          ih k (next_index-mod d.size n (size_divides d valid) ∙ ap (succ_in d.size) e)
            (mod-lt (i + 1) (omega arith)) (omega arith) (EmptyAhead-succ d.table d.size i k ahead))

  pub put_in_lem : PutAt d name v (strhash name % d.size) (put_in d name v)
  unfolding put_in
  put_in_lem =
      let i_in = mod-lt (strhash name) {m = d.size} (omega (arith, size_ge d valid)) in
      let (k, k_in, ahead) = empty_ahead d valid (strhash name % d.size) i_in in
      put_loop_lem d.size (strhash name) (strhash name % d.size) k refl i_in k_in ahead

  -- `put` of a name that is not there keeps the table valid.
  pub put_in-IsValid :
      ((m : ℕ) (w : V) → m < d.size → d.table m ≢ live name w) → IsValid (put_in d name v)
  unfolding used_slot
  put_in-IsValid absent =
      let p = put_in_lem in
      rw p.after_is (
        written-IsValid d valid p.at p.at_in (live name v) p.room (λ e. cc)
          (λ other w e. subst (λ o. Reaches d.table d.size (strhash o % d.size) p.at) (cc) p.walk)
          (λ other w w' m e m_in at_m. absurd (absent m w' m_in (cc))) p.counts)

module _ {ℓ} {V : Type ℓ} (d : Dict V) (valid : IsValid d) (i : ℕ) (i_in : i < d.size)
    (name : CString) (v0 v : V) (at : d.table i ≡ live name v0) where
  pub set_value_lem : set_value d i v ≡ written d i (live name v) d.remain
  unfolding set_value
  set_value_lem = rw (at, set_value)

  -- The assignment of a value keeps the table valid.
  pub set_value-IsValid : IsValid (set_value d i v)
  unfolding used_slot
  set_value-IsValid = rw set_value_lem (
      written-IsValid d valid i i_in (live name v) d.remain (λ e. cc)
        (λ other w e. valid.reached i other v0 i_in (at ∙ ap (λ o. live o v0) (cc)))
        (λ other w w' m e m_in at_m. valid.unique i m name v0 w' i_in m_in at (cc))
        (omega (arith, ap used_slot at)))
