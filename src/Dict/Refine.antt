-- ===== src/Dict/Refine.antt =====
-- The dictionary that clients of dict.c see: a function from names to values.
use es_shell_mirror.Prelude.{
  ℕ, ◌^◌, ◌<◌, ◌≡◌, ◌≢◌, refl, sym, ◌∙◌, ap, ap₂, subst, ◌⊎◌, inl, inr, Bool, Option, none, some,
  ◌++◌, CString, if◌then◌else◌, streq, arith, Bool-cases, streq→eq, streq_refl, some_inj,
}
use mathlib.Core.Path.{fun_ext}
use es_shell_mirror.Dict.Hash.{strhash, strhash2-append, streq2, streq2-append}
use es_shell_mirror.Dict.Table.{
  dead, live, Dict, mkdict, get, get_loop, value_at, dictget, dictget2, dictput, put, rm, set_value,
}
use es_shell_mirror.Dict.Inv.{IsValid, Holds, get_holds, get-Found, size_divides}
use es_shell_mirror.Dict.Probe.{Found}
use es_shell_mirror.Dict.Store.{store_self, store_other, store_cases}
use es_shell_mirror.Dict.Insert.{set_value_lem, set_value-IsValid}
use es_shell_mirror.Dict.Remove.{rm_lem}
use es_shell_mirror.Dict.Grow.{mkdict0-IsValid, put_lem}

Option-ext {ℓ} :
    {V : Type ℓ} (o o' : Option V)
    → ((v : V) → o ≡ some v → o' ≡ some v)
    → ((v : V) → o' ≡ some v → o ≡ some v)
    → o ≡ o'
Option-ext none none f g = refl
Option-ext none (some v) f g = g v refl
Option-ext (some v) o' f g = sym (f v refl)

module _ {ℓ} {V : Type ℓ} (d : Dict V) (valid : IsValid d) where
  value_at_live :
      (i : ℕ) (name : CString) (v : V) → d.table i ≡ live name v → value_at d (some i) ≡ some v
  unfolding value_at
  value_at_live i name v at = rw (at, value_at)

  dictget-eq : (name : CString) (v : V) → Holds d valid name v → dictget d name ≡ some v
  unfolding dictget
  dictget-eq name v (i, i_in, at) =
      rw (get_holds d valid name v i i_in at) (value_at_live i name v at)

  dictget-Holds : (name : CString) (v : V) → dictget d name ≡ some v → Holds d valid name v
  unfolding dictget
  dictget-Holds name v h = go (get d name) refl (get-Found d valid name)
    where
      go :
          (o : Option ℕ)
          → get d name ≡ o
          → Found d (streq name) (size_divides d valid) o
          → Holds d valid name v
      go none e found = unfold value_at in ground (arith, ap (value_at d) e, h)
      go (some i) e (name', w, i_in, at, same) =
          let value : some w ≡ some v =
            sym (value_at_live i name' w at) ∙ ap (value_at d) (sym e) ∙ h in
          (i, i_in, at ∙ ap₂ live (sym (streq→eq name name' same)) (some_inj value))

  absent_of :
      (name : CString) → get d name ≡ none → (m : ℕ) (w : V) → m < d.size → d.table m ≢ live name w
  absent_of name e m w m_in at = ground (arith, get_holds d valid name w m m_in at, e)

-- `after` is `d` with the name's value, or its absence, put in.
record Updated {ℓ} {V : Type ℓ} (d : Dict V) (name : CString) (value : Option V) (after : Dict V)
    : Type ℓ where
  valid' : IsValid after
  new :
      (other : CString) (w : V) (j : ℕ)
      → j < after.size
      → after.table j ≡ live other w
      → ((name ≡ other) × (value ≡ some w))
        ⊎ ((name ≢ other) × ((i : ℕ) × (i < d.size) × (d.table i ≡ live other w)))
  kept :
      (other : CString) (w : V) (i : ℕ)
      → name ≢ other
      → i < d.size
      → d.table i ≡ live other w
      → (j : ℕ) × (j < after.size) × (after.table j ≡ live other w)
  there_now : (w : V) → value ≡ some w → (j : ℕ) × (j < after.size) × (after.table j ≡ live name w)

module _ {ℓ} {V : Type ℓ} (d : Dict V) (valid : IsValid d) (name : CString) where
  put-Updated :
      (v : V) → d.size < 2 ^ 30 → get d name ≡ none → Updated d name (some v) (put d name v)
  put-Updated v small e =
      let (valid_after, add) = put_lem d valid name v small (absent_of d valid name e) in
      record {
        valid' = valid_after;
        new = λ other w j j_in at. elim (add.only other w j j_in at) [
          | inl q ↦
              inr (
                λ same. absent_of d valid name e q.0 w q.1 (q.2 ∙ ap (λ o. live o w) (sym same)),
                q,
              )
          | inr q ↦ inl (q.0, ap some q.1)
        ];
        kept = λ other w i ne i_in at. add.kept other w i i_in at;
        there_now = λ w same.
            let (j, j_in, at) = add.added in (j, j_in, at ∙ ap (live name) (some_inj same));
      }

  module _ (i : ℕ) (i_in : i < d.size) (v0 : V) (at : d.table i ≡ live name v0) where
    elsewhere :
        (other : CString) (w : V) (j : ℕ)
        → j < d.size
        → i ≢ j
        → d.table j ≡ live other w
        → name ≢ other
    elsewhere other w j j_in ne at_j same =
        ne (valid.unique i j name v0 w i_in j_in at (at_j ∙ ap (λ o. live o w) (sym same)))

    other_slot : (other : CString) (w : V) (j : ℕ) → name ≢ other → d.table j ≡ live other w → i ≢ j
    other_slot other w j ne at_j same = ground (arith, ap d.table same, at, at_j)

    set_value-Updated : (v : V) → Updated d name (some v) (set_value d i v)
    set_value-Updated v = record {
      valid' = set_value-IsValid d valid i i_in name v0 v at;
      new = rw (set_value_lem d valid i i_in name v0 v at) λ other w j j_in at_j.
          elim (store_cases d.table i j (live name v) (live other w) at_j) [
            | inl q ↦ inl (cc, cc)
            | inr q ↦ inr (elsewhere other w j j_in q.0 q.1, (j, j_in, q.1))
          ];
      kept = rw (set_value_lem d valid i i_in name v0 v at) λ other w j ne j_in at_j.
          (j, j_in, store_other d.table i j (live name v) (other_slot other w j ne at_j) ∙ at_j);
      there_now =
          rw (set_value_lem d valid i i_in name v0 v at) λ w same.
            (i, i_in, store_self d.table i (live name v) ∙ ap (live name) (some_inj same));
    }

    rm-Updated : Updated d name none (rm d i)
    rm-Updated =
        let (valid_after, same) = rm_lem d valid i i_in name v0 at in
        record {
          valid' = valid_after;
          new = λ other w j j_in at_j.
              elim (store_cases d.table i j dead (live other w) (same.old j other w at_j)) [
                | inl q ↦ cc
                | inr q ↦
                    let j_in' : j < d.size = omega (arith, same.same_size) in
                    inr (elsewhere other w j j_in' q.0 q.1, (j, j_in', q.1))
              ];
          kept = λ other w j ne j_in at_j. (
            j,
            omega (arith, same.same_size),
            same.kept j other w
                (store_other d.table i j dead (other_slot other w j ne at_j) ∙ at_j),
          );
          there_now = λ w no_value. cc;
        }

module _ {ℓ} {V : Type ℓ} (d : Dict V) (valid : IsValid d) where
  dictput-Updated :
      (name : CString) (value : Option V)
      → d.size < 2 ^ 30
      → Updated d name value (dictput d name value)
  unfolding dictput
  dictput-Updated name value small = go value (get d name) refl (get-Found d valid name)
    where
      go :
          (value : Option V) (o : Option ℕ)
          → get d name ≡ o
          → Found d (streq name) (size_divides d valid) o
          → Updated d name value (dictput d name value)
      go (some v) none e found = rw (e, dictput) (put-Updated d valid name v small e)
      go none none e found =
          rw (e, dictput)
            (record {
              valid' = valid;
              new = λ other w j j_in at. inr (
                λ same. absent_of d valid name e j w j_in (at ∙ ap (λ o. live o w) (sym same)),
                (j, j_in, at),
              );
              kept = λ other w i ne i_in at. (i, i_in, at);
              there_now = λ w no_value. cc;
            })
      go (some v) (some i) e (name', v0, i_in, at, same) =
          rw (e, dictput)
            (set_value-Updated d valid name i i_in v0
              (at ∙ ap (λ o. live o v0) (sym (streq→eq name name' same))) v)
      go none (some i) e (name', v0, i_in, at, same) =
          rw (e, dictput)
            (rm-Updated d valid name i i_in v0
              (at ∙ ap (λ o. live o v0) (sym (streq→eq name name' same))))

-- A dictionary as dict.c makes it, before any entry, is valid.
pub mkdict-IsValid {ℓ} : {V : Type ℓ} → IsValid (mkdict {V = V})
unfolding mkdict
mkdict-IsValid = mkdict0-IsValid 1 (omega arith) (omega arith)

-- `dictput` keeps a table valid, on every path: assignment, insertion with and without growth, and
-- removal.
pub dictput-IsValid {ℓ} :
    {V : Type ℓ} (d : Dict V) (name : CString) (value : Option V)
    → IsValid d
    → d.size < 2 ^ 30
    → IsValid (dictput d name value)
dictput-IsValid d name value valid small = (dictput-Updated d valid name value small).valid'

-- After `dictput`, the name has the value that was put, or none after a removal, and every other
-- name has what it had.
pub dictget-dictput {ℓ} :
    {V : Type ℓ} (d : Dict V) (name : CString) (value : Option V) (other : CString)
    → IsValid d
    → d.size < 2 ^ 30
    → dictget (dictput d name value) other ≡ (if streq name other then value else dictget d other)
dictget-dictput {V} d name value other valid small = elim (Bool-cases (streq name other)) [
  | inl same ↦
      let name_is = streq→eq name other same in
      rw same (
        Option-ext (dictget after other) value
          (λ w h.
            let (j, j_in, at) = dictget-Holds after u.valid' other w h in
            elim (u.new other w j j_in at) [ inl q ↦ q.1 | inr q ↦ absurd (q.0 name_is) ])
          (λ w h.
            subst (λ o. dictget after o ≡ some w) name_is
              (dictget-eq after u.valid' name w (u.there_now w h))))
  | inr differ ↦
      let name_ne : name ≢ other =
        λ e. ground (arith, streq_refl name, ap (streq name) e, differ) in
      rw differ (
        Option-ext (dictget after other) (dictget d other)
          (λ w h.
            let (j, j_in, at) = dictget-Holds after u.valid' other w h in
            elim (u.new other w j j_in at) [
              | inl q ↦ absurd (name_ne q.0)
              | inr q ↦ dictget-eq d valid other w q.1
            ])
          (λ w h.
            let (i, i_in, at) = dictget-Holds d valid other w h in
            dictget-eq after u.valid' other w (u.kept other w i name_ne i_in at)))
]
  where
    after : Dict V
    after = dictput d name value

    u : Updated d name value after
    u = dictput-Updated d valid name value small

get_loop_same {ℓ} :
    {V : Type ℓ} (d : Dict V) (f g : CString → Bool)
    → ((name : CString) → f name ≡ g name)
    → (fuel n : ℕ) → get_loop fuel d f n ≡ get_loop fuel d g n
get_loop_same d f g same fuel n = ap (λ h. get_loop fuel d h n) (fun_ext same)

-- Looking up two names is looking up their concatenation.
pub dictget2-eq-dictget {ℓ} :
    {V : Type ℓ} (d : Dict V) (name1 name2 : CString)
    → dictget2 d name1 name2 ≡ dictget d (name1 ++ name2)
unfolding dictget2 dictget get
dictget2-eq-dictget d name1 name2 = rw (
  strhash2-append name1 name2,
  get_loop_same d (λ name. streq2 name name1 name2) (streq (name1 ++ name2))
      (λ name. streq2-append name name1 name2) d.size (strhash (name1 ++ name2)),
)
