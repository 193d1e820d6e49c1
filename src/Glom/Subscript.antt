-- ===== src/Glom/Subscript.antt =====
-- `subscript` of glom.c: the elements of a list that subscripts and ranges of them choose.
use es_shell_mirror.Prelude.{
  ℕ, ◌+◌, ◌-◌, Bool, true, false, List, [], ◌∷◌, ◌++◌, CString, codes, drop, take, ltb,
  if◌then◌else◌, streq,
}
use es_shell_mirror.Prelude.Int.{ℤ, pos_part, ltb_ℤ, pos}
use es_shell_mirror.Syntax.Tree.{Term, getstr}
use es_shell_mirror.ListOps.{length, reverse}
use es_shell_mirror.Glom.Int.{Outcome, value, failed, ◌>>=◌, bad_subscript}

-- The variables of the loop: `current` is the list from its element `counter` on.
pub record Cursor (A : Type 0) : Type 0 where
  pub current : List A
  pub counter : ℕ
  pub rev : Bool
  pub result : List A

-- Where the loop stands: before a subscript; after the subscript `lo`; after `lo` and "...".
pub data Position : Type 0 where
  at_start : Position
  after_lo mid_range : ℕ → Position

module _ {A : Type 0} (list : List A) where
  -- "if (counter > lo)": back to the first element.
  unfoldable pub rewind : ℕ → Cursor A → Cursor A
  rewind lo c = if ltb lo c.counter then record c { current = list; counter = 1 } else c

  -- The elements from `lo` to `hi`, the bounds in order, appended to the result.
  unfoldable pub copy_range : ℕ → ℕ → Cursor A → Cursor A
  unfolding reverse
  copy_range lo hi c =
      let start = drop (lo - c.counter) c.current in
      let n = hi + 1 - (c.counter + (lo - c.counter)) in
      let piece = take n start in
      record c {
        current = drop n start;
        counter = c.counter + (lo - c.counter) + n;
        result = c.result ++ (if c.rev then reverse piece else piece);
      }

  -- What follows the reading of `lo` and `hi`.
  unfoldable pub emit : ℕ → ℕ → Cursor A → Cursor A
  unfolding rewind copy_range length
  emit lo hi c =
      if ltb (length list) lo
      then c
      else let c' = rewind lo c in
        if ltb hi lo then copy_range hi lo (record c' { rev = true }) else copy_range lo hi c'

-- `show` prints a closure; `atoi` is the function of the C library.
module _ {C : Type 0} (show : C → CString) (atoi : CString → ℤ) where
  abbrev pub is_dots : Term C → Bool
  is_dots t = streq (getstr show t) (codes "...")

  -- `atoi` of a subscript, which fails below 1.
  unfoldable pub number_of : Term C → Outcome ℕ
  unfolding getstr
  number_of t =
      let n = atoi (getstr show t) in
      if ltb_ℤ n (pos 1) then failed bad_subscript else value (pos_part n)

  -- One subscript, or "...", is taken. A plain subscript ends the one before it.
  unfoldable pub subscript_step :
      List (Term C) → Term C → Position → Cursor (Term C) → Outcome (Position × Cursor (Term C))
  unfolding emit length streq number_of getstr
  subscript_step list t at_start c = number_of t >>= λ lo. value (after_lo lo, c)
  subscript_step list t (after_lo lo) c =
      if is_dots t
      then value (mid_range lo, c)
      else number_of t >>= λ next. value (after_lo next, emit list lo lo c)
  subscript_step list t (mid_range lo) c = number_of t >>= λ hi.
      value (at_start, emit list lo (if ltb (length list) hi then length list else hi) c)

  -- The end of the subscripts.
  unfoldable pub subscript_end : List (Term C) → Position → Cursor (Term C) → List (Term C)
  unfolding emit length
  subscript_end list at_start c = c.result
  subscript_end list (after_lo lo) c = (emit list lo lo c).result
  subscript_end list (mid_range lo) c = (emit list lo (length list) c).result

  unfoldable pub subscript_loop :
      List (Term C) → List (Term C) → Position → Cursor (Term C) → Outcome (List (Term C))
  unfolding subscript_end subscript_step
  subscript_loop list [] at c = value (subscript_end list at c)
  subscript_loop list (t ∷ subs) at c =
      subscript_step list t at c >>= λ p. subscript_loop list subs p.0 p.1

  abbrev pub first_cursor : List (Term C) → Cursor (Term C)
  first_cursor list = record { current = list; counter = 1; rev = false; result = [] }

  unfoldable pub subscript : List (Term C) → List (Term C) → Outcome (List (Term C))
  unfolding subscript_loop streq getstr
  subscript list [] = subscript_loop list [] at_start (first_cursor list)
  subscript list (t ∷ subs) =
      let c = first_cursor list in
      if is_dots t
      then subscript_loop list subs (mid_range 1) c
      else subscript_loop list (t ∷ subs) at_start c
