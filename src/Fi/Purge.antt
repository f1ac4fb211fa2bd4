-- ===== src/Fi/Purge.antt =====
-- Purging and growing the frequent items map: the rest of
-- fi/include/reverse_purge_hash_map_impl.hpp.
pub mod Subtract
pub mod Effect
pub mod Grow
use whylogs_datasketches.Base.{
  ℕ, zero, suc, ◌+◌, ◌-◌, ◌*◌, ◌/◌, ◌^◌, min, Bool, true, false, Option, none, some, List, [], ◌∷◌,
  ltb, leb, ◌==◌, if◌then◌else◌, update, Outcome, ok, throws, logic_error, undefined, diverges,
  ◌>>=◌,
}
use whylogs_datasketches.Fi.Map.{
  HashMap, KeyOps, size, get_capacity, max_sample_size, hash_delete, internal_adjust_or_insert, new,
}

-- `x - 1` in `uint32_t`.
abbrev pub pred32 : ℕ → ℕ
pred32 x = if x == 0 then 2 ^ 32 - 1 else x - 1

-- The sorted order of a list: `nth_element` puts at a position what sorting puts there.
pub insert_sorted : ℕ → List ℕ → List ℕ
insert_sorted x [] = x ∷ []
insert_sorted x (y ∷ ys) = if leb x y then x ∷ y ∷ ys else y ∷ insert_sorted x ys

unfoldable pub sort : List ℕ → List ℕ
unfolding insert_sorted
sort [] = []
sort (x ∷ xs) = insert_sorted x (sort xs)

unfoldable pub read : List ℕ → ℕ → Outcome ℕ
read [] i = throws undefined
read (x ∷ xs) zero = ok x
read (x ∷ xs) (suc i) = read xs i

module _ {K : Type 0} where
  -- `while (is_active(first_probe)) first_probe--` from the slot below the bound: below slot 0
  -- the index would leave the table.
  unfoldable pub first_free_below : ℕ → HashMap K → Outcome ℕ
  first_free_below zero m = throws undefined
  first_free_below (suc i) m =
      let rest = first_free_below i m in if m.states i == 0 then ok i else rest

  -- What both loops of `subtract_and_keep_positive_only` do at one slot.
  unfoldable pub subtract_at : ℕ → ℕ → HashMap K → Outcome (HashMap K)
  subtract_at probe amount m =
      if m.states probe == 0
      then ok m
      else (if leb (m.values probe) amount
          then hash_delete m probe >>= (λ m'. ok (record m' { num_active = pred32 m'.num_active }))
          else ok (record m { values = update m.values probe (m.values probe - amount) }))

  -- `for (probe = low + rounds; probe-- > low;)`
  unfoldable pub subtract_loop : ℕ → ℕ → ℕ → HashMap K → Outcome (HashMap K)
  subtract_loop zero low amount m = ok m
  subtract_loop (suc rounds) low amount m =
      subtract_at (low + rounds) amount m >>= subtract_loop rounds low amount

  unfoldable pub subtract_and_keep_positive_only : ℕ → HashMap K → Outcome (HashMap K)
  subtract_and_keep_positive_only amount m = do
    first_probe ← first_free_below (size m) m
    m' ← subtract_loop first_probe 0 amount m
    subtract_loop (size m - first_probe) first_probe amount m'

  -- The loop of `purge`: the first `wanted` values of active slots from slot `i` on. With fewer
  -- active slots than wanted it would read past the table.
  unfoldable pub collect : ℕ → ℕ → ℕ → HashMap K → Outcome (List ℕ)
  collect rounds i zero m = ok []
  collect zero i (suc wanted) m = throws undefined
  collect (suc rounds) i (suc wanted) m =
      let skip = collect rounds (i + 1) (suc wanted) m in
      let rest = collect rounds (i + 1) wanted m in
      if m.states i == 0 then skip else (rest >>= λ samples. ok (m.values i ∷ samples))

  unfoldable pub purge : HashMap K → Outcome (ℕ × HashMap K)
  purge m = do
    let limit = min max_sample_size m.num_active
    samples ← collect (size m) 0 limit m
    median ← read (sort samples) (limit / 2)
    m' ← subtract_and_keep_positive_only median m
    ok (median, m')

module _ {K : Type 0} ⦃ops : KeyOps K⦄ where
  -- The loop of `resize`: the entries of the old table, moved one by one by `adjust`.
  unfoldable pub move_entries :
      (HashMap K → K → ℕ → Outcome (ℕ × HashMap K))
      → ℕ
      → ℕ
      → HashMap K
      → HashMap K
      → Outcome (HashMap K)
  move_entries adjust zero i old m = ok m
  move_entries adjust (suc rounds) i old m =
      let skip = move_entries adjust rounds (i + 1) old m in
      if old.states i == 0 then skip else elim (old.keys i) [
        | none ↦ throws undefined
        | some k ↦ adjust m k (old.values i) >>= λ r. move_entries adjust rounds (i + 1) old r.1
      ]

  unfoldable pub resize :
      (HashMap K → K → ℕ → Outcome (ℕ × HashMap K)) → ℕ → HashMap K → Outcome (HashMap K)
  resize adjust lg_new_size m = move_entries adjust (size m) 0 m (new lg_new_size m.lg_max_size)

  unfoldable pub resize_or_purge_if_needed :
      (HashMap K → K → ℕ → Outcome (ℕ × HashMap K)) → HashMap K → Outcome (ℕ × HashMap K)
  resize_or_purge_if_needed adjust m =
      if ltb (get_capacity m) m.num_active
      then (if ltb m.lg_cur_size m.lg_max_size
          then resize adjust (m.lg_cur_size + 1) m >>= (λ m'. ok (0, m'))
          else do
            (offset, m') ← purge m
            if ltb (get_capacity m') m'.num_active then throws logic_error else ok (offset, m'))
      else ok (0, m)

  -- `adjust_or_insert` and `resize` call one another: the number bounds how deep.
  unfoldable pub adjust_or_insert_at : ℕ → HashMap K → K → ℕ → Outcome (ℕ × HashMap K)
  adjust_or_insert_at zero m k v = throws diverges
  adjust_or_insert_at (suc depth) m k v = do
    (is_new, m') ← internal_adjust_or_insert m k v
    if is_new then resize_or_purge_if_needed (adjust_or_insert_at depth) m' else ok (0, m')

  -- The calls for a new table do not grow it again, so a depth of 2 is enough.
  unfoldable pub adjust_or_insert : HashMap K → K → ℕ → Outcome (ℕ × HashMap K)
  adjust_or_insert = adjust_or_insert_at 2
