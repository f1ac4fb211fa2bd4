-- ===== src/Kll/Compress.antt =====
-- `general_compress` and `sum_the_sample_weights` of kll/include/kll_helper_impl.hpp.
pub mod Weights
pub mod Offsets
pub mod Steps
pub mod Kept
use whylogs_datasketches.Base.{
  ℕ, zero, suc, ◌+◌, ◌-◌, ◌*◌, ◌/◌, Bool, true, false, not, ◌&&◌, ltb, ◌==◌, if◌then◌else◌, update,
  List, [], ◌∷◌, Outcome, ok, throws, throw_if, invalid_argument, logic_error, diverges, ◌>>=◌,
  ◌>>◌,
}
use whylogs_datasketches.Kll.Buffer.{
  is_odd, merge_sorted_arrays, randomly_halve_down, randomly_halve_up,
}
use whylogs_datasketches.Kll.Capacity.{compute_total_capacity, level_capacity}

-- The loop of `sum_the_sample_weights`. The weights are as large as they are here as long as they
-- are below 2^64.
unfoldable pub weights_loop : ℕ → ℕ → ℕ → ℕ → (ℕ → ℕ) → ℕ
weights_loop zero lvl weight total levels = total
weights_loop (suc rounds) lvl weight total levels =
    weights_loop rounds (lvl + 1) (weight * 2) (total + weight * (levels (lvl + 1) - levels lvl))
      levels

unfoldable pub sum_the_sample_weights : ℕ → (ℕ → ℕ) → ℕ
sum_the_sample_weights num_levels levels = weights_loop num_levels 0 1 0 levels

-- The buffers and the variables of the loop over the levels.
pub record Work (T : Type 0) : Type 0 where
  pub items : ℕ → T
  pub in_levels : ℕ → ℕ
  pub out_levels : ℕ → ℕ
  pub current_num_levels : ℕ
  pub current_item_count : ℕ
  pub target_item_count : ℕ

module _ {T : Type 0} where
  -- `std::move` of a range to the left
  abbrev pub move_range : ℕ → ℕ → ℕ → (ℕ → T) → ℕ → T
  move_range zero from to items = items
  move_range (suc n) from to items = move_range n (from + 1) (to + 1) (update items to (items from))

  -- An empty level above the top one.
  abbrev pub add_empty_level : ℕ → Work T → Work T
  add_empty_level level w =
      if level == w.current_num_levels - 1
      then (record w { in_levels = update w.in_levels (level + 2) (w.in_levels (level + 1)) })
      else w

  unfoldable pub move_level : ℕ → Work T → Outcome (Work T)
  move_level level w = do
    let raw_beg = w.in_levels level
    let raw_pop = w.in_levels (level + 1) - raw_beg
    throw_if (ltb raw_beg (w.out_levels level)) logic_error
    ok (record w {
      items = move_range raw_pop raw_beg (w.out_levels level) w.items;
      out_levels = update w.out_levels (level + 1) (w.out_levels level + raw_pop);
    })

  -- A compaction of the top level makes a new one.
  unfoldable pub grow_levels : ℕ → ℕ → ℕ → Work T → Outcome (Work T)
  grow_levels k m level w =
      if level == w.current_num_levels - 1
      then (do
        capacity ← level_capacity k (w.current_num_levels + 1) 0 m
        ok (record w {
          current_num_levels = w.current_num_levels + 1;
          target_item_count = w.target_item_count + capacity;
        }))
      else ok w

  -- Whether a level stays as it is; its capacity is computed only if the sketch is too full.
  unfoldable pub keeps_level : ℕ → ℕ → ℕ → Work T → Outcome Bool
  keeps_level k m level w = if ltb w.current_item_count w.target_item_count then ok true else do
    capacity ← level_capacity k w.current_num_levels level m
    ok (ltb (w.in_levels (level + 1) - w.in_levels level) capacity)

  module _ (less : T → T → Bool) (sort : (ℕ → T) → ℕ → ℕ → ℕ → T) where
    -- The compacted items of a level, in place below the level above. `sort` is `std::sort` of a
    -- range of the buffer, by its start and its length.
    unfoldable pub compact_items : ℕ → Bool → ℕ → ℕ → ℕ → ℕ → (ℕ → T) → Outcome (ℕ → T)
    compact_items bit sort_first adj_beg adj_pop raw_lim pop_above items =
        let sorted = if sort_first then sort items adj_beg adj_pop else items in
        let half_adj_pop = adj_pop / 2 in
        if pop_above == 0 then randomly_halve_up bit sorted adj_beg adj_pop else do
          halved ← randomly_halve_down bit sorted adj_beg adj_pop
          merge_sorted_arrays less halved adj_beg half_adj_pop raw_lim pop_above
              (adj_beg + half_adj_pop)

    unfoldable pub compact_level : ℕ → ℕ → ℕ → Bool → ℕ → Work T → Outcome (Work T)
    compact_level k m bit is_level_zero_sorted level w = do
      let raw_beg = w.in_levels level
      let raw_lim = w.in_levels (level + 1)
      let raw_pop = raw_lim - raw_beg
      let pop_above = w.in_levels (level + 2) - raw_lim
      let odd_pop = is_odd raw_pop
      let adj_beg = if odd_pop then 1 + raw_beg else raw_beg
      let adj_pop = if odd_pop then raw_pop - 1 else raw_pop
      let half_adj_pop = adj_pop / 2
      let out = w.out_levels level
      let kept = if odd_pop then update w.items out (w.items raw_beg) else w.items
      items ←
          compact_items bit ((level == 0) && not is_level_zero_sorted) adj_beg adj_pop raw_lim
            pop_above kept
      grow_levels k m level (record w {
        items = items;
        out_levels = update w.out_levels (level + 1) (if odd_pop then out + 1 else out);
        in_levels = update w.in_levels (level + 1) (raw_lim - half_adj_pop);
        current_item_count = w.current_item_count - half_adj_pop;
      })

    unfoldable pub compress_level : ℕ → ℕ → ℕ → Bool → ℕ → Work T → Outcome (Work T)
    compress_level k m bit is_level_zero_sorted level w = do
      keep ← keeps_level k m level w
      if keep then move_level level w else compact_level k m bit is_level_zero_sorted level w

    -- The loop over the levels; `bits` has the random bit of each level.
    unfoldable pub compress_loop : ℕ → ℕ → ℕ → (ℕ → ℕ) → Bool → ℕ → Work T → Outcome (Work T)
    compress_loop zero k m bits is_level_zero_sorted level w = throws diverges
    compress_loop (suc rounds) k m bits is_level_zero_sorted level w = do
      w' ← compress_level k m (bits level) is_level_zero_sorted level (add_empty_level level w)
      let rest = compress_loop rounds k m bits is_level_zero_sorted (level + 1) w'
      if level == w'.current_num_levels - 1 then ok w' else rest

    -- The result holds the number of levels, the capacity and the number of items. More than 61
    -- levels are not reached, since their capacity is not defined.
    unfoldable pub general_compress :
        ℕ → ℕ → ℕ → (ℕ → T) → (ℕ → ℕ) → (ℕ → ℕ) → (ℕ → ℕ) → Bool → Outcome (Work T)
    general_compress k m num_levels_in items in_levels out_levels bits is_level_zero_sorted = do
      throw_if (num_levels_in == 0) invalid_argument
      target ← compute_total_capacity k m num_levels_in
      w ← compress_loop 62 k m bits is_level_zero_sorted 0 (record {
        items = items;
        in_levels = in_levels;
        out_levels = update out_levels 0 0;
        current_num_levels = num_levels_in;
        current_item_count = in_levels num_levels_in - in_levels 0;
        target_item_count = target;
      })
      throw_if (not (w.out_levels w.current_num_levels - w.out_levels 0 == w.current_item_count))
          logic_error
      ok w
