-- ===== src/Kll/Sketch.antt =====
-- The quantile sketch kll/include/kll_sketch_impl.hpp: its state and its updates. The buffer of
-- items is a function of the index; `raw` is what allocated storage holds before an item is
-- constructed in it, and the code never reads that.
pub mod Growth
pub mod Levels
pub mod Stream
pub mod Update
use whylogs_datasketches.Base.{update as set_at}
use whylogs_datasketches.Base.{
  ℕ, zero, suc, ◌+◌, ◌-◌, ◌*◌, ◌/◌, ◌^◌, Bool, true, false, not, ◌&&◌, ltb, leb, ◌==◌,
  if◌then◌else◌, min, max, Option, none, some, List, [], ◌∷◌, Outcome, ok, throws, throw_if,
  invalid_argument, logic_error, undefined, ◌||◌, ◌>>=◌, ◌>>◌,
}
use whylogs_datasketches.Kll.Buffer.{is_odd, move_item}
use whylogs_datasketches.Kll.Capacity.{level_capacity}
use whylogs_datasketches.Kll.Compress.{compact_items}

abbrev pub default_m : ℕ
default_m = 8

abbrev pub min_allowed_k : ℕ
min_allowed_k = default_m

abbrev pub max_allowed_k : ℕ
max_allowed_k = 2 ^ 16 - 1

pub record Sketch (T : Type 0) : Type 0 where
  pub k : ℕ
  pub preamble : ℕ
  pub m : ℕ
  pub min_k : ℕ
  pub n : ℕ
  pub num_levels : ℕ
  pub levels : ℕ → ℕ
  pub items : ℕ → T
  pub items_size : ℕ
  pub min_value : Option T
  pub max_value : Option T
  pub is_level_zero_sorted : Bool

-- The offsets after a compaction that frees `half` places below the level.
abbrev pub shifted_levels : (ℕ → ℕ) → ℕ → ℕ → Bool → ℕ → ℕ
shifted_levels levels level half odd_pop =
    let above = levels (level + 1) - half in
    let adjusted =
      set_at (set_at levels (level + 1) above) level (if odd_pop then above - 1 else above) in
    λ l. if ltb l level then adjusted l + half else adjusted l

module _ {T : Type 0} where
  unfoldable pub new_sketch : (ℕ → T) → ℕ → ℕ → Outcome (Sketch T)
  new_sketch raw k preamble = do
    throw_if (ltb k min_allowed_k || ltb max_allowed_k k) invalid_argument
    ok (record {
      k = k;
      preamble = preamble;
      m = default_m;
      min_k = k;
      n = 0;
      num_levels = 1;
      levels = set_at (set_at (λ i. 0) 0 k) 1 k;
      items = raw;
      items_size = k;
      min_value = none;
      max_value = none;
      is_level_zero_sorted = false;
    })

  abbrev pub is_empty : Sketch T → Bool
  is_empty s = s.n == 0

  abbrev pub get_num_retained : Sketch T → ℕ
  get_num_retained s = s.levels s.num_levels - s.levels 0

  abbrev pub is_estimation_mode : Sketch T → Bool
  is_estimation_mode s = ltb 1 s.num_levels

  -- The loop of `find_level_to_compact`; `rounds` levels are left.
  unfoldable pub find_level_loop : ℕ → ℕ → Sketch T → Outcome ℕ
  find_level_loop zero level s = throws logic_error
  find_level_loop (suc rounds) level s = do
    cap ← level_capacity s.k s.num_levels level s.m
    let rest = find_level_loop rounds (level + 1) s
    if leb cap (s.levels (level + 1) - s.levels level) then ok level else rest

  unfoldable pub find_level_to_compact : Sketch T → Outcome ℕ
  find_level_to_compact s = find_level_loop s.num_levels 0 s

  -- `move_construct` of a range of `n` items into another buffer; `copy_construct` too, since a move
  -- copies the item.
  unfoldable pub move_construct : ℕ → (ℕ → T) → ℕ → (ℕ → T) → ℕ → ℕ → T
  move_construct zero src from dst to = dst
  move_construct (suc n) src from dst to =
      move_construct n src (from + 1) (set_at dst to (src from)) (to + 1)

  -- `std::move_backward` of `n` items from the index `from` on up by `by` places: from the last one down
  unfoldable pub move_backward : ℕ → ℕ → ℕ → (ℕ → T) → ℕ → T
  move_backward zero from by items = items
  move_backward (suc n) from by items =
      move_backward n from by (set_at items (from + n + by) (items (from + n)))

  unfoldable pub add_empty_top_level : (ℕ → T) → Sketch T → Outcome (Sketch T)
  add_empty_top_level raw s = do
    let cur_total_cap = s.levels s.num_levels
    throw_if (not (s.levels 0 == 0)) logic_error
    throw_if (not (s.items_size == cur_total_cap)) logic_error
    delta_cap ← level_capacity s.k (s.num_levels + 1) 0 s.m
    let new_total_cap = cur_total_cap + delta_cap
    let levels = λ (i : ℕ). if leb i s.num_levels then s.levels i + delta_cap else s.levels i
    throw_if (not (levels s.num_levels == new_total_cap)) logic_error
    ok (record s {
      items = move_construct cur_total_cap s.items 0 raw delta_cap;
      items_size = new_total_cap;
      num_levels = s.num_levels + 1;
      levels = set_at levels (s.num_levels + 1) new_total_cap;
    })

  module _ (less : T → T → Bool) (sort : (ℕ → T) → ℕ → ℕ → ℕ → T) where
    -- `compress_while_updating` behind the choice of the level and the new top level
    unfoldable pub compact_at : ℕ → ℕ → Sketch T → Outcome (Sketch T)
    compact_at bit level s = do
      let raw_beg = s.levels level
      let raw_lim = s.levels (level + 1)
      let pop_above = s.levels (level + 2) - raw_lim
      let raw_pop = raw_lim - raw_beg
      let odd_pop = is_odd raw_pop
      let adj_beg = if odd_pop then raw_beg + 1 else raw_beg
      let adj_pop = if odd_pop then raw_pop - 1 else raw_pop
      let half = adj_pop / 2
      compacted ←
          compact_items less sort bit ((level == 0) && not s.is_level_zero_sorted) adj_beg adj_pop
            raw_lim pop_above s.items
      let levels = shifted_levels s.levels level half odd_pop
      let kept = if odd_pop then move_item compacted raw_beg (levels level) else compacted
      throw_if (not (levels level == raw_beg + half)) logic_error
      ok (record s {
        levels = levels;
        items =
            if ltb 0 level
            then move_backward (raw_beg - s.levels 0) (s.levels 0) half kept
            else kept;
      })

    unfoldable pub compress_while_updating : (ℕ → T) → ℕ → Sketch T → Outcome (Sketch T)
    compress_while_updating raw bit s = do
      level ← find_level_to_compact s
      let grown = add_empty_top_level raw s
      s' ← (if level == s.num_levels - 1 then grown else ok s)
      compact_at bit level s'

    -- The new index, and the sketch with room there. Without room the index would wrap.
    unfoldable pub internal_update : (ℕ → T) → ℕ → Sketch T → Outcome (Sketch T × ℕ)
    internal_update raw bit s = do
      let compressed = compress_while_updating raw bit s
      s' ← (if s.levels 0 == 0 then compressed else ok s)
      throw_if (s'.levels 0 == 0) undefined
      let index = s'.levels 0 - 1
      ok (
        record s' { n = s'.n + 1; is_level_zero_sorted = false; levels = set_at s'.levels 0 index },
        index,
      )

    abbrev pub lesser : Option T → T → Option T
    lesser none value = some value
    lesser (some old) value = if less value old then some value else some old

    abbrev pub greater : Option T → T → Option T
    greater none value = some value
    greater (some old) value = if less old value then some value else some old

    unfoldable pub update_min_max : T → Sketch T → Sketch T
    update_min_max value s =
        if is_empty s
        then (record s { min_value = some value; max_value = some value })
        else (record s {
          min_value = lesser s.min_value value;
          max_value = greater s.max_value value;
        })

    unfoldable pub insert_item : (ℕ → T) → ℕ → T → Sketch T → Outcome (Sketch T)
    insert_item raw bit value s = do
      (s', index) ← internal_update raw bit s
      ok (record s' { items = set_at s'.items index value })

    -- `check` is `check_update_value`, which refuses only a NaN; `bit` is the random bit.
    unfoldable pub update : (T → Bool) → (ℕ → T) → ℕ → T → Sketch T → Outcome (Sketch T)
    update check raw bit value s =
        let inserted = insert_item raw bit value (update_min_max value s) in
        if check value then inserted else ok s

    -- Updates by values, each with the random bit that a compaction takes.
    unfoldable pub update_all :
        (T → Bool) → (ℕ → T) → List (T × Bool) → Sketch T → Outcome (Sketch T)
    update_all check raw [] s = ok s
    update_all check raw ((value, bit) ∷ rest) s =
        update check raw (if bit then 1 else 0) value s >>= update_all check raw rest
