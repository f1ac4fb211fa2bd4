-- ===== src/Fi/Sketch.antt =====
-- The frequent items sketch: fi/include/frequent_items_sketch.hpp and
-- frequent_items_sketch_impl.hpp, with weights of type `uint64_t`.
pub mod Bounds
use whylogs_datasketches.Base.{
  ℕ, suc, ◌+◌, ◌^◌, max, Bool, true, false, List, [], ◌∷◌, ltb, ◌==◌, leb, ◌&&◌, ◌||◌,
  if◌then◌else◌, add64, Outcome, ok, throws, invalid_argument, throw_if, ◌>>=◌, ◌>>◌,
}
use whylogs_datasketches.Fi.Iterator.{entries}
use whylogs_datasketches.Fi.Map.{HashMap, KeyOps}
use whylogs_datasketches.Fi.Map
use whylogs_datasketches.Fi.Purge.{adjust_or_insert}

pub record Sketch (K : Type 0) : Type 0 where
  pub total_weight : ℕ
  pub offset : ℕ
  pub map : HashMap K

abbrev pub lg_min_map_size : ℕ
lg_min_map_size = 3

pub data ErrorType : Type 0 where
  no_false_positives no_false_negatives : ErrorType

-- `row`: an item with its weight and the offset of the sketch.
pub record Row (K : Type 0) : Type 0 where
  pub item : K
  pub weight : ℕ
  pub offset : ℕ

abbrev pub estimate : {K : Type 0} → Row K → ℕ
estimate r = add64 r.weight r.offset

module _ {K : Type 0} where
  -- The constructor.
  unfoldable pub new : ℕ → ℕ → Outcome (Sketch K)
  new lg_max_map_size lg_start_map_size = do
    throw_if (ltb lg_max_map_size lg_start_map_size) invalid_argument
    ok (record {
      total_weight = 0;
      offset = 0;
      map = Map.new (max lg_start_map_size lg_min_map_size) (max lg_max_map_size lg_min_map_size);
    })

  unfoldable pub is_empty : Sketch K → Bool
  is_empty s = s.map.num_active == 0

  abbrev pub get_maximum_error : Sketch K → ℕ
  get_maximum_error s = s.offset

module _ {K : Type 0} ⦃ops : KeyOps K⦄ where
  -- The check of the weight does nothing for an unsigned type.
  unfoldable pub update : Sketch K → K → ℕ → Outcome (Sketch K)
  update s item weight = if weight == 0 then ok s else do
    (purged, map) ← adjust_or_insert s.map item weight
    ok (record {
      total_weight = add64 s.total_weight weight;
      offset = add64 s.offset purged;
      map = map;
    })

  -- A sequence of calls of `update`.
  unfoldable pub update_all : List (K × ℕ) → Sketch K → Outcome (Sketch K)
  update_all [] s = ok s
  update_all ((item, weight) ∷ rest) s = update s item weight >>= update_all rest

  -- `merge` of another object.
  unfoldable pub merge : Sketch K → Sketch K → Outcome (Sketch K)
  merge s other = if is_empty other then ok s else do
    items ← entries other.map
    s' ← update_all items s
    ok (record s' {
      total_weight = add64 s.total_weight other.total_weight;
      offset = add64 s'.offset other.offset;
    })

  unfoldable pub get_estimate : Sketch K → K → Outcome ℕ
  get_estimate s item = do
    weight ← Map.get s.map item
    ok (if ltb 0 weight then add64 weight s.offset else 0)

  unfoldable pub get_lower_bound : Sketch K → K → Outcome ℕ
  get_lower_bound s item = Map.get s.map item

  unfoldable pub get_upper_bound : Sketch K → K → Outcome ℕ
  get_upper_bound s item = do weight ← Map.get s.map item; ok (add64 weight s.offset)

module _ {K : Type 0} where
  -- Insertion into the rows, which are kept in descending order of the estimate.
  insert_row : Row K → List (Row K) → List (Row K)
  insert_row r [] = r ∷ []
  insert_row r (x ∷ xs) = if ltb (estimate x) (estimate r) then r ∷ x ∷ xs else x ∷ insert_row r xs

  -- The rows that the loop of `get_frequent_items` keeps, sorted.
  select_rows : ErrorType → ℕ → ℕ → List (K × ℕ) → List (Row K)
  unfolding insert_row
  select_rows type threshold offset [] = []
  select_rows type threshold offset ((k, w) ∷ rest) =
      let rows = select_rows type threshold offset rest in
      if (elim type [
        | no_false_negatives ↦ ltb threshold (add64 w offset)
        | no_false_positives ↦ ltb threshold w
      ])
      then insert_row (record { item = k; weight = w; offset = offset }) rows
      else rows

  unfoldable pub get_frequent_items : ErrorType → ℕ → Sketch K → Outcome (List (Row K))
  unfolding select_rows
  get_frequent_items type threshold s = do
    items ← entries s.map
    ok (select_rows type threshold s.offset items)
