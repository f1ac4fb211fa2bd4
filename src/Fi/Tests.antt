-- ===== src/Fi/Tests.antt =====
-- Runs of the frequent items sketch on small inputs, and its theorems at inputs that meet their
-- hypotheses.
use whylogs_datasketches.Base.{
  ℕ, ◌^◌, ◌≡◌, ◌↔◌, refl, true, none, some, List, [], ◌∷◌, ◌==◌, Ends, arith, ◌>>=◌, max, sum_below,
  if◌then◌else◌,
}
use whylogs_datasketches.Fi.Map.{
  HashMap, KeyOps, home, fmix64, hash_delete, copy, internal_adjust_or_insert, get_capacity,
}
use whylogs_datasketches.Fi.Map.Copy.{copy_lossy}
use whylogs_datasketches.Fi.Map.Delete.{Drifted, Removed, hash_delete-Ends}
use whylogs_datasketches.Fi.Map.Insert.{IsValid, Adjusted, internal_adjust_or_insert-Ends}
use whylogs_datasketches.Fi.Map.Table.{slot_sum}
use whylogs_datasketches.Fi.Purge.{adjust_or_insert, purge, subtract_and_keep_positive_only}
use whylogs_datasketches.Fi.Purge.Effect.{Lowered, Purged, purge-Ends, subtract-Ends, purge_uniform}
use whylogs_datasketches.Fi.Purge.Grow.{IsFit, Updated, adjust_or_insert-Ends}
use whylogs_datasketches.Fi.Sketch
use whylogs_datasketches.Fi.Sketch.{Sketch, update_all, get_lower_bound, get_upper_bound}
use whylogs_datasketches.Fi.Sketch.Bounds.{Brackets, frequency, total, stream-Brackets}

==_iff : (a b : ℕ) → ((a == b) ≡ true) ↔ (a ≡ b)
==_iff a b = ground arith

-- Keys that are numbers, with the identity for a hash.
instance abbrev nat_ops : KeyOps ℕ
nat_ops = record { hash = λ k. k; equal = λ a b. a == b; equal_iff = ==_iff }

abbrev empty_map : HashMap ℕ
empty_map = record {
  lg_cur_size = 3;
  lg_max_size = 4;
  num_active = 0;
  keys = λ i. none;
  values = λ i. 0;
  states = λ i. 0;
}

-- One entry, 5 with the value 7, at its home.
abbrev one_map : HashMap ℕ
one_map = record {
  lg_cur_size = 3;
  lg_max_size = 4;
  num_active = 1;
  keys = λ i. if i == 5 then some 5 else none;
  values = λ i. if i == 5 then 7 else 0;
  states = λ i. if i == 5 then 1 else 0;
}

home_five : home {K = ℕ} 8 5 ≡ 5
unfolding home fmix64
home_five = refl

one_map-IsValid : IsValid one_map
unfolding slot_sum sum_below
one_map-IsValid = record {
  table = record {
    homes = λ i il a. (5, ground (arith, a), ground (arith, home_five, a));
    paths = λ x i xl il f a. ground (arith, f, a, xl, il);
  };
  once = λ k. ground arith;
  counted = refl;
  room = omega arith;
  wide = omega arith;
  bounded = λ k. ground arith;
}

one_map-IsFit : IsFit one_map
unfolding get_capacity
one_map-IsFit = record { valid = one_map-IsValid; fits = omega arith; lg_le = omega arith }

abbrev stream : List (ℕ × ℕ)
stream = (1, 4) ∷ (2, 1) ∷ (1, 3) ∷ []

stream-Brackets_example :
    Ends
      (Brackets (λ q. frequency q stream) (total stream))
      (Drifted (2 ^ max 3 3))
      (Sketch.new 3 3 >>= update_all stream)
unfolding total
stream-Brackets_example = stream-Brackets 3 3 stream (omega arith) (omega arith)

adjust_or_insert-Ends_example :
    Ends (Updated one_map 6 2) (Drifted (2 ^ 4)) (adjust_or_insert one_map 6 2)
adjust_or_insert-Ends_example = adjust_or_insert-Ends one_map 6 2 one_map-IsFit (omega arith)

hash_delete-Ends_example : Ends (Removed 8 5 6 one_map) (Drifted 8) (hash_delete one_map 5)
hash_delete-Ends_example =
    hash_delete-Ends 8 5 6 one_map refl one_map-IsValid.table (omega arith) (omega arith) refl
      (omega arith)

subtract-Ends_example :
    Ends (Lowered one_map 3) (Drifted 8) (subtract_and_keep_positive_only 3 one_map)
subtract-Ends_example = subtract-Ends one_map 3 one_map-IsValid

purge-Ends_example : Ends (Purged one_map) (Drifted 8) (purge one_map)
purge-Ends_example = purge-Ends one_map one_map-IsValid (omega arith)

purge_uniform_example : Ends (λ r. (r.0 ≡ 7) × (r.1.num_active ≡ 0)) (Drifted 8) (purge one_map)
purge_uniform_example =
    purge_uniform one_map 7 one_map-IsValid (omega arith) (λ i il a. ground (arith, a))

internal_adjust_or_insert-Ends_example :
    Ends (Adjusted one_map 5 2) (Drifted 8) (internal_adjust_or_insert one_map 5 2)
unfolding get_capacity
internal_adjust_or_insert-Ends_example =
    internal_adjust_or_insert-Ends one_map 5 2 one_map-IsValid (omega arith) (omega arith)

copy_lossy_example : ((copy one_map).keys 5 ≡ none) × ((copy one_map).states 5 ≡ one_map.states 5)
copy_lossy_example = copy_lossy one_map 5 (omega arith) (omega arith)
