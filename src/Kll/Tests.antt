-- ===== src/Kll/Tests.antt =====
-- The theorems on the quantile sketch at concrete inputs.
use whylogs_datasketches.Base.{
  range_sum, ℕ, Bool, List, [], ◌∷◌, ◌>>=◌, false, true, ◌+◌, ◌*◌, ◌/◌, ◌≤◌, ◌<◌, ◌^◌, ◌≡◌, refl,
  max, ltb, update, Ends, ok, invalid_argument, undefined, ◌⊎◌, ◌-◌, ◌%◌, arith,
}
use whylogs_datasketches.Kll.Capacity.{
  ub_on_num_levels, ub_on_num_levels-Ends, compute_total_capacity, compute_total_capacity-Ends,
  floor_of_log2_of_fraction, log2_loop,
}
use whylogs_datasketches.Kll.Compress.{sum_the_sample_weights, general_compress}
use whylogs_datasketches.Kll.Compress.Kept.{Compressed, Refused, general_compress-Ends}
use whylogs_datasketches.Kll.Buffer.{
  merge_sorted_arrays, randomly_halve_down, randomly_halve_up, halve_down_loop, halve_up_loop,
}
use whylogs_datasketches.Kll.Sketch.{new_sketch, update_all}
use whylogs_datasketches.Kll.Sketch.Stream.{Streamed, stream_kept}
use whylogs_datasketches.Kll.Buffer.Merge.{Merged, merge_sorted_arrays-Ends}
use whylogs_datasketches.Kll.Buffer.Halve.{
  Halved, halve_up-Ends, halve_down-Ends, halve_down_unbiased, halve_up_unbiased,
}

ub_on_num_levels-Ends_example :
    Ends (λ c. (2 ^ c ≤ 2 * 1000) × (1000 < 2 ^ c)) (λ x. ⊥) (ub_on_num_levels 1000)
ub_on_num_levels-Ends_example = ub_on_num_levels-Ends 1000 (omega arith) (omega arith)

compute_total_capacity-Ends_example :
    Ends
      (λ c. (8 * 12 ≤ c) × (c ≤ max 8 200 * 12) × (12 ≤ 61))
      (λ x. (x ≡ invalid_argument) × (61 < 12))
      (compute_total_capacity 200 8 12)
compute_total_capacity-Ends_example = compute_total_capacity-Ends 200 8 12

-- The arrays 3 9 and 1 4 12, with two places between them.
abbrev items : ℕ → ℕ
items = update (update (update (update (update (λ i. 0) 0 3) 1 9) 4 1) 5 4) 6 12

merge_sorted_arrays-Ends_example :
    Ends (Merged ltb 5 2 0 2 4 3 items) (λ x. ⊥) (merge_sorted_arrays ltb items 0 2 4 3 2)
merge_sorted_arrays-Ends_example = merge_sorted_arrays-Ends ltb items 0 2 4 3 refl

halve_down-Ends_example :
    Ends
      (λ buf'. (4 % 2 ≡ 0) × Halved 1 1 (4 / 2) 1 items buf')
      (λ x. (x ≡ invalid_argument) × (4 % 2 ≡ 1))
      (randomly_halve_down 1 items 1 4)
halve_down-Ends_example = halve_down-Ends 1 items 1 4

halve_up-Ends_example :
    Ends
      (λ buf'. (4 % 2 ≡ 0) × Halved (1 - 1) 1 (4 / 2) (1 + 4 / 2) items buf')
      (λ x. ((x ≡ invalid_argument) × (4 % 2 ≡ 1)) ⊎ ((x ≡ undefined) × (1 + 4 ≡ 0)))
      (randomly_halve_up 1 items 1 4)
halve_up-Ends_example = halve_up-Ends 1 items 1 4 (omega arith)

halve_down_unbiased_example :
    range_sum 4 1 (λ i. items i)
    ≡ range_sum 2 1 (halve_down_loop 2 1 1 items) + range_sum 2 1 (halve_down_loop 2 1 2 items)
unfolding randomly_halve_down
halve_down_unbiased_example =
    halve_down_unbiased items 1 4 (halve_down_loop 2 1 1 items) (halve_down_loop 2 1 2 items) refl
      refl (λ x. x)

halve_up_unbiased_example :
    range_sum 4 1 (λ i. items i)
    ≡ range_sum 2 3 (halve_up_loop 2 4 3 items) + range_sum 2 3 (halve_up_loop 2 4 4 items)
unfolding randomly_halve_up
halve_up_unbiased_example =
    halve_up_unbiased items 1 4 (halve_up_loop 2 4 3 items) (halve_up_loop 2 4 4 items) refl refl
      (λ x. x)

-- One level with 20 items, which is more than its capacity of 8.
abbrev offsets : ℕ → ℕ
offsets = update (λ l. 20) 0 0

offsets-order : (l : ℕ) → l < 1 → offsets l ≤ offsets (l + 1)
offsets-order l lt = ground arith

general_compress-Ends_example :
    Ends
      (Compressed 1 offsets)
      (Refused 1 (sum_the_sample_weights 1 offsets))
      (general_compress ltb (λ buf start length. buf) 8 2 1 items offsets (λ l. 0) (λ l. 1) true)
general_compress-Ends_example =
    general_compress-Ends ltb (λ buf start length. buf) 8 2 1 items offsets (λ l. 0) (λ l. 1) true
      (omega arith) offsets-order (λ l. omega arith)

-- Runs of the code.
ten_levels : ub_on_num_levels 1000 ≡ ok 10
unfolding ub_on_num_levels floor_of_log2_of_fraction log2_loop
ten_levels = refl

-- A stream of ten values into a sketch of the smallest size, which is compacted once.
abbrev ten_values : List (ℕ × Bool)
ten_values =
    (5, true)
    ∷ (3, false)
    ∷ (9, true)
    ∷ (1, true)
    ∷ (4, false)
    ∷ (8, true)
    ∷ (2, true)
    ∷ (7, false)
    ∷ (6, true)
    ∷ (0, true)
    ∷ []

abbrev keep_order : (ℕ → ℕ) → ℕ → ℕ → ℕ → ℕ
keep_order buf start length = buf

stream_kept_example :
    Ends
      (Streamed ltb keep_order (λ v. true) ten_values)
      (λ x. ⊥)
      (new_sketch (λ i. 0) 8 0 >>= update_all ltb keep_order (λ v. true) (λ i. 0) ten_values)
stream_kept_example =
    stream_kept ltb keep_order (λ v. true) (λ i. 0) 8 0 ten_values (omega arith) (omega arith)
      (omega arith)
