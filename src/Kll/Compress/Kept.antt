-- ===== src/Kll/Compress/Kept.antt =====
-- `general_compress` of kll/include/kll_helper_impl.hpp keeps the weight of the sketch.
use whylogs_datasketches.Base.{
  ◌^◌, Exception, ℕ, zero, suc, ◌+◌, ◌-◌, ◌≤◌, ◌<◌, ◌≡◌, ◌⊎◌, inl, inr, refl, Bool, true, not,
  subst, arith, ◌==◌, update, Outcome, ok, invalid_argument, logic_error, Ends, Ends-if, Ends-map,
  Ends-bind, Ends-weaken, Ends-throw_if, sum_below,
}
use whylogs_datasketches.Kll.Capacity.{compute_total_capacity, compute_total_capacity-Ends}
use whylogs_datasketches.Kll.Compress.{
  Work, add_empty_level, move_level, keeps_level, compact_level, compress_level, compress_loop,
  general_compress, sum_the_sample_weights,
}
use whylogs_datasketches.Kll.Compress.Weights.{weight_at, sum_the_sample_weights_lem}
use whylogs_datasketches.Kll.Compress.Offsets.{Going, start_Going, end_Going}
use whylogs_datasketches.Kll.Compress.Steps.{
  Overweight, At, Done, Roomy, add_empty_level-Roomy, move_level-Ends, keeps_level-Ends,
  compact_level-Ends,
}

-- A sketch of weight `W` has no level, more than 61 levels, or a weight of at least 2^60.
abbrev pub Refused : ℕ → ℕ → Exception → Type 0
Refused num W x = (x ≡ invalid_argument) × ((num ≡ 0) ⊎ ((61 < num) ⊎ (2 ^ 60 ≤ W)))

module _ {T : Type 0} where
  -- What `general_compress` promises: the weight of the sketch is kept, and the number of items
  -- it counts is that of the levels it returns, which are at most 61.
  abbrev pub Compressed : ℕ → (ℕ → ℕ) → Work T → Type 0
  Compressed num in_levels w =
      (sum_the_sample_weights w.current_num_levels w.out_levels
        ≡ sum_the_sample_weights num in_levels)
      × (w.current_item_count ≡ w.out_levels w.current_num_levels)
      × (w.out_levels 0 ≡ 0)
      × (w.current_num_levels ≤ 61)

  module _ (less : T → T → Bool) (sort : (ℕ → T) → ℕ → ℕ → ℕ → T) where
    compress_level-Ends :
        (W k m bit level : ℕ) (zero_sorted : Bool) (w : Work T)
        → 0 < m
        → bit ≤ 1
        → level < w.current_num_levels
        → At W level w
        → Roomy W level w
        → Ends (Done W level) (Overweight W) (compress_level less sort k m bit zero_sorted level w)
    unfolding compress_level
    compress_level-Ends W k m bit level zero_sorted w pos one lt at roomy =
        Ends-bind (λ b. (b ≡ true) ⊎ (m ≤ w.in_levels (level + 1) - w.in_levels level))
          (Done W level) (Overweight W) (keeps_level k m level w) _
          (keeps_level-Ends W k m level w lt at.1)
          (λ keep _ full.
            Ends-if _ _ keep (move_level level w)
              (compact_level less sort k m bit zero_sorted level w)
              (λ e. move_level-Ends W level w lt at)
              (λ e.
                compact_level-Ends less sort W k m bit level zero_sorted w one lt at roomy
                  (elim full [
                    | inl kept ↦ absurd (ground (arith, kept, e))
                    | inr some_items ↦ omega (arith, some_items)
                  ])))

    compress_loop-Ends :
        (rounds W k m : ℕ) (bits : ℕ → ℕ) (zero_sorted : Bool) (level : ℕ) (w : Work T)
        → 0 < m
        → ((l : ℕ) → bits l ≤ 1)
        → level + rounds ≡ 62
        → level < w.current_num_levels
        → At W level w
        → Ends
            (λ w'. At W w'.current_num_levels w')
            (Overweight W)
            (compress_loop less sort rounds k m bits zero_sorted level w)
    unfolding compress_loop
    compress_loop-Ends zero W k m bits zero_sorted level w pos ones eq lt at =
        absurd (omega (arith, at.1))
    compress_loop-Ends (suc rounds) W k m bits zero_sorted level w pos ones eq lt at =
        let ((at', roomy), num) = add_empty_level-Roomy W level w lt at in
        Ends-bind (Done W level) (λ w'. At W w'.current_num_levels w') (Overweight W)
          (compress_level less sort k m (bits level) zero_sorted level (add_empty_level level w)) _
          (compress_level-Ends W k m (bits level) level zero_sorted (add_empty_level level w) pos
            (ones level) (omega (arith, num, lt)) at' roomy)
          (λ w' _ done.
            Ends-if _ _ (level == w'.current_num_levels - 1) (ok w') _
              (λ e.
                let last : level + 1 ≡ w'.current_num_levels = ground (arith, done.1) in
                (
                  subst
                      (λ l.
                        Going W l w'.current_num_levels w'.in_levels w'.out_levels
                          w'.current_item_count)
                      last done.0.0,
                  done.0.1,
                ))
              (λ e.
                compress_loop-Ends rounds W k m bits zero_sorted (level + 1) w' pos ones
                  (omega arith) (ground (arith, done.1)) done.0))

    -- `general_compress` on levels whose offsets do not decrease ends, for a positive minimum width
    -- and any random bits, comparator and sort. The weight of the sketch is kept, and the number of
    -- items is the last offset of the result, which has at most 61 levels. The only exception is
    -- `invalid_argument`, for no level, more than 61 levels, or a weight of at least 2^60; no check
    -- of the halvings and of the offsets fails, and the loop ends.
    pub general_compress-Ends :
        (k m num : ℕ) (items : ℕ → T) (in_levels out_levels bits : ℕ → ℕ) (zero_sorted : Bool)
        → 0 < m
        → ((l : ℕ) → l < num → in_levels l ≤ in_levels (l + 1))
        → ((l : ℕ) → bits l ≤ 1)
        → Ends
            (Compressed num in_levels)
            (Refused num (sum_the_sample_weights num in_levels))
            (general_compress less sort k m num items in_levels out_levels bits zero_sorted)
    unfolding general_compress
    general_compress-Ends k m num items in_levels out_levels bits zero_sorted pos order ones =
        let W : ℕ = sum_below num (weight_at in_levels) in
        let weight : sum_the_sample_weights num in_levels ≡ W =
          sum_the_sample_weights_lem num in_levels in
        let Q : Exception → Type 0 = Refused num (sum_the_sample_weights num in_levels) in
        let begin : ℕ → Work T = λ target. record {
          items = items;
          in_levels = in_levels;
          out_levels = update out_levels 0 0;
          current_num_levels = num;
          current_item_count = in_levels num - in_levels 0;
          target_item_count = target;
        } in
        let loop : ℕ → Outcome (Work T) =
          λ target. compress_loop less sort 62 k m bits zero_sorted 0 (begin target) in
        Ends-throw_if _ _ (num == 0) invalid_argument _ (λ e. (refl, inl (ground (arith, e))))
          λ e.
            Ends-bind (λ c. num ≤ 61) (Compressed num in_levels) Q (compute_total_capacity k m num)
              _
              (Ends-map _ (λ c. num ≤ 61) Q (compute_total_capacity k m num) (λ c h. h.2)
                (Ends-weaken _ _ Q (compute_total_capacity k m num) (λ x h. (h.0, inr (inl h.1)))
                  (compute_total_capacity-Ends k m num)))
              (λ target _ few.
                Ends-bind (λ w. At W w.current_num_levels w) (Compressed num in_levels) Q
                  (loop target) _
                  (Ends-weaken (λ w. At W w.current_num_levels w) (Overweight W) Q (loop target)
                    (λ x h. (h.0, inr (inr (omega (arith, h.1, weight)))))
                    (compress_loop-Ends 62 W k m bits zero_sorted 0 (begin target) pos ones refl
                      (ground arith) (start_Going num in_levels out_levels order, few)))
                  (λ w _ done.
                    let (mass, count) =
                      end_Going W w.current_num_levels w.in_levels w.out_levels w.current_item_count
                        done.0 in
                    let first : w.out_levels 0 ≡ 0 = done.0.start in
                    Ends-throw_if _ _
                      (not (
                        w.out_levels w.current_num_levels - w.out_levels 0 == w.current_item_count))
                      logic_error _ (λ bad. absurd (ground (arith, count, first)))
                      (λ good. (
                        omega (
                          arith,
                          sum_the_sample_weights_lem w.current_num_levels w.out_levels,
                          sum_the_sample_weights_lem num in_levels,
                          mass,
                        ),
                        count,
                        first,
                        done.1,
                      ))))
