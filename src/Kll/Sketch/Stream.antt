-- ===== src/Kll/Sketch/Stream.antt =====
-- A new sketch and a stream of updates of kll/include/kll_sketch_impl.hpp.
use whylogs_datasketches.Base.{update as set_at}
use whylogs_datasketches.Base.{
  ℕ, ◌+◌, ◌^◌, ◌≤◌, ◌<◌, ◌≡◌, refl, ◌∙◌, arith, Bool, true, ltb, ◌||◌, if◌then◌else◌, Bool-cases,
  ◌⊎◌, inl, inr, List, [], ◌∷◌, ok, invalid_argument, Ends, Ends-weaken, ◌>>=◌, sum_below,
  Ends-bind, Ends-map, Ends-throw_if,
}
use whylogs_datasketches.Kll.Capacity.{
  level_capacity, int_cap_aux, int_cap_aux_aux, compute_total_capacity, capacity_loop,
}
use whylogs_datasketches.Kll.Compress.{sum_the_sample_weights}
use whylogs_datasketches.Kll.Compress.Weights.{weight_at, sum_the_sample_weights_lem}
use whylogs_datasketches.Kll.Sketch.{
  Sketch, new_sketch, update, update_all, get_num_retained, min_allowed_k, max_allowed_k,
}
use whylogs_datasketches.Kll.Sketch.Update.{IsSound, Topped, update-Ends}

one_level : (k : ℕ) → 8 ≤ k → compute_total_capacity k 8 1 ≡ ok k
unfolding compute_total_capacity capacity_loop level_capacity int_cap_aux int_cap_aux_aux
one_level k ge = ground arith

out_of_range :
    (k : ℕ)
    → (ltb k min_allowed_k || ltb max_allowed_k k) ≡ true
    → (k < min_allowed_k) ⊎ (max_allowed_k < k)
out_of_range k e = elim (Bool-cases (ltb k min_allowed_k)) [
  | inl l ↦ inl (ground (arith, l))
  | inr l ↦ inr (ground (arith, l, e))
]

empty_mass : (k : ℕ) → sum_below 1 (weight_at (set_at (set_at (λ i. 0) 0 k) 1 k)) ≡ 0
unfolding sum_below
empty_mass k = ground arith

module _ {T : Type 0} where
  -- A new sketch is well formed and empty; `k` out of range is refused.
  new_sketch-Ends :
      (raw : ℕ → T) (k preamble : ℕ)
      → Ends
          (λ s. IsSound s × Topped s × (s.n ≡ 0))
          (λ x. (x ≡ invalid_argument) × ((k < min_allowed_k) ⊎ (max_allowed_k < k)))
          (new_sketch raw k preamble)
  unfolding new_sketch
  new_sketch-Ends raw k preamble =
      Ends-throw_if _ _ (ltb k min_allowed_k || ltb max_allowed_k k) invalid_argument _
        (λ e. (refl, out_of_range k e))
        λ e. (
          record {
            pos = omega arith;
            wide = omega arith;
            levels = record { order = λ l lt. ground (arith, lt); mass = empty_mass k };
            full = refl;
            capacity = one_level k (ground (arith, e));
          },
          inl refl,
          refl,
        )

  -- The number of values that are not refused.
  abbrev pub num_accepted : (T → Bool) → List (T × Bool) → ℕ
  num_accepted check [] = 0
  num_accepted check ((value, bit) ∷ rest) =
      if check value then 1 + num_accepted check rest else num_accepted check rest

  module _ (less : T → T → Bool) (sort : (ℕ → T) → ℕ → ℕ → ℕ → T) where
    update_all-Ends :
        (check : T → Bool) (raw : ℕ → T) (values : List (T × Bool)) (s : Sketch T)
        → s.n + num_accepted check values < 2 ^ 60
        → IsSound s
        → Topped s
        → Ends
            (λ s'. IsSound s' × Topped s' × (s'.n ≡ s.n + num_accepted check values))
            (λ x. ⊥)
            (update_all less sort check raw values s)
    unfolding update_all
    update_all-Ends check raw [] s few h top = (h, top, omega arith)
    update_all-Ends check raw ((value, bit) ∷ rest) s few h top =
        Ends-bind (λ t. IsSound t × Topped t × (t.n ≡ (if check value then s.n + 1 else s.n))) _
          (λ x. ⊥) (update less sort check raw (if bit then 1 else 0) value s) _
          (update-Ends less sort check raw (if bit then 1 else 0) value s (ground arith)
            (ground (arith, few)) h top)
          λ t _ a.
            Ends-map (λ s'. IsSound s' × Topped s' × (s'.n ≡ t.n + num_accepted check rest)) _
              (λ x. ⊥) (update_all less sort check raw rest t)
              (λ s' b. (b.0, b.1, ground (arith, b.2, a.2)))
              (update_all-Ends check raw rest t (ground (arith, a.2, few)) a.0 a.1)

    -- What a sketch holds after a stream: every value that is not refused is counted, the weight of the
    -- items on all levels is that number, and the items fit in the buffer, which has
    -- the capacity of the levels.
    pub record Streamed (check : T → Bool) (values : List (T × Bool)) (s : Sketch T) : Type 0 where
      pub counted : s.n ≡ num_accepted check values
      pub weight : sum_the_sample_weights s.num_levels s.levels ≡ s.n
      pub fits : get_num_retained s ≤ s.items_size
      pub capacity : compute_total_capacity s.k s.m s.num_levels ≡ ok s.items_size

    -- A new sketch with `k` from 8 to 65535 takes a stream of fewer than 2^60 values, for any comparator,
    -- sort and random bits, without an exception and without an index
    -- below zero: it counts each value that is not refused, the weights of the levels add up to that
    -- count, and the items retained fit in a buffer of the capacity of the levels.
    pub stream_kept :
        (check : T → Bool) (raw : ℕ → T) (k preamble : ℕ) (values : List (T × Bool))
        → min_allowed_k ≤ k
        → k ≤ max_allowed_k
        → num_accepted check values < 2 ^ 60
        → Ends
            (Streamed check values)
            (λ x. ⊥)
            (new_sketch raw k preamble >>= update_all less sort check raw values)
    stream_kept check raw k preamble values low high few =
        Ends-bind (λ s. IsSound s × Topped s × (s.n ≡ 0)) (Streamed check values) (λ x. ⊥)
          (new_sketch raw k preamble) _
          (Ends-weaken _ _ (λ x. ⊥) (new_sketch raw k preamble)
            (λ x r. absurd (elim r.1 [ inl a ↦ omega arith | inr a ↦ omega arith ]))
            (new_sketch-Ends raw k preamble))
          λ s _ a.
            Ends-map _ (Streamed check values) (λ x. ⊥) (update_all less sort check raw values s)
              (λ t b. record {
                counted = omega (arith, b.2, a.2);
                weight = sum_the_sample_weights_lem t.num_levels t.levels ∙ b.0.levels.mass;
                fits = omega (arith, b.0.full);
                capacity = b.0.capacity;
              })
              (update_all-Ends check raw values s (omega (arith, a.2, few)) a.0 a.1)
