-- ===== src/Theta/Reset.antt =====
-- What `reset` of the table and of the union leave.
use whylogs_datasketches.Base.{
  ℕ, ◌+◌, ◌^◌, ◌≤◌, ◌<◌, ◌≡◌, refl, ap, arith, true, ◌==◌, ltb, Bool-cases, ◌⊎◌, inl, inr, none,
  sum_below_zero,
}
use whylogs_datasketches.Theta.Stride.{pow_pos}
use whylogs_datasketches.Theta.Table.{Keyed, Table, min_lg_k, starting_sub_multiple, key_of, reset}
use whylogs_datasketches.Theta.Entries.{live, with_key}
use whylogs_datasketches.Theta.Select.{cut}
use whylogs_datasketches.Theta.Rebuild.{total, IsValid}
use whylogs_datasketches.Theta.Sketch.{starting_lg_size}
use whylogs_datasketches.Theta.Sketch.Stream.{starting_size}

module _ {E : Type 0} ⦃keyed : Keyed E⦄ where
  no_slot : (t : Table E) (i : ℕ) → i < 2 ^ (reset t).lg_cur_size → (reset t).entries i ≡ none
  unfolding reset
  no_slot t i il =
      let lg : ℕ = starting_sub_multiple (t.lg_nom_size + 1) min_lg_k t.rf in
      elim (Bool-cases (lg == t.lg_cur_size)) [
        | inl same ↦
            let size : 2 ^ lg ≡ 2 ^ t.lg_cur_size = ap (λ k. 2 ^ k) (ground arith) in
            let here : ltb i (2 ^ t.lg_cur_size) ≡ true = ground (arith, il, size) in
            simp (same, here) refl
        | inr other ↦ simp other refl
      ]

  total-reset : (t : Table E) (A : E → ℕ) → total A (reset t) ≡ 0
  total-reset t A =
      sum_below_zero (2 ^ (reset t).lg_cur_size) (λ i. live A ((reset t).entries i))
        (λ i il. ap (live A) (no_slot t i il))

  -- `reset` of a table for at least 2^5 entries leaves a valid table without entries, with the
  -- `theta` of the start.
  pub reset-IsValid :
      (t : Table E)
      → 5 ≤ t.lg_nom_size
      → IsValid (reset t)
        × ((A : E → ℕ) → total A (reset t) ≡ 0)
        × ((reset t).theta ≡ t.starting_theta)
        × ((reset t).is_empty ≡ true)
        × ((0 < (reset t).rf) ⊎ ((reset t).lg_nom_size < (reset t).lg_cur_size))
  unfolding reset starting_lg_size
  reset-IsValid t low =
      let (sized, grows) = starting_size t.lg_nom_size t.rf low in
      let none_left : (A : E → ℕ) → total A (reset t) ≡ 0 = total-reset t in
      (
        record {
          hashed = record { reached = λ i il ne. absurd (ne (ap key_of (no_slot t i il))) };
          loaded = record {
            counted = none_left (λ e. 1);
            once = λ q. omega (arith, none_left (with_key q));
            below = λ A. omega (arith, none_left A, none_left (cut t.starting_theta A));
          };
          room = pow_pos (starting_sub_multiple (t.lg_nom_size + 1) min_lg_k t.rf);
          sized = sized;
        },
        none_left,
        refl,
        refl,
        grows,
      )
