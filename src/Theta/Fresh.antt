-- ===== src/Theta/Fresh.antt =====
-- The table that a constructor leaves.
use whylogs_datasketches.Base.{ℕ, ◌^◌, ◌≤◌, ◌≡◌, refl, arith, Bool, none, sum_below_zero}
use whylogs_datasketches.Theta.Stride.{pow_pos}
use whylogs_datasketches.Theta.Table.{Keyed, new}
use whylogs_datasketches.Theta.Entries.{entry_sum, with_key, none-Hashed}
use whylogs_datasketches.Theta.Select.{cut}
use whylogs_datasketches.Theta.Rebuild.{total, IsValid}

module _ {E : Type 0} ⦃keyed : Keyed E⦄ where
  pub none_total : (n : ℕ) (A : E → ℕ) → entry_sum n A (λ i. none) ≡ 0
  none_total n A = sum_below_zero n (λ i. 0) (λ i il. refl)

  pub new_total :
      (is_empty : Bool) (lg_cur_size lg_nom_size rf starting_theta theta seed : ℕ) (A : E → ℕ)
      → total A (new is_empty lg_cur_size lg_nom_size rf starting_theta theta seed) ≡ 0
  unfolding new
  new_total is_empty lg_cur_size lg_nom_size rf starting_theta theta seed A =
      none_total (2 ^ lg_cur_size) A

  pub new-IsValid :
      (is_empty : Bool) (lg_cur_size lg_nom_size rf starting_theta theta seed : ℕ)
      → 1 ≤ lg_cur_size
      → IsValid {E = E} (new is_empty lg_cur_size lg_nom_size rf starting_theta theta seed)
  unfolding new
  new-IsValid is_empty lg_cur_size lg_nom_size rf starting_theta theta seed sized =
      let all : (A : E → ℕ) → entry_sum (2 ^ lg_cur_size) A (λ i. none) ≡ 0 =
        none_total (2 ^ lg_cur_size) in
      record {
        hashed = none-Hashed lg_cur_size;
        loaded = record {
          counted = all (λ e. 1);
          once = λ q. omega (arith, all (with_key q));
          below = λ A. omega (arith, all A, all (cut theta A));
        };
        room = pow_pos lg_cur_size;
        sized = sized;
      }
