-- ===== src/Kll/Compress/Weights.antt =====
-- The weights of the levels, as `sum_the_sample_weights` of kll/include/kll_helper_impl.hpp adds them.
use whylogs_datasketches.Base.{
  range_sum, ℕ, zero, suc, ◌+◌, ◌-◌, ◌*◌, ◌/◌, ◌%◌, ◌^◌, ◌≤◌, ◌<◌, ◌≡◌, ap, ◌∙◌, sym, arith,
  sum_below, sum_below-add_one, sum_below_congr, update, ==_refl, ==_ne,
}
use whylogs_datasketches.Kll.Capacity.{double}
use whylogs_datasketches.Kll.Compress.{weights_loop, sum_the_sample_weights}

-- The weight of a level.
abbrev pub weight_at : (ℕ → ℕ) → ℕ → ℕ
weight_at levels l = 2 ^ l * (levels (l + 1) - levels l)

loop_lem :
    (n l : ℕ) (levels : ℕ → ℕ)
    → weights_loop n l (2 ^ l) (sum_below l (weight_at levels)) levels
      ≡ sum_below (l + n) (weight_at levels)
unfolding weights_loop
loop_lem zero l levels = ap (λ e. sum_below e (weight_at levels)) (omega arith)
loop_lem (suc n) l levels =
    let weight : 2 ^ l * 2 ≡ 2 ^ (l + 1) = sym (double l) in
    let total : sum_below l (weight_at levels) + weight_at levels l
        ≡ sum_below (l + 1) (weight_at levels) =
      omega (arith, sum_below-add_one l (weight_at levels)) in
    let count : l + 1 + n ≡ l + suc n = omega arith in
    ap (λ a. weights_loop n (l + 1) a (sum_below l (weight_at levels) + weight_at levels l) levels)
      weight
    ∙ ap (λ a. weights_loop n (l + 1) (2 ^ (l + 1)) a levels) total
    ∙ loop_lem n (l + 1) levels
    ∙ ap (λ e. sum_below e (weight_at levels)) count

pub sum_the_sample_weights_lem :
    (n : ℕ) (levels : ℕ → ℕ) → sum_the_sample_weights n levels ≡ sum_below n (weight_at levels)
unfolding sum_the_sample_weights sum_below
sum_the_sample_weights_lem n levels =
    loop_lem n 0 levels ∙ ap (λ e. sum_below e (weight_at levels)) (omega arith)

pub range_sum_first :
    (num level : ℕ) (f : ℕ → ℕ)
    → level < num
    → range_sum (num - level) level f ≡ f level + range_sum (num - (level + 1)) (level + 1) f
unfolding range_sum
range_sum_first num level f lt =
    let one_more : num - level ≡ suc (num - (level + 1)) = omega arith in
    ap (λ n. range_sum n level f) one_more

pub update-at : (f : ℕ → ℕ) (i v : ℕ) → update f i v i ≡ v
update-at f i v = ground (arith, ==_refl i)

pub update-other : (f : ℕ → ℕ) (i v j : ℕ) → ¬ (j ≡ i) → update f i v j ≡ f j
update-other f i v j ne = ground (arith, ==_ne j i ne)

pub no_levels : (num level : ℕ) (f : ℕ → ℕ) → num ≤ level → range_sum (num - level) level f ≡ 0
unfolding range_sum
no_levels num level f le =
    let nothing : num - level ≡ 0 = omega arith in ap (λ n. range_sum n level f) nothing

pub weight_at_congr :
    (f g : ℕ → ℕ) (l : ℕ) → f l ≡ g l → f (l + 1) ≡ g (l + 1) → weight_at f l ≡ weight_at g l
weight_at_congr f g l e e' = ap (λ a. 2 ^ l * (a - f l)) e' ∙ ap (λ a. 2 ^ l * (g (l + 1) - a)) e

-- Half of `p` items at the next level, and one of them at this level if `p` is odd.
pub halved_weight :
    (level x p y : ℕ)
    → y ≡ x + p / 2
    → 2 ^ (level + 1) * y + 2 ^ level * (p % 2) ≡ 2 ^ (level + 1) * x + 2 ^ level * p
halved_weight level x p y e =
    let left : 2 ^ (level + 1) * y ≡ 2 ^ level * 2 * (x + p / 2) =
      ap (λ d. 2 ^ (level + 1) * d) e ∙ ap (λ q. q * (x + p / 2)) (double level) in
    let right : 2 ^ (level + 1) * x ≡ 2 ^ level * 2 * x = ap (λ q. q * x) (double level) in
    let digits : p ≡ 2 * (p / 2) + p % 2 = omega arith in
    let all : 2 ^ level * p ≡ 2 ^ level * (2 * (p / 2) + p % 2) = ap (λ d. 2 ^ level * d) digits in
    omega (arith, left, right, all)

-- Writing the offset behind the current level of the result.
pub close :
    (level kept : ℕ) (out : ℕ → ℕ)
    → sum_below (level + 1) (weight_at (update out (level + 1) (out level + kept)))
      ≡ 2 ^ level * kept + sum_below level (weight_at out)
close level kept out =
    let out' : ℕ → ℕ = update out (level + 1) (out level + kept) in
    let below = sum_below_congr level (weight_at out') (weight_at out) (λ l lt.
      ap (λ d. 2 ^ l * d)
        (ap (λ a. a - out' l)
            (update-other out (level + 1) (out level + kept) (l + 1) (omega arith))
          ∙ ap (λ b. out (l + 1) - b)
              (update-other out (level + 1) (out level + kept) l (omega arith)))) in
    let pop : out' (level + 1) - out' level ≡ kept = omega (
      arith,
      update-at out (level + 1) (out level + kept),
      update-other out (level + 1) (out level + kept) level (omega arith),
    ) in
    let at : weight_at out' level ≡ 2 ^ level * kept = ap (λ d. 2 ^ level * d) pop in
    omega (arith, sum_below-add_one level (weight_at out'), below, at)
