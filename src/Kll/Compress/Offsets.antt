-- ===== src/Kll/Compress/Offsets.antt =====
-- The offsets of the levels while `general_compress` of kll/include/kll_helper_impl.hpp goes through them.
use native.Mathlib.Nat.{mul-zero, mul-le-mul_left}
use native.Mathlib.Decide.{ℕ_discrete}
use whylogs_datasketches.Base.{
  range_sum, range_sum_congr, range_sum-all, ℕ, zero, suc, ◌+◌, ◌-◌, ◌*◌, ◌/◌, ◌%◌, ◌^◌, ◌≤◌, ◌<◌,
  ◌≡◌, ap, ◌∙◌, arith, sum_below, update,
}
use whylogs_datasketches.Kll.Compress.Weights.{
  weight_at, range_sum_first, update-at, update-other, close, no_levels, weight_at_congr,
  halved_weight,
}

-- The offsets while the levels below `level` are done: `num` levels, the items from `in_levels
-- level` on still to be looked at, and a weight of `W` in all.
pub record Going (W level num : ℕ) (in_levels out_levels : ℕ → ℕ) (count : ℕ) : Type 0 where
  pub order : (l : ℕ) → level ≤ l → l < num → in_levels l ≤ in_levels (l + 1)
  pub room : out_levels level ≤ in_levels level
  pub start : out_levels 0 ≡ 0
  pub items : count + in_levels level ≡ out_levels level + in_levels num
  pub mass :
      sum_below level (weight_at out_levels) + range_sum (num - level) level (weight_at in_levels)
      ≡ W

order-last :
    (n l num : ℕ) (levels : ℕ → ℕ)
    → l + n ≡ num
    → ((i : ℕ) → l ≤ i → i < num → levels i ≤ levels (i + 1))
    → levels l ≤ levels num
order-last zero l num levels e order =
    let same : l ≡ num = omega arith in
    let at : levels l ≡ levels num = ap levels same in omega (arith, at)
order-last (suc n) l num levels e order = omega (
  arith,
  order l (omega arith) (omega arith),
  order-last n (l + 1) num levels (omega arith) (λ i a b. order i (omega arith) b),
)

module _ (W level num : ℕ) (ins out : ℕ → ℕ) (count : ℕ) (g : Going W level num ins out count) where
  -- A level with an item weighs as much as the item.
  pub weight_of_level : level < num → 0 < ins (level + 1) - ins level → 2 ^ level ≤ W
  weight_of_level lt pos =
      let one : 1 ≤ ins (level + 1) - ins level = omega (arith, pos) in
      let here : 2 ^ level * 1 ≤ weight_at ins level = mul-le-mul_left (2 ^ level) one in
      omega (arith, here, range_sum_first num level (weight_at ins) lt, g.mass)

  -- A level that stays as it is.
  pub move-Going :
      level < num
      → Going W
          (level + 1)
          num
          ins
          (update out (level + 1) (out level + (ins (level + 1) - ins level)))
          count
  move-Going lt =
      let kept : ℕ = ins (level + 1) - ins level in
      let v : ℕ = out level + kept in
      let at : update out (level + 1) v (level + 1) ≡ v = update-at out (level + 1) v in
      let up : ins level ≤ ins (level + 1) = g.order level (omega arith) lt in
      record {
        order = λ l a b. g.order l (omega arith) b;
        room = omega (arith, at, up, g.room);
        start = update-other out (level + 1) v 0 (omega arith) ∙ g.start;
        items = omega (arith, at, up, g.items);
        mass =
            omega
              (arith, close level kept out, range_sum_first num level (weight_at ins) lt, g.mass);
      }

  -- Only the offsets up to the last one count.
  pub same-Going :
      (ins' : ℕ → ℕ)
      → level < num
      → ((l : ℕ) → l ≤ num → ins' l ≡ ins l)
      → Going W level num ins' out count
  same-Going ins' lt same =
      let tops : range_sum (num - level) level (weight_at ins')
          ≡ range_sum (num - level) level (weight_at ins) =
        range_sum_congr (num - level) level (weight_at ins') (weight_at ins) (λ l a b.
          weight_at_congr ins' ins l (same l (omega arith)) (same (l + 1) (omega arith))) in
      record {
        order =
            λ l a b. omega (arith, same l (omega arith), same (l + 1) (omega arith), g.order l a b);
        room = omega (arith, same level (omega arith), g.room);
        start = g.start;
        items = omega (arith, same level (omega arith), same num (omega arith), g.items);
        mass = omega (arith, tops, g.mass);
      }

  -- An empty level above the top one.
  pub extend-Going :
      level + 1 ≡ num → Going W level (num + 1) (update ins (level + 2) (ins (level + 1))) out count
  extend-Going e =
      let ins' : ℕ → ℕ = update ins (level + 2) (ins (level + 1)) in
      let top : ins' (level + 2) ≡ ins (level + 1) = update-at ins (level + 2) (ins (level + 1)) in
      let same : (l : ℕ) → l < level + 2 → ins' l ≡ ins l =
        λ l lt. update-other ins (level + 2) (ins (level + 1)) l (omega arith) in
      let tops : range_sum (num - level) level (weight_at ins')
          ≡ range_sum (num - level) level (weight_at ins) =
        range_sum_congr (num - level) level (weight_at ins') (weight_at ins) (λ l a b.
          weight_at_congr ins' ins l (same l (omega arith)) (same (l + 1) (omega arith))) in
      let at_num : ins (level + 1) ≡ ins num = ap ins e in
      let at_new : ins' (level + 2) ≡ ins' (num + 1) =
        let i : level + 2 ≡ num + 1 = omega arith in ap ins' i in
      let empty : weight_at ins' (level + 1) ≡ 0 =
        let i : level + 1 + 1 ≡ level + 2 = omega arith in
        let none : ins' (level + 1 + 1) - ins' (level + 1) ≡ 0 =
          omega (arith, ap ins' i, top, same (level + 1) (omega arith)) in
        ap (λ d. 2 ^ (level + 1) * d) none ∙ mul-zero (2 ^ (level + 1)) in
      record {
        order = λ l a b. elim (ℕ_discrete l level) [
          | yes q ↦ omega (
            arith,
            same l (omega arith),
            same (l + 1) (omega arith),
            g.order l (omega arith) (omega arith),
          )
          | no ne ↦
              let i : l ≡ level + 1 = omega arith in
              let j : l + 1 ≡ level + 2 = omega arith in
              omega (arith, ap ins' i, ap ins' j, top, same (level + 1) (omega arith))
        ];
        room = omega (arith, same level (omega arith), g.room);
        start = g.start;
        items = omega (arith, same level (omega arith), g.items, at_num, at_new, top);
        mass = omega (
          arith,
          g.mass,
          tops,
          empty,
          range_sum_first num level (weight_at ins) (omega arith),
          range_sum_first num level (weight_at ins') (omega arith),
          range_sum_first (num + 1) level (weight_at ins') (omega arith),
          range_sum_first (num + 1) (level + 1) (weight_at ins') (omega arith),
          no_levels num (level + 1) (weight_at ins') (omega arith),
          no_levels (num + 1) (level + 1 + 1) (weight_at ins') (omega arith),
        );
      }

  -- A compaction of a level with another one above it.
  pub compact-Going :
      level + 1 < num
      → Going W
          (level + 1)
          num
          (update ins (level + 1) (ins (level + 1) - (ins (level + 1) - ins level) / 2))
          (update out (level + 1) (out level + (ins (level + 1) - ins level) % 2))
          (count - (ins (level + 1) - ins level) / 2)
  compact-Going lt =
      let p : ℕ = ins (level + 1) - ins level in
      let v : ℕ = out level + p % 2 in
      let u : ℕ = ins (level + 1) - p / 2 in
      let ins' : ℕ → ℕ = update ins (level + 1) u in
      let oat : update out (level + 1) v (level + 1) ≡ v = update-at out (level + 1) v in
      let iat : ins' (level + 1) ≡ u = update-at ins (level + 1) u in
      let iother : (l : ℕ) → level + 1 < l → ins' l ≡ ins l =
        λ l a. update-other ins (level + 1) u l (omega arith) in
      let up : ins level ≤ ins (level + 1) = g.order level (omega arith) (omega arith) in
      let last : ins (level + 1) ≤ ins num =
        order-last (num - (level + 1)) (level + 1) num ins (omega arith)
          (λ i a b. g.order i (omega arith) b) in
      let tails : range_sum (num - (level + 1 + 1)) (level + 1 + 1) (weight_at ins')
          ≡ range_sum (num - (level + 1 + 1)) (level + 1 + 1) (weight_at ins) =
        range_sum_congr (num - (level + 1 + 1)) (level + 1 + 1) (weight_at ins') (weight_at ins)
          (λ l a b.
            weight_at_congr ins' ins l (iother l (omega arith)) (iother (l + 1) (omega arith))) in
      let pair : weight_at ins' (level + 1) + 2 ^ level * (p % 2)
          ≡ weight_at ins (level + 1) + weight_at ins level =
        halved_weight level (ins (level + 1 + 1) - ins (level + 1)) p
          (ins' (level + 1 + 1) - ins' (level + 1))
          (omega (
            arith,
            iat,
            iother (level + 1 + 1) (omega arith),
            g.order (level + 1) (omega arith) lt,
          )) in
      record {
        order = λ l a b. elim (ℕ_discrete l (level + 1)) [
          | yes e ↦
              let here : ins' l ≡ u = ap ins' e ∙ iat in
              let old : ins l ≡ ins (level + 1) = ap ins e in
              omega (arith, here, old, iother (l + 1) (omega arith), g.order l (omega arith) b)
          | no ne ↦ omega (
            arith,
            iother l (omega arith),
            iother (l + 1) (omega arith),
            g.order l (omega arith) b,
          )
        ];
        room = omega (arith, oat, iat, up, g.room);
        start = update-other out (level + 1) v 0 (omega arith) ∙ g.start;
        items = omega (arith, oat, iat, up, last, g.items, iother num lt);
        mass = omega (
          arith,
          close level (p % 2) out,
          range_sum_first num level (weight_at ins) (omega arith),
          range_sum_first num (level + 1) (weight_at ins) lt,
          range_sum_first num (level + 1) (weight_at ins') lt,
          tails,
          pair,
          g.mass,
        );
      }

pub start_Going :
    (num : ℕ) (ins out : ℕ → ℕ)
    → ((l : ℕ) → l < num → ins l ≤ ins (l + 1))
    → Going (sum_below num (weight_at ins)) 0 num ins (update out 0 0) (ins num - ins 0)
unfolding sum_below
start_Going num ins out order =
    let zero_at : update out 0 0 0 ≡ 0 = update-at out 0 0 in
    let count : 0 + num ≡ num = omega arith in
    let from_zero : num - 0 ≡ num = omega arith in
    let whole : range_sum (num - 0) 0 (weight_at ins) ≡ range_sum num 0 (weight_at ins) =
      ap (λ n. range_sum n 0 (weight_at ins)) from_zero in
    let all : sum_below (0 + num) (weight_at ins) ≡ sum_below num (weight_at ins) =
      ap (λ n. sum_below n (weight_at ins)) count in
    record {
      order = λ l a b. order l b;
      room = omega (arith, zero_at);
      start = zero_at;
      items = omega (arith, zero_at, order-last num 0 num ins (omega arith) (λ i a b. order i b));
      mass = omega (arith, range_sum-all num 0 (weight_at ins), all, whole);
    }

pub end_Going :
    (W num : ℕ) (ins out : ℕ → ℕ) (count : ℕ)
    → Going W num num ins out count
    → (sum_below num (weight_at out) ≡ W) × (count ≡ out num)
end_Going W num ins out count g =
    (omega (arith, g.mass, no_levels num num (weight_at ins) (omega arith)), omega (arith, g.items))
