-- ===== src/Kll/Sketch/Levels.antt =====
-- The offsets of the levels of the sketch through its updates.
use native.Mathlib.Decide.{ℕ_discrete}
use native.Mathlib.Nat.{mul-zero}
use whylogs_datasketches.Base.{update as set_at}
use whylogs_datasketches.Base.{
  ℕ, zero, suc, ◌≢◌, ◌+◌, ◌-◌, ◌*◌, ◌/◌, ◌%◌, ◌^◌, ◌≤◌, ◌<◌, ◌≡◌, ap, sym, ◌∙◌, arith, ltb, leb,
  ==_refl, if◌then◌else◌, Bool-cases, inl, inr, sum_below, sum_below_congr, sum_below-add_one,
  sum_below_change,
}
use whylogs_datasketches.Kll.Buffer.{is_odd}
use whylogs_datasketches.Kll.Compress.Weights.{
  weight_at, weight_at_congr, halved_weight, update-at, update-other,
}
use whylogs_datasketches.Kll.Sketch.{shifted_levels}

-- Two sums that differ only at `p` and the index behind it.
sum_below_pair :
    (n : ℕ) (f g : ℕ → ℕ) (p : ℕ)
    → p + 1 < n
    → ((i : ℕ) → i ≢ p → i ≢ p + 1 → f i ≡ g i)
    → f p + f (p + 1) ≡ g p + g (p + 1)
    → sum_below n f ≡ sum_below n g
unfolding sum_below
sum_below_pair zero f g p lt same pair = absurd (omega arith)
sum_below_pair (suc n) f g p lt same pair = elim (ℕ_discrete n (p + 1)) [
  | yes e ↦
      let at : f n ≡ f (p + 1) = ap f e in
      let at' : g n ≡ g (p + 1) = ap g e in
      let split : sum_below n f ≡ f p + sum_below p f =
        ap (λ k. sum_below k f) e ∙ sum_below-add_one p f in
      let split' : sum_below n g ≡ g p + sum_below p g =
        ap (λ k. sum_below k g) e ∙ sum_below-add_one p g in
      let rest = sum_below_congr p f g (λ i il. same i (omega arith) (omega arith)) in
      omega (arith, at, at', split, split', rest, pair)
  | no ne ↦ omega (arith, same n (omega arith) ne, sum_below_pair n f g p (omega arith) same pair)
]

-- The offsets of the levels that stay in order and have a weight of `n`.
pub record Levels (num n : ℕ) (levels : ℕ → ℕ) : Type 0 where
  pub order : (l : ℕ) → l < num → levels l ≤ levels (l + 1)
  pub mass : sum_below num (weight_at levels) ≡ n

-- One more level above, and all offsets moved up.
pub grown-Levels :
    (num n delta top : ℕ) (levels : ℕ → ℕ)
    → top ≡ levels num + delta
    → Levels num n levels
    → Levels
        (num + 1)
        n
        (set_at (λ i. if leb i num then levels i + delta else levels i) (num + 1) top)
grown-Levels num n delta top levels et h =
    let up : ℕ → ℕ = set_at (λ i. if leb i num then levels i + delta else levels i) (num + 1) top in
    let low : (i : ℕ) → i ≤ num → up i ≡ levels i + delta = λ i il. ground arith in
    let at : up (num + 1) ≡ top = ground (arith, ==_refl (num + 1)) in
    let empty : weight_at up num ≡ 0 =
      let none : up (num + 1) - up num ≡ 0 = omega (arith, at, low num (omega arith)) in
      ap (λ d. 2 ^ num * d) none ∙ mul-zero (2 ^ num) in
    let below = sum_below_congr num (weight_at up) (weight_at levels) (λ l lt.
      let pop : up (l + 1) - up l ≡ levels (l + 1) - levels l =
        omega (arith, low l (omega arith), low (l + 1) (omega arith)) in
      ap (λ d. 2 ^ l * d) pop) in
    record {
      order = λ l lt. elim (ℕ_discrete l num) [
        | yes e ↦
            let a : up l ≡ up num = ap up e in
            let b : up (l + 1) ≡ up (num + 1) = ap (λ k. up (k + 1)) e in
            omega (arith, a, b, at, low num (omega arith))
        | no ne ↦
            omega (arith, low l (omega arith), low (l + 1) (omega arith), h.order l (omega arith))
      ];
      mass = omega (arith, sum_below-add_one num (weight_at up), empty, below, h.mass);
    }

-- The offsets after a compaction, in order.
shifted_order :
    (num level half : ℕ) (levels sh : ℕ → ℕ) (l : ℕ)
    → sh level ≡ levels level + half
    → sh (level + 1) ≡ levels (level + 1) - half
    → ((i : ℕ) → i ≤ level → sh i ≡ levels i + half)
    → ((i : ℕ) → level + 1 < i → sh i ≡ levels i)
    → levels level ≤ levels (level + 1)
    → levels (level + 1) ≤ levels (level + 1 + 1)
    → levels l ≤ levels (l + 1)
    → half ≡ (levels (level + 1) - levels level) / 2
    → sh l ≤ sh (l + 1)
shifted_order num level half levels sh l at above below high up up1 here eh =
    elim (ℕ_discrete l level) [
      | yes e ↦ omega (arith, ap sh e, ap (λ k. sh (k + 1)) e, at, above)
      | no ne ↦ elim (ℕ_discrete l (level + 1)) [
        | yes e ↦
            omega
              (arith, ap sh e, ap (λ k. sh (k + 1)) e, above, high (level + 1 + 1) (omega arith))
        | no ne1 ↦ elim (Bool-cases (ltb l level)) [
          | inl lt ↦ omega (arith, below l (ground arith), below (l + 1) (ground arith), here)
          | inr ge ↦ omega (arith, high l (ground arith), high (l + 1) (ground arith), here)
        ]
      ]
    ]

-- The other levels keep their weights.
same_weight :
    (level half : ℕ) (levels sh : ℕ → ℕ) (i : ℕ)
    → i ≢ level
    → i ≢ level + 1
    → ((i : ℕ) → i ≤ level → sh i ≡ levels i + half)
    → ((i : ℕ) → level + 1 < i → sh i ≡ levels i)
    → weight_at sh i ≡ weight_at levels i
same_weight level half levels sh i ne ne1 below high = elim (Bool-cases (ltb i level)) [
  | inl lt ↦
      let pop : sh (i + 1) - sh i ≡ levels (i + 1) - levels i =
        omega (arith, below i (ground arith), below (i + 1) (ground arith)) in
      ap (λ d. 2 ^ i * d) pop
  | inr ge ↦ weight_at_congr sh levels i (high i (ground arith)) (high (i + 1) (ground arith))
]

-- The offsets after a compaction of a level with another one above it.
pub shifted-Levels :
    (num n level half : ℕ) (levels : ℕ → ℕ)
    → level + 1 < num
    → half ≡ (levels (level + 1) - levels level) / 2
    → Levels num n levels
    → Levels num n (shifted_levels levels level half (is_odd (levels (level + 1) - levels level)))
      × (shifted_levels levels level half (is_odd (levels (level + 1) - levels level)) level
          ≡ levels level + half)
      × (shifted_levels levels level half (is_odd (levels (level + 1) - levels level)) 0
          ≡ levels 0 + half)
      × (shifted_levels levels level half (is_odd (levels (level + 1) - levels level)) num
          ≡ levels num)
shifted-Levels num n level half levels lt eh h =
    let pop : ℕ = levels (level + 1) - levels level in
    let sh : ℕ → ℕ = shifted_levels levels level half (is_odd pop) in
    let up : levels level ≤ levels (level + 1) = h.order level (omega arith) in
    let up1 : levels (level + 1) ≤ levels (level + 1 + 1) = h.order (level + 1) lt in
    let low : (i : ℕ) → i < level → sh i ≡ levels i + half = λ i il. ground arith in
    let at : sh level ≡ levels level + half = ground (arith, ==_refl level) in
    let above : sh (level + 1) ≡ levels (level + 1) - half = ground (arith, ==_refl (level + 1)) in
    let high : (i : ℕ) → level + 1 < i → sh i ≡ levels i = λ i il. ground arith in
    let below : (i : ℕ) → i ≤ level → sh i ≡ levels i + half = λ i il. elim (ℕ_discrete i level) [
      | yes e ↦ ap sh e ∙ at ∙ ap (λ k. levels k + half) (sym e)
      | no ne ↦ low i (omega arith)
    ] in
    let pair : weight_at sh (level + 1) + 2 ^ level * (pop % 2)
        ≡ weight_at levels (level + 1) + weight_at levels level =
      halved_weight level (levels (level + 1 + 1) - levels (level + 1)) pop
        (sh (level + 1 + 1) - sh (level + 1))
        (omega (arith, above, high (level + 1 + 1) (omega arith))) in
    let left : weight_at sh level ≡ 2 ^ level * (pop % 2) =
      let one : sh (level + 1) - sh level ≡ pop % 2 = omega (arith, at, above) in
      ap (λ d. 2 ^ level * d) one in
    (
      record {
        order = λ l ll.
            shifted_order num level half levels sh l at above below high up up1 (h.order l ll) eh;
        mass =
            sum_below_pair num (weight_at sh) (weight_at levels) level lt
              (λ i ne ne1. same_weight level half levels sh i ne ne1 below high)
              (omega (arith, pair, left))
            ∙ h.mass;
      },
      at,
      below 0 (omega arith),
      high num lt,
    )

-- One more item at the lowest level.
pub lowered-Levels :
    (num n : ℕ) (levels : ℕ → ℕ)
    → 1 ≤ num
    → 0 < levels 0
    → Levels num n levels
    → Levels num (n + 1) (set_at levels 0 (levels 0 - 1))
      × (set_at levels 0 (levels 0 - 1) num ≡ levels num)
lowered-Levels num n levels pos room h =
    let low : ℕ → ℕ = set_at levels 0 (levels 0 - 1) in
    let at : low 0 ≡ levels 0 - 1 = update-at levels 0 (levels 0 - 1) in
    let other : (i : ℕ) → 0 < i → low i ≡ levels i =
      λ i il. update-other levels 0 (levels 0 - 1) i (omega arith) in
    let first : levels 0 ≤ levels 1 = h.order 0 (omega arith) in
    let change = sum_below_change num (weight_at low) (weight_at levels) 0 (omega arith) (λ i il ne.
      weight_at_congr low levels i (other i (omega arith)) (other (i + 1) (omega arith))) in
    (
      record {
        order = λ l ll. elim (ℕ_discrete l 0) [
          | yes e ↦
              omega (arith, ap low e, ap (λ k. low (k + 1)) e, at, other 1 (omega arith), first)
          | no ne ↦ omega (arith, other l (omega arith), other (l + 1) (omega arith), h.order l ll)
        ];
        mass = omega (arith, change, h.mass, at, other 1 (omega arith), first);
      },
      other num (omega arith),
    )
