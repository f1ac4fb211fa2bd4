-- ===== src/Kll/Buffer/Halve.antt =====
-- `randomly_halve_down` and `randomly_halve_up`: which items are kept.
use native.Mathlib.Decide.{ℕ_discrete}
use native.Mathlib.Numerals.{unary_clauses}
use whylogs_datasketches.Base.{
  range_sum, not, false, ◌&&◌, sym, Ends-throw_if, value_of_Ends, ℕ, zero, suc, ◌+◌, ◌-◌, ◌*◌, ◌/◌,
  ◌%◌, ◌≤◌, ◌<◌, ◌≡◌, ◌⊎◌, inl, inr, refl, ◌==◌, ◌∙◌, ap, ok, Ends, arith, invalid_argument,
  undefined,
}
use whylogs_datasketches.Kll.Buffer.{
  is_even, move_item, halve_down_loop, randomly_halve_down, halve_up_loop, randomly_halve_up,
}
use whylogs_datasketches.Kll.Buffer.Merge.{moved-at, moved-other, later, apart}

top : (i rounds : ℕ) → suc rounds ≤ i + 1 → (i - 1 < i) ⊎ (i + rounds ≤ i - 1)
top i rounds le = elim (ℕ_discrete i 0) [ yes e ↦ inr (omega arith) | no ne ↦ inl (omega arith) ]

below : (i rounds p : ℕ) → (i < p) ⊎ (p + suc rounds ≤ i) → (i - 1 < p) ⊎ (p + rounds ≤ i - 1)
below i rounds p (inl l) = inl (omega arith)
below i rounds p (inr r) = inr (omega arith)

beside : (i rounds p : ℕ) → (i < p) ⊎ (p + suc rounds ≤ i) → ¬ (p ≡ i)
beside i rounds p (inl l) = omega arith
beside i rounds p (inr r) = omega arith

start_of : (u s : ℕ) (g f : ℕ → ℕ) → g (u + 0) ≡ f (s + 2 * 0) → g u ≡ f s
start_of u s g f e =
    let left : u ≡ u + 0 = omega arith in
    let right : s + 2 * 0 ≡ s = omega arith in ap g left ∙ e ∙ ap f right

shifted :
    (u s : ℕ) (g f : ℕ → ℕ) (i : ℕ)
    → g (u + (i + 1)) ≡ f (s + 2 * (i + 1))
    → g (u + 1 + i) ≡ f (s + 1 + 1 + 2 * i)
shifted u s g f i e =
    let left : u + 1 + i ≡ u + (i + 1) = omega arith in
    let right : s + 2 * (i + 1) ≡ s + 1 + 1 + 2 * i = omega arith in ap g left ∙ e ∙ ap f right

-- A range of `2 * n` places, in two parts of `n` places that are read from elsewhere.
range_sum_pairs :
    (n len s u : ℕ) (f g h : ℕ → ℕ)
    → len ≡ 2 * n
    → ((i : ℕ) → i < n → g (u + i) ≡ f (s + 2 * i))
    → ((i : ℕ) → i < n → h (u + i) ≡ f (s + 1 + 2 * i))
    → range_sum len s f ≡ range_sum n u g + range_sum n u h
unfolding range_sum
range_sum_pairs zero zero s u f g h eq eg eh = refl
range_sum_pairs zero (suc len) s u f g h eq eg eh = absurd (omega arith)
range_sum_pairs (suc n) zero s u f g h eq eg eh = absurd (omega arith)
range_sum_pairs (suc n) (suc zero) s u f g h eq eg eh = absurd (omega arith)
range_sum_pairs (suc n) (suc (suc len)) s u f g h eq eg eh =
    let first : g u ≡ f s = start_of u s g f (eg 0 (omega arith)) in
    let second : h u ≡ f (s + 1) = start_of u (s + 1) h f (eh 0 (omega arith)) in
    let rest : range_sum len (s + 1 + 1) f ≡ range_sum n (u + 1) g + range_sum n (u + 1) h =
      range_sum_pairs n len (s + 1 + 1) (u + 1) f g h (omega arith)
        (λ i l. shifted u s g f i (eg (i + 1) (omega arith)))
        (λ i l. shifted u (s + 1) h f i (eh (i + 1) (omega arith))) in
    omega (arith, rest, first, second)

nonempty : (start length : ℕ) → ((start == 0) && (length == 0)) ≡ false → 0 < start + length
nonempty start length z = ground arith

module _ {T : Type 0} where
  halve_down_loop_lem :
      (rounds i j : ℕ) (buf : ℕ → T)
      → i ≤ j
      → ((t : ℕ) → t < rounds → halve_down_loop rounds i j buf (i + t) ≡ buf (j + 2 * t))
        × ((p : ℕ) → (p < i) ⊎ (i + rounds ≤ p) → halve_down_loop rounds i j buf p ≡ buf p)
  unfolding halve_down_loop
  halve_down_loop_lem zero i j buf le = (λ t l. absurd (omega arith), λ p o. refl)
  halve_down_loop_lem (suc rounds) i j buf le =
      let (kept, outside) =
        halve_down_loop_lem rounds (i + 1) (j + 2) (move_item buf j i) (omega arith) in
      let rest : ℕ → T = halve_down_loop rounds (i + 1) (j + 2) (move_item buf j i) in
      (
        λ t l. elim (ℕ_discrete t 0) [
          | yes e ↦
              let at : i + t ≡ i = omega arith in
              let from : j ≡ j + 2 * t = omega arith in
              ap rest at ∙ outside i (inl (omega arith)) ∙ moved-at buf j i ∙ ap buf from
          | no ne ↦
              let at : i + t ≡ i + 1 + (t - 1) = omega arith in
              let from : j + 2 + 2 * (t - 1) ≡ j + 2 * t = omega arith in
              ap rest at
              ∙ kept (t - 1) (omega arith)
              ∙ moved-other buf j i _ (omega arith)
              ∙ ap buf from
        ],
        λ p o. outside p (later i rounds p o) ∙ moved-other buf j i p (apart i rounds p o),
      )

  halve_up_loop_lem :
      (rounds i j : ℕ) (buf : ℕ → T)
      → j ≤ i
      → 2 * rounds ≤ j + 2
      → rounds ≤ i + 1
      → ((t : ℕ) → t < rounds → halve_up_loop rounds i j buf (i - t) ≡ buf (j - 2 * t))
        × ((p : ℕ) → (i < p) ⊎ (p + rounds ≤ i) → halve_up_loop rounds i j buf p ≡ buf p)
  unfolding halve_up_loop
  halve_up_loop_lem zero i j buf le e1 e2 = (λ t l. absurd (omega arith), λ p o. refl)
  halve_up_loop_lem (suc rounds) i j buf le e1 e2 =
      let (kept, outside) =
        halve_up_loop_lem rounds (i - 1) (j - 2) (move_item buf j i) (omega arith) (omega arith)
          (omega arith) in
      let rest : ℕ → T = halve_up_loop rounds (i - 1) (j - 2) (move_item buf j i) in
      (
        λ t l. elim (ℕ_discrete t 0) [
          | yes e ↦
              let at : i - t ≡ i = omega arith in
              let from : j ≡ j - 2 * t = omega arith in
              ap rest at ∙ outside i (top i rounds e2) ∙ moved-at buf j i ∙ ap buf from
          | no ne ↦
              let at : i - t ≡ i - 1 - (t - 1) = omega arith in
              let from : j - 2 - 2 * (t - 1) ≡ j - 2 * t = omega arith in
              ap rest at
              ∙ kept (t - 1) (omega arith)
              ∙ moved-other buf j i _ (omega arith)
              ∙ ap buf from
        ],
        λ p o. outside p (below i rounds p o) ∙ moved-other buf j i p (beside i rounds p o),
      )

  -- Of the items from `start` on, every other one stands in the `half` places from `at` on.
  pub record Halved (first start half at : ℕ) (buf buf' : ℕ → T) : Type 0 where
    pub kept : (i : ℕ) → i < half → buf' (at + i) ≡ buf (start + first + 2 * i)
    pub outside : (p : ℕ) → (p < at) ⊎ (at + half ≤ p) → buf' p ≡ buf p

  -- `randomly_halve_down` fails only for an odd length. Otherwise the first half of the range holds
  -- every other item, from the one on that the random bit names, and no other place is written.
  pub halve_down-Ends :
      (bit : ℕ) (buf : ℕ → T) (start length : ℕ)
      → Ends
          (λ buf'. (length % 2 ≡ 0) × Halved bit start (length / 2) start buf buf')
          (λ x. (x ≡ invalid_argument) × (length % 2 ≡ 1))
          (randomly_halve_down bit buf start length)
  unfolding randomly_halve_down
  halve_down-Ends bit buf start length =
      let (kept, outside) =
        halve_down_loop_lem (length / 2) start (start + bit) buf (omega arith) in
      Ends-throw_if _ _ (not (is_even length)) invalid_argument _ (λ e. (refl, ground arith))
        (λ e. (ground arith, record { kept = kept; outside = outside }))

  -- `randomly_halve_up` likewise keeps every other item, in the second half of the range and from
  -- the one on that the random bit does not name. It fails for an odd length, and goes out of the
  -- buffer if there is no item in the range nor before it.
  pub halve_up-Ends :
      (bit : ℕ) (buf : ℕ → T) (start length : ℕ)
      → bit ≤ 1
      → Ends
          (λ buf'.
            (length % 2 ≡ 0) × Halved (1 - bit) start (length / 2) (start + length / 2) buf buf')
          (λ x.
            ((x ≡ invalid_argument) × (length % 2 ≡ 1)) ⊎ ((x ≡ undefined) × (start + length ≡ 0)))
          (randomly_halve_up bit buf start length)
  unfolding randomly_halve_up
  halve_up-Ends bit buf start length le =
      Ends-throw_if _ _ (not (is_even length)) invalid_argument _ (λ e. inl (refl, ground arith))
        λ e.
          Ends-throw_if _ _ ((start == 0) && (length == 0)) undefined _
            (λ z. inr (refl, ground arith))
            λ z.
              let even : length % 2 ≡ 0 = ground arith in
              let pos : 0 < start + length = nonempty start length z in
              let half : ℕ = length / 2 in
              let i : ℕ = start + length - 1 in
              let (kept, outside) =
                halve_up_loop_lem half i (i - bit) buf (omega arith) (omega arith) (omega arith) in
              (
                even,
                record {
                  kept = λ q l.
                      let t : ℕ = half - 1 - q in
                      let at : start + half + q ≡ i - t = omega arith in
                      let from : i - bit - 2 * t ≡ start + (1 - bit) + 2 * q = omega arith in
                      ap (halve_up_loop half i (i - bit) buf) at
                      ∙ kept t (omega arith)
                      ∙ ap buf from;
                  outside = λ p o.
                      outside p (elim o [ inl l ↦ inr (omega arith) | inr r ↦ inl (omega arith) ]);
                },
              )

  -- Over the two values of the random bit every item is kept exactly once.
  Halved-sums :
      (start half at : ℕ) (buf low high : ℕ → T)
      → Halved 0 start half at buf low
      → Halved 1 start half at buf high
      → (A : T → ℕ)
      → range_sum (2 * half) start (λ i. A (buf i))
        ≡ range_sum half at (λ i. A (low i)) + range_sum half at (λ i. A (high i))
  Halved-sums start half at buf low high zeros ones A =
      range_sum_pairs half (2 * half) start at (λ i. A (buf i)) (λ i. A (low i)) (λ i. A (high i))
        refl (λ i l. ap A (simp unary_clauses at (zeros.kept i l))) (λ i l. ap A (ones.kept i l))

  even_sums :
      (start length at : ℕ) (buf low high : ℕ → T)
      → length % 2 ≡ 0
      → Halved 0 start (length / 2) at buf low
      → Halved 1 start (length / 2) at buf high
      → (A : T → ℕ)
      → range_sum length start (λ i. A (buf i))
        ≡ range_sum (length / 2) at (λ i. A (low i)) + range_sum (length / 2) at (λ i. A (high i))
  even_sums start length at buf low high even zeros ones A =
      let len : 2 * (length / 2) ≡ length = omega arith in
      ap (λ n. range_sum n start (λ i. A (buf i))) (sym len)
      ∙ Halved-sums start (length / 2) at buf low high zeros ones A

  -- Over the two values of the random bit `randomly_halve_down` keeps every item exactly once: any
  -- measure of the items sums up, over the two results, to that of the whole range.
  pub halve_down_unbiased :
      (buf : ℕ → T) (start length : ℕ) (low high : ℕ → T)
      → randomly_halve_down 0 buf start length ≡ ok low
      → randomly_halve_down 1 buf start length ≡ ok high
      → (A : T → ℕ)
      → range_sum length start (λ i. A (buf i))
        ≡ range_sum (length / 2) start (λ i. A (low i))
          + range_sum (length / 2) start (λ i. A (high i))
  halve_down_unbiased buf start length low high e0 e1 A =
      let zeros =
        value_of_Ends _ _ (randomly_halve_down 0 buf start length) low
          (halve_down-Ends 0 buf start length) e0 in
      let ones =
        value_of_Ends _ _ (randomly_halve_down 1 buf start length) high
          (halve_down-Ends 1 buf start length) e1 in
      even_sums start length start buf low high zeros.0 zeros.1 ones.1 A

  -- The same for `randomly_halve_up`, whose results stand in the second half of the range.
  pub halve_up_unbiased :
      (buf : ℕ → T) (start length : ℕ) (low high : ℕ → T)
      → randomly_halve_up 1 buf start length ≡ ok low
      → randomly_halve_up 0 buf start length ≡ ok high
      → (A : T → ℕ)
      → range_sum length start (λ i. A (buf i))
        ≡ range_sum (length / 2) (start + length / 2) (λ i. A (low i))
          + range_sum (length / 2) (start + length / 2) (λ i. A (high i))
  halve_up_unbiased buf start length low high e1 e0 A =
      let zeros =
        value_of_Ends _ _ (randomly_halve_up 1 buf start length) low
          (halve_up-Ends 1 buf start length (omega arith)) e1 in
      let ones =
        value_of_Ends _ _ (randomly_halve_up 0 buf start length) high
          (halve_up-Ends 0 buf start length (omega arith)) e0 in
      even_sums start length (start + length / 2) buf low high zeros.0 zeros.1 ones.1 A
