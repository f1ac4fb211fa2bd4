-- ===== src/Kll/Capacity.antt =====
-- The level capacities of the quantile sketch: kll/include/kll_helper_impl.hpp. The numbers are of
-- 16 and 64 bits; the theorems show that no result is larger than `k`, so that none wraps.
use native.Mathlib.Nat.{
  pow-le-pow_left, pow-le-pow_right, pow-suc, mul-le-mul_left, mul_comm, div-le_of_le-mul,
}
use native.Mathlib.Numerals.{add-one}
use whylogs_datasketches.Base.{
  ℕ, zero, suc, ◌+◌, ◌-◌, ◌%◌, ◌*◌, ◌/◌, ◌≤◌, ◌<◌, ◌^◌, ◌≡◌, refl, max, ltb, leb, ◌==◌,
  if◌then◌else◌, Ends, Bool-cases, inl, inr, subst, sym, ap, ◌∙◌, Ends-if, Ends-map, Ends-no_error,
  Ends-weaken, Ends-bind, Outcome, ok, throws, logic_error, invalid_argument, diverges, throw_if,
  ◌>>=◌, ◌>>◌, arith,
}

-- The table `powers_of_three` holds 3^0 to 3^30.
abbrev pub powers_of_three : ℕ → ℕ
powers_of_three depth = 3 ^ depth

unfoldable pub int_cap_aux_aux : ℕ → ℕ → Outcome ℕ
int_cap_aux_aux k depth = do
  throw_if (ltb 30 depth) invalid_argument
  let tmp = k * 2 * 2 ^ depth / powers_of_three depth
  let result = (tmp + 1) / 2
  throw_if (ltb k result) logic_error
  ok result

unfoldable pub int_cap_aux : ℕ → ℕ → Outcome ℕ
int_cap_aux k depth =
    if ltb 60 depth
    then throws invalid_argument
    else (if leb depth 30 then int_cap_aux_aux k depth else do
      let half = depth / 2
      tmp ← int_cap_aux_aux k half
      int_cap_aux_aux tmp (depth - half))

unfoldable pub level_capacity : ℕ → ℕ → ℕ → ℕ → Outcome ℕ
level_capacity k num_levels height min_wid =
    if leb num_levels height
    then throws invalid_argument
    else do cap ← int_cap_aux k (num_levels - height - 1); ok (max min_wid cap)

-- The loop of `compute_total_capacity` from height `h` on.
unfoldable pub capacity_loop : ℕ → ℕ → ℕ → ℕ → ℕ → ℕ → Outcome ℕ
capacity_loop zero h total k m num_levels = ok total
capacity_loop (suc rounds) h total k m num_levels = do
  cap ← level_capacity k num_levels h m
  capacity_loop rounds (h + 1) (total + cap) k m num_levels

unfoldable pub compute_total_capacity : ℕ → ℕ → ℕ → Outcome ℕ
compute_total_capacity k m num_levels = capacity_loop num_levels 0 0 k m num_levels

-- The loop of `floor_of_log2_of_fraction`; `denom` is of 64 bits.
unfoldable pub log2_loop : ℕ → ℕ → ℕ → ℕ → Outcome ℕ
log2_loop zero numer denom count = throws diverges
log2_loop (suc rounds) numer denom count =
    let denom' = denom * 2 % 2 ^ 64 in
    let rest = log2_loop rounds numer denom' (count + 1) in
    if ltb numer denom' then ok count else rest

unfoldable pub floor_of_log2_of_fraction : ℕ → ℕ → Outcome ℕ
floor_of_log2_of_fraction numer denom = if ltb numer denom then ok 0 else log2_loop 64 numer denom 0

unfoldable pub ub_on_num_levels : ℕ → Outcome ℕ
ub_on_num_levels n = if n == 0 then ok 1 else do log2 ← floor_of_log2_of_fraction n 1; ok (1 + log2)

scaled-le : (k depth : ℕ) → (k * 2 * 2 ^ depth / 3 ^ depth + 1) / 2 ≤ k
scaled-le k depth =
    let pow : 2 ^ depth ≤ 3 ^ depth = pow-le-pow_left (omega arith) depth in
    let scaled : k * 2 * 2 ^ depth ≤ 3 ^ depth * (k * 2) =
      omega (arith, mul-le-mul_left (k * 2) pow, mul_comm (k * 2) (3 ^ depth)) in
    omega (arith, div-le_of_le-mul (3 ^ depth) scaled)

int_cap_aux_aux-Ends :
    (k depth : ℕ) → depth ≤ 30 → Ends (λ c. c ≤ k) (λ x. ⊥) (int_cap_aux_aux k depth)
unfolding int_cap_aux_aux
int_cap_aux_aux-Ends k depth h = ground (arith, scaled-le k depth)

-- No capacity is larger than `k`, and the check that says so never fails; the depth of a level is
-- at most 60.
int_cap_aux-Ends :
    (k depth : ℕ)
    → Ends
        (λ c. (c ≤ k) × (depth ≤ 60))
        (λ x. (x ≡ invalid_argument) × (60 < depth))
        (int_cap_aux k depth)
unfolding int_cap_aux
int_cap_aux-Ends k depth =
    Ends-if _ _ (ltb 60 depth) _ _ (λ s. (refl, ground arith))
      λ a.
        Ends-if _ _ (leb depth 30) _ _
          (λ s.
            Ends-map (λ c. c ≤ k) (λ c. (c ≤ k) × (depth ≤ 60)) _ (int_cap_aux_aux k depth)
              (λ c h. (h, ground arith))
              (Ends-no_error (λ c. c ≤ k) _ _ (int_cap_aux_aux-Ends k depth (ground arith))))
          λ s.
            Ends-bind (λ c. c ≤ k) (λ c. (c ≤ k) × (depth ≤ 60)) _ (int_cap_aux_aux k (depth / 2)) _
              (Ends-no_error (λ c. c ≤ k) _ _ (int_cap_aux_aux-Ends k (depth / 2) (ground arith)))
              λ tmp _ le.
                Ends-map (λ c. c ≤ tmp) (λ c. (c ≤ k) × (depth ≤ 60)) _
                  (int_cap_aux_aux tmp (depth - depth / 2)) (λ c h. (omega arith, ground arith))
                  (Ends-no_error (λ c. c ≤ tmp) _ _
                    (int_cap_aux_aux-Ends tmp (depth - depth / 2) (ground arith)))

pub level_capacity-Ends :
    (k num_levels height m : ℕ)
    → height < num_levels
    → Ends
        (λ c. (m ≤ c) × (c ≤ max m k) × (num_levels ≤ height + 61))
        (λ x. (x ≡ invalid_argument) × (61 < num_levels))
        (level_capacity k num_levels height m)
unfolding level_capacity
level_capacity-Ends k num_levels height m h =
    Ends-if _ _ (leb num_levels height) _ _ (λ s. absurd (ground arith))
      λ s.
        Ends-bind (λ c. (c ≤ k) × (num_levels - height - 1 ≤ 60)) _ _
          (int_cap_aux k (num_levels - height - 1)) _
          (Ends-weaken _ _ _ (int_cap_aux k (num_levels - height - 1))
            (λ x q. (q.0, omega (arith, q.1))) (int_cap_aux-Ends k (num_levels - height - 1)))
          (λ c _ le. (omega arith, omega (arith, le.0), omega (arith, le.1)))

few : (n : ℕ) → ((0 < n) → n ≤ 0 + 61) → n ≤ 61
few n f = elim (Bool-cases (leb n 61)) [
  | inl e ↦ ground arith
  | inr e ↦ let pos : 0 < n = ground arith in omega (arith, f pos)
]

loop-Ends :
    (rounds h total k m num_levels : ℕ)
    → h + rounds ≡ num_levels
    → Ends
        (λ c.
          (m * rounds + total ≤ c)
          × (c ≤ max m k * rounds + total)
          × ((0 < rounds) → num_levels ≤ h + 61))
        (λ x. (x ≡ invalid_argument) × (61 < num_levels))
        (capacity_loop rounds h total k m num_levels)
unfolding capacity_loop
loop-Ends zero h total k m num_levels eq = (omega arith, omega arith, λ z. absurd (omega arith))
loop-Ends (suc rounds) h total k m num_levels eq =
    Ends-bind (λ c. (m ≤ c) × (c ≤ max m k) × (num_levels ≤ h + 61)) _ _
      (level_capacity k num_levels h m) _ (level_capacity-Ends k num_levels h m (omega arith))
      λ cap _ b.
        Ends-map _
          (λ c.
            (m * suc rounds + total ≤ c)
            × (c ≤ max m k * suc rounds + total)
            × ((0 < suc rounds) → num_levels ≤ h + 61))
          _ (capacity_loop rounds (h + 1) (total + cap) k m num_levels)
          (λ c p. let (low, high, few) = b in (omega (arith, p.0), omega (arith, p.1), λ z. few))
          (loop-Ends rounds (h + 1) (total + cap) k m num_levels (omega arith))

-- The capacity of all levels together is at least `m` for each level, and no more than the larger
-- of `m` and `k` for each. It throws only if there are more than 61 levels, and then because of
-- that; with a result there are at most 61.
pub compute_total_capacity-Ends :
    (k m num_levels : ℕ)
    → Ends
        (λ c. (m * num_levels ≤ c) × (c ≤ max m k * num_levels) × (num_levels ≤ 61))
        (λ x. (x ≡ invalid_argument) × (61 < num_levels))
        (compute_total_capacity k m num_levels)
unfolding compute_total_capacity
compute_total_capacity-Ends k m num_levels =
    Ends-map _ (λ c. (m * num_levels ≤ c) × (c ≤ max m k * num_levels) × (num_levels ≤ 61)) _
      (capacity_loop num_levels 0 0 k m num_levels)
      (λ c p. (omega (arith, p.0), omega (arith, p.1), few num_levels p.2))
      (loop-Ends num_levels 0 0 k m num_levels (omega arith))

exponent_small : (n count : ℕ) → n < 2 ^ 63 → 2 ^ count ≤ n → count ≤ 62
exponent_small n count lt le = elim (Bool-cases (leb count 62)) [
  | inl s ↦ ground arith
  | inr s ↦
      let large : 63 ≤ count = ground arith in
      let pow : 2 ^ 63 ≤ 2 ^ count = pow-le-pow_right (omega arith) large in absurd (omega arith)
]

pub double : (count : ℕ) → 2 ^ (count + 1) ≡ 2 ^ count * 2
double count = rw (add-one, pow-suc)

log2_loop-Ends :
    (rounds n count : ℕ)
    → rounds + count ≡ 64
    → n < 2 ^ 63
    → 2 ^ count ≤ n
    → Ends (λ c. (2 ^ c ≤ n) × (n < 2 * 2 ^ c)) (λ x. ⊥) (log2_loop rounds n (2 ^ count) count)
unfolding log2_loop
log2_loop-Ends zero n count eq lt le = absurd (omega (arith, exponent_small n count lt le))
log2_loop-Ends (suc rounds) n count eq lt le =
    let fits : 2 ^ count * 2 % 2 ^ 64 ≡ 2 ^ (count + 1) = omega (arith, double count) in
    subst
      (λ d.
        Ends (λ c. (2 ^ c ≤ n) × (n < 2 * 2 ^ c)) (λ x. ⊥)
          (if ltb n d then ok count else log2_loop rounds n d (count + 1)))
      (sym fits)
      (Ends-if _ _ (ltb n (2 ^ (count + 1))) _ _ (λ s. (le, ground (arith, double count)))
        (λ s. log2_loop-Ends rounds n (count + 1) (omega arith) lt (ground arith)))

-- For a number of items from 1 to 2^63 - 1 the loop ends, and `ub_on_num_levels` is the number of
-- binary digits: one more than the exponent of the largest power of two that is no larger.
pub ub_on_num_levels-Ends :
    (n : ℕ)
    → 0 < n
    → n < 2 ^ 63
    → Ends (λ c. (2 ^ c ≤ 2 * n) × (n < 2 ^ c)) (λ x. ⊥) (ub_on_num_levels n)
unfolding ub_on_num_levels floor_of_log2_of_fraction
ub_on_num_levels-Ends n pos lt =
    Ends-if _ _ (n == 0) _ _ (λ s. absurd (ground arith))
      λ s.
        Ends-bind (λ c. (2 ^ c ≤ n) × (n < 2 * 2 ^ c)) (λ c. (2 ^ c ≤ 2 * n) × (n < 2 ^ c)) (λ x. ⊥)
          (floor_of_log2_of_fraction n 1) (λ log2. ok (1 + log2))
          (Ends-if _ _ (ltb n 1) _ _ (λ a. absurd (ground arith))
            (λ a. log2_loop-Ends 64 n 0 refl lt (omega arith)))
          (λ c _ b.
            let shift : 2 ^ (1 + c) ≡ 2 ^ c * 2 =
              let comm : 1 + c ≡ c + 1 = omega arith in ap (λ e. 2 ^ e) comm ∙ double c in
            (omega arith, omega arith))
