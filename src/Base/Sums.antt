-- ===== src/Base/Sums.antt =====
-- Sums over the indices below a bound.
use Prim.Native.Nat.{ℕ, zero, suc, ◌+◌, ◌≤◌, ◌<◌}
use mathlib.Core.Path.{◌≡◌, refl, ap}
use mathlib.Core.Logic.{◌≢◌}
use native.Mathlib.Omega.{arith}
use native.Mathlib.Decide.{ℕ_discrete}
use native.Mathlib.Numerals.{add-one}

unfoldable pub sum_below : ℕ → (ℕ → ℕ) → ℕ
sum_below zero f = 0
sum_below (suc n) f = f n + sum_below n f

pub sum_below_congr :
    (n : ℕ) (f g : ℕ → ℕ) → ((i : ℕ) → i < n → f i ≡ g i) → sum_below n f ≡ sum_below n g
unfolding sum_below
sum_below_congr zero f g h = refl
sum_below_congr (suc n) f g h =
    omega (arith, h n (omega arith), sum_below_congr n f g (λ i p. h i (omega arith)))

pub sum_below_mono :
    (n : ℕ) (f g : ℕ → ℕ) → ((i : ℕ) → i < n → f i ≤ g i) → sum_below n f ≤ sum_below n g
unfolding sum_below
sum_below_mono zero f g h = omega arith
sum_below_mono (suc n) f g h =
    omega (arith, h n (omega arith), sum_below_mono n f g (λ i p. h i (omega arith)))

pub sum_below_zero : (n : ℕ) (f : ℕ → ℕ) → ((i : ℕ) → i < n → f i ≡ 0) → sum_below n f ≡ 0
unfolding sum_below
sum_below_zero zero f h = refl
sum_below_zero (suc n) f h =
    omega (arith, h n (omega arith), sum_below_zero n f (λ i p. h i (omega arith)))

-- Two functions that agree but at one index.
pub sum_below_change :
    (n : ℕ) (f g : ℕ → ℕ) (p : ℕ)
    → p < n
    → ((i : ℕ) → i < n → i ≢ p → f i ≡ g i)
    → sum_below n f + g p ≡ sum_below n g + f p
unfolding sum_below
sum_below_change zero f g p lt h = absurd (omega arith)
sum_below_change (suc n) f g p lt h = elim (ℕ_discrete n p) [
  | yes e ↦
      let rest = sum_below_congr n f g (λ i q. h i (omega arith) (omega arith)) in
      let fe : f n ≡ f p = cc in let ge : g n ≡ g p = cc in omega (arith, rest, fe, ge)
  | no ne ↦ omega (
    arith,
    h n (omega arith) ne,
    sum_below_change n f g p (omega arith) (λ i q. h i (omega arith)),
  )
]

pub le-sum_below : (n : ℕ) (f : ℕ → ℕ) (p : ℕ) → p < n → f p ≤ sum_below n f
unfolding sum_below
le-sum_below zero f p lt = absurd (omega arith)
le-sum_below (suc n) f p lt = elim (ℕ_discrete n p) [
  | yes e ↦ let fe : f n ≡ f p = cc in omega (arith, fe)
  | no ne ↦ omega (arith, le-sum_below n f p (omega arith))
]

pub sum_below_two :
    (n : ℕ) (f : ℕ → ℕ) (p q : ℕ) → p < n → q < n → p ≢ q → f p + f q ≤ sum_below n f
unfolding sum_below
sum_below_two zero f p q lp lq ne = absurd (omega arith)
sum_below_two (suc n) f p q lp lq ne = elim (ℕ_discrete n p) [
  | yes e ↦ let fe : f n ≡ f p = cc in omega (arith, fe, le-sum_below n f q (omega arith))
  | no np ↦ elim (ℕ_discrete n q) [
    | yes e ↦ let fe : f n ≡ f q = cc in omega (arith, fe, le-sum_below n f p (omega arith))
    | no nq ↦ omega (arith, sum_below_two n f p q (omega arith) (omega arith) ne)
  ]
]

-- A positive sum has a positive term.
pub sum_below_pos : (n : ℕ) (f : ℕ → ℕ) → 0 < sum_below n f → (i : ℕ) × (i < n) × (0 < f i)
unfolding sum_below
sum_below_pos zero f h = absurd (omega arith)
sum_below_pos (suc n) f h = elim (ℕ_discrete (f n) 0) [
  | yes e ↦ let (i, p, q) = sum_below_pos n f (omega arith) in (i, omega arith, q)
  | no ne ↦ (n, omega arith, omega arith)
]

-- Some term is 0 if the sum is below the number of terms.
pub sum_below_gap : (n : ℕ) (f : ℕ → ℕ) → sum_below n f < n → (i : ℕ) × (i < n) × (f i ≡ 0)
unfolding sum_below
sum_below_gap zero f h = absurd (omega arith)
sum_below_gap (suc n) f h = elim (ℕ_discrete (f n) 0) [
  | yes e ↦ (n, omega arith, e)
  | no ne ↦ let (i, p, q) = sum_below_gap n f (omega arith) in (i, omega arith, q)
]

-- A sum with one term that is not 0.
pub sum_below_single :
    (n : ℕ) (f : ℕ → ℕ) (p : ℕ) → p < n → ((i : ℕ) → i < n → i ≢ p → f i ≡ 0) → sum_below n f ≡ f p
sum_below_single n f p lt h =
    let zeros : sum_below n (λ i. 0) ≡ 0 = sum_below_zero n (λ i. 0) (λ i l. refl) in
    omega (arith, zeros, sum_below_change n f (λ i. 0) p lt h)

pub sum_below-add_one : (i : ℕ) (f : ℕ → ℕ) → sum_below (i + 1) f ≡ f i + sum_below i f
unfolding sum_below
sum_below-add_one i f = rw add-one

-- The sum over `len` places from `start` on.
unfoldable pub range_sum : ℕ → ℕ → (ℕ → ℕ) → ℕ
range_sum zero start f = 0
range_sum (suc len) start f = f start + range_sum len (start + 1) f

pub range_sum_congr :
    (len start : ℕ) (f g : ℕ → ℕ)
    → ((i : ℕ) → start ≤ i → i < start + len → f i ≡ g i)
    → range_sum len start f ≡ range_sum len start g
unfolding range_sum
range_sum_congr zero start f g h = refl
range_sum_congr (suc len) start f g h = omega (
  arith,
  h start (omega arith) (omega arith),
  range_sum_congr len (start + 1) f g (λ i l r. h i (omega arith) (omega arith)),
)

pub range_sum-all : (n l : ℕ) (f : ℕ → ℕ) → sum_below l f + range_sum n l f ≡ sum_below (l + n) f
unfolding range_sum
range_sum-all zero l f =
    let count : l + 0 ≡ l = omega arith in
    let same : sum_below (l + 0) f ≡ sum_below l f = ap (λ e. sum_below e f) count in
    omega (arith, same)
range_sum-all (suc n) l f =
    let count : sum_below (l + 1 + n) f ≡ sum_below (l + suc n) f =
      ap (λ e. sum_below e f) (omega arith) in
    omega (arith, range_sum-all n (l + 1) f, sum_below-add_one l f, count)
