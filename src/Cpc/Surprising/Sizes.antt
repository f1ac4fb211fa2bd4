-- ===== src/Cpc/Surprising/Sizes.antt =====
-- The number of base bits, and the size of the buffer for compressed pairs, in
-- cpc/include/cpc_compressor_impl.hpp and cpc/include/cpc_util.hpp.
use native.Mathlib.Nat.{
  mod-eq_of_lt, mul-le-mul_left, one-le-pow, div-le_self, div-add-mod, le-div_iff_mul-le, sub-zero,
}
use native.Mathlib.Decide.{dec_lt}
use whylogs_datasketches.Base.{
  ℕ, zero, suc, ◌+◌, ◌-◌, ◌*◌, ◌/◌, ◌%◌, ◌^◌, ◌≤◌, ◌<◌, ◌≡◌, refl, sym, ap, ◌∙◌, arith, ltb, ltb→lt,
  ◌==◌, invalid_argument, Ends, Ends-if, Ends-map, Ends-throw_if,
}
use whylogs_datasketches.Cpc.Bits.{two-pow-le, two-pow-add}
use whylogs_datasketches.Cpc.Pairs.{pair_padding}
use whylogs_datasketches.Cpc.Pairs.Writing.{
  pairs_bits, x_delta, y_delta, x_delta-lt, Increasing, next_pair,
}
use whylogs_datasketches.Cpc.Surprising.{
  floor_log2_loop, floor_log2_of_long, golomb_choose_number_of_base_bits,
  safe_length_for_compressed_pair_buf,
}
use whylogs_datasketches.Cpc.Tables.{unary_table-IsComplete}
use whylogs_datasketches.Cpc.Window.{divide_longs_rounding_up}
use whylogs_datasketches.Cpc.Window.RoundTrip.{rounded_up}

floor_log2_loop-Ends :
    (rounds x p y : ℕ)
    → x < 2 ^ 63
    → y ≡ 2 ^ p
    → p + rounds ≡ 65
    → y ≤ 2 * x
    → (p ≡ 0 → y ≤ x)
    → Ends (λ r. (2 ^ r ≤ x) × (x < 2 ^ (r + 1))) (λ e. ⊥) (floor_log2_loop rounds x p y)
unfolding floor_log2_loop
floor_log2_loop-Ends zero x p y small pow count le first =
    let huge : 2 ^ 65 ≤ 2 ^ p = two-pow-le 65 p (omega arith) in absurd (omega (arith, huge))
floor_log2_loop-Ends (suc rounds) x p y small pow count le first =
    let up : 2 ^ (p + 1) ≡ 2 * 2 ^ p = omega (arith, two-pow-add p 1) in
    Ends-if (λ r. (2 ^ r ≤ x) × (x < 2 ^ (r + 1))) (λ e. ⊥) (y == x) _ _
      (λ e.
        let same : y ≡ x = ground (arith, e) in
        let pos : 1 ≤ 2 ^ p = one-le-pow p 2 (omega arith) in
        (omega (arith, same, pow), omega (arith, same, pow, up, pos)))
      λ e.
        Ends-if (λ r. (2 ^ r ≤ x) × (x < 2 ^ (r + 1))) (λ e. ⊥) (ltb x y) _ _
          (λ lt.
            let below : x < y = ltb→lt x y lt in
            let some : 1 ≤ p = ground (arith, first, below) in
            let back : p - 1 + 1 ≡ p = omega arith in
            let half : 2 ^ p ≡ 2 * 2 ^ (p - 1) =
              ap (λ (t : ℕ). 2 ^ t) (sym back) ∙ omega (arith, two-pow-add (p - 1) 1) in
            (omega (arith, half, pow), omega (arith, below, pow, ap (λ (t : ℕ). 2 ^ t) back)))
          λ ge.
            let at_most : y ≤ x = ground (arith, ge) in
            let whole : y * 2 % 2 ^ 64 ≡ y * 2 = mod-eq_of_lt (omega (arith, at_most)) in
            floor_log2_loop-Ends rounds x (p + 1) (y * 2 % 2 ^ 64) small
              (omega (arith, whole, up, pow)) (omega arith) (omega (arith, whole, at_most))
              (λ z. absurd (omega (arith, z)))

-- floor_log2_of_long ends for 1 to 2^63 - 1 with the position of the highest binary digit.
pub floor_log2_of_long-Ends :
    (x : ℕ)
    → 1 ≤ x
    → x < 2 ^ 63
    → Ends (λ r. (2 ^ r ≤ x) × (x < 2 ^ (r + 1))) (λ e. ⊥) (floor_log2_of_long x)
unfolding floor_log2_of_long
floor_log2_of_long-Ends x pos small =
    Ends-throw_if _ (λ e. ⊥) (ltb x 1) invalid_argument _
      (λ e. absurd (omega (arith, ltb→lt x 1 e)))
      λ e. floor_log2_loop-Ends 65 x 0 1 small refl refl (omega arith) (λ z. pos)

exponent_le : (r : ℕ) → 2 ^ r ≤ 2 ^ 26 → r ≤ 26
exponent_le r le = elim (dec_lt 26 r) [
  | yes gt ↦ absurd (omega (arith, two-pow-le 27 r (omega arith), le))
  | no ngt ↦ omega arith
]

-- The number of base bits for up to 2^26 pairs of up to 2^26 rows.
pub golomb-Ends :
    (k n : ℕ)
    → k ≤ 2 ^ 26
    → 1 ≤ n
    → n ≤ 2 ^ 26
    → Ends (λ b. b ≤ 26) (λ e. ⊥) (golomb_choose_number_of_base_bits ((k + n) % 2 ^ 32) n)
unfolding golomb_choose_number_of_base_bits
golomb-Ends k n few some small =
    let whole : ((k + n) % 2 ^ 32 + 2 ^ 64 - n) % 2 ^ 64 ≡ k = omega arith in
    let quotient : ℕ = ((k + n) % 2 ^ 32 + 2 ^ 64 - n) % 2 ^ 64 / n in
    let below : quotient ≤ 2 ^ 26 = omega (arith, ap (λ (t : ℕ). t / n) whole, div-le_self k n) in
    Ends-throw_if (λ b. b ≤ 26) (λ e. ⊥) (ltb ((k + n) % 2 ^ 32) 1) invalid_argument _
      (λ e. absurd (omega (arith, ltb→lt _ 1 e)))
      λ e0.
        Ends-throw_if (λ b. b ≤ 26) (λ e. ⊥) (ltb n 1) invalid_argument _
          (λ e. absurd (omega (arith, ltb→lt n 1 e)))
          λ e1.
            Ends-if (λ b. b ≤ 26) (λ e. ⊥) (quotient == 0) _ _ (λ z. omega arith)
              λ nz.
                let pos : 1 ≤ quotient = ground (arith, nz) in
                Ends-map (λ r. (2 ^ r ≤ quotient) × (quotient < 2 ^ (r + 1))) (λ b. b ≤ 26) (λ e. ⊥)
                  (floor_log2_of_long quotient) (λ r a. exponent_le r (omega (arith, a.0, below)))
                  (floor_log2_of_long-Ends quotient pos (omega (arith, below)))

-- Two quotients add up to no more than the quotient of the sum.
quotients-le : (a b d : ℕ) → 1 ≤ d → a / d + b / d ≤ (a + b) / d
quotients-le a b d pos = (le-div_iff_mul-le pos).1 (omega (arith, div-add-mod a d, div-add-mod b d))

-- The codes of `n` pairs of `k` rows, behind the row `pr`, have a limited number of bits.
pairs_bits-le :
    (pairs : ℕ → ℕ) (base k n i pr pc : ℕ)
    → Increasing pairs (i + n)
    → ((j : ℕ) → j < i + n → pairs j / 2 ^ 6 < k)
    → (0 < n → pr * 64 + pc ≤ pairs i)
    → pr ≤ k
    → pairs_bits n i pairs base pr pc ≤ (13 + base) * n + (k - pr) / 2 ^ base
unfolding pairs_bits
pairs_bits-le pairs base k zero i pr pc sorted rows ready le = omega arith
pairs_bits-le pairs base k (suc n) i pr pc sorted rows ready le =
    let p : ℕ = pairs i in
    let at : pr * 64 + pc ≤ p = ready (omega arith) in
    let row : p / 2 ^ 6 < k = rows i (omega arith) in
    let below : pr ≤ p / 2 ^ 6 = omega (arith, at) in
    let few = unary_table-IsComplete.0.few_bits (x_delta p pr pc) (x_delta-lt p pr pc) in
    let split : y_delta p pr + (k - p / 2 ^ 6) ≡ k - pr = omega (arith, row, below) in
    let sum =
      quotients-le (y_delta p pr) (k - p / 2 ^ 6) (2 ^ base) (one-le-pow base 2 (omega arith)) in
    let rest =
      pairs_bits-le pairs base k n (i + 1) (p / 2 ^ 6) (p % 2 ^ 6 + 1)
        (λ j jl. sorted j (omega arith)) (λ j jl. rows j (omega arith)) (next_pair pairs i n sorted)
        (omega (arith, row)) in
    let product : (13 + base) * suc n ≡ (13 + base) * n + (13 + base) = omega arith in
    omega (arith, few, rest, sum, ap (λ (t : ℕ). t / 2 ^ base) split, product)

-- The safe length covers the codes and the padding, which are far fewer than 2^32 bits.
pub safe_length-Ends :
    (pairs : ℕ → ℕ) (k n base : ℕ)
    → k ≤ 2 ^ 26
    → n ≤ 2 ^ 26
    → base ≤ 26
    → Increasing pairs n
    → ((j : ℕ) → j < n → pairs j / 2 ^ 6 < k)
    → Ends
        (λ len.
          (pairs_bits n 0 pairs base 0 0 + pair_padding base ≤ 32 * len)
          × (pairs_bits n 0 pairs base 0 0 ≤ 41 * 2 ^ 26))
        (λ e. ⊥)
        (safe_length_for_compressed_pair_buf k n base)
unfolding safe_length_for_compressed_pair_buf
safe_length-Ends pairs k n base few small low sorted rows =
    let bits =
      pairs_bits-le pairs base k n 0 0 0 (λ j jl. sorted j (omega arith))
        (λ j jl. rows j (omega arith)) (λ some. omega arith) (omega arith) in
    let most : n * (1 + base) ≤ 2 ^ 26 * (1 + base) =
      omega (arith, mul-le-mul_left (1 + base) small) in
    let product : n * (1 + base) % 2 ^ 32 ≡ n * (1 + base) =
      mod-eq_of_lt (omega (arith, most, low)) in
    let quotient : k / 2 ^ base ≤ k = div-le_self k (2 ^ base) in
    let ybits : (n * (1 + base) % 2 ^ 32 + k / 2 ^ base) % 2 ^ 32 ≡ n * (1 + base) + k / 2 ^ base =
      omega (arith, product, most, low, quotient, few) in
    let xbits : 12 * n % 2 ^ 32 ≡ 12 * n = mod-eq_of_lt (omega (arith, small)) in
    let whole : (k - 0) / 2 ^ base ≡ k / 2 ^ base = ap (λ (t : ℕ). t / 2 ^ base) (sub-zero k) in
    let product' : (13 + base) * n ≡ 12 * n + n * (1 + base) = omega arith in
    let all : ℕ =
      12 * n % 2 ^ 32 + (n * (1 + base) % 2 ^ 32 + k / 2 ^ base) % 2 ^ 32 + pair_padding base in
    Ends-map (λ q. all ≤ 32 * q) _ (λ e. ⊥) (divide_longs_rounding_up all 32)
      (λ q b. (
        omega (arith, b, ybits, xbits, bits, whole, product'),
        omega (arith, bits, whole, product', most, quotient, low, few, small),
      ))
      (rounded_up all)
