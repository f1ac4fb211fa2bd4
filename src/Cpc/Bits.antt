-- ===== src/Cpc/Bits.antt =====
-- Numbers with no binary digit in common, and a stream of 32-bit words as a number.
use Prim.Native.Nat.{digits, bit_or-bitwise}
use native.Mathlib.Nat.{
  one-le-pow, mod-lt, div-add-mod, add-mul-mod_self_left, mod-eq_of_lt, two-pow-succ,
  pow-le-pow_right, add-zero, add-suc,
}
use whylogs_datasketches.Base.{
  ℕ, zero, suc, ◌+◌, ◌-◌, ◌*◌, ◌/◌, ◌%◌, ◌^◌, ◌≤◌, ◌<◌, ◌≡◌, refl, sym, ap, ◌∙◌, max, arith, bit_or,
}

pub two-pow-add : (a b : ℕ) → 2 ^ (a + b) ≡ 2 ^ a * 2 ^ b
two-pow-add a zero = omega (arith, ap (λ (t : ℕ). 2 ^ t) (add-zero a))
two-pow-add a (suc b) =
    let up : 2 ^ (a + suc b) ≡ 2 ^ (a + b) + 2 ^ (a + b) =
      ap (λ (t : ℕ). 2 ^ t) (add-suc a b) ∙ two-pow-succ (a + b) in
    omega (arith, up, two-pow-add a b, ap (λ (t : ℕ). 2 ^ a * t) (two-pow-succ b))

pub two-pow-le : (a b : ℕ) → a ≤ b → 2 ^ a ≤ 2 ^ b
two-pow-le a b le = pow-le-pow_right (omega arith) le

digits_disjoint :
    (n a s v : ℕ) → a ≤ n → a < 2 ^ s → digits (λ b. b) max n a (v * 2 ^ s) ≡ a + v * 2 ^ s
digits_disjoint zero zero s v le lt = omega arith
digits_disjoint zero (suc a) s v le lt = absurd (omega arith)
digits_disjoint (suc n) zero s v le lt = omega arith
digits_disjoint (suc n) (suc a) zero v le lt = absurd (omega arith)
digits_disjoint (suc n) (suc a) (suc s) v le lt =
    let twice : v * 2 ^ suc s ≡ 2 * (v * 2 ^ s) =
      omega (arith, ap (λ (t : ℕ). v * t) (two-pow-succ s)) in
    let half : v * 2 ^ suc s / 2 ≡ v * 2 ^ s = omega (arith, twice) in
    let rest = digits_disjoint n (suc a / 2) s v (omega arith) (omega (arith, two-pow-succ s)) in
    omega (arith, twice, rest, ap (digits (λ b. b) max n (suc a / 2)) half)

-- The or of a number below 2^s and a multiple of 2^s.
pub bit_or_disjoint : (a s v : ℕ) → a < 2 ^ s → bit_or a (v * 2 ^ s) ≡ a + v * 2 ^ s
bit_or_disjoint a s v lt = bit_or-bitwise a (v * 2 ^ s) ∙ digits_disjoint a a s v (omega arith) lt

digits-zero : (n c : ℕ) → c ≤ n → digits (λ b. b) max n c 0 ≡ c
digits-zero zero zero le = refl
digits-zero zero (suc c) le = absurd (omega arith)
digits-zero (suc n) zero le = refl
digits-zero (suc n) (suc c) le = omega (arith, digits-zero n (suc c / 2) (omega arith))

digits_disjoint_left :
    (n c s v a : ℕ) → c ≡ v * 2 ^ s → c ≤ n → a < 2 ^ s → digits (λ b. b) max n c a ≡ c + a
digits_disjoint_left zero zero s v a e le lt = omega arith
digits_disjoint_left zero (suc c) s v a e le lt = absurd (omega arith)
digits_disjoint_left (suc n) zero s v a e le lt = omega arith
digits_disjoint_left (suc n) (suc c) zero v a e le lt =
    let none_left : a ≡ 0 = omega arith in
    omega
      (arith, digits-zero (suc n) (suc c) le, ap (digits (λ b. b) max (suc n) (suc c)) none_left)
digits_disjoint_left (suc n) (suc c) (suc s) v a e le lt =
    let twice : v * 2 ^ suc s ≡ 2 * (v * 2 ^ s) =
      omega (arith, ap (λ (t : ℕ). v * t) (two-pow-succ s)) in
    let rest =
      digits_disjoint_left n (suc c / 2) s v (a / 2) (omega (arith, twice, e)) (omega arith)
        (omega (arith, two-pow-succ s)) in
    omega (arith, twice, e, rest)

pub bit_or_disjoint_left : (a s v : ℕ) → a < 2 ^ s → bit_or (v * 2 ^ s) a ≡ v * 2 ^ s + a
bit_or_disjoint_left a s v lt =
    bit_or-bitwise (v * 2 ^ s) a
    ∙ digits_disjoint_left (v * 2 ^ s) (v * 2 ^ s) s v a refl (omega arith) lt

-- The number that `n` words from the index `i` on stand for, the lowest word first.
unfoldable pub words_value : ℕ → ℕ → (ℕ → ℕ) → ℕ
words_value zero i words = 0
words_value (suc n) i words = words i + 2 ^ 32 * words_value n (i + 1) words

pub words_value-suc :
    (n i : ℕ) (words : ℕ → ℕ)
    → words_value (suc n) i words ≡ words_value n i words + words (i + n) * 2 ^ (32 * n)
unfolding words_value
words_value-suc zero i words = omega (arith, ap words (add-zero i))
words_value-suc (suc n) i words =
    let at : words (i + 1 + n) ≡ words (i + suc n) = ap words (omega arith) in
    let up : 2 ^ (32 * suc n) ≡ 2 ^ 32 * 2 ^ (32 * n) =
      ap (λ (t : ℕ). 2 ^ t) (omega arith) ∙ two-pow-add 32 (32 * n) in
    let last = words_value-suc n (i + 1) words in
    omega
      (arith, last, ap (λ (t : ℕ). t * 2 ^ (32 * n)) at, ap (λ (t : ℕ). words (i + suc n) * t) up)

pub words_value_congr :
    (n i : ℕ) (f g : ℕ → ℕ)
    → ((j : ℕ) → j < i + n → f j ≡ g j)
    → words_value n i f ≡ words_value n i g
unfolding words_value
words_value_congr zero i f g same = refl
words_value_congr (suc n) i f g same =
    omega
      (arith, same i (omega arith), words_value_congr n (i + 1) f g (λ j lt. same j (omega arith)))

-- The lowest `suc len` digits are the lowest one and `len` of the others.
pub mod_step : (x len : ℕ) → x % 2 ^ suc len ≡ 2 * (x / 2 % 2 ^ len) + x % 2
mod_step x len =
    let p : ℕ = 2 ^ len in
    let pos : 1 ≤ p = one-le-pow len 2 (omega arith) in
    let low : x / 2 % p < p = mod-lt (x / 2) pos in
    let twice : 2 ^ suc len ≡ 2 * p = omega (arith, two-pow-succ len) in
    let apart : 2 * (x / 2 % p) + x % 2 + 2 * p * (x / 2 / p) ≡ x =
      omega (arith, div-add-mod (x / 2) p) in
    ap (λ (t : ℕ). x % t) twice
    ∙ ap (λ t. t % (2 * p)) (sym apart)
    ∙ add-mul-mod_self_left (2 * (x / 2 % p) + x % 2) (2 * p) (x / 2 / p)
    ∙ mod-eq_of_lt (omega arith)

pub two-pow-mod : (x k n : ℕ) → k ≤ n → x % 2 ^ n % 2 ^ k ≡ x % 2 ^ k
two-pow-mod x k n le =
    let sum : n ≡ k + (n - k) = omega arith in
    let split : 2 ^ n ≡ 2 ^ k * 2 ^ (n - k) = ap (λ (t : ℕ). 2 ^ t) sum ∙ two-pow-add k (n - k) in
    let apart : x % 2 ^ n + 2 ^ k * (2 ^ (n - k) * (x / 2 ^ n)) ≡ x =
      omega (arith, div-add-mod x (2 ^ n), ap (λ t. t * (x / 2 ^ n)) split) in
    sym (add-mul-mod_self_left (x % 2 ^ n) (2 ^ k) (2 ^ (n - k) * (x / 2 ^ n)))
    ∙ ap (λ t. t % 2 ^ k) apart
