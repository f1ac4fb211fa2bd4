-- ===== src/Theta/Stride.antt =====
-- Open addressing with an odd stride in a table of 2^lg slots, as `find` of
-- theta/include/theta_update_sketch_base_impl.hpp probes it.
use native.Mathlib.Nat.{
  mod-add-mod, add-mul-mod_self_right, mod-eq_of_lt, pow-suc, pow-le-pow_right,
}
use native.Mathlib.Numerals.{add-one}
use whylogs_datasketches.Base.{
  ℕ, zero, suc, ◌+◌, ◌-◌, ◌*◌, ◌/◌, ◌%◌, ◌^◌, ◌≤◌, ◌<◌, ◌≡◌, ap, sym, ◌∙◌, arith, ◌==◌, Bool-cases,
  inl, inr,
}

pub pow_pos : (lg : ℕ) → 0 < 2 ^ lg
pow_pos zero = omega arith
pow_pos (suc lg) = omega (arith, pow_pos lg, pow-suc 2 lg)

pub pow_double : (a b : ℕ) → a < b → 2 * 2 ^ a ≤ 2 ^ b
pow_double a b lt =
    let le : a + 1 ≤ b = omega arith in
    let double : 2 ^ (a + 1) ≡ 2 ^ a * 2 = rw (add-one, pow-suc) in
    let mono : 2 ^ (a + 1) ≤ 2 ^ b = pow-le-pow_right (omega arith) le in omega (arith, double)

pub pow_lt : (a b : ℕ) → a < b → 2 ^ a < 2 ^ b
pow_lt a b lt = omega (arith, pow_double a b lt, pow_pos a)

-- An odd number has an inverse modulo each power of two.
odd_inverse : (lg s : ℕ) → s % 2 ≡ 1 → (r : ℕ) × (c : ℕ) × (s * r ≡ 1 + c * 2 ^ lg)
odd_inverse zero s odd = (1, s - 1, omega arith)
odd_inverse (suc lg) s odd =
    let (r, c, e) = odd_inverse lg s odd in
    let double : 2 ^ suc lg ≡ 2 ^ lg * 2 = pow-suc 2 lg in
    elim (Bool-cases (c % 2 == 0)) [
      | inl even ↦
          let half : c ≡ c / 2 * 2 = ground arith in
          let scaled : c / 2 * 2 ^ suc lg ≡ c / 2 * (2 ^ lg * 2) = ap (λ d. c / 2 * d) double in
          let whole : c * 2 ^ lg ≡ c / 2 * 2 * 2 ^ lg = ap (λ d. d * 2 ^ lg) half in
          (r, c / 2, omega (arith, e, scaled, whole))
      | inr not_even ↦
          let half : c + s ≡ (c + s) / 2 * 2 = ground arith in
          let scaled : (c + s) / 2 * 2 ^ suc lg ≡ (c + s) / 2 * (2 ^ lg * 2) =
            ap (λ d. (c + s) / 2 * d) double in
          let whole : (c + s) * 2 ^ lg ≡ (c + s) / 2 * 2 * 2 ^ lg = ap (λ d. d * 2 ^ lg) half in
          (r + 2 ^ lg, (c + s) / 2, omega (arith, e, scaled, whole))
    ]

-- The slot after `t` steps.
abbrev pub slot : ℕ → ℕ → ℕ → ℕ → ℕ
slot lg home s t = (home + t * s) % 2 ^ lg

pub slot-lt : (lg home s t : ℕ) → slot lg home s t < 2 ^ lg
slot-lt lg home s t = let pos : 0 < 2 ^ lg = pow_pos lg in omega arith

pub slot_zero : (lg home s : ℕ) → home < 2 ^ lg → slot lg home s 0 ≡ home
slot_zero lg home s lt =
    let at : home + 0 * s ≡ home = omega arith in ap (λ i. i % 2 ^ lg) at ∙ mod-eq_of_lt lt

-- Every slot is met within the first 2^lg steps.
pub slot_reaches :
    (lg home s i : ℕ)
    → s % 2 ≡ 1
    → home < 2 ^ lg
    → i < 2 ^ lg
    → (t : ℕ) × (t < 2 ^ lg) × (slot lg home s t ≡ i)
slot_reaches lg home s i odd hl il =
    let n : ℕ = 2 ^ lg in
    let (r, c, e) = odd_inverse lg s odd in
    let d : ℕ = i + n - home in
    let q : ℕ = d * r / n in
    let t : ℕ = d * r % n in
    let pos : 0 < n = pow_pos lg in
    let split : n * q + t ≡ d * r = omega arith in
    let scaled : (n * q + t) * s ≡ d * r * s = ap (λ x. x * s) split in
    let unit : d * (s * r) ≡ d * (1 + c * n) = ap (λ x. d * x) e in
    let total : home + t * s + q * s * n ≡ i + (1 + d * c) * n = omega (arith, scaled, unit) in
    (
      t,
      omega arith,
      sym (add-mul-mod_self_right (home + t * s) (q * s) n)
          ∙ ap (λ x. x % n) total
          ∙ add-mul-mod_self_right i (1 + d * c) n
          ∙ mod-eq_of_lt il,
    )

-- No slot is met twice within the first 2^lg steps.
pub slot_inj :
    (lg home s t u : ℕ)
    → s % 2 ≡ 1
    → t < 2 ^ lg
    → u < 2 ^ lg
    → slot lg home s t ≡ slot lg home s u
    → t ≡ u
slot_inj lg home s t u odd tl ul same =
    let n : ℕ = 2 ^ lg in
    let (r, c, e) = odd_inverse lg s odd in
    let a : ℕ = (home + t * s) / n in
    let b : ℕ = (home + u * s) / n in
    let at : n * a + (home + t * s) % n ≡ home + t * s = omega arith in
    let bu : n * b + (home + u * s) % n ≡ home + u * s = omega arith in
    let level : t * s + b * n ≡ u * s + a * n = omega (arith, at, bu, same) in
    let scaled : (t * s + b * n) * r ≡ (u * s + a * n) * r = ap (λ x. x * r) level in
    let unit_t : t * (s * r) ≡ t * (1 + c * n) = ap (λ x. t * x) e in
    let unit_u : u * (s * r) ≡ u * (1 + c * n) = ap (λ x. u * x) e in
    let total : t + (t * c + b * r) * n ≡ u + (u * c + a * r) * n =
      omega (arith, scaled, unit_t, unit_u) in
    sym (mod-eq_of_lt tl)
    ∙ sym (add-mul-mod_self_right t (t * c + b * r) n)
    ∙ ap (λ x. x % n) total
    ∙ add-mul-mod_self_right u (u * c + a * r) n
    ∙ mod-eq_of_lt ul

pub slot_step : (lg home s t : ℕ) → (slot lg home s t + s) % 2 ^ lg ≡ slot lg home s (t + 1)
slot_step lg home s t =
    let at : home + t * s + s ≡ home + (t + 1) * s = omega arith in
    mod-add-mod (home + t * s) (2 ^ lg) s ∙ ap (λ x. x % 2 ^ lg) at
