-- ===== src/Theta/Intersection/Size.antt =====
-- The size of a table for a number of entries.
use native.Mathlib.Nat.{pow-suc, pow-le-pow_right}
use native.Mathlib.Numerals.{add-one}
use whylogs_datasketches.Base.{
  leb, Bool-cases, inl, inr, ap, subst, refl, ◌∙◌, ℕ, zero, suc, ◌+◌, ◌-◌, ◌*◌, ◌/◌, ◌^◌, ◌≤◌, ◌<◌,
  ◌≡◌, ◌⊎◌, arith, ltb, ◌==◌, max, undefined, Ends, Ends-throw_if,
}
use whylogs_datasketches.Theta.Intersection.{log2_from, log2, lg_size_from_count}

flip : (n : ℕ) → 1 + n ≡ n + 1
flip n = omega arith

next_two : (n : ℕ) → n + 2 ≡ n + 1 + 1
next_two n = omega arith

less_two : (n : ℕ) → n + 1 ≡ n + 2 - 1
less_two n = omega arith

less_one : (n : ℕ) → n ≡ n + 1 - 1
less_one n = omega arith

pow_next : (n : ℕ) → 2 ^ (n + 1) ≡ 2 * 2 ^ n
pow_next n = rw (add-one, pow-suc) (omega arith)

one_more : (n : ℕ) → 1 + n + 1 ≡ n + 1 + 1
one_more n = omega arith

log2_from-lt : (rounds n : ℕ) → n < 2 ^ rounds → n < 2 ^ (log2_from rounds n + 1)
unfolding log2_from
log2_from-lt zero n lt = omega arith
log2_from-lt (suc rounds) n lt =
    let double : 2 ^ suc rounds ≡ 2 ^ rounds * 2 = pow-suc 2 rounds in
    let half : n / 2 < 2 ^ rounds = omega (arith, double) in
    let below : ℕ = log2_from rounds (n / 2) in
    let rest : n / 2 < 2 ^ (below + 1) = log2_from-lt rounds (n / 2) half in
    let wider : n < 2 ^ (1 + below + 1) =
      omega (arith, pow_next (below + 1), rest, ap (λ k. 2 ^ k) (one_more below)) in
    elim (Bool-cases (ltb 1 n)) [ inl more ↦ rw more wider | inr small ↦ rw small (ground arith) ]

log2_from-le : (rounds n : ℕ) → 2 ^ log2_from rounds n ≤ max 1 n
unfolding log2_from
log2_from-le zero n = omega arith
log2_from-le (suc rounds) n =
    let below : ℕ = log2_from rounds (n / 2) in
    let rest : 2 ^ below ≤ max 1 (n / 2) = log2_from-le rounds (n / 2) in
    let same : 2 ^ (1 + below) ≡ 2 * 2 ^ below = ap (λ k. 2 ^ k) (flip below) ∙ pow_next below in
    elim (Bool-cases (ltb 1 n)) [
      | inl more ↦
          let two : 2 ≤ n = ground arith in
          let narrow : 2 ^ (1 + below) ≤ max 1 n = omega (arith, same, rest) in rw more narrow
      | inr small ↦ rw small (omega arith)
    ]

-- `lg_size` is the least size from 1 on at which `n` entries are within the load factor 15 / 16.
abbrev pub Sized : ℕ → ℕ → Type 0
Sized n lg_size =
    (n ≤ 15 * 2 ^ lg_size / 16)
    × (1 ≤ lg_size)
    × ((lg_size ≡ 1) ⊎ (15 * 2 ^ (lg_size - 1) / 16 < n))

-- So many entries are within the load factor of a table of 2^30 slots.
pub narrow_of : (n lg : ℕ) → n < 2 ^ 29 → (lg ≡ 1) ⊎ (15 * 2 ^ (lg - 1) / 16 < n) → lg ≤ 30
narrow_of n lg short (inl one) = omega arith
narrow_of n lg short (inr over) = elim (Bool-cases (leb lg 30)) [
  | inl le ↦ ground arith
  | inr more ↦
      let deep : 30 ≤ lg - 1 = ground arith in
      let grown : 2 ^ 30 ≤ 2 ^ (lg - 1) = pow-le-pow_right (omega arith) deep in
      absurd (omega (arith, grown, short, over))
]

-- The base-2 logarithm for less than 2^30 entries is that of the least table with at least 2 slots
-- in which the entries are at most 15/16 of the slots. From 2^30 entries on the shift of the 32-bit
-- int overflows.
pub lg_size_from_count-Ends :
    (n : ℕ)
    → n < 2 ^ 32
    → Ends
        (λ lg_size. Sized n lg_size × (n < 2 ^ 30))
        (λ x. (x ≡ undefined) × (2 ^ 30 ≤ n))
        (lg_size_from_count n)
unfolding lg_size_from_count log2
lg_size_from_count-Ends n lt =
    let l : ℕ = log2_from 32 n in
    let low : n < 2 ^ (l + 1) = log2_from-lt 32 n lt in
    Ends-throw_if _ _ (ltb 30 (l + 1)) undefined _
      (λ long.
        let deep : 30 ≤ l = ground arith in
        let grown : 2 ^ 30 ≤ 2 ^ l = pow-le-pow_right (omega arith) deep in
        (refl, omega (arith, grown, log2_from-le 32 n)))
      (λ short.
        let few : l + 1 ≤ 30 = ground arith in
        let small : 2 ^ (l + 1) ≤ 2 ^ 30 = pow-le-pow_right (omega arith) few in
        let within : n < 2 ^ 30 = omega (arith, low, small) in
        let high : 2 ^ l ≤ max 1 n = log2_from-le 32 n in
        let double : 2 ^ (l + 2) ≡ 2 * 2 ^ (l + 1) =
          ap (λ k. 2 ^ k) (next_two l) ∙ pow_next (l + 1) in
        elim (Bool-cases (ltb (15 * 2 ^ (l + 1) / 16) n)) [
          | inl full ↦
              let over : 15 * 2 ^ (l + 1) / 16 < n = ground arith in
              let sized : Sized n (l + 2) = (
                omega (arith, low, double),
                omega arith,
                inr (subst (λ k. 15 * 2 ^ k / 16 < n) (less_two l) over),
              ) in
              rw full (sized, within)
          | inr room ↦
              let fits : n ≤ 15 * 2 ^ (l + 1) / 16 = ground arith in
              let least : (l + 1 ≡ 1) ⊎ (15 * 2 ^ (l + 1 - 1) / 16 < n) =
                elim (Bool-cases (l == 0)) [
                  | inl z ↦ inl (ground arith)
                  | inr more ↦
                      let pos : 1 ≤ l = ground arith in
                      let two : 2 ^ 1 ≤ 2 ^ l = pow-le-pow_right (omega arith) pos in
                      let under : 15 * 2 ^ l / 16 < n = omega (arith, two, high) in
                      inr (subst (λ k. 15 * 2 ^ k / 16 < n) (less_one l) under)
                ] in
              rw room ((fits, omega arith, least), within)
        ])
