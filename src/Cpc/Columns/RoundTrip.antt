-- ===== src/Cpc/Columns/RoundTrip.antt =====
-- The columns of the sliding flavor are restored, in cpc/include/cpc_compressor_impl.hpp.
use native.Mathlib.Decide.{ℕ_discrete}
use native.Mathlib.Nat.{mod-eq_of_lt}
use whylogs_datasketches.Base.{
  ℕ, zero, suc, ◌+◌, ◌-◌, ◌*◌, ◌/◌, ◌%◌, ◌^◌, ◌≤◌, ◌<◌, ◌≡◌, refl, sym, ap, ap₂, ◌∙◌, subst, arith,
  bit_or, update, leb, ==_ne, Exception, ok, out_of_range, Ends, Ends-bind, Ends-map, Ends-throw_if,
  Ends-weaken, ◌>>=◌,
}
use whylogs_datasketches.Cpc.Bits.{bit_or_disjoint_left}
use whylogs_datasketches.Cpc.Codes.Trie.{entry_at}
use whylogs_datasketches.Cpc.Columns.{make_inverse_permutation, permute_loop, restore_loop}
use whylogs_datasketches.Cpc.Columns.Inverse.{
  IsPermutation, make_inverse_permutation_lem, columns-IsPermutation,
}
use whylogs_datasketches.Cpc.Tables.{table_at}
use whylogs_datasketches.Cpc.Tables.Columns.{column_permutations_for_encoding}

-- The column of a pair from the end of the window on.
abbrev pub rotated : ℕ → ℕ → ℕ
rotated offset pair = (pair % 2 ^ 6 + 56 - offset) % 2 ^ 6

abbrev permuted : (ℕ → ℕ) → ℕ → ℕ → ℕ
permuted permutation offset pair =
    bit_or (pair / 2 ^ 6 * 2 ^ 6 % 2 ^ 32) (permutation (rotated offset pair))

abbrev restored : (ℕ → ℕ) → ℕ → ℕ → ℕ
restored inverse offset pair =
    bit_or (pair / 2 ^ 6 * 2 ^ 6 % 2 ^ 32) ((inverse (pair % 2 ^ 6) + (offset + 8)) % 2 ^ 6)

same_at : (pairs : ℕ → ℕ) (i j v : ℕ) → ¬ (j ≡ i) → update pairs i v j ≡ pairs j
same_at pairs i j v ne = ground (arith, ==_ne j i ne)

here_at : (pairs : ℕ → ℕ) (i j v : ℕ) → j ≡ i → update pairs i v j ≡ v
here_at pairs i j v e = ground (arith, e)

-- A pair has its column in the window.
abbrev pub InWindow : ℕ → (ℕ → ℕ) → ℕ → ℕ → Exception → Type 0
InWindow offset pairs i n x =
    (x ≡ out_of_range) × ((j : ℕ) × (i ≤ j) × (j < n) × (56 ≤ rotated offset (pairs j)))

permute_loop-Ends :
    (n i : ℕ) (permutation : ℕ → ℕ) (offset : ℕ) (pairs : ℕ → ℕ)
    → Ends
        (λ out.
          ((j : ℕ) → j < i → out j ≡ pairs j)
          × ((j : ℕ)
              → i ≤ j
              → j < i + n
              → (rotated offset (pairs j) < 56) × (out j ≡ permuted permutation offset (pairs j))))
        (InWindow offset pairs i (i + n))
        (permute_loop n i permutation offset pairs)
unfolding permute_loop
permute_loop-Ends zero i permutation offset pairs = (λ j jl. refl, λ j ge lt. absurd (omega arith))
permute_loop-Ends (suc n) i permutation offset pairs =
    let Good : (ℕ → ℕ) → Type 0 = λ out.
      ((j : ℕ) → j < i → out j ≡ pairs j)
      × ((j : ℕ)
          → i ≤ j
          → j < i + suc n
          → (rotated offset (pairs j) < 56) × (out j ≡ permuted permutation offset (pairs j))) in
    Ends-throw_if Good (InWindow offset pairs i (i + suc n)) (leb 56 (rotated offset (pairs i)))
      out_of_range _ (λ e. (refl, (i, omega arith, omega arith, ground (arith, e))))
      λ e.
        let next : ℕ → ℕ = update pairs i (permuted permutation offset (pairs i)) in
        let away : (j : ℕ) → i + 1 ≤ j → next j ≡ pairs j = λ j ge.
          same_at pairs i j (permuted permutation offset (pairs i)) (λ e. absurd (omega arith)) in
        let Later : (ℕ → ℕ) → Type 0 = λ out.
          ((j : ℕ) → j < i + 1 → out j ≡ next j)
          × ((j : ℕ)
              → i + 1 ≤ j
              → j < i + 1 + n
              → (rotated offset (next j) < 56) × (out j ≡ permuted permutation offset (next j))) in
        Ends-map Later Good (InWindow offset pairs i (i + suc n))
          (permute_loop n (i + 1) permutation offset next)
          (λ out a. (
            λ j jl.
                a.0 j (omega arith)
                ∙ same_at pairs i j (permuted permutation offset (pairs i))
                    (λ e. absurd (omega arith)),
            λ j ge jl. elim (ℕ_discrete j i) [
              | yes same ↦ (
                ground (arith, e, ap (λ k. rotated offset (pairs k)) same),
                a.0 j (omega arith)
                    ∙ here_at pairs i j (permuted permutation offset (pairs i)) same
                    ∙ sym (ap (λ k. permuted permutation offset (pairs k)) same),
              )
              | no ne ↦
                  let (low, at) = a.1 j (omega arith) (omega arith) in
                  (
                    subst (λ v. rotated offset v < 56) (away j (omega arith)) low,
                    at ∙ ap (permuted permutation offset) (away j (omega arith)),
                  )
            ],
          ))
          (Ends-weaken Later (InWindow offset next (i + 1) (i + 1 + n))
            (InWindow offset pairs i (i + suc n)) (permute_loop n (i + 1) permutation offset next)
            (λ x b. (
              b.0,
              (
                b.1.0,
                omega (arith, b.1.1),
                omega (arith, b.1.2),
                subst (λ v. 56 ≤ rotated offset v) (away b.1.0 b.1.1) b.1.3,
              ),
            ))
            (permute_loop-Ends n (i + 1) permutation offset next))

restore_loop_lem :
    (n i : ℕ) (inverse : ℕ → ℕ) (offset : ℕ) (pairs : ℕ → ℕ) (j : ℕ)
    → (j < i → restore_loop n i inverse offset pairs j ≡ pairs j)
      × (i ≤ j
          → j < i + n
          → restore_loop n i inverse offset pairs j ≡ restored inverse offset (pairs j))
unfolding restore_loop
restore_loop_lem zero i inverse offset pairs j = (λ lt. refl, λ ge lt. absurd (omega arith))
restore_loop_lem (suc n) i inverse offset pairs j =
    let next : ℕ → ℕ = update pairs i (restored inverse offset (pairs i)) in
    let (old, new) = restore_loop_lem n (i + 1) inverse offset next j in
    (
      λ lt.
          old (omega arith)
          ∙ same_at pairs i j (restored inverse offset (pairs i)) (λ e. absurd (omega arith)),
      λ ge lt. elim (ℕ_discrete j i) [
        | yes e ↦
            old (omega arith)
            ∙ here_at pairs i j (restored inverse offset (pairs i)) e
            ∙ sym (ap (λ k. restored inverse offset (pairs k)) e)
        | no ne ↦
            new (omega arith) (omega arith)
            ∙ ap (restored inverse offset)
                (same_at pairs i j (restored inverse offset (pairs i)) ne)
      ],
    )

turned :
    (c offset : ℕ) → c < 64 → offset ≤ 56 → ((c + 56 - offset) % 2 ^ 6 + (offset + 8)) % 2 ^ 6 ≡ c
turned c offset lt small = omega arith

restored_lem :
    (permutation inverse : ℕ → ℕ) (offset pair : ℕ)
    → IsPermutation 56 permutation
    → ((c : ℕ) → c < 56 → inverse (permutation c) ≡ c)
    → offset ≤ 56
    → pair < 2 ^ 32
    → rotated offset pair < 56
    → restored inverse offset (permuted permutation offset pair) ≡ pair
restored_lem permutation inverse offset pair p left small lt low =
    let c : ℕ = rotated offset pair in
    let new = p.below c low in
    let whole : pair / 2 ^ 6 * 2 ^ 6 % 2 ^ 32 ≡ pair / 2 ^ 6 * 2 ^ 6 = mod-eq_of_lt (omega arith) in
    let joined : permuted permutation offset pair ≡ pair / 2 ^ 6 * 2 ^ 6 + permutation c =
      ap (λ r. bit_or r (permutation c)) whole
      ∙ bit_or_disjoint_left (permutation c) 6 (pair / 2 ^ 6) (omega (arith, new)) in
    let row : permuted permutation offset pair / 2 ^ 6 ≡ pair / 2 ^ 6 =
      omega (arith, joined, new) in
    let col : permuted permutation offset pair % 2 ^ 6 ≡ permutation c =
      omega (arith, joined, new) in
    let back : (inverse (permuted permutation offset pair % 2 ^ 6) + (offset + 8)) % 2 ^ 6
        ≡ pair % 2 ^ 6 =
      ap (λ t. (t + (offset + 8)) % 2 ^ 6) (ap inverse col ∙ left c low)
      ∙ turned (pair % 2 ^ 6) offset (omega arith) small in
    let low' : pair % 2 ^ 6 < 2 ^ 6 = omega arith in
    ap₂ (λ r k. bit_or (r * 2 ^ 6 % 2 ^ 32) k) row back
    ∙ ap (λ r. bit_or r (pair % 2 ^ 6)) whole
    ∙ bit_or_disjoint_left (pair % 2 ^ 6) 6 (pair / 2 ^ 6) low'
    ∙ omega arith

-- Pairs of 32 bits whose columns are rotated and permuted for one of the 16 phases and an offset of at
-- most 56 are restored by the inverse permutation that make_inverse_permutation finds; the only
-- exception is out_of_range, and only if a pair has its column in the window.
pub columns_round_trip :
    (phase offset n : ℕ) (pairs raw : ℕ → ℕ)
    → phase < 16
    → offset ≤ 56
    → ((j : ℕ) → j < n → pairs j < 2 ^ 32)
    → Ends
        (λ back. (j : ℕ) → j < n → back j ≡ pairs j)
        (InWindow offset pairs 0 n)
        (do
          inverse ←
              make_inverse_permutation raw
                (entry_at (table_at column_permutations_for_encoding phase))
                56
          permuted ←
              permute_loop n 0
                (entry_at (table_at column_permutations_for_encoding phase))
                offset
                pairs
          ok (restore_loop n 0 inverse offset permuted))
columns_round_trip phase offset n pairs raw lt small range =
    let permutation : ℕ → ℕ = entry_at (table_at column_permutations_for_encoding phase) in
    let p = columns-IsPermutation phase lt in
    let (inverse, made, left) = make_inverse_permutation_lem 56 raw permutation (omega arith) p in
    simp made (
      Ends-bind
        (λ out.
          ((j : ℕ) → j < 0 → out j ≡ pairs j)
          × ((j : ℕ)
              → 0 ≤ j
              → j < 0 + n
              → (rotated offset (pairs j) < 56) × (out j ≡ permuted permutation offset (pairs j))))
        (λ back. (j : ℕ) → j < n → back j ≡ pairs j) (InWindow offset pairs 0 n)
        (permute_loop n 0 permutation offset pairs) _
        (Ends-weaken _ (InWindow offset pairs 0 (0 + n)) (InWindow offset pairs 0 n)
          (permute_loop n 0 permutation offset pairs)
          (λ x b. (b.0, (b.1.0, b.1.1, omega (arith, b.1.2), b.1.3)))
          (permute_loop-Ends n 0 permutation offset pairs))
        λ out _ a j jl.
          let (low, at) = a.1 j (omega arith) (omega arith) in
          (restore_loop_lem n 0 inverse offset out j).1 (omega arith) (omega arith)
          ∙ ap (restored inverse offset) at
          ∙ restored_lem permutation inverse offset (pairs j) p left small (range j jl) low)
