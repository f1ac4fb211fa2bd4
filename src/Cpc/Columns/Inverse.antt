-- ===== src/Cpc/Columns/Inverse.antt =====
-- The inverse of a permutation in cpc/include/cpc_compressor_impl.hpp, and the permutations of the
-- columns.
use native.Mathlib.Decide.{ℕ_discrete}
use whylogs_datasketches.Base.{
  ℕ, zero, suc, ◌≢◌, ◌+◌, ◌%◌, ◌^◌, ◌≤◌, ◌<◌, ◌≡◌, refl, sym, ap, ◌∙◌, arith, update, ltb, ltb→lt,
  ◌==◌, ==_refl, not, Bool, true, false, ◌&&◌, List, [], ◌∷◌, length, ok,
}
use whylogs_datasketches.Cpc.Codes.Decoding.{==_eq}
use whylogs_datasketches.Cpc.Codes.Checked.{both_true}
use whylogs_datasketches.Cpc.Codes.Complete.{true-false}
use whylogs_datasketches.Cpc.Codes.Trie.{entry_at}
use whylogs_datasketches.Cpc.Columns.{inverse_loop, inverse_check, make_inverse_permutation}
use whylogs_datasketches.Cpc.Tables.{table_at}
use whylogs_datasketches.Cpc.Tables.Columns.{column_permutations_for_encoding}

-- A permutation of the numbers below `n`.
pub record IsPermutation (n : ℕ) (permu : ℕ → ℕ) : Type 0 where
  pub below : (i : ℕ) → i < n → permu i < n
  pub inj : (i j : ℕ) → i < n → j < n → permu i ≡ permu j → i ≡ j
  pub onto : (k : ℕ) → k < n → (i : ℕ) × (i < n) × (permu i ≡ k)

inverse_loop_lem :
    (n rounds i : ℕ) (permu inverse : ℕ → ℕ)
    → n ≤ 256
    → i + rounds ≡ n
    → IsPermutation n permu
    → ((j : ℕ) → j < i → inverse (permu j) ≡ j)
    → (j : ℕ) → j < n
    → inverse_loop rounds i permu inverse (permu j) ≡ j
unfolding inverse_loop
inverse_loop_lem n zero i permu inverse small all p old j lt = old j (omega arith)
inverse_loop_lem n (suc rounds) i permu inverse small all p old j lt =
    inverse_loop_lem n rounds (i + 1) permu (update inverse (permu i) (i % 2 ^ 8)) small
      (omega arith) p
      (λ k kl. elim (ℕ_discrete k i) [
        | yes e ↦ ground (arith, ap permu e)
        | no ne ↦
            let other : permu k ≢ permu i =
              λ same. ne (p.inj k i (omega arith) (omega arith) same) in
            ground (arith, other, old k)
      ])
      j lt

inverse_check_lem :
    (n rounds i : ℕ) (permu inverse : ℕ → ℕ)
    → i + rounds ≡ n
    → ((k : ℕ) → k < n → permu (inverse k) ≡ k)
    → inverse_check rounds i permu inverse ≡ ok tt
unfolding inverse_check
inverse_check_lem n zero i permu inverse all right = refl
inverse_check_lem n (suc rounds) i permu inverse all right =
    simp (==_eq _ _ (right i (omega arith)))
      (inverse_check_lem n rounds (i + 1) permu inverse (omega arith) right)

-- The inverse of a permutation of at most 256 numbers is found, and its check succeeds.
pub make_inverse_permutation_lem :
    (n : ℕ) (raw permu : ℕ → ℕ)
    → n ≤ 256
    → IsPermutation n permu
    → (inverse : ℕ → ℕ) × (make_inverse_permutation raw permu n ≡ ok inverse)
      × ((j : ℕ) → j < n → inverse (permu j) ≡ j)
unfolding make_inverse_permutation
make_inverse_permutation_lem n raw permu small p =
    let inverse : ℕ → ℕ = inverse_loop n 0 permu raw in
    let left : (j : ℕ) → j < n → inverse (permu j) ≡ j =
      inverse_loop_lem n n 0 permu raw small (omega arith) p (λ j jl. absurd (omega arith)) in
    let right : (k : ℕ) → k < n → permu (inverse k) ≡ k = λ k lt.
      let (i, il, at) = p.onto k lt in
      ap (λ t. permu (inverse t)) (sym at) ∙ ap permu (left i il) ∙ at in
    (inverse, simp (inverse_check_lem n n 0 permu inverse (omega arith) right) refl, left)

unfoldable holds : ℕ → List ℕ → Bool
holds k [] = false
holds k (e ∷ rest) = elim (k == e) [ true ↦ true | false ↦ holds k rest ]

unfoldable distinct : List ℕ → Bool
distinct [] = true
distinct (e ∷ rest) = not (holds e rest) && distinct rest

unfoldable holds_below : ℕ → List ℕ → Bool
holds_below zero entries = true
holds_below (suc n) entries = holds n entries && holds_below n entries

unfoldable all_below : ℕ → List ℕ → Bool
all_below n [] = true
all_below n (e ∷ rest) = ltb e n && all_below n rest

abbrev permutes : List ℕ → Bool
permutes entries =
    ((length entries == 56) && all_below 56 entries) && (distinct entries && holds_below 56 entries)

unfoldable all_permute : List (List ℕ) → Bool
all_permute [] = true
all_permute (t ∷ rest) = permutes t && all_permute rest

checked : all_permute column_permutations_for_encoding ≡ true
unfolding all_permute all_below distinct holds holds_below
checked = refl

holds-at :
    (k : ℕ) (entries : List ℕ)
    → holds k entries ≡ true
    → (i : ℕ) × (i < length entries) × (entry_at entries i ≡ k)
unfolding holds
holds-at k [] h = absurd (true-false (sym h))
holds-at k (e ∷ rest) h = elim (ℕ_discrete k e) [
  | yes same ↦ (0, omega arith, sym same)
  | no other ↦
      let (i, lt, at) = holds-at k rest (ground (arith, h, other)) in (suc i, omega arith, at)
]

holds-entry :
    (entries : List ℕ) (i : ℕ) → i < length entries → holds (entry_at entries i) entries ≡ true
unfolding holds
holds-entry [] i lt = absurd (omega arith)
holds-entry (e ∷ rest) zero lt = ground (arith, ==_refl e)
holds-entry (e ∷ rest) (suc i) lt = ground (arith, holds-entry rest i)

not-true : (b : Bool) → not b ≡ true → b ≡ false
not-true true h = sym h
not-true false h = refl

distinct-entry :
    (entries : List ℕ) (i j : ℕ)
    → distinct entries ≡ true
    → i < length entries
    → j < length entries
    → entry_at entries i ≡ entry_at entries j
    → i ≡ j
unfolding distinct
distinct-entry [] i j h il jl e = absurd (omega arith)
distinct-entry (x ∷ rest) zero zero h il jl e = refl
distinct-entry (x ∷ rest) zero (suc j) h il jl e =
    let (new, more) = both_true (not (holds x rest)) (distinct rest) h in
    absurd (
      true-false (
        sym (ap (λ k. holds k rest) e ∙ holds-entry rest j (omega arith))
        ∙ not-true (holds x rest) new))
distinct-entry (x ∷ rest) (suc i) zero h il jl e =
    let (new, more) = both_true (not (holds x rest)) (distinct rest) h in
    absurd (
      true-false (
        sym (ap (λ k. holds k rest) (sym e) ∙ holds-entry rest i (omega arith))
        ∙ not-true (holds x rest) new))
distinct-entry (x ∷ rest) (suc i) (suc j) h il jl e =
    let (new, more) = both_true (not (holds x rest)) (distinct rest) h in
    ap suc (distinct-entry rest i j more (omega arith) (omega arith) e)

holds_below-at :
    (n : ℕ) (entries : List ℕ) (k : ℕ)
    → holds_below n entries ≡ true
    → k < n
    → holds k entries ≡ true
unfolding holds_below
holds_below-at zero entries k h lt = absurd (omega arith)
holds_below-at (suc n) entries k h lt =
    let (here, more) = both_true (holds n entries) (holds_below n entries) h in
    elim (ℕ_discrete k n) [
      | yes e ↦ ap (λ m. holds m entries) e ∙ here
      | no ne ↦ holds_below-at n entries k more (omega arith)
    ]

all_below-entry :
    (n : ℕ) (entries : List ℕ) (i : ℕ)
    → all_below n entries ≡ true
    → i < length entries
    → entry_at entries i < n
unfolding all_below
all_below-entry n [] i h lt = absurd (omega arith)
all_below-entry n (e ∷ rest) zero h lt = ltb→lt e n (both_true (ltb e n) (all_below n rest) h).0
all_below-entry n (e ∷ rest) (suc i) h lt =
    all_below-entry n rest i (both_true (ltb e n) (all_below n rest) h).1 (omega arith)

permutes_lem : (entries : List ℕ) → permutes entries ≡ true → IsPermutation 56 (entry_at entries)
permutes_lem entries h =
    let (sizes, members) =
      both_true ((length entries == 56) && all_below 56 entries)
        (distinct entries && holds_below 56 entries) h in
    let (size, low) = both_true (length entries == 56) (all_below 56 entries) sizes in
    let (new, all) = both_true (distinct entries) (holds_below 56 entries) members in
    let same : length entries ≡ 56 = ground (arith, size) in
    record {
      below = λ i lt. all_below-entry 56 entries i low (omega (arith, same));
      inj = λ i j il jl e.
          distinct-entry entries i j new (omega (arith, same)) (omega (arith, same)) e;
      onto = λ k lt.
          let (i, il, at) = holds-at k entries (holds_below-at 56 entries k all lt) in
          (i, omega (arith, il, same), at);
    }

all_permute_lem :
    (tables : List (List ℕ)) (phase : ℕ)
    → all_permute tables ≡ true
    → phase < length tables
    → permutes (table_at tables phase) ≡ true
unfolding all_permute
all_permute_lem [] phase h lt = absurd (omega arith)
all_permute_lem (t ∷ rest) zero h lt = (both_true (permutes t) (all_permute rest) h).0
all_permute_lem (t ∷ rest) (suc phase) h lt =
    all_permute_lem rest phase (both_true (permutes t) (all_permute rest) h).1 (omega arith)

-- Each of the 16 tables is a permutation of the 56 columns.
pub columns-IsPermutation :
    (phase : ℕ)
    → phase < 16
    → IsPermutation 56 (entry_at (table_at column_permutations_for_encoding phase))
columns-IsPermutation phase lt =
    permutes_lem (table_at column_permutations_for_encoding phase)
      (all_permute_lem column_permutations_for_encoding phase checked lt)
