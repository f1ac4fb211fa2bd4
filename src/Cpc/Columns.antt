-- ===== src/Cpc/Columns.antt =====
-- The columns of the sliding flavor: their rotation and permutation before the compression and
-- behind it, in cpc/include/cpc_compressor_impl.hpp.
pub mod Inverse
pub mod RoundTrip
use whylogs_datasketches.Base.{
  ℕ, zero, suc, ◌+◌, ◌-◌, ◌*◌, ◌/◌, ◌%◌, ◌^◌, bit_or, update, leb, ◌==◌, not, Outcome, ok, throw_if,
  logic_error, out_of_range, ◌>>=◌, ◌>>◌,
}

unfoldable pub inverse_loop : ℕ → ℕ → (ℕ → ℕ) → (ℕ → ℕ) → ℕ → ℕ
inverse_loop zero i permu inverse = inverse
inverse_loop (suc rounds) i permu inverse =
    inverse_loop rounds (i + 1) permu (update inverse (permu i) (i % 2 ^ 8))

unfoldable pub inverse_check : ℕ → ℕ → (ℕ → ℕ) → (ℕ → ℕ) → Outcome (Unit {0})
inverse_check zero i permu inverse = ok tt
inverse_check (suc rounds) i permu inverse = do
  throw_if (not (permu (inverse i) == i)) logic_error
  inverse_check rounds (i + 1) permu inverse

-- `raw` is what a new array holds.
unfoldable pub make_inverse_permutation : (ℕ → ℕ) → (ℕ → ℕ) → ℕ → Outcome (ℕ → ℕ)
make_inverse_permutation raw permu length = do
  let inverse = inverse_loop length 0 permu raw
  inverse_check length 0 permu inverse
  ok inverse

-- The loop of `compress_sliding_flavor` over the pairs; the offset is at most 56.
unfoldable pub permute_loop : ℕ → ℕ → (ℕ → ℕ) → ℕ → (ℕ → ℕ) → Outcome (ℕ → ℕ)
permute_loop zero i permutation offset pairs = ok pairs
permute_loop (suc rounds) i permutation offset pairs = do
  let row = pairs i / 2 ^ 6
  let col = (pairs i % 2 ^ 6 + 56 - offset) % 2 ^ 6
  throw_if (leb 56 col) out_of_range
  permute_loop rounds (i + 1) permutation offset
      (update pairs i (bit_or (row * 2 ^ 6 % 2 ^ 32) (permutation col)))

-- The loop of `uncompress_sliding_flavor`.
unfoldable pub restore_loop : ℕ → ℕ → (ℕ → ℕ) → ℕ → (ℕ → ℕ) → ℕ → ℕ
restore_loop zero i permutation offset pairs = pairs
restore_loop (suc rounds) i permutation offset pairs =
    let row = pairs i / 2 ^ 6 in
    let col = (permutation (pairs i % 2 ^ 6) + (offset + 8)) % 2 ^ 6 in
    restore_loop rounds (i + 1) permutation offset
      (update pairs i (bit_or (row * 2 ^ 6 % 2 ^ 32) col))
