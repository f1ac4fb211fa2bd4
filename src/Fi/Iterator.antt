-- ===== src/Fi/Iterator.antt =====
-- The iterator of the frequent items map: fi/include/reverse_purge_hash_map.hpp.
use whylogs_datasketches.Base.{
  ℕ, zero, suc, ◌+◌, ◌*◌, ◌/◌, ◌%◌, ◌^◌, bit_or, none, some, List, [], ◌∷◌, ◌==◌, if◌then◌else◌,
  Outcome, ok, throws, undefined, diverges, ◌>>=◌,
}
use whylogs_datasketches.Fi.Map.{HashMap, size}

-- `static_cast<uint32_t>((1 << lg) * GOLDEN_RATIO_RECIPROCAL) | 1`. The constant is the double
-- 347922205179541 / 2^49, and its product with a power of two is exact.
unfoldable pub stride : ℕ → ℕ
stride n = bit_or (n * 347922205179541 / 2 ^ 49) 1

module _ {K : Type 0} where
  -- The loop of `begin`: the first active slot from `i` on, by the slots that are left.
  unfoldable pub first_active : ℕ → ℕ → HashMap K → ℕ
  first_active zero i m = i
  first_active (suc left) i m =
      let rest = first_active left (i + 1) m in if m.states i == 0 then rest else i

  -- The loop of `operator++`.
  unfoldable pub next_active : ℕ → ℕ → HashMap K → ℕ → Outcome ℕ
  next_active zero n m index = throws diverges
  next_active (suc rounds) n m index =
      let index' = (index + stride n) % n in
      let rest = next_active rounds n m index' in if m.states index' == 0 then rest else ok index'

  -- `operator*`: an index past the table, or a raw slot, is undefined.
  unfoldable pub entry : HashMap K → ℕ → Outcome (K × ℕ)
  entry m i = elim (m.keys i) [ none ↦ throws undefined | some k ↦ ok (k, m.values i) ]

  -- What a range-based for loop sees when `left` more entries are counted.
  unfoldable pub entries_from : ℕ → HashMap K → ℕ → Outcome (List (K × ℕ))
  entries_from zero m index = ok []
  entries_from (suc zero) m index = entry m index >>= λ e. ok (e ∷ [])
  entries_from (suc (suc left)) m index = do
    e ← entry m index
    index' ← next_active (size m) (size m) m index
    rest ← entries_from (suc left) m index'
    ok (e ∷ rest)

  unfoldable pub entries : HashMap K → Outcome (List (K × ℕ))
  entries m = entries_from m.num_active m (first_active (size m) 0 m)
