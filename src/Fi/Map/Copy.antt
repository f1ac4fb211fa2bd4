-- ===== src/Fi/Map/Copy.antt =====
-- The copy constructor of the map.
use whylogs_datasketches.Base.{
  ℕ, zero, suc, ◌+◌, ◌-◌, ◌≤◌, ◌<◌, ◌≡◌, refl, ◌∙◌, Bool-cases, inl, inr, none, ◌==◌, ltb,
  if◌then◌else◌, update, arith,
}
use whylogs_datasketches.Fi.Map.{HashMap, copy_loop, copy, size}

module _ {K : Type 0} where
  -- The loop stops after `num` slots, active or not.
  copy_loop-keys :
      (rounds i num : ℕ) (other m : HashMap K) (j : ℕ)
      → 0 < num
      → i + num ≤ j
      → (copy_loop rounds i num other m).keys j ≡ m.keys j
  unfolding copy_loop
  copy_loop-keys zero i num other m j pos far = refl
  copy_loop-keys (suc rounds) i num other m j pos far =
      let m' : HashMap K =
        if ltb 0 (other.states i)
        then record m {
          keys = update m.keys i (other.keys i);
          values = update m.values i (other.values i);
        }
        else m in
      let here : m'.keys j ≡ m.keys j = ground arith in
      elim (Bool-cases (num - 1 == 0)) [
        | inl e ↦ rw e here
        | inr e ↦ rw e (
            copy_loop-keys rounds (i + 1) (num - 1) other m' j (ground arith) (ground arith) ∙ here)
      ]

  -- The copy of a map with `num_active` entries constructs no key at or past slot `num_active`,
  -- and yet takes over the states of all slots.
  pub copy_lossy :
      (other : HashMap K) (j : ℕ)
      → 0 < other.num_active
      → other.num_active ≤ j
      → ((copy other).keys j ≡ none) × ((copy other).states j ≡ other.states j)
  unfolding copy
  copy_lossy other j pos far = elim (Bool-cases (ltb 0 other.num_active)) [
    | inl e ↦
        (rw e (copy_loop-keys (size other) 0 other.num_active other _ j pos (omega arith)), refl)
    | inr e ↦ absurd (ground arith)
  ]
