-- ===== src/Fi/Map/Table.antt =====
-- When a table of the frequent items map is well formed, and what it means.
use whylogs_datasketches.Base.{
  ℕ, ◌+◌, ◌≤◌, ◌<◌, ◌≡◌, ◌≢◌, Bool, false, Option, none, some, ◌==◌, if◌then◌else◌, sum_below,
  sum_below_change, sum_below_congr, sum_below_mono,
}
use whylogs_datasketches.Base.Cyclic.{dist}
use whylogs_datasketches.Fi.Map.{HashMap, KeyOps, home}

module _ {K : Type 0} where
  -- A measure `G` of one slot's index, key and value, taken over the active slots.
  abbrev pub term : (ℕ → Option K → ℕ → ℕ) → HashMap K → ℕ → ℕ
  term G m i = if m.states i == 0 then 0 else G i (m.keys i) (m.values i)

  unfoldable pub slot_sum : ℕ → (ℕ → Option K → ℕ → ℕ) → HashMap K → ℕ
  slot_sum n G m = sum_below n (term G m)

  -- A change of one slot changes a measure by that slot's terms.
  pub slot_sum_change :
      (n : ℕ) (G : ℕ → Option K → ℕ → ℕ) (m m' : HashMap K) (p : ℕ)
      → p < n
      → ((i : ℕ) → i < n → i ≢ p → term G m i ≡ term G m' i)
      → slot_sum n G m + term G m' p ≡ slot_sum n G m' + term G m p
  unfolding slot_sum
  slot_sum_change n G m m' p lt h = sum_below_change n (term G m) (term G m') p lt h

  -- Two measures of two maps that agree at every slot.
  pub slot_sum_congr :
      (n : ℕ) (G G' : ℕ → Option K → ℕ → ℕ) (m m' : HashMap K)
      → ((i : ℕ) → i < n → term G m i ≡ term G' m' i)
      → slot_sum n G m ≡ slot_sum n G' m'
  unfolding slot_sum
  slot_sum_congr n G G' m m' h = sum_below_congr n (term G m) (term G' m') h

  pub slot_sum_mono :
      (n : ℕ) (G G' : ℕ → Option K → ℕ → ℕ) (m m' : HashMap K)
      → ((i : ℕ) → i < n → term G m i ≤ term G' m' i)
      → slot_sum n G m ≤ slot_sum n G' m'
  unfolding slot_sum
  slot_sum_mono n G G' m m' h = sum_below_mono n (term G m) (term G' m') h

  -- Two measures that agree but at one slot.
  pub slot_sum_swap :
      (n : ℕ) (G G' : ℕ → Option K → ℕ → ℕ) (m : HashMap K) (p : ℕ)
      → p < n
      → ((i : ℕ) → i < n → i ≢ p → term G m i ≡ term G' m i)
      → slot_sum n G m + term G' m p ≡ slot_sum n G' m + term G m p
  unfolding slot_sum
  slot_sum_swap n G G' m p lt h = sum_below_change n (term G m) (term G' m) p lt h

module _ {K : Type 0} ⦃ops : KeyOps K⦄ where
  -- Each active slot holds a constructed key, `states - 1` steps after that key's home, and no
  -- free slot stands on the way from the home to the slot.
  pub record IsTable (n : ℕ) (m : HashMap K) : Type 0 where
    pub homes :
        (i : ℕ)
        → i < n
        → m.states i ≢ 0
        → (k : K) × (m.keys i ≡ some k) × (dist n (home n k) i + 1 ≡ m.states i)
    pub paths :
        (x i : ℕ) → x < n → i < n → m.states x ≡ 0 → m.states i ≢ 0 → m.states i ≤ dist n x i

  abbrev pub holds : K → Option K → Bool
  holds k none = false
  holds k (some k') = ops.equal k' k

  -- How many active slots hold the key.
  abbrev pub occurrences : ℕ → K → HashMap K → ℕ
  occurrences n k m = slot_sum n (λ i k' v. if holds k k' then 1 else 0) m

  -- The abstract map: the value stored under a key, 0 if there is none.
  abbrev pub view : ℕ → K → HashMap K → ℕ
  view n k m = slot_sum n (λ i k' v. if holds k k' then v else 0) m

-- How many slots are active.
abbrev pub active : {K : Type 0} → ℕ → HashMap K → ℕ
active n m = slot_sum n (λ i k v. 1) m

-- The total of the values.
abbrev pub weight : {K : Type 0} → ℕ → HashMap K → ℕ
weight n m = slot_sum n (λ i k v. v) m
