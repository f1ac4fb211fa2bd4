-- ===== src/Fi/Purge/Effect.antt =====
-- What `subtract_and_keep_positive_only` and `purge` do to the abstract map.
use native.Mathlib.Decide.{ℕ_discrete}
use whylogs_datasketches.Base.{
  ℕ, zero, suc, ◌+◌, ◌-◌, ◌/◌, ◌≤◌, ◌<◌, ◌^◌, ◌≡◌, ◌≢◌, inl, inr, refl, sym, ap, ◌∙◌, subst, Option,
  List, [], ◌∷◌, ◌==◌, leb, min, length, sum_below-add_one, sum_below, if◌then◌else◌, Bool-cases,
  Ends, Ends-if, Ends-map, Ends-bind, Ends-no_error, arith, ◌>>=◌, sum_below_single, sum_below_zero,
  sum_below_two, sum_below_pos, le-sum_below,
}
use whylogs_datasketches.Base.Cyclic.{next, next-cases}
use whylogs_datasketches.Fi.Map.{HashMap, KeyOps, size, max_sample_size}
use whylogs_datasketches.Fi.Map.Delete.{Drifted}
use whylogs_datasketches.Fi.Map.Insert.{IsValid, IsValid-of, free_slot}
use whylogs_datasketches.Fi.Map.Table.{
  slot_sum, slot_sum_congr, slot_sum_mono, slot_sum_swap, term, holds, view, active, weight,
}
use whylogs_datasketches.Fi.Purge.{
  first_free_below, subtract_loop, subtract_and_keep_positive_only, collect, sort, insert_sorted,
  read, purge,
}
use whylogs_datasketches.Fi.Purge.Subtract.{Halfway, due, both_loops-Ends}

module _ {K : Type 0} where
  first_free_below-Ends :
      (i e : ℕ) (m : HashMap K)
      → e < i
      → m.states e ≡ 0
      → Ends (λ x. (x < i) × (m.states x ≡ 0)) (λ x. ⊥) (first_free_below i m)
  unfolding first_free_below
  first_free_below-Ends zero e m lt free = absurd (omega arith)
  first_free_below-Ends (suc i) e m lt free =
      Ends-if _ _ (m.states i == 0) _ _ (λ s. (omega arith, ground arith))
        λ a.
          let ne : e ≢ i = λ eq. ground (arith, eq) in
          Ends-map (λ x. (x < i) × (m.states x ≡ 0)) (λ x. (x < suc i) × (m.states x ≡ 0)) (λ x. ⊥)
            (first_free_below i m) (λ x h. (omega arith, h.1))
            (first_free_below-Ends i e m (omega arith) free)

-- What is left of a measure of the entries when each value loses `amount`.
abbrev pub lowered : {K : Type 0} → ℕ → (Option K → ℕ → ℕ) → ℕ → Option K → ℕ → ℕ
lowered amount A i k v = if leb v amount then 0 else A k (v - amount)

module _ {K : Type 0} ⦃ops : KeyOps K⦄ where
  -- Every entry loses `amount`, and those with no more than that are gone.
  pub record Lowered (m : HashMap K) (amount : ℕ) (m' : HashMap K) : Type 0 where
    pub valid : IsValid m'
    pub sums :
        (A : Option K → ℕ → ℕ)
        → slot_sum (size m) (λ i k v. A k v) m' ≡ slot_sum (size m) (lowered amount A) m
    pub same_lg : m'.lg_cur_size ≡ m.lg_cur_size
    pub same_max : m'.lg_max_size ≡ m.lg_max_size

  module _ (m : HashMap K) (amount : ℕ) (v : IsValid m) (e : ℕ) (el : e < size m)
      (free : m.states e ≡ 0) where
    abbrev n : ℕ
    n = size m

    abbrev target : (Option K → ℕ → ℕ) → ℕ
    target A = slot_sum n (lowered amount A) m

    abbrev At : ℕ → HashMap K → Type 0
    At = Halfway n e amount target m.lg_cur_size m.lg_max_size

    start-Halfway : At e m
    start-Halfway = record {
      table = v.table;
      free = free;
      once = v.once;
      counted = v.counted;
      dues = λ A. slot_sum_congr n _ _ m m (λ i il. ground arith);
      width = refl;
      same_lg = refl;
      same_max = refl;
    }

    end-Lowered : (m' : HashMap K) → At (next n e) m' → Lowered m amount m'
    end-Lowered m' h =
        let sums = λ (A : Option K → ℕ → ℕ).
          slot_sum_congr n (λ i k w. A k w)
            (due n e amount target m.lg_cur_size m.lg_max_size (next n e) A) m' m'
            (λ i il. elim (ℕ_discrete i e) [
              | yes eq ↦ ground (arith, eq, h.free)
              | no ne ↦ ground (arith, next-cases n e el)
            ])
          ∙ h.dues A in
        let fewer : active n m' ≤ active n m = omega (
          arith,
          sums (λ k w. 1),
          slot_sum_mono n (lowered amount (λ k w. 1)) (λ i k w. 1) m m (λ i il. ground arith),
        ) in
        record {
          valid =
              IsValid-of n m' h.width h.table h.once h.counted
                (omega (arith, fewer, h.counted, v.counted, v.room)) v.wide
                (λ q. omega (
                  arith,
                  v.bounded q,
                  sums (λ k w. if holds q k then w else 0),
                  slot_sum_mono n (lowered amount (λ k w. if holds q k then w else 0))
                      (λ i k w. if holds q k then w else 0) m m (λ i il. ground arith),
                ));
          sums = sums;
          same_lg = h.same_lg;
          same_max = h.same_max;
        }

    loops-Ends :
        Ends
          (Lowered m amount)
          (Drifted n)
          (subtract_loop e 0 amount m >>= subtract_loop (n - e) e amount)
    loops-Ends =
        Ends-map (At (next n e)) (Lowered m amount) (Drifted n) _ end-Lowered
          (both_loops-Ends n e amount target m.lg_cur_size m.lg_max_size el m start-Halfway)

  -- `subtract_and_keep_positive_only` on a valid map ends in one of two ways. Either it lowers every
  -- entry once, also where a cluster goes round the end of the table, removes those with no more
  -- than the amount, and leaves the map valid; or it throws the exception of the drift limit, which
  -- it may only in a map of at least 1024 slots.
  pub subtract-Ends :
      (m : HashMap K) (amount : ℕ)
      → IsValid m
      → Ends (Lowered m amount) (Drifted (size m)) (subtract_and_keep_positive_only amount m)
  unfolding subtract_and_keep_positive_only
  subtract-Ends m amount v =
      let (e, el, free) = free_slot m v in
      Ends-bind (λ x. (x < size m) × (m.states x ≡ 0)) (Lowered m amount) (Drifted (size m)) _ _
        (Ends-no_error (λ x. (x < size m) × (m.states x ≡ 0)) (Drifted (size m))
          (first_free_below (size m) m) (first_free_below-Ends (size m) e m el free))
        (λ x _ h. loops-Ends m amount v x h.0 h.1)

abbrev All : (ℕ → Type 0) → List ℕ → Type 0
All P [] = Unit
All P (x ∷ xs) = P x × All P xs

insert_sorted-All :
    (P : ℕ → Type 0) (x : ℕ) (xs : List ℕ)
    → P x
    → All P xs
    → All P (insert_sorted x xs) × (length (insert_sorted x xs) ≡ length xs + 1)
unfolding insert_sorted
insert_sorted-All P x [] p ps = ((p, tt), refl)
insert_sorted-All P x (y ∷ ys) p ps =
    let (rest, len) = insert_sorted-All P x ys p ps.1 in
    elim (Bool-cases (leb x y)) [
      | inl e ↦ rw e ((p, ps), omega arith)
      | inr e ↦ rw e ((ps.0, rest), omega arith)
    ]

sort-All :
    (P : ℕ → Type 0) (xs : List ℕ) → All P xs → All P (sort xs) × (length (sort xs) ≡ length xs)
unfolding sort
sort-All P [] ps = (tt, refl)
sort-All P (x ∷ xs) ps =
    let (rest, len) = sort-All P xs ps.1 in
    let (all, len') = insert_sorted-All P x (sort xs) ps.0 rest in (all, omega arith)

read-Ends :
    (P : ℕ → Type 0) (xs : List ℕ) (i : ℕ) → All P xs → i < length xs → Ends P (λ x. ⊥) (read xs i)
unfolding read
read-Ends P [] i ps lt = absurd (omega arith)
read-Ends P (x ∷ xs) zero ps lt = ps.0
read-Ends P (x ∷ xs) (suc i) ps lt = read-Ends P xs i ps.1 (omega arith)

module _ {K : Type 0} ⦃ops : KeyOps K⦄ where
  -- A value of an active slot.
  abbrev pub Occurs : HashMap K → ℕ → Type 0
  Occurs m x = (j : ℕ) × (j < size m) × (m.states j ≢ 0) × (m.values j ≡ x)

  collect-Ends :
      (rounds i wanted : ℕ) (m : HashMap K)
      → i + rounds ≡ size m
      → wanted + slot_sum i (λ j k v. 1) m ≤ active (size m) m
      → Ends (λ xs. All (Occurs m) xs × (length xs ≡ wanted)) (λ x. ⊥) (collect rounds i wanted m)
  unfolding collect slot_sum
  collect-Ends rounds i zero m width enough = (tt, refl)
  collect-Ends zero i (suc wanted) m width enough =
      let same : i ≡ size m = omega arith in
      absurd (omega (arith, ap (λ x. sum_below x (term (λ j k v. 1) m)) same))
  collect-Ends (suc rounds) i (suc wanted) m width enough =
      let grow = sum_below-add_one i (term (λ j k v. 1) m) in
      Ends-if _ _ (m.states i == 0) _ _
        (λ s. collect-Ends rounds (i + 1) (suc wanted) m (omega arith) (ground (arith, grow)))
        λ a.
          Ends-bind (λ xs. All (Occurs m) xs × (length xs ≡ wanted))
            (λ xs. All (Occurs m) xs × (length xs ≡ suc wanted)) (λ x. ⊥)
            (collect rounds (i + 1) wanted m) _
            (collect-Ends rounds (i + 1) wanted m (omega arith) (ground (arith, grow)))
            (λ xs _ h. (((i, omega arith, ground arith, refl), h.0), omega (arith, h.1)))

  -- What `purge` does: every entry loses the returned amount, and some entry is gone.
  pub record Purged (m : HashMap K) (r : ℕ × HashMap K) : Type 0 where
    pub lowers : Lowered m r.0 r.1
    pub occurs : Occurs m r.0
    pub fewer : r.1.num_active < m.num_active
    pub weighs : weight (size m) r.1 + r.0 ≤ weight (size m) m

  purged :
      (m m' : HashMap K) (amount : ℕ)
      → IsValid m
      → Occurs m amount
      → Lowered m amount m'
      → Purged m (amount, m')
  unfolding slot_sum
  purged m m' amount v (j, jl, act, value) d =
      let n = size m in
      let width : size m' ≡ n = ap (λ (x : ℕ). 2 ^ x) d.same_lg in
      let after : active n m' ≡ m'.num_active =
        subst (λ x. active x m' ≡ m'.num_active) width d.valid.counted in
      let ones = term (λ i k w. 1) m in
      let left = term (lowered amount (λ k w. 1)) m in
      let change : slot_sum n (λ i k w. if i == j then 0 else 1) m + 1 ≡ slot_sum n (λ i k w. 1) m =
        ground (
          arith,
          slot_sum_swap n (λ i k w. if i == j then 0 else 1) (λ i k w. 1) m j jl
              (λ i il ne. ground arith),
        ) in
      let less : slot_sum n (lowered amount (λ k w. 1)) m
          ≤ slot_sum n (λ i k w. if i == j then 0 else 1) m =
        slot_sum_mono n (lowered amount (λ k w. 1)) (λ i k w. if i == j then 0 else 1) m m
          (λ i il. elim (ℕ_discrete i j) [
            | yes e ↦ rw (e, value) (ground arith)
            | no ne ↦ ground arith
          ]) in
      let rest : slot_sum n (λ i k w. if i == j then 0 else w) m + amount ≡ weight n m = ground (
        arith,
        slot_sum_swap n (λ i k w. if i == j then 0 else w) (λ i k w. w) m j jl
            (λ i il ne. ground arith),
      ) in
      let lighter : slot_sum n (lowered amount (λ k w. w)) m
          ≤ slot_sum n (λ i k w. if i == j then 0 else w) m =
        slot_sum_mono n (lowered amount (λ k w. w)) (λ i k w. if i == j then 0 else w) m m
          (λ i il. elim (ℕ_discrete i j) [
            | yes e ↦ rw (e, value) (ground arith)
            | no ne ↦ ground arith
          ]) in
      record {
        lowers = d;
        occurs = (j, jl, act, value);
        fewer = omega (arith, after, v.counted, d.sums (λ k w. 1), change, less);
        weighs = omega (arith, d.sums (λ k w. w), rest, lighter);
      }

  -- `purge` of a valid map that is not empty ends in one of two ways. Either it returns the value of
  -- some entry, lowers every entry by it, removes at least one, leaves the map valid, and makes the
  -- total of the values less by at least the returned value; or it throws the exception of the drift
  -- limit, which it may only in a map of at least 1024 slots.
  pub purge-Ends :
      (m : HashMap K) → IsValid m → 0 < m.num_active → Ends (Purged m) (Drifted (size m)) (purge m)
  unfolding purge slot_sum
  purge-Ends m v pos =
      let limit = min max_sample_size m.num_active in
      Ends-bind (λ xs. All (Occurs m) xs × (length xs ≡ limit)) (Purged m) (Drifted (size m)) _ _
        (Ends-no_error (λ xs. All (Occurs m) xs × (length xs ≡ limit)) _ _
          (collect-Ends (size m) 0 limit m (omega arith) (omega (arith, v.counted, none_before))))
        λ xs _ h.
          let (all, len) = sort-All (Occurs m) xs h.0 in
          Ends-bind (Occurs m) (Purged m) (Drifted (size m)) _ _
            (Ends-no_error (Occurs m) _ _
              (read-Ends (Occurs m) (sort xs) (limit / 2) all (omega (arith, len, h.1))))
            λ median _ o.
              Ends-bind (Lowered m median) (Purged m) (Drifted (size m)) _ _
                (subtract-Ends m median v) (λ m' _ d. purged m m' median v o d)
    where
      none_before : slot_sum 0 (λ j k w. 1) m ≡ 0
      none_before = sum_below_zero 0 _ (λ i il. absurd (omega arith))

  -- A purge of a valid map that is not empty, and whose entries all have one value, removes every
  -- entry and returns that value, unless it throws the exception of the drift limit, which it may
  -- only in a map of at least 1024 slots.
  pub purge_uniform :
      (m : HashMap K) (a : ℕ)
      → IsValid m
      → 0 < m.num_active
      → ((i : ℕ) → i < size m → m.states i ≢ 0 → m.values i ≡ a)
      → Ends (λ r. (r.0 ≡ a) × (r.1.num_active ≡ 0)) (Drifted (size m)) (purge m)
  unfolding slot_sum
  purge_uniform m a v pos same =
      Ends-map (Purged m) (λ r. (r.0 ≡ a) × (r.1.num_active ≡ 0)) (Drifted (size m)) (purge m)
        (λ r d.
          let (j, jl, act, value) = d.occurs in
          let l = d.lowers in
          let width : size r.1 ≡ size m = ap (λ (x : ℕ). 2 ^ x) l.same_lg in
          let offset : r.0 ≡ a = sym value ∙ same j jl act in
          let left : active (size m) r.1 ≡ r.1.num_active =
            subst (λ x. active x r.1 ≡ r.1.num_active) width l.valid.counted in
          let none_left =
            sum_below_zero (size m) (term (lowered r.0 (λ k w. 1)) m)
              (λ i il. ground (arith, same i il, offset)) in
          (offset, omega (arith, left, l.sums (λ k w. 1), none_left)))
        (purge-Ends m v pos)

  -- Lowering the entries lowers each lookup, and stops at 0.
  pub lowered-view :
      (m : HashMap K) (amount : ℕ) (q : K)
      → IsValid m
      → slot_sum (size m) (lowered amount (λ k w. if holds q k then w else 0)) m
        ≡ view (size m) q m - amount
  unfolding slot_sum
  lowered-view m amount q v =
      let n = size m in
      let one = term (λ i k w. if holds q k then 1 else 0) m in
      elim (ℕ_discrete (sum_below n one) 0) [
        | yes none_there ↦ ground (
          arith,
          sum_below_zero n (term (λ i k w. if holds q k then w else 0) m)
              (λ i il. ground (arith, le-sum_below n one i il, none_there)),
          sum_below_zero n (term (lowered amount (λ k w. if holds q k then w else 0)) m)
              (λ i il. ground (arith, le-sum_below n one i il, none_there)),
        )
        | no there ↦
            let (p, pl, pos) = sum_below_pos n one (omega arith) in
            let others = λ (i : ℕ) (il : i < n) (ne : i ≢ p).
              sum_below_two n one p i pl il (λ e. ne (sym e)) in
            ground (
              arith,
              pos,
              sum_below_single n (term (λ i k w. if holds q k then w else 0) m) p pl
                  (λ i il ne. ground (arith, others i il ne, v.once q, pos)),
              sum_below_single n (term (lowered amount (λ k w. if holds q k then w else 0)) m) p pl
                  (λ i il ne. ground (arith, others i il ne, v.once q, pos)),
            )
      ]
