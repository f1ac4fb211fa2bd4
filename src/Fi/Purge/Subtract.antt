-- ===== src/Fi/Purge/Subtract.antt =====
-- `subtract_and_keep_positive_only`: every value loses the amount, once.
use native.Mathlib.Decide.{ℕ_discrete}
use native.Mathlib.Nat.{add-zero, mod-eq_of_lt, mod_self}
use whylogs_datasketches.Base.{
  ℕ, zero, suc, ◌+◌, ◌-◌, ◌%◌, ◌≤◌, ◌<◌, ◌^◌, ◌≡◌, ◌≢◌, refl, sym, ap, ◌∙◌, ==_refl, ==_ne, subst,
  Bool, true, false, Option, ◌==◌, ltb, leb, update, if◌then◌else◌, Ends, Ends-if, Ends-bind, arith,
  ◌>>=◌,
}
use whylogs_datasketches.Base.Cyclic.{dist, next, next-cases}
use whylogs_datasketches.Fi.Map.{HashMap, KeyOps, size, hash_delete}
use whylogs_datasketches.Fi.Map.Delete.{Drifted, Removed, hash_delete-Ends}
use whylogs_datasketches.Fi.Map.Table.{
  IsTable, slot_sum, slot_sum_congr, slot_sum_swap, holds, occurrences, active,
}
use whylogs_datasketches.Fi.Purge.{subtract_at, subtract_loop, pred32}

module _ {K : Type 0} ⦃ops : KeyOps K⦄ (n e amount : ℕ) (target : (Option K → ℕ → ℕ) → ℕ)
    (lg lg_max : ℕ) where
  -- Slot `i` is done when the loops have come down, round the table from the free slot `e`, to `p`.
  abbrev pub done : ℕ → ℕ → Bool
  done p i = ltb (dist n p i) (dist n p e)

  -- What a slot adds to a measure `A` of the entries when both loops have ended.
  abbrev pub due : ℕ → (Option K → ℕ → ℕ) → ℕ → Option K → ℕ → ℕ
  due p A i k v = if done p i then A k v else (if leb v amount then 0 else A k (v - amount))

  pub record Halfway (p : ℕ) (m : HashMap K) : Type 0 where
    pub table : IsTable n m
    pub free : m.states e ≡ 0
    pub once : (q : K) → occurrences n q m ≤ 1
    pub counted : active n m ≡ m.num_active
    pub dues : (A : Option K → ℕ → ℕ) → slot_sum n (due p A) m ≡ target A
    pub width : n ≡ size m
    pub same_lg : m.lg_cur_size ≡ lg
    pub same_max : m.lg_max_size ≡ lg_max

  module _ (p : ℕ) (m : HashMap K) (pl : p < n) (el : e < n) (apart : p ≢ e)
      (h : Halfway (next n p) m) where
    -- One more slot is done.
    done-next : (i : ℕ) → i < n → i ≢ p → done p i ≡ done (next n p) i
    done-next i il ne = ground (arith, next-cases n p pl)

    done_self : (done p p ≡ true) × (done (next n p) p ≡ false)
    done_self = (ground (arith, next-cases n p pl), ground (arith, next-cases n p pl))

    -- A free slot is passed over.
    skip-Halfway : m.states p ≡ 0 → Halfway p m
    skip-Halfway s = record {
      table = h.table;
      free = h.free;
      once = h.once;
      counted = h.counted;
      dues = λ A.
          slot_sum_congr n (due p A) (due (next n p) A) m m (λ i il. elim (ℕ_discrete i p) [
            | yes eq ↦ ground (arith, eq, s)
            | no ne ↦ rw (done-next i il ne)
          ])
          ∙ h.dues A;
      width = h.width;
      same_lg = h.same_lg;
      same_max = h.same_max;
    }

    module _ (act : m.states p ≢ 0) where
      -- A larger value is lowered.
      lower-Halfway :
          amount < m.values p
          → Halfway p (record m { values = update m.values p (m.values p - amount) })
      unfolding slot_sum
      lower-Halfway big =
          let after : HashMap K = record m { values = update m.values p (m.values p - amount) } in
          record {
            table = record { homes = h.table.homes; paths = h.table.paths };
            free = h.free;
            once = h.once;
            counted = h.counted;
            dues = λ A.
                slot_sum_congr n (due p A) (due (next n p) A) after m (λ i il.
                  elim (ℕ_discrete i p) [
                    | yes eq ↦ rw (eq, done_self.0, done_self.1, ==_refl p) (ground arith)
                    | no ne ↦ rw (done-next i il ne, ==_ne i p ne)
                  ])
                ∙ h.dues A;
            width = h.width;
            same_lg = h.same_lg;
            same_max = h.same_max;
          }

      -- An entry that is used up is removed.
      remove-Halfway :
          (m' : HashMap K)
          → m.values p ≤ amount
          → Removed n p e m m'
          → Halfway p (record m' { num_active = pred32 m'.num_active })
      unfolding slot_sum
      remove-Halfway m' small d =
          let counts = d.sums (λ i k v. 1) (λ i j k v il jl near near'. refl) in
          record {
            table = record { homes = d.table.homes; paths = d.table.paths };
            free = d.free;
            once = λ q. omega (
              arith,
              h.once q,
              d.sums (λ i k v. if holds q k then 1 else 0) (λ i j k v il jl near near'. refl),
            );
            counted = ground (arith, counts, h.counted, d.same_num);
            dues = λ A. ground (
              arith,
              d.sums (due p A) (λ i j k v il jl near near'. ground (arith, near, near')),
              slot_sum_swap n (due p A) (due (next n p) A) m p pl
                  (λ i il ne. rw (done-next i il ne)),
              done_self,
              h.dues A,
            );
            width = h.width ∙ ap (λ (x : ℕ). 2 ^ x) (sym d.same_lg);
            same_lg = d.same_lg ∙ h.same_lg;
            same_max = d.same_max ∙ h.same_max;
          }

      subtract_at-Ends : Ends (Halfway p) (Drifted n) (subtract_at p amount m)
      unfolding subtract_at
      subtract_at-Ends =
          Ends-if _ _ (m.states p == 0) _ _ (λ s. absurd (ground arith))
            λ _.
              Ends-if _ _ (leb (m.values p) amount) _ _
                (λ small.
                  Ends-bind (Removed n p e m) (Halfway p) (Drifted n) (hash_delete m p) _
                    (hash_delete-Ends n p e m h.width h.table pl el h.free act)
                    (λ m' _ d. remove-Halfway m' (ground arith) d))
                (λ big. lower-Halfway (ground arith))

    -- One round of either loop.
    round-Ends : Ends (Halfway p) (Drifted n) (subtract_at p amount m)
    unfolding subtract_at
    round-Ends = elim (ℕ_discrete (m.states p) 0) [
      | yes s ↦ rw s (skip-Halfway s)
      | no act ↦ subtract_at-Ends act
    ]

  module _ (el : e < n) where
    -- A loop that does not meet the free slot `e`.
    subtract_loop-Ends :
        (rounds low p : ℕ) (m : HashMap K)
        → p ≡ (low + rounds) % n
        → low + rounds ≤ n
        → ((r : ℕ) → r < rounds → low + r ≢ e)
        → Halfway p m
        → Ends (Halfway (low % n)) (Drifted n) (subtract_loop rounds low amount m)
    unfolding subtract_loop
    subtract_loop-Ends zero low p m at fits off h =
        subst (λ x. Halfway x m) (at ∙ ap (λ (x : ℕ). x % n) (add-zero low)) h
    subtract_loop-Ends (suc rounds) low p m at fits off h =
        Ends-bind (Halfway (low + rounds)) (Halfway (low % n)) (Drifted n) _ _
          (round-Ends (low + rounds) m (omega arith) el (off rounds (omega arith))
            (subst (λ x. Halfway x m) (at ∙ ap (λ (x : ℕ). x % n) (omega arith)) h))
          (λ m' _ h'.
            subtract_loop-Ends rounds low (low + rounds) m' (sym (mod-eq_of_lt (omega arith)))
              (omega arith) (λ r lt. off r (omega arith)) h')

    -- The second loop, which ends at the free slot.
    last_loop-Ends :
        (r p : ℕ) (m : HashMap K)
        → p ≡ (e + suc r) % n
        → e + suc r ≤ n
        → Halfway p m
        → Ends (Halfway (next n e)) (Drifted n) (subtract_loop (suc r) e amount m)
    unfolding subtract_loop subtract_at
    last_loop-Ends zero p m at fits h =
        rw (add-zero e, h.free)
          (subst (λ x. Halfway x m) (at ∙ ap (λ (x : ℕ). x % n) (omega arith)) h)
    last_loop-Ends (suc r) p m at fits h =
        Ends-bind (Halfway (e + suc r)) (Halfway (next n e)) (Drifted n) _ _
          (round-Ends (e + suc r) m (omega arith) el (omega arith)
            (subst (λ x. Halfway x m) (at ∙ ap (λ (x : ℕ). x % n) (omega arith)) h))
          (λ m' _ h'.
            last_loop-Ends r (e + suc r) m' (sym (mod-eq_of_lt (omega arith))) (omega arith) h')

    -- Both loops.
    pub both_loops-Ends :
        (m : HashMap K)
        → Halfway e m
        → Ends
            (Halfway (next n e))
            (Drifted n)
            (subtract_loop e 0 amount m >>= subtract_loop (n - e) e amount)
    both_loops-Ends m h =
        let there : e % n ≡ e = mod-eq_of_lt el in
        let full : e + suc (n - e - 1) ≡ n = omega arith in
        let zero_mod : 0 % n ≡ 0 = mod-eq_of_lt (omega arith) in
        let rounds : n - e ≡ suc (n - e - 1) = omega arith in
        Ends-bind (Halfway (0 % n)) (Halfway (next n e)) (Drifted n) _ _
          (subtract_loop-Ends e 0 e m (sym there ∙ ap (λ (x : ℕ). x % n) (omega arith))
            (omega arith) (λ r lt. omega arith) h)
          (λ m' _ h'. rw rounds (
            last_loop-Ends (n - e - 1) (0 % n) m' (rw full (zero_mod ∙ sym (mod_self n)))
              (omega arith) h'))
