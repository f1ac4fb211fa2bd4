-- ===== src/Kll/Compress/Steps.antt =====
-- One level of `general_compress` of kll/include/kll_helper_impl.hpp.
use whylogs_datasketches.Base.{
  ◌^◌, ℕ, ◌+◌, ◌-◌, ◌/◌, ◌%◌, ◌≤◌, ◌<◌, ◌≡◌, ◌⊎◌, inl, inr, refl, Bool, true, not, ◌&&◌, ap, sym,
  subst, arith, ltb, ◌==◌, if◌then◌else◌, Bool-cases, update, Outcome, Exception, invalid_argument,
  logic_error, Ends, Ends-if, Ends-map, Ends-bind, Ends-weaken, Ends-throw_if,
}
use whylogs_datasketches.Kll.Buffer.{
  is_odd, randomly_halve_up, randomly_halve_down, merge_sorted_arrays,
}
use whylogs_datasketches.Kll.Buffer.Merge.{merge_sorted_arrays-Ends}
use whylogs_datasketches.Kll.Buffer.Halve.{halve_up-Ends, halve_down-Ends}
use whylogs_datasketches.Kll.Capacity.{level_capacity, level_capacity-Ends}
use whylogs_datasketches.Kll.Compress.{
  Work, add_empty_level, move_level, grow_levels, keeps_level, compact_items, compact_level,
}
use whylogs_datasketches.Kll.Compress.Offsets.{
  Going, weight_of_level, move-Going, extend-Going, compact-Going, same-Going,
}

-- The top one of 61 levels is compacted: then the sketch has a weight of at least 2^60.
abbrev pub Overweight : ℕ → Exception → Type 0
Overweight W x = (x ≡ invalid_argument) × (2 ^ 60 ≤ W)

-- The new offsets, as the code computes them.
halve_Going :
    (W level num : ℕ) (ins out : ℕ → ℕ) (count kept half : ℕ)
    → Going W level num ins out count
    → level + 1 < num
    → kept ≡ out level + (ins (level + 1) - ins level) % 2
    → half ≡ (ins (level + 1) - ins level) / 2
    → Going W
        (level + 1)
        num
        (update ins (level + 1) (ins (level + 1) - half))
        (update out (level + 1) kept)
        (count - half)
halve_Going W level num ins out count kept half g lt ek eh =
    subst
      (λ o.
        Going W (level + 1) num (update ins (level + 1) (ins (level + 1) - half))
          (update out (level + 1) o) (count - half))
      (sym ek)
      (subst
        (λ h.
          Going W (level + 1) num (update ins (level + 1) (ins (level + 1) - h))
            (update out (level + 1) (out level + (ins (level + 1) - ins level) % 2)) (count - h))
        (sym eh) (compact-Going W level num ins out count g lt))

module _ {T : Type 0} where
  -- The levels below `level` are done.
  abbrev pub At : ℕ → ℕ → Work T → Type 0
  At W level w =
      Going W level w.current_num_levels w.in_levels w.out_levels w.current_item_count
      × (w.current_num_levels ≤ 61)

  -- There is a level above, or room for one.
  abbrev pub Roomy : ℕ → ℕ → Work T → Type 0
  Roomy W level w =
      (level + 1 < w.current_num_levels)
      ⊎ ((level + 1 ≡ w.current_num_levels)
          × Going W level (w.current_num_levels + 1) w.in_levels w.out_levels w.current_item_count)

  abbrev pub Done : ℕ → ℕ → Work T → Type 0
  Done W level w = At W (level + 1) w × (level < w.current_num_levels)

  pub add_empty_level-Roomy :
      (W level : ℕ) (w : Work T)
      → level < w.current_num_levels
      → At W level w
      → (At W level (add_empty_level level w) × Roomy W level (add_empty_level level w))
        × ((add_empty_level level w).current_num_levels ≡ w.current_num_levels)
  add_empty_level-Roomy W level w lt at =
      let num : ℕ = w.current_num_levels in
      let ins : ℕ → ℕ = update w.in_levels (level + 2) (w.in_levels (level + 1)) in
      elim (Bool-cases (level == num - 1)) [
        | inl e ↦
            let top : level + 1 ≡ num = ground arith in
            let w' : Work T = record w { in_levels = ins } in
            let same : add_empty_level level w ≡ w' = ap (λ b. if b then w' else w) e in
            let after : (At W level w' × Roomy W level w') × (w'.current_num_levels ≡ num) = (
              (
                (
                  same-Going W level num w.in_levels w.out_levels w.current_item_count at.0 ins lt
                      (λ l le. ground arith),
                  at.1,
                ),
                inr (
                  top,
                  extend-Going W level num w.in_levels w.out_levels w.current_item_count at.0 top,
                ),
              ),
              refl,
            ) in
            subst (λ v. (At W level v × Roomy W level v) × (v.current_num_levels ≡ num)) (sym same)
              after
        | inr e ↦
            let below : level + 1 < num = ground arith in
            let w' : Work T = record w { in_levels = ins } in
            let same : add_empty_level level w ≡ w = ap (λ b. if b then w' else w) e in
            subst (λ v. (At W level v × Roomy W level v) × (v.current_num_levels ≡ num)) (sym same)
              ((at, inl below), refl)
      ]

  pub move_level-Ends :
      (W level : ℕ) (w : Work T)
      → level < w.current_num_levels
      → At W level w
      → Ends (Done W level) (Overweight W) (move_level level w)
  unfolding move_level
  move_level-Ends W level w lt at =
      let (g, few) = at in
      let room : w.out_levels level ≤ w.in_levels level = g.room in
      Ends-throw_if _ _ (ltb (w.in_levels level) (w.out_levels level)) logic_error _
        (λ e. absurd (ground arith))
        (λ e. (
          (
            move-Going W level w.current_num_levels w.in_levels w.out_levels w.current_item_count g
                lt,
            few,
          ),
          lt,
        ))

  pub keeps_level-Ends :
      (W k m level : ℕ) (w : Work T)
      → level < w.current_num_levels
      → w.current_num_levels ≤ 61
      → Ends
          (λ b. (b ≡ true) ⊎ (m ≤ w.in_levels (level + 1) - w.in_levels level))
          (Overweight W)
          (keeps_level k m level w)
  unfolding keeps_level
  keeps_level-Ends W k m level w lt few =
      Ends-if _ _ (ltb w.current_item_count w.target_item_count) _ _ (λ e. inl refl)
        λ e.
          Ends-bind (λ c. m ≤ c)
            (λ b. (b ≡ true) ⊎ (m ≤ w.in_levels (level + 1) - w.in_levels level)) _
            (level_capacity k w.current_num_levels level m) _
            (Ends-map _ (λ c. m ≤ c) _ (level_capacity k w.current_num_levels level m) (λ c h. h.0)
              (Ends-weaken _ _ (Overweight W) (level_capacity k w.current_num_levels level m)
                (λ x h. absurd (omega (arith, h.1, few)))
                (level_capacity-Ends k w.current_num_levels level m lt)))
            (λ c _ le. elim (Bool-cases (ltb (w.in_levels (level + 1) - w.in_levels level) c)) [
              | inl s ↦ inl s
              | inr s ↦ inr (ground arith)
            ])

  grow_levels-Ends :
      (W k m level : ℕ) (w : Work T)
      → level < w.current_num_levels
      → w.current_num_levels ≤ 61
      → ((level + 1 < w.current_num_levels)
          → Going W (level + 1) w.current_num_levels w.in_levels w.out_levels w.current_item_count)
      → ((level + 1 ≡ w.current_num_levels)
          → Going W
              (level + 1)
              (w.current_num_levels + 1)
              w.in_levels
              w.out_levels
              w.current_item_count)
      → ((level + 1 ≡ w.current_num_levels) → 2 ^ level ≤ W)
      → Ends (Done W level) (Overweight W) (grow_levels k m level w)
  unfolding grow_levels
  grow_levels-Ends W k m level w lt few below top heavy =
      let num : ℕ = w.current_num_levels in
      Ends-if _ _ (level == num - 1) _ _
        (λ e.
          Ends-bind (λ c. num + 1 ≤ 61) (Done W level) (Overweight W)
            (level_capacity k (num + 1) 0 m) _
            (Ends-map _ (λ c. num + 1 ≤ 61) _ (level_capacity k (num + 1) 0 m)
              (λ c h. omega (arith, h.2))
              (Ends-weaken _ _ (Overweight W) (level_capacity k (num + 1) 0 m)
                (λ x h.
                  let last : level + 1 ≡ num = ground arith in
                  let l : level ≡ 60 = omega (arith, h.1) in
                  (h.0, subst (λ i. 2 ^ i ≤ W) l (heavy last)))
                (level_capacity-Ends k (num + 1) 0 m (omega arith))))
            (λ c _ le. ((top (ground arith), le), omega arith)))
        (λ e. ((below (ground arith), few), lt))

  extended :
      (W level : ℕ) (w : Work T)
      → level + 1 ≡ w.current_num_levels
      → Roomy W level w
      → Going W level (w.current_num_levels + 1) w.in_levels w.out_levels w.current_item_count
  extended W level w top (inl below) = absurd (omega arith)
  extended W level w top (inr (e, g)) = g

  module _ (less : T → T → Bool) (sort : (ℕ → T) → ℕ → ℕ → ℕ → T) where
    pub compact_items-Ends :
        (bit : ℕ) (first : Bool) (beg pop lim above : ℕ) (items : ℕ → T)
        → bit ≤ 1
        → pop % 2 ≡ 0
        → 0 < beg + pop
        → beg + pop ≡ lim
        → Ends (λ x. Unit) (λ x. ⊥) (compact_items less sort bit first beg pop lim above items)
    unfolding compact_items
    compact_items-Ends bit first beg pop lim above items one even pos eq =
        let sorted : ℕ → T = if first then sort items beg pop else items in
        Ends-if _ _ (above == 0) _ _
          (λ e.
            Ends-map _ _ _ (randomly_halve_up bit sorted beg pop) (λ x h. tt)
              (Ends-weaken _ _ (λ x. ⊥) (randomly_halve_up bit sorted beg pop)
                (λ x h. elim h [
                  | inl odd ↦ absurd (omega (arith, odd.1))
                  | inr none ↦ absurd (omega (arith, none.1))
                ])
                (halve_up-Ends bit sorted beg pop one)))
          (λ e.
            Ends-bind (λ x. Unit) (λ x. Unit) (λ x. ⊥) (randomly_halve_down bit sorted beg pop) _
              (Ends-map _ _ _ (randomly_halve_down bit sorted beg pop) (λ x h. tt)
                (Ends-weaken _ _ (λ x. ⊥) (randomly_halve_down bit sorted beg pop)
                  (λ x h. absurd (omega (arith, h.1))) (halve_down-Ends bit sorted beg pop)))
              (λ halved _ u.
                Ends-map _ _ _
                  (merge_sorted_arrays less halved beg (pop / 2) lim above (beg + pop / 2))
                  (λ x h. tt)
                  (merge_sorted_arrays-Ends less halved beg (pop / 2) lim above (omega arith))))

    pub compact_level-Ends :
        (W k m bit level : ℕ) (zero_sorted : Bool) (w : Work T)
        → bit ≤ 1
        → level < w.current_num_levels
        → At W level w
        → Roomy W level w
        → 0 < w.in_levels (level + 1) - w.in_levels level
        → Ends (Done W level) (Overweight W) (compact_level less sort k m bit zero_sorted level w)
    unfolding compact_level
    compact_level-Ends W k m bit level zero_sorted w one lt at roomy pos =
        let ins : ℕ → ℕ = w.in_levels in
        let num : ℕ = w.current_num_levels in
        let pop : ℕ = ins (level + 1) - ins level in
        let beg : ℕ = if is_odd pop then 1 + ins level else ins level in
        let adj : ℕ = if is_odd pop then pop - 1 else pop in
        let kept : ℕ = if is_odd pop then w.out_levels level + 1 else w.out_levels level in
        let even : adj % 2 ≡ 0 = ground arith in
        let some_item : 0 < beg + adj = ground arith in
        let ends : beg + adj ≡ ins (level + 1) = ground arith in
        let ek : kept ≡ w.out_levels level + pop % 2 = ground arith in
        let eh : adj / 2 ≡ pop / 2 = ground arith in
        let above : ℕ = ins (level + 2) - ins (level + 1) in
        let odd_kept : ℕ → T =
          if is_odd pop
          then update w.items (w.out_levels level) (w.items (ins level))
          else w.items in
        let compacted : Outcome (ℕ → T) =
          compact_items less sort bit ((level == 0) && not zero_sorted) beg adj (ins (level + 1))
            above odd_kept in
        let after : (ℕ → T) → Work T = λ items. record w {
          items = items;
          out_levels = update w.out_levels (level + 1) kept;
          in_levels = update ins (level + 1) (ins (level + 1) - adj / 2);
          current_item_count = w.current_item_count - adj / 2;
        } in
        Ends-bind (λ x. Unit) (Done W level) (Overweight W) compacted
          (λ items. grow_levels k m level (after items))
          (Ends-weaken (λ x. Unit) (λ x. ⊥) (Overweight W) compacted (λ x h. absurd h)
            (compact_items-Ends bit ((level == 0) && not zero_sorted) beg adj (ins (level + 1))
              above odd_kept one even some_item ends))
          (λ items _ u.
            grow_levels-Ends W k m level (after items) lt at.1
              (λ below.
                halve_Going W level num ins w.out_levels w.current_item_count kept (adj / 2) at.0
                  below ek eh)
              (λ top.
                halve_Going W level (num + 1) ins w.out_levels w.current_item_count kept (adj / 2)
                  (extended W level w top roomy) (omega (arith, top)) ek eh)
              (λ top.
                weight_of_level W level num ins w.out_levels w.current_item_count at.0 lt pos))
