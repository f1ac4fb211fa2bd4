-- ===== src/Kll/Sketch/Update.antt =====
-- Updates of the sketch: the weight of its levels is the number of items that it was given.
use native.Mathlib.Nat.{pow-le-pow_right, mul-le-mul_left}
use native.Mathlib.Decide.{ℕ_discrete}
use whylogs_datasketches.Base.{update as set_at}
use whylogs_datasketches.Base.{
  ℕ, ◌+◌, ◌-◌, ◌*◌, ◌/◌, ◌%◌, ◌^◌, ◌≤◌, ◌<◌, ◌≡◌, refl, ap, sym, ◌∙◌, arith, Bool, not, ◌&&◌, leb,
  ◌==◌, ==_refl, if◌then◌else◌, Bool-cases, ◌⊎◌, inl, inr, ok, Exception, invalid_argument,
  logic_error, undefined, Ends, Ends-if, Ends-bind, Ends-map, Ends-weaken, Ends-no_error,
  Ends-throw_if, le-sum_below,
}
use whylogs_datasketches.Kll.Buffer.{is_odd}
use whylogs_datasketches.Kll.Capacity.{level_capacity, level_capacity-Ends, compute_total_capacity}
use whylogs_datasketches.Kll.Compress.{compact_items}
use whylogs_datasketches.Kll.Compress.Weights.{weight_at}
use whylogs_datasketches.Kll.Compress.Steps.{compact_items-Ends}
use whylogs_datasketches.Kll.Sketch.{
  Sketch, shifted_levels, find_level_to_compact, add_empty_top_level, compact_at,
  compress_while_updating, internal_update, insert_item, update_min_max, update,
}
use whylogs_datasketches.Kll.Sketch.Growth.{
  compute_total_capacity-grown, find_level_to_compact-Ends,
}
use whylogs_datasketches.Kll.Sketch.Levels.{Levels, grown-Levels, shifted-Levels, lowered-Levels}

moved_up :
    (levels : ℕ → ℕ) (num delta top l : ℕ)
    → l < num
    → set_at (λ i. if leb i num then levels i + delta else levels i) (num + 1) top (l + 1)
        - set_at (λ i. if leb i num then levels i + delta else levels i) (num + 1) top l
      ≡ levels (l + 1) - levels l
moved_up levels num delta top l lt =
    let up : ℕ → ℕ = set_at (λ i. if leb i num then levels i + delta else levels i) (num + 1) top in
    let low : (i : ℕ) → i ≤ num → up i ≡ levels i + delta = λ i il. ground arith in
    omega (arith, low l (omega arith), low (l + 1) (omega arith))

shifted_top :
    (num level half : ℕ) (levels : ℕ → ℕ)
    → level + 1 < num
    → 1 ≤ half
    → half ≤ levels (level + 1)
    → levels (level + 1) ≤ levels (level + 1 + 1)
    → (level + 2 ≡ num) ⊎ (levels (num - 1) < levels num)
    → (odd_pop : Bool)
    → shifted_levels levels level half odd_pop (num - 1)
      < shifted_levels levels level half odd_pop num
shifted_top num level half levels lt some under up item odd_pop =
    let sh : ℕ → ℕ = shifted_levels levels level half odd_pop in
    let end : sh num ≡ levels num = ground arith in
    elim (ℕ_discrete (num - 1) (level + 1)) [
      | yes e ↦
          let at : sh (level + 1) ≡ levels (level + 1) - half =
            ground (arith, ==_refl (level + 1)) in
          let next : level + 1 + 1 ≡ num = omega arith in
          omega (arith, ap sh e, at, end, ap levels next)
      | no ne ↦
          let before : sh (num - 1) ≡ levels (num - 1) = ground (arith, ne) in
          elim item [ inl e ↦ absurd (omega arith) | inr l ↦ omega (arith, before, end) ]
    ]

lowered_top :
    (num : ℕ) (levels : ℕ → ℕ)
    → 1 ≤ num
    → (num ≡ 1) ⊎ (levels (num - 1) < levels num)
    → (num ≡ 1) ⊎ (set_at levels 0 (levels 0 - 1) (num - 1) < set_at levels 0 (levels 0 - 1) num)
lowered_top num levels pos (inl e) = inl e
lowered_top num levels pos (inr lt) = elim (ℕ_discrete num 1) [
  | yes e ↦ inl e
  | no ne ↦ inr (ground (arith, ne))
]

le-mul_pos : (a b : ℕ) → 1 ≤ b → a ≤ a * b
le-mul_pos a b pos = omega (arith, mul-le-mul_left a pos)

module _ {T : Type 0} where
  -- The offsets are in order and end with the buffer, whose size is the capacity of all levels, and
  -- the weight of the levels is the number of items.
  pub record IsSound (s : Sketch T) : Type 0 where
    pub pos : 1 ≤ s.num_levels
    pub wide : 2 ≤ s.m
    pub levels : Levels s.num_levels s.n s.levels
    pub full : s.items_size ≡ s.levels s.num_levels
    pub capacity : compute_total_capacity s.k s.m s.num_levels ≡ ok s.items_size

  -- The top level holds an item, unless it is the only one.
  abbrev pub Topped : Sketch T → Type 0
  Topped s = (s.num_levels ≡ 1) ⊎ (s.levels (s.num_levels - 1) < s.levels s.num_levels)

  -- There are too many levels for a capacity to be defined.
  abbrev pub Crowded : Sketch T → Exception → Type 0
  Crowded s x = (x ≡ invalid_argument) × (61 ≤ s.num_levels)

  pub add_empty_top_level-Ends :
      (raw : ℕ → T) (s : Sketch T)
      → IsSound s
      → s.levels 0 ≡ 0
      → Ends
          (λ s'.
            IsSound s'
            × (s'.num_levels ≡ s.num_levels + 1)
            × ((l : ℕ)
                → l < s.num_levels
                → s'.levels (l + 1) - s'.levels l ≡ s.levels (l + 1) - s.levels l)
            × (s'.n ≡ s.n)
            × (s'.m ≡ s.m))
          (Crowded s)
          (add_empty_top_level raw s)
  unfolding add_empty_top_level
  add_empty_top_level-Ends raw s h full =
      let num : ℕ = s.num_levels in
      Ends-throw_if _ _ (not (s.levels 0 == 0)) logic_error _
        (λ e. absurd (ground (arith, e, full)))
        λ e0.
          Ends-throw_if _ _ (not (s.items_size == s.levels num)) logic_error _
            (λ e. absurd (ground (arith, e, h.full)))
            λ e1.
              Ends-bind (λ c. Unit) _ (Crowded s) (level_capacity s.k (num + 1) 0 s.m) _
                (Ends-map _ (λ c. Unit) (Crowded s) (level_capacity s.k (num + 1) 0 s.m) (λ c b. tt)
                  (Ends-weaken _ _ (Crowded s) (level_capacity s.k (num + 1) 0 s.m)
                    (λ x b. (b.0, omega (arith, b.1)))
                    (level_capacity-Ends s.k (num + 1) 0 s.m (omega arith))))
                λ delta at u.
                  let up : ℕ → ℕ = λ i. if leb i num then s.levels i + delta else s.levels i in
                  let top : up num ≡ s.levels num + delta = ground arith in
                  Ends-throw_if _ _ (not (up num == s.levels num + delta)) logic_error _
                    (λ e. absurd (ground (arith, e, top)))
                    λ e2. (
                      record {
                        pos = omega arith;
                        wide = h.wide;
                        levels =
                            grown-Levels num s.n delta (s.levels num + delta) s.levels refl
                              h.levels;
                        full = ground (arith, ==_refl (num + 1));
                        capacity =
                            compute_total_capacity-grown s.k s.m num (s.levels num) delta
                              (h.capacity ∙ ap ok h.full) at;
                      },
                      refl,
                      λ l ll. moved_up s.levels num delta (s.levels num + delta) l ll,
                      refl,
                      refl,
                    )

  module _ (less : T → T → Bool) (sort : (ℕ → T) → ℕ → ℕ → ℕ → T) where
    -- A compaction of a level with at least two items, and another level above it.
    compact_at-Ends :
        (bit level : ℕ) (s : Sketch T)
        → bit ≤ 1
        → IsSound s
        → level + 1 < s.num_levels
        → 2 ≤ s.levels (level + 1) - s.levels level
        → (level + 2 ≡ s.num_levels) ⊎ (s.levels (s.num_levels - 1) < s.levels s.num_levels)
        → Ends
            (λ s'. IsSound s' × (0 < s'.levels 0) × (s'.n ≡ s.n) × Topped s')
            (λ x. ⊥)
            (compact_at less sort bit level s)
    unfolding compact_at
    compact_at-Ends bit level s one h lt some_items top_item =
        let ls : ℕ → ℕ = s.levels in
        let pop : ℕ = ls (level + 1) - ls level in
        let beg : ℕ = if is_odd pop then ls level + 1 else ls level in
        let adj : ℕ = if is_odd pop then pop - 1 else pop in
        let even : adj % 2 ≡ 0 = ground arith in
        let some_item : 0 < beg + adj = ground arith in
        let ends : beg + adj ≡ ls (level + 1) = ground arith in
        let half : adj / 2 ≡ pop / 2 = ground arith in
        let (good, at, low, top) =
          shifted-Levels s.num_levels s.n level (adj / 2) ls lt half h.levels in
        Ends-bind (λ x. Unit) _ (λ x. ⊥)
          (compact_items less sort bit ((level == 0) && not s.is_level_zero_sorted) beg adj
            (ls (level + 1)) (ls (level + 2) - ls (level + 1)) s.items)
          _
          (compact_items-Ends less sort bit ((level == 0) && not s.is_level_zero_sorted) beg adj
            (ls (level + 1)) (ls (level + 2) - ls (level + 1)) s.items one even some_item ends)
          λ compacted _ u.
            Ends-throw_if _ (λ x. ⊥)
              (not (shifted_levels ls level (adj / 2) (is_odd pop) level == ls level + adj / 2))
              logic_error _ (λ e. absurd (ground (arith, e, at)))
              λ e. (
                record {
                  pos = h.pos;
                  wide = h.wide;
                  levels = good;
                  full = h.full ∙ sym top;
                  capacity = h.capacity;
                },
                omega (arith, low, half, some_items),
                refl,
                inr (
                    shifted_top s.num_levels level (adj / 2) ls lt (omega (arith, half, some_items))
                      (omega (arith, half)) (h.levels.order (level + 1) lt) top_item (is_odd pop)),
              )

    compress_while_updating-Ends :
        (raw : ℕ → T) (bit : ℕ) (s : Sketch T)
        → bit ≤ 1
        → IsSound s
        → Topped s
        → s.levels 0 ≡ 0
        → Ends
            (λ s'. IsSound s' × (0 < s'.levels 0) × (s'.n ≡ s.n) × Topped s')
            (Crowded s)
            (compress_while_updating less sort raw bit s)
    unfolding compress_while_updating
    compress_while_updating-Ends raw bit s one h top full =
        Ends-bind (λ l. (l < s.num_levels) × (s.m ≤ s.levels (l + 1) - s.levels l)) _ (Crowded s)
          (find_level_to_compact s) _
          (Ends-no_error _ (Crowded s) (find_level_to_compact s)
            (find_level_to_compact-Ends s h.pos full (h.capacity ∙ ap ok h.full)))
          λ level _ found.
            Ends-bind
              (λ t.
                IsSound t
                × (level + 1 < t.num_levels)
                × (2 ≤ t.levels (level + 1) - t.levels level)
                × (t.n ≡ s.n)
                × ((level + 2 ≡ t.num_levels)
                    ⊎ (t.levels (t.num_levels - 1) < t.levels t.num_levels)))
              _ (Crowded s) (if level == s.num_levels - 1 then add_empty_top_level raw s else ok s)
              _
              (Ends-if _ _ (level == s.num_levels - 1) _ _
                (λ last.
                  Ends-map _
                    (λ t.
                      IsSound t
                      × (level + 1 < t.num_levels)
                      × (2 ≤ t.levels (level + 1) - t.levels level)
                      × (t.n ≡ s.n)
                      × ((level + 2 ≡ t.num_levels)
                          ⊎ (t.levels (t.num_levels - 1) < t.levels t.num_levels)))
                    (Crowded s) (add_empty_top_level raw s)
                    (λ t a. (
                      a.0,
                      ground (arith, a.1, last, found.0),
                      omega (arith, a.2 level found.0, found.1, h.wide),
                      a.3,
                      inl (ground (arith, a.1, last, found.0)),
                    ))
                    (add_empty_top_level-Ends raw s h full))
                (λ low. (
                  h,
                  ground (arith, found.0, low),
                  omega (arith, found.1, h.wide),
                  refl,
                  elim top [
                    | inl one_level ↦ absurd (ground (arith, low, one_level, found.0))
                    | inr item ↦ inr item
                  ],
                )))
              λ t _ a.
                Ends-map (λ s'. IsSound s' × (0 < s'.levels 0) × (s'.n ≡ t.n) × Topped s') _
                  (Crowded s) (compact_at less sort bit level t)
                  (λ s' b. (b.0, b.1, b.2 ∙ a.3, b.3))
                  (Ends-no_error _ (Crowded s) (compact_at less sort bit level t)
                    (compact_at-Ends bit level t one a.0 a.1 a.2 a.4))

    -- One more place at the bottom, and one more item in the count.
    internal_update-Ends :
        (raw : ℕ → T) (bit : ℕ) (s : Sketch T)
        → bit ≤ 1
        → IsSound s
        → Topped s
        → Ends
            (λ r.
              IsSound r.0
              × Topped r.0
              × (r.0.n ≡ s.n + 1)
              × (r.1 ≡ r.0.levels 0)
              × (r.1 < r.0.levels 1))
            (Crowded s)
            (internal_update less sort raw bit s)
    unfolding internal_update
    internal_update-Ends raw bit s one h top =
        Ends-bind (λ t. IsSound t × (0 < t.levels 0) × (t.n ≡ s.n) × Topped t) _ (Crowded s)
          (if s.levels 0 == 0 then compress_while_updating less sort raw bit s else ok s) _
          (Ends-if _ _ (s.levels 0 == 0) _ _
            (λ full.
              Ends-map _ (λ t. IsSound t × (0 < t.levels 0) × (t.n ≡ s.n) × Topped t) (Crowded s)
                (compress_while_updating less sort raw bit s) (λ t a. (a.0, a.1, a.2, a.3))
                (compress_while_updating-Ends raw bit s one h top (ground arith)))
            (λ room. (h, ground arith, refl, top)))
          λ t _ a.
            Ends-throw_if _ (Crowded s) (t.levels 0 == 0) undefined _
              (λ e. absurd (ground (arith, e, a.1)))
              λ e.
                let (good, end) = lowered-Levels t.num_levels t.n t.levels a.0.pos a.1 a.0.levels in
                let at : set_at t.levels 0 (t.levels 0 - 1) 0 ≡ t.levels 0 - 1 =
                  ground (arith, ==_refl 0) in
                let first : t.levels 0 ≤ t.levels 1 = a.0.levels.order 0 (omega (arith, a.0.pos)) in
                let next : set_at t.levels 0 (t.levels 0 - 1) 1 ≡ t.levels 1 = ground arith in
                (
                  record {
                    pos = a.0.pos;
                    wide = a.0.wide;
                    levels = good;
                    full = a.0.full ∙ sym end;
                    capacity = a.0.capacity;
                  },
                  lowered_top t.num_levels t.levels a.0.pos a.3,
                  omega (arith, a.2),
                  sym at,
                  omega (arith, a.1, first, next),
                )

    -- The number of levels is limited by the number of items.
    Crowded-size :
        (s : Sketch T) (x : Exception) → IsSound s → Topped s → Crowded s x → 2 ^ 60 ≤ s.n
    Crowded-size s x h top crowd = elim top [
      | inl e ↦ absurd (omega (arith, crowd.1))
      | inr lt ↦
          let last : s.num_levels - 1 < s.num_levels = omega (arith, h.pos) in
          let i : s.num_levels - 1 + 1 ≡ s.num_levels = omega (arith, h.pos) in
          let pop : 1 ≤ s.levels (s.num_levels - 1 + 1) - s.levels (s.num_levels - 1) =
            omega (arith, ap s.levels i) in
          let one : 2 ^ (s.num_levels - 1) ≤ weight_at s.levels (s.num_levels - 1) =
            le-mul_pos (2 ^ (s.num_levels - 1))
              (s.levels (s.num_levels - 1 + 1) - s.levels (s.num_levels - 1)) pop in
          let ge : 60 ≤ s.num_levels - 1 = omega (arith, crowd.1) in
          let pow : 2 ^ 60 ≤ 2 ^ (s.num_levels - 1) = pow-le-pow_right (omega arith) ge in
          omega (
            arith,
            pow,
            one,
            le-sum_below s.num_levels (weight_at s.levels) (s.num_levels - 1) last,
            h.levels.mass,
          )
    ]

    update_min_max-size : (value : T) (s : Sketch T) → (update_min_max less sort value s).n ≡ s.n
    unfolding update_min_max
    update_min_max-size value s = ground arith

    update_min_max-IsSound :
        (value : T) (s : Sketch T) → IsSound s → IsSound (update_min_max less sort value s)
    unfolding update_min_max
    update_min_max-IsSound value s h = elim (Bool-cases (s.n == 0)) [
      | inl e ↦ simp e (record {
        pos = h.pos;
        wide = h.wide;
        levels = h.levels;
        full = h.full;
        capacity = h.capacity;
      })
      | inr e ↦ simp e (record {
        pos = h.pos;
        wide = h.wide;
        levels = h.levels;
        full = h.full;
        capacity = h.capacity;
      })
    ]

    update_min_max-Topped :
        (value : T) (s : Sketch T) → Topped s → Topped (update_min_max less sort value s)
    unfolding update_min_max
    update_min_max-Topped value s top = elim (Bool-cases (s.n == 0)) [
      | inl e ↦ simp e top
      | inr e ↦ simp e top
    ]

    -- `update` of a sketch with fewer than 2^60 items does not fail. A value that is not refused is
    -- counted, and the weight of the levels stays the number of items.
    pub update-Ends :
        (check : T → Bool) (raw : ℕ → T) (bit : ℕ) (value : T) (s : Sketch T)
        → bit ≤ 1
        → s.n < 2 ^ 60
        → IsSound s
        → Topped s
        → Ends
            (λ s'. IsSound s' × Topped s' × (s'.n ≡ (if check value then s.n + 1 else s.n)))
            (λ x. ⊥)
            (update less sort check raw bit value s)
    unfolding update insert_item
    update-Ends check raw bit value s one few h top =
        let s₀ : Sketch T = update_min_max less sort value s in
        let h₀ : IsSound s₀ = update_min_max-IsSound value s h in
        let top₀ : Topped s₀ = update_min_max-Topped value s top in
        elim (Bool-cases (check value)) [
          | inl yes_value ↦ simp yes_value (
              Ends-bind
                (λ r.
                  IsSound r.0
                  × Topped r.0
                  × (r.0.n ≡ s₀.n + 1)
                  × (r.1 ≡ r.0.levels 0)
                  × (r.1 < r.0.levels 1))
                _ (λ x. ⊥) (internal_update less sort raw bit s₀) _
                (Ends-weaken _ (Crowded s₀) (λ x. ⊥) (internal_update less sort raw bit s₀)
                  (λ x crowd. absurd (
                    omega
                      (arith, Crowded-size s₀ x h₀ top₀ crowd, update_min_max-size value s, few)))
                  (internal_update-Ends raw bit s₀ one h₀ top₀))
                λ r _ a. (
                  record {
                    pos = a.0.pos;
                    wide = a.0.wide;
                    levels = a.0.levels;
                    full = a.0.full;
                    capacity = a.0.capacity;
                  },
                  a.1,
                  omega (arith, a.2, update_min_max-size value s),
                ))
          | inr no_value ↦ simp no_value (h, top, refl)
        ]
