-- ===== src/Kll/Sketch/Growth.antt =====
-- The capacities of the levels of the sketch, as the number of levels grows.
use whylogs_datasketches.Base.{
  ℕ, zero, suc, ◌+◌, ◌-◌, ◌≤◌, ◌<◌, ◌≡◌, refl, ap, ◌∙◌, arith, leb, Outcome, ok, throws, Ends,
  Ends-if, value_of_Ends, ◌>>=◌,
}
use whylogs_datasketches.Kll.Capacity.{
  level_capacity, level_capacity-Ends, capacity_loop, compute_total_capacity,
}
use whylogs_datasketches.Kll.Sketch.{Sketch, find_level_loop, find_level_to_compact}

-- The capacity of a level depends on its distance from the top one.
capacity_shift : (k num h m : ℕ) → level_capacity k (num + 1) (h + 1) m ≡ level_capacity k num h m
unfolding level_capacity
capacity_shift k num h m =
    let depth : num + 1 - (h + 1) - 1 ≡ num - h - 1 = omega arith in
    let test : leb (num + 1) (h + 1) ≡ leb num h = ground arith in rw (test, depth) refl

ok_inj : (a b : ℕ) → ok a ≡ ok b → a ≡ b
ok_inj a b e = cc

-- The first part of a chain that ends well.
pub bind_ok :
    {A B : Type 0} (r : Outcome A) (f : A → Outcome B) (b : B)
    → (r >>= f) ≡ ok b
    → (a : A) × (r ≡ ok a) × (f a ≡ ok b)
bind_ok (ok a) f b e = (a, refl, e)
bind_ok (throws x) f b e = absurd (cc)

capacity_loop-shift :
    (rounds h t d c k m num : ℕ)
    → capacity_loop rounds h t k m num ≡ ok c
    → capacity_loop rounds (h + 1) (t + d) k m (num + 1) ≡ ok (c + d)
unfolding capacity_loop
capacity_loop-shift zero h t d c k m num e =
    let same : t ≡ c = ok_inj t c e in ap (λ x. ok (x + d)) same
capacity_loop-shift (suc rounds) h t d c k m num e =
    let (cap, at, rest) =
      bind_ok (level_capacity k num h m) (λ cap. capacity_loop rounds (h + 1) (t + cap) k m num) c
        e in
    let order : t + d + cap ≡ t + cap + d = omega arith in
    rw (capacity_shift k num h m, at, order)
      (capacity_loop-shift rounds (h + 1) (t + cap) d c k m num rest)

-- A new level at the bottom adds its capacity.
pub compute_total_capacity-grown :
    (k m num c d : ℕ)
    → compute_total_capacity k m num ≡ ok c
    → level_capacity k (num + 1) 0 m ≡ ok d
    → compute_total_capacity k m (num + 1) ≡ ok (c + d)
unfolding compute_total_capacity capacity_loop
compute_total_capacity-grown k m num c d e at =
    let one_more : num + 1 ≡ suc num = omega arith in
    ap (λ r. capacity_loop r 0 0 k m (num + 1)) one_more
    ∙ rw at (capacity_loop-shift num 0 0 d c k m num e)

module _ {T : Type 0} where
  -- A level that is full, where all levels from `level` on are larger than their capacities.
  find_level_loop-Ends :
      (rounds level t : ℕ) (s : Sketch T)
      → level + rounds ≡ s.num_levels
      → capacity_loop rounds level t s.k s.m s.num_levels ≡ ok (s.levels s.num_levels)
      → s.levels level < t
      → Ends
          (λ l. (l < s.num_levels) × (s.m ≤ s.levels (l + 1) - s.levels l))
          (λ x. ⊥)
          (find_level_loop rounds level s)
  unfolding find_level_loop capacity_loop
  find_level_loop-Ends zero level t s eq e lt =
      let total : t ≡ s.levels s.num_levels = ok_inj t (s.levels s.num_levels) e in
      let last : level ≡ s.num_levels = omega arith in
      let here : s.levels level ≡ s.levels s.num_levels = ap s.levels last in absurd (omega arith)
  find_level_loop-Ends (suc rounds) level t s eq e lt =
      let (cap, at, rest) =
        bind_ok (level_capacity s.k s.num_levels level s.m)
          (λ cap. capacity_loop rounds (level + 1) (t + cap) s.k s.m s.num_levels)
          (s.levels s.num_levels) e in
      let wide : s.m ≤ cap =
        (value_of_Ends _ _ (level_capacity s.k s.num_levels level s.m) cap
          (level_capacity-Ends s.k s.num_levels level s.m (omega arith)) at).0 in
      rw at (
        Ends-if _ _ (leb cap (s.levels (level + 1) - s.levels level)) _ _
          (λ full. (omega arith, ground arith))
          (λ small.
            find_level_loop-Ends rounds (level + 1) (t + cap) s (omega arith) rest (ground arith)))

  find_first :
      (rounds : ℕ) (s : Sketch T)
      → rounds ≡ s.num_levels
      → 1 ≤ s.num_levels
      → s.levels 0 ≡ 0
      → capacity_loop rounds 0 0 s.k s.m s.num_levels ≡ ok (s.levels s.num_levels)
      → Ends
          (λ l. (l < s.num_levels) × (s.m ≤ s.levels (l + 1) - s.levels l))
          (λ x. ⊥)
          (find_level_loop rounds 0 s)
  unfolding find_level_loop capacity_loop
  find_first zero s eq pos full e = absurd (omega arith)
  find_first (suc rounds) s eq pos full e =
      let (cap, at, rest) =
        bind_ok (level_capacity s.k s.num_levels 0 s.m)
          (λ cap. capacity_loop rounds 1 (0 + cap) s.k s.m s.num_levels) (s.levels s.num_levels)
          e in
      let wide : s.m ≤ cap =
        (value_of_Ends _ _ (level_capacity s.k s.num_levels 0 s.m) cap
          (level_capacity-Ends s.k s.num_levels 0 s.m (omega arith)) at).0 in
      rw at (
        Ends-if _ _ (leb cap (s.levels 1 - s.levels 0)) _ _ (λ full. (omega arith, ground arith))
          (λ small. find_level_loop-Ends rounds 1 (0 + cap) s (omega arith) rest (ground arith)))

  -- In a full sketch some level has reached its capacity.
  pub find_level_to_compact-Ends :
      (s : Sketch T)
      → 1 ≤ s.num_levels
      → s.levels 0 ≡ 0
      → compute_total_capacity s.k s.m s.num_levels ≡ ok (s.levels s.num_levels)
      → Ends
          (λ l. (l < s.num_levels) × (s.m ≤ s.levels (l + 1) - s.levels l))
          (λ x. ⊥)
          (find_level_to_compact s)
  unfolding find_level_to_compact compute_total_capacity
  find_level_to_compact-Ends s pos full e = find_first s.num_levels s refl pos full e
