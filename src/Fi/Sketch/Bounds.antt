-- ===== src/Fi/Sketch/Bounds.antt =====
-- The error bounds of the frequent items sketch.
use whylogs_datasketches.Base.{
  ℕ, ◌+◌, ◌≤◌, ◌<◌, ◌^◌, ◌≡◌, inl, inr, refl, ap, subst, max, List, [], ◌∷◌, ◌==◌, ltb, add64,
  if◌then◌else◌, Bool-cases, Ends, Ends-if, Ends-map, Ends-bind, ok, arith, ◌>>=◌,
}
use native.Mathlib.Nat.{pow-le-pow_right}
use whylogs_datasketches.Fi.Map
use whylogs_datasketches.Fi.Map.{HashMap, KeyOps, size, get_capacity}
use whylogs_datasketches.Fi.Map.Delete.{Drifted}
use whylogs_datasketches.Fi.Map.Insert.{get-view, new-IsValid}
use whylogs_datasketches.Fi.Map.Table.{slot_sum_mono, holds, view, weight}
use whylogs_datasketches.Fi.Purge.Grow.{IsFit, Updated, adjust_or_insert-Ends}
use whylogs_datasketches.Fi.Sketch.{
  Sketch, new, update, update_all, get_lower_bound, get_upper_bound,
}

module _ {K : Type 0} where
  -- The total weight of a stream.
  unfoldable pub total : List (K × ℕ) → ℕ
  total [] = 0
  total ((item, w) ∷ rest) = w + total rest

module _ {K : Type 0} ⦃ops : KeyOps K⦄ where
  -- The true weight of an item in a stream.
  unfoldable pub frequency : K → List (K × ℕ) → ℕ
  frequency q [] = 0
  frequency q ((item, w) ∷ rest) = (if ops.equal item q then w else 0) + frequency q rest

  -- The sketch brackets the true weights `f`, of total `t`.
  pub record Tracks (f : K → ℕ) (t : ℕ) (s : Sketch K) : Type 0 where
    pub fit : IsFit s.map
    pub lower : (q : K) → view (size s.map) q s.map ≤ f q
    pub upper : (q : K) → f q ≤ view (size s.map) q s.map + s.offset
    pub total : s.total_weight ≡ t
    pub weighs : weight (size s.map) s.map + s.offset ≤ t

  view-le-weight : (n : ℕ) (q : K) (m : HashMap K) → view n q m ≤ weight n m
  view-le-weight n q m =
      slot_sum_mono n (λ i k v. if holds q k then v else 0) (λ i k v. v) m m (λ i il. ground arith)

  Updated-Tracks :
      (f : K → ℕ) (t : ℕ) (s : Sketch K) (item : K) (w : ℕ) (r : ℕ × HashMap K)
      → Tracks f t s
      → t + w < 2 ^ 64
      → Updated s.map item w r
      → Tracks
          (λ q. f q + (if ops.equal item q then w else 0))
          (t + w)
          (record { total_weight = add64 s.total_weight w; offset = add64 s.offset r.0; map = r.1 })
  Updated-Tracks f t s item w r h small u = record {
    fit = u.fit;
    lower =
        λ q. ground (arith, u.views q, h.lower q, h.weighs, view-le-weight (size s.map) q s.map);
    upper = λ q.
        ground
          (arith, u.views q, h.upper q, h.weighs, view-le-weight (size s.map) q s.map, u.weighs);
    total = omega (arith, h.total);
    weighs = omega (arith, u.weighs, h.weighs);
  }

  -- `update` keeps the bracket.
  update-Tracks :
      (f : K → ℕ) (t : ℕ) (s : Sketch K) (item : K) (w : ℕ)
      → Tracks f t s
      → t + w < 2 ^ 64
      → Ends
          (λ s'.
            Tracks (λ q. f q + (if ops.equal item q then w else 0)) (t + w) s'
            × (s'.map.lg_max_size ≡ s.map.lg_max_size))
          (Drifted (2 ^ s.map.lg_max_size))
          (update s item w)
  unfolding update
  update-Tracks f t s item w h small =
      let P = λ (s' : Sketch K).
        Tracks (λ q. f q + (if ops.equal item q then w else 0)) (t + w) s'
        × (s'.map.lg_max_size ≡ s.map.lg_max_size) in
      let Q = Drifted (2 ^ s.map.lg_max_size) in
      Ends-if P Q (w == 0) _ _
        (λ z.
          let none : w ≡ 0 = ground arith in
          (
            record {
              fit = h.fit;
              lower = λ q. ground (arith, h.lower q);
              upper = λ q. ground (arith, h.upper q, none);
              total = omega (arith, h.total);
              weighs = omega (arith, h.weighs);
            },
            refl,
          ))
        λ p.
          Ends-bind (Updated s.map item w) P Q _ _
            (adjust_or_insert-Ends s.map item w h.fit (omega arith))
            (λ r _ u. (Updated-Tracks f t s item w r h small u, u.same_max))

  -- So does a stream of updates.
  update_all-Tracks :
      (stream : List (K × ℕ)) (f : K → ℕ) (t : ℕ) (s : Sketch K)
      → Tracks f t s
      → t + total stream < 2 ^ 64
      → Ends
          (Tracks (λ q. f q + frequency q stream) (t + total stream))
          (Drifted (2 ^ s.map.lg_max_size))
          (update_all stream s)
  unfolding update_all total frequency
  update_all-Tracks [] f t s h small = record {
    fit = h.fit;
    lower = λ q. omega (arith, h.lower q);
    upper = λ q. omega (arith, h.upper q);
    total = omega (arith, h.total);
    weighs = omega (arith, h.weighs);
  }
  update_all-Tracks ((item, w) ∷ rest) f t s h small =
      let f' = λ (q : K). f q + (if ops.equal item q then w else 0) in
      let Q = Drifted (2 ^ s.map.lg_max_size) in
      Ends-bind (λ s'. Tracks f' (t + w) s' × (s'.map.lg_max_size ≡ s.map.lg_max_size))
        (Tracks (λ q. f q + ((if ops.equal item q then w else 0) + frequency q rest))
          (t + (w + total rest)))
        Q (update s item w) (update_all rest) (update-Tracks f t s item w h (omega arith))
        λ s' _ d.
          subst
            (λ x.
              Ends
                (Tracks (λ q. f q + ((if ops.equal item q then w else 0) + frequency q rest))
                  (t + (w + total rest)))
                (Drifted (2 ^ x)) (update_all rest s'))
            d.1
            (Ends-map (Tracks (λ q. f' q + frequency q rest) (t + w + total rest))
              (Tracks (λ q. f q + ((if ops.equal item q then w else 0) + frequency q rest))
                (t + (w + total rest)))
              (Drifted (2 ^ s'.map.lg_max_size)) (update_all rest s')
              (λ s'' e. record {
                fit = e.fit;
                lower = λ q. omega (arith, e.lower q);
                upper = λ q. omega (arith, e.upper q);
                total = omega (arith, e.total);
                weighs = omega (arith, e.weighs);
              })
              (update_all-Tracks rest f' (t + w) s' d.0 (omega arith)))

  -- What a user reads: the bounds of every item bracket its true weight `f`, and differ by the
  -- maximum error, which is no more than the total weight `t`.
  pub record Brackets (f : K → ℕ) (t : ℕ) (s : Sketch K) : Type 0 where
    pub bounds :
        (q : K)
        → (lb ub : ℕ) × (get_lower_bound s q ≡ ok lb)
          × (get_upper_bound s q ≡ ok ub)
          × (lb ≤ f q)
          × (f q ≤ ub)
          × (ub ≡ lb + s.offset)
    pub total : s.total_weight ≡ t
    pub error-le : s.offset ≤ t

  Tracks-Brackets : (f : K → ℕ) (t : ℕ) (s : Sketch K) → t < 2 ^ 64 → Tracks f t s → Brackets f t s
  unfolding get_lower_bound get_upper_bound
  Tracks-Brackets f t s small h = record {
    bounds = λ q.
        let v = view (size s.map) q s.map in
        let fits : v + s.offset < 2 ^ 64 =
          omega (arith, h.weighs, view-le-weight (size s.map) q s.map) in
        (
          v,
          v + s.offset,
          get-view s.map q h.fit.valid,
          rw (get-view s.map q h.fit.valid) (ap ok (omega arith)),
          h.lower q,
          h.upper q,
          refl,
        );
    total = h.total;
    error-le = omega (arith, h.weighs);
  }

  new-Tracks :
      (lg lg_max : ℕ)
      → 3 ≤ lg
      → lg ≤ lg_max
      → Tracks (λ q. 0) 0 (record { total_weight = 0; offset = 0; map = Map.new lg lg_max })
  unfolding Map.new get_capacity
  new-Tracks lg lg_max three le =
      let wide : 2 ^ 3 ≤ 2 ^ lg = pow-le-pow_right (omega arith) three in
      let (v, views, light) = new-IsValid {K = K} lg lg_max wide in
      record {
        fit = record { valid = v; fits = omega arith; lg_le = le };
        lower = λ q. omega (arith, views q);
        upper = λ q. omega arith;
        total = refl;
        weighs = omega (arith, light);
      }

  -- A sketch that was fed a stream, of total weight below 2^64, brackets the weight of each item.
  -- An update throws only by the drift limit, where the largest map has at least 1024 slots.
  pub stream-Brackets :
      (lg_max lg_start : ℕ) (stream : List (K × ℕ))
      → lg_start ≤ lg_max
      → total stream < 2 ^ 64
      → Ends
          (Brackets (λ q. frequency q stream) (total stream))
          (Drifted (2 ^ max lg_max 3))
          (new lg_max lg_start >>= update_all stream)
  unfolding new Map.new
  stream-Brackets lg_max lg_start stream le small = elim (Bool-cases (ltb lg_max lg_start)) [
    | inl bad ↦ absurd (ground arith)
    | inr good ↦
        let fresh : Sketch K = record {
          total_weight = 0;
          offset = 0;
          map = Map.new (max lg_start 3) (max lg_max 3);
        } in
        let start : Tracks (λ q. 0) 0 fresh =
          new-Tracks (max lg_start 3) (max lg_max 3) (omega arith) (omega arith) in
        rw good (
          Ends-map (Tracks (λ q. 0 + frequency q stream) (0 + total stream))
            (Brackets (λ q. frequency q stream) (total stream)) (Drifted (2 ^ max lg_max 3)) _
            (λ s h.
              Tracks-Brackets (λ q. frequency q stream) (total stream) s small
                (record {
                  fit = h.fit;
                  lower = λ q. omega (arith, h.lower q);
                  upper = λ q. omega (arith, h.upper q);
                  total = omega (arith, h.total);
                  weighs = omega (arith, h.weighs);
                }))
            (update_all-Tracks stream (λ q. 0) 0 fresh start (omega arith)))
  ]
