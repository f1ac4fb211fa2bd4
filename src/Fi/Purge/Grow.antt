-- ===== src/Fi/Purge/Grow.antt =====
-- `resize`, `resize_or_purge_if_needed` and `adjust_or_insert` against the abstract map.
use native.Mathlib.Nat.{pow-suc, add-zero, sub-zero, pow-le-pow_right}
use native.Mathlib.Numerals.{add-one}
use whylogs_datasketches.Base.{
  ℕ, zero, suc, ◌+◌, ◌-◌, ◌*◌, ◌/◌, ◌≤◌, ◌<◌, ◌^◌, ◌≡◌, ◌≢◌, refl, sym, ap, ◌∙◌, subst, Bool,
  Option, some, ◌==◌, ltb, add64, if◌then◌else◌, Ends, Ends-if, Ends-weaken, Ends-bind, Exception,
  arith, sum_below, sum_below-add_one, sum_below_zero,
}
use whylogs_datasketches.Fi.Map.{
  HashMap, KeyOps, size, new, get_capacity, internal_adjust_or_insert,
}
use whylogs_datasketches.Fi.Map.Delete.{Drifted}
use whylogs_datasketches.Fi.Map.Insert.{
  IsValid, IsValid-of, Adjusted, new-IsValid, internal_adjust_or_insert-Ends,
}
use whylogs_datasketches.Fi.Map.Table.{slot_sum, term, holds, view, weight}
use whylogs_datasketches.Fi.Map.Probing.{some→holds}
use whylogs_datasketches.Fi.Purge.{
  move_entries, resize, resize_or_purge_if_needed, adjust_or_insert_at, adjust_or_insert,
}
use whylogs_datasketches.Fi.Purge.Effect.{Purged, purge-Ends, lowered-view}

Drifted-mono : (n n' : ℕ) (x : Exception) → n ≤ n' → Drifted n x → Drifted n' x
Drifted-mono n n' x h d = record { is_drift_limit = d.is_drift_limit; long = omega arith }

module _ {K : Type 0} ⦃ops : KeyOps K⦄ where
  -- What adding `v` under `k` makes of a map that needs neither to grow nor to be purged.
  record Added (m : HashMap K) (k : K) (v : ℕ) (m' : HashMap K) : Type 0 where
    valid : IsValid m'
    views :
        (q : K)
        → view (size m) q m'
          ≡ (if ops.equal k q then add64 (view (size m) q m) v else view (size m) q m)
    weighs : weight (size m) m' ≤ weight (size m) m + v
    num : m'.num_active ≤ m.num_active + 1
    same_lg : m'.lg_cur_size ≡ m.lg_cur_size
    same_max : m'.lg_max_size ≡ m.lg_max_size

  Adjusted-Added :
      (m : HashMap K) (k : K) (v : ℕ) (b : Bool) (m' : HashMap K)
      → IsValid m
      → v < 2 ^ 64
      → m.num_active + 1 < size m
      → Adjusted m k v (b, m')
      → Added m k v m'
  Adjusted-Added m k v b m' valid small room a =
      let num : m'.num_active ≤ m.num_active + 1 = ground (arith, a.num) in
      record {
        valid =
            IsValid-of (size m) m' (ap (λ (x : ℕ). 2 ^ x) (sym a.same_lg)) a.table a.once a.counted
              (omega arith) valid.wide (λ q. ground (arith, a.views q, valid.bounded q));
        views = a.views;
        weighs = a.weighs;
        num = num;
        same_lg = a.same_lg;
        same_max = a.same_max;
      }

  -- `adjust_or_insert` while there is room.
  adjust_within :
      (depth : ℕ) (m : HashMap K) (k : K) (v : ℕ)
      → IsValid m
      → v < 2 ^ 64
      → m.num_active < get_capacity m
      → Ends
          (λ r. (r.0 ≡ 0) × Added m k v r.1)
          (Drifted (size m))
          (adjust_or_insert_at (suc depth) m k v)
  unfolding adjust_or_insert_at resize_or_purge_if_needed get_capacity
  adjust_within depth m k v valid small fits =
      Ends-bind (Adjusted m k v) (λ r. (r.0 ≡ 0) × Added m k v r.1) (Drifted (size m))
        (internal_adjust_or_insert m k v) _
        (internal_adjust_or_insert-Ends m k v valid small (omega arith))
        λ r _ a.
          let b = r.0 in
          let m' = r.1 in
          let done = Adjusted-Added m k v r.0 r.1 valid small (omega arith) a in
          Ends-if _ _ r.0 _ _
            (λ is_new.
              Ends-if _ _ (ltb (size m' * 3 / 4) m'.num_active) _ _
                (λ over. absurd (ground (arith, done.num, ap (λ (x : ℕ). 2 ^ x) done.same_lg)))
                (λ under. (refl, done)))
            (λ old. (refl, done))

  -- The new table when the old one is moved up to slot `i`.
  pub record Moved (old : HashMap K) (i : ℕ) (m : HashMap K) : Type 0 where
    valid : IsValid m
    views :
        (q : K) → view (size m) q m ≡ sum_below i (term (λ j k v. if holds q k then v else 0) old)
    weighs : weight (size m) m ≤ sum_below i (term (λ j k v. v) old)
    num : m.num_active ≤ sum_below i (term (λ j k v. 1) old)
    twice : size m ≡ size old * 2
    same_lg : m.lg_cur_size ≡ old.lg_cur_size + 1
    same_max : m.lg_max_size ≡ old.lg_max_size

  module _ (old : HashMap K) (ov : IsValid old) where
    -- A sum over the first slots is part of the sum over all.
    part-le :
        (G : ℕ → Option K → ℕ → ℕ) (i rounds : ℕ)
        → sum_below i (term G old) ≤ sum_below (i + rounds) (term G old)
    part-le G i zero = rw (add-zero i) (omega arith)
    part-le G i (suc r) = omega (
      arith,
      part-le G i r,
      sum_below-add_one (i + r) (term G old),
      ap (λ x. sum_below x (term G old)) (up i r),
    )
      where
        up : (i r : ℕ) → i + suc r ≡ i + r + 1
        up i r = omega arith

    module _ (i rounds : ℕ) (m : HashMap K) (width : i + suc rounds ≡ size old)
        (d : Moved old i m) where
      next-le :
          (G : ℕ → Option K → ℕ → ℕ) → sum_below (i + 1) (term G old) ≤ slot_sum (size old) G old
      unfolding slot_sum
      next-le G = omega (arith, part-le G (i + 1) rounds, ap (λ x. sum_below x (term G old)) full)
        where
          full : i + 1 + rounds ≡ size old
          full = omega arith

      -- A free slot adds nothing.
      skip-Moved : old.states i ≡ 0 → Moved old (i + 1) m
      skip-Moved s = record {
        valid = d.valid;
        views = λ q. ground (
          arith,
          d.views q,
          sum_below-add_one i (term (λ j k v. if holds q k then v else 0) old),
          s,
        );
        weighs = ground (arith, d.weighs, sum_below-add_one i (term (λ j k v. v) old), s);
        num = ground (arith, d.num, sum_below-add_one i (term (λ j k v. 1) old), s);
        twice = d.twice;
        same_lg = d.same_lg;
        same_max = d.same_max;
      }

      module _ (k : K) (act : old.states i ≢ 0) (key : old.keys i ≡ some k) where
        has_room : m.num_active + 1 < size old
        has_room = ground (
          arith,
          d.num,
          sum_below-add_one i (term (λ j k v. 1) old),
          next-le (λ j k v. 1),
          ov.counted,
          ov.room,
        )

        small : old.values i < 2 ^ 64
        small =
            let G = λ (j : ℕ) (k' : Option K) (v : ℕ). if holds k k' then v else 0 in
            ground (
              arith,
              key,
              some→holds k,
              act,
              next-le G,
              sum_below-add_one i (term G old),
              ov.bounded k,
            )

        add-Moved : (m' : HashMap K) → Added m k (old.values i) m' → Moved old (i + 1) m'
        add-Moved m' a =
            let same : size m ≡ size m' = ap (λ (x : ℕ). 2 ^ x) (sym a.same_lg) in
            record {
              valid = a.valid;
              views = λ q.
                  let G = λ (j : ℕ) (k' : Option K) (v : ℕ). if holds q k' then v else 0 in
                  subst (λ x. view x q m' ≡ sum_below (i + 1) (term G old)) same
                    (ground (
                      arith,
                      a.views q,
                      d.views q,
                      key,
                      act,
                      next-le G,
                      sum_below-add_one i (term G old),
                      ov.bounded q,
                    ));
              weighs =
                  subst (λ x. weight x m' ≤ sum_below (i + 1) (term (λ j k v. v) old)) same
                    (ground (
                      arith,
                      a.weighs,
                      d.weighs,
                      act,
                      sum_below-add_one i (term (λ j k v. v) old),
                    ));
              num = ground (arith, a.num, d.num, act, sum_below-add_one i (term (λ j k v. 1) old));
              twice = sym same ∙ d.twice;
              same_lg = a.same_lg ∙ d.same_lg;
              same_max = a.same_max ∙ d.same_max;
            }

    move_entries-Ends :
        (depth rounds i : ℕ) (m : HashMap K)
        → i + rounds ≡ size old
        → Moved old i m
        → Ends
            (Moved old (size old))
            (Drifted (size old * 2))
            (move_entries (adjust_or_insert_at (suc depth)) rounds i old m)
    unfolding move_entries get_capacity
    move_entries-Ends depth zero i m width d = subst (λ x. Moved old x m) (omega arith) d
    move_entries-Ends depth (suc rounds) i m width d =
        let P = Moved old (size old) in
        let Q = Drifted (size old * 2) in
        Ends-if P Q (old.states i == 0) _ _
          (λ s.
            move_entries-Ends depth rounds (i + 1) m (omega arith)
              (skip-Moved i rounds m width d (ground arith)))
          λ a.
            let act : old.states i ≢ 0 = ground arith in
            let (k, key, home_dist) = ov.table.homes i (omega arith) act in
            rw key (
              Ends-bind (λ r. (r.0 ≡ 0) × Added m k (old.values i) r.1) P Q _ _
                (subst
                  (λ x.
                    Ends (λ r. (r.0 ≡ 0) × Added m k (old.values i) r.1) (Drifted x)
                      (adjust_or_insert_at (suc depth) m k (old.values i)))
                  d.twice
                  (adjust_within depth m k (old.values i) d.valid
                    (small i rounds m width d k act key)
                    (fits i m d (has_room i rounds m width d k act key))))
                λ r _ h.
                  move_entries-Ends depth rounds (i + 1) r.1 (omega arith)
                    (add-Moved i rounds m width d k act key r.1 h.1))
      where
        fits :
            (i : ℕ) (m : HashMap K)
            → Moved old i m
            → m.num_active + 1 < size old
            → m.num_active < get_capacity m
        fits i m d room = ground (arith, d.twice, ov.wide)

  new-Moved :
      (old : HashMap K) → IsValid old → Moved old 0 (new (old.lg_cur_size + 1) old.lg_max_size)
  unfolding new
  new-Moved old ov =
      let twice : 2 ^ (old.lg_cur_size + 1) ≡ size old * 2 = rw (add-one, pow-suc) in
      let (v, views, light) =
        new-IsValid {K = K} (old.lg_cur_size + 1) old.lg_max_size (omega (arith, ov.wide)) in
      record {
        valid = v;
        views = λ q. views q ∙ sym (sum_below_zero 0 _ (λ i l. absurd (omega arith)));
        weighs = omega (arith, light);
        num = omega arith;
        twice = twice;
        same_lg = refl;
        same_max = refl;
      }

  -- `resize` ends, and keeps every lookup, in a table of twice the size.
  pub resize-Ends :
      (depth : ℕ) (old : HashMap K)
      → IsValid old
      → Ends
          (Moved old (size old))
          (Drifted (size old * 2))
          (resize (adjust_or_insert_at (suc depth)) (old.lg_cur_size + 1) old)
  unfolding resize
  resize-Ends depth old ov =
      move_entries-Ends old ov depth (size old) 0 _ (omega arith) (new-Moved old ov)

  -- The invariant between calls: the map is within its capacity and its largest size.
  pub record IsFit (m : HashMap K) : Type 0 where
    pub valid : IsValid m
    pub fits : m.num_active ≤ get_capacity m
    pub lg_le : m.lg_cur_size ≤ m.lg_max_size

  -- What `adjust_or_insert` does: the value is added under the key, and then every value loses the
  -- returned offset.
  pub record Updated (m : HashMap K) (k : K) (v : ℕ) (r : ℕ × HashMap K) : Type 0 where
    pub fit : IsFit r.1
    pub views :
        (q : K)
        → view (size r.1) q r.1
          ≡ (if ops.equal k q then add64 (view (size m) q m) v else view (size m) q m) - r.0
    pub weighs : weight (size r.1) r.1 + r.0 ≤ weight (size m) m + v
    pub same_max : r.1.lg_max_size ≡ m.lg_max_size

  module _ (m : HashMap K) (k : K) (v : ℕ) (fit : IsFit m) (small_v : v < 2 ^ 64) where
    abbrev Limit : Exception → Type 0
    Limit = Drifted (2 ^ m.lg_max_size)

    size-le : size m ≤ 2 ^ m.lg_max_size
    size-le = pow-le-pow_right (omega arith) fit.lg_le

    -- The lookups after the addition, in the table that holds it.
    Added-views :
        (m' : HashMap K) (a : Added m k v m') (q : K)
        → view (size m') q m'
          ≡ (if ops.equal k q then add64 (view (size m) q m) v else view (size m) q m)
    Added-views m' a q =
        subst
          (λ x.
            view x q m'
            ≡ (if ops.equal k q then add64 (view (size m) q m) v else view (size m) q m))
          (ap (λ (x : ℕ). 2 ^ x) (sym a.same_lg)) (a.views q)

    Added-weighs : (m' : HashMap K) → Added m k v m' → weight (size m') m' ≤ weight (size m) m + v
    Added-weighs m' a =
        subst (λ x. weight x m' ≤ weight (size m) m + v) (ap (λ (x : ℕ). 2 ^ x) (sym a.same_lg))
          a.weighs

    resized :
        (m' r : HashMap K)
        → Added m k v m'
        → m.lg_cur_size < m.lg_max_size
        → Moved m' (size m') r
        → Updated m k v (0, r)
    unfolding get_capacity slot_sum
    resized m' r a lt d =
        let av = a.valid in
        record {
          fit = record {
            valid = d.valid;
            fits = omega (arith, d.num, d.twice, av.counted, av.room, av.wide);
            lg_le = omega (arith, d.same_lg, d.same_max, a.same_lg, a.same_max);
          };
          views = λ q. d.views q ∙ Added-views m' a q ∙ sym (sub-zero _);
          weighs = omega (arith, d.weighs, Added-weighs m' a);
          same_max = d.same_max ∙ a.same_max;
        }

    purged :
        (m' : HashMap K) (r : ℕ × HashMap K)
        → Added m k v m'
        → Purged m' r
        → (r.1.num_active ≤ get_capacity r.1) × Updated m k v r
    unfolding get_capacity
    purged m' r a d =
        let l = d.lowers in
        let same : size r.1 ≡ size m' = ap (λ (x : ℕ). 2 ^ x) l.same_lg in
        let same' : size m' ≡ size m = ap (λ (x : ℕ). 2 ^ x) a.same_lg in
        let fits : r.1.num_active ≤ size r.1 * 3 / 4 =
          omega (arith, d.fewer, a.num, fit.fits, same, same') in
        (
          fits,
          record {
            fit = record {
              valid = l.valid;
              fits = fits;
              lg_le = omega (arith, l.same_lg, l.same_max, a.same_lg, a.same_max, fit.lg_le);
            };
            views = λ q.
                subst (λ x. view x q r.1 ≡ view (size m') q m' - r.0) (sym same)
                  (l.sums (λ k' w. if holds q k' then w else 0) ∙ lowered-view m' r.0 q a.valid)
                ∙ ap (λ (x : ℕ). x - r.0) (Added-views m' a q);
            weighs = omega (
              arith,
              Added-weighs m' a,
              subst (λ x. weight x r.1 + r.0 ≤ weight (size m') m') (sym same) d.weighs,
            );
            same_max = l.same_max ∙ a.same_max;
          },
        )

    -- After the addition of a new key.
    needed-Ends :
        (m' : HashMap K)
        → Added m k v m'
        → Ends (Updated m k v) Limit (resize_or_purge_if_needed (adjust_or_insert_at 1) m')
    unfolding resize_or_purge_if_needed
    needed-Ends m' a =
        let same : size m' ≡ size m = ap (λ (x : ℕ). 2 ^ x) a.same_lg in
        Ends-if (Updated m k v) Limit (ltb (get_capacity m') m'.num_active) _ _
          (λ over.
            Ends-if (Updated m k v) Limit (ltb m'.lg_cur_size m'.lg_max_size) _ _
              (λ grows.
                let lt : m.lg_cur_size < m.lg_max_size = ground (arith, a.same_lg, a.same_max) in
                let twice : 2 ^ (m.lg_cur_size + 1) ≡ size m * 2 = rw (add-one, pow-suc) in
                let bound : 2 ^ (m.lg_cur_size + 1) ≤ 2 ^ m.lg_max_size =
                  pow-le-pow_right (omega arith) (omega arith) in
                Ends-bind (Moved m' (size m')) (Updated m k v) Limit _ _
                  (Ends-weaken (Moved m' (size m')) (Drifted (size m' * 2)) Limit _
                    (λ x. Drifted-mono (size m' * 2) (2 ^ m.lg_max_size) x (omega arith))
                    (resize-Ends 0 m' a.valid))
                  (λ r _ d. resized m' r a lt d))
              (λ full.
                Ends-bind (Purged m') (Updated m k v) Limit _ _
                  (Ends-weaken (Purged m') (Drifted (size m')) Limit _
                    (λ x. Drifted-mono (size m') (2 ^ m.lg_max_size) x (omega (arith, size-le)))
                    (purge-Ends m' a.valid (ground arith)))
                  (λ r _ d.
                    let (fits, u) = purged m' r a d in
                    Ends-if (Updated m k v) Limit (ltb (get_capacity r.1) r.1.num_active) _ _
                      (λ bad. absurd (ground arith)) (λ good. u))))
          (λ under. unneeded m' a (ground arith))
      where
        unneeded :
            (m' : HashMap K)
            → Added m k v m'
            → m'.num_active ≤ get_capacity m'
            → Updated m k v (0, m')
        unneeded m' a fits = record {
          fit = record {
            valid = a.valid;
            fits = fits;
            lg_le = omega (arith, a.same_lg, a.same_max, fit.lg_le);
          };
          views = λ q. Added-views m' a q ∙ sym (sub-zero _);
          weighs = omega (arith, Added-weighs m' a);
          same_max = a.same_max;
        }

    -- `adjust_or_insert` of a value below 2^64, on a valid map that is within its capacity and its
    -- largest size, ends in one of two ways. Either it keeps these invariants, adds the value modulo
    -- 2^64 under the key and then lowers every value by the returned offset, down to no less than 0;
    -- or it throws the exception of the drift limit, which it may only if the largest size of the
    -- map is at least 1024 slots. So the checks of the capacity, before an insertion and after a
    -- purge, do not fail.
    pub adjust_or_insert-Ends : Ends (Updated m k v) Limit (adjust_or_insert m k v)
    unfolding adjust_or_insert adjust_or_insert_at get_capacity
    adjust_or_insert-Ends =
        Ends-bind (Adjusted m k v) (Updated m k v) Limit _ _
          (Ends-weaken (Adjusted m k v) (Drifted (size m)) Limit _
            (λ x. Drifted-mono (size m) (2 ^ m.lg_max_size) x size-le)
            (internal_adjust_or_insert-Ends m k v fit.valid small_v fit.fits))
          λ r _ a.
            let added =
              Adjusted-Added m k v r.0 r.1 fit.valid small_v (omega (arith, fit.fits, wide)) a in
            Ends-if (Updated m k v) Limit r.0 _ _ (λ is_new. needed-Ends r.1 added)
              (λ old. record {
                fit = record {
                  valid = added.valid;
                  fits = ground (arith, a.num, fit.fits, ap (λ (x : ℕ). 2 ^ x) a.same_lg);
                  lg_le = omega (arith, a.same_lg, a.same_max, fit.lg_le);
                };
                views = λ q. Added-views r.1 added q ∙ sym (sub-zero _);
                weighs = omega (arith, Added-weighs r.1 added);
                same_max = a.same_max;
              })
      where
        wide : 8 ≤ size m
        wide = fit.valid.wide
