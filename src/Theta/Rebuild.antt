-- ===== src/Theta/Rebuild.antt =====
-- `resize` and `rebuild` of theta/include/theta_update_sketch_base_impl.hpp keep the table valid,
-- and what they keep of its entries.
use whylogs_datasketches.Base.{
  ℕ, ◌+◌, ◌^◌, ◌≤◌, ◌<◌, ◌≡◌, ◌≢◌, refl, ap, ◌∙◌, arith, leb, ◌==◌, if◌then◌else◌, Bool-cases, ◌⊎◌,
  inl, inr, min, List, [], ◌∷◌, ==_refl, Option, none, some, Ends, Ends-map, Ends-bind, sum_below,
  sum_below_congr, sum_below_zero, range_sum, range_sum-all,
}
use whylogs_datasketches.Theta.Table.{
  Keyed, Table, resize_loop, resize, consolidate_non_empty, read_entries, sort_by_key, split_at_nth,
  place_all, rebuild,
}
use whylogs_datasketches.Theta.Stride.{pow_lt}
use whylogs_datasketches.Theta.Entries.{live, entry_sum, with_key, Hashed, none-Hashed}
use whylogs_datasketches.Theta.Rehash.{list_sum, All, Holds, place_all-Ends, resize_loop-Ends}
use whylogs_datasketches.Theta.Select.{
  AtLeast, cut, sort_by_key-sum, sort_by_key-AtLeast, sort_by_key-IsSorted, Split,
  split_at_nth-Ends, Split-below,
}
use whylogs_datasketches.Theta.Consolidate.{
  Front, consolidate_non_empty-Front, sum_kept, read_entries-Ends,
}

module _ {E : Type 0} ⦃keyed : Keyed E⦄ where
  abbrev pub size : Table E → ℕ
  size t = 2 ^ t.lg_cur_size

  -- A measure of all entries of a table.
  abbrev pub total : (E → ℕ) → Table E → ℕ
  total A t = entry_sum (size t) A t.entries

  live_congr : (A B : E → ℕ) (o : Option E) → ((e : E) → A e ≡ B e) → live A o ≡ live B o
  live_congr A B none h = refl
  live_congr A B (some e) h = ap (λ v. if keyed.key e == 0 then 0 else v) (h e)

  live_none : (A : E → ℕ) (o : Option E) → ((e : E) → A e ≡ 0) → live A o ≡ 0
  live_none A none h = refl
  live_none A (some e) h = ground (arith, h e)

  pub whole :
      (n : ℕ) (A : E → ℕ) (entries : ℕ → Option E)
      → range_sum n 0 (λ j. live A (entries j)) ≡ entry_sum n A entries
  unfolding sum_below
  whole n A entries =
      let z : 0 + n ≡ n = omega arith in
      let same : sum_below (0 + n) (λ j. live A (entries j)) ≡ entry_sum n A entries =
        ap (λ k. entry_sum k A entries) z in
      omega (arith, range_sum-all n 0 (λ j. live A (entries j)), same)

  pub total_congr : (A B : E → ℕ) (t : Table E) → ((e : E) → A e ≡ B e) → total A t ≡ total B t
  total_congr A B t h =
      sum_below_congr (size t) (λ i. live A (t.entries i)) (λ i. live B (t.entries i))
        (λ i il. live_congr A B (t.entries i) h)

  pub total_zero : (A : E → ℕ) (t : Table E) → ((e : E) → A e ≡ 0) → total A t ≡ 0
  total_zero A t h =
      sum_below_zero (size t) (λ i. live A (t.entries i)) (λ i il. live_none A (t.entries i) h)

  none_sum : (n : ℕ) (A : E → ℕ) → entry_sum n A (λ i. none) ≡ 0
  none_sum n A = sum_below_zero n (λ i. 0) (λ i il. refl)

  pub cut-cut : (limit : ℕ) (A : E → ℕ) (e : E) → cut limit (cut limit A) e ≡ cut limit A e
  cut-cut limit A e = ground arith

  -- The entries have distinct keys, below `theta`.
  pub record Loaded (t : Table E) : Type 0 where
    pub counted : total (λ e. 1) t ≡ t.num_entries
    pub once : (q : ℕ) → total (with_key q) t ≤ 1
    pub below : (A : E → ℕ) → total (cut t.theta A) t ≡ total A t

  pub record IsValid (t : Table E) : Type 0 where
    pub hashed : Hashed t.lg_cur_size t.entries
    pub loaded : Loaded t
    pub room : t.num_entries < size t
    pub sized : 1 ≤ t.lg_cur_size

  -- What a change of representation keeps: all entries with keys below the new `theta`. The old
  -- `theta` is kept or the nominal number of entries is there.
  pub record Keeps (t t' : Table E) : Type 0 where
    pub valid : IsValid t'
    pub sums : (A : E → ℕ) → total A t' ≡ total (cut t'.theta A) t
    pub theta_le : t'.theta ≤ t.theta
    pub enough : (t'.theta ≡ t.theta) ⊎ (2 ^ t.lg_nom_size ≤ t'.num_entries)
    pub same_nom : t'.lg_nom_size ≡ t.lg_nom_size
    pub same_rf : t'.rf ≡ t.rf
    pub grown : t.lg_cur_size ≤ t'.lg_cur_size
    pub capped : t'.lg_cur_size ≤ t.lg_cur_size + t.rf
    pub same_seed : t'.seed ≡ t.seed
    pub same_empty : t'.is_empty ≡ t.is_empty

  pub resize-Ends :
      (t : Table E)
      → Loaded t
      → 1 ≤ t.lg_cur_size
      → t.lg_cur_size ≤ t.lg_nom_size
      → t.num_entries < 2 ^ min (t.lg_cur_size + t.rf) (t.lg_nom_size + 1)
      → Ends (Keeps t) (λ x. ⊥) (resize t)
  unfolding resize
  resize-Ends t l sized le room =
      let lg : ℕ = min (t.lg_cur_size + t.rf) (t.lg_nom_size + 1) in
      let all : (A : E → ℕ) → range_sum (size t) 0 (λ j. live A (t.entries j)) ≡ total A t =
        λ A. whole (size t) A t.entries in
      Ends-bind (Holds lg (λ i. none) (λ A. range_sum (size t) 0 (λ j. live A (t.entries j))))
        (Keeps t) (λ x. ⊥) (resize_loop (size t) 0 lg t.entries (λ i. none)) _
        (resize_loop-Ends (size t) 0 lg t.entries (λ i. none) (none-Hashed lg)
          (λ q. omega (arith, none_sum (2 ^ lg) (with_key q), all (with_key q), l.once q))
          (omega (arith, none_sum (2 ^ lg) (λ x. 1), all (λ x. 1), l.counted)))
        λ entries _ h.
          let sums : (A : E → ℕ) → entry_sum (2 ^ lg) A entries ≡ total A t =
            λ A. omega (arith, h.1 A, none_sum (2 ^ lg) A, all A) in
          record {
            valid = record {
              hashed = h.0;
              loaded = record {
                counted = omega (arith, sums (λ e. 1), l.counted);
                once = λ q. omega (arith, sums (with_key q), l.once q);
                below = λ A. omega (arith, sums A, sums (cut t.theta A), l.below A);
              };
              room = room;
              sized = omega arith;
            };
            sums = λ A. omega (arith, sums A, l.below A);
            theta_le = omega arith;
            enough = inl refl;
            same_nom = refl;
            same_rf = refl;
            grown = omega arith;
            capped = omega arith;
            same_seed = refl;
            same_empty = refl;
          }

  nonzero : (es : List E) → AtLeast 1 es → All (λ e. keyed.key e ≢ 0) es
  nonzero [] h = tt
  nonzero (e ∷ es) h = (omega arith, nonzero es h.1)

  own : (e : E) → with_key (keyed.key e) e ≡ 1
  own e = ground (arith, ==_refl (keyed.key e))

  cut_above : (limit k : ℕ) (e : E) → limit ≤ k → cut limit (with_key k) e ≡ 0
  cut_above limit k e le = ground arith

  -- A key that is there is below `theta`.
  below_theta : (t : Table E) → Loaded t → (k : ℕ) → 0 < total (with_key k) t → k ≤ t.theta
  below_theta t l k pos = elim (Bool-cases (leb t.theta k)) [
    | inl le ↦
        let above : t.theta ≤ k = ground arith in
        absurd (
          omega (
            arith,
            total_zero (cut t.theta (with_key k)) t (λ e. cut_above t.theta k e above),
            l.below (with_key k),
          ))
    | inr gt ↦ ground arith
  ]

  -- The entries that `nth_element` is given are those of the table.
  abbrev Read : Table E → List E → Type 0
  Read t es = ((A : E → ℕ) → list_sum A es ≡ total A t) × AtLeast 1 es

  -- `rebuild` leaves the nominal number of entries.
  abbrev pub Rebuilt : Table E → Table E → Type 0
  Rebuilt t t' = Keeps t t' × (t'.num_entries ≡ 2 ^ t.lg_nom_size)

  pub rebuild-Ends :
      (t : Table E)
      → Loaded t
      → 1 ≤ t.lg_cur_size
      → t.lg_nom_size < t.lg_cur_size
      → 2 ^ t.lg_nom_size < t.num_entries
      → t.num_entries ≤ size t
      → Ends (Rebuilt t) (λ x. ⊥) (rebuild t)
  unfolding rebuild
  rebuild-Ends t l sized lt more fits =
      let f : Front (size t) t.num_entries t.entries
          (consolidate_non_empty t.entries (size t) t.num_entries) =
        consolidate_non_empty-Front (size t) t.num_entries t.entries l.counted in
      let nominal : 2 ^ t.lg_nom_size < size t = pow_lt t.lg_nom_size t.lg_cur_size lt in
      Ends-bind (Read t) (Rebuilt t) (λ x. ⊥)
        (read_entries t.num_entries 0 (consolidate_non_empty t.entries (size t) t.num_entries)) _
        (Ends-map _ (Read t) (λ x. ⊥)
          (read_entries t.num_entries 0 (consolidate_non_empty t.entries (size t) t.num_entries))
          (λ es h. (
            λ A.
                h.0 A
                ∙ sum_kept (size t) t.num_entries A t.entries
                    (consolidate_non_empty t.entries (size t) t.num_entries) f l.counted fits,
            h.1,
          ))
          (read_entries-Ends t.num_entries 0
            (consolidate_non_empty t.entries (size t) t.num_entries)
            (λ p a b. f.filled p a (omega arith))))
        λ es _ h.
          let sorted : List E = sort_by_key es in
          let same : (A : E → ℕ) → list_sum A sorted ≡ total A t =
            λ A. sort_by_key-sum A es ∙ h.0 A in
          Ends-bind (Split (2 ^ t.lg_nom_size) sorted) (Rebuilt t) (λ x. ⊥)
            (split_at_nth (2 ^ t.lg_nom_size) sorted) _
            (split_at_nth-Ends (2 ^ t.lg_nom_size) sorted (sort_by_key-IsSorted es)
              (omega (arith, same (λ e. 1), l.counted)))
            λ r _ s.
              let once : (q : ℕ) → list_sum (with_key q) sorted ≤ 1 =
                λ q. omega (arith, same (with_key q), l.once q) in
              let (cuts, strict) = Split-below (2 ^ t.lg_nom_size) sorted r s once in
              let low = s.bounded 1 (sort_by_key-AtLeast 1 es h.1) in
              let kept : (A : E → ℕ) → list_sum A r.0 ≡ total (cut (keyed.key r.1) A) t =
                λ A. omega (arith, cuts A, same (cut (keyed.key r.1) A)) in
              Ends-bind (Holds t.lg_cur_size (λ i. none) (λ A. list_sum A r.0)) (Rebuilt t) (λ x. ⊥)
                (place_all t.lg_cur_size r.0 (λ i. none)) _
                (place_all-Ends t.lg_cur_size r.0 (λ i. none) (none-Hashed t.lg_cur_size)
                  (nonzero r.0 low.0)
                  (λ q. omega (arith, none_sum (size t) (with_key q), s.part (with_key q), once q))
                  (omega (arith, none_sum (size t) (λ e. 1), s.count)))
                λ entries _ o.
                  let sums : (A : E → ℕ)
                      → entry_sum (size t) A entries ≡ total (cut (keyed.key r.1) A) t =
                    λ A. omega (arith, o.1 A, none_sum (size t) A, kept A) in
                  (
                    record {
                      valid = record {
                        hashed = o.0;
                        loaded = record {
                          counted =
                              omega (arith, o.1 (λ e. 1), none_sum (size t) (λ e. 1), s.count);
                          once = λ q. omega (
                            arith,
                            o.1 (with_key q),
                            none_sum (size t) (with_key q),
                            s.part (with_key q),
                            once q,
                          );
                          below = λ A. omega (
                            arith,
                            sums (cut (keyed.key r.1) A),
                            sums A,
                            total_congr (cut (keyed.key r.1) (cut (keyed.key r.1) A))
                                (cut (keyed.key r.1) A) t (cut-cut (keyed.key r.1) A),
                          );
                        };
                        room = nominal;
                        sized = sized;
                      };
                      sums = sums;
                      theta_le = below_theta t l (keyed.key r.1) (
                          omega (
                            arith,
                            s.part (with_key (keyed.key r.1)),
                            same (with_key (keyed.key r.1)),
                            own r.1,
                          ));
                      enough = inr (omega arith);
                      same_nom = refl;
                      same_rf = refl;
                      grown = omega arith;
                      capped = omega arith;
                      same_seed = refl;
                      same_empty = refl;
                    },
                    refl,
                  )
