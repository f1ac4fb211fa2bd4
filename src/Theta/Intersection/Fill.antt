-- ===== src/Theta/Intersection/Fill.antt =====
-- The loops of the intersection that fill a table.
use native.Mathlib.Nat.{pow-le-pow_right}
use whylogs_datasketches.Base.{
  ℕ, ◌+◌, ◌^◌, ◌≤◌, ◌<◌, ◌≡◌, ◌≢◌, refl, ap, subst, sym, ◌∙◌, arith, Bool, true, false, ◌&&◌,
  ==_refl, inl, inr, List, [], ◌∷◌, Option, none, some, sum_below_mono, invalid_argument, Ends,
  Ends-map, Ends-bind, Ends-throw_if,
}
use whylogs_datasketches.Theta.Table.{Keyed, Table, find, insert}
use whylogs_datasketches.Theta.Probing.{Found}
use whylogs_datasketches.Theta.Entries.{live, with_key, there, Put, Put-of_probe}
use whylogs_datasketches.Theta.Rehash.{list_sum, All}
use whylogs_datasketches.Theta.Rebuild.{size, total, IsValid}
use whylogs_datasketches.Theta.Select.{cut}
use whylogs_datasketches.Theta.Insert.{Inserts, insert-Put, find-Ends, cut_below}
use whylogs_datasketches.Theta.Intersection.{fill}

module _ {E : Type 0} ⦃keyed : Keyed E⦄ where
  -- A table of 2^lg slots that keeps its size and holds entries below `theta`.
  pub record Roomy (lg theta : ℕ) (t : Table E) : Type 0 where
    pub valid : IsValid t
    pub same_nom : t.lg_nom_size ≡ lg
    pub wide : lg ≤ t.lg_cur_size
    pub narrow : t.lg_cur_size ≤ lg
    pub fixed : t.rf ≡ 0
    pub same_theta : t.theta ≡ theta

  -- The table with the entries of a measure in addition.
  pub record Filled (added : (E → ℕ) → ℕ) (t t' : Table E) : Type 0 where
    pub sums : (A : E → ℕ) → total A t' ≡ total A t + added A
    pub same_seed : t'.seed ≡ t.seed
    pub same_empty : t'.is_empty ≡ t.is_empty

  pub key_count : (e : E) → with_key (keyed.key e) e ≡ 1
  key_count e = ground (arith, ==_refl (keyed.key e))

  live-cut : (limit : ℕ) (A : E → ℕ) (o : Option E) → live (cut limit A) o ≤ live A o
  live-cut limit A none = omega arith
  live-cut limit A (some e) = ground arith

  total_cut : (limit : ℕ) (A : E → ℕ) (t : Table E) → total (cut limit A) t ≤ total A t
  total_cut limit A t =
      sum_below_mono (size t) (λ i. live (cut limit A) (t.entries i)) (λ i. live A (t.entries i))
        (λ i il. live-cut limit A (t.entries i))

  -- One entry into a table that has room for it, so that nothing is cut off.
  Roomy-insert :
      (lg theta : ℕ) (t t' : Table E) (e : E)
      → keyed.key e < theta
      → t.num_entries + 1 < 2 ^ lg
      → Roomy lg theta t
      → Inserts t e t'
      → Roomy lg theta t' × Filled (λ A. A e) t t'
  Roomy-insert lg theta t t' e lt room r i =
      let few : total (cut t'.theta (λ x. 1)) t ≤ total (λ x. 1) t =
        total_cut t'.theta (λ x. 1) t in
      let one : cut t'.theta (λ x. 1) e ≤ 1 = ground arith in
      let count : t'.num_entries ≤ t.num_entries + 1 =
        omega (arith, i.valid.loaded.counted, i.sums (λ x. 1), r.valid.loaded.counted, few, one) in
      let nominal : 2 ^ t.lg_nom_size ≡ 2 ^ lg = ap (λ k. 2 ^ k) r.same_nom in
      let kept : t'.theta ≡ t.theta = elim i.enough [
        | inl same ↦ same
        | inr full ↦ absurd (omega (arith, nominal, count, full))
      ] in
      let in_reach : keyed.key e < t'.theta = omega (arith, kept, r.same_theta) in
      (
        record {
          valid = i.valid;
          same_nom = i.same_nom ∙ r.same_nom;
          wide = omega (arith, i.grown, r.wide);
          narrow = omega (arith, i.capped, r.narrow, r.fixed);
          fixed = i.same_rf ∙ r.fixed;
          same_theta = kept ∙ r.same_theta;
        },
        record {
          sums = λ A.
              let all : total (cut t'.theta A) t ≡ total A t =
                subst (λ k. total (cut k A) t ≡ total A t) (sym kept) (r.valid.loaded.below A) in
              omega (arith, i.sums A, all, cut_below t'.theta A e in_reach);
          same_seed = i.same_seed;
          same_empty = i.same_empty;
        },
      )

  -- A key that the table does not hold is not found.
  missing_key :
      (t : Table E) (e : E) (f : ℕ × Bool)
      → keyed.key e ≢ 0
      → total (with_key (keyed.key e)) t ≡ 0
      → Found t.lg_cur_size t.entries (keyed.key e) f
      → f.1 ≡ false
  missing_key t e (it, true) nz new found =
      absurd (omega (arith, new, there t.lg_cur_size t.entries (keyed.key e) it nz found))
  missing_key t e (it, false) nz new found = refl

  Put-missing :
      (t : Table E) (e : E) (f : ℕ × Bool)
      → keyed.key e ≢ 0
      → IsValid t
      → f.1 ≡ false
      → Found t.lg_cur_size t.entries (keyed.key e) f
      → Put t.lg_cur_size e t.entries f
  Put-missing t e (it, true) nz v missing found = absurd (ground (arith, missing))
  Put-missing t e (it, false) nz v missing found =
      Put-of_probe t.lg_cur_size t.entries e it nz v.hashed found

  -- `fill` with new keys below `theta`, into a table that has room for all of them.
  pub fill-Ends :
      (strict : Bool) (lg theta : ℕ) (es : List E) (t : Table E)
      → All (λ e. (keyed.key e ≢ 0) × (keyed.key e < theta)) es
      → ((q : ℕ) → total (with_key q) t + list_sum (with_key q) es ≤ 1)
      → t.num_entries + list_sum (λ e. 1) es < 2 ^ lg
      → Roomy lg theta t
      → Ends
          (λ t'. Roomy lg theta t' × Filled (λ A. list_sum A es) t t')
          (λ x. ⊥)
          (fill strict es t)
  unfolding fill
  fill-Ends strict lg theta [] t low once room r =
      (r, record { sums = λ A. omega arith; same_seed = refl; same_empty = refl })
  fill-Ends strict lg theta (e ∷ es) t low once room r =
      let nominal : 2 ^ lg ≤ 2 ^ t.lg_cur_size = pow-le-pow_right (omega arith) r.wide in
      let new : total (with_key (keyed.key e)) t ≡ 0 =
        omega (arith, once (keyed.key e), key_count e) in
      Ends-bind (Found t.lg_cur_size t.entries (keyed.key e)) _ (λ x. ⊥) (find t (keyed.key e)) _
        (find-Ends t (keyed.key e) r.valid)
        λ f _ found.
          let missing : f.1 ≡ false = missing_key t e f low.0.0 new found in
          Ends-throw_if _ (λ x. ⊥) (strict && f.1) invalid_argument _
            (λ dup. absurd (ground (arith, missing)))
            λ fresh.
              Ends-bind (Inserts t e) _ (λ x. ⊥) (insert t f.0 e) _
                (insert-Put t e f r.valid (inr (inr (omega (arith, nominal))))
                  (omega (arith, low.0.1, r.same_theta)) new
                  (Put-missing t e f low.0.0 r.valid missing found))
                λ t' _ i.
                  let (r', one) = Roomy-insert lg theta t t' e low.0.1 (omega arith) r i in
                  Ends-map (λ u. Roomy lg theta u × Filled (λ A. list_sum A es) t' u) _ (λ x. ⊥)
                    (fill strict es t')
                    (λ u h. (
                      h.0,
                      record {
                        sums = λ A. omega (arith, h.1.sums A, one.sums A);
                        same_seed = h.1.same_seed ∙ one.same_seed;
                        same_empty = h.1.same_empty ∙ one.same_empty;
                      },
                    ))
                    (fill-Ends strict lg theta es t' low.1
                      (λ q. omega (arith, one.sums (with_key q), once q))
                      (omega (
                        arith,
                        r'.valid.loaded.counted,
                        one.sums (λ x. 1),
                        r.valid.loaded.counted,
                        room,
                      ))
                      r')
