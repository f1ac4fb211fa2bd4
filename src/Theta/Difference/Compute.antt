-- ===== src/Theta/Difference/Compute.antt =====
-- `compute` of the difference, for ordered sketches.
use whylogs_datasketches.Base.{
  ℕ, ◌≤◌, ◌<◌, ◌≡◌, ◌≢◌, refl, ap, ◌∙◌, arith, Bool, true, false, not, ◌&&◌, ◌||◌, ltb, ◌==◌,
  if◌then◌else◌, Bool-cases, ◌⊎◌, inl, inr, min, List, [], ◌∷◌, invalid_argument, Ends, Ends-if,
  Ends-throw_if, Ends-bind, Ends-no_error,
}
use whylogs_datasketches.Theta.Table.{Keyed, sort_by_key}
use whylogs_datasketches.Theta.Entries.{with_key}
use whylogs_datasketches.Theta.Rehash.{list_sum, All}
use whylogs_datasketches.Theta.Select.{sort_by_key-sum}
use whylogs_datasketches.Theta.Sketch.{Sketch, compact, compact_of}
use whylogs_datasketches.Theta.Union.{keys_below}
use whylogs_datasketches.Theta.Union.Update.{elem_key}
use whylogs_datasketches.Theta.Union.Result.{keys_below_sum, cut_key_sum}
use whylogs_datasketches.Theta.Intersection.Update.{IsExact, no_key}
use whylogs_datasketches.Theta.Difference.{set_difference, difference_entries, compute_difference}
use whylogs_datasketches.Theta.Difference.Ordered.{set_difference-keys}

module _ {E : Type 0} ⦃keyed : Keyed E⦄ where
  -- 1 for the keys of the first sketch below `theta` that the second one does not have.
  abbrev pub remains : Sketch E → Sketch E → ℕ → ℕ → ℕ
  remains a b theta q =
      if elem_key q b.entries
      then 0
      else (if ltb q theta then list_sum (with_key q) a.entries else 0)

  below_keys :
      (theta q : ℕ) (es : List E)
      → list_sum (with_key q) (keys_below theta es)
        ≡ (if ltb q theta then list_sum (with_key q) es else 0)
  below_keys theta q es = keys_below_sum theta (with_key q) es ∙ cut_key_sum theta q es

  past_theta :
      (theta q : ℕ) (es : List E)
      → All (λ e. (keyed.key e ≢ 0) × (keyed.key e < theta)) es
      → theta ≤ q
      → list_sum (with_key q) es ≡ 0
  past_theta theta q [] low le = refl
  past_theta theta q (e ∷ es) low le = ground (arith, low.0, past_theta theta q es low.1 le)

  difference_entries-Ends :
      (theta : ℕ) (a b : Sketch E)
      → IsExact a
      → IsExact b
      → a.is_ordered ≡ true
      → b.is_ordered ≡ true
      → Ends
          (λ es. (q : ℕ) → list_sum (with_key q) es ≡ remains a b theta q)
          (λ x. ⊥)
          (difference_entries theta a b)
  unfolding difference_entries
  difference_entries-Ends theta a b xa xb oa ob =
      Ends-if (λ es. (q : ℕ) → list_sum (with_key q) es ≡ remains a b theta q) (λ x. ⊥)
        (b.num_retained == 0) _ _
        (λ none q. ground (arith, below_keys theta q a.entries, no_key q b xb (inr (ground arith))))
        (λ some_there.
          Ends-if (λ es. (q : ℕ) → list_sum (with_key q) es ≡ remains a b theta q) (λ x. ⊥)
            (a.is_ordered && b.is_ordered) _ _
            (λ both q. ground (
              arith,
              below_keys theta q (set_difference a.entries b.entries),
              set_difference-keys a.entries b.entries q (xa.sketch.sorted oa) (xb.sketch.sorted ob)
                  (xa.distinct q),
            ))
            (λ other. absurd (ground (arith, other, oa, ob))))

  maybe_sorted :
      (A : E → ℕ) (sorting : Bool) (es : List E)
      → list_sum A (if sorting then sort_by_key es else es) ≡ list_sum A es
  maybe_sorted A true es = sort_by_key-sum A es
  maybe_sorted A false es = refl

  -- The first sketch as it is.
  taken_whole :
      (a b : Sketch E) (sorting : Bool)
      → IsExact a
      → IsExact b
      → (a.is_empty || b.is_empty) ≡ true
      → (q : ℕ)
      → list_sum
          (with_key q)
          (if a.is_empty then [] else (if sorting then sort_by_key a.entries else a.entries))
        ≡ remains a b a.theta q
  taken_whole a b sorting xa xb one_empty q =
      let high : a.theta ≤ q → list_sum (with_key q) a.entries ≡ 0 =
        past_theta a.theta q a.entries xa.low in
      elim (Bool-cases a.is_empty) [
        | inl none ↦
            let gone : list_sum (with_key q) a.entries ≡ 0 =
              ap (list_sum (with_key q)) (xa.sketch.none_if_empty none) in
            simp none (ground (arith, gone))
        | inr full ↦
            let out : elem_key q b.entries ≡ false =
              no_key q b xb (inl (ground (arith, one_empty, full))) in
            let kept : list_sum (with_key q) a.entries ≡ remains a b a.theta q =
              ground (arith, out, high) in
            simp full (maybe_sorted (with_key q) sorting a.entries ∙ kept)
      ]

  -- The difference of two ordered sketches: it throws only if neither is empty and a seed hash is
  -- another one; otherwise it retains just the keys of the first sketch that the second one does
  -- not have and that are below the result's `theta`.
  pub compute_difference-Ends :
      (seed_hash : ℕ) (a b : Sketch E) (ordered : Bool)
      → IsExact a
      → IsExact b
      → a.is_ordered ≡ true
      → b.is_ordered ≡ true
      → Ends
          (λ r.
            ((q : ℕ) → list_sum (with_key q) r.entries ≡ remains a b r.theta q)
            × (((a.is_empty || b.is_empty) ≡ true) × (r.theta ≡ a.theta)
                ⊎ (r.theta ≡ min a.theta b.theta)))
          (λ x. (x ≡ invalid_argument) × ((a.seed_hash ≢ seed_hash) ⊎ (b.seed_hash ≢ seed_hash)))
          (compute_difference seed_hash a b ordered)
  unfolding compute_difference compact compact_of
  compute_difference-Ends seed_hash a b ordered xa xb oa ob =
      Ends-if _ _ (a.is_empty || (ltb 0 a.num_retained && b.is_empty)) _ _
        (λ early. (
          λ q. taken_whole a b (ordered && not a.is_ordered) xa xb (ground (arith, early)) q,
          inl (ground (arith, early), refl),
        ))
        λ late.
          Ends-throw_if _ _ (not (a.seed_hash == seed_hash)) invalid_argument _
            (λ e. (refl, inl (ground arith)))
            λ same_a.
              Ends-throw_if _ _ (not (b.seed_hash == seed_hash)) invalid_argument _
                (λ e. (refl, inr (ground arith)))
                λ same_b.
                  Ends-bind
                    (λ es. (q : ℕ) → list_sum (with_key q) es ≡ remains a b (min a.theta b.theta) q)
                    _ _ (difference_entries (min a.theta b.theta) a b) _
                    (Ends-no_error
                      (λ es.
                        (q : ℕ) → list_sum (with_key q) es ≡ remains a b (min a.theta b.theta) q)
                      _ (difference_entries (min a.theta b.theta) a b)
                      (difference_entries-Ends (min a.theta b.theta) a b xa xb oa ob))
                    λ es _ keys. (
                      λ q. maybe_sorted (with_key q) (ordered && not a.is_ordered) es ∙ keys q,
                      inr refl,
                    )
