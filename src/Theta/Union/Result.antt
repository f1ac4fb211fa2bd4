-- ===== src/Theta/Union/Result.antt =====
-- The result of a union.
use whylogs_datasketches.Base.{
  ℕ, zero, suc, ◌+◌, ◌^◌, ◌≤◌, ◌<◌, ◌≡◌, refl, ◌∙◌, arith, Bool, ◌&&◌, ltb, leb, ◌==◌,
  if◌then◌else◌, Bool-cases, ==_refl, ◌⊎◌, inl, inr, min, List, [], ◌∷◌, length, Option, none, some,
  Ends, Ends-bind, Ends-if, range_sum,
}
use whylogs_datasketches.Theta.Table.{
  Keyed, Table, retained_from, retained, sort_by_key, split_at_nth,
}
use whylogs_datasketches.Theta.Entries.{live, with_key}
use whylogs_datasketches.Theta.Rehash.{list_sum}
use whylogs_datasketches.Theta.Select.{
  cut, sort_by_key-sum, sort_by_key-IsSorted, Split, split_at_nth-Ends, Split-below,
}
use whylogs_datasketches.Theta.Rebuild.{size, total, whole}
use whylogs_datasketches.Theta.Insert.{cut_key}
use whylogs_datasketches.Theta.Union.{UnionState, keys_below, result_entries}
use whylogs_datasketches.Theta.Union.Update.{Unites}

-- 1 for the keys that a result with limit `theta` has to hold, among those seen.
abbrev pub wanted : (ℕ → Bool) → ℕ → ℕ → ℕ
wanted seen theta q = if ltb q theta && (ltb 0 q && seen q) then 1 else 0

module _ {E : Type 0} ⦃keyed : Keyed E⦄ where
  retained_step :
      (A : E → ℕ) (o : Option E) (rest : List E)
      → list_sum A (elim o [ none ↦ rest | some e ↦ if keyed.key e == 0 then rest else e ∷ rest ])
        ≡ live A o + list_sum A rest
  retained_step A none rest = omega arith
  retained_step A (some e) rest = ground arith

  retained_from_sum :
      (rounds i : ℕ) (A : E → ℕ) (entries : ℕ → Option E)
      → list_sum A (retained_from rounds i entries) ≡ range_sum rounds i (λ j. live A (entries j))
  unfolding retained_from range_sum
  retained_from_sum zero i A entries = refl
  retained_from_sum (suc rounds) i A entries = omega (
    arith,
    retained_step A (entries i) (retained_from rounds (i + 1) entries),
    retained_from_sum rounds (i + 1) A entries,
  )

  -- An iteration over a table passes over all its entries.
  pub retained_sum : (A : E → ℕ) (t : Table E) → list_sum A (retained t) ≡ total A t
  unfolding retained
  retained_sum A t = retained_from_sum (size t) 0 A t.entries ∙ whole (size t) A t.entries

  pub keys_below_sum :
      (theta : ℕ) (A : E → ℕ) (es : List E)
      → list_sum A (keys_below theta es) ≡ list_sum (cut theta A) es
  unfolding keys_below
  keys_below_sum theta A [] = refl
  keys_below_sum theta A (e ∷ es) = ground (arith, keys_below_sum theta A es)

  pub length_sum : (es : List E) → list_sum (λ e. 1) es ≡ length es
  length_sum [] = refl
  length_sum (e ∷ es) = omega (arith, length_sum es)

  low_keys :
      (seen : ℕ → Bool) (u : UnionState E) (q : ℕ)
      → Unites seen u
      → list_sum (with_key q) (keys_below (min u.union_theta u.table.theta) (retained u.table))
        ≡ wanted seen (min u.union_theta u.table.theta) q
  low_keys seen u q h =
      let theta : ℕ = min u.union_theta u.table.theta in
      let c = h.collects in
      elim (Bool-cases (ltb q theta)) [
        | inl lt ↦
            let in_reach : (q < u.union_theta) × (q < u.table.theta) =
              (ground arith, ground arith) in
            let held = c.holds q in_reach.0 in_reach.1 in
            ground (
              arith,
              lt,
              held,
              keys_below_sum theta (with_key q) (retained u.table),
              retained_sum (cut theta (with_key q)) u.table,
              cut_key theta q u.table,
            )
        | inr ge ↦ ground (
          arith,
          ge,
          keys_below_sum theta (with_key q) (retained u.table),
          retained_sum (cut theta (with_key q)) u.table,
          cut_key theta q u.table,
        )
      ]

  small_keys :
      (seen : ℕ → Bool) (u : UnionState E) (q : ℕ)
      → Unites seen u
      → (theta : ℕ) → theta ≡ u.union_theta
      → ((q : ℕ) → u.union_theta ≤ q → total (with_key q) u.table ≡ 0)
      → list_sum (with_key q) (retained u.table) ≡ wanted seen theta q
  small_keys seen u q h theta at absent_from = elim (Bool-cases (ltb q u.union_theta)) [
    | inl lt ↦
        let in_reach : (q < u.union_theta) × (q < u.table.theta) =
          (ground arith, ground (arith, h.theta_le)) in
        ground
          (arith, at, retained_sum (with_key q) u.table, h.collects.holds q in_reach.0 in_reach.1)
    | inr ge ↦ ground (arith, at, retained_sum (with_key q) u.table, absent_from q (ground arith))
  ]

  pub cut_key_sum :
      (limit q : ℕ) (es : List E)
      → list_sum (cut limit (with_key q)) es ≡ (if ltb q limit then list_sum (with_key q) es else 0)
  cut_key_sum limit q [] = ground arith
  cut_key_sum limit q (e ∷ es) = ground (arith, cut_key_sum limit q es)

  -- The result that `split_at_nth` leaves of the entries below `theta`.
  low_part :
      (seen : ℕ → Bool) (n theta : ℕ) (low : List E) (r : List E × E)
      → ((q : ℕ) → list_sum (with_key q) low ≡ wanted seen theta q)
      → Split n (sort_by_key low) r
      → ((q : ℕ) → list_sum (with_key q) r.0 ≡ wanted seen (keyed.key r.1) q)
        × (keyed.key r.1 < theta)
  low_part seen n theta low r keys s =
      let nth : ℕ = keyed.key r.1 in
      let sorted : (A : E → ℕ) → list_sum A (sort_by_key low) ≡ list_sum A low =
        λ A. sort_by_key-sum A low in
      let own : with_key nth r.1 ≡ 1 = ground (arith, ==_refl nth) in
      let below : nth < theta =
        ground (arith, keys nth, s.part (with_key nth), sorted (with_key nth)) in
      let cuts =
        (Split-below n (sort_by_key low) r s
          (λ q. ground (arith, sorted (with_key q), keys q))).0 in
      (
        λ q. ground (
          arith,
          cuts (with_key q),
          sorted (cut nth (with_key q)),
          cut_key_sum nth q low,
          keys q,
        ),
        below,
      )

  -- The result of a union that holds more than the nominal number of entries, or none at or past
  -- its `theta`: it consists of just the keys seen that are below the `theta` of the result.
  pub result_entries-Ends :
      (seen : ℕ → Bool) (u : UnionState E)
      → Unites seen u
      → ((2 ^ u.table.lg_nom_size < u.table.num_entries)
          ⊎ ((q : ℕ) → u.union_theta ≤ q → total (with_key q) u.table ≡ 0))
      → Ends
          (λ r.
            ((q : ℕ) → list_sum (with_key q) r.0 ≡ wanted seen r.1 q)
            × (r.1 ≤ u.union_theta)
            × (list_sum (λ e. 1) r.0 ≤ 2 ^ u.table.lg_nom_size)
            × ((r.1 ≡ u.union_theta) ⊎ (list_sum (λ e. 1) r.0 ≡ 2 ^ u.table.lg_nom_size)))
          (λ x. ⊥)
          (result_entries u)
  unfolding result_entries
  result_entries-Ends seen u h room =
      let theta : ℕ = min u.union_theta u.table.theta in
      let at : theta ≡ u.union_theta = omega (arith, h.theta_le) in
      let low : List E = keys_below theta (retained u.table) in
      Ends-if _ _ (leb theta u.union_theta && leb u.table.num_entries (2 ^ u.table.lg_nom_size)) _ _
        (λ small.
          let few : u.table.num_entries ≤ 2 ^ u.table.lg_nom_size = ground arith in
          (
            λ q.
                small_keys seen u q h theta at
                  (elim room [ inl over ↦ absurd (omega arith) | inr absent_from ↦ absent_from ]),
            omega arith,
            omega (arith, retained_sum (λ e. 1) u.table, h.collects.valid.loaded.counted),
            inl at,
          ))
        λ large.
          Ends-if _ _ (ltb (2 ^ u.table.lg_nom_size) (length low)) _ _
            (λ over.
              Ends-bind (Split (2 ^ u.table.lg_nom_size) (sort_by_key low)) _ _
                (split_at_nth (2 ^ u.table.lg_nom_size) (sort_by_key low)) _
                (split_at_nth-Ends (2 ^ u.table.lg_nom_size) (sort_by_key low)
                  (sort_by_key-IsSorted low)
                  (ground (arith, sort_by_key-sum (λ e. 1) low, length_sum low)))
                λ r _ s.
                  let (keys, below) =
                    low_part seen (2 ^ u.table.lg_nom_size) theta low r (λ q. low_keys seen u q h)
                      s in
                  (keys, omega arith, omega (arith, s.count), inr s.count))
            (λ fits.
              (λ q. low_keys seen u q h, omega arith, ground (arith, length_sum low), inl at))
