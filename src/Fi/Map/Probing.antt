-- ===== src/Fi/Map/Probing.antt =====
-- The two searches for a key: `get`, and the loop of `internal_adjust_or_insert`.
use native.Mathlib.Decide.{ℕ_discrete}
use whylogs_datasketches.Base.{
  ℕ, zero, suc, ◌+◌, ◌≤◌, ◌<◌, ◌≡◌, ◌≢◌, ◌⊎◌, inl, inr, refl, sym, subst, ◌∙◌, ==_ne, true, Option,
  none, some, ◌==◌, leb, if◌then◌else◌, Bool-cases, Ends, Ends-if, Ends-map, eq_of_Ends, ok,
  sum_below_single, sum_below_zero, sum_below_two, arith,
}
use whylogs_datasketches.Base.Cyclic.{dist, next, next-cases, next-lt}
use whylogs_datasketches.Fi.Map.{
  HashMap, KeyOps, Probe, found, vacant, home, home-lt, get_loop, get, probe_loop, probe,
  drift_limit, size,
}
use whylogs_datasketches.Fi.Map.Delete.{Drifted}
use whylogs_datasketches.Fi.Map.Table.{IsTable, slot_sum, term, holds, occurrences, view}

module _ {K : Type 0} ⦃ops : KeyOps K⦄ where
  pub holds→some : (k : K) (o : Option K) → holds k o ≡ true → o ≡ some k
  holds→some k none h = cc
  holds→some k (some k') h = ground (arith, ops.equal_iff k' k)

  pub some→holds : (k : K) → holds k (some k) ≡ true
  some→holds k = ground (arith, ops.equal_iff k k)

  -- Where a search for `k` may end.
  abbrev pub Stored : ℕ → HashMap K → K → ℕ → Type 0
  Stored n m k i = (i < n) × (m.states i ≢ 0) × (m.keys i ≡ some k)

  abbrev pub Absent : ℕ → HashMap K → K → Type 0
  Absent n m k = (j : ℕ) → j < n → m.states j ≢ 0 → m.keys j ≢ some k

  pub view-Stored :
      (n : ℕ) (m : HashMap K) (k : K) (i : ℕ)
      → occurrences n k m ≤ 1
      → Stored n m k i
      → view n k m ≡ m.values i
  unfolding slot_sum
  view-Stored n m k i once (il, act, key) =
      let counted : term (λ j k' v. if holds k k' then 1 else 0) m i ≡ 1 =
        rw (key, some→holds k, ==_ne _ _ act) in
      let valued : term (λ j k' v. if holds k k' then v else 0) m i ≡ m.values i =
        rw (key, some→holds k, ==_ne _ _ act) in
      sum_below_single n _ i il (λ j jl ne.
        let two =
          sum_below_two n (term (λ j k' v. if holds k k' then 1 else 0) m) i j il jl
            (λ e. ne (sym e)) in
        ground (arith, two, once, counted))
      ∙ valued

  -- Any measure of the values under a key that is not stored is 0.
  pub Absent-sum :
      (n : ℕ) (m : HashMap K) (k : K) (F : ℕ → ℕ)
      → Absent n m k
      → slot_sum n (λ i k' v. if holds k k' then F v else 0) m ≡ 0
  unfolding slot_sum
  Absent-sum n m k F none_here = sum_below_zero n _ (λ j jl.
      elim (Bool-cases (holds k (m.keys j))) [
        | inl e ↦ ground (arith, none_here j jl, holds→some k (m.keys j))
        | inr e ↦ ground arith
      ])

  -- The slots from the home of `k` up to `i` are active and hold other keys.
  record Passed (n : ℕ) (m : HashMap K) (k : K) (i : ℕ) : Type 0 where
    index_lt : i < n
    before :
        (x : ℕ)
        → x < n
        → dist n (home n k) x < dist n (home n k) i
        → (m.states x ≢ 0) × (m.keys x ≢ some k)

  Passed-home : (n : ℕ) (m : HashMap K) (k : K) → 0 < n → Passed n m k (home n k)
  Passed-home n m k pos = record {
    index_lt = home-lt n k pos;
    before = λ x xl near. absurd (ground (arith, home-lt n k pos));
  }

  module _ (n e : ℕ) (m : HashMap K) (k : K) (t : IsTable n m) (el : e < n)
      (free : m.states e ≡ 0) where
    stop-Absent : (i : ℕ) → Passed n m k i → m.states i ≡ 0 → Absent n m k
    stop-Absent i p i_free j jl act key =
        let (k', key', d) = t.homes j jl act in
        let same : k' ≡ k = ground (arith, key, key') in
        let d' : dist n (home n k) j + 1 ≡ m.states j =
          subst (λ x. dist n (home n x) j + 1 ≡ m.states j) same d in
        ground (arith, p.before j jl, t.paths i j p.index_lt jl, p.index_lt, home-lt n k el, d')

    -- The free slot is ahead.
    ahead : (i : ℕ) → Passed n m k i → m.states i ≢ 0 → dist n (home n k) i < dist n (home n k) e
    ahead i p act =
        let ne : i ≢ e = λ eq. act (subst (λ x. m.states x ≡ 0) (sym eq) free) in
        ground (arith, p.before e el, p.index_lt, home-lt n k el)

    -- A round that goes on.
    next-Passed :
        (i : ℕ)
        → Passed n m k i
        → m.states i ≢ 0
        → m.keys i ≢ some k
        → Passed n m k (next n i) × (dist n (home n k) (next n i) ≡ dist n (home n k) i + 1)
    next-Passed i p act other = (
      record {
        index_lt = next-lt n i p.index_lt;
        before = λ x xl near. elim (ℕ_discrete x i) [
          | yes eq ↦ rw eq (act, other)
          | no ne ↦ p.before x xl (ground (arith, further, p.index_lt, home-lt n k el))
        ];
      },
      further,
    )
      where
        further : dist n (home n k) (next n i) ≡ dist n (home n k) i + 1
        further =
            ground (arith, next-cases n i p.index_lt, ahead i p act, p.index_lt, el, home-lt n k el)

    get_loop-Ends :
        (rounds i : ℕ)
        → Passed n m k i
        → n ≤ dist n (home n k) i + rounds
        → Ends
            (λ v. ((j : ℕ) × Stored n m k j × (v ≡ m.values j)) ⊎ ((v ≡ 0) × Absent n m k))
            (λ x. ⊥)
            (get_loop rounds n m k i)
    unfolding get_loop
    get_loop-Ends zero i p enough = ground (arith, p.index_lt, home-lt n k el)
    get_loop-Ends (suc rounds) i p enough =
        Ends-if _ _ (m.states i == 0) _ _ (λ s. inr (refl, stop-Absent i p (ground arith)))
          λ a.
            let act : m.states i ≢ 0 = ground arith in
            let (k', key, d) = t.homes i p.index_lt act in
            rw key (
              Ends-if _ _ (ops.equal k' k) _ _
                (λ same. inl (i, (p.index_lt, act, ground (arith, ops.equal_iff k' k)), refl))
                λ other.
                  let (p', further) = next-Passed i p act (ground (arith, ops.equal_iff k' k)) in
                  get_loop-Ends rounds (next n i) p' (omega arith))

    -- How the search of `internal_adjust_or_insert` ends.
    abbrev pub Searched : Probe → Type 0
    Searched (found i) = Stored n m k i
    Searched (vacant i drift) =
        (i < n)
        × (m.states i ≡ 0)
        × (drift ≡ dist n (home n k) i + 1)
        × ((x : ℕ) → x < n → dist n (home n k) x < dist n (home n k) i → m.states x ≢ 0)
        × Absent n m k

    probe_loop-Ends :
        (rounds i : ℕ)
        → Passed n m k i
        → dist n (home n k) i + 1 < drift_limit
        → drift_limit < dist n (home n k) i + 1 + rounds
        → (drift : ℕ) → drift ≡ dist n (home n k) i + 1
        → Ends Searched (Drifted n) (probe_loop rounds n m k i drift)
    unfolding probe_loop
    probe_loop-Ends zero i p low enough drift de = absurd (omega arith)
    probe_loop-Ends (suc rounds) i p low enough drift de =
        Ends-if _ _ (m.states i == 0) _ _
          (λ s. (
            p.index_lt,
            ground arith,
            de,
            (λ x xl near. (p.before x xl near).0),
            stop-Absent i p (ground arith),
          ))
          λ a.
            let act : m.states i ≢ 0 = ground arith in
            let (k', key, d) = t.homes i p.index_lt act in
            rw key (
              Ends-if _ _ (ops.equal k' k) _ _
                (λ same. (p.index_lt, act, ground (arith, ops.equal_iff k' k)))
                λ other.
                  Ends-if _ _ (leb drift_limit (drift + 1)) _ _
                    (λ long. record {
                      is_drift_limit = refl;
                      long = ground (arith, ahead i p act, el, home-lt n k el);
                    })
                    λ short.
                      let (p', further) =
                        next-Passed i p act (ground (arith, ops.equal_iff k' k)) in
                      probe_loop-Ends rounds (next n i) p' (ground arith) (omega arith) (drift + 1)
                        (omega arith))

    pub probe-Ends : n ≡ size m → Ends Searched (Drifted n) (probe m k)
    unfolding probe
    probe-Ends width = rw (← width) (
        probe_loop-Ends drift_limit (home n k) (Passed-home n m k (omega arith)) (ground arith)
          (ground arith) 1 (ground arith))

    pub get_ok : n ≡ size m → ((q : K) → occurrences n q m ≤ 1) → get m k ≡ ok (view n k m)
    unfolding get
    get_ok width once = rw (← width) (
        eq_of_Ends _ (view n k m) (
          Ends-map _ (λ v. v ≡ view n k m) (λ x. ⊥) _
            (λ v r. elim r [
              | inl (j, s, e) ↦ e ∙ sym (view-Stored n m k j (once k) s)
              | inr (e, a) ↦ e ∙ sym (Absent-sum n m k (λ v. v) a)
            ])
            (get_loop-Ends n (home n k) (Passed-home n m k (omega arith)) (omega arith))))
