-- ===== src/Theta/Select.antt =====
-- The entries with the least keys, as `rebuild` selects them by `nth_element`.
use whylogs_datasketches.Base.{
  ℕ, zero, suc, ◌+◌, ◌≤◌, ◌<◌, ◌≡◌, refl, arith, ltb, leb, ==_refl, if◌then◌else◌, Bool-cases, inl,
  inr, List, [], ◌∷◌, Ends, Ends-bind,
}
use whylogs_datasketches.Theta.Table.{Keyed, insert_by_key, sort_by_key, split_at_nth}
use whylogs_datasketches.Theta.Entries.{with_key}
use whylogs_datasketches.Theta.Rehash.{list_sum, All}

module _ {E : Type 0} ⦃keyed : Keyed E⦄ where
  -- Keys of at least `lo`.
  abbrev pub AtLeast : ℕ → List E → Type 0
  AtLeast lo es = All (λ e. lo ≤ keyed.key e) es

  abbrev pub IsSorted : List E → Type 0
  IsSorted [] = Unit
  IsSorted (e ∷ es) = AtLeast (keyed.key e) es × IsSorted es

  -- A measure of the entries with keys below a limit.
  abbrev pub cut : ℕ → (E → ℕ) → E → ℕ
  cut limit A e = if ltb (keyed.key e) limit then A e else 0

  AtLeast-trans : (lo hi : ℕ) (es : List E) → lo ≤ hi → AtLeast hi es → AtLeast lo es
  AtLeast-trans lo hi [] le h = tt
  AtLeast-trans lo hi (e ∷ es) le h = (omega arith, AtLeast-trans lo hi es le h.1)

  insert_by_key-sum :
      (A : E → ℕ) (e : E) (es : List E) → list_sum A (insert_by_key e es) ≡ A e + list_sum A es
  unfolding insert_by_key
  insert_by_key-sum A e [] = refl
  insert_by_key-sum A e (x ∷ xs) = ground (arith, insert_by_key-sum A e xs)

  insert_by_key-AtLeast :
      (lo : ℕ) (e : E) (es : List E)
      → lo ≤ keyed.key e
      → AtLeast lo es
      → AtLeast lo (insert_by_key e es)
  unfolding insert_by_key
  insert_by_key-AtLeast lo e [] le h = (le, tt)
  insert_by_key-AtLeast lo e (x ∷ xs) le h = ground (arith, insert_by_key-AtLeast lo e xs le h.1)

  insert_by_key-IsSorted : (e : E) (es : List E) → IsSorted es → IsSorted (insert_by_key e es)
  unfolding insert_by_key
  insert_by_key-IsSorted e [] h = (tt, tt)
  insert_by_key-IsSorted e (x ∷ xs) h =
      let rest = insert_by_key-IsSorted e xs h.1 in
      elim (Bool-cases (leb (keyed.key e) (keyed.key x))) [
        | inl le ↦
            let below : keyed.key e ≤ keyed.key x = ground arith in
            rw le (((below, AtLeast-trans (keyed.key e) (keyed.key x) xs below h.0)), h)
        | inr gt ↦
            let above : keyed.key x ≤ keyed.key e = ground arith in
            rw gt (insert_by_key-AtLeast (keyed.key x) e xs above h.0, rest)
      ]

  pub sort_by_key-sum : (A : E → ℕ) (es : List E) → list_sum A (sort_by_key es) ≡ list_sum A es
  unfolding sort_by_key
  sort_by_key-sum A [] = refl
  sort_by_key-sum A (e ∷ es) =
      omega (arith, insert_by_key-sum A e (sort_by_key es), sort_by_key-sum A es)

  pub sort_by_key-AtLeast : (lo : ℕ) (es : List E) → AtLeast lo es → AtLeast lo (sort_by_key es)
  unfolding sort_by_key
  sort_by_key-AtLeast lo [] h = tt
  sort_by_key-AtLeast lo (e ∷ es) h =
      insert_by_key-AtLeast lo e (sort_by_key es) h.0 (sort_by_key-AtLeast lo es h.1)

  pub sort_by_key-IsSorted : (es : List E) → IsSorted (sort_by_key es)
  unfolding sort_by_key
  sort_by_key-IsSorted [] = tt
  sort_by_key-IsSorted (e ∷ es) =
      insert_by_key-IsSorted e (sort_by_key es) (sort_by_key-IsSorted es)

  cut_none :
      (limit : ℕ) (A : E → ℕ) (es : List E) → AtLeast limit es → list_sum (cut limit A) es ≡ 0
  cut_none limit A [] h = refl
  cut_none limit A (e ∷ es) h = ground (arith, cut_none limit A es h.1)

  -- The first `n` of a sorted list, and the one behind them.
  pub record Split (n : ℕ) (es : List E) (r : List E × E) : Type 0 where
    pub count : list_sum (λ e. 1) r.0 ≡ n
    pub cuts :
        (A : E → ℕ) → list_sum (cut (keyed.key r.1) A) es ≡ list_sum (cut (keyed.key r.1) A) r.0
    pub part : (A : E → ℕ) → list_sum A r.0 + A r.1 ≤ list_sum A es
    pub least : All (λ e. keyed.key e ≤ keyed.key r.1) r.0
    pub bounded : (lo : ℕ) → AtLeast lo es → AtLeast lo r.0 × (lo ≤ keyed.key r.1)

  pub split_at_nth-Ends :
      (n : ℕ) (es : List E)
      → IsSorted es
      → n < list_sum (λ e. 1) es
      → Ends (Split n es) (λ x. ⊥) (split_at_nth n es)
  unfolding split_at_nth
  split_at_nth-Ends zero [] sorted lt = absurd (omega arith)
  split_at_nth-Ends (suc n) [] sorted lt = absurd (omega arith)
  split_at_nth-Ends zero (e ∷ es) sorted lt = record {
    count = refl;
    cuts = λ A. ground (arith, cut_none (keyed.key e) A es sorted.0);
    part = λ A. omega arith;
    least = tt;
    bounded = λ lo h. (tt, h.0);
  }
  split_at_nth-Ends (suc n) (e ∷ es) sorted lt =
      Ends-bind (Split n es) _ _ (split_at_nth n es) _
        (split_at_nth-Ends n es sorted.1 (omega arith))
        λ r _ s. record {
          count = omega (arith, s.count);
          cuts = λ A. omega (arith, s.cuts A);
          part = λ A. omega (arith, s.part A);
          least = ((s.bounded (keyed.key e) sorted.0).1, s.least);
          bounded = λ lo h. let (l, b) = s.bounded lo h.1 in ((h.0, l), b);
        }

  -- With distinct keys, the first `n` are just those with keys below that of the next one.
  cut_distinct :
      (limit : ℕ) (A : E → ℕ) (es : List E)
      → All (λ e. keyed.key e ≤ limit) es
      → list_sum (with_key limit) es ≡ 0
      → (list_sum (cut limit A) es ≡ list_sum A es) × All (λ e. keyed.key e < limit) es
  cut_distinct limit A [] h none = (refl, tt)
  cut_distinct limit A (e ∷ es) h none =
      let (sums, below) = cut_distinct limit A es h.1 (omega arith) in
      let lt : keyed.key e < limit = ground arith in (ground arith, (lt, below))

  pub Split-below :
      (n : ℕ) (es : List E) (r : List E × E)
      → Split n es r
      → ((q : ℕ) → list_sum (with_key q) es ≤ 1)
      → ((A : E → ℕ) → list_sum (cut (keyed.key r.1) A) es ≡ list_sum A r.0)
        × All (λ e. keyed.key e < keyed.key r.1) r.0
  Split-below n es r s once =
      let own : with_key (keyed.key r.1) r.1 ≡ 1 = ground (arith, ==_refl (keyed.key r.1)) in
      let none : list_sum (with_key (keyed.key r.1)) r.0 ≡ 0 =
        omega (arith, s.part (with_key (keyed.key r.1)), once (keyed.key r.1), own) in
      (
        λ A. omega (arith, s.cuts A, (cut_distinct (keyed.key r.1) A r.0 s.least none).0),
        (cut_distinct (keyed.key r.1) (λ e. 0) r.0 s.least none).1,
      )
