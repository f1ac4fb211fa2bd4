-- ===== src/Theta/Consolidate.antt =====
-- `consolidate_non_empty` moves the entries to the front of the array.
use native.Mathlib.Decide.{ℕ_discrete}
use whylogs_datasketches.Base.{
  ℕ, zero, suc, ◌+◌, ◌-◌, ◌≤◌, ◌<◌, ◌≡◌, ◌≢◌, refl, ap, sym, ◌∙◌, arith, ◌==◌, Bool-cases, inl, inr,
  update, List, ◌∷◌, Option, none, some, Option-cases, Outcome, ok, throws, undefined, ◌>>=◌, subst,
  Ends, Ends-bind, range_sum, range_sum-all, sum_below, sum_below_change,
}
use whylogs_datasketches.Theta.Table.{
  Keyed, key_of, first_empty, compact_loop, consolidate_non_empty, read_entries,
}
use whylogs_datasketches.Theta.Entries.{
  live, live_zero, live_one, entry_sum, update-at, update-other,
}
use whylogs_datasketches.Theta.Rehash.{list_sum}
use whylogs_datasketches.Theta.Select.{AtLeast}

module _ {E : Type 0} ⦃keyed : Keyed E⦄ where
  abbrev pub Filled : (ℕ → Option E) → ℕ → ℕ → Type 0
  Filled entries from to = (p : ℕ) → from ≤ p → p < to → key_of (entries p) ≢ 0

  abbrev Cleared : (ℕ → Option E) → ℕ → ℕ → Type 0
  Cleared entries from to = (p : ℕ) → from ≤ p → p < to → key_of (entries p) ≡ 0

  first_empty_lem :
      (rounds i n : ℕ) (entries : ℕ → Option E)
      → i + rounds ≡ n
      → (i ≤ first_empty rounds i entries)
        × (first_empty rounds i entries ≤ n)
        × Filled entries i (first_empty rounds i entries)
        × (first_empty rounds i entries < n → key_of (entries (first_empty rounds i entries)) ≡ 0)
  unfolding first_empty
  first_empty_lem zero i n entries eq =
      (omega arith, omega arith, λ p a b. absurd (omega arith), λ lt. absurd (omega arith))
  first_empty_lem (suc rounds) i n entries eq =
      let (low, high, filled, empty) = first_empty_lem rounds (i + 1) n entries (omega arith) in
      elim (Bool-cases (key_of (entries i) == 0)) [
        | inl e ↦
            let z : key_of (entries i) ≡ 0 = ground arith in
            rw e (omega arith, omega arith, λ p a b. absurd (omega arith), λ lt. z)
        | inr ne ↦
            let nz : key_of (entries i) ≢ 0 = ground arith in
            rw ne (
              omega arith,
              high,
              λ p a b. elim (ℕ_discrete p i) [
                | yes e ↦ λ z. nz (ap (λ x. key_of (entries x)) (sym e) ∙ z)
                | no other ↦ filled p (omega arith) b
              ],
              empty,
            )
      ]

  count_front :
      (n i : ℕ) (entries : ℕ → Option E)
      → i ≤ n
      → Filled entries 0 i
      → Cleared entries i n
      → entry_sum n (λ e. 1) entries ≡ i
  unfolding sum_below
  count_front zero i entries le filled cleared = omega arith
  count_front (suc n) i entries le filled cleared = elim (ℕ_discrete i (suc n)) [
    | yes e ↦ omega (
      arith,
      live_one (entries n) (filled n (omega arith) (omega arith)),
      count_front n n entries (omega arith) (λ p a b. filled p a (omega arith))
          (λ p a b. absurd (omega arith)),
    )
    | no ne ↦ omega (
      arith,
      live_zero (λ e. 1) (entries n) (cleared n (omega arith) (omega arith)),
      count_front n i entries (omega arith) filled (λ p a b. cleared p a (omega arith)),
    )
  ]

  -- An entry moves from slot `j` to the empty slot `i`.
  moved_sum :
      (n i j : ℕ) (A : E → ℕ) (entries : ℕ → Option E)
      → i < j
      → j < n
      → key_of (entries i) ≡ 0
      → entry_sum n A (update (update entries i (entries j)) j none) ≡ entry_sum n A entries
  moved_sum n i j A entries lt jl empty =
      let first : ℕ → Option E = update entries i (entries j) in
      let last : ℕ → Option E = update first j none in
      let at_i : live A (first i) ≡ live A (entries j) =
        ap (live A) (update-at entries i (entries j)) in
      let at_j : live A (first j) ≡ live A (entries j) =
        ap (live A) (update-other entries i (entries j) j (omega arith)) in
      let gone : live A (last j) ≡ 0 = ap (live A) (update-at first j none) in
      omega (
        arith,
        at_i,
        at_j,
        gone,
        live_zero A (entries i) empty,
        sum_below_change n (λ p. live A (entries p)) (λ p. live A (first p)) i (omega arith)
            (λ p pl ne. ap (live A) (sym (update-other entries i (entries j) p ne))),
        sum_below_change n (λ p. live A (first p)) (λ p. live A (last p)) j jl
            (λ p pl ne. ap (live A) (sym (update-other first j none p ne))),
      )

  -- The array with all its entries in front.
  pub record Front (n num : ℕ) (entries entries' : ℕ → Option E) : Type 0 where
    pub filled : Filled entries' 0 num
    pub sums : (A : E → ℕ) → entry_sum n A entries' ≡ entry_sum n A entries

  compact_loop_lem :
      (rounds i j n num : ℕ) (start entries : ℕ → Option E)
      → rounds + j ≡ n
      → i < j
      → Filled entries 0 i
      → Cleared entries i j
      → ((A : E → ℕ) → entry_sum n A entries ≡ entry_sum n A start)
      → entry_sum n (λ e. 1) start ≡ num
      → Front n num start (compact_loop rounds i j num entries)
  unfolding compact_loop
  compact_loop_lem zero i j n num start entries eq lt filled cleared sums count =
      let all : entry_sum n (λ e. 1) entries ≡ i =
        count_front n i entries (omega arith) filled (λ p a b. cleared p a (omega arith)) in
      record {
        filled = λ p a b. filled p a (omega (arith, all, count, sums (λ e. 1)));
        sums = sums;
      }
  compact_loop_lem (suc rounds) i j n num start entries eq lt filled cleared sums count =
      let moved : ℕ → Option E = update (update entries i (entries j)) j none in
      let off : (p : ℕ) → p ≢ i → p ≢ j → moved p ≡ entries p = λ p ni nj.
        update-other (update entries i (entries j)) j none p nj
        ∙ update-other entries i (entries j) p ni in
      let at_i : moved i ≡ entries j =
        update-other (update entries i (entries j)) j none i (omega arith)
        ∙ update-at entries i (entries j) in
      let at_j : moved j ≡ none = update-at (update entries i (entries j)) j none in
      let moved_sums : (A : E → ℕ) → entry_sum n A moved ≡ entry_sum n A start =
        λ A. moved_sum n i j A entries lt (omega arith) (cleared i (omega arith) lt) ∙ sums A in
      elim (Bool-cases (key_of (entries j) == 0)) [
        | inl e ↦
            let z : key_of (entries j) ≡ 0 = ground arith in
            rw e (
              compact_loop_lem rounds i (j + 1) n num start entries (omega arith) (omega arith)
                filled
                (λ p a b. elim (ℕ_discrete p j) [
                  | yes q ↦ ap (λ x. key_of (entries x)) q ∙ z
                  | no ne ↦ cleared p a (omega arith)
                ])
                sums count)
        | inr e ↦
            let nz : key_of (entries j) ≢ 0 = ground arith in
            let more : Filled moved 0 (i + 1) = λ p a b. elim (ℕ_discrete p i) [
              | yes q ↦ λ z. nz (ap key_of (sym (ap moved q ∙ at_i)) ∙ z)
              | no ne ↦ λ z. filled p a (omega arith) (ap key_of (sym (off p ne (omega arith))) ∙ z)
            ] in
            let less : Cleared moved (i + 1) (j + 1) = λ p a b. elim (ℕ_discrete p j) [
              | yes q ↦ ap key_of (ap moved q ∙ at_j)
              | no ne ↦ ap key_of (off p (omega arith) ne) ∙ cleared p (omega arith) (omega arith)
            ] in
            elim (Bool-cases (i + 1 == num)) [
              | inl last ↦
                  let full : i + 1 ≡ num = ground arith in
                  rw (e, last)
                    (record { filled = λ p a b. more p a (omega arith); sums = moved_sums })
              | inr on ↦
                  rw (e, on)
                    (compact_loop_lem rounds (i + 1) (j + 1) n num start moved (omega arith)
                      (omega arith) more less moved_sums count)
            ]
      ]

  pub consolidate_non_empty-Front :
      (n num : ℕ) (entries : ℕ → Option E)
      → entry_sum n (λ e. 1) entries ≡ num
      → Front n num entries (consolidate_non_empty entries n num)
  unfolding consolidate_non_empty compact_loop
  consolidate_non_empty-Front n num entries count =
      let x : ℕ = first_empty n 0 entries in
      let (low, high, filled, empty) = first_empty_lem n 0 n entries (omega arith) in
      elim (ℕ_discrete x n) [
        | yes e ↦
            let none_left : n - (x + 1) ≡ 0 = omega arith in
            let all : entry_sum n (λ e. 1) entries ≡ x =
              count_front n x entries high filled (λ p a b. absurd (omega arith)) in
            subst (λ rounds. Front n num entries (compact_loop rounds x (x + 1) num entries))
              (sym none_left)
              (record {
                filled = λ p a b. filled p a (omega (arith, all, count));
                sums = λ A. refl;
              })
        | no ne ↦
            let xl : x < n = omega arith in
            compact_loop_lem (n - (x + 1)) x (x + 1) n num entries entries (omega arith)
              (omega arith) filled
              (λ p a b. let q : p ≡ x = omega arith in ap (λ y. key_of (entries y)) q ∙ empty xl)
              (λ A. refl) count
      ]

  zero_live : (A : E → ℕ) (o : Option E) → live (λ e. 1) o ≡ 0 → live A o ≡ 0
  zero_live A o z = elim (ℕ_discrete (key_of o) 0) [
    | yes e ↦ live_zero A o e
    | no ne ↦ absurd (omega (arith, live_one o ne))
  ]

  zero_range :
      (len i : ℕ) (A : E → ℕ) (entries : ℕ → Option E)
      → range_sum len i (λ p. live (λ e. 1) (entries p)) ≡ 0
      → range_sum len i (λ p. live A (entries p)) ≡ 0
  unfolding range_sum
  zero_range zero i A entries z = refl
  zero_range (suc len) i A entries z =
      omega (
        arith,
        zero_live A (entries i) (omega arith),
        zero_range len (i + 1) A entries (omega arith),
      )

  -- The entries that are read from the front are all entries.
  pub sum_kept :
      (n num : ℕ) (A : E → ℕ) (entries entries' : ℕ → Option E)
      → Front n num entries entries'
      → entry_sum n (λ e. 1) entries ≡ num
      → num ≤ n
      → range_sum num 0 (λ p. live A (entries' p)) ≡ entry_sum n A entries
  unfolding sum_below
  sum_kept n num A entries entries' f count le =
      let whole = range_sum-all (n - num) num (λ p. live A (entries' p)) in
      let ones = range_sum-all (n - num) num (λ p. live (λ e. 1) (entries' p)) in
      let here : sum_below num (λ p. live (λ e. 1) (entries' p)) ≡ num =
        count_front num num entries' (omega arith) f.filled (λ p a b. absurd (omega arith)) in
      let reach : num + (n - num) ≡ n = omega arith in
      let ones_n : sum_below (num + (n - num)) (λ p. live (λ e. 1) (entries' p))
          ≡ entry_sum n (λ e. 1) entries' =
        ap (λ k. entry_sum k (λ e. 1) entries') reach in
      let whole_n : sum_below (num + (n - num)) (λ p. live A (entries' p))
          ≡ entry_sum n A entries' =
        ap (λ k. entry_sum k A entries') reach in
      let rest : range_sum (n - num) num (λ p. live A (entries' p)) ≡ 0 =
        zero_range (n - num) num A entries'
          (omega (arith, ones, here, ones_n, f.sums (λ e. 1), count)) in
      let from_zero : sum_below (0 + num) (λ p. live A (entries' p))
          ≡ sum_below num (λ p. live A (entries' p)) =
        let z : 0 + num ≡ num = omega arith in ap (λ k. entry_sum k A entries') z in
      omega (
        arith,
        whole,
        whole_n,
        rest,
        from_zero,
        f.sums A,
        range_sum-all num 0 (λ p. live A (entries' p)),
      )

  pub read_entries-Ends :
      (num i : ℕ) (entries : ℕ → Option E)
      → Filled entries i (i + num)
      → Ends
          (λ es.
            ((A : E → ℕ) → list_sum A es ≡ range_sum num i (λ p. live A (entries p)))
            × AtLeast 1 es)
          (λ x. ⊥)
          (read_entries num i entries)
  unfolding read_entries range_sum
  read_entries-Ends zero i entries filled = (λ A. refl, tt)
  read_entries-Ends (suc num) i entries filled = elim (Option-cases (entries i)) [
    | inl e ↦ absurd (filled i (omega arith) (omega arith) (ap key_of e))
    | inr (x, e) ↦
        let nz : keyed.key x ≢ 0 = λ z. filled i (omega arith) (omega arith) (ap key_of e ∙ z) in
        let here : (A : E → ℕ) → live A (entries i) ≡ A x =
          λ A. ap (live A) e ∙ ground (arith, nz) in
        subst
          (λ o.
            Ends
              (λ es.
                ((A : E → ℕ)
                  → list_sum A es
                    ≡ live A (entries i) + range_sum num (i + 1) (λ p. live A (entries p)))
                × AtLeast 1 es)
              (λ x. ⊥)
              (elim o as (λ y. Outcome (List E)) [
                | none ↦ throws undefined
                | some e ↦ read_entries num (i + 1) entries >>= λ es. ok (e ∷ es)
              ]))
          (sym e)
          (Ends-bind
            (λ es.
              ((A : E → ℕ) → list_sum A es ≡ range_sum num (i + 1) (λ p. live A (entries p)))
              × AtLeast 1 es)
            _ _ (read_entries num (i + 1) entries) _
            (read_entries-Ends num (i + 1) entries (λ p a b. filled p (omega arith) (omega arith)))
            (λ es _ h. (λ A. omega (arith, h.0 A, here A), (omega (arith, nz), h.1))))
  ]
