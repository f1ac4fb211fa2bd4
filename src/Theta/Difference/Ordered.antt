-- ===== src/Theta/Difference/Ordered.antt =====
-- The difference of ordered sketches.
use native.Mathlib.Decide.{ℕ_discrete}
use whylogs_datasketches.Base.{
  ℕ, ◌≤◌, ◌<◌, ◌≡◌, ◌≢◌, refl, ap, sym, ◌∙◌, arith, false, ltb, ◌==◌, if◌then◌else◌, Bool-cases,
  inl, inr, List, [], ◌∷◌,
}
use whylogs_datasketches.Theta.Table.{Keyed}
use whylogs_datasketches.Theta.Entries.{with_key}
use whylogs_datasketches.Theta.Rehash.{list_sum}
use whylogs_datasketches.Theta.Select.{AtLeast, IsSorted}
use whylogs_datasketches.Theta.Union.Update.{elem_key, elem_key_low}
use whylogs_datasketches.Theta.Difference.{drop_below, drop_match, starts_with, set_difference}

module _ {E : Type 0} ⦃keyed : Keyed E⦄ where
  drop_below-elem :
      (limit q : ℕ) (es : List E) → limit ≤ q → elem_key q (drop_below limit es) ≡ elem_key q es
  unfolding drop_below
  drop_below-elem limit q [] le = refl
  drop_below-elem limit q (e ∷ es) le = ground (arith, drop_below-elem limit q es le)

  drop_below-IsSorted : (limit : ℕ) (es : List E) → IsSorted es → IsSorted (drop_below limit es)
  unfolding drop_below
  drop_below-IsSorted limit [] h = tt
  drop_below-IsSorted limit (e ∷ es) h = elim (Bool-cases (ltb (keyed.key e) limit)) [
    | inl lt ↦ rw lt (drop_below-IsSorted limit es h.1)
    | inr ge ↦ rw ge h
  ]

  drop_match-IsSorted : (key : ℕ) (es : List E) → IsSorted es → IsSorted (drop_match key es)
  unfolding drop_match
  drop_match-IsSorted key [] h = tt
  drop_match-IsSorted key (e ∷ es) h = elim (Bool-cases (keyed.key e == key)) [
    | inl same ↦ rw same h.1
    | inr other ↦ rw other h
  ]

  drop_match-elem :
      (key q : ℕ) (es : List E) → q ≢ key → elem_key q (drop_match key es) ≡ elem_key q es
  unfolding drop_match
  drop_match-elem key q [] ne = refl
  drop_match-elem key q (e ∷ es) ne = ground arith

  -- The list without smaller keys starts with the key if it is there at all.
  starts_with-elem :
      (key : ℕ) (es : List E) → IsSorted es → starts_with key (drop_below key es) ≡ elem_key key es
  unfolding starts_with drop_below
  starts_with-elem key [] h = refl
  starts_with-elem key (e ∷ es) h = elim (Bool-cases (ltb (keyed.key e) key)) [
    | inl lt ↦
        let other : (keyed.key e == key) ≡ false = ground arith in
        rw (lt, other) (starts_with-elem key es h.1)
    | inr ge ↦ elim (Bool-cases (keyed.key e == key)) [
      | inl same ↦ rw (ge, same) refl
      | inr other ↦
          let past : key < keyed.key e = ground arith in
          rw (ge, other) (sym (elem_key_low key (keyed.key e) es h.0 past))
    ]
  ]

  none_below : (q lo : ℕ) (es : List E) → AtLeast lo es → q < lo → list_sum (with_key q) es ≡ 0
  none_below q lo [] h lt = refl
  none_below q lo (e ∷ es) h lt = ground (arith, none_below q lo es h.1 lt)

  step_keys :
      (q : ℕ) (a : E) (es bs on rest left : List E)
      → IsSorted (a ∷ es)
      → list_sum (with_key q) (a ∷ es) ≤ 1
      → starts_with (keyed.key a) on ≡ elem_key (keyed.key a) bs
      → (keyed.key a < q → elem_key q left ≡ elem_key q bs)
      → list_sum (with_key q) rest ≡ (if elem_key q left then 0 else list_sum (with_key q) es)
      → list_sum (with_key q) (if starts_with (keyed.key a) on then rest else a ∷ rest)
        ≡ (if elem_key q bs then 0 else list_sum (with_key q) (a ∷ es))
  step_keys q a es bs on rest left sorted once first above ih = elim (ℕ_discrete q (keyed.key a)) [
    | yes same ↦
        let elem_same : elem_key q bs ≡ elem_key (keyed.key a) bs = ap (λ k. elem_key k bs) same in
        elim (Bool-cases (elem_key (keyed.key a) bs)) [
          | inl held ↦ rw (first, held) (ground (arith, same, once, ih, elem_same, held))
          | inr free ↦ rw (first, free) (ground (arith, same, once, ih, elem_same, free))
        ]
    | no ne ↦ elim (Bool-cases (ltb q (keyed.key a))) [
      | inl lt ↦
          let none : list_sum (with_key q) es ≡ 0 =
            none_below q (keyed.key a) es sorted.0 (ground arith) in
          elim (Bool-cases (starts_with (keyed.key a) on)) [
            | inl held ↦ rw held (ground (arith, ne, none, ih))
            | inr free ↦ rw free (ground (arith, ne, none, ih))
          ]
      | inr ge ↦
          let same : elem_key q left ≡ elem_key q bs = above (ground (arith, ne)) in
          elim (Bool-cases (starts_with (keyed.key a) on)) [
            | inl held ↦ rw held (ground (arith, ne, same, ih))
            | inr free ↦ rw free (ground (arith, ne, same, ih))
          ]
    ]
  ]

  -- The entries of the first list whose keys are not in the second one.
  pub set_difference-keys :
      (es bs : List E) (q : ℕ)
      → IsSorted es
      → IsSorted bs
      → list_sum (with_key q) es ≤ 1
      → list_sum (with_key q) (set_difference es bs)
        ≡ (if elem_key q bs then 0 else list_sum (with_key q) es)
  unfolding set_difference
  set_difference-keys [] bs q sorted sorted' once = ground arith
  set_difference-keys (a ∷ es) bs q sorted sorted' once =
      let k : ℕ = keyed.key a in
      let on : List E = drop_below k bs in
      let on_sorted : IsSorted on = drop_below-IsSorted k bs sorted' in
      let rest =
        set_difference-keys es (drop_match k on) q sorted.1 (drop_match-IsSorted k on on_sorted)
          (omega (arith, once)) in
      let first : starts_with k on ≡ elem_key k bs = starts_with-elem k bs sorted' in
      step_keys q a es bs on (set_difference es (drop_match k on)) (drop_match k on) sorted once
        first
        (λ above.
          drop_match-elem k q on (omega (arith, above))
          ∙ drop_below-elem k q bs (omega (arith, above)))
        rest
