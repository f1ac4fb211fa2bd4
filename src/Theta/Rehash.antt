-- ===== src/Theta/Rehash.antt =====
-- The loops of `resize` and `rebuild` that put entries into a new array.
use whylogs_datasketches.Base.{
  ℕ, zero, suc, ◌+◌, ◌^◌, ◌≤◌, ◌≡◌, ◌≢◌, refl, arith, ==_refl, ◌==◌, update, List, [], ◌∷◌, Option,
  none, some, Outcome, Ends, Ends-map, Ends-bind, Ends-if, range_sum, ◌>>=◌,
}
use whylogs_datasketches.Theta.Table.{Keyed, key_of, find_in, resize_loop, place_all}
use whylogs_datasketches.Theta.Entries.{
  live, live_zero, entry_sum, with_key, Hashed, Put, find_in-Put,
}

module _ {E : Type 0} where
  abbrev pub All : (E → Type 0) → List E → Type 0
  All P [] = Unit
  All P (e ∷ es) = P e × All P es

module _ {E : Type 0} ⦃keyed : Keyed E⦄ where
  -- A measure of all entries of a list.
  abbrev pub list_sum : (E → ℕ) → List E → ℕ
  list_sum A [] = 0
  list_sum A (e ∷ es) = A e + list_sum A es

  -- The array holds what it held, and in addition entries of the measure `added`.
  abbrev pub Holds : ℕ → (ℕ → Option E) → ((E → ℕ) → ℕ) → (ℕ → Option E) → Type 0
  Holds lg before added after =
      Hashed lg after
      × ((A : E → ℕ) → entry_sum (2 ^ lg) A after ≡ entry_sum (2 ^ lg) A before + added A)

  own_key : (e : E) → with_key (keyed.key e) e ≡ 1
  own_key e = ground (arith, ==_refl (keyed.key e))

  pub place_all-Ends :
      (lg : ℕ) (es : List E) (entries : ℕ → Option E)
      → Hashed lg entries
      → All (λ e. keyed.key e ≢ 0) es
      → ((q : ℕ) → entry_sum (2 ^ lg) (with_key q) entries + list_sum (with_key q) es ≤ 1)
      → entry_sum (2 ^ lg) (λ x. 1) entries + list_sum (λ x. 1) es ≤ 2 ^ lg
      → Ends (Holds lg entries (λ A. list_sum A es)) (λ x. ⊥) (place_all lg es entries)
  unfolding place_all
  place_all-Ends lg [] entries h nz once room = (h, λ A. omega arith)
  place_all-Ends lg (e ∷ es) entries h nz once room =
      Ends-bind (Put lg e entries) _ _ (find_in entries lg (keyed.key e)) _
        (find_in-Put lg e entries nz.0 h (omega (arith, once (keyed.key e), own_key e))
          (omega arith))
        λ r _ p.
          Ends-map (Holds lg (update entries r.0 (some e)) (λ A. list_sum A es))
            (Holds lg entries (λ A. list_sum A (e ∷ es))) (λ x. ⊥)
            (place_all lg es (update entries r.0 (some e)))
            (λ out done. (done.0, λ A. omega (arith, done.1 A, p.sums A)))
            (place_all-Ends lg es (update entries r.0 (some e)) p.hashed nz.1
              (λ q. omega (arith, once q, p.sums (with_key q)))
              (omega (arith, room, p.sums (λ x. 1))))

  abbrev rest_of : ℕ → ℕ → (ℕ → Option E) → (E → ℕ) → ℕ
  rest_of rounds i entries A = range_sum rounds i (λ j. live A (entries j))

  resize_step-Ends :
      (lg : ℕ) (o : Option E) (entries : ℕ → Option E) (added : (E → ℕ) → ℕ)
      (next : (ℕ → Option E) → Outcome (ℕ → Option E))
      → key_of o ≢ 0
      → Hashed lg entries
      → ((q : ℕ)
          → entry_sum (2 ^ lg) (with_key q) entries + (live (with_key q) o + added (with_key q))
            ≤ 1)
      → entry_sum (2 ^ lg) (λ x. 1) entries + (live (λ x. 1) o + added (λ x. 1)) ≤ 2 ^ lg
      → ((after : ℕ → Option E)
          → Hashed lg after
          → ((q : ℕ) → entry_sum (2 ^ lg) (with_key q) after + added (with_key q) ≤ 1)
          → entry_sum (2 ^ lg) (λ x. 1) after + added (λ x. 1) ≤ 2 ^ lg
          → Ends (Holds lg after added) (λ x. ⊥) (next after))
      → Ends
          (Holds lg entries (λ A. live A o + added A))
          (λ x. ⊥)
          (find_in entries lg (key_of o) >>= λ r. next (update entries r.0 o))
  resize_step-Ends lg none entries added next nz h once room rest = absurd (nz refl)
  resize_step-Ends lg (some e) entries added next nz h once room rest =
      let counts : (A : E → ℕ) → live A (some e) ≡ A e = λ A. ground (arith, nz) in
      Ends-bind (Put lg e entries) _ _ (find_in entries lg (keyed.key e)) _
        (find_in-Put lg e entries nz h
          (omega (arith, once (keyed.key e), own_key e, counts (with_key (keyed.key e))))
          (omega (arith, room, counts (λ x. 1))))
        λ r _ p.
          Ends-map (Holds lg (update entries r.0 (some e)) added)
            (Holds lg entries (λ A. live A (some e) + added A)) (λ x. ⊥)
            (next (update entries r.0 (some e)))
            (λ out done. (done.0, λ A. omega (arith, done.1 A, p.sums A, counts A)))
            (rest (update entries r.0 (some e)) p.hashed
              (λ q. omega (arith, once q, p.sums (with_key q), counts (with_key q)))
              (omega (arith, room, p.sums (λ x. 1), counts (λ x. 1))))

  pub resize_loop-Ends :
      (rounds i lg : ℕ) (old entries : ℕ → Option E)
      → Hashed lg entries
      → ((q : ℕ) → entry_sum (2 ^ lg) (with_key q) entries + rest_of rounds i old (with_key q) ≤ 1)
      → entry_sum (2 ^ lg) (λ x. 1) entries + rest_of rounds i old (λ x. 1) ≤ 2 ^ lg
      → Ends
          (Holds lg entries (rest_of rounds i old))
          (λ x. ⊥)
          (resize_loop rounds i lg old entries)
  unfolding resize_loop range_sum
  resize_loop-Ends zero i lg old entries h once room = (h, λ A. omega arith)
  resize_loop-Ends (suc rounds) i lg old entries h once room =
      Ends-if (Holds lg entries (rest_of (suc rounds) i old)) _ (key_of (old i) == 0) _ _
        (λ z.
          let none_here : (A : E → ℕ) → live A (old i) ≡ 0 =
            λ A. live_zero A (old i) (ground arith) in
          Ends-map (Holds lg entries (rest_of rounds (i + 1) old))
            (Holds lg entries (rest_of (suc rounds) i old)) _
            (resize_loop rounds (i + 1) lg old entries)
            (λ out done. (done.0, λ A. omega (arith, done.1 A, none_here A)))
            (resize_loop-Ends rounds (i + 1) lg old entries h
              (λ q. omega (arith, once q, none_here (with_key q)))
              (omega (arith, room, none_here (λ x. 1)))))
        (λ nz.
          resize_step-Ends lg (old i) entries (rest_of rounds (i + 1) old)
            (resize_loop rounds (i + 1) lg old) (ground arith) h once room
            (λ after ah aonce aroom. resize_loop-Ends rounds (i + 1) lg old after ah aonce aroom))
