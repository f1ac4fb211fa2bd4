-- ===== src/Theta/Probing.antt =====
-- What `find` of theta/include/theta_update_sketch_base_impl.hpp answers.
use native.Mathlib.Decide.{ℕ_discrete}
use whylogs_datasketches.Base.{
  ℕ, zero, suc, ◌+◌, ◌%◌, ◌^◌, ◌≤◌, ◌<◌, ◌≡◌, ◌≢◌, refl, ap, sym, subst, ◌∙◌, arith, Bool, true,
  false, ◌==◌, ◌⊎◌, inl, inr, Option, Ends, Ends-if,
}
use whylogs_datasketches.Theta.Stride.{
  slot, slot-lt, slot_zero, slot_reaches, slot_inj, slot_step, pow_pos,
}
use whylogs_datasketches.Theta.Table.{Keyed, key_of, home, get_stride, find_loop, find_in}

-- The slot that a search for `key` looks at after `t` steps.
abbrev pub seq : ℕ → ℕ → ℕ → ℕ
seq lg key t = slot lg (home key lg) (get_stride key lg) t

pub home-lt : (key lg : ℕ) → home key lg < 2 ^ lg
home-lt key lg = let pos : 0 < 2 ^ lg = pow_pos lg in omega arith

odd_stride : (key lg : ℕ) → get_stride key lg % 2 ≡ 1
odd_stride key lg = omega arith

pub seq_zero : (lg key : ℕ) → seq lg key 0 ≡ home key lg
seq_zero lg key = slot_zero lg (home key lg) (get_stride key lg) (home-lt key lg)

pub seq-lt : (lg key t : ℕ) → seq lg key t < 2 ^ lg
seq-lt lg key t = slot-lt lg (home key lg) (get_stride key lg) t

pub seq_reaches : (lg key i : ℕ) → i < 2 ^ lg → (t : ℕ) × (t < 2 ^ lg) × (seq lg key t ≡ i)
seq_reaches lg key i lt =
    slot_reaches lg (home key lg) (get_stride key lg) i (odd_stride key lg) (home-lt key lg) lt

pub seq_inj : (lg key t u : ℕ) → t < 2 ^ lg → u < 2 ^ lg → seq lg key t ≡ seq lg key u → t ≡ u
seq_inj lg key t u tl ul e =
    slot_inj lg (home key lg) (get_stride key lg) t u (odd_stride key lg) tl ul e

module _ {E : Type 0} ⦃keyed : Keyed E⦄ where
  -- The first `t` steps meet neither an empty slot nor the key.
  abbrev pub Before : ℕ → (ℕ → Option E) → ℕ → ℕ → Type 0
  Before lg entries key t =
      (u : ℕ)
      → u < t
      → (key_of (entries (seq lg key u)) ≢ 0) × (key_of (entries (seq lg key u)) ≢ key)

  -- A slot with the key, or the empty slot where a search for the key ends.
  abbrev pub Found : ℕ → (ℕ → Option E) → ℕ → ℕ × Bool → Type 0
  Found lg entries key r =
      (t : ℕ) × (t < 2 ^ lg)
      × (r.0 ≡ seq lg key t)
      × Before lg entries key t
      × (((r.1 ≡ true) × (key_of (entries r.0) ≡ key))
          ⊎ ((r.1 ≡ false) × (key_of (entries r.0) ≡ 0)))

  Before-suc :
      (lg : ℕ) (entries : ℕ → Option E) (key t : ℕ)
      → Before lg entries key t
      → key_of (entries (seq lg key t)) ≢ 0
      → key_of (entries (seq lg key t)) ≢ key
      → Before lg entries key (t + 1)
  Before-suc lg entries key t before nz nk u lt = elim (ℕ_discrete u t) [
    | yes e ↦
        subst (λ v. (key_of (entries (seq lg key v)) ≢ 0) × (key_of (entries (seq lg key v)) ≢ key))
          (sym e) (nz, nk)
    | no ne ↦ before u (omega arith)
  ]

  loop-Ends :
      (rounds t te lg : ℕ) (entries : ℕ → Option E) (key index : ℕ)
      → rounds + t ≡ 2 ^ lg
      → index ≡ seq lg key t
      → te < 2 ^ lg
      → t ≤ te
      → key_of (entries (seq lg key te)) ≡ 0
      → Before lg entries key t
      → Ends
          (Found lg entries key)
          (λ x. ⊥)
          (find_loop rounds entries lg (get_stride key lg) (home key lg) index key)
  unfolding find_loop
  loop-Ends zero t te lg entries key index eq at tel le empty before = absurd (omega arith)
  loop-Ends (suc rounds) t te lg entries key index eq at tel le empty before =
      let here : key_of (entries index) ≡ key_of (entries (seq lg key t)) =
        ap (λ i. key_of (entries i)) at in
      Ends-if _ _ (key_of (entries index) == 0) _ _
        (λ e. (t, omega arith, at, before, inr (refl, ground arith)))
        λ nz.
          Ends-if _ _ (key_of (entries index) == key) _ _
            (λ e. (t, omega arith, at, before, inl (refl, ground arith)))
            λ nk.
              let filled : key_of (entries (seq lg key t)) ≢ 0 = ground (arith, here) in
              let other : key_of (entries (seq lg key t)) ≢ key = ground (arith, here) in
              let further : t ≢ te =
                λ same. filled (ap (λ v. key_of (entries (seq lg key v))) same ∙ empty) in
              let step : (index + get_stride key lg) % 2 ^ lg ≡ seq lg key (t + 1) =
                ap (λ i. (i + get_stride key lg) % 2 ^ lg) at
                ∙ slot_step lg (home key lg) (get_stride key lg) t in
              Ends-if _ _ ((index + get_stride key lg) % 2 ^ lg == home key lg) _ _
                (λ back.
                  let returned : (index + get_stride key lg) % 2 ^ lg ≡ home key lg =
                    ground arith in
                  let wrapped : t + 1 ≡ 0 =
                    seq_inj lg key (t + 1) 0 (omega (arith, further)) (omega arith)
                      (sym step ∙ returned ∙ sym (seq_zero lg key)) in
                  absurd (omega arith))
                (λ on.
                  loop-Ends rounds (t + 1) te lg entries key _ (omega arith) step tel
                    (omega (arith, further)) empty
                    (Before-suc lg entries key t before filled other))

  -- In a table with an empty slot a search ends with `Found`; it does not throw.
  pub find_in-Ends :
      (lg : ℕ) (entries : ℕ → Option E) (key e : ℕ)
      → e < 2 ^ lg
      → key_of (entries e) ≡ 0
      → Ends (Found lg entries key) (λ x. ⊥) (find_in entries lg key)
  unfolding find_in
  find_in-Ends lg entries key e el empty =
      let (te, tel, at) = seq_reaches lg key e el in
      loop-Ends (2 ^ lg) 0 te lg entries key (home key lg) (omega arith) (sym (seq_zero lg key)) tel
        (omega arith) (ap (λ i. key_of (entries i)) at ∙ empty) (λ u lt. absurd (omega arith))
