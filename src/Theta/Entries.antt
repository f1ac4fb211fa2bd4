-- ===== src/Theta/Entries.antt =====
-- The entries of an array as a collection, and what a write at the slot of a search does to it.
use native.Mathlib.Decide.{ℕ_discrete}
use whylogs_datasketches.Base.{
  ℕ, ◌+◌, ◌^◌, ◌<◌, ◌≡◌, ◌≢◌, refl, ap, sym, subst, ◌∙◌, arith, Bool, true, false, ◌==◌, ==_refl,
  ==_ne, if◌then◌else◌, update, inl, inr, Option, none, some, Ends, Ends-map, sum_below,
  sum_below_change, sum_below_gap, le-sum_below, sum_below_zero, ltb, Bool-cases,
}
use whylogs_datasketches.Theta.Table.{Keyed, key_of, find_in}
use whylogs_datasketches.Theta.Probing.{seq, seq-lt, Before, Found, find_in-Ends}

module _ {E : Type 0} ⦃keyed : Keyed E⦄ where
  -- A measure of the entry of one slot.
  abbrev pub live : (E → ℕ) → Option E → ℕ
  live A none = 0
  live A (some e) = if keyed.key e == 0 then 0 else A e

  -- A measure of all entries of an array of `n` slots.
  abbrev pub entry_sum : ℕ → (E → ℕ) → (ℕ → Option E) → ℕ
  entry_sum n A entries = sum_below n (λ i. live A (entries i))

  -- 1 for the entries with key `q`.
  abbrev pub with_key : ℕ → E → ℕ
  with_key q e = if keyed.key e == q then 1 else 0

  -- Every search for a key that is there ends at its entry.
  pub record Hashed (lg : ℕ) (entries : ℕ → Option E) : Type 0 where
    pub reached :
        (i : ℕ)
        → i < 2 ^ lg
        → key_of (entries i) ≢ 0
        → (t : ℕ) × (t < 2 ^ lg)
          × (i ≡ seq lg (key_of (entries i)) t)
          × Before lg entries (key_of (entries i)) t

  pub none-Hashed : (lg : ℕ) → Hashed lg (λ i. none)
  none-Hashed lg = record { reached = λ i lt ne. absurd (ne refl) }

  pub live_zero : (A : E → ℕ) (o : Option E) → key_of o ≡ 0 → live A o ≡ 0
  live_zero A none z = refl
  live_zero A (some e) z = ground arith

  pub live_one : (o : Option E) → key_of o ≢ 0 → live (λ e. 1) o ≡ 1
  live_one none ne = absurd (ne refl)
  live_one (some e) ne = ground arith

  pub live-with_key : (q : ℕ) (o : Option E) → q ≢ 0 → key_of o ≡ q → live (with_key q) o ≡ 1
  live-with_key q none nz e = absurd (nz (sym e))
  live-with_key q (some e) nz at = ground arith

  pub empty_slot :
      (n : ℕ) (entries : ℕ → Option E)
      → entry_sum n (λ e. 1) entries < n
      → (i : ℕ) × (i < n) × (key_of (entries i) ≡ 0)
  empty_slot n entries lt =
      let (i, il, z) = sum_below_gap n (λ i. live (λ e. 1) (entries i)) lt in
      (
        i,
        il,
        elim (ℕ_discrete (key_of (entries i)) 0) [
          | yes e ↦ e
          | no ne ↦ absurd (omega (arith, z, live_one (entries i) ne))
        ],
      )

  -- The key of a slot is counted.
  pub present :
      (n : ℕ) (entries : ℕ → Option E) (i : ℕ)
      → i < n
      → key_of (entries i) ≢ 0
      → 0 < entry_sum n (with_key (key_of (entries i))) entries
  present n entries i lt ne = omega (
    arith,
    le-sum_below n (λ j. live (with_key (key_of (entries i))) (entries j)) i lt,
    live-with_key (key_of (entries i)) (entries i) ne refl,
  )

  live_other : (q : ℕ) (o : Option E) → key_of o ≢ q → live (with_key q) o ≡ 0
  live_other q none ne = refl
  live_other q (some e) ne = ground arith

  -- Where a search for key `q` leads to slot `j`.
  abbrev Leads : ℕ → (ℕ → Option E) → ℕ → ℕ → Type 0
  Leads lg entries j q = (t : ℕ) × (t < 2 ^ lg) × (j ≡ seq lg q t) × Before lg entries q t

  slot_key : (entries : ℕ → Option E) (i j : ℕ) → i ≡ j → key_of (entries i) ≡ key_of (entries j)
  slot_key entries i j e = ap (λ x. key_of (entries x)) e

  nowhere :
      (lg : ℕ) (entries : ℕ → Option E) (key i : ℕ)
      → key ≢ 0
      → Hashed lg entries
      → Leads lg entries i key
      → key_of (entries i) ≡ 0
      → (j : ℕ) → j < 2 ^ lg
      → key_of (entries j) ≢ key
  nowhere lg entries key i nz h (t, tl, at, before) empty j jl e =
      let lead : Leads lg entries j key =
        subst (Leads lg entries j) e (h.reached j jl (λ z. nz (sym e ∙ z))) in
      let (s, sl, to, path) = lead in
      elim (Bool-cases (ltb s t)) [
        | inl lt ↦ (before s (ground arith)).1 (sym (slot_key entries j (seq lg key s) to) ∙ e)
        | inr ge ↦ elim (ℕ_discrete s t) [
          | yes same ↦
              let here : i ≡ j = at ∙ ap (seq lg key) (sym same) ∙ sym to in
              nz (sym e ∙ sym (slot_key entries i j here) ∙ empty)
          | no ne ↦ (path t (ground arith)).0 (sym (slot_key entries i (seq lg key t) at) ∙ empty)
        ]
      ]

  no_entry_at :
      (lg : ℕ) (entries : ℕ → Option E) (key i : ℕ)
      → Found lg entries key (i, false)
      → Leads lg entries i key × (key_of (entries i) ≡ 0)
  no_entry_at lg entries key i (t, tl, at, before, inl (e, k)) = absurd (cc)
  no_entry_at lg entries key i (t, tl, at, before, inr (e, z)) = ((t, tl, at, before), z)

  -- A search that ends at an empty slot shows that the key is nowhere.
  pub absent :
      (lg : ℕ) (entries : ℕ → Option E) (key i : ℕ)
      → key ≢ 0
      → Hashed lg entries
      → Found lg entries key (i, false)
      → entry_sum (2 ^ lg) (with_key key) entries ≡ 0
  absent lg entries key i nz h f =
      let (lead, empty) = no_entry_at lg entries key i f in
      sum_below_zero (2 ^ lg) (λ j. live (with_key key) (entries j))
        λ j jl. live_other key (entries j) (nowhere lg entries key i nz h lead empty j jl)

  pub update-at : (entries : ℕ → Option E) (i : ℕ) (o : Option E) → update entries i o i ≡ o
  update-at entries i o = ground (arith, ==_refl i)

  pub update-other :
      (entries : ℕ → Option E) (i : ℕ) (o : Option E) (j : ℕ)
      → j ≢ i
      → update entries i o j ≡ entries j
  update-other entries i o j ne = ground (arith, ==_ne j i ne)

  -- A write to an empty slot leaves every path as it is.
  Before-update :
      (lg : ℕ) (entries : ℕ → Option E) (key t i : ℕ) (o : Option E)
      → key_of (entries i) ≡ 0
      → Before lg entries key t
      → Before lg (update entries i o) key t
  Before-update lg entries key t i o empty before u lt =
      let (filled, other) = before u lt in
      let ne : seq lg key u ≢ i = λ e. filled (slot_key entries (seq lg key u) i e ∙ empty) in
      let same = ap key_of (update-other entries i o (seq lg key u) ne) in
      (λ z. filled (sym same ∙ z), λ k. other (sym same ∙ k))

  put-Hashed :
      (lg : ℕ) (entries : ℕ → Option E) (e : E) (i : ℕ)
      → Hashed lg entries
      → Leads lg entries i (keyed.key e)
      → key_of (entries i) ≡ 0
      → Hashed lg (update entries i (some e))
  put-Hashed lg entries e i h (t, tl, at, before) empty = record {
    reached = λ j jl ne. elim (ℕ_discrete j i) [
      | yes same ↦
          let now : key_of (update entries i (some e) j) ≡ keyed.key e =
            ap (λ x. key_of (update entries i (some e) x)) same
            ∙ ap key_of (update-at entries i (some e)) in
          subst (Leads lg (update entries i (some e)) j) (sym now)
            (t, tl, same ∙ at, Before-update lg entries (keyed.key e) t i (some e) empty before)
      | no other ↦
          let now : key_of (update entries i (some e) j) ≡ key_of (entries j) =
            ap key_of (update-other entries i (some e) j other) in
          let (s, sl, to, path) = h.reached j jl (λ z. ne (now ∙ z)) in
          subst (Leads lg (update entries i (some e)) j) (sym now)
            (s, sl, to, Before-update lg entries (key_of (entries j)) s i (some e) empty path)
    ];
  }

  put_sum :
      (n : ℕ) (A : E → ℕ) (entries : ℕ → Option E) (e : E) (i : ℕ)
      → i < n
      → keyed.key e ≢ 0
      → key_of (entries i) ≡ 0
      → entry_sum n A (update entries i (some e)) ≡ entry_sum n A entries + A e
  put_sum n A entries e i il nz z =
      let now : live A (update entries i (some e) i) ≡ A e =
        ap (live A) (update-at entries i (some e)) ∙ ground (arith, nz) in
      omega (
        arith,
        now,
        live_zero A (entries i) z,
        sum_below_change n (λ j. live A (entries j)) (λ j. live A (update entries i (some e) j)) i
            il (λ j jl ne. ap (live A) (sym (update-other entries i (some e) j ne))),
      )

  -- The array after `e` was put where a search for its key ended.
  pub record Put (lg : ℕ) (e : E) (entries : ℕ → Option E) (r : ℕ × Bool) : Type 0 where
    pub at_empty : r.1 ≡ false
    pub in_range : r.0 < 2 ^ lg
    pub hashed : Hashed lg (update entries r.0 (some e))
    pub sums :
        (A : E → ℕ)
        → entry_sum (2 ^ lg) A (update entries r.0 (some e)) ≡ entry_sum (2 ^ lg) A entries + A e

  pub Put-of_probe :
      (lg : ℕ) (entries : ℕ → Option E) (e : E) (i : ℕ)
      → keyed.key e ≢ 0
      → Hashed lg entries
      → Found lg entries (keyed.key e) (i, false)
      → Put lg e entries (i, false)
  Put-of_probe lg entries e i nz h f =
      let (lead, empty) = no_entry_at lg entries (keyed.key e) i f in
      let (t, tl, at, before) = lead in
      let il : i < 2 ^ lg = omega (arith, at, seq-lt lg (keyed.key e) t) in
      record {
        at_empty = refl;
        in_range = il;
        hashed = put-Hashed lg entries e i h lead empty;
        sums = λ A. put_sum (2 ^ lg) A entries e i il nz empty;
      }

  pub entry_at :
      (lg : ℕ) (entries : ℕ → Option E) (key i : ℕ)
      → Found lg entries key (i, true)
      → (i < 2 ^ lg) × (key_of (entries i) ≡ key)
  entry_at lg entries key i (t, tl, at, before, inl (e, k)) =
      (omega (arith, at, seq-lt lg key t), k)
  entry_at lg entries key i (t, tl, at, before, inr (e, z)) = absurd (cc)

  -- A search that ends with a match shows that the key is there.
  pub there :
      (lg : ℕ) (entries : ℕ → Option E) (key i : ℕ)
      → key ≢ 0
      → Found lg entries key (i, true)
      → 0 < entry_sum (2 ^ lg) (with_key key) entries
  there lg entries key i nz f =
      let (il, k) = entry_at lg entries key i f in
      omega (
        arith,
        le-sum_below (2 ^ lg) (λ j. live (with_key key) (entries j)) i il,
        live-with_key key (entries i) nz k,
      )

  pub decided :
      (lg : ℕ) (e : E) (entries : ℕ → Option E) (r : ℕ × Bool)
      → keyed.key e ≢ 0
      → Hashed lg entries
      → entry_sum (2 ^ lg) (with_key (keyed.key e)) entries ≡ 0
      → Found lg entries (keyed.key e) r
      → Put lg e entries r
  decided lg e entries (i, true) nz h new f =
      absurd (omega (arith, there lg entries (keyed.key e) i nz f))
  decided lg e entries (i, false) nz h new f = Put-of_probe lg entries e i nz h f

  -- A new key finds an empty slot as long as there is one.
  pub find_in-Put :
      (lg : ℕ) (e : E) (entries : ℕ → Option E)
      → keyed.key e ≢ 0
      → Hashed lg entries
      → entry_sum (2 ^ lg) (with_key (keyed.key e)) entries ≡ 0
      → entry_sum (2 ^ lg) (λ x. 1) entries < 2 ^ lg
      → Ends (Put lg e entries) (λ x. ⊥) (find_in entries lg (keyed.key e))
  find_in-Put lg e entries nz h new room =
      let (i, il, empty) = empty_slot (2 ^ lg) entries room in
      Ends-map (Found lg entries (keyed.key e)) (Put lg e entries) (λ x. ⊥)
        (find_in entries lg (keyed.key e)) (λ r f. decided lg e entries r nz h new f)
        (find_in-Ends lg entries (keyed.key e) i il empty)
