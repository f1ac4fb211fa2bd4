-- ===== src/Theta/Intersection/Match.antt =====
-- The loop of the intersection that looks for the entries of a sketch in the table.
use native.Mathlib.Decide.{ℕ_discrete}
use whylogs_datasketches.Base.{
  ℕ, zero, suc, min, sum_below, sum_below_mono, ◌+◌, ◌≤◌, ◌<◌, ◌≡◌, ◌≢◌, refl, ap, subst, sym, ◌∙◌,
  arith, Bool, true, false, ◌&&◌, ltb, ◌==◌, if◌then◌else◌, Bool-cases, ◌⊎◌, inl, inr, List, [],
  ◌∷◌, length, Option, none, some, ok, throw_if, invalid_argument, Ends, Ends-map, Ends-bind,
  Ends-if, Ends-throw_if, ◌>>=◌, ◌>>◌,
}
use whylogs_datasketches.Theta.Table.{Keyed, Table, key_of, find}
use whylogs_datasketches.Theta.Probing.{Found}
use whylogs_datasketches.Theta.Entries.{live, entry_sum, Hashed, with_key, absent, there, entry_at}
use whylogs_datasketches.Theta.Rehash.{list_sum, All}
use whylogs_datasketches.Theta.Select.{IsSorted}
use whylogs_datasketches.Theta.Rebuild.{size, total, total_congr, total_zero, IsValid}
use whylogs_datasketches.Theta.Insert.{find-Ends}
use whylogs_datasketches.Theta.Union.{apply_policy}
use whylogs_datasketches.Theta.Union.Update.{elem_key, elem_key_low, apply_nop}
use whylogs_datasketches.Theta.Intersection.Fill.{key_count}
use whylogs_datasketches.Theta.Intersection.{at_slot, match_loop}

module _ {E : Type 0} ⦃keyed : Keyed E⦄ where
  -- Searches of the table do not fail, whatever its `theta` is.
  abbrev pub Searches : Table E → Type 0
  Searches t =
      Hashed t.lg_cur_size t.entries
      × ((q : ℕ) → total (with_key q) t ≤ 1)
      × ((key : ℕ) → Ends (Found t.lg_cur_size t.entries key) (λ x. ⊥) (find t key))

  pub Searches-of :
      (t : Table E) (theta : ℕ) (is_empty : Bool)
      → IsValid t
      → Searches (record t { is_empty = is_empty; theta = theta })
  unfolding find
  Searches-of t theta is_empty v = (v.hashed, v.loaded.once, λ key. find-Ends t key v)

  -- How many of the entries the table has.
  abbrev pub hits : Table E → List E → ℕ
  hits t es = list_sum (λ e. total (with_key (keyed.key e)) t) es

  -- What the loop finds: the entries of the table with the keys of the list below `theta`. All keys
  -- are counted, unless an ordered sketch stops the loop.
  pub record Matched (is_ordered : Bool) (es : List E) (t : Table E) (count : ℕ) (r : List E × ℕ)
      : Type 0 where
    pub keys :
        (q : ℕ)
        → list_sum (with_key q) r.0
          ≡ (if ltb q t.theta && elem_key q es then total (with_key q) t else 0)
    pub low : All (λ e. (keyed.key e ≢ 0) × (keyed.key e < t.theta)) r.0
    pub counted : r.1 ≤ count + length es
    pub all_counted : is_ordered ≡ false → r.1 ≡ count + length es
    pub short : length r.0 ≤ length es

  slot_of :
      (t : Table E) (e : E) (it : ℕ)
      → keyed.key e ≢ 0
      → key_of (t.entries it) ≡ keyed.key e
      → Ends (λ x. keyed.key x ≡ keyed.key e) (λ x. ⊥) (at_slot (t.entries it))
  slot_of t e it nz k = go (t.entries it) k
    where
      go :
          (o : Option E)
          → key_of o ≡ keyed.key e
          → Ends (λ x. keyed.key x ≡ keyed.key e) (λ x. ⊥) (at_slot o)
      go none k = absurd (nz (sym k))
      go (some x) k = k

  abbrev Looks : (E → E → E) → Bool → ℕ → List E → Table E → Type 0
  Looks policy is_ordered max_matches es t =
      (match_count count : ℕ)
      → match_count + hits t es ≤ max_matches
      → Ends (Matched is_ordered es t count) (λ x. ⊥)
          (match_loop policy is_ordered max_matches es t match_count count)

  -- An entry that is not in the table.
  skip_one :
      (is_ordered : Bool) (e : E) (es : List E) (t : Table E) (count : ℕ) (r : List E × ℕ)
      → (t.theta ≤ keyed.key e) ⊎ (total (with_key (keyed.key e)) t ≡ 0)
      → Matched is_ordered es t (count + 1) r
      → Matched is_ordered (e ∷ es) t count r
  skip_one is_ordered e es t count r out m = record {
    keys = λ q. elim (ℕ_discrete q (keyed.key e)) [
      | yes same ↦
          let z : total (with_key q) t ≡ total (with_key (keyed.key e)) t =
            ap (λ k. total (with_key k) t) same in
          ground (arith, same, z, m.keys q, out)
      | no ne ↦ ground (arith, ne, m.keys q)
    ];
    low = m.low;
    counted = omega (arith, m.counted);
    all_counted = λ o. omega (arith, m.all_counted o);
    short = omega (arith, m.short);
  }

  take_one :
      (is_ordered : Bool) (e x : E) (es : List E) (t : Table E) (count : ℕ) (r : List E × ℕ)
      → keyed.key x ≡ keyed.key e
      → keyed.key e ≢ 0
      → keyed.key e < t.theta
      → total (with_key (keyed.key e)) t ≡ 1
      → elem_key (keyed.key e) es ≡ false
      → Matched is_ordered es t (count + 1) r
      → Matched is_ordered (e ∷ es) t count (x ∷ r.0, r.1)
  take_one is_ordered e x es t count r same nz lt held new m = record {
    keys = λ q. elim (ℕ_discrete q (keyed.key e)) [
      | yes at ↦
          let z : total (with_key q) t ≡ 1 = ap (λ k. total (with_key k) t) at ∙ held in
          let n : elem_key q es ≡ false = ap (λ k. elem_key k es) at ∙ new in
          ground (arith, at, same, z, n, m.keys q)
      | no ne ↦ ground (arith, ne, same, m.keys q)
    ];
    low = ((omega (arith, same), omega (arith, same)), m.low);
    counted = omega (arith, m.counted);
    all_counted = λ o. omega (arith, m.all_counted o);
    short = omega (arith, m.short);
  }

  none_elem : (q : ℕ) (es : List E) → list_sum (with_key q) es ≡ 0 → elem_key q es ≡ false
  none_elem q [] h = refl
  none_elem q (e ∷ es) h = ground (arith, h, none_elem q es)

  not_again :
      (e : E) (es : List E)
      → list_sum (with_key (keyed.key e)) (e ∷ es) ≤ 1
      → elem_key (keyed.key e) es ≡ false
  not_again e es once = none_elem (keyed.key e) es (omega (arith, once, key_count e))

  -- What the loop does with an entry whose key is below `theta`.
  look_at :
      (policy : E → E → E) (is_ordered : Bool) (max_matches : ℕ) (e : E) (es : List E) (t : Table E)
      (match_count count : ℕ) (f : ℕ × Bool)
      → ((a b : E) → policy a b ≡ a)
      → Searches t
      → keyed.key e ≢ 0
      → keyed.key e < t.theta
      → elem_key (keyed.key e) es ≡ false
      → match_count + hits t (e ∷ es) ≤ max_matches
      → Looks policy is_ordered max_matches es t
      → Found t.lg_cur_size t.entries (keyed.key e) f
      → Ends
          (Matched is_ordered (e ∷ es) t count)
          (λ x. ⊥)
          (if f.1
            then (do
              throw_if (match_count == max_matches) invalid_argument
              matched ← at_slot ((apply_policy policy t f.0 e).entries f.0)
              (rest, total) ←
                  match_loop policy is_ordered max_matches es
                    (apply_policy policy t f.0 e)
                    (match_count + 1)
                    (count + 1)
              ok (matched ∷ rest, total))
            else match_loop policy is_ordered max_matches es t match_count (count + 1))
  look_at policy is_ordered max_matches e es t match_count count (it, true) nop v nz lt new room
        rest found =
      let one : total (with_key (keyed.key e)) t ≡ 1 =
        omega (arith, there t.lg_cur_size t.entries (keyed.key e) it nz found, v.1 (keyed.key e)) in
      let same : apply_policy policy t it e ≡ t = apply_nop policy t it e nop in
      let slot : Ends (λ x. keyed.key x ≡ keyed.key e) (λ x. ⊥) (at_slot (t.entries it)) =
        slot_of t e it nz (entry_at t.lg_cur_size t.entries (keyed.key e) it found).1 in
      Ends-throw_if _ (λ x. ⊥) (match_count == max_matches) invalid_argument _
        (λ full. absurd (ground (arith, full, one, room)))
        λ more.
          Ends-bind (λ x. keyed.key x ≡ keyed.key e) _ (λ x. ⊥)
            (at_slot ((apply_policy policy t it e).entries it)) _
            (subst (λ u. Ends (λ x. keyed.key x ≡ keyed.key e) (λ x. ⊥) (at_slot (u.entries it)))
              (sym same) slot)
            λ x _ key.
              Ends-bind (Matched is_ordered es t (count + 1)) _ (λ x. ⊥)
                (match_loop policy is_ordered max_matches es (apply_policy policy t it e)
                  (match_count + 1) (count + 1))
                _
                (subst
                  (λ u.
                    Ends (Matched is_ordered es t (count + 1)) (λ x. ⊥)
                      (match_loop policy is_ordered max_matches es u (match_count + 1) (count + 1)))
                  (sym same) (rest (match_count + 1) (count + 1) (omega (arith, one, room))))
                λ r _ m. take_one is_ordered e x es t count r key nz lt one new m
  look_at policy is_ordered max_matches e es t match_count count (it, false) nop v nz lt new room
        rest found =
      Ends-map (Matched is_ordered es t (count + 1)) (Matched is_ordered (e ∷ es) t count) (λ x. ⊥)
        (match_loop policy is_ordered max_matches es t match_count (count + 1))
        (λ r m.
          skip_one is_ordered e es t count r
            (inr (absent t.lg_cur_size t.entries (keyed.key e) it nz v.0 found)) m)
        (rest match_count (count + 1) (omega (arith, room)))

  pub match_loop-Ends :
      (policy : E → E → E) (is_ordered : Bool) (max_matches : ℕ) (es : List E) (t : Table E)
      → ((a b : E) → policy a b ≡ a)
      → Searches t
      → All (λ e. keyed.key e ≢ 0) es
      → (is_ordered ≡ true → IsSorted es)
      → ((q : ℕ) → list_sum (with_key q) es ≤ 1)
      → Looks policy is_ordered max_matches es t
  unfolding match_loop
  match_loop-Ends policy is_ordered max_matches [] t nop v nz sorted once match_count count room =
      record {
        keys = λ q. ground arith;
        low = tt;
        counted = omega arith;
        all_counted = λ o. omega arith;
        short = omega arith;
      }
  match_loop-Ends policy is_ordered max_matches (e ∷ es) t nop v nz sorted once match_count count
        room =
      let rest : Looks policy is_ordered max_matches es t =
        match_loop-Ends policy is_ordered max_matches es t nop v nz.1 (λ o. (sorted o).1)
          (λ q. omega (arith, once q)) in
      Ends-if _ _ (ltb (keyed.key e) t.theta) _ _
        (λ low.
          Ends-bind (Found t.lg_cur_size t.entries (keyed.key e)) _ (λ x. ⊥) (find t (keyed.key e))
            _ (v.2 (keyed.key e))
            λ f _ found.
              look_at policy is_ordered max_matches e es t match_count count f nop v nz.0
                (ground arith) (not_again e es (once (keyed.key e))) room rest found)
        (λ high.
          Ends-if _ _ is_ordered _ _
            (λ stop. record {
              keys = λ q. elim (Bool-cases (ltb q t.theta)) [
                | inl under ↦
                    let past : q < keyed.key e = ground arith in
                    ground (arith, elem_key_low q (keyed.key e) es (sorted stop).0 past)
                | inr over ↦ ground (arith, over)
              ];
              low = tt;
              counted = omega arith;
              all_counted = λ o. absurd (ground (arith, o, stop));
              short = omega arith;
            })
            (λ on.
              Ends-map (Matched is_ordered es t (count + 1)) (Matched is_ordered (e ∷ es) t count)
                (λ x. ⊥) (match_loop policy is_ordered max_matches es t match_count (count + 1))
                (λ r m. skip_one is_ordered e es t count r (inl (ground arith)) m)
                (rest match_count (count + 1) (omega arith))))

  live_add : (A B : E → ℕ) (o : Option E) → live (λ x. A x + B x) o ≡ live A o + live B o
  live_add A B none = refl
  live_add A B (some e) = ground arith

  pub live_mono : (A B : E → ℕ) (o : Option E) → ((x : E) → A x ≤ B x) → live A o ≤ live B o
  live_mono A B none le = omega arith
  live_mono A B (some e) le = ground (arith, le e)

  total_add :
      (n : ℕ) (A B : E → ℕ) (entries : ℕ → Option E)
      → entry_sum n (λ x. A x + B x) entries ≡ entry_sum n A entries + entry_sum n B entries
  unfolding sum_below
  total_add zero A B entries = refl
  total_add (suc n) A B entries = omega (arith, total_add n A B entries, live_add A B (entries n))

  same_test : (a b : E) → with_key (keyed.key a) b ≡ with_key (keyed.key b) a
  same_test a b = ground arith

  hits_swap :
      (t : Table E) (es : List E) → total (λ x. list_sum (with_key (keyed.key x)) es) t ≡ hits t es
  hits_swap t [] = total_zero (λ x. 0) t (λ x. refl)
  hits_swap t (e ∷ es) = omega (
    arith,
    total_add (size t) (λ x. with_key (keyed.key x) e) (λ x. list_sum (with_key (keyed.key x)) es)
        t.entries,
    total_congr (λ x. with_key (keyed.key x) e) (with_key (keyed.key e)) t (λ x. same_test x e),
    hits_swap t es,
  )

  hits_short :
      (t : Table E) (es : List E) → ((q : ℕ) → total (with_key q) t ≤ 1) → hits t es ≤ length es
  hits_short t [] once = omega arith
  hits_short t (e ∷ es) once = omega (arith, once (keyed.key e), hits_short t es once)

  -- At most as many entries match as the smaller of the two sides has.
  pub hits_bound :
      (t : Table E) (es : List E)
      → ((q : ℕ) → total (with_key q) t ≤ 1)
      → ((q : ℕ) → list_sum (with_key q) es ≤ 1)
      → hits t es ≤ min (total (λ x. 1) t) (length es)
  hits_bound t es once distinct =
      let mono : total (λ x. list_sum (with_key (keyed.key x)) es) t ≤ total (λ x. 1) t =
        sum_below_mono (size t)
          (λ i. live (λ x. list_sum (with_key (keyed.key x)) es) (t.entries i))
          (λ i. live (λ x. 1) (t.entries i))
          (λ i il.
            live_mono (λ x. list_sum (with_key (keyed.key x)) es) (λ x. 1) (t.entries i)
              (λ x. distinct (keyed.key x))) in
      omega (arith, mono, hits_swap t es, hits_short t es once)
