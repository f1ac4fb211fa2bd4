-- ===== src/Theta/Intersection/Update.antt =====
-- `update` of the intersection.
use whylogs_datasketches.Base.{
  ℕ, sum_below_mono, ◌^◌, ◌≤◌, ◌<◌, ◌≡◌, ◌≢◌, refl, ap, subst, sym, ◌∙◌, arith, Bool, true, false,
  not, ◌&&◌, ◌||◌, ltb, ◌==◌, if◌then◌else◌, Bool-cases, ◌⊎◌, inl, inr, min, List, [], ◌∷◌, length,
  Outcome, ok, invalid_argument, Ends, Ends-map, Ends-bind, Ends-if, Ends-throw_if, Ends-no_error,
  Ends-weaken,
}
use whylogs_datasketches.Theta.Table.{Keyed, Table, max_theta, new}
use whylogs_datasketches.Theta.Entries.{live, with_key}
use whylogs_datasketches.Theta.Rehash.{list_sum, All}
use whylogs_datasketches.Theta.Rebuild.{size, total, IsValid}
use whylogs_datasketches.Theta.Fresh.{new-IsValid, new_total}
use whylogs_datasketches.Theta.Stride.{pow_pos}
use whylogs_datasketches.Theta.Sketch.{Sketch}
use whylogs_datasketches.Theta.Union.Update.{elem_key, IsSketch}
use whylogs_datasketches.Theta.Union.Result.{wanted, length_sum}
use whylogs_datasketches.Theta.Intersection.{
  IntersectionState, lg_size_from_count, table_for, no_entries, fill, first_update, match_loop,
  intersect, with_entries, update_intersection,
}
use whylogs_datasketches.Theta.Intersection.Size.{lg_size_from_count-Ends, Sized, narrow_of}
use whylogs_datasketches.Theta.Intersection.Fill.{Roomy, Filled, fill-Ends}
use whylogs_datasketches.Theta.Intersection.Match.{
  Searches, Searches-of, live_mono, Matched, match_loop-Ends, hits_bound,
}

module _ {E : Type 0} ⦃keyed : Keyed E⦄ where
  -- A table made for a list of entries, with the entries in it.
  pub record Made (es : List E) (t t' : Table E) : Type 0 where
    pub valid : IsValid t'
    pub narrow : t'.lg_cur_size ≤ 30
    pub sums : (A : E → ℕ) → total A t' ≡ list_sum A es
    pub same_theta : t'.theta ≡ t.theta
    pub same_seed : t'.seed ≡ t.seed
    pub same_empty : t'.is_empty ≡ t.is_empty

  -- A table that was made for `n` entries.
  record Fresh (n : ℕ) (t start : Table E) : Type 0 where
    lg : ℕ
    sized : 1 ≤ lg
    narrow : lg ≤ 30
    room : n < 2 ^ lg
    made : start ≡ new t.is_empty lg lg 0 max_theta t.theta t.seed

  table_for-Ends : (n : ℕ) (t : Table E) → n < 2 ^ 29 → Ends (Fresh n t) (λ x. ⊥) (table_for n t)
  unfolding table_for
  table_for-Ends n t short =
      Ends-bind (λ lg. Sized n lg × (n < 2 ^ 30)) (Fresh n t) (λ x. ⊥) (lg_size_from_count n) _
        (Ends-weaken _ _ (λ x. ⊥) (lg_size_from_count n) (λ x h. absurd (omega (arith, h.1, short)))
          (lg_size_from_count-Ends n (omega arith)))
        λ lg _ h. record {
          lg = lg;
          sized = h.0.1;
          narrow = narrow_of n lg short h.0.2;
          room = omega (arith, h.0.0, pow_pos lg);
          made = refl;
        }

  fill-new :
      (strict : Bool) (es : List E) (t : Table E) (lg : ℕ)
      → All (λ e. (keyed.key e ≢ 0) × (keyed.key e < t.theta)) es
      → ((q : ℕ) → list_sum (with_key q) es ≤ 1)
      → 1 ≤ lg
      → lg ≤ 30
      → length es < 2 ^ lg
      → Ends (Made es t) (λ x. ⊥) (fill strict es (new t.is_empty lg lg 0 max_theta t.theta t.seed))
  unfolding new
  fill-new strict es t lg low once sized narrow room =
      let start : Table E = new t.is_empty lg lg 0 max_theta t.theta t.seed in
      let none : (A : E → ℕ) → total A start ≡ 0 =
        new_total t.is_empty lg lg 0 max_theta t.theta t.seed in
      Ends-map (λ t'. Roomy lg t.theta t' × Filled (λ A. list_sum A es) start t') (Made es t)
        (λ x. ⊥) (fill strict es start)
        (λ t' h. record {
          valid = h.0.valid;
          narrow = omega (arith, h.0.narrow, narrow);
          sums = λ A. omega (arith, h.1.sums A, none A);
          same_theta = h.0.same_theta;
          same_seed = h.1.same_seed;
          same_empty = h.1.same_empty;
        })
        (fill-Ends strict lg t.theta es start low (λ q. omega (arith, none (with_key q), once q))
          (omega (arith, length_sum es, room))
          (record {
            valid = new-IsValid t.is_empty lg lg 0 max_theta t.theta t.seed sized;
            same_nom = refl;
            wide = omega arith;
            narrow = omega arith;
            fixed = refl;
            same_theta = refl;
          }))

  fill-Fresh :
      (strict : Bool) (es : List E) (t start : Table E)
      → All (λ e. (keyed.key e ≢ 0) × (keyed.key e < t.theta)) es
      → ((q : ℕ) → list_sum (with_key q) es ≤ 1)
      → Fresh (length es) t start
      → Ends (Made es t) (λ x. ⊥) (fill strict es start)
  fill-Fresh strict es t start low once f =
      subst (λ u. Ends (Made es t) (λ x. ⊥) (fill strict es u)) (sym f.made)
        (fill-new strict es t f.lg low once f.sized f.narrow f.room)

  -- The table of an intersection that holds just the keys that all sketches have. It has
  -- at most 2^30 slots, which the shift of a 32-bit int can give.
  pub record Meets (seen : ℕ → Bool) (t : Table E) : Type 0 where
    pub holds : (q : ℕ) → total (with_key q) t ≡ wanted seen t.theta q
    pub counted : total (λ e. 1) t ≡ t.num_entries
    pub usable : IsValid t ⊎ (t.num_entries ≡ 0)
    pub narrow : t.lg_cur_size ≤ 30
    pub none_if_empty : t.is_empty ≡ true → t.num_entries ≡ 0

  -- What is left of a table that was made for the entries of a list.
  Made-common :
      (es : List E) (seen : ℕ → Bool) (t t' : Table E)
      → t.is_empty ≡ false
      → ((q : ℕ) → list_sum (with_key q) es ≡ wanted seen t.theta q)
      → Made es t t'
      → Meets seen t'
  Made-common es seen t t' filled keys m = record {
    holds = λ q. m.sums (with_key q) ∙ keys q ∙ ap (λ k. wanted seen k q) (sym m.same_theta);
    counted = m.valid.loaded.counted;
    usable = inl m.valid;
    narrow = m.narrow;
    none_if_empty = λ e. absurd (ground (arith, e, filled, m.same_empty));
  }

  -- A table without entries.
  Empty-common :
      (seen : ℕ → Bool) (t : Table E) (is_empty : Bool)
      → ((q : ℕ) → wanted seen t.theta q ≡ 0)
      → Meets seen (record (no_entries t) { is_empty = is_empty })
  unfolding no_entries new
  Empty-common seen t is_empty none = record {
    holds = λ q.
        new_total {E = E} t.is_empty 0 0 0 max_theta t.theta t.seed (with_key q) ∙ sym (none q);
    counted = new_total {E = E} t.is_empty 0 0 0 max_theta t.theta t.seed (λ e. 1);
    usable = inr refl;
    narrow = omega arith;
    none_if_empty = λ e. refl;
  }

  -- A sketch as its iterators promise it, with distinct keys below its `theta`.
  pub record IsExact (s : Sketch E) : Type 0 where
    pub sketch : IsSketch s
    pub counted : s.num_retained ≡ length s.entries
    pub distinct : (q : ℕ) → list_sum (with_key q) s.entries ≤ 1
    pub low : All (λ e. (keyed.key e ≢ 0) × (keyed.key e < s.theta)) s.entries
    pub theta_le : s.theta ≤ max_theta

  elem_wanted :
      (theta : ℕ) (es : List E) (q : ℕ)
      → All (λ e. (keyed.key e ≢ 0) × (keyed.key e < theta)) es
      → list_sum (with_key q) es ≤ 1
      → list_sum (with_key q) es ≡ wanted (λ k. elem_key k es) theta q
  elem_wanted theta [] q low once = ground arith
  elem_wanted theta (e ∷ es) q low once =
      ground (arith, low.0, once, elem_wanted theta es q low.1 (omega (arith, once)))

  -- A step that keeps `theta` and the seed.
  abbrev pub Common : (ℕ → Bool) → Table E → Table E → Type 0
  Common seen t t' = Meets seen t' × (t'.theta ≡ t.theta) × (t'.seed ≡ t.seed)

  pub first_update-Ends :
      (s : Sketch E) (t : Table E)
      → IsExact s
      → length s.entries < 2 ^ 29
      → t.is_empty ≡ false
      → t.theta ≡ s.theta
      → Ends (Common (λ q. elem_key q s.entries) t) (λ x. ⊥) (first_update s t)
  unfolding first_update
  first_update-Ends s t x short filled at =
      let low : All (λ e. (keyed.key e ≢ 0) × (keyed.key e < t.theta)) s.entries =
        subst (λ k. All (λ e. (keyed.key e ≢ 0) × (keyed.key e < k)) s.entries) (sym at) x.low in
      Ends-bind (Fresh (length s.entries) t) _ (λ x. ⊥) (table_for s.num_retained t) _
        (subst (λ n. Ends (Fresh (length s.entries) t) (λ x. ⊥) (table_for n t)) (sym x.counted)
          (table_for-Ends (length s.entries) t short))
        λ fresh _ start.
          Ends-bind (Made s.entries t) _ (λ x. ⊥) (fill true s.entries fresh) _
            (fill-Fresh true s.entries t fresh low x.distinct start)
            λ t' _ m.
              let all : t'.num_entries ≡ s.num_retained =
                omega (
                  arith,
                  m.valid.loaded.counted,
                  m.sums (λ e. 1),
                  length_sum s.entries,
                  x.counted,
                ) in
              Ends-throw_if _ (λ x. ⊥) (not (t'.num_entries == s.num_retained)) invalid_argument _
                (λ off. absurd (ground (arith, off, all)))
                λ fine. (
                  Made-common s.entries (λ q. elem_key q s.entries) t t' filled
                      (λ q. elem_wanted t.theta s.entries q low (x.distinct q)) m,
                  m.same_theta,
                  m.same_seed,
                )

  -- The keys of the table that the sketch has too.
  abbrev both : (ℕ → Bool) → Sketch E → ℕ → Bool
  both seen s q = seen q && elem_key q s.entries

  matched_keys :
      (seen : ℕ → Bool) (s : Sketch E) (t : Table E) (q n before : ℕ)
      → t.theta ≤ before
      → total (with_key q) t ≡ wanted seen before q
      → n ≡ (if ltb q t.theta && elem_key q s.entries then total (with_key q) t else 0)
      → n ≡ wanted (both seen s) t.theta q
  matched_keys seen s t q n before le had found = ground (arith, had, found)

  nonzero_of :
      (es : List E) (theta : ℕ)
      → All (λ e. (keyed.key e ≢ 0) × (keyed.key e < theta)) es
      → All (λ e. keyed.key e ≢ 0) es
  nonzero_of [] theta low = tt
  nonzero_of (e ∷ es) theta low = (low.0.0, nonzero_of es theta low.1)

  no_keys : (es : List E) (q : ℕ) → length es ≡ 0 → list_sum (with_key q) es ≡ 0
  no_keys [] q h = refl
  no_keys (e ∷ es) q h = absurd (omega arith)

  cleared :
      (seen : ℕ → Bool) (s : Sketch E) (t : Table E) (matched : List E)
      → length matched ≡ 0
      → ((q : ℕ) → list_sum (with_key q) matched ≡ wanted (both seen s) t.theta q)
      → Common
          (both seen s)
          t
          (if t.theta == max_theta then record (no_entries t) { is_empty = true } else no_entries t)
  unfolding no_entries new
  cleared seen s t matched none keys =
      let gone : (q : ℕ) → wanted (both seen s) t.theta q ≡ 0 =
        λ q. sym (keys q) ∙ no_keys matched q none in
      elim (Bool-cases (t.theta == max_theta)) [
        | inl exact ↦ rw exact (Empty-common (both seen s) t true gone, refl, refl)
        | inr sampled ↦ rw sampled (Empty-common (both seen s) t t.is_empty gone, refl, refl)
      ]

  -- The second and further updates, with a policy that leaves the entry as it is.
  pub intersect-Ends :
      (policy : E → E → E) (seen : ℕ → Bool) (s : Sketch E) (t : Table E) (before : ℕ)
      → ((a b : E) → policy a b ≡ a)
      → IsExact s
      → length s.entries < 2 ^ 29
      → t.is_empty ≡ false
      → Searches t
      → total (λ e. 1) t ≡ t.num_entries
      → t.theta ≤ before
      → ((q : ℕ) → total (with_key q) t ≡ wanted seen before q)
      → Ends (Common (both seen s) t) (λ x. ⊥) (intersect policy s t)
  unfolding intersect
  intersect-Ends policy seen s t before nop x short filled v counted le had =
      let max_matches : ℕ = min t.num_entries s.num_retained in
      Ends-bind (Matched s.is_ordered s.entries t 0) _ (λ x. ⊥)
        (match_loop policy s.is_ordered max_matches s.entries t 0 0) _
        (match_loop-Ends policy s.is_ordered max_matches s.entries t nop v
          (nonzero_of s.entries s.theta x.low) x.sketch.sorted x.distinct 0 0
          (omega (arith, hits_bound t s.entries v.1 x.distinct, counted, x.counted)))
        λ r _ m.
          Ends-throw_if _ (λ x. ⊥) (ltb s.num_retained r.1) invalid_argument _
            (λ more. absurd (ground (arith, more, m.counted, x.counted)))
            λ fits.
              Ends-throw_if _ (λ x. ⊥) (not s.is_ordered && ltb r.1 s.num_retained) invalid_argument
                _ (λ fewer. absurd (ground (arith, fewer, m.all_counted, x.counted)))
                λ all.
                  let keys : (q : ℕ) → list_sum (with_key q) r.0 ≡ wanted (both seen s) t.theta q =
                    λ q.
                      matched_keys seen s t q (list_sum (with_key q) r.0) before le (had q)
                        (m.keys q) in
                  Ends-if (Common (both seen s) t) (λ x. ⊥) (length r.0 == 0) _ _
                    (λ none. cleared seen s t r.0 (ground arith) keys)
                    (λ some_left.
                      Ends-bind (Fresh (length r.0) t) _ (λ x. ⊥) (table_for (length r.0) t) _
                        (table_for-Ends (length r.0) t (omega (arith, m.short, short)))
                        λ fresh _ start.
                          Ends-map (Made r.0 t) (Common (both seen s) t) (λ x. ⊥)
                            (fill false r.0 fresh)
                            (λ t' d. (
                              Made-common r.0 (both seen s) t t' filled keys d,
                              d.same_theta,
                              d.same_seed,
                            ))
                            (fill-Fresh false r.0 t fresh m.low (λ q. ground (arith, keys q))
                              start))

  -- An intersection before its first update, or one that holds the keys that are in all sketches.
  abbrev pub IsSound : (ℕ → Bool) → IntersectionState E → Type 0
  IsSound seen st =
      ((st.is_valid ≡ false)
        × (st.table.is_empty ≡ false)
        × (st.table.theta ≡ max_theta)
        × ((q : ℕ) → seen q ≡ true))
      ⊎ ((st.is_valid ≡ true) × Meets seen st.table)

  pub no_key :
      (q : ℕ) (s : Sketch E)
      → IsExact s
      → (s.is_empty ≡ true) ⊎ (s.num_retained ≡ 0)
      → elem_key q s.entries ≡ false
  no_key q s x none = go s.entries none_left
    where
      none_left : length s.entries ≡ 0
      none_left = elim none [
        | inl e ↦ ap length (x.sketch.none_if_empty e)
        | inr z ↦ sym x.counted ∙ z
      ]

      go : (es : List E) → length es ≡ 0 → elem_key q es ≡ false
      go [] h = refl
      go (e ∷ es) h = absurd (omega arith)

  one_le : (q : ℕ) (t : Table E) → total (with_key q) t ≤ total (λ e. 1) t
  one_le q t =
      sum_below_mono (size t) (λ i. live (with_key q) (t.entries i))
        (λ i. live (λ e. 1) (t.entries i))
        (λ i il. live_mono (with_key q) (λ e. 1) (t.entries i) (λ x. ground arith))

  -- A table without entries stays as it is.
  nothing_left :
      (seen : ℕ → Bool) (s : Sketch E) (t : Table E) (theta : ℕ) (is_empty : Bool)
      → t.num_entries ≡ 0
      → Meets seen t
      → ((theta ≤ t.theta) ⊎ ((q : ℕ) → elem_key q s.entries ≡ false))
      → Meets (both seen s) (record t { is_empty = is_empty; theta = theta })
  nothing_left seen s t theta is_empty none k fewer = record {
    holds = λ q.
        let zero_here : total (with_key q) t ≡ 0 = omega (arith, one_le q t, k.counted, none) in
        elim fewer [
          | inl le ↦ ground (arith, zero_here, k.holds q, le)
          | inr out ↦ ground (arith, zero_here, out q)
        ];
    counted = k.counted;
    usable = inr none;
    narrow = k.narrow;
    none_if_empty = λ e. none;
  }

  -- What an update leaves.
  abbrev pub Narrowed : (ℕ → Bool) → Sketch E → IntersectionState E → IntersectionState E → Type 0
  Narrowed seen s st st' =
      (st'.is_valid ≡ true)
      × Meets (both seen s) st'.table
      × (st'.table.seed ≡ st.table.seed)
      × ((st'.table.is_empty ≡ true) ⊎ (st'.table.theta ≡ min st.table.theta s.theta))

  all_seen :
      (seen : ℕ → Bool) (s : Sketch E) (t : Table E)
      → ((q : ℕ) → seen q ≡ true)
      → Meets (λ q. elem_key q s.entries) t
      → Meets (both seen s) t
  all_seen seen s t every k = record {
    holds = λ q. ground (arith, k.holds q, every q);
    counted = k.counted;
    usable = k.usable;
    narrow = k.narrow;
    none_if_empty = k.none_if_empty;
  }

  with_entries-Ends :
      (policy : E → E → E) (seen : ℕ → Bool) (st : IntersectionState E) (s : Sketch E)
      → ((a b : E) → policy a b ≡ a)
      → IsExact s
      → length s.entries < 2 ^ 29
      → IsSound seen st
      → st.table.is_empty ≡ false
      → (st.is_valid ≡ true → st.table.num_entries ≢ 0)
      → Ends
          (Narrowed seen s st)
          (λ x. ⊥)
          (with_entries policy st.is_valid s
            (record st.table { is_empty = false; theta = min st.table.theta s.theta }))
  unfolding with_entries
  with_entries-Ends policy seen st s nop x short sound filled some_left =
      let t : Table E = record st.table { is_empty = false; theta = min st.table.theta s.theta } in
      Ends-bind (Common (both seen s) t) (Narrowed seen s st) (λ x. ⊥)
        (if st.is_valid then intersect policy s t else first_update s t) _
        (Ends-if (Common (both seen s) t) (λ x. ⊥) st.is_valid (intersect policy s t)
          (first_update s t)
          (λ valid. elim sound [
            | inl fresh ↦ absurd (ground (arith, fresh.0, valid))
            | inr kept ↦ elim kept.1.usable [
              | inl v ↦
                  intersect-Ends policy seen s t st.table.theta nop x short refl
                    (Searches-of st.table t.theta false v) kept.1.counted (omega arith) kept.1.holds
              | inr none ↦ absurd (some_left valid none)
            ]
          ])
          (λ first. elim sound [
            | inl fresh ↦
                Ends-map (Common (λ q. elem_key q s.entries) t) (Common (both seen s) t) (λ x. ⊥)
                  (first_update s t) (λ t' c. (all_seen seen s t' fresh.3 c.0, c.1, c.2))
                  (first_update-Ends s t x short refl (omega (arith, fresh.2, x.theta_le)))
            | inr kept ↦ absurd (ground (arith, kept.0, first))
          ]))
        λ t' _ c. (refl, c.0, c.2, inr c.1)

  -- The end of `update`, where the flag and `theta` of the table are known.
  abbrev last_steps :
      (E → E → E) → IntersectionState E → Sketch E → Bool → ℕ → Outcome (IntersectionState E)
  last_steps policy st s is_empty theta =
      let t : Table E = record st.table { is_empty = is_empty; theta = theta } in
      if st.is_valid && (t.num_entries == 0)
      then ok (record st { table = t })
      else (if s.num_retained == 0
          then ok (record { is_valid = true; table = no_entries t })
          else with_entries policy st.is_valid s t)

  empty_common :
      (seen : ℕ → Bool) (s : Sketch E) (t : Table E)
      → ((q : ℕ) → wanted (both seen s) t.theta q ≡ 0)
      → Meets (both seen s) (no_entries t)
  unfolding no_entries new
  empty_common seen s t gone = Empty-common (both seen s) t t.is_empty gone

  empty_seed : (t : Table E) → (no_entries t).seed ≡ t.seed
  unfolding no_entries new
  empty_seed t = refl

  empty_flag : (t : Table E) → (no_entries t).is_empty ≡ t.is_empty
  unfolding no_entries new
  empty_flag t = refl

  empty_theta : (t : Table E) → (no_entries t).theta ≡ t.theta
  unfolding no_entries new
  empty_theta t = refl

  -- An update by an empty sketch.
  no_more :
      (policy : E → E → E) (seen : ℕ → Bool) (st : IntersectionState E) (s : Sketch E)
      → ((a b : E) → policy a b ≡ a)
      → IsExact s
      → IsSound seen st
      → st.table.is_empty ≡ false
      → s.is_empty ≡ true
      → Ends (Narrowed seen s st) (λ x. ⊥) (last_steps policy st s true max_theta)
  no_more policy seen st s nop x sound filled e =
      let t : Table E = record st.table { is_empty = true; theta = max_theta } in
      let out : (q : ℕ) → elem_key q s.entries ≡ false = λ q. no_key q s x (inl e) in
      let gone : (q : ℕ) → wanted (both seen s) t.theta q ≡ 0 = λ q. ground (arith, out q) in
      Ends-if (Narrowed seen s st) (λ x. ⊥) (st.is_valid && (t.num_entries == 0)) _ _
        (λ none. elim sound [
          | inl fresh ↦ absurd (ground (arith, fresh.0, none))
          | inr kept ↦ (
            kept.0,
            nothing_left seen s st.table max_theta true (ground arith) kept.1 (inr out),
            refl,
            inl refl,
          )
        ])
        (λ more.
          Ends-if (Narrowed seen s st) (λ x. ⊥) (s.num_retained == 0) _ _
            (λ none. (refl, empty_common seen s t gone, empty_seed t, inl (empty_flag t)))
            (λ some_there.
              absurd (ground (arith, some_there, x.counted, ap length (x.sketch.none_if_empty e)))))

  -- An update by a sketch that is not empty.
  some_more :
      (policy : E → E → E) (seen : ℕ → Bool) (st : IntersectionState E) (s : Sketch E)
      → ((a b : E) → policy a b ≡ a)
      → IsExact s
      → length s.entries < 2 ^ 29
      → IsSound seen st
      → st.table.is_empty ≡ false
      → Ends
          (Narrowed seen s st)
          (λ x. ⊥)
          (last_steps policy st s false (min st.table.theta s.theta))
  some_more policy seen st s nop x short sound filled =
      let t : Table E = record st.table { is_empty = false; theta = min st.table.theta s.theta } in
      Ends-if (Narrowed seen s st) (λ x. ⊥) (st.is_valid && (t.num_entries == 0)) _ _
        (λ none. elim sound [
          | inl fresh ↦ absurd (ground (arith, fresh.0, none))
          | inr kept ↦ (
            kept.0,
            nothing_left seen s st.table t.theta false (ground arith) kept.1 (inl (omega arith)),
            refl,
            inr refl,
          )
        ])
        (λ more.
          Ends-if (Narrowed seen s st) (λ x. ⊥) (s.num_retained == 0) _ _
            (λ none.
              let out : (q : ℕ) → elem_key q s.entries ≡ false =
                λ q. no_key q s x (inr (ground arith)) in
              (
                refl,
                empty_common seen s t (λ q. ground (arith, out q)),
                empty_seed t,
                inr (empty_theta t),
              ))
            (λ some_there.
              with_entries-Ends policy seen st s nop x short sound filled
                (λ valid. ground (arith, more, valid))))

  -- `update` of an intersection, new or with the keys that all sketches so far have in a table of
  -- at most 2^30 slots, by a sketch of fewer than 2^29 entries, with distinct keys that are not 0,
  -- below its `theta` and in ascending order if it claims so, and with a policy that keeps the old
  -- entry. It throws only for a sketch that is not empty and has another seed hash. Otherwise the
  -- table still has at most 2^30 slots and holds just the keys that all sketches so far have and
  -- that are below its `theta`, each once. Unless the result is empty, its `theta` is the lesser of
  -- that before and that of the sketch.
  pub update_intersection-Ends :
      (compute_seed_hash : ℕ → ℕ) (policy : E → E → E) (seen : ℕ → Bool) (st : IntersectionState E)
      (s : Sketch E)
      → ((a b : E) → policy a b ≡ a)
      → IsExact s
      → length s.entries < 2 ^ 29
      → IsSound seen st
      → Ends
          (Narrowed seen s st)
          (λ x.
            (x ≡ invalid_argument)
            × (s.is_empty ≡ false)
            × (s.seed_hash ≢ compute_seed_hash st.table.seed))
          (update_intersection compute_seed_hash policy st s)
  unfolding update_intersection with_entries intersect first_update
  update_intersection-Ends compute_seed_hash policy seen st s nop x short sound =
      Ends-if _ _ st.table.is_empty (ok st) _
        (λ e. elim sound [
          | inl fresh ↦ absurd (ground (arith, fresh.1, e))
          | inr kept ↦ (
            kept.0,
            nothing_left seen s st.table st.table.theta st.table.is_empty (kept.1.none_if_empty e)
                kept.1 (inl (omega arith)),
            refl,
            inl e,
          )
        ])
        λ filled.
          Ends-throw_if _ _ (not s.is_empty && not (s.seed_hash == compute_seed_hash st.table.seed))
            invalid_argument _ (λ off. (refl, ground arith, ground arith))
            λ same.
              let either : Bool = st.table.is_empty || s.is_empty in
              Ends-no_error (Narrowed seen s st) _
                (last_steps policy st s either
                  (if either then max_theta else min st.table.theta s.theta))
                (elim (Bool-cases s.is_empty) [
                  | inl e ↦ rw (filled, e) (no_more policy seen st s nop x sound filled e)
                  | inr ne ↦ rw (filled, ne) (some_more policy seen st s nop x short sound filled)
                ])
