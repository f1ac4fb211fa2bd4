-- ===== src/Theta/Union/Update.antt =====
-- What the table of a union holds after its updates.
use mathlib.Core.Path.{fun_ext}
use native.Mathlib.Decide.{ℕ_discrete}
use whylogs_datasketches.Base.{
  ℕ, ◌≤◌, ◌<◌, ◌≡◌, ◌≢◌, refl, ap, sym, subst, ◌∙◌, arith, Bool, true, false, ◌||◌, ◌&&◌, not, ltb,
  ◌==◌, ==_ne, if◌then◌else◌, ◌⊎◌, inl, inr, List, [], ◌∷◌, Option, none, some, ok,
  invalid_argument, Ends, Ends-map, Ends-bind, Ends-if, Ends-throw_if, Ends-no_error,
}
use whylogs_datasketches.Theta.Table.{Keyed, Table, find, insert}
use whylogs_datasketches.Theta.Probing.{Found}
use whylogs_datasketches.Theta.Entries.{with_key, absent, there, Put-of_probe}
use whylogs_datasketches.Theta.Select.{AtLeast, IsSorted}
use whylogs_datasketches.Theta.Rebuild.{total, IsValid}
use whylogs_datasketches.Theta.Insert.{
  Growing, Growing-of, Grows, Inserts, insert-Put, cut_key, find-Ends, IsValid-mark,
}
use whylogs_datasketches.Theta.Sketch.{Sketch}
use whylogs_datasketches.Theta.Union.{
  UnionState, merged, apply_policy, insert_or_merge, update_loop, update_union,
}

module _ {E : Type 0} ⦃keyed : Keyed E⦄ where
  -- A table that an entry was offered to: it holds what it held and the key of the entry, as far as
  -- these are below the new `theta`.
  pub record Offered (t : Table E) (e : E) (t' : Table E) : Type 0 where
    pub valid : IsValid t'
    pub growing : Grows t → Grows t'
    pub theta_le : t'.theta ≤ t.theta
    pub holds :
        (q : ℕ)
        → total (with_key q) t'
          ≡ (if ltb q t'.theta then (if keyed.key e == q then 1 else total (with_key q) t) else 0)
    pub same_nom : t'.lg_nom_size ≡ t.lg_nom_size
    pub same_seed : t'.seed ≡ t.seed
    pub same_empty : t'.is_empty ≡ t.is_empty

  merged_nop :
      (policy : E → E → E) (o : Option E) (e : E)
      → ((a b : E) → policy a b ≡ a)
      → merged policy o e ≡ o
  merged_nop policy none e nop = refl
  merged_nop policy (some old) e nop = ap some (nop old e)

  pub apply_nop :
      (policy : E → E → E) (t : Table E) (it : ℕ) (e : E)
      → ((a b : E) → policy a b ≡ a)
      → apply_policy policy t it e ≡ t
  apply_nop policy t it e nop =
      ap (λ f. record t { entries = f })
        (fun_ext λ x. elim (ℕ_discrete x it) [
          | yes same ↦
              ground (arith, same, merged_nop policy (t.entries it) e nop, ap t.entries same)
          | no other ↦ ground (arith, ==_ne x it other)
        ])

  known-Offered :
      (t : Table E) (e : E) (it : ℕ)
      → IsValid t
      → keyed.key e ≢ 0
      → keyed.key e < t.theta
      → Found t.lg_cur_size t.entries (keyed.key e) (it, true)
      → Offered t e t
  known-Offered t e it v nz lt f =
      let one : 0 < total (with_key (keyed.key e)) t =
        there t.lg_cur_size t.entries (keyed.key e) it nz f in
      record {
        valid = v;
        growing = λ g. g;
        theta_le = omega arith;
        holds = λ q. elim (ℕ_discrete (keyed.key e) q) [
          | yes same ↦
              let once : total (with_key q) t ≡ 1 =
                subst (λ k. total (with_key k) t ≡ 1) same
                  (omega (arith, one, v.loaded.once (keyed.key e))) in
              ground (arith, same, once)
          | no ne ↦ ground (arith, ne, cut_key t.theta q t, v.loaded.below (with_key q))
        ];
        same_nom = refl;
        same_seed = refl;
        same_empty = refl;
      }

  added-Offered :
      (t t' : Table E) (e : E)
      → IsValid t
      → keyed.key e ≢ 0
      → keyed.key e < t.theta
      → total (with_key (keyed.key e)) t ≡ 0
      → Inserts t e t'
      → Offered t e t'
  added-Offered t t' e v nz lt new i = record {
    valid = i.valid;
    growing = λ g. elim g [
      | inl rf ↦ inl (omega (arith, i.same_rf))
      | inr wide ↦ inr (omega (arith, i.same_nom, i.grown))
    ];
    theta_le = i.theta_le;
    holds = λ q. elim (ℕ_discrete (keyed.key e) q) [
      | yes same ↦
          let none : total (with_key q) t ≡ 0 = subst (λ k. total (with_key k) t ≡ 0) same new in
          ground (arith, same, none, i.sums (with_key q), cut_key t'.theta q t)
      | no ne ↦ ground (arith, ne, i.sums (with_key q), cut_key t'.theta q t)
    ];
    same_nom = i.same_nom;
    same_seed = i.same_seed;
    same_empty = i.same_empty;
  }

  looked_up :
      (policy : E → E → E) (t : Table E) (e : E) (f : ℕ × Bool)
      → ((a b : E) → policy a b ≡ a)
      → IsValid t
      → Growing t
      → keyed.key e ≢ 0
      → keyed.key e < t.theta
      → Found t.lg_cur_size t.entries (keyed.key e) f
      → Ends
          (Offered t e)
          (λ x. ⊥)
          (if f.1 then ok (apply_policy policy t f.0 e) else insert t f.0 e)
  looked_up policy t e (it, true) nop v g nz lt found =
      subst (Offered t e) (sym (apply_nop policy t it e nop)) (known-Offered t e it v nz lt found)
  looked_up policy t e (it, false) nop v g nz lt found =
      let new : total (with_key (keyed.key e)) t ≡ 0 =
        absent t.lg_cur_size t.entries (keyed.key e) it nz v.hashed found in
      Ends-map (Inserts t e) (Offered t e) (λ x. ⊥) (insert t it e)
        (λ t' i. added-Offered t t' e v nz lt new i)
        (insert-Put t e (it, false) v g lt new
          (Put-of_probe t.lg_cur_size t.entries e it nz v.hashed found))

  -- With a policy that leaves the entry as it is.
  pub insert_or_merge-Offered :
      (policy : E → E → E) (t : Table E) (e : E)
      → ((a b : E) → policy a b ≡ a)
      → IsValid t
      → Growing t
      → keyed.key e ≢ 0
      → keyed.key e < t.theta
      → Ends (Offered t e) (λ x. ⊥) (insert_or_merge policy t e)
  unfolding insert_or_merge
  insert_or_merge-Offered policy t e nop v g nz lt =
      Ends-bind (Found t.lg_cur_size t.entries (keyed.key e)) _ _ (find t (keyed.key e)) _
        (find-Ends t (keyed.key e) v) (λ f _ found. looked_up policy t e f nop v g nz lt found)

  -- Whether an entry of the list has the key `q`.
  abbrev pub elem_key : ℕ → List E → Bool
  elem_key q [] = false
  elem_key q (e ∷ es) = (keyed.key e == q) || elem_key q es

  pub elem_key_low : (q lo : ℕ) (es : List E) → AtLeast lo es → q < lo → elem_key q es ≡ false
  elem_key_low q lo [] h lt = refl
  elem_key_low q lo (e ∷ es) h lt = ground (arith, elem_key_low q lo es h.1 lt)

  -- Below `limit` and the table's own `theta`, the table holds just the keys seen.
  pub record Collects (limit : ℕ) (seen : ℕ → Bool) (t : Table E) : Type 0 where
    pub valid : IsValid t
    pub grows : Grows t
    pub holds :
        (q : ℕ)
        → q < limit
        → q < t.theta
        → total (with_key q) t ≡ (if ltb 0 q && seen q then 1 else 0)

  -- The same keys, seen in other words.
  pub Collects-change :
      (limit limit' : ℕ) (seen seen' : ℕ → Bool) (t : Table E)
      → limit' ≤ limit
      → ((q : ℕ) → q < limit' → q < t.theta → seen' q ≡ seen q)
      → Collects limit seen t
      → Collects limit' seen' t
  Collects-change limit limit' seen seen' t le same c = record {
    valid = c.valid;
    grows = c.grows;
    holds = λ q ql qt. ground (arith, same q ql qt, c.holds q (omega arith) qt);
  }

  marked :
      (limit : ℕ) (seen : ℕ → Bool) (t : Table E)
      → Collects limit seen t
      → Collects limit seen (record t { is_empty = false })
  marked limit seen t c = record {
    valid = IsValid-mark t false c.valid;
    grows = c.grows;
    holds = c.holds;
  }

  Offered-Collects :
      (limit : ℕ) (seen : ℕ → Bool) (t t' : Table E) (e : E)
      → keyed.key e ≢ 0
      → Collects limit seen t
      → Offered t e t'
      → Collects limit (λ q. (keyed.key e == q) || seen q) t'
  Offered-Collects limit seen t t' e nz c o = record {
    valid = o.valid;
    grows = o.growing c.grows;
    holds =
        λ q ql qt. ground (arith, o.holds q, o.theta_le, c.holds q ql (omega (arith, o.theta_le)));
  }

  -- What the loop of `update` leaves.
  pub record Looped (limit : ℕ) (seen : ℕ → Bool) (t t' : Table E) : Type 0 where
    pub collects : Collects limit seen t'
    pub theta_le : t'.theta ≤ t.theta
    pub same_nom : t'.lg_nom_size ≡ t.lg_nom_size
    pub same_seed : t'.seed ≡ t.seed
    pub same_empty : t'.is_empty ≡ t.is_empty

  pub update_loop-Ends :
      (policy : E → E → E) (is_ordered : Bool) (limit : ℕ) (es : List E) (seen : ℕ → Bool)
      (t : Table E)
      → ((a b : E) → policy a b ≡ a)
      → AtLeast 1 es
      → (is_ordered ≡ true → IsSorted es)
      → Collects limit seen t
      → Ends
          (Looped limit (λ q. elem_key q es || seen q) t)
          (λ x. ⊥)
          (update_loop policy is_ordered limit es t)
  unfolding update_loop
  update_loop-Ends policy is_ordered limit [] seen t nop nz sorted c = record {
    collects = c;
    theta_le = omega arith;
    same_nom = refl;
    same_seed = refl;
    same_empty = refl;
  }
  update_loop-Ends policy is_ordered limit (e ∷ es) seen t nop nz sorted c =
      Ends-if _ _ (ltb (keyed.key e) limit && ltb (keyed.key e) t.theta) _ _
        (λ low.
          let lt : keyed.key e < t.theta = ground arith in
          Ends-bind (Offered t e) (Looped limit (λ q. elem_key q (e ∷ es) || seen q) t) (λ x. ⊥)
            (insert_or_merge policy t e) _
            (insert_or_merge-Offered policy t e nop c.valid (Growing-of t c.grows) (omega arith) lt)
            (λ t' _ o.
              Ends-map (Looped limit (λ q. elem_key q es || ((keyed.key e == q) || seen q)) t')
                (Looped limit (λ q. elem_key q (e ∷ es) || seen q) t) (λ x. ⊥)
                (update_loop policy is_ordered limit es t')
                (λ u l. record {
                  collects =
                      Collects-change limit limit
                        (λ q. elem_key q es || ((keyed.key e == q) || seen q))
                        (λ q. elem_key q (e ∷ es) || seen q) u (omega arith)
                        (λ q ql qt. ground arith) l.collects;
                  theta_le = omega (arith, l.theta_le, o.theta_le);
                  same_nom = l.same_nom ∙ o.same_nom;
                  same_seed = l.same_seed ∙ o.same_seed;
                  same_empty = l.same_empty ∙ o.same_empty;
                })
                (update_loop-Ends policy is_ordered limit es (λ q. (keyed.key e == q) || seen q) t'
                  nop nz.1 (λ s. (sorted s).1)
                  (Offered-Collects limit seen t t' e (omega arith) c o))))
        (λ high.
          Ends-if _ _ is_ordered (ok t) _
            (λ stop. record {
              collects =
                  Collects-change limit limit seen (λ q. elem_key q (e ∷ es) || seen q) t
                    (omega arith)
                    (λ q ql qt.
                      let past : q < keyed.key e = ground arith in
                      ground (arith, elem_key_low q (keyed.key e) es (sorted stop).0 past))
                    c;
              theta_le = omega arith;
              same_nom = refl;
              same_seed = refl;
              same_empty = refl;
            })
            (λ on.
              Ends-map (Looped limit (λ q. elem_key q es || seen q) t)
                (Looped limit (λ q. elem_key q (e ∷ es) || seen q) t) (λ x. ⊥)
                (update_loop policy is_ordered limit es t)
                (λ u l.
                  let le : u.theta ≤ t.theta = l.theta_le in
                  record {
                    collects =
                        Collects-change limit limit (λ q. elem_key q es || seen q)
                          (λ q. elem_key q (e ∷ es) || seen q) u (omega arith)
                          (λ q ql qt. ground arith) l.collects;
                    theta_le = l.theta_le;
                    same_nom = l.same_nom;
                    same_seed = l.same_seed;
                    same_empty = l.same_empty;
                  })
                (update_loop-Ends policy is_ordered limit es seen t nop nz.1 (λ s. (sorted s).1)
                  c)))

  -- A sketch as its iterators promise it: no key is 0, and an ordered sketch is in ascending order.
  pub record IsSketch (s : Sketch E) : Type 0 where
    pub nonzero : AtLeast 1 s.entries
    pub sorted : s.is_ordered ≡ true → IsSorted s.entries
    pub none_if_empty : s.is_empty ≡ true → s.entries ≡ []

  -- The state of a union that was given sketches with the keys seen.
  pub record Unites (seen : ℕ → Bool) (u : UnionState E) : Type 0 where
    pub collects : Collects u.union_theta seen u.table
    pub theta_le : u.union_theta ≤ u.table.theta

  -- `update` of a union by a sketch of the same seed succeeds; with another seed it throws, unless
  -- the sketch is empty. The table then holds just the keys of all sketches so far that are below
  -- the union's `theta`, which is at most that of each sketch that is not empty. The seed and the
  -- nominal number of entries stay.
  pub update_union-Ends :
      (compute_seed_hash : ℕ → ℕ) (policy : E → E → E) (seen : ℕ → Bool) (u : UnionState E)
      (s : Sketch E)
      → ((a b : E) → policy a b ≡ a)
      → IsSketch s
      → Unites seen u
      → Ends
          (λ u'.
            Unites (λ q. elem_key q s.entries || seen q) u'
            × (u'.union_theta ≤ u.union_theta)
            × ((s.is_empty ≡ true) ⊎ (u'.union_theta ≤ s.theta))
            × (u'.table.seed ≡ u.table.seed)
            × (u'.table.lg_nom_size ≡ u.table.lg_nom_size))
          (λ x.
            (x ≡ invalid_argument)
            × (s.is_empty ≡ false)
            × (s.seed_hash ≢ compute_seed_hash u.table.seed))
          (update_union compute_seed_hash policy u s)
  unfolding update_union
  update_union-Ends compute_seed_hash policy seen u s nop w h =
      Ends-if _ _ s.is_empty (ok u) _
        (λ e.
          let nothing : s.entries ≡ [] = w.none_if_empty e in
          (
            record {
              collects =
                  Collects-change u.union_theta u.union_theta seen
                    (λ q. elem_key q s.entries || seen q) u.table (omega arith)
                    (λ q ql qt. ap (λ es. elem_key q es || seen q) nothing) h.collects;
              theta_le = h.theta_le;
            },
            omega arith,
            inl e,
            refl,
            refl,
          ))
        λ ne.
          Ends-throw_if _ _ (not (s.seed_hash == compute_seed_hash u.table.seed)) invalid_argument _
            (λ e. (refl, ne, ground arith))
            λ same.
              let limit : ℕ = if ltb s.theta u.union_theta then s.theta else u.union_theta in
              let le : limit ≤ u.union_theta = ground arith in
              let le_s : limit ≤ s.theta = ground arith in
              let t : Table E = record u.table { is_empty = false } in
              let c : Collects limit seen t = marked limit seen u.table (
                Collects-change u.union_theta limit seen seen u.table le (λ q ql qt. refl)
                  h.collects) in
              Ends-bind (Looped limit (λ q. elem_key q s.entries || seen q) t) _ _
                (update_loop policy s.is_ordered limit s.entries t) _
                (Ends-no_error (Looped limit (λ q. elem_key q s.entries || seen q) t) _
                  (update_loop policy s.is_ordered limit s.entries t)
                  (update_loop-Ends policy s.is_ordered limit s.entries seen t nop w.nonzero
                    w.sorted c))
                λ t' _ l.
                  let final : ℕ = if ltb t'.theta limit then t'.theta else limit in
                  let final_le : final ≤ limit = ground arith in
                  (
                    record {
                      collects =
                          Collects-change limit final (λ q. elem_key q s.entries || seen q)
                            (λ q. elem_key q s.entries || seen q) t' final_le (λ q ql qt. refl)
                            l.collects;
                      theta_le = ground arith;
                    },
                    omega arith,
                    inr (omega arith),
                    l.same_seed,
                    l.same_nom,
                  )
