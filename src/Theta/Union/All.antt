-- ===== src/Theta/Union/All.antt =====
-- The union of several sketches, from the builder to the result.
use whylogs_datasketches.Base.{
  ℕ, ◌≤◌, ◌<◌, ◌≡◌, refl, subst, sym, ◌∙◌, arith, Bool, true, false, ◌||◌, ◌&&◌, ltb, if◌then◌else◌,
  ◌⊎◌, inl, inr, List, [], ◌∷◌, Ends, Ends-map, Ends-bind, Ends-weaken, ◌>>=◌,
}
use whylogs_datasketches.Theta.Table.{Keyed, new}
use whylogs_datasketches.Theta.Entries.{with_key}
use whylogs_datasketches.Theta.Rehash.{All}
use whylogs_datasketches.Theta.Rebuild.{total}
use whylogs_datasketches.Theta.Fresh.{new-IsValid, new_total}
use whylogs_datasketches.Theta.Sketch.{set_lg_k, starting_lg_size, Sketch}
use whylogs_datasketches.Theta.Sketch.Stream.{starting_size, set_lg_k-Ends}
use whylogs_datasketches.Theta.Union.{UnionState, new_union, build_union, update_each, update_union}
use whylogs_datasketches.Theta.Union.Update.{
  elem_key, Collects-change, IsSketch, Unites, update_union-Ends,
}
use whylogs_datasketches.Theta.Union.Result.{wanted}

module _ {E : Type 0} ⦃keyed : Keyed E⦄ where
  -- The keys of some sketches.
  abbrev pub in_some : List (Sketch E) → ℕ → Bool
  in_some [] q = false
  in_some (s ∷ ss) q = elem_key q s.entries || in_some ss q

  -- A sketch for a union with this seed.
  abbrev pub Fits : (ℕ → ℕ) → ℕ → Sketch E → Type 0
  Fits compute_seed_hash seed s =
      IsSketch s × ((s.is_empty ≡ true) ⊎ (s.seed_hash ≡ compute_seed_hash seed))

  -- `theta` of the union is at most that of each sketch that is not empty.
  abbrev pub Under : ℕ → Sketch E → Type 0
  Under theta s = (s.is_empty ≡ true) ⊎ (theta ≤ s.theta)

  Unites-change :
      (seen seen' : ℕ → Bool) (u : UnionState E)
      → ((q : ℕ) → seen q ≡ seen' q)
      → Unites seen u
      → Unites seen' u
  Unites-change seen seen' u same h = record {
    collects =
        Collects-change u.union_theta u.union_theta seen seen' u.table (omega arith)
          (λ q ql qt. sym (same q)) h.collects;
    theta_le = h.theta_le;
  }

  pub new_union-Unites :
      (lg_k rf theta seed : ℕ)
      → 5 ≤ lg_k
      → Unites {E = E} (λ q. false) (new_union (starting_lg_size lg_k rf) lg_k rf theta theta seed)
  unfolding new_union new
  new_union-Unites lg_k rf theta seed low =
      let lg : ℕ = starting_lg_size lg_k rf in
      let (sized, grows) = starting_size lg_k rf low in
      record {
        collects = record {
          valid = new-IsValid true lg lg_k rf theta theta seed sized;
          grows = grows;
          holds = λ q ql qt.
              let unseen : 0 ≡ (if ltb 0 q && false then 1 else 0) = ground arith in
              new_total {E = E} true lg lg_k rf theta theta seed (with_key q) ∙ unseen;
        };
        theta_le = omega arith;
      }

  -- What a union of some sketches leaves.
  pub record Gathers (seen : ℕ → Bool) (ss : List (Sketch E)) (u u' : UnionState E) : Type 0 where
    pub unites : Unites (λ q. in_some ss q || seen q) u'
    pub theta_le : u'.union_theta ≤ u.union_theta
    pub under : All (Under u'.union_theta) ss
    pub same_nom : u'.table.lg_nom_size ≡ u.table.lg_nom_size

  Under-trans : (hi lo : ℕ) (s : Sketch E) → lo ≤ hi → Under hi s → Under lo s
  Under-trans hi lo s le (inl e) = inl e
  Under-trans hi lo s le (inr h) = inr (omega arith)

  pub update_each-Ends :
      (compute_seed_hash : ℕ → ℕ) (policy : E → E → E) (ss : List (Sketch E)) (seen : ℕ → Bool)
      (u : UnionState E)
      → ((a b : E) → policy a b ≡ a)
      → All (Fits compute_seed_hash u.table.seed) ss
      → Unites seen u
      → Ends (Gathers seen ss u) (λ x. ⊥) (update_each compute_seed_hash policy ss u)
  unfolding update_each
  update_each-Ends compute_seed_hash policy [] seen u nop fit h = record {
    unites = h;
    theta_le = omega arith;
    under = tt;
    same_nom = refl;
  }
  update_each-Ends compute_seed_hash policy (s ∷ ss) seen u nop fit h =
      Ends-bind _ (Gathers seen (s ∷ ss) u) (λ x. ⊥) (update_union compute_seed_hash policy u s) _
        (Ends-weaken _ _ (λ x. ⊥) (update_union compute_seed_hash policy u s)
          (λ x b. elim fit.0.1 [
            | inl e ↦ absurd (ground (arith, b))
            | inr same ↦ absurd (b.2 same)
          ])
          (update_union-Ends compute_seed_hash policy seen u s nop fit.0.0 h))
        λ v _ (hv, le, under, seed, nom).
          Ends-map (Gathers (λ q. elem_key q s.entries || seen q) ss v) (Gathers seen (s ∷ ss) u)
            (λ x. ⊥) (update_each compute_seed_hash policy ss v)
            (λ w g. record {
              unites =
                  Unites-change (λ q. in_some ss q || (elem_key q s.entries || seen q))
                    (λ q. in_some (s ∷ ss) q || seen q) w (λ q. ground arith) g.unites;
              theta_le = omega (arith, g.theta_le, le);
              under = (Under-trans v.union_theta w.union_theta s g.theta_le under, g.under);
              same_nom = g.same_nom ∙ nom;
            })
            (update_each-Ends compute_seed_hash policy ss (λ q. elem_key q s.entries || seen q) v
              nop (subst (λ n. All (Fits compute_seed_hash n) ss) (sym seed) fit.1) hv)

  -- A union as the builder leaves it.
  abbrev Started : ℕ → ℕ → ℕ → UnionState E → Type 0
  Started lg_k starting_theta seed u =
      Unites (λ q. false) u
      × (u.union_theta ≡ starting_theta)
      × (u.table.seed ≡ seed)
      × (u.table.lg_nom_size ≡ lg_k)

  -- A union built for 2^lg_k nominal entries and given any sketches of its seed does not fail. Its
  -- table holds just the keys of these sketches below the union's `theta`, which is at most that of
  -- each sketch that is not empty, and no key twice.
  pub union_holds :
      (compute_seed_hash : ℕ → ℕ) (policy : E → E → E) (lg_k rf starting_theta seed : ℕ)
      (ss : List (Sketch E))
      → ((a b : E) → policy a b ≡ a)
      → 5 ≤ lg_k
      → lg_k ≤ 26
      → All (Fits compute_seed_hash seed) ss
      → Ends
          (λ u.
            ((q : ℕ)
              → q < u.union_theta
              → total (with_key q) u.table ≡ wanted (in_some ss) u.union_theta q)
            × ((q : ℕ) → total (with_key q) u.table ≤ 1)
            × (u.union_theta ≤ starting_theta)
            × All (Under u.union_theta) ss
            × (u.table.lg_nom_size ≡ lg_k))
          (λ x. ⊥)
          (build_union lg_k rf starting_theta seed >>= update_each compute_seed_hash policy ss)
  unfolding build_union new_union new
  union_holds compute_seed_hash policy lg_k rf starting_theta seed ss nop low high fit =
      Ends-bind (Started lg_k starting_theta seed) _ _ (build_union lg_k rf starting_theta seed) _
        (Ends-bind (λ lg. (lg ≡ lg_k) × (5 ≤ lg_k) × (lg_k ≤ 26)) (Started lg_k starting_theta seed)
          (λ x. ⊥) (set_lg_k lg_k) _
          (Ends-weaken _ _ (λ x. ⊥) (set_lg_k lg_k)
            (λ x b. elim b.1 [
              | inl small ↦ absurd (omega arith)
              | inr large ↦ absurd (omega arith)
            ])
            (set_lg_k-Ends lg_k))
          (λ lg _ (same, at_least, at_most).
            (new_union-Unites lg rf starting_theta seed (omega arith), refl, refl, same)))
        λ u m (h, start, same_seed, nom).
          Ends-map (Gathers (λ q. false) ss u) _ (λ x. ⊥)
            (update_each compute_seed_hash policy ss u)
            (λ v g. (
              λ q lt.
                  ground (arith, g.unites.collects.holds q lt (omega (arith, g.unites.theta_le))),
              g.unites.collects.valid.loaded.once,
              omega (arith, g.theta_le, start),
              g.under,
              g.same_nom ∙ nom,
            ))
            (update_each-Ends compute_seed_hash policy ss (λ q. false) u nop
              (subst (λ n. All (Fits compute_seed_hash n) ss) (sym same_seed) fit) h)
