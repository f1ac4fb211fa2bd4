-- ===== src/Theta/Sketch/Stream.antt =====
-- What an update sketch holds after a stream of updates.
use whylogs_datasketches.Base.{
  ℕ, ◌+◌, ◌^◌, ◌≤◌, ◌<◌, ◌≡◌, ◌≢◌, refl, ap, ◌∙◌, arith, Bool, true, false, ◌||◌, ◌&&◌, ltb, leb,
  ◌==◌, if◌then◌else◌, Bool-cases, ◌⊎◌, inl, inr, List, [], ◌∷◌, ok, invalid_argument, Ends,
  Ends-map, Ends-bind, Ends-if, Ends-throw_if, Ends-weaken, ◌>>=◌,
}
use whylogs_datasketches.Theta.Table.{
  Table, starting_sub_multiple, new, find, insert, hash_and_screen,
}
use whylogs_datasketches.Theta.Probing.{Found}
use whylogs_datasketches.Theta.Entries.{with_key, absent, there, Put, Put-of_probe}
use whylogs_datasketches.Theta.Select.{cut}
use whylogs_datasketches.Theta.Rebuild.{total, IsValid}
use whylogs_datasketches.Theta.Insert.{
  Growing, Inserts, insert-Put, cut_key, find-Ends, IsValid-mark,
}
use whylogs_datasketches.Theta.Fresh.{new-IsValid, new_total}
use whylogs_datasketches.Theta.Sketch.{
  set_lg_k, starting_lg_size, build, trivial_extract_key, update, update_all,
}

-- Whether a number is in a list.
abbrev pub elem : ℕ → List ℕ → Bool
elem q [] = false
elem q (x ∷ xs) = (q == x) || elem q xs

-- 1 for the keys that a table with limit `theta` has to hold, among those seen.
abbrev pub expected : (ℕ → Bool) → ℕ → ℕ → ℕ
expected seen theta q = if ltb 0 q && (ltb q theta && seen q) then 1 else 0

-- The table holds just the hashes seen that are not 0 and below `theta`. Unless it holds the
-- nominal number of them, `theta` is still what it was at the start.
pub record Reflects (k theta : ℕ) (seen : ℕ → Bool) (t : Table ℕ) : Type 0 where
  pub valid : IsValid t
  pub growing : (0 < t.rf) ⊎ (t.lg_nom_size < t.lg_cur_size)
  pub holds : (q : ℕ) → total (with_key q) t ≡ expected seen t.theta q
  pub enough : (t.theta ≡ theta) ⊎ (2 ^ t.lg_nom_size ≤ t.num_entries)
  pub theta_le : t.theta ≤ theta
  pub nominal : t.lg_nom_size ≡ k

-- A hash that is screened out.
screened_out :
    (k theta : ℕ) (seen : ℕ → Bool) (t : Table ℕ) (hash : ℕ)
    → Reflects k theta seen t
    → (hash ≡ 0) ⊎ (t.theta ≤ hash)
    → Reflects k theta (λ q. (q == hash) || seen q) (record t { is_empty = false })
screened_out k theta seen t hash r out = record {
  valid = IsValid-mark t false r.valid;
  growing = r.growing;
  holds = λ q. ground (arith, r.holds q, out);
  enough = r.enough;
  theta_le = r.theta_le;
  nominal = r.nominal;
}

-- A hash that is there already.
known :
    (k theta : ℕ) (seen : ℕ → Bool) (t : Table ℕ) (hash : ℕ)
    → Reflects k theta seen t
    → 0 < total (with_key hash) t
    → Reflects k theta (λ q. (q == hash) || seen q) (record t { is_empty = false })
known k theta seen t hash r pos =
    let had : seen hash ≡ true = ground (arith, r.holds hash) in
    record {
      valid = IsValid-mark t false r.valid;
      growing = r.growing;
      holds = λ q. elim (Bool-cases (q == hash)) [
        | inl e ↦
            let same : q ≡ hash = ground arith in
            let had_q : seen q ≡ true = ap seen same ∙ had in ground (arith, r.holds q, had_q)
        | inr ne ↦ ground (arith, r.holds q)
      ];
      enough = r.enough;
      theta_le = r.theta_le;
      nominal = r.nominal;
    }

still_enough :
    (k theta : ℕ) (seen : ℕ → Bool) (t t' : Table ℕ) (hash : ℕ)
    → Reflects k theta seen t
    → hash < t.theta
    → Inserts (record t { is_empty = false }) hash t'
    → (t'.theta ≡ theta) ⊎ (2 ^ t'.lg_nom_size ≤ t'.num_entries)
still_enough k theta seen t t' hash r lt i =
    let nominal : 2 ^ t'.lg_nom_size ≡ 2 ^ t.lg_nom_size = ap (λ n. 2 ^ n) i.same_nom in
    elim i.enough [
      | inr full ↦ inr (omega (arith, nominal, full))
      | inl same ↦ elim r.enough [
        | inl start ↦ inl (same ∙ start)
        | inr full ↦
            let sum : total (λ e. 1) t'
                ≡ total (cut t'.theta (λ e. 1)) t + cut t'.theta (λ e. 1) hash =
              i.sums (λ e. 1) in
            let old : total (cut t'.theta (λ e. 1)) t ≡ total (λ e. 1) t =
              ap (λ x. total (cut x (λ e. 1)) t) same ∙ r.valid.loaded.below (λ e. 1) in
            inr (
              omega
                (arith, nominal, full, sum, old, i.valid.loaded.counted, r.valid.loaded.counted))
      ]
    ]

-- A new hash below `theta`.
added :
    (k theta : ℕ) (seen : ℕ → Bool) (t t' : Table ℕ) (hash : ℕ)
    → Reflects k theta seen t
    → hash ≢ 0
    → hash < t.theta
    → total (with_key hash) t ≡ 0
    → Inserts (record t { is_empty = false }) hash t'
    → Reflects k theta (λ q. (q == hash) || seen q) t'
added k theta seen t t' hash r nz lt new i = record {
  valid = i.valid;
  growing = elim r.growing [
    | inl rf ↦ inl (omega (arith, i.same_rf))
    | inr wide ↦ inr (omega (arith, i.same_nom, i.grown))
  ];
  holds = λ q.
      let sum : total (with_key q) t'
          ≡ total (cut t'.theta (with_key q)) t + cut t'.theta (with_key q) hash =
        i.sums (with_key q) in
      ground (arith, sum, cut_key t'.theta q t, r.holds q, i.theta_le);
  enough = still_enough k theta seen t t' hash r lt i;
  theta_le = omega (arith, i.theta_le, r.theta_le);
  nominal = i.same_nom ∙ r.nominal;
}

-- What `update` does with the result of its search.
looked_up :
    (k theta : ℕ) (seen : ℕ → Bool) (t : Table ℕ) (hash : ℕ) (f : ℕ × Bool)
    → Reflects k theta seen t
    → hash ≢ 0
    → hash < t.theta
    → Found t.lg_cur_size t.entries hash f
    → Ends
        (Reflects k theta (λ q. (q == hash) || seen q))
        (λ x. ⊥)
        (if f.1
          then ok (record t { is_empty = false })
          else insert (record t { is_empty = false }) f.0 hash)
looked_up k theta seen t hash (it, true) r nz lt found =
    known k theta seen t hash r (there t.lg_cur_size t.entries hash it nz found)
looked_up k theta seen t hash (it, false) r nz lt found =
    let t₀ : Table ℕ = record t { is_empty = false } in
    let new : total (with_key hash) t ≡ 0 =
      absent t.lg_cur_size t.entries hash it nz r.valid.hashed found in
    let put : Put t.lg_cur_size hash t.entries (it, false) =
      Put-of_probe t.lg_cur_size t.entries hash it nz r.valid.hashed found in
    let grows : Growing t₀ = elim r.growing [ inl rf ↦ inl rf | inr wide ↦ inr (inl wide) ] in
    Ends-map (Inserts t₀ hash) (Reflects k theta (λ q. (q == hash) || seen q)) (λ x. ⊥)
      (insert t₀ it hash) (λ t' i. added k theta seen t t' hash r nz lt new i)
      (insert-Put t₀ hash (it, false) (screened_out k theta seen t 0 r (inl refl)).valid grows lt
        new put)

update-Reflects :
    (k theta : ℕ) (seen : ℕ → Bool) (t : Table ℕ) (hash : ℕ)
    → Reflects k theta seen t
    → Ends (Reflects k theta (λ q. (q == hash) || seen q)) (λ x. ⊥) (update t hash)
unfolding update hash_and_screen find
update-Reflects k theta seen t hash r =
    let t₀ : Table ℕ = record t { is_empty = false } in
    let After : Table ℕ → Type 0 = Reflects k theta (λ q. (q == hash) || seen q) in
    elim (Bool-cases (leb t.theta hash)) [
      | inl big ↦
          let out : t.theta ≤ hash = ground arith in
          rw big (screened_out k theta seen t hash r (inr out))
      | inr small ↦
          let lt : hash < t.theta = ground arith in
          rw small (
            Ends-if After (λ x. ⊥) (hash == 0) (ok t₀) _
              (λ z. screened_out k theta seen t hash r (inl (ground arith)))
              (λ nz.
                Ends-bind (Found t.lg_cur_size t.entries hash) After (λ x. ⊥) (find t₀ hash) _
                  (find-Ends t hash r.valid)
                  (λ f _ found. looked_up k theta seen t hash f r (ground arith) lt found)))
    ]

-- After any stream of updates of a sketch that reflects what was seen.
pub update_all-Reflects :
    (k theta : ℕ) (hashes : List ℕ) (seen : ℕ → Bool) (t : Table ℕ)
    → Reflects k theta seen t
    → Ends (Reflects k theta (λ q. elem q hashes || seen q)) (λ x. ⊥) (update_all hashes t)
unfolding update_all
update_all-Reflects k theta [] seen t r = r
update_all-Reflects k theta (hash ∷ hashes) seen t r =
    Ends-bind (Reflects k theta (λ q. (q == hash) || seen q))
      (Reflects k theta (λ q. elem q (hash ∷ hashes) || seen q)) (λ x. ⊥) (update t hash) _
      (update-Reflects k theta seen t hash r)
      λ t' _ r'.
        Ends-map (Reflects k theta (λ q. elem q hashes || ((q == hash) || seen q)))
          (Reflects k theta (λ q. elem q (hash ∷ hashes) || seen q)) (λ x. ⊥) (update_all hashes t')
          (λ u h. record {
            valid = h.valid;
            growing = h.growing;
            holds = λ q. ground (arith, h.holds q);
            enough = h.enough;
            theta_le = h.theta_le;
            nominal = h.nominal;
          })
          (update_all-Reflects k theta hashes (λ q. (q == hash) || seen q) t' r')

pub starting_size :
    (lg_k rf : ℕ)
    → 5 ≤ lg_k
    → (1 ≤ starting_lg_size lg_k rf) × ((0 < rf) ⊎ (lg_k < starting_lg_size lg_k rf))
unfolding starting_lg_size starting_sub_multiple
starting_size lg_k rf le = (
  ground arith,
  elim (Bool-cases (rf == 0)) [ inl z ↦ inr (ground arith) | inr nz ↦ inl (ground arith) ],
)

-- `set_lg_k` throws just for a value out of range.
pub set_lg_k-Ends :
    (lg_k : ℕ)
    → Ends
        (λ lg. (lg ≡ lg_k) × (5 ≤ lg_k) × (lg_k ≤ 26))
        (λ x. (x ≡ invalid_argument) × ((lg_k < 5) ⊎ (26 < lg_k)))
        (set_lg_k lg_k)
unfolding set_lg_k
set_lg_k-Ends lg_k =
    Ends-throw_if _ _ (ltb lg_k 5) invalid_argument _ (λ e. (refl, inl (ground arith)))
      λ small.
        Ends-throw_if _ _ (ltb 26 lg_k) invalid_argument _ (λ e. (refl, inr (ground arith)))
          λ large. (refl, ground arith, ground arith)

-- A new sketch fails only for a number of nominal entries out of range, and has seen nothing.
pub build-Reflects :
    (lg_k rf starting_theta seed : ℕ)
    → Ends
        (Reflects lg_k starting_theta (λ q. false))
        (λ x. (x ≡ invalid_argument) × ((lg_k < 5) ⊎ (26 < lg_k)))
        (build lg_k rf starting_theta seed)
unfolding build new
build-Reflects lg_k rf starting_theta seed =
    Ends-bind (λ lg. (lg ≡ lg_k) × (5 ≤ lg_k) × (lg_k ≤ 26)) _ _ (set_lg_k lg_k) _
      (set_lg_k-Ends lg_k)
      λ k _ (same, low, high).
        let (sized, grows) = starting_size k rf (omega arith) in
        let lg : ℕ = starting_lg_size k rf in
        record {
          valid = new-IsValid true lg k rf starting_theta starting_theta seed sized;
          growing = grows;
          holds = λ q.
              let none_seen : 0 ≡ expected (λ h. false) starting_theta q = ground arith in
              new_total {E = ℕ} true lg k rf starting_theta starting_theta seed (with_key q)
              ∙ none_seen;
          enough = inl refl;
          theta_le = omega arith;
          nominal = same;
        }

-- A sketch built for 2^lg_k nominal entries, after any stream of updates. It does not fail, and it
-- holds just the distinct hashes of the stream that are not 0 and below its `theta`, each once.
-- `theta` is still what it was at the start unless the sketch holds at least 2^lg_k hashes.
pub stream_holds :
    (lg_k rf starting_theta seed : ℕ) (hashes : List ℕ)
    → 5 ≤ lg_k
    → lg_k ≤ 26
    → Ends
        (λ t.
          ((q : ℕ) → total (with_key q) t ≡ expected (λ h. elem h hashes) t.theta q)
          × (total (λ e. 1) t ≡ t.num_entries)
          × ((t.theta ≡ starting_theta) ⊎ (2 ^ lg_k ≤ t.num_entries))
          × (t.theta ≤ starting_theta))
        (λ x. ⊥)
        (build lg_k rf starting_theta seed >>= update_all hashes)
stream_holds lg_k rf starting_theta seed hashes low high =
    Ends-bind (Reflects lg_k starting_theta (λ q. false)) _ _ (build lg_k rf starting_theta seed) _
      (Ends-weaken _ _ (λ x. ⊥) (build lg_k rf starting_theta seed)
        (λ x h. elim h.1 [ inl a ↦ absurd (omega arith) | inr b ↦ absurd (omega arith) ])
        (build-Reflects lg_k rf starting_theta seed))
      λ t₀ _ r₀.
        Ends-map (Reflects lg_k starting_theta (λ q. elem q hashes || false)) _ (λ x. ⊥)
          (update_all hashes t₀)
          (λ t r.
            let nominal : 2 ^ t.lg_nom_size ≡ 2 ^ lg_k = ap (λ n. 2 ^ n) r.nominal in
            (
              λ q. ground (arith, r.holds q),
              r.valid.loaded.counted,
              elim r.enough [
                | inl start ↦ inl start
                | inr full ↦ inr (omega (arith, nominal, full))
              ],
              r.theta_le,
            ))
          (update_all-Reflects lg_k starting_theta hashes (λ q. false) t₀ r₀)
