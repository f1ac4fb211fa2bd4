-- ===== src/Theta/Insert.antt =====
-- `insert` and `trim` of theta/include/theta_update_sketch_base_impl.hpp.
use native.Mathlib.Nat.{pow-le-pow_right}
use native.Mathlib.Decide.{ℕ_discrete}
use whylogs_datasketches.Base.{
  ℕ, ◌+◌, ◌^◌, ◌≤◌, ◌<◌, ◌≡◌, refl, sym, subst, ◌∙◌, arith, Bool, ltb, leb, ◌==◌, if◌then◌else◌,
  Bool-cases, ◌⊎◌, inl, inr, min, update, some, Ends, Ends-map, Ends-if, Ends-throw_if, undefined,
  ok, value_of_Ends, ◌≢◌,
}
use whylogs_datasketches.Theta.Table.{
  Keyed, Table, get_capacity, resize, rebuild, insert, trim, find,
}
use whylogs_datasketches.Theta.Stride.{pow_pos, pow_lt, pow_double}
use whylogs_datasketches.Theta.Entries.{with_key, Put, decided, empty_slot}
use whylogs_datasketches.Theta.Probing.{Found, find_in-Ends}
use whylogs_datasketches.Theta.Select.{cut}
use whylogs_datasketches.Theta.Rebuild.{
  size, total, total_congr, total_zero, Loaded, IsValid, Keeps, Rebuilt, resize-Ends, rebuild-Ends,
}

get_capacity-lt : (lg nom : ℕ) → 1 ≤ lg → get_capacity lg nom < 2 ^ lg
unfolding get_capacity
get_capacity-lt lg nom le = ground (arith, pow_pos lg)

past_nominal : (lg nom num : ℕ) → nom < lg → get_capacity lg nom < num → 2 ^ nom < num
unfolding get_capacity
past_nominal lg nom num lt more = ground (arith, pow_double nom lg lt)

wider : (nom lg num : ℕ) → 2 ^ nom < num → num < 2 ^ lg → nom < lg
wider nom lg num over room = elim (Bool-cases (ltb nom lg)) [
  | inl lt ↦ ground arith
  | inr ge ↦
      let le : lg ≤ nom = ground arith in
      let mono : 2 ^ lg ≤ 2 ^ nom = pow-le-pow_right (omega arith) le in absurd (omega arith)
]

module _ {E : Type 0} ⦃keyed : Keyed E⦄ where
  pub cut_below : (limit : ℕ) (A : E → ℕ) (e : E) → keyed.key e < limit → cut limit A e ≡ A e
  cut_below limit A e lt = ground arith

  -- A new key makes no key occur twice.
  once_more :
      (q : ℕ) (e : E) (t : Table E)
      → total (with_key (keyed.key e)) t ≡ 0
      → total (with_key q) t ≤ 1
      → total (with_key q) t + with_key q e ≤ 1
  once_more q e t new once = elim (ℕ_discrete (keyed.key e) q) [
    | yes same ↦
        let none : total (with_key q) t ≡ 0 = subst (λ k. total (with_key k) t ≡ 0) same new in
        let one : with_key q e ≤ 1 = ground arith in omega (arith, none, one)
    | no ne ↦ let other : with_key q e ≡ 0 = ground (arith, ne) in omega (arith, other)
  ]

  pub Keeps-refl : (t : Table E) → IsValid t → Keeps t t
  Keeps-refl t v = record {
    valid = v;
    sums = λ A. sym (v.loaded.below A);
    theta_le = omega arith;
    enough = inl refl;
    same_nom = refl;
    same_rf = refl;
    grown = omega arith;
    capped = omega arith;
    same_seed = refl;
    same_empty = refl;
  }

  pub IsValid-mark : (t : Table E) (b : Bool) → IsValid t → IsValid (record t { is_empty = b })
  IsValid-mark t b v = record {
    hashed = v.hashed;
    loaded = record { counted = v.loaded.counted; once = v.loaded.once; below = v.loaded.below };
    room = v.room;
    sized = v.sized;
  }

  -- There is room for one more entry even if the table cannot grow.
  abbrev pub Growing : Table E → Type 0
  Growing t = (0 < t.rf) ⊎ (t.lg_nom_size < t.lg_cur_size) ⊎ (t.num_entries + 1 < size t)

  -- The table grows as far as it needs to.
  abbrev pub Grows : Table E → Type 0
  Grows t = (0 < t.rf) ⊎ (t.lg_nom_size < t.lg_cur_size)

  pub Growing-of : (t : Table E) → Grows t → Growing t
  Growing-of t (inl rf) = inl rf
  Growing-of t (inr wide) = inr (inl wide)

  -- A search of a valid table does not fail.
  pub find-Ends :
      (t : Table E) (key : ℕ)
      → IsValid t
      → Ends (Found t.lg_cur_size t.entries key) (λ x. ⊥) (find t key)
  unfolding find
  find-Ends t key v =
      let (i, il, empty) =
        empty_slot (size t) t.entries (omega (arith, v.loaded.counted, v.room)) in
      let sized : 1 ≤ t.lg_cur_size = v.sized in
      Ends-throw_if _ _ (t.lg_cur_size == 0) undefined _ (λ e. absurd (ground arith))
        (λ e. find_in-Ends t.lg_cur_size t.entries key i il empty)

  pub cut_key :
      (limit q : ℕ) (t : Table E)
      → total (cut limit (with_key q)) t ≡ (if ltb q limit then total (with_key q) t else 0)
  cut_key limit q t = elim (Bool-cases (ltb q limit)) [
    | inl lt ↦ rw lt (total_congr (cut limit (with_key q)) (with_key q) t (λ e. ground arith))
    | inr ge ↦ rw ge (total_zero (cut limit (with_key q)) t (λ e. ground arith))
  ]

  -- The table with one more entry: all entries with keys below the new `theta`.
  pub record Inserts (t : Table E) (e : E) (t' : Table E) : Type 0 where
    pub valid : IsValid t'
    pub sums : (A : E → ℕ) → total A t' ≡ total (cut t'.theta A) t + cut t'.theta A e
    pub theta_le : t'.theta ≤ t.theta
    pub enough : (t'.theta ≡ t.theta) ⊎ (2 ^ t.lg_nom_size ≤ t'.num_entries)
    pub same_nom : t'.lg_nom_size ≡ t.lg_nom_size
    pub same_rf : t'.rf ≡ t.rf
    pub grown : t.lg_cur_size ≤ t'.lg_cur_size
    pub capped : t'.lg_cur_size ≤ t.lg_cur_size + t.rf
    pub same_seed : t'.seed ≡ t.seed
    pub same_empty : t'.is_empty ≡ t.is_empty

  room_to_grow :
      (t : Table E)
      → Growing t
      → t.lg_cur_size ≤ t.lg_nom_size
      → t.num_entries < size t
      → t.num_entries + 1 < 2 ^ min (t.lg_cur_size + t.rf) (t.lg_nom_size + 1)
  room_to_grow t (inl grows) le room =
      omega
        (arith, pow_lt t.lg_cur_size (min (t.lg_cur_size + t.rf) (t.lg_nom_size + 1)) (omega arith))
  room_to_grow t (inr (inl wide)) le room = absurd (omega arith)
  room_to_grow t (inr (inr free)) le room =
      let up : t.lg_cur_size ≤ min (t.lg_cur_size + t.rf) (t.lg_nom_size + 1) = omega arith in
      let mono : size t ≤ 2 ^ min (t.lg_cur_size + t.rf) (t.lg_nom_size + 1) =
        pow-le-pow_right (omega arith) up in
      omega arith

  pub insert-Put :
      (t : Table E) (e : E) (r : ℕ × Bool)
      → IsValid t
      → Growing t
      → keyed.key e < t.theta
      → total (with_key (keyed.key e)) t ≡ 0
      → Put t.lg_cur_size e t.entries r
      → Ends (Inserts t e) (λ x. ⊥) (insert t r.0 e)
  unfolding insert
  insert-Put t e r v g lt new p =
      let t' : Table E = record t {
        entries = update t.entries r.0 (some e);
        num_entries = t.num_entries + 1;
      } in
      let l : Loaded t' = record {
        counted = omega (arith, p.sums (λ x. 1), v.loaded.counted);
        once = λ q. omega (arith, p.sums (with_key q), once_more q e t new (v.loaded.once q));
        below = λ A.
            omega
              (arith, p.sums A, p.sums (cut t.theta A), v.loaded.below A, cut_below t.theta A e lt);
      } in
      let by_Keeps : (u : Table E) → Keeps t' u → Inserts t e u = λ u k. record {
        valid = k.valid;
        sums = λ A. k.sums A ∙ p.sums (cut u.theta A);
        theta_le = k.theta_le;
        enough = k.enough;
        same_nom = k.same_nom;
        same_rf = k.same_rf;
        grown = k.grown;
        capped = k.capped;
        same_seed = k.same_seed;
        same_empty = k.same_empty;
      } in
      let room : t.num_entries < size t = v.room in
      let sized : 1 ≤ t.lg_cur_size = v.sized in
      let cap : get_capacity t.lg_cur_size t.lg_nom_size < size t =
        get_capacity-lt t.lg_cur_size t.lg_nom_size sized in
      Ends-if _ _ (ltb (get_capacity t.lg_cur_size t.lg_nom_size) (t.num_entries + 1)) _ _
        (λ full.
          Ends-if _ _ (leb t.lg_cur_size t.lg_nom_size) _ _
            (λ small.
              Ends-map (Keeps t') (Inserts t e) (λ x. ⊥) (resize t') by_Keeps
                (resize-Ends t' l sized (ground arith) (room_to_grow t g (ground arith) room)))
            (λ large.
              Ends-map (Rebuilt t') (Inserts t e) (λ x. ⊥) (rebuild t') (λ u k. by_Keeps u k.0)
                (rebuild-Ends t' l sized (ground arith)
                  (past_nominal t.lg_cur_size t.lg_nom_size (t.num_entries + 1) (ground arith)
                    (ground arith))
                  (omega arith))))
        (λ fits. by_Keeps t' (
          Keeps-refl t'
            (record { hashed = p.hashed; loaded = l; room = ground (arith, cap); sized = sized })))

  -- `insert` of an entry whose key is not 0, below `theta` and not in the table, at the slot that
  -- `find` returns for the key, into a valid table that has room or can grow. It ends without an
  -- error. The table stays valid and holds the old entries and the new one, as far as their keys are
  -- below the new `theta`, which falls only if at least the nominal number of entries is kept.
  pub insert-Ends :
      (t : Table E) (e : E) (r : ℕ × Bool)
      → IsValid t
      → Growing t
      → keyed.key e ≢ 0
      → keyed.key e < t.theta
      → total (with_key (keyed.key e)) t ≡ 0
      → find t (keyed.key e) ≡ ok r
      → Ends (Inserts t e) (λ x. ⊥) (insert t r.0 e)
  insert-Ends t e r v g nz lt new found = insert-Put t e r v g lt new (
      decided t.lg_cur_size e t.entries r nz v.hashed new (
        value_of_Ends (Found t.lg_cur_size t.entries (keyed.key e)) (λ x. ⊥) (find t (keyed.key e))
          r (find-Ends t (keyed.key e) v) found))

  -- `trim` leaves at most the nominal number of entries.
  pub trim-Ends :
      (t : Table E)
      → IsValid t
      → Ends (λ t'. Keeps t t' × (t'.num_entries ≤ 2 ^ t.lg_nom_size)) (λ x. ⊥) (trim t)
  unfolding trim
  trim-Ends t v =
      let room : t.num_entries < size t = v.room in
      Ends-if _ _ (ltb (2 ^ t.lg_nom_size) t.num_entries) _ _
        (λ more.
          let over : 2 ^ t.lg_nom_size < t.num_entries = ground arith in
          Ends-map (Rebuilt t) (λ t'. Keeps t t' × (t'.num_entries ≤ 2 ^ t.lg_nom_size)) (λ x. ⊥)
            (rebuild t) (λ t' k. (k.0, omega (arith, k.1)))
            (rebuild-Ends t v.loaded v.sized
              (wider t.lg_nom_size t.lg_cur_size t.num_entries over room) over (omega arith)))
        (λ fits. (Keeps-refl t v, ground arith))
