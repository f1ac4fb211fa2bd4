-- ===== src/Fi/Map/Delete.antt =====
-- `hash_delete`.
use whylogs_datasketches.Base.{
  ℕ, zero, suc, ◌+◌, ◌≤◌, ◌<◌, ◌≡◌, ◌≢◌, refl, Option, some, ◌==◌, ltb, leb, update, Ends, Ends-if,
  Ends-map, sym, subst, ◌∙◌, Exception, drift_limit_reached, arith,
}
use native.Mathlib.Decide.{ℕ_discrete}
use whylogs_datasketches.Base.Cyclic.{dist, next, next-cases, next-lt}
use whylogs_datasketches.Fi.Map.{
  HashMap, KeyOps, home, home-lt, clear, move_back, hash_delete_loop, hash_delete, drift_limit,
  size,
}
use whylogs_datasketches.Fi.Map.Table.{IsTable, slot_sum, slot_sum_change}

-- The exception is that of the drift limit, which is met only in a table of at least as many slots as the limit.
pub record Drifted (n : ℕ) (x : Exception) : Type 0 where
  pub is_drift_limit : x ≡ drift_limit_reached
  pub long : drift_limit ≤ n

module _ {K : Type 0} ⦃ops : KeyOps K⦄ where
  -- The state of the loop: `hole` is free, `probe` is `drift` steps on and not past the free slot
  -- `e`, all slots between are active and do not need the hole, and but for the hole the table
  -- is well formed.
  record Between (n e hole probe drift : ℕ) (m : HashMap K) : Type 0 where
    hole_lt : hole < n
    probe_lt : probe < n
    e_lt : e < n
    hole_free : m.states hole ≡ 0
    e_free : m.states e ≡ 0
    apart : hole ≢ e
    drifted : dist n hole probe ≡ drift
    pos : 0 < drift
    short : drift ≤ dist n hole e
    homes :
        (i : ℕ)
        → i < n
        → m.states i ≢ 0
        → (k : K) × (m.keys i ≡ some k) × (dist n (home n k) i + 1 ≡ m.states i)
    loose :
        (x i : ℕ)
        → x < n
        → i < n
        → x ≢ hole
        → m.states x ≡ 0
        → m.states i ≢ 0
        → m.states i ≤ dist n x i
    near :
        (i : ℕ)
        → i < n
        → 0 < dist n hole i
        → dist n hole i < drift
        → (m.states i ≢ 0) × (m.states i ≤ dist n hole i)

  module _ (n e hole probe drift : ℕ) (m : HashMap K) (b : Between n e hole probe drift m) where
    -- The loop stops at a free slot: then the table is well formed.
    stop-IsTable : m.states probe ≡ 0 → IsTable n m
    stop-IsTable free = record {
      homes = b.homes;
      paths = λ x i xl il xf ia. ground (
        arith,
        b.loose x i xl il,
        b.loose probe i b.probe_lt il,
        b.near i il,
        b.hole_lt,
        b.probe_lt,
        b.drifted,
        b.pos,
      );
    }

    not_end : m.states probe ≢ 0 → probe ≢ e
    not_end act eq = act (subst (λ x. m.states x ≡ 0) (sym eq) b.e_free)

    -- An element that does not need the hole stays.
    stay-Between :
        m.states probe ≢ 0 → m.states probe ≤ drift → Between n e hole (next n probe) (drift + 1) m
    stay-Between act small =
        let step = next-cases n probe b.probe_lt in
        let ne = not_end act in
        record {
          hole_lt = b.hole_lt;
          probe_lt = next-lt n probe b.probe_lt;
          e_lt = b.e_lt;
          hole_free = b.hole_free;
          e_free = b.e_free;
          apart = b.apart;
          drifted = ground (arith, step, b.drifted, b.hole_lt, b.e_lt, b.short, b.apart);
          pos = omega arith;
          short = ground (arith, b.drifted, b.hole_lt, b.probe_lt, b.e_lt, b.short, b.apart);
          homes = b.homes;
          loose = b.loose;
          near = λ i il lo hi. elim (ℕ_discrete i probe) [
            | yes eq ↦ rw eq (act, ground (arith, b.drifted))
            | no i_ne ↦ b.near i il lo (ground (arith, b.drifted, b.hole_lt, b.probe_lt))
          ];
        }

    -- An element that needs the hole moves there, and leaves a hole.
    move-Between :
        m.states probe ≢ 0
        → drift < m.states probe
        → Between n e probe (next n probe) 1 (move_back m hole probe drift)
    unfolding move_back
    move-Between act big =
        let step = next-cases n probe b.probe_lt in
        let ne = not_end act in
        let (k, key, home_dist) = b.homes probe b.probe_lt act in
        record {
          hole_lt = b.probe_lt;
          probe_lt = next-lt n probe b.probe_lt;
          e_lt = b.e_lt;
          hole_free = ground arith;
          e_free = ground (arith, b.e_free, b.apart);
          apart = ne;
          drifted = ground (arith, step, b.probe_lt, b.e_lt);
          pos = omega arith;
          short = ground (arith, b.probe_lt, b.e_lt);
          homes = λ i il ia. elim (ℕ_discrete i probe) [
            | yes eq ↦ absurd (ground (arith, ia))
            | no i_ne ↦ elim (ℕ_discrete i hole) [
              | yes eq ↦ (
                k,
                ground (arith, key),
                ground (arith, home_dist, home-lt n k b.hole_lt, b.drifted, b.hole_lt, b.probe_lt),
              )
              | no h_ne ↦
                  let (k', key', dist') = b.homes i il (ground (arith, ia)) in
                  (k', ground (arith, key'), ground (arith, dist'))
            ]
          ];
          loose = λ x i xl il xh xf ia. ground (
            arith,
            b.loose x i xl il,
            b.loose x probe xl b.probe_lt,
            b.near x xl,
            b.drifted,
            b.hole_lt,
            b.probe_lt,
          );
          near = λ i il lo hi. absurd (omega arith);
        }

-- A measure that does not tell the slots of the run from `p` up to the free slot `e` apart.
abbrev Even : {K : Type 0} → ℕ → ℕ → ℕ → (ℕ → Option K → ℕ → ℕ) → Type 0
Even {K} n p e G =
    (i j : ℕ) (k : Option K) (v : ℕ)
    → i < n
    → j < n
    → dist n p i < dist n p e
    → dist n p j < dist n p e
    → G i k v ≡ G j k v

module _ {K : Type 0} where
  -- A move keeps each such measure.
  slot_sum-move_back :
      (n p e hole probe drift : ℕ) (m : HashMap K) (G : ℕ → Option K → ℕ → ℕ)
      → Even n p e G
      → hole < n
      → probe < n
      → hole ≢ probe
      → dist n p hole < dist n p e
      → dist n p probe < dist n p e
      → m.states hole ≡ 0
      → drift < m.states probe
      → slot_sum n G (move_back m hole probe drift) ≡ slot_sum n G m
  unfolding move_back
  slot_sum-move_back n p e hole probe drift m G even hl pl ne hr pr free big =
      let half : HashMap K = record m { states = update m.states probe 0 } in
      ground (
        arith,
        slot_sum_change n G m half probe pl (λ i il i_ne. ground arith),
        slot_sum_change n G half (move_back m hole probe drift) hole hl (λ i il i_ne. ground arith),
        even hole probe (m.keys probe) (m.values probe),
      )

  slot_sum-clear :
      (n p : ℕ) (m : HashMap K) (G : ℕ → Option K → ℕ → ℕ)
      → p < n
      → m.states p ≢ 0
      → slot_sum n G (clear m p) + G p (m.keys p) (m.values p) ≡ slot_sum n G m
  unfolding clear
  slot_sum-clear n p m G lt act =
      ground (arith, slot_sum_change n G m (clear m p) p lt (λ i il ne. ground arith))

module _ {K : Type 0} ⦃ops : KeyOps K⦄ where
  -- What the loop has done, from `m`, when it ends in `m'`.
  pub record Deleted (n p e : ℕ) (m m' : HashMap K) : Type 0 where
    pub table : IsTable n m'
    pub free : m'.states e ≡ 0
    pub outside :
        (i : ℕ)
        → i < n
        → dist n p e ≤ dist n p i
        → (m'.states i ≡ m.states i) × (m'.keys i ≡ m.keys i) × (m'.values i ≡ m.values i)
    pub sums : (G : ℕ → Option K → ℕ → ℕ) → Even n p e G → slot_sum n G m' ≡ slot_sum n G m
    pub same_lg : m'.lg_cur_size ≡ m.lg_cur_size
    pub same_max : m'.lg_max_size ≡ m.lg_max_size
    pub same_num : m'.num_active ≡ m.num_active

  Deleted-move_back :
      (n p e hole probe drift : ℕ) (m m' : HashMap K)
      → Between n e hole probe drift m
      → dist n p hole < dist n p e
      → dist n p probe < dist n p e
      → drift < m.states probe
      → hole ≢ probe
      → Deleted n p e (move_back m hole probe drift) m'
      → Deleted n p e m m'
  unfolding move_back
  Deleted-move_back n p e hole probe drift m m' b hr pr big ne d = record {
    table = d.table;
    free = d.free;
    outside = λ i il far. ground (arith, d.outside i il far);
    sums = λ G even.
        d.sums G even
        ∙ slot_sum-move_back n p e hole probe drift m G even b.hole_lt b.probe_lt ne hr pr
            b.hole_free big;
    same_lg = d.same_lg;
    same_max = d.same_max;
    same_num = d.same_num;
  }

  hash_delete_loop-Ends :
      (rounds n p e hole probe drift : ℕ) (m : HashMap K)
      → Between n e hole probe drift m
      → p < n
      → dist n p hole < dist n p e
      → dist n p hole + dist n hole e ≡ dist n p e
      → dist n p e < dist n p hole + drift + rounds
      → Ends (Deleted n p e m) (Drifted n) (hash_delete_loop rounds n m hole probe drift)
  unfolding hash_delete_loop
  hash_delete_loop-Ends zero n p e hole probe drift m b pl inside way enough =
      absurd (omega (arith, b.short))
  hash_delete_loop-Ends (suc rounds) n p e hole probe drift m b pl inside way enough =
      let P = Deleted n p e m in
      Ends-if P (Drifted n) (m.states probe == 0) _ _
        (λ free. record {
          table = stop-IsTable n e hole probe drift m b (ground arith);
          free = b.e_free;
          outside = λ i il far. (refl, refl, refl);
          sums = λ G even. refl;
          same_lg = refl;
          same_max = refl;
          same_num = refl;
        })
        λ act'.
          let act : m.states probe ≢ 0 = ground arith in
          let ne = not_end n e hole probe drift m b act in
          let closer : drift < dist n hole e =
            ground (arith, b.drifted, b.short, b.hole_lt, b.probe_lt, b.e_lt) in
          let near : dist n p probe ≡ dist n p hole + drift =
            ground (arith, b.drifted, b.hole_lt, b.probe_lt, b.e_lt) in
          Ends-if P (Drifted n) (ltb drift (m.states probe)) _ _
            (λ big'.
              let big : drift < m.states probe = ground arith in
              Ends-map (Deleted n p e (move_back m hole probe drift)) P (Drifted n) _
                (λ m' d.
                  Deleted-move_back n p e hole probe drift m m' b inside (omega arith) big
                    (ground (arith, b.drifted, b.pos)) d)
                (hash_delete_loop-Ends rounds n p e probe (next n probe) 1
                  (move_back m hole probe drift) (move-Between n e hole probe drift m b act big) pl
                  (omega arith) (ground (arith, b.drifted, b.hole_lt, b.probe_lt, b.e_lt))
                  (omega arith)))
            λ small.
              Ends-if P (Drifted n) (leb drift_limit (drift + 1)) _ _
                (λ long. record { is_drift_limit = refl; long = ground (arith, b.hole_lt, b.e_lt) })
                λ short.
                  hash_delete_loop-Ends rounds n p e hole (next n probe) (drift + 1) m
                    (stay-Between n e hole probe drift m b act (ground arith)) pl inside way
                    (omega arith)

  -- What `hash_delete` of the slot `p` leaves, `e` being any free slot.
  pub record Removed (n p e : ℕ) (m m' : HashMap K) : Type 0 where
    pub table : IsTable n m'
    pub free : m'.states e ≡ 0
    pub outside :
        (i : ℕ)
        → i < n
        → dist n p e ≤ dist n p i
        → (m'.states i ≡ m.states i) × (m'.keys i ≡ m.keys i) × (m'.values i ≡ m.values i)
    pub sums :
        (G : ℕ → Option K → ℕ → ℕ)
        → Even n p e G
        → slot_sum n G m' + G p (m.keys p) (m.values p) ≡ slot_sum n G m
    pub same_lg : m'.lg_cur_size ≡ m.lg_cur_size
    pub same_max : m'.lg_max_size ≡ m.lg_max_size
    pub same_num : m'.num_active ≡ m.num_active

  clear-Between :
      (n p e : ℕ) (m : HashMap K)
      → IsTable n m
      → p < n
      → e < n
      → m.states e ≡ 0
      → m.states p ≢ 0
      → Between n e p (next n p) 1 (clear m p)
  unfolding clear
  clear-Between n p e m t pl el free act =
      let ne : p ≢ e = λ eq. act (subst (λ x. m.states x ≡ 0) (sym eq) free) in
      record {
        hole_lt = pl;
        probe_lt = next-lt n p pl;
        e_lt = el;
        hole_free = ground arith;
        e_free = ground arith;
        apart = ne;
        drifted = ground (arith, next-cases n p pl);
        pos = omega arith;
        short = ground arith;
        homes = λ i il ia. elim (ℕ_discrete i p) [
          | yes eq ↦ absurd (ground (arith, ia))
          | no i_ne ↦
              let (k, key, d) = t.homes i il (ground (arith, ia)) in
              (k, ground (arith, key), ground (arith, d))
        ];
        loose = λ x i xl il xh xf ia. ground (arith, t.paths x i xl il);
        near = λ i il lo hi. absurd (omega arith);
      }

  -- `hash_delete` of an active slot, in a well-formed table with a free slot, ends in one of two
  -- ways. Either it removes that one entry and leaves the table well formed: every measure that does
  -- not tell the slots of the run apart loses what the slot held. Or it throws the exception of the
  -- drift limit, which it may only in a table of at least 1024 slots.
  pub hash_delete-Ends :
      (n p e : ℕ) (m : HashMap K)
      → n ≡ size m
      → IsTable n m
      → p < n
      → e < n
      → m.states e ≡ 0
      → m.states p ≢ 0
      → Ends (Removed n p e m) (Drifted n) (hash_delete m p)
  unfolding hash_delete clear
  hash_delete-Ends n p e m width t pl el free act = rw (← width) (
      Ends-map (Deleted n p e (clear m p)) (Removed n p e m) (Drifted n) _
        (λ m' d. record {
          table = d.table;
          free = d.free;
          outside = λ i il far. outside m' d i il far;
          sums = λ G even. omega (arith, d.sums G even, slot_sum-clear n p m G pl act);
          same_lg = d.same_lg;
          same_max = d.same_max;
          same_num = d.same_num;
        })
        (hash_delete_loop-Ends n n p e p (next n p) 1 (clear m p) b pl (ground arith) (ground arith)
          (ground arith)))
    where
      b : Between n e p (next n p) 1 (clear m p)
      b = clear-Between n p e m t pl el free act

      outside :
          (m' : HashMap K)
          → Deleted n p e (clear m p) m'
          → (i : ℕ) → i < n
          → dist n p e ≤ dist n p i
          → (m'.states i ≡ m.states i) × (m'.keys i ≡ m.keys i) × (m'.values i ≡ m.values i)
      outside m' d i il far = ground (arith, d.outside i il far, b.apart, pl, el)
