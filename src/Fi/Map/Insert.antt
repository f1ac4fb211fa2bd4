-- ===== src/Fi/Map/Insert.antt =====
-- `get` and `internal_adjust_or_insert` against the abstract map.
use native.Mathlib.Decide.{ℕ_discrete}
use whylogs_datasketches.Base.{
  ℕ, ◌+◌, ◌≤◌, ◌<◌, ◌^◌, ◌≡◌, ◌≢◌, inl, inr, refl, ap, ◌∙◌, subst, Bool, true, false, Option, some,
  ltb, add64, update, if◌then◌else◌, Bool-cases, Ends, Ends-if, Ends-bind, ok, sum_below_gap,
  sum_below_zero, arith,
}
use whylogs_datasketches.Base.Cyclic.{dist}
use whylogs_datasketches.Fi.Map.{
  HashMap, KeyOps, Probe, found, vacant, home, home-lt, get, probe, write,
  internal_adjust_or_insert, get_capacity, size, new,
}
use whylogs_datasketches.Fi.Map.Delete.{Drifted}
use whylogs_datasketches.Fi.Map.Probing.{
  Stored, Absent, Searched, probe-Ends, get_ok, view-Stored, Absent-sum,
}
use whylogs_datasketches.Fi.Map.Table.{
  IsTable, slot_sum, slot_sum_change, term, holds, occurrences, view, active, weight,
}

module _ {K : Type 0} ⦃ops : KeyOps K⦄ where
  -- The invariant of the class.
  pub record IsValid (m : HashMap K) : Type 0 where
    pub table : IsTable (size m) m
    pub once : (k : K) → occurrences (size m) k m ≤ 1
    pub counted : active (size m) m ≡ m.num_active
    pub room : m.num_active < size m
    pub wide : 8 ≤ size m
    pub bounded : (q : K) → view (size m) q m < 2 ^ 64

  -- The invariant, stated for a size that is known to be the map's.
  pub IsValid-of :
      (n : ℕ) (m : HashMap K)
      → n ≡ size m
      → IsTable n m
      → ((k : K) → occurrences n k m ≤ 1)
      → active n m ≡ m.num_active
      → m.num_active < n
      → 8 ≤ n
      → ((q : K) → view n q m < 2 ^ 64)
      → IsValid m
  IsValid-of n m width t o c r w b = record {
    table = subst (λ x. IsTable x m) width t;
    once = subst (λ x. (k : K) → occurrences x k m ≤ 1) width o;
    counted = subst (λ x. active x m ≡ m.num_active) width c;
    room = omega arith;
    wide = omega arith;
    bounded = subst (λ x. (q : K) → view x q m < 2 ^ 64) width b;
  }

  pub free_slot : (m : HashMap K) → IsValid m → (e : ℕ) × (e < size m) × (m.states e ≡ 0)
  unfolding slot_sum
  free_slot m v =
      let (e, lt, z) =
        sum_below_gap (size m) (term (λ i k w. 1) m) (omega (arith, v.counted, v.room)) in
      (e, lt, ground arith)

  pub get-view : (m : HashMap K) (k : K) → IsValid m → get m k ≡ ok (view (size m) k m)
  get-view m k v =
      let (e, el, free) = free_slot m v in get_ok (size m) e m k v.table el free refl v.once

  -- What adding `v` to the value under `k` makes of a map.
  pub record Adjusted (m : HashMap K) (k : K) (v : ℕ) (r : Bool × HashMap K) : Type 0 where
    pub table : IsTable (size m) r.1
    pub once : (q : K) → occurrences (size m) q r.1 ≤ 1
    pub counted : active (size m) r.1 ≡ r.1.num_active
    pub views :
        (q : K)
        → view (size m) q r.1
          ≡ (if ops.equal k q then add64 (view (size m) q m) v else view (size m) q m)
    pub weighs : weight (size m) r.1 ≤ weight (size m) m + v
    pub num : r.1.num_active ≡ (if r.0 then m.num_active + 1 else m.num_active)
    pub same_lg : r.1.lg_cur_size ≡ m.lg_cur_size
    pub same_max : r.1.lg_max_size ≡ m.lg_max_size

  module _ (m : HashMap K) (k : K) (v : ℕ) (valid : IsValid m) (small : v < 2 ^ 64) where
    -- The key is there: its value grows.
    found-Adjusted :
        (i : ℕ)
        → Stored (size m) m k i
        → Adjusted m k v (false, record m { values = update m.values i (add64 (m.values i) v) })
    unfolding slot_sum
    found-Adjusted i (il, act, key) =
        let after : HashMap K = record m { values = update m.values i (add64 (m.values i) v) } in
        record {
          table = record { homes = valid.table.homes; paths = valid.table.paths };
          once = valid.once;
          counted = valid.counted;
          views = λ q. elim (Bool-cases (ops.equal k q)) [
            | inl e ↦
                let same : k ≡ q = (ops.equal_iff k q).0 e in
                let key' : m.keys i ≡ some q = key ∙ ap some same in
                rw e (
                  view-Stored (size m) after q i (valid.once q) (il, act, key')
                  ∙ ground (arith, view-Stored (size m) m q i (valid.once q) (il, act, key')))
            | inr e ↦ ground (
              arith,
              e,
              key,
              slot_sum_change (size m) (λ j k' w. if holds q k' then w else 0) m after i il
                  (λ j jl ne. ground arith),
            )
          ];
          weighs = ground (
            arith,
            key,
            act,
            slot_sum_change (size m) (λ j k' w. w) m after i il (λ j jl ne. ground arith),
          );
          num = refl;
          same_lg = refl;
          same_max = refl;
        }

    -- The key is new.
    vacant-Adjusted :
        (i drift : ℕ)
        → i < size m
        → m.states i ≡ 0
        → drift ≡ dist (size m) (home (size m) k) i + 1
        → ((x : ℕ)
            → x < size m
            → dist (size m) (home (size m) k) x < dist (size m) (home (size m) k) i
            → m.states x ≢ 0)
        → Absent (size m) m k
        → Adjusted m k v (
          true,
          record m {
            num_active = m.num_active + 1;
            keys = update m.keys i (some k);
            values = update m.values i v;
            states = update m.states i drift;
          },
        )
    vacant-Adjusted i drift il free de way absent =
        let after : HashMap K = record m {
          num_active = m.num_active + 1;
          keys = update m.keys i (some k);
          values = update m.values i v;
          states = update m.states i drift;
        } in
        let grows = λ (G : ℕ → Option K → ℕ → ℕ).
          slot_sum_change (size m) G m after i il (λ j jl ne. ground arith) in
        record {
          table = record {
            homes = λ j jl ja. elim (ℕ_discrete j i) [
              | yes e ↦ (k, ground arith, ground (arith, e))
              | no ne ↦
                  let (k', key, d) = valid.table.homes j jl (ground (arith, ja)) in
                  (k', ground (arith, key), ground (arith, d))
            ];
            paths = λ x j xl jl xf ja. elim (ℕ_discrete j i) [
              | yes e ↦ ground (arith, way x xl, home-lt (size m) k il)
              | no ne ↦ ground (arith, valid.table.paths x j xl jl)
            ];
          };
          once = λ q. elim (Bool-cases (ops.equal k q)) [
            | inl e ↦
                let same : k ≡ q = (ops.equal_iff k q).0 e in
                let absent' : Absent (size m) m q = subst (λ x. Absent (size m) m x) same absent in
                ground (
                  arith,
                  e,
                  grows (λ j k' w. if holds q k' then 1 else 0),
                  Absent-sum (size m) m q (λ w. 1) absent',
                )
            | inr e ↦ ground (arith, e, valid.once q, grows (λ j k' w. if holds q k' then 1 else 0))
          ];
          counted = ground (arith, valid.counted, grows (λ j k' w. 1));
          views = λ q. elim (Bool-cases (ops.equal k q)) [
            | inl e ↦
                let same : k ≡ q = (ops.equal_iff k q).0 e in
                let absent' : Absent (size m) m q = subst (λ x. Absent (size m) m x) same absent in
                ground (
                  arith,
                  e,
                  grows (λ j k' w. if holds q k' then w else 0),
                  Absent-sum (size m) m q (λ w. w) absent',
                )
            | inr e ↦ ground (arith, e, grows (λ j k' w. if holds q k' then w else 0))
          ];
          weighs = ground (arith, grows (λ j k' w. w));
          num = refl;
          same_lg = refl;
          same_max = refl;
        }

    -- `internal_adjust_or_insert` of a value below 2^64, on a valid map that is within its capacity,
    -- ends in one of two ways. Either it adds the value modulo 2^64 to what the abstract map has
    -- under the key, changes no other key, and leaves the table well formed; or it throws the
    -- exception of the drift limit, which it may only in a map of at least 1024 slots.
    pub internal_adjust_or_insert-Ends :
        m.num_active ≤ get_capacity m
        → Ends (Adjusted m k v) (Drifted (size m)) (internal_adjust_or_insert m k v)
    unfolding internal_adjust_or_insert write
    internal_adjust_or_insert-Ends fits =
        let (e, el, free) = free_slot m valid in
        Ends-bind (Searched (size m) e m k valid.table el free) (Adjusted m k v) (Drifted (size m))
          (probe m k) (write m k v) (probe-Ends (size m) e m k valid.table el free refl)
          (λ r _ s. writes r s)
      where
        writes :
            (r : Probe)
            → (let (e, el, free) = free_slot m valid in
                Searched (size m) e m k valid.table el free r)
            → Ends (Adjusted m k v) (Drifted (size m)) (write m k v r)
        writes (found i) s = found-Adjusted i s
        writes (vacant i d) (il, free, de, way, absent) =
            Ends-if _ _ (ltb (get_capacity m) m.num_active) _ _ (λ over. absurd (ground arith))
              (λ under. vacant-Adjusted i d il free de way absent)

  -- A new map is valid and empty.
  pub new-IsValid :
      (lg lg_max : ℕ)
      → 8 ≤ 2 ^ lg
      → IsValid (new lg lg_max)
        × ((q : K) → view (2 ^ lg) q (new lg lg_max) ≡ 0)
        × (weight (2 ^ lg) (new {K = K} lg lg_max) ≡ 0)
  unfolding new slot_sum
  new-IsValid lg lg_max wide =
      let zeros = λ (n : ℕ). sum_below_zero n (λ i. 0) (λ i l. refl) in
      (
        record {
          table = record {
            homes = λ i l a. absurd (a refl);
            paths = λ x i l l' z a. absurd (a refl);
          };
          once = λ k. omega (arith, zeros (2 ^ lg));
          counted = zeros (2 ^ lg);
          room = omega arith;
          wide = wide;
          bounded = λ q. omega (arith, zeros (2 ^ lg));
        },
        (λ q. zeros (2 ^ lg)),
        zeros (2 ^ lg),
      )
