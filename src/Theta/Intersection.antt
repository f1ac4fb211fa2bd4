-- ===== src/Theta/Intersection.antt =====
-- The intersection of theta/include/theta_intersection_base_impl.hpp.
pub mod Size
pub mod Fill
pub mod Match
pub mod Update
use whylogs_datasketches.Base.{
  ℕ, zero, suc, ◌+◌, ◌*◌, ◌/◌, ◌^◌, Bool, true, false, ◌||◌, ◌&&◌, not, ltb, ◌==◌, if◌then◌else◌,
  min, List, [], ◌∷◌, length, Option, none, some, Outcome, ok, throws, throw_if, invalid_argument,
  undefined, ◌>>=◌, ◌>>◌,
}
use whylogs_datasketches.Theta.Table.{
  Keyed, Table, max_theta, new, find, insert, retained, sort_by_key,
}
use whylogs_datasketches.Theta.Sketch.{Sketch, compact_of}
use whylogs_datasketches.Theta.Union.{apply_policy}

-- `log2` takes as many rounds as its argument has bits.
unfoldable pub log2_from : ℕ → ℕ → ℕ
log2_from zero n = 0
log2_from (suc rounds) n = let rest = log2_from rounds (n / 2) in if ltb 1 n then 1 + rest else 0

unfoldable pub log2 : ℕ → ℕ
log2 n = log2_from 32 n

-- `lg_size_from_count` with the load factor 15 / 16. The 1 that it shifts is an int of 32 bits.
unfoldable pub lg_size_from_count : ℕ → Outcome ℕ
lg_size_from_count n = do
  throw_if (ltb 30 (log2 n + 1)) undefined
  ok (log2 n + (if ltb (15 * 2 ^ (log2 n + 1) / 16) n then 2 else 1))

pub record IntersectionState (E : Type 0) : Type 0 where
  pub is_valid : Bool
  pub table : Table E

module _ {E : Type 0} ⦃keyed : Keyed E⦄ where
  unfoldable pub new_intersection : ℕ → IntersectionState E
  new_intersection seed = record {
    is_valid = false;
    table = new false 0 0 0 max_theta max_theta seed;
  }

  -- A table for `count` entries, in place of the table `t`.
  unfoldable pub table_for : ℕ → Table E → Outcome (Table E)
  table_for count t = do
    lg_size ← lg_size_from_count count
    ok (new t.is_empty lg_size lg_size 0 max_theta t.theta t.seed)

  -- A table without an array, in place of the table `t`.
  unfoldable pub no_entries : Table E → Table E
  no_entries t = new t.is_empty 0 0 0 max_theta t.theta t.seed

  -- The loops that fill a table: that of the first update is `strict` about duplicates.
  unfoldable pub fill : Bool → List E → Table E → Outcome (Table E)
  fill strict [] t = ok t
  fill strict (e ∷ es) t = do
    (it, found) ← find t (keyed.key e)
    throw_if (strict && found) invalid_argument
    t' ← insert t it e
    fill strict es t'

  unfoldable pub first_update : Sketch E → Table E → Outcome (Table E)
  first_update sketch t = do
    fresh ← table_for sketch.num_retained t
    t' ← fill true sketch.entries fresh
    throw_if (not (t'.num_entries == sketch.num_retained)) invalid_argument
    ok t'

  -- The entry that `find` found.
  abbrev pub at_slot : Option E → Outcome E
  at_slot none = throws undefined
  at_slot (some e) = ok e

  -- The loop over the entries of the sketch: the matched entries, and how many keys were counted.
  unfoldable pub match_loop :
      (E → E → E) → Bool → ℕ → List E → Table E → ℕ → ℕ → Outcome (List E × ℕ)
  match_loop policy is_ordered max_matches [] t match_count count = ok ([], count)
  match_loop policy is_ordered max_matches (entry ∷ entries) t match_count count =
      let skip = match_loop policy is_ordered max_matches entries t match_count (count + 1) in
      let look_up = (do
        (it, found) ← find t (keyed.key entry)
        let t' = apply_policy policy t it entry
        let taken = (do
          throw_if (match_count == max_matches) invalid_argument
          matched ← at_slot (t'.entries it)
          (rest, total) ←
              match_loop policy is_ordered max_matches entries t' (match_count + 1) (count + 1)
          ok (matched ∷ rest, total))
        if found then taken else skip) in
      if ltb (keyed.key entry) t.theta
      then look_up
      else (if is_ordered then ok ([], count) else skip)

  unfoldable pub intersect : (E → E → E) → Sketch E → Table E → Outcome (Table E)
  intersect policy sketch t = do
    let max_matches = min t.num_entries sketch.num_retained
    (matched, count) ← match_loop policy sketch.is_ordered max_matches sketch.entries t 0 0
    throw_if (ltb sketch.num_retained count) invalid_argument
    throw_if (not sketch.is_ordered && ltb count sketch.num_retained) invalid_argument
    let nothing = no_entries t
    let cleared = if t.theta == max_theta then record nothing { is_empty = true } else nothing
    let filled = table_for (length matched) t >>= fill false matched
    (if length matched == 0 then ok cleared else filled)

  -- The rest of `update`, where the sketch has entries.
  unfoldable pub with_entries :
      (E → E → E) → Bool → Sketch E → Table E → Outcome (IntersectionState E)
  with_entries policy is_valid sketch t =
      (if is_valid then intersect policy sketch t else first_update sketch t) >>= λ t'.
      ok (record { is_valid = true; table = t' })

  unfoldable pub update_intersection :
      (ℕ → ℕ) → (E → E → E) → IntersectionState E → Sketch E → Outcome (IntersectionState E)
  update_intersection compute_seed_hash policy st sketch = if st.table.is_empty then ok st else do
    throw_if (not sketch.is_empty && not (sketch.seed_hash == compute_seed_hash st.table.seed))
        invalid_argument
    let is_empty = st.table.is_empty || sketch.is_empty
    let t = record st.table {
      is_empty = is_empty;
      theta = if is_empty then max_theta else min st.table.theta sketch.theta;
    }
    let taken =
        if sketch.num_retained == 0
        then ok (record { is_valid = true; table = no_entries t })
        else with_entries policy st.is_valid sketch t
    (if st.is_valid && (t.num_entries == 0) then ok (record st { table = t }) else taken)

  unfoldable pub get_intersection_result : (ℕ → ℕ) → IntersectionState E → Bool → Outcome (Sketch E)
  get_intersection_result compute_seed_hash st ordered = do
    throw_if (not st.is_valid) invalid_argument
    let entries = if ltb 0 st.table.num_entries then retained st.table else []
    ok (
        compact_of st.table.is_empty ordered (compute_seed_hash st.table.seed) st.table.theta
          (if ordered then sort_by_key entries else entries))
