-- ===== src/Theta/Difference.antt =====
-- The difference of theta/include/theta_set_difference_base_impl.hpp.
pub mod Ordered
pub mod Compute
use whylogs_datasketches.Base.{
  ℕ, zero, suc, Bool, true, false, ◌||◌, ◌&&◌, not, ltb, ◌==◌, if◌then◌else◌, min, List, [], ◌∷◌,
  length, Outcome, ok, throw_if, invalid_argument, ◌>>=◌, ◌>>◌,
}
use whylogs_datasketches.Theta.Table.{Keyed, Table, max_theta, new, find, insert, sort_by_key}
use whylogs_datasketches.Theta.Sketch.{Sketch, trivial_extract_key, compact, compact_of}
use whylogs_datasketches.Theta.Union.{keys_below}
use whylogs_datasketches.Theta.Intersection.{lg_size_from_count}

module _ {E : Type 0} ⦃keyed : Keyed E⦄ where
  -- Without the entries in front whose keys are below a limit.
  unfoldable pub drop_below : ℕ → List E → List E
  drop_below limit [] = []
  drop_below limit (e ∷ es) = if ltb (keyed.key e) limit then drop_below limit es else e ∷ es

  -- The first entry, if it has the key, is passed over.
  unfoldable pub drop_match : ℕ → List E → List E
  drop_match key [] = []
  drop_match key (e ∷ es) = if keyed.key e == key then es else e ∷ es

  unfoldable pub starts_with : ℕ → List E → Bool
  starts_with key [] = false
  starts_with key (e ∷ es) = keyed.key e == key

  -- `std::set_difference` of two ranges in order, with the comparator by keys.
  unfoldable pub set_difference : List E → List E → List E
  set_difference [] bs = []
  set_difference (a ∷ es) bs =
      let on = drop_below (keyed.key a) bs in
      let rest = set_difference es (drop_match (keyed.key a) on) in
      if starts_with (keyed.key a) on then rest else a ∷ rest

  -- The loop that puts the hashes of the second sketch into the table.
  unfoldable pub hash_loop : ℕ → Bool → List E → Table ℕ → Outcome (Table ℕ)
  hash_loop theta is_ordered [] t = ok t
  hash_loop theta is_ordered (e ∷ es) t =
      let hash = keyed.key e in
      let put = (do
        (it, found) ← find t hash
        t' ← insert t it hash
        hash_loop theta is_ordered es t') in
      let rest = hash_loop theta is_ordered es t in
      if ltb hash theta then put else (if is_ordered then ok t else rest)

  -- The loop that looks up the entries of the first sketch.
  unfoldable pub scan_loop : ℕ → Bool → List E → Table ℕ → Outcome (List E)
  scan_loop theta is_ordered [] t = ok []
  scan_loop theta is_ordered (e ∷ es) t =
      let rest = scan_loop theta is_ordered es t in
      let look_up = (do
        (it, found) ← find t (keyed.key e)
        kept ← rest
        ok (if found then kept else e ∷ kept)) in
      if ltb (keyed.key e) theta then look_up else (if is_ordered then ok [] else rest)

  unfoldable pub hash_difference : ℕ → Sketch E → Sketch E → Outcome (List E)
  hash_difference theta a b = do
    lg_size ← lg_size_from_count b.num_retained
    t ← hash_loop theta b.is_ordered b.entries (new true lg_size lg_size 0 max_theta 0 0)
    scan_loop theta a.is_ordered a.entries t

  unfoldable pub difference_entries : ℕ → Sketch E → Sketch E → Outcome (List E)
  difference_entries theta a b =
      let hashed = hash_difference theta a b in
      if b.num_retained == 0
      then ok (keys_below theta a.entries)
      else (if a.is_ordered && b.is_ordered
          then ok (keys_below theta (set_difference a.entries b.entries))
          else hashed)

  unfoldable pub compute_difference : ℕ → Sketch E → Sketch E → Bool → Outcome (Sketch E)
  compute_difference seed_hash a b ordered =
      if a.is_empty || (ltb 0 a.num_retained && b.is_empty) then ok (compact a ordered) else do
        throw_if (not (a.seed_hash == seed_hash)) invalid_argument
        throw_if (not (b.seed_hash == seed_hash)) invalid_argument
        let theta = min a.theta b.theta
        entries ← difference_entries theta a b
        let is_empty = a.is_empty || ((length entries == 0) && (theta == max_theta))
        ok (
            compact_of is_empty (a.is_ordered || ordered) seed_hash theta
              (if ordered && not a.is_ordered then sort_by_key entries else entries))
