-- ===== src/Theta/Union.antt =====
-- The union of theta/include/theta_union_base_impl.hpp.
pub mod Update
pub mod Result
pub mod All
use whylogs_datasketches.Base.{
  ℕ, zero, suc, ◌+◌, ◌^◌, ◌≡◌, Bool, true, false, ◌&&◌, not, ltb, leb, ◌==◌, if◌then◌else◌, min,
  update, List, [], ◌∷◌, length, Option, none, some, Outcome, ok, throw_if, invalid_argument, ◌>>=◌,
  ◌>>◌,
}
use whylogs_datasketches.Theta.Table.{
  Keyed, Table, new, find, insert, reset, retained, sort_by_key, split_at_nth,
}
use whylogs_datasketches.Theta.Sketch.{set_lg_k, starting_lg_size, Sketch, compact_of}

-- The table and the least `theta` of the sketches so far.
pub record UnionState (E : Type 0) : Type 0 where
  pub table : Table E
  pub union_theta : ℕ

module _ {E : Type 0} ⦃keyed : Keyed E⦄ where
  unfoldable pub new_union : ℕ → ℕ → ℕ → ℕ → ℕ → ℕ → UnionState E
  new_union lg_cur_size lg_nom_size rf starting_theta theta seed = record {
    table = new true lg_cur_size lg_nom_size rf starting_theta theta seed;
    union_theta = theta;
  }

  -- `build` of the builder after `set_lg_k`, with the other settings as arguments.
  unfoldable pub build_union : ℕ → ℕ → ℕ → ℕ → Outcome (UnionState E)
  build_union lg_k rf starting_theta seed = set_lg_k lg_k >>= λ lg.
      ok (new_union (starting_lg_size lg rf) lg rf starting_theta starting_theta seed)

  abbrev pub merged : (E → E → E) → Option E → E → Option E
  merged policy none entry = none
  merged policy (some old) entry = some (policy old entry)

  -- The policy changes the entry that is there by the incoming one.
  abbrev pub apply_policy : (E → E → E) → Table E → ℕ → E → Table E
  apply_policy policy t it entry = record t {
    entries = update t.entries it (merged policy (t.entries it) entry);
  }

  -- An entry of a sketch goes into the table.
  unfoldable pub insert_or_merge : (E → E → E) → Table E → E → Outcome (Table E)
  insert_or_merge policy t entry = do
    (it, found) ← find t (keyed.key entry)
    if found then ok (apply_policy policy t it entry) else insert t it entry

  -- The loop of `update` over the entries of the sketch.
  unfoldable pub update_loop : (E → E → E) → Bool → ℕ → List E → Table E → Outcome (Table E)
  update_loop policy is_ordered union_theta [] t = ok t
  update_loop policy is_ordered union_theta (entry ∷ entries) t =
      let hash = keyed.key entry in
      let taken =
        insert_or_merge policy t entry >>= update_loop policy is_ordered union_theta entries in
      let rest = update_loop policy is_ordered union_theta entries t in
      if ltb hash union_theta && ltb hash t.theta
      then taken
      else (if is_ordered then ok t else rest)

  unfoldable pub update_union :
      (ℕ → ℕ) → (E → E → E) → UnionState E → Sketch E → Outcome (UnionState E)
  update_union compute_seed_hash policy u sketch = if sketch.is_empty then ok u else do
    throw_if (not (sketch.seed_hash == compute_seed_hash u.table.seed)) invalid_argument
    let union_theta = if ltb sketch.theta u.union_theta then sketch.theta else u.union_theta
    t ←
        update_loop policy sketch.is_ordered union_theta sketch.entries
          (record u.table { is_empty = false })
    ok (record {
      table = t;
      union_theta = if ltb t.theta union_theta then t.theta else union_theta;
    })

  -- The entries with keys below a limit.
  unfoldable pub keys_below : ℕ → List E → List E
  keys_below theta [] = []
  keys_below theta (e ∷ es) =
      if ltb (keyed.key e) theta then e ∷ keys_below theta es else keys_below theta es

  -- The entries of the result and its `theta`, before they are sorted.
  unfoldable pub result_entries : UnionState E → Outcome (List E × ℕ)
  result_entries u =
      let theta = min u.union_theta u.table.theta in
      let nominal_num = 2 ^ u.table.lg_nom_size in
      let low = keys_below theta (retained u.table) in
      let cut_off = (do
        (kept, nth) ← split_at_nth nominal_num (sort_by_key low)
        ok (kept, keyed.key nth)) in
      if leb theta u.union_theta && leb u.table.num_entries nominal_num
      then ok (retained u.table, theta)
      else (if ltb nominal_num (length low) then cut_off else ok (low, theta))

  unfoldable pub get_union_result : (ℕ → ℕ) → UnionState E → Bool → Outcome (Sketch E)
  get_union_result compute_seed_hash u ordered =
      if u.table.is_empty
      then ok (compact_of true true (compute_seed_hash u.table.seed) u.union_theta [])
      else do
        (entries, theta) ← result_entries u
        ok (
            compact_of u.table.is_empty ordered (compute_seed_hash u.table.seed) theta
              (if ordered then sort_by_key entries else entries))

  unfoldable pub reset_union : UnionState E → UnionState E
  reset_union u = record { table = reset u.table; union_theta = (reset u.table).theta }

  -- A union of several sketches, one after the other.
  unfoldable pub update_each :
      (ℕ → ℕ) → (E → E → E) → List (Sketch E) → UnionState E → Outcome (UnionState E)
  update_each compute_seed_hash policy [] u = ok u
  update_each compute_seed_hash policy (s ∷ ss) u =
      update_union compute_seed_hash policy u s >>= update_each compute_seed_hash policy ss
