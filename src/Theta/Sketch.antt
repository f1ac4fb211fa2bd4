-- ===== src/Theta/Sketch.antt =====
-- The update sketch of theta/include/theta_sketch_impl.hpp, its builder, and the compact sketch.
pub mod Stream
use whylogs_datasketches.Base.{
  ℕ, zero, suc, ◌+◌, ◌^◌, Bool, true, false, ◌||◌, ◌&&◌, not, ltb, leb, ◌==◌, if◌then◌else◌, List,
  [], ◌∷◌, length, Outcome, ok, throws, throw_if, invalid_argument, ◌>>=◌, ◌>>◌,
}
use whylogs_datasketches.Theta.Table.{
  Keyed, Table, max_theta, min_lg_k, starting_sub_multiple, new, find, insert, hash_and_screen,
  retained, sort_by_key,
}

abbrev pub max_lg_k : ℕ
max_lg_k = 26

-- `set_lg_k` of the builder
unfoldable pub set_lg_k : ℕ → Outcome ℕ
set_lg_k lg_k = do
  throw_if (ltb lg_k min_lg_k) invalid_argument
  throw_if (ltb max_lg_k lg_k) invalid_argument
  ok lg_k

unfoldable pub starting_lg_size : ℕ → ℕ → ℕ
starting_lg_size lg_k rf = starting_sub_multiple (lg_k + 1) min_lg_k rf

-- `build` of the builder after `set_lg_k`, with the other settings as arguments.
unfoldable pub build : ℕ → ℕ → ℕ → ℕ → Outcome (Table ℕ)
build lg_k rf starting_theta seed = set_lg_k lg_k >>= λ lg.
    ok (new true (starting_lg_size lg rf) lg rf starting_theta starting_theta seed)

-- An entry is a hash, and is its own key.
instance abbrev pub trivial_extract_key : Keyed ℕ
trivial_extract_key = record { key = λ hash. hash }

-- `update` of the item with this hash.
unfoldable pub update : Table ℕ → ℕ → Outcome (Table ℕ)
update t hash =
    let (t', screened) = hash_and_screen t hash in
    if screened == 0
    then ok t'
    else do (it, found) ← find t' screened; if found then ok t' else insert t' it screened

unfoldable pub update_all : List ℕ → Table ℕ → Outcome (Table ℕ)
update_all [] t = ok t
update_all (hash ∷ hashes) t = update t hash >>= update_all hashes

-- What the set operations read of a sketch, and what they return.
pub record Sketch (E : Type 0) : Type 0 where
  pub is_empty : Bool
  pub is_ordered : Bool
  pub seed_hash : ℕ
  pub theta : ℕ
  pub num_retained : ℕ
  pub entries : List E

-- The constructor of a compact sketch from its parts.
unfoldable pub compact_of : {E : Type 0} → Bool → Bool → ℕ → ℕ → List E → Sketch E
compact_of is_empty is_ordered seed_hash theta entries = record {
  is_empty = is_empty;
  is_ordered = is_ordered || leb (length entries) 1;
  seed_hash = seed_hash;
  theta = theta;
  num_retained = length entries;
  entries = entries;
}

module _ {E : Type 0} ⦃keyed : Keyed E⦄ where
  -- An update sketch as the set operations see it; `seed_hash` is `compute_seed_hash` of its seed.
  unfoldable pub as_sketch : (ℕ → ℕ) → Table E → Sketch E
  as_sketch compute_seed_hash t = record {
    is_empty = t.is_empty;
    is_ordered = if ltb 1 t.num_entries then false else true;
    seed_hash = compute_seed_hash t.seed;
    theta = if t.is_empty then max_theta else t.theta;
    num_retained = t.num_entries;
    entries = retained t;
  }

  -- The constructor of a compact sketch from another sketch.
  unfoldable pub compact : Sketch E → Bool → Sketch E
  compact other ordered =
      let entries =
        if other.is_empty
        then []
        else (if ordered && not other.is_ordered
            then sort_by_key other.entries
            else other.entries) in
      record {
        is_empty = other.is_empty;
        is_ordered = other.is_ordered || ordered;
        seed_hash = other.seed_hash;
        theta = other.theta;
        num_retained = length entries;
        entries = entries;
      }
