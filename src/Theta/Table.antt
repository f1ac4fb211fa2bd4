-- ===== src/Theta/Table.antt =====
-- The hash table of theta/include/theta_update_sketch_base_impl.hpp. A slot is `none` where the key
-- of its entry was set to 0 and the rest of the entry is not constructed.
use whylogs_datasketches.Base.{
  ℕ, zero, suc, ◌+◌, ◌-◌, ◌*◌, ◌/◌, ◌%◌, ◌^◌, Bool, true, false, ltb, leb, ◌==◌, if◌then◌else◌, min,
  update, List, [], ◌∷◌, Option, none, some, Outcome, ok, throws, throw_if, logic_error, undefined,
  diverges, ◌>>=◌, ◌>>◌,
}

-- The template parameter `ExtractKey`. Keys are hashes of 64 bits.
pub record Keyed (E : Type 0) : Type 0 where
  pub key : E → ℕ

-- `starting_theta` is `starting_theta_from_p(p_)`, a product of floating point numbers.
pub record Table (E : Type 0) : Type 0 where
  pub is_empty : Bool
  pub lg_cur_size : ℕ
  pub lg_nom_size : ℕ
  pub rf : ℕ
  pub starting_theta : ℕ
  pub num_entries : ℕ
  pub theta : ℕ
  pub seed : ℕ
  pub entries : ℕ → Option E

abbrev pub max_theta : ℕ
max_theta = 2 ^ 63 - 1

abbrev pub min_lg_k : ℕ
min_lg_k = 5

unfoldable pub starting_sub_multiple : ℕ → ℕ → ℕ → ℕ
starting_sub_multiple lg_tgt lg_min lg_rf =
    if leb lg_tgt lg_min
    then lg_min
    else (if lg_rf == 0 then lg_tgt else (lg_tgt - lg_min) % lg_rf + lg_min)

-- `floor(fraction * (1 << lg_cur_size))` for the fractions 0.5 and 15 / 16
unfoldable pub get_capacity : ℕ → ℕ → ℕ
get_capacity lg_cur_size lg_nom_size =
    if leb lg_cur_size lg_nom_size then 2 ^ lg_cur_size / 2 else 15 * 2 ^ lg_cur_size / 16

abbrev pub get_stride : ℕ → ℕ → ℕ
get_stride key lg_size = 2 * (key / 2 ^ lg_size % 2 ^ 7) + 1

abbrev pub home : ℕ → ℕ → ℕ
home key lg_size = key % 2 ^ 32 % 2 ^ lg_size

module _ {E : Type 0} where
  unfoldable pub new : Bool → ℕ → ℕ → ℕ → ℕ → ℕ → ℕ → Table E
  new is_empty lg_cur_size lg_nom_size rf starting_theta theta seed = record {
    is_empty = is_empty;
    lg_cur_size = lg_cur_size;
    lg_nom_size = lg_nom_size;
    rf = rf;
    starting_theta = starting_theta;
    num_entries = 0;
    theta = theta;
    seed = seed;
    entries = λ i. none;
  }

module _ {E : Type 0} ⦃keyed : Keyed E⦄ where
  -- `EK()(entries[i])`
  abbrev pub key_of : Option E → ℕ
  key_of none = 0
  key_of (some e) = keyed.key e

  -- The loop of `find`: it ends after one round of the table.
  unfoldable pub find_loop : ℕ → (ℕ → Option E) → ℕ → ℕ → ℕ → ℕ → ℕ → Outcome (ℕ × Bool)
  find_loop zero entries lg_size stride loop_index index key = throws diverges
  find_loop (suc rounds) entries lg_size stride loop_index index key =
      let next = (index + stride) % 2 ^ lg_size in
      let rest = find_loop rounds entries lg_size stride loop_index next key in
      if key_of (entries index) == 0
      then ok (index, false)
      else (if key_of (entries index) == key
          then ok (index, true)
          else (if next == loop_index then throws logic_error else rest))

  unfoldable pub find_in : (ℕ → Option E) → ℕ → ℕ → Outcome (ℕ × Bool)
  find_in entries lg_size key =
      find_loop (2 ^ lg_size) entries lg_size (get_stride key lg_size) (home key lg_size)
        (home key lg_size) key

  -- A table of `lg_cur_size` 0 has no array.
  unfoldable pub find : Table E → ℕ → Outcome (ℕ × Bool)
  find t key = throw_if (t.lg_cur_size == 0) undefined >> find_in t.entries t.lg_cur_size key

  -- The loop of `resize` over the old array, from slot `i` on.
  unfoldable pub resize_loop : ℕ → ℕ → ℕ → (ℕ → Option E) → (ℕ → Option E) → Outcome (ℕ → Option E)
  resize_loop zero i lg_new_size entries new_entries = ok new_entries
  resize_loop (suc rounds) i lg_new_size entries new_entries =
      let skip = resize_loop rounds (i + 1) lg_new_size entries new_entries in
      let move = (do
        (index, found) ← find_in new_entries lg_new_size (key_of (entries i))
        resize_loop rounds (i + 1) lg_new_size entries (update new_entries index (entries i))) in
      if key_of (entries i) == 0 then skip else move

  unfoldable pub resize : Table E → Outcome (Table E)
  resize t = do
    let lg_new_size = min (t.lg_cur_size + t.rf) (t.lg_nom_size + 1)
    entries ← resize_loop (2 ^ t.lg_cur_size) 0 lg_new_size t.entries (λ i. none)
    ok (record t { entries = entries; lg_cur_size = lg_new_size })

  -- The first slot from `i` on whose key is 0.
  unfoldable pub first_empty : ℕ → ℕ → (ℕ → Option E) → ℕ
  first_empty zero i entries = i
  first_empty (suc rounds) i entries =
      if key_of (entries i) == 0 then i else first_empty rounds (i + 1) entries

  -- The second loop of `consolidate_non_empty`: slot `i` is empty, slot `j` is looked at.
  unfoldable pub compact_loop : ℕ → ℕ → ℕ → ℕ → (ℕ → Option E) → ℕ → Option E
  compact_loop zero i j num entries = entries
  compact_loop (suc rounds) i j num entries =
      let skip = compact_loop rounds i (j + 1) num entries in
      let moved = update (update entries i (entries j)) j none in
      let rest = compact_loop rounds (i + 1) (j + 1) num moved in
      if key_of (entries j) == 0 then skip else (if i + 1 == num then moved else rest)

  unfoldable pub consolidate_non_empty : (ℕ → Option E) → ℕ → ℕ → ℕ → Option E
  consolidate_non_empty entries size num =
      let i = first_empty size 0 entries in compact_loop (size - (i + 1)) i (i + 1) num entries

  -- The entries that `nth_element` is given.
  unfoldable pub read_entries : ℕ → ℕ → (ℕ → Option E) → Outcome (List E)
  read_entries zero i entries = ok []
  read_entries (suc num) i entries = elim (entries i) [
    | none ↦ throws undefined
    | some e ↦ read_entries num (i + 1) entries >>= λ es. ok (e ∷ es)
  ]

  -- One of the orders that `nth_element` with the comparator by keys may leave: all in order.
  unfoldable pub insert_by_key : E → List E → List E
  insert_by_key e [] = e ∷ []
  insert_by_key e (x ∷ xs) =
      if leb (keyed.key e) (keyed.key x) then e ∷ x ∷ xs else x ∷ insert_by_key e xs

  unfoldable pub sort_by_key : List E → List E
  sort_by_key [] = []
  sort_by_key (e ∷ es) = insert_by_key e (sort_by_key es)

  -- The entries before the one at position `n`, and that one.
  unfoldable pub split_at_nth : ℕ → List E → Outcome (List E × E)
  split_at_nth n [] = throws undefined
  split_at_nth zero (e ∷ es) = ok ([], e)
  split_at_nth (suc n) (e ∷ es) = split_at_nth n es >>= λ r. ok (e ∷ r.0, r.1)

  -- The loop of `rebuild` that puts the kept entries into the new array.
  unfoldable pub place_all : ℕ → List E → (ℕ → Option E) → Outcome (ℕ → Option E)
  place_all lg_size [] entries = ok entries
  place_all lg_size (e ∷ es) entries = do
    (index, found) ← find_in entries lg_size (keyed.key e)
    place_all lg_size es (update entries index (some e))

  unfoldable pub rebuild : Table E → Outcome (Table E)
  rebuild t = do
    let size = 2 ^ t.lg_cur_size
    let nominal_size = 2 ^ t.lg_nom_size
    let consolidated = consolidate_non_empty t.entries size t.num_entries
    front ← read_entries t.num_entries 0 consolidated
    (kept, nth) ← split_at_nth nominal_size (sort_by_key front)
    entries ← place_all t.lg_cur_size kept (λ i. none)
    ok (record t { theta = keyed.key nth; entries = entries; num_entries = nominal_size })

  -- `it` is the slot that `find` gave.
  unfoldable pub insert : Table E → ℕ → E → Outcome (Table E)
  insert t it entry =
      let t' = record t {
        entries = update t.entries it (some entry);
        num_entries = t.num_entries + 1;
      } in
      if ltb (get_capacity t.lg_cur_size t.lg_nom_size) (t.num_entries + 1)
      then (if leb t.lg_cur_size t.lg_nom_size then resize t' else rebuild t')
      else ok t'

  unfoldable pub trim : Table E → Outcome (Table E)
  trim t = if ltb (2 ^ t.lg_nom_size) t.num_entries then rebuild t else ok t

  unfoldable pub reset : Table E → Table E
  reset t =
      let starting_lg_size = starting_sub_multiple (t.lg_nom_size + 1) min_lg_k t.rf in
      let cleared : ℕ → Option E = λ i. if ltb i (2 ^ t.lg_cur_size) then none else t.entries i in
      record t {
        entries = if starting_lg_size == t.lg_cur_size then cleared else (λ i. none);
        lg_cur_size = starting_lg_size;
        num_entries = 0;
        theta = t.starting_theta;
        is_empty = true;
      }

  -- `hash` is the hash of the item that is looked at.
  unfoldable pub hash_and_screen : Table E → ℕ → Table E × ℕ
  hash_and_screen t hash = (record t { is_empty = false }, if leb t.theta hash then 0 else hash)

  -- The entries that an iterator passes over, from slot `i` on.
  unfoldable pub retained_from : ℕ → ℕ → (ℕ → Option E) → List E
  retained_from zero i entries = []
  retained_from (suc rounds) i entries =
      let rest = retained_from rounds (i + 1) entries in
      elim (entries i) [ none ↦ rest | some e ↦ if keyed.key e == 0 then rest else e ∷ rest ]

  unfoldable pub retained : Table E → List E
  retained t = retained_from (2 ^ t.lg_cur_size) 0 t.entries
