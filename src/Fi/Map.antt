-- ===== src/Fi/Map.antt =====
-- The hash map of the frequent items sketch: fi/include/reverse_purge_hash_map.hpp and
-- reverse_purge_hash_map_impl.hpp, with the finalizer of common/include/MurmurHash3.h.
pub mod Table
pub mod Delete
pub mod Probing
pub mod Insert
pub mod Copy
use whylogs_datasketches.Base.{
  ℕ, zero, suc, ◌+◌, ◌-◌, ◌*◌, ◌/◌, ◌%◌, ◌^◌, ◌<◌, arith, bit_xor, ◌≡◌, ◌↔◌, Bool, true, false,
  Option, none, some, ltb, leb, ◌==◌, if◌then◌else◌, update, add64, Outcome, ok, throws,
  logic_error, drift_limit_reached, undefined, diverges, ◌>>=◌,
}
use whylogs_datasketches.Base.Cyclic.{next}

-- The template parameters `H` and `E`: a hash functor, and a functor that decides equality.
pub record KeyOps (K : Type 0) : Type 0 where
  pub hash : K → ℕ
  pub equal : K → K → Bool
  pub equal_iff : (a b : K) → (equal a b ≡ true) ↔ (a ≡ b)

-- The arrays `keys_`, `values_` and `states_`, each of `2 ^ lg_cur_size` slots.
-- The array of keys is raw storage: `none` is a slot in which no key is constructed.
pub record HashMap (K : Type 0) : Type 0 where
  pub lg_cur_size : ℕ
  pub lg_max_size : ℕ
  pub num_active : ℕ
  pub keys : ℕ → Option K
  pub values : ℕ → ℕ
  pub states : ℕ → ℕ

abbrev pub drift_limit : ℕ
drift_limit = 1024

abbrev pub max_sample_size : ℕ
max_sample_size = 1024

-- `k ^= k >> 33` and the two multiplications of 64 bits.
unfoldable pub fmix64 : ℕ → ℕ
fmix64 k =
    let k1 = bit_xor k (k / 2 ^ 33) in
    let k2 = (k1 * 0xff51afd7ed558ccd) % 2 ^ 64 in
    let k3 = bit_xor k2 (k2 / 2 ^ 33) in
    let k4 = (k3 * 0xc4ceb9fe1a85ec53) % 2 ^ 64 in bit_xor k4 (k4 / 2 ^ 33)

-- What the search for a key ends at.
pub data Probe : Type 0 where
  found : ℕ → Probe
  vacant : ℕ → ℕ → Probe

module _ {K : Type 0} where
  abbrev pub size : HashMap K → ℕ
  size m = 2 ^ m.lg_cur_size

  -- The constructor, with no key constructed and every state 0. The values are not initialised.
  unfoldable pub new : ℕ → ℕ → HashMap K
  new lg_size lg_max = record {
    lg_cur_size = lg_size;
    lg_max_size = lg_max;
    num_active = 0;
    keys = λ i. none;
    values = λ i. 0;
    states = λ i. 0;
  }

  -- `static_cast<uint32_t>((1 << lg_cur_size_) * LOAD_FACTOR)`, the factor being 0.75.
  unfoldable pub get_capacity : HashMap K → ℕ
  get_capacity m = size m * 3 / 4

  -- The loop of the copy constructor: slots below `size`, from `i` on.
  copy_loop : ℕ → ℕ → ℕ → HashMap K → HashMap K → HashMap K
  copy_loop zero i num other m = m
  copy_loop (suc rounds) i num other m =
      let m' =
        if ltb 0 (other.states i)
        then record m {
          keys = update m.keys i (other.keys i);
          values = update m.values i (other.values i);
        }
        else m in
      let rest = copy_loop rounds (i + 1) (num - 1) other m' in if num - 1 == 0 then m' else rest

  -- `reverse_purge_hash_map(const reverse_purge_hash_map& other)`
  unfoldable pub copy : HashMap K → HashMap K
  unfolding copy_loop new
  copy other =
      let raw = record (new other.lg_cur_size other.lg_max_size) {
        num_active = other.num_active;
      } in
      let m =
        if ltb 0 other.num_active
        then copy_loop (size other) 0 other.num_active other raw
        else raw in
      record m { states = other.states }

  -- `states_[delete_index] = 0`, and the key is destroyed.
  unfoldable pub clear : HashMap K → ℕ → HashMap K
  clear m i = record m { keys = update m.keys i none; states = update m.states i 0 }

  -- The current element moves to the free slot, and leaves its own slot free.
  unfoldable pub move_back : HashMap K → ℕ → ℕ → ℕ → HashMap K
  move_back m delete_index probe drift = record m {
    keys = update (update m.keys delete_index (m.keys probe)) probe none;
    values = update m.values delete_index (m.values probe);
    states = update (update m.states delete_index (m.states probe - drift)) probe 0;
  }

  -- The loop of `hash_delete`. A round goes one slot further, so `size` rounds cover the table.
  unfoldable pub hash_delete_loop : ℕ → ℕ → HashMap K → ℕ → ℕ → ℕ → Outcome (HashMap K)
  hash_delete_loop zero n m delete_index probe drift = throws diverges
  hash_delete_loop (suc rounds) n m delete_index probe drift =
      let moves =
        hash_delete_loop rounds n (move_back m delete_index probe drift) probe (next n probe) 1 in
      let stays = hash_delete_loop rounds n m delete_index (next n probe) (drift + 1) in
      if m.states probe == 0
      then ok m
      else (if ltb drift (m.states probe)
          then (if leb drift_limit 1 then throws drift_limit_reached else moves)
          else (if leb drift_limit (drift + 1) then throws drift_limit_reached else stays))

  unfoldable pub hash_delete : HashMap K → ℕ → Outcome (HashMap K)
  hash_delete m delete_index =
      hash_delete_loop (size m) (size m) (clear m delete_index) delete_index
        (next (size m) delete_index) 1

module _ {K : Type 0} ⦃ops : KeyOps K⦄ where
  -- `fmix64(H()(key)) & mask`, the mask being all ones below the size.
  unfoldable pub home : ℕ → K → ℕ
  home n k = fmix64 (ops.hash k) % n

  pub home-lt : (n : ℕ) {i : ℕ} (k : K) → i < n → home n k < n
  unfolding home
  home-lt n k h = omega arith

  -- The loop of `get`, by rounds.
  unfoldable pub get_loop : ℕ → ℕ → HashMap K → K → ℕ → Outcome ℕ
  get_loop zero n m k probe = throws diverges
  get_loop (suc rounds) n m k probe =
      let rest = get_loop rounds n m k (next n probe) in
      if m.states probe == 0 then ok 0 else elim (m.keys probe) [
        | none ↦ throws undefined
        | some k' ↦ if ops.equal k' k then ok (m.values probe) else rest
      ]

  unfoldable pub get : HashMap K → K → Outcome ℕ
  get m k = get_loop (size m) (size m) m k (home (size m) k)

  -- The loop of `internal_adjust_or_insert`, by rounds: `drift` reaches its limit within them.
  unfoldable pub probe_loop : ℕ → ℕ → HashMap K → K → ℕ → ℕ → Outcome Probe
  probe_loop zero n m k index drift = throws diverges
  probe_loop (suc rounds) n m k index drift =
      let rest = probe_loop rounds n m k (next n index) (drift + 1) in
      if m.states index == 0 then ok (vacant index drift) else elim (m.keys index) [
        | none ↦ throws undefined
        | some k' ↦
            if ops.equal k' k
            then ok (found index)
            else (if leb drift_limit (drift + 1) then throws drift_limit_reached else rest)
      ]

  unfoldable pub probe : HashMap K → K → Outcome Probe
  probe m k = probe_loop drift_limit (size m) m k (home (size m) k) 1

  -- What `internal_adjust_or_insert` writes, and the construction of a new key by its caller
  -- `adjust_or_insert`. The flag says whether the key is new.
  unfoldable pub write : HashMap K → K → ℕ → Probe → Outcome (Bool × HashMap K)
  write m k v (found i) = ok (false, record m { values = update m.values i (add64 (m.values i) v) })
  write m k v (vacant i drift) =
      if ltb (get_capacity m) m.num_active
      then throws logic_error
      else ok (
        true,
        record m {
          num_active = m.num_active + 1;
          keys = update m.keys i (some k);
          values = update m.values i v;
          states = update m.states i drift;
        },
      )

  unfoldable pub internal_adjust_or_insert : HashMap K → K → ℕ → Outcome (Bool × HashMap K)
  internal_adjust_or_insert m k v = probe m k >>= write m k v
