-- ===== src/Kll/Buffer.antt =====
-- The buffer operations of kll/include/kll_helper_impl.hpp: halving and merging in place. A buffer
-- is a function from the index, and a move of an item copies it.
pub mod Merge
pub mod Halve
use whylogs_datasketches.Base.{
  ℕ, zero, suc, ◌+◌, ◌-◌, ◌*◌, ◌/◌, ◌%◌, Bool, true, false, not, ◌&&◌, ◌||◌, ◌==◌, if◌then◌else◌,
  update, Outcome, ok, throws, throw_if, invalid_argument, logic_error, undefined, ◌>>◌,
}

abbrev pub is_even : ℕ → Bool
is_even value = value % 2 == 0

abbrev pub is_odd : ℕ → Bool
is_odd value = not (value % 2 == 0)

module _ {T : Type 0} where
  -- `if (from != to) buf[to] = std::move(buf[from])`
  abbrev pub move_item : (ℕ → T) → ℕ → ℕ → ℕ → T
  move_item buf from to = if from == to then buf else update buf to (buf from)

  -- The loop of `randomly_halve_down`: `rounds` items are left to write.
  unfoldable pub halve_down_loop : ℕ → ℕ → ℕ → (ℕ → T) → ℕ → T
  halve_down_loop zero i j buf = buf
  halve_down_loop (suc rounds) i j buf = halve_down_loop rounds (i + 1) (j + 2) (move_item buf j i)

  -- `offset` is the random bit.
  unfoldable pub randomly_halve_down : ℕ → (ℕ → T) → ℕ → ℕ → Outcome (ℕ → T)
  randomly_halve_down offset buf start length = do
    throw_if (not (is_even length)) invalid_argument
    ok (halve_down_loop (length / 2) start (start + offset) buf)

  -- The loop of `randomly_halve_up`. The last decrement of `j` may go below 0, but then `j` is not
  -- read again.
  unfoldable pub halve_up_loop : ℕ → ℕ → ℕ → (ℕ → T) → ℕ → T
  halve_up_loop zero i j buf = buf
  halve_up_loop (suc rounds) i j buf = halve_up_loop rounds (i - 1) (j - 2) (move_item buf j i)

  -- For `start` and `length` both 0 the index starts at 2^32 - 1, out of the buffer.
  unfoldable pub randomly_halve_up : ℕ → (ℕ → T) → ℕ → ℕ → Outcome (ℕ → T)
  randomly_halve_up offset buf start length = do
    throw_if (not (is_even length)) invalid_argument
    throw_if ((start == 0) && (length == 0)) undefined
    ok (halve_up_loop (length / 2) (start + length - 1) (start + length - 1 - offset) buf)

  module _ (less : T → T → Bool) where
    -- Whether the next item of a merge is that of the first array.
    abbrev pub takes_a : (ℕ → T) → ℕ → ℕ → ℕ → ℕ → Bool
    takes_a buf a lim_a b lim_b =
        if a == lim_a then false else (if b == lim_b then true else less (buf a) (buf b))

    -- The loop of `merge_sorted_arrays`, and the test behind it.
    unfoldable pub merge_loop : ℕ → ℕ → ℕ → ℕ → ℕ → ℕ → (ℕ → T) → Outcome (ℕ → T)
    merge_loop zero c a lim_a b lim_b buf = do
      throw_if (not (a == lim_a) || not (b == lim_b)) logic_error
      ok buf
    merge_loop (suc rounds) c a lim_a b lim_b buf =
        let first = takes_a buf a lim_a b lim_b in
        merge_loop rounds (c + 1) (if first then a + 1 else a) lim_a (if first then b else b + 1)
          lim_b (if first then move_item buf a c else move_item buf b c)

    unfoldable pub merge_sorted_arrays : (ℕ → T) → ℕ → ℕ → ℕ → ℕ → ℕ → Outcome (ℕ → T)
    merge_sorted_arrays buf start_a len_a start_b len_b start_c =
        merge_loop (len_a + len_b) start_c start_a (start_a + len_a) start_b (start_b + len_b) buf
