-- ===== src/Cpc/Window.antt =====
-- The sliding window in compressed form: cpc/include/cpc_compressor_impl.hpp, with the phase that
-- selects the code table. Arguments of 32 bits wrap as in the source.
pub mod RoundTrip
use whylogs_datasketches.Base.{
  ℕ, zero, suc, ◌+◌, ◌-◌, ◌*◌, ◌/◌, ◌%◌, ◌^◌, ltb, leb, ◌==◌, if◌then◌else◌, ◌||◌, Outcome, ok,
  throws, throw_if, logic_error, invalid_argument, out_of_range, ◌>>=◌, ◌>>◌,
}
use whylogs_datasketches.Cpc.Bytes.{low_level_compress_bytes, low_level_uncompress_bytes}
use whylogs_datasketches.Cpc.Codes.{make_decoding_table, validate_decoding_table}
use whylogs_datasketches.Cpc.Tables.{encoding_tables_for_high_entropy_byte}

unfoldable pub divide_longs_rounding_up : ℕ → ℕ → Outcome ℕ
divide_longs_rounding_up x y = do
  throw_if (y == 0) invalid_argument
  let quotient = x / y
  ok (if quotient * y == x then quotient else quotient + 1)

unfoldable pub safe_length_for_compressed_window_buf : ℕ → Outcome ℕ
safe_length_for_compressed_window_buf k = divide_longs_rounding_up ((12 * k + 11) % 2 ^ 32) 32

-- The products are of 32 bits.
abbrev pub midrange_phase : ℕ → ℕ → ℕ
midrange_phase k c =
    if ltb (4 * c % 2 ^ 32) (3 * k % 2 ^ 32)
    then 16
    else (if ltb (10 * c % 2 ^ 32) (11 * k % 2 ^ 32)
        then 17
        else (if ltb (100 * c % 2 ^ 32) (132 * k % 2 ^ 32)
            then 18
            else (if ltb (3 * c % 2 ^ 32) (5 * k % 2 ^ 32)
                then 19
                else (if ltb (1000 * c % 2 ^ 32) (1965 * k % 2 ^ 32)
                    then 20
                    else (if ltb (1000 * c % 2 ^ 32) (2275 * k % 2 ^ 32) then 21 else 6)))))

unfoldable pub determine_pseudo_phase : ℕ → ℕ → Outcome ℕ
determine_pseudo_phase lg_k c =
    let k = 2 ^ lg_k in
    if ltb (1000 * c % 2 ^ 32) (2375 * k % 2 ^ 32) then ok (midrange_phase k c) else (do
      throw_if (ltb lg_k 4) logic_error
      let phase = c / 2 ^ (lg_k - 4) % 2 ^ 4
      throw_if (leb 16 phase) out_of_range
      ok phase)

-- `vector::resize`
abbrev pub resize : ℕ → ℕ → (ℕ → ℕ) → ℕ → ℕ
resize old_size new_size words i =
    if ltb i old_size then words i else (if ltb i new_size then 0 else words i)

-- The part of `compressed_state` for the window.
pub record CompressedWindow : Type 0 where
  pub window_data : ℕ → ℕ
  pub window_data_size : ℕ
  pub window_data_words : ℕ

unfoldable pub compress_sliding_window :
    (ℕ → ℕ) → ℕ → ℕ → CompressedWindow → Outcome CompressedWindow
compress_sliding_window window lg_k num_coupons target = do
  let k = 2 ^ lg_k
  window_buf_len ← safe_length_for_compressed_window_buf k
  pseudo_phase ← determine_pseudo_phase lg_k num_coupons
  (words, data_words) ←
      low_level_compress_bytes window k (encoding_tables_for_high_entropy_byte pseudo_phase)
        (resize target.window_data_size window_buf_len target.window_data)
  ok (record {
    window_data = words;
    window_data_size = window_buf_len;
    window_data_words = data_words % 2 ^ 32;
  })

-- The table that the constructor, `make_decoding_tables`, has built and validated for a phase.
unfoldable pub decoding_tables_for_high_entropy_byte : (ℕ → ℕ) → ℕ → Outcome (ℕ → ℕ)
decoding_tables_for_high_entropy_byte raw phase = do
  table ← make_decoding_table raw (encoding_tables_for_high_entropy_byte phase) 256
  validate_decoding_table table (encoding_tables_for_high_entropy_byte phase)
  ok table

unfoldable pub uncompress_sliding_window : (ℕ → ℕ) → (ℕ → ℕ) → ℕ → (ℕ → ℕ) → ℕ → ℕ → Outcome (ℕ → ℕ)
uncompress_sliding_window raw words data_words window lg_k num_coupons = do
  let k = 2 ^ lg_k
  pseudo_phase ← determine_pseudo_phase lg_k num_coupons
  table ← decoding_tables_for_high_entropy_byte raw pseudo_phase
  low_level_uncompress_bytes window k table words data_words
