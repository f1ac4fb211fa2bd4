-- ===== src/Cpc/Surprising.antt =====
-- The pairs of surprising values in compressed form, with the number of base bits of their Golomb
-- code: cpc/include/cpc_compressor_impl.hpp and cpc/include/cpc_util.hpp. Products of 32 bits
-- wrap as in the source.
pub mod Sizes
pub mod RoundTrip
use whylogs_datasketches.Base.{
  ℕ, zero, suc, ◌+◌, ◌-◌, ◌*◌, ◌/◌, ◌%◌, ◌^◌, ltb, ◌==◌, if◌then◌else◌, Outcome, ok, throws,
  throw_if, invalid_argument, diverges, ◌>>=◌, ◌>>◌,
}
use whylogs_datasketches.Cpc.Codes.{make_decoding_table, validate_decoding_table}
use whylogs_datasketches.Cpc.Codes.Trie.{entry_at}
use whylogs_datasketches.Cpc.Pairs.{
  pair_padding, low_level_compress_pairs, low_level_uncompress_pairs,
}
use whylogs_datasketches.Cpc.Tables.Unary.{length_limited_unary_encoding_table65}
use whylogs_datasketches.Cpc.Window.{divide_longs_rounding_up, resize}

-- The loop of `floor_of_log2_of_long`; `y` is of 64 bits.
unfoldable pub floor_log2_loop : ℕ → ℕ → ℕ → ℕ → Outcome ℕ
floor_log2_loop zero x p y = throws diverges
floor_log2_loop (suc rounds) x p y =
    let rest = floor_log2_loop rounds x (p + 1) (y * 2 % 2 ^ 64) in
    if y == x then ok p else (if ltb x y then ok (p - 1) else rest)

unfoldable pub floor_log2_of_long : ℕ → Outcome ℕ
floor_log2_of_long x = do throw_if (ltb x 1) invalid_argument; floor_log2_loop 65 x 0 1

unfoldable pub golomb_choose_number_of_base_bits : ℕ → ℕ → Outcome ℕ
golomb_choose_number_of_base_bits k count = do
  throw_if (ltb k 1) invalid_argument
  throw_if (ltb count 1) invalid_argument
  let quotient = (k + 2 ^ 64 - count) % 2 ^ 64 / count
  let log2 = floor_log2_of_long quotient
  if quotient == 0 then ok 0 else log2

unfoldable pub safe_length_for_compressed_pair_buf : ℕ → ℕ → ℕ → Outcome ℕ
safe_length_for_compressed_pair_buf k num_pairs num_base_bits =
    let ybits = (num_pairs * (1 + num_base_bits) % 2 ^ 32 + k / 2 ^ num_base_bits) % 2 ^ 32 in
    let xbits = 12 * num_pairs % 2 ^ 32 in
    divide_longs_rounding_up (xbits + ybits + pair_padding num_base_bits) 32

-- The part of `compressed_state` for the table.
pub record CompressedTable : Type 0 where
  pub table_data : ℕ → ℕ
  pub table_data_size : ℕ
  pub table_data_words : ℕ
  pub table_num_entries : ℕ

unfoldable pub compress_surprising_values :
    (ℕ → ℕ) → ℕ → ℕ → CompressedTable → Outcome CompressedTable
compress_surprising_values pairs num_pairs lg_k result = do
  let k = 2 ^ lg_k
  num_base_bits ← golomb_choose_number_of_base_bits ((k + num_pairs) % 2 ^ 32) num_pairs
  table_len ← safe_length_for_compressed_pair_buf k num_pairs num_base_bits
  (compressed, csv_length) ←
      low_level_compress_pairs pairs num_pairs num_base_bits
        (resize result.table_data_size table_len result.table_data)
  ok (record {
    table_data = compressed;
    table_data_size = table_len;
    table_data_words = csv_length % 2 ^ 32;
    table_num_entries = num_pairs;
  })

-- The table that the constructor has built and validated.
unfoldable pub length_limited_unary_decoding_table65 : (ℕ → ℕ) → Outcome (ℕ → ℕ)
length_limited_unary_decoding_table65 raw = do
  table ← make_decoding_table raw (entry_at length_limited_unary_encoding_table65) 65
  validate_decoding_table table (entry_at length_limited_unary_encoding_table65)
  ok table

unfoldable pub uncompress_surprising_values : (ℕ → ℕ) → (ℕ → ℕ) → ℕ → ℕ → ℕ → Outcome (ℕ → ℕ)
uncompress_surprising_values raw words data_words num_pairs lg_k = do
  let k = 2 ^ lg_k
  num_base_bits ← golomb_choose_number_of_base_bits ((k + num_pairs) % 2 ^ 32) num_pairs
  table ← length_limited_unary_decoding_table65 raw
  low_level_uncompress_pairs table (λ i. 0) num_pairs num_base_bits words data_words
