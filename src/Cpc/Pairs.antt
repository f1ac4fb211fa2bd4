-- ===== src/Cpc/Pairs.antt =====
-- Compression of row and column pairs: low_level_compress_pairs and low_level_uncompress_pairs of
-- cpc/include/cpc_compressor_impl.hpp. A pair has the column in its lower 6 bits.
pub mod ReadUnary
pub mod RoundTrip
pub mod Unary
pub mod Writing
use whylogs_datasketches.Base.{
  ℕ, zero, suc, ◌+◌, ◌-◌, ◌*◌, ◌/◌, ◌%◌, ◌^◌, bit_or, update, ltb, leb, ◌==◌, if◌then◌else◌,
  Outcome, ok, throws, throw_if, logic_error, out_of_range, diverges, ◌>>=◌, ◌>>◌,
}
use whylogs_datasketches.Cpc.Codes.{code_val, code_len}
use whylogs_datasketches.Cpc.Codes.Trie.{entry_at}
use whylogs_datasketches.Cpc.Stream.{
  BitStream, new_stream, maybe_fill_bitbuf, append, pad, flush_last, drop_bits,
}
use whylogs_datasketches.Cpc.Tables.Unary.{length_limited_unary_encoding_table65}
use whylogs_datasketches.Cpc.Tables.Zeros.{byte_trailing_zeros_table}

-- The loop of `write_unary`: what remains, and the stream.
unfoldable pub unary_loop : ℕ → ℕ → BitStream → Outcome (ℕ × BitStream)
unary_loop zero remaining s = throws diverges
unary_loop (suc rounds) remaining s =
    let rest = unary_loop rounds (remaining - 16) (pad 16 s) in
    if leb 16 remaining then rest else ok (remaining, s)

unfoldable pub write_unary : ℕ → BitStream → Outcome BitStream
write_unary value s = do
  throw_if (ltb 31 s.bufbits) out_of_range
  (remaining, s') ← unary_loop (value / 16 + 1) value s
  throw_if (ltb 15 remaining) out_of_range
  ok (append (2 ^ remaining) (remaining + 1) s')

unfoldable pub read_unary_loop : ℕ → ℕ → BitStream → Outcome (ℕ × BitStream)
read_unary_loop zero subtotal s = throws diverges
read_unary_loop (suc rounds) subtotal s =
    let filled = maybe_fill_bitbuf 8 s in
    let trailing_zeros = entry_at byte_trailing_zeros_table (filled.bitbuf % 2 ^ 8) in
    let rest = read_unary_loop rounds (subtotal + 8) (drop_bits 8 filled) in
    if ltb 8 trailing_zeros
    then throws out_of_range
    else (if ltb trailing_zeros 8
        then ok (subtotal + trailing_zeros, drop_bits (1 + trailing_zeros) filled)
        else rest)

-- A number below 2^26 takes fewer rounds.
abbrev pub unary_rounds : ℕ
unary_rounds = 2 ^ 26

unfoldable pub read_unary : BitStream → Outcome (ℕ × BitStream)
read_unary s = read_unary_loop unary_rounds 0 s

unfoldable pub encode_pairs_loop : ℕ → ℕ → (ℕ → ℕ) → ℕ → ℕ → ℕ → BitStream → Outcome BitStream
encode_pairs_loop zero pair_index pair_array num_base_bits predicted_row_index predicted_col_index
      s =
    ok s
encode_pairs_loop (suc rounds) pair_index pair_array num_base_bits predicted_row_index
      predicted_col_index s =
    do
      let row_index = pair_array pair_index / 2 ^ 6
      let col_index = pair_array pair_index % 2 ^ 6
      let expected_col = if row_index == predicted_row_index then predicted_col_index else 0
      throw_if (ltb row_index predicted_row_index) logic_error
      throw_if (ltb col_index expected_col) logic_error
      let y_delta = row_index - predicted_row_index
      let code_info = entry_at length_limited_unary_encoding_table65 (col_index - expected_col)
      unary ←
          write_unary (y_delta / 2 ^ num_base_bits)
            (append (code_val code_info) (code_len code_info) s)
      encode_pairs_loop rounds (pair_index + 1) pair_array num_base_bits row_index (col_index + 1)
          (append (y_delta % 2 ^ num_base_bits) num_base_bits unary)

abbrev pub pair_padding : ℕ → ℕ
pair_padding num_base_bits = if ltb 10 num_base_bits then 0 else 10 - num_base_bits

unfoldable pub low_level_compress_pairs : (ℕ → ℕ) → ℕ → ℕ → (ℕ → ℕ) → Outcome ((ℕ → ℕ) × ℕ)
low_level_compress_pairs pair_array num_pairs_to_encode num_base_bits compressed_words = do
  encoded ←
      encode_pairs_loop num_pairs_to_encode 0 pair_array num_base_bits 0 0
        (new_stream compressed_words)
  s ← flush_last (pad (pair_padding num_base_bits) encoded)
  ok (s.words, s.word_index)

unfoldable pub decode_pairs_loop :
    (ℕ → ℕ) → ℕ → ℕ → ℕ → ℕ → ℕ → BitStream → (ℕ → ℕ) → Outcome (BitStream × (ℕ → ℕ))
decode_pairs_loop decoding_table zero pair_index num_base_bits predicted_row_index
      predicted_col_index s pair_array =
    ok (s, pair_array)
decode_pairs_loop decoding_table (suc rounds) pair_index num_base_bits predicted_row_index
      predicted_col_index s pair_array =
    do
      let filled = maybe_fill_bitbuf 12 s
      let lookup = decoding_table (filled.bitbuf % 2 ^ 12)
      (golomb_hi, behind) ← read_unary (drop_bits (lookup / 2 ^ 8) filled)
      let based = maybe_fill_bitbuf num_base_bits behind
      let y_delta =
          bit_or (golomb_hi * 2 ^ num_base_bits % 2 ^ 64) (based.bitbuf % 2 ^ num_base_bits)
      let expected_col = if ltb 0 y_delta then 0 else predicted_col_index
      let row_index = (predicted_row_index + y_delta) % 2 ^ 32
      let col_index = (expected_col + lookup % 2 ^ 8) % 2 ^ 8
      decode_pairs_loop decoding_table rounds (pair_index + 1) num_base_bits row_index
          ((col_index + 1) % 2 ^ 8) (drop_bits num_base_bits based)
          (update pair_array pair_index (bit_or (row_index * 2 ^ 6 % 2 ^ 32) col_index))

-- The decoding table is that of the length-limited unary code.
unfoldable pub low_level_uncompress_pairs :
    (ℕ → ℕ) → (ℕ → ℕ) → ℕ → ℕ → (ℕ → ℕ) → ℕ → Outcome (ℕ → ℕ)
low_level_uncompress_pairs decoding_table pair_array num_pairs_to_decode num_base_bits
      compressed_words num_compressed_words =
    do
      (s, decoded) ←
          decode_pairs_loop decoding_table num_pairs_to_decode 0 num_base_bits 0 0
            (new_stream compressed_words) pair_array
      throw_if (ltb num_compressed_words s.word_index) logic_error
      ok decoded
