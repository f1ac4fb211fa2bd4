-- ===== src/Cpc/Bytes.antt =====
-- Compression of bytes by a code table: low_level_compress_bytes and low_level_uncompress_bytes of
-- cpc/include/cpc_compressor_impl.hpp. An array is a function of the index, so no pointer is null.
pub mod RoundTrip
use whylogs_datasketches.Base.{
  ℕ, zero, suc, ◌+◌, ◌/◌, ◌%◌, ◌^◌, update, ltb, Outcome, ok, throw_if, logic_error, ◌>>=◌, ◌>>◌,
}
use whylogs_datasketches.Cpc.Codes.{code_val, code_len}
use whylogs_datasketches.Cpc.Stream.{
  BitStream, new_stream, maybe_fill_bitbuf, append, pad, flush_last, drop_bits,
}

unfoldable pub encode_loop : ℕ → ℕ → (ℕ → ℕ) → (ℕ → ℕ) → BitStream → BitStream
encode_loop zero byte_index byte_array encoding_table s = s
encode_loop (suc rounds) byte_index byte_array encoding_table s =
    let code_info = encoding_table (byte_array byte_index) in
    encode_loop rounds (byte_index + 1) byte_array encoding_table
      (append (code_val code_info) (code_len code_info) s)

-- The words, and how many of them are used.
unfoldable pub low_level_compress_bytes : (ℕ → ℕ) → ℕ → (ℕ → ℕ) → (ℕ → ℕ) → Outcome ((ℕ → ℕ) × ℕ)
low_level_compress_bytes byte_array num_bytes_to_encode encoding_table compressed_words = do
  s ← flush_last (
      pad 11
        (encode_loop num_bytes_to_encode 0 byte_array encoding_table (new_stream compressed_words)))
  ok (s.words, s.word_index)

unfoldable pub decode_loop : ℕ → ℕ → (ℕ → ℕ) → BitStream → (ℕ → ℕ) → BitStream × (ℕ → ℕ)
decode_loop zero byte_index decoding_table s byte_array = (s, byte_array)
decode_loop (suc rounds) byte_index decoding_table s byte_array =
    let filled = maybe_fill_bitbuf 12 s in
    let lookup = decoding_table (filled.bitbuf % 2 ^ 12) in
    decode_loop rounds (byte_index + 1) decoding_table (drop_bits (lookup / 2 ^ 8) filled)
      (update byte_array byte_index (lookup % 2 ^ 8))

unfoldable pub low_level_uncompress_bytes : (ℕ → ℕ) → ℕ → (ℕ → ℕ) → (ℕ → ℕ) → ℕ → Outcome (ℕ → ℕ)
low_level_uncompress_bytes byte_array num_bytes_to_decode decoding_table compressed_words
      num_compressed_words =
    do
      let (s, decoded) =
          decode_loop num_bytes_to_decode 0 decoding_table (new_stream compressed_words) byte_array
      throw_if (ltb num_compressed_words s.word_index) logic_error
      ok decoded
