-- ===== src/Cpc/Stream.antt =====
-- The bit stream of cpc/include/cpc_compressor_impl.hpp: a buffer of up to 64 bits in front of an
-- array of 32-bit words, which is a function of the index. `bufbits` is of 8 bits.
use whylogs_datasketches.Base.{
  ℕ, ◌+◌, ◌-◌, ◌*◌, ◌/◌, ◌%◌, ◌^◌, bit_or, update, ltb, leb, if◌then◌else◌, Outcome, ok, throw_if,
  logic_error, ◌>>◌,
}

pub record BitStream : Type 0 where
  pub words : ℕ → ℕ
  pub word_index : ℕ
  pub bitbuf : ℕ
  pub bufbits : ℕ

abbrev pub new_stream : (ℕ → ℕ) → BitStream
new_stream words = record { words = words; word_index = 0; bitbuf = 0; bufbits = 0 }

unfoldable pub maybe_flush_bitbuf : BitStream → BitStream
maybe_flush_bitbuf s =
    if leb 32 s.bufbits
    then (record {
      words = update s.words s.word_index (s.bitbuf % 2 ^ 32);
      word_index = s.word_index + 1;
      bitbuf = s.bitbuf / 2 ^ 32;
      bufbits = s.bufbits - 32;
    })
    else s

unfoldable pub maybe_fill_bitbuf : ℕ → BitStream → BitStream
maybe_fill_bitbuf minbits s =
    if ltb s.bufbits minbits
    then (record s {
      word_index = s.word_index + 1;
      bitbuf = bit_or s.bitbuf (s.words s.word_index * 2 ^ s.bufbits % 2 ^ 64);
      bufbits = (s.bufbits + 32) % 2 ^ 8;
    })
    else s

-- A code word of `len` bits goes into the buffer.
unfoldable pub append : ℕ → ℕ → BitStream → BitStream
append val len s = maybe_flush_bitbuf (record s {
  bitbuf = bit_or s.bitbuf (val * 2 ^ s.bufbits % 2 ^ 64);
  bufbits = (s.bufbits + len) % 2 ^ 8;
})

-- Zeros at the end, which the buffer has already.
unfoldable pub pad : ℕ → BitStream → BitStream
pad len s = maybe_flush_bitbuf (record s { bufbits = (s.bufbits + len) % 2 ^ 8 })

-- The rest of the buffer goes into a last word.
unfoldable pub flush_last : BitStream → Outcome BitStream
flush_last s =
    if ltb 0 s.bufbits
    then (do
      throw_if (leb 32 s.bufbits) logic_error
      ok (record {
        words = update s.words s.word_index (s.bitbuf % 2 ^ 32);
        word_index = s.word_index + 1;
        bitbuf = 0;
        bufbits = 0;
      }))
    else ok s

-- `bitbuf >>= len; bufbits -= len`
abbrev pub drop_bits : ℕ → BitStream → BitStream
drop_bits len s = record s {
  bitbuf = s.bitbuf / 2 ^ len;
  bufbits = (s.bufbits + 2 ^ 8 - len) % 2 ^ 8;
}
