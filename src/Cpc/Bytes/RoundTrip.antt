-- ===== src/Cpc/Bytes/RoundTrip.antt =====
-- The bytes that are read from a compressed stream are those that were written.
use native.Mathlib.Decide.{ℕ_discrete}
use native.Mathlib.Nat.{sub-zero}
use whylogs_datasketches.Base.{
  ℕ, zero, suc, ◌+◌, ◌-◌, ◌*◌, ◌/◌, ◌%◌, ◌^◌, ◌≤◌, ◌<◌, ◌≡◌, sym, ap, ◌∙◌, subst, arith, update,
  ltb, logic_error, Ends, Ends-throw_if, Ends-bind, ◌>>=◌,
}
use whylogs_datasketches.Cpc.Bits.{words_value}
use whylogs_datasketches.Cpc.Codes.{code_val, code_len, make_decoding_table, IsPrefixCode}
use whylogs_datasketches.Cpc.Codes.Decoding.{Decodes, make_decoding_table-Ends}
use whylogs_datasketches.Cpc.Stream.{
  BitStream, new_stream, maybe_fill_bitbuf, pad, flush_last, drop_bits,
}
use whylogs_datasketches.Cpc.Writing.{
  IsPacked, Written, Flushed, append-Written, pad-Written, flush_last-Ends, Written-Written,
}
use whylogs_datasketches.Cpc.Reading.{Reads, fill-Reads, peek_lem, drop_bits-Reads, code_read}
use whylogs_datasketches.Cpc.Bytes.{
  encode_loop, low_level_compress_bytes, decode_loop, low_level_uncompress_bytes,
}

-- The number that the code words of `n` bytes from the index `i` on stand for, and its bits.
unfoldable pub codes_value : ℕ → ℕ → (ℕ → ℕ) → (ℕ → ℕ) → ℕ
codes_value zero i bytes enc = 0
codes_value (suc n) i bytes enc =
    code_val (enc (bytes i)) + 2 ^ code_len (enc (bytes i)) * codes_value n (i + 1) bytes enc

unfoldable pub codes_bits : ℕ → ℕ → (ℕ → ℕ) → (ℕ → ℕ) → ℕ
codes_bits zero i bytes enc = 0
codes_bits (suc n) i bytes enc = code_len (enc (bytes i)) + codes_bits n (i + 1) bytes enc

module _ (num : ℕ) (bytes enc : ℕ → ℕ) (code : IsPrefixCode num enc) where
  encode_loop-Written :
      (n i : ℕ) (s : BitStream)
      → ((j : ℕ) → j < i + n → bytes j < num)
      → IsPacked s
      → Written
          (codes_value n i bytes enc)
          (codes_bits n i bytes enc)
          s
          (encode_loop n i bytes enc s)
  unfolding encode_loop codes_value codes_bits
  encode_loop-Written zero i s small h = record {
    packed = h;
    value = omega arith;
    bits = omega arith;
  }
  encode_loop-Written (suc n) i s small h =
      let lt = small i (omega arith) in
      let few = code.few_bits (bytes i) lt in
      let one =
        append-Written (code_val (enc (bytes i))) (code_len (enc (bytes i))) s
          (code.fits (bytes i) lt) (omega arith) h in
      Written-Written (code_val (enc (bytes i))) (code_len (enc (bytes i)))
        (codes_value n (i + 1) bytes enc) (codes_bits n (i + 1) bytes enc) s _ _ one
        (encode_loop-Written n (i + 1) _ (λ j jl. small j (omega arith)) one.packed)

  decode_loop-Reads :
      (dec : ℕ → ℕ) (n i limit : ℕ) (s : BitStream) (out : ℕ → ℕ)
      → num ≤ 256
      → Decodes num enc dec
      → ((j : ℕ) → j < i + n → bytes j < num)
      → ((j : ℕ) → j < i → out j ≡ bytes j)
      → Reads (codes_value n i bytes enc) (codes_bits n i bytes enc + 11) limit s
      → ((decode_loop n i dec s out).0.word_index ≤ limit)
        × ((j : ℕ) → j < i + n → (decode_loop n i dec s out).1 j ≡ bytes j)
  unfolding decode_loop codes_value codes_bits
  decode_loop-Reads dec zero i limit s out tiny decodes small old h =
      (h.inside, λ j jl. old j (omega arith))
  decode_loop-Reads dec (suc n) i limit s out tiny decodes small old h =
      let lt = small i (omega arith) in
      let len : ℕ = code_len (enc (bytes i)) in
      let rest : ℕ = codes_value n (i + 1) bytes enc in
      let need : ℕ = len + codes_bits n (i + 1) bytes enc + 11 in
      let few = code.few_bits (bytes i) lt in
      let (filled, some) =
        fill-Reads 12 (code_val (enc (bytes i)) + 2 ^ len * rest) need limit s (omega arith)
          (omega (arith, code.some_bits (bytes i) lt)) h in
      let (start, next) =
        code_read len (code_val (enc (bytes i))) rest few (code.fits (bytes i) lt) in
      let peek = peek_lem 12 _ need limit (maybe_fill_bitbuf 12 s) some filled in
      let found =
        decodes (bytes i) ((maybe_fill_bitbuf 12 s).bitbuf % 2 ^ 12) lt (omega arith)
          (ap (λ (t : ℕ). t % 2 ^ len) peek ∙ start) in
      let length : dec ((maybe_fill_bitbuf 12 s).bitbuf % 2 ^ 12) / 2 ^ 8 ≡ len =
        omega (arith, found, lt) in
      let byte : dec ((maybe_fill_bitbuf 12 s).bitbuf % 2 ^ 12) % 2 ^ 8 ≡ bytes i =
        omega (arith, found, lt) in
      let dropped =
        drop_bits-Reads len _ need limit (maybe_fill_bitbuf 12 s) (omega arith) (omega arith)
          filled in
      let written : (j : ℕ)
          → j < i + 1
          → update out i (dec ((maybe_fill_bitbuf 12 s).bitbuf % 2 ^ 12) % 2 ^ 8) j ≡ bytes j =
        λ j jl. elim (ℕ_discrete j i) [
          | yes e ↦ ground (arith, byte, ap bytes e)
          | no ne ↦ ground (arith, ne, old j)
        ] in
      let left : need - len ≡ codes_bits n (i + 1) bytes enc + 11 = omega arith in
      let dropped' : Reads rest (codes_bits n (i + 1) bytes enc + 11) limit
          (drop_bits len (maybe_fill_bitbuf 12 s)) =
        subst
          (λ t.
            Reads t (codes_bits n (i + 1) bytes enc + 11) limit
              (drop_bits len (maybe_fill_bitbuf 12 s)))
          next
          (subst
            (λ t.
              Reads ((code_val (enc (bytes i)) + 2 ^ len * rest) / 2 ^ len) t limit
                (drop_bits len (maybe_fill_bitbuf 12 s)))
            left dropped) in
      let (inside, same) =
        decode_loop-Reads dec n (i + 1) limit
          (drop_bits (dec ((maybe_fill_bitbuf 12 s).bitbuf % 2 ^ 12) / 2 ^ 8)
            (maybe_fill_bitbuf 12 s))
          (update out i (dec ((maybe_fill_bitbuf 12 s).bitbuf % 2 ^ 12) % 2 ^ 8)) tiny decodes
          (λ j jl. small j (omega arith)) (λ j jl. written j jl)
          (subst
            (λ l.
              Reads rest (codes_bits n (i + 1) bytes enc + 11) limit
                (drop_bits l (maybe_fill_bitbuf 12 s)))
            (sym length) dropped') in
      (inside, λ j jl. same j (omega arith))

  codes_bits-le :
      (n i : ℕ) → ((j : ℕ) → j < i + n → bytes j < num) → codes_bits n i bytes enc ≤ 12 * n
  unfolding codes_bits
  codes_bits-le zero i small = omega arith
  codes_bits-le (suc n) i small = omega (
    arith,
    code.few_bits (bytes i) (small i (omega arith)),
    codes_bits-le n (i + 1) (λ j jl. small j (omega arith)),
  )

  -- The used words, read as a number, are the code words, and there are no more than needed.
  pub compress-Ends :
      (n : ℕ) (words : ℕ → ℕ)
      → ((j : ℕ) → j < n → bytes j < num)
      → ((i : ℕ) → words i < 2 ^ 32)
      → Ends
          (λ c.
            (words_value c.1 0 c.0 ≡ codes_value n 0 bytes enc)
            × (codes_bits n 0 bytes enc + 11 ≤ 32 * c.1)
            × ((i : ℕ) → c.0 i < 2 ^ 32)
            × (32 * c.1 < 12 * n + 11 + 32))
          (λ x. ⊥)
          (low_level_compress_bytes bytes n enc words)
  unfolding low_level_compress_bytes words_value
  compress-Ends n words small ranged =
      let new : IsPacked (new_stream words) = record {
        small = omega arith;
        room = omega arith;
        ranged = ranged;
      } in
      let all = encode_loop-Written n 0 (new_stream words) (λ j jl. small j (omega arith)) new in
      let padded =
        pad-Written 11 (encode_loop n 0 bytes enc (new_stream words)) (omega arith) all.packed in
      Ends-bind (Flushed (pad 11 (encode_loop n 0 bytes enc (new_stream words)))) _ (λ x. ⊥)
        (flush_last (pad 11 (encode_loop n 0 bytes enc (new_stream words)))) _
        (flush_last-Ends (pad 11 (encode_loop n 0 bytes enc (new_stream words))) padded.packed)
        λ s _ flushed. (
          omega (arith, flushed.value, padded.value, all.value),
          omega (arith, flushed.enough, padded.bits, all.bits),
          flushed.ranged,
          omega (
            arith,
            flushed.tight,
            padded.bits,
            all.bits,
            codes_bits-le n 0 (λ j jl. small j (omega arith)),
          ),
        )

  -- What is uncompressed from such words, with a decoding table of the code, is the bytes.
  pub uncompress-Ends :
      (n : ℕ) (dec out words : ℕ → ℕ) (used : ℕ)
      → num ≤ 256
      → Decodes num enc dec
      → ((j : ℕ) → j < n → bytes j < num)
      → words_value used 0 words ≡ codes_value n 0 bytes enc
      → codes_bits n 0 bytes enc + 11 ≤ 32 * used
      → ((i : ℕ) → words i < 2 ^ 32)
      → Ends
          (λ decoded. (j : ℕ) → j < n → decoded j ≡ bytes j)
          (λ x. ⊥)
          (low_level_uncompress_bytes out n dec words used)
  unfolding low_level_uncompress_bytes
  uncompress-Ends n dec out words used tiny decodes small value enough ranged =
      let start : Reads (codes_value n 0 bytes enc) (codes_bits n 0 bytes enc + 11) used
          (new_stream words) =
        record {
          value = omega (arith, value, ap (λ k. words_value k 0 words) (sub-zero used));
          inside = omega arith;
          enough = omega (arith, enough);
          small = omega arith;
          room = omega arith;
          ranged = ranged;
        } in
      let (inside, same) =
        decode_loop-Reads dec n 0 used (new_stream words) out tiny decodes
          (λ j jl. small j (omega arith)) (λ j jl. absurd (omega arith)) start in
      Ends-throw_if _ (λ x. ⊥) (ltb used (decode_loop n 0 dec (new_stream words) out).0.word_index)
        logic_error _ (λ e. absurd (ground (arith, e, inside))) λ e j jl. same j (omega arith)

-- Bytes that a prefix code encodes are compressed without an exception, and what is uncompressed
-- from the words, with the decoding table of the code, is the same bytes; the reader stays within the words that
-- are used. The array of words holds 32-bit words.
pub bytes_round_trip :
    (num n : ℕ) (bytes enc raw words out : ℕ → ℕ)
    → num ≤ 256
    → IsPrefixCode num enc
    → ((j : ℕ) → j < n → bytes j < num)
    → ((i : ℕ) → words i < 2 ^ 32)
    → Ends
        (λ decoded. (j : ℕ) → j < n → decoded j ≡ bytes j)
        (λ x. ⊥)
        (do
          (compressed, used) ← low_level_compress_bytes bytes n enc words
          dec ← make_decoding_table raw enc num
          low_level_uncompress_bytes out n dec compressed used)
bytes_round_trip num n bytes enc raw words out tiny code small ranged =
    Ends-bind
      (λ c.
        (words_value c.1 0 c.0 ≡ codes_value n 0 bytes enc)
        × (codes_bits n 0 bytes enc + 11 ≤ 32 * c.1)
        × ((i : ℕ) → c.0 i < 2 ^ 32)
        × (32 * c.1 < 12 * n + 11 + 32))
      (λ decoded. (j : ℕ) → j < n → decoded j ≡ bytes j) (λ x. ⊥)
      (low_level_compress_bytes bytes n enc words) _
      (compress-Ends num bytes enc code n words small ranged)
      λ c _ packed.
        Ends-bind (Decodes num enc) (λ decoded. (j : ℕ) → j < n → decoded j ≡ bytes j) (λ x. ⊥)
          (make_decoding_table raw enc num) _ (make_decoding_table-Ends raw enc num tiny code)
          λ dec _ decodes.
            uncompress-Ends num bytes enc code n dec out c.0 c.1 tiny decodes small packed.0
              packed.1 packed.2
