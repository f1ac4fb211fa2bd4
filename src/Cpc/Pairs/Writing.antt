-- ===== src/Cpc/Pairs/Writing.antt =====
-- What low_level_compress_pairs of cpc/include/cpc_compressor_impl.hpp writes.
use native.Mathlib.Nat.{mod-lt, one-le-pow}
use whylogs_datasketches.Base.{
  ℕ, zero, suc, ◌+◌, ◌-◌, ◌*◌, ◌/◌, ◌%◌, ◌^◌, ◌≤◌, ◌<◌, ◌≡◌, arith, ltb, ltb→lt, ◌==◌,
  if◌then◌else◌, logic_error, Ends, Ends-bind, Ends-map, Ends-throw_if,
}
use whylogs_datasketches.Cpc.Bits.{words_value}
use whylogs_datasketches.Cpc.Codes.{code_val, code_len}
use whylogs_datasketches.Cpc.Codes.Trie.{entry_at}
use whylogs_datasketches.Cpc.Pairs.{
  write_unary, encode_pairs_loop, pair_padding, low_level_compress_pairs,
}
use whylogs_datasketches.Cpc.Pairs.Unary.{write_unary-Ends}
use whylogs_datasketches.Cpc.Pairs.ReadUnary.{unary_value}
use whylogs_datasketches.Cpc.Stream.{BitStream, new_stream, append, pad, flush_last}
use whylogs_datasketches.Cpc.Tables.{unary_table-IsComplete}
use whylogs_datasketches.Cpc.Tables.Unary.{length_limited_unary_encoding_table65}
use whylogs_datasketches.Cpc.Writing.{
  IsPacked, Written, Flushed, append-Written, pad-Written, Written-Written, flush_last-Ends,
}

-- The code of a pair behind the row `pr` and the column before `pc`.
abbrev pub expected_col : ℕ → ℕ → ℕ → ℕ
expected_col p pr pc = if p / 2 ^ 6 == pr then pc else 0

abbrev pub x_delta : ℕ → ℕ → ℕ → ℕ
x_delta p pr pc = p % 2 ^ 6 - expected_col p pr pc

abbrev pub y_delta : ℕ → ℕ → ℕ
y_delta p pr = p / 2 ^ 6 - pr

abbrev pub x_code : ℕ → ℕ → ℕ → ℕ
x_code p pr pc = entry_at length_limited_unary_encoding_table65 (x_delta p pr pc)

-- The number that the codes of `n` pairs from the index `i` on stand for, and its bits.
unfoldable pub pairs_value : ℕ → ℕ → (ℕ → ℕ) → ℕ → ℕ → ℕ → ℕ
pairs_value zero i pairs base pr pc = 0
pairs_value (suc n) i pairs base pr pc =
    code_val (x_code (pairs i) pr pc)
    + 2 ^ code_len (x_code (pairs i) pr pc)
      * unary_value (y_delta (pairs i) pr / 2 ^ base) (
          y_delta (pairs i) pr % 2 ^ base
          + 2 ^ base * pairs_value n (i + 1) pairs base (pairs i / 2 ^ 6) (pairs i % 2 ^ 6 + 1))

unfoldable pub pairs_bits : ℕ → ℕ → (ℕ → ℕ) → ℕ → ℕ → ℕ → ℕ
pairs_bits zero i pairs base pr pc = 0
pairs_bits (suc n) i pairs base pr pc =
    code_len (x_code (pairs i) pr pc)
    + (y_delta (pairs i) pr / 2 ^ base
        + 1
        + (base + pairs_bits n (i + 1) pairs base (pairs i / 2 ^ 6) (pairs i % 2 ^ 6 + 1)))

pub expected_col-le : (p pr pc : ℕ) → pr * 64 + pc ≤ p → expected_col p pr pc ≤ p % 2 ^ 6
expected_col-le p pr pc h = ground arith

pub x_delta-lt : (p pr pc : ℕ) → x_delta p pr pc < 65
x_delta-lt p pr pc = let low : p % 2 ^ 6 < 64 = omega arith in omega (arith, low)

abbrev pub Increasing : (ℕ → ℕ) → ℕ → Type 0
Increasing pairs n = (j : ℕ) → j + 1 < n → pairs j < pairs (j + 1)

pub next_pair :
    (pairs : ℕ → ℕ) (i n : ℕ)
    → Increasing pairs (i + suc n)
    → 0 < n
    → pairs i / 2 ^ 6 * 64 + (pairs i % 2 ^ 6 + 1) ≤ pairs (i + 1)
next_pair pairs i n sorted some = omega (arith, sorted i (omega (arith, some)))

module _ (pairs : ℕ → ℕ) (base : ℕ) (few : base ≤ 32) where
  encode_pairs_loop-Ends :
      (n i pr pc : ℕ) (s : BitStream)
      → Increasing pairs (i + n)
      → (0 < n → pr * 64 + pc ≤ pairs i)
      → IsPacked s
      → Ends
          (Written (pairs_value n i pairs base pr pc) (pairs_bits n i pairs base pr pc) s)
          (λ x. ⊥)
          (encode_pairs_loop n i pairs base pr pc s)
  unfolding encode_pairs_loop pairs_value pairs_bits
  encode_pairs_loop-Ends zero i pr pc s sorted ready h = record {
    packed = h;
    value = omega arith;
    bits = omega arith;
  }
  encode_pairs_loop-Ends (suc n) i pr pc s sorted ready h =
      let p : ℕ = pairs i in
      let at : pr * 64 + pc ≤ p = ready (omega arith) in
      let code = unary_table-IsComplete.0 in
      let lt = x_delta-lt p pr pc in
      let len : ℕ = code_len (x_code p pr pc) in
      let val : ℕ = code_val (x_code p pr pc) in
      let hi : ℕ = y_delta p pr / 2 ^ base in
      let lo : ℕ = y_delta p pr % 2 ^ base in
      let rest : ℕ = pairs_value n (i + 1) pairs base (p / 2 ^ 6) (p % 2 ^ 6 + 1) in
      let bits : ℕ = pairs_bits n (i + 1) pairs base (p / 2 ^ 6) (p % 2 ^ 6 + 1) in
      let Good : BitStream → Type 0 =
        Written (val + 2 ^ len * unary_value hi (lo + 2 ^ base * rest))
          (len + (hi + 1 + (base + bits))) s in
      let one : BitStream = append val len s in
      let first =
        append-Written val len s (code.fits (x_delta p pr pc) lt)
          (omega (arith, code.few_bits (x_delta p pr pc) lt)) h in
      Ends-throw_if Good (λ x. ⊥) (ltb (p / 2 ^ 6) pr) logic_error _
        (λ e. absurd (omega (arith, ltb→lt (p / 2 ^ 6) pr e, at)))
        λ e0.
          Ends-throw_if Good (λ x. ⊥) (ltb (p % 2 ^ 6) (expected_col p pr pc)) logic_error _
            (λ e. absurd (
              omega
                (arith, ltb→lt (p % 2 ^ 6) (expected_col p pr pc) e, expected_col-le p pr pc at)))
            λ e1.
              Ends-bind (Written (2 ^ hi) (hi + 1) one) Good (λ x. ⊥) (write_unary hi one) _
                (write_unary-Ends hi one first.packed)
                λ unary _ second.
                  let third =
                    append-Written lo base unary
                      (mod-lt (y_delta p pr) (one-le-pow base 2 (omega arith))) few second.packed in
                  Ends-map (Written rest bits (append lo base unary)) Good (λ x. ⊥)
                    (encode_pairs_loop n (i + 1) pairs base (p / 2 ^ 6) (p % 2 ^ 6 + 1)
                      (append lo base unary))
                    (λ t last. Written-Written val len _ _ s one t first (
                      Written-Written (2 ^ hi) (hi + 1) _ _ one unary t second (
                        Written-Written lo base rest bits unary (append lo base unary) t third
                          last)))
                    (encode_pairs_loop-Ends n (i + 1) (p / 2 ^ 6) (p % 2 ^ 6 + 1)
                      (append lo base unary) (λ j jl. sorted j (omega arith))
                      (next_pair pairs i n sorted) third.packed)

  -- The used words, read as a number, are the codes of the pairs, with the padding.
  pub compress_pairs-Ends :
      (n : ℕ) (words : ℕ → ℕ)
      → Increasing pairs n
      → ((i : ℕ) → words i < 2 ^ 32)
      → Ends {A = (ℕ → ℕ) × ℕ}
          (λ c.
            (words_value c.1 0 c.0 ≡ pairs_value n 0 pairs base 0 0)
            × (pairs_bits n 0 pairs base 0 0 + pair_padding base ≤ 32 * c.1)
            × ((i : ℕ) → c.0 i < 2 ^ 32)
            × (32 * c.1 < pairs_bits n 0 pairs base 0 0 + pair_padding base + 32))
          (λ x. ⊥)
          (low_level_compress_pairs pairs n base words)
  unfolding low_level_compress_pairs words_value
  compress_pairs-Ends n words sorted ranged =
      let new : IsPacked (new_stream words) = record {
        small = omega arith;
        room = omega arith;
        ranged = ranged;
      } in
      Ends-bind
        (Written (pairs_value n 0 pairs base 0 0) (pairs_bits n 0 pairs base 0 0)
          (new_stream words))
        _ (λ x. ⊥) (encode_pairs_loop n 0 pairs base 0 0 (new_stream words)) _
        (encode_pairs_loop-Ends n 0 0 0 (new_stream words) (λ j jl. sorted j (omega arith))
          (λ some. omega arith) new)
        λ encoded _ all.
          let padded = pad-Written (pair_padding base) encoded (ground arith) all.packed in
          Ends-bind (Flushed (pad (pair_padding base) encoded)) _ (λ x. ⊥)
            (flush_last (pad (pair_padding base) encoded)) _
            (flush_last-Ends (pad (pair_padding base) encoded) padded.packed)
            λ s _ flushed. (
              omega (arith, flushed.value, padded.value, all.value),
              omega (arith, flushed.enough, padded.bits, all.bits),
              flushed.ranged,
              omega (arith, flushed.tight, padded.bits, all.bits),
            )
