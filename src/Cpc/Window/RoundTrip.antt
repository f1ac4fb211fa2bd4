-- ===== src/Cpc/Window/RoundTrip.antt =====
-- The sliding window after compression is the one before it.
use native.Mathlib.Nat.{mod-eq_of_lt}
use whylogs_datasketches.Base.{
  ℕ, ◌+◌, ◌-◌, ◌*◌, ◌/◌, ◌%◌, ◌^◌, ◌≤◌, ◌<◌, ◌≡◌, refl, sym, ap, ◌∙◌, subst, arith, ltb, leb,
  Exception, ok, logic_error, out_of_range, Ends, Ends-if, Ends-bind, Ends-map, Ends-no_error,
  Ends-throw_if, ◌>>=◌, ◌>>◌,
}
use whylogs_datasketches.Cpc.Bits.{two-pow-le, words_value}
use whylogs_datasketches.Cpc.Bytes.{low_level_compress_bytes}
use whylogs_datasketches.Cpc.Bytes.RoundTrip.{
  codes_value, codes_bits, compress-Ends, uncompress-Ends,
}
use whylogs_datasketches.Cpc.Codes.{make_decoding_table}
use whylogs_datasketches.Cpc.Codes.Decoding.{Decodes, make_decoding_table-Ends, validate_table}
use whylogs_datasketches.Cpc.Tables.{encoding_tables_for_high_entropy_byte, tables-IsComplete}
use whylogs_datasketches.Cpc.Window.{
  divide_longs_rounding_up, safe_length_for_compressed_window_buf, determine_pseudo_phase,
  CompressedWindow, compress_sliding_window, decoding_tables_for_high_entropy_byte,
  uncompress_sliding_window, resize,
}

-- A phase is the index of a code table; there is none only for `lg_k` below 4.
pub determine_pseudo_phase-Ends :
    (lg_k c : ℕ)
    → Ends (λ p. p < 22) (λ x. (x ≡ logic_error) × (lg_k < 4)) (determine_pseudo_phase lg_k c)
unfolding determine_pseudo_phase
determine_pseudo_phase-Ends lg_k c =
    Ends-if (λ p. p < 22) _ (ltb (1000 * c % 2 ^ 32) (2375 * 2 ^ lg_k % 2 ^ 32)) _ _
      (λ mid. ground arith)
      λ steady.
        Ends-throw_if (λ p. p < 22) _ (ltb lg_k 4) logic_error _ (λ e. (refl, ground (arith, e)))
          λ e.
            let small : c / 2 ^ (lg_k - 4) % 2 ^ 4 < 2 ^ 4 = omega arith in
            Ends-throw_if (λ p. p < 22) _ (leb 16 (c / 2 ^ (lg_k - 4) % 2 ^ 4)) out_of_range _
              (λ e'. absurd (ground (arith, e', small))) λ e'. omega (arith, small)

pub rounded_up : (x : ℕ) → Ends (λ q. x ≤ 32 * q) (λ e. ⊥) (divide_longs_rounding_up x 32)
unfolding divide_longs_rounding_up
rounded_up x = ground arith

safe_length-Ends :
    (lg_k : ℕ)
    → lg_k ≤ 26
    → Ends
        (λ len. 12 * 2 ^ lg_k + 11 ≤ 32 * len)
        (λ e. ⊥)
        (safe_length_for_compressed_window_buf (2 ^ lg_k))
unfolding safe_length_for_compressed_window_buf
safe_length-Ends lg_k le =
    let few : 2 ^ lg_k ≤ 2 ^ 26 = two-pow-le lg_k 26 le in
    let whole : (12 * 2 ^ lg_k + 11) % 2 ^ 32 ≡ 12 * 2 ^ lg_k + 11 =
      mod-eq_of_lt (omega (arith, few)) in
    Ends-map (λ q. (12 * 2 ^ lg_k + 11) % 2 ^ 32 ≤ 32 * q) _ (λ e. ⊥)
      (divide_longs_rounding_up ((12 * 2 ^ lg_k + 11) % 2 ^ 32) 32) (λ q b. omega (arith, whole, b))
      (rounded_up ((12 * 2 ^ lg_k + 11) % 2 ^ 32))

-- What the constructor leaves for a phase: a table of the code, which has passed the validation.
decoding_tables-Ends :
    (raw : ℕ → ℕ) (phase : ℕ)
    → phase < 22
    → Ends
        (Decodes 256 (encoding_tables_for_high_entropy_byte phase))
        (λ x. ⊥)
        (decoding_tables_for_high_entropy_byte raw phase)
unfolding decoding_tables_for_high_entropy_byte
decoding_tables-Ends raw phase lt =
    let (code, complete) = tables-IsComplete phase lt in
    let enc : ℕ → ℕ = encoding_tables_for_high_entropy_byte phase in
    Ends-bind (Decodes 256 enc) (Decodes 256 enc) (λ x. ⊥) (make_decoding_table raw enc 256) _
      (make_decoding_table-Ends raw enc 256 (omega arith) code)
      λ table _ decodes.
        subst (λ v. Ends (Decodes 256 enc) (λ x. ⊥) (v >> ok table))
          (sym (validate_table table enc 256 (omega arith) code complete decodes)) decodes

-- What a compressed window holds: within a buffer of the safe length, the code words of the bytes by
-- the table of the phase.
record Holds (phase n : ℕ) (window : ℕ → ℕ) (c : CompressedWindow) : Type 0 where
  value :
      words_value c.window_data_words 0 c.window_data
      ≡ codes_value n 0 window (encoding_tables_for_high_entropy_byte phase)
  enough :
      codes_bits n 0 window (encoding_tables_for_high_entropy_byte phase) + 11
      ≤ 32 * c.window_data_words
  ranged : (i : ℕ) → c.window_data i < 2 ^ 32
  inside : c.window_data_words ≤ c.window_data_size

abbrev Refused : ℕ → Exception → Type 0
Refused lg_k x = (x ≡ logic_error) × (lg_k < 4)

compress_sliding_window-Ends :
    (window : ℕ → ℕ) (lg_k coupons : ℕ) (target : CompressedWindow)
    → lg_k ≤ 26
    → ((j : ℕ) → j < 2 ^ lg_k → window j < 256)
    → ((i : ℕ) → target.window_data i < 2 ^ 32)
    → Ends
        (λ c.
          (p : ℕ) × (p < 22)
          × (determine_pseudo_phase lg_k coupons ≡ ok p)
          × Holds p (2 ^ lg_k) window c)
        (Refused lg_k)
        (compress_sliding_window window lg_k coupons target)
unfolding compress_sliding_window
compress_sliding_window-Ends window lg_k coupons target le bytes ranged =
    let Good : CompressedWindow → Type 0 = λ c.
      (p : ℕ) × (p < 22)
      × (determine_pseudo_phase lg_k coupons ≡ ok p)
      × Holds p (2 ^ lg_k) window c in
    let few : 2 ^ lg_k ≤ 2 ^ 26 = two-pow-le lg_k 26 le in
    Ends-bind (λ len. 12 * 2 ^ lg_k + 11 ≤ 32 * len) Good (Refused lg_k)
      (safe_length_for_compressed_window_buf (2 ^ lg_k)) _
      (Ends-no_error _ (Refused lg_k) (safe_length_for_compressed_window_buf (2 ^ lg_k))
        (safe_length-Ends lg_k le))
      λ len _ safe.
        Ends-bind (λ p. p < 22) Good (Refused lg_k) (determine_pseudo_phase lg_k coupons) _
          (determine_pseudo_phase-Ends lg_k coupons)
          λ p at lt.
            let enc : ℕ → ℕ = encoding_tables_for_high_entropy_byte p in
            let blank : ℕ → ℕ = resize target.window_data_size len target.window_data in
            Ends-bind
              (λ c.
                (words_value c.1 0 c.0 ≡ codes_value (2 ^ lg_k) 0 window enc)
                × (codes_bits (2 ^ lg_k) 0 window enc + 11 ≤ 32 * c.1)
                × ((i : ℕ) → c.0 i < 2 ^ 32)
                × (32 * c.1 < 12 * 2 ^ lg_k + 11 + 32))
              Good (Refused lg_k) (low_level_compress_bytes window (2 ^ lg_k) enc blank) _
              (Ends-no_error _ (Refused lg_k) (low_level_compress_bytes window (2 ^ lg_k) enc blank)
                (compress-Ends 256 window enc (tables-IsComplete p lt).0 (2 ^ lg_k) blank bytes
                  (λ i. ground (arith, ranged i))))
              λ c _ packed.
                let whole : c.1 % 2 ^ 32 ≡ c.1 = mod-eq_of_lt (omega (arith, packed.3, few)) in
                (
                  p,
                  lt,
                  at,
                  record {
                    value = ap (λ n. words_value n 0 c.0) whole ∙ packed.0;
                    enough = omega (arith, packed.1, whole);
                    ranged = packed.2;
                    inside = omega (arith, packed.3, safe, whole);
                  },
                )

uncompress_sliding_window-Ends :
    (raw window out : ℕ → ℕ) (lg_k coupons p : ℕ) (c : CompressedWindow)
    → p < 22
    → determine_pseudo_phase lg_k coupons ≡ ok p
    → ((j : ℕ) → j < 2 ^ lg_k → window j < 256)
    → Holds p (2 ^ lg_k) window c
    → Ends
        (λ decoded. (j : ℕ) → j < 2 ^ lg_k → decoded j ≡ window j)
        (λ x. ⊥)
        (uncompress_sliding_window raw c.window_data c.window_data_words out lg_k coupons)
unfolding uncompress_sliding_window
uncompress_sliding_window-Ends raw window out lg_k coupons p c lt at bytes held =
    let enc : ℕ → ℕ = encoding_tables_for_high_entropy_byte p in
    let Good : (ℕ → ℕ) → Type 0 = λ decoded. (j : ℕ) → j < 2 ^ lg_k → decoded j ≡ window j in
    simp at (
      Ends-bind (Decodes 256 enc) Good (λ x. ⊥) (decoding_tables_for_high_entropy_byte raw p) _
        (decoding_tables-Ends raw p lt)
        λ table _ decodes.
          uncompress-Ends 256 window enc (tables-IsComplete p lt).0 (2 ^ lg_k) table out
            c.window_data c.window_data_words (omega arith) decodes bytes held.value held.enough
            held.ranged)

-- A window of 2^lg_k bytes, lg_k at most 26, is compressed into words within the buffer of the safe
-- length, and what is uncompressed from them is the same window; the only exception is the logic_error for lg_k
-- below 4. The compressed data starts with any 32-bit words.
pub window_round_trip :
    (raw window out : ℕ → ℕ) (lg_k coupons : ℕ) (target : CompressedWindow)
    → lg_k ≤ 26
    → ((j : ℕ) → j < 2 ^ lg_k → window j < 256)
    → ((i : ℕ) → target.window_data i < 2 ^ 32)
    → Ends {A = CompressedWindow × (ℕ → ℕ)}
        (λ r.
          (r.0.window_data_words ≤ r.0.window_data_size)
          × ((j : ℕ) → j < 2 ^ lg_k → r.1 j ≡ window j))
        (λ x. (x ≡ logic_error) × (lg_k < 4))
        (do
          c ← compress_sliding_window window lg_k coupons target
          decoded ← uncompress_sliding_window raw c.window_data c.window_data_words out lg_k coupons
          ok (c, decoded))
window_round_trip raw window out lg_k coupons target le bytes ranged =
    let Good : CompressedWindow × (ℕ → ℕ) → Type 0 = λ r.
      (r.0.window_data_words ≤ r.0.window_data_size)
      × ((j : ℕ) → j < 2 ^ lg_k → r.1 j ≡ window j) in
    Ends-bind _ Good (Refused lg_k) (compress_sliding_window window lg_k coupons target) _
      (compress_sliding_window-Ends window lg_k coupons target le bytes ranged)
      λ c _ held.
        Ends-bind _ Good (Refused lg_k)
          (uncompress_sliding_window raw c.window_data c.window_data_words out lg_k coupons) _
          (Ends-no_error _ (Refused lg_k)
            (uncompress_sliding_window raw c.window_data c.window_data_words out lg_k coupons)
            (uncompress_sliding_window-Ends raw window out lg_k coupons held.0 c held.1 held.2 bytes
              held.3))
          λ decoded _ same. (held.3.inside, same)
