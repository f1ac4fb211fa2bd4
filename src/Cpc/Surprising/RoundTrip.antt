-- ===== src/Cpc/Surprising/RoundTrip.antt =====
-- The surprising values after compression are those before it, in
-- cpc/include/cpc_compressor_impl.hpp.
use native.Mathlib.Nat.{mod-eq_of_lt}
use whylogs_datasketches.Base.{
  ℕ, ◌+◌, ◌*◌, ◌/◌, ◌%◌, ◌^◌, ◌≤◌, ◌<◌, ◌≡◌, refl, sym, ap, ◌∙◌, subst, arith, ok, Ends, Ends-bind,
  ◌>>=◌, ◌>>◌,
}
use whylogs_datasketches.Cpc.Bits.{two-pow-le, two-pow-add, words_value}
use whylogs_datasketches.Cpc.Codes.{make_decoding_table}
use whylogs_datasketches.Cpc.Codes.Decoding.{Decodes, make_decoding_table-Ends, validate_table}
use whylogs_datasketches.Cpc.Codes.Trie.{entry_at}
use whylogs_datasketches.Cpc.Pairs.{pair_padding, low_level_compress_pairs}
use whylogs_datasketches.Cpc.Pairs.RoundTrip.{uncompress_pairs-Ends}
use whylogs_datasketches.Cpc.Pairs.Writing.{
  pairs_value, pairs_bits, Increasing, compress_pairs-Ends,
}
use whylogs_datasketches.Cpc.Surprising.{
  golomb_choose_number_of_base_bits, safe_length_for_compressed_pair_buf, CompressedTable,
  compress_surprising_values, length_limited_unary_decoding_table65, uncompress_surprising_values,
}
use whylogs_datasketches.Cpc.Surprising.Sizes.{golomb-Ends, safe_length-Ends}
use whylogs_datasketches.Cpc.Tables.{unary_table-IsComplete}
use whylogs_datasketches.Cpc.Tables.Unary.{length_limited_unary_encoding_table65}
use whylogs_datasketches.Cpc.Window.{resize}

unary_decoding-Ends :
    (raw : ℕ → ℕ)
    → Ends
        (Decodes 65 (entry_at length_limited_unary_encoding_table65))
        (λ x. ⊥)
        (length_limited_unary_decoding_table65 raw)
unfolding length_limited_unary_decoding_table65
unary_decoding-Ends raw =
    let (code, complete) = unary_table-IsComplete in
    let enc : ℕ → ℕ = entry_at length_limited_unary_encoding_table65 in
    Ends-bind (Decodes 65 enc) (Decodes 65 enc) (λ x. ⊥) (make_decoding_table raw enc 65) _
      (make_decoding_table-Ends raw enc 65 (omega arith) code)
      λ table _ decodes.
        subst (λ v. Ends (Decodes 65 enc) (λ x. ⊥) (v >> ok table))
          (sym (validate_table table enc 65 (omega arith) code complete decodes)) decodes

-- What compressed pairs hold: within a buffer of the safe length, the codes of the pairs with the
-- chosen number of base bits.
record Holds (base n : ℕ) (pairs : ℕ → ℕ) (c : CompressedTable) : Type 0 where
  value : words_value c.table_data_words 0 c.table_data ≡ pairs_value n 0 pairs base 0 0
  enough : pairs_bits n 0 pairs base 0 0 + pair_padding base ≤ 32 * c.table_data_words
  ranged : (i : ℕ) → c.table_data i < 2 ^ 32
  inside : c.table_data_words ≤ c.table_data_size
  entries : c.table_num_entries ≡ n

module _ (pairs : ℕ → ℕ) (n lg_k : ℕ) (le : lg_k ≤ 26) (some : 1 ≤ n) (small : n ≤ 2 ^ 26)
    (sorted : Increasing pairs n) (rows : (j : ℕ) → j < n → pairs j < 2 ^ (lg_k + 6)) where
  below : (j : ℕ) → j < n → pairs j / 2 ^ 6 < 2 ^ lg_k
  below j lt = omega (arith, rows j lt, two-pow-add lg_k 6)

  compress_surprising_values-Ends :
      (result : CompressedTable)
      → ((i : ℕ) → result.table_data i < 2 ^ 32)
      → Ends {A = CompressedTable}
          (λ c.
            (b : ℕ) × (b ≤ 26)
            × (golomb_choose_number_of_base_bits ((2 ^ lg_k + n) % 2 ^ 32) n ≡ ok b)
            × Holds b n pairs c)
          (λ x. ⊥)
          (compress_surprising_values pairs n lg_k result)
  unfolding compress_surprising_values
  compress_surprising_values-Ends result ranged =
      let Good : CompressedTable → Type 0 = λ c.
        (b : ℕ) × (b ≤ 26)
        × (golomb_choose_number_of_base_bits ((2 ^ lg_k + n) % 2 ^ 32) n ≡ ok b)
        × Holds b n pairs c in
      let few : 2 ^ lg_k ≤ 2 ^ 26 = two-pow-le lg_k 26 le in
      Ends-bind (λ b. b ≤ 26) Good (λ x. ⊥)
        (golomb_choose_number_of_base_bits ((2 ^ lg_k + n) % 2 ^ 32) n) _
        (golomb-Ends (2 ^ lg_k) n few some small)
        λ b at low.
          Ends-bind
            (λ len.
              (pairs_bits n 0 pairs b 0 0 + pair_padding b ≤ 32 * len)
              × (pairs_bits n 0 pairs b 0 0 ≤ 41 * 2 ^ 26))
            Good (λ x. ⊥) (safe_length_for_compressed_pair_buf (2 ^ lg_k) n b) _
            (safe_length-Ends pairs (2 ^ lg_k) n b few small low sorted below)
            λ len _ safe.
              let blank : ℕ → ℕ = resize result.table_data_size len result.table_data in
              let padding : pair_padding b ≤ 10 = ground arith in
              Ends-bind {A = (ℕ → ℕ) × ℕ}
                (λ c.
                  (words_value c.1 0 c.0 ≡ pairs_value n 0 pairs b 0 0)
                  × (pairs_bits n 0 pairs b 0 0 + pair_padding b ≤ 32 * c.1)
                  × ((i : ℕ) → c.0 i < 2 ^ 32)
                  × (32 * c.1 < pairs_bits n 0 pairs b 0 0 + pair_padding b + 32))
                Good (λ x. ⊥) (low_level_compress_pairs pairs n b blank) _
                (compress_pairs-Ends pairs b (omega (arith, low)) n blank sorted
                  (λ i. ground (arith, ranged i)))
                λ c _ packed.
                  let whole : c.1 % 2 ^ 32 ≡ c.1 =
                    mod-eq_of_lt (omega (arith, packed.3, safe.1, padding)) in
                  (
                    b,
                    low,
                    at,
                    record {
                      value = ap (λ m. words_value m 0 c.0) whole ∙ packed.0;
                      enough = omega (arith, packed.1, whole);
                      ranged = packed.2;
                      inside = omega (arith, packed.3, safe.0, whole);
                      entries = refl;
                    },
                  )

  uncompress_surprising_values-Ends :
      (raw : ℕ → ℕ) (b : ℕ) (c : CompressedTable)
      → b ≤ 26
      → golomb_choose_number_of_base_bits ((2 ^ lg_k + n) % 2 ^ 32) n ≡ ok b
      → Holds b n pairs c
      → Ends
          (λ decoded. (j : ℕ) → j < n → decoded j ≡ pairs j)
          (λ x. ⊥)
          (uncompress_surprising_values raw c.table_data c.table_data_words n lg_k)
  unfolding uncompress_surprising_values
  uncompress_surprising_values-Ends raw b c low at held =
      let Good : (ℕ → ℕ) → Type 0 = λ decoded. (j : ℕ) → j < n → decoded j ≡ pairs j in
      let word : 2 ^ (lg_k + 6) ≤ 2 ^ 32 = two-pow-le (lg_k + 6) 32 (omega arith) in
      simp at (
        Ends-bind (Decodes 65 (entry_at length_limited_unary_encoding_table65)) Good (λ x. ⊥)
          (length_limited_unary_decoding_table65 raw) _ (unary_decoding-Ends raw)
          λ table _ decodes.
            uncompress_pairs-Ends n b pairs table c.table_data (λ i. 0) c.table_data_words
              (omega arith) decodes sorted (λ j jl. omega (arith, rows j jl, word)) held.value
              held.enough held.ranged)

-- Between 1 and 2^26 pairs in increasing order, of 2^lg_k rows with lg_k at most 26, are compressed
-- without an exception into words within the buffer of the safe length, and what is uncompressed from
-- them is the same pairs. The buffer of the compressed data may hold any 32-bit words before.
pub surprising_round_trip :
    (pairs raw : ℕ → ℕ) (n lg_k : ℕ) (result : CompressedTable)
    → lg_k ≤ 26
    → 1 ≤ n
    → n ≤ 2 ^ 26
    → Increasing pairs n
    → ((j : ℕ) → j < n → pairs j < 2 ^ (lg_k + 6))
    → ((i : ℕ) → result.table_data i < 2 ^ 32)
    → Ends {A = CompressedTable × (ℕ → ℕ)}
        (λ r. (r.0.table_data_words ≤ r.0.table_data_size) × ((j : ℕ) → j < n → r.1 j ≡ pairs j))
        (λ x. ⊥)
        (do
          c ← compress_surprising_values pairs n lg_k result
          decoded ←
              uncompress_surprising_values raw c.table_data c.table_data_words c.table_num_entries
                lg_k
          ok (c, decoded))
surprising_round_trip pairs raw n lg_k result le some small sorted rows ranged =
    let Good : CompressedTable × (ℕ → ℕ) → Type 0 =
      λ r. (r.0.table_data_words ≤ r.0.table_data_size) × ((j : ℕ) → j < n → r.1 j ≡ pairs j) in
    Ends-bind _ Good (λ x. ⊥) (compress_surprising_values pairs n lg_k result) _
      (compress_surprising_values-Ends pairs n lg_k le some small sorted rows result ranged)
      λ c _ held.
        Ends-bind (λ decoded. (j : ℕ) → j < n → decoded j ≡ pairs j) Good (λ x. ⊥)
          (uncompress_surprising_values raw c.table_data c.table_data_words c.table_num_entries
            lg_k)
          _
          (subst
            (λ m.
              Ends (λ decoded. (j : ℕ) → j < n → decoded j ≡ pairs j) (λ x. ⊥)
                (uncompress_surprising_values raw c.table_data c.table_data_words m lg_k))
            (sym held.3.entries)
            (uncompress_surprising_values-Ends pairs n lg_k le some small sorted rows raw held.0 c
              held.1 held.2 held.3))
          λ decoded _ same. (held.3.inside, same)
