-- ===== src/Cpc/Tests.antt =====
-- The theorems on the compressor at concrete inputs, and runs of its code.
use whylogs_datasketches.Base.{
  ◌==◌, if◌then◌else◌, ◌+◌, ℕ, ◌*◌, ◌%◌, ◌^◌, ◌≤◌, ◌<◌, ◌≡◌, refl, arith, Ends, ok, logic_error,
  ◌>>=◌,
}
use whylogs_datasketches.Cpc.Bytes.{low_level_compress_bytes, low_level_uncompress_bytes}
use whylogs_datasketches.Cpc.Bytes.RoundTrip.{bytes_round_trip}
use whylogs_datasketches.Cpc.Codes.{
  make_decoding_table, validate_decoding_table, IsPrefixCode, IsComplete,
}
use whylogs_datasketches.Cpc.Codes.Decoding.{validate_lem}
use whylogs_datasketches.Cpc.Codes.Trie.{entry_at}
use whylogs_datasketches.Cpc.Tables.{
  encoding_tables_for_high_entropy_byte, tables-IsComplete, unary_table-IsComplete,
}
use whylogs_datasketches.Cpc.Tables.Unary.{length_limited_unary_encoding_table65}
use whylogs_datasketches.Cpc.Window.{
  CompressedWindow, compress_sliding_window, uncompress_sliding_window, determine_pseudo_phase,
}
use whylogs_datasketches.Cpc.Columns.{make_inverse_permutation, permute_loop, restore_loop}
use whylogs_datasketches.Cpc.Columns.RoundTrip.{InWindow, columns_round_trip}
use whylogs_datasketches.Cpc.Tables.{table_at}
use whylogs_datasketches.Cpc.Tables.Columns.{column_permutations_for_encoding}
use whylogs_datasketches.Cpc.Pairs.Writing.{Increasing}
use whylogs_datasketches.Cpc.Surprising.{
  CompressedTable, compress_surprising_values, uncompress_surprising_values, floor_log2_of_long,
}
use whylogs_datasketches.Cpc.Surprising.RoundTrip.{surprising_round_trip}
use whylogs_datasketches.Cpc.Surprising.Sizes.{floor_log2_of_long-Ends}
use whylogs_datasketches.Cpc.Window.RoundTrip.{window_round_trip, determine_pseudo_phase-Ends}

abbrev no_window : CompressedWindow
no_window = record { window_data = λ i. 0; window_data_size = 0; window_data_words = 0 }

-- The window of a sketch with 16 rows.
abbrev rows : ℕ → ℕ
rows j = j * 7 % 256

rows-small : (j : ℕ) → j < 2 ^ 4 → rows j < 256
rows-small j lt = omega arith

window_round_trip_example :
    Ends {A = CompressedWindow × (ℕ → ℕ)}
      (λ r. (r.0.window_data_words ≤ r.0.window_data_size) × ((j : ℕ) → j < 2 ^ 4 → r.1 j ≡ rows j))
      (λ x. (x ≡ logic_error) × (4 < 4))
      (do
        c ← compress_sliding_window rows 4 60 no_window
        decoded ← uncompress_sliding_window (λ i. 0) c.window_data c.window_data_words (λ i. 0) 4 60
        ok (c, decoded))
window_round_trip_example =
    window_round_trip (λ i. 0) rows (λ i. 0) 4 60 no_window (omega arith) rows-small
      (λ i. omega arith)

tables-IsComplete_example :
    IsPrefixCode 256 (encoding_tables_for_high_entropy_byte 17)
    × IsComplete 256 (encoding_tables_for_high_entropy_byte 17)
tables-IsComplete_example = tables-IsComplete 17 (omega arith)

validate_lem_example :
    (do
      table ← make_decoding_table (λ i. 0) (encoding_tables_for_high_entropy_byte 3) 256
      validate_decoding_table table (encoding_tables_for_high_entropy_byte 3))
    ≡ ok tt
validate_lem_example =
    validate_lem (λ i. 0) (encoding_tables_for_high_entropy_byte 3) 256 (omega arith)
      (tables-IsComplete 3 (omega arith)).0 (tables-IsComplete 3 (omega arith)).1

abbrev deltas : ℕ → ℕ
deltas j = j % 65

deltas-small : (j : ℕ) → j < 100 → deltas j < 65
deltas-small j lt = omega arith

bytes_round_trip_example :
    Ends
      (λ decoded. (j : ℕ) → j < 100 → decoded j ≡ deltas j)
      (λ x. ⊥)
      (do
        (compressed, used) ←
            low_level_compress_bytes deltas 100
              (entry_at length_limited_unary_encoding_table65)
              (λ i. 0)
        dec ← make_decoding_table (λ i. 0) (entry_at length_limited_unary_encoding_table65) 65
        low_level_uncompress_bytes (λ i. 0) 100 dec compressed used)
bytes_round_trip_example =
    bytes_round_trip 65 100 deltas (entry_at length_limited_unary_encoding_table65) (λ i. 0)
      (λ i. 0) (λ i. 0) (omega arith) unary_table-IsComplete.0 deltas-small (λ i. omega arith)

determine_pseudo_phase-Ends_example :
    Ends (λ p. p < 22) (λ x. (x ≡ logic_error) × (11 < 4)) (determine_pseudo_phase 11 3000)
determine_pseudo_phase-Ends_example = determine_pseudo_phase-Ends 11 3000

-- More than four coupons for each of 2^21 rows, and yet a phase of the transition.
wrapped_phase : determine_pseudo_phase 21 8600000 ≡ ok 20
unfolding determine_pseudo_phase
wrapped_phase = refl

abbrev no_table : CompressedTable
no_table = record {
  table_data = λ i. 0;
  table_data_size = 0;
  table_data_words = 0;
  table_num_entries = 0;
}

-- Ten pairs of a sketch with 16 rows.
abbrev ten_pairs : ℕ → ℕ
ten_pairs j = j * 100 + 7

ten_pairs-Increasing : Increasing ten_pairs 10
ten_pairs-Increasing j lt = omega arith

ten_pairs-small : (j : ℕ) → j < 10 → ten_pairs j < 2 ^ (4 + 6)
ten_pairs-small j lt = omega arith

surprising_round_trip_example :
    Ends {A = CompressedTable × (ℕ → ℕ)}
      (λ r. (r.0.table_data_words ≤ r.0.table_data_size) × ((j : ℕ) → j < 10 → r.1 j ≡ ten_pairs j))
      (λ x. ⊥)
      (do
        c ← compress_surprising_values ten_pairs 10 4 no_table
        decoded ←
            uncompress_surprising_values
              (λ i. 0)
              c.table_data
              c.table_data_words
              c.table_num_entries
              4
        ok (c, decoded))
surprising_round_trip_example =
    surprising_round_trip ten_pairs (λ i. 0) 10 4 no_table (omega arith) (omega arith) (omega arith)
      ten_pairs-Increasing ten_pairs-small (λ i. omega arith)

floor_log2_of_long-Ends_example :
    Ends (λ r. (2 ^ r ≤ 1000) × (1000 < 2 ^ (r + 1))) (λ e. ⊥) (floor_log2_of_long 1000)
floor_log2_of_long-Ends_example = floor_log2_of_long-Ends 1000 (omega arith) (omega arith)

-- A pair in row 2 with column 63, and one in row 5 with column 1.
abbrev two_pairs : ℕ → ℕ
two_pairs j = if j == 0 then 191 else 321

two_pairs-small : (j : ℕ) → j < 2 → two_pairs j < 2 ^ 32
two_pairs-small j lt = ground arith

columns_round_trip_example :
    Ends
      (λ back. (j : ℕ) → j < 2 → back j ≡ two_pairs j)
      (InWindow 10 two_pairs 0 2)
      (do
        inverse ←
            make_inverse_permutation
              (λ i. 0)
              (entry_at (table_at column_permutations_for_encoding 3))
              56
        permuted ←
            permute_loop 2 0 (entry_at (table_at column_permutations_for_encoding 3)) 10 two_pairs
        ok (restore_loop 2 0 inverse 10 permuted))
columns_round_trip_example =
    columns_round_trip 3 10 2 two_pairs (λ i. 0) (omega arith) (omega arith) two_pairs-small
