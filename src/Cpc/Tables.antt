-- ===== src/Cpc/Tables.antt =====
-- The code tables of cpc/include/compression_data.hpp.
pub mod Unary
pub mod Early
pub mod Columns
pub mod Late
pub mod Midrange
pub mod Zeros
use whylogs_datasketches.Base.{
  ℕ, zero, suc, ◌<◌, ◌≡◌, refl, sym, arith, subst, Bool, true, false, ◌&&◌, ◌==◌, List, [], ◌∷◌,
  length,
}
use whylogs_datasketches.Cpc.Codes.{IsPrefixCode, IsComplete}
use whylogs_datasketches.Cpc.Codes.Trie.{is_complete_code, build, insert, is_full, entry_at}
use whylogs_datasketches.Cpc.Codes.Complete.{true-false}
use whylogs_datasketches.Cpc.Codes.Checked.{is_complete_code_lem, both_true}
use whylogs_datasketches.Cpc.Tables.Unary.{length_limited_unary_encoding_table65}
use whylogs_datasketches.Cpc.Tables.Early.{
  steady_table_0, steady_table_1, steady_table_2, steady_table_3, steady_table_4, steady_table_5,
  steady_table_6, steady_table_7,
}
use whylogs_datasketches.Cpc.Tables.Late.{
  steady_table_8, steady_table_9, steady_table_10, steady_table_11, steady_table_12,
  steady_table_13, steady_table_14, steady_table_15,
}
use whylogs_datasketches.Cpc.Tables.Midrange.{
  midrange_table_0, midrange_table_1, midrange_table_2, midrange_table_3, midrange_table_4,
  midrange_table_5,
}

abbrev pub high_entropy_tables : List (List ℕ)
high_entropy_tables =
    steady_table_0 ∷ steady_table_1 ∷ steady_table_2 ∷ steady_table_3 ∷ steady_table_4
    ∷ steady_table_5 ∷ steady_table_6 ∷ steady_table_7 ∷ steady_table_8 ∷ steady_table_9
    ∷ steady_table_10 ∷ steady_table_11 ∷ steady_table_12 ∷ steady_table_13 ∷ steady_table_14
    ∷ steady_table_15 ∷ midrange_table_0 ∷ midrange_table_1 ∷ midrange_table_2 ∷ midrange_table_3
    ∷ midrange_table_4 ∷ midrange_table_5 ∷ []

-- The table of a phase; there is none behind the last one.
abbrev pub table_at : List (List ℕ) → ℕ → List ℕ
table_at [] phase = []
table_at (table ∷ rest) zero = table
table_at (table ∷ rest) (suc phase) = table_at rest phase

abbrev pub encoding_tables_for_high_entropy_byte : ℕ → ℕ → ℕ
encoding_tables_for_high_entropy_byte phase = entry_at (table_at high_entropy_tables phase)

unfoldable all_complete : ℕ → List (List ℕ) → Bool
all_complete size [] = true
all_complete size (table ∷ rest) =
    (is_complete_code table && length table == size) && all_complete size rest

checked : all_complete 256 high_entropy_tables ≡ true
unfolding all_complete is_complete_code build insert is_full
checked = refl

all_complete_lem :
    (size : ℕ) (tables : List (List ℕ)) (phase : ℕ)
    → all_complete size tables ≡ true
    → phase < length tables
    → IsPrefixCode size (entry_at (table_at tables phase))
      × IsComplete size (entry_at (table_at tables phase))
unfolding all_complete
all_complete_lem size [] phase h lt = absurd (omega arith)
all_complete_lem size (table ∷ rest) zero h lt =
    let (here, more) =
      both_true (is_complete_code table && length table == size) (all_complete size rest) h in
    let (good, long) = both_true (is_complete_code table) (length table == size) here in
    let same : length table ≡ size = ground (arith, long) in
    subst (λ n. IsPrefixCode n (entry_at table) × IsComplete n (entry_at table)) same
      (is_complete_code_lem table good)
all_complete_lem size (table ∷ rest) (suc phase) h lt =
    let (here, more) =
      both_true (is_complete_code table && length table == size) (all_complete size rest) h in
    all_complete_lem size rest phase more (omega arith)

-- The 22 tables are prefix codes of the 256 bytes, and any 12 bits start with one of their code
-- words.
pub tables-IsComplete :
    (phase : ℕ)
    → phase < 22
    → IsPrefixCode 256 (encoding_tables_for_high_entropy_byte phase)
      × IsComplete 256 (encoding_tables_for_high_entropy_byte phase)
tables-IsComplete phase lt = all_complete_lem 256 high_entropy_tables phase checked lt

unary_checked : is_complete_code length_limited_unary_encoding_table65 ≡ true
unfolding is_complete_code build insert is_full
unary_checked = refl

-- The length-limited unary table is a complete prefix code of 65 numbers.
pub unary_table-IsComplete :
    IsPrefixCode 65 (entry_at length_limited_unary_encoding_table65)
    × IsComplete 65 (entry_at length_limited_unary_encoding_table65)
unary_table-IsComplete = is_complete_code_lem length_limited_unary_encoding_table65 unary_checked
