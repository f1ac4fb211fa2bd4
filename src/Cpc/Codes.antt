-- ===== src/Cpc/Codes.antt =====
-- The code tables of cpc/include/cpc_compressor_impl.hpp. An entry of an encoding table has the code
-- word in its lower 12 bits and the length above them, and an entry of a decoding table the
-- byte in its lower 8 bits and the length above them. A table is a function of the index; `raw`
-- is what a new decoding table holds.
pub mod Checked
pub mod Complete
pub mod Decoding
pub mod Trie
use whylogs_datasketches.Base.{
  ℕ, zero, suc, ◌+◌, ◌-◌, ◌*◌, ◌/◌, ◌%◌, ◌^◌, ◌≤◌, ◌<◌, ◌≡◌, bit_or, update, ltb, leb, ◌==◌, not,
  if◌then◌else◌, Outcome, ok, throw_if, logic_error, undefined, ◌>>=◌, ◌>>◌,
}

abbrev pub code_val : ℕ → ℕ
code_val code_info = code_info % 2 ^ 12

abbrev pub code_len : ℕ → ℕ
code_len code_info = code_info / 2 ^ 12

-- The loop over the garbage bits, from `garbage_bits` on.
unfoldable pub copies_loop : ℕ → ℕ → ℕ → ℕ → ℕ → (ℕ → ℕ) → ℕ → ℕ
copies_loop zero garbage_bits code_value code_length entry table = table
copies_loop (suc rounds) garbage_bits code_value code_length entry table =
    let extended = bit_or code_value (garbage_bits * 2 ^ code_length % 2 ^ 32) % 2 ^ 16 in
    copies_loop rounds (garbage_bits + 1) code_value code_length entry
      (update table (extended % 2 ^ 12) entry)

abbrev pub decoding_entry : ℕ → ℕ → ℕ
decoding_entry code_length byte_value = bit_or (code_length * 2 ^ 8) byte_value % 2 ^ 16

-- The loop over the bytes. A code word longer than 12 bits would be shifted by a negative number.
unfoldable pub table_loop : ℕ → ℕ → (ℕ → ℕ) → (ℕ → ℕ) → Outcome (ℕ → ℕ)
table_loop zero byte_value encoding_table table = ok table
table_loop (suc rounds) byte_value encoding_table table = do
  let info = encoding_table byte_value
  throw_if (ltb 12 (code_len info)) undefined
  table_loop rounds (byte_value + 1) encoding_table (
      copies_loop (2 ^ (12 - code_len info)) 0 (code_val info) (code_len info)
        (decoding_entry (code_len info) byte_value) table)

unfoldable pub make_decoding_table : (ℕ → ℕ) → (ℕ → ℕ) → ℕ → Outcome (ℕ → ℕ)
make_decoding_table raw encoding_table num_byte_values =
    table_loop num_byte_values 0 encoding_table raw

unfoldable pub validate_loop : ℕ → ℕ → (ℕ → ℕ) → (ℕ → ℕ) → Outcome (Unit {0})
validate_loop zero decode_this decoding_table encoding_table = ok tt
validate_loop (suc rounds) decode_this decoding_table encoding_table = do
  let tmp_d = decoding_table decode_this
  let decoded_length = tmp_d / 2 ^ 8
  let tmp_e = encoding_table (tmp_d % 2 ^ 8)
  throw_if (not (decoded_length == code_len tmp_e)) logic_error
  throw_if (not (code_val tmp_e == decode_this % 2 ^ decoded_length)) logic_error
  validate_loop rounds (decode_this + 1) decoding_table encoding_table

unfoldable pub validate_decoding_table : (ℕ → ℕ) → (ℕ → ℕ) → Outcome (Unit {0})
validate_decoding_table decoding_table encoding_table =
    validate_loop 4096 0 decoding_table encoding_table

-- `x` starts with the code word of `b`; the lowest bit comes first.
abbrev pub StartsWith : (ℕ → ℕ) → ℕ → ℕ → Type 0
StartsWith encoding_table b x = x % 2 ^ code_len (encoding_table b) ≡ code_val (encoding_table b)

-- Each of `num` bytes has a code word of 1 to 12 bits, and none is the start of another one.
pub record IsPrefixCode (num : ℕ) (encoding_table : ℕ → ℕ) : Type 0 where
  pub some_bits : (b : ℕ) → b < num → 1 ≤ code_len (encoding_table b)
  pub few_bits : (b : ℕ) → b < num → code_len (encoding_table b) ≤ 12
  pub fits : (b : ℕ) → b < num → code_val (encoding_table b) < 2 ^ code_len (encoding_table b)
  pub free :
      (b c x : ℕ)
      → b < num
      → c < num
      → StartsWith encoding_table b x
      → StartsWith encoding_table c x
      → b ≡ c

-- Any 12 bits start with a code word.
abbrev pub IsComplete : ℕ → (ℕ → ℕ) → Type 0
IsComplete num encoding_table = (x : ℕ) → (b : ℕ) × (b < num) × StartsWith encoding_table b x
