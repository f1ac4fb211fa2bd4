-- ===== src/Cpc/Pairs/RoundTrip.antt =====
-- The pairs that low_level_uncompress_pairs of cpc/include/cpc_compressor_impl.hpp reads are those
-- that were written.
use native.Mathlib.Decide.{ℕ_discrete}
use native.Mathlib.Nat.{
  sub-zero, mod-eq_of_lt, mod-lt, one-le-pow, div-le_self, div-add-mod, add-mul-mod_self_left,
  add-mul-div_left, div-eq_of_lt,
}
use whylogs_datasketches.Base.{
  ℕ, zero, suc, ◌+◌, ◌-◌, ◌*◌, ◌/◌, ◌%◌, ◌^◌, ◌≤◌, ◌<◌, ◌≡◌, sym, ap, ap₂, ◌∙◌, subst, arith,
  bit_or, update, ltb, ltb→lt, if◌then◌else◌, logic_error, Ends, Ends-bind, Ends-map, Ends-throw_if,
}
use whylogs_datasketches.Cpc.Bits.{words_value, bit_or_disjoint_left}
use whylogs_datasketches.Cpc.Codes.{code_val, code_len}
use whylogs_datasketches.Cpc.Codes.Decoding.{Decodes}
use whylogs_datasketches.Cpc.Codes.Trie.{entry_at}
use whylogs_datasketches.Cpc.Pairs.{
  read_unary, decode_pairs_loop, pair_padding, low_level_uncompress_pairs,
}
use whylogs_datasketches.Cpc.Pairs.ReadUnary.{unary_value, read_unary-Ends}
use whylogs_datasketches.Cpc.Pairs.Writing.{
  expected_col, x_delta, y_delta, pairs_value, pairs_bits, expected_col-le, x_delta-lt, Increasing,
  next_pair,
}
use whylogs_datasketches.Cpc.Reading.{Reads, fill-Reads, peek_lem, drop_bits-Reads, code_read}
use whylogs_datasketches.Cpc.Stream.{BitStream, new_stream, maybe_fill_bitbuf, drop_bits}
use whylogs_datasketches.Cpc.Tables.{unary_table-IsComplete}
use whylogs_datasketches.Cpc.Tables.Unary.{length_limited_unary_encoding_table65}

-- The lower digits and the rest behind them, taken apart.
low_digits :
    (base lo rest : ℕ)
    → lo < 2 ^ base
    → ((lo + 2 ^ base * rest) % 2 ^ base ≡ lo) × ((lo + 2 ^ base * rest) / 2 ^ base ≡ rest)
low_digits base lo rest lt = (
  add-mul-mod_self_left lo (2 ^ base) rest ∙ mod-eq_of_lt lt,
  omega (arith, add-mul-div_left lo rest (one-le-pow base 2 (omega arith)), div-eq_of_lt lt),
)

golomb_lem :
    (y base g lo : ℕ)
    → y < 2 ^ 26
    → g ≡ y / 2 ^ base
    → lo ≡ y % 2 ^ base
    → bit_or (g * 2 ^ base % 2 ^ 64) lo ≡ y
golomb_lem y base g lo lt eg el =
    let apart : g * 2 ^ base + lo ≡ y =
      omega (arith, div-add-mod y (2 ^ base), ap (λ t. t * 2 ^ base) eg, el) in
    let below : lo < 2 ^ base = omega (arith, el, mod-lt y (one-le-pow base 2 (omega arith))) in
    let whole : g * 2 ^ base % 2 ^ 64 ≡ g * 2 ^ base = mod-eq_of_lt (omega (arith, apart, lt)) in
    ap (λ t. bit_or t lo) whole ∙ bit_or_disjoint_left lo base g below ∙ apart

pair_lem : (p : ℕ) → p < 2 ^ 32 → bit_or (p / 2 ^ 6 * 2 ^ 6 % 2 ^ 32) (p % 2 ^ 6) ≡ p
pair_lem p lt =
    let whole : p / 2 ^ 6 * 2 ^ 6 % 2 ^ 32 ≡ p / 2 ^ 6 * 2 ^ 6 = mod-eq_of_lt (omega (arith, lt)) in
    let low : p % 2 ^ 6 < 2 ^ 6 = omega arith in
    ap (λ t. bit_or t (p % 2 ^ 6)) whole
    ∙ bit_or_disjoint_left (p % 2 ^ 6) 6 (p / 2 ^ 6) low
    ∙ omega arith

row_lem : (p pr y : ℕ) → p < 2 ^ 32 → pr * 64 ≤ p → y ≡ y_delta p pr → (pr + y) % 2 ^ 32 ≡ p / 2 ^ 6
row_lem p pr y lt le e = omega (arith, lt, le, e)

col_lem :
    (p pr pc y x : ℕ)
    → pr * 64 + pc ≤ p
    → y ≡ y_delta p pr
    → x ≡ x_delta p pr pc
    → ((if ltb 0 y then 0 else pc) + x) % 2 ^ 8 ≡ p % 2 ^ 6
col_lem p pr pc y x le ey ex =
    let same : (if ltb 0 y then 0 else pc) ≡ expected_col p pr pc = ground (arith, ey, le) in
    let low : p % 2 ^ 6 < 64 = omega arith in
    omega (arith, same, ex, expected_col-le p pr pc le, low)

next_col : (p c : ℕ) → c ≡ p % 2 ^ 6 → (c + 1) % 2 ^ 8 ≡ p % 2 ^ 6 + 1
next_col p c e = omega (arith, e)

abbrev unary_code : ℕ → ℕ
unary_code x = entry_at length_limited_unary_encoding_table65 x

-- A code word of the unary table is read, and the stream is behind it.
code_step :
    (dec : ℕ → ℕ) (x rest need limit : ℕ) (s : BitStream)
    → Decodes 65 (entry_at length_limited_unary_encoding_table65) dec
    → x < 65
    → 11 ≤ need
    → Reads
        (code_val (unary_code x) + 2 ^ code_len (unary_code x) * rest)
        (code_len (unary_code x) + need)
        limit
        s
    → (dec ((maybe_fill_bitbuf 12 s).bitbuf % 2 ^ 12) % 2 ^ 8 ≡ x)
      × Reads rest need limit (
          drop_bits
            (dec ((maybe_fill_bitbuf 12 s).bitbuf % 2 ^ 12) / 2 ^ 8)
            (maybe_fill_bitbuf 12 s))
code_step dec x rest need limit s decodes lt more h =
    let code = unary_table-IsComplete.0 in
    let len : ℕ = code_len (unary_code x) in
    let all : ℕ = code_val (unary_code x) + 2 ^ len * rest in
    let few : len ≤ 12 = code.few_bits x lt in
    let full : BitStream = maybe_fill_bitbuf 12 s in
    let (filled, some) =
      fill-Reads 12 all (len + need) limit s (omega arith) (omega (arith, code.some_bits x lt)) h in
    let (start, next) = code_read len (code_val (unary_code x)) rest few (code.fits x lt) in
    let look : ℕ = dec (full.bitbuf % 2 ^ 12) in
    let found : look ≡ len * 2 ^ 8 + x =
      decodes x (full.bitbuf % 2 ^ 12) lt (omega arith) (
        ap (λ (t : ℕ). t % 2 ^ len) (peek_lem 12 all (len + need) limit full some filled)
        ∙ start) in
    let length : look / 2 ^ 8 ≡ len = omega (arith, found, lt) in
    let left : len + need - len ≡ need = omega arith in
    (
      omega (arith, found, lt),
      subst (λ l. Reads rest need limit (drop_bits l full)) (sym length)
          (subst (λ t. Reads t need limit (drop_bits len full)) next
            (subst (λ t. Reads (all / 2 ^ len) t limit (drop_bits len full)) left
              (drop_bits-Reads len all (len + need) limit full (omega (arith, some, few))
                (omega arith) filled))),
    )

-- The lower part of a Golomb code is read, behind the upper part `g`.
golomb_step :
    (y base g rest need limit : ℕ) (t : BitStream)
    → base ≤ 32
    → y < 2 ^ 26
    → g ≡ y / 2 ^ base
    → Reads (y % 2 ^ base + 2 ^ base * rest) (base + need) limit t
    → (bit_or (g * 2 ^ base % 2 ^ 64) ((maybe_fill_bitbuf base t).bitbuf % 2 ^ base) ≡ y)
      × Reads rest need limit (drop_bits base (maybe_fill_bitbuf base t))
golomb_step y base g rest need limit t few lt eg h =
    let all : ℕ = y % 2 ^ base + 2 ^ base * rest in
    let full : BitStream = maybe_fill_bitbuf base t in
    let (filled, some) = fill-Reads base all (base + need) limit t few (omega arith) h in
    let (low, above) =
      low_digits base (y % 2 ^ base) rest (mod-lt y (one-le-pow base 2 (omega arith))) in
    let left : base + need - base ≡ need = omega arith in
    (
      golomb_lem y base g (full.bitbuf % 2 ^ base) lt eg
          (peek_lem base all (base + need) limit full some filled ∙ low),
      subst (λ v. Reads v need limit (drop_bits base full)) above
          (subst (λ v. Reads (all / 2 ^ base) v limit (drop_bits base full)) left
            (drop_bits-Reads base all (base + need) limit full some (omega arith) filled)),
    )

written :
    (out pairs : ℕ → ℕ) (i j v : ℕ)
    → ((j : ℕ) → j < i → out j ≡ pairs j)
    → v ≡ pairs i
    → j < i + 1
    → update out i v j ≡ pairs j
written out pairs i j v old here lt = elim (ℕ_discrete j i) [
  | yes e ↦ ground (arith, here, ap pairs e)
  | no ne ↦ ground (arith, ne, old j)
]

module _ (pairs dec : ℕ → ℕ) (base padding limit : ℕ) (few : base ≤ 32) (pad : 10 ≤ base + padding)
    (decodes : Decodes 65 (entry_at length_limited_unary_encoding_table65) dec) where
  abbrev Found : ℕ → BitStream × (ℕ → ℕ) → Type 0
  Found n r = (r.0.word_index ≤ limit) × ((j : ℕ) → j < n → r.1 j ≡ pairs j)

  -- The row and the column that the loop goes on with, in other words.
  from_pair :
      (n i all r r' c c' : ℕ) (s : BitStream) (out : ℕ → ℕ)
      → r ≡ r'
      → c ≡ c'
      → Ends (Found all) (λ x. ⊥) (decode_pairs_loop dec n i base r' c' s out)
      → Ends (Found all) (λ x. ⊥) (decode_pairs_loop dec n i base r c s out)
  from_pair n i all r r' c c' s out er ec h =
      subst (λ t. Ends (Found all) (λ x. ⊥) (decode_pairs_loop dec n i base t c s out)) (sym er)
        (subst (λ t. Ends (Found all) (λ x. ⊥) (decode_pairs_loop dec n i base r' t s out)) (sym ec)
          h)

  decode_pairs_loop-Ends :
      (n i pr pc : ℕ) (s : BitStream) (out : ℕ → ℕ)
      → Increasing pairs (i + n)
      → ((j : ℕ) → j < i + n → pairs j < 2 ^ 32)
      → (0 < n → pr * 64 + pc ≤ pairs i)
      → ((j : ℕ) → j < i → out j ≡ pairs j)
      → Reads (pairs_value n i pairs base pr pc) (pairs_bits n i pairs base pr pc + padding) limit s
      → Ends (Found (i + n)) (λ x. ⊥) (decode_pairs_loop dec n i base pr pc s out)
  unfolding decode_pairs_loop pairs_value pairs_bits
  decode_pairs_loop-Ends zero i pr pc s out sorted range ready old h =
      (h.inside, λ j jl. old j (omega arith))
  decode_pairs_loop-Ends (suc n) i pr pc s out sorted range ready old h =
      let p : ℕ = pairs i in
      let at : pr * 64 + pc ≤ p = ready (omega arith) in
      let lt = x_delta-lt p pr pc in
      let hi : ℕ = y_delta p pr / 2 ^ base in
      let rest : ℕ = pairs_value n (i + 1) pairs base (p / 2 ^ 6) (p % 2 ^ 6 + 1) in
      let left : ℕ = pairs_bits n (i + 1) pairs base (p / 2 ^ 6) (p % 2 ^ 6 + 1) + padding in
      let behind : ℕ = y_delta p pr % 2 ^ base + 2 ^ base * rest in
      let full : BitStream = maybe_fill_bitbuf 12 s in
      let look : ℕ = dec (full.bitbuf % 2 ^ 12) in
      let row_below : y_delta p pr < 2 ^ 26 = omega (arith, range i (omega arith)) in
      let bits : pairs_bits (suc n) i pairs base pr pc + padding
          ≡ code_len (unary_code (x_delta p pr pc)) + (hi + 1 + (base + left)) =
        omega arith in
      let (x, coded) =
        code_step dec (x_delta p pr pc) (unary_value hi behind) (hi + 1 + (base + left)) limit s
          decodes lt (omega (arith, pad))
          (subst (λ b. Reads (pairs_value (suc n) i pairs base pr pc) b limit s) bits h) in
      Ends-bind {A = ℕ × BitStream} (λ r. (r.0 ≡ hi) × Reads behind (base + left) limit r.1)
        (Found (i + suc n)) (λ x. ⊥) (read_unary (drop_bits (look / 2 ^ 8) full)) _
        (read_unary-Ends hi behind (base + left) limit (drop_bits (look / 2 ^ 8) full)
          (omega (arith, div-le_self (y_delta p pr) (2 ^ base), row_below)) (omega (arith, pad))
          coded)
        λ r _ a.
          let (y, lower) =
            golomb_step (y_delta p pr) base r.0 rest left limit r.1 few row_below a.0 a.1 in
          let row = row_lem p pr _ (range i (omega arith)) (omega (arith, at)) y in
          let col = col_lem p pr pc _ _ at y x in
          let pair =
            ap₂ (λ r c. bit_or (r * 2 ^ 6 % 2 ^ 32) c) row col
            ∙ pair_lem p (range i (omega arith)) in
          Ends-map (Found (i + 1 + n)) (Found (i + suc n)) (λ x. ⊥) _
            (λ r' f. (f.0, λ j jl. f.1 j (omega arith)))
            (from_pair n (i + 1) (i + 1 + n) _ _ _ _ (drop_bits base (maybe_fill_bitbuf base r.1)) _
              row (next_col p _ col)
              (decode_pairs_loop-Ends n (i + 1) (p / 2 ^ 6) (p % 2 ^ 6 + 1)
                (drop_bits base (maybe_fill_bitbuf base r.1)) _ (λ j jl. sorted j (omega arith))
                (λ j jl. range j (omega arith)) (next_pair pairs i n sorted)
                (λ j jl. written out pairs i j _ old pair jl) lower))

-- What is uncompressed from words that stand for the codes of the pairs.
pub uncompress_pairs-Ends :
    (n base : ℕ) (pairs dec words out : ℕ → ℕ) (used : ℕ)
    → base ≤ 30
    → Decodes 65 (entry_at length_limited_unary_encoding_table65) dec
    → Increasing pairs n
    → ((j : ℕ) → j < n → pairs j < 2 ^ 32)
    → words_value used 0 words ≡ pairs_value n 0 pairs base 0 0
    → pairs_bits n 0 pairs base 0 0 + pair_padding base ≤ 32 * used
    → ((i : ℕ) → words i < 2 ^ 32)
    → Ends
        (λ decoded. (j : ℕ) → j < n → decoded j ≡ pairs j)
        (λ x. ⊥)
        (low_level_uncompress_pairs dec out n base words used)
unfolding low_level_uncompress_pairs
uncompress_pairs-Ends n base pairs dec words out used few decodes sorted range value enough ranged =
    let Good : (ℕ → ℕ) → Type 0 = λ decoded. (j : ℕ) → j < n → decoded j ≡ pairs j in
    let few' : base ≤ 32 = omega arith in
    let padded : 10 ≤ base + pair_padding base = ground arith in
    let start : Reads (pairs_value n 0 pairs base 0 0)
        (pairs_bits n 0 pairs base 0 0 + pair_padding base) used (new_stream words) =
      record {
        value = omega (arith, value, ap (λ k. words_value k 0 words) (sub-zero used));
        inside = omega arith;
        enough = omega (arith, enough);
        small = omega arith;
        room = omega arith;
        ranged = ranged;
      } in
    Ends-bind (Found pairs dec base (pair_padding base) used few' padded decodes (0 + n)) Good
      (λ x. ⊥) (decode_pairs_loop dec n 0 base 0 0 (new_stream words) out) _
      (decode_pairs_loop-Ends pairs dec base (pair_padding base) used few' padded decodes n 0 0 0
        (new_stream words) out (λ j jl. sorted j (omega arith)) (λ j jl. range j (omega arith))
        (λ some. omega arith) (λ j jl. absurd (omega arith)) start)
      λ r _ found.
        Ends-throw_if Good (λ x. ⊥) (ltb used r.0.word_index) logic_error _
          (λ e. absurd (omega (arith, ltb→lt used r.0.word_index e, found.0)))
          λ e j jl. found.1 j (omega arith)
