-- ===== src/Cpc/Reading.antt =====
-- What the bit stream of cpc/include/cpc_compressor_impl.hpp holds while it is read.
use native.Mathlib.Nat.{
  div-eq_of_lt, div-lt_iff_lt-mul, mod-eq_of_lt, mul-le-mul_left, add-mul-div_left,
  add-mul-mod_self_left, one-le-pow,
}
use whylogs_datasketches.Base.{
  ℕ, suc, ◌+◌, ◌-◌, ◌*◌, ◌/◌, ◌%◌, ◌^◌, ◌≤◌, ◌<◌, ◌≡◌, sym, ap, ◌∙◌, arith, bit_or, ltb, Bool-cases,
  inl, inr,
}
use whylogs_datasketches.Cpc.Bits.{
  two-pow-mod, two-pow-add, two-pow-le, bit_or_disjoint, words_value,
}
use whylogs_datasketches.Cpc.Stream.{BitStream, maybe_fill_bitbuf, drop_bits}

-- The stream, of `limit` words, still has the bits of `rest`, at least `need` of them.
pub record Reads (rest need limit : ℕ) (s : BitStream) : Type 0 where
  pub value :
      s.bitbuf + 2 ^ s.bufbits * words_value (limit - s.word_index) s.word_index s.words ≡ rest
  pub inside : s.word_index ≤ limit
  pub enough : need ≤ s.bufbits + 32 * (limit - s.word_index)
  pub small : s.bitbuf < 2 ^ s.bufbits
  pub room : s.bufbits < 64
  pub ranged : (i : ℕ) → s.words i < 2 ^ 32

shifted_below : (w b : ℕ) → w < 2 ^ 32 → w * 2 ^ b + 2 ^ b ≤ 2 ^ (b + 32)
shifted_below w b lt =
    let le : w + 1 ≤ 2 ^ 32 = omega arith in
    omega (arith, mul-le-mul_left (2 ^ b) le, two-pow-add b 32)

pub fill-Reads :
    (minbits rest need limit : ℕ) (s : BitStream)
    → minbits ≤ 32
    → minbits ≤ need
    → Reads rest need limit s
    → Reads rest need limit (maybe_fill_bitbuf minbits s)
      × (minbits ≤ (maybe_fill_bitbuf minbits s).bufbits)
unfolding maybe_fill_bitbuf words_value
fill-Reads minbits rest need limit s few some h = elim (Bool-cases (ltb s.bufbits minbits)) [
  | inl e ↦
      let lt : s.bufbits < minbits = ground (arith, e) in
      let word : ℕ = s.words s.word_index in
      let next : s.word_index < limit = omega (arith, h.enough) in
      let left : limit - s.word_index ≡ suc (limit - (s.word_index + 1)) = omega arith in
      let wide : 2 ^ (s.bufbits + 32) ≤ 2 ^ 64 = two-pow-le (s.bufbits + 32) 64 (omega arith) in
      let fits = shifted_below word s.bufbits (h.ranged s.word_index) in
      let below : word * 2 ^ s.bufbits % 2 ^ 64 ≡ word * 2 ^ s.bufbits =
        mod-eq_of_lt (omega (arith, fits, wide, h.small)) in
      let new : bit_or s.bitbuf (word * 2 ^ s.bufbits % 2 ^ 64) ≡ s.bitbuf + word * 2 ^ s.bufbits =
        ap (bit_or s.bitbuf) below ∙ bit_or_disjoint s.bitbuf s.bufbits word h.small in
      let no_wrap : (s.bufbits + 32) % 2 ^ 8 ≡ s.bufbits + 32 = mod-eq_of_lt (omega arith) in
      let old : words_value (limit - s.word_index) s.word_index s.words
          ≡ word + 2 ^ 32 * words_value (limit - (s.word_index + 1)) (s.word_index + 1) s.words =
        ap (λ n. words_value n s.word_index s.words) left in
      let power : 2 ^ ((s.bufbits + 32) % 2 ^ 8) ≡ 2 ^ s.bufbits * 2 ^ 32 =
        ap (λ (t : ℕ). 2 ^ t) no_wrap ∙ two-pow-add s.bufbits 32 in
      simp e (
        record {
          value = omega (
            arith,
            new,
            ap (λ t. t * words_value (limit - (s.word_index + 1)) (s.word_index + 1) s.words) power,
            ap (λ t. 2 ^ s.bufbits * t) old,
            h.value,
          );
          inside = omega arith;
          enough = omega (arith, no_wrap, h.enough);
          small = omega (arith, new, power, fits, h.small, two-pow-add s.bufbits 32);
          room = omega (arith, no_wrap);
          ranged = h.ranged;
        },
        omega (arith, no_wrap),
      )
  | inr e ↦ simp e (
    record {
      value = h.value;
      inside = h.inside;
      enough = h.enough;
      small = h.small;
      room = h.room;
      ranged = h.ranged;
    },
    ground (arith, e),
  )
]

-- The bits behind the first `len`, as they stand in the buffer and in the words.
behind_lem :
    (len rest need limit : ℕ) (s : BitStream)
    → len ≤ s.bufbits
    → Reads rest need limit s
    → s.bitbuf
        + 2 ^ len
          * (2 ^ (s.bufbits - len) * words_value (limit - s.word_index) s.word_index s.words)
      ≡ rest
behind_lem len rest need limit s le h =
    let split : 2 ^ s.bufbits ≡ 2 ^ len * 2 ^ (s.bufbits - len) =
      ap (λ (t : ℕ). 2 ^ t) (omega arith) ∙ two-pow-add len (s.bufbits - len) in
    omega
      (arith, h.value, ap (λ t. t * words_value (limit - s.word_index) s.word_index s.words) split)

-- The lowest bits of the buffer are those of the rest.
pub peek_lem :
    (len rest need limit : ℕ) (s : BitStream)
    → len ≤ s.bufbits
    → Reads rest need limit s
    → s.bitbuf % 2 ^ len ≡ rest % 2 ^ len
peek_lem len rest need limit s le h =
    sym (
      add-mul-mod_self_left s.bitbuf (2 ^ len)
        (2 ^ (s.bufbits - len) * words_value (limit - s.word_index) s.word_index s.words))
    ∙ ap (λ t. t % 2 ^ len) (behind_lem len rest need limit s le h)

pub drop_bits-Reads :
    (len rest need limit : ℕ) (s : BitStream)
    → len ≤ s.bufbits
    → len ≤ need
    → Reads rest need limit s
    → Reads (rest / 2 ^ len) (need - len) limit (drop_bits len s)
drop_bits-Reads len rest need limit s le le' h =
    let tail : ℕ =
      2 ^ (s.bufbits - len) * words_value (limit - s.word_index) s.word_index s.words in
    let no_wrap : (s.bufbits + 2 ^ 8 - len) % 2 ^ 8 ≡ s.bufbits - len = omega (arith, h.room) in
    let halves : (s.bitbuf + 2 ^ len * tail) / 2 ^ len ≡ s.bitbuf / 2 ^ len + tail =
      add-mul-div_left s.bitbuf tail (one-le-pow len 2 (omega arith)) in
    let split : 2 ^ s.bufbits ≡ 2 ^ (s.bufbits - len) * 2 ^ len =
      ap (λ (t : ℕ). 2 ^ t) (omega arith) ∙ two-pow-add (s.bufbits - len) len in
    let low : s.bitbuf / 2 ^ len < 2 ^ (s.bufbits - len) =
      (div-lt_iff_lt-mul (one-le-pow len 2 (omega arith))).1 (omega (arith, split, h.small)) in
    record {
      value =
          ap
            (λ (t : ℕ).
              s.bitbuf / 2 ^ len + 2 ^ t * words_value (limit - s.word_index) s.word_index s.words)
            no_wrap
          ∙ sym halves
          ∙ ap (λ t. t / 2 ^ len) (behind_lem len rest need limit s le h);
      inside = h.inside;
      enough = omega (arith, h.enough, no_wrap);
      small = omega (arith, low, ap (λ (t : ℕ). 2 ^ t) no_wrap);
      room = omega (arith, no_wrap, h.room);
      ranged = h.ranged;
    }

-- A code word and the rest behind it, taken apart.
pub code_read :
    (len val rest : ℕ)
    → len ≤ 12
    → val < 2 ^ len
    → ((val + 2 ^ len * rest) % 2 ^ 12 % 2 ^ len ≡ val) × ((val + 2 ^ len * rest) / 2 ^ len ≡ rest)
code_read len val rest few fits = (
  two-pow-mod (val + 2 ^ len * rest) len 12 few
      ∙ add-mul-mod_self_left val (2 ^ len) rest
      ∙ mod-eq_of_lt fits,
  omega (arith, add-mul-div_left val rest (one-le-pow len 2 (omega arith)), div-eq_of_lt fits),
)
