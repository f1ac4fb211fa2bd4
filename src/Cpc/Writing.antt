-- ===== src/Cpc/Writing.antt =====
-- What the bit stream of cpc/include/cpc_compressor_impl.hpp holds while it is written.
use native.Mathlib.Nat.{mod-eq_of_lt, mul-le-mul_left}
use native.Mathlib.Numerals.{add-one}
use whylogs_datasketches.Base.{
  ℕ, suc, ◌+◌, ◌-◌, ◌*◌, ◌/◌, ◌%◌, ◌^◌, ◌≤◌, ◌<◌, ◌≡◌, refl, ap, ◌∙◌, arith, bit_or, update, leb,
  ltb, ==_refl, ==_ne, Bool-cases, inl, inr, Ends, Ends-if, Ends-throw_if, logic_error,
}
use whylogs_datasketches.Cpc.Bits.{
  two-pow-le, two-pow-add, bit_or_disjoint, words_value, words_value-suc, words_value_congr,
}
use whylogs_datasketches.Cpc.Stream.{BitStream, maybe_flush_bitbuf, append, pad, flush_last}

-- The number that the stream stands for, and its length in bits.
abbrev pub total : BitStream → ℕ
total s = words_value s.word_index 0 s.words + s.bitbuf * 2 ^ (32 * s.word_index)

abbrev pub num_bits : BitStream → ℕ
num_bits s = 32 * s.word_index + s.bufbits

pub record IsPacked (s : BitStream) : Type 0 where
  pub small : s.bitbuf < 2 ^ s.bufbits
  pub room : s.bufbits < 32
  pub ranged : (i : ℕ) → s.words i < 2 ^ 32

-- `s'` is `s` with `len` more bits, which stand for `val`.
pub record Written (val len : ℕ) (s s' : BitStream) : Type 0 where
  pub packed : IsPacked s'
  pub value : total s' ≡ total s + val * 2 ^ num_bits s
  pub bits : num_bits s' ≡ num_bits s + len

-- One more word in front of the buffer.
next_word :
    (words : ℕ → ℕ) (i w : ℕ)
    → words_value (i + 1) 0 (update words i w) ≡ words_value i 0 words + w * 2 ^ (32 * i)
next_word words i w =
    let at : update words i w (0 + i) ≡ w = ground (arith, ==_refl i) in
    let same = words_value_congr i 0 (update words i w) words (λ j lt. ground (arith, ==_ne j i)) in
    let one : words_value (i + 1) 0 (update words i w) ≡ words_value (suc i) 0 (update words i w) =
      ap (λ n. words_value n 0 (update words i w)) (add-one i) in
    one
    ∙ words_value-suc i 0 (update words i w)
    ∙ ap (λ t. words_value i 0 (update words i w) + t * 2 ^ (32 * i)) at
    ∙ ap (λ t. t + w * 2 ^ (32 * i)) same

shifted_word : (i : ℕ) → 2 ^ (32 * (i + 1)) ≡ 2 ^ 32 * 2 ^ (32 * i)
shifted_word i = ap (λ (t : ℕ). 2 ^ t) (omega arith) ∙ two-pow-add 32 (32 * i)

flush_lem :
    (s : BitStream)
    → s.bitbuf < 2 ^ s.bufbits
    → s.bufbits < 64
    → ((i : ℕ) → s.words i < 2 ^ 32)
    → IsPacked (maybe_flush_bitbuf s)
      × (total (maybe_flush_bitbuf s) ≡ total s)
      × (num_bits (maybe_flush_bitbuf s) ≡ num_bits s)
unfolding maybe_flush_bitbuf
flush_lem s small room ranged = elim (Bool-cases (leb 32 s.bufbits)) [
  | inl e ↦
      let le : 32 ≤ s.bufbits = ground (arith, e) in
      let split : 2 ^ s.bufbits ≡ 2 ^ 32 * 2 ^ (s.bufbits - 32) =
        ap (λ (t : ℕ). 2 ^ t) (omega arith) ∙ two-pow-add 32 (s.bufbits - 32) in
      let high : s.bitbuf / 2 ^ 32 < 2 ^ (s.bufbits - 32) = omega (arith, split) in
      let num : s.bitbuf ≡ 2 ^ 32 * (s.bitbuf / 2 ^ 32) + s.bitbuf % 2 ^ 32 = omega arith in
      simp e (
        record { small = high; room = omega arith; ranged = λ i. ground (arith, ranged i) },
        omega (
          arith,
          next_word s.words s.word_index (s.bitbuf % 2 ^ 32),
          num,
          ap (λ t. t * 2 ^ (32 * s.word_index)) num,
          ap (λ t. s.bitbuf / 2 ^ 32 * t) (shifted_word s.word_index),
        ),
        omega arith,
      )
  | inr e ↦ simp e (record { small = small; room = ground (arith, e); ranged = ranged }, refl, refl)
]

lt_below : (a b : ℕ) → a < b → a + 1 ≤ b
lt_below a b lt = omega arith

pub append-Written :
    (val len : ℕ) (s : BitStream)
    → val < 2 ^ len
    → len ≤ 32
    → IsPacked s
    → Written val len s (append val len s)
unfolding append
append-Written val len s lt short h =
    let split : 2 ^ (s.bufbits + len) ≡ 2 ^ s.bufbits * 2 ^ len = two-pow-add s.bufbits len in
    let below : (val + 1) * 2 ^ s.bufbits ≤ 2 ^ len * 2 ^ s.bufbits =
      omega (arith, mul-le-mul_left (2 ^ s.bufbits) (lt_below val (2 ^ len) lt)) in
    let wide : 2 ^ (s.bufbits + len) ≤ 2 ^ 64 =
      two-pow-le (s.bufbits + len) 64 (omega (arith, h.room)) in
    let fits : val * 2 ^ s.bufbits % 2 ^ 64 ≡ val * 2 ^ s.bufbits =
      mod-eq_of_lt (omega (arith, split, below, wide, h.small)) in
    let new : bit_or s.bitbuf (val * 2 ^ s.bufbits % 2 ^ 64) ≡ s.bitbuf + val * 2 ^ s.bufbits =
      ap (bit_or s.bitbuf) fits ∙ bit_or_disjoint s.bitbuf s.bufbits val h.small in
    let no_wrap : (s.bufbits + len) % 2 ^ 8 ≡ s.bufbits + len =
      mod-eq_of_lt (omega (arith, h.room)) in
    let (packed, value, bits) =
      flush_lem
        (record s {
          bitbuf = bit_or s.bitbuf (val * 2 ^ s.bufbits % 2 ^ 64);
          bufbits = (s.bufbits + len) % 2 ^ 8;
        })
        (omega (arith, new, split, below, h.small, ap (λ (t : ℕ). 2 ^ t) no_wrap))
        (omega (arith, h.room, no_wrap)) h.ranged in
    let place : 2 ^ (32 * s.word_index + s.bufbits) ≡ 2 ^ (32 * s.word_index) * 2 ^ s.bufbits =
      two-pow-add (32 * s.word_index) s.bufbits in
    record {
      packed = packed;
      value =
          omega (arith, value, ap (λ t. t * 2 ^ (32 * s.word_index)) new, ap (λ t. val * t) place);
      bits = omega (arith, bits, no_wrap);
    }

pub pad-Written : (len : ℕ) (s : BitStream) → len ≤ 32 → IsPacked s → Written 0 len s (pad len s)
unfolding pad
pad-Written len s short h =
    let wide : 2 ^ s.bufbits ≤ 2 ^ (s.bufbits + len) =
      two-pow-le s.bufbits (s.bufbits + len) (omega arith) in
    let no_wrap : (s.bufbits + len) % 2 ^ 8 ≡ s.bufbits + len =
      mod-eq_of_lt (omega (arith, h.room)) in
    let (packed, value, bits) =
      flush_lem (record s { bufbits = (s.bufbits + len) % 2 ^ 8 })
        (omega (arith, wide, h.small, ap (λ (t : ℕ). 2 ^ t) no_wrap))
        (omega (arith, h.room, no_wrap)) h.ranged in
    record { packed = packed; value = omega (arith, value); bits = omega (arith, bits, no_wrap) }

-- The words of a stream whose buffer is empty are all of it.
pub record Flushed (s s' : BitStream) : Type 0 where
  pub value : words_value s'.word_index 0 s'.words ≡ total s
  pub enough : num_bits s ≤ 32 * s'.word_index
  pub tight : 32 * s'.word_index < num_bits s + 32
  pub ranged : (i : ℕ) → s'.words i < 2 ^ 32

pub flush_last-Ends : (s : BitStream) → IsPacked s → Ends (Flushed s) (λ x. ⊥) (flush_last s)
unfolding flush_last
flush_last-Ends s h =
    Ends-if (Flushed s) _ (ltb 0 s.bufbits) _ _
      (λ some_bits.
        Ends-throw_if (Flushed s) _ (leb 32 s.bufbits) logic_error _
          (λ e. absurd (ground (arith, e, h.room)))
          λ e.
            let wide : 2 ^ s.bufbits ≤ 2 ^ 32 = two-pow-le s.bufbits 32 (omega (arith, h.room)) in
            let whole : s.bitbuf % 2 ^ 32 ≡ s.bitbuf =
              mod-eq_of_lt (omega (arith, h.small, wide)) in
            record {
              value =
                  next_word s.words s.word_index (s.bitbuf % 2 ^ 32)
                  ∙ ap (λ t. words_value s.word_index 0 s.words + t * 2 ^ (32 * s.word_index))
                      whole;
              enough = omega (arith, h.room);
              tight = ground (arith, some_bits);
              ranged = λ i. ground (arith, h.ranged i);
            })
      λ no_bits.
        let none_left : s.bufbits ≡ 0 = ground (arith, no_bits) in
        let empty : s.bitbuf ≡ 0 = omega (arith, h.small, ap (λ (t : ℕ). 2 ^ t) none_left) in
        record {
          value = omega (arith, ap (λ t. t * 2 ^ (32 * s.word_index)) empty);
          enough = omega (arith, none_left);
          tight = omega (arith, none_left);
          ranged = h.ranged;
        }

pub Written-Written :
    (val len val' len' : ℕ) (s t u : BitStream)
    → Written val len s t
    → Written val' len' t u
    → Written (val + 2 ^ len * val') (len + len') s u
Written-Written val len val' len' s t u a b =
    let place : 2 ^ num_bits t ≡ 2 ^ num_bits s * 2 ^ len =
      ap (λ (k : ℕ). 2 ^ k) a.bits ∙ two-pow-add (num_bits s) len in
    record {
      packed = b.packed;
      value = omega (arith, a.value, b.value, ap (λ k. val' * k) place);
      bits = omega (arith, a.bits, b.bits);
    }
