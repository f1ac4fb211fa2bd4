-- ===== src/Cpc/Pairs/ReadUnary.antt =====
-- A unary number read from the stream of cpc/include/cpc_compressor_impl.hpp.
use native.Mathlib.Nat.{
  mod-eq_of_lt, div-eq_of_lt, add-mul-mod_self_left, add-mul-div_left, one-le-pow,
}
use whylogs_datasketches.Base.{
  ℕ, zero, suc, ◌+◌, ◌-◌, ◌*◌, ◌/◌, ◌%◌, ◌^◌, ◌≤◌, ◌<◌, ◌≡◌, sym, ap, ◌∙◌, subst, arith, ltb,
  ltb→lt, false, Ends, Ends-if, Ends-map,
}
use native.Mathlib.Decide.{dec_lt}
use whylogs_datasketches.Cpc.Bits.{two-pow-add, two-pow-mod}
use whylogs_datasketches.Cpc.Codes.Trie.{entry_at}
use whylogs_datasketches.Cpc.Pairs.{read_unary_loop, read_unary, unary_rounds}
use whylogs_datasketches.Cpc.Pairs.Unary.{zeros_one, zeros_all, table_zeros}
use whylogs_datasketches.Cpc.Reading.{Reads, fill-Reads, peek_lem, drop_bits-Reads}
use whylogs_datasketches.Cpc.Stream.{BitStream, maybe_fill_bitbuf, drop_bits}
use whylogs_datasketches.Cpc.Tables.Zeros.{byte_trailing_zeros_table}

-- A unary number in front of `rest`.
abbrev pub unary_value : ℕ → ℕ → ℕ
unary_value g rest = 2 ^ g + 2 ^ (g + 1) * rest

-- A number below 8 shows in the lowest 8 digits, and a larger one only as zeros.
small_unary :
    (g rest : ℕ)
    → g < 8
    → (unary_value g rest % 2 ^ 8 % 2 ^ (g + 1) ≡ 2 ^ g) × (unary_value g rest / 2 ^ (1 + g) ≡ rest)
small_unary g rest lt =
    let below : 2 ^ g < 2 ^ (g + 1) =
      omega (arith, two-pow-add g 1, one-le-pow g 2 (omega arith)) in
    let turn : 1 + g ≡ g + 1 = omega arith in
    (
      two-pow-mod (unary_value g rest) (g + 1) 8 (omega arith)
          ∙ add-mul-mod_self_left (2 ^ g) (2 ^ (g + 1)) rest
          ∙ mod-eq_of_lt below,
      ap (λ (t : ℕ). unary_value g rest / 2 ^ t) turn
          ∙ omega (
            arith,
            add-mul-div_left (2 ^ g) rest (one-le-pow (g + 1) 2 (omega arith)),
            div-eq_of_lt below,
          ),
    )

large_unary : (g rest : ℕ) → 8 ≤ g → unary_value g rest ≡ 2 ^ 8 * unary_value (g - 8) rest
large_unary g rest le =
    let sum : g ≡ 8 + (g - 8) = omega arith in
    let sum' : g + 1 ≡ 8 + (g - 8 + 1) = omega arith in
    let low : 2 ^ g ≡ 2 ^ 8 * 2 ^ (g - 8) = ap (λ (t : ℕ). 2 ^ t) sum ∙ two-pow-add 8 (g - 8) in
    let high : 2 ^ (g + 1) ≡ 2 ^ 8 * 2 ^ (g - 8 + 1) =
      ap (λ (t : ℕ). 2 ^ t) sum' ∙ two-pow-add 8 (g - 8 + 1) in
    omega (arith, low, ap (λ t. t * rest) high)

ltb-false : (a b : ℕ) → ltb a b ≡ false → b ≤ a
ltb-false a b e = ground (arith, e)

read_unary_loop-Ends :
    (rounds g subtotal rest need limit : ℕ) (s : BitStream)
    → g < 8 * rounds
    → 7 ≤ need
    → Reads (unary_value g rest) (g + 1 + need) limit s
    → Ends {A = ℕ × BitStream}
        (λ r. (r.0 ≡ subtotal + g) × Reads rest need limit r.1)
        (λ x. ⊥)
        (read_unary_loop rounds subtotal s)
unfolding read_unary_loop
read_unary_loop-Ends zero g subtotal rest need limit s lt more h = absurd (omega arith)
read_unary_loop-Ends (suc rounds) g subtotal rest need limit s lt more h =
    let Good : ℕ × BitStream → Type 0 = λ r. (r.0 ≡ subtotal + g) × Reads rest need limit r.1 in
    let full : BitStream = maybe_fill_bitbuf 8 s in
    let (filled, some) =
      fill-Reads 8 (unary_value g rest) (g + 1 + need) limit s (omega arith) (omega arith) h in
    let peek = peek_lem 8 (unary_value g rest) (g + 1 + need) limit full some filled in
    let looked = table_zeros (full.bitbuf % 2 ^ 8) (omega arith) in
    let tz : ℕ = entry_at byte_trailing_zeros_table (full.bitbuf % 2 ^ 8) in
    elim (dec_lt g 8) [
      | yes few ↦
          let (start, next) = small_unary g rest few in
          let turn : suc g ≡ g + 1 = omega arith in
          let digits : full.bitbuf % 2 ^ 8 % 2 ^ suc g ≡ 2 ^ g =
            ap (λ (t : ℕ). full.bitbuf % 2 ^ 8 % 2 ^ t) turn
            ∙ ap (λ (t : ℕ). t % 2 ^ (g + 1)) peek
            ∙ start in
          let found : tz ≡ g = looked ∙ zeros_one g 8 (full.bitbuf % 2 ^ 8) few digits in
          let left : g + 1 + need - (1 + g) ≡ need = omega arith in
          let dropped : Reads rest need limit (drop_bits (1 + g) full) =
            subst (λ t. Reads t need limit (drop_bits (1 + g) full)) next
              (subst
                (λ t. Reads (unary_value g rest / 2 ^ (1 + g)) t limit (drop_bits (1 + g) full))
                left
                (drop_bits-Reads (1 + g) (unary_value g rest) (g + 1 + need) limit full
                  (omega (arith, some)) (omega arith) filled)) in
          Ends-if {A = ℕ × BitStream} Good (λ x. ⊥) (ltb 8 tz) _ _
            (λ e. absurd (omega (arith, ltb→lt 8 tz e, found, few)))
            λ e.
              Ends-if {A = ℕ × BitStream} Good (λ x. ⊥) (ltb tz 8) _ _
                (λ e'. (
                  omega (arith, found),
                  subst (λ l. Reads rest need limit (drop_bits (1 + l) full)) (sym found) dropped,
                ))
                λ e'. absurd (omega (arith, ltb-false tz 8 e', found, few))
      | no many ↦
          let apart = large_unary g rest (omega arith) in
          let none_there : full.bitbuf % 2 ^ 8 % 2 ^ 8 ≡ 0 = omega (arith, peek, apart) in
          let found : tz ≡ 8 = looked ∙ zeros_all 8 (full.bitbuf % 2 ^ 8) none_there in
          let next : unary_value g rest / 2 ^ 8 ≡ unary_value (g - 8) rest = omega (arith, apart) in
          let left : g + 1 + need - 8 ≡ g - 8 + 1 + need = omega arith in
          let dropped : Reads (unary_value (g - 8) rest) (g - 8 + 1 + need) limit
              (drop_bits 8 full) =
            subst (λ t. Reads t (g - 8 + 1 + need) limit (drop_bits 8 full)) next
              (subst (λ t. Reads (unary_value g rest / 2 ^ 8) t limit (drop_bits 8 full)) left
                (drop_bits-Reads 8 (unary_value g rest) (g + 1 + need) limit full some (omega arith)
                  filled)) in
          Ends-if {A = ℕ × BitStream} Good (λ x. ⊥) (ltb 8 tz) _ _
            (λ e. absurd (omega (arith, ltb→lt 8 tz e, found)))
            λ e.
              Ends-if {A = ℕ × BitStream} Good (λ x. ⊥) (ltb tz 8) _ _
                (λ e'. absurd (omega (arith, ltb→lt tz 8 e', found)))
                λ e'.
                  Ends-map {A = ℕ × BitStream}
                    (λ r. (r.0 ≡ subtotal + 8 + (g - 8)) × Reads rest need limit r.1) Good (λ x. ⊥)
                    (read_unary_loop rounds (subtotal + 8) (drop_bits 8 full))
                    (λ r a. (omega (arith, a.0), a.1))
                    (read_unary_loop-Ends rounds (g - 8) (subtotal + 8) rest need limit
                      (drop_bits 8 full) (omega arith) more dropped)
    ]

-- A unary number below 2^26 is read, and the stream is behind it.
pub read_unary-Ends :
    (g rest need limit : ℕ) (s : BitStream)
    → g < 2 ^ 26
    → 7 ≤ need
    → Reads (unary_value g rest) (g + 1 + need) limit s
    → Ends {A = ℕ × BitStream} (λ r. (r.0 ≡ g) × Reads rest need limit r.1) (λ x. ⊥) (read_unary s)
unfolding read_unary
read_unary-Ends g rest need limit s lt more h =
    Ends-map {A = ℕ × BitStream} (λ r. (r.0 ≡ 0 + g) × Reads rest need limit r.1)
      (λ r. (r.0 ≡ g) × Reads rest need limit r.1) (λ x. ⊥) (read_unary_loop unary_rounds 0 s)
      (λ r a. (omega (arith, a.0), a.1))
      (read_unary_loop-Ends unary_rounds g 0 rest need limit s (omega (arith, lt)) more h)
