-- ===== src/Cpc/Pairs/Unary.antt =====
-- Unary numbers in the stream of cpc/include/cpc_compressor_impl.hpp, written and read.
use native.Mathlib.Decide.{ℕ_discrete}
use native.Mathlib.Nat.{two-pow-succ, one-le-pow}
use whylogs_datasketches.Base.{
  ℕ, zero, suc, ◌+◌, ◌-◌, ◌*◌, ◌/◌, ◌%◌, ◌^◌, ◌≤◌, ◌<◌, ◌≡◌, refl, sym, ap, ◌∙◌, subst, arith, ltb,
  leb, ◌==◌, ◌&&◌, if◌then◌else◌, Bool, true, out_of_range, Ends, Ends-if, Ends-bind, Ends-map,
  Ends-throw_if,
}
use whylogs_datasketches.Cpc.Bits.{two-pow-add, mod_step}
use whylogs_datasketches.Cpc.Codes.Trie.{entry_at}
use whylogs_datasketches.Cpc.Codes.Checked.{both_true}
use whylogs_datasketches.Cpc.Pairs.{unary_loop, write_unary}
use whylogs_datasketches.Cpc.Stream.{BitStream, pad}
use whylogs_datasketches.Cpc.Tables.Zeros.{byte_trailing_zeros_table}
use whylogs_datasketches.Cpc.Writing.{
  IsPacked, Written, append-Written, pad-Written, Written-Written,
}

-- The same bits in other words.
pub Written-subst :
    (val len val' len' : ℕ) (s t : BitStream)
    → val ≡ val'
    → len ≡ len'
    → Written val len s t
    → Written val' len' s t
Written-subst val len val' len' s t e e' h =
    subst (λ v. Written v len' s t) e (subst (λ l. Written val l s t) e' h)

unary_loop-Ends :
    (rounds remaining : ℕ) (s : BitStream)
    → remaining < 16 * rounds
    → IsPacked s
    → Ends {A = ℕ × BitStream}
        (λ r. (r.0 < 16) × (r.0 ≤ remaining) × Written 0 (remaining - r.0) s r.1)
        (λ x. ⊥)
        (unary_loop rounds remaining s)
unfolding unary_loop
unary_loop-Ends zero remaining s lt h = absurd (omega arith)
unary_loop-Ends (suc rounds) remaining s lt h =
    Ends-if {A = ℕ × BitStream}
      (λ r. (r.0 < 16) × (r.0 ≤ remaining) × Written 0 (remaining - r.0) s r.1) (λ x. ⊥)
      (leb 16 remaining) _ _
      (λ many.
        let one = pad-Written 16 s (omega arith) h in
        let le : 16 ≤ remaining = ground (arith, many) in
        Ends-map {A = ℕ × BitStream}
          (λ r.
            (r.0 < 16) × (r.0 ≤ remaining - 16) × Written 0 (remaining - 16 - r.0) (pad 16 s) r.1)
          (λ r. (r.0 < 16) × (r.0 ≤ remaining) × Written 0 (remaining - r.0) s r.1) (λ x. ⊥)
          (unary_loop rounds (remaining - 16) (pad 16 s))
          (λ r a. (
            a.0,
            omega (arith, a.1),
            Written-subst _ _ 0 (remaining - r.0) s r.1 (omega arith) (omega (arith, a.1, le))
                (Written-Written 0 16 0 (remaining - 16 - r.0) s (pad 16 s) r.1 one a.2),
          ))
          (unary_loop-Ends rounds (remaining - 16) (pad 16 s) (omega (arith, le)) one.packed))
      λ few. (
        ground (arith, few),
        omega arith,
        record { packed = h; value = omega arith; bits = omega arith },
      )

-- A number is written as that many zeros and a one.
pub write_unary-Ends :
    (value : ℕ) (s : BitStream)
    → IsPacked s
    → Ends (Written (2 ^ value) (value + 1) s) (λ x. ⊥) (write_unary value s)
unfolding write_unary
write_unary-Ends value s h =
    Ends-throw_if (Written (2 ^ value) (value + 1) s) (λ x. ⊥) (ltb 31 s.bufbits) out_of_range _
      (λ e. absurd (ground (arith, e, h.room)))
      λ e.
        Ends-bind {A = ℕ × BitStream}
          (λ r. (r.0 < 16) × (r.0 ≤ value) × Written 0 (value - r.0) s r.1)
          (Written (2 ^ value) (value + 1) s) (λ x. ⊥) (unary_loop (value / 16 + 1) value s) _
          (unary_loop-Ends (value / 16 + 1) value s (omega arith) h)
          λ r _ a.
            Ends-throw_if (Written (2 ^ value) (value + 1) s) (λ x. ⊥) (ltb 15 r.0) out_of_range _
              (λ e'. absurd (ground (arith, e', a.0)))
              λ e'.
                let fits : 2 ^ r.0 < 2 ^ (r.0 + 1) =
                  omega (arith, two-pow-add r.0 1, one-le-pow r.0 2 (omega arith)) in
                let last =
                  append-Written (2 ^ r.0) (r.0 + 1) r.1 fits (omega (arith, a.0)) a.2.packed in
                let sum : value ≡ value - r.0 + r.0 = omega (arith, a.1) in
                let whole : 2 ^ value ≡ 2 ^ (value - r.0) * 2 ^ r.0 =
                  ap (λ (t : ℕ). 2 ^ t) sum ∙ two-pow-add (value - r.0) r.0 in
                Written-subst _ _ (2 ^ value) (value + 1) s _ (omega (arith, whole))
                  (omega (arith, a.1))
                  (Written-Written 0 (value - r.0) (2 ^ r.0) (r.0 + 1) s r.1 _ a.2 last)

-- The zeros at the lower end of `n` digits.
unfoldable pub zeros : ℕ → ℕ → ℕ
zeros zero b = 0
zeros (suc n) b = let rest = zeros n (b / 2) in if b % 2 == 0 then 1 + rest else 0

unfoldable zeros_agree : ℕ → Bool
zeros_agree zero = true
zeros_agree (suc n) = (entry_at byte_trailing_zeros_table n == zeros 8 n) && zeros_agree n

zeros_agree_lem :
    (n b : ℕ) → zeros_agree n ≡ true → b < n → entry_at byte_trailing_zeros_table b ≡ zeros 8 b
unfolding zeros_agree
zeros_agree_lem zero b h lt = absurd (omega arith)
zeros_agree_lem (suc n) b h lt =
    let (here, more) =
      both_true (entry_at byte_trailing_zeros_table n == zeros 8 n) (zeros_agree n) h in
    elim (ℕ_discrete b n) [
      | yes e ↦
          subst (λ c. entry_at byte_trailing_zeros_table c ≡ zeros 8 c) (sym e)
            (ground (arith, here))
      | no ne ↦ zeros_agree_lem n b more (omega arith)
    ]

pub table_zeros : (b : ℕ) → b < 256 → entry_at byte_trailing_zeros_table b ≡ zeros 8 b
unfolding zeros_agree zeros
table_zeros b lt = zeros_agree_lem 256 b refl lt

pub zeros_one : (v n x : ℕ) → v < n → x % 2 ^ suc v ≡ 2 ^ v → zeros n x ≡ v
unfolding zeros
zeros_one v zero x lt e = absurd (omega arith)
zeros_one zero (suc n) x lt e = ground (arith, mod_step x 0)
zeros_one (suc v) (suc n) x lt e =
    let step = mod_step x (suc v) in
    let twice = two-pow-succ v in
    let half : x / 2 % 2 ^ suc v ≡ 2 ^ v = omega (arith, step, twice, e) in
    ground (arith, step, twice, e, zeros_one v n (x / 2) (omega arith) half)

pub zeros_all : (n x : ℕ) → x % 2 ^ n ≡ 0 → zeros n x ≡ n
unfolding zeros
zeros_all zero x e = refl
zeros_all (suc n) x e =
    let step = mod_step x n in ground (arith, step, e, zeros_all n (x / 2) (omega (arith, step, e)))
