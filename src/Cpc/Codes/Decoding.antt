-- ===== src/Cpc/Codes/Decoding.antt =====
-- The decoding table of a prefix code, as make_decoding_table of
-- cpc/include/cpc_compressor_impl.hpp builds it.
use native.Mathlib.Decide.{ℕ_discrete}
use native.Mathlib.Nat.{
  mod-eq_of_lt, mul-le-mul_left, one-le-pow, div-lt_iff_lt-mul, div-add-mod, add-mul-mod_self_right,
}
use whylogs_datasketches.Base.{
  ℕ, zero, suc, ◌≢◌, ◌+◌, ◌-◌, ◌*◌, ◌/◌, ◌%◌, ◌^◌, ◌≤◌, ◌<◌, ◌≡◌, refl, sym, ap, ◌∙◌, subst, arith,
  bit_or, ltb, ◌==◌, ==_ne, true, eq_of_Ends, ok, undefined, Ends, Ends-throw_if, Ends-bind, ◌>>=◌,
}
use whylogs_datasketches.Cpc.Bits.{two-pow-add, bit_or_disjoint, bit_or_disjoint_left}
use whylogs_datasketches.Cpc.Codes.{
  code_val, code_len, copies_loop, decoding_entry, table_loop, make_decoding_table, validate_loop,
  validate_decoding_table, StartsWith, IsPrefixCode, IsComplete,
}

pub ==_eq : (a b : ℕ) → a ≡ b → (a == b) ≡ true
==_eq a b e = ground arith

copies_keep :
    (rounds g val len entry : ℕ) (table : ℕ → ℕ) (x : ℕ)
    → table x ≡ entry
    → copies_loop rounds g val len entry table x ≡ entry
unfolding copies_loop
copies_keep zero g val len entry table x h = h
copies_keep (suc rounds) g val len entry table x h =
    copies_keep rounds (g + 1) val len entry _ x (ground (arith, h))

pub twelve_bits : (len : ℕ) → len ≤ 12 → 2 ^ 12 ≡ 2 ^ (12 - len) * 2 ^ len
twelve_bits len few =
    let sum : 12 ≡ 12 - len + len = omega arith in
    ap (λ (t : ℕ). 2 ^ t) sum ∙ two-pow-add (12 - len) len

-- The place of a copy.
copy_place :
    (g val len : ℕ)
    → len ≤ 12
    → val < 2 ^ len
    → g < 2 ^ (12 - len)
    → bit_or val (g * 2 ^ len % 2 ^ 32) % 2 ^ 16 % 2 ^ 12 ≡ val + g * 2 ^ len
copy_place g val len few fits lt =
    let split : 2 ^ 12 ≡ 2 ^ (12 - len) * 2 ^ len = twelve_bits len few in
    let next : g + 1 ≤ 2 ^ (12 - len) = omega arith in
    let below : (g + 1) * 2 ^ len ≤ 2 ^ (12 - len) * 2 ^ len =
      omega (arith, mul-le-mul_left (2 ^ len) next) in
    let whole : g * 2 ^ len % 2 ^ 32 ≡ g * 2 ^ len =
      mod-eq_of_lt (omega (arith, split, below, fits)) in
    let both : bit_or val (g * 2 ^ len % 2 ^ 32) ≡ val + g * 2 ^ len =
      ap (bit_or val) whole ∙ bit_or_disjoint val len g fits in
    omega (arith, both, split, below, fits)

copies_hit :
    (rounds g val len entry : ℕ) (table : ℕ → ℕ) (j : ℕ)
    → len ≤ 12
    → val < 2 ^ len
    → g + rounds ≤ 2 ^ (12 - len)
    → g ≤ j
    → j < g + rounds
    → copies_loop rounds g val len entry table (val + j * 2 ^ len) ≡ entry
unfolding copies_loop
copies_hit zero g val len entry table j few fits room le lt = absurd (omega arith)
copies_hit (suc rounds) g val len entry table j few fits room le lt = elim (ℕ_discrete j g) [
  | yes e ↦
      let place = copy_place g val len few fits (omega arith) in
      let at : val + j * 2 ^ len ≡ bit_or val (g * 2 ^ len % 2 ^ 32) % 2 ^ 16 % 2 ^ 12 =
        ap (λ (t : ℕ). val + t * 2 ^ len) e ∙ sym place in
      copies_keep rounds (g + 1) val len entry _ (val + j * 2 ^ len) (ground (arith, at))
  | no ne ↦
      copies_hit rounds (g + 1) val len entry _ j few fits (omega arith) (omega arith) (omega arith)
]

copies_other :
    (rounds g val len entry : ℕ) (table : ℕ → ℕ) (x : ℕ)
    → len ≤ 12
    → val < 2 ^ len
    → g + rounds ≤ 2 ^ (12 - len)
    → x % 2 ^ len ≢ val
    → copies_loop rounds g val len entry table x ≡ table x
unfolding copies_loop
copies_other zero g val len entry table x few fits room ne = refl
copies_other (suc rounds) g val len entry table x few fits room ne =
    let place = copy_place g val len few fits (omega arith) in
    let same : (val + g * 2 ^ len) % 2 ^ len ≡ val =
      add-mul-mod_self_right val g (2 ^ len) ∙ mod-eq_of_lt fits in
    let away : x ≢ bit_or val (g * 2 ^ len % 2 ^ 32) % 2 ^ 16 % 2 ^ 12 =
      λ e. ne (ap (λ t. t % 2 ^ len) (e ∙ place) ∙ same) in
    copies_other rounds (g + 1) val len entry _ x few fits (omega arith) ne
    ∙ ground (arith, ==_ne x (bit_or val (g * 2 ^ len % 2 ^ 32) % 2 ^ 16 % 2 ^ 12) away)

-- What the table says of the bytes below `n`.
abbrev pub Decodes : ℕ → (ℕ → ℕ) → (ℕ → ℕ) → Type 0
Decodes n encoding_table table =
    (b x : ℕ)
    → b < n
    → x < 2 ^ 12
    → StartsWith encoding_table b x
    → table x ≡ code_len (encoding_table b) * 2 ^ 8 + b

entry_lem : (len b : ℕ) → len ≤ 12 → b < 256 → decoding_entry len b ≡ len * 2 ^ 8 + b
entry_lem len b few lt = omega (arith, bit_or_disjoint_left b 8 len lt)

copied_here :
    (num i : ℕ) (enc table : ℕ → ℕ) (x : ℕ)
    → num ≤ 256
    → i < num
    → IsPrefixCode num enc
    → x < 2 ^ 12
    → StartsWith enc i x
    → copies_loop
        (2 ^ (12 - code_len (enc i)))
        0
        (code_val (enc i))
        (code_len (enc i))
        (decoding_entry (code_len (enc i)) i)
        table
        x
      ≡ code_len (enc i) * 2 ^ 8 + i
copied_here num i enc table x small lt code xl starts =
    let len : ℕ = code_len (enc i) in
    let few = code.few_bits i lt in
    let at : x ≡ code_val (enc i) + x / 2 ^ len * 2 ^ len =
      omega (arith, div-add-mod x (2 ^ len), starts) in
    let below : x / 2 ^ len < 2 ^ (12 - len) =
      (div-lt_iff_lt-mul (one-le-pow len 2 (omega arith))).1
        (omega (arith, xl, twelve_bits len few)) in
    ap (copies_loop (2 ^ (12 - len)) 0 (code_val (enc i)) len (decoding_entry len i) table) at
    ∙ copies_hit (2 ^ (12 - len)) 0 (code_val (enc i)) len (decoding_entry len i) table
        (x / 2 ^ len) few (code.fits i lt) (omega arith) (omega arith) (omega (arith, below))
    ∙ entry_lem len i few (omega (arith, lt, small))

copied :
    (num i : ℕ) (enc table : ℕ → ℕ)
    → num ≤ 256
    → i < num
    → IsPrefixCode num enc
    → Decodes i enc table
    → Decodes (i + 1) enc (
        copies_loop
          (2 ^ (12 - code_len (enc i)))
          0
          (code_val (enc i))
          (code_len (enc i))
          (decoding_entry (code_len (enc i)) i)
          table)
copied num i enc table small lt code old b x bl xl starts = elim (ℕ_discrete b i) [
  | yes e ↦
      copied_here num i enc table x small lt code xl (subst (λ c. StartsWith enc c x) e starts)
      ∙ sym (ap (λ c. code_len (enc c) * 2 ^ 8 + c) e)
  | no ne ↦
      copies_other (2 ^ (12 - code_len (enc i))) 0 (code_val (enc i)) (code_len (enc i)) _ table x
        (code.few_bits i lt) (code.fits i lt) (omega arith)
        (λ s. ne (code.free b i x (omega arith) lt starts s))
      ∙ old b x (omega arith) xl starts
]

table_loop-Ends :
    (num rounds i : ℕ) (enc table : ℕ → ℕ)
    → i + rounds ≡ num
    → num ≤ 256
    → IsPrefixCode num enc
    → Decodes i enc table
    → Ends (Decodes num enc) (λ x. ⊥) (table_loop rounds i enc table)
unfolding table_loop
table_loop-Ends num zero i enc table all small code old = λ b x bl. old b x (omega arith)
table_loop-Ends num (suc rounds) i enc table all small code old =
    Ends-throw_if _ (λ x. ⊥) (ltb 12 (code_len (enc i))) undefined _
      (λ e. absurd (ground (arith, e, code.few_bits i)))
      λ e.
        table_loop-Ends num rounds (i + 1) enc _ (omega arith) small code
          (copied num i enc table small (omega arith) code old)

-- The decoding table of a prefix code of at most 256 bytes has, at any 12 bits that start with the code
-- word of a byte, that byte and the length of its code word; no shift is undefined.
pub make_decoding_table-Ends :
    (raw enc : ℕ → ℕ) (num : ℕ)
    → num ≤ 256
    → IsPrefixCode num enc
    → Ends (Decodes num enc) (λ x. ⊥) (make_decoding_table raw enc num)
unfolding make_decoding_table
make_decoding_table-Ends raw enc num small code =
    table_loop-Ends num num 0 enc raw (omega arith) small code (λ b x bl. absurd (omega arith))

validate_loop-Ends :
    (num rounds i : ℕ) (enc table : ℕ → ℕ)
    → i + rounds ≤ 4096
    → num ≤ 256
    → IsPrefixCode num enc
    → IsComplete num enc
    → Decodes num enc table
    → validate_loop rounds i table enc ≡ ok tt
unfolding validate_loop
validate_loop-Ends num zero i enc table room small code complete old = refl
validate_loop-Ends num (suc rounds) i enc table room small code complete old =
    let (b, lt, starts) = complete i in
    let at = old b i lt (omega arith) starts in
    let few = code.few_bits b lt in
    let byte : table i % 2 ^ 8 ≡ b = omega (arith, at, lt, small) in
    let len : table i / 2 ^ 8 ≡ code_len (enc b) = omega (arith, at, lt, small) in
    let info : enc (table i % 2 ^ 8) ≡ enc b = ap enc byte in
    let same_len : table i / 2 ^ 8 ≡ code_len (enc (table i % 2 ^ 8)) =
      len ∙ sym (ap code_len info) in
    let same_val : code_val (enc (table i % 2 ^ 8)) ≡ i % 2 ^ (table i / 2 ^ 8) =
      ap code_val info ∙ sym starts ∙ sym (ap (λ (t : ℕ). i % 2 ^ t) len) in
    simp (==_eq _ _ same_len) (
      simp (==_eq _ _ same_val)
        (validate_loop-Ends num rounds (i + 1) enc table (omega arith) small code complete old))

pub validate_table :
    (table enc : ℕ → ℕ) (num : ℕ)
    → num ≤ 256
    → IsPrefixCode num enc
    → IsComplete num enc
    → Decodes num enc table
    → validate_decoding_table table enc ≡ ok tt
unfolding validate_decoding_table
validate_table table enc num small code complete old =
    validate_loop-Ends num 4096 0 enc table (omega arith) small code complete old

-- The decoding table of a complete prefix code passes the validation.
pub validate_lem :
    (raw enc : ℕ → ℕ) (num : ℕ)
    → num ≤ 256
    → IsPrefixCode num enc
    → IsComplete num enc
    → (do table ← make_decoding_table raw enc num; validate_decoding_table table enc) ≡ ok tt
validate_lem raw enc num small code complete = eq_of_Ends _ tt (
    Ends-bind (Decodes num enc) (λ v. v ≡ tt) (λ x. ⊥) (make_decoding_table raw enc num) _
      (make_decoding_table-Ends raw enc num small code)
      λ table _ old.
        subst (Ends (λ v. v ≡ tt) (λ x. ⊥))
          (sym (validate_table table enc num small code complete old)) refl)
