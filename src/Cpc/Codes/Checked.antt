-- ===== src/Cpc/Codes/Checked.antt =====
-- A list of table entries whose check succeeds is a complete prefix code.
use whylogs_datasketches.Base.{
  ℕ, zero, suc, ◌+◌, ◌/◌, ◌%◌, ◌^◌, ◌≤◌, ◌<◌, ◌≡◌, refl, sym, ap, ◌∙◌, subst, arith, Bool, true,
  false, ◌&&◌, ◌==◌, Bool-cases, ◌⊎◌, inl, inr, Option, none, some, List, [], ◌∷◌, length,
}
use whylogs_datasketches.Cpc.Codes.{code_val, code_len, IsPrefixCode, IsComplete}
use whylogs_datasketches.Cpc.Codes.Trie.{
  Trie, empty, leaf, node, insert, walk, is_full, is_entry, build, full, and_then, is_complete_code,
  entry_at,
}
use whylogs_datasketches.Cpc.Codes.Complete.{
  IfSome, IfSome-map, Inserted, insert-Inserted, pick_true, pick_false, walk_low, walk_high,
  none-some, some_inj, true-false,
}

IfSome-then :
    (P P' : Trie → Type 0) (o : Option Trie) (next : Trie → Option Trie)
    → ((t : Trie) → P t → IfSome P' (next t))
    → IfSome P o
    → IfSome P' (and_then o next)
IfSome-then P P' none next f h = tt
IfSome-then P P' (some t) next f h = f t h

abbrev Starts : ℕ → ℕ → Type 0
Starts e x = x % 2 ^ code_len e ≡ code_val e

-- `t'` is `t` with the code words of the entries, for the bytes from `i` on.
record Built (entries : List ℕ) (i : ℕ) (t t' : Trie) : Type 0 where
  found : (k x : ℕ) → k < length entries → Starts (entry_at entries k) x → walk t' x ≡ some (i + k)
  kept : (x c : ℕ) → walk t x ≡ some c → walk t' x ≡ some c
  only :
      (x c : ℕ)
      → walk t' x ≡ some c
      → (walk t x ≡ some c)
        ⊎ ((k : ℕ) × (k < length entries) × (c ≡ i + k) × Starts (entry_at entries k) x)
  valid : (k : ℕ) → k < length entries → is_entry (entry_at entries k) ≡ true

module _ (e : ℕ) (rest : List ℕ) (i : ℕ) (t t₁ t₂ : Trie)
    (new : Inserted (code_len e) (code_val e) i t t₁) (more : Built rest (i + 1) t₁ t₂) where
  built_found :
      (k x : ℕ)
      → k < length (e ∷ rest)
      → Starts (entry_at (e ∷ rest) k) x
      → walk t₂ x ≡ some (i + k)
  built_found zero x lt s = more.kept x (i + 0) (new.found x s ∙ ap some (omega arith))
  built_found (suc k) x lt s = more.found k x (omega arith) s ∙ ap some (omega arith)

  built_valid :
      is_entry e ≡ true → (k : ℕ) → k < length (e ∷ rest) → is_entry (entry_at (e ∷ rest) k) ≡ true
  built_valid v zero lt = v
  built_valid v (suc k) lt = more.valid k (omega arith)

  Built-cons : is_entry e ≡ true → Built (e ∷ rest) i t t₂
  Built-cons v = record {
    found = built_found;
    kept = λ x c w. more.kept x c (new.kept x c w);
    only = λ x c w. elim (more.only x c w) [
      | inl old ↦ elim (new.only x c old) [
        | inl older ↦ inl older
        | inr here ↦ inr (0, omega arith, omega (arith, here.0), here.1)
      ]
      | inr (k, lt, at, s) ↦ inr (suc k, omega arith, omega (arith, at), s)
    ];
    valid = built_valid v;
  }

entry_fits :
    (e : ℕ)
    → is_entry e ≡ true
    → (1 ≤ code_len e) × (code_len e ≤ 12) × (code_val e < 2 ^ code_len e)
entry_fits e h = ground (arith, h)

build-Built : (entries : List ℕ) (i : ℕ) (t : Trie) → IfSome (Built entries i t) (build entries i t)
unfolding build
build-Built [] i t = record {
  found = λ k x lt s. absurd (omega arith);
  kept = λ x c w. w;
  only = λ x c w. inl w;
  valid = λ k lt. absurd (omega arith);
}
build-Built (e ∷ rest) i t = elim (Bool-cases (is_entry e)) [
  | inl v ↦
      subst (IfSome (Built (e ∷ rest) i t))
        (sym (
          pick_true (is_entry e)
            (and_then (insert (code_len e) (code_val e) i t) (build rest (i + 1))) none v))
        (IfSome-then (Inserted (code_len e) (code_val e) i t) _
          (insert (code_len e) (code_val e) i t) (build rest (i + 1))
          (λ t₁ new.
            IfSome-map (Built rest (i + 1) t₁) _ (build rest (i + 1) t₁)
              (λ t₂ more. Built-cons e rest i t t₁ t₂ new more v) (build-Built rest (i + 1) t₁))
          (insert-Inserted (code_len e) (code_val e) i t (entry_fits e v).2))
  | inr v ↦
      subst (IfSome (Built (e ∷ rest) i t))
        (sym (
          pick_false (is_entry e)
            (and_then (insert (code_len e) (code_val e) i t) (build rest (i + 1))) none v))
        tt
]

pub both_true : (a b : Bool) → (a && b) ≡ true → (a ≡ true) × (b ≡ true)
both_true true b h = (refl, h)
both_true false b h = absurd (true-false (sym h))

is_full-walk : (t : Trie) (x : ℕ) → is_full t ≡ true → (c : ℕ) × (walk t x ≡ some c)
unfolding is_full walk
is_full-walk empty x h = absurd (true-false (sym h))
is_full-walk (leaf b) x h = (b, refl)
is_full-walk (node l r) x h =
    let (hl, hr) = both_true (is_full l) (is_full r) h in
    elim (Bool-cases (x % 2 == 0)) [
      | inl low ↦ let (c, w) = is_full-walk l (x / 2) hl in (c, walk_low l r x low ∙ w)
      | inr low ↦ let (c, w) = is_full-walk r (x / 2) hr in (c, walk_high l r x low ∙ w)
    ]

full_code :
    (entries : List ℕ) (o : Option Trie)
    → IfSome (Built entries 0 empty) o
    → full o ≡ true
    → IsPrefixCode (length entries) (entry_at entries)
      × IsComplete (length entries) (entry_at entries)
unfolding walk
full_code entries none h f = absurd (true-false (sym f))
full_code entries (some t) h f = (
  record {
    some_bits = λ b lt. (entry_fits (entry_at entries b) (h.valid b lt)).0;
    few_bits = λ b lt. (entry_fits (entry_at entries b) (h.valid b lt)).1;
    fits = λ b lt. (entry_fits (entry_at entries b) (h.valid b lt)).2;
    free =
        λ b c x bl cl sb sc. omega (arith, some_inj (sym (h.found b x bl sb) ∙ h.found c x cl sc));
  },
  λ x.
      let (c, w) = is_full-walk t x f in
      elim (h.only x c w) [ inl old ↦ absurd (none-some old) | inr (k, lt, at, s) ↦ (k, lt, s) ],
)

-- A list of entries that passes the check is a complete prefix code.
pub is_complete_code_lem :
    (entries : List ℕ)
    → is_complete_code entries ≡ true
    → IsPrefixCode (length entries) (entry_at entries)
      × IsComplete (length entries) (entry_at entries)
unfolding is_complete_code
is_complete_code_lem entries h =
    full_code entries (build entries 0 empty) (build-Built entries 0 empty) h
