-- ===== src/Cpc/Codes/Trie.antt =====
-- A check that a list of table entries is a complete prefix code: its code words form a binary tree
-- with a byte at each leaf.
use whylogs_datasketches.Base.{
  ℕ, zero, suc, ◌+◌, ◌/◌, ◌%◌, ◌^◌, Bool, true, false, ◌&&◌, ltb, leb, ◌==◌, Option, none, some,
  List, [], ◌∷◌,
}
use whylogs_datasketches.Cpc.Codes.{code_val, code_len}

pub data Trie : Type 0 where
  empty : Trie
  leaf : ℕ → Trie
  node : Trie → Trie → Trie

abbrev pub left_child : Option Trie → Trie → Option Trie
left_child none r = none
left_child (some l) r = some (node l r)

abbrev pub right_child : Trie → Option Trie → Option Trie
right_child l none = none
right_child l (some r) = some (node l r)

-- A code word of `len` bits goes to a place that no other one has.
unfoldable pub insert : ℕ → ℕ → ℕ → Trie → Option Trie
insert zero val b empty = some (leaf b)
insert zero val b (leaf c) = none
insert zero val b (node l r) = none
insert (suc len) val b empty = elim (val % 2 == 0) [
  | true ↦ left_child (insert len (val / 2) b empty) empty
  | false ↦ right_child empty (insert len (val / 2) b empty)
]
insert (suc len) val b (leaf c) = none
insert (suc len) val b (node l r) = elim (val % 2 == 0) [
  | true ↦ left_child (insert len (val / 2) b l) r
  | false ↦ right_child l (insert len (val / 2) b r)
]

-- The byte whose code word `x` starts with.
unfoldable pub walk : Trie → ℕ → Option ℕ
walk empty x = none
walk (leaf b) x = some b
walk (node l r) x = elim (x % 2 == 0) [ true ↦ walk l (x / 2) | false ↦ walk r (x / 2) ]

unfoldable pub is_full : Trie → Bool
is_full empty = false
is_full (leaf b) = true
is_full (node l r) = is_full l && is_full r

abbrev pub and_then : Option Trie → (Trie → Option Trie) → Option Trie
and_then none next = none
and_then (some t) next = next t

abbrev pub is_entry : ℕ → Bool
is_entry e = (ltb 0 (code_len e) && leb (code_len e) 12) && ltb (code_val e) (2 ^ code_len e)

-- The entries go in one after another, from the byte `b` on.
unfoldable pub build : List ℕ → ℕ → Trie → Option Trie
build [] b t = some t
build (e ∷ rest) b t = elim (is_entry e) [
  | true ↦ and_then (insert (code_len e) (code_val e) b t) (build rest (b + 1))
  | false ↦ none
]

abbrev pub full : Option Trie → Bool
full none = false
full (some t) = is_full t

unfoldable pub is_complete_code : List ℕ → Bool
is_complete_code entries = full (build entries 0 empty)

-- The entry of a byte; there is none behind the last one.
abbrev pub entry_at : List ℕ → ℕ → ℕ
entry_at [] b = 0
entry_at (e ∷ rest) zero = e
entry_at (e ∷ rest) (suc b) = entry_at rest b
