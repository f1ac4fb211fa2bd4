-- ===== src/Cpc/Codes/Complete.antt =====
-- The check of a list of table entries tells that it is a complete prefix code.
use whylogs_datasketches.Base.{
  ℕ, zero, suc, ◌/◌, ◌%◌, ◌^◌, ◌<◌, ◌≡◌, refl, sym, ap, ◌∙◌, subst, arith, Bool, true, false, ◌==◌,
  Bool-cases, ◌⊎◌, inl, inr, Option, none, some,
}
use native.Mathlib.Nat.{two-pow-succ, mod-one}
use whylogs_datasketches.Cpc.Bits.{mod_step}
use whylogs_datasketches.Cpc.Codes.Trie.{
  Trie, empty, leaf, node, left_child, right_child, insert, walk,
}

abbrev pub IfSome : (Trie → Type 0) → Option Trie → Type 0
IfSome P none = Unit
IfSome P (some t) = P t

IfSome-left :
    (P P' : Trie → Type 0) (o : Option Trie) (r : Trie)
    → ((l : Trie) → P l → P' (node l r))
    → IfSome P o
    → IfSome P' (left_child o r)
IfSome-left P P' none r f h = tt
IfSome-left P P' (some l) r f h = f l h

IfSome-right :
    (P P' : Trie → Type 0) (l : Trie) (o : Option Trie)
    → ((r : Trie) → P r → P' (node l r))
    → IfSome P o
    → IfSome P' (right_child l o)
IfSome-right P P' l none f h = tt
IfSome-right P P' l (some r) f h = f r h

pub true-false : true ≡ false → ⊥
true-false e = subst (λ c. elim c [ true ↦ Unit {0} | false ↦ ⊥ ]) e tt

pub none-some : {b : ℕ} → none ≡ some b → ⊥
none-some e = subst (λ o. elim o [ none ↦ Unit {0} | some x ↦ ⊥ ]) e tt

pub pick_true : {A : Type 0} (c : Bool) (a b : A) → c ≡ true → elim c [ true ↦ a | false ↦ b ] ≡ a
pick_true true a b e = refl
pick_true false a b e = absurd (true-false (sym e))

pub pick_false : {A : Type 0} (c : Bool) (a b : A) → c ≡ false → elim c [ true ↦ a | false ↦ b ] ≡ b
pick_false true a b e = absurd (true-false e)
pick_false false a b e = refl

pub walk_low : (l r : Trie) (x : ℕ) → (x % 2 == 0) ≡ true → walk (node l r) x ≡ walk l (x / 2)
unfolding walk
walk_low l r x e = pick_true (x % 2 == 0) (walk l (x / 2)) (walk r (x / 2)) e

pub walk_high : (l r : Trie) (x : ℕ) → (x % 2 == 0) ≡ false → walk (node l r) x ≡ walk r (x / 2)
unfolding walk
walk_high l r x e = pick_false (x % 2 == 0) (walk l (x / 2)) (walk r (x / 2)) e

-- `t'` is `t` with one more code word.
pub record Inserted (len val b : ℕ) (t t' : Trie) : Type 0 where
  pub found : (x : ℕ) → x % 2 ^ len ≡ val → walk t' x ≡ some b
  pub kept : (x c : ℕ) → walk t x ≡ some c → walk t' x ≡ some c
  pub only : (x c : ℕ) → walk t' x ≡ some c → (walk t x ≡ some c) ⊎ ((c ≡ b) × (x % 2 ^ len ≡ val))

pub some_inj : {a b : ℕ} → some a ≡ some b → a ≡ b
some_inj {a = a} e = ap (λ o. elim o [ none ↦ a | some x ↦ x ]) e

Inserted-left :
    (len val b : ℕ) (l r l' : Trie)
    → (val % 2 == 0) ≡ true
    → Inserted len (val / 2) b l l'
    → Inserted (suc len) val b (node l r) (node l' r)
unfolding walk
Inserted-left len val b l r l' even h = record {
  found = λ x e.
      let step = mod_step x len in
      let low : (x % 2 == 0) ≡ true = ground (arith, even) in
      walk_low l' r x low ∙ h.found (x / 2) (omega (arith, step, e));
  kept = λ x c w. elim (Bool-cases (x % 2 == 0)) [
    | inl low ↦ walk_low l' r x low ∙ h.kept (x / 2) c (sym (walk_low l r x low) ∙ w)
    | inr low ↦ walk_high l' r x low ∙ sym (walk_high l r x low) ∙ w
  ];
  only = λ x c w. elim (Bool-cases (x % 2 == 0)) [
    | inl low ↦ elim (h.only (x / 2) c (sym (walk_low l' r x low) ∙ w)) [
      | inl same ↦ inl (walk_low l r x low ∙ same)
      | inr new ↦ inr (new.0, ground (arith, mod_step x len, new.1, even, low))
    ]
    | inr low ↦ inl (walk_high l r x low ∙ sym (walk_high l' r x low) ∙ w)
  ];
}

Inserted-right :
    (len val b : ℕ) (l r r' : Trie)
    → (val % 2 == 0) ≡ false
    → Inserted len (val / 2) b r r'
    → Inserted (suc len) val b (node l r) (node l r')
unfolding walk
Inserted-right len val b l r r' odd h = record {
  found = λ x e.
      let step = mod_step x len in
      let low : (x % 2 == 0) ≡ false = ground (arith, odd) in
      walk_high l r' x low ∙ h.found (x / 2) (omega (arith, step, e));
  kept = λ x c w. elim (Bool-cases (x % 2 == 0)) [
    | inl low ↦ walk_low l r' x low ∙ sym (walk_low l r x low) ∙ w
    | inr low ↦ walk_high l r' x low ∙ h.kept (x / 2) c (sym (walk_high l r x low) ∙ w)
  ];
  only = λ x c w. elim (Bool-cases (x % 2 == 0)) [
    | inl low ↦ inl (walk_low l r x low ∙ sym (walk_low l r' x low) ∙ w)
    | inr low ↦ elim (h.only (x / 2) c (sym (walk_high l r' x low) ∙ w)) [
      | inl same ↦ inl (walk_high l r x low ∙ same)
      | inr new ↦ inr (new.0, ground (arith, mod_step x len, new.1, odd, low))
    ]
  ];
}

-- An empty tree is as good as a node of two.
Inserted-empty :
    (len val b : ℕ) (t' : Trie)
    → Inserted len val b (node empty empty) t'
    → Inserted len val b empty t'
unfolding walk
Inserted-empty len val b t' h = record {
  found = h.found;
  kept = λ x c w. absurd (none-some w);
  only = λ x c w. elim (h.only x c w) [
    | inl old ↦ elim (Bool-cases (x % 2 == 0)) [
      | inl low ↦ absurd (none-some (sym (walk_low empty empty x low) ∙ old))
      | inr low ↦ absurd (none-some (sym (walk_high empty empty x low) ∙ old))
    ]
    | inr new ↦ inr new
  ];
}

pub IfSome-map :
    (P P' : Trie → Type 0) (o : Option Trie) → ((t : Trie) → P t → P' t) → IfSome P o → IfSome P' o
IfSome-map P P' none f h = tt
IfSome-map P P' (some t) f h = f t h

pub insert-Inserted :
    (len val b : ℕ) (t : Trie) → val < 2 ^ len → IfSome (Inserted len val b t) (insert len val b t)
unfolding insert walk
insert-Inserted zero val b empty fits = record {
  found = λ x e. refl;
  kept = λ x c w. absurd (none-some w);
  only = λ x c w. inr (sym (some_inj w), omega (arith, mod-one x));
}
insert-Inserted zero val b (leaf c) fits = tt
insert-Inserted zero val b (node l r) fits = tt
insert-Inserted (suc len) val b empty fits =
    let half : val / 2 < 2 ^ len = omega (arith, two-pow-succ len) in
    elim (Bool-cases (val % 2 == 0)) [
      | inl even ↦ subst (IfSome _) (sym (pick_true _ _ _ even)) (
          IfSome-left (Inserted len (val / 2) b empty) _ (insert len (val / 2) b empty) empty
            (λ l h.
              Inserted-empty (suc len) val b (node l empty)
                (Inserted-left len val b empty empty l even h))
            (insert-Inserted len (val / 2) b empty half))
      | inr odd ↦ subst (IfSome _) (sym (pick_false _ _ _ odd)) (
          IfSome-right (Inserted len (val / 2) b empty) _ empty (insert len (val / 2) b empty)
            (λ r h.
              Inserted-empty (suc len) val b (node empty r)
                (Inserted-right len val b empty empty r odd h))
            (insert-Inserted len (val / 2) b empty half))
    ]
insert-Inserted (suc len) val b (leaf c) fits = tt
insert-Inserted (suc len) val b (node l r) fits =
    let half : val / 2 < 2 ^ len = omega (arith, two-pow-succ len) in
    elim (Bool-cases (val % 2 == 0)) [
      | inl even ↦ subst (IfSome _) (sym (pick_true _ _ _ even)) (
          IfSome-left (Inserted len (val / 2) b l) _ (insert len (val / 2) b l) r
            (λ l' h. Inserted-left len val b l r l' even h)
            (insert-Inserted len (val / 2) b l half))
      | inr odd ↦ subst (IfSome _) (sym (pick_false _ _ _ odd)) (
          IfSome-right (Inserted len (val / 2) b r) _ l (insert len (val / 2) b r)
            (λ r' h. Inserted-right len val b l r r' odd h)
            (insert-Inserted len (val / 2) b r half))
    ]
