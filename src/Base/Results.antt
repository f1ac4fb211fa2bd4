-- ===== src/Base/Results.antt =====
-- The results of code that throws.
use mathlib.Core.Path.{◌≡◌, refl, ap, subst}
use mathlib.Core.Bool.{Bool, true, false}
use whylogs_datasketches.Base.Tests.{if◌then◌else◌}

-- `logic_error` and `invalid_argument` are the exceptions of the C++ standard library.
-- `drift_limit_reached` is the logic_error whose message says that the drift limit is reached.
-- `undefined` marks a read of an object that was not constructed, `diverges` a loop that its
-- bound on rounds does not cover.
pub data Exception : Type 0 where
  logic_error drift_limit_reached invalid_argument out_of_range undefined diverges : Exception

pub data Outcome {ℓ} (A : Type ℓ) : Type ℓ where
  throws : Exception → Outcome A
  ok : A → Outcome A

-- An exception skips what follows.
infixl 5 ◌>>=◌ ◌>>◌
abbrev pub ◌>>=◌ {ℓ κ} : {A : Type ℓ} {B : Type κ} → Outcome A → (A → Outcome B) → Outcome B
throws x >>= next = throws x
ok value >>= next = next value

abbrev pub ◌>>◌ {ℓ} : {B : Type ℓ} → Outcome (Unit {0}) → Outcome B → Outcome B
first >> second = first >>= λ done. second

-- `if (test) throw e`
abbrev pub throw_if : Bool → Exception → Outcome (Unit {0})
throw_if true e = throws e
throw_if false e = ok tt

-- Every outcome is described: a value meets `P`, and an exception meets `Q`.
abbrev pub Ends {ℓ κ} : {A : Type ℓ} → (A → Type κ) → (Exception → Type κ) → Outcome A → Type κ
Ends P Q (ok a) = P a
Ends P Q (throws e) = Q e

pub Ends-bind {ℓ κ μ} :
    {A : Type ℓ} {B : Type μ} (P : A → Type κ) (P' : B → Type κ) (Q : Exception → Type κ)
    (m : Outcome A) (f : A → Outcome B)
    → Ends P Q m
    → ((a : A) → m ≡ ok a → P a → Ends P' Q (f a))
    → Ends P' Q (m >>= f)
Ends-bind P P' Q (ok a) f h k = k a refl h
Ends-bind P P' Q (throws e) f h k = h

-- A branch of the code is a branch of the proof, which has the test as an equation.
pub Ends-if {ℓ κ} :
    {A : Type ℓ} (P : A → Type κ) (Q : Exception → Type κ) (b : Bool) (x y : Outcome A)
    → (b ≡ true → Ends P Q x)
    → (b ≡ false → Ends P Q y)
    → Ends P Q (if b then x else y)
Ends-if P Q true x y f g = f refl
Ends-if P Q false x y f g = g refl

pub Ends-map {ℓ κ} :
    {A : Type ℓ} (P P' : A → Type κ) (Q : Exception → Type κ) (r : Outcome A)
    → ((a : A) → P a → P' a)
    → Ends P Q r
    → Ends P' Q r
Ends-map P P' Q (ok a) f h = f a h
Ends-map P P' Q (throws e) f h = h

pub eq_of_Ends : {A : Type 0} (r : Outcome A) (x : A) → Ends (λ v. v ≡ x) (λ e. ⊥) r → r ≡ ok x
eq_of_Ends (ok a) x h = ap ok h
eq_of_Ends (throws e) x h = absurd h

-- Code that does not throw meets any description of its exceptions.
pub Ends-no_error {ℓ} :
    {A : Type ℓ} (P : A → Type 0) (Q : Exception → Type 0) (r : Outcome A)
    → Ends P (λ e. ⊥) r
    → Ends P Q r
Ends-no_error P Q (ok a) h = h
Ends-no_error P Q (throws e) h = absurd h

pub Ends-weaken {ℓ κ} :
    {A : Type ℓ} (P : A → Type κ) (Q Q' : Exception → Type κ) (r : Outcome A)
    → ((e : Exception) → Q e → Q' e)
    → Ends P Q r
    → Ends P Q' r
Ends-weaken P Q Q' (ok a) f h = h
Ends-weaken P Q Q' (throws e) f h = f e h

pub Ends-throw_if {ℓ κ} :
    {A : Type ℓ} (P : A → Type κ) (Q : Exception → Type κ) (b : Bool) (e : Exception)
    (m : Outcome A)
    → (b ≡ true → Q e)
    → (b ≡ false → Ends P Q m)
    → Ends P Q (throw_if b e >> m)
Ends-throw_if P Q true e m f g = f refl
Ends-throw_if P Q false e m f g = g refl

-- What an outcome that is a value meets.
pub value_of_Ends {ℓ κ} :
    {A : Type ℓ} (P : A → Type κ) (Q : Exception → Type κ) (r : Outcome A) (a : A)
    → Ends P Q r
    → r ≡ ok a
    → P a
value_of_Ends P Q r a h e = subst (Ends P Q) e h
