-- ===== src/Base/Cyclic.antt =====
-- Walking forward round a table of `n` slots.
use Prim.Native.Nat.{ℕ, ◌+◌, ◌-◌, ◌%◌, ◌<◌}
use mathlib.Core.Path.{◌≡◌}
use mathlib.Core.Logic.{◌⊎◌, inl, inr}
use native.Mathlib.Omega.{arith}
use native.Mathlib.Nat.{mod-eq_of_lt, mod_self}
use native.Mathlib.Decide.{ℕ_discrete}
use whylogs_datasketches.Base.Tests.{leb, if◌then◌else◌}

-- `(i + 1) & mask`
abbrev pub next : ℕ → ℕ → ℕ
next n i = (i + 1) % n

-- How many steps forward lead from `a` to `b`.
abbrev pub dist : ℕ → ℕ → ℕ → ℕ
dist n a b = if leb a b then b - a else b + n - a

pub next-cases :
    (n i : ℕ) → i < n → ((i + 1 < n) × (next n i ≡ i + 1)) ⊎ ((i + 1 ≡ n) × (next n i ≡ 0))
next-cases n i h = elim (ℕ_discrete (i + 1) n) [
  | yes e ↦ inr (e, rw (e, mod_self))
  | no ne ↦ inl (omega arith, mod-eq_of_lt (omega arith))
]

pub next-lt : (n i : ℕ) → i < n → next n i < n
next-lt n i h = omega arith
