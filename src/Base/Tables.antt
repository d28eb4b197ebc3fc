-- ===== src/Base/Tables.antt =====
-- Facts about a small range, from a test of every number in it.
use Prim.Native.Nat.{ℕ, zero, suc, ◌<◌}
use mathlib.Core.Bool.{Bool, true, false}
use mathlib.Core.Logic.{inl, inr}
use mathlib.Core.Path.{◌≡◌}
use native.Mathlib.Omega.{arith}
use sourcemud.Base.Tests.{◌==◌, if◌then◌else◌, Bool-cases}

-- A test of all numbers under a bound, and what it tells of one of them.
unfoldable pub table : (ℕ → Bool) → ℕ → Bool
table holds zero = true
table holds (suc bound) = if holds bound then table holds bound else false

pub table-entry :
    (holds : ℕ → Bool) {bound : ℕ} (k : ℕ) → table holds bound ≡ true → k < bound → holds k ≡ true
unfolding table
table-entry holds {bound = zero} k full less = absurd (omega arith)
table-entry holds {bound = suc bound} k full less = elim (Bool-cases (k == bound)) [
  | inl last ↦ ground arith
  | inr before ↦ table-entry holds {bound = bound} k (ground arith) (ground arith)
]
