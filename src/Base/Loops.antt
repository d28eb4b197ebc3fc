-- ===== src/Base/Loops.antt =====
-- A `while` loop on fuel. `none` means that the fuel ran out before the test failed.
use Prim.Native.Nat.{ℕ, zero, suc, ◌<◌}
use mathlib.Core.Path.{◌≡◌, subst}
use mathlib.Core.Logic.{inl, inr}
use mathlib.Core.Bool.{Bool, true, false}
use mathlib.Core.Option.{Option, none, some}
use native.Mathlib.Omega.{arith}
use sourcemud.Base.Tests.{Bool-cases}

module _ {ℓ} {State : Type ℓ} where
  unfoldable pub loop : ℕ → (State → Bool) → (State → State) → State → Option State
  loop zero going round s = none
  loop (suc left) going round s = elim (going s) [
    | true ↦ loop left going round (round s)
    | false ↦ some s
  ]

  -- The run `o` of a loop ended, at a state that keeps the invariant and fails the going.
  abbrev pub Ends {κ} : (State → Type κ) → (State → Bool) → Option State → Type (ℓ ⊔ κ)
  Ends Inv going o = (r : State) × (o ≡ some r) × Inv r × (going r ≡ false)

module _ {ℓ} {State : Type ℓ} where
  -- A loop whose rank is below its left ends.
  pub loop-Ends {κ} :
      (Inv : State → Type κ) (rank : State → ℕ) (going : State → Bool) (round : State → State)
      → ((s : State) → Inv s → going s ≡ true → Inv (round s) × (rank (round s) < rank s))
      → (left : ℕ) (s : State) → rank s < left
      → Inv s
      → Ends Inv going (loop left going round s)
  unfolding loop
  loop-Ends Inv rank going round steady zero s m h = absurd (omega arith)
  loop-Ends Inv rank going round steady (suc left) s m h = elim (Bool-cases (going s)) [
    | inl go ↦
        let (h', less) = steady s h go in
        rw (go, loop) (loop-Ends Inv rank going round steady left (round s) (omega arith) h')
    | inr stop ↦ (s, rw (stop, loop), h, stop)
  ]

  -- A loop whose going fails at once changes nothing.
  pub loop_idle :
      (going : State → Bool) (round : State → State) (left : ℕ) (s : State)
      → going s ≡ false
      → loop (suc left) going round s ≡ some s
  unfolding loop
  loop_idle going round left s stop = rw (stop, loop)

  -- What the round keeps holds where the loop ends.
  pub loop-Keeps {κ} :
      (Inv : State → Type κ) (going : State → Bool) (round : State → State)
      → ((s : State) → Inv s → going s ≡ true → Inv (round s))
      → (left : ℕ) (s : State) {r : State} → Inv s
      → loop left going round s ≡ some r
      → Inv r × (going r ≡ false)
  unfolding loop
  loop-Keeps Inv going round steady zero s h e = cc
  loop-Keeps Inv going round steady (suc left) s {r} h e = elim (Bool-cases (going s)) [
    | inl go ↦ loop-Keeps Inv going round steady left (round s) (steady s h go) (rw (go, loop) at e)
    | inr stop ↦
        let ended : some s ≡ some r = rw (stop, loop) at e in
        let same : s ≡ r = cc in (subst Inv same h, subst (λ x. going x ≡ false) same stop)
  ]
