-- ===== src/Base/Loops.antt =====
-- `while (test) body` with a bound on its rounds, and the rule that bounds them by a measure.
use Prim.Native.Nat.{ℕ, zero, suc, ◌<◌}
use mathlib.Core.Path.{◌≡◌}
use mathlib.Core.Logic.{inl, inr}
use mathlib.Core.Bool.{Bool, true, false}
use native.Mathlib.Omega.{arith}
use asym.Base.Tests.{Bool-cases}

module _ {ℓ} {S : Type ℓ} (test : S → Bool) (body : S → S) where
  unfoldable pub while : ℕ → S → S
  while zero s = s
  while (suc fuel) s = elim (test s) [ false ↦ s | true ↦ while fuel (body s) ]

  -- Where each round keeps `Inv` and lowers a measure that starts below the fuel, the loop is left by
  -- its test, with `Inv`.
  pub while_rule {κ} :
      (Inv : S → Type κ) (measure : S → ℕ) (fuel : ℕ) (s : S)
      → measure s < fuel
      → Inv s
      → ((u : S) → Inv u → test u ≡ true → Inv (body u) × (measure (body u) < measure u))
      → Inv (while fuel s) × (test (while fuel s) ≡ false)
  unfolding while
  while_rule Inv measure (suc fuel) s small inv round = elim (Bool-cases (test s)) [
    | inl more ↦
        let (kept, less) = round s inv more in
        rw (more, while) (while_rule Inv measure fuel (body s) (omega (arith, less)) kept round)
    | inr over ↦ rw (over, while) (inv, over)
  ]
  while_rule Inv measure zero s small inv round = elim small [ ]
