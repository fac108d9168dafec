-- ===== src/Base/Fields.antt =====
-- `|` of a number whose low binary digits are 0 with a number of those digits.
use Prim.Native.Nat.{
  ℕ, zero, suc, ◌+◌, ◌*◌, ◌/◌, ◌^◌, ◌≤◌, ◌<◌, max, digits, bit_or, bit_or-bitwise,
}
use mathlib.Core.Path.{◌≡◌, refl, ap}
use native.Mathlib.Nat.{pow-suc, le_refl}
use native.Mathlib.Omega.{arith}

-- The recursion of `bit_or` on `n` digits, where `a` is a multiple of `2 ^ k` and `r` is below it.
digits-add : (n k q a r : ℕ) → a ≡ q * 2 ^ k → r < 2 ^ k → a ≤ n → digits (λ b. b) max n a r ≡ a + r
digits-add zero k q zero r e small few = omega arith
digits-add zero k q (suc a) r e small few = elim few [ ]
digits-add (suc n) k q zero r e small few = omega arith
digits-add (suc n) zero q (suc a) r e small few = omega (
  arith,
  digits-add n zero (suc a / 2) (suc a / 2) (r / 2) (omega arith) (omega arith) (omega arith),
)
digits-add (suc n) (suc k) q (suc a) r e small few =
    let half : suc a ≡ 2 * (q * 2 ^ k) = omega (arith, e, ap (λ (t : ℕ). q * t) (pow-suc 2 k)) in
    let rest =
      digits-add n k q (suc a / 2) (r / 2) (omega (arith, half)) (omega (arith, pow-suc 2 k))
        (omega arith) in
    omega (arith, half, rest)

pub bit_or-add : (k q r : ℕ) → r < 2 ^ k → bit_or (q * 2 ^ k) r ≡ q * 2 ^ k + r
bit_or-add k q r small =
    simp bit_or-bitwise (digits-add (q * 2 ^ k) k q (q * 2 ^ k) r refl small (le_refl _))
