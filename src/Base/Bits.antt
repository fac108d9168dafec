-- ===== src/Base/Bits.antt =====
-- Single bits of a byte: their laws, by a table over all bytes.
use Prim.Native.Nat.{ℕ, zero, suc, ◌-◌, ◌^◌, ◌<◌, bit_and, bit_or}
use mathlib.Core.Path.{◌≡◌, refl}
use mathlib.Core.Bool.{Bool, true, false, not, ◌&&◌, ◌||◌}
use native.Mathlib.Decide.{dec_lt}
use native.Mathlib.Omega.{arith}
use asym.Base.Tests.{ltb, ◌==◌}

-- A test passes at each number below a bound.
unfoldable pub every : (ℕ → Bool) → ℕ → Bool
every test zero = true
every test (suc bound) = every test bound && test bound

pub at_each : (test : ℕ → Bool) (bound i : ℕ) → i < bound → every test bound ≡ true → test i ≡ true
unfolding every
at_each test (suc bound) i below e = elim (dec_lt i bound) [
  | yes less ↦ at_each test bound i less (ground (arith, e))
  | no more ↦ let last : i ≡ bound = omega arith in rw last (ground (arith, e))
]
at_each test zero i below e = elim below [ ]

-- `b & (1 << k)`, `b | (1 << k)` and `b & ~(1 << k)`, for a byte `b`
unfoldable pub test_bit : ℕ → ℕ → Bool
test_bit b k = not (bit_and b (2 ^ k) == 0)

unfoldable pub set_bit : ℕ → ℕ → ℕ
set_bit b k = bit_or b (2 ^ k)

unfoldable pub clear_bit : ℕ → ℕ → ℕ
clear_bit b k = bit_and b (255 - 2 ^ k)

same : Bool → Bool → Bool
same true b = b
same false b = not b

same_sound : (a b : Bool) → same a b ≡ true → a ≡ b
unfolding same
same_sound true b h = ground arith
same_sound false b h = ground arith

-- The laws at a byte `b`, a bit `k` that changes and a bit `j` that is read, as tests.
law_read : ℕ → ℕ → ℕ → Bool
law_read b k j =
    same (test_bit (set_bit b k) j) (j == k || test_bit b j)
    && same (test_bit (clear_bit b k) j) (not (j == k) && test_bit b j)

law_change : ℕ → ℕ → Bool
law_change b k = ltb (set_bit b k) 256 && (ltb (clear_bit b k) 256 && every (λ j. law_read b k j) 8)

laws : ℕ → Bool
laws b = every (λ k. law_change b k) 8

table : every laws 256 ≡ true
unfolding every laws law_change law_read same test_bit set_bit clear_bit
table = refl

module _ (b k : ℕ) (hb : b < 256) (hk : k < 8) where
  at_k : law_change b k ≡ true
  unfolding laws
  at_k = at_each (λ k. law_change b k) 8 k hk (at_each laws 256 b hb table)

  pub set_bit-lt : set_bit b k < 256
  unfolding law_change
  set_bit-lt = ground (arith, at_k)

  pub clear_bit-lt : clear_bit b k < 256
  unfolding law_change
  clear_bit-lt = ground (arith, at_k)

  at_j : (j : ℕ) → j < 8 → law_read b k j ≡ true
  unfolding law_change
  at_j j hj = at_each (λ j. law_read b k j) 8 j hj (ground (arith, at_k))

  pub test_bit-set_bit : (j : ℕ) → j < 8 → test_bit (set_bit b k) j ≡ (j == k || test_bit b j)
  unfolding law_read
  test_bit-set_bit j hj = same_sound _ _ (ground (arith, at_j j hj))

  pub test_bit-clear_bit :
      (j : ℕ) → j < 8 → test_bit (clear_bit b k) j ≡ (not (j == k) && test_bit b j)
  unfolding law_read
  test_bit-clear_bit j hj = same_sound _ _ (ground (arith, at_j j hj))
