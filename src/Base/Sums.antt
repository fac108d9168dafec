-- ===== src/Base/Sums.antt =====
-- Sums over the numbers below a bound.
use asym.Base.{ℕ, zero, suc, ◌+◌, ◌≤◌, ◌<◌, ◌≡◌, ◌≢◌, refl, arith}
use native.Mathlib.Decide.{dec_lt}

-- `f 0 + ... + f (n - 1)`
abbrev pub sum_below : ℕ → (ℕ → ℕ) → ℕ
sum_below zero f = 0
sum_below (suc n) f = sum_below n f + f n

pub sum_below-ext :
    (n : ℕ) (f g : ℕ → ℕ) → ((i : ℕ) → i < n → f i ≡ g i) → sum_below n f ≡ sum_below n g
sum_below-ext zero f g h = refl
sum_below-ext (suc n) f g h =
    omega (arith, sum_below-ext n f g (λ i l. h i (omega arith)), h n (omega arith))

pub sum_below-change :
    (n i : ℕ) (f g : ℕ → ℕ)
    → i < n
    → ((j : ℕ) → j ≢ i → g j ≡ f j)
    → sum_below n g + f i ≡ sum_below n f + g i
sum_below-change zero i f g h same = elim h [ ]
sum_below-change (suc n) i f g h same = elim (dec_lt i n) [
  | yes p ↦ omega (arith, sum_below-change n i f g p same, same n (omega arith))
  | no p ↦
      let e : i ≡ n = omega arith in
      rw e (omega (arith, sum_below-ext n g f (λ j l. same j (omega arith))))
]

pub le-sum_below : (n i : ℕ) (f : ℕ → ℕ) → i < n → f i ≤ sum_below n f
le-sum_below zero i f h = elim h [ ]
le-sum_below (suc n) i f h = elim (dec_lt i n) [
  | yes p ↦ omega (arith, le-sum_below n i f p)
  | no p ↦ let e : i ≡ n = omega arith in rw e (omega arith)
]
