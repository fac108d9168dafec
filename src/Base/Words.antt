-- ===== src/Base/Words.antt =====
-- 64-bit words as native numbers; the wrap-around is written out.
use Prim.Native.Nat.{ℕ, ◌+◌, ◌-◌, ◌*◌, ◌/◌, ◌%◌, ◌^◌}

abbrev pub word : ℕ
word = 2 ^ 64

-- `ERR` of include/stdlib/_AUX/ERR.h is `UINT64_MAX`
abbrev pub uint64_max : ℕ
uint64_max = 2 ^ 64 - 1

abbrev pub add64 : ℕ → ℕ → ℕ
add64 a b = (a + b) % word

abbrev pub sub64 : ℕ → ℕ → ℕ
sub64 a b = (a + word - b % word) % word

abbrev pub mul64 : ℕ → ℕ → ℕ
mul64 a b = (a * b) % word

-- ROUND_UP and ROUND_DOWN of include/stdlib/sys/math.h
abbrev pub round_up : ℕ → ℕ → ℕ
round_up number multiple = mul64 (sub64 (add64 number multiple) 1 / multiple) multiple

abbrev pub round_down : ℕ → ℕ → ℕ
round_down number multiple = mul64 (number / multiple) multiple
