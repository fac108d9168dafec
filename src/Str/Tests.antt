-- ===== src/Str/Tests.antt =====
-- The theorems on src/stdlib/string.c at concrete calls.
use asym.Base.{
  ℕ, ◌+◌, ◌-◌, ◌≡◌, ◌≢◌, ◌↔◌, ◌%◌, ◌≤◌, ◌<◌, refl, arith, ◌==◌, ◌||◌, ◌&&◌, leb, ltb, if◌then◌else◌,
  Option, none, some, List, [], ◌∷◌, inl, inr,
}
use asym.Str.Memory.{Memory, IsBytes, copied, filled}
use asym.Str.Texts.{Text, strncpy, strcmp, strcat}
use asym.Str.Texts.Copies.{char_at, strncpy_lem, strcat_lem}
use asym.Str.Texts.Compare.{strcmp_lem}
use asym.Str.Digits.{value_of, digit_value, ulltoa_lem}
unfoldable use asym.Str.Digits.{ulltoa, count_digits, write_digits, digit_char}
use asym.Str.Copy.{memcpy, memmove, memset}
use asym.Str.Copy.Memcpy.{memcpy_lem}
use asym.Str.Copy.Memmove.{memmove_lem}
use asym.Str.Copy.Memset.{memset_lem}

-- each byte holds the low byte of its address
abbrev counting : Memory
counting a = a % 256

counting-IsBytes : IsBytes counting
counting-IsBytes = record { byte = λ a. omega arith }

memcpy_lem_example : memcpy counting 1003 2001 77 ≡ (copied counting 1003 2001 77, 1003)
memcpy_lem_example = memcpy_lem counting 1003 2001 77 counting-IsBytes (omega arith)

memmove_lem_example : memmove counting 1003 1001 77 ≡ (copied counting 1003 1001 77, 1003)
memmove_lem_example = memmove_lem counting 1003 1001 77 counting-IsBytes

memset_lem_example : memset counting 1003 0x12A 77 ≡ (filled counting 1003 (0x12A % 256) 77, 1003)
memset_lem_example = memset_lem counting 1003 0x12A 77

-- "abc" at 100, "abd" at 200, and 7 elsewhere
abbrev two_texts : Memory
two_texts a =
    if a == 100 || a == 200
    then 97
    else if a == 101 || a == 201
    then 98
    else if a == 102
    then 99
    else if a == 202
    then 100
    else if a == 103 || a == 203
    then 0
    else 7

two_texts-IsBytes : IsBytes two_texts
two_texts-IsBytes = record { byte = λ a. ground arith }

abc : Text two_texts 100 (97 ∷ 98 ∷ 99 ∷ [])
abc = ((refl, omega arith, (refl, omega arith, (refl, omega arith, refl))))

abd : Text two_texts 200 (97 ∷ 98 ∷ 100 ∷ [])
abd = ((refl, omega arith, (refl, omega arith, (refl, omega arith, refl))))

strncpy_lem_example : strncpy two_texts 300 100 8 305 ≡ (
    if leb 300 305 && ltb 305 (300 + 8)
    then char_at (97 ∷ 98 ∷ 99 ∷ []) (305 - 300)
    else two_texts 305)
strncpy_lem_example =
    strncpy_lem 8 (97 ∷ 98 ∷ 99 ∷ []) two_texts 300 100 305 abc (inr (omega arith))

strcmp_lem_example :
    (r : ℕ) × (strcmp 4 two_texts 100 200 ≡ some r)
    × ((r ≡ 0) ↔ (◌≡◌ {A = List ℕ} (97 ∷ 98 ∷ 99 ∷ []) (97 ∷ 98 ∷ 100 ∷ [])))
strcmp_lem_example =
    strcmp_lem (97 ∷ 98 ∷ 99 ∷ []) (97 ∷ 98 ∷ 100 ∷ []) two_texts 100 200 two_texts-IsBytes abc abd

strcat_lem_example :
    (m' : Memory) × (strcat 4 two_texts 100 200 ≡ some m')
    × Text m' 100 (97 ∷ 98 ∷ 99 ∷ 97 ∷ 98 ∷ 100 ∷ [])
strcat_lem_example =
    strcat_lem (97 ∷ 98 ∷ 99 ∷ []) (97 ∷ 98 ∷ 100 ∷ []) 4 two_texts 100 200 abc abd
      (inl (omega arith)) (omega arith) (omega arith)

ulltoa_lem_example :
    (m' : Memory) × (k : ℕ) × (ulltoa 64 counting 0xBEEF 1000 16 ≡ some m')
    × (value_of m' 16 1000 k ≡ 0xBEEF)
    × ((j : ℕ) → j < k → digit_value (m' (1000 + j)) < 16)
    × (1 ≤ k)
    × (◌≢◌ {A = ℕ} 0xBEEF 0 → digit_value (m' 1000) ≢ 0)
    × (m' (1000 + k) ≡ 0)
    × ((a : ℕ) → 1000 + k < a → m' a ≡ counting a)
    × ((a : ℕ) → a < 1000 → m' a ≡ counting a)
ulltoa_lem_example = ulltoa_lem 16 (omega arith) (omega arith) counting 0xBEEF 1000 (omega arith)

-- "BEEF"
abbrev first_char : Option Memory → ℕ
first_char none = 0
first_char (some m) = m 1000

beef : first_char (ulltoa 64 counting 0xBEEF 1000 16) ≡ 66
unfolding ulltoa count_digits write_digits digit_char
beef = refl
