-- ===== src/Str/Texts.antt =====
-- The copying and comparing functions of src/stdlib/string.c on texts in memory.
pub mod Copies
pub mod Compare
use asym.Base.{
  ℕ, zero, suc, ◌+◌, ◌-◌, ◌%◌, ◌^◌, ◌≡◌, ◌≢◌, Bool, not, ◌&&◌, Option, none, some, List, [], ◌∷◌,
  ◌==◌, if◌then◌else◌,
}
use asym.Str.Memory.{Memory, store8}

-- The characters of the list stand from `p` on, then a NUL.
abbrev pub Text : Memory → ℕ → List ℕ → Type 0
Text m p [] = m p ≡ 0
Text m p (c ∷ cs) = (m p ≡ c) × (c ≢ 0) × Text m (p + 1) cs

-- `while ((*dest++ = *src++))`, with `fuel` rounds
unfoldable pub strcpy : ℕ → Memory → ℕ → ℕ → Option Memory
strcpy zero m dest src = none
strcpy (suc fuel) m dest src =
    let m' = store8 m dest (m src) in
    let rest = strcpy fuel m' (dest + 1) (src + 1) in if m src == 0 then some m' else rest

-- The second loop of strncpy.
unfoldable pub fill_nul : ℕ → Memory → ℕ → Memory
fill_nul zero m dest = m
fill_nul (suc zero) m dest = m
fill_nul (suc (suc count)) m dest = fill_nul (suc count) (store8 m dest 0) (dest + 1)

unfoldable pub strncpy : Memory → ℕ → ℕ → ℕ → Memory
strncpy m dest src zero = m
strncpy m dest src (suc count) =
    let m' = store8 m dest (m src) in
    let rest = strncpy m' (dest + 1) (src + 1) count in
    if m src == 0 then fill_nul (suc count) m' (dest + 1) else rest

-- `while (*++dest)`
unfoldable pub next_nul : ℕ → Memory → ℕ → Option ℕ
next_nul zero m dest = none
next_nul (suc fuel) m dest =
    let rest = next_nul fuel m (dest + 1) in if m (dest + 1) == 0 then some (dest + 1) else rest

abbrev copy_at : ℕ → Memory → Option ℕ → ℕ → Option Memory
copy_at fuel m none src = none
copy_at fuel m (some dest) src = strcpy fuel m dest src

unfoldable pub strcat : ℕ → Memory → ℕ → ℕ → Option Memory
strcat fuel m dest src =
    if not (m dest == 0) then copy_at fuel m (next_nul fuel m dest) src else strcpy fuel m dest src

-- the difference of two characters as an `int`
abbrev pub difference : ℕ → ℕ → ℕ
difference x y = (x + 2 ^ 32 - y) % 2 ^ 32

unfoldable pub strcmp : ℕ → Memory → ℕ → ℕ → Option ℕ
strcmp zero m a b = none
strcmp (suc fuel) m a b =
    let rest = strcmp fuel m (a + 1) (b + 1) in
    if not (m a == 0) && (m a == m b) then rest else some (difference (m a) (m b))

unfoldable pub memcmp : Memory → ℕ → ℕ → ℕ → ℕ
memcmp m a b zero = 0
memcmp m a b (suc count) =
    let rest = memcmp m (a + 1) (b + 1) count in
    if not (m a == m b) then difference (m a) (m b) else rest
