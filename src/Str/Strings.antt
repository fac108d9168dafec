-- ===== src/Str/Strings.antt =====
-- The searching and comparing functions of src/stdlib/string.c on strings. A `char*` is the list of the
-- characters from where it points to the terminating NUL, so that a pointer into a string is a suffix.
use asym.Base.{ℕ, zero, suc, ◌+◌, List, [], ◌∷◌, Option, none, some, ◌==◌, if◌then◌else◌}

-- `*str`
abbrev pub head_of : List ℕ → ℕ
head_of [] = 0
head_of (c ∷ cs) = c

abbrev pub tail_of : List ℕ → List ℕ
tail_of [] = []
tail_of (c ∷ cs) = cs

-- `str + i`, within the string
abbrev pub from : ℕ → List ℕ → List ℕ
from zero s = s
from (suc i) s = from i (tail_of s)

unfoldable pub strlen : List ℕ → ℕ
strlen [] = 0
strlen (c ∷ cs) = suc (strlen cs)

unfoldable pub strnlen : List ℕ → ℕ → ℕ
strnlen s zero = 0
strnlen [] (suc max) = 0
strnlen (c ∷ cs) (suc max) = suc (strnlen cs max)

unfoldable pub strchr : List ℕ → ℕ → Option (List ℕ)
strchr [] ch = if 0 == ch then some [] else none
strchr (c ∷ cs) ch = let later = strchr cs ch in if c == ch then some (c ∷ cs) else later

-- The second loop of `strrchr`, which looks at `str[i - 1]` down to `str[0]`.
unfoldable pub back_from : List ℕ → ℕ → ℕ → Option (List ℕ)
back_from s ch zero = none
back_from s ch (suc i) =
    let before = back_from s ch i in if head_of (from i s) == ch then some (from i s) else before

-- The first loop leaves `i` one past the NUL.
unfoldable pub strrchr : List ℕ → ℕ → Option (List ℕ)
strrchr s ch = back_from s ch (strlen s + 1)
