-- ===== src/Vfs/Canonical.antt =====
-- vfs_make_canonical of src/kernel/vfs.c. The buffer from `start` to `out` is the list of its
-- characters, `*out` first; `start` is at the ':' behind the label, the last of the list.
pub mod Stack
pub mod Resolve
use asym.Base.{
  ℕ, zero, suc, ◌+◌, ◌-◌, Bool, true, false, not, ◌&&◌, ◌||◌, List, [], ◌∷◌, Option, none, some,
  ◌==◌, leb, if◌then◌else◌, length,
}
use asym.Str.Strings.{tail_of}
use asym.Vfs.Names.{name_separator, max_path, is_empty, name_next, name_compare}

-- the text "_-. ()[]{}~!@#$%^&',;=+"
abbrev pub signs : List ℕ
signs =
    95 ∷ 45 ∷ 46 ∷ 32 ∷ 40 ∷ 41 ∷ 91 ∷ 93 ∷ 123 ∷ 125 ∷ 126 ∷ 33 ∷ 64 ∷ 35 ∷ 36 ∷ 37 ∷ 94 ∷ 38 ∷ 39
    ∷ 44 ∷ 59 ∷ 61 ∷ 43 ∷ []

abbrev pub is_sign : ℕ → List ℕ → Bool
is_sign c [] = false
is_sign c (s ∷ ss) = c == s || is_sign c ss

-- VFS_VALID_CHAR of a character that is not NUL
unfoldable pub valid_char : ℕ → Bool
valid_char c =
    leb 48 c && leb c 57 || (leb 65 c && leb c 90 || (leb 97 c && leb c 122 || is_sign c signs))

abbrev pub dot : List ℕ
dot = 46 ∷ []

abbrev pub dot_dot : List ℕ
dot_dot = 46 ∷ 46 ∷ []

-- The loop over the characters of a name; `out - start` is one less than the length.
unfoldable pub put_name : List ℕ → List ℕ → Option (List ℕ)
put_name out [] = some out
put_name out (c ∷ cs) =
    let more = put_name (c ∷ out) cs in
    if c == name_separator
    then some out
    else if not (valid_char c) || leb (max_path - 2) (length out - 1)
    then none
    else more

-- The loop of "..", which goes back to a '/' and fails at `start`.
unfoldable pub back_to_separator : List ℕ → Option (List ℕ)
back_to_separator [] = none
back_to_separator (c ∷ below) =
    let further = back_to_separator below in
    if c == name_separator then some (c ∷ below) else if is_empty below then none else further

abbrev pub closed : Option (List ℕ) → Option (List ℕ)
closed none = none
closed (some out) = some (name_separator ∷ out)

-- One round: the name that `name` begins with.
unfoldable pub put_round : List ℕ → List ℕ → Option (List ℕ)
put_round out name =
    if name_compare name dot
    then some out
    else if name_compare name dot_dot
    then back_to_separator (tail_of out)
    else closed (put_name out name)

-- How the call ends: with the buffer, with ERR, or not within the fuel.
pub data Canonical : Type 0 where
  made : List ℕ → Canonical
  failed out_of_fuel : Canonical

-- a '/' at the end becomes the NUL
abbrev pub trimmed : List ℕ → List ℕ
trimmed [] = []
trimmed (c ∷ out) = if c == name_separator then out else c ∷ out

unfoldable pub vfs_make_canonical : ℕ → List ℕ → List ℕ → Canonical
vfs_make_canonical zero out name = out_of_fuel
vfs_make_canonical (suc fuel) out name = elim (put_round out name) [
  | none ↦ failed
  | some left ↦ elim (name_next name) [
    | none ↦ made (trimmed left)
    | some next ↦
        let later = vfs_make_canonical fuel left next in
        if is_empty next then made (trimmed left) else later
  ]
]
