-- ===== src/Vfs/Names.antt =====
-- Names and labels inside paths, src/kernel/vfs.h. A path is the list of its characters up to the NUL.
use asym.Base.{
  ℕ, zero, suc, ◌+◌, ◌-◌, Bool, true, false, not, ◌&&◌, ◌||◌, List, [], ◌∷◌, Option, none, some,
  ◌==◌, leb, if◌then◌else◌,
}
pub mod Compare
pub mod Walk
use asym.Str.Strings.{head_of, tail_of, strchr, strrchr}

-- VFS_NAME_SEPARATOR and VFS_LABEL_SEPARATOR
abbrev pub name_separator : ℕ
name_separator = 47

abbrev pub label_separator : ℕ
label_separator = 58

abbrev pub max_path : ℕ
max_path = 256

abbrev pub max_name : ℕ
max_name = 32

-- VFS_END_OF_NAME and VFS_END_OF_LABEL at the character that a pointer points to, by the separator
abbrev pub at_end : ℕ → List ℕ → Bool
at_end separator s = head_of s == separator || head_of s == 0

abbrev pub end_of_name : List ℕ → Bool
end_of_name s = at_end name_separator s

abbrev pub is_empty : List ℕ → Bool
is_empty [] = true
is_empty (c ∷ cs) = false

unfoldable pub name_first : List ℕ → Option (List ℕ)
name_first [] = none
name_first (c ∷ cs) =
    if c == name_separator then (if is_empty cs then none else some cs) else some (c ∷ cs)

abbrev pub past : Option (List ℕ) → Option (List ℕ)
past none = none
past (some base) = some (tail_of base)

unfoldable pub name_next : List ℕ → Option (List ℕ)
name_next path = past (strchr path name_separator)

-- The loop of `name_length` with `n` rounds left.
unfoldable pub length_within : ℕ → List ℕ → ℕ
length_within zero s = 0
length_within (suc n) s =
    let more = length_within n (tail_of s) in if end_of_name s then 0 else suc more

unfoldable pub name_length : List ℕ → ℕ
name_length name = length_within (max_path - 1) name

-- The characters that the loop of `name_copy` leaves before the NUL, with `n` rounds left.
unfoldable pub copy_within : ℕ → List ℕ → List ℕ
copy_within zero s = []
copy_within (suc n) s =
    let more = copy_within n (tail_of s) in if end_of_name s then [] else head_of s ∷ more

unfoldable pub name_copy : List ℕ → List ℕ
name_copy src = copy_within (max_name - 1) src

-- The loop of `name_compare` and of `label_compare`, with `n` rounds left.
unfoldable pub compare_within : ℕ → ℕ → List ℕ → List ℕ → Bool
compare_within separator zero a b = false
compare_within separator (suc n) a b =
    let more = compare_within separator n (tail_of a) (tail_of b) in
    if at_end separator a
    then at_end separator b
    else if head_of a == head_of b
    then more
    else false

unfoldable pub name_compare : List ℕ → List ℕ → Bool
name_compare a b = compare_within name_separator max_path a b

unfoldable pub label_compare : List ℕ → List ℕ → Bool
label_compare a b = compare_within label_separator max_path a b

unfoldable pub dir_name_first : List ℕ → Option (List ℕ)
dir_name_first path =
    let p = if head_of path == name_separator then tail_of path else path in
    elim (strchr p name_separator) [ none ↦ none | some base ↦ some p ]

unfoldable pub dir_name_next : List ℕ → Option (List ℕ)
dir_name_next path = elim (strchr path name_separator) [
  | none ↦ none
  | some base ↦ elim (strchr (tail_of base) name_separator) [
    | none ↦ none
    | some later ↦ some (tail_of base)
  ]
]

unfoldable pub vfs_basename : List ℕ → List ℕ
vfs_basename path = elim (strrchr path name_separator) [ none ↦ path | some base ↦ tail_of base ]
