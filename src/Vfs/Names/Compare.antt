-- ===== src/Vfs/Names/Compare.antt =====
-- name_compare and label_compare of src/kernel/vfs.h against the names that they compare.
use asym.Base.{
  ℕ, zero, suc, ◌≤◌, ◌<◌, ◌≡◌, ◌≢◌, refl, true, ◌↔◌, List, [], ◌∷◌, ◌++◌, arith, ◌==◌,
  if◌then◌else◌, length,
}
use asym.Vfs.Names.{
  at_end, compare_within, name_compare, label_compare, name_separator, label_separator, max_path,
}

-- no character is NUL
abbrev pub NoNul : List ℕ → Type 0
NoNul [] = Unit
NoNul (c ∷ cs) = (c ≢ 0) × NoNul cs

-- the characters before the first separator
abbrev pub name_of : ℕ → List ℕ → List ℕ
name_of separator [] = []
name_of separator (c ∷ cs) = if c == separator then [] else c ∷ name_of separator cs

abbrev pub Without : ℕ → List ℕ → Type 0
Without ch [] = Unit
Without ch (c ∷ cs) = (c ≢ ch) × Without ch cs

pub name_of-whole : (separator : ℕ) (n : List ℕ) → Without separator n → name_of separator n ≡ n
name_of-whole separator [] w = refl
name_of-whole separator (c ∷ cs) w = ground (arith, name_of-whole separator cs w.1)

pub name_of-front :
    (separator : ℕ) (n rest : List ℕ)
    → Without separator n
    → name_of separator (n ++ separator ∷ rest) ≡ n
name_of-front separator [] rest w = ground arith
name_of-front separator (c ∷ cs) rest w = ground (arith, name_of-front separator cs rest w.1)

module _ (separator : ℕ) (some_separator : separator ≢ 0) where
  at_end-name_of : (b : List ℕ) → NoNul b → (at_end separator b ≡ true) ↔ ([] ≡ name_of separator b)
  at_end-name_of [] n = (λ e. refl, λ e. ground arith)
  at_end-name_of (c ∷ cs) n = ground arith

  pub compare_within_lem :
      (n : ℕ) (a b : List ℕ)
      → NoNul a
      → NoNul b
      → length (name_of separator a) < n
      → (compare_within separator n a b ≡ true) ↔ (name_of separator a ≡ name_of separator b)
  unfolding compare_within
  compare_within_lem zero a b na nb h = absurd (omega arith)
  compare_within_lem (suc n) [] b na nb h = ground (arith, at_end-name_of b nb)
  compare_within_lem (suc n) (c ∷ cs) [] na nb h = ground arith
  compare_within_lem (suc n) (c ∷ cs) (d ∷ ds) na nb h =
      ground (arith, compare_within_lem n cs ds na.1 nb.1)

length-name_of : (separator : ℕ) (a : List ℕ) → length (name_of separator a) ≤ length a
length-name_of separator [] = omega arith
length-name_of separator (c ∷ cs) = ground (arith, length-name_of separator cs)

-- For strings without NUL, the first shorter than MAX_PATH, `name_compare` accepts exactly those
-- whose names up to the first '/' are the same, and `label_compare` those whose labels up to the first
-- ':' are; what follows plays no part.
pub compare_lem :
    (a b : List ℕ)
    → NoNul a
    → NoNul b
    → length a < max_path
    → ((name_compare a b ≡ true) ↔ (name_of name_separator a ≡ name_of name_separator b))
      × ((label_compare a b ≡ true) ↔ (name_of label_separator a ≡ name_of label_separator b))
unfolding name_compare label_compare
compare_lem a b na nb short = (
  compare_within_lem name_separator (omega arith) max_path a b na nb
      (omega (arith, length-name_of name_separator a)),
  compare_within_lem label_separator (omega arith) max_path a b na nb
      (omega (arith, length-name_of label_separator a)),
)
