-- ===== src/Vfs/Names/Walk.antt =====
-- The loop over the names of a path, by name_first and name_next of src/kernel/vfs.h.
use asym.Base.{
  ℕ, zero, suc, ◌<◌, ◌≡◌, refl, ap₂, ◌∙◌, false, List, [], ◌∷◌, ◌++◌, Option, none, some, arith,
  ◌==◌, length,
}
use asym.Str.Strings.{strchr}
use asym.Vfs.Names.{name_first, name_next, name_separator}
use asym.Vfs.Names.Compare.{name_of, Without, name_of-whole, name_of-front}

-- the names joined by '/'
abbrev pub joined : List (List ℕ) → List ℕ
joined [] = []
joined (n ∷ []) = n
joined (n ∷ m ∷ ns) = n ++ name_separator ∷ joined (m ∷ ns)

-- `for (name = ...; name != NULL; name = name_next(name))`, for `n` rounds at most
abbrev pub walk : ℕ → Option (List ℕ) → List (List ℕ)
walk n none = []
walk zero (some p) = []
walk (suc n) (some p) = name_of name_separator p ∷ walk n (name_next p)

-- Each name has a character, and none is '/'.
abbrev pub AllNames : List (List ℕ) → Type 0
AllNames [] = Unit
AllNames (n ∷ ns) = (0 < length n) × Without name_separator n × AllNames ns

pub strchr-none : (n : List ℕ) → Without name_separator n → strchr n name_separator ≡ none
unfolding strchr
strchr-none [] w = refl
strchr-none (c ∷ cs) w = ground (arith, strchr-none cs w.1)

pub strchr-front :
    (n rest : List ℕ)
    → Without name_separator n
    → strchr (n ++ name_separator ∷ rest) name_separator ≡ some (name_separator ∷ rest)
unfolding strchr
strchr-front [] rest w = refl
strchr-front (c ∷ cs) rest w = ground (arith, strchr-front cs rest w.1)

walk-joined :
    (n : List ℕ) (ns : List (List ℕ))
    → AllNames (n ∷ ns)
    → walk (length (n ∷ ns)) (some (joined (n ∷ ns))) ≡ n ∷ ns
walk-joined n [] a = ap₂ ◌∷◌ (name_of-whole name_separator n a.1) last
  where
    last : walk 0 (name_next n) ≡ []
    last = unfold name_next in rw (strchr-none n a.1) refl
walk-joined n (m ∷ ns) a =
    ap₂ ◌∷◌ (name_of-front name_separator n (joined (m ∷ ns)) a.1) (next ∙ walk-joined m ns a.2)
  where
    next :
        walk (length (m ∷ ns)) (name_next (n ++ name_separator ∷ joined (m ∷ ns)))
        ≡ walk (length (m ∷ ns)) (some (joined (m ∷ ns)))
    next = unfold name_next in rw (strchr-front n (joined (m ∷ ns)) a.1) refl

-- The loop over the names of a path that was joined from names by '/', with a '/' in front or
-- without, visits exactly those names, in their order, and ends.
pub walk-path :
    (n : List ℕ) (ns : List (List ℕ))
    → AllNames (n ∷ ns)
    → (walk (length (n ∷ ns)) (name_first (name_separator ∷ joined (n ∷ ns))) ≡ n ∷ ns)
      × (walk (length (n ∷ ns)) (name_first (joined (n ∷ ns))) ≡ n ∷ ns)
unfolding name_first
walk-path [] ns a = absurd (omega (arith, a.0))
walk-path (c ∷ cs) [] a =
    let not_separator : (c == name_separator) ≡ false = ground (arith, a.1.0) in
    (walk-joined (c ∷ cs) [] a, rw not_separator (walk-joined (c ∷ cs) [] a))
walk-path (c ∷ cs) (m ∷ ns) a =
    let not_separator : (c == name_separator) ≡ false = ground (arith, a.1.0) in
    (walk-joined (c ∷ cs) (m ∷ ns) a, rw not_separator (walk-joined (c ∷ cs) (m ∷ ns) a))
