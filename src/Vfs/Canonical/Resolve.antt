-- ===== src/Vfs/Canonical/Resolve.antt =====
-- vfs_make_canonical of src/kernel/vfs.c over all names of a path.
use asym.Base.{
  ℕ, ◌<◌, ◌≡◌, refl, sym, ap, ◌∙◌, false, List, [], ◌∷◌, ◌++◌, Option, none, some, arith,
  Option-cases, append-nil, inl, inr, length,
}
use asym.Vfs.Names.{name_separator, name_next, is_empty}
use asym.Vfs.Names.Compare.{Without, NoNul}
use asym.Vfs.Names.Walk.{joined, strchr-none, strchr-front}
use asym.Vfs.Canonical.{put_round, Canonical, made, failed, trimmed, vfs_make_canonical}
use asym.Vfs.Canonical.Stack.{
  buffer, resolve_one, as_buffer, AllWithout, put_round_lem, resolve_one-AllWithout,
}

-- all names of a path, from the first
unfoldable pub resolve : List (List ℕ) → List (List ℕ) → Option (List (List ℕ))
resolve stack [] = some stack
resolve stack (n ∷ ns) = elim (resolve_one stack n) [ none ↦ none | some next ↦ resolve next ns ]

abbrev pub outcome : Option (List (List ℕ)) → Canonical
outcome none = failed
outcome (some stack) = made (trimmed (buffer stack))

-- names of the path: not empty, without '/' and NUL
abbrev pub AllProper : List (List ℕ) → Type 0
AllProper [] = Unit
AllProper (n ∷ ns) = (0 < length n) × Without name_separator n × NoNul n × AllProper ns

pub not_empty :
    (m : List ℕ) (ms : List (List ℕ)) → 0 < length m → is_empty (joined (m ∷ ms)) ≡ false
not_empty [] ms h = absurd (omega (arith, h))
not_empty (c ∷ cs) [] h = refl
not_empty (c ∷ cs) (n ∷ ns) h = refl

-- On a buffer that holds a stack of names and a path of names joined by '/', `vfs_make_canonical` ends
-- in one round for each name. It fails exactly where a ".." finds the stack empty, a character is not
-- allowed, or a name does not fit; else the buffer holds the names that are left when "." is skipped
-- and ".." takes a name away.
pub vfs_make_canonical_lem :
    (stack : List (List ℕ)) (n : List ℕ) (ns : List (List ℕ))
    → AllWithout stack
    → AllProper (n ∷ ns)
    → vfs_make_canonical (length (n ∷ ns)) (buffer stack) (joined (n ∷ ns))
      ≡ outcome (resolve stack (n ∷ ns))
unfolding vfs_make_canonical name_next resolve
vfs_make_canonical_lem stack n [] ws p = elim (Option-cases (resolve_one stack n)) [
  | inl e ↦ rw (round ∙ ap as_buffer e, vfs_make_canonical, e, resolve) refl
  | inr (next, e) ↦
      rw (round ∙ ap as_buffer e, vfs_make_canonical, e, resolve, strchr-none n p.1) refl
]
  where
    round : put_round (buffer stack) n ≡ as_buffer (resolve_one stack n)
    round =
        ap (put_round (buffer stack)) (sym (append-nil n)) ∙ put_round_lem stack n none ws p.1 p.2
vfs_make_canonical_lem stack n (m ∷ ms) ws p = elim (Option-cases (resolve_one stack n)) [
  | inl e ↦ rw (round ∙ ap as_buffer e, vfs_make_canonical, e, resolve) refl
  | inr (next, e) ↦
      let later =
        vfs_make_canonical_lem next m ms (resolve_one-AllWithout stack n next ws p.1 e) p.3 in
      rw
        (
          round ∙ ap as_buffer e,
          vfs_make_canonical,
          e,
          resolve,
          strchr-front n (joined (m ∷ ms)) p.1,
          joined-is_empty,
        )
        later
]
  where
    round :
        put_round (buffer stack) (n ++ name_separator ∷ joined (m ∷ ms))
        ≡ as_buffer (resolve_one stack n)
    round = put_round_lem stack n (some (joined (m ∷ ms))) ws p.1 p.2

    joined-is_empty : is_empty (joined (m ∷ ms)) ≡ false
    joined-is_empty = not_empty m ms p.3.0
