-- ===== src/Vfs/Parse/Labelled.antt =====
-- vfs_parse_path of src/kernel/vfs.c on paths that begin with a label or with a '/'.
use asym.Base.{
  ℕ, suc, ◌<◌, ◌≡◌, refl, sym, ap, ◌∙◌, true, false, List, [], ◌∷◌, ◌++◌, some, arith, ◌==◌,
  Bool-cases, ==_iff, inl, inr, length,
}
use asym.Str.Strings.{strchr}
use asym.Vfs.Names.{name_separator, label_separator, name_next, name_compare, max_path, is_empty}
use asym.Vfs.Names.Walk.{joined}
use asym.Vfs.Canonical.{
  valid_char, dot, dot_dot, put_name, put_round, Canonical, vfs_make_canonical,
}
use asym.Vfs.Canonical.Stack.{buffer, all_valid, compare_within-same}
use asym.Vfs.Canonical.Resolve.{AllProper, resolve, outcome, vfs_make_canonical_lem, not_empty}
use asym.Vfs.Parse.{absolute, scan_label, before_label_separator, vfs_parse_path}

-- The empty name in front of the first '/' leaves ':' and '/'.
put_round-first :
    (path : List ℕ) → put_round (label_separator ∷ []) (name_separator ∷ path) ≡ some (buffer [])
unfolding put_round name_compare put_name
put_round-first path =
    rw
      (
        compare_within-same max_path [] dot (some path) tt tt (omega arith) (omega arith)
            (omega arith),
        compare_within-same max_path [] dot_dot (some path) tt tt (omega arith) (omega arith)
            (omega arith),
      )
      refl

make_canonical-first :
    (fuel : ℕ) (path : List ℕ)
    → is_empty path ≡ false
    → vfs_make_canonical (suc fuel) (label_separator ∷ []) (name_separator ∷ path)
      ≡ vfs_make_canonical fuel (buffer []) path
unfolding vfs_make_canonical
make_canonical-first fuel path more = rw (put_round-first path, vfs_make_canonical, next, more) refl
  where
    next : name_next (name_separator ∷ path) ≡ some path
    next = unfold name_next strchr in refl

-- A character that is not allowed in a name differs from one that is.
valid-differs : (c d : ℕ) → valid_char d ≡ false → valid_char c ≡ true → (c == d) ≡ false
valid-differs c d refused allowed = elim (Bool-cases (c == d)) [
  | inl same ↦
      let c≡d : c ≡ d = (==_iff c d).0 same in
      absurd (ground (arith, sym allowed ∙ ap valid_char c≡d ∙ refused))
  | inr other ↦ other
]

scan_label-label :
    (label path : List ℕ)
    → all_valid label ≡ true
    → scan_label (label ++ label_separator ∷ name_separator ∷ path)
      ≡ absolute label (name_separator ∷ path)
unfolding scan_label
scan_label-label [] path ok = refl
scan_label-label (c ∷ cs) path ok =
    let allowed : valid_char c ≡ true = ground (arith, ok) in
    let later : all_valid cs ≡ true = ground (arith, ok) in
    rw
      (
        valid-differs c name_separator no_slash allowed,
        valid-differs c label_separator no_colon allowed,
        allowed,
        scan_label-label cs path later,
      )
      refl
  where
    no_slash : valid_char name_separator ≡ false
    no_slash = unfold valid_char in refl

    no_colon : valid_char label_separator ≡ false
    no_colon = unfold valid_char in refl

-- The path of a volume's label, ':' and names joined by '/' after a '/' is parsed into that label and
-- the names, resolved from the volume's root; the same names after a '/' alone are resolved from the
-- root of the volume that `cwd` names. Both end in one round more than there are names.
pub vfs_parse_path_lem :
    (cwd label n : List ℕ) (ns : List (List ℕ))
    → 0 < length label
    → all_valid label ≡ true
    → AllProper (n ∷ ns)
    → (let names = name_separator ∷ joined (n ∷ ns) in
        let fuel = suc (length (n ∷ ns)) in
        let resolved = outcome (resolve [] (n ∷ ns)) in
        (vfs_parse_path fuel cwd (label ++ label_separator ∷ names)
          ≡ record { label = label; rest = resolved })
        × (vfs_parse_path fuel cwd names
            ≡ record { label = before_label_separator cwd; rest = resolved }))
unfolding vfs_parse_path
vfs_parse_path_lem cwd [] n ns some_label ok p = absurd (omega arith)
vfs_parse_path_lem cwd (c ∷ cs) n ns some_label ok p = (
  rw
      (
        valid-differs c name_separator no_slash (ground (arith, ok)),
        scan_label-label (c ∷ cs) (joined (n ∷ ns)) ok,
      )
      (ap (λ (r : Canonical). record { label = c ∷ cs; rest = r }) from_root),
  ap (λ (r : Canonical). record { label = before_label_separator cwd; rest = r }) from_root,
)
  where
    no_slash : valid_char name_separator ≡ false
    no_slash = unfold valid_char in refl

    from_root :
        vfs_make_canonical
          (suc (length (n ∷ ns)))
          (label_separator ∷ [])
          (name_separator ∷ joined (n ∷ ns))
        ≡ outcome (resolve [] (n ∷ ns))
    from_root =
        make_canonical-first (length (n ∷ ns)) (joined (n ∷ ns)) (not_empty n ns p.0)
        ∙ vfs_make_canonical_lem [] n ns tt p
