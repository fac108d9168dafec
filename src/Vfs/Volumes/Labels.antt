-- ===== src/Vfs/Volumes/Labels.antt =====
-- Labels name volumes uniquely in src/kernel/vfs.c.
use asym.Base.{
  ℕ, suc, ◌<◌, ◌≡◌, refl, ap, subst₂, ◌↔◌, Bool, true, false, List, [], ◌∷◌, ◌++◌, some, arith, leb,
  if_cases, Bool-cases, inl, inr, length,
}
use asym.Base.Errors.{Result, value}
use asym.Str.Strings.{strlen}
use asym.Vfs.Names.{name_compare, label_compare, name_separator, label_separator, max_name}
use asym.Vfs.Names.Compare.{NoNul, Without, name_of-whole, name_of-front, compare_lem}
use asym.Vfs.Volumes.{Volume, is_taken, vfs_attach_simple, unmount_found, vfs_unmount, volume_get}

-- No volume of the list has the name of a volume before it.
abbrev pub NoneNamed : List ℕ → List Volume → Type 0
NoneNamed label [] = Unit
NoneNamed label (v ∷ vs) = (name_compare label v.label ≡ false) × NoneNamed label vs

abbrev pub NoTwins : List Volume → Type 0
NoTwins [] = Unit
NoTwins (v ∷ vs) = NoneNamed v.label vs × NoTwins vs

NoneNamed-append :
    (label : List ℕ) (vs : List Volume) (w : Volume)
    → NoneNamed label vs
    → name_compare label w.label ≡ false
    → NoneNamed label (vs ++ w ∷ [])
NoneNamed-append label [] w n e = (e, tt)
NoneNamed-append label (v ∷ vs) w n e = (n.0, NoneNamed-append label vs w n.1 e)

NoTwins-append :
    (vs : List Volume) (w : Volume)
    → NoTwins vs
    → is_taken vs w.label ≡ false
    → NoTwins (vs ++ w ∷ [])
unfolding is_taken
NoTwins-append [] w n e = (tt, tt)
NoTwins-append (v ∷ vs) w n e =
    let apart : name_compare v.label w.label ≡ false = ground (arith, e) in
    let later : is_taken vs w.label ≡ false = ground (arith, e) in
    (NoneNamed-append v.label vs w n.0 apart, NoTwins-append vs w n.1 later)

-- `vfs_attach_simple` adds no volume whose name compares equal to that of one in the list.
pub vfs_attach_simple-NoTwins :
    (vs : List Volume) (id : ℕ) (label : List ℕ) (removable : Bool)
    → NoTwins vs
    → NoTwins (vfs_attach_simple vs id label removable).0
unfolding vfs_attach_simple
vfs_attach_simple-NoTwins vs id label removable n =
    if_cases (λ (r : List Volume × Result). NoTwins r.0) (leb max_name (strlen label)) _ _ (λ e. n)
      (λ e.
        if_cases (λ (r : List Volume × Result). NoTwins r.0) (is_taken vs label) _ _ (λ e. n)
          (λ free. NoTwins-append vs _ n free))

NoneNamed-unmount :
    (label : List ℕ) (vs : List Volume) (name : List ℕ) (unmounts : ℕ → Bool)
    → NoneNamed label vs
    → NoneNamed label (vfs_unmount vs name unmounts).0
unfolding vfs_unmount unmount_found
NoneNamed-unmount label [] name unmounts n = tt
NoneNamed-unmount label (v ∷ vs) name unmounts n =
    ground (arith, NoneNamed-unmount label vs name unmounts n.1)

-- `vfs_unmount`, on every branch, leaves no two volumes of one name where there were none.
pub vfs_unmount-NoTwins :
    (vs : List Volume) (name : List ℕ) (unmounts : ℕ → Bool)
    → NoTwins vs
    → NoTwins (vfs_unmount vs name unmounts).0
unfolding vfs_unmount unmount_found
vfs_unmount-NoTwins [] name unmounts n = tt
vfs_unmount-NoTwins (v ∷ vs) name unmounts n = ground (
  arith,
  vfs_unmount-NoTwins vs name unmounts n.1,
  NoneNamed-unmount v.label vs name unmounts n.0,
)

-- a label without NUL and separators, shorter than MAX_NAME
pub record IsLabel (l : List ℕ) : Type 0 where
  pub no_nul : NoNul l
  pub no_name_end : Without name_separator l
  pub no_label_end : Without label_separator l
  pub short : length l < max_name

abbrev pub AllLabels : List Volume → Type 0
AllLabels [] = Unit
AllLabels (v ∷ vs) = IsLabel v.label × AllLabels vs

NoNul-append : (a b : List ℕ) → NoNul a → NoNul b → NoNul (a ++ b)
NoNul-append [] b na nb = nb
NoNul-append (c ∷ cs) b na nb = (na.0, NoNul-append cs b na.1 nb)

strlen-length : (s : List ℕ) → strlen s ≡ length s
unfolding strlen
strlen-length [] = refl
strlen-length (c ∷ cs) = ap suc (strlen-length cs)

module _ (label rest : List ℕ) (is : IsLabel label) (nr : NoNul rest) where
  abbrev path : List ℕ
  path = label ++ label_separator ∷ rest

  path-NoNul : NoNul path
  path-NoNul = NoNul-append label (label_separator ∷ rest) is.no_nul (omega arith, nr)

  -- A label that is compared with the path is the label in front of it.
  label_compare-same : (l : List ℕ) → IsLabel l → (label_compare l path ≡ true) ↔ (l ≡ label)
  label_compare-same l il =
      let c = (compare_lem l path il.no_nul path-NoNul (omega (arith, il.short))).1 in
      subst₂ (λ x y. (label_compare l path ≡ true) ↔ (x ≡ y))
        (name_of-whole label_separator l il.no_label_end)
        (name_of-front label_separator label rest is.no_label_end) c

  name_compare-same : (l : List ℕ) → IsLabel l → (name_compare l label ≡ true) ↔ (l ≡ label)
  name_compare-same l il =
      let c = (compare_lem l label il.no_nul is.no_nul (omega (arith, il.short))).0 in
      subst₂ (λ x y. (name_compare l label ≡ true) ↔ (x ≡ y))
        (name_of-whole name_separator l il.no_name_end)
        (name_of-whole name_separator label is.no_name_end) c

  get-append :
      (vs : List Volume) (id ref : ℕ) (removable : Bool)
      → AllLabels vs
      → is_taken vs label ≡ false
      → (volume_get
          (vs ++ record { id = id; label = label; removable = removable; ref = ref } ∷ [])
          path).1
        ≡ some id
  unfolding volume_get is_taken
  get-append [] id ref removable a free = rw ((label_compare-same label is).1 refl) refl
  get-append (v ∷ vs) id ref removable a free =
      let apart : name_compare v.label label ≡ false = ground (arith, free) in
      let later : is_taken vs label ≡ false = ground (arith, free) in
      elim (Bool-cases (label_compare v.label path)) [
        | inl same ↦
            let equal =
              (name_compare-same v.label a.0).1 ((label_compare-same v.label a.0).0 same) in
            absurd (ground (arith, equal, apart))
        | inr other ↦ rw other (get-append vs id ref removable a.1 later)
      ]

  -- Where all labels are proper, and no volume has the new one, `vfs_attach_simple` succeeds, and
  -- `volume_get` then finds the new volume by any path that begins with its label and a ':'.
  pub get-attach :
      (vs : List Volume) (id : ℕ) (removable : Bool)
      → AllLabels vs
      → is_taken vs label ≡ false
      → (let (attached, result) = vfs_attach_simple vs id label removable in
          (result ≡ value 0) × ((volume_get attached path).1 ≡ some id))
  unfolding vfs_attach_simple
  get-attach vs id removable a free =
      let fits : leb max_name (strlen label) ≡ false =
        ground (arith, strlen-length label, is.short) in
      rw (fits, free) (refl, get-append vs id 1 removable a free)
