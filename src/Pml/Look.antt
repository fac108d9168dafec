-- ===== src/Pml/Look.antt =====
-- The address space as src/kernel/pml.c's tables show it: each address with the entry of its page.
use asym.Base.{
  ℕ, zero, suc, ◌≡◌, refl, sym, ap, ◌∙◌, Bool, true, false, Option, none, some, if◌then◌else◌,
  Bool-cases, Option-cases, inl, inr, arith,
}
use asym.Pml.{Paging, is_present, pml_get_index, pml_get, and_then, walk, is_mapped}
use asym.Pml.Shape.{walk-find}
unfoldable use asym.Pml.Shape.{find}

abbrev pub leaf : Paging → ℕ → ℕ → Option ℕ
leaf s level1 v =
    if is_present (s.entries level1 (pml_get_index v 1))
    then some (s.entries level1 (pml_get_index v 1))
    else none

-- The entry that a walk from the root leads to, where all tables and the page are present.
unfoldable pub entry_at : Paging → ℕ → ℕ → Option ℕ
entry_at s root v = and_then (walk s root v) (λ level1. leaf s level1 v)

-- `entry_at` from a table of rank `n + 2`
unfoldable pub look : Paging → ℕ → ℕ → ℕ → Option ℕ
look s zero table v = leaf s table v
look s (suc n) table v =
    and_then (pml_get s table (pml_get_index v (suc (suc n)))) (λ c. look s n c v)

look-find :
    (s : Paging) (n table v : ℕ) → look s n table v ≡ and_then (find s n table v) (λ l. leaf s l v)
unfolding look find
look-find s zero table v = refl
look-find s (suc n) table v =
    elim (Option-cases (pml_get s table (pml_get_index v (suc (suc n))))) [
      | inl e ↦ rw e
      | inr (c, e) ↦ rw e (look-find s n c v)
    ]

pub entry_at-look : (s : Paging) (root v : ℕ) → entry_at s root v ≡ look s 3 root v
unfolding entry_at
entry_at-look s root v =
    ap (λ o. and_then o (λ l. leaf s l v)) (walk-find s root v) ∙ sym (look-find s 3 root v)

-- What a walk that finds its table shows.
pub look-found :
    (s : Paging) (root v l : ℕ) → find s 3 root v ≡ some l → entry_at s root v ≡ leaf s l v
unfolding entry_at
look-found s root v l e = ap (λ o. and_then o (λ l. leaf s l v)) (walk-find s root v ∙ e)

-- Where an entry shows, the walk finds its table.
pub entry_at-found :
    (s : Paging) (root v e : ℕ)
    → entry_at s root v ≡ some e
    → (l : ℕ) × (walk s root v ≡ some l)
      × (is_present (s.entries l (pml_get_index v 1)) ≡ true)
      × (s.entries l (pml_get_index v 1) ≡ e)
unfolding entry_at
entry_at-found s root v e h = elim (Option-cases (walk s root v)) [
  | inl f ↦ absurd (ground (arith, ap (λ o. and_then o (λ l. leaf s l v)) f, h))
  | inr (l, f) ↦
      let shown : leaf s l v ≡ some e = sym (ap (λ o. and_then o (λ l. leaf s l v)) f) ∙ h in
      elim (Bool-cases (is_present (s.entries l (pml_get_index v 1)))) [
        | inl g ↦ (l, f, g, ground (arith, shown, g))
        | inr g ↦ absurd (ground (arith, shown, g))
      ]
]

-- Whether an entry shows is what one round of pml_mapped tests.
abbrev pub is_some : Option ℕ → Bool
is_some none = false
is_some (some e) = true

pub is_mapped-entry_at :
    (s : Paging) (root v : ℕ) → is_mapped s root v ≡ is_some (entry_at s root v)
unfolding is_mapped entry_at
is_mapped-entry_at s root v = elim (Option-cases (walk s root v)) [
  | inl e ↦ rw e
  | inr (l, e) ↦ rw e (elim (Bool-cases (is_present (s.entries l (pml_get_index v 1)))) [
    | inl f ↦ rw f
    | inr f ↦ rw f
  ])
]
