-- ===== src/Pml/Shape.antt =====
-- The tree of tables of src/kernel/pml.c: who leads to which table, what a walk finds, and that a table
-- has one way to it.
use asym.Base.{
  ℕ, zero, suc, ◌/◌, ◌%◌, ◌^◌, ◌<◌, ◌≡◌, ◌≢◌, sym, ap, ◌∙◌, arith, Bool, true, false, ◌&&◌, Option,
  none, some, List, ◌==◌, if◌then◌else◌, Option-cases, inl, inr,
}
use asym.Pmm.Stack.Lifo.{NotIn}
use asym.Pmm.Supply.{Supply, IsPage}
use asym.Pml.{
  Paging, entry_address, is_present, is_owned, pml_get_index, pml_get, with_entry, and_then, walk,
}

-- What each page is: rank 5 for the root, 4 to 2 for the tables of level 3 to 1, 1 for a page that is
-- owned, 0 for all else; and the table and the entry that lead to it.
pub record Places : Type 0 where
  pub rank : ℕ → ℕ
  pub parent : ℕ → ℕ
  pub slot : ℕ → ℕ

pub record At (p : Places) (c r table i : ℕ) : Type 0 where
  pub rank : p.rank c ≡ r
  pub parent : p.parent c ≡ table
  pub slot : p.slot c ≡ i

-- The tables of `root` form a tree, and none of them, nor a page they own, is free.
pub record Shaped (s : Paging) (root : ℕ) (xs : List ℕ) (p : Places) : Type 0 where
  pub supply : Supply s.pmm xs
  pub root_rank : p.rank root ≡ 5
  pub child :
      (table i r : ℕ)
      → p.rank table ≡ suc (suc r)
      → i < 512
      → is_present (s.entries table i) ≡ true
      → (r ≡ 0 → is_owned (s.entries table i) ≡ true)
      → At p (entry_address (s.entries table i)) (suc r) table i
  pub used : (x : ℕ) → p.rank x ≢ 0 → NotIn x xs
  pub pages : (x : ℕ) → p.rank x ≢ 0 → IsPage x

pub index-lt : (v level : ℕ) → pml_get_index v level < 512
unfolding pml_get_index
index-lt v level = omega arith

pub get-entry :
    (s : Paging) (table i d : ℕ)
    → pml_get s table i ≡ some d
    → (is_present (s.entries table i) ≡ true) × (entry_address (s.entries table i) ≡ d)
unfolding pml_get
get-entry s table i d e = ground (arith, e)

pub entry-get :
    (s : Paging) (table i : ℕ)
    → is_present (s.entries table i) ≡ true
    → pml_get s table i ≡ some (entry_address (s.entries table i))
unfolding pml_get
entry-get s table i e = rw e

pub none-get :
    (s : Paging) (table i : ℕ) → is_present (s.entries table i) ≡ false → pml_get s table i ≡ none
unfolding pml_get
none-get s table i e = rw e

-- `walk` at any depth: from a table of rank `n + 2` to that of level 1.
unfoldable pub find : Paging → ℕ → ℕ → ℕ → Option ℕ
find s zero table v = some table
find s (suc n) table v =
    and_then (pml_get s table (pml_get_index v (suc (suc n)))) (λ c. find s n c v)

pub walk-find : (s : Paging) (root v : ℕ) → walk s root v ≡ find s 3 root v
unfolding walk find
walk-find s root v = elim (Option-cases (pml_get s root (pml_get_index v 4))) [
  | inl e ↦ rw e
  | inr (c, e) ↦ rw e (elim (Option-cases (pml_get s c (pml_get_index v 3))) [
    | inl f ↦ rw f
    | inr (d, f) ↦
        rw f (elim (Option-cases (pml_get s d (pml_get_index v 2))) [
          | inl g ↦ rw g
          | inr (b, g) ↦ rw g
        ])
  ])
]

pub some≢none : {x : ℕ} {o : Option ℕ} → o ≡ some x → o ≢ none
some≢none e f = ground (arith, e, f)

-- One step of a walk that ends.
pub find-suc :
    (s : Paging) (n table v l : ℕ)
    → find s (suc n) table v ≡ some l
    → (c : ℕ) × (pml_get s table (pml_get_index v (suc (suc n))) ≡ some c) × (find s n c v ≡ some l)
unfolding find
find-suc s n table v l e = elim (Option-cases (pml_get s table (pml_get_index v (suc (suc n))))) [
  | inl f ↦ absurd (some≢none e (ap (λ o. and_then o (λ c. find s n c v)) f))
  | inr (c, f) ↦ (c, f, sym (ap (λ o. and_then o (λ c. find s n c v)) f) ∙ e)
]

-- The tables below level `n + 1` are reached by the same entries.
abbrev pub Same : ℕ → ℕ → ℕ → Type 0
Same zero v w = Unit
Same (suc n) v w = (pml_get_index v (suc (suc n)) ≡ pml_get_index w (suc (suc n))) × Same n v w

module _ {s : Paging} {root : ℕ} {xs : List ℕ} {p : Places} (shape : Shaped s root xs p) where
  pub child-get :
      (table i r c : ℕ)
      → p.rank table ≡ suc (suc (suc r))
      → i < 512
      → pml_get s table i ≡ some c
      → At p c (suc (suc r)) table i
  child-get table i r c e small g =
      let (present, address) = get-entry s table i c g in
      rw (← address) (shape.child table i (suc r) e small present (λ z. absurd (omega arith)))

  pub find-rank :
      (n table v l : ℕ) → p.rank table ≡ suc (suc n) → find s n table v ≡ some l → p.rank l ≡ 2
  unfolding find
  find-rank zero table v l e f = ground arith
  find-rank (suc n) table v l e f =
      let (c, g, rest) = find-suc s n table v l f in
      let at = child-get table (pml_get_index v (suc (suc n))) n c e (index-lt v (suc (suc n))) g in
      find-rank n c v l at.rank rest

  -- Two walks that end in one table took the same way.
  pub find_once :
      (n table other v w l : ℕ)
      → p.rank table ≡ suc (suc n)
      → p.rank other ≡ suc (suc n)
      → find s n table v ≡ some l
      → find s n other w ≡ some l
      → (table ≡ other) × Same n v w
  unfolding find
  find_once zero table other v w l a b e f = (ground arith, tt)
  find_once (suc n) table other v w l a b e f =
      let (c, g, rest) = find-suc s n table v l e in
      let (d, h, rest') = find-suc s n other w l f in
      let at = child-get table (pml_get_index v (suc (suc n))) n c a (index-lt v (suc (suc n))) g in
      let at' =
        child-get other (pml_get_index w (suc (suc n))) n d b (index-lt w (suc (suc n))) h in
      let (same, below) = find_once n c d v w l at.rank at'.rank rest rest' in
      (
        sym at.parent ∙ ap p.parent same ∙ at'.parent,
        (sym at.slot ∙ ap p.slot same ∙ at'.slot, below),
      )

-- The page of the 48 address bits that the tables translate.
unfoldable pub same_page : ℕ → ℕ → Bool
same_page v w = v / 2 ^ 12 % 2 ^ 36 == w / 2 ^ 12 % 2 ^ 36

pub Same-page :
    (v w : ℕ) → Same 3 v w → pml_get_index v 1 ≡ pml_get_index w 1 → same_page v w ≡ true
unfolding same_page pml_get_index
Same-page v w s e =
    let (a, (b, (c, _))) = s in
    let h : v / 2 ^ 12 % 2 ^ 36 ≡ w / 2 ^ 12 % 2 ^ 36 = omega (arith, a, b, c, e) in
    ground (arith, h)

pub page-index :
    (v w : ℕ)
    → same_page v w ≡ true
    → (pml_get_index v 4 ≡ pml_get_index w 4)
      × (pml_get_index v 3 ≡ pml_get_index w 3)
      × (pml_get_index v 2 ≡ pml_get_index w 2)
      × (pml_get_index v 1 ≡ pml_get_index w 1)
unfolding same_page pml_get_index
page-index v w e =
    let h : v / 2 ^ 12 % 2 ^ 36 ≡ w / 2 ^ 12 % 2 ^ 36 = ground (arith, e) in
    (omega arith, omega arith, omega arith, omega arith)

pub entry-with_entry :
    (s : Paging) (table i e t j : ℕ)
    → (with_entry s table i e).entries t j ≡ (if (t == table) && (j == i) then e else s.entries t j)
entry-with_entry s table i e t j = ground arith
