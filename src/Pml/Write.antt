-- ===== src/Pml/Write.antt =====
-- A write to an entry of a level 1 table, as pml_map, pml_unmap and pml_change_flags of
-- src/kernel/pml.c do it: the entry of one page changes.
use asym.Base.{
  ℕ, zero, suc, ◌<◌, ◌≡◌, ◌≢◌, refl, sym, ap, ◌∙◌, arith, true, false, ◌&&◌, Option, none, some,
  List, ◌==◌, if◌then◌else◌, Bool-cases, Option-cases, inl, inr,
}
use asym.Base.Maps.{update, update_self, update_ne}
use asym.Pmm.Stack.Lifo.{NotIn}
use asym.Pmm.Supply.{IsPage}
use asym.Pml.{
  Paging, entry_address, is_present, is_owned, pml_get_index, pml_get, with_entry, and_then,
}
use asym.Pml.Shape.{
  Places, At, Shaped, child-get, find_once, index-lt, same_page, page-index, Same-page, walk-find,
}
unfoldable use asym.Pml.Shape.{find}
use asym.Pml.Look.{leaf, look-found}
unfoldable use asym.Pml.Look.{entry_at}
use asym.Pml.Grow.{placed}

abbrev pub shown : ℕ → Option ℕ
shown e = if is_present e then some e else none

pub find-page :
    (s : Paging) (root v w : ℕ) → same_page w v ≡ true → find s 3 root w ≡ find s 3 root v
unfolding find
find-page s root v w h = let (a, b, c, _) = page-index w v h in rw (a, b, c) refl

unseen : (s : Paging) (root v : ℕ) → find s 3 root v ≡ none → entry_at s root v ≡ none
unfolding entry_at
unseen s root v e = ap (λ o. and_then o (λ l. leaf s l v)) (walk-find s root v ∙ e)

module _ {s : Paging} {root : ℕ} {xs : List ℕ} {p : Places} (shape : Shaped s root xs p) (l i e : ℕ)
    (rank_of : p.rank l ≡ 2) where
  abbrev written : Paging
  written = with_entry s l i e

  get-written : (t j : ℕ) → p.rank t ≢ 2 → pml_get written t j ≡ pml_get s t j
  unfolding pml_get
  get-written t j h =
      let ne : t ≢ l = λ q. h (ap p.rank q ∙ rank_of) in
      let same : written.entries t j ≡ s.entries t j = ground (arith, ne) in
      ap (λ e. if is_present e then some (entry_address e) else none) same

  pub find-written : (n t v : ℕ) → p.rank t ≡ suc (suc n) → find written n t v ≡ find s n t v
  unfolding find
  find-written zero t v h = refl
  find-written (suc n) t v h =
      rw (get-written t (pml_get_index v (suc (suc n))) (omega arith))
        (elim (Option-cases (pml_get s t (pml_get_index v (suc (suc n))))) [
          | inl f ↦ rw f
          | inr (c, f) ↦ rw f (
              find-written n c v
                (child-get shape t (pml_get_index v (suc (suc n))) n c h (index-lt v (suc (suc n)))
                  f).rank)
        ])

  leaf-written :
      (t v : ℕ) → ((t == l) && (pml_get_index v 1 == i)) ≡ false → leaf written t v ≡ leaf s t v
  leaf-written t v q =
      let same : written.entries t (pml_get_index v 1) ≡ s.entries t (pml_get_index v 1) =
        ground (arith, q) in
      ap shown same

  leaf-here : (v : ℕ) → pml_get_index v 1 ≡ i → leaf written l v ≡ shown e
  leaf-here v h =
      let same : written.entries l (pml_get_index v 1) ≡ e = ground (arith, h) in ap shown same

  -- The write shows at the addresses of one page.
  pub entry_at-written :
      (v : ℕ)
      → find s 3 root v ≡ some l
      → pml_get_index v 1 ≡ i
      → (w : ℕ) → entry_at written root w ≡ (if same_page w v then shown e else entry_at s root w)
  entry_at-written v f h w =
      let kept = find-written 3 root w shape.root_rank in
      elim (Bool-cases (same_page w v)) [
        | inl q ↦
            let (_, _, _, d) = page-index w v q in
            rw q (
              look-found written root w l (kept ∙ find-page s root v w q ∙ f) ∙ leaf-here w (d ∙ h))
        | inr q ↦ rw q (elim (Option-cases (find s 3 root w)) [
          | inl g ↦ unseen written root w (kept ∙ g) ∙ sym (unseen s root w g)
          | inr (t, g) ↦
              look-found written root w t (kept ∙ g)
              ∙ leaf-written t w (apart w t q g)
              ∙ sym (look-found s root w t g)
        ])
      ]
    where
      apart :
          (w t : ℕ)
          → same_page w v ≡ false
          → find s 3 root w ≡ some t
          → ((t == l) && (pml_get_index w 1 == i)) ≡ false
      apart w t q g = elim (Bool-cases ((t == l) && (pml_get_index w 1 == i))) [
        | inl r ↦
            let x : t ≡ l = ground (arith, r) in
            let y : pml_get_index w 1 ≡ i = ground (arith, r) in
            let once =
              find_once shape 3 root root w v l shape.root_rank shape.root_rank (g ∙ ap some x) f in
            absurd (ground (arith, q, Same-page w v once.1 (y ∙ sym h)))
        | inr r ↦ r
      ]

  -- The tree stays one where a present entry that owns its page is the way to it.
  pub written-Shaped :
      (is_present e ≡ true → is_owned e ≡ true → At p (entry_address e) 1 l i)
      → Shaped written root xs p
  written-Shaped way = record {
    supply = shape.supply;
    root_rank = shape.root_rank;
    child = child;
    used = shape.used;
    pages = shape.pages;
  }
    where
      child :
          (t j r : ℕ)
          → p.rank t ≡ suc (suc r)
          → j < 512
          → is_present (written.entries t j) ≡ true
          → (r ≡ 0 → is_owned (written.entries t j) ≡ true)
          → At p (entry_address (written.entries t j)) (suc r) t j
      child t j r h k present owned = elim (Bool-cases ((t == l) && (j == i))) [
        | inl q ↦
            let x : t ≡ l = ground (arith, q) in
            let y : j ≡ i = ground (arith, q) in
            let z : r ≡ 0 = omega (arith, h, rank_of, ap p.rank x) in
            let same : written.entries t j ≡ e = ground (arith, q) in
            rw (same, x, y, z) (way (rw same at present) (rw same at owned z))
        | inr q ↦
            let same : written.entries t j ≡ s.entries t j = ground (arith, q) in
            rw same (shape.child t j r h k (rw same at present) (λ z. rw same at owned z))
      ]

  -- A page that is neither free nor part of the tree becomes the page of an entry.
  pub claimed-Shaped :
      (c : ℕ) → p.rank c ≡ 0 → NotIn c xs → IsPage c → Shaped s root xs (placed p c 1 l i)
  claimed-Shaped c zero_rank unlisted page = record {
    supply = shape.supply;
    root_rank =
        update_ne p.rank c 1 root (apart root (omega (arith, shape.root_rank))) ∙ shape.root_rank;
    child = λ t j r h k present owned.
        let ne = tables t (suc r) h (omega arith) in
        let at = shape.child t j r (sym (update_ne p.rank c 1 t ne) ∙ h) k present owned in
        let ne' = apart (entry_address (s.entries t j)) (omega (arith, at.rank)) in
        record {
          rank = update_ne p.rank c 1 (entry_address (s.entries t j)) ne' ∙ at.rank;
          parent = update_ne p.parent c l (entry_address (s.entries t j)) ne' ∙ at.parent;
          slot = update_ne p.slot c i (entry_address (s.entries t j)) ne' ∙ at.slot;
        };
    used = λ x h. elim (Bool-cases (x == c)) [
      | inl q ↦ let here : x ≡ c = ground (arith, q) in rw here unlisted
      | inr q ↦
          let ne : x ≢ c = ground (arith, q) in
          shape.used x (λ z. h (update_ne p.rank c 1 x ne ∙ z))
    ];
    pages = λ x h. elim (Bool-cases (x == c)) [
      | inl q ↦ let here : x ≡ c = ground (arith, q) in rw here page
      | inr q ↦
          let ne : x ≢ c = ground (arith, q) in
          shape.pages x (λ z. h (update_ne p.rank c 1 x ne ∙ z))
    ];
  }
    where
      apart : (t : ℕ) → p.rank t ≢ 0 → t ≢ c
      apart t h q = h (ap p.rank q ∙ zero_rank)

      tables : (t r : ℕ) → update p.rank c 1 t ≡ suc r → r ≢ 0 → t ≢ c
      tables t r h k q = k (omega (arith, sym (update_self p.rank c 1), ap (update p.rank c 1) q))
