-- ===== src/Vmm/Cleanup.antt =====
-- space_cleanup of src/kernel/space.c gives back the user's half of an address space, not the kernel's.
use asym.Base.{
  ◌∙◌, ℕ, zero, suc, ◌-◌, ◌≤◌, ◌<◌, ◌≡◌, ◌≢◌, ap, arith, true, List, ◌==◌, leb, ltb, ltb→lt,
  if◌then◌else◌, Bool-cases, inl, inr,
}
use asym.Pmm.Stack.Lifo.{NotIn}
use asym.Pml.{Paging, entry_address, is_owned}
unfoldable use asym.Pml.{is_present}
use asym.Pml.Shape.{Places, At, Shaped}
use asym.Pml.Free.Once.{Freed, pml_free_lem}
use asym.Vmm.{Space, upper_half_cleared}
unfoldable use asym.Vmm.{space_cleanup}

-- The entry of the root below which a page is, `n` steps up.
abbrev pub top_slot : Places → ℕ → ℕ → ℕ
top_slot p zero x = p.slot x
top_slot p (suc n) x = top_slot p n (p.parent x)

-- The part of the tree below the lower half of the root.
abbrev pub lower_part : Places → ℕ → Places
lower_part p root = record p {
  rank = λ x.
      if x == root
      then 5
      else if leb 5 (p.rank x)
      then 0
      else if leb 256 (top_slot p (4 - p.rank x) x)
      then 0
      else p.rank x;
}

module _ {s : Paging} {root : ℕ} {xs : List ℕ} {p : Places} (shape : Shaped s root xs p) where
  abbrev cleared : Paging
  cleared = upper_half_cleared s root

  lower_rank :
      (x r : ℕ)
      → p.rank x ≡ suc r
      → suc r ≤ 4
      → top_slot p (4 - suc r) x < 256
      → (lower_part p root).rank x ≡ suc r
  lower_rank x r e few low =
      let ne : x ≢ root = λ q. absurd (omega (arith, ap p.rank q, shape.root_rank, e, few)) in
      rw e (ground (arith, ne, few, low))

  -- What is in the lower part.
  lower_part-rank :
      (x r : ℕ)
      → x ≢ root
      → (lower_part p root).rank x ≡ suc r
      → (p.rank x ≡ suc r) × (suc r ≤ 4) × (top_slot p (4 - suc r) x < 256)
  lower_part-rank x r ne e =
      let same : p.rank x ≡ suc r = ground (arith, ne, e) in
      let below : top_slot p (4 - p.rank x) x < 256 = ground (arith, ne, e) in
      (same, ground (arith, ne, e, same), rw same at below)

  lower_child :
      (t j r : ℕ)
      → (lower_part p root).rank t ≡ suc (suc r)
      → j < 512
      → is_present (cleared.entries t j) ≡ true
      → (r ≡ 0 → is_owned (cleared.entries t j) ≡ true)
      → At (lower_part p root) (entry_address (cleared.entries t j)) (suc r) t j
  unfolding is_present
  lower_child t j r h k present owned = elim (Bool-cases (t == root)) [
    | inl q ↦
        let here : t ≡ root = ground (arith, q) in
        let top : r ≡ 3 = ground (arith, q, h) in
        elim (Bool-cases (ltb j 256)) [
          | inr high ↦ absurd (ground (arith, q, high, k, present))
          | inl low ↦
              let same : cleared.entries t j ≡ s.entries t j = ground (arith, low) in
              let at =
                shape.child t j r (omega (arith, ap p.rank here, shape.root_rank, top)) k
                  (rw same at present) (λ z. absurd (omega (arith, z, top))) in
              rw same (record {
                rank =
                    lower_rank (entry_address (s.entries t j)) r at.rank (omega (arith, top))
                      (rw (top, at.slot) (ltb→lt j 256 low));
                parent = at.parent;
                slot = at.slot;
              })
        ]
    | inr q ↦
        let ne : t ≢ root = ground (arith, q) in
        let (rank_of, few, low) = lower_part-rank t (suc r) ne h in
        let same : cleared.entries t j ≡ s.entries t j = ground (arith, ne) in
        let at = shape.child t j r rank_of k (rw same at present) (λ z. rw same at owned z) in
        let deeper : 4 - suc r ≡ suc (4 - suc (suc r)) = omega (arith, few) in
        let down : top_slot p (4 - suc r) (entry_address (s.entries t j))
            ≡ top_slot p (4 - suc (suc r)) t =
          ap (λ n. top_slot p n (entry_address (s.entries t j))) deeper
          ∙ ap (top_slot p (4 - suc (suc r))) at.parent in
        rw same (record {
          rank =
              lower_rank (entry_address (s.entries t j)) r at.rank (omega (arith, few))
                (rw down low);
          parent = at.parent;
          slot = at.slot;
        })
  ]

  ranked : (x : ℕ) → (lower_part p root).rank x ≢ 0 → p.rank x ≢ 0
  ranked x h z = elim (Bool-cases (x == root)) [
    | inl e ↦
        let here : x ≡ root = ground (arith, e) in omega (arith, ap p.rank here, shape.root_rank, z)
    | inr e ↦ h (ground (arith, e, z))
  ]

  cleared-Shaped : Shaped cleared root xs (lower_part p root)
  cleared-Shaped = record {
    supply = shape.supply;
    root_rank = ground arith;
    child = lower_child;
    used = λ x h. shape.used x (ranked x h);
    pages = λ x h. shape.pages x (ranked x h);
  }

-- space_cleanup of an address space returns: it gives back the root and the tables and owned pages below its
-- lower half as pml_free does, and no table of the kernel below its upper half.
pub space_cleanup_lem :
    (u : Space) (xs : List ℕ) (p : Places)
    → Shaped u.paging u.pml xs p
    → (f : Freed
        (upper_half_cleared u.paging u.pml)
        u.pml
        xs
        (lower_part p u.pml)
        (space_cleanup u))
      × ((x : ℕ) → p.rank x ≢ 0 → x ≢ u.pml → 256 ≤ top_slot p (4 - p.rank x) x → NotIn x f.rest)
unfolding space_cleanup
space_cleanup_lem u xs p shape =
    let f =
      pml_free_lem (upper_half_cleared u.paging u.pml) u.pml xs (lower_part p u.pml)
        (cleared-Shaped shape) in
    (f, λ x h ne high. f.kept x (ground (arith, ne, high)) (shape.used x h))
