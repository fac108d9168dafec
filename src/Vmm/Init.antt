-- ===== src/Vmm/Init.antt =====
-- space_init of src/kernel/space.c: a new address space shows the kernel's upper half and nothing else.
use asym.Base.{
  ℕ, zero, suc, ◌≤◌, ◌<◌, ◌≡◌, ◌≢◌, refl, sym, ap, subst, ◌∙◌, arith, true, false, ltb, leb, ltb→lt,
  leb→le, none, some, List, [], ◌∷◌, length, ◌==◌, if◌then◌else◌, Bool-cases, Option-cases, inl,
  inr,
}
use asym.Pmm.Bitmap.{done}
use asym.Pmm.Supply.{Taken, pmm_alloc-Supply}
use asym.Pml.{Paging, entry_address, is_owned, pml_get_index, with_blank}
unfoldable use asym.Pml.{pml_new, pml_get, is_present}
use asym.Pml.Shape.{Places, At, Shaped, child-get, index-lt}
use asym.Pml.Look.{entry_at, entry_at-look}
unfoldable use asym.Pml.Look.{look}
use asym.Vmm.{Space, upper_half_from}
unfoldable use asym.Vmm.{space_init}

-- The kernel's tables in the upper half become part of the new tree, under its root `a`.
abbrev adopted : Places → ℕ → ℕ → Places
adopted p kernel a = record {
  rank = λ x.
      if x == a then 5 else if x == kernel then 0 else if leb (p.rank x) 4 then p.rank x else 0;
  parent = λ x. if p.parent x == kernel then a else p.parent x;
  slot = p.slot;
}

module _ {s : Paging} {kernel a : ℕ} {xs : List ℕ} {p : Places} (shape : Shaped s kernel (a ∷ xs) p)
    (took : Taken s.pmm a xs) where
  abbrev after : Paging
  after = upper_half_from (with_blank s a took.pmm) kernel a

  unused : p.rank a ≡ 0
  unused = elim (Bool-cases (p.rank a == 0)) [
    | inl z ↦ ground (arith, z)
    | inr z ↦ absurd ((shape.used a (ground (arith, z))).0 refl)
  ]

  apart : (t : ℕ) → p.rank t ≢ 0 → t ≢ a
  apart t h q = h (ap p.rank q ∙ unused)

  kernel-apart : kernel ≢ a
  kernel-apart = apart kernel (omega (arith, shape.root_rank))

  entry-old : (t j : ℕ) → t ≢ a → after.entries t j ≡ s.entries t j
  entry-old t j ne = ground (arith, ne)

  entry-upper : (j : ℕ) → 256 ≤ j → j < 512 → after.entries a j ≡ s.entries kernel j
  entry-upper j low high = let ne = kernel-apart in ground (arith, ne)

  entry-lower : (j : ℕ) → j < 256 → after.entries a j ≡ 0
  entry-lower j low = ground arith

  get-old : (t j : ℕ) → t ≢ a → pml_get after t j ≡ pml_get s t j
  unfolding pml_get
  get-old t j ne =
      ap (λ e. if is_present e then some (entry_address e) else none) (entry-old t j ne)

  get-upper : (j : ℕ) → 256 ≤ j → j < 512 → pml_get after a j ≡ pml_get s kernel j
  unfolding pml_get
  get-upper j low high =
      ap (λ e. if is_present e then some (entry_address e) else none) (entry-upper j low high)

  get-lower : (j : ℕ) → j < 256 → pml_get after a j ≡ none
  unfolding pml_get is_present
  get-lower j low =
      ap (λ e. if is_present e then some (entry_address e) else none) (entry-lower j low)

  blank_absent : {e : ℕ} → e ≡ 0 → is_present e ≢ true
  unfolding is_present
  blank_absent e h = ground (arith, e, h)

  look-old : (n t v : ℕ) → p.rank t ≡ suc (suc n) → look after n t v ≡ look s n t v
  unfolding look
  look-old zero t v h =
      ap (λ e. if is_present e then some e else none)
        (entry-old t (pml_get_index v 1) (apart t (omega (arith, h))))
  look-old (suc n) t v h =
      rw (get-old t (pml_get_index v (suc (suc n))) (apart t (omega (arith, h))))
        (elim (Option-cases (pml_get s t (pml_get_index v (suc (suc n))))) [
          | inl f ↦ rw f
          | inr (c, f) ↦ rw f (
              look-old n c v
                (child-get shape t (pml_get_index v (suc (suc n))) n c h (index-lt v (suc (suc n)))
                  f).rank)
        ])

  upper : (v : ℕ) → 256 ≤ pml_get_index v 4 → entry_at after a v ≡ entry_at s kernel v
  unfolding look
  upper v h =
      entry_at-look after a v
      ∙ rw (get-upper (pml_get_index v 4) h (index-lt v 4))
          (elim (Option-cases (pml_get s kernel (pml_get_index v 4))) [
            | inl f ↦ rw f
            | inr (c, f) ↦ rw f (
                look-old 2 c v
                  (child-get shape kernel (pml_get_index v 4) 2 c shape.root_rank (index-lt v 4)
                    f).rank)
          ])
      ∙ sym (entry_at-look s kernel v)

  lower : (v : ℕ) → pml_get_index v 4 < 256 → entry_at after a v ≡ none
  unfolding look
  lower v h = entry_at-look after a v ∙ rw (get-lower (pml_get_index v 4) h)

  At-adopted :
      (c r t j : ℕ)
      → At p c (suc r) t j
      → suc r ≤ 4
      → (suc r ≡ 4 → t ≡ kernel)
      → (suc r ≢ 4 → t ≢ kernel)
      → At (adopted p kernel a) c (suc r) (if suc r == 4 then a else t) j
  At-adopted c r t j at few top below =
      let ca = apart c (omega (arith, at.rank)) in
      let ck : c ≢ kernel = λ q. absurd (omega (arith, at.rank, shape.root_rank, ap p.rank q)) in
      record {
        rank = ground (arith, ca, ck, at.rank);
        parent = elim (Bool-cases (suc r == 4)) [
          | inl e ↦ let here = top (ground (arith, e)) in ground (arith, here, at.parent, e)
          | inr e ↦ let ne = below (ground (arith, e)) in ground (arith, ne, at.parent, e)
        ];
        slot = at.slot;
      }

  after-child :
      (t j r : ℕ)
      → (adopted p kernel a).rank t ≡ suc (suc r)
      → j < 512
      → is_present (after.entries t j) ≡ true
      → (r ≡ 0 → is_owned (after.entries t j) ≡ true)
      → At (adopted p kernel a) (entry_address (after.entries t j)) (suc r) t j
  after-child t j r h k present owned = elim (Bool-cases (t == a)) [
    | inl q ↦
        let here : t ≡ a = ground (arith, q) in
        let top : r ≡ 3 = ground (arith, q, h) in
        elim (Bool-cases (ltb j 256)) [
          | inl low ↦ absurd (blank_absent (entry-lower j (ltb→lt j 256 low)) (rw here at present))
          | inr high ↦
              let same = entry-upper j (ground (arith, high)) k in
              let at =
                shape.child kernel j 3 shape.root_rank k (rw (here, same) at present)
                  (λ z. absurd (omega (arith, z))) in
              rw (here, same, top)
                (At-adopted (entry_address (s.entries kernel j)) 3 kernel j at (omega arith)
                  (λ e. refl) (λ e. absurd (e refl)))
        ]
    | inr q ↦
        let ne : t ≢ a = ground (arith, q) in
        let nk : t ≢ kernel = λ z. absurd (ground (arith, q, h, z)) in
        let rank_of : p.rank t ≡ suc (suc r) = ground (arith, q, nk, h) in
        let few : suc (suc r) ≤ 4 = ground (arith, q, nk, h, rank_of) in
        let same = entry-old t j ne in
        let at = shape.child t j r rank_of k (rw same at present) (λ z. rw same at owned z) in
        let low : (suc r == 4) ≡ false = ground (arith, few) in
        rw same (
          subst (λ u. At (adopted p kernel a) (entry_address (s.entries t j)) (suc r) u j)
            (ap (λ b. if b then a else t) low)
            (At-adopted (entry_address (s.entries t j)) r t j at (omega (arith, few))
              (λ e. absurd (omega (arith, few, e))) (λ e. nk)))
  ]

  ranked : (x : ℕ) → x ≢ a → (adopted p kernel a).rank x ≢ 0 → p.rank x ≢ 0
  ranked x ne h z = h (ground (arith, ne, z))

  after-Shaped : Shaped after a took.rest (adopted p kernel a)
  after-Shaped = record {
    supply = took.supply;
    root_rank = ground arith;
    child = after-child;
    used = λ x h. elim (Bool-cases (x == a)) [
      | inl q ↦ let here : x ≡ a = ground (arith, q) in rw here took.gone
      | inr q ↦ took.others x (shape.used x (ranked x (ground (arith, q)) h)).1
    ];
    pages = λ x h. elim (Bool-cases (x == a)) [
      | inl q ↦ let here : x ≡ a = ground (arith, q) in rw here took.page
      | inr q ↦ shape.pages x (ranked x (ground (arith, q)) h)
    ];
  }

-- A new address space: a tree of its own tables and the kernel's, which shows what the kernel's tables
-- show in the upper half, and nothing in the lower half.
pub space_init_lem :
    (s : Paging) (kernel : ℕ) (xs : List ℕ) (p : Places)
    → Shaped s kernel xs p
    → 1 ≤ length xs
    → (u : Space) × (rest : List ℕ) × (places : Places) × (space_init s kernel ≡ done u)
      × Shaped u.paging u.pml rest places
      × ((v : ℕ)
          → entry_at u.paging u.pml v
            ≡ (if leb 256 (pml_get_index v 4) then entry_at s kernel v else none))
unfolding space_init pml_new
space_init_lem s kernel [] p shape room = elim room [ ]
space_init_lem s kernel (a ∷ xs) p shape room =
    let took = pmm_alloc-Supply s.pmm a xs shape.supply in
    (
      record { paging = after shape took; pml = a; free_address = 0x400000 },
      took.rest,
      adopted p kernel a,
      rw took.returns,
      after-Shaped shape took,
      λ v. elim (Bool-cases (leb 256 (pml_get_index v 4))) [
        | inl e ↦ rw e (upper shape took v (leb→le 256 (pml_get_index v 4) e))
        | inr e ↦ rw e (lower shape took v (ground (arith, e)))
      ],
    )
